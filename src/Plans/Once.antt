-- ===== src/Plans/Once.antt =====
-- A plan is confirmed at most once (src/zhixu/adapters/storage/sqlite/pending_plans.py), however the
-- calls that follow are ordered.
use zhixu.Prelude.{
  String, ◌≡◌, refl, sym, ap, ◌∙◌, inl, inr, Bool, true, false, none, List, [], ◌∷◌, ◌++◌, arith,
  eq_iff, if◌then◌else◌, Bool-cases, Option-cases, any, str_eq, str_eq_comm,
}
use zhixu.Prelude.Result.{ok}
use zhixu.Prelude.Table.{
  In, update_where, count_where-none, count_where-some, select_one, In-update_where,
  update_where-In, In-append, In-append_left, any-false, select_one-some,
}
use zhixu.Domain.Time.{DateTime}
use zhixu.Plans.{
  Plan, PlanStore, is_open, is_live, has_id, open_for, open_id, accepted, with_state, new_plan, get,
  consume,
}
use zhixu.Plans.Calls.{Call, step, run}
use zhixu.Plans.Effect.{Effect, same, updated, added, step-Effect}

-- The table has a row with the id, and none with it is open.
pub record Settled (i : String) (s : PlanStore) : Type 0 where
  pub row : Plan
  pub stands : In row s.plans
  pub known : has_id i row ≡ true
  pub closed : (x : Plan) → In x s.plans → open_id i x ≡ false

update-Settled :
    (i : String) (s : PlanStore) (q : Plan → Bool) (f : Plan → Plan)
    → ((x : Plan) → q x ≡ true → is_open (f x).state ≡ true → is_open x.state ≡ true)
    → ((x : Plan) → (f x).id ≡ x.id)
    → Settled i s
    → Settled i (record s { plans = update_where q f s.plans })
update-Settled i s q f o e h = record {
  row = if q h.row then f h.row else h.row;
  stands = update_where-In q f s.plans h.row h.stands;
  known = elim (Bool-cases (q h.row)) [ inl y ↦ rw (y, e h.row) h.known | inr n ↦ rw n h.known ];
  closed = λ x m.
      let (b, k, x_is) = In-update_where q f s.plans x m in
      ap (open_id i) x_is ∙ elim (Bool-cases (q b)) [
        | inl y ↦ let was = h.closed b k in rw (y, e b) (ground (arith, o b y))
        | inr n ↦ rw n (h.closed b k)
      ];
}

append-Settled :
    (i : String) (s : PlanStore) (row : Plan)
    → has_id i row ≡ false
    → Settled i s
    → Settled i (record s { plans = s.plans ++ row ∷ [] })
append-Settled i s row n h = record {
  row = h.row;
  stands = In-append_left s.plans (row ∷ []) h.row h.stands;
  known = h.known;
  closed = λ x m. elim (In-append s.plans (row ∷ []) x m) [
    | inl k ↦ h.closed x k
    | inr (inl x_is) ↦ ap (open_id i) x_is ∙ rw n refl
    | inr (inr none_left) ↦ absurd none_left
  ];
}

-- The id of the new plan is taken by no row.
other_id :
    (i fresh_id : String) (s : PlanStore)
    → any (has_id fresh_id) s.plans ≡ false
    → Settled i s
    → str_eq fresh_id i ≡ false
other_id i fresh_id s fresh h =
    let other : str_eq h.row.id fresh_id ≡ false =
      any-false (has_id fresh_id) s.plans h.row fresh h.stands in
    let row_is : h.row.id ≡ i = (eq_iff h.row.id i).0 h.known in
    str_eq_comm fresh_id i ∙ rw (sym row_is) other

Effect-Settled : (i : String) (s t : PlanStore) → Effect s t → Settled i s → Settled i t
unfolding new_plan
Effect-Settled i s t same h = h
Effect-Settled i s t (updated q f o e _ _) h = update-Settled i s q f o e h
Effect-Settled i s t (added p now fresh) h =
    let closing = open_for p.actor_user_id p.target_ref in
    append-Settled i (record s { plans = update_where closing (with_state accepted) s.plans })
      (new_plan p now) (other_id i (new_plan p now).id s fresh h)
      (update-Settled i s closing (with_state accepted) (λ x _ o. absurd (cc)) (λ _. refl) h)

step-Settled : (i : String) (s : PlanStore) (c : Call) → Settled i s → Settled i (step s c)
step-Settled i s c h = Effect-Settled i s (step s c) (step-Effect s c) h

run-Settled : (i : String) (s : PlanStore) (cs : List Call) → Settled i s → Settled i (run s cs)
unfolding run
run-Settled i s [] h = h
run-Settled i s (c ∷ cs) h = run-Settled i (step s c) cs (step-Settled i s c h)

consume-Settled :
    (s t : PlanStore) (i : String) (now : DateTime) → consume s i now ≡ ok (true, t) → Settled i t
unfolding consume
consume-Settled s t i now h = elim (Bool-cases now.aware) [
  | inl y ↦
      let rows = update_where (open_id i) (with_state accepted) s.plans in
      let t_is : t ≡ record s { plans = rows } = ground arith in
      let (x, m, o) = count_where-some (open_id i) s.plans (ground arith) in
      rw t_is (record {
        row = with_state accepted x;
        stands =
            (let there = update_where-In (open_id i) (with_state accepted) s.plans x m in
              rw o at there);
        known = ground arith;
        closed = λ z k.
            let (b, _, z_is) = In-update_where (open_id i) (with_state accepted) s.plans z k in
            ap (open_id i) z_is
            ∙ elim (Bool-cases (open_id i b)) [ inl e ↦ rw e (ground arith) | inr e ↦ rw e e ];
      })
  | inr n ↦ absurd (ground arith)
]

Settled-consume :
    (s : PlanStore) (i : String) (now : DateTime)
    → now.aware ≡ true
    → Settled i s
    → (t : PlanStore) × (consume s i now ≡ ok (false, t))
unfolding consume
Settled-consume s i now a h = (
  record s { plans = update_where (open_id i) (with_state accepted) s.plans },
  rw (a, count_where-none (open_id i) s.plans h.closed) refl,
)

Settled-get :
    (s : PlanStore) (i actor target : String) (now : DateTime)
    → now.aware ≡ true
    → Settled i s
    → get s i actor target now ≡ ok none
unfolding get
Settled-get s i actor target now a h =
    elim (Option-cases (select_one (is_live i actor target now.instant) s.plans)) [
      | inl n ↦ rw (a, n) refl
      | inr (x, e) ↦
          let (m, l) = select_one-some (is_live i actor target now.instant) s.plans x e in
          let shut = h.closed x m in absurd (unfold is_live in ground arith)
    ]

-- After a plan is consumed, whatever calls follow, it is not consumed again and no longer found, at
-- any time that is aware.
pub consume_once :
    (s t : PlanStore) (i actor target : String) (now later : DateTime) (cs : List Call)
    → consume s i now ≡ ok (true, t)
    → later.aware ≡ true
    → ((u : PlanStore) × (consume (run t cs) i later ≡ ok (false, u)))
      × (get (run t cs) i actor target later ≡ ok none)
consume_once s t i actor target now later cs h a =
    let settled = run-Settled i t cs (consume-Settled s t i now h) in
    (
      Settled-consume (run t cs) i later a settled,
      Settled-get (run t cs) i actor target later a settled,
    )
