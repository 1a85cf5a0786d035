-- ===== src/Plans/Single.antt =====
-- At most one plan of a conversation waits for an answer
-- (src/zhixu/adapters/storage/sqlite/pending_plans.py).
use zhixu.Prelude.{
  ℕ, ◌≤◌, String, ◌≡◌, refl, sym, ap, ◌∙◌, inl, inr, Bool, true, false, ◌&&◌, List, [], ◌∷◌, ◌++◌,
  arith, eq_iff, if◌then◌else◌, Bool-cases, str_eq,
}
use zhixu.Prelude.Table.{
  count_where-update_where, count_where-none, count_where-last, In-update_where, update_where,
  count_where,
}
use zhixu.Plans.{Plan, PlanStore, accepted, is_open, concerns, open_for, with_state, Put, new_plan}
use zhixu.Plans.Effect.{Effect, same, updated, added, step-Effect}
use zhixu.Plans.Calls.{Call, step, run}

-- For every user and conversation at most one plan is open.
pub record Single (s : PlanStore) : Type 0 where
  pub single : (actor target : String) → count_where (open_for actor target) s.plans ≤ 1

-- The plans of the conversation are closed, so none of it is open.
pub closed_for :
    (actor target a t : String) (x : Plan)
    → str_eq actor a ≡ true
    → str_eq target t ≡ true
    → open_for a t (if open_for actor target x then with_state accepted x else x) ≡ false
closed_for actor target a t x e f = elim (Bool-cases (open_for actor target x)) [
  | inl y ↦ rw y (ground arith)
  | inr n ↦
      let same_actor : actor ≡ a = (eq_iff actor a).0 e in
      let same_target : target ≡ t = (eq_iff target t).0 f in
      rw (n, sym same_actor, sym same_target) n
]

kept_open :
    (q : Plan → Bool) (f : Plan → Plan)
    → ((x : Plan) → q x ≡ true → is_open (f x).state ≡ true → is_open x.state ≡ true)
    → ((x : Plan) → (f x).actor_user_id ≡ x.actor_user_id)
    → ((x : Plan) → (f x).target_ref ≡ x.target_ref)
    → (actor target : String) (x : Plan) → q x ≡ true
    → open_for actor target (f x) ≡ true
    → open_for actor target x ≡ true
kept_open q f o a g actor target x y z =
    let kept : concerns actor target x && is_open (f x).state ≡ true =
      sym (rw (a x, g x) refl) ∙ z in
    ground (arith, o x y)

added_open :
    (s : PlanStore) (p : Put) (now : ℕ) (actor target : String)
    → count_where (open_for actor target) s.plans ≤ 1
    → count_where (open_for actor target) (
        update_where (open_for p.actor_user_id p.target_ref) (with_state accepted) s.plans
        ++ new_plan p now ∷ [])
      ≤ 1
unfolding new_plan
added_open s p now actor target h =
    let rows = update_where (open_for p.actor_user_id p.target_ref) (with_state accepted) s.plans in
    let seen : ℕ = if open_for actor target (new_plan p now) then 1 else 0 in
    let last = count_where-last (open_for actor target) rows (new_plan p now) in
    let fewer =
      count_where-update_where (open_for actor target) (open_for p.actor_user_id p.target_ref)
        (with_state accepted) s.plans (λ x y z. absurd (ground arith)) in
    elim (Bool-cases (str_eq p.actor_user_id actor)) [
      | inl e ↦ elim (Bool-cases (str_eq p.target_ref target)) [
        | inl f ↦
            let closed : count_where (open_for actor target) rows ≡ 0 =
              count_where-none (open_for actor target) rows (λ x m.
                let (b, _, s_is) =
                  In-update_where (open_for p.actor_user_id p.target_ref) (with_state accepted)
                    s.plans x m in
                ap (open_for actor target) s_is
                ∙ closed_for p.actor_user_id p.target_ref actor target b e f) in
            (let one : seen ≤ 1 = rw (e, f) (omega arith) in omega (arith, last, closed, one))
        | inr f ↦ let unseen : seen ≡ 0 = ground arith in omega (arith, last, fewer, unseen, h)
      ]
      | inr e ↦ let unseen : seen ≡ 0 = ground arith in omega (arith, last, fewer, unseen, h)
    ]

Effect-Single : (s t : PlanStore) → Effect s t → Single s → Single t
Effect-Single s t same h = h
Effect-Single s t (updated q f o i a g) h = record {
  single = λ actor target. omega (
    arith,
    h.single actor target,
    count_where-update_where (open_for actor target) q f s.plans
        (λ x y z. kept_open q f o a g actor target x y z),
  );
}
Effect-Single s t (added p now fresh) h = record {
  single = λ actor target. added_open s p now actor target (h.single actor target);
}

step-Single : (s : PlanStore) (c : Call) → Single s → Single (step s c)
step-Single s c h = Effect-Single s (step s c) (step-Effect s c) h

-- Every run of the calls keeps it that at most one plan of a conversation is open.
pub run-Single : (s : PlanStore) (cs : List Call) → Single s → Single (run s cs)
unfolding run
run-Single s [] h = h
run-Single s (c ∷ cs) h = run-Single (step s c) cs (step-Single s c h)
