-- ===== src/Plans/Effect.antt =====
-- What a call of `PendingPlanStore` (src/zhixu/adapters/storage/sqlite/pending_plans.py) may do to the
-- table: nothing, an update that opens no plan, or a new plan.
use zhixu.Prelude.{
  ℕ, String, ◌≡◌, refl, inl, inr, Bool, true, false, ◌&&◌, [], ◌∷◌, ◌++◌, arith, ltb, ◌==◌,
  Bool-cases, any, str_eq,
}
use zhixu.Prelude.Table.{update_where, count_where}
use zhixu.Domain.Time.{DateTime}
use zhixu.Plans.{
  Plan, PlanStore, PlanState, pending, revising, accepted, is_open, is_pending, has_id, open_for,
  open_id, is_live, with_state, Put, new_plan, put, update_payload, reject, consume,
}
use zhixu.Plans.Calls.{Call, puts, updates, rejects, consumes, step}

pub data Effect (s : PlanStore) : PlanStore → Type 0 where
  same : Effect s s
  updated :
      (q : Plan → Bool) (f : Plan → Plan)
      → ((x : Plan) → q x ≡ true → is_open (f x).state ≡ true → is_open x.state ≡ true)
      → ((x : Plan) → (f x).id ≡ x.id)
      → ((x : Plan) → (f x).actor_user_id ≡ x.actor_user_id)
      → ((x : Plan) → (f x).target_ref ≡ x.target_ref)
      → Effect s (record s { plans = update_where q f s.plans })
  added :
      (p : Put) (now : ℕ)
      → any (has_id (new_plan p now).id) s.plans ≡ false
      → Effect s (record s {
        plans =
            update_where (open_for p.actor_user_id p.target_ref) (with_state accepted) s.plans
            ++ new_plan p now ∷ [];
      })

put-Effect : (s : PlanStore) (p : Put) (now : DateTime) → Effect s (step s (puts p now))
unfolding step put
put-Effect s p now = elim (Bool-cases now.aware) [
  | inr n ↦ rw n same
  | inl y ↦ elim (Bool-cases (any (has_id (new_plan p now.instant).id) s.plans)) [
    | inl taken ↦ rw (y, taken) same
    | inr free ↦ elim (Bool-cases (any (str_eq p.actor_user_id) s.users)) [
      | inl known ↦ rw (y, free, known) (added p now.instant free)
      | inr unknown ↦ rw (y, free, unknown) same
    ]
  ]
]

update_payload-Effect :
    (s : PlanStore) (i actor target payload : String) (now : DateTime)
    → Effect s (step s (updates i actor target payload now))
unfolding step update_payload
update_payload-Effect s i actor target payload now = elim (Bool-cases now.aware) [
  | inr n ↦ rw n same
  | inl y ↦ elim (Bool-cases (count_where (is_live i actor target now.instant) s.plans == 0)) [
    | inl no_row ↦ rw (y, no_row) same
    | inr rows ↦
        rw (y, rows)
          (updated (is_live i actor target now.instant)
            (λ row. record row { payload_json = payload }) (λ x _ o. o) (λ _. refl) (λ _. refl)
            (λ _. refl))
  ]
]

pending-open : (state : PlanState) → is_pending state ≡ true → is_open state ≡ true
pending-open pending h = refl
pending-open revising h = refl
pending-open accepted h = absurd (cc)

reject-Effect : (s : PlanStore) (i : String) (now : DateTime) → Effect s (step s (rejects i now))
unfolding step reject
reject-Effect s i now = elim (Bool-cases now.aware) [
  | inr n ↦ rw n same
  | inl y ↦ rw y (
      updated (λ row. has_id i row && (is_pending row.state && ltb now.instant row.expires_at))
        (with_state revising) (λ x t _. pending-open x.state (ground arith)) (λ _. refl) (λ _. refl)
        (λ _. refl))
]

consume-Effect : (s : PlanStore) (i : String) (now : DateTime) → Effect s (step s (consumes i now))
unfolding step consume
consume-Effect s i now = elim (Bool-cases now.aware) [
  | inr n ↦ rw n same
  | inl y ↦ rw y (
      updated (open_id i) (with_state accepted) (λ x _ o. absurd (cc)) (λ _. refl) (λ _. refl)
        (λ _. refl))
]

pub step-Effect : (s : PlanStore) (c : Call) → Effect s (step s c)
step-Effect s (puts p now) = put-Effect s p now
step-Effect s (updates i a t payload now) = update_payload-Effect s i a t payload now
step-Effect s (rejects i now) = reject-Effect s i now
step-Effect s (consumes i now) = consume-Effect s i now
