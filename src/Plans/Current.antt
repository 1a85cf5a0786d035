-- ===== src/Plans/Current.antt =====
-- A plan that was just stored is the one that the conversation waits on, and the only one
-- (src/zhixu/adapters/storage/sqlite/pending_plans.py).
use zhixu.Prelude.{
  ◌+◌, ◌<◌, String, ◌≡◌, refl, sym, ap, ◌∙◌, ◌≢◌, inl, inr, Bool, true, false, not, ◌&&◌, ◌||◌,
  none, some, List, [], ◌∷◌, ◌++◌, arith, eq_iff, ltb, Bool-cases, Option-cases, any, str_eq,
  str_eq_refl,
}
use zhixu.Prelude.Result.{ok}
use zhixu.Prelude.Table.{
  In, update_where, select_one, select_where, In-update_where, In-append, select_one-some,
}
use zhixu.Plans.Single.{closed_for}
use zhixu.Domain.Time.{DateTime}
use zhixu.Plans.{
  Plan, PlanStore, is_live, has_id, open_for, accepted, with_state, Put, new_plan,
  StoredPendingPlan, from_row, get, put, current,
}

module _ {A : Type 0} where
  -- The last row is the only one that satisfies the test.
  select_where-last :
      (p : A → Bool) (xs : List A) (a : A)
      → ((x : A) → In x xs → p x ≡ false)
      → p a ≡ true
      → select_where p (xs ++ a ∷ []) ≡ a ∷ []
  unfolding select_where
  select_where-last p [] a k h = ground arith
  select_where-last p (x ∷ xs) a k h =
      ground (arith, k x (inl refl), select_where-last p xs a (λ y m. k y (inr m)) h)

  select_one-last :
      (p : A → Bool) (xs : List A) (a : A)
      → ((x : A) → In x xs → p x ≡ false)
      → p a ≡ true
      → select_one p (xs ++ a ∷ []) ≡ some a
  unfolding select_one
  select_one-last p [] a k h = ground arith
  select_one-last p (x ∷ xs) a k h =
      ground (arith, k x (inl refl), select_one-last p xs a (λ y m. k y (inr m)) h)

put-result :
    (s t : PlanStore) (p : Put) (now : DateTime) (plan : StoredPendingPlan)
    → put s p now ≡ ok (plan, t)
    → (plan ≡ from_row (new_plan p now.instant))
      × (t ≡ record s {
        plans =
            update_where (open_for p.actor_user_id p.target_ref) (with_state accepted) s.plans
            ++ new_plan p now.instant ∷ [];
      })
unfolding put
put-result s t p now plan h =
    let clash =
      any (has_id (new_plan p now.instant).id) s.plans
      || not (any (str_eq p.actor_user_id) s.users) in
    elim (Bool-cases now.aware) [
      | inr n ↦ absurd (ground arith)
      | inl y ↦ elim (Bool-cases clash) [ inl c ↦ absurd (ground arith) | inr c ↦ ground arith ]
    ]

-- The rows before the new one, once they are closed.
closed_rows :
    (s : PlanStore) (actor target : String) (x : Plan)
    → In x (update_where (open_for actor target) (with_state accepted) s.plans)
    → open_for actor target x ≡ false
closed_rows s actor target x m =
    let (b, _, x_is) = In-update_where (open_for actor target) (with_state accepted) s.plans x m in
    ap (open_for actor target) x_is
    ∙ closed_for actor target actor target b (str_eq_refl actor) (str_eq_refl target)

other_none :
    (s : PlanStore) (p : Put) (now later : DateTime)
    → later.aware ≡ true
    → (i : String) → i ≢ (new_plan p now.instant).id
    → get
        (record s {
          plans =
              update_where (open_for p.actor_user_id p.target_ref) (with_state accepted) s.plans
              ++ new_plan p now.instant ∷ [];
        })
        i
        p.actor_user_id
        p.target_ref
        later
      ≡ ok none
unfolding get
other_none s p now later a i n =
    let rows = update_where (open_for p.actor_user_id p.target_ref) (with_state accepted) s.plans in
    let row = new_plan p now.instant in
    let live = is_live i p.actor_user_id p.target_ref later.instant in
    elim (Option-cases (select_one live (rows ++ row ∷ []))) [
      | inl e ↦ rw (a, e) refl
      | inr (x, e) ↦
          let (m, l) = select_one-some live (rows ++ row ∷ []) x e in
          elim (In-append rows (row ∷ []) x m) [
            | inl k ↦
                let shut = closed_rows s p.actor_user_id p.target_ref x k in
                absurd (unfold is_live in ground arith)
            | inr (inl x_is) ↦ absurd (
                n (
                  let same_id : has_id i x ≡ true = unfold is_live in ground arith in
                  sym ((eq_iff x.id i).0 same_id) ∙ ap (λ z. z.id) x_is))
            | inr (inr none_left) ↦ absurd none_left
          ]
    ]

-- After a plan is stored, until it expires it is the one that the conversation waits on, it is found
-- by its id, and no other plan of the conversation is found.
pub put-current :
    (s t : PlanStore) (p : Put) (now later : DateTime) (plan : StoredPendingPlan)
    → put s p now ≡ ok (plan, t)
    → later.aware ≡ true
    → later.instant < now.instant + p.ttl
    → (current t p.actor_user_id p.target_ref later ≡ ok (some plan))
      × (get t plan.id p.actor_user_id p.target_ref later ≡ ok (some plan))
      × ((i : String) → i ≢ plan.id → get t i p.actor_user_id p.target_ref later ≡ ok none)
unfolding put current get
put-current s t p now later plan h a l =
    let rows = update_where (open_for p.actor_user_id p.target_ref) (with_state accepted) s.plans in
    let row = new_plan p now.instant in
    let closed = closed_rows s p.actor_user_id p.target_ref in
    let (plan_is, t_is) = put-result s t p now plan h in
    let in_time : ltb later.instant (now.instant + p.ttl) ≡ true = ground arith in
    let alone =
      select_where-last
        (λ r. open_for p.actor_user_id p.target_ref r && ltb later.instant r.expires_at) rows row
        (λ x m. ground (arith, closed x m))
        (rw (str_eq_refl p.actor_user_id, str_eq_refl p.target_ref) in_time) in
    let found =
      select_one-last (is_live row.id p.actor_user_id p.target_ref later.instant) rows row
        (λ x m. unfold is_live in ground (arith, closed x m))
        (unfold is_live in
          rw (str_eq_refl row.id, str_eq_refl p.actor_user_id, str_eq_refl p.target_ref) in_time) in
    rw (t_is, plan_is) (rw (a, alone) refl, rw (a, found) refl, other_none s p now later a)
