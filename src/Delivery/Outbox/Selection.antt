-- ===== src/Delivery/Outbox/Selection.antt =====
-- Which delivery a worker gets, and when it gets none.
use zhixu.Prelude.{
  ℕ, ◌+◌, String, ◌≡◌, refl, inl, inr, Bool, true, false, Option, none, some, List, [], ◌∷◌, arith,
  Option-cases, any, str_eq_comm, str_eq_refl,
}
use zhixu.Prelude.Result.{ok}
use zhixu.Prelude.Table.{
  In, select_where, select_one, update_where, count_where, In-select_where, select_where-In,
  any-false, update_where-In,
}
use zhixu.Domain.Time.{DateTime}
use zhixu.Delivery.Outbox.Tables.{Delivery, Store, ClaimedDelivery, has_id}
use zhixu.Delivery.Outbox.Claim.{
  Claim, claim, claim_first, take_row, lease_row, may_lease, can_claim, claimed, first_row,
}
use zhixu.Delivery.Outbox.Rows.{UniqueIds, select_one-id, UniqueIds-update_where}
use zhixu.Delivery.Outbox.Order.{Precedes, row_leb-Precedes, IsFirst, first_row-IsFirst}

count-none :
    (i : String) (p : Delivery → Bool) (rows : List Delivery)
    → ((x : Delivery) → p x ≡ true → has_id i x ≡ true)
    → any (has_id i) rows ≡ false
    → count_where p rows ≡ 0
unfolding count_where
count-none i p [] k h = refl
count-none i p (x ∷ rows) k h = ground (arith, k x, count-none i p rows k)

-- Of the rows with one id there is one.
pub count-one :
    (row : Delivery) (p : Delivery → Bool) (rows : List Delivery)
    → ((x : Delivery) → p x ≡ true → has_id row.id x ≡ true)
    → UniqueIds rows
    → In row rows
    → p row ≡ true
    → count_where p rows ≡ 1
unfolding count_where
count-one row p [] k u i h = absurd i
count-one row p (x ∷ rows) k u (inl e) h = ground (arith, count-none x.id p rows, k)
count-one row p (x ∷ rows) k u (inr i) h = ground (
  arith,
  k x,
  count-one row p rows k u.1 i h,
  any-false (has_id x.id) rows row u.0 i,
  str_eq_comm x.id row.id,
)

-- The row after the lease is taken.
abbrev pub leased : Claim → ℕ → Delivery → Delivery
leased c now row = lease_row c.worker_id c.token (now + c.lease_for) now row

-- The store after the lease is taken.
abbrev pub take : Store → Claim → ℕ → Delivery → Store
take s c now row = record s {
  deliveries =
      update_where (may_lease row.id now) (lease_row c.worker_id c.token (now + c.lease_for) now)
        s.deliveries;
}

can_claim-may_lease :
    (now : ℕ) (accounts : Option (List (String × String))) (row : Delivery)
    → can_claim now accounts row ≡ true
    → may_lease row.id now row ≡ true
unfolding can_claim may_lease
can_claim-may_lease now accounts row h = ground (arith, str_eq_refl row.id)

may_lease-id : (i : String) (now : ℕ) (x : Delivery) → may_lease i now x ≡ true → has_id i x ≡ true
unfolding may_lease
may_lease-id i now x h = ground arith

module _ (s : Store) (c : Claim) (now : ℕ) (row : Delivery) (u : UniqueIds s.deliveries)
    (i : In row s.deliveries) (h : can_claim now c.accounts row ≡ true) where
  counted : count_where (may_lease row.id now) s.deliveries ≡ 1
  counted =
      count-one row (may_lease row.id now) s.deliveries (λ x. may_lease-id row.id now x) u i
        (can_claim-may_lease now c.accounts row h)

  pub leased-In : In (leased c now row) (take s c now row).deliveries
  leased-In = rw (can_claim-may_lease now c.accounts row h) at (
      update_where-In (may_lease row.id now) (lease_row c.worker_id c.token (now + c.lease_for) now)
        s.deliveries row i)

  refreshed : select_one (has_id row.id) (take s c now row).deliveries ≡ some (leased c now row)
  unfolding lease_row
  refreshed =
      select_one-id (take s c now row).deliveries (leased c now row)
        (UniqueIds-update_where (may_lease row.id now)
          (lease_row c.worker_id c.token (now + c.lease_for) now) s.deliveries (λ x. refl) u)
        leased-In

  -- The transaction on the row that was chosen: it succeeds, with the row as it then stands.
  take_row_lem :
      take_row s c now row ≡ (claimed c (now + c.lease_for) (leased c now row), take s c now row)
  unfolding take_row
  take_row_lem = ground (arith, counted, refreshed)

-- What a worker gets is the first, by priority, age and id, of the deliveries that are due and on
-- its accounts; it comes with one attempt more, under the drawn token, and exactly its row is leased.
pub record Takes (s : Store) (c : Claim) (now : ℕ) (d : ClaimedDelivery) (t : Store) : Type 0 where
  pub row : Delivery
  pub member : In row s.deliveries
  pub due : can_claim now c.accounts row ≡ true
  pub first :
      (other : Delivery)
      → In other s.deliveries
      → can_claim now c.accounts other ≡ true
      → Precedes row other
  pub id : d.id ≡ row.id
  pub attempts : d.attempts ≡ row.attempts + 1
  pub token : d.lease_token ≡ c.token
  pub expires : d.lease_expires_at ≡ now + c.lease_for
  pub store : t ≡ take s c now row

claimed-fields :
    (c : Claim) (expires now : ℕ) (row : Delivery) (d : ClaimedDelivery)
    → claimed c expires (lease_row c.worker_id c.token expires now row) ≡ ok (some d)
    → (d.id ≡ row.id)
      × (d.attempts ≡ row.attempts + 1)
      × (d.lease_token ≡ c.token)
      × (d.lease_expires_at ≡ expires)
unfolding claimed lease_row
claimed-fields c expires now row d h = ground arith

module _ (s : Store) (c : Claim) (now : ℕ) (u : UniqueIds s.deliveries) where
  -- The chosen row is due, and before all that are.
  chosen :
      (row : Delivery)
      → IsFirst row (select_where (can_claim now c.accounts) s.deliveries)
      → In row s.deliveries × (can_claim now c.accounts row ≡ true)
  chosen row f = In-select_where (can_claim now c.accounts) s.deliveries row f.member

  pub claim_first-taken :
      (row : Delivery)
      → first_row (select_where (can_claim now c.accounts) s.deliveries) ≡ some row
      → claim_first s c now ≡ (claimed c (now + c.lease_for) (leased c now row), take s c now row)
  unfolding claim_first
  claim_first-taken row e =
      let m =
        chosen row
          (first_row-IsFirst (select_where (can_claim now c.accounts) s.deliveries) row e) in
      rw (e, claim_first) (take_row_lem s c now row u m.0 m.1)

  pub claim_first-idle :
      first_row (select_where (can_claim now c.accounts) s.deliveries) ≡ none
      → claim_first s c now ≡ (ok none, s)
  unfolding claim_first
  claim_first-idle e = rw (e, claim_first)

  claim_first-Takes :
      (t : Store) (d : ClaimedDelivery) → claim_first s c now ≡ (ok (some d), t) → Takes s c now d t
  claim_first-Takes t d h =
      elim (Option-cases (first_row (select_where (can_claim now c.accounts) s.deliveries))) [
        | inl e ↦ absurd (nothing e)
        | inr (row, e) ↦ something row e
      ]
    where
      nothing : first_row (select_where (can_claim now c.accounts) s.deliveries) ≡ none → ⊥
      nothing e = cc (claim_first-idle e)

      something :
          (row : Delivery)
          → first_row (select_where (can_claim now c.accounts) s.deliveries) ≡ some row
          → Takes s c now d t
      something row e =
          let f = first_row-IsFirst (select_where (can_claim now c.accounts) s.deliveries) row e in
          let m = chosen row f in
          let eq = claim_first-taken row e in
          let got : claimed c (now + c.lease_for) (leased c now row) ≡ ok (some d) = cc eq in
          let fields = claimed-fields c (now + c.lease_for) now row d got in
          record {
            row = row;
            member = m.0;
            due = m.1;
            first = λ other i k.
                row_leb-Precedes row other (
                  f.first other
                    (select_where-In (can_claim now c.accounts) s.deliveries other i k));
            id = fields.0;
            attempts = fields.1;
            token = fields.2;
            expires = fields.3;
            store = cc eq;
          }

-- Where ids are unique, a claim that hands out a delivery took the first, by priority, age and id,
-- of those that are due on the worker's accounts; it hands it out with one attempt more, under the
-- drawn token and until the end of the lease, and the lease on that delivery is all that changes.
pub claim-Takes :
    (s t : Store) (c : Claim) (now : DateTime) (d : ClaimedDelivery)
    → UniqueIds s.deliveries
    → claim s c now ≡ (ok (some d), t)
    → Takes s c now.instant d t
unfolding claim
claim-Takes s t c now d u h = ground (arith, claim_first-Takes s c now.instant u t d)
