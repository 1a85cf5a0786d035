-- ===== src/Delivery/Outbox/Idle.antt =====
-- When a worker gets nothing.
use zhixu.Prelude.{
  ℕ, ◌+◌, String, ◌≡◌, refl, ◌≢◌, inl, inr, true, false, Option, none, some, List, [], ◌∷◌, arith,
  Bool-cases, Option-cases,
}
use zhixu.Prelude.Result.{ok}
use zhixu.Prelude.Table.{In, select_where, select_where-In}
use zhixu.Domain.Time.{DateTime}
use zhixu.Delivery.Outbox.Tables.{Delivery, Store}
use zhixu.Delivery.Outbox.Claim.{
  Claim, claim, claim_first, can_claim, claimed, first_row, no_accounts, on_account,
}
use zhixu.Delivery.Outbox.Rows.{UniqueIds}
use zhixu.Delivery.Outbox.Order.{first_row-none}
use zhixu.Delivery.Outbox.Selection.{leased, claim_first-idle, claim_first-taken}

claimed-some : (c : Claim) (expires : ℕ) (row : Delivery) → claimed c expires row ≢ ok none
unfolding claimed
claimed-some c expires row h = ground arith

-- No row is due for the worker.
abbrev pub IsIdle : Store → Claim → ℕ → Type 0
IsIdle s c now = (row : Delivery) → In row s.deliveries → can_claim now c.accounts row ≡ false

nothing_due :
    (s : Store) (c : Claim) (now : ℕ)
    → select_where (can_claim now c.accounts) s.deliveries ≡ []
    → IsIdle s c now
nothing_due s c now e row i = elim (Bool-cases (can_claim now c.accounts row)) [
  | inl y ↦ absurd (rw e at (select_where-In (can_claim now c.accounts) s.deliveries row i y))
  | inr n ↦ n
]

claim_first-none :
    (s t : Store) (c : Claim) (now : ℕ)
    → UniqueIds s.deliveries
    → claim_first s c now ≡ (ok none, t)
    → IsIdle s c now × (t ≡ s)
claim_first-none s t c now u h =
    elim (Option-cases (first_row (select_where (can_claim now c.accounts) s.deliveries))) [
      | inl e ↦ (
        nothing_due s c now
            (first_row-none (select_where (can_claim now c.accounts) s.deliveries) e),
        cc (claim_first-idle s c now u e),
      )
      | inr (row, e) ↦ absurd (
          claimed-some c (now + c.lease_for) (leased c now row)
            (cc (claim_first-taken s c now u row e)))
    ]

none_matches :
    (accounts : Option (List (String × String))) (row : Delivery)
    → no_accounts accounts ≡ true
    → on_account accounts row ≡ false
none_matches none row h = cc
none_matches (some []) row h = refl
none_matches (some (a ∷ more)) row h = cc

no_accounts-IsIdle :
    (s : Store) (c : Claim) (now : ℕ) → no_accounts c.accounts ≡ true → IsIdle s c now
unfolding can_claim
no_accounts-IsIdle s c now h row i = ground (arith, none_matches c.accounts row h)

-- Where ids are unique, a claim that is answered with None found no delivery due on the worker's
-- accounts, and has changed nothing.
pub claim-none :
    (s t : Store) (c : Claim) (now : DateTime)
    → UniqueIds s.deliveries
    → claim s c now ≡ (ok none, t)
    → IsIdle s c now.instant × (t ≡ s)
unfolding claim
claim-none s t c now u h = elim (Bool-cases (no_accounts c.accounts)) [
  | inl y ↦ (no_accounts-IsIdle s c now.instant y, ground arith)
  | inr n ↦ claim_first-none s t c now.instant u (ground arith)
]
