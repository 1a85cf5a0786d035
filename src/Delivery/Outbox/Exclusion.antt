-- ===== src/Delivery/Outbox/Exclusion.antt =====
-- The lease: while it runs the delivery stays with its holder, and after it was used it is void.
use zhixu.Prelude.{
  ℕ, ◌<◌, String, ◌≡◌, ◌⊎◌, inl, inr, false, some, List, [], ◌∷◌, arith, eq_iff, Bool-cases, All,
}
use zhixu.Prelude.Table.{In}
use zhixu.Delivery.Outbox.Tables.{Delivery, Store, sending, sent, dead}
use zhixu.Delivery.Outbox.Claim.{may_lease, owns_lease}
use zhixu.Delivery.Outbox.Calls.{
  Call, enqueues, claims, defers, completes, completes_lease, retries, run,
}
use zhixu.Delivery.Outbox.Rows.{WellFormed}
use zhixu.Delivery.Outbox.Untouched.{Misses, run-stays}

-- The row is under a lease until the moment `e`.
pub record Held (x : Delivery) (e : ℕ) : Type 0 where
  pub status : x.status ≡ sending
  pub expires : x.lease_expires_at ≡ some e

-- A call of somebody else than the holder `d`: a claim before the end of the lease, a completion or
-- a deferral under another id or another token, any enqueue; no retry of a dead letter.
abbrev pub IsForeign : Delivery → ℕ → Call → Type 0
IsForeign x e (enqueues q now) = Unit
IsForeign x e (claims c now) = now.instant < e
IsForeign x e (defers c next now reason) = (c.id ≡ x.id → c.lease_token ≡ x.lease_token → ⊥)
IsForeign x e (completes c r now) = (c.id ≡ x.id → c.lease_token ≡ x.lease_token → ⊥)
IsForeign x e (completes_lease i token r now) = (i ≡ x.id → token ≡ x.lease_token → ⊥)
IsForeign x e (retries dead_id actor now) = ⊥

not_owned :
    (x : Delivery) (i token : String)
    → (i ≡ x.id → token ≡ x.lease_token → ⊥)
    → owns_lease i token x ≡ false
not_owned x i token h = elim (Bool-cases (owns_lease i token x)) [
  | inr n ↦ n
  | inl y ↦ absurd (h (ground (arith, eq_iff x.id i)) (ground (arith, eq_iff x.lease_token token)))
]

not_leased :
    (x : Delivery) (e : ℕ) (j : String) (now : ℕ) → Held x e → now < e → may_lease j now x ≡ false
unfolding may_lease
not_leased x e j now k h = ground arith

IsForeign-Misses : (x : Delivery) (e : ℕ) (c : Call) → Held x e → IsForeign x e c → Misses x c
IsForeign-Misses x e (enqueues q now) k h = tt
IsForeign-Misses x e (claims c now) k h = λ j. not_leased x e j now.instant k h
IsForeign-Misses x e (defers c next now reason) k h = not_owned x c.id c.lease_token h
IsForeign-Misses x e (completes c r now) k h = not_owned x c.id c.lease_token h
IsForeign-Misses x e (completes_lease i token r now) k h = not_owned x i token h
IsForeign-Misses x e (retries dead_id actor now) k h = h

All-IsForeign-Misses :
    (x : Delivery) (e : ℕ) (cs : List Call) → Held x e → All (IsForeign x e) cs → All (Misses x) cs
All-IsForeign-Misses x e [] k h = tt
All-IsForeign-Misses x e (c ∷ cs) k h =
    (IsForeign-Misses x e c k h.0, All-IsForeign-Misses x e cs k h.1)

-- In a well-formed store, a delivery that is leased until the moment `e` keeps its row unchanged
-- through any calls made of enqueues, claims before `e`, and completions and deferrals that name
-- another delivery or another token.
pub lease_holds :
    (s : Store) (x : Delivery) (e : ℕ) (cs : List Call)
    → WellFormed s.deliveries
    → In x s.deliveries
    → Held x e
    → All (IsForeign x e) cs
    → In x (run s cs).deliveries
lease_holds s x e cs w i k h = run-stays s x cs w i (All-IsForeign-Misses x e cs k h)

-- A delivery that was sent or is dead, and a call that is no retry.
abbrev pub IsSettled : Delivery → Type 0
IsSettled x = (x.status ≡ sent) ⊎ (x.status ≡ dead)

abbrev pub IsRetry : Call → Type 0
IsRetry (retries dead_id actor now) = Unit
IsRetry _ = ⊥

settled-Misses : (x : Delivery) (c : Call) → IsSettled x → ¬ IsRetry c → Misses x c
unfolding may_lease
settled-Misses x (enqueues q now) k h = tt
settled-Misses x (claims c now) k h = λ j. ground arith
settled-Misses x (defers c next now reason) k h = ground arith
settled-Misses x (completes c r now) k h = ground arith
settled-Misses x (completes_lease i token r now) k h = ground arith
settled-Misses x (retries dead_id actor now) k h = h tt

All-settled-Misses :
    (x : Delivery) (cs : List Call) → IsSettled x → All (λ c. ¬ IsRetry c) cs → All (Misses x) cs
All-settled-Misses x [] k h = tt
All-settled-Misses x (c ∷ cs) k h = (settled-Misses x c k h.0, All-settled-Misses x cs k h.1)

-- In a well-formed store, a sent or dead delivery keeps its row unchanged through any calls but
-- retries, so that it is not sent a second time.
pub settled_stays :
    (s : Store) (x : Delivery) (cs : List Call)
    → WellFormed s.deliveries
    → In x s.deliveries
    → IsSettled x
    → All (λ c. ¬ IsRetry c) cs
    → In x (run s cs).deliveries
settled_stays s x cs w i k h = run-stays s x cs w i (All-settled-Misses x cs k h)
