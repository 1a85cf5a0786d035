-- ===== src/Delivery/Outbox/Untouched.antt =====
-- Which calls leave a row as it is.
use zhixu.Prelude.{
  ℕ, ◌+◌, ◌-◌, ◌*◌, String, ◌≡◌, refl, inl, inr, Bool, false, some, List, [], ◌∷◌, arith, eq_iff,
  Bool-cases, Option-cases, All,
}
use zhixu.Prelude.Result.{Result, ok, err}
use zhixu.Prelude.Table.{
  In, select_where, select_one, update_where, select_one-some, update_where-In, In-append_left,
}
use zhixu.Domain.Time.{DateTime, second}
use zhixu.Channels.{ChannelDeliveryResult}
use zhixu.Delivery.Outbox.Tables.{Delivery, Store, ClaimedDelivery, has_id}
use zhixu.Delivery.Outbox.Enqueue.{Enqueue, enqueue, new_delivery}
use zhixu.Delivery.Outbox.Claim.{
  Claim, claim, claim_first, take_row, may_lease, lease_row, defer_for_quota, defer_row, owns_lease,
  first_row, can_claim,
}
use zhixu.Delivery.Outbox.Complete.{
  complete, complete_lease, lease_of, finish, sent_row, dead_row, retry_row, backoff,
}
use zhixu.Delivery.Outbox.Calls.{
  Call, enqueues, claims, defers, completes, completes_lease, retries, step, run, after, after_unit,
}
use zhixu.Delivery.Outbox.Rows.{UniqueIds, UniqueIds-In, WellFormed}
use zhixu.Delivery.Outbox.Invariant.{step-WellFormed}

-- A call whose conditions do not fit the row: a claim that may not lease it, a completion or a
-- deferral under another id or token, any enqueue. A retry of a dead letter is not among them.
abbrev pub Misses : Delivery → Call → Type 0
Misses x (enqueues q now) = Unit
Misses x (claims c now) = (j : String) → may_lease j now.instant x ≡ false
Misses x (defers c next now reason) = owns_lease c.id c.lease_token x ≡ false
Misses x (completes c r now) = owns_lease c.id c.lease_token x ≡ false
Misses x (completes_lease i token r now) = owns_lease i token x ≡ false
Misses x (retries dead_id actor now) = ⊥

stays :
    (p : Delivery → Bool) (f : Delivery → Delivery) (rows : List Delivery) (x : Delivery)
    → In x rows
    → p x ≡ false
    → In x (update_where p f rows)
stays p f rows x i h = rw h at (update_where-In p f rows x i)

lease_of-owner :
    (s : Store) (j token : String) (c : ClaimedDelivery)
    → lease_of s j token ≡ ok c
    → (c.id ≡ j) × (c.lease_token ≡ token)
unfolding lease_of
lease_of-owner s j token c h = elim (Option-cases (select_one (owns_lease j token) s.deliveries)) [
  | inl e ↦ absurd (cc (rw (e, lease_of) at h))
  | inr (held, e) ↦
      let (m, o) = select_one-some (owns_lease j token) s.deliveries held e in
      ground (arith, eq_iff held.id j)
]

module _ (s : Store) (x : Delivery) (w : UniqueIds s.deliveries) (i : In x s.deliveries) where
  enqueue-stays : (q : Enqueue) (now : DateTime) → In x (after s (enqueue s q now)).deliveries
  unfolding enqueue
  enqueue-stays q now =
      ground (arith, In-append_left s.deliveries (new_delivery q now.instant ∷ []) x i)

  take_row-stays :
      (c : Claim) (now : ℕ) (row : Delivery)
      → may_lease row.id now x ≡ false
      → In x (take_row s c now row).1.deliveries
  unfolding take_row
  take_row-stays c now row h = ground (
    arith,
    stays (may_lease row.id now) (lease_row c.worker_id c.token (now + c.lease_for) now)
        s.deliveries x i h,
  )

  claim-stays :
      (c : Claim) (now : DateTime)
      → ((j : String) → may_lease j now.instant x ≡ false)
      → In x (claim s c now).1.deliveries
  unfolding claim
  claim-stays c now h = ground (arith, claim_first-stays)
    where
      claim_first-stays : In x (claim_first s c now.instant).1.deliveries
      claim_first-stays =
          elim (Option-cases
            (first_row (select_where (can_claim now.instant c.accounts) s.deliveries))) [
              | inl n ↦ rw (n, claim_first) i
              | inr (row, n) ↦ rw (n, claim_first) (take_row-stays c now.instant row (h row.id))
            ]

  defer-stays :
      (c : ClaimedDelivery) (next now : DateTime) (reason : String)
      → owns_lease c.id c.lease_token x ≡ false
      → In x (after_unit s (defer_for_quota s c next now reason)).deliveries
  unfolding defer_for_quota
  defer-stays c next now reason h = ground (
    arith,
    stays (owns_lease c.id c.lease_token) (defer_row next.instant reason now.instant) s.deliveries x
        i h,
  )

  -- The holder of another lease with this id would be this row.
  other_id :
      (j token : String) (held : Delivery)
      → select_one (owns_lease j token) s.deliveries ≡ some held
      → owns_lease j token x ≡ false
      → has_id j x ≡ false
  other_id j token held h n =
      let (m, o) = select_one-some (owns_lease j token) s.deliveries held h in
      elim (Bool-cases (has_id j x)) [
        | inl y ↦
            let same =
              UniqueIds-In s.deliveries x held w i m
                (ground (arith, eq_iff x.id j, eq_iff held.id j)) in
            ground arith
        | inr z ↦ z
      ]

  finish-stays :
      (held : Delivery) (j token : String) (r : ChannelDeliveryResult) (now : ℕ)
      → select_one (owns_lease j token) s.deliveries ≡ some held
      → owns_lease j token x ≡ false
      → In x (finish s held j r now).1.deliveries
  unfolding finish
  finish-stays held j token r now h n =
      let out = other_id j token held h n in
      ground (
        arith,
        stays (has_id j) (sent_row r now) s.deliveries x i out,
        stays (has_id j) (dead_row r now) s.deliveries x i out,
        stays (has_id j)
            (retry_row r (now + backoff s.backoff_seconds (held.attempts - 1) * second) now)
            s.deliveries x i out,
      )

  complete-stays :
      (c : ClaimedDelivery) (r : ChannelDeliveryResult) (now : DateTime)
      → owns_lease c.id c.lease_token x ≡ false
      → In x (after s (complete s c r now)).deliveries
  unfolding complete
  complete-stays c r now n =
      elim (Option-cases (select_one (owns_lease c.id c.lease_token) s.deliveries)) [
        | inl e ↦ rw (e, complete) (ground arith)
        | inr (held, h) ↦
            rw (h, complete)
              (ground (arith, finish-stays held c.id c.lease_token r now.instant h n))
      ]

  complete_lease-stays :
      (j token : String) (r : ChannelDeliveryResult) (now : DateTime)
      → owns_lease j token x ≡ false
      → In x (after s (complete_lease s j token r now)).deliveries
  unfolding complete_lease
  complete_lease-stays j token r now n = go (lease_of s j token) refl
    where
      go :
          (m : Result ClaimedDelivery)
          → lease_of s j token ≡ m
          → In x (after s (complete_lease s j token r now)).deliveries
      go (err z) h = rw (h, complete_lease) (ground arith)
      go (ok c) h =
          let owner = lease_of-owner s j token c h in
          rw (h, complete_lease) (ground (arith, complete-stays c r now))

  pub step-stays : (c : Call) → Misses x c → In x (step s c).deliveries
  unfolding step
  step-stays (enqueues q now) m = enqueue-stays q now
  step-stays (claims c now) m = claim-stays c now m
  step-stays (defers c next now reason) m = defer-stays c next now reason m
  step-stays (completes c r now) m = complete-stays c r now m
  step-stays (completes_lease j token r now) m = complete_lease-stays j token r now m
  step-stays (retries dead_id actor now) m = absurd m

-- A row that every call misses stands there at the end.
pub run-stays :
    (s : Store) (x : Delivery) (cs : List Call)
    → WellFormed s.deliveries
    → In x s.deliveries
    → All (Misses x) cs
    → In x (run s cs).deliveries
unfolding run
run-stays s x [] w i m = i
run-stays s x (c ∷ cs) w i m =
    run-stays (step s c) x cs (step-WellFormed s c w) (step-stays s x w.unique i c m.0) m.1
