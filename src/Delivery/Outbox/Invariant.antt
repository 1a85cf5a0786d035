-- ===== src/Delivery/Outbox/Invariant.antt =====
-- Every call of the outbox keeps its rows well formed.
use zhixu.Prelude.{
  ℕ, ◌+◌, ◌-◌, ◌*◌, ◌<◌, String, ◌≡◌, refl, inl, inr, true, false, some, List, [], ◌∷◌, arith,
  eq_iff, Option-cases, any, str_eq,
}
use zhixu.Prelude.Result.{Result, ok, err}
use zhixu.Prelude.Table.{In, select_where, select_one, select_one-some}
use zhixu.Domain.Time.{DateTime, second}
use zhixu.Channels.{ChannelDeliveryResult}
use zhixu.Delivery.Outbox.Tables.{Delivery, Store, ClaimedDelivery, has_id, collides}
use zhixu.Delivery.Outbox.Enqueue.{Enqueue, enqueue, new_delivery}
use zhixu.Delivery.Outbox.Claim.{
  Claim, claim, claim_first, take_row, lease_row, may_lease, defer_for_quota, defer_row, owns_lease,
  first_row, can_claim,
}
use zhixu.Delivery.Outbox.Complete.{
  finish, complete, complete_lease, backoff, lease_of, retry_dead, sent_row, retry_row, dead_row,
  revive_row,
}
use zhixu.Delivery.Outbox.Calls.{
  Call, enqueues, claims, defers, completes, completes_lease, retries, step, run, after, after_unit,
}
use zhixu.Delivery.Outbox.Rows.{
  RowOk, UniqueIds-In, WellFormed, WellFormed-update_where, WellFormed-append, lease_row-RowOk,
  defer_row-RowOk, sent_row-RowOk, dead_row-RowOk, retry_row-RowOk, revive_row-RowOk,
  new_delivery-RowOk,
}

any-collides :
    (i key : String) (rows : List Delivery)
    → any (collides i key) rows ≡ false
    → any (has_id i) rows ≡ false
any-collides i key [] h = refl
any-collides i key (row ∷ rows) h = ground (arith, any-collides i key rows)

enqueue-WellFormed :
    (s : Store) (e : Enqueue) (now : DateTime)
    → WellFormed s.deliveries
    → WellFormed (after s (enqueue s e now)).deliveries
unfolding enqueue
enqueue-WellFormed s e now w = ground (
  arith,
  WellFormed-append s.deliveries (new_delivery e now.instant) w,
  any-collides e.delivery_id e.idempotency_key s.deliveries,
  new_delivery-RowOk e now.instant,
)

take_row-WellFormed :
    (s : Store) (c : Claim) (now : ℕ) (row : Delivery)
    → WellFormed s.deliveries
    → WellFormed (take_row s c now row).1.deliveries
unfolding take_row
take_row-WellFormed s c now row w =
    let expires : ℕ = now + c.lease_for in
    let taken =
      WellFormed-update_where (may_lease row.id now) (lease_row c.worker_id c.token expires now)
        s.deliveries (λ r. unfold lease_row in refl)
        (λ r i h. lease_row-RowOk c.worker_id c.token expires now r (w.each r i)) w in
    ground arith

claim_first-WellFormed :
    (s : Store) (c : Claim) (now : ℕ)
    → WellFormed s.deliveries
    → WellFormed (claim_first s c now).1.deliveries
unfolding claim_first
claim_first-WellFormed s c now w =
    elim (Option-cases (first_row (select_where (can_claim now c.accounts) s.deliveries))) [
      | inl e ↦ rw (e, claim_first) w
      | inr (row, e) ↦ rw (e, claim_first) (take_row-WellFormed s c now row w)
    ]

claim-WellFormed :
    (s : Store) (c : Claim) (now : DateTime)
    → WellFormed s.deliveries
    → WellFormed (claim s c now).1.deliveries
unfolding claim
claim-WellFormed s c now w = ground (arith, claim_first-WellFormed s c now.instant w)

defer-WellFormed :
    (s : Store) (c : ClaimedDelivery) (next now : DateTime) (reason : String)
    → WellFormed s.deliveries
    → WellFormed (after_unit s (defer_for_quota s c next now reason)).deliveries
unfolding defer_for_quota
defer-WellFormed s c next now reason w =
    let deferred =
      WellFormed-update_where (owns_lease c.id c.lease_token)
        (defer_row next.instant reason now.instant) s.deliveries (λ row. unfold defer_row in refl)
        (λ row i h. defer_row-RowOk next.instant reason now.instant row (w.each row i)) w in
    ground arith

-- The retry keeps the budget because the row that holds the lease is the only one of its id.
retried_row-RowOk :
    (rows : List Delivery) (held : Delivery) (i token : String) (r : ChannelDeliveryResult)
    (next now : ℕ)
    → WellFormed rows
    → select_one (owns_lease i token) rows ≡ some held
    → held.attempts < held.max_attempts
    → (row : Delivery) → In row rows
    → has_id i row ≡ true
    → RowOk (retry_row r next now row)
retried_row-RowOk rows held i token r next now w e h row j k =
    let (m, o) = select_one-some (owns_lease i token) rows held e in
    let same =
      UniqueIds-In rows row held w.unique j m (ground (arith, eq_iff row.id i, eq_iff held.id i)) in
    retry_row-RowOk r next now row (w.each row j) (rw same h)

finish-WellFormed :
    (s : Store) (held : Delivery) (i token : String) (r : ChannelDeliveryResult) (now : ℕ)
    → WellFormed s.deliveries
    → select_one (owns_lease i token) s.deliveries ≡ some held
    → WellFormed (finish s held i r now).1.deliveries
unfolding finish
finish-WellFormed s held i token r now w e =
    let next = now + backoff s.backoff_seconds (held.attempts - 1) * second in
    let to_sent =
      WellFormed-update_where (has_id i) (sent_row r now) s.deliveries
        (λ row. unfold sent_row in refl) (λ row j h. sent_row-RowOk r now row (w.each row j)) w in
    let to_dead =
      WellFormed-update_where (has_id i) (dead_row r now) s.deliveries
        (λ row. unfold dead_row in refl) (λ row j h. dead_row-RowOk r now row (w.each row j)) w in
    let to_retry = λ (b : held.attempts < held.max_attempts).
      WellFormed-update_where (has_id i) (retry_row r next now) s.deliveries
        (λ row. unfold retry_row in refl)
        (retried_row-RowOk s.deliveries held i token r next now w e b) w in
    ground (arith, to_retry)

complete-WellFormed :
    (s : Store) (c : ClaimedDelivery) (r : ChannelDeliveryResult) (now : DateTime)
    → WellFormed s.deliveries
    → WellFormed (after s (complete s c r now)).deliveries
unfolding complete
complete-WellFormed s c r now w =
    elim (Option-cases (select_one (owns_lease c.id c.lease_token) s.deliveries)) [
      | inl e ↦ rw e (ground arith)
      | inr (held, e) ↦
          let done = finish-WellFormed s held c.id c.lease_token r now.instant w e in
          rw e (ground arith)
    ]

complete_lease-WellFormed :
    (s : Store) (i token : String) (r : ChannelDeliveryResult) (now : DateTime)
    → WellFormed s.deliveries
    → WellFormed (after s (complete_lease s i token r now)).deliveries
unfolding complete_lease
complete_lease-WellFormed s i token r now w = go (lease_of s i token) refl
  where
    go :
        (m : Result ClaimedDelivery)
        → lease_of s i token ≡ m
        → WellFormed (after s (complete_lease s i token r now)).deliveries
    go (err e) h = rw (h, complete_lease) (ground arith)
    go (ok c) h =
        let done = complete-WellFormed s c r now w in rw (h, complete_lease) (ground arith)

retry_dead-WellFormed :
    (s : Store) (dead_id actor : String) (now : DateTime)
    → WellFormed s.deliveries
    → WellFormed (after s (retry_dead s dead_id actor now)).deliveries
unfolding retry_dead
retry_dead-WellFormed s dead_id actor now w =
    elim (Option-cases (select_one (λ d. str_eq d.id dead_id) s.dead_letters)) [
      | inl e ↦ rw e (ground arith)
      | inr (letter, e) ↦
          let revived =
            WellFormed-update_where (has_id letter.delivery_id) (revive_row now.instant)
              s.deliveries (λ row. unfold revive_row in refl)
              (λ row j h. revive_row-RowOk now.instant row (w.each row j)) w in
          rw e (ground arith)
    ]

pub step-WellFormed :
    (s : Store) (c : Call) → WellFormed s.deliveries → WellFormed (step s c).deliveries
unfolding step
step-WellFormed s (enqueues e now) w = enqueue-WellFormed s e now w
step-WellFormed s (claims c now) w = claim-WellFormed s c now w
step-WellFormed s (defers c next now reason) w = defer-WellFormed s c next now reason w
step-WellFormed s (completes c r now) w = complete-WellFormed s c r now w
step-WellFormed s (completes_lease i token r now) w = complete_lease-WellFormed s i token r now w
step-WellFormed s (retries dead_id actor now) w = retry_dead-WellFormed s dead_id actor now w

-- A well-formed store stays so through any calls, accepted or refused: ids are unique, a delivery has a lease
-- exactly while it is being sent, and a delivery that waits for its first attempt or for a retry
-- has attempts left.
pub run-WellFormed :
    (s : Store) (cs : List Call) → WellFormed s.deliveries → WellFormed (run s cs).deliveries
unfolding run
run-WellFormed s [] w = w
run-WellFormed s (c ∷ cs) w = run-WellFormed (step s c) cs (step-WellFormed s c w)
