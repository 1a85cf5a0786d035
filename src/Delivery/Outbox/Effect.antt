-- ===== src/Delivery/Outbox/Effect.antt =====
-- What one call can do to the rows of the outbox: nothing, add one row under a new id and key, or
-- rewrite the progress of some rows.
use zhixu.Prelude.{
  ℕ, ◌+◌, ◌-◌, ◌*◌, String, ◌≡◌, refl, ◌∙◌, inl, inr, Bool, false, List, [], ◌∷◌, ◌++◌, arith,
  Option-cases, any, str_eq,
}
use zhixu.Prelude.Result.{Result, ok, err}
use zhixu.Prelude.Table.{select_where, select_one, update_where}
use zhixu.Domain.Time.{DateTime, second}
use zhixu.Channels.{ChannelDeliveryResult}
use zhixu.Delivery.Outbox.Tables.{Delivery, Store, ClaimedDelivery, collides, has_id}
use zhixu.Delivery.Outbox.Enqueue.{Enqueue, enqueue, new_delivery}
use zhixu.Delivery.Outbox.Claim.{
  Claim, claim, claim_first, take_row, defer_for_quota, lease_row, defer_row, may_lease, first_row,
  can_claim, owns_lease,
}
use zhixu.Delivery.Outbox.Complete.{
  complete, complete_lease, finish, lease_of, retry_dead, sent_row, retry_row, dead_row, revive_row,
  backoff,
}
use zhixu.Delivery.Outbox.Calls.{
  Call, enqueues, claims, defers, completes, completes_lease, retries, step, after, after_unit,
}

-- The same delivery at another stage: everything but its status, its attempts and its lease.
pub record SameDelivery (a b : Delivery) : Type 0 where
  pub id : b.id ≡ a.id
  pub key : b.idempotency_key ≡ a.idempotency_key
  pub owner : b.owner_user_id ≡ a.owner_user_id
  pub target : b.target_ref ≡ a.target_ref
  pub kind : b.message_kind ≡ a.message_kind
  pub payload : b.payload ≡ a.payload
  pub classification : b.classification ≡ a.classification
  pub priority : b.priority ≡ a.priority
  pub max_attempts : b.max_attempts ≡ a.max_attempts
  pub created_at : b.created_at ≡ a.created_at
  pub channel : b.channel ≡ a.channel
  pub account : b.channel_account ≡ a.channel_account

pub SameDelivery-refl : (a : Delivery) → SameDelivery a a
SameDelivery-refl a = ground arith

pub SameDelivery-trans : (a b c : Delivery) → SameDelivery a b → SameDelivery b c → SameDelivery a c
SameDelivery-trans a b c h k = record {
  id = k.id ∙ h.id;
  key = k.key ∙ h.key;
  owner = k.owner ∙ h.owner;
  target = k.target ∙ h.target;
  kind = k.kind ∙ h.kind;
  payload = k.payload ∙ h.payload;
  classification = k.classification ∙ h.classification;
  priority = k.priority ∙ h.priority;
  max_attempts = k.max_attempts ∙ h.max_attempts;
  created_at = k.created_at ∙ h.created_at;
  channel = k.channel ∙ h.channel;
  account = k.account ∙ h.account;
}

pub data Effect (rows : List Delivery) : List Delivery → Type 0 where
  same : Effect rows rows
  added :
      (e : Enqueue) (now : ℕ)
      → any (collides e.delivery_id e.idempotency_key) rows ≡ false
      → Effect rows (rows ++ new_delivery e now ∷ [])
  updated :
      (p : Delivery → Bool) (f : Delivery → Delivery)
      → ((row : Delivery) → SameDelivery row (f row))
      → Effect rows (update_where p f rows)

lease_row-Same :
    (w token : String) (expires now : ℕ) (row : Delivery)
    → SameDelivery row (lease_row w token expires now row)
unfolding lease_row
lease_row-Same w token expires now row = ground arith

defer_row-Same :
    (next : ℕ) (reason : String) (now : ℕ) (row : Delivery)
    → SameDelivery row (defer_row next reason now row)
unfolding defer_row
defer_row-Same next reason now row = ground arith

sent_row-Same :
    (r : ChannelDeliveryResult) (now : ℕ) (row : Delivery) → SameDelivery row (sent_row r now row)
unfolding sent_row
sent_row-Same r now row = ground arith

dead_row-Same :
    (r : ChannelDeliveryResult) (now : ℕ) (row : Delivery) → SameDelivery row (dead_row r now row)
unfolding dead_row
dead_row-Same r now row = ground arith

retry_row-Same :
    (r : ChannelDeliveryResult) (next now : ℕ) (row : Delivery)
    → SameDelivery row (retry_row r next now row)
unfolding retry_row
retry_row-Same r next now row = ground arith

revive_row-Same : (now : ℕ) (row : Delivery) → SameDelivery row (revive_row now row)
unfolding revive_row
revive_row-Same now row = ground arith

add-Effect :
    (rows : List Delivery) (e : Enqueue) (now : ℕ)
    → any (collides e.delivery_id e.idempotency_key) rows ≡ false
    → Effect rows (rows ++ new_delivery e now ∷ [])
add-Effect rows e now h = added e now h

module _ (s : Store) where
  unchanged : Effect s.deliveries s.deliveries
  unchanged = same

  enqueue-Effect :
      (e : Enqueue) (now : DateTime) → Effect s.deliveries (after s (enqueue s e now)).deliveries
  unfolding enqueue
  enqueue-Effect e now = ground (arith, unchanged, add-Effect s.deliveries e now.instant)

  take_row-Effect :
      (c : Claim) (now : ℕ) (row : Delivery)
      → Effect s.deliveries (take_row s c now row).1.deliveries
  unfolding take_row
  take_row-Effect c now row =
      let expires : ℕ = now + c.lease_for in
      let taken : Effect s.deliveries (
          update_where (may_lease row.id now) (lease_row c.worker_id c.token expires now)
            s.deliveries) =
        updated (may_lease row.id now) (lease_row c.worker_id c.token expires now)
          (lease_row-Same c.worker_id c.token expires now) in
      ground (arith, unchanged)

  claim_first-Effect :
      (c : Claim) (now : ℕ) → Effect s.deliveries (claim_first s c now).1.deliveries
  unfolding claim_first
  claim_first-Effect c now =
      elim (Option-cases (first_row (select_where (can_claim now c.accounts) s.deliveries))) [
        | inl e ↦ rw (e, claim_first) unchanged
        | inr (row, e) ↦ rw (e, claim_first) (take_row-Effect c now row)
      ]

  claim-Effect : (c : Claim) (now : DateTime) → Effect s.deliveries (claim s c now).1.deliveries
  unfolding claim
  claim-Effect c now = ground (arith, unchanged, claim_first-Effect c now.instant)

  defer-Effect :
      (c : ClaimedDelivery) (next now : DateTime) (reason : String)
      → Effect s.deliveries (after_unit s (defer_for_quota s c next now reason)).deliveries
  unfolding defer_for_quota
  defer-Effect c next now reason =
      let deferred : Effect s.deliveries (
          update_where (owns_lease c.id c.lease_token) (defer_row next.instant reason now.instant)
            s.deliveries) =
        updated (owns_lease c.id c.lease_token) (defer_row next.instant reason now.instant)
          (defer_row-Same next.instant reason now.instant) in
      ground (arith, unchanged)

  finish-Effect :
      (held : Delivery) (i : String) (r : ChannelDeliveryResult) (now : ℕ)
      → Effect s.deliveries (finish s held i r now).1.deliveries
  unfolding finish
  finish-Effect held i r now =
      let next = now + backoff s.backoff_seconds (held.attempts - 1) * second in
      let to_sent : Effect s.deliveries (update_where (has_id i) (sent_row r now) s.deliveries) =
        updated (has_id i) (sent_row r now) (sent_row-Same r now) in
      let to_dead : Effect s.deliveries (update_where (has_id i) (dead_row r now) s.deliveries) =
        updated (has_id i) (dead_row r now) (dead_row-Same r now) in
      let to_retry : Effect s.deliveries
          (update_where (has_id i) (retry_row r next now) s.deliveries) =
        updated (has_id i) (retry_row r next now) (retry_row-Same r next now) in
      ground arith

  complete-Effect :
      (c : ClaimedDelivery) (r : ChannelDeliveryResult) (now : DateTime)
      → Effect s.deliveries (after s (complete s c r now)).deliveries
  unfolding complete
  complete-Effect c r now =
      elim (Option-cases (select_one (owns_lease c.id c.lease_token) s.deliveries)) [
        | inl e ↦ rw (e, complete) (ground (arith, unchanged))
        | inr (held, e) ↦
            rw (e, complete) (ground (arith, unchanged, finish-Effect held c.id r now.instant))
      ]

  complete_lease-Effect :
      (i token : String) (r : ChannelDeliveryResult) (now : DateTime)
      → Effect s.deliveries (after s (complete_lease s i token r now)).deliveries
  unfolding complete_lease
  complete_lease-Effect i token r now = go (lease_of s i token) refl
    where
      go :
          (m : Result ClaimedDelivery)
          → lease_of s i token ≡ m
          → Effect s.deliveries (after s (complete_lease s i token r now)).deliveries
      go (err e) h = rw (h, complete_lease) (ground (arith, unchanged))
      go (ok c) h = rw (h, complete_lease) (ground (arith, unchanged, complete-Effect c r now))

  retry_dead-Effect :
      (dead_id actor : String) (now : DateTime)
      → Effect s.deliveries (after s (retry_dead s dead_id actor now)).deliveries
  unfolding retry_dead
  retry_dead-Effect dead_id actor now =
      elim (Option-cases (select_one (λ d. str_eq d.id dead_id) s.dead_letters)) [
        | inl e ↦ rw (e, retry_dead) (ground (arith, unchanged))
        | inr (letter, e) ↦
            let revived : Effect s.deliveries
                (update_where (has_id letter.delivery_id) (revive_row now.instant) s.deliveries) =
              updated (has_id letter.delivery_id) (revive_row now.instant)
                (revive_row-Same now.instant) in
            rw (e, retry_dead) (ground (arith, unchanged))
      ]

  pub step-Effect : (c : Call) → Effect s.deliveries (step s c).deliveries
  unfolding step
  step-Effect (enqueues e now) = enqueue-Effect e now
  step-Effect (claims c now) = claim-Effect c now
  step-Effect (defers c next now reason) = defer-Effect c next now reason
  step-Effect (completes c r now) = complete-Effect c r now
  step-Effect (completes_lease i token r now) = complete_lease-Effect i token r now
  step-Effect (retries dead_id actor now) = retry_dead-Effect dead_id actor now
