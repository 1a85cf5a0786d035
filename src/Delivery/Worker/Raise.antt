-- ===== src/Delivery/Worker/Raise.antt =====
-- What becomes of a delivery whose adapter raises (src/zhixu/delivery/worker.py).
use zhixu.Prelude.{
  ℕ, ◌+◌, ◌-◌, ◌*◌, ◌≤◌, ◌<◌, String, ◌≡◌, refl, ap, ◌∙◌, ◌≢◌, ◌⊎◌, inl, inr, subst, Bool, true,
  false, Option, none, some, List, [],
}
use zhixu.Prelude.Text.{prefix}
use zhixu.Prelude.Result.{Error, ok, err, validation_error}
use zhixu.Prelude.Table.{In}
use zhixu.Domain.Time.{DateTime}
use zhixu.Channels.{OutboundMessage, ChannelDeliveryResult}
use zhixu.Delivery.Outbox.Tables.{
  Delivery, DeliveryStatus, DeadLetter, Store, ClaimedDelivery, dead, retry_wait,
}
use zhixu.Delivery.Outbox.Claim.{claim, owns_lease}
use zhixu.Delivery.Outbox.Complete.{complete}
use zhixu.Delivery.Outbox.Rows.{UniqueIds}
use zhixu.Delivery.Outbox.Outcome.{IsDelay, Completed, complete-outcome}
use zhixu.Delivery.Quota.{QuotaUsage, QuotaDecision}
use zhixu.Delivery.Renderer.{render_for_capabilities}
use zhixu.Delivery.Worker.{
  Adapter, DeliveryWorker, Tick, completed, find_adapter, attempt, reserve_for, finish_tick,
  decided_tick, claimed_tick, work, resume, tick, failed, failure,
}
use zhixu.Delivery.Worker.Settle.{claim-Owned}

-- The delivery of the row as it is stored afterwards: in a status, with its lease released.
pub record Left (row : Delivery) (st : DeliveryStatus) (k : Tick) : Type 0 where
  pub outcome : k.outcome ≡ ok (completed st)
  pub after : Delivery
  pub stored : In after k.store.deliveries
  pub status : after.status ≡ st
  pub same : (after.id ≡ row.id) × (after.attempts ≡ row.attempts)
  pub released : (after.lease_token ≡ "") × (after.lease_expires_at ≡ none)

-- The next attempt comes after the delay of this one.
pub record Again (delays : List ℕ) (now : ℕ) (row : Delivery) (k : Tick) : Type 0 where
  pub left : Left row retry_wait k
  pub delay : ℕ
  pub is_delay : IsDelay delays (row.attempts - 1) delay
  pub next : left.after.next_attempt_at ≡ now + delay * 1_000_000
  pub code : left.after.last_error_code ≡ "adapter_exception"

-- There is no further attempt, and a dead letter says why.
pub record Buried (row : Delivery) (code : String) (k : Tick) : Type 0 where
  pub left : Left row dead k
  pub letter : DeadLetter
  pub kept : In letter k.store.dead_letters
  pub about : letter.delivery_id ≡ row.id
  pub reason : letter.reason_code ≡ code

-- The delivery of the row waits for another attempt while it has some left, unless the error is a
-- ValidationError; else it is dead. No other delivery changes, what the quotas counted stays counted,
-- and the adapter was handed the message.
pub record Fails (t : Store) (usage : List QuotaUsage) (rendered : OutboundMessage) (now : ℕ)
    (row : Delivery) (e : Error) (k : Tick) : Type 0 where
  pub retried :
      e ≢ validation_error → row.attempts < row.max_attempts → Again t.backoff_seconds now row k
  pub exhausted :
      e ≢ validation_error → row.max_attempts ≤ row.attempts → Buried row "adapter_exception" k
  pub refused : e ≡ validation_error → Buried row "capability_unsupported" k
  pub others :
      (other : Delivery) → In other t.deliveries → other.id ≢ row.id → In other k.store.deliveries
  pub counted : k.usage ≡ usage
  pub handed : k.sent ≡ some rendered

failure-retryable : (e : Error) → e ≢ validation_error → failure e ≡ failed true "adapter_exception"
failure-retryable validation_error n = absurd (n refl)
failure-retryable _ n = refl

module _ (t v : Store) (usage : List QuotaUsage) (rendered : OutboundMessage) (now : ℕ)
    (row : Delivery) (st : DeliveryStatus) where
  abbrev done : Tick
  done = record { outcome = ok (completed st); store = v; usage = usage; sent = some rendered }

  Left-done :
      (r : ChannelDeliveryResult) (to : DeliveryStatus)
      → Completed t.backoff_seconds r now row st v
      → st ≡ to
      → Left row to done
  Left-done r to c e = record {
    outcome = ap (λ z. ok (completed z)) e;
    after = c.after;
    stored = c.stored;
    status = c.status ∙ e;
    same = (c.same.0, c.same.3);
    released = c.released;
  }

  Buried-done :
      (code : String) (retryable : Bool)
      → prefix 80 code ≡ code
      → Completed t.backoff_seconds (failed retryable code) now row st v
      → (retryable ≡ false) ⊎ (row.max_attempts ≤ row.attempts)
      → Buried row code done
  Buried-done code retryable short c why =
      let (is_dead, says, letter, kept, about, reason, untried) = c.died refl why in
      record {
        left = Left-done (failed retryable code) dead c is_dead;
        letter = letter;
        kept = kept;
        about = about;
        reason = reason ∙ short;
      }

  Again-done :
      Completed t.backoff_seconds (failed true "adapter_exception") now row st v
      → row.attempts < row.max_attempts
      → Again t.backoff_seconds now row done
  unfolding Left-done prefix
  Again-done c more =
      let (waits, says, delay, is_delay, next) = c.retried refl refl more in
      record {
        left = Left-done (failed true "adapter_exception") retry_wait c waits;
        delay = delay;
        is_delay = is_delay;
        next = next;
        code = says;
      }

  Fails-done :
      (e : Error)
      → Completed t.backoff_seconds (failure e) now row st v
      → ((other : Delivery) → In other t.deliveries → other.id ≢ row.id → In other v.deliveries)
      → Fails t usage rendered now row e done
  unfolding prefix
  Fails-done e c others =
      let by = λ (r : ChannelDeliveryResult) (q : failure e ≡ r).
        subst (λ r. Completed t.backoff_seconds r now row st v) q c in
      record {
        retried = λ n more.
            Again-done (by (failed true "adapter_exception") (failure-retryable e n)) more;
        exhausted = λ n over.
            Buried-done "adapter_exception" true refl
              (by (failed true "adapter_exception") (failure-retryable e n)) (inr over);
        refused = λ v_is.
            Buried-done "capability_unsupported" false refl
              (by (failed false "capability_unsupported") (ap failure v_is)) (inl refl);
        others = others;
        counted = refl;
        handed = refl;
      }

attempt-raises :
    (a : Adapter) (m rendered : OutboundMessage) (e : Error)
    → render_for_capabilities m a.capabilities ≡ ok rendered
    → a.send rendered ≡ err e
    → attempt a m ≡ (failure e, some rendered)
unfolding attempt
attempt-raises a m rendered e r x = rw (r, x, attempt) refl

finish_tick-done :
    (s : Store) (usage : List QuotaUsage) (d : ClaimedDelivery)
    (attempted : ChannelDeliveryResult × Option OutboundMessage) (now : DateTime)
    (st : DeliveryStatus) (t : Store)
    → complete s d attempted.0 now ≡ ok (st, t)
    → finish_tick s usage d attempted now
      ≡ record { outcome = ok (completed st); store = t; usage = usage; sent = attempted.1 }
unfolding finish_tick
finish_tick-done s usage d attempted now st t h = rw (h, finish_tick) refl

-- Where ids are unique and there is a delay, and the quotas allow a delivery that a step claims: when
-- the adapter raises, the step stores and returns that the delivery waits for a further attempt, after the
-- delay for this one, while attempts are left and the error is no ValidationError; else that it is dead,
-- with a dead letter that says why. The lease is released, the message counts as used, and no other
-- delivery changes.
pub tick-Fails :
    (w : DeliveryWorker) (token : String) (s t : Store) (usage after : List QuotaUsage)
    (now : DateTime) (d : ClaimedDelivery) (decision : QuotaDecision) (a : Adapter)
    (rendered : OutboundMessage) (e : Error)
    → UniqueIds s.deliveries
    → t.backoff_seconds ≢ []
    → claim s (work w token) now ≡ (ok (some d), t)
    → find_adapter d.message.channel d.message.channel_account w.adapters ≡ some a
    → reserve_for w usage d now ≡ ok (decision, after)
    → decision.allowed ≡ true
    → render_for_capabilities d.message a.capabilities ≡ ok rendered
    → a.send rendered ≡ err e
    → (row : Delivery) × In row t.deliveries
      × (owns_lease d.id d.lease_token row ≡ true)
      × Fails t after rendered now.instant row e (tick w token s usage now)
unfolding tick resume claimed_tick decided_tick
tick-Fails w token s t usage after now d decision a rendered e u delays h f q y r x =
    let o = claim-Owned s t (work w token) now d u h in
    let (st, v, finished, c, others) =
      complete-outcome t d (failure e) now o.row o.unique delays o.member o.owned o.aware in
    let k : tick w token s usage now ≡ done t v after rendered now.instant o.row st =
      rw (h, f, q, y, claimed_tick, decided_tick, attempt-raises a d.message rendered e r x)
        (finish_tick-done t after d (failure e, some rendered) now st v finished) in
    (o.row, o.member, o.owned, rw k (Fails-done t v after rendered now.instant o.row st e c others))
