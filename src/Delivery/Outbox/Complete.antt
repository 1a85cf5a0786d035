-- ===== src/Delivery/Outbox/Complete.antt =====
-- `OutboxStore.complete`, `complete_lease`, `retry_dead`, `get_status` and `with_message` of
-- src/zhixu/delivery/outbox.py.
use zhixu.Prelude.{
  ℕ, zero, suc, ◌+◌, ◌-◌, ◌*◌, String, Bool, true, false, ◌&&◌, ◌||◌, Option, none, some, List, [],
  ◌∷◌, ◌++◌, ltb, if◌then◌else◌, str_eq, prefix,
}
use zhixu.Prelude.Result.{Result, ok, err, ◌>>=◌, ◌>>◌, or_raise, conflict, value_error}
use Prim.Native.String.{◌++◌ as append}
use zhixu.Prelude.Table.{select_one, update_where, delete_where}
use zhixu.Domain.Time.{DateTime, require_aware, second}
use zhixu.Channels.{OutboundMessage, ChannelDeliveryResult}
use zhixu.Delivery.Outbox.Tables.{
  Delivery, DeliveryStatus, DeadLetter, Store, ClaimedDelivery, pending, retry_wait, sent, dead,
  has_id, message_from_row, audit,
}
use zhixu.Delivery.Outbox.Claim.{owns_lease}

abbrev pub release : Delivery → DeliveryStatus → ℕ → Delivery
release row status now = record row {
  status = status;
  lease_owner = "";
  lease_token = "";
  lease_expires_at = none;
  updated_at = now;
}

unfoldable pub sent_row : ChannelDeliveryResult → ℕ → Delivery → Delivery
sent_row r now row = record (release row sent now) {
  last_error_code = "";
  provider_message_id = prefix 160 r.provider_message_id;
}

unfoldable pub retry_row : ChannelDeliveryResult → ℕ → ℕ → Delivery → Delivery
retry_row r next now row = record (release row retry_wait now) {
  next_attempt_at = next;
  last_error_code = prefix 80 r.provider_code;
}

unfoldable pub dead_row : ChannelDeliveryResult → ℕ → Delivery → Delivery
dead_row r now row = record (release row dead now) { last_error_code = prefix 80 r.provider_code }

-- `self.backoff_seconds[min(max(attempts - 1, 0), len(self.backoff_seconds) - 1)]`: the entry, or the
-- last one past the end. (No list of delays is empty.)
unfoldable pub backoff : List ℕ → ℕ → ℕ
backoff [] i = 0
backoff (d ∷ []) i = d
backoff (d ∷ (e ∷ ds)) zero = d
backoff (d ∷ (e ∷ ds)) (suc i) = backoff (e ∷ ds) i

-- INSERT OR REPLACE: a letter with the id or the delivery of the new one goes first.
unfoldable pub replace_letter : DeadLetter → List DeadLetter → List DeadLetter
replace_letter d letters =
    delete_where (λ e. str_eq e.id d.id || str_eq e.delivery_id d.delivery_id) letters ++ d ∷ []

unfoldable pub dead_letter : String → ChannelDeliveryResult → ℕ → DeadLetter
dead_letter i r now = record {
  id = append "dead_" i;
  delivery_id = i;
  reason_code = prefix 80 r.provider_code;
  created_at = now;
  retried_at = none;
}

-- The branches of `complete`, for the row that holds the lease.
unfoldable pub finish :
    Store → Delivery → String → ChannelDeliveryResult → ℕ → DeliveryStatus × Store
unfolding sent_row retry_row dead_row backoff replace_letter dead_letter
finish s row i r now =
    if r.ok
    then (sent, record s { deliveries = update_where (has_id i) (sent_row r now) s.deliveries })
    else if r.retryable && ltb row.attempts row.max_attempts
    then (
      retry_wait,
      record s {
        deliveries =
            update_where (has_id i)
              (retry_row r (now + backoff s.backoff_seconds (row.attempts - 1) * second) now)
              s.deliveries;
      },
    )
    else (
      dead,
      record s {
        deliveries = update_where (has_id i) (dead_row r now) s.deliveries;
        dead_letters = replace_letter (dead_letter i r now) s.dead_letters;
      },
    )

-- `OutboxStore.complete`: the new status of the delivery, and the store.
unfoldable pub complete :
    Store → ClaimedDelivery → ChannelDeliveryResult → DateTime → Result (DeliveryStatus × Store)
unfolding require_aware
complete s c r now = do
  require_aware now
  row ← or_raise (select_one (owns_lease c.id c.lease_token) s.deliveries) conflict
  ok (finish s row c.id r now.instant)

abbrev lease_end : Option ℕ → Result ℕ
lease_end none = err value_error
lease_end (some t) = ok t

-- The claim that `complete_lease` rebuilds from the row. A NULL `lease_expires_at` is the text
-- `None` to `_load`, which `fromisoformat` refuses.
unfoldable pub lease_of : Store → String → String → Result ClaimedDelivery
unfolding message_from_row
lease_of s delivery_id lease_token = do
  row ← or_raise (select_one (owns_lease delivery_id lease_token) s.deliveries) conflict
  message ← message_from_row row
  expires ← lease_end row.lease_expires_at
  ok (record {
    id = row.id;
    owner_user_id = row.owner_user_id;
    idempotency_key = row.idempotency_key;
    message = message;
    priority = row.priority;
    attempts = row.attempts;
    max_attempts = row.max_attempts;
    lease_token = lease_token;
    lease_expires_at = expires;
  })

-- `OutboxStore.complete_lease`
unfoldable pub complete_lease :
    Store → String → String → ChannelDeliveryResult → DateTime → Result (DeliveryStatus × Store)
unfolding require_aware
complete_lease s delivery_id lease_token r now = do
  require_aware now
  claimed ← lease_of s delivery_id lease_token
  complete s claimed r now

unfoldable pub revive_row : ℕ → Delivery → Delivery
revive_row now row = record (release row pending now) {
  attempts = 0;
  next_attempt_at = now;
  last_error_code = "";
}

-- `OutboxStore.retry_dead`
unfoldable pub retry_dead : Store → String → String → DateTime → Result (Bool × Store)
unfolding require_aware revive_row
retry_dead s dead_id actor_user_id now = do
  require_aware now
  elim (select_one (λ d. str_eq d.id dead_id) s.dead_letters) [
    | none ↦ ok (false, s)
    | some letter ↦ ok (
      true,
      record s {
        deliveries = update_where (has_id letter.delivery_id) (revive_row now.instant) s.deliveries;
        dead_letters =
            update_where (λ d. str_eq d.id dead_id)
              (λ d. record d { retried_at = some now.instant }) s.dead_letters;
        audit_events = audit s now.instant actor_user_id "retry" "dead_letter" dead_id;
      },
    )
  ]

-- `OutboxStore.get_status`
unfoldable pub get_status : Store → String → Option DeliveryStatus
get_status s delivery_id = elim (select_one (has_id delivery_id) s.deliveries) [
  | none ↦ none
  | some row ↦ some row.status
]

-- `OutboxStore.with_message`
unfoldable pub with_message : ClaimedDelivery → OutboundMessage → ClaimedDelivery
with_message c message = record c { message = message }
