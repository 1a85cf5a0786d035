-- ===== src/Delivery/Outbox/Enqueue.antt =====
-- `OutboxStore.enqueue` of src/zhixu/delivery/outbox.py. A transaction is a function on the store,
-- and one that raises leaves the store as it was.
use zhixu.Prelude.{
  ℕ, String, Bool, true, false, not, ◌||◌, none, [], ◌∷◌, ◌++◌, ltb, if◌then◌else◌, any, str_mem,
}
use zhixu.Prelude.Result.{Result, ok, ◌>>◌, raise_if, validation_error, integrity_error}
use zhixu.Domain.Time.{DateTime, require_aware}
use zhixu.Domain.Classification.{level}
use zhixu.Channels.{OutboundMessage}
use zhixu.Delivery.Outbox.Tables.{Delivery, Store, pending, message_json, collides, audit}

-- The arguments of `enqueue`, but the time.
pub record Enqueue : Type 0 where
  pub delivery_id : String
  pub idempotency_key : String
  pub owner_user_id : String
  pub message : OutboundMessage
  pub priority : ℕ
  pub max_attempts : ℕ
  pub actor_user_id : String

unfoldable pub new_delivery : Enqueue → ℕ → Delivery
unfolding message_json
new_delivery e now = record {
  id = e.delivery_id;
  idempotency_key = e.idempotency_key;
  owner_user_id = e.owner_user_id;
  target_ref = e.message.target_ref;
  message_kind = e.message.kind;
  payload = message_json e.message;
  classification = e.message.classification;
  priority = e.priority;
  status = pending;
  attempts = 0;
  max_attempts = e.max_attempts;
  next_attempt_at = now;
  last_error_code = "";
  created_at = now;
  updated_at = now;
  channel = e.message.channel;
  channel_account = e.message.channel_account;
  lease_owner = "";
  lease_token = "";
  lease_expires_at = none;
  provider_message_id = "";
}

-- `OutboxStore.enqueue`. The CHECK of the table on `classification` makes INSERT OR IGNORE skip the
-- row too; a missing owner breaks the foreign key, which IGNORE does not cover.
unfoldable pub enqueue : Store → Enqueue → DateTime → Result (Bool × Store)
unfolding require_aware new_delivery
enqueue s e now = do
  require_aware now
  raise_if (ltb e.max_attempts 1) validation_error
  if any (collides e.delivery_id e.idempotency_key) s.deliveries
        || ltb 2 (level e.message.classification)
      then ok (false, s)
      else do
        raise_if (not (str_mem e.owner_user_id s.users)) integrity_error
        ok (
          true,
          record s {
            deliveries = s.deliveries ++ new_delivery e now.instant ∷ [];
            audit_events =
                audit s now.instant e.actor_user_id "enqueue" "outbox_delivery" e.delivery_id;
          },
        )
