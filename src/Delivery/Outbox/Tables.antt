-- ===== src/Delivery/Outbox/Tables.antt =====
-- The tables of src/zhixu/delivery/outbox.py and of the migrations that create them, with the
-- conversion between a message and its row.
-- A table is the list of its rows; texts of times are the moments that they stand for.
use zhixu.Prelude.{ℕ, String, Bool, ◌||◌, Option, none, some, List, [], ◌∷◌, ◌++◌, str_eq}
use zhixu.Prelude.Result.{Result, ok, err, ◌>>◌, validation_error}
use zhixu.Domain.Classification.{DataClassification}
use zhixu.Channels.{
  check_button, check_calendar_preview, check_daily_agenda_preview, OutboundMessage, MessageButton,
  MessageKind, CalendarPreview, DailyAgendaPreview, check_message,
}

pub data DeliveryStatus : Type 0 where
  pending retry_wait quota_wait sending sent dead : DeliveryStatus

-- The value of `payload_json`, with the keys of `_message_json`.
pub record Payload : Type 0 where
  pub text : String
  pub buttons : List MessageButton
  pub attachment_url : Option String
  pub calendar_preview : Option CalendarPreview
  pub daily_agenda_preview : Option DailyAgendaPreview
  pub reply_context_ref : String

-- A row of `outbox_deliveries`.
pub record Delivery : Type 0 where
  pub id : String
  pub idempotency_key : String
  pub owner_user_id : String
  pub target_ref : String
  pub message_kind : MessageKind
  pub payload : Payload
  pub classification : DataClassification
  pub priority : ℕ
  pub status : DeliveryStatus
  pub attempts : ℕ
  pub max_attempts : ℕ
  pub next_attempt_at : ℕ
  pub last_error_code : String
  pub created_at : ℕ
  pub updated_at : ℕ
  pub channel : String
  pub channel_account : String
  pub lease_owner : String
  pub lease_token : String
  pub lease_expires_at : Option ℕ
  pub provider_message_id : String

pub record DeadLetter : Type 0 where
  pub id : String
  pub delivery_id : String
  pub reason_code : String
  pub created_at : ℕ
  pub retried_at : Option ℕ

pub record AuditEvent : Type 0 where
  pub occurred_at : ℕ
  pub actor_user_id : String
  pub action : String
  pub resource_kind : String
  pub resource_id : String

-- The tables that the store reads and writes, and its configured delays. `users` holds the ids that
-- the foreign key of a delivery may name.
pub record Store : Type 0 where
  pub users : List String
  pub deliveries : List Delivery
  pub dead_letters : List DeadLetter
  pub audit_events : List AuditEvent
  pub backoff_seconds : List ℕ

abbrev pub default_backoff : List ℕ
default_backoff = 5 ∷ 30 ∷ 120 ∷ 600 ∷ 1800 ∷ []

-- `OutboxStore.__init__`: the tables are there already.
unfoldable pub open_store : Store → Result Store
open_store s = elim s.backoff_seconds [ [] ↦ err validation_error | d ∷ ds ↦ ok s ]

-- `_message_json`
unfoldable pub message_json : OutboundMessage → Payload
message_json m = record {
  text = m.text;
  buttons = m.buttons;
  attachment_url = m.attachment_url;
  calendar_preview = m.calendar_preview;
  daily_agenda_preview = m.daily_agenda_preview;
  reply_context_ref = m.reply_context_ref;
}

-- The message that a row holds, before the check of its constructor.
unfoldable pub row_message : Delivery → OutboundMessage
row_message row = record {
  channel = row.channel;
  channel_account = row.channel_account;
  target_ref = row.target_ref;
  kind = row.message_kind;
  text = row.payload.text;
  buttons = row.payload.buttons;
  attachment_url = row.payload.attachment_url;
  reply_context_ref = row.payload.reply_context_ref;
  classification = row.classification;
  calendar_preview = row.payload.calendar_preview;
  daily_agenda_preview = row.payload.daily_agenda_preview;
}

unfoldable pub check_buttons : List MessageButton → Result (Unit {0})
unfolding check_button
check_buttons [] = ok tt
check_buttons (b ∷ bs) = let rest = check_buttons bs in check_button b >> rest

abbrev pub check_given : {A : Type 0} → (A → Result (Unit {0})) → Option A → Result (Unit {0})
check_given check none = ok tt
check_given check (some a) = check a

-- `_message_from_row`: the parts of the message are constructed before it, each with its checks.
unfoldable pub message_from_row : Delivery → Result OutboundMessage
unfolding row_message check_buttons check_calendar_preview check_daily_agenda_preview check_message
message_from_row row = do
  check_buttons row.payload.buttons
  check_given check_calendar_preview row.payload.calendar_preview
  check_given check_daily_agenda_preview row.payload.daily_agenda_preview
  check_message (row_message row)
  ok (row_message row)

pub record ClaimedDelivery : Type 0 where
  pub id : String
  pub owner_user_id : String
  pub idempotency_key : String
  pub message : OutboundMessage
  pub priority : ℕ
  pub attempts : ℕ
  pub max_attempts : ℕ
  pub lease_token : String
  pub lease_expires_at : ℕ

abbrev pub has_id : String → Delivery → Bool
has_id i row = str_eq row.id i

-- The PRIMARY KEY and the UNIQUE column: what makes INSERT OR IGNORE ignore the new row.
abbrev pub collides : String → String → Delivery → Bool
collides i key row = str_eq row.id i || str_eq row.idempotency_key key

-- INSERT INTO audit_events, with the outcome `completed`.
abbrev pub audit : Store → ℕ → String → String → String → String → List AuditEvent
audit s at actor action kind id =
    s.audit_events
    ++ record {
      occurred_at = at;
      actor_user_id = actor;
      action = action;
      resource_kind = kind;
      resource_id = id;
    }
      ∷ []
