-- ===== src/Storage/Reminders/Due.antt =====
-- `ReminderRepository.enqueue_due` of src/zhixu/adapters/storage/sqlite/repositories.py: every reminder
-- that is due becomes a message of the outbox, once, or is cancelled when it was missed.
pub mod Handled
pub mod Again
pub mod Settle
use zhixu.Prelude.{
  ℕ, zero, suc, ◌+◌, ◌-◌, ◌*◌, ◌/◌, ◌%◌, ◌≤◌, ◌<◌, max, String, ◌≡◌, refl, sym, ap, ◌∙◌, subst, ◌≢◌,
  ◌⊎◌, inl, inr, Bool, true, false, not, ◌&&◌, ◌||◌, Option, none, some, List, [], ◌∷◌, ◌++◌, map,
  arith, eq_iff, ltb, leb, ◌==◌, if◌then◌else◌, ltb→lt, leb→le, Bool-cases, Option-cases, length,
  any, all, All, length-append, str_eq, codes, is_space, is_blank, text_length, prefix, str_leb,
  str_mem, str_leb_total, str_leb_trans, str_leb_refl, str_eq_comm, str_eq_refl,
}
use Prim.Native.String.{◌++◌ as append_text}
use zhixu.Prelude.Result.{
  Result-cases, Error, Result, ok, err, ◌>>=◌, ◌>>◌, raise_if, or_raise, >>=-eq-ok, >>-eq-ok,
  validation_error, not_found, conflict, concurrency_conflict, permission_denied,
  confirmation_required, classification_not_supported, invalid_transition, llm_unavailable,
  llm_budget_exceeded, invalid_model_output, value_error, key_error, permission_error,
  runtime_error, type_error, integrity_error, assertion_error,
}
use zhixu.Prelude.Table.{select_where, select_one, update_where, order_by}
use zhixu.Domain.Time.{DateTime, require_aware, second}
use zhixu.Domain.Classification.{level}
use zhixu.Domain.Reminder.{
  ActionLink, Reminder, ReminderStatus, pending, fired, cancelled, fire, skip,
}
use zhixu.Channels.{MessageButton, open_url, command, text}
use zhixu.Delivery.Outbox.Tables
use zhixu.Delivery.Outbox.Tables.{Delivery, Payload, collides}
use zhixu.Storage.Tables.{Database, Route, AuditEvent}
use zhixu.Storage.Reminders.{Checks, from_row, is_pending, set_status}

-- What the construction of a message takes from libraries and from the texts of the application: the
-- ISO text of a moment, the identifier that the hash of a key gives, and the card of a reminder.
pub record Writing : Type 0 where
  pub isoformat : ℕ → String
  pub delivery_id : String → String
  pub card : Reminder → String

-- `status='pending' AND fire_at<=?`
abbrev pub is_due : ℕ → Reminder → Bool
is_due now row = is_pending row && leb row.fire_at.instant now

-- `ORDER BY fire_at,id`
abbrev pub due_before : Reminder → Reminder → Bool
due_before r s =
    if r.fire_at.instant == s.fire_at.instant
    then str_leb r.id s.id
    else ltb r.fire_at.instant s.fire_at.instant

abbrev is_skip : Reminder → Bool
is_skip r = elim r.missed_policy [ fire ↦ false | skip ↦ true ]

-- `lateness > late_grace_seconds` for a reminder that is to be skipped when it was missed.
abbrev pub is_missed : ℕ → ℕ → Reminder → Bool
is_missed now grace r = is_skip r && ltb (r.fire_at.instant + grace * second) now

-- `WHERE id=? AND status='pending'`
abbrev pub still_pending : String → Reminder → Bool
still_pending id row = str_eq row.id id && is_pending row

-- The event that the scheduler leaves.
abbrev service_event : ℕ → String → String → String → AuditEvent
service_event now action id reason_code = record {
  occurred_at = now;
  actor_user_id = "service:scheduler";
  action = action;
  resource_kind = "reminder";
  resource_id = id;
  outcome = "completed";
  reason_code = reason_code;
}

abbrev pub set_row : String → ReminderStatus → ℕ → String → String → Database → Database
set_row id status now action reason_code db = record db {
  reminders = update_where (still_pending id) (set_status status now) db.reminders;
  audit_events = db.audit_events ++ service_event now action id reason_code ∷ [];
}

abbrev link_buttons : List ActionLink → List MessageButton
link_buttons [] = []
link_buttons (l ∷ ls) =
    record { label = l.label; action = l.url; kind = open_url } ∷ link_buttons ls

abbrev snooze_button : String → String → MessageButton
snooze_button id label = record {
  label = label;
  action = append_text "/提醒稍后 " (append_text id (append_text " " label));
  kind = command;
}

abbrev command_button : String → String → String → MessageButton
command_button id label name = record {
  label = label;
  action = append_text name (append_text " " id);
  kind = command;
}

-- The buttons of the payload.
abbrev pub buttons : Reminder → List MessageButton
buttons r =
    link_buttons r.action_links
    ++ (snooze_button r.id "5分钟"
        ∷ snooze_button r.id "15分钟"
        ∷ snooze_button r.id "30分钟"
        ∷ snooze_button r.id "60分钟"
        ∷ command_button r.id "完成" "/提醒完成"
        ∷ command_button r.id "取消" "/取消提醒"
        ∷ [])

abbrev pub idempotency_key : Writing → Reminder → String
idempotency_key w r =
    append_text "reminder:" (append_text r.id (append_text ":" (w.isoformat r.fire_at.instant)))

-- The newest route to the target.
abbrev newest : Route → Route → Bool
newest r s = leb s.last_seen_at r.last_seen_at

abbrev head : List Route → Option Route
head [] = none
head (r ∷ rs) = some r

abbrev pub route_of : Database → String → Option Route
route_of db target =
    head (order_by newest (select_where (λ (r : Route). str_eq r.opaque_ref target) db.routes))

abbrev route_channel : Option Route → String
route_channel none = ""
route_channel (some r) = r.channel

abbrev route_account : Option Route → String
route_account none = ""
route_account (some r) = r.channel_account

-- The row of the outbox. The payload has no other keys that the outbox reads.
abbrev pub reminder_delivery : Writing → Database → Reminder → ℕ → Delivery
reminder_delivery w db r now = record {
  id = w.delivery_id (idempotency_key w r);
  idempotency_key = idempotency_key w r;
  owner_user_id = r.owner_user_id;
  target_ref = r.target_ref;
  message_kind = text;
  payload = record {
    text = w.card r;
    buttons = buttons r;
    attachment_url = none;
    calendar_preview = none;
    daily_agenda_preview = none;
    reply_context_ref = "";
  };
  classification = r.classification;
  priority = 10;
  status = Tables.pending;
  attempts = 0;
  max_attempts = 5;
  next_attempt_at = now;
  last_error_code = "";
  created_at = now;
  updated_at = now;
  channel = route_channel (route_of db r.target_ref);
  channel_account = route_account (route_of db r.target_ref);
  lease_owner = "";
  lease_token = "";
  lease_expires_at = none;
  provider_message_id = "";
}

-- INSERT OR IGNORE INTO outbox_deliveries: a row with that key or id is kept, and an owner that does
-- not exist breaks the foreign key.
unfoldable pub insert_delivery : Delivery → Database → Result (ℕ × Database)
insert_delivery d db =
    if any (collides d.id d.idempotency_key) db.deliveries then ok (0, db) else do
      raise_if (not (str_mem d.owner_user_id db.users)) integrity_error
      ok (1, record db { deliveries = db.deliveries ++ d ∷ [] })

module _ (checks : Checks) (w : Writing) (now grace : ℕ) where
  -- The loop's body from the reminder that the row holds.
  unfoldable pub enqueue_reminder : Reminder → Database → Result (ℕ × Database)
  unfolding insert_delivery
  enqueue_reminder r db =
      if is_missed now grace r
      then ok (0, set_row r.id cancelled now "skip" "missed_policy" db)
      else do
        (n, inserted) ← insert_delivery (reminder_delivery w db r now) db
        ok (n, set_row r.id fired now "enqueue" "" inserted)

  -- The body of the loop for one row, with the number of rows that it inserts.
  unfoldable pub enqueue_one : Reminder → Database → Result (ℕ × Database)
  unfolding from_row enqueue_reminder
  enqueue_one row db = do r ← from_row checks row; enqueue_reminder r db

  unfoldable pub enqueue_rows : List Reminder → Database → Result (ℕ × Database)
  unfolding enqueue_one
  enqueue_rows [] db = ok (0, db)
  enqueue_rows (row ∷ rows) db = do
    (n, next) ← enqueue_one row db
    (m, end) ← enqueue_rows rows next
    ok (n + m, end)

-- `ReminderRepository.enqueue_due`. The grace is a number of seconds; a negative one, which the code
-- refuses, is no number of the model.
unfoldable pub enqueue_due : Checks → Writing → Database → DateTime → ℕ → Result (ℕ × Database)
unfolding require_aware enqueue_rows select_where order_by
enqueue_due checks w db now grace = do
  require_aware now
  enqueue_rows checks w now.instant grace
      (order_by due_before (select_where (is_due now.instant) db.reminders)) db
