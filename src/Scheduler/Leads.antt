-- ===== src/Scheduler/Leads.antt =====
-- `NotificationLeadScheduler` of src/zhixu/application/scheduler.py: reminders ahead of the occurrences of
-- the agenda. Each reminder is a transaction of its own, so an error leaves those before it.
pub mod Announced
use zhixu.Prelude.{
  ℕ, zero, suc, ◌+◌, ◌-◌, ◌*◌, ◌/◌, ◌%◌, ◌≤◌, ◌<◌, max, String, ◌≡◌, refl, sym, ap, ◌∙◌, subst, ◌≢◌,
  ◌⊎◌, inl, inr, Bool, true, false, not, ◌&&◌, ◌||◌, Option, none, some, List, [], ◌∷◌, ◌++◌, map,
  arith, eq_iff, ltb, leb, ◌==◌, if◌then◌else◌, ltb→lt, leb→le, Bool-cases, Option-cases, length,
  any, all, All, length-append, str_eq, codes, is_space, is_blank, text_length, prefix, str_leb,
  str_mem, str_leb_total, str_leb_trans, str_leb_refl, str_eq_comm, str_eq_refl,
}
use Prim.Native.String.{◌++◌ as append_text}
use zhixu.Prelude.Result.{
  Result-cases, Error, Result, ok, err, ◌>>=◌, ◌>>◌, raise_if, or_raise, >>=-eq-ok, >>-eq-ok,
  validation_error, not_found, conflict, concurrency_conflict, permission_denied,
  confirmation_required, classification_not_supported, invalid_transition, llm_unavailable,
  llm_budget_exceeded, invalid_model_output, value_error, key_error, permission_error,
  runtime_error, type_error, integrity_error, assertion_error,
}
use zhixu.Prelude.Int.{ℤ, pos, negsuc}
use zhixu.Domain.Time.{DateTime, second}
use zhixu.Domain.Policy.{AuthorizedAction, create}
use zhixu.Domain.Reminder.{Reminder, pending, fire, check_reminder}
use zhixu.Domain.Agenda.{AgendaItem}
use zhixu.Domain.Agenda.Occurrences.{AgendaOccurrence}
use zhixu.Storage.Tables.{Database}
use zhixu.Storage.Leads
use zhixu.Storage.Leads.{resolve}
use zhixu.Storage.Reminders.{Checks, reminder_ref, get_reminder, create_reminder}

-- The other repositories behind their ports; of zoneinfo, the wall time of a moment in a zone and the first
-- moment of a wall time, both in microseconds; and the texts that an identity is made of: the ISO text of a
-- moment, the decimal of a number of minutes, and the identifier that the hash of an identity gives.
pub record Ports : Type 0 where
  pub list_scheduled : ℕ → ℕ → Result (List AgendaItem)
  pub occurrences : String → ℕ → ℕ → Result (List AgendaOccurrence)
  pub default_target_for : String → Option String
  pub wall : String → ℕ → ℕ
  pub moment : String → ℕ → ℕ
  pub isoformat : ℕ → String
  pub decimal : ℤ → String
  pub reminder_id : String → String

-- The database after the work so far, with the number of new reminders, or the error that ended it.
abbrev pub Ran : Type 0
Ran = Result ℕ × Database

-- What follows, unless an error ended the work; the numbers add up.
abbrev pub and_then : Ran → (Database → Ran) → Ran
and_then (ok n, db) next = let (r, end) = next db in (r >>= λ m. ok (n + m), end)
and_then (err e, db) next = (err e, db)

-- `occurrence.start_at - timedelta(minutes=minutes)`: the start is in the zone of the item, as the repository
-- loads it, so Python subtracts from its wall time.
abbrev pub fire_at : Ports → String → ℕ → ℤ → ℕ
fire_at ports zone start (pos n) = ports.moment zone (ports.wall zone start - n * (60 * second))
fire_at ports zone start (negsuc n) =
    ports.moment zone (ports.wall zone start + (n + 1) * (60 * second))

-- `text or other`
abbrev or_text : String → String → String
or_text a b = if str_eq a "" then b else a

abbrev or_owner : Option String → String → String
or_owner none owner = owner
or_owner (some c) owner = or_text c owner

abbrev pub is_conflict : Error → Bool
is_conflict conflict = true
is_conflict concurrency_conflict = true
is_conflict invalid_transition = true
is_conflict _ = false

-- `try: create … except ConflictError: continue`
abbrev pub counted : Database → Result (Reminder × Database) → Ran
counted db (ok (r, next)) = (ok 1, next)
counted db (err e) = if is_conflict e then (ok 0, db) else (err e, db)

module _ (checks : Checks) (ports : Ports) (now : ℕ) where
  abbrev pub identity : AgendaItem → AgendaOccurrence → ℤ → String
  identity item o minutes = ports.reminder_id (
      append_text "lead:" (
        append_text item.id (
          append_text ":"
            (append_text (ports.isoformat o.start_at) (append_text ":" (ports.decimal minutes))))))

  abbrev at : ℕ → DateTime
  at t = record { instant = t; aware = true }

  abbrev pub lead_reminder : AgendaItem → AgendaOccurrence → ℤ → String → Reminder
  lead_reminder item o minutes target = record {
    id = identity item o minutes;
    owner_user_id = item.owner_user_id;
    title = or_text o.title item.title;
    fire_at = at (fire_at ports item.timezone o.start_at minutes);
    target_ref = target;
    creator_user_id = some (or_owner item.creator_user_id item.owner_user_id);
    action_links = [];
    status = pending;
    missed_policy = fire;
    classification = item.classification;
    related_kind = some "agenda";
    related_id = some item.id;
    related_start_at = some (at o.start_at);
    timezone = some item.timezone;
    version = 1;
    created_at = none;
    updated_at = none;
  }

  abbrev pub by_service : Reminder → AuthorizedAction
  by_service r = record {
    actor_user_id = "service:agenda-notification";
    action = create;
    resource = reminder_ref r;
    authorized_at = at now;
  }

  abbrev created : Database → Result Reminder → Ran
  created db (err e) = (err e, db)
  created db (ok r) = counted db (create_reminder checks db r (by_service r))

  -- What follows the look at the reminder with the identity.
  abbrev unless_there : Database → Result (Option Reminder) → Result Reminder → Ran
  unless_there db (err e) r = (err e, db)
  unless_there db (ok (some old)) r = (ok 0, db)
  unless_there db (ok none) r = created db r

  -- The body of the loop in `_materialize`.
  unfoldable pub materialize_one : AgendaItem → AgendaOccurrence → String → ℤ → Database → Ran
  unfolding get_reminder create_reminder check_reminder
  materialize_one item o target minutes db =
      if ltb (fire_at ports item.timezone o.start_at minutes) now
      then (ok 0, db)
      else unless_there db (get_reminder checks db (identity item o minutes))
          (check_reminder checks.is_zone (lead_reminder item o minutes target))

  -- `NotificationLeadScheduler._materialize`
  unfoldable pub materialize : AgendaItem → AgendaOccurrence → String → List ℤ → Database → Ran
  unfolding materialize_one
  materialize item o target [] db = (ok 0, db)
  materialize item o target (m ∷ ms) db =
      and_then (materialize_one item o target m db) (materialize item o target ms)

  -- The loop over the occurrences of the owner.
  unfoldable pub materialize_all :
      AgendaItem → String → List ℤ → List AgendaOccurrence → Database → Ran
  unfolding materialize
  materialize_all item target leads [] db = (ok 0, db)
  materialize_all item target leads (o ∷ os) db =
      and_then
        (if str_eq o.agenda_item_id item.id then materialize item o target leads db else (ok 0, db))
        (materialize_all item target leads os)

  abbrev pub for_occurrences :
      AgendaItem → String → List ℤ → Database → Result (List AgendaOccurrence) → Ran
  for_occurrences item target leads db (err e) = (err e, db)
  for_occurrences item target leads db (ok os) = materialize_all item target leads os db

  abbrev pub for_target : AgendaItem → List ℤ → ℕ → Database → Option String → Ran
  for_target item leads window_end db none = (ok 0, db)
  for_target item leads window_end db (some target) =
      if str_eq target ""
      then (ok 0, db)
      else for_occurrences item target leads db
          (ports.occurrences item.owner_user_id now window_end)

  abbrev pub for_leads : AgendaItem → ℕ → Database → List ℤ → Ran
  for_leads item window_end db [] = (ok 0, db)
  for_leads item window_end db (m ∷ ms) =
      for_target item (m ∷ ms) window_end db (ports.default_target_for item.owner_user_id)

  -- The body of the loop in `tick`.
  unfoldable pub announce_item : Leads.Leads → ℕ → AgendaItem → Database → Ran
  unfolding resolve materialize_all
  announce_item leads window_end item db =
      if item.all_day
      then (ok 0, db)
      else for_leads item window_end db (resolve leads item.id item.owner_user_id)

  unfoldable pub announce_items : Leads.Leads → ℕ → List AgendaItem → Database → Ran
  unfolding announce_item
  announce_items leads window_end [] db = (ok 0, db)
  announce_items leads window_end (item ∷ items) db =
      and_then (announce_item leads window_end item db) (announce_items leads window_end items)

  abbrev pub for_items : Leads.Leads → ℕ → Database → Result (List AgendaItem) → Ran
  for_items leads window_end db (err e) = (err e, db)
  for_items leads window_end db (ok items) = announce_items leads window_end items db

  -- `NotificationLeadScheduler.tick`, with the horizon in days.
  unfoldable pub tick : Leads.Leads → ℕ → Database → Ran
  unfolding announce_items
  tick leads horizon_days db =
      let window_end = now + horizon_days * (86400 * second) in
      for_items leads window_end db (ports.list_scheduled now window_end)
