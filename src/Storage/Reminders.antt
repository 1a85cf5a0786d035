-- ===== src/Storage/Reminders.antt =====
-- `ReminderRepository` of src/zhixu/adapters/storage/sqlite/repositories.py, but `enqueue_due`: reminders
-- with an optimistic version. Which names are time zones and what `urlsplit` makes of a URL are
-- arguments, as the constructors of a reminder and of its links need them.
pub mod Effect
pub mod Due
use zhixu.Prelude.{
  ℕ, zero, suc, ◌+◌, ◌-◌, ◌*◌, ◌/◌, ◌%◌, ◌≤◌, ◌<◌, max, String, ◌≡◌, refl, sym, ap, ◌∙◌, subst, ◌≢◌,
  ◌⊎◌, inl, inr, Bool, true, false, not, ◌&&◌, ◌||◌, Option, none, some, List, [], ◌∷◌, ◌++◌, map,
  arith, eq_iff, ltb, leb, ◌==◌, if◌then◌else◌, ltb→lt, leb→le, Bool-cases, Option-cases, length,
  any, all, All, length-append, str_eq, codes, is_space, is_blank, text_length, prefix, str_leb,
  str_mem, str_leb_total, str_leb_trans, str_leb_refl, str_eq_comm, str_eq_refl,
}
use zhixu.Prelude.Result.{
  Result-cases, Error, Result, ok, err, ◌>>=◌, ◌>>◌, raise_if, or_raise, >>=-eq-ok, >>-eq-ok,
  validation_error, not_found, conflict, concurrency_conflict, permission_denied,
  confirmation_required, classification_not_supported, invalid_transition, llm_unavailable,
  llm_budget_exceeded, invalid_model_output, value_error, key_error, permission_error,
  runtime_error, type_error, integrity_error, assertion_error,
}
use zhixu.Prelude.Table.{select_where, select_one, update_where, count_where, order_by}
use zhixu.Domain.Time.{DateTime, require_aware}
use zhixu.Domain.Policy.{create, update, ResourceRef, AuthorizedAction}
use zhixu.Domain.Reminder.{
  ActionLink, SplitUrl, check_action_link, Reminder, ReminderStatus, pending, fired, cancelled,
  check_reminder,
}
use zhixu.Storage.Tables.{Database, is_user?}
use zhixu.Storage.Access.{require_authorization, audit}

abbrev pub reminder_ref : Reminder → ResourceRef
reminder_ref r = record {
  kind = "reminder";
  id = r.id;
  owner_user_id = r.owner_user_id;
  classification = r.classification;
}

-- `WHERE id=?`
abbrev pub has_id : String → Reminder → Bool
has_id i row = str_eq row.id i

abbrev pub is_pending : Reminder → Bool
is_pending row = elim row.status [ pending ↦ true | fired ↦ false | cancelled ↦ false ]

abbrev pub is_fired : Reminder → Bool
is_fired row = elim row.status [ pending ↦ false | fired ↦ true | cancelled ↦ false ]

abbrev pub is_cancelled : Reminder → Bool
is_cancelled row = elim row.status [ pending ↦ false | fired ↦ false | cancelled ↦ true ]

-- What the constructors ask of libraries.
pub record Checks : Type 0 where
  pub is_zone : String → Bool
  pub urlsplit : String → Option SplitUrl

-- INSERT INTO reminders, with the PRIMARY KEY and the foreign keys.
unfoldable pub insert_reminder : Reminder → Database → Result Database
insert_reminder r db = do
  raise_if
      (any (has_id r.id) db.reminders
        || not (str_mem r.owner_user_id db.users && is_user? db.users r.creator_user_id))
      conflict
  ok (record db { reminders = db.reminders ++ r ∷ [] })

abbrev pub creator_or_owner : Reminder → String
creator_or_owner row = elim row.creator_user_id [ none ↦ row.owner_user_id | some c ↦ c ]

-- The order of a listing: pending before fired before the others, then by time and id.
abbrev rank : Reminder → ℕ
rank row = elim row.status [ pending ↦ 0 | fired ↦ 1 | cancelled ↦ 2 ]

abbrev pub listed_before : Reminder → Reminder → Bool
listed_before r s =
    if rank r == rank s
    then (if r.fire_at.instant == s.fire_at.instant
        then str_leb r.id s.id
        else ltb r.fire_at.instant s.fire_at.instant)
    else ltb (rank r) (rank s)

-- `WHERE id=? AND version=? AND status …`
abbrev pub is_at : (Reminder → Bool) → String → ℕ → Reminder → Bool
is_at status id expected row = (str_eq row.id id && row.version == expected) && status row

abbrev pub set_status : ReminderStatus → ℕ → Reminder → Reminder
set_status status now row = record row {
  status = status;
  version = row.version + 1;
  updated_at = some (record { instant = now; aware = true });
}

abbrev pub is_active : Reminder → Bool
is_active row = is_pending row || is_fired row

abbrev pub set_snoozed : DateTime → ℕ → Reminder → Reminder
set_snoozed fire_at now row = record (set_status pending now row) { fire_at = fire_at }

module _ (checks : Checks) where
  -- `ReminderRepository.create`; `replace` constructs the stored value, with its check.
  unfoldable pub create_reminder :
      Database → Reminder → AuthorizedAction → Result (Reminder × Database)
  unfolding require_authorization check_reminder require_aware insert_reminder audit
  create_reminder db r a = do
    require_authorization a create (reminder_ref r)
    stored ← check_reminder checks.is_zone (record r {
      version = 1;
      created_at = some a.authorized_at;
      updated_at = some a.authorized_at;
    })
    require_aware a.authorized_at
    inserted ← insert_reminder stored db
    after ← audit a "completed" "" inserted
    ok (stored, after)

  -- `_load_action_links`
  unfoldable pub load_action_links : List ActionLink → Result (Unit {0})
  unfolding check_action_link
  load_action_links [] = ok tt
  load_action_links (link ∷ links) =
      let rest = load_action_links links in do _ ← check_action_link checks.urlsplit link; rest

  -- `ReminderRepository._from_row`
  unfoldable pub from_row : Reminder → Result Reminder
  unfolding load_action_links check_reminder
  from_row row = do
    raise_if (ltb 8 (length row.action_links)) validation_error
    load_action_links row.action_links
    check_reminder checks.is_zone (record row { creator_user_id = some (creator_or_owner row) })

  abbrev pub load : Option Reminder → Result (Option Reminder)
  load none = ok none
  load (some row) = do r ← from_row row; ok (some r)

  -- `ReminderRepository.get`
  unfoldable pub get_reminder : Database → String → Result (Option Reminder)
  unfolding from_row
  get_reminder db id = load (select_one (has_id id) db.reminders)

  abbrev pub from_rows : List Reminder → Result (List Reminder)
  from_rows [] = ok []
  from_rows (row ∷ rows) = let rest = from_rows rows in do r ← from_row row; rs ← rest; ok (r ∷ rs)

  -- `ReminderRepository.list_for_owner`
  unfoldable pub list_for_owner : Database → String → Result (List Reminder)
  unfolding from_row select_where order_by
  list_for_owner db owner =
      from_rows
        (order_by listed_before (select_where (λ row. str_eq row.owner_user_id owner) db.reminders))

  -- What `cancel`, `acknowledge` and `snooze` have in common: the reminder is there, the authorization
  -- is for it, one row has the version and the status, and it is read again after the change.
  unfoldable pub change_reminder :
      (Reminder → Bool)
      → (Reminder → Reminder)
      → String
      → Database
      → String
      → ℕ
      → AuthorizedAction
      → Result (Reminder × Database)
  unfolding get_reminder require_authorization require_aware audit
  change_reminder status change reason db id expected a = do
    found ← get_reminder db id
    existing ← or_raise found not_found
    require_authorization a update (reminder_ref existing)
    require_aware a.authorized_at
    raise_if (not (count_where (is_at status id expected) db.reminders == 1)) conflict
    after ←
        audit a "completed" reason
          (record db { reminders = update_where (is_at status id expected) change db.reminders })
    again ← get_reminder after id
    updated ← or_raise again assertion_error
    ok (updated, after)

  -- `ReminderRepository.cancel`
  unfoldable pub cancel : Database → String → ℕ → AuthorizedAction → Result (Reminder × Database)
  unfolding change_reminder
  cancel db id expected a =
      change_reminder is_active (set_status cancelled a.authorized_at.instant) "cancelled" db id
        expected a

  -- `ReminderRepository.acknowledge`
  unfoldable pub acknowledge :
      Database → String → ℕ → AuthorizedAction → Result (Reminder × Database)
  unfolding change_reminder
  acknowledge db id expected a =
      change_reminder is_fired (set_status cancelled a.authorized_at.instant) "acknowledged" db id
        expected a

  -- `ReminderRepository.snooze`
  unfoldable pub snooze :
      Database → String → DateTime → ℕ → AuthorizedAction → Result (Reminder × Database)
  unfolding require_aware change_reminder
  snooze db id fire_at expected a = do
    require_aware fire_at
    raise_if (leb fire_at.instant a.authorized_at.instant) validation_error
    change_reminder is_fired (set_snoozed fire_at a.authorized_at.instant) "snoozed" db id expected
        a
