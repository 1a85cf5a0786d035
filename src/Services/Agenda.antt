-- ===== src/Services/Agenda.antt =====
-- The commands on agenda items of `ZhixuServices` in src/zhixu/application/services.py. The identifier that
-- `id_factory` makes and what the clock says are arguments.
pub mod Announcements
pub mod Silenced
use zhixu.Prelude.{
  ℕ, zero, suc, ◌+◌, ◌-◌, ◌*◌, ◌/◌, ◌%◌, ◌≤◌, ◌<◌, max, String, ◌≡◌, refl, sym, ap, ◌∙◌, subst, ◌≢◌,
  ◌⊎◌, inl, inr, Bool, true, false, not, ◌&&◌, ◌||◌, Option, none, some, List, [], ◌∷◌, ◌++◌, map,
  arith, eq_iff, ltb, leb, ◌==◌, if◌then◌else◌, ltb→lt, leb→le, Bool-cases, Option-cases, length,
  any, all, All, length-append, str_eq, codes, is_space, is_blank, text_length, prefix, str_leb,
  str_mem, str_leb_total, str_leb_trans, str_leb_refl, str_eq_comm, str_eq_refl,
}
use zhixu.Prelude.Result.{
  Result-cases, Error, Result, ok, err, ◌>>=◌, ◌>>◌, raise_if, or_raise, >>=-eq-ok, >>-eq-ok,
  validation_error, not_found, conflict, concurrency_conflict, permission_denied,
  confirmation_required, classification_not_supported, invalid_transition, llm_unavailable,
  llm_budget_exceeded, invalid_model_output, value_error, key_error, permission_error,
  runtime_error, type_error, integrity_error, assertion_error,
}
use zhixu.Prelude.Table.{order_by}
use zhixu.Domain.Time.{DateTime}
use zhixu.Domain.Classification.{DataClassification, personal}
use zhixu.Domain.Policy.{CommandContext, AuthorizedAction, create, read, update, delete}
use zhixu.Domain.Reminder.{ActionLink, Reminder}
use zhixu.Domain.Agenda.{
  Calendars, AgendaItem, RecurrenceRule, RecurrenceException, ExceptionAction, check_rule,
  check_item, check_exception,
}
use zhixu.Domain.Agenda.Occurrences.{AgendaOccurrence}
use zhixu.Storage.Reminders
use zhixu.Storage.Reminders.{Checks, reminder_ref, is_pending, list_for_owner}
use zhixu.Storage.Agenda
use zhixu.Storage.Agenda.{
  AgendaDatabase, agenda_ref, get_item, delete_item, add_exception, start_before,
}
use zhixu.Services.Context.{
  current_context, create_owner, read_owners, require_creator_or_manager, authorize,
}

-- `CreateAgenda`, and `UpdateAgenda` but its id and version.
pub record AgendaFields : Type 0 where
  pub title : String
  pub description : String
  pub action_links : List ActionLink
  pub start_at : DateTime
  pub end_at : DateTime
  pub timezone : String
  pub all_day : Bool
  pub recurrence_rule : Option String
  pub classification : DataClassification

abbrev is_given : Option String → Bool
is_given none = false
is_given (some s) = not (str_eq s "")

abbrev text_of : Option String → String
text_of none = ""
text_of (some s) = s

abbrev is_text : Option String → String → Bool
is_text none t = false
is_text (some s) t = str_eq s t

-- A reminder of the item that is still to come.
abbrev pub announces : String → Reminder → Bool
announces id r = is_text r.related_kind "agenda" && (is_text r.related_id id && is_pending r)

abbrev ended : AgendaDatabase → Result AgendaDatabase → Result (Unit {0}) × AgendaDatabase
ended db (err e) = (err e, db)
ended db (ok next) = (ok tt, next)

-- The last step, unless an error ended the work before it.
abbrev pub finish :
    (AgendaDatabase → Result AgendaDatabase)
    → Result (Unit {0}) × AgendaDatabase
    → Result (Unit {0}) × AgendaDatabase
finish last (err e, db) = (err e, db)
finish last (ok x, db) = ended db (last db)

-- What `delete_agenda` knows before its loop: the item, the context, the authorization to delete it and
-- the reminders of its owner.
pub record Deletion : Type 0 where
  pub item : AgendaItem
  pub context : CommandContext
  pub authorization : AuthorizedAction
  pub reminders : List Reminder

module _ (checks : Checks) (k : Calendars) where
  -- `RecurrenceRule(…) if command.recurrence_rule else None`
  unfoldable pub recurrence_of : AgendaFields → Result (Option RecurrenceRule)
  unfolding check_rule
  recurrence_of f =
      if is_given f.recurrence_rule
      then (do
        rule ← check_rule k (record { value = text_of f.recurrence_rule; timezone = f.timezone })
        ok (some rule))
      else ok none

  -- `ZhixuServices.create_agenda`
  unfoldable pub create_agenda :
      AgendaDatabase
      → String
      → AgendaFields
      → Bool
      → CommandContext
      → DateTime
      → Result (AgendaItem × AgendaDatabase)
  unfolding current_context recurrence_of create_owner check_item authorize Agenda.create_item
  create_agenda db id f is_private context now = do
    current ← current_context context now
    recurrence ← recurrence_of f
    item ← check_item k (record {
      id = id;
      owner_user_id = create_owner current is_private;
      title = f.title;
      start_at = f.start_at;
      end_at = f.end_at;
      timezone = f.timezone;
      creator_user_id = some current.actor_user_id;
      all_day = f.all_day;
      description = f.description;
      action_links = f.action_links;
      classification = f.classification;
      recurrence = recurrence;
      version = 1;
      created_at = none;
      updated_at = none;
    })
    a ← authorize db.base current create (agenda_ref item)
    Agenda.create_item checks k db item a

  unfoldable pub named_item : AgendaDatabase → String → Result AgendaItem
  unfolding get_item
  named_item db id = do found ← get_item checks k db id; or_raise found not_found

  -- `ZhixuServices.update_agenda`
  unfoldable pub update_agenda :
      AgendaDatabase
      → String
      → ℕ
      → AgendaFields
      → CommandContext
      → DateTime
      → Result (AgendaItem × AgendaDatabase)
  unfolding named_item current_context recurrence_of check_item authorize Agenda.update_item
  update_agenda db id expected f context now = do
    existing ← named_item db id
    raise_if (not (existing.version == expected)) concurrency_conflict
    current ← current_context context now
    recurrence ← recurrence_of f
    updated ← check_item k (record existing {
      title = f.title;
      description = f.description;
      action_links = f.action_links;
      start_at = f.start_at;
      end_at = f.end_at;
      timezone = f.timezone;
      all_day = f.all_day;
      classification = f.classification;
      recurrence = recurrence;
      version = expected + 1;
    })
    a ← authorize db.base current update (agenda_ref updated)
    Agenda.update_item checks k db updated expected a

  -- What the body of the loop does with one reminder.
  unfoldable pub cancel_announcement :
      CommandContext → Reminder → AgendaDatabase → Result AgendaDatabase
  unfolding authorize Reminders.cancel
  cancel_announcement c r db = do
    a ← authorize db.base c update (reminder_ref r)
    (cancelled, base) ← Reminders.cancel checks db.base r.id r.version a
    ok (record db { base = base })

  -- The loop of `delete_agenda`. Each cancellation is a transaction of its own, so an error leaves those
  -- before it.
  unfoldable pub cancel_announcements :
      CommandContext → String → List Reminder → AgendaDatabase → Result (Unit {0}) × AgendaDatabase
  unfolding cancel_announcement
  cancel_announcements c id [] db = (ok tt, db)
  cancel_announcements c id (r ∷ rs) db =
      let skip = cancel_announcements c id rs db in
      if announces id r
      then elim (cancel_announcement c r db) [
        | err e ↦ (err e, db)
        | ok next ↦ cancel_announcements c id rs next
      ]
      else skip

  unfoldable pub prepare_deletion :
      AgendaDatabase → String → CommandContext → DateTime → Result Deletion
  unfolding named_item current_context require_creator_or_manager authorize list_for_owner
  prepare_deletion db id context now = do
    existing ← named_item db id
    current ← current_context context now
    require_creator_or_manager current existing.owner_user_id existing.creator_user_id
    a ← authorize db.base current delete (agenda_ref existing)
    reminders ← list_for_owner checks db.base existing.owner_user_id
    ok (record { item = existing; context = current; authorization = a; reminders = reminders })

  unfoldable pub delete_prepared :
      AgendaDatabase → Result Deletion → Result (Unit {0}) × AgendaDatabase
  unfolding cancel_announcements delete_item
  delete_prepared db (err e) = (err e, db)
  delete_prepared db (ok d) =
      finish (λ next. delete_item next d.item.id d.authorization)
        (cancel_announcements d.context d.item.id d.reminders db)

  -- `ZhixuServices.delete_agenda`
  unfoldable pub delete_agenda :
      AgendaDatabase → String → CommandContext → DateTime → Result (Unit {0}) × AgendaDatabase
  unfolding prepare_deletion delete_prepared
  delete_agenda db id context now = delete_prepared db (prepare_deletion db id context now)

  -- `ZhixuServices.set_agenda_exception`
  unfoldable pub set_agenda_exception :
      AgendaDatabase
      → String
      → RecurrenceException
      → CommandContext
      → DateTime
      → Result AgendaDatabase
  unfolding named_item current_context authorize check_exception add_exception
  set_agenda_exception db id x context now = do
    existing ← named_item db id
    current ← current_context context now
    a ← authorize db.base current update (agenda_ref existing)
    exception ← check_exception x
    add_exception db existing.id exception a

  -- The items of one owner after the other, each behind the policy.
  unfoldable pub may_read_items :
      AgendaDatabase → CommandContext → List AgendaItem → Result (Unit {0})
  unfolding authorize
  may_read_items db c [] = ok tt
  may_read_items db c (i ∷ is) =
      let rest = may_read_items db c is in do _ ← authorize db.base c read (agenda_ref i); rest

  unfoldable pub items_of : AgendaDatabase → CommandContext → List String → Result (List AgendaItem)
  unfolding authorize Agenda.list_for_owner may_read_items
  items_of db c [] = ok []
  items_of db c (owner ∷ owners) =
      let rest = items_of db c owners in
      do
        _ ← authorize db.base c read (record {
          kind = "agenda_collection";
          id = owner;
          owner_user_id = owner;
          classification = personal;
        })
        mine ← Agenda.list_for_owner checks k db owner
        may_read_items db c mine
        others ← rest
        ok (mine ++ others)

  -- `ZhixuServices.list_agenda_items`
  unfoldable pub list_agenda_items :
      AgendaDatabase → CommandContext → DateTime → Result (List AgendaItem)
  unfolding current_context read_owners items_of order_by
  list_agenda_items db context now = do
    current ← current_context context now
    items ← items_of db current (read_owners current)
    ok (order_by start_before items)
