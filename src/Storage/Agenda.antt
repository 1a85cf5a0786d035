-- ===== src/Storage/Agenda.antt =====
-- `AgendaRepository` of src/zhixu/adapters/storage/sqlite/repositories.py: agenda items with an optimistic
-- version, their rules and the exceptions of these.
pub mod Tables
use zhixu.Prelude.{
  ℕ, ◌+◌, String, Bool, true, false, not, ◌&&◌, ◌||◌, Option, none, some, List, [], ◌∷◌, ◌++◌, ltb,
  leb, ◌==◌, if◌then◌else◌, length, any, all, str_eq, str_leb, str_mem,
}
use zhixu.Prelude.Result.{
  Result, ok, ◌>>=◌, ◌>>◌, raise_if, validation_error, not_found, conflict, concurrency_conflict,
  permission_denied, key_error, integrity_error,
}
use zhixu.Prelude.Table.{
  select_where, select_one, update_where, delete_where, count_where, order_by,
}
use zhixu.Domain.Time.{DateTime, require_aware}
use zhixu.Domain.Policy.{create, update, delete, ResourceRef, AuthorizedAction}
use zhixu.Domain.Agenda.{
  Calendars, AgendaItem, RecurrenceRule, RecurrenceException, cancel, replace, check_rule,
  check_item, check_exception,
}
use zhixu.Domain.Agenda.Occurrences.{AgendaOccurrence, occurrences_between}
use zhixu.Storage.Tables.{Database, is_user?}
use zhixu.Storage.Access.{require_authorization, audit}
use zhixu.Storage.Reminders.{Checks, load_action_links}
unfoldable pub use zhixu.Storage.Agenda.Tables.{audit_agenda}
pub use zhixu.Storage.Agenda.Tables.{
  RuleRow, ExceptionRow, AgendaDatabase, agenda_ref, has_id, rule_of, exception_of,
  creator_or_owner, write_recurrence, insert_item, is_owned, is_current, overwrite, start_before,
  is_given, breaks_check, same_occurrence, write_exception, earlier, may_occur, in_window,
  occurs_before,
}

module _ (checks : Checks) (k : Calendars) where
  abbrev pub load_rule : Option RuleRow → Result (Option RecurrenceRule)
  load_rule none = ok none
  load_rule (some row) = do rule ← check_rule k row.rule; ok (some rule)

  -- `AgendaRepository._from_row`
  unfoldable pub from_row : AgendaDatabase → AgendaItem → Result AgendaItem
  unfolding select_one check_rule load_action_links check_item
  from_row db row = do
    rule ← load_rule (select_one (rule_of row.id) db.rules)
    raise_if (not (k.is_zone row.timezone)) key_error
    raise_if (ltb 8 (length row.action_links)) validation_error
    load_action_links checks row.action_links
    check_item k (record row { creator_user_id = some (creator_or_owner row); recurrence = rule })

  abbrev pub load : AgendaDatabase → Option AgendaItem → Result (Option AgendaItem)
  load db none = ok none
  load db (some row) = do item ← from_row db row; ok (some item)

  -- `AgendaRepository.get`
  unfoldable pub get_item : AgendaDatabase → String → Result (Option AgendaItem)
  unfolding from_row
  get_item db id = load db (select_one (has_id id) db.items)

  abbrev from_rows : AgendaDatabase → List AgendaItem → Result (List AgendaItem)
  from_rows db [] = ok []
  from_rows db (row ∷ rows) =
      let rest = from_rows db rows in do item ← from_row db row; items ← rest; ok (item ∷ items)

  -- `AgendaRepository.list_for_owner`
  unfoldable pub list_for_owner : AgendaDatabase → String → Result (List AgendaItem)
  unfolding from_row select_where order_by
  list_for_owner db owner =
      from_rows db
        (order_by start_before (select_where (λ row. str_eq row.owner_user_id owner) db.items))

  -- `AgendaRepository.list_scheduled`
  unfoldable pub list_scheduled : AgendaDatabase → DateTime → DateTime → Result (List AgendaItem)
  unfolding require_aware from_row select_where order_by
  list_scheduled db window_start window_end = do
    require_aware window_end
    require_aware window_start
    from_rows db (
        order_by start_before
          (select_where (may_occur db window_start.instant window_end.instant) db.items))

  -- `AgendaRepository.create`; `replace` constructs the stored value, with its check.
  unfoldable pub create_item :
      AgendaDatabase → AgendaItem → AuthorizedAction → Result (AgendaItem × AgendaDatabase)
  unfolding require_authorization check_item require_aware insert_item write_recurrence audit_agenda
  create_item db item a = do
    require_authorization a create (agenda_ref item)
    stored ← check_item k (record item {
      version = 1;
      created_at = some a.authorized_at;
      updated_at = some a.authorized_at;
    })
    require_aware a.authorized_at
    inserted ← insert_item stored db
    after ← audit_agenda a (write_recurrence stored inserted)
    ok (stored, after)

  -- `AgendaRepository.update`
  unfoldable pub update_item :
      AgendaDatabase → AgendaItem → ℕ → AuthorizedAction → Result (AgendaItem × AgendaDatabase)
  unfolding require_authorization check_item require_aware write_recurrence audit_agenda
  update_item db item expected a = do
    require_authorization a update (agenda_ref item)
    raise_if (not (item.version == expected + 1)) validation_error
    stored ← check_item k (record item { updated_at = some a.authorized_at })
    require_aware a.authorized_at
    raise_if (not (count_where (is_current stored expected) db.items == 1)) concurrency_conflict
    after ← audit_agenda a (
        write_recurrence stored (record db {
          items = update_where (is_current stored expected) (overwrite stored) db.items;
        }))
    ok (stored, after)

  abbrev check_exceptions : List ExceptionRow → Result (List RecurrenceException)
  check_exceptions [] = ok []
  check_exceptions (row ∷ rows) =
      let rest = check_exceptions rows in do x ← check_exception row.value; xs ← rest; ok (x ∷ xs)

  -- `AgendaRepository._exceptions`
  unfoldable pub exceptions_of : AgendaDatabase → String → Result (List RecurrenceException)
  unfolding check_exception select_where order_by
  exceptions_of db id =
      check_exceptions (order_by earlier (select_where (exception_of id) db.exceptions))

  -- The occurrences of one row after the other.
  unfoldable pub occurrences_of_rows :
      AgendaDatabase → DateTime → DateTime → List AgendaItem → Result (List AgendaOccurrence)
  unfolding from_row exceptions_of occurrences_between
  occurrences_of_rows db window_start window_end [] = ok []
  occurrences_of_rows db window_start window_end (row ∷ rows) =
      let rest = occurrences_of_rows db window_start window_end rows in
      do
        item ← from_row db row
        exceptions ← exceptions_of db item.id
        mine ← occurrences_between k item window_start window_end exceptions
        others ← rest
        ok (mine ++ others)

  -- `AgendaRepository.occurrences`
  unfoldable pub occurrences :
      AgendaDatabase → String → DateTime → DateTime → Result (List AgendaOccurrence)
  unfolding require_aware occurrences_of_rows select_where order_by
  occurrences db owner window_start window_end = do
    require_aware window_start
    require_aware window_end
    all ← occurrences_of_rows db window_start window_end (
        order_by start_before
          (select_where (in_window db owner window_start.instant window_end.instant) db.items))
    ok (order_by occurs_before all)

-- `AgendaRepository.delete`; the foreign keys delete the rule and the exceptions of the item too.
unfoldable pub delete_item : AgendaDatabase → String → AuthorizedAction → Result AgendaDatabase
unfolding require_authorization audit_agenda
delete_item db id a =
    let owner = a.resource.owner_user_id in
    do
      raise_if (not (str_eq a.resource.id id)) permission_denied
      require_authorization a delete (record {
        kind = "agenda";
        id = id;
        owner_user_id = owner;
        classification = a.resource.classification;
      })
      raise_if (not (count_where (is_owned id owner) db.items == 1)) not_found
      audit_agenda a (record db {
        items = delete_where (is_owned id owner) db.items;
        rules = delete_where (rule_of id) db.rules;
        exceptions = delete_where (exception_of id) db.exceptions;
      })

-- `AgendaRepository.add_exception`
unfoldable pub add_exception :
    AgendaDatabase → String → RecurrenceException → AuthorizedAction → Result AgendaDatabase
unfolding require_authorization require_aware write_exception audit_agenda
add_exception db id x a = do
  require_authorization a update (record {
    kind = "agenda";
    id = id;
    owner_user_id = a.resource.owner_user_id;
    classification = a.resource.classification;
  })
  raise_if (not (any (has_id id) db.items)) not_found
  require_aware x.occurrence_at
  raise_if (breaks_check x) integrity_error
  audit_agenda a (write_exception id x db)
