-- ===== src/Storage/Agenda/Tables.antt =====
-- The tables of the agenda in src/zhixu/adapters/storage/sqlite/repositories.py: their rows, the conditions
-- of the statements of `AgendaRepository`, and what these write.
use zhixu.Prelude.{
  ℕ, String, Bool, true, false, not, ◌&&◌, ◌||◌, Option, none, some, List, [], ◌∷◌, ◌++◌, ltb, leb,
  ◌==◌, if◌then◌else◌, any, str_eq, str_leb, str_mem,
}
use zhixu.Prelude.Result.{Result, ok, ◌>>=◌, ◌>>◌, raise_if, conflict}
use zhixu.Prelude.Table.{update_where, delete_where}
use zhixu.Domain.Time.{DateTime}
use zhixu.Domain.Policy.{ResourceRef, AuthorizedAction}
use zhixu.Domain.Agenda.{AgendaItem, RecurrenceRule, RecurrenceException, cancel, replace}
use zhixu.Domain.Agenda.Occurrences.{AgendaOccurrence}
use zhixu.Storage.Tables.{Database, is_user?}
use zhixu.Storage.Access.{audit}

-- A row of `recurrence_rules`.
pub record RuleRow : Type 0 where
  pub agenda_item_id : String
  pub rule : RecurrenceRule

-- A row of `recurrence_exceptions`.
pub record ExceptionRow : Type 0 where
  pub agenda_item_id : String
  pub value : RecurrenceException

-- The tables of the agenda beside the others. The rule of an item stands in a table of its own, not in
-- the row of the item.
pub record AgendaDatabase : Type 0 where
  pub base : Database
  pub items : List AgendaItem
  pub rules : List RuleRow
  pub exceptions : List ExceptionRow

abbrev pub agenda_ref : AgendaItem → ResourceRef
agenda_ref i = record {
  kind = "agenda";
  id = i.id;
  owner_user_id = i.owner_user_id;
  classification = i.classification;
}

abbrev pub has_id : String → AgendaItem → Bool
has_id id row = str_eq row.id id

abbrev pub rule_of : String → RuleRow → Bool
rule_of id row = str_eq row.agenda_item_id id

abbrev pub exception_of : String → ExceptionRow → Bool
exception_of id row = str_eq row.agenda_item_id id

abbrev pub creator_or_owner : AgendaItem → String
creator_or_owner row = elim row.creator_user_id [ none ↦ row.owner_user_id | some c ↦ c ]

-- `_write_recurrence`
unfoldable pub write_recurrence : AgendaItem → AgendaDatabase → AgendaDatabase
write_recurrence item db = elim item.recurrence [
  | none ↦ record db { rules = delete_where (rule_of item.id) db.rules }
  | some rule ↦
      if any (rule_of item.id) db.rules
      then record db {
        rules = update_where (rule_of item.id) (λ row. record row { rule = rule }) db.rules;
      }
      else record db { rules = db.rules ++ record { agenda_item_id = item.id; rule = rule } ∷ [] }
]

-- INSERT INTO agenda_items, with the PRIMARY KEY and the foreign keys.
unfoldable pub insert_item : AgendaItem → AgendaDatabase → Result AgendaDatabase
insert_item item db = do
  raise_if
      (any (has_id item.id) db.items
        || not (
            str_mem item.owner_user_id db.base.users
            && is_user? db.base.users item.creator_user_id))
      conflict
  ok (record db { items = db.items ++ record item { recurrence = none } ∷ [] })

-- `_audit` on the database with the agenda.
unfoldable pub audit_agenda : AuthorizedAction → AgendaDatabase → Result AgendaDatabase
unfolding audit
audit_agenda a db = do base ← audit a "completed" "" db.base; ok (record db { base = base })

abbrev pub is_owned : String → String → AgendaItem → Bool
is_owned id owner row = str_eq row.id id && str_eq row.owner_user_id owner

abbrev pub is_current : AgendaItem → ℕ → AgendaItem → Bool
is_current i expected row =
    str_eq row.id i.id && (str_eq row.owner_user_id i.owner_user_id && row.version == expected)

-- The columns that UPDATE sets.
abbrev pub overwrite : AgendaItem → AgendaItem → AgendaItem
overwrite i row = record row {
  title = i.title;
  description = i.description;
  action_links = i.action_links;
  start_at = i.start_at;
  end_at = i.end_at;
  timezone = i.timezone;
  all_day = i.all_day;
  classification = i.classification;
  version = i.version;
  updated_at = i.updated_at;
}

abbrev pub start_before : AgendaItem → AgendaItem → Bool
start_before i j =
    if i.start_at.instant == j.start_at.instant
    then str_leb i.id j.id
    else ltb i.start_at.instant j.start_at.instant

abbrev pub is_given : Option DateTime → Bool
is_given none = false
is_given (some t) = true

-- The CHECK of `recurrence_exceptions`.
abbrev pub breaks_check : RecurrenceException → Bool
breaks_check x = elim x.action [
  | cancel ↦ is_given x.replacement_start || is_given x.replacement_end
  | replace ↦ not (is_given x.replacement_start && is_given x.replacement_end)
]

abbrev pub same_occurrence : String → RecurrenceException → ExceptionRow → Bool
same_occurrence id x row =
    str_eq row.agenda_item_id id && row.value.occurrence_at.instant == x.occurrence_at.instant

-- INSERT … ON CONFLICT DO UPDATE
unfoldable pub write_exception : String → RecurrenceException → AgendaDatabase → AgendaDatabase
write_exception id x db =
    if any (same_occurrence id x) db.exceptions
    then record db {
      exceptions =
          update_where (same_occurrence id x) (λ row. record row { value = x }) db.exceptions;
    }
    else record db { exceptions = db.exceptions ++ record { agenda_item_id = id; value = x } ∷ [] }

abbrev pub earlier : ExceptionRow → ExceptionRow → Bool
earlier r s = leb r.value.occurrence_at.instant s.value.occurrence_at.instant

-- `WHERE start_at<=? AND (… OR end_at>=?)`
abbrev pub may_occur : AgendaDatabase → ℕ → ℕ → AgendaItem → Bool
may_occur db window_start window_end row =
    leb row.start_at.instant window_end
    && (any (rule_of row.id) db.rules || leb window_start row.end_at.instant)

-- `WHERE a.owner_user_id=? AND (… OR a.end_at>?) AND (… OR a.start_at<?)`
abbrev pub in_window : AgendaDatabase → String → ℕ → ℕ → AgendaItem → Bool
in_window db owner window_start window_end row =
    str_eq row.owner_user_id owner
    && (any (rule_of row.id) db.rules
        || (ltb window_start row.end_at.instant && ltb row.start_at.instant window_end))

-- The key of the sort.
abbrev pub occurs_before : AgendaOccurrence → AgendaOccurrence → Bool
occurs_before o p =
    if o.start_at == p.start_at
    then str_leb o.agenda_item_id p.agenda_item_id
    else ltb o.start_at p.start_at
