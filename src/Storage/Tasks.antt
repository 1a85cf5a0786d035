-- ===== src/Storage/Tasks.antt =====
-- `TaskRepository` of src/zhixu/adapters/storage/sqlite/repositories.py: tasks with an optimistic
-- version. A transaction is a function on the database, and one that raises leaves it as it was.
pub mod Calls
pub mod Effect
pub mod View
pub mod Refinement
pub mod Frame
pub mod Versions
use zhixu.Prelude.{
  ℕ, zero, suc, ◌+◌, ◌-◌, ◌*◌, ◌/◌, ◌%◌, ◌≤◌, ◌<◌, max, String, ◌≡◌, refl, sym, ap, ◌∙◌, ◌≢◌, ◌⊎◌,
  inl, inr, Bool, true, false, not, ◌&&◌, ◌||◌, Option, none, some, List, [], ◌∷◌, ◌++◌, map, arith,
  eq_iff, ltb, leb, ◌==◌, if◌then◌else◌, ltb→lt, leb→le, Bool-cases, Option-cases, length, any, all,
  All, length-append, str_eq, codes, is_space, is_blank, text_length, prefix, str_leb, str_mem,
  str_leb_total, str_leb_trans, str_leb_refl, str_eq_comm, str_eq_refl,
}
use zhixu.Prelude.Result.{
  Result-cases, Error, Result, ok, err, ◌>>=◌, ◌>>◌, raise_if, or_raise, >>=-eq-ok, >>-eq-ok,
  validation_error, not_found, conflict, concurrency_conflict, permission_denied,
  confirmation_required, classification_not_supported, invalid_transition, llm_unavailable,
  llm_budget_exceeded, invalid_model_output, value_error, key_error, permission_error,
  runtime_error, type_error, integrity_error, assertion_error,
}
use zhixu.Prelude.Table.{
  select_where, select_one, update_where, delete_where, count_where, order_by,
}
use zhixu.Domain.Time.{DateTime, require_aware}
use zhixu.Domain.Policy.{create, update, delete, ResourceRef, AuthorizedAction}
use zhixu.Domain.Task.{Task, check_task}
use zhixu.Storage.Tables.{Database, is_user?}
use zhixu.Storage.Access.{require_authorization, audit}

abbrev pub task_ref : Task → ResourceRef
task_ref t = record {
  kind = "task";
  id = t.id;
  owner_user_id = t.owner_user_id;
  classification = t.classification;
}

-- `WHERE id=?`
abbrev pub has_id : String → Task → Bool
has_id i row = str_eq row.id i

abbrev pub creator_or_owner : Task → String
creator_or_owner row = elim row.creator_user_id [ none ↦ row.owner_user_id | some c ↦ c ]

-- `TaskRepository._from_row`
unfoldable pub from_row : Task → Result Task
from_row row = check_task (record row { creator_user_id = some (creator_or_owner row) })

-- INSERT INTO tasks. The PRIMARY KEY and the foreign keys may refuse the row, and what they raise
-- becomes a conflict; the CHECKs of the table hold of every task that was constructed.
unfoldable pub insert_task : Task → Database → Result Database
insert_task t db = do
  raise_if
      (any (has_id t.id) db.tasks
        || not (str_mem t.owner_user_id db.users && is_user? db.users t.creator_user_id))
      conflict
  ok (record db { tasks = db.tasks ++ t ∷ [] })

-- `TaskRepository.create`; `replace` constructs the stored value, with its check.
unfoldable pub create_task : Database → Task → AuthorizedAction → Result (Task × Database)
unfolding require_authorization require_aware insert_task audit
create_task db t a = do
  require_authorization a create (task_ref t)
  stored ← check_task (record t {
    version = 1;
    created_at = some a.authorized_at;
    updated_at = some a.authorized_at;
  })
  require_aware a.authorized_at
  inserted ← insert_task stored db
  after ← audit a "completed" "" inserted
  ok (stored, after)

abbrev pub load : Option Task → Result (Option Task)
load none = ok none
load (some row) = do t ← from_row row; ok (some t)

-- `TaskRepository.get`
unfoldable pub get_task : Database → String → Result (Option Task)
unfolding from_row
get_task db id = load (select_one (has_id id) db.tasks)

-- `WHERE id=? AND owner_user_id=? AND version=?`
abbrev pub is_current : Task → ℕ → Task → Bool
is_current t expected row =
    str_eq row.id t.id && (str_eq row.owner_user_id t.owner_user_id && row.version == expected)

-- The columns that UPDATE sets.
abbrev pub overwrite : Task → Task → Task
overwrite t row = record row {
  title = t.title;
  description = t.description;
  status = t.status;
  priority = t.priority;
  due_at = t.due_at;
  classification = t.classification;
  version = t.version;
  updated_at = t.updated_at;
}

-- `TaskRepository.update`
unfoldable pub update_task : Database → Task → ℕ → AuthorizedAction → Result (Task × Database)
unfolding require_authorization require_aware audit
update_task db t expected a = do
  require_authorization a update (task_ref t)
  raise_if (not (t.version == expected + 1)) validation_error
  stored ← check_task (record t { updated_at = some a.authorized_at })
  require_aware a.authorized_at
  raise_if (not (count_where (is_current stored expected) db.tasks == 1)) concurrency_conflict
  after ←
      audit a "completed" "" (record db {
        tasks = update_where (is_current stored expected) (overwrite stored) db.tasks;
      })
  ok (stored, after)

abbrev moment_leb : Option DateTime → Option DateTime → Bool
moment_leb none _ = true
moment_leb (some s) none = false
moment_leb (some s) (some t) = leb s.instant t.instant

abbrev same_moment : Option DateTime → Option DateTime → Bool
same_moment none none = true
same_moment (some s) (some t) = s.instant == t.instant
same_moment _ _ = false

-- NULL comes last, by the CASE in front of `due_at`.
abbrev due_leb : Option DateTime → Option DateTime → Bool
due_leb s none = true
due_leb none (some t) = false
due_leb (some s) (some t) = leb s.instant t.instant

-- The ORDER BY of `list_for_owner`.
abbrev pub listed_before : Task → Task → Bool
listed_before s t =
    if same_moment s.due_at t.due_at
    then (if s.priority == t.priority
        then moment_leb s.created_at t.created_at
        else ltb t.priority s.priority)
    else due_leb s.due_at t.due_at

abbrev pub from_rows : List Task → Result (List Task)
from_rows [] = ok []
from_rows (row ∷ rows) = let rest = from_rows rows in do t ← from_row row; ts ← rest; ok (t ∷ ts)

-- `TaskRepository.list_for_owner`
unfoldable pub list_for_owner : Database → String → Result (List Task)
unfolding from_row select_where order_by
list_for_owner db owner =
    from_rows
      (order_by listed_before (select_where (λ row. str_eq row.owner_user_id owner) db.tasks))

-- `WHERE id=? AND owner_user_id=?`
abbrev pub is_owned : String → String → Task → Bool
is_owned id owner row = str_eq row.id id && str_eq row.owner_user_id owner

-- `TaskRepository.delete`
unfoldable pub delete_task : Database → String → AuthorizedAction → Result Database
unfolding require_authorization audit
delete_task db id a =
    let owner = a.resource.owner_user_id in
    do
      require_authorization a delete (record {
        kind = "task";
        id = id;
        owner_user_id = owner;
        classification = a.resource.classification;
      })
      raise_if (not (count_where (is_owned id owner) db.tasks == 1)) not_found
      audit a "completed" "" (record db { tasks = delete_where (is_owned id owner) db.tasks })
