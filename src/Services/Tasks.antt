-- ===== src/Services/Tasks.antt =====
-- The commands on tasks of `ZhixuServices` in src/zhixu/application/services.py. The identifier that
-- `id_factory` makes and what the clock says, at each time it is asked, are arguments.
pub mod Calls
pub mod Found
pub mod Steps
pub mod Step
pub mod Accounted
pub mod Rows
pub mod ReadBack
pub mod Moves
use zhixu.Prelude.{
  ℕ, zero, suc, ◌+◌, ◌-◌, ◌*◌, ◌/◌, ◌%◌, ◌≤◌, ◌<◌, max, String, ◌≡◌, refl, sym, ap, ◌∙◌, ◌≢◌, ◌⊎◌,
  inl, inr, Bool, true, false, not, ◌&&◌, ◌||◌, Option, none, some, List, [], ◌∷◌, ◌++◌, map, arith,
  eq_iff, ltb, leb, ◌==◌, if◌then◌else◌, ltb→lt, leb→le, Bool-cases, Option-cases, length, any, all,
  All, length-append, str_eq, codes, is_space, is_blank, text_length, prefix, str_leb, str_mem,
  str_leb_total, str_leb_trans, str_leb_refl, str_eq_comm, str_eq_refl,
}
use zhixu.Prelude.Result.{
  Result-cases, Error, Result, ok, err, ◌>>=◌, ◌>>◌, raise_if, or_raise, >>=-eq-ok, >>-eq-ok,
  validation_error, not_found, conflict, concurrency_conflict, permission_denied,
  confirmation_required, classification_not_supported, invalid_transition, llm_unavailable,
  llm_budget_exceeded, invalid_model_output, value_error, key_error, permission_error,
  runtime_error, type_error, integrity_error, assertion_error,
}
use zhixu.Domain.Time.{DateTime}
use zhixu.Domain.Classification.{DataClassification, personal}
use zhixu.Domain.Policy.{CommandContext, create, read, update, delete, ResourceRef}
use zhixu.Domain.Task.{Task, TaskStatus, pending, archived, check_task, transition, postpone}
use zhixu.Storage.Tables.{Database}
use zhixu.Storage.Tasks
use zhixu.Storage.Tasks.{task_ref, get_task, list_for_owner}
use zhixu.Services.Context.{current_context, create_owner, read_owners, authorize}

-- `CreateTask`
pub record CreateTask : Type 0 where
  pub title : String
  pub description : String
  pub priority : ℕ
  pub due_at : Option DateTime
  pub classification : DataClassification
  pub is_private : Bool

-- `UpdateTask`
pub record UpdateTask : Type 0 where
  pub task_id : String
  pub expected_version : ℕ
  pub title : String
  pub description : String
  pub priority : ℕ
  pub due_at : Option DateTime
  pub classification : DataClassification

abbrev pub proposed : String → CreateTask → CommandContext → Task
proposed id command c = record {
  id = id;
  owner_user_id = create_owner c command.is_private;
  title = command.title;
  creator_user_id = some c.actor_user_id;
  status = pending;
  priority = command.priority;
  due_at = command.due_at;
  description = command.description;
  classification = command.classification;
  version = 1;
  created_at = none;
  updated_at = none;
}

-- `ZhixuServices.create_task`
unfoldable pub create_task :
    Database → String → CreateTask → CommandContext → DateTime → Result (Task × Database)
unfolding current_context create_owner authorize Tasks.create_task
create_task db id command context now = do
  current ← current_context context now
  task ← check_task (proposed id command current)
  a ← authorize db current create (task_ref task)
  Tasks.create_task db task a

-- The task that a command names, at the version that it expects.
unfoldable pub expected_task : Database → String → ℕ → Result Task
unfolding get_task
expected_task db id expected = do
  found ← get_task db id
  task ← or_raise found not_found
  raise_if (not (task.version == expected)) concurrency_conflict
  ok task

abbrev pub edited : UpdateTask → Task → Task
edited command task = record task {
  title = command.title;
  description = command.description;
  priority = command.priority;
  due_at = command.due_at;
  classification = command.classification;
  version = command.expected_version + 1;
}

-- The reference to a task under another classification.
abbrev pub classified : Task → DataClassification → ResourceRef
classified t c = record (task_ref t) { classification = c }

-- `ZhixuServices.update_task`
unfoldable pub update_task :
    Database → UpdateTask → CommandContext → DateTime → Result (Task × Database)
unfolding expected_task current_context authorize Tasks.update_task
update_task db command context now = do
  task ← expected_task db command.task_id command.expected_version
  current ← current_context context now
  updated ← check_task (edited command task)
  a ← authorize db current update (classified task updated.classification)
  Tasks.update_task db updated command.expected_version a

-- `ZhixuServices.delete_task`
unfoldable pub delete_task : Database → String → CommandContext → DateTime → Result Database
unfolding get_task current_context authorize Tasks.delete_task
delete_task db id context now = do
  found ← get_task db id
  task ← or_raise found not_found
  current ← current_context context now
  a ← authorize db current delete (task_ref task)
  Tasks.delete_task db task.id a

-- `ZhixuServices.transition_task`
unfoldable pub transition_task :
    Database
    → String
    → ℕ
    → TaskStatus
    → CommandContext
    → DateTime
    → DateTime
    → Result (Task × Database)
unfolding expected_task current_context transition authorize Tasks.update_task
transition_task db id expected status context now later = do
  task ← expected_task db id expected
  current ← current_context context now
  updated ← transition task status later
  a ← authorize db current update (task_ref task)
  Tasks.update_task db updated expected a

-- `ZhixuServices.postpone_task`
unfoldable pub postpone_task :
    Database
    → String
    → ℕ
    → DateTime
    → CommandContext
    → DateTime
    → DateTime
    → Result (Task × Database)
unfolding expected_task current_context postpone authorize Tasks.update_task
postpone_task db id expected due_at context now later = do
  task ← expected_task db id expected
  current ← current_context context now
  updated ← postpone task due_at later
  a ← authorize db current update (task_ref task)
  Tasks.update_task db updated expected a

abbrev is_archived : TaskStatus → Bool
is_archived archived = true
is_archived _ = false

-- The tasks of one owner after the other, each collection behind the policy.
unfoldable pub tasks_of : Database → CommandContext → List String → Result (List Task)
unfolding authorize list_for_owner
tasks_of db c [] = ok []
tasks_of db c (owner ∷ owners) =
    let rest = tasks_of db c owners in
    do
      _ ← authorize db c read (record {
        kind = "task_collection";
        id = owner;
        owner_user_id = owner;
        classification = personal;
      })
      mine ← list_for_owner db owner
      others ← rest
      ok (mine ++ others)

unfoldable pub may_read_all : Database → CommandContext → List Task → Result (Unit {0})
unfolding authorize
may_read_all db c [] = ok tt
may_read_all db c (task ∷ tasks) =
    let rest = may_read_all db c tasks in do _ ← authorize db c read (task_ref task); rest

abbrev active : List Task → List Task
active [] = []
active (t ∷ ts) = let rest = active ts in if is_archived t.status then rest else t ∷ rest

-- `ZhixuServices.list_tasks`
unfoldable pub list_tasks : Database → Bool → CommandContext → DateTime → Result (List Task)
unfolding current_context read_owners tasks_of may_read_all
list_tasks db include_archived context now = do
  current ← current_context context now
  tasks ← tasks_of db current (read_owners current)
  may_read_all db current tasks
  ok (if include_archived then tasks else active tasks)
