-- ===== src/Services/Tasks/ReadBack.antt =====
-- What a command on tasks returns is what the next reader gets.
use zhixu.Prelude.{String, ◌≡◌, refl, some}
use zhixu.Prelude.Result.{ok}
use zhixu.Prelude.Keyed.{Unique}
use zhixu.Domain.Time.{DateTime}
use zhixu.Domain.Policy.{CommandContext}
use zhixu.Domain.Task.{Task, check_task}
use zhixu.Storage.Tables.{Database}
use zhixu.Storage.Tasks.{overwrite, from_row, get_task}
use zhixu.Storage.Tasks.Effect.{created, stamped, create_task-Creates}
use zhixu.Storage.Tasks.View.{key, view}
use zhixu.Services.Tasks.Calls.{Command, dispatch}
use zhixu.Services.Tasks.Found.{loaded}
use zhixu.Services.Tasks.Steps.{Creation, Edit}
use zhixu.Services.Tasks.Rows.{created_row, edited_row}
use zhixu.Services.Tasks.Step.{creation, edit, deletion, dispatch-Step}

get_task_of_view :
    (db : Database) (id : String) (row t : Task)
    → view db id ≡ some row
    → loaded row ≡ t
    → check_task t ≡ ok t
    → get_task db id ≡ ok (some t)
unfolding get_task from_row
get_task_of_view db id row t found same valid = rw found (rw same (rw valid refl))

module _ (db : Database) (un : Unique key db.tasks) (c : CommandContext) (now : DateTime)
    (id : String) (v : Task) {next : Database} where
  Creation-reads_back : Creation db c now id v next → get_task next v.id ≡ ok (some v)
  Creation-reads_back s =
      let w = create_task-Creates db s.task s.a s.written in
      let t = created s.task s.a in
      let (free, there) = created_row db un c now id s in
      rw w.value (get_task_of_view next t.id t t there (rw s.created_by refl) w.checked)

  -- The row of the task at its new values is the stored value, as it is read.
  loaded-overwrite :
      (s : Edit db c now id v next) (row : Task)
      → s.task ≡ loaded row
      → loaded (overwrite (stamped s.updated s.a) row) ≡ stamped s.updated s.a
  loaded-overwrite s row same =
      rw (s.same_id, s.same_owner, s.same_creator, s.same_created_at, same) refl

  Edit-reads_back : Edit db c now id v next → get_task next v.id ≡ ok (some v)
  Edit-reads_back s =
      let t = stamped s.updated s.a in
      let w = edited_row db un c now id s in
      let back =
        get_task_of_view next t.id (overwrite t w.row) t w.after (loaded-overwrite s w.row w.read)
          w.checked in
      rw w.returned back

-- A command on tasks that returns a task has stored it: reading its id right afterwards gives exactly
-- the returned value, from a table whose ids are unique.
pub dispatch_reads_back :
    (db : Database) (command : Command) (c : CommandContext) (now later : DateTime) {v : Task}
    {next : Database}
    → Unique key db.tasks
    → dispatch db command c now later ≡ ok (some v, next)
    → get_task next v.id ≡ ok (some v)
dispatch_reads_back db command c now later {v} {next} un h =
    elim (dispatch-Step db command c now later h) [
      | creation u e s ↦
          (let same : u ≡ v = cc in rw (← same) (Creation-reads_back db un c now _ u s))
      | edit u e s ↦ (let same : u ≡ v = cc in rw (← same) (Edit-reads_back db un c now _ u s))
      | deletion e s ↦ absurd (cc e)
    ]
