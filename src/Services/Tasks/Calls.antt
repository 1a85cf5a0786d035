-- ===== src/Services/Tasks/Calls.antt =====
-- The commands on tasks as values, and their runs: what a user asks for, in which context and when.
use zhixu.Prelude.{ℕ, String, Option, none, some}
use zhixu.Prelude.Result.{Result, ok, err}
use zhixu.Domain.Time.{DateTime}
use zhixu.Domain.Policy.{CommandContext}
use zhixu.Domain.Task.{Task, TaskStatus}
use zhixu.Storage.Tables.{Database}
use zhixu.Services.Tasks.{
  CreateTask, UpdateTask, create_task, update_task, delete_task, transition_task, postpone_task,
}

pub data Command : Type 0 where
  creates : String → CreateTask → Command
  updates : UpdateTask → Command
  deletes : String → Command
  moves : String → ℕ → TaskStatus → Command
  postpones : String → ℕ → DateTime → Command

-- A command with its context, and the two times that the clock may be asked for.
pub record Call : Type 0 where
  pub command : Command
  pub context : CommandContext
  pub now : DateTime
  pub later : DateTime

abbrev pub returned : Result (Task × Database) → Result (Option Task × Database)
returned (ok (u, next)) = ok (some u, next)
returned (err e) = err e

abbrev pub finished : Result Database → Result (Option Task × Database)
finished (ok next) = ok (none, next)
finished (err e) = err e

-- The handler of the command bus for the command.
unfoldable pub dispatch :
    Database → Command → CommandContext → DateTime → DateTime → Result (Option Task × Database)
unfolding create_task update_task delete_task transition_task postpone_task
dispatch db (creates id command) c now later = returned (create_task db id command c now)
dispatch db (updates command) c now later = returned (update_task db command c now)
dispatch db (deletes id) c now later = finished (delete_task db id c now)
dispatch db (moves id expected status) c now later =
    returned (transition_task db id expected status c now later)
dispatch db (postpones id expected due) c now later =
    returned (postpone_task db id expected due c now later)

-- The task that a command concerns.
abbrev pub subject : Command → String
subject (creates id command) = id
subject (updates command) = command.task_id
subject (deletes id) = id
subject (moves id expected status) = id
subject (postpones id expected due) = id
