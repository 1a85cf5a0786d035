-- ===== src/Services/Tasks/Step.antt =====
-- The three kinds of steps that a command on tasks can take.
use zhixu.Prelude.{String, ◌≡◌, Option, none, some}
use zhixu.Prelude.Result.{Result, ok, err}
use zhixu.Domain.Time.{DateTime}
use zhixu.Domain.Policy.{CommandContext}
use zhixu.Domain.Task.{Task}
use zhixu.Storage.Tables.{Database}
use zhixu.Services.Tasks.{create_task, update_task, delete_task, transition_task, postpone_task}
use zhixu.Services.Tasks.Calls.{
  Command, creates, updates, deletes, moves, postpones, returned, finished, dispatch, subject,
}
use zhixu.Services.Tasks.Steps.{
  Creation, Edit, Deletion, create_task-Creation, update_task-Edit, transition_task-Edit,
  postpone_task-Edit, delete_task-Deletion,
}

pub data Step (db : Database) (c : CommandContext) (now : DateTime) (id : String) (u : Option Task)
    (next : Database) : Type 0 where
  creation : (v : Task) → u ≡ some v → Creation db c now id v next → Step db c now id u next
  edit : (v : Task) → u ≡ some v → Edit db c now id v next → Step db c now id u next
  deletion : u ≡ none → Deletion db c now id next → Step db c now id u next

returned-eq-ok :
    (r : Result (Task × Database)) {u : Option Task} {next : Database}
    → returned r ≡ ok (u, next)
    → (v : Task) × (u ≡ some v) × (r ≡ ok (v, next))
returned-eq-ok (ok (v, end)) h = (v, cc, cc)
returned-eq-ok (err e) h = cc

finished-eq-ok :
    (r : Result Database) {u : Option Task} {next : Database}
    → finished r ≡ ok (u, next)
    → (u ≡ none) × (r ≡ ok next)
finished-eq-ok (ok end) h = (cc, cc)
finished-eq-ok (err e) h = cc

pub dispatch-Step :
    (db : Database) (command : Command) (c : CommandContext) (now later : DateTime)
    {u : Option Task} {next : Database}
    → dispatch db command c now later ≡ ok (u, next)
    → Step db c now (subject command) u next
unfolding dispatch
dispatch-Step db (creates id k) c now later h =
    let (v, e, g) = returned-eq-ok (create_task db id k c now) h in
    creation v e (create_task-Creation db c now id k g)
dispatch-Step db (updates k) c now later h =
    let (v, e, g) = returned-eq-ok (update_task db k c now) h in
    edit v e (update_task-Edit db c now k g)
dispatch-Step db (deletes id) c now later h =
    let (e, g) = finished-eq-ok (delete_task db id c now) h in
    deletion e (delete_task-Deletion db c now id g)
dispatch-Step db (moves id expected status) c now later h =
    let (v, e, g) = returned-eq-ok (transition_task db id expected status c now later) h in
    edit v e (transition_task-Edit db c now id expected status later g)
dispatch-Step db (postpones id expected due) c now later h =
    let (v, e, g) = returned-eq-ok (postpone_task db id expected due c now later) h in
    edit v e (postpone_task-Edit db c now id expected due later g)
