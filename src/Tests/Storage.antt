-- ===== src/Tests/Storage.antt =====
-- Runs of the repositories (src/zhixu/adapters/storage/sqlite/repositories.py) and of the services over
-- them: one task, one reminder and one agenda item.
use zhixu.Prelude.{ℕ, ◌≡◌, refl, ◌≢◌, true, false, none, some, List, [], ◌∷◌, is_blank}
use zhixu.Prelude.Result.{ok}
use zhixu.Prelude.Text.{is_blank}
use zhixu.Prelude.Table.{select_one, update_where, count_where}
use zhixu.Domain.Time.{DateTime}
use zhixu.Domain.Classification.{personal}
use zhixu.Domain.Policy.{
  CommandContext, AuthorizedAction, create, update, password, private_chat, has_access,
}
use zhixu.Domain.Task.{Task, pending, in_progress, check_task, valid_task, allowed_transition}
use zhixu.Storage.Tables.{Database}
use zhixu.Storage.Tasks
use zhixu.Storage.Tasks.{insert_task, task_ref, get_task, from_row, is_current, overwrite}
use zhixu.Storage.Tasks.Calls.{Call, creates, updates, perform, run}
use zhixu.Storage.Tasks.Effect.{recorded}
use zhixu.Storage.Tasks.View.{view}
use zhixu.Storage.Tasks.Refinement.{replay, run_refines}
use zhixu.Storage.Tasks.Versions.{stale_update_refused}
use zhixu.Services.Tasks.{create_task, transition_task}
use zhixu.Services.Tasks.Calls.{Command, dispatch}
use zhixu.Services.Tasks.Accounted.{Accounted, dispatch-Accounted}
use zhixu.Services.Tasks.ReadBack.{dispatch_reads_back}
use zhixu.Services.Tasks.Moves.{Moves, dispatch-Moves}

abbrev at : ℕ → DateTime
at t = record { instant = t; aware = true }

abbrev empty : Database
empty = record {
  users = "alice" ∷ [];
  resource_acl = [];
  tasks = [];
  reminders = [];
  routes = [];
  deliveries = [];
  audit_events = [];
}

abbrev chore : Task
chore = record {
  id = "t1";
  owner_user_id = "alice";
  title = "water the plants";
  creator_user_id = some "alice";
  status = pending;
  priority = 2;
  due_at = none;
  description = "";
  classification = personal;
  version = 1;
  created_at = some (at 10);
  updated_at = some (at 10);
}

abbrev with_chore : Database
with_chore = record empty { tasks = chore ∷ [] }

abbrev by_alice_update : AuthorizedAction
by_alice_update = record {
  actor_user_id = "alice";
  action = update;
  resource = task_ref chore;
  authorized_at = at 20;
}

abbrev by_alice_create : AuthorizedAction
by_alice_create = record by_alice_update { action = create }

abbrev renamed : Task
renamed = record chore { title = "water the garden"; version = 2 }

abbrev calls : List Call
calls = creates chore by_alice_create ∷ updates renamed 1 by_alice_update ∷ []

run_refines_example :
    ((run calls with_chore).0 ≡ (replay ("alice" ∷ []) calls (view with_chore)).0)
    × (view (run calls with_chore).1 ≡ (replay ("alice" ∷ []) calls (view with_chore)).1)
unfolding select_one
run_refines_example = run_refines calls with_chore (refl, tt)

-- The first call is refused, since the id is taken; the second one changes the task.
renamed_row :
    view (run calls with_chore).1 "t1" ≡ some (record renamed { updated_at = some (at 20) })
unfolding run perform create_task select_one is_blank check_task valid_task count_where update_where
renamed_row = refl

abbrev after_update : Database
after_update =
    recorded (record empty { tasks = record renamed { updated_at = some (at 20) } ∷ [] })
      by_alice_update

abbrev late_calls : List Call
late_calls = updates (record renamed { version = 3 }) 2 by_alice_update ∷ []

-- An update from version 1 after the update to version 2, and one more in between.
stale_update_refused_example :
    Tasks.update_task (run late_calls after_update).1 renamed 1 by_alice_update
    ≢ ok (renamed, after_update)
unfolding Tasks.update_task select_one is_blank check_task valid_task count_where update_where
stale_update_refused_example =
    stale_update_refused with_chore renamed 1 by_alice_update (refl, tt) refl late_calls (tt, tt)
      renamed by_alice_update refl (renamed, after_update)

abbrev alice : CommandContext
alice = record {
  actor_user_id = "alice";
  roles = [];
  shared_owner_user_id = none;
  readable_shared_owner_user_ids = [];
  authentication = password;
  request_channel = private_chat;
  confirmed = false;
  now = none;
}

abbrev begin : Command
begin = Command.moves "t1" 1 in_progress

abbrev begun : Task
begun = record chore { status = in_progress; version = 2; updated_at = some (at 20) }

abbrev after_begin : Database
after_begin = recorded (record empty { tasks = begun ∷ [] }) by_alice_update

begin_runs : dispatch with_chore begin alice (at 20) (at 20) ≡ ok (some begun, after_begin)
unfolding dispatch transition_task select_one check_task valid_task is_blank allowed_transition
    has_access count_where update_where
begin_runs = refl

dispatch-Accounted_example : Accounted with_chore alice (at 20) "t1" after_begin
unfolding select_one
dispatch-Accounted_example =
    dispatch-Accounted with_chore begin alice (at 20) (at 20) (refl, tt) begin_runs

dispatch_reads_back_example : get_task after_begin "t1" ≡ ok (some begun)
unfolding select_one
dispatch_reads_back_example =
    dispatch_reads_back with_chore begin alice (at 20) (at 20) (refl, tt) begin_runs

dispatch-Moves_example : Moves (some chore) (some begun)
unfolding select_one
dispatch-Moves_example =
    dispatch-Moves with_chore begin alice (at 20) (at 20) (refl, tt) begin_runs "t1"
