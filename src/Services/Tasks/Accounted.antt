-- ===== src/Services/Tasks/Accounted.antt =====
-- Every command on tasks that succeeds was permitted, is recorded, and touches one task only.
use zhixu.Prelude.{String, ◌≡◌, refl, ◌∙◌, subst, Option, [], ◌∷◌, ◌++◌}
use zhixu.Prelude.Result.{ok}
use zhixu.Prelude.Keyed.{Unique}
use zhixu.Domain.Time.{DateTime}
use zhixu.Domain.Policy.{CommandContext, Action, create, update, delete, ResourceRef}
use zhixu.Domain.Policy.Authorization.{Permitted}
use zhixu.Domain.Task.{Task}
use zhixu.Storage.Tables.{Database}
use zhixu.Storage.Access.{has_grant, event}
use zhixu.Storage.Tasks.{task_ref}
use zhixu.Storage.Tasks.Effect.{create_task-Creates, update_task-Updates, delete_task-Deletes}
use zhixu.Storage.Tasks.View.{key}
use zhixu.Storage.Tasks.Frame.{Elsewhere, Creates-Elsewhere, Updates-Elsewhere, Deletes-Elsewhere}
use zhixu.Services.Tasks.Step.{creation, edit, deletion, dispatch-Step}
use zhixu.Services.Tasks.Calls.{Command, dispatch, subject}
use zhixu.Services.Tasks.Found.{authorize-Granted}
use zhixu.Services.Tasks.Steps.{at_time, Creation, Edit, Deletion}

-- One write of one task, in a context at a time: the policy let the actor do it to a resource that is
-- that task, one audit event says so, and neither another task nor another table has changed.
pub record Accounted (db : Database) (c : CommandContext) (now : DateTime) (id : String)
    (next : Database) : Type 0 where
  pub action : Action
  pub resource : ResourceRef
  pub permitted : Permitted (has_grant db) (at_time c now) action resource
  pub names_task : (resource.kind ≡ "task") × (resource.id ≡ id)
  pub elsewhere : Elsewhere id db next
  pub recorded : next ≡ record db {
    tasks = next.tasks;
    audit_events =
        db.audit_events
        ++ event
            (record {
              actor_user_id = c.actor_user_id;
              action = action;
              resource = resource;
              authorized_at = now;
            })
            "completed"
            ""
          ∷ [];
  }

module _ (db : Database) (c : CommandContext) (now : DateTime) (id : String) {next : Database} where
  Creation-Accounted : {u : Task} → Creation db c now id u next → Accounted db c now id next
  Creation-Accounted s =
      let w = create_task-Creates db s.task s.a s.written in
      let k =
        authorize-Granted db (at_time c now) create (task_ref s.task) now s.a refl s.granted in
      let here : Elsewhere s.task.id db next = Creates-Elsewhere db s.a s.task w in
      record {
        action = create;
        resource = task_ref s.task;
        permitted = k.permitted;
        names_task = (refl, s.same_id);
        elsewhere = subst (λ i. Elsewhere i db next) s.same_id here;
        recorded = rw (w.result, k.value) refl;
      }

  Edit-Accounted : {u : Task} → Edit db c now id u next → Accounted db c now id next
  Edit-Accounted s =
      let w = update_task-Updates db s.updated s.task.version s.a s.written in
      let k = authorize-Granted db (at_time c now) update s.resource now s.a refl s.granted in
      let here : Elsewhere s.updated.id db next =
        Updates-Elsewhere db s.a s.updated s.task.version w in
      record {
        action = update;
        resource = s.resource;
        permitted = k.permitted;
        names_task = (s.names_task.0, s.names_task.1 ∙ s.found.same_id);
        elsewhere = subst (λ i. Elsewhere i db next) (s.same_id ∙ s.found.same_id) here;
        recorded = rw (w.result, k.value) refl;
      }

  Deletion-Accounted : Unique key db.tasks → Deletion db c now id next → Accounted db c now id next
  Deletion-Accounted un s =
      let w = delete_task-Deletes db s.task.id s.a s.written in
      let k =
        authorize-Granted db (at_time c now) delete (task_ref s.task) now s.a refl s.granted in
      let here : Elsewhere s.task.id db next = Deletes-Elsewhere db s.a s.task.id un w in
      record {
        action = delete;
        resource = task_ref s.task;
        permitted = k.permitted;
        names_task = (refl, s.found.same_id);
        elsewhere = subst (λ i. Elsewhere i db next) s.found.same_id here;
        recorded = rw (w.result, k.value) refl;
      }

-- A command on tasks that succeeds, from a table whose ids are unique, was permitted by the policy for
-- the actor at that time, on a resource that names the task of the command; it leaves one audit event
-- with that actor, action and resource; and it changes no other task and no other table.
pub dispatch-Accounted :
    (db : Database) (command : Command) (c : CommandContext) (now later : DateTime)
    {u : Option Task} {next : Database}
    → Unique key db.tasks
    → dispatch db command c now later ≡ ok (u, next)
    → Accounted db c now (subject command) next
dispatch-Accounted db command c now later un h = elim (dispatch-Step db command c now later h) [
  | creation v e s ↦ Creation-Accounted db c now (subject command) s
  | edit v e s ↦ Edit-Accounted db c now (subject command) s
  | deletion e s ↦ Deletion-Accounted db c now (subject command) un s
]
