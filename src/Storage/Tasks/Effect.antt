-- ===== src/Storage/Tasks/Effect.antt =====
-- What a call of `TaskRepository` that succeeds does to the table of tasks and to the audit events.
use zhixu.Prelude.{ℕ, ◌+◌, String, ◌≡◌, false, some, [], ◌∷◌, ◌++◌, arith, any}
use zhixu.Prelude.Result.{ok}
use zhixu.Prelude.Table.{update_where, delete_where, count_where}
use zhixu.Domain.Policy.{create, update, AuthorizedAction}
use zhixu.Domain.Task.{Task, check_task}
use zhixu.Domain.Time.{require_aware}
use zhixu.Storage.Tables.{Database}
use zhixu.Storage.Access.{require_authorization, audit, event}
use zhixu.Storage.Tasks.{
  task_ref, has_id, insert_task, is_current, overwrite, is_owned, create_task, update_task,
  delete_task,
}

-- The stored value of a creation and of an update.
abbrev pub created : Task → AuthorizedAction → Task
created t a = record t {
  version = 1;
  created_at = some a.authorized_at;
  updated_at = some a.authorized_at;
}

abbrev pub stamped : Task → AuthorizedAction → Task
stamped t a = record t { updated_at = some a.authorized_at }

abbrev pub recorded : Database → AuthorizedAction → Database
recorded db a = record db { audit_events = db.audit_events ++ event a "completed" "" ∷ [] }

pub record Creates (db : Database) (t : Task) (a : AuthorizedAction) (u : Task) (next : Database)
    : Type 0 where
  pub allowed : require_authorization a create (task_ref t) ≡ ok tt
  pub value : u ≡ created t a
  pub checked : check_task (created t a) ≡ ok (created t a)
  pub fresh : any (has_id t.id) db.tasks ≡ false
  pub result : next ≡ recorded (record db { tasks = db.tasks ++ created t a ∷ [] }) a

pub create_task-Creates :
    (db : Database) (t : Task) (a : AuthorizedAction) {u : Task} {next : Database}
    → create_task db t a ≡ ok (u, next)
    → Creates db t a u next
unfolding create_task check_task insert_task audit require_aware
create_task-Creates db t a h = ground arith

pub record Updates (db : Database) (t : Task) (expected : ℕ) (a : AuthorizedAction) (u : Task)
    (next : Database) : Type 0 where
  pub allowed : require_authorization a update (task_ref t) ≡ ok tt
  pub value : u ≡ stamped t a
  pub next_version : t.version ≡ expected + 1
  pub checked : check_task (stamped t a) ≡ ok (stamped t a)
  pub matched : count_where (is_current (stamped t a) expected) db.tasks ≡ 1
  pub result :
      next
      ≡ recorded
          (record db {
            tasks =
                update_where (is_current (stamped t a) expected) (overwrite (stamped t a)) db.tasks;
          })
          a

pub update_task-Updates :
    (db : Database) (t : Task) (expected : ℕ) (a : AuthorizedAction) {u : Task} {next : Database}
    → update_task db t expected a ≡ ok (u, next)
    → Updates db t expected a u next
unfolding update_task check_task audit require_aware
update_task-Updates db t expected a h = ground arith

pub record Deletes (db : Database) (id : String) (a : AuthorizedAction) (next : Database)
    : Type 0 where
  pub matched : count_where (is_owned id a.resource.owner_user_id) db.tasks ≡ 1
  pub result :
      next
      ≡ recorded
          (record db { tasks = delete_where (is_owned id a.resource.owner_user_id) db.tasks })
          a

pub delete_task-Deletes :
    (db : Database) (id : String) (a : AuthorizedAction) {next : Database}
    → delete_task db id a ≡ ok next
    → Deletes db id a next
unfolding delete_task audit require_aware
delete_task-Deletes db id a h = ground arith
