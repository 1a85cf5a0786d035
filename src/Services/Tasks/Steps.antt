-- ===== src/Services/Tasks/Steps.antt =====
-- What a command on tasks that succeeds went through: the task that it found, the authorization that
-- the policy gave, and the write of the repository.
use zhixu.Prelude.{subst, ℕ, String, ◌≡◌, refl, ap, ◌∙◌, ◌⊎◌, inl, inr, true, some, arith}
use zhixu.Prelude.Result.{Result, ok, ◌>>=◌, or_raise, >>=-eq-ok, not_found}
use zhixu.Domain.Time.{DateTime}
use zhixu.Domain.Policy.{
  CommandContext, create, update, delete, ResourceRef, AuthorizedAction, check_context,
}
use zhixu.Domain.Task.{
  Task, TaskStatus, pending, allowed_transition, check_task, transition, postpone,
}
use zhixu.Domain.Task.Lifecycle.{check_task-eq, apply-eq-ok, apply, to_status, to_due}
use zhixu.Storage.Tables.{Database}
use zhixu.Storage.Tasks
use zhixu.Storage.Tasks.{task_ref, get_task}
use zhixu.Services.Context.{authorize, current_context}
use zhixu.Services.Tasks.{
  CreateTask, UpdateTask, proposed, edited, classified, expected_task, create_task, update_task,
  delete_task, transition_task, postpone_task,
}
use zhixu.Services.Tasks.Found.{Found, expected_task-Found, get_task-Found}

abbrev pub at_time : CommandContext → DateTime → CommandContext
at_time c now = record c { now = some now }

current_context-eq :
    (c current : CommandContext) (now : DateTime)
    → current_context c now ≡ ok current
    → current ≡ at_time c now
unfolding current_context check_context
current_context-eq c current now h = ground arith

pub record Creation (db : Database) (c : CommandContext) (now : DateTime) (id : String) (u : Task)
    (next : Database) : Type 0 where
  pub task : Task
  pub same_id : task.id ≡ id
  pub starts : task.status ≡ pending
  pub created_by : task.creator_user_id ≡ some c.actor_user_id
  pub a : AuthorizedAction
  pub granted : authorize db (at_time c now) create (task_ref task) ≡ ok a
  pub written : Tasks.create_task db task a ≡ ok (u, next)

-- The status of a task after a change may be another one only if the table of transitions says so.
abbrev pub Follows : TaskStatus → TaskStatus → Type 0
Follows s t = (t ≡ s) ⊎ (allowed_transition s t ≡ true)

pub record Edit (db : Database) (c : CommandContext) (now : DateTime) (id : String) (u : Task)
    (next : Database) : Type 0 where
  pub task : Task
  pub found : Found db id task
  pub updated : Task
  pub same_id : updated.id ≡ task.id
  pub same_owner : updated.owner_user_id ≡ task.owner_user_id
  pub same_creator : updated.creator_user_id ≡ task.creator_user_id
  pub same_created_at : updated.created_at ≡ task.created_at
  pub follows : Follows task.status updated.status
  pub resource : ResourceRef
  pub names_task : (resource.kind ≡ "task") × (resource.id ≡ task.id)
  pub a : AuthorizedAction
  pub granted : authorize db (at_time c now) update resource ≡ ok a
  pub written : Tasks.update_task db updated task.version a ≡ ok (u, next)

pub record Deletion (db : Database) (c : CommandContext) (now : DateTime) (id : String)
    (next : Database) : Type 0 where
  pub task : Task
  pub found : Found db id task
  pub a : AuthorizedAction
  pub granted : authorize db (at_time c now) delete (task_ref task) ≡ ok a
  pub written : Tasks.delete_task db task.id a ≡ ok next

-- What the three commands that change a task have in common, over how they build the new value and
-- under which reference they ask the policy.
module _ (build : Task → Result Task) (ref : Task → Task → ResourceRef) where
  abbrev change_task : Database → String → ℕ → CommandContext → DateTime → Result (Task × Database)
  change_task db id expected c now = do
    task ← expected_task db id expected
    current ← current_context c now
    updated ← build task
    a ← authorize db current update (ref task updated)
    Tasks.update_task db updated expected a

  record Change (db : Database) (c : CommandContext) (now : DateTime) (id : String) (expected : ℕ)
      (u : Task) (next : Database) : Type 0 where
    task : Task
    found : Found db id task
    versioned : task.version ≡ expected
    updated : Task
    built : build task ≡ ok updated
    a : AuthorizedAction
    granted : authorize db (at_time c now) update (ref task updated) ≡ ok a
    written : Tasks.update_task db updated expected a ≡ ok (u, next)

  change_task-Change :
      (db : Database) (id : String) (expected : ℕ) (c : CommandContext) (now : DateTime) {u : Task}
      {next : Database}
      → change_task db id expected c now ≡ ok (u, next)
      → Change db c now id expected u next
  change_task-Change db id expected c now h =
      let write = λ (z : CommandContext) (t v : Task).
        authorize db z update (ref t v) >>= λ a. Tasks.update_task db v expected a in
      let (task, e, h1) =
        >>=-eq-ok (expected_task db id expected)
          (λ t. current_context c now >>= λ z. build t >>= λ v. write z t v) h in
      let (z, f, h2) =
        >>=-eq-ok (current_context c now) (λ z. build task >>= λ v. write z task v) h1 in
      let (v, g, h3) = >>=-eq-ok (build task) (λ v. write z task v) h2 in
      let (a, k, h4) =
        >>=-eq-ok (authorize db z update (ref task v)) (λ a. Tasks.update_task db v expected a)
          h3 in
      let (found, versioned) = expected_task-Found db id expected e in
      record {
        task = task;
        found = found;
        versioned = versioned;
        updated = v;
        built = g;
        a = a;
        granted =
            subst (λ y. authorize db y update (ref task v) ≡ ok a) (current_context-eq c z now f) k;
        written = h4;
      }

module _ (db : Database) (c : CommandContext) (now : DateTime) {u : Task} {next : Database} where
  pub create_task-Creation :
      (id : String) (command : CreateTask)
      → create_task db id command c now ≡ ok (u, next)
      → Creation db c now id u next
  unfolding create_task
  create_task-Creation id command h =
      let write = λ (z : CommandContext) (t : Task).
        authorize db z create (task_ref t) >>= λ a. Tasks.create_task db t a in
      let (current, e, h1) =
        >>=-eq-ok (current_context c now) (λ z. check_task (proposed id command z) >>= write z) h in
      let (t, f, h2) = >>=-eq-ok (check_task (proposed id command current)) (write current) h1 in
      let (a, g, h3) =
        >>=-eq-ok (authorize db current create (task_ref t)) (λ a. Tasks.create_task db t a) h2 in
      let timed = current_context-eq c current now e in
      let made = check_task-eq (proposed id command current) t f in
      record {
        task = t;
        same_id = rw made refl;
        starts = rw made refl;
        created_by =
            ap (λ (x : Task). x.creator_user_id) made
            ∙ ap (λ (x : CommandContext). some x.actor_user_id) timed;
        a = a;
        granted = subst (λ z. authorize db z create (task_ref t) ≡ ok a) timed g;
        written = h3;
      }

  pub update_task-Edit :
      (command : UpdateTask)
      → update_task db command c now ≡ ok (u, next)
      → Edit db c now command.task_id u next
  unfolding update_task
  update_task-Edit command h =
      let k =
        change_task-Change (λ t. check_task (edited command t))
          (λ t v. classified t v.classification) db command.task_id command.expected_version c now
          h in
      let made = check_task-eq (edited command k.task) k.updated k.built in
      record {
        task = k.task;
        found = k.found;
        updated = k.updated;
        same_id = rw made refl;
        same_owner = rw made refl;
        same_creator = rw made refl;
        same_created_at = rw made refl;
        follows = inl (rw made refl);
        resource = classified k.task k.updated.classification;
        names_task = (refl, refl);
        a = k.a;
        granted = k.granted;
        written = rw k.versioned k.written;
      }

  pub transition_task-Edit :
      (id : String) (expected : ℕ) (status : TaskStatus) (later : DateTime)
      → transition_task db id expected status c now later ≡ ok (u, next)
      → Edit db c now id u next
  unfolding transition_task apply
  transition_task-Edit id expected status later h =
      let k =
        change_task-Change (λ t. transition t status later) (λ t v. task_ref t) db id expected c now
          h in
      let (lets, made, valid) = apply-eq-ok (to_status status later) k.task k.updated k.built in
      record {
        task = k.task;
        found = k.found;
        updated = k.updated;
        same_id = rw made refl;
        same_owner = rw made refl;
        same_creator = rw made refl;
        same_created_at = rw made refl;
        follows = inr (rw made lets);
        resource = task_ref k.task;
        names_task = (refl, refl);
        a = k.a;
        granted = k.granted;
        written = rw k.versioned k.written;
      }

  pub postpone_task-Edit :
      (id : String) (expected : ℕ) (due_at : DateTime) (later : DateTime)
      → postpone_task db id expected due_at c now later ≡ ok (u, next)
      → Edit db c now id u next
  unfolding postpone_task apply
  postpone_task-Edit id expected due_at later h =
      let k =
        change_task-Change (λ t. postpone t due_at later) (λ t v. task_ref t) db id expected c now
          h in
      let (lets, made, valid) = apply-eq-ok (to_due due_at later) k.task k.updated k.built in
      record {
        task = k.task;
        found = k.found;
        updated = k.updated;
        same_id = rw made refl;
        same_owner = rw made refl;
        same_creator = rw made refl;
        same_created_at = rw made refl;
        follows = inl (rw made refl);
        resource = task_ref k.task;
        names_task = (refl, refl);
        a = k.a;
        granted = k.granted;
        written = rw k.versioned k.written;
      }

module _ (db : Database) (c : CommandContext) (now : DateTime) {next : Database} where
  pub delete_task-Deletion :
      (id : String) → delete_task db id c now ≡ ok next → Deletion db c now id next
  unfolding delete_task
  delete_task-Deletion id h =
      let remove = λ (z : CommandContext) (t : Task).
        authorize db z delete (task_ref t) >>= λ a. Tasks.delete_task db t.id a in
      let (found, e, h1) =
        >>=-eq-ok (get_task db id)
          (λ o. or_raise o not_found >>= λ t. current_context c now >>= λ z. remove z t) h in
      let (t, f, h2) =
        >>=-eq-ok (or_raise found not_found) (λ t. current_context c now >>= λ z. remove z t) h1 in
      let (z, g, h3) = >>=-eq-ok (current_context c now) (λ z. remove z t) h2 in
      let (a, k, h4) =
        >>=-eq-ok (authorize db z delete (task_ref t)) (λ a. Tasks.delete_task db t.id a) h3 in
      let there : found ≡ some t = ground arith in
      record {
        task = t;
        found = get_task-Found db id t (rw there at e);
        a = a;
        granted =
            subst (λ y. authorize db y delete (task_ref t) ≡ ok a) (current_context-eq c z now g) k;
        written = h4;
      }
