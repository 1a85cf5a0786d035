-- ===== src/Services/Tasks/Rows.antt =====
-- The row of its task before and after a command that succeeds.
use zhixu.Prelude.{
  ◌+◌, String, ◌≡◌, refl, sym, ap, ◌∙◌, subst, true, none, some, arith, if◌then◌else◌, str_eq_refl,
}
use zhixu.Prelude.Result.{ok}
use zhixu.Prelude.Keyed.{
  Unique, find-last, find-update_where, find-delete_where, any-find, count_where-find,
}
use zhixu.Domain.Time.{DateTime}
use zhixu.Domain.Policy.{CommandContext}
use zhixu.Domain.Task.{Task, check_task}
use zhixu.Storage.Tables.{Database}
use zhixu.Storage.Tasks.{is_current, is_owned, overwrite}
use zhixu.Storage.Tasks.Effect.{
  created, stamped, create_task-Creates, update_task-Updates, delete_task-Deletes,
}
use zhixu.Storage.Tasks.View.{key, view, is_owned-id}
use zhixu.Storage.Tasks.Versions.{current_row}
use zhixu.Services.Tasks.Found.{loaded}
use zhixu.Services.Tasks.Steps.{Creation, Edit, Deletion}

module _ (db : Database) (un : Unique key db.tasks) (c : CommandContext) (now : DateTime)
    (id : String) {next : Database} where
  pub created_row :
      {v : Task} (s : Creation db c now id v next)
      → (view db s.task.id ≡ none) × (view next s.task.id ≡ some (created s.task s.a))
  created_row s =
      let w = create_task-Creates db s.task s.a s.written in
      let t = created s.task s.a in
      let free = any-find key s.task.id db.tasks w.fresh in
      (free, rw w.result (rw (find-last key t.id db.tasks t, free, str_eq_refl s.task.id) refl))

  pub record Rewritten {v : Task} (s : Edit db c now id v next) : Type 0 where
    pub row : Task
    pub before : view db s.updated.id ≡ some row
    pub after : view next s.updated.id ≡ some (overwrite (stamped s.updated s.a) row)
    pub read : s.task ≡ loaded row
    pub next_version : s.updated.version ≡ s.task.version + 1
    pub checked : check_task (stamped s.updated s.a) ≡ ok (stamped s.updated s.a)
    pub returned : v ≡ stamped s.updated s.a

  pub edited_row : {v : Task} (s : Edit db c now id v next) → Rewritten s
  edited_row s =
      let w = update_task-Updates db s.updated s.task.version s.a s.written in
      let t = stamped s.updated s.a in
      let p = is_current t s.task.version in
      let (row, found, current) = current_row db un t s.task.version w.matched in
      let first : view db t.id ≡ some s.found.row =
        ap (view db) (s.same_id ∙ s.found.same_id) ∙ s.found.stored in
      let one : s.found.row ≡ row = cc in
      record {
        row = row;
        before = found;
        after = rw w.result (
            rw (find-update_where key p (overwrite t) (λ x. refl) t.id db.tasks, found, current)
              refl);
        read = subst (λ x. s.task ≡ loaded x) one s.found.value;
        next_version = w.next_version;
        checked = w.checked;
        returned = w.value;
      }

  pub deleted_row :
      (s : Deletion db c now id next)
      → (view db s.task.id ≡ some s.found.row) × (view next s.task.id ≡ none)
  deleted_row s =
      let w = delete_task-Deletes db s.task.id s.a s.written in
      let p = is_owned s.task.id s.a.resource.owner_user_id in
      let before : view db s.task.id ≡ some s.found.row =
        ap (view db) s.found.same_id ∙ s.found.stored in
      let counts =
        count_where-find key p s.task.id (is_owned-id s.task.id s.a.resource.owner_user_id) db.tasks
          un in
      let one : (if p s.found.row then 1 else 0) ≡ 1 = rw before at (sym counts ∙ w.matched) in
      let owned : p s.found.row ≡ true = ground arith in
      (before, rw w.result (rw (find-delete_where key p s.task.id db.tasks un, before, owned) refl))
