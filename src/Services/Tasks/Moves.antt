-- ===== src/Services/Tasks/Moves.antt =====
-- The machine of one task under the commands of all users: how it may be born, change and go.
use zhixu.Prelude.{
  ◌+◌, String, ◌≡◌, refl, ap, ◌∙◌, subst, inl, inr, false, Option, none, some, eq_iff, Bool-cases,
  str_eq,
}
use zhixu.Prelude.Result.{ok}
use zhixu.Prelude.Keyed.{Unique}
use zhixu.Domain.Time.{DateTime}
use zhixu.Domain.Policy.{CommandContext}
use zhixu.Domain.Task.{Task, pending}
use zhixu.Storage.Tables.{Database}
use zhixu.Storage.Tasks.{overwrite}
use zhixu.Storage.Tasks.Effect.{
  created, stamped, create_task-Creates, update_task-Updates, delete_task-Deletes,
}
use zhixu.Storage.Tasks.View.{key, view}
use zhixu.Storage.Tasks.Frame.{Elsewhere, Creates-Elsewhere, Updates-Elsewhere, Deletes-Elsewhere}
use zhixu.Services.Tasks.Calls.{Command, dispatch}
use zhixu.Services.Tasks.Steps.{Creation, Edit, Deletion, Follows}
use zhixu.Services.Tasks.Rows.{created_row, edited_row, deleted_row}
use zhixu.Services.Tasks.Step.{creation, edit, deletion, dispatch-Step}

-- What may become of the task under an id, from one state of the table to the next.
pub data Moves : Option Task → Option Task → Type 0 where
  stays : (o : Option Task) → Moves o o
  born : (t : Task) → t.status ≡ pending → t.version ≡ 1 → Moves none (some t)
  changes :
      (s t : Task)
      → t.id ≡ s.id
      → t.owner_user_id ≡ s.owner_user_id
      → t.version ≡ s.version + 1
      → Follows s.status t.status
      → Moves (some s) (some t)
  goes : (s : Task) → Moves (some s) none

-- A write under one id, seen under another or the same.
here_or_there :
    (i k : String) (o p : Option Task)
    → (str_eq i k ≡ false → p ≡ o)
    → (i ≡ k → Moves o p)
    → Moves o p
here_or_there i k o p there here = elim (Bool-cases (str_eq i k)) [
  | inl y ↦ here ((eq_iff i k).0 y)
  | inr n ↦ rw (there n) (stays o)
]

module _ (db next : Database) (k : String) where
  -- What happens to the row of the task that is written.
  moved_row :
      (i : String) {o p : Option Task}
      → Elsewhere i db next
      → view db i ≡ o
      → view next i ≡ p
      → Moves o p
      → Moves (view db k) (view next k)
  moved_row i there before after m =
      here_or_there i k (view db k) (view next k) (there k)
        λ same. subst (λ j. Moves (view db j) (view next j)) same (rw (before, after) m)

module _ (db : Database) (un : Unique key db.tasks) (c : CommandContext) (now : DateTime)
    (id : String) {next : Database} (k : String) where
  Creation-Moves : {v : Task} → Creation db c now id v next → Moves (view db k) (view next k)
  Creation-Moves s =
      let w = create_task-Creates db s.task s.a s.written in
      let (before, after) = created_row db un c now id s in
      moved_row db next k s.task.id (Creates-Elsewhere db s.a s.task w) before after
        (born (created s.task s.a) s.starts refl)

  Edit-Moves : {v : Task} → Edit db c now id v next → Moves (view db k) (view next k)
  Edit-Moves s =
      let t = stamped s.updated s.a in
      let w = update_task-Updates db s.updated s.task.version s.a s.written in
      let r = edited_row db un c now id s in
      let version : t.version ≡ r.row.version + 1 =
        r.next_version ∙ ap (λ (x : Task). x.version + 1) r.read in
      let follows : Follows r.row.status t.status =
        subst (λ (x : Task). Follows x.status t.status) r.read s.follows in
      moved_row db next k s.updated.id (Updates-Elsewhere db s.a s.updated s.task.version w)
        r.before r.after (changes r.row (overwrite t r.row) refl refl version follows)

  Deletion-Moves : Deletion db c now id next → Moves (view db k) (view next k)
  Deletion-Moves s =
      let w = delete_task-Deletes db s.task.id s.a s.written in
      let (before, after) = deleted_row db un c now id s in
      moved_row db next k s.task.id (Deletes-Elsewhere db s.a s.task.id un w) before after
        (goes s.found.row)

-- Whatever command on tasks a user gives, each task is afterwards what it was, or it is new, pending
-- and at version 1, or it keeps its owner, is exactly one version further and in the same status or in
-- one that the table of transitions allows from there, or it is gone; for a table whose ids are unique.
pub dispatch-Moves :
    (db : Database) (command : Command) (c : CommandContext) (now later : DateTime)
    {u : Option Task} {next : Database}
    → Unique key db.tasks
    → dispatch db command c now later ≡ ok (u, next)
    → (k : String) → Moves (view db k) (view next k)
dispatch-Moves db command c now later un h k = elim (dispatch-Step db command c now later h) [
  | creation v e s ↦ Creation-Moves db un c now _ k s
  | edit v e s ↦ Edit-Moves db un c now _ k s
  | deletion e s ↦ Deletion-Moves db un c now _ k s
]
