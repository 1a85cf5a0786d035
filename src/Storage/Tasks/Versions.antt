-- ===== src/Storage/Tasks/Versions.antt =====
-- The optimistic version of a task: an update that another one has overtaken is refused.
use zhixu.Prelude.{
  ℕ, ◌<◌, String, ◌≡◌, refl, sym, ap, ◌∙◌, ◌≢◌, inl, inr, true, false, some, List, [], ◌∷◌, arith,
  if◌then◌else◌, Option-cases, All, str_eq, str_eq_comm,
}
use zhixu.Prelude.Result.{Result-cases, ok}
use zhixu.Prelude.Table.{count_where}
use zhixu.Prelude.Keyed.{
  Unique, find, find-key, find-last, find-update_where, find-delete_where, count_where-find,
  Unique-update_where,
}
use zhixu.Domain.Policy.{AuthorizedAction}
use zhixu.Domain.Task.{Task}
use zhixu.Storage.Tables.{Database}
use zhixu.Storage.Tasks.{is_current, overwrite, is_owned, create_task, update_task, delete_task}
use zhixu.Storage.Tasks.Calls.{Call, creates, updates, deletes, perform, after, run}
use zhixu.Storage.Tasks.Effect.{
  created, stamped, create_task-Creates, update_task-Updates, delete_task-Deletes,
}
use zhixu.Storage.Tasks.View.{key, view, is_current-id}
use zhixu.Storage.Tasks.Refinement.{perform-keeps}

-- A call that does not delete the task with this id.
abbrev pub Spares : String → Call → Type 0
Spares id (creates t a) = Unit
Spares id (updates t expected a) = Unit
Spares id (deletes other a) = str_eq other id ≡ false

-- The task with this id is past a version.
record Past (id : String) (v : ℕ) (db : Database) : Type 0 where
  row : Task
  stored : view db id ≡ some row
  later : v < row.version

module _ (db : Database) (un : Unique key db.tasks) (t : Task) (expected : ℕ) where
  -- The row that an update finds.
  pub current_row :
      count_where (is_current t expected) db.tasks ≡ 1
      → (row : Task) × (view db t.id ≡ some row) × (is_current t expected row ≡ true)
  current_row one =
      let counts =
        count_where-find key (is_current t expected) t.id (is_current-id t expected) db.tasks un in
      elim (Option-cases (find key t.id db.tasks)) [
        | inl e ↦
            let zero : count_where (is_current t expected) db.tasks ≡ 0 = rw e at counts in
            absurd (omega (arith, one, zero))
        | inr (row, e) ↦
            let now : count_where (is_current t expected) db.tasks
                ≡ (if is_current t expected row then 1 else 0) =
              rw e at counts in
            (row, e, ground arith)
      ]

perform-Past :
    (id : String) (v : ℕ) (c : Call) (db : Database)
    → Unique key db.tasks
    → Spares id c
    → Past id v db
    → Past id v (after db (perform c db))
unfolding perform
perform-Past id v (creates t a) db un s past = elim (Result-cases (create_task db t a)) [
  | inl (e, r) ↦ rw r past
  | inr ((u, next), r) ↦
      let k = create_task-Creates db t a r in
      rw r (
        rw k.result (record {
          row = past.row;
          stored = rw (find-last key id db.tasks (created t a), past.stored) refl;
          later = past.later;
        }))
]
perform-Past id v (updates t expected a) db un s past =
    elim (Result-cases (update_task db t expected a)) [
      | inl (e, r) ↦ rw r past
      | inr ((u, next), r) ↦
          let k = update_task-Updates db t expected a r in
          let row = past.row in
          rw r (
            rw k.result (record {
              row =
                  if is_current (stamped t a) expected row
                  then overwrite (stamped t a) row
                  else row;
              stored =
                  rw
                    (
                      find-update_where key (is_current (stamped t a) expected)
                          (overwrite (stamped t a)) (λ x. refl) id db.tasks,
                      past.stored,
                    )
                    refl;
              later = ground (arith, k.next_version, past.later);
            }))
    ]
perform-Past id v (deletes other a) db un s past = elim (Result-cases (delete_task db other a)) [
  | inl (e, r) ↦ rw r past
  | inr (next, r) ↦
      let k = delete_task-Deletes db other a r in
      let owner = a.resource.owner_user_id in
      let away : str_eq past.row.id other ≡ false =
        rw (find-key key id db.tasks past.row past.stored, str_eq_comm id other) s in
      rw r (
        rw k.result (record {
          row = past.row;
          stored =
              rw (find-delete_where key (is_owned other owner) id db.tasks un, past.stored, away)
                refl;
          later = past.later;
        }))
]

run-Past :
    (id : String) (v : ℕ) (cs : List Call) (db : Database)
    → Unique key db.tasks
    → All (Spares id) cs
    → Past id v db
    → Unique key (run cs db).1.tasks × Past id v (run cs db).1
unfolding run
run-Past id v [] db un s past = (un, past)
run-Past id v (c ∷ cs) db un s past =
    let keeps = perform-keeps c db un in
    run-Past id v cs (after db (perform c db)) keeps.0 s.1 (perform-Past id v c db un s.0 past)

-- A successful update leaves its task past the version that it expected.
update_task-Past :
    (db : Database) (t : Task) (expected : ℕ) (a : AuthorizedAction) {u : Task} {next : Database}
    → Unique key db.tasks
    → update_task db t expected a ≡ ok (u, next)
    → Unique key next.tasks × Past t.id expected next
update_task-Past db t expected a un h =
    let k = update_task-Updates db t expected a h in
    let p = is_current (stamped t a) expected in
    let f = overwrite (stamped t a) in
    let (row, found, current) = current_row db un (stamped t a) expected k.matched in
    rw k.result (
      Unique-update_where key p f (λ x. refl) db.tasks un,
      record {
        row = f row;
        stored = rw (find-update_where key p f (λ x. refl) t.id db.tasks, found, current) refl;
        later = omega (arith, k.next_version);
      },
    )

-- After an update of a task has succeeded, no later update from the same version does, whoever asks
-- and whatever else was created, updated or deleted in between, unless this task was deleted: of two
-- writers who have read the same version one is refused, and no change is lost.
pub stale_update_refused :
    (db : Database) (t : Task) (expected : ℕ) (a : AuthorizedAction) {u : Task} {next : Database}
    → Unique key db.tasks
    → update_task db t expected a ≡ ok (u, next)
    → (calls : List Call) → All (Spares t.id) calls
    → (late : Task) (b : AuthorizedAction) → late.id ≡ t.id
    → (r : Task × Database) → update_task (run calls next).1 late expected b ≢ ok r
stale_update_refused db t expected a {u} {next} un h calls spare late b same (w, end) again =
    let (first, past) = update_task-Past db t expected a un h in
    let (unique, kept) = run-Past t.id expected calls next first spare past in
    let last = (run calls next).1 in
    let k = update_task-Updates last late expected b again in
    let (row, found, current) = current_row last unique (stamped late b) expected k.matched in
    let here : some row ≡ some kept.row = sym found ∙ ap (view last) same ∙ kept.stored in
    ground (arith, current, kept.later, here)
