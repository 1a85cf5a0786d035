-- ===== src/Storage/Tasks/Refinement.antt =====
-- `TaskRepository` as what its clients may take it for: a map from ids to tasks. An update compares the
-- owner and the version of one task and replaces it; the SQL on the table does the same.
use zhixu.Prelude.{
  ℕ, ◌+◌, String, ◌≡◌, refl, sym, inl, inr, true, not, ◌&&◌, Option, none, some, List, [], ◌∷◌,
  ◌==◌, if◌then◌else◌, Bool-cases, Option-cases, any, str_eq, str_mem, str_eq_refl, arith, eq_iff,
}
use zhixu.Prelude.Result.{
  Result-cases, Result, ok, err, ◌>>=◌, ◌>>◌, raise_if, validation_error, not_found, conflict,
  concurrency_conflict,
}
use zhixu.Prelude.Table.{count_where}
use zhixu.Prelude.Keyed.{
  find, Unique, find-key, any-find, any-find-some, count_where-find, Unique-update_where,
  Unique-delete_where, Unique-last,
}
use zhixu.Domain.Policy.{create, update, delete, AuthorizedAction}
use zhixu.Domain.Task.{Task, check_task}
use zhixu.Domain.Time.{require_aware}
use zhixu.Storage.Tables.{Database, is_user?}
use zhixu.Storage.Access.{require_authorization}
use zhixu.Storage.Tasks.{
  task_ref, has_id, insert_task, is_current, overwrite, is_owned, create_task, update_task,
  delete_task,
}
use zhixu.Storage.Tasks.Calls.{Call, creates, updates, deletes, Answer, perform, answer, after, run}
use zhixu.Storage.Tasks.Effect.{
  created, stamped, create_task-Creates, update_task-Updates, delete_task-Deletes,
}
use zhixu.Storage.Tasks.View.{
  key, View, view, put, view-insert, view-update, view-delete, is_current-id, is_owned-id,
}

-- A task that is new, by what the map holds at its id.
abbrev insert_at : List String → View → Task → Option Task → Result (Option Task × View)
insert_at users f u (some row) = err conflict
insert_at users f u none = do
  raise_if (not (str_mem u.owner_user_id users && is_user? users u.creator_user_id)) conflict
  ok (some u, put f u.id (some u))

-- What replaces a task: the new one, which keeps who created it and when.
abbrev successor : Task → Task → Task
successor u row = record u { creator_user_id = row.creator_user_id; created_at = row.created_at }

abbrev replace_at : View → Task → ℕ → Option Task → Result (Option Task × View)
replace_at f u expected none = err concurrency_conflict
replace_at f u expected (some row) =
    if str_eq row.owner_user_id u.owner_user_id && row.version == expected
    then ok (some u, put f u.id (some (successor u row)))
    else err concurrency_conflict

abbrev remove_at : View → String → String → Option Task → Result (Option Task × View)
remove_at f id owner none = err not_found
remove_at f id owner (some row) =
    if str_eq row.owner_user_id owner then ok (none, put f id none) else err not_found

-- The columns that UPDATE leaves are those in which the two agree, and the two that are kept.
overwrite-successor :
    (u row : Task)
    → row.id ≡ u.id
    → row.owner_user_id ≡ u.owner_user_id
    → overwrite u row ≡ successor u row
overwrite-successor u row same owned = rw (same, owned) refl

-- The calls on the map.
unfoldable pub specified : List String → Call → View → Result (Option Task × View)
unfolding require_authorization require_aware
specified users (creates t a) f = do
  require_authorization a create (task_ref t)
  stored ← check_task (created t a)
  require_aware a.authorized_at
  insert_at users f stored (f stored.id)
specified users (updates t expected a) f = do
  require_authorization a update (task_ref t)
  raise_if (not (t.version == expected + 1)) validation_error
  stored ← check_task (stamped t a)
  require_aware a.authorized_at
  replace_at f stored expected (f stored.id)
specified users (deletes id a) f =
    let owner = a.resource.owner_user_id in
    do
      require_authorization a delete (record {
        kind = "task";
        id = id;
        owner_user_id = owner;
        classification = a.resource.classification;
      })
      (u, g) ← remove_at f id owner (f id)
      require_aware a.authorized_at
      ok (u, g)

unfoldable pub replay : List String → List Call → View → List Answer × View
unfolding specified
replay users [] f = ([], f)
replay users (c ∷ cs) f =
    let r = specified users c f in
    let (answers, end) = replay users cs (after f r) in (answer r ∷ answers, end)

-- The result of a call, seen by the client.
abbrev seen : Result (Option Task × Database) → Result (Option Task × View)
seen (ok (u, db)) = ok (u, view db)
seen (err e) = err e

module _ (db : Database) (un : Unique key db.tasks) (t : Task) (a : AuthorizedAction) where
  perform-creates : seen (perform (creates t a) db) ≡ specified db.users (creates t a) (view db)
  unfolding perform create_task insert_task specified
  perform-creates = elim (Result-cases (require_authorization a create (task_ref t))) [
    | inl (e, r) ↦ rw r refl
    | inr (x, r) ↦ rw r (elim (Result-cases (check_task (created t a))) [
      | inl (e, c) ↦ rw c refl
      | inr (u, c) ↦ rw c (elim (Result-cases (require_aware a.authorized_at)) [
        | inl (e, w) ↦ rw w refl
        | inr (y, w) ↦ rw w (elim (Bool-cases (any (has_id u.id) db.tasks)) [
          | inl o ↦ let (z, e) = any-find-some key u.id db.tasks o in rw (o, e) refl
          | inr n ↦
              let free : find key u.id db.tasks ≡ none = any-find key u.id db.tasks n in
              elim (Bool-cases
                (str_mem u.owner_user_id db.users && is_user? db.users u.creator_user_id)) [
                  | inl k ↦ rw (n, free, k) (rw (view-insert db u n) refl)
                  | inr k ↦ rw (n, free, k) refl
                ]
        ])
      ])
    ])
  ]

  perform-updates :
      (expected : ℕ)
      → seen (perform (updates t expected a) db)
        ≡ specified db.users (updates t expected a) (view db)
  unfolding perform update_task specified
  perform-updates expected = elim (Result-cases (require_authorization a update (task_ref t))) [
    | inl (e, r) ↦ rw r refl
    | inr (x, r) ↦ rw r (elim (Bool-cases (t.version == expected + 1)) [
      | inr v ↦ rw v refl
      | inl v ↦ rw v (elim (Result-cases (check_task (stamped t a))) [
        | inl (e, c) ↦ rw c refl
        | inr (u, c) ↦ rw c (elim (Result-cases (require_aware a.authorized_at)) [
          | inl (e, w) ↦ rw w refl
          | inr (y, w) ↦ rw w (
              let counts =
                count_where-find key (is_current u expected) u.id (is_current-id u expected)
                  db.tasks un in
              elim (Option-cases (find key u.id db.tasks)) [
                | inl e ↦
                    let zero : count_where (is_current u expected) db.tasks ≡ 0 = rw e at counts in
                    rw (zero, e) refl
                | inr (row, e) ↦
                    let now : count_where (is_current u expected) db.tasks
                        ≡ (if is_current u expected row then 1 else 0) =
                      rw e at counts in
                    let mine : str_eq row.id u.id ≡ true =
                      rw (find-key key u.id db.tasks row e) (str_eq_refl u.id) in
                    elim (Bool-cases
                      (str_eq row.owner_user_id u.owner_user_id && row.version == expected)) [
                        | inl k ↦
                            let owned : str_eq row.owner_user_id u.owner_user_id ≡ true =
                              ground (arith, k) in
                            let next =
                              overwrite-successor u row (find-key key u.id db.tasks row e)
                                ((eq_iff row.owner_user_id u.owner_user_id).0 owned) in
                            rw (now, mine, e, k)
                              (rw (view-update db u expected row e (rw (mine, k) refl))
                                (rw next refl))
                        | inr k ↦ rw (now, mine, e, k) refl
                      ]
              ])
        ])
      ])
    ])
  ]

module _ (db : Database) (un : Unique key db.tasks) (id : String) (a : AuthorizedAction) where
  perform-deletes : seen (perform (deletes id a) db) ≡ specified db.users (deletes id a) (view db)
  unfolding perform delete_task specified
  perform-deletes =
      let owner = a.resource.owner_user_id in
      let counts = count_where-find key (is_owned id owner) id (is_owned-id id owner) db.tasks un in
      elim (Result-cases (
        require_authorization a delete (record {
          kind = "task";
          id = id;
          owner_user_id = owner;
          classification = a.resource.classification;
        }))) [
          | inl (e, r) ↦ rw r refl
          | inr (x, r) ↦ rw r (elim (Option-cases (find key id db.tasks)) [
            | inl e ↦
                let zero : count_where (is_owned id owner) db.tasks ≡ 0 = rw e at counts in
                rw (zero, e) refl
            | inr (row, e) ↦
                let now : count_where (is_owned id owner) db.tasks
                    ≡ (if is_owned id owner row then 1 else 0) =
                  rw e at counts in
                let mine : str_eq row.id id ≡ true =
                  rw (find-key key id db.tasks row e) (str_eq_refl id) in
                elim (Bool-cases (str_eq row.owner_user_id owner)) [
                  | inr k ↦ rw (now, mine, e, k) refl
                  | inl k ↦
                      rw (now, mine, e, k)
                        (elim (Result-cases (require_aware a.authorized_at)) [
                          | inl (f, w) ↦ rw w refl
                          | inr (y, w) ↦ rw (w, view-delete db id owner un row e k) refl
                        ])
                ]
          ])
        ]

perform_refines :
    (c : Call) (db : Database)
    → Unique key db.tasks
    → seen (perform c db) ≡ specified db.users c (view db)
perform_refines (creates t a) db un = perform-creates db un t a
perform_refines (updates t expected a) db un = perform-updates db un t a expected
perform_refines (deletes id a) db un = perform-deletes db un id a

-- A call keeps the ids unique, and the users.
pub perform-keeps :
    (c : Call) (db : Database)
    → Unique key db.tasks
    → Unique key (after db (perform c db)).tasks × ((after db (perform c db)).users ≡ db.users)
unfolding perform
perform-keeps (creates t a) db un = elim (Result-cases (create_task db t a)) [
  | inl (e, r) ↦ rw r (un, refl)
  | inr ((u, next), r) ↦
      let k = create_task-Creates db t a r in
      rw r (
        rw k.result
          (Unique-last key db.tasks (created t a) un (any-find key t.id db.tasks k.fresh), refl))
]
perform-keeps (updates t expected a) db un = elim (Result-cases (update_task db t expected a)) [
  | inl (e, r) ↦ rw r (un, refl)
  | inr ((u, next), r) ↦
      let k = update_task-Updates db t expected a r in
      rw r (
        rw k.result (
          Unique-update_where key (is_current (stamped t a) expected) (overwrite (stamped t a))
              (λ x. refl) db.tasks un,
          refl,
        ))
]
perform-keeps (deletes id a) db un = elim (Result-cases (delete_task db id a)) [
  | inl (e, r) ↦ rw r (un, refl)
  | inr (next, r) ↦
      let k = delete_task-Deletes db id a r in
      rw r (
        rw k.result
          (Unique-delete_where key (is_owned id a.resource.owner_user_id) db.tasks un, refl))
]

answer-seen : (r : Result (Option Task × Database)) → answer (seen r) ≡ answer r
answer-seen (ok (u, db)) = refl
answer-seen (err e) = refl

after-seen :
    (db : Database) (r : Result (Option Task × Database))
    → after (view db) (seen r) ≡ view (after db r)
after-seen db (ok (u, next)) = refl
after-seen db (err e) = refl

-- Over any run of creations, updates and deletions on a table whose ids are unique, the repository
-- answers each call as the map does, errors included, and at the end a client sees the map: the
-- statements on the table refine the map from ids to tasks.
pub run_refines :
    (calls : List Call) (db : Database)
    → Unique key db.tasks
    → ((run calls db).0 ≡ (replay db.users calls (view db)).0)
      × (view (run calls db).1 ≡ (replay db.users calls (view db)).1)
unfolding run replay
run_refines [] db un = (refl, refl)
run_refines (c ∷ cs) db un =
    let keeps = perform-keeps c db un in
    let next = after db (perform c db) in
    let same : view next ≡ after (view db) (specified db.users c (view db)) =
      rw (← perform_refines c db un) (sym (after-seen db (perform c db))) in
    let answered : answer (perform c db) ≡ answer (specified db.users c (view db)) =
      rw (← perform_refines c db un) (sym (answer-seen (perform c db))) in
    let rest = run_refines cs next keeps.0 in
    let (answers, end) : ((run cs next).0 ≡ (replay db.users cs (view next)).0)
        × (view (run cs next).1 ≡ (replay db.users cs (view next)).1) =
      rw keeps.1 at rest in
    rw (answered, ← same) (rw (answers, end) (refl, refl))
