-- ===== src/Storage/Tasks/View.antt =====
-- The table of tasks as its clients see it, a map from ids to tasks, and what the statements of
-- `TaskRepository` do to that map.
use zhixu.Prelude.{
  ℕ, String, ◌≡◌, refl, inl, inr, true, false, Option, none, some, [], ◌∷◌, ◌++◌, arith, eq_iff,
  if◌then◌else◌, Bool-cases, Option-cases, any, str_eq, str_eq_comm, str_eq_refl,
}
use zhixu.Prelude.{fun_ext}
use zhixu.Prelude.Table.{select_one, update_where, delete_where}
use zhixu.Prelude.Keyed.{
  find, Unique, find-key, any-find, find-last, find-update_where, find-delete_where,
}
use zhixu.Domain.Task.{Task}
use zhixu.Storage.Tables.{Database}
use zhixu.Storage.Tasks.{has_id, is_current, overwrite, is_owned}

-- The id of a row.
abbrev pub key : Task → String
key t = t.id

abbrev pub View : Type 0
View = String → Option Task

-- What a client sees of the table.
abbrev pub view : Database → View
view db id = find key id db.tasks

abbrev pub put : View → String → Option Task → View
put f id v k = if str_eq id k then v else f k

module _ (db : Database) (u : Task) where
  pub view-insert :
      any (has_id u.id) db.tasks ≡ false
      → view (record db { tasks = db.tasks ++ u ∷ [] }) ≡ put (view db) u.id (some u)
  unfolding select_one
  view-insert fresh = fun_ext λ k. elim (Bool-cases (str_eq u.id k)) [
    | inl y ↦
        let same : u.id ≡ k = (eq_iff u.id k).0 y in
        let free : find key u.id db.tasks ≡ none = any-find key u.id db.tasks fresh in
        let gone : find key k db.tasks ≡ none = rw same at free in
        rw (find-last key k db.tasks u, gone, y) refl
    | inr n ↦
        rw (find-last key k db.tasks u, n)
          (elim (Option-cases (find key k db.tasks)) [ inl e ↦ rw e refl | inr (x, e) ↦ rw e refl ])
  ]

  module _ (expected : ℕ) (row : Task) (found : view db u.id ≡ some row) where
    pub view-update :
        is_current u expected row ≡ true
        → view (record db { tasks = update_where (is_current u expected) (overwrite u) db.tasks })
          ≡ put (view db) u.id (some (overwrite u row))
    unfolding select_one
    view-update current = fun_ext λ k.
        rw (find-update_where key (is_current u expected) (overwrite u) (λ x. refl) k db.tasks)
          (elim (Bool-cases (str_eq u.id k)) [
            | inl y ↦
                let same : u.id ≡ k = (eq_iff u.id k).0 y in
                let here : find key k db.tasks ≡ some row = rw same at found in
                rw (here, current, y) refl
            | inr n ↦ rw n (elim (Option-cases (find key k db.tasks)) [
              | inl e ↦ rw e refl
              | inr (x, e) ↦
                  let other : str_eq x.id u.id ≡ false =
                    rw (find-key key k db.tasks x e, str_eq_comm k u.id) n in
                  rw (e, other) refl
            ])
          ])

module _ (db : Database) (id owner : String) where
  pub view-delete :
      Unique key db.tasks
      → (row : Task) → view db id ≡ some row
      → str_eq row.owner_user_id owner ≡ true
      → view (record db { tasks = delete_where (is_owned id owner) db.tasks })
        ≡ put (view db) id none
  unfolding select_one
  view-delete un row found owned = fun_ext λ k.
      rw (find-delete_where key (is_owned id owner) k db.tasks un)
        (elim (Bool-cases (str_eq id k)) [
          | inl y ↦
              let same : id ≡ k = (eq_iff id k).0 y in
              let here : find key k db.tasks ≡ some row = rw same at found in
              let mine : str_eq row.id id ≡ true =
                rw (find-key key id db.tasks row found) (str_eq_refl id) in
              rw (here, mine, owned, y) refl
          | inr n ↦ rw n (elim (Option-cases (find key k db.tasks)) [
            | inl e ↦ rw e refl
            | inr (x, e) ↦
                let other : str_eq x.id id ≡ false =
                  rw (find-key key k db.tasks x e, str_eq_comm k id) n in
                rw (e, other) refl
          ])
        ])

pub is_current-id :
    (u : Task) (expected : ℕ) (x : Task) → is_current u expected x ≡ true → key x ≡ u.id
is_current-id u expected x h =
    let same : str_eq x.id u.id ≡ true = ground arith in (eq_iff x.id u.id).0 same

pub is_owned-id : (id owner : String) (x : Task) → is_owned id owner x ≡ true → key x ≡ id
is_owned-id id owner x h =
    let same : str_eq x.id id ≡ true = ground arith in (eq_iff x.id id).0 same
