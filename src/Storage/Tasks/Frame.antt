-- ===== src/Storage/Tasks/Frame.antt =====
-- A write of one task leaves every other task as it was.
use zhixu.Prelude.{ℕ, String, ◌≡◌, refl, inl, inr, false, Option-cases, str_eq, str_eq_comm}
use zhixu.Prelude.Keyed.{Unique, find, find-key, find-last, find-update_where, find-delete_where}
use zhixu.Domain.Policy.{AuthorizedAction}
use zhixu.Domain.Task.{Task}
use zhixu.Storage.Tables.{Database}
use zhixu.Storage.Tasks.{is_current, overwrite, is_owned}
use zhixu.Storage.Tasks.Effect.{Creates, Updates, Deletes, created, stamped}
use zhixu.Storage.Tasks.View.{key, view}

-- The tasks under other ids.
abbrev pub Elsewhere : String → Database → Database → Type 0
Elsewhere id db next = (k : String) → str_eq id k ≡ false → view next k ≡ view db k

module _ (db : Database) (a : AuthorizedAction) {next : Database} where
  pub Creates-Elsewhere : (t : Task) {u : Task} → Creates db t a u next → Elsewhere t.id db next
  Creates-Elsewhere t c k n = rw c.result (
      rw (find-last key k db.tasks (created t a), n)
        (elim (Option-cases (find key k db.tasks)) [ inl e ↦ rw e refl | inr (x, e) ↦ rw e refl ]))

  pub Updates-Elsewhere :
      (t : Task) (expected : ℕ) {u : Task} → Updates db t expected a u next → Elsewhere t.id db next
  Updates-Elsewhere t expected c k n =
      let p = is_current (stamped t a) expected in
      rw c.result (
        rw (find-update_where key p (overwrite (stamped t a)) (λ x. refl) k db.tasks)
          (elim (Option-cases (find key k db.tasks)) [
            | inl e ↦ rw e refl
            | inr (x, e) ↦
                let other : str_eq x.id t.id ≡ false =
                  rw (find-key key k db.tasks x e, str_eq_comm k t.id) n in
                rw (e, other) refl
          ]))

  pub Deletes-Elsewhere :
      (id : String) → Unique key db.tasks → Deletes db id a next → Elsewhere id db next
  Deletes-Elsewhere id un c k n =
      let owner = a.resource.owner_user_id in
      rw c.result (
        rw (find-delete_where key (is_owned id owner) k db.tasks un)
          (elim (Option-cases (find key k db.tasks)) [
            | inl e ↦ rw e refl
            | inr (x, e) ↦
                let other : str_eq x.id id ≡ false =
                  rw (find-key key k db.tasks x e, str_eq_comm k id) n in
                rw (e, other) refl
          ]))
