-- ===== src/Services/Tasks/Found.antt =====
-- What the commands on tasks find in the table, and what an authorization that they get says.
use zhixu.Prelude.{ℕ, String, ◌≡◌, inl, inr, not, none, some, arith, ◌==◌, Option-cases}
use zhixu.Prelude.Result.{
  ok, ◌>>=◌, ◌>>◌, raise_if, or_raise, >>=-eq-ok, not_found, concurrency_conflict,
}
use zhixu.Prelude.Keyed.{find-key}
use zhixu.Domain.Time.{DateTime}
use zhixu.Domain.Policy.{
  CommandContext, Action, ResourceRef, AuthorizedAction, require, check_resource,
}
use zhixu.Domain.Policy.Authorization.{Permitted, require-Permitted, require_of_Permitted}
use zhixu.Domain.Task.{Task, check_task}
use zhixu.Storage.Tables.{Database}
use zhixu.Storage.Access.{has_grant}
use zhixu.Storage.Tasks.{load, from_row, get_task, creator_or_owner}
use zhixu.Storage.Tasks.View.{key, view}
use zhixu.Services.Context.{authorize}
use zhixu.Services.Tasks.{expected_task}

-- A row as it is read.
abbrev pub loaded : Task → Task
loaded row = record row { creator_user_id = some (creator_or_owner row) }

pub record Found (db : Database) (id : String) (t : Task) : Type 0 where
  pub row : Task
  pub stored : view db id ≡ some row
  pub value : t ≡ loaded row
  pub same_id : t.id ≡ id

pub get_task-Found :
    (db : Database) (id : String) (t : Task) → get_task db id ≡ ok (some t) → Found db id t
unfolding get_task from_row check_task
get_task-Found db id t h = elim (Option-cases (view db id)) [
  | inl e ↦ let none_found : ok none ≡ ok (some t) = rw e at h in cc
  | inr (row, e) ↦
      let read : load (some row) ≡ ok (some t) = rw e at h in
      let value : t ≡ loaded row = ground arith in
      record {
        row = row;
        stored = e;
        value = value;
        same_id = rw value (find-key key id db.tasks row e);
      }
]

pub expected_task-Found :
    (db : Database) (id : String) (expected : ℕ) {t : Task}
    → expected_task db id expected ≡ ok t
    → Found db id t × (t.version ≡ expected)
unfolding expected_task
expected_task-Found db id expected {t} h =
    let (found, got, more) =
      >>=-eq-ok (get_task db id)
        (λ o. or_raise o not_found >>= λ x.
          raise_if (not (x.version == expected)) concurrency_conflict >> ok x)
        h in
    let here : found ≡ some t = ground arith in
    (get_task-Found db id t (rw here at got), ground arith)

-- An authorization that the services get.
pub record Granted (db : Database) (c : CommandContext) (action : Action) (r : ResourceRef)
    (t : DateTime) (a : AuthorizedAction) : Type 0 where
  pub permitted : Permitted (has_grant db) c action r
  pub value :
      a
      ≡ record { actor_user_id = c.actor_user_id; action = action; resource = r; authorized_at = t }

pub authorize-Granted :
    (db : Database) (c : CommandContext) (action : Action) (r : ResourceRef) (t : DateTime)
    (a : AuthorizedAction)
    → c.now ≡ some t
    → authorize db c action r ≡ ok a
    → Granted db c action r t a
unfolding authorize check_resource
authorize-Granted db c action r t a now h =
    let (resource, checked, granted) =
      >>=-eq-ok (check_resource r) (λ q. require (has_grant db) c action q) h in
    let same : resource ≡ r = ground arith in
    let minted : require (has_grant db) c action r ≡ ok a = rw same at granted in
    let permitted = require-Permitted (has_grant db) c action r minted in
    record {
      permitted = permitted;
      value = let e = require_of_Permitted (has_grant db) c action r t permitted now in cc;
    }
