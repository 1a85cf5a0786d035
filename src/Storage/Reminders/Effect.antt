-- ===== src/Storage/Reminders/Effect.antt =====
-- What the writes of `ReminderRepository` that succeed do to the table of reminders.
use zhixu.Prelude.{
  ℕ, String, ◌≡◌, ap, ◌∙◌, subst, Bool, false, not, some, [], ◌∷◌, ◌++◌, arith, ◌==◌, any,
}
use zhixu.Prelude.Result.{
  Result, ok, ◌>>=◌, ◌>>◌, raise_if, or_raise, >>=-eq-ok, not_found, conflict, assertion_error,
}
use zhixu.Prelude.Table.{update_where, count_where}
use zhixu.Domain.Time.{require_aware}
use zhixu.Domain.Policy.{create, update, AuthorizedAction}
use zhixu.Domain.Reminder.{Reminder, check_reminder}
use zhixu.Storage.Tables.{Database}
use zhixu.Storage.Access.{require_authorization, audit}
use zhixu.Storage.Reminders.{
  Checks, reminder_ref, has_id, insert_reminder, create_reminder, get_reminder, is_at,
  change_reminder,
}

abbrev pub created : Reminder → AuthorizedAction → Reminder
created r a = record r {
  version = 1;
  created_at = some a.authorized_at;
  updated_at = some a.authorized_at;
}

pub record Creates (db : Database) (r : Reminder) (a : AuthorizedAction) (u : Reminder)
    (next : Database) : Type 0 where
  pub value : u ≡ created r a
  pub fresh : any (has_id r.id) db.reminders ≡ false
  pub reminders : next.reminders ≡ db.reminders ++ created r a ∷ []

pub check_reminder-eq :
    (is_zone : String → Bool) (r u : Reminder) → check_reminder is_zone r ≡ ok u → u ≡ r
unfolding check_reminder
check_reminder-eq is_zone r u h = ground arith

-- A row that is inserted, and the audit of the write.
abbrev insertion : Database → AuthorizedAction → Reminder → Result (Reminder × Database)
insertion db a r = do
  inserted ← insert_reminder r db
  after ← audit a "completed" "" inserted
  ok (r, after)

inserted_row :
    (db : Database) (r : Reminder) (a : AuthorizedAction) {u : Reminder} {next : Database}
    → insertion db a r ≡ ok (u, next)
    → (u ≡ r) × (any (has_id r.id) db.reminders ≡ false) × (next.reminders ≡ db.reminders ++ r ∷ [])
unfolding insert_reminder audit require_aware
inserted_row db r a h = ground arith

pub create_reminder-Creates :
    (checks : Checks) (db : Database) (r : Reminder) (a : AuthorizedAction) {u : Reminder}
    {next : Database}
    → create_reminder checks db r a ≡ ok (u, next)
    → Creates db r a u next
unfolding create_reminder
create_reminder-Creates checks db r a {u} {next} h =
    let check = check_reminder checks.is_zone (created r a) in
    let (x, e, h1) =
      >>=-eq-ok (require_authorization a create (reminder_ref r))
        (λ _. check >>= λ s. require_aware a.authorized_at >>= λ _. insertion db a s) h in
    let (s, f, h2) =
      >>=-eq-ok check (λ s. require_aware a.authorized_at >>= λ _. insertion db a s) h1 in
    let (y, g, h3) = >>=-eq-ok (require_aware a.authorized_at) (λ _. insertion db a s) h2 in
    let same = check_reminder-eq checks.is_zone (created r a) s f in
    let done : insertion db a (created r a) ≡ ok (u, next) =
      subst (λ q. insertion db a q ≡ ok (u, next)) same h3 in
    let (value, fresh, reminders) = inserted_row db (created r a) a done in
    record { value = value; fresh = fresh; reminders = reminders }

pub record Changes (status : Reminder → Bool) (change : Reminder → Reminder) (db : Database)
    (id : String) (expected : ℕ) (a : AuthorizedAction) (next : Database) : Type 0 where
  pub matched : count_where (is_at status id expected) db.reminders ≡ 1
  pub reminders : next.reminders ≡ update_where (is_at status id expected) change db.reminders

-- The end of a change: the condition on the rows, the update, its audit, and the reading of it.
module _ (checks : Checks) (db : Database) (status : Reminder → Bool) (change : Reminder → Reminder)
    (id : String) (expected : ℕ) (a : AuthorizedAction) where
  abbrev read_again : Database → Result (Reminder × Database)
  read_again after = do
    again ← get_reminder checks after id
    updated ← or_raise again assertion_error
    ok (updated, after)

  abbrev write_rows : String → Result (Reminder × Database)
  write_rows reason = do
    raise_if (not (count_where (is_at status id expected) db.reminders == 1)) conflict
    after ←
        audit a "completed" reason
          (record db { reminders = update_where (is_at status id expected) change db.reminders })
    read_again after

  abbrev with_database : Database → Reminder → Result (Reminder × Database)
  with_database after r = ok (r, after)

  read_again-eq :
      (after : Database) {u : Reminder} {next : Database}
      → read_again after ≡ ok (u, next)
      → next ≡ after
  read_again-eq after h =
      let (again, e, h1) =
        >>=-eq-ok (get_reminder checks after id)
          (λ again. or_raise again assertion_error >>= with_database after) h in
      let (v, f, h2) = >>=-eq-ok (or_raise again assertion_error) (with_database after) h1 in cc

  updated_rows :
      (reason : String) {u : Reminder} {next : Database}
      → write_rows reason ≡ ok (u, next)
      → Changes status change db id expected a next
  unfolding audit require_aware
  updated_rows reason {u} {next} h =
      let changed = record db {
        reminders = update_where (is_at status id expected) change db.reminders;
      } in
      let (x, e, h1) =
        >>=-eq-ok
          (raise_if (not (count_where (is_at status id expected) db.reminders == 1)) conflict)
          (λ _. audit a "completed" reason changed >>= read_again) h in
      let (after, f, h2) = >>=-eq-ok (audit a "completed" reason changed) read_again h1 in
      let rows : after.reminders ≡ update_where (is_at status id expected) change db.reminders =
        ground arith in
      record {
        matched = ground arith;
        reminders = ap (λ (d : Database). d.reminders) (read_again-eq after h2) ∙ rows;
      }

  pub change_reminder-Changes :
      (reason : String) {u : Reminder} {next : Database}
      → change_reminder checks status change reason db id expected a ≡ ok (u, next)
      → Changes status change db id expected a next
  unfolding change_reminder
  change_reminder-Changes reason h =
      let guarded = λ (r : Reminder). require_authorization a update (reminder_ref r) >>= λ _.
      require_aware a.authorized_at >>= λ _. write_rows reason in
      let (found, e, h1) =
        >>=-eq-ok (get_reminder checks db id) (λ o. or_raise o not_found >>= guarded) h in
      let (r, f, h2) = >>=-eq-ok (or_raise found not_found) guarded h1 in
      let (x, g, h3) =
        >>=-eq-ok (require_authorization a update (reminder_ref r))
          (λ _. require_aware a.authorized_at >>= λ _. write_rows reason) h2 in
      let (y, k, h4) = >>=-eq-ok (require_aware a.authorized_at) (λ _. write_rows reason) h3 in
      updated_rows reason h4
