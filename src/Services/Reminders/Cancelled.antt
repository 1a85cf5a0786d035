-- ===== src/Services/Reminders/Cancelled.antt =====
-- A cancelled reminder is at its end.
use zhixu.Prelude.{
  ℕ, ◌+◌, String, ◌≡◌, refl, ap, ◌∙◌, subst, inl, inr, Bool, true, false, some, List, [], ◌∷◌,
  arith, leb,
}
use zhixu.Prelude.Result.{
  Result-cases, Result, ok, err, ◌>>=◌, raise_if, >>=-eq-ok, validation_error,
}
use zhixu.Prelude.Table.{select_where, order_by}
use zhixu.Prelude.Keyed.{find, find-last, find-update_where}
use zhixu.Domain.Time.{DateTime, require_aware}
use zhixu.Domain.Policy.{AuthorizedAction, create, update}
use zhixu.Domain.Reminder.{Reminder, check_reminder}
use zhixu.Storage.Tables.{Database}
use zhixu.Storage.Reminders
use zhixu.Storage.Reminders.{
  Checks, reminder_ref, is_pending, is_fired, is_active, is_cancelled, is_at, set_status,
  set_snoozed, change_reminder, cancel, acknowledge, snooze,
}
use zhixu.Storage.Reminders.Effect.{
  Changes, created, create_reminder-Creates, change_reminder-Changes,
}
use zhixu.Storage.Reminders.Due.{
  Writing, is_due, due_before, still_pending, enqueue_one, enqueue_rows, enqueue_due,
}
use zhixu.Storage.Reminders.Due.Handled.{Handled, enqueue_one-Handled}
use zhixu.Storage.Reminders.Due.Settle.{key, row_of}
use zhixu.Services.Context.{current_context, authorize, require_creator_or_manager}
use zhixu.Services.Reminders.{
  proposed, named_reminder, create_reminder, acknowledge_reminder, cancel_reminder, snooze_reminder,
}
use zhixu.Services.Reminders.Calls.{
  Call, creates, acknowledges, cancels, snoozes, ticks, step, run, after,
}

-- The table holds this row, and it is cancelled.
record Ended (r : Reminder) (db : Database) : Type 0 where
  row : row_of db r.id ≡ some r
  over : is_cancelled r ≡ true

-- A state that is not cancelled.
abbrev Live : (Reminder → Bool) → Type 0
Live status = (x : Reminder) → is_cancelled x ≡ true → status x ≡ false

fired-Live : Live is_fired
fired-Live x h = ground arith

active-Live : Live is_active
active-Live x h = ground arith

pending-Live : Live is_pending
pending-Live x h = ground arith

-- Checks in front of a write: what holds after the write, and before it, holds after both.
kept_by {ℓ κ} :
    {X : Type ℓ} {A : Type κ} (P : Database → Type 0) (db : Database) (m : Result X)
    (f : X → Result (A × Database))
    → P db
    → ((x : X) → P (after db (f x)))
    → P (after db (m >>= f))
kept_by P db (ok x) f p k = k x
kept_by P db (err e) f p k = p

module _ (checks : Checks) (r : Reminder) where
  Changes-Ended :
      (status : Reminder → Bool) (change : Reminder → Reminder) (db : Database) (id : String)
      (expected : ℕ) (a : AuthorizedAction) (next : Database)
      → Live status
      → ((x : Reminder) → key (change x) ≡ key x)
      → Changes status change db id expected a next
      → Ended r db
      → Ended r next
  Changes-Ended status change db id expected a next live same k e = record {
    row =
        ap (find key r.id) k.reminders
        ∙ find-update_where key (is_at status id expected) change same r.id db.reminders
        ∙ rw e.row (rw (live r e.over) (ground arith));
    over = e.over;
  }

  change_reminder-Ended :
      (status : Reminder → Bool) (change : Reminder → Reminder) (reason : String) (db : Database)
      (id : String) (expected : ℕ) (a : AuthorizedAction)
      → Live status
      → ((x : Reminder) → key (change x) ≡ key x)
      → Ended r db
      → Ended r (after db (change_reminder checks status change reason db id expected a))
  change_reminder-Ended status change reason db id expected a live same e =
      elim (Result-cases (change_reminder checks status change reason db id expected a)) [
        | inl (x, h) ↦ rw h e
        | inr ((u, next), h) ↦ rw h (
            Changes-Ended status change db id expected a next live same
              (change_reminder-Changes checks db status change id expected a reason h) e)
      ]

  creation-Ended :
      (db : Database) (s : Reminder) (a : AuthorizedAction)
      → Ended r db
      → Ended r (after db (Reminders.create_reminder checks db s a))
  creation-Ended db s a e = elim (Result-cases (Reminders.create_reminder checks db s a)) [
    | inl (x, h) ↦ rw h e
    | inr ((u, next), h) ↦
        (let k = create_reminder-Creates checks db s a h in
          rw h (record {
            row =
                ap (find key r.id) k.reminders
                ∙ find-last key r.id db.reminders (created s a)
                ∙ rw e.row refl;
            over = e.over;
          }))
  ]

  Handled-Ended :
      (w : Writing) (now grace : ℕ) (row : Reminder) (db next : Database)
      → Handled checks w now grace row db next
      → Ended r db
      → Ended r next
  Handled-Ended w now grace row db next k e = record {
    row =
        ap (find key r.id) k.reminders
        ∙ find-update_where key (still_pending row.id) (set_status _ now) (λ x. refl) r.id
            db.reminders
        ∙ rw e.row (rw (pending-Live r e.over) (ground arith));
    over = e.over;
  }

  enqueue_rows-Ended :
      (w : Writing) (now grace : ℕ) (rows : List Reminder) (db : Database) {n : ℕ} {end : Database}
      → enqueue_rows checks w now grace rows db ≡ ok (n, end)
      → Ended r db
      → Ended r end
  unfolding enqueue_rows
  enqueue_rows-Ended w now grace [] db {n} {end} h e =
      let same : db ≡ end = cc in subst (λ d. Ended r d) same e
  enqueue_rows-Ended w now grace (row ∷ rows) db {n} {end} h e =
      let ((a, next), one, h1) =
        >>=-eq-ok (enqueue_one checks w now grace row db)
          (λ (z : ℕ × Database).
            enqueue_rows checks w now grace rows z.1 >>= λ (y : ℕ × Database). ok (z.0 + y.0, y.1))
          h in
      let ((b, last), more, g) =
        >>=-eq-ok (enqueue_rows checks w now grace rows next)
          (λ (y : ℕ × Database). ok (a + y.0, y.1)) h1 in
      let same : last ≡ end = cc in
      subst (λ d. Ended r d) same
        (enqueue_rows-Ended w now grace rows next more (
          Handled-Ended w now grace row db next (enqueue_one-Handled checks w now grace row db one)
            e))

  enqueue_due-Ended :
      (w : Writing) (db : Database) (now : DateTime) (grace : ℕ)
      → Ended r db
      → Ended r (after db (enqueue_due checks w db now grace))
  unfolding enqueue_due
  enqueue_due-Ended w db now grace e =
      let rows = order_by due_before (select_where (is_due now.instant) db.reminders) in
      elim (Result-cases (enqueue_due checks w db now grace)) [
        | inl (x, h) ↦ rw h e
        | inr ((n, end), h) ↦
            (let (y, aware, done) =
                >>=-eq-ok (require_aware now) (λ _. enqueue_rows checks w now.instant grace rows db)
                  h in
              rw h (enqueue_rows-Ended w now.instant grace rows db done e))
      ]

  step-Ended : (w : Writing) (c : Call) (db : Database) → Ended r db → Ended r (step checks w c db)
  unfolding step create_reminder acknowledge_reminder cancel_reminder snooze_reminder cancel
      acknowledge snooze
  step-Ended w (creates id command c now) db e =
      kept_by (Ended r) db (current_context c now) _ e λ z.
        kept_by (Ended r) db (check_reminder checks.is_zone (proposed id command z)) _ e λ s.
          kept_by (Ended r) db (authorize db z create (reminder_ref s)) _ e
            λ a. creation-Ended db s a e
  step-Ended w (acknowledges id c now) db e =
      kept_by (Ended r) db (named_reminder checks db id) _ e λ x.
        kept_by (Ended r) db (current_context c now) _ e λ z.
          kept_by (Ended r) db (authorize db z update (reminder_ref x)) _ e
            λ a. change_reminder-Ended is_fired _ _ db x.id x.version a fired-Live (λ y. refl) e
  step-Ended w (cancels id c now) db e = kept_by (Ended r) db (named_reminder checks db id) _ e λ x.
      kept_by (Ended r) db (current_context c now) _ e λ z.
        kept_by (Ended r) db (require_creator_or_manager z x.owner_user_id x.creator_user_id) _ e
          λ _.
            kept_by (Ended r) db (authorize db z update (reminder_ref x)) _ e
              λ a. change_reminder-Ended is_active _ _ db x.id x.version a active-Live (λ y. refl) e
  step-Ended w (snoozes id fire_at c now) db e =
      kept_by (Ended r) db (named_reminder checks db id) _ e λ x.
        kept_by (Ended r) db (current_context c now) _ e λ z.
          kept_by (Ended r) db (authorize db z update (reminder_ref x)) _ e λ a.
            kept_by (Ended r) db (require_aware fire_at) _ e λ _.
              kept_by (Ended r) db
                (raise_if (leb fire_at.instant a.authorized_at.instant) validation_error) _ e
                λ _. change_reminder-Ended is_fired _ _ db x.id x.version a fired-Live (λ y. refl) e
  step-Ended w (ticks now grace) db e = enqueue_due-Ended w db now grace e

  run-Ended :
      (w : Writing) (cs : List Call) (db : Database) → Ended r db → Ended r (run checks w cs db)
  unfolding run
  run-Ended w [] db e = e
  run-Ended w (c ∷ cs) db e = run-Ended w cs (step checks w c db) (step-Ended w c db e)

-- A reminder that is cancelled stays exactly as it is, whatever reminders are created, acknowledged,
-- cancelled and snoozed afterwards, by whom, and however often the scheduler looks for due ones.
pub cancelled_stays :
    (checks : Checks) (w : Writing) (calls : List Call) (db : Database) (r : Reminder)
    → row_of db r.id ≡ some r
    → is_cancelled r ≡ true
    → row_of (run checks w calls db) r.id ≡ some r
cancelled_stays checks w calls db r row over =
    (run-Ended checks r w calls db (record { row = row; over = over })).row
