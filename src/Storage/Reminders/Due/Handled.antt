-- ===== src/Storage/Reminders/Due/Handled.antt =====
-- One reminder in the loop of `enqueue_due`: what happens to it, and that it does happen.
use zhixu.Prelude.{
  ℕ, ◌≡◌, refl, ap, subst, ◌⊎◌, inl, inr, Bool, true, false, some, [], ◌∷◌, ◌++◌, arith,
  if◌then◌else◌, Bool-cases, any, str_mem, str_eq_refl,
}
use zhixu.Prelude.Result.{ok, err, ◌>>=◌, >>=-eq-ok, integrity_error}
use zhixu.Prelude.Table.{In, In-append, update_where, any-append_left, any-append_last}
use zhixu.Domain.Reminder.{Reminder, ReminderStatus, fired, cancelled, check_reminder}
use zhixu.Delivery.Outbox.Tables.{Delivery, collides}
use zhixu.Storage.Tables.{Database}
use zhixu.Storage.Reminders.{Checks, from_row, set_status, creator_or_owner}
use zhixu.Storage.Reminders.Due.{
  Writing, is_missed, still_pending, set_row, idempotency_key, reminder_delivery, insert_delivery,
  enqueue_reminder, enqueue_one,
}

-- A row as it is read.
abbrev pub loaded : Reminder → Reminder
loaded row = record row { creator_user_id = some (creator_or_owner row) }

pub from_row-eq : (checks : Checks) (row r : Reminder) → from_row checks row ≡ ok r → r ≡ loaded row
unfolding from_row check_reminder
from_row-eq checks row r h = ground arith

module _ (checks : Checks) (w : Writing) (now grace : ℕ) where
  abbrev pub outcome : Reminder → ReminderStatus
  outcome row = if is_missed now grace row then cancelled else fired

  -- The outbox has a delivery with the key of this reminder, or with the id that the key gives.
  abbrev pub Sent : Reminder → Database → Type 0
  Sent r db =
      any (collides (w.delivery_id (idempotency_key w r)) (idempotency_key w r)) db.deliveries
      ≡ true

  pub record Handled (row : Reminder) (db next : Database) : Type 0 where
    pub reminders :
        next.reminders
        ≡ update_where (still_pending row.id) (set_status (outcome row) now) db.reminders
    pub users : next.users ≡ db.users
    pub grows : (p : Delivery → Bool) → any p db.deliveries ≡ true → any p next.deliveries ≡ true
    pub sends : is_missed now grace row ≡ false → Sent row next
    pub new :
        (x : Delivery)
        → In x next.deliveries
        → In x db.deliveries
          ⊎ ((x.id ≡ w.delivery_id (idempotency_key w row))
              × (x.idempotency_key ≡ idempotency_key w row))

  record Inserted (d : Delivery) (db next : Database) : Type 0 where
    only : next ≡ record db { deliveries = next.deliveries }
    grows : (p : Delivery → Bool) → any p db.deliveries ≡ true → any p next.deliveries ≡ true
    there : any (collides d.id d.idempotency_key) next.deliveries ≡ true
    new : (x : Delivery) → In x next.deliveries → In x db.deliveries ⊎ (x ≡ d)

  insert_delivery-Inserted :
      (d : Delivery) (db : Database) {n : ℕ} {next : Database}
      → insert_delivery d db ≡ ok (n, next)
      → Inserted d db next
  unfolding insert_delivery
  insert_delivery-Inserted d db {n} {next} h =
      elim (Bool-cases (any (collides d.id d.idempotency_key) db.deliveries)) [
        | inl y ↦
            let kept : ok (0, db) ≡ ok (n, next) = rw y at h in
            let same : db ≡ next = cc in
            rw (← same) (record { only = refl; grows = λ p k. k; there = y; new = λ x i. inl i })
        | inr un ↦ elim (Bool-cases (str_mem d.owner_user_id db.users)) [
          | inl m ↦
              let put : ok (1, record db { deliveries = db.deliveries ++ d ∷ [] }) ≡ ok (n, next) =
                rw (un, m) at h in
              let same : record db { deliveries = db.deliveries ++ d ∷ [] } ≡ next = cc in
              rw (← same) (record {
                only = refl;
                grows = λ p k. any-append_left p db.deliveries (d ∷ []) k;
                there =
                    any-append_last (collides d.id d.idempotency_key) db.deliveries d
                      (rw (str_eq_refl d.id) refl);
                new = λ x i. elim (In-append db.deliveries (d ∷ []) x i) [
                  | inl old ↦ inl old
                  | inr last ↦ (elim last [ inl e ↦ inr e | inr f ↦ absurd f ])
                ];
              })
          | inr m ↦ let raised : err integrity_error ≡ ok (n, next) = rw (un, m) at h in cc
        ]
      ]

  enqueue_reminder-Handled :
      (row : Reminder) (db : Database) {n : ℕ} {next : Database}
      → enqueue_reminder checks w now grace (loaded row) db ≡ ok (n, next)
      → Handled row db next
  unfolding enqueue_reminder
  enqueue_reminder-Handled row db {n} {next} h = elim (Bool-cases (is_missed now grace row)) [
    | inl y ↦
        let cut : ok (0, set_row row.id cancelled now "skip" "missed_policy" db) ≡ ok (n, next) =
          rw y at h in
        let same : set_row row.id cancelled now "skip" "missed_policy" db ≡ next = cc in
        rw (← same) (record {
          reminders = rw y refl;
          users = refl;
          grows = λ p k. k;
          sends = λ un. absurd (cc (y, un));
          new = λ x j. inl j;
        })
    | inr un ↦
        let d = reminder_delivery w db (loaded row) now in
        let put : (insert_delivery d db >>= λ (z : ℕ × Database).
        ok (z.0, set_row row.id fired now "enqueue" "" z.1))
            ≡ ok (n, next) =
          rw un at h in
        let ((k, mid), e, last) =
          >>=-eq-ok (insert_delivery d db)
            (λ (z : ℕ × Database). ok (z.0, set_row row.id fired now "enqueue" "" z.1)) put in
        let i = insert_delivery-Inserted d db e in
        let same : set_row row.id fired now "enqueue" "" mid ≡ next = cc in
        let rows : mid.reminders ≡ db.reminders = ap (λ (x : Database). x.reminders) i.only in
        let users : mid.users ≡ db.users = ap (λ (x : Database). x.users) i.only in
        rw (← same) (record {
          reminders = rw (un, rows) refl;
          users = users;
          grows = i.grows;
          sends = λ _. i.there;
          new = λ x j. elim (i.new x j) [
            | inl old ↦ inl old
            | inr e ↦
                inr (ap (λ (z : Delivery). z.id) e, ap (λ (z : Delivery). z.idempotency_key) e)
          ];
        })
  ]

  pub enqueue_one-Handled :
      (row : Reminder) (db : Database) {n : ℕ} {next : Database}
      → enqueue_one checks w now grace row db ≡ ok (n, next)
      → Handled row db next
  unfolding enqueue_one
  enqueue_one-Handled row db {n} {next} h =
      let (r, e, body) =
        >>=-eq-ok (from_row checks row) (λ r. enqueue_reminder checks w now grace r db) h in
      enqueue_reminder-Handled row db (
        subst (λ q. enqueue_reminder checks w now grace q db ≡ ok (n, next))
          (from_row-eq checks row r e) body)
