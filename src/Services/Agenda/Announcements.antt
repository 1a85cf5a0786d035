-- ===== src/Services/Agenda/Announcements.antt =====
-- The loop of `delete_agenda` of src/zhixu/application/services.py over the reminders of an item, and that
-- none is left which announces it.
use zhixu.Prelude.{
  ℕ, String, ◌≡◌, refl, sym, ap, ◌∙◌, subst, inl, inr, true, false, List, [], ◌∷◌, arith,
  if◌then◌else◌, Bool-cases, str_eq, str_eq_refl, ◌⊎◌,
}
use zhixu.Prelude.Result.{Result-cases, Result, ok, err, ◌>>=◌, >>=-eq-ok}
use zhixu.Prelude.Table.{In, In-update_where, update_where, update_where-In}
use zhixu.Domain.Policy.{CommandContext, update}
use zhixu.Domain.Reminder.{Reminder, ReminderStatus, cancelled}
use zhixu.Domain.Agenda.{Calendars, AgendaItem}
use zhixu.Storage.Reminders
use zhixu.Storage.Reminders.{
  Checks, reminder_ref, is_pending, is_active, is_at, set_status, from_row, from_rows,
  listed_before, list_for_owner,
}
use zhixu.Storage.Reminders.Effect.{change_reminder-Changes}
use zhixu.Storage.Reminders.Due.Handled.{loaded, from_row-eq}
use zhixu.Storage.Agenda.{AgendaDatabase}
use zhixu.Services.Context.{authorize}
use zhixu.Services.Agenda.{announces, cancel_announcement, cancel_announcements}

abbrev pub key : AgendaItem → String
key i = i.id

-- No reminder of the owner announces the item.
abbrev pub Silent : String → String → AgendaDatabase → Type 0
Silent id owner db =
    (x : Reminder)
    → In x db.base.reminders
    → str_eq x.owner_user_id owner ≡ true
    → announces id x ≡ false

-- Those that do are among the reminders that are left.
abbrev pub Left : String → String → List Reminder → AgendaDatabase → Type 0
Left id owner rs db =
    (x : Reminder)
    → In x db.base.reminders
    → str_eq x.owner_user_id owner ≡ true
    → announces id x ≡ true
    → In (loaded x) rs

pub from_rows-In :
    (checks : Checks) (rows ts : List Reminder) (x : Reminder)
    → from_rows checks rows ≡ ok ts
    → In x rows
    → In (loaded x) ts
from_rows-In checks [] ts x h i = absurd i
from_rows-In checks (row ∷ rows) ts x h i =
    let (t, e, h1) =
      >>=-eq-ok (from_row checks row) (λ t. from_rows checks rows >>= λ us. ok (t ∷ us)) h in
    let (us, f, h2) = >>=-eq-ok (from_rows checks rows) (λ us. ok (t ∷ us)) h1 in
    let same : t ∷ us ≡ ts = cc in
    subst (λ l. In (loaded x) l) same
      (elim i [
        | inl here ↦ inl (ap loaded here ∙ sym (from_row-eq checks row t e))
        | inr more ↦ inr (from_rows-In checks rows us x f more)
      ])

module _ (checks : Checks) (k : Calendars) (c : CommandContext) (id owner : String) where
  record Cancels (r : Reminder) (db next : AgendaDatabase) : Type 0 where
    time : ℕ
    items : next.items ≡ db.items
    reminders :
        next.base.reminders
        ≡ update_where
            (is_at is_active r.id r.version)
            (set_status cancelled time)
            db.base.reminders

  cancel_announcement-Cancels :
      (r : Reminder) (db next : AgendaDatabase)
      → cancel_announcement checks k c r db ≡ ok next
      → Cancels r db next
  unfolding cancel_announcement Reminders.cancel
  cancel_announcement-Cancels r db next h =
      let (a, e, h1) =
        >>=-eq-ok (authorize db.base c update (reminder_ref r))
          (λ a.
            Reminders.cancel checks db.base r.id r.version a >>= λ z. ok (record db { base = z.1 }))
          h in
      let ((u, base), f, h2) =
        >>=-eq-ok (Reminders.cancel checks db.base r.id r.version a)
          (λ z. ok (record db { base = z.1 })) h1 in
      let w =
        change_reminder-Changes checks db.base is_active
          (set_status cancelled a.authorized_at.instant) r.id r.version a "cancelled" f in
      let same : record db { base = base } ≡ next = cc in
      subst (λ n. Cancels r db n) same
        (record { time = a.authorized_at.instant; items = refl; reminders = w.reminders })

  Left-cancelled :
      (r : Reminder) (rs : List Reminder) (db next : AgendaDatabase)
      → Cancels r db next
      → Left id owner (r ∷ rs) db
      → Left id owner rs next
  Left-cancelled r rs db next w left x i mine says =
      let p = is_at is_active r.id r.version in
      let f = set_status cancelled w.time in
      let here : In x (update_where p f db.base.reminders) = subst (λ l. In x l) w.reminders i in
      let (b, j, e) = In-update_where p f db.base.reminders x here in
      elim (Bool-cases (p b)) [
        | inl y ↦
            let changed : x ≡ f b = e ∙ ap (λ t. if t then f b else b) y in
            let quiet : announces id (f b) ≡ false = ground arith in
            absurd (cc (ap (announces id) changed, quiet, says))
        | inr n ↦
            (let kept : x ≡ b = e ∙ ap (λ t. if t then f b else b) n in
              let listed =
                left b j (ap (λ (z : Reminder). str_eq z.owner_user_id owner) (sym kept) ∙ mine)
                  (ap (announces id) (sym kept) ∙ says) in
              elim listed [
                | inl first ↦
                    let at : is_at is_active b.id b.version b ≡ true =
                      ground (arith, ap (announces id) kept, says, str_eq_refl b.id) in
                    let hit : p b ≡ true =
                      subst (λ (z : Reminder). is_at is_active z.id z.version b ≡ true) first at in
                    absurd (cc (hit, n))
                | inr more ↦ subst (λ z. In (loaded z) rs) (sym kept) more
              ])
      ]

  -- Of a reminder there is still a row, the same or a cancelled one.
  abbrev pub Lives : Reminder → AgendaDatabase → Type 0
  Lives x db =
      (y : Reminder) × In y db.base.reminders
      × (y.id ≡ x.id)
      × ((y ≡ x) ⊎ (y.status ≡ ReminderStatus.cancelled))

  Lives-cancelled :
      (r : Reminder) (db next : AgendaDatabase)
      → Cancels r db next
      → (x : Reminder) → Lives x db
      → Lives x next
  Lives-cancelled r db next w x (y, i, same, how) =
      let p = is_at is_active r.id r.version in
      let f = set_status cancelled w.time in
      let here : In (if p y then f y else y) (update_where p f db.base.reminders) =
        update_where-In p f db.base.reminders y i in
      let there : In (if p y then f y else y) next.base.reminders =
        subst (λ l. In (if p y then f y else y) l) (sym w.reminders) here in
      elim (Bool-cases (p y)) [
        | inl hit ↦ (f y, rw hit at there, same, inr refl)
        | inr n ↦ (y, rw n at there, same, how)
      ]

  pub cancel_announcements-Lives :
      (rs : List Reminder) (db mid : AgendaDatabase)
      → cancel_announcements checks k c id rs db ≡ (ok tt, mid)
      → (x : Reminder) → Lives x db
      → Lives x mid
  unfolding cancel_announcements
  cancel_announcements-Lives [] db mid h x lives =
      let same : db ≡ mid = ap (λ (z : Result (Unit {0}) × AgendaDatabase). z.1) h in
      subst (λ m. Lives x m) same lives
  cancel_announcements-Lives (r ∷ rs) db mid h x lives = elim (Bool-cases (announces id r)) [
    | inr n ↦
        let skipped : cancel_announcements checks k c id rs db ≡ (ok tt, mid) = rw n at h in
        cancel_announcements-Lives rs db mid skipped x lives
    | inl y ↦ elim (Result-cases (cancel_announcement checks k c r db)) [
      | inl (e, g) ↦
          let stopped : (err e, db) ≡ (ok tt, mid) = rw (y, g) at h in
          absurd (cc (ap (λ (z : Result (Unit {0}) × AgendaDatabase). z.0) stopped))
      | inr (next, g) ↦
          (let went : cancel_announcements checks k c id rs next ≡ (ok tt, mid) = rw (y, g) at h in
            cancel_announcements-Lives rs next mid went x
              (Lives-cancelled r db next (cancel_announcement-Cancels r db next g) x lives))
    ]
  ]

  pub cancel_announcements-Silent :
      (rs : List Reminder) (db mid : AgendaDatabase)
      → cancel_announcements checks k c id rs db ≡ (ok tt, mid)
      → Left id owner rs db
      → (mid.items ≡ db.items) × Silent id owner mid
  unfolding cancel_announcements
  cancel_announcements-Silent [] db mid h left =
      let same : db ≡ mid = ap (λ (z : Result (Unit {0}) × AgendaDatabase). z.1) h in
      subst (λ m. (m.items ≡ db.items) × Silent id owner m) same
        (
          refl,
          λ x i mine. elim (Bool-cases (announces id x)) [
            | inl y ↦ absurd (left x i mine y)
            | inr n ↦ n
          ],
        )
  cancel_announcements-Silent (r ∷ rs) db mid h left = elim (Bool-cases (announces id r)) [
    | inr n ↦
        let skipped : cancel_announcements checks k c id rs db ≡ (ok tt, mid) = rw n at h in
        cancel_announcements-Silent rs db mid skipped (λ x i mine says. elim (left x i mine says) [
          | inl first ↦ absurd (cc (n, says, ap (announces id) first))
          | inr more ↦ more
        ])
    | inl y ↦ elim (Result-cases (cancel_announcement checks k c r db)) [
      | inl (e, g) ↦
          let stopped : (err e, db) ≡ (ok tt, mid) = rw (y, g) at h in
          absurd (cc (ap (λ (z : Result (Unit {0}) × AgendaDatabase). z.0) stopped))
      | inr (next, g) ↦
          (let went : cancel_announcements checks k c id rs next ≡ (ok tt, mid) = rw (y, g) at h in
            let w = cancel_announcement-Cancels r db next g in
            let (items, silent) =
              cancel_announcements-Silent rs next mid went (Left-cancelled r rs db next w left) in
            (items ∙ w.items, silent))
    ]
  ]
