-- ===== src/Storage/Reminders/Due/Again.antt =====
-- A second `enqueue_due` at the same time finds nothing to do.
use zhixu.Prelude.{
  ℕ, ◌+◌, ◌≡◌, refl, sym, ap, ◌∙◌, subst, inl, inr, true, false, List, [], ◌∷◌, arith, eq_iff,
  if◌then◌else◌, Bool-cases, str_eq,
}
use zhixu.Prelude.Result.{ok, ◌>>=◌, >>=-eq-ok}
use zhixu.Prelude.Table.{
  update_where, In, In-update_where, select_where, select_where-In, select_where-none, order_by,
  order_by-In,
}
use zhixu.Domain.Time.{DateTime, require_aware}
use zhixu.Domain.Reminder.{Reminder}
use zhixu.Storage.Tables.{Database}
use zhixu.Storage.Reminders.{Checks, set_status}
use zhixu.Storage.Reminders.Due.{
  Writing, is_due, due_before, still_pending, enqueue_one, enqueue_rows, enqueue_due,
}
use zhixu.Storage.Reminders.Due.Handled.{outcome, Handled, enqueue_one-Handled}

module _ (checks : Checks) (w : Writing) (now grace : ℕ) where
  -- Every reminder that is due is among the rows that are left.
  abbrev Left : List Reminder → Database → Type 0
  Left rows db =
      (x : Reminder)
      → In x db.reminders
      → is_due now x ≡ true
      → (y : Reminder) × In y rows × (x.id ≡ y.id)

  set_status-not_due :
      (row x : Reminder) → is_due now (set_status (outcome checks w now grace row) now x) ≡ false
  set_status-not_due row x = ground arith

  Left-step :
      (row : Reminder) (rows : List Reminder) (db next : Database)
      → Handled checks w now grace row db next
      → Left (row ∷ rows) db
      → Left rows next
  Left-step row rows db next k left x i due =
      let f = set_status (outcome checks w now grace row) now in
      let here : In x (update_where (still_pending row.id) f db.reminders) =
        subst (λ l. In x l) k.reminders i in
      let (b, j, e) = In-update_where (still_pending row.id) f db.reminders x here in
      elim (Bool-cases (still_pending row.id b)) [
        | inl y ↦
            let changed : x ≡ f b = e ∙ ap (λ t. if t then f b else b) y in
            absurd (cc (ap (is_due now) changed, set_status-not_due row b, due))
        | inr n ↦
            let kept : x ≡ b = e ∙ ap (λ t. if t then f b else b) n in
            let due_b : is_due now b ≡ true = ap (is_due now) (sym kept) ∙ due in
            let (y, m, same) = left b j due_b in
            (elim m [
              | inl first ↦
                  let id : b.id ≡ row.id = same ∙ ap (λ (r : Reminder). r.id) first in
                  let again : str_eq b.id row.id ≡ true = (eq_iff b.id row.id).1 id in
                  absurd (ground (arith, again, n, due_b))
              | inr more ↦ (y, more, ap (λ (r : Reminder). r.id) kept ∙ same)
            ])
      ]

  enqueue_rows-none_due :
      (rows : List Reminder) (db : Database) {n : ℕ} {end : Database}
      → enqueue_rows checks w now grace rows db ≡ ok (n, end)
      → Left rows db
      → (x : Reminder) → In x end.reminders
      → is_due now x ≡ false
  unfolding enqueue_rows
  enqueue_rows-none_due [] db {n} {end} h left x i =
      let same : db ≡ end = cc in
      elim (Bool-cases (is_due now x)) [
        | inl y ↦ absurd (left x (subst (λ (d : Database). In x d.reminders) (sym same) i) y).1
        | inr n ↦ n
      ]
  enqueue_rows-none_due (row ∷ rows) db {n} {end} h left x i =
      let ((a, next), e, h1) =
        >>=-eq-ok (enqueue_one checks w now grace row db)
          (λ (z : ℕ × Database).
            enqueue_rows checks w now grace rows z.1 >>= λ (y : ℕ × Database). ok (z.0 + y.0, y.1))
          h in
      let ((b, last), f, g) =
        >>=-eq-ok (enqueue_rows checks w now grace rows next)
          (λ (y : ℕ × Database). ok (a + y.0, y.1)) h1 in
      let same : last ≡ end = cc in
      enqueue_rows-none_due rows next f
        (Left-step row rows db next (enqueue_one-Handled checks w now grace row db e) left) x
        (subst (λ (d : Database). In x d.reminders) (sym same) i)

-- After `enqueue_due` has succeeded, a second one at the same time, with whatever grace, inserts no
-- delivery, writes no audit event and leaves the database as it is.
pub enqueue_due_again :
    (checks : Checks) (w : Writing) (db : Database) (now : DateTime) (grace grace' : ℕ) {n : ℕ}
    {end : Database}
    → enqueue_due checks w db now grace ≡ ok (n, end)
    → enqueue_due checks w end now grace' ≡ ok (0, end)
unfolding enqueue_due enqueue_rows
enqueue_due_again checks w db now grace grace' {n} {end} h =
    let at = now.instant in
    let due = order_by due_before (select_where (is_due at) db.reminders) in
    let (x, aware, run) =
      >>=-eq-ok (require_aware now) (λ _. enqueue_rows checks w at grace due db) h in
    let left : Left checks w at grace due db = λ r i d.
      let found = select_where-In (is_due at) db.reminders r i d in
      (r, order_by-In due_before (select_where (is_due at) db.reminders) r found, refl) in
    let empty : select_where (is_due at) end.reminders ≡ [] =
      select_where-none (is_due at) end.reminders
        (enqueue_rows-none_due checks w at grace due db run left) in
    rw (aware, empty) refl
