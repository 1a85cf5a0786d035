-- ===== src/Storage/Reminders/Due/Settle.antt =====
-- What `enqueue_due` does to every reminder that is due, and that it does not raise.
use zhixu.Prelude.{ℕ, String, ◌≡◌, true, false, Option, some, List, ◌++◌, str_mem}
use Prim.Native.String.{◌++◌ as append_text}
use zhixu.Prelude.Result.{ok}
use zhixu.Prelude.Table.{In}
use zhixu.Prelude.Keyed.{find}
use zhixu.Domain.Reminder.{Reminder, fired, cancelled}
use zhixu.Delivery.Outbox.Tables.{Delivery}
use zhixu.Storage.Tables.{Database}
use zhixu.Storage.Reminders.{Checks, from_row, is_pending, set_status}
use zhixu.Storage.Reminders.Due.{Writing, idempotency_key, is_missed}
use zhixu.Storage.Reminders.Due.Handled.{loaded, outcome, Sent, Handled}

abbrev pub key : Reminder → String
key r = r.id

abbrev pub row_of : Database → String → Option Reminder
row_of db id = find key id db.reminders

module _ (checks : Checks) (w : Writing) (now grace : ℕ) where
  -- The reminder is cancelled if it was missed, and otherwise fired, with a delivery in the outbox.
  pub record Settled (r : Reminder) (db : Database) : Type 0 where
    pub row : row_of db r.id ≡ some (set_status (outcome checks w now grace r) now r)
    pub sent : is_missed now grace r ≡ false → Sent checks w now grace r db

  -- A waiting reminder is in the table and among the rows that are left, and no other of these has its id.
  record Waits (rows : List Reminder) (r : Reminder) (db : Database) : Type 0 where
    pending : is_pending r ≡ true
    here : row_of db r.id ≡ some r
    listed : In r rows
    alone : (x : Reminder) → In x rows → x.id ≡ r.id → x ≡ r

  -- A row that can be read, of a user.
  abbrev pub Readable : List String → Reminder → Type 0
  Readable users r = (from_row checks r ≡ ok (loaded r)) × (str_mem r.owner_user_id users ≡ true)

-- A delivery whose id is the one that a key gives has that key.
abbrev pub Identified : Writing → Database → Type 0
Identified w db =
    (d : Delivery)
    → In d db.deliveries
    → (k : String) → d.id ≡ w.delivery_id k
    → d.idempotency_key ≡ k

-- No two keys give one id.
abbrev pub Collisionless : Writing → Type 0
Collisionless w = (k l : String) → w.delivery_id k ≡ w.delivery_id l → k ≡ l

module _ (checks : Checks) (w : Writing) (now grace : ℕ) where
  -- The reminder is cancelled, or it has a delivery of its own: one under the key that its id and its
  -- time make.
  pub record Done (r : Reminder) (db : Database) : Type 0 where
    pub missed : is_missed now grace r ≡ true → row_of db r.id ≡ some (set_status cancelled now r)
    pub fires :
        is_missed now grace r ≡ false
        → (row_of db r.id ≡ some (set_status fired now r))
          × (d : Delivery) × In d db.deliveries
          × (d.idempotency_key
              ≡ append_text "reminder:"
                  (append_text r.id (append_text ":" (w.isoformat r.fire_at.instant))))
