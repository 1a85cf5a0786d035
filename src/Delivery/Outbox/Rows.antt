-- ===== src/Delivery/Outbox/Rows.antt =====
-- What holds of the rows of the outbox between two calls, and what keeps it.
use zhixu.Prelude.{
  ℕ, ◌≤◌, ◌<◌, String, ◌≡◌, refl, sym, ap, ◌∙◌, inl, inr, Bool, true, false, none, some, List, [],
  ◌∷◌, ◌++◌, arith, eq_iff, if◌then◌else◌, Bool-cases, any, str_eq_comm, str_eq_refl,
}
use zhixu.Prelude.Table.{
  select_one, In, update_where, In-update_where, In-append, any-append_not, any-false,
}
use zhixu.Channels.{is_none, ChannelDeliveryResult}
use zhixu.Delivery.Outbox.Tables.{Delivery, DeliveryStatus, pending, retry_wait, has_id}
use zhixu.Delivery.Outbox.Enqueue.{Enqueue, new_delivery}
use zhixu.Delivery.Outbox.Claim.{lease_row, defer_row, is_sending}
use zhixu.Delivery.Outbox.Complete.{sent_row, retry_row, dead_row, revive_row}

-- `status IN ('pending','retry_wait')`: the delivery waits for an attempt of its own budget.
abbrev pub is_fresh : DeliveryStatus → Bool
is_fresh pending = true
is_fresh retry_wait = true
is_fresh _ = false

-- One row: exactly a delivery that is being sent has a lease, and one that waits for its first
-- attempt or for a retry has attempts left.
pub record RowOk (row : Delivery) : Type 0 where
  pub positive : 1 ≤ row.max_attempts
  pub leased : is_sending row.status ≡ true → is_none row.lease_expires_at ≡ false
  pub free : is_sending row.status ≡ false → (row.lease_token ≡ "") × (row.lease_expires_at ≡ none)
  pub budget : is_fresh row.status ≡ true → row.attempts < row.max_attempts

-- No two rows have one id: the PRIMARY KEY.
abbrev pub UniqueIds : List Delivery → Type 0
UniqueIds [] = Unit
UniqueIds (row ∷ rows) = (any (has_id row.id) rows ≡ false) × UniqueIds rows

abbrev pub KeepsId : (Delivery → Delivery) → Type 0
KeepsId f = (row : Delivery) → (f row).id ≡ row.id

any-update_where :
    (i : String) (p : Delivery → Bool) (f : Delivery → Delivery) (rows : List Delivery)
    → KeepsId f
    → any (has_id i) (update_where p f rows) ≡ any (has_id i) rows
unfolding update_where
any-update_where i p f [] k = refl
any-update_where i p f (row ∷ rows) k = ground (arith, any-update_where i p f rows k, k row)

pub UniqueIds-update_where :
    (p : Delivery → Bool) (f : Delivery → Delivery) (rows : List Delivery)
    → KeepsId f
    → UniqueIds rows
    → UniqueIds (update_where p f rows)
unfolding update_where
UniqueIds-update_where p f [] k u = tt
UniqueIds-update_where p f (row ∷ rows) k u = (
  ground (arith, any-update_where row.id p f rows k, k row),
  UniqueIds-update_where p f rows k u.1,
)

pub UniqueIds-append :
    (rows : List Delivery) (row : Delivery)
    → UniqueIds rows
    → any (has_id row.id) rows ≡ false
    → UniqueIds (rows ++ row ∷ [])
UniqueIds-append [] row u h = (refl, tt)
UniqueIds-append (r ∷ rows) row u h = (
  any-append_not (has_id r.id) rows row u.0 (ground (arith, str_eq_comm r.id row.id)),
  UniqueIds-append rows row u.1 (ground arith),
)

clash : (r b : Delivery) → has_id r.id b ≡ false → r.id ≡ b.id → ⊥
clash r b h e = ground (arith, eq_iff b.id r.id)

-- A row is known by its id.
pub UniqueIds-In :
    (rows : List Delivery) (a b : Delivery)
    → UniqueIds rows
    → In a rows
    → In b rows
    → a.id ≡ b.id
    → a ≡ b
UniqueIds-In [] a b u i j e = absurd i
UniqueIds-In (r ∷ rows) a b u (inl x) (inl y) e = x ∙ sym y
UniqueIds-In (r ∷ rows) a b u (inl x) (inr j) e =
    absurd
      (clash r b (any-false (has_id r.id) rows b u.0 j) (ap (λ (d : Delivery). d.id) (sym x) ∙ e))
UniqueIds-In (r ∷ rows) a b u (inr i) (inl y) e =
    absurd (
      clash r a (any-false (has_id r.id) rows a u.0 i)
        (ap (λ (d : Delivery). d.id) (sym y) ∙ sym e))
UniqueIds-In (r ∷ rows) a b u (inr i) (inr j) e = UniqueIds-In rows a b u.1 i j e

-- A SELECT by id finds the row.
pub select_one-id :
    (rows : List Delivery) (a : Delivery)
    → UniqueIds rows
    → In a rows
    → select_one (has_id a.id) rows ≡ some a
unfolding select_one
select_one-id [] a u i = absurd i
select_one-id (x ∷ rows) a u (inl e) = ground (arith, str_eq_refl a.id)
select_one-id (x ∷ rows) a u (inr i) =
    ground (
      arith,
      any-false (has_id x.id) rows a u.0 i,
      str_eq_comm x.id a.id,
      select_one-id rows a u.1 i,
    )

-- The rows of the store as a whole.
pub record WellFormed (rows : List Delivery) : Type 0 where
  pub unique : UniqueIds rows
  pub each : (row : Delivery) → In row rows → RowOk row

pub WellFormed-update_where :
    (p : Delivery → Bool) (f : Delivery → Delivery) (rows : List Delivery)
    → KeepsId f
    → ((row : Delivery) → In row rows → p row ≡ true → RowOk (f row))
    → WellFormed rows
    → WellFormed (update_where p f rows)
WellFormed-update_where p f rows k g w = record {
  unique = UniqueIds-update_where p f rows k w.unique;
  each = λ row i. let (old, j, e) = In-update_where p f rows row i in pick row old j e;
}
  where
    pick : (row old : Delivery) → In old rows → row ≡ (if p old then f old else old) → RowOk row
    pick row old j e = elim (Bool-cases (p old)) [
      | inl y ↦ rw e (rw y (g old j y))
      | inr n ↦ rw e (rw n (w.each old j))
    ]

pub WellFormed-append :
    (rows : List Delivery) (row : Delivery)
    → WellFormed rows
    → any (has_id row.id) rows ≡ false
    → RowOk row
    → WellFormed (rows ++ row ∷ [])
WellFormed-append rows row w h r = record {
  unique = UniqueIds-append rows row w.unique h;
  each = λ x i. elim (In-append rows (row ∷ []) x i) [
    | inl j ↦ w.each x j
    | inr (inl e) ↦ rw e r
    | inr (inr z) ↦ absurd z
  ];
}

pub lease_row-RowOk :
    (w token : String) (expires now : ℕ) (row : Delivery)
    → RowOk row
    → RowOk (lease_row w token expires now row)
unfolding lease_row
lease_row-RowOk w token expires now row r = ground arith

pub defer_row-RowOk :
    (next : ℕ) (reason : String) (now : ℕ) (row : Delivery)
    → RowOk row
    → RowOk (defer_row next reason now row)
unfolding defer_row
defer_row-RowOk next reason now row r = ground arith

pub sent_row-RowOk :
    (r : ChannelDeliveryResult) (now : ℕ) (row : Delivery) → RowOk row → RowOk (sent_row r now row)
unfolding sent_row
sent_row-RowOk r now row k = ground arith

pub dead_row-RowOk :
    (r : ChannelDeliveryResult) (now : ℕ) (row : Delivery) → RowOk row → RowOk (dead_row r now row)
unfolding dead_row
dead_row-RowOk r now row k = ground arith

pub retry_row-RowOk :
    (r : ChannelDeliveryResult) (next now : ℕ) (row : Delivery)
    → RowOk row
    → row.attempts < row.max_attempts
    → RowOk (retry_row r next now row)
unfolding retry_row
retry_row-RowOk r next now row k h = ground arith

pub revive_row-RowOk : (now : ℕ) (row : Delivery) → RowOk row → RowOk (revive_row now row)
unfolding revive_row
revive_row-RowOk now row k = ground arith

pub new_delivery-RowOk : (e : Enqueue) (now : ℕ) → 1 ≤ e.max_attempts → RowOk (new_delivery e now)
unfolding new_delivery
new_delivery-RowOk e now h = ground arith
