-- ===== src/Delivery/Outbox/Idempotency.antt =====
-- One idempotency key, one delivery; and no delivery is lost or altered on its way.
use zhixu.Prelude.{
  ◌≤◌, String, ◌≡◌, refl, ◌∙◌, Bool, true, false, List, [], ◌∷◌, ◌++◌, arith, if◌then◌else◌, any,
  str_eq, str_eq_comm, str_eq_refl,
}
use zhixu.Prelude.Result.{ok}
use zhixu.Prelude.Table.{
  In, update_where, any-append_not, any-append_last, In-append_left, update_where-In,
}
use zhixu.Domain.Time.{DateTime}
use zhixu.Delivery.Outbox.Tables.{Delivery, Store, collides}
use zhixu.Delivery.Outbox.Enqueue.{Enqueue, enqueue, new_delivery}
use zhixu.Delivery.Outbox.Effect.{
  Effect, same, added, updated, SameDelivery, SameDelivery-refl, SameDelivery-trans, step-Effect,
}
use zhixu.Delivery.Outbox.Calls.{Call, step, run}

abbrev pub has_key : String → Delivery → Bool
has_key key row = str_eq row.idempotency_key key

any-key-update_where :
    (key : String) (p : Delivery → Bool) (f : Delivery → Delivery) (rows : List Delivery)
    → ((row : Delivery) → SameDelivery row (f row))
    → any (has_key key) (update_where p f rows) ≡ any (has_key key) rows
unfolding update_where
any-key-update_where key p f [] k = refl
any-key-update_where key p f (row ∷ rows) k =
    ground (arith, any-key-update_where key p f rows k, (k row).key)

any-append_left :
    (p : Delivery → Bool) (rows more : List Delivery)
    → any p rows ≡ true
    → any p (rows ++ more) ≡ true
any-append_left p [] more h = cc
any-append_left p (x ∷ rows) more h = ground (arith, any-append_left p rows more)

any-key-collides :
    (i key : String) (rows : List Delivery)
    → any (has_key key) rows ≡ true
    → any (collides i key) rows ≡ true
any-key-collides i key [] h = h
any-key-collides i key (row ∷ rows) h = ground (arith, any-key-collides i key rows)

collides-any-key :
    (i key : String) (rows : List Delivery)
    → any (collides i key) rows ≡ false
    → any (has_key key) rows ≡ false
collides-any-key i key [] h = refl
collides-any-key i key (row ∷ rows) h = ground (arith, collides-any-key i key rows)

Effect-known :
    (key : String) {rows next : List Delivery}
    → Effect rows next
    → any (has_key key) rows ≡ true
    → any (has_key key) next ≡ true
Effect-known key same h = h
Effect-known key {rows} (added e now free) h =
    any-append_left (has_key key) rows (new_delivery e now ∷ []) h
Effect-known key {rows} (updated p f k) h = any-key-update_where key p f rows k ∙ h

run-known :
    (key : String) (s : Store) (cs : List Call)
    → any (has_key key) s.deliveries ≡ true
    → any (has_key key) (run s cs).deliveries ≡ true
unfolding run
run-known key s [] h = h
run-known key s (c ∷ cs) h = run-known key (step s c) cs (Effect-known key (step-Effect s c) h)

enqueue-known :
    (s t : Store) (e : Enqueue) (now : DateTime)
    → enqueue s e now ≡ ok (true, t)
    → any (has_key e.idempotency_key) t.deliveries ≡ true
unfolding enqueue
enqueue-known s t e now h = ground (
  arith,
  any-append_last (has_key e.idempotency_key) s.deliveries (new_delivery e now.instant),
  str_eq_refl e.idempotency_key,
)

-- After a message was accepted under a key, and whatever calls come in between, a request under that
-- key, with at least one attempt and an aware time, is answered with False and changes nothing.
pub enqueue_again :
    (s t : Store) (e f : Enqueue) (now later : DateTime) (cs : List Call)
    → enqueue s e now ≡ ok (true, t)
    → f.idempotency_key ≡ e.idempotency_key
    → 1 ≤ f.max_attempts
    → later.aware ≡ true
    → enqueue (run t cs) f later ≡ ok (false, run t cs)
unfolding enqueue
enqueue_again s t e f now later cs h k m a = ground (
  arith,
  enqueue-known s t e now h,
  run-known e.idempotency_key t cs,
  any-key-collides f.delivery_id f.idempotency_key (run t cs).deliveries,
)

-- No two rows have one key: the UNIQUE column.
abbrev pub UniqueKeys : List Delivery → Type 0
UniqueKeys [] = Unit
UniqueKeys (row ∷ rows) = (any (has_key row.idempotency_key) rows ≡ false) × UniqueKeys rows

UniqueKeys-append :
    (rows : List Delivery) (row : Delivery)
    → UniqueKeys rows
    → any (has_key row.idempotency_key) rows ≡ false
    → UniqueKeys (rows ++ row ∷ [])
UniqueKeys-append [] row u h = (refl, tt)
UniqueKeys-append (r ∷ rows) row u h = (
  any-append_not (has_key r.idempotency_key) rows row u.0
      (ground (arith, str_eq_comm r.idempotency_key row.idempotency_key)),
  UniqueKeys-append rows row u.1 (ground arith),
)

UniqueKeys-update_where :
    (p : Delivery → Bool) (f : Delivery → Delivery) (rows : List Delivery)
    → ((row : Delivery) → SameDelivery row (f row))
    → UniqueKeys rows
    → UniqueKeys (update_where p f rows)
unfolding update_where
UniqueKeys-update_where p f [] k u = tt
UniqueKeys-update_where p f (row ∷ rows) k u = (
  ground (arith, any-key-update_where row.idempotency_key p f rows k, (k row).key),
  UniqueKeys-update_where p f rows k u.1,
)

Effect-UniqueKeys :
    {rows next : List Delivery} → Effect rows next → UniqueKeys rows → UniqueKeys next
Effect-UniqueKeys same u = u
Effect-UniqueKeys {rows} (added e now free) u =
    UniqueKeys-append rows (new_delivery e now) u
      (unfold new_delivery in collides-any-key e.delivery_id e.idempotency_key rows free)
Effect-UniqueKeys {rows} (updated p f k) u = UniqueKeys-update_where p f rows k u

-- A store in which no two deliveries share an idempotency key stays so through any calls.
pub run-UniqueKeys :
    (s : Store) (cs : List Call) → UniqueKeys s.deliveries → UniqueKeys (run s cs).deliveries
unfolding run
run-UniqueKeys s [] u = u
run-UniqueKeys s (c ∷ cs) u = run-UniqueKeys (step s c) cs (Effect-UniqueKeys (step-Effect s c) u)

-- The delivery is still in the rows, at whatever stage.
abbrev pub Survives : Delivery → List Delivery → Type 0
Survives row rows = (now_row : Delivery) × In now_row rows × SameDelivery row now_row

Effect-Survives :
    (row : Delivery) {rows next : List Delivery}
    → Effect rows next
    → In row rows
    → Survives row next
Effect-Survives row same i = (row, i, SameDelivery-refl row)
Effect-Survives row {rows} (added e now free) i =
    (row, In-append_left rows (new_delivery e now ∷ []) row i, SameDelivery-refl row)
Effect-Survives row {rows} (updated p f k) i =
    ((if p row then f row else row), update_where-In p f rows row i, pick (p row))
  where
    pick : (b : Bool) → SameDelivery row (if b then f row else row)
    pick true = k row
    pick false = SameDelivery-refl row

-- No call loses a delivery, or changes whom it is for, what it says, how secret it is or how often
-- it may be tried.
pub run-Survives :
    (s : Store) (cs : List Call) (row : Delivery)
    → In row s.deliveries
    → Survives row (run s cs).deliveries
unfolding run
run-Survives s [] row i = (row, i, SameDelivery-refl row)
run-Survives s (c ∷ cs) row i =
    let (mid, j, h) = Effect-Survives row (step-Effect s c) i in
    let (end, k, g) = run-Survives (step s c) cs mid j in
    (end, k, SameDelivery-trans row mid end h g)
