-- ===== src/Delivery/Outbox/Outcome.antt =====
-- What the completion of a delivery does, and that a lease is good for one completion.
use zhixu.Prelude.{
  ℕ, zero, suc, ◌+◌, ◌-◌, ◌*◌, ◌≤◌, ◌<◌, ◌⊎◌, length, prefix, String, ◌≡◌, refl, ap, ◌∙◌, ◌≢◌, inl,
  inr, true, false, ◌&&◌, ◌||◌, none, some, List, [], ◌∷◌, ◌++◌, arith, eq_iff, ltb, Bool-cases,
  Option-cases, str_eq, str_eq_refl,
}
use zhixu.Prelude.Result.{ok, err, conflict}
use zhixu.Prelude.Table.{
  In, select_one, update_where, count_where, delete_where, select_one-some, select_one-none,
  update_where-In, In-update_where,
}
use zhixu.Domain.Time.{DateTime, second}
use zhixu.Channels.{ChannelDeliveryResult}
use zhixu.Delivery.Outbox.Tables.{
  Delivery, DeliveryStatus, Store, DeadLetter, ClaimedDelivery, dead, has_id, sent, retry_wait,
}
use zhixu.Delivery.Outbox.Claim.{defer_for_quota, owns_lease, is_sending}
use zhixu.Delivery.Outbox.Complete.{
  complete, finish, sent_row, retry_row, dead_row, backoff, dead_letter, replace_letter,
}
use zhixu.Delivery.Outbox.Rows.{UniqueIds, UniqueIds-In}

-- No row of the list owns the lease.
abbrev pub NotOwned : String → String → List Delivery → Type 0
NotOwned i token rows = (x : Delivery) → In x rows → owns_lease i token x ≡ false

select-nothing :
    (i token : String) (rows : List Delivery)
    → NotOwned i token rows
    → select_one (owns_lease i token) rows ≡ none
select-nothing i token rows k = elim (Option-cases (select_one (owns_lease i token) rows)) [
  | inl e ↦ e
  | inr (x, e) ↦
      let (m, o) = select_one-some (owns_lease i token) rows x e in absurd (cc (k x m, o))
]

-- After the rows of one id have left `sending`, nobody owns a lease on it.
released :
    (i token : String) (f : Delivery → Delivery) (rows : List Delivery)
    → ((x : Delivery) → is_sending (f x).status ≡ false)
    → NotOwned i token (update_where (has_id i) f rows)
released i token f rows k x m =
    let (old, j, e) = In-update_where (has_id i) f rows x m in
    elim (Bool-cases (has_id i old)) [ inl y ↦ ground (arith, k old) | inr n ↦ ground arith ]

pub finish-released :
    (s : Store) (row : Delivery) (i token : String) (r : ChannelDeliveryResult) (now : ℕ)
    → NotOwned i token (finish s row i r now).1.deliveries
unfolding finish
finish-released s row i token r now x m = ground (
  arith,
  released i token (sent_row r now) s.deliveries (λ y. unfold sent_row in refl) x,
  released i token (dead_row r now) s.deliveries (λ y. unfold dead_row in refl) x,
  released i token (retry_row r (now + backoff s.backoff_seconds (row.attempts - 1) * second) now)
      s.deliveries (λ y. unfold retry_row in refl) x,
)

pub complete-finish :
    (s t : Store) (c : ClaimedDelivery) (r : ChannelDeliveryResult) (now : DateTime)
    (st : DeliveryStatus)
    → complete s c r now ≡ ok (st, t)
    → (row : Delivery) × (select_one (owns_lease c.id c.lease_token) s.deliveries ≡ some row)
      × ((st, t) ≡ finish s row c.id r now.instant)
unfolding complete
complete-finish s t c r now st h =
    elim (Option-cases (select_one (owns_lease c.id c.lease_token) s.deliveries)) [
      | inl e ↦ absurd (ground arith)
      | inr (row, e) ↦ (row, e, ground arith)
    ]

count-nothing :
    (i token : String) (rows : List Delivery)
    → NotOwned i token rows
    → count_where (owns_lease i token) rows ≡ 0
unfolding count_where
count-nothing i token [] k = refl
count-nothing i token (x ∷ rows) k =
    ground (arith, k x (inl refl), count-nothing i token rows (λ y m. k y (inr m)))

-- A lease is good for one completion: after it, a further completion or deferral under the same
-- claim, with times that are aware, is refused with a conflict.
pub complete_once :
    (s t : Store) (c : ClaimedDelivery) (r again : ChannelDeliveryResult)
    (now later next : DateTime) (reason : String) (st : DeliveryStatus)
    → complete s c r now ≡ ok (st, t)
    → later.aware ≡ true
    → next.aware ≡ true
    → (complete t c again later ≡ err conflict)
      × (defer_for_quota t c next later reason ≡ err conflict)
unfolding complete defer_for_quota
complete_once s t c r again now later next reason st h a b =
    let (row, e, f) = complete-finish s t c r now st h in
    let free : NotOwned c.id c.lease_token t.deliveries =
      rw (ap (λ (p : DeliveryStatus × Store). p.1.deliveries) f)
        (finish-released s row c.id c.lease_token r now.instant) in
    let nobody = select-nothing c.id c.lease_token t.deliveries free in
    let none_counted = count-nothing c.id c.lease_token t.deliveries free in ground arith

-- The delay at an index: the entry there, or the last one past the end.
pub data IsDelay (delays : List ℕ) (i d : ℕ) : Type 0 where
  listed :
      (front back : List ℕ) → delays ≡ front ++ d ∷ back → length front ≡ i → IsDelay delays i d
  past_end : (front : List ℕ) → delays ≡ front ++ d ∷ [] → length front ≤ i → IsDelay delays i d

backoff-IsDelay : (delays : List ℕ) (i : ℕ) → delays ≢ [] → IsDelay delays i (backoff delays i)
unfolding backoff
backoff-IsDelay [] i n = absurd (n refl)
backoff-IsDelay (d ∷ []) i n = past_end [] refl (ground arith)
backoff-IsDelay (d ∷ (e ∷ ds)) zero n = listed [] (e ∷ ds) refl refl
backoff-IsDelay (d ∷ (e ∷ ds)) (suc i) n =
    elim (backoff-IsDelay (e ∷ ds) i (λ q. ground (arith, q))) [
      | listed front back p q ↦ listed (d ∷ front) back (ap (λ l. d ∷ l) p) (ground (arith, q))
      | past_end front p q ↦ past_end (d ∷ front) (ap (λ l. d ∷ l) p) (ground (arith, q))
    ]

-- What has become of the delivery of a row when it was completed with a result.
pub record Completed (delays : List ℕ) (r : ChannelDeliveryResult) (now : ℕ) (row : Delivery)
    (st : DeliveryStatus) (t : Store) : Type 0 where
  pub after : Delivery
  pub stored : In after t.deliveries
  pub status : after.status ≡ st
  pub same :
      (after.id ≡ row.id)
      × (after.idempotency_key ≡ row.idempotency_key)
      × (after.payload ≡ row.payload)
      × (after.attempts ≡ row.attempts)
      × (after.max_attempts ≡ row.max_attempts)
  pub released : (after.lease_token ≡ "") × (after.lease_expires_at ≡ none)
  pub succeeded :
      r.ok ≡ true
      → (st ≡ sent)
        × (after.last_error_code ≡ "")
        × (after.provider_message_id ≡ prefix 160 r.provider_message_id)
  pub retried :
      r.ok ≡ false
      → r.retryable ≡ true
      → row.attempts < row.max_attempts
      → (st ≡ retry_wait)
        × (after.last_error_code ≡ prefix 80 r.provider_code)
        × (d : ℕ) × IsDelay delays (row.attempts - 1) d
        × (after.next_attempt_at ≡ now + d * 1_000_000)
  pub died :
      r.ok ≡ false
      → (r.retryable ≡ false) ⊎ (row.max_attempts ≤ row.attempts)
      → (st ≡ dead)
        × (after.last_error_code ≡ prefix 80 r.provider_code)
        × (l : DeadLetter) × In l t.dead_letters
        × (l.delivery_id ≡ row.id)
        × (l.reason_code ≡ prefix 80 r.provider_code)
        × (l.retried_at ≡ none)

In-last : (letters : List DeadLetter) (d : DeadLetter) → In d (letters ++ d ∷ [])
In-last [] d = inl refl
In-last (x ∷ letters) d = inr (In-last letters d)

In-replace_letter : (d : DeadLetter) (letters : List DeadLetter) → In d (replace_letter d letters)
unfolding replace_letter
In-replace_letter d letters =
    In-last (delete_where (λ e. str_eq e.id d.id || str_eq e.delivery_id d.delivery_id) letters) d

module _ (s : Store) (row : Delivery) (r : ChannelDeliveryResult) (now : ℕ) where
  stored_row :
      (g : Delivery → Delivery)
      → In row s.deliveries
      → In (g row) (update_where (has_id row.id) g s.deliveries)
  stored_row g i = rw (str_eq_refl row.id) at (update_where-In (has_id row.id) g s.deliveries row i)

  finish-Completed :
      In row s.deliveries
      → s.backoff_seconds ≢ []
      → Completed s.backoff_seconds r now row
          (finish s row row.id r now).0
          (finish s row row.id r now).1
  unfolding finish sent_row retry_row dead_row dead_letter replace_letter
  finish-Completed i delays = elim (Bool-cases r.ok) [
    | inl y ↦ rw y (record {
      after = sent_row r now row;
      stored = stored_row (sent_row r now) i;
      status = refl;
      same = (refl, refl, refl, refl, refl);
      released = (refl, refl);
      succeeded = λ _. (refl, refl, refl);
      retried = λ n. absurd (cc (y, n));
      died = λ n. absurd (cc (y, n));
    })
    | inr n ↦ elim (Bool-cases (r.retryable && ltb row.attempts row.max_attempts)) [
      | inl y ↦
          let delay = backoff s.backoff_seconds (row.attempts - 1) in
          rw (n, y)
            (record {
              after = retry_row r (now + delay * second) now row;
              stored = stored_row (retry_row r (now + delay * second) now) i;
              status = refl;
              same = (refl, refl, refl, refl, refl);
              released = (refl, refl);
              succeeded = λ y. absurd (cc (y, n));
              retried = λ _ _ _. (
                refl,
                refl,
                delay,
                backoff-IsDelay s.backoff_seconds (row.attempts - 1) delays,
                refl,
              );
              died = λ _ over. absurd (ground (arith, y, over));
            })
      | inr m ↦
          rw (n, m)
            (record {
              after = dead_row r now row;
              stored = stored_row (dead_row r now) i;
              status = refl;
              same = (refl, refl, refl, refl, refl);
              released = (refl, refl);
              succeeded = λ y. absurd (cc (y, n));
              retried = λ _ again left. absurd (ground (arith, m, again, left));
              died = λ _ _. (
                refl,
                refl,
                dead_letter row.id r now,
                In-replace_letter (dead_letter row.id r now) s.dead_letters,
                refl,
                refl,
                refl,
              );
            })
    ]
  ]

  finish-other :
      (other : Delivery)
      → In other s.deliveries
      → other.id ≢ row.id
      → In other (finish s row row.id r now).1.deliveries
  unfolding finish
  finish-other other i n =
      let f = λ (g : Delivery → Delivery). update_where-In (has_id row.id) g s.deliveries other i in
      ground (
        arith,
        eq_iff other.id row.id,
        f (sent_row r now),
        f (dead_row r now),
        f (retry_row r (now + backoff s.backoff_seconds (row.attempts - 1) * second) now),
      )

holder :
    (s : Store) (i token : String) (row : Delivery)
    → UniqueIds s.deliveries
    → In row s.deliveries
    → owns_lease i token row ≡ true
    → select_one (owns_lease i token) s.deliveries ≡ some row
holder s i token row u m h = elim (Option-cases (select_one (owns_lease i token) s.deliveries)) [
  | inl e ↦ absurd (cc (select_one-none (owns_lease i token) s.deliveries row e m, h))
  | inr (x, e) ↦
      let (n, o) = select_one-some (owns_lease i token) s.deliveries x e in
      e
      ∙ ap some
          (UniqueIds-In s.deliveries x row u n m (ground (arith, eq_iff x.id i, eq_iff row.id i)))
]

pub complete-succeeds :
    (s : Store) (c : ClaimedDelivery) (r : ChannelDeliveryResult) (now : DateTime) (row : Delivery)
    → UniqueIds s.deliveries
    → In row s.deliveries
    → owns_lease c.id c.lease_token row ≡ true
    → now.aware ≡ true
    → (st : DeliveryStatus) × (t : Store) × (complete s c r now ≡ ok (st, t))
unfolding complete
complete-succeeds s c r now row u i h a =
    let held = holder s c.id c.lease_token row u i h in
    ((finish s row c.id r now.instant).0, (finish s row c.id r now.instant).1, ground arith)

-- Where ids are unique and there is a delay, a completion by the holder of the lease, at an aware time,
-- succeeds and releases the lease. The delivery is sent; or, if the failure is retryable and attempts
-- are left, it waits for the next one as long as the delay for this attempt says, the last delay when
-- there is none; or it is dead, with a dead letter that names the reason. What it says, its attempts
-- and every other row are left alone.
pub complete-outcome :
    (s : Store) (c : ClaimedDelivery) (r : ChannelDeliveryResult) (now : DateTime) (row : Delivery)
    → UniqueIds s.deliveries
    → s.backoff_seconds ≢ []
    → In row s.deliveries
    → owns_lease c.id c.lease_token row ≡ true
    → now.aware ≡ true
    → (st : DeliveryStatus) × (t : Store) × (complete s c r now ≡ ok (st, t))
      × Completed s.backoff_seconds r now.instant row st t
      × ((other : Delivery) → In other s.deliveries → other.id ≢ row.id → In other t.deliveries)
unfolding complete
complete-outcome s c r now row u delays i h a =
    let held = holder s c.id c.lease_token row u i h in
    let same : row.id ≡ c.id = ground (arith, eq_iff row.id c.id) in
    (
      (finish s row row.id r now.instant).0,
      (finish s row row.id r now.instant).1,
      ground arith,
      finish-Completed s row r now.instant i delays,
      finish-other s row r now.instant,
    )
