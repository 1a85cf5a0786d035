-- ===== src/Delivery/Outbox/Requeue.antt =====
-- What the code does where the number of attempts is not looked at: a retry of a dead letter, and a
-- claim of an expired lease.
use zhixu.Prelude.{
  ℕ, zero, suc, ◌+◌, ◌*◌, ◌<◌, ◌⊎◌, inl, inr, ◌&&◌, Option, any, sym, subst, false, String, ◌≡◌,
  refl, ap, ◌∙◌, true, false, none, some, List, [], ◌∷◌, arith, eq_iff, str_eq, is_blank,
  str_eq_refl,
}
use zhixu.Prelude.Result.{Result, ok}
use zhixu.Channels.{OutboundMessage}
use zhixu.Prelude.Table.{In, select_one, select_where, update_where, update_where-In}
use zhixu.Domain.Time.{DateTime}
use zhixu.Delivery.Outbox.Tables.{
  Delivery, DeadLetter, Store, ClaimedDelivery, sending, has_id, audit, message_from_row,
}
use zhixu.Delivery.Outbox.Selection.{leased, take, claim_first-taken}
use zhixu.Delivery.Outbox.Claim.{
  Claim, claim, claim_first, claimed, on_account, no_accounts, can_claim, is_due, lease_row,
  first_row, may_lease,
}
use zhixu.Delivery.Outbox.Complete.{retry_dead, revive_row}
use zhixu.Delivery.Outbox.Calls.{Call, claims, run, step}
use zhixu.Delivery.Outbox.Rows.{UniqueIds}
use zhixu.Delivery.Outbox.Exclusion.{Held}

revived :
    (rows : List Delivery) (row : Delivery) (i : String) (now : ℕ)
    → In row rows
    → row.id ≡ i
    → In (revive_row now row) (update_where (has_id i) (revive_row now) rows)
revived rows row i now m h =
    rw ((eq_iff row.id i).1 h) at (update_where-In (has_id i) (revive_row now) rows row m)

-- A retry at an aware time looks at the dead letter and not at the delivery: whatever has become of
-- the delivery of that letter since, it is put back with no attempt counted and is due at once.
pub retry_dead_revives :
    (s : Store) (dead_id actor : String) (now : DateTime) (letter : DeadLetter) (row : Delivery)
    → select_one (λ d. str_eq d.id dead_id) s.dead_letters ≡ some letter
    → In row s.deliveries
    → row.id ≡ letter.delivery_id
    → now.aware ≡ true
    → (t : Store) × (again : Delivery) × (retry_dead s dead_id actor now ≡ ok (true, t))
      × In again t.deliveries
      × (again.id ≡ row.id)
      × (again.attempts ≡ 0)
      × (is_due now.instant again ≡ true)
unfolding retry_dead
retry_dead_revives s dead_id actor now letter row e i h a = (
  record s {
    deliveries = update_where (has_id letter.delivery_id) (revive_row now.instant) s.deliveries;
    dead_letters =
        update_where (λ d. str_eq d.id dead_id) (λ d. record d { retried_at = some now.instant })
          s.dead_letters;
    audit_events = audit s now.instant actor "retry" "dead_letter" dead_id;
  },
  revive_row now.instant row,
  rw e (ground arith),
  revived s.deliveries row letter.delivery_id now.instant i h,
  unfold revive_row in refl,
  unfold revive_row in refl,
  unfold revive_row is_due in ground arith,
)

-- The claims of a worker that never completes: each at the end of the lease before.
pub expiring : ℕ → Claim → ℕ → List Call
expiring zero c e = []
expiring (suc n) c e =
    claims c (record { instant = e; aware = true }) ∷ expiring n c (e + c.lease_for)

-- The claim is for the account of the row, or for all accounts.
abbrev pub Serves : Claim → Delivery → Type 0
Serves c row =
    (c.accounts ≡ none)
    ⊎ ((accounts : List (String × String)) × (c.accounts ≡ some accounts)
        × In (row.channel, row.channel_account) accounts)

-- A delivery is handed to the worker: it is the row, with one attempt more.
abbrev pub Hands : Result (Option ClaimedDelivery) → Delivery → ℕ → Type 0
Hands answer row attempts =
    (d : ClaimedDelivery) × (answer ≡ ok (some d)) × (d.id ≡ row.id) × (d.attempts ≡ attempts)

among :
    (accounts : List (String × String)) (channel account : String)
    → In (channel, account) accounts
    → any (λ (a : String × String). str_eq a.0 channel && str_eq a.1 account) accounts ≡ true
among [] channel account i = absurd i
among (a ∷ accounts) channel account (inl e) =
    let first : a.0 ≡ channel = sym (ap (λ (p : String × String). p.0) e) in
    let second : a.1 ≡ account = sym (ap (λ (p : String × String). p.1) e) in
    rw first (rw second (rw (str_eq_refl channel) (rw (str_eq_refl account) refl)))
among (a ∷ accounts) channel account (inr i) = ground (arith, among accounts channel account i)

module _ (c : Claim) (row : Delivery) where
  Serves-on_account : Serves c row → on_account c.accounts row ≡ true
  Serves-on_account (inl e) = rw e refl
  Serves-on_account (inr (accounts, e, i)) = rw e (among accounts row.channel row.channel_account i)

  Serves-some_account : Serves c row → no_accounts c.accounts ≡ false
  Serves-some_account (inl e) = rw e refl
  Serves-some_account (inr ([], e, i)) = absurd i
  Serves-some_account (inr (a ∷ accounts, e, i)) = rw e refl

  -- A lease leaves the account and the message of a row as they are.
  leased-Serves : (e : ℕ) → Serves c row → Serves c (leased c e row)
  unfolding lease_row
  leased-Serves e serves = serves

  leased-message : (e : ℕ) → message_from_row (leased c e row) ≡ message_from_row row
  unfolding lease_row message_from_row
  leased-message e = refl

module _ (s : Store) (c : Claim) (row : Delivery) (e : ℕ) (d : s.deliveries ≡ row ∷ [])
    (k : Held row e) (a : Serves c row) where
  only_row : select_where (can_claim e c.accounts) s.deliveries ≡ row ∷ []
  unfolding select_where can_claim is_due
  only_row = rw d (rw (Serves-on_account c row a) (rw (k.status, k.expires) (ground arith)))

  unique : UniqueIds s.deliveries
  unique = rw d (refl, tt)

  taken : claim_first s c e ≡ (claimed c (e + c.lease_for) (leased c e row), take s c e row)
  unfolding first_row
  taken = claim_first-taken s c e unique row (rw only_row)

  reclaimed : (claim_first s c e).1.deliveries ≡ leased c e row ∷ []
  unfolding update_where may_lease
  reclaimed = rw taken (rw d (ground (arith, str_eq_refl row.id)))

  claim-first :
      is_blank c.worker_id ≡ false
      → 0 < c.lease_for
      → claim s c (record { instant = e; aware = true }) ≡ claim_first s c e
  unfolding claim
  claim-first b l = ground (arith, Serves-some_account c row a)

  claim-Hands :
      {m : OutboundMessage}
      → is_blank c.worker_id ≡ false
      → 0 < c.lease_for
      → message_from_row row ≡ ok m
      → Hands (claim s c (record { instant = e; aware = true })).0 row (row.attempts + 1)
  unfolding claimed lease_row
  claim-Hands {m} b l reads =
      let message = leased-message c row e ∙ reads in
      rw (claim-first b l) (
        rw taken (
          rw message (
            record {
              id = row.id;
              owner_user_id = row.owner_user_id;
              idempotency_key = row.idempotency_key;
              message = m;
              priority = row.priority;
              attempts = row.attempts + 1;
              max_attempts = row.max_attempts;
              lease_token = c.token;
              lease_expires_at = e + c.lease_for;
            },
            refl,
            refl,
            refl,
          )))

-- A worker that serves the account of the one delivery of a store, whose message can be read and which is
-- under lease until `e`, takes it whenever its lease has run out and never completes it. It is given it
-- every time: after n such claims the attempts have grown by n, whatever `max_attempts` is, the delivery
-- is still being sent, and the next such claim hands it out again.
pub expiring-attempts :
    (n : ℕ) (s : Store) (c : Claim) (row : Delivery) (e : ℕ) {m : OutboundMessage}
    → s.deliveries ≡ row ∷ []
    → Held row e
    → is_blank c.worker_id ≡ false
    → 0 < c.lease_for
    → Serves c row
    → message_from_row row ≡ ok m
    → (x : Delivery) × ((run s (expiring n c e)).deliveries ≡ x ∷ [])
      × (x.id ≡ row.id)
      × (x.status ≡ sending)
      × (x.attempts ≡ row.attempts + n)
      × (x.max_attempts ≡ row.max_attempts)
      × Hands
          (claim
            (run s (expiring n c e))
            c
            (record { instant = e + n * c.lease_for; aware = true })).0
          row
          (row.attempts + n + 1)
unfolding run expiring step lease_row
expiring-attempts zero s c row e d k b l a reads =
    let now : e ≡ e + zero * c.lease_for = ground arith in
    let count : row.attempts + 1 ≡ row.attempts + zero + 1 = omega arith in
    let hands = claim-Hands s c row e d k a b l reads in
    (
      row,
      d,
      refl,
      k.status,
      omega arith,
      refl,
      subst
          (λ z.
            Hands (claim s c (record { instant = z; aware = true })).0 row
              (row.attempts + zero + 1))
          now
          (subst (λ z. Hands (claim s c (record { instant = e; aware = true })).0 row z) count
            hands),
    )
expiring-attempts (suc n) s c row e d k b l a reads =
    let next =
      ap (λ (z : Result (Option ClaimedDelivery) × Store). z.1) (claim-first s c row e d k a b l) in
    let t = (claim s c (record { instant = e; aware = true })).1 in
    let (x, p, q, r, u, v, w) =
      expiring-attempts n t c (leased c e row) (e + c.lease_for)
        (ap (λ (z : Store). z.deliveries) next ∙ reclaimed s c row e d k a)
        (record { status = refl; expires = refl }) b l (leased-Serves c row e a)
        (leased-message c row e ∙ reads) in
    let later : e + c.lease_for + n * c.lease_for ≡ e + suc n * c.lease_for = ground arith in
    let count : row.attempts + 1 + n + 1 ≡ row.attempts + suc n + 1 = omega arith in
    (
      x,
      p,
      q,
      r,
      u ∙ omega arith,
      v,
      subst
          (λ z.
            Hands
              (claim (run t (expiring n c (e + c.lease_for))) c
                (record { instant = z; aware = true })).0
              row (row.attempts + suc n + 1))
          later
          (subst
            (λ z.
              Hands
                (claim (run t (expiring n c (e + c.lease_for))) c
                  (record { instant = e + c.lease_for + n * c.lease_for; aware = true })).0
                row z)
            count w),
    )
