-- ===== src/Delivery/Outbox/Claim.antt =====
-- `OutboxStore.claim` and `defer_for_quota` of src/zhixu/delivery/outbox.py: a worker takes the first
-- delivery that is due under a lease, or gives it back. The token that `secrets.token_urlsafe` draws
-- is an argument.
use zhixu.Prelude.{
  ℕ, ◌+◌, ◌-◌, String, Bool, true, false, not, ◌&&◌, ◌||◌, Option, none, some, List, [], ◌∷◌, ltb,
  leb, ◌==◌, if◌then◌else◌, any, str_eq, is_blank, prefix, str_leb,
}
use zhixu.Prelude.Result.{
  Result, ok, err, ◌>>=◌, ◌>>◌, raise_if, validation_error, conflict, assertion_error,
}
use zhixu.Prelude.Table.{select_where, select_one, update_where, count_where}
use zhixu.Domain.Time.{DateTime, require_aware}
use zhixu.Delivery.Outbox.Tables.{
  Delivery, DeliveryStatus, Store, ClaimedDelivery, pending, retry_wait, quota_wait, sending,
  has_id, message_from_row,
}

-- `status IN ('pending','retry_wait','quota_wait')`
abbrev pub is_waiting : DeliveryStatus → Bool
is_waiting pending = true
is_waiting retry_wait = true
is_waiting quota_wait = true
is_waiting _ = false

abbrev pub is_sending : DeliveryStatus → Bool
is_sending sending = true
is_sending _ = false

-- `lease_expires_at IS NOT NULL AND lease_expires_at<=?`; a comparison with NULL is not true.
abbrev pub lease_over : ℕ → Option ℕ → Bool
lease_over now none = false
lease_over now (some t) = leb t now

-- `(channel,channel_account) IN (…)`, where accounts were given.
abbrev pub on_account : Option (List (String × String)) → Delivery → Bool
on_account none row = true
on_account (some accounts) row =
    any (λ (a : String × String). str_eq a.0 row.channel && str_eq a.1 row.channel_account) accounts

-- The WHERE of the SELECT, without and with the accounts.
unfoldable pub is_due : ℕ → Delivery → Bool
is_due now row =
    (is_waiting row.status && leb row.next_attempt_at now)
    || (is_sending row.status && lease_over now row.lease_expires_at)

unfoldable pub can_claim : ℕ → Option (List (String × String)) → Delivery → Bool
unfolding is_due
can_claim now accounts row = is_due now row && on_account accounts row

-- `ORDER BY priority,created_at,id`
unfoldable pub row_leb : Delivery → Delivery → Bool
row_leb r s =
    ltb r.priority s.priority
    || ((r.priority == s.priority)
        && (ltb r.created_at s.created_at || ((r.created_at == s.created_at) && str_leb r.id s.id)))

unfoldable pub least : Delivery → List Delivery → Delivery
unfolding row_leb
least r [] = r
least r (s ∷ ss) = least (if row_leb r s then r else s) ss

-- `LIMIT 1` of the ordered rows.
unfoldable pub first_row : List Delivery → Option Delivery
unfolding least
first_row [] = none
first_row (r ∷ rs) = some (least r rs)

unfoldable pub lease_row : String → String → ℕ → ℕ → Delivery → Delivery
lease_row worker token expires now row = record row {
  status = sending;
  attempts = row.attempts + 1;
  lease_owner = worker;
  lease_token = token;
  lease_expires_at = some expires;
  updated_at = now;
}

-- The WHERE of the UPDATE that takes the lease.
unfoldable pub may_lease : String → ℕ → Delivery → Bool
may_lease i now row =
    has_id i row
    && (is_waiting row.status || (is_sending row.status && lease_over now row.lease_expires_at))

-- The arguments of `claim`, but the time, with the token that is drawn.
pub record Claim : Type 0 where
  pub worker_id : String
  pub lease_for : ℕ
  pub accounts : Option (List (String × String))
  pub token : String

abbrev pub no_accounts : Option (List (String × String)) → Bool
no_accounts (some []) = true
no_accounts _ = false

-- What is handed to the worker: the row as it now stands, under the token that was drawn.
unfoldable pub claimed : Claim → ℕ → Delivery → Result (Option ClaimedDelivery)
claimed c expires row = do
  message ← message_from_row row
  ok (
      some (record {
        id = row.id;
        owner_user_id = row.owner_user_id;
        idempotency_key = row.idempotency_key;
        message = message;
        priority = row.priority;
        attempts = row.attempts;
        max_attempts = row.max_attempts;
        lease_token = c.token;
        lease_expires_at = expires;
      }))

-- The UPDATE and the SELECT after it, for the row that was chosen. The transaction is committed
-- before the message is read, so the lease stays if the message cannot be read.
unfoldable pub take_row : Store → Claim → ℕ → Delivery → Result (Option ClaimedDelivery) × Store
unfolding may_lease lease_row claimed
take_row s c now row =
    let expires : ℕ = now + c.lease_for in
    let rows =
      update_where (may_lease row.id now) (lease_row c.worker_id c.token expires now)
        s.deliveries in
    if not (count_where (may_lease row.id now) s.deliveries == 1) then (ok none, s) else (
      elim (select_one (has_id row.id) rows) [
        | none ↦ err assertion_error
        | some refreshed ↦ claimed c expires refreshed
      ],
      record s { deliveries = rows },
    )

-- The transaction of `claim`.
unfoldable pub claim_first : Store → Claim → ℕ → Result (Option ClaimedDelivery) × Store
unfolding take_row first_row can_claim
claim_first s c now = elim (first_row (select_where (can_claim now c.accounts) s.deliveries)) [
  | none ↦ (ok none, s)
  | some row ↦ take_row s c now row
]

-- `OutboxStore.claim`
unfoldable pub claim : Store → Claim → DateTime → Result (Option ClaimedDelivery) × Store
unfolding claim_first
claim s c now =
    if not now.aware || (is_blank c.worker_id || (c.lease_for == 0))
    then (err validation_error, s)
    else if no_accounts c.accounts
    then (ok none, s)
    else claim_first s c now.instant

-- `WHERE id=? AND status='sending' AND lease_token=?`
abbrev pub owns_lease : String → String → Delivery → Bool
owns_lease i token row = has_id i row && (is_sending row.status && str_eq row.lease_token token)

unfoldable pub defer_row : ℕ → String → ℕ → Delivery → Delivery
defer_row next reason now row = record row {
  status = quota_wait;
  attempts = row.attempts - 1;
  next_attempt_at = next;
  last_error_code = prefix 80 reason;
  lease_owner = "";
  lease_token = "";
  lease_expires_at = none;
  updated_at = now;
}

-- `OutboxStore.defer_for_quota`
unfoldable pub defer_for_quota :
    Store → ClaimedDelivery → DateTime → DateTime → String → Result Store
unfolding require_aware defer_row
defer_for_quota s c next_attempt_at now reason_code = do
  require_aware next_attempt_at
  require_aware now
  raise_if (not (count_where (owns_lease c.id c.lease_token) s.deliveries == 1)) conflict
  ok (record s {
    deliveries =
        update_where (owns_lease c.id c.lease_token)
          (defer_row next_attempt_at.instant reason_code now.instant) s.deliveries;
  })
