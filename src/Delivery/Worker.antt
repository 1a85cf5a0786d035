-- ===== src/Delivery/Worker.antt =====
-- src/zhixu/delivery/worker.py: `DeliveryWorker`, one step from the queue over the quotas to the
-- channel. What an adapter's `send` answers or raises is a parameter.
pub mod Settle
pub mod Raise
use zhixu.Prelude.{
  ℕ, zero, suc, ◌+◌, ◌-◌, ◌*◌, ◌/◌, ◌%◌, ◌≤◌, ◌<◌, max, String, ◌≡◌, refl, sym, ap, ◌∙◌, ◌≢◌, ◌⊎◌,
  inl, inr, Bool, true, false, not, ◌&&◌, ◌||◌, Option, none, some, List, [], ◌∷◌, ◌++◌, map, arith,
  eq_iff, ltb, leb, ◌==◌, if◌then◌else◌, ltb→lt, leb→le, Bool-cases, Option-cases, length, any, all,
  All, length-append, str_eq, codes, is_space, is_blank, text_length, prefix, str_leb, str_mem,
  str_leb_total, str_leb_trans, str_leb_refl, str_eq_comm, str_eq_refl,
}
use zhixu.Prelude.Result.{
  Result-cases, Error, Result, ok, err, ◌>>=◌, ◌>>◌, raise_if, or_raise, >>=-eq-ok, >>-eq-ok,
  validation_error, not_found, conflict, concurrency_conflict, permission_denied,
  confirmation_required, classification_not_supported, invalid_transition, llm_unavailable,
  llm_budget_exceeded, invalid_model_output, value_error, key_error, permission_error,
  runtime_error, type_error, integrity_error, assertion_error,
}
use zhixu.Domain.Time.{DateTime}
use zhixu.Channels.{OutboundMessage, ChannelCapabilities, ChannelDeliveryResult}
use zhixu.Delivery.Outbox.Tables.{DeliveryStatus, Store, ClaimedDelivery}
use zhixu.Delivery.Outbox.Claim.{Claim, claim, defer_for_quota}
use zhixu.Delivery.Outbox.Complete.{complete}
use zhixu.Delivery.Quota.{
  QuotaScope, QuotaRule, QuotaUsage, QuotaDecision, Zone, check_scope, reserve,
}
use zhixu.Delivery.Renderer.{render_for_capabilities}

-- `ChannelAdapter`
pub record Adapter : Type 0 where
  pub channel : String
  pub channel_account : String
  pub capabilities : ChannelCapabilities
  pub send : OutboundMessage → Result ChannelDeliveryResult

-- `DeliveryWorker`, with the configuration of its `QuotaManager`.
pub record DeliveryWorker : Type 0 where
  pub worker_id : String
  pub adapters : List Adapter
  pub zones : String → Option Zone
  pub rules : List QuotaRule

pub data TickStatus : Type 0 where
  idle quota_wait : TickStatus
  completed : DeliveryStatus → TickStatus

-- What `tick` returns or raises, the tables after it, and what the adapter was asked to send.
pub record Tick : Type 0 where
  pub outcome : Result TickStatus
  pub store : Store
  pub usage : List QuotaUsage
  pub sent : Option OutboundMessage

-- `self.adapters`: the keys, and the value of a key, which the last adapter for it decides.
abbrev pub accounts : List Adapter → List (String × String)
accounts adapters = map (λ a. (a.channel, a.channel_account)) adapters

unfoldable pub find_adapter : String → String → List Adapter → Option Adapter
find_adapter channel account [] = none
find_adapter channel account (a ∷ rest) =
    let later = find_adapter channel account rest in
    elim later [
      | some b ↦ some b
      | none ↦ if str_eq a.channel channel && str_eq a.channel_account account then some a else none
    ]

abbrev pub failed : Bool → String → ChannelDeliveryResult
failed retryable code = record {
  ok = false;
  retryable = retryable;
  provider_code = code;
  provider_message_id = "";
}

-- The `except` clauses.
abbrev pub failure : Error → ChannelDeliveryResult
failure validation_error = failed false "capability_unsupported"
failure _ = failed true "adapter_exception"

abbrev pub answer : Result ChannelDeliveryResult → ChannelDeliveryResult
answer (ok r) = r
answer (err e) = failure e

-- The `try` of `tick`: the result, and what was handed to the adapter.
unfoldable pub attempt : Adapter → OutboundMessage → ChannelDeliveryResult × Option OutboundMessage
unfolding render_for_capabilities
attempt a m = elim (render_for_capabilities m a.capabilities) [
  | err e ↦ (failure e, none)
  | ok rendered ↦ (answer (a.send rendered), some rendered)
]

unfoldable pub scopes : ClaimedDelivery → Result (List QuotaScope)
unfolding check_scope
scopes d = do
  provider ← check_scope (record { kind = "provider"; ref = d.message.channel })
  account ← check_scope (record { kind = "account"; ref = d.message.channel_account })
  conversation ← check_scope (record { kind = "conversation"; ref = d.message.target_ref })
  user ← check_scope (record { kind = "user"; ref = d.owner_user_id })
  ok (provider ∷ account ∷ conversation ∷ user ∷ [])

-- The reservation for a claimed delivery.
unfoldable pub reserve_for :
    DeliveryWorker
    → List QuotaUsage
    → ClaimedDelivery
    → DateTime
    → Result (QuotaDecision × List QuotaUsage)
unfolding scopes reserve
reserve_for w usage d now = do of_delivery ← scopes d; reserve w.zones w.rules usage of_delivery now

-- `self.outbox.complete(claimed, result, now=now)`, whose status `tick` returns.
unfoldable pub finish_tick :
    Store
    → List QuotaUsage
    → ClaimedDelivery
    → ChannelDeliveryResult × Option OutboundMessage
    → DateTime
    → Tick
unfolding complete
finish_tick s usage d attempted now = elim (complete s d attempted.0 now) [
  | err e ↦ record { outcome = err e; store = s; usage = usage; sent = attempted.1 }
  | ok done ↦ record {
    outcome = ok (completed done.0);
    store = done.1;
    usage = usage;
    sent = attempted.1;
  }
]

-- `tick` after the adapter is found and the quotas have answered.
unfoldable pub decided_tick :
    Store → Adapter → ClaimedDelivery → DateTime → QuotaDecision × List QuotaUsage → Tick
unfolding defer_for_quota attempt finish_tick
decided_tick s a d now (decision, usage) =
    if decision.allowed
    then finish_tick s usage d (attempt a d.message) now
    else elim (defer_for_quota s d (record { instant = decision.next_available_at; aware = true })
        now decision.reason_code) [
          | err e ↦ record { outcome = err e; store = s; usage = usage; sent = none }
          | ok t ↦ record { outcome = ok quota_wait; store = t; usage = usage; sent = none }
        ]

-- `tick` for a delivery that was claimed.
unfoldable pub claimed_tick :
    DeliveryWorker → Store → List QuotaUsage → ClaimedDelivery → DateTime → Tick
unfolding find_adapter reserve_for finish_tick decided_tick
claimed_tick w s usage d now =
    elim (find_adapter d.message.channel d.message.channel_account w.adapters) [
      | none ↦ finish_tick s usage d (failed false "adapter_unavailable", none) now
      | some a ↦ elim (reserve_for w usage d now) [
        | err e ↦ record { outcome = err e; store = s; usage = usage; sent = none }
        | ok decision ↦ decided_tick s a d now decision
      ]
    ]

-- The claim of a worker, with the token that is drawn for it; a lease is 30 seconds by default.
abbrev pub work : DeliveryWorker → String → Claim
work w token = record {
  worker_id = w.worker_id;
  lease_for = 30_000_000;
  accounts = some (accounts w.adapters);
  token = token;
}

-- `tick` after `self.outbox.claim`.
unfoldable pub resume :
    DeliveryWorker → List QuotaUsage → DateTime → Result (Option ClaimedDelivery) × Store → Tick
unfolding claimed_tick
resume w usage now (err e, t) = record { outcome = err e; store = t; usage = usage; sent = none }
resume w usage now (ok none, t) = record {
  outcome = ok idle;
  store = t;
  usage = usage;
  sent = none;
}
resume w usage now (ok (some d), t) = claimed_tick w t usage d now

-- `DeliveryWorker.tick`
unfoldable pub tick : DeliveryWorker → String → Store → List QuotaUsage → DateTime → Tick
unfolding claim resume
tick w token s usage now = resume w usage now (claim s (work w token) now)
