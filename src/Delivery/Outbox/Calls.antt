-- ===== src/Delivery/Outbox/Calls.antt =====
-- The calls of `OutboxStore` (src/zhixu/delivery/outbox.py) as values, and their runs: each call is
-- one transaction, so any interleaving of the workers is a sequence of calls.
use zhixu.Prelude.{String, List, [], ◌∷◌}
use zhixu.Prelude.Result.{Result, ok, err}
use zhixu.Domain.Time.{DateTime}
use zhixu.Channels.{ChannelDeliveryResult}
use zhixu.Delivery.Outbox.Tables.{Store, ClaimedDelivery}
use zhixu.Delivery.Outbox.Enqueue.{Enqueue, enqueue}
use zhixu.Delivery.Outbox.Claim.{Claim, claim, defer_for_quota}
use zhixu.Delivery.Outbox.Complete.{complete, complete_lease, retry_dead}

-- Every call of the store, with its arguments.
pub data Call : Type 0 where
  enqueues : Enqueue → DateTime → Call
  claims : Claim → DateTime → Call
  defers : ClaimedDelivery → DateTime → DateTime → String → Call
  completes : ClaimedDelivery → ChannelDeliveryResult → DateTime → Call
  completes_lease : String → String → ChannelDeliveryResult → DateTime → Call
  retries : String → String → DateTime → Call

-- The store after a result: a transaction that raises is rolled back.
abbrev pub after {ℓ} : {A : Type ℓ} → Store → Result (A × Store) → Store
after s (ok (a, t)) = t
after s (err e) = s

abbrev pub after_unit : Store → Result Store → Store
after_unit s (ok t) = t
after_unit s (err e) = s

unfoldable pub step : Store → Call → Store
step s (enqueues e now) = after s (enqueue s e now)
step s (claims c now) = (claim s c now).1
step s (defers c next now reason) = after_unit s (defer_for_quota s c next now reason)
step s (completes c r now) = after s (complete s c r now)
step s (completes_lease i token r now) = after s (complete_lease s i token r now)
step s (retries dead_id actor now) = after s (retry_dead s dead_id actor now)

unfoldable pub run : Store → List Call → Store
unfolding step
run s [] = s
run s (c ∷ cs) = run (step s c) cs
