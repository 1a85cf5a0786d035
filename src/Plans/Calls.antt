-- ===== src/Plans/Calls.antt =====
-- The calls of `PendingPlanStore` that write (src/zhixu/adapters/storage/sqlite/pending_plans.py) and
-- their runs: each is one transaction, which is rolled back when it raises.
use zhixu.Prelude.{String, List, [], ◌∷◌}
use zhixu.Prelude.Result.{Result, ok, err}
use zhixu.Domain.Time.{DateTime}
use zhixu.Plans.{Put, PlanStore, put, update_payload, reject, consume}

pub data Call : Type 0 where
  puts : Put → DateTime → Call
  updates : String → String → String → String → DateTime → Call
  rejects : String → DateTime → Call
  consumes : String → DateTime → Call

abbrev pub after {ℓ} : {A : Type ℓ} → PlanStore → Result (A × PlanStore) → PlanStore
after s (ok (a, t)) = t
after s (err e) = s

abbrev pub after_unit : PlanStore → Result PlanStore → PlanStore
after_unit s (ok t) = t
after_unit s (err e) = s

unfoldable pub step : PlanStore → Call → PlanStore
step s (puts p now) = after s (put s p now)
step s (updates i actor target payload now) = after s (update_payload s i actor target payload now)
step s (rejects i now) = after_unit s (reject s i now)
step s (consumes i now) = after s (consume s i now)

unfoldable pub run : PlanStore → List Call → PlanStore
unfolding step
run s [] = s
run s (c ∷ cs) = run (step s c) cs
