-- ===== src/Llm/Ledger/Calls.antt =====
-- The calls of `SQLiteLLMUsage` (src/zhixu/adapters/storage/sqlite/llm_usage.py) as values, and their
-- runs: each is one transaction, which is rolled back when it raises.
use zhixu.Prelude.{List, [], ◌∷◌}
use zhixu.Prelude.Result.{Result, ok, err}
use zhixu.Llm.Ledger.{Ledger, Reserve, reserve}
use zhixu.Llm.Ledger.Finish.{Outcome, record_result}

pub data Call : Type 0 where
  reserves : Reserve → Call
  records : Outcome → Call

abbrev pub after {ℓ} : {A : Type ℓ} → Ledger → Result (A × Ledger) → Ledger
after g (ok (a, h)) = h
after g (err e) = g

abbrev pub after_unit : Ledger → Result Ledger → Ledger
after_unit g (ok h) = h
after_unit g (err e) = g

unfoldable pub step : Ledger → Call → Ledger
step g (reserves r) = after g (reserve g r)
step g (records o) = after_unit g (record_result g o)

unfoldable pub run : Ledger → List Call → Ledger
unfolding step
run g [] = g
run g (c ∷ cs) = run (step g c) cs
