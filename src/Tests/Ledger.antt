-- ===== src/Tests/Ledger.antt =====
-- Runs of the ledger of the language model (src/zhixu/adapters/storage/sqlite/llm_usage.py): one user,
-- one model and a limit for the day.
use zhixu.Prelude.{◌≡◌, refl, inl, [], ◌∷◌, All, arith}
use zhixu.Prelude.Result.{err, runtime_error}
use zhixu.Prelude.Int.{pos, negsuc}
use zhixu.Prelude.Table.{count_where, update_where}
use zhixu.Calendar.{Date}
use zhixu.Llm.{general_question}
use zhixu.Llm.Ledger.{LlmBudgetLimit, CallEvent, Ledger, Reserve}
use zhixu.Llm.Ledger.Finish.{Outcome, record_result}
use zhixu.Llm.Ledger.Calls.{reserves, records, step, run}
use zhixu.Llm.Ledger.Charge.{RowWithin}
use zhixu.Llm.Ledger.Budget.{Respects, run-RowWithin}
use zhixu.Llm.Ledger.Once.{record_result_once}

abbrev today : Date
today = record { year = 2026; month = 3; day = 14 }

abbrev daily : LlmBudgetLimit
daily = record { window_kind = "day"; calls = 2; input_units = 100; output_units = 50 }

abbrev monthly : LlmBudgetLimit
monthly = record { window_kind = "month"; calls = 20; input_units = 900; output_units = 500 }

abbrev asking : Reserve
asking = record {
  owner_user_id = "alice";
  model_ref = "local:small";
  reason = general_question;
  estimated_input_units = 10;
  limits = daily ∷ monthly ∷ [];
  now = today;
}

abbrev answered : Outcome
answered = record {
  call_id = 1;
  owner_user_id = "alice";
  model_ref = "local:small";
  outcome = "completed";
  input_units = pos 9;
  output_units = pos 4;
  cached_input_units = negsuc 0;
  now = today;
}

abbrev empty : Ledger
empty = record { users = "alice" ∷ []; usage = []; events = []; next_id = 1 }

abbrev event : CallEvent
event = record {
  id = 1;
  occurred_on = today;
  owner_user_id = "alice";
  model_ref = "local:small";
  reason = general_question;
  outcome = "reserved";
  estimated_input_units = 10;
  input_units = 0;
  output_units = 0;
  cached_input_units = 0;
}

abbrev asked : Ledger
asked = record empty { events = event ∷ []; next_id = 2 }

abbrev settled : Ledger
settled = record empty {
  events = record event { outcome = "completed"; input_units = 9; output_units = 4 } ∷ [];
  next_id = 2;
}

asking-Respects : Respects "alice" "local:small" daily (reserves asking)
unfolding Respects count_where
asking-Respects = λ same. (inl refl, refl)

answered-Respects : Respects "alice" "local:small" daily (records answered)
unfolding Respects
answered-Respects = tt

-- The third reservation of the day is refused, and the window stays within its limit.
run-RowWithin_example :
    All
      (RowWithin "alice" "local:small" daily)
      (run empty
        (reserves asking ∷ records answered ∷ reserves asking ∷ reserves asking ∷ [])).usage
run-RowWithin_example =
    run-RowWithin "alice" "local:small" daily empty
      (reserves asking ∷ records answered ∷ reserves asking ∷ reserves asking ∷ [])
      (asking-Respects, (answered-Respects, (asking-Respects, (asking-Respects, tt)))) tt

record_result_once_example :
    (record_result (run settled (reserves asking ∷ [])) answered ≡ err runtime_error)
    × (step (run settled (reserves asking ∷ [])) (records answered)
        ≡ run settled (reserves asking ∷ []))
unfolding record_result count_where update_where
record_result_once_example =
    record_result_once asked settled answered answered (reserves asking ∷ []) (omega arith) refl
      refl refl refl refl
