-- ===== src/Llm/Ledger/Finish.antt =====
-- `record_result` of src/zhixu/adapters/storage/sqlite/llm_usage.py: what a call has cost.
use zhixu.Prelude.{
  ℕ, ◌+◌, String, Bool, not, ◌&&◌, List, [], ◌∷◌, leb, ◌==◌, if◌then◌else◌, str_eq, str_mem,
}
use zhixu.Prelude.Result.{Result, ok, ◌>>◌, raise_if, value_error, runtime_error}
use zhixu.Prelude.Table.{update_where, count_where}
use zhixu.Prelude.Int.{ℤ, pos, negsuc}
use zhixu.Calendar.{Date}
use zhixu.Llm.Ledger.{Usage, CallEvent, Ledger, has_key}

-- The arguments of `record_result`, with the date that the clock gives.
pub record Outcome : Type 0 where
  pub call_id : ℕ
  pub owner_user_id : String
  pub model_ref : String
  pub outcome : String
  pub input_units : ℤ
  pub output_units : ℤ
  pub cached_input_units : ℤ
  pub now : Date

-- `max(0, n)`
abbrev pub at_least_zero : ℤ → ℕ
at_least_zero (pos n) = n
at_least_zero (negsuc n) = 0

-- The UPDATE of `llm_usage` for one window.
unfoldable pub add_output : Outcome → String → Date → List Usage → List Usage
unfolding has_key
add_output o kind start rows =
    update_where (has_key o.owner_user_id o.model_ref kind start)
      (λ u. record u { output_units = u.output_units + at_least_zero o.output_units }) rows

-- `id=? AND owner_user_id=? AND model_ref=? AND outcome='reserved'`
unfoldable pub is_reserved : Outcome → CallEvent → Bool
is_reserved o e =
    (e.id == o.call_id)
    && (str_eq e.owner_user_id o.owner_user_id
        && (str_eq e.model_ref o.model_ref && str_eq e.outcome "reserved"))

abbrev pub least_of : ℕ → ℕ → ℕ
least_of a b = if leb a b then a else b

unfoldable pub finalized : Outcome → CallEvent → CallEvent
finalized o e =
    if str_eq o.outcome "completed"
    then record e {
      outcome = o.outcome;
      input_units = at_least_zero o.input_units;
      output_units = at_least_zero o.output_units;
      cached_input_units =
          least_of (at_least_zero o.input_units) (at_least_zero o.cached_input_units);
    }
    else record e { outcome = o.outcome; input_units = 0; output_units = 0; cached_input_units = 0 }

-- `SQLiteLLMUsage.record_result`
unfoldable pub record_result : Ledger → Outcome → Result Ledger
unfolding add_output is_reserved finalized
record_result g o = do
  raise_if (not (str_mem o.outcome ("completed" ∷ "failed" ∷ []))) value_error
  raise_if (not (count_where (is_reserved o) g.events == 1)) runtime_error
  ok (record g {
    usage =
        if str_eq o.outcome "completed"
        then add_output o "month" (record o.now { day = 1 }) (add_output o "day" o.now g.usage)
        else g.usage;
    events = update_where (is_reserved o) (finalized o) g.events;
  })
