-- ===== src/Tests/Llm.antt =====
-- Runs of the gateway to the language model (src/zhixu/application/llm.py), on a ledger that counts.
use zhixu.Prelude.{ℕ, ◌+◌, ◌≡◌, refl, inl, All, true, false, none, some, [], ◌∷◌, arith}
use zhixu.Prelude.Result.{ok, err, runtime_error, llm_unavailable}
use zhixu.Domain.Classification.{personal}
use zhixu.Llm.{
  LlmResponse, LlmUsagePort, CircuitState, LlmGateway, LlmCall, general_question, run_calls,
  generate, require_egress,
}
use zhixu.Llm.Breaker.{Refused, open-stays}

abbrev ledger : LlmUsagePort ℕ
ledger = record {
  reserve = λ owner model reason estimate u. (some u, u + 1);
  record_result = λ call_id owner model outcome i o k u. u;
}

abbrev gateway : LlmGateway
gateway = record {
  provider_ref = "local";
  is_local = true;
  egress = record { allow_personal_to_external = false; allow_confidential_to_local = true };
  failure_threshold = 2;
  recovery_seconds = 60;
}

abbrev answer : LlmResponse
answer = record { content = "yes"; input_units = 3; output_units = 1; cached_input_units = 0 }

abbrev question : LlmCall
question = record {
  owner_user_id = "alice";
  request = record { model = "small"; system_prompt = ""; user_prompt = "why"; web_search = false };
  classification = personal;
  reason = general_question;
  now = 10;
  answer = ok answer;
}

abbrev lost : LlmCall
lost = record question { answer = err runtime_error }

-- One failure so far.
abbrev shaken : CircuitState
shaken = record { failures = 1; open_until = none }

open-stays_example :
    (d : CircuitState) × (w : ℕ) × (generate ledger gateway shaken 7 lost
      ≡ (err llm_unavailable, d, w))
    × All (Refused ledger gateway d w) (question ∷ lost ∷ [])
    × (run_calls ledger gateway d w (question ∷ lost ∷ []) ≡ (d, w))
unfolding require_egress
open-stays_example =
    open-stays ledger gateway shaken 7 lost runtime_error 7 refl (inl refl) refl refl (omega arith)
      (question ∷ lost ∷ []) (omega arith, (omega arith, tt))
