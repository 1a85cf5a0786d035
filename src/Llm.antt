-- ===== src/Llm.antt =====
-- src/zhixu/application/llm.py and src/zhixu/security/egress.py: the gateway to an optional language
-- model, with its circuit breaker and the policy on what may leave. The ledger of usage is the port of
-- src/zhixu/ports/llm.py, a record of operations on a state; the answer of the provider is an argument
-- of each call.
pub mod Breaker
pub mod Ledger
use zhixu.Prelude.{
  ℕ, zero, suc, ◌+◌, ◌-◌, ◌*◌, ◌/◌, ◌%◌, ◌≤◌, ◌<◌, max, String, ◌≡◌, refl, sym, ap, ◌∙◌, ◌≢◌, ◌⊎◌,
  inl, inr, Bool, true, false, not, ◌&&◌, ◌||◌, Option, none, some, List, [], ◌∷◌, ◌++◌, map, arith,
  eq_iff, ltb, leb, ◌==◌, if◌then◌else◌, ltb→lt, leb→le, Bool-cases, Option-cases, length, any, all,
  All, length-append, str_eq, codes, is_space, is_blank, text_length, prefix, str_leb, str_mem,
  str_leb_total, str_leb_trans, str_leb_refl, str_eq_comm, str_eq_refl,
}
use zhixu.Prelude.Result.{
  Error, Result, ok, err, ◌>>=◌, ◌>>◌, raise_if, or_raise, >>=-eq-ok, >>-eq-ok, validation_error,
  not_found, conflict, concurrency_conflict, permission_denied, confirmation_required,
  classification_not_supported, invalid_transition, llm_unavailable, llm_budget_exceeded,
  invalid_model_output, value_error, key_error, permission_error, runtime_error, type_error,
  integrity_error, assertion_error,
}
use Prim.Native.String.{◌++◌ as append}
use zhixu.Domain.Time.{second}
use zhixu.Domain.Classification.{DataClassification, personal, confidential, secret, level}

pub record LlmRequest : Type 0 where
  pub model : String
  pub system_prompt : String
  pub user_prompt : String
  pub web_search : Bool

pub record LlmResponse : Type 0 where
  pub content : String
  pub input_units : ℕ
  pub output_units : ℕ
  pub cached_input_units : ℕ

pub data LlmCallReason : Type 0 where
  schedule_parse deterministic_parser_miss note_summary_requested general_question : LlmCallReason

-- `LLMUsagePort`, for the limits of the gateway.
pub record LlmUsagePort (U : Type 0) : Type 0 where
  pub reserve : String → String → LlmCallReason → ℕ → U → Option ℕ × U
  pub record_result : ℕ → String → String → String → ℕ → ℕ → ℕ → U → U

pub record LlmEgressPolicy : Type 0 where
  pub allow_personal_to_external : Bool
  pub allow_confidential_to_local : Bool

abbrev is_personal : DataClassification → Bool
is_personal personal = true
is_personal _ = false

abbrev is_confidential : DataClassification → Bool
is_confidential confidential = true
is_confidential _ = false

-- `LLMEgressPolicy.require`
unfoldable pub require_egress : LlmEgressPolicy → DataClassification → Bool → Result (Unit {0})
require_egress p c provider_is_local = do
  raise_if (leb (level secret) (level c)) permission_denied
  raise_if (is_confidential c && (not provider_is_local || not p.allow_confidential_to_local))
      permission_denied
  raise_if (is_personal c && (not provider_is_local && not p.allow_personal_to_external))
      permission_denied

-- `_CircuitState`
pub record CircuitState : Type 0 where
  pub failures : ℕ
  pub open_until : Option ℕ

-- The fields of `LLMGateway` but the state, with those of its client.
pub record LlmGateway : Type 0 where
  pub provider_ref : String
  pub is_local : Bool
  pub egress : LlmEgressPolicy
  pub failure_threshold : ℕ
  pub recovery_seconds : ℕ

-- The arguments of `generate`, with the time and what the client answers if it is asked.
pub record LlmCall : Type 0 where
  pub owner_user_id : String
  pub request : LlmRequest
  pub classification : DataClassification
  pub reason : LlmCallReason
  pub now : ℕ
  pub answer : Result LlmResponse

-- `open_until is not None and now < open_until`
abbrev pub is_open : CircuitState → ℕ → Bool
is_open c now = elim c.open_until [ none ↦ false | some t ↦ ltb now t ]

unfoldable pub model_ref : LlmGateway → LlmRequest → String
model_ref g r = append g.provider_ref (append ":" r.model)

unfoldable pub estimated_input : LlmRequest → ℕ
estimated_input r = max 1 ((text_length r.system_prompt + text_length r.user_prompt + 3) / 4)

-- The circuit after a failure.
unfoldable pub count_failure : LlmGateway → CircuitState → ℕ → CircuitState
count_failure g c now = record {
  failures = c.failures + 1;
  open_until =
      if leb g.failure_threshold (c.failures + 1)
      then some (now + g.recovery_seconds * second)
      else c.open_until;
}

abbrev pub closed : CircuitState
closed = record { failures = 0; open_until = none }

module _ {U : Type 0} (usage : LlmUsagePort U) (g : LlmGateway) where
  -- The `try` of `generate` and what follows it, once the call is reserved.
  unfoldable pub finish_call :
      ℕ → String → LlmCall → CircuitState → U → Result LlmResponse × CircuitState × U
  unfolding count_failure
  finish_call call_id model call c u = elim call.answer [
    | err e ↦ (
      err llm_unavailable,
      count_failure g c call.now,
      usage.record_result call_id call.owner_user_id model "failed" 0 0 0 u,
    )
    | ok r ↦ (
      ok r,
      closed,
      usage.record_result call_id call.owner_user_id model "completed" r.input_units r.output_units
          r.cached_input_units u,
    )
  ]

  -- `generate`, once the policy has let the prompt through.
  unfoldable pub generate_allowed :
      CircuitState → U → LlmCall → Result LlmResponse × CircuitState × U
  unfolding model_ref estimated_input finish_call
  generate_allowed c u call =
      if is_open c call.now
      then (err llm_unavailable, c, u)
      else (let (reserved, v) =
            usage.reserve call.owner_user_id (model_ref g call.request) call.reason
              (estimated_input call.request) u in
          elim reserved [
            | none ↦ (err llm_budget_exceeded, c, v)
            | some call_id ↦ finish_call call_id (model_ref g call.request) call c v
          ])

  -- `LLMGateway.generate`
  unfoldable pub generate : CircuitState → U → LlmCall → Result LlmResponse × CircuitState × U
  unfolding require_egress generate_allowed
  generate c u call = elim (require_egress g.egress call.classification g.is_local) [
    | err e ↦ (err e, c, u)
    | ok _ ↦ generate_allowed c u call
  ]

  unfoldable pub run_calls : CircuitState → U → List LlmCall → CircuitState × U
  unfolding generate
  run_calls c u [] = (c, u)
  run_calls c u (call ∷ calls) = let (r, d, v) = generate c u call in run_calls d v calls
