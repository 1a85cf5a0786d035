-- ===== src/Llm/Breaker.antt =====
-- What the gateway of src/zhixu/application/llm.py lets out, and when its circuit breaker opens.
use zhixu.Prelude.{
  ℕ, ◌+◌, ◌*◌, ◌≤◌, ◌<◌, String, ◌≡◌, refl, sym, ◌∙◌, ◌⊎◌, inl, inr, Bool, true, false, Option,
  none, some, List, [], ◌∷◌, arith, Bool-cases, Option-cases, All,
}
use zhixu.Prelude.Result.{Result-cases, Error, ok, err, llm_unavailable}
use zhixu.Domain.Time.{second}
use zhixu.Domain.Classification.{DataClassification, personal, confidential, level}
use zhixu.Llm.{
  generate_allowed, LlmUsagePort, LlmEgressPolicy, CircuitState, LlmGateway, LlmCall, LlmResponse,
  require_egress, is_open, model_ref, estimated_input, count_failure, closed, finish_call, generate,
  run_calls,
}

-- What may be in a prompt that leaves for the provider.
pub record MayLeave (p : LlmEgressPolicy) (c : DataClassification) (is_local : Bool) : Type 0 where
  pub ordinary : level c ≤ level confidential
  pub confidential_local :
      c ≡ confidential → (is_local ≡ true) × (p.allow_confidential_to_local ≡ true)
  pub personal_allowed : c ≡ personal → (is_local ≡ true) ⊎ (p.allow_personal_to_external ≡ true)

require_egress-MayLeave :
    (p : LlmEgressPolicy) (c : DataClassification) (is_local : Bool)
    → require_egress p c is_local ≡ ok tt
    → MayLeave p c is_local
unfolding require_egress
require_egress-MayLeave p c is_local h = record {
  ordinary = ground arith;
  confidential_local = ground arith;
  personal_allowed = ground arith;
}

module _ {U : Type 0} (usage : LlmUsagePort U) (g : LlmGateway) where
  generate-refused :
      (c : CircuitState) (u : U) (call : LlmCall) (e : Error)
      → require_egress g.egress call.classification g.is_local ≡ err e
      → generate usage g c u call ≡ (err e, c, u)
  unfolding generate
  generate-refused c u call e q = rw (q, generate) refl

  generate-allowed :
      (c : CircuitState) (u : U) (call : LlmCall)
      → require_egress g.egress call.classification g.is_local ≡ ok tt
      → generate usage g c u call ≡ generate_allowed usage g c u call
  unfolding generate
  generate-allowed c u call q = rw (q, generate) refl

  after_egress-open :
      (c : CircuitState) (u : U) (call : LlmCall) (t : ℕ)
      → c.open_until ≡ some t
      → call.now < t
      → generate_allowed usage g c u call ≡ (err llm_unavailable, c, u)
  unfolding generate_allowed
  after_egress-open c u call t e l =
      let shut : is_open c call.now ≡ true = rw e (ground arith) in rw (shut, generate_allowed) refl

  after_egress-answers :
      (c d : CircuitState) (u v : U) (call : LlmCall) (r : LlmResponse)
      → generate_allowed usage g c u call ≡ (ok r, d, v)
      → (is_open c call.now ≡ false) × (call.answer ≡ ok r) × (d ≡ closed)
  unfolding generate_allowed finish_call
  after_egress-answers c d u v call r h = ground arith

  -- An answer is given only for data that may leave, while the circuit is closed, and it is the
  -- provider's; it closes the circuit and forgets the failures before it.
  pub generate-answers :
      (c d : CircuitState) (u v : U) (call : LlmCall) (r : LlmResponse)
      → generate usage g c u call ≡ (ok r, d, v)
      → MayLeave g.egress call.classification g.is_local
        × (is_open c call.now ≡ false)
        × (call.answer ≡ ok r)
        × (d ≡ closed)
  unfolding generate finish_call
  generate-answers c d u v call r h =
      elim (Result-cases (require_egress g.egress call.classification g.is_local)) [
        | inl (e, q) ↦ absurd (cc (generate-refused c u call e q, h))
        | inr (w, q) ↦
            let s = generate-allowed c u call q in
            let (o, a, k) = after_egress-answers c d u v call r (sym s ∙ h) in
            (
              require_egress-MayLeave g.egress call.classification g.is_local (ground arith),
              o,
              a,
              k,
            )
      ]

  -- The caller gets an error: that of the policy on what may leave, or that there is no service; and
  -- nothing changes.
  pub Refused : CircuitState → U → LlmCall → Type 0
  Refused c u call =
      (x : Error) × (generate usage g c u call ≡ (err x, c, u))
      × ((x ≡ llm_unavailable) ⊎ (require_egress g.egress call.classification g.is_local ≡ err x))

  generate-open :
      (c : CircuitState) (u : U) (call : LlmCall) (t : ℕ)
      → c.open_until ≡ some t
      → call.now < t
      → Refused c u call
  unfolding Refused
  generate-open c u call t e l =
      elim (Result-cases (require_egress g.egress call.classification g.is_local)) [
        | inl (x, q) ↦ (x, generate-refused c u call x q, inr q)
        | inr (w, q) ↦ (
          llm_unavailable,
          generate-allowed c u call q ∙ after_egress-open c u call t e l,
          inl refl,
        )
      ]

  All-Refused :
      (c : CircuitState) (u : U) (calls : List LlmCall) (t : ℕ)
      → c.open_until ≡ some t
      → All (λ (call : LlmCall). call.now < t) calls
      → All (Refused c u) calls × (run_calls usage g c u calls ≡ (c, u))
  unfolding run_calls Refused
  All-Refused c u [] t e a = (tt, refl)
  All-Refused c u (call ∷ calls) t e a =
      let refused = generate-open c u call t e a.0 in
      let (more, stays) = All-Refused c u calls t e a.1 in ((refused, more), rw refused.1 stays)

  -- The circuit has not opened, or has been open long enough.
  abbrev pub MayTry : CircuitState → ℕ → Type 0
  MayTry c now = (c.open_until ≡ none) ⊎ ((t : ℕ) × (c.open_until ≡ some t) × (t ≤ now))

  MayTry-is_open : (c : CircuitState) (now : ℕ) → MayTry c now → is_open c now ≡ false
  MayTry-is_open c now (inl e) = rw e refl
  MayTry-is_open c now (inr (t, e, l)) = rw e (ground arith)

  -- When the provider fails a call that may leave, while the circuit lets calls through, and with it the
  -- number of failures in a row reaches the threshold, then the caller gets an error and the circuit opens:
  -- whatever calls are made before the recovery time is over, each caller gets an error, and the circuit and
  -- the ledger stay as they are.
  pub open-stays :
      (c : CircuitState) (u : U) (failing : LlmCall) (e : Error) (call_id : ℕ)
      → require_egress g.egress failing.classification g.is_local ≡ ok tt
      → MayTry c failing.now
      → (usage.reserve failing.owner_user_id
          (model_ref g failing.request)
          failing.reason
          (estimated_input failing.request)
          u).0
        ≡ some call_id
      → failing.answer ≡ err e
      → g.failure_threshold ≤ c.failures + 1
      → (calls : List LlmCall)
      → All (λ (call : LlmCall). call.now < failing.now + g.recovery_seconds * 1_000_000) calls
      → (d : CircuitState) × (w : U) × (generate usage g c u failing ≡ (err llm_unavailable, d, w))
        × All (Refused d w) calls
        × (run_calls usage g d w calls ≡ (d, w))
  unfolding generate_allowed finish_call count_failure
  open-stays c u failing e call_id leaves tries reserves fails reached calls early =
      let d = count_failure g c failing.now in
      let v =
        (usage.reserve failing.owner_user_id (model_ref g failing.request) failing.reason
          (estimated_input failing.request) u).1 in
      let w =
        usage.record_result call_id failing.owner_user_id (model_ref g failing.request) "failed" 0 0
          0 v in
      let opened : d.open_until ≡ some (failing.now + g.recovery_seconds * second) = ground arith in
      let passes = MayTry-is_open c failing.now tries in
      let answered : generate_allowed usage g c u failing ≡ (err llm_unavailable, d, w) =
        rw (passes, reserves, fails, generate_allowed) refl in
      let (all, stays) =
        All-Refused d w calls (failing.now + g.recovery_seconds * second) opened early in
      (d, w, generate-allowed c u failing leaves ∙ answered, all, stays)

  -- A circuit that has not opened since the last answer has fewer failures than the threshold.
  pub record BelowThreshold (c : CircuitState) : Type 0 where
    pub below : c.open_until ≡ none → c.failures < g.failure_threshold

  finish_call-BelowThreshold :
      (call_id : ℕ) (model : String) (call : LlmCall) (c : CircuitState) (u : U)
      → 0 < g.failure_threshold
      → BelowThreshold (finish_call usage g call_id model call c u).1
  unfolding finish_call count_failure
  finish_call-BelowThreshold call_id model call c u p = elim (Result-cases call.answer) [
    | inl (e, q) ↦ rw (q, finish_call) (record { below = λ n. ground arith })
    | inr (r, q) ↦ rw (q, finish_call) (record { below = λ n. p })
  ]

  reserved : U → LlmCall → Option ℕ × U
  reserved u call =
      usage.reserve call.owner_user_id (model_ref g call.request) call.reason
        (estimated_input call.request) u

  after_egress-BelowThreshold :
      (c : CircuitState) (u : U) (call : LlmCall)
      → 0 < g.failure_threshold
      → BelowThreshold c
      → BelowThreshold (generate_allowed usage g c u call).1
  unfolding generate_allowed reserved
  after_egress-BelowThreshold c u call p b = elim (Bool-cases (is_open c call.now)) [
    | inl y ↦ rw (y, generate_allowed) b
    | inr n ↦ elim (Option-cases (reserved u call).0) [
      | inl q ↦ rw (n, q, generate_allowed) b
      | inr (call_id, q) ↦
          rw (n, q, generate_allowed)
            (finish_call-BelowThreshold call_id (model_ref g call.request) call c
              (reserved u call).1 p)
    ]
  ]

  generate-BelowThreshold :
      (c : CircuitState) (u : U) (call : LlmCall)
      → 0 < g.failure_threshold
      → BelowThreshold c
      → BelowThreshold (generate usage g c u call).1
  generate-BelowThreshold c u call p b =
      elim (Result-cases (require_egress g.egress call.classification g.is_local)) [
        | inl (x, q) ↦ rw (generate-refused c u call x q) b
        | inr (w, q) ↦ rw (generate-allowed c u call q) (after_egress-BelowThreshold c u call p b)
      ]

  -- For a positive threshold, it is an invariant of any calls that a circuit which has not opened
  -- since the last answer has fewer failures than the threshold.
  pub run_calls-BelowThreshold :
      (c : CircuitState) (u : U) (calls : List LlmCall)
      → 0 < g.failure_threshold
      → BelowThreshold c
      → BelowThreshold (run_calls usage g c u calls).0
  unfolding run_calls
  run_calls-BelowThreshold c u [] p b = b
  run_calls-BelowThreshold c u (call ∷ calls) p b =
      run_calls-BelowThreshold (generate usage g c u call).1 (generate usage g c u call).2 calls p
        (generate-BelowThreshold c u call p b)
