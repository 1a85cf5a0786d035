-- ===== src/Prelude/Result.antt =====
-- The errors of src/zhixu/domain/errors.py, with Python's own that the code
-- raises, and the result of code that may raise one. An error is known by its class; the messages are not modelled.
use mathlib.Core.Path.{◌≡◌, refl}
use mathlib.Core.Logic.{◌⊎◌, inl, inr}
use mathlib.Core.Bool.{Bool, true, false}
use mathlib.Core.Option.{Option, none, some}

pub data Error : Type 0 where
  validation_error not_found conflict concurrency_conflict permission_denied : Error
  confirmation_required classification_not_supported invalid_transition : Error
  llm_unavailable llm_budget_exceeded invalid_model_output : Error
  value_error key_error permission_error runtime_error type_error integrity_error assertion_error :
      Error

pub data Result {ℓ} (A : Type ℓ) : Type ℓ where
  ok : A → Result A
  err : Error → Result A

-- `if test: raise error`
abbrev pub raise_if : Bool → Error → Result (Unit {0})
raise_if true e = err e
raise_if false e = ok tt

-- A value that may be missing, with the error that its absence raises.
abbrev pub or_raise {ℓ} : {A : Type ℓ} → Option A → Error → Result A
or_raise none e = err e
or_raise (some a) e = ok a

-- What follows code that may raise runs on its value, and not at all after an error.
infixl 5 ◌>>=◌
abbrev pub ◌>>=◌ {ℓ κ} : {X : Type ℓ} {Y : Type κ} → Result X → (X → Result Y) → Result Y
(ok value) >>= next = next value
(err raised) >>= next = err raised

pub >>=-eq-ok {ℓ κ} :
    {X : Type ℓ} {Y : Type κ} (first : Result X) (next : X → Result Y) {end : Y}
    → (first >>= next) ≡ ok end
    → (value : X) × (first ≡ ok value) × (next value ≡ ok end)
>>=-eq-ok (ok value) next h = (value, refl, h)
>>=-eq-ok (err raised) next h = cc

infixl 5 ◌>>◌
abbrev pub ◌>>◌ {κ} : {Y : Type κ} → Result (Unit {0}) → Result Y → Result Y
check >> next = check >>= λ _. next

-- A check in front of a value: where the whole succeeds, the check did, and the value is that one.
pub >>-eq-ok {ℓ} :
    {A : Type ℓ} (m : Result (Unit {0})) (a : A) {b : A}
    → (m >> ok a) ≡ ok b
    → (m ≡ ok tt) × (b ≡ a)
>>-eq-ok (ok tt) a h = (refl, cc)
>>-eq-ok (err e) a h = cc

pub Result-cases {ℓ} :
    {A : Type ℓ} (r : Result A) → ((e : Error) × (r ≡ err e)) ⊎ ((a : A) × (r ≡ ok a))
Result-cases (ok a) = inr (a, refl)
Result-cases (err e) = inl (e, refl)
