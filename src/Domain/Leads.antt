-- ===== src/Domain/Leads.antt =====
-- `normalise_lead_minutes` of src/zhixu/domain/agenda.py: how long before an occurrence its reminders
-- come, as a list that stands for a set.
pub mod Canonical
use zhixu.Prelude.{
  ℕ, zero, suc, ◌+◌, ◌-◌, ◌*◌, ◌/◌, ◌%◌, ◌≤◌, ◌<◌, max, String, ◌≡◌, refl, sym, ap, ◌∙◌, ◌≢◌, ◌⊎◌,
  inl, inr, Bool, true, false, not, ◌&&◌, ◌||◌, Option, none, some, List, [], ◌∷◌, ◌++◌, map, arith,
  eq_iff, ltb, leb, ◌==◌, if◌then◌else◌, ltb→lt, leb→le, Bool-cases, Option-cases, length, any, all,
  All, length-append, str_eq, codes, is_space, is_blank, text_length, prefix, str_leb, str_mem,
  str_leb_total, str_leb_trans, str_leb_refl, str_eq_comm, str_eq_refl,
}
use zhixu.Prelude.Result.{
  Result-cases, Error, Result, ok, err, ◌>>=◌, ◌>>◌, raise_if, or_raise, >>=-eq-ok, >>-eq-ok,
  validation_error, not_found, conflict, concurrency_conflict, permission_denied,
  confirmation_required, classification_not_supported, invalid_transition, llm_unavailable,
  llm_budget_exceeded, invalid_model_output, value_error, key_error, permission_error,
  runtime_error, type_error, integrity_error, assertion_error,
}
use zhixu.Prelude.Int.{ℤ, pos, negsuc}

-- `a < b`
unfoldable pub int_ltb : ℤ → ℤ → Bool
int_ltb (pos a) (pos b) = ltb a b
int_ltb (pos a) (negsuc b) = false
int_ltb (negsuc a) (pos b) = true
int_ltb (negsuc a) (negsuc b) = ltb b a

-- A value into its place of a list from the greatest to the least, or nowhere if it is there.
unfoldable pub insert : ℤ → List ℤ → List ℤ
insert x [] = x ∷ []
insert x (y ∷ ys) =
    let rest = insert x ys in
    if int_ltb y x then x ∷ (y ∷ ys) else if int_ltb x y then y ∷ rest else y ∷ ys

-- `sorted(set(values), reverse=True)`
unfoldable pub sorted_set : List ℤ → List ℤ
unfolding insert
sorted_set [] = []
sorted_set (x ∷ xs) = insert x (sorted_set xs)

abbrev pub maximum_entries : ℕ
maximum_entries = 12

abbrev pub maximum_minutes : ℕ
maximum_minutes = 366 * 24 * 60

-- `not 0 <= value <= _MAXIMUM_LEAD_MINUTES`
unfoldable pub out_of_range : ℤ → Bool
out_of_range (pos n) = ltb maximum_minutes n
out_of_range (negsuc n) = true

-- `normalise_lead_minutes`
unfoldable pub normalise_lead_minutes : List ℤ → Result (List ℤ)
unfolding sorted_set out_of_range
normalise_lead_minutes values = do
  let unique = sorted_set values
  raise_if (ltb maximum_entries (length unique)) validation_error
  raise_if (any out_of_range unique) validation_error
  ok unique
