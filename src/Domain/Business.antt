-- ===== src/Domain/Business.antt =====
-- src/zhixu/domain/business_calendar.py: the business days of a region over a snapshot of its
-- holidays, and the one that a monthly rule names by its position.
pub mod Count
pub mod Position
use zhixu.Prelude.{
  ℕ, zero, suc, ◌+◌, ◌-◌, ◌*◌, ◌/◌, ◌%◌, ◌≤◌, ◌<◌, max, String, ◌≡◌, refl, sym, ap, ◌∙◌, ◌≢◌, ◌⊎◌,
  inl, inr, Bool, true, false, not, ◌&&◌, ◌||◌, Option, none, some, List, [], ◌∷◌, ◌++◌, map, arith,
  eq_iff, ltb, leb, ◌==◌, if◌then◌else◌, ltb→lt, leb→le, Bool-cases, Option-cases, length, any, all,
  All, length-append, str_eq, codes, is_space, is_blank, text_length, prefix, str_leb, str_mem,
  str_leb_total, str_leb_trans, str_leb_refl, str_eq_comm, str_eq_refl,
}
use zhixu.Prelude.Result.{
  Result-cases, Error, Result, ok, err, ◌>>=◌, ◌>>◌, raise_if, or_raise, >>=-eq-ok, >>-eq-ok,
  validation_error, not_found, conflict, concurrency_conflict, permission_denied,
  confirmation_required, classification_not_supported, invalid_transition, llm_unavailable,
  llm_budget_exceeded, invalid_model_output, value_error, key_error, permission_error,
  runtime_error, type_error, integrity_error, assertion_error,
}
use zhixu.Prelude.Int.{ℤ, pos, negsuc, magnitude}
use zhixu.Calendar.{Date, days_in_month, weekday}

-- The label of the region is only in messages.
pub record BusinessCalendar : Type 0 where
  pub token : String
  pub supported_years : List ℕ
  pub holidays : List Date

abbrev pub same_date : Date → Date → Bool
same_date a b = (a.year == b.year) && ((a.month == b.month) && (a.day == b.day))

-- The condition of `is_business_day`, in a year that is installed.
unfoldable pub is_working : BusinessCalendar → Date → Bool
is_working c d = ltb (weekday d) 5 && not (any (same_date d) c.holidays)

-- `BusinessCalendar.is_business_day`
unfoldable pub is_business_day : BusinessCalendar → Date → Result Bool
unfolding is_working
is_business_day c d = do
  raise_if (not (any (λ y. y == d.year) c.supported_years)) validation_error
  ok (is_working c d)

-- The list comprehension of `monthly_business_day`: the business days among `n` days from `day` on.
unfoldable pub business_days : BusinessCalendar → ℕ → ℕ → ℕ → ℕ → Result (List Date)
unfolding is_business_day
business_days c year month day zero = ok []
business_days c year month day (suc n) =
    let rest = business_days c year month (day + 1) n in
    do
      works ← is_business_day c (record { year = year; month = month; day = day })
      days ← rest
      ok (if works then record { year = year; month = month; day = day } ∷ days else days)

-- `days[i]`, or the IndexError.
unfoldable pub get_elem? : List Date → ℕ → Option Date
get_elem? [] i = none
get_elem? (d ∷ ds) zero = some d
get_elem? (d ∷ ds) (suc i) = get_elem? ds i

-- `days[position - 1] if position > 0 else days[position]`: -1 is the last.
unfoldable pub at_position : List Date → ℤ → Option Date
unfolding get_elem?
at_position days (pos zero) = none
at_position days (pos (suc i)) = get_elem? days i
at_position days (negsuc i) =
    if ltb i (length days) then get_elem? days (length days - 1 - i) else none

abbrev pub is_zero : ℤ → Bool
is_zero (pos zero) = true
is_zero _ = false

-- `BusinessCalendar.monthly_business_day`, for a year and a month of the calendar.
unfoldable pub monthly_business_day : BusinessCalendar → ℕ → ℕ → ℤ → Result Date
unfolding business_days at_position
monthly_business_day c year month position = do
  raise_if (is_zero position || ltb 31 (magnitude position)) validation_error
  days ← business_days c year month 1 (days_in_month year month)
  or_raise (at_position days position) validation_error
