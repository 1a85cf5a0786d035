-- ===== src/Domain/Lunar.antt =====
-- src/zhixu/domain/lunar_calendar.py: the Chinese lunisolar calendar as a table of years, and the
-- conversion to and from the Gregorian one. A Gregorian date is its ordinal number.
pub mod Table
pub mod Year
pub mod Lookup
pub mod Roundtrip
use zhixu.Prelude.{
  ℕ, zero, suc, ◌+◌, ◌-◌, ◌*◌, ◌/◌, ◌%◌, ◌≤◌, ◌<◌, max, String, ◌≡◌, refl, sym, ap, ◌∙◌, ◌≢◌, ◌⊎◌,
  inl, inr, Bool, true, false, not, ◌&&◌, ◌||◌, Option, none, some, List, [], ◌∷◌, ◌++◌, map, arith,
  eq_iff, ltb, leb, ◌==◌, if◌then◌else◌, ltb→lt, leb→le, Bool-cases, Option-cases, length, any, all,
  All, length-append, str_eq, codes, is_space, is_blank, text_length, prefix, str_leb, str_mem,
  str_leb_total, str_leb_trans, str_leb_refl, str_eq_comm, str_eq_refl,
}
use zhixu.Prelude.Result.{
  Error, Result, ok, err, ◌>>=◌, ◌>>◌, raise_if, or_raise, >>=-eq-ok, >>-eq-ok, validation_error,
  not_found, conflict, concurrency_conflict, permission_denied, confirmation_required,
  classification_not_supported, invalid_transition, llm_unavailable, llm_budget_exceeded,
  invalid_model_output, value_error, key_error, permission_error, runtime_error, type_error,
  integrity_error, assertion_error,
}
use zhixu.Calendar.{Date, to_ordinal}

pub record LunarDate : Type 0 where
  pub year : ℕ
  pub month : ℕ
  pub day : ℕ
  pub leap : Bool

-- `LunarDate.__post_init__`
unfoldable pub check_lunar_date : LunarDate → Result LunarDate
check_lunar_date d = do
  raise_if (not (leb 1 d.month && leb d.month 12)) validation_error
  raise_if (not (leb 1 d.day && leb d.day 30)) validation_error
  ok d

-- `_LunarYear`, under its number.
pub record LunarYear : Type 0 where
  pub number : ℕ
  pub start : ℕ
  pub leap_month : ℕ
  pub lengths : List ℕ

-- An element of `months()`: the number of the month, whether it is the intercalary one, its length.
pub record Month : Type 0 where
  pub number : ℕ
  pub leap : Bool
  pub length : ℕ

-- The loop of `_LunarYear.months`, with its variables `number` and `seen_leap`.
unfoldable pub months_from : ℕ → List ℕ → ℕ → Bool → List Month
months_from leap_month [] number seen_leap = []
months_from leap_month (n ∷ ns) number seen_leap =
    if not seen_leap && (not (leap_month == 0) && (number - 1 == leap_month))
    then (let rest = months_from leap_month ns number true in
        record { number = leap_month; leap = true; length = n } ∷ rest)
    else (let rest = months_from leap_month ns (number + 1) seen_leap in
        record { number = number; leap = false; length = n } ∷ rest)

-- `_LunarYear.months`
unfoldable pub months : LunarYear → List Month
unfolding months_from
months y = months_from y.leap_month y.lengths 1 false

abbrev pub bool_eq : Bool → Bool → Bool
bool_eq true b = b
bool_eq false b = not b

-- `number == month and is_leap == leap`
abbrev pub is_month : ℕ → Bool → Month → Bool
is_month number leap m = (m.number == number) && bool_eq m.leap leap

-- `_year`, on the table `_YEARS`.
unfoldable pub find_year : ℕ → List LunarYear → Result LunarYear
find_year n [] = err validation_error
find_year n (y ∷ ys) = let rest = find_year n ys in if y.number == n then ok y else rest

-- The loop of `month_length`.
unfoldable pub find_length : List Month → ℕ → Bool → Result ℕ
find_length [] number leap = err validation_error
find_length (m ∷ ms) number leap =
    let rest = find_length ms number leap in if is_month number leap m then ok m.length else rest

-- `month_length`
unfoldable pub month_length : List LunarYear → ℕ → ℕ → Bool → Result ℕ
unfolding find_year months find_length
month_length table year number leap = do
  entry ← find_year year table
  find_length (months entry) number leap

-- The loop of `to_solar`: the days from the start of the year to the date.
unfoldable pub find_offset : List Month → LunarDate → Bool → ℕ → Result ℕ
find_offset [] d clamp offset = err validation_error
find_offset (m ∷ ms) d clamp offset =
    let rest = find_offset ms d clamp (offset + m.length) in
    if is_month d.month d.leap m
    then (if ltb m.length d.day
        then (if not clamp then err validation_error else ok (offset + m.length - 1))
        else ok (offset + d.day - 1))
    else rest

-- `to_solar`
unfoldable pub to_solar : List LunarYear → LunarDate → Bool → Result ℕ
unfolding find_year months find_offset
to_solar table d clamp = do
  entry ← find_year d.year table
  offset ← find_offset (months entry) d clamp 0
  ok (entry.start + offset)

-- `sum(entry.lengths)`
unfoldable pub span : List ℕ → ℕ
span [] = 0
span (n ∷ ns) = n + span ns

-- The inner loop of `from_solar`: the month in which the offset falls, with the day in it.
unfoldable pub find_month : ℕ → List Month → ℕ → Option LunarDate
find_month year [] offset = none
find_month year (m ∷ ms) offset =
    let rest = find_month year ms (offset - m.length) in
    if ltb offset m.length
    then some (record { year = year; month = m.number; day = offset + 1; leap = m.leap })
    else rest

-- `from_solar`, over the years in their order. A year whose months do not reach its span would fall
-- through to the next year.
unfoldable pub from_solar : List LunarYear → ℕ → Result LunarDate
unfolding span months find_month check_lunar_date
from_solar [] value = err validation_error
from_solar (y ∷ ys) value =
    let rest = from_solar ys value in
    if not (leb y.start value && ltb value (y.start + span y.lengths))
    then rest
    else elim (find_month y.number (months y) (value - y.start)) [
      | some d ↦ check_lunar_date d
      | none ↦ rest
    ]

-- `leap_month`
unfoldable pub leap_month : List LunarYear → ℕ → Result ℕ
unfolding find_year
leap_month table year = do entry ← find_year year table; ok entry.leap_month
