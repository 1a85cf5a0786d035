-- ===== src/Domain/Briefing.antt =====
-- src/zhixu/domain/briefing.py: the days that recur every year, and the daily briefing. A day is its
-- ordinal; whether a name is a time zone is an argument.
pub mod Next
use zhixu.Prelude.{
  ℕ, zero, suc, ◌+◌, ◌-◌, ◌*◌, ◌/◌, ◌%◌, ◌≤◌, ◌<◌, max, String, ◌≡◌, refl, sym, ap, ◌∙◌, ◌≢◌, ◌⊎◌,
  inl, inr, Bool, true, false, not, ◌&&◌, ◌||◌, Option, none, some, List, [], ◌∷◌, ◌++◌, map, arith,
  eq_iff, ltb, leb, ◌==◌, if◌then◌else◌, ltb→lt, leb→le, Bool-cases, Option-cases, length, any, all,
  All, length-append, str_eq, codes, is_space, is_blank, text_length, prefix, str_leb, str_mem,
  str_leb_total, str_leb_trans, str_leb_refl, str_eq_comm, str_eq_refl,
}
use zhixu.Prelude.Result.{
  Result-cases, Error, Result, ok, err, ◌>>=◌, ◌>>◌, raise_if, or_raise, >>=-eq-ok, >>-eq-ok,
  validation_error, not_found, conflict, concurrency_conflict, permission_denied,
  confirmation_required, classification_not_supported, invalid_transition, llm_unavailable,
  llm_budget_exceeded, invalid_model_output, value_error, key_error, permission_error,
  runtime_error, type_error, integrity_error, assertion_error,
}
use zhixu.Calendar.{Date, is_date, to_ordinal}
use zhixu.Domain.Time.{DateTime, require_aware}
use zhixu.Domain.Classification.{DataClassification, require_ordinary_storage}
use zhixu.Domain.Lunar.{LunarDate, LunarYear, check_lunar_date, to_solar, from_solar}

pub data ImportantDayKind : Type 0 where
  anniversary birthday : ImportantDayKind

pub data CalendarSystem : Type 0 where
  solar lunar : CalendarSystem

pub record Anniversary : Type 0 where
  pub id : String
  pub owner_user_id : String
  pub creator_user_id : String
  pub title : String
  pub anchor_date : Date
  pub timezone : String
  pub kind : ImportantDayKind
  pub calendar : CalendarSystem
  pub lunar_month : Option ℕ
  pub lunar_day : Option ℕ
  pub lunar_leap : Bool
  pub advance_days : List ℕ
  pub classification : DataClassification
  pub created_at : Option DateTime

abbrev require_all_aware : Option DateTime → Result (Unit {0})
require_all_aware none = ok tt
require_all_aware (some t) = require_aware t

-- The lunar part of `Anniversary.__post_init__`.
unfoldable pub check_calendar : Anniversary → Result (Unit {0})
unfolding check_lunar_date
check_calendar a = elim a.calendar [
  | lunar ↦ (do
    month ← or_raise a.lunar_month validation_error
    day ← or_raise a.lunar_day validation_error
    _ ←
        check_lunar_date
          (record { year = a.anchor_date.year; month = month; day = day; leap = false })
    ok tt)
  | solar ↦
      raise_if
        (not (
          elim a.lunar_month [ none ↦ true | some n ↦ false ]
          && elim a.lunar_day [ none ↦ true | some n ↦ false ]))
        validation_error
]

unfoldable pub repeats : List ℕ → Bool
repeats [] = false
repeats (n ∷ ns) = any (λ m. m == n) ns || repeats ns

-- `Anniversary.__post_init__`
unfoldable pub check_anniversary : (String → Bool) → Anniversary → Result Anniversary
unfolding check_calendar repeats require_aware require_ordinary_storage
check_anniversary is_zone a = do
  raise_if (any is_blank (a.id ∷ a.owner_user_id ∷ a.creator_user_id ∷ a.title ∷ []))
      validation_error
  raise_if (not (is_zone a.timezone)) validation_error
  require_ordinary_storage a.classification
  require_all_aware a.created_at
  check_calendar a
  raise_if (ltb 8 (length a.advance_days)) validation_error
  raise_if (any (λ n. not (leb 1 n && leb n 366)) a.advance_days) validation_error
  raise_if (repeats a.advance_days) validation_error
  ok a

-- `_solar_occurrence`: 29 February is marked on the 28th where there is none.
unfoldable pub solar_occurrence : Date → ℕ → ℕ
unfolding is_date to_ordinal
solar_occurrence anchor year =
    if is_date (record anchor { year = year })
    then to_ordinal (record anchor { year = year })
    else to_ordinal (record { year = year; month = 2; day = 28 })

abbrev day_of : Result ℕ → Option ℕ
day_of (ok s) = some s
day_of (err e) = none

-- One turn of the loop of `_lunar_occurrence`, whose only errors are ValidationErrors.
unfoldable pub lunar_day_in : List LunarYear → ℕ → ℕ → ℕ → Bool → Option ℕ
unfolding check_lunar_date to_solar
lunar_day_in table year month day leap = day_of (do
  d ← check_lunar_date (record { year = year; month = month; day = day; leap = leap })
  to_solar table d true)

-- `_lunar_occurrence`: in the leap month if the day is of one and the year has it, else in the month.
unfoldable pub lunar_occurrence : List LunarYear → ℕ → ℕ → ℕ → Bool → Option ℕ
unfolding lunar_day_in
lunar_occurrence table year month day leap =
    let plain = lunar_day_in table year month day false in
    if leap
    then elim (lunar_day_in table year month day true) [ some s ↦ some s | none ↦ plain ]
    else plain

-- `when.year == year`
unfoldable pub is_in_year : ℕ → ℕ → Bool
unfolding to_ordinal
is_in_year year s =
    leb (to_ordinal (record { year = year; month = 1; day = 1 })) s
    && ltb s (to_ordinal (record { year = year + 1; month = 1; day = 1 }))

abbrev within_year : ℕ → Option ℕ → Option ℕ
within_year year none = none
within_year year (some s) = if is_in_year year s then some s else none

-- `Anniversary.occurrence_in`, over the installed lunar years.
unfoldable pub occurrence_in : List LunarYear → Anniversary → ℕ → Result (Option ℕ)
unfolding solar_occurrence lunar_occurrence is_in_year
occurrence_in table a year = elim a.calendar [
  | solar ↦ ok (some (solar_occurrence a.anchor_date year))
  | lunar ↦ (do
    month ← or_raise a.lunar_month assertion_error
    day ← or_raise a.lunar_day assertion_error
    let earlier = within_year year (lunar_occurrence table (year - 1) month day a.lunar_leap)
    let later = within_year year (lunar_occurrence table year month day a.lunar_leap)
    ok (elim earlier [ some s ↦ some s | none ↦ later ]))
]

abbrev from_day : ℕ → Option ℕ → Option ℕ
from_day today none = none
from_day today (some s) = if leb today s then some s else none

-- `Anniversary.next_occurrence`
unfoldable pub next_occurrence : List LunarYear → Anniversary → Date → Result (Option ℕ)
unfolding occurrence_in to_ordinal
next_occurrence table a today = do
  this ← occurrence_in table a today.year
  elim (from_day (to_ordinal today) this) [
    | some s ↦ ok (some s)
    | none ↦ (do
      next ← occurrence_in table a (today.year + 1)
      ok (from_day (to_ordinal today) next))
  ]

-- `Anniversary.day_number`, for a day that is not before the anchor.
unfoldable pub day_number : Anniversary → Date → ℕ
unfolding to_ordinal
day_number a today = to_ordinal today - to_ordinal a.anchor_date + 1

-- `Anniversary.advance_notice_for`
unfoldable pub advance_notice_for : List LunarYear → Anniversary → Date → Result (Option (ℕ × ℕ))
unfolding next_occurrence to_ordinal
advance_notice_for table a today = do
  next ← next_occurrence table a today
  ok (elim next [
    | none ↦ none
    | some s ↦
        if any (λ n. n == s - to_ordinal today) a.advance_days
        then some (s, s - to_ordinal today)
        else none
  ])

-- `Anniversary.counts_elapsed_days`
unfoldable pub counts_elapsed_days : Anniversary → Bool
counts_elapsed_days a = elim a.kind [ anniversary ↦ true | birthday ↦ false ]

-- `Anniversary.has_known_year`: the year 1 stands for none.
unfoldable pub has_known_year : Anniversary → Bool
has_known_year a = ltb 1 a.anchor_date.year

-- `Anniversary.elapsed_years`, for a year that is not before that of the anchor.
unfoldable pub elapsed_years : Anniversary → ℕ → ℕ
unfolding has_known_year
elapsed_years a year = if not (has_known_year a) then 0 else year - a.anchor_date.year

-- `lunar_date_of`, whose only errors are ValidationErrors.
unfoldable pub lunar_date_of : List LunarYear → ℕ → Option LunarDate
unfolding from_solar
lunar_date_of table value = elim (from_solar table value) [ ok d ↦ some d | err e ↦ none ]

-- The time of day is its minutes, with a mark that it has no zone.
pub record DailyBriefing : Type 0 where
  pub id : String
  pub owner_user_id : String
  pub creator_user_id : String
  pub target_ref : String
  pub time_of_day : ℕ
  pub time_is_naive : Bool
  pub timezone : String
  pub classification : DataClassification
  pub enabled : Bool
  pub last_sent_on : Option Date
  pub created_at : Option DateTime
  pub updated_at : Option DateTime

-- `DailyBriefing.__post_init__`
unfoldable pub check_daily_briefing : (String → Bool) → DailyBriefing → Result DailyBriefing
unfolding require_aware require_ordinary_storage
check_daily_briefing is_zone b = do
  raise_if (any is_blank (b.id ∷ b.owner_user_id ∷ b.creator_user_id ∷ b.target_ref ∷ []))
      validation_error
  raise_if (not b.time_is_naive) validation_error
  raise_if (not (is_zone b.timezone)) validation_error
  require_ordinary_storage b.classification
  require_all_aware b.created_at
  require_all_aware b.updated_at
  ok b
