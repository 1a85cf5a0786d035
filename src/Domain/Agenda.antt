-- ===== src/Domain/Agenda.antt =====
-- src/zhixu/domain/agenda.py: calendar items with their checks, the text of a business-day rule, and the
-- expansion of an item into its occurrences. Time zones, and the rules that `dateutil` expands, are the
-- functions of a record.
pub mod Months
pub mod Occurrences
use zhixu.Prelude.{
  ℕ, zero, suc, ◌+◌, ◌-◌, ◌*◌, ◌/◌, ◌%◌, ◌≤◌, ◌<◌, max, String, ◌≡◌, refl, sym, ap, ◌∙◌, subst, ◌≢◌,
  ◌⊎◌, inl, inr, Bool, true, false, not, ◌&&◌, ◌||◌, Option, none, some, List, [], ◌∷◌, ◌++◌, map,
  arith, eq_iff, ltb, leb, ◌==◌, if◌then◌else◌, ltb→lt, leb→le, Bool-cases, Option-cases, length,
  any, all, All, length-append, str_eq, codes, is_space, is_blank, text_length, prefix, str_leb,
  str_mem, str_leb_total, str_leb_trans, str_leb_refl, str_eq_comm, str_eq_refl,
}
use zhixu.Prelude.Result.{
  Result-cases, Error, Result, ok, err, ◌>>=◌, ◌>>◌, raise_if, or_raise, >>=-eq-ok, >>-eq-ok,
  validation_error, not_found, conflict, concurrency_conflict, permission_denied,
  confirmation_required, classification_not_supported, invalid_transition, llm_unavailable,
  llm_budget_exceeded, invalid_model_output, value_error, key_error, permission_error,
  runtime_error, type_error, integrity_error, assertion_error,
}
use zhixu.Prelude.Int.{ℤ, pos, negsuc, magnitude}
use zhixu.Calendar.{Date}
use zhixu.Domain.Time.{DateTime, require_aware}
use zhixu.Domain.Classification.{DataClassification, require_ordinary_storage}
use zhixu.Domain.Reminder.{ActionLink}
use zhixu.Domain.Business.{BusinessCalendar, monthly_business_day}

-- What the code takes from `zoneinfo`, `dateutil` and the tables of Unicode: the local date of a moment
-- in a zone, the moment of the wall time of a start on another date, the wall time of a moment in a zone and
-- the first moment of a wall time, both in microseconds, the value of a decimal digit, whether
-- a rule can be parsed, and the starts of a rule from one moment to another, both included.
pub record Calendars : Type 0 where
  pub is_zone : String → Bool
  pub local_date : String → ℕ → Date
  pub combine : String → Date → ℕ → ℕ
  pub wall : String → ℕ → ℕ
  pub moment : String → ℕ → ℕ
  pub digit : ℕ → Option ℕ
  pub is_rule : String → String → Bool
  pub between : String → DateTime → ℕ → ℕ → List ℕ
  pub business : List BusinessCalendar

-- `BusinessDayRule`
pub record BusinessDayRule : Type 0 where
  pub calendar : BusinessCalendar
  pub position : ℤ

-- The rest of a text after a prefix.
unfoldable pub after_prefix : List ℕ → List ℕ → Option (List ℕ)
after_prefix [] xs = some xs
after_prefix (p ∷ ps) [] = none
after_prefix (p ∷ ps) (x ∷ xs) = let rest = after_prefix ps xs in if p == x then rest else none

-- `[A-Z_]`
abbrev in_token : ℕ → Bool
in_token c = (leb 65 c && leb c 90) || c == 95

-- The longest run of characters of a token, and what follows.
unfoldable pub token_span : List ℕ → List ℕ × List ℕ
token_span [] = ([], [])
token_span (c ∷ cs) =
    let (run, rest) = token_span cs in if in_token c then (c ∷ run, rest) else ([], c ∷ cs)

unfoldable pub same_codes : List ℕ → List ℕ → Bool
same_codes [] [] = true
same_codes (x ∷ xs) (y ∷ ys) = x == y && same_codes xs ys
same_codes _ _ = false

unfoldable pub find_calendar : List ℕ → List BusinessCalendar → Option BusinessCalendar
unfolding same_codes
find_calendar token [] = none
find_calendar token (c ∷ cs) =
    let rest = find_calendar token cs in if same_codes (codes c.token) token then some c else rest

-- `$` matches at the end and before a last newline.
abbrev at_end : List ℕ → Bool
at_end [] = true
at_end (c ∷ []) = c == 10
at_end _ = false

abbrev opposite : ℕ → ℤ
opposite zero = pos 0
opposite (suc n) = negsuc n

abbrev when_ended : List ℕ → ℤ → Option ℤ
when_ended rest z = if at_end rest then some z else none

module _ (k : Calendars) where
  -- A second digit, where there is one.
  abbrev second_digit : (ℕ → ℤ) → ℕ → List ℕ → Option ℤ
  second_digit sign a [] = some (sign a)
  second_digit sign a (c ∷ cs) = elim (k.digit c) [
    | none ↦ when_ended (c ∷ cs) (sign a)
    | some b ↦ when_ended cs (sign (10 * a + b))
  ]

  -- `\\d{1,2}$` and `int`.
  unfoldable pub parse_digits : (ℕ → ℤ) → List ℕ → Option ℤ
  parse_digits sign [] = none
  parse_digits sign (c ∷ cs) = elim (k.digit c) [ none ↦ none | some a ↦ second_digit sign a cs ]

  -- `-?\\d{1,2}$`
  unfoldable pub parse_position : List ℕ → Option ℤ
  unfolding parse_digits
  parse_position [] = none
  parse_position (c ∷ cs) = if c == 45 then parse_digits opposite cs else parse_digits pos (c ∷ cs)

  abbrev pub is_empty : List ℕ → Bool
  is_empty [] = true
  is_empty (c ∷ cs) = false

  -- `parse_business_day_rule`
  unfoldable pub parse_business_day_rule : String → Option BusinessDayRule
  unfolding after_prefix token_span find_calendar parse_position
  parse_business_day_rule value =
      elim (after_prefix (codes "X-BUSINESS-DAY;CALENDAR=") (codes value)) [
        | none ↦ none
        | some rest ↦
            let (token, more) = token_span rest in
            if is_empty token then none else elim (after_prefix (codes ";BYSETPOS=") more) [
              | none ↦ none
              | some tail ↦ elim (parse_position tail) [
                | none ↦ none
                | some position ↦ elim (find_calendar token k.business) [
                  | none ↦ none
                  | some c ↦ some (record { calendar = c; position = position })
                ]
              ]
            ]
      ]

-- `RecurrenceRule`
pub record RecurrenceRule : Type 0 where
  pub value : String
  pub timezone : String

abbrev is_business : Option BusinessDayRule → Bool
is_business none = false
is_business (some r) = true

-- `RecurrenceRule.__post_init__`
unfoldable pub check_rule : Calendars → RecurrenceRule → Result RecurrenceRule
unfolding parse_business_day_rule
check_rule k r = do
  raise_if (is_blank r.value) validation_error
  raise_if (not (k.is_zone r.timezone)) validation_error
  raise_if (not (is_business (parse_business_day_rule k r.value) || k.is_rule r.value r.timezone))
      validation_error
  ok r

-- `ExceptionAction`
pub data ExceptionAction : Type 0 where
  cancel replace : ExceptionAction

pub record RecurrenceException : Type 0 where
  pub occurrence_at : DateTime
  pub action : ExceptionAction
  pub replacement_start : Option DateTime
  pub replacement_end : Option DateTime

-- `RecurrenceException.__post_init__`
unfoldable pub check_exception : RecurrenceException → Result RecurrenceException
unfolding require_aware
check_exception x = do
  require_aware x.occurrence_at
  elim x.action [
    | cancel ↦ ok x
    | replace ↦ (do
      start ← or_raise x.replacement_start validation_error
      end ← or_raise x.replacement_end validation_error
      require_aware start
      require_aware end
      raise_if (leb end.instant start.instant) validation_error
      ok x)
  ]

pub record AgendaItem : Type 0 where
  pub id : String
  pub owner_user_id : String
  pub title : String
  pub start_at : DateTime
  pub end_at : DateTime
  pub timezone : String
  pub creator_user_id : Option String
  pub all_day : Bool
  pub description : String
  pub action_links : List ActionLink
  pub classification : DataClassification
  pub recurrence : Option RecurrenceRule
  pub version : ℕ
  pub created_at : Option DateTime
  pub updated_at : Option DateTime

abbrev is_some_blank : Option String → Bool
is_some_blank none = false
is_some_blank (some s) = is_blank s

abbrev require_aware? : Option DateTime → Result (Unit {0})
require_aware? none = ok tt
require_aware? (some t) = require_aware t

abbrev in_other_zone : String → Option RecurrenceRule → Bool
in_other_zone zone none = false
in_other_zone zone (some r) = not (str_eq r.timezone zone)

-- `AgendaItem.__post_init__`
unfoldable pub check_item : Calendars → AgendaItem → Result AgendaItem
unfolding require_aware require_ordinary_storage
check_item k i = do
  raise_if (is_blank i.id || (is_blank i.owner_user_id || is_blank i.title)) validation_error
  raise_if (is_some_blank i.creator_user_id) validation_error
  require_aware i.start_at
  require_aware i.end_at
  raise_if (not (k.is_zone i.timezone)) validation_error
  raise_if (leb i.end_at.instant i.start_at.instant) validation_error
  raise_if (ltb i.version 1) validation_error
  require_aware? i.created_at
  require_aware? i.updated_at
  require_ordinary_storage i.classification
  raise_if (ltb 8 (length i.action_links)) validation_error
  raise_if (in_other_zone i.timezone i.recurrence) validation_error
  ok i
