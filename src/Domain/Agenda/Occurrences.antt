-- ===== src/Domain/Agenda/Occurrences.antt =====
-- `occurrences_between` of src/zhixu/domain/agenda.py: the occurrences of an item in a window, with its
-- exceptions. A moment is a number; before the first one the subtraction of a duration stops at 0. The
-- times of an item are in its zone, as the repository loads them, and the window is in UTC.
pub mod Exceptions
pub mod Window
use zhixu.Prelude.{
  ℕ, zero, suc, ◌+◌, ◌-◌, ◌*◌, ◌/◌, ◌%◌, ◌≤◌, ◌<◌, max, String, ◌≡◌, refl, sym, ap, ◌∙◌, subst, ◌≢◌,
  ◌⊎◌, inl, inr, Bool, true, false, not, ◌&&◌, ◌||◌, Option, none, some, List, [], ◌∷◌, ◌++◌, map,
  arith, eq_iff, ltb, leb, ◌==◌, if◌then◌else◌, ltb→lt, leb→le, Bool-cases, Option-cases, length,
  any, all, All, length-append, str_eq, codes, is_space, is_blank, text_length, prefix, str_leb,
  str_mem, str_leb_total, str_leb_trans, str_leb_refl, str_eq_comm, str_eq_refl,
}
use zhixu.Prelude.Result.{
  Result-cases, Error, Result, ok, err, ◌>>=◌, ◌>>◌, raise_if, or_raise, >>=-eq-ok, >>-eq-ok,
  validation_error, not_found, conflict, concurrency_conflict, permission_denied,
  confirmation_required, classification_not_supported, invalid_transition, llm_unavailable,
  llm_budget_exceeded, invalid_model_output, value_error, key_error, permission_error,
  runtime_error, type_error, integrity_error, assertion_error,
}
use zhixu.Domain.Time.{DateTime, require_aware}
use zhixu.Domain.Agenda.{
  Calendars, AgendaItem, RecurrenceRule, RecurrenceException, ExceptionAction, cancel, replace,
  parse_business_day_rule,
}
use zhixu.Domain.Agenda.Months.{month_loop, month_count}

pub record AgendaOccurrence : Type 0 where
  pub agenda_item_id : String
  pub start_at : ℕ
  pub end_at : ℕ
  pub title : String
  pub replaced : Bool
  pub creator_user_id : Option String

-- `item.end_at - item.start_at`. Both times are in the zone of the item, as the repository loads them, so
-- Python subtracts wall times; the constructor of the item refuses an end that is not after its start.
abbrev pub duration : Calendars → AgendaItem → ℕ
duration k item =
    k.wall item.timezone item.end_at.instant - k.wall item.timezone item.start_at.instant

-- `start + duration`, in wall time of the zone.
abbrev pub end_of : Calendars → AgendaItem → ℕ → ℕ
end_of k item start = k.moment item.timezone (k.wall item.timezone start + duration k item)

-- The loop with fuel for every month of the window.
abbrev loop_result : Option (Result (List ℕ)) → Result (List ℕ)
loop_result none = err assertion_error
loop_result (some r) = r

unfoldable pub business_starts :
    Calendars → AgendaItem → RecurrenceRule → ℕ → ℕ → Option (Result (List ℕ))
unfolding parse_business_day_rule month_loop
business_starts k item r window_start window_end = elim (parse_business_day_rule k r.value) [
  | none ↦ none
  | some rule ↦
      let first = k.local_date item.timezone (window_start - duration k item) in
      let last = k.local_date item.timezone window_end in
      let count = month_count first.year first.month last.year last.month in
      some (
        loop_result (
          month_loop k item.timezone item.start_at.instant rule (suc count) first.year first.month
            last.year last.month))
]

abbrev pub outside : ℕ → ℕ → ℕ → ℕ → Bool
outside start end window_start window_end = leb end window_start || leb window_end start

-- The value of `starts`.
unfoldable pub starts_of : Calendars → AgendaItem → ℕ → ℕ → Result (List ℕ)
unfolding business_starts
starts_of k item window_start window_end = elim item.recurrence [
  | none ↦ ok (
      if outside item.start_at.instant item.end_at.instant window_start window_end
      then []
      else item.start_at.instant ∷ [])
  | some r ↦ elim (business_starts k item r window_start window_end) [
    | some starts ↦ starts
    | none ↦ ok (k.between r.value item.start_at (window_start - duration k item) window_end)
  ]
]

-- `exception_map.get(start)`: of several exceptions for one start the last one counts.
unfoldable pub exception_at : ℕ → List RecurrenceException → Option RecurrenceException
exception_at start [] = none
exception_at start (x ∷ xs) = elim (exception_at start xs) [
  | some later ↦ some later
  | none ↦ if x.occurrence_at.instant == start then some x else none
]

module _ (k : Calendars) (item : AgendaItem) (window_start window_end : ℕ) where
  abbrev pub regular : ℕ → AgendaOccurrence
  regular start = record {
    agenda_item_id = item.id;
    start_at = start;
    end_at = end_of k item start;
    title = item.title;
    replaced = false;
    creator_user_id = item.creator_user_id;
  }

  abbrev pub moved : ℕ → ℕ → AgendaOccurrence
  moved start end = record {
    agenda_item_id = item.id;
    start_at = start;
    end_at = end;
    title = item.title;
    replaced = true;
    creator_user_id = item.creator_user_id;
  }

  abbrev pub moved_within : DateTime → DateTime → Result (List AgendaOccurrence)
  moved_within s e = ok (
      if outside s.instant e.instant window_start window_end
      then []
      else moved s.instant e.instant ∷ [])

  abbrev pub replacement : Option DateTime → Option DateTime → Result (List AgendaOccurrence)
  replacement start end = do
    s ← or_raise start assertion_error
    e ← or_raise end assertion_error
    moved_within s e

  abbrev pub by_action : RecurrenceException → ExceptionAction → Result (List AgendaOccurrence)
  by_action x cancel = ok []
  by_action x replace = replacement x.replacement_start x.replacement_end

  abbrev pub with_exception : ℕ → Option RecurrenceException → Result (List AgendaOccurrence)
  with_exception start none = ok (regular start ∷ [])
  with_exception start (some x) = by_action x x.action

  -- What one start contributes.
  unfoldable pub occurrence_of : List RecurrenceException → ℕ → Result (List AgendaOccurrence)
  unfolding exception_at
  occurrence_of exceptions start =
      if outside start (end_of k item start) window_start window_end
      then ok []
      else with_exception start (exception_at start exceptions)

  unfoldable pub expand : List RecurrenceException → List ℕ → Result (List AgendaOccurrence)
  unfolding occurrence_of
  expand exceptions [] = ok []
  expand exceptions (start ∷ starts) =
      let rest = expand exceptions starts in
      do mine ← occurrence_of exceptions start; others ← rest; ok (mine ++ others)

-- `occurrences_between`
unfoldable pub occurrences_between :
    Calendars
    → AgendaItem
    → DateTime
    → DateTime
    → List RecurrenceException
    → Result (List AgendaOccurrence)
unfolding require_aware starts_of expand
occurrences_between k item window_start window_end exceptions = do
  require_aware window_start
  require_aware window_end
  raise_if (leb window_end.instant window_start.instant) validation_error
  starts ← starts_of k item window_start.instant window_end.instant
  expand k item window_start.instant window_end.instant exceptions starts
