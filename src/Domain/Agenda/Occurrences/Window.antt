-- ===== src/Domain/Agenda/Occurrences/Window.antt =====
-- Which occurrences a window shows.
use zhixu.Prelude.{ℕ, ◌+◌, ◌-◌, ◌<◌, true, ◌≡◌, false, some, List}
use zhixu.Prelude.Table.{In}
use zhixu.Domain.Time.{DateTime}
use zhixu.Domain.Agenda.{Calendars, AgendaItem, RecurrenceException, replace}
use zhixu.Domain.Agenda.Occurrences.{AgendaOccurrence}
use zhixu.Domain.Agenda.Occurrences.Exceptions.{Free, IsLast}

-- A start as it is planned: by the clock of its zone it lasts as long as the item does.
abbrev pub planned_end : Calendars → AgendaItem → ℕ → ℕ
planned_end k item start = k.moment item.timezone (
    k.wall item.timezone start
    + (k.wall item.timezone item.end_at.instant - k.wall item.timezone item.start_at.instant))

abbrev pub planned : Calendars → AgendaItem → ℕ → AgendaOccurrence
planned k item start = record {
  agenda_item_id = item.id;
  start_at = start;
  end_at = planned_end k item start;
  title = item.title;
  replaced = false;
  creator_user_id = item.creator_user_id;
}

abbrev pub replaced_by : AgendaItem → ℕ → ℕ → AgendaOccurrence
replaced_by item start end = record {
  agenda_item_id = item.id;
  start_at = start;
  end_at = end;
  title = item.title;
  replaced = true;
  creator_user_id = item.creator_user_id;
}

-- Why an occurrence is shown: it overlaps the window, and stands for a start that overlaps it too,
-- which has no exception, or one that moves it to these times.
pub data Shown (k : Calendars) (item : AgendaItem) (ws we : ℕ)
    (exceptions : List RecurrenceException) (start : ℕ) (o : AgendaOccurrence) : Type 0 where
  as_planned :
      Free start exceptions → o ≡ planned k item start → Shown k item ws we exceptions start o
  as_moved :
      (x : RecurrenceException) (s e : DateTime)
      → IsLast start exceptions x
      → x.action ≡ replace
      → x.replacement_start ≡ some s
      → x.replacement_end ≡ some e
      → o ≡ replaced_by item s.instant e.instant
      → Shown k item ws we exceptions start o

abbrev pub Overlaps : ℕ → ℕ → ℕ → ℕ → Type 0
Overlaps start end ws we = (ws < end) × (start < we)

pub record Reason (k : Calendars) (item : AgendaItem) (ws we : ℕ)
    (exceptions : List RecurrenceException) (starts : List ℕ) (o : AgendaOccurrence) : Type 0 where
  pub start : ℕ
  pub listed : In start starts
  pub start_overlaps : Overlaps start (planned_end k item start) ws we
  pub overlaps : Overlaps o.start_at o.end_at ws we
  pub shown : Shown k item ws we exceptions start o
