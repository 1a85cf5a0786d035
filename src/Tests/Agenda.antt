-- ===== src/Tests/Agenda.antt =====
-- Runs of the agenda (src/zhixu/domain/agenda.py and the services over its repository).
use zhixu.Prelude.{ℕ, ◌*◌, ◌≡◌, refl, true, false, none, some, List, [], ◌∷◌, arith, is_blank}
use zhixu.Prelude.Int.{pos}
use zhixu.Prelude.Text.{is_blank}
use zhixu.Prelude.Table.{update_where, delete_where, count_where}
use zhixu.Prelude.Keyed.{find}
use zhixu.Domain.Time.{DateTime}
use zhixu.Domain.Classification.{personal}
use zhixu.Domain.Policy.{
  CommandContext, AuthorizedAction, update, delete, password, private_chat, has_access,
}
use zhixu.Domain.Reminder.{Reminder, ReminderStatus, fire}
use zhixu.Domain.Business.{BusinessCalendar}
use zhixu.Domain.Agenda.{Calendars, BusinessDayRule, AgendaItem, RecurrenceException, cancel}
use zhixu.Domain.Agenda.Months.{month_loop, month_starts, month_loop_ends}
use zhixu.Domain.Agenda.Occurrences.{AgendaOccurrence}
use zhixu.Domain.Agenda.Occurrences.Window.{planned}
use zhixu.Storage.Tables.{Database}
use zhixu.Storage.Access.{event}
use zhixu.Storage.Reminders.{Checks, set_status, reminder_ref}
use zhixu.Storage.Agenda.{AgendaDatabase, agenda_ref}
use zhixu.Services.Agenda.{delete_agenda}
use zhixu.Services.Agenda.Announcements.{key}
use zhixu.Services.Agenda.Silenced.{Silences, delete_agenda-Silent}

abbrev at : ℕ → DateTime
at t = record { instant = t; aware = true }

abbrev checks : Checks
checks = record { is_zone = λ z. true; urlsplit = λ u. none }

abbrev calendars : Calendars
calendars = record {
  is_zone = λ z. true;
  local_date = λ z t. record { year = 2026; month = 1; day = 1 };
  combine = λ z d t. 1000 * d.day;
  wall = λ z t. t;
  moment = λ z t. t;
  digit = λ c. none;
  is_rule = λ v z. true;
  between = λ v d s e. 1000 ∷ 2000 ∷ 3000 ∷ [];
  business = [];
}

abbrev city : BusinessCalendar
city = record { token = "CITY"; supported_years = 2026 ∷ []; holidays = [] }

abbrev second_day : BusinessDayRule
second_day = record { calendar = city; position = pos 2 }

-- From December 2026 to January 2027, with more fuel than two months need.
month_loop_ends_example :
    month_loop calendars "zone" 0 second_day 5 2026 12 2027 1
    ≡ some (month_starts calendars "zone" 0 second_day 2 2026 12)
month_loop_ends_example =
    month_loop_ends calendars "zone" 0 second_day 5 2026 12 2027 1 (omega arith) (omega arith)
      (omega arith)

abbrev meeting : AgendaItem
meeting = record {
  id = "a1";
  owner_user_id = "alice";
  title = "meeting";
  start_at = at 1000;
  end_at = at 1100;
  timezone = "zone";
  creator_user_id = some "alice";
  all_day = false;
  description = "";
  action_links = [];
  classification = personal;
  recurrence = some (record { value = "FREQ=DAILY"; timezone = "zone" });
  version = 1;
  created_at = some (at 10);
  updated_at = some (at 10);
}

abbrev second_off : List RecurrenceException
second_off =
    record {
      occurrence_at = at 2000;
      action = cancel;
      replacement_start = none;
      replacement_end = none;
    }
    ∷ []

abbrev shown : List AgendaOccurrence
shown = planned calendars meeting 1000 ∷ []

abbrev row : AgendaItem
row = record meeting { recurrence = none }

abbrev notice : Reminder
notice = record {
  id = "r1";
  owner_user_id = "alice";
  title = "meeting";
  fire_at = at 950;
  target_ref = "alice";
  creator_user_id = some "alice";
  action_links = [];
  status = ReminderStatus.pending;
  missed_policy = fire;
  classification = personal;
  related_kind = some "agenda";
  related_id = some "a1";
  related_start_at = some (at 1000);
  timezone = none;
  version = 1;
  created_at = some (at 10);
  updated_at = some (at 10);
}

abbrev base : Database
base = record {
  users = "alice" ∷ [];
  resource_acl = [];
  tasks = [];
  reminders = notice ∷ [];
  routes = [];
  deliveries = [];
  audit_events = [];
}

abbrev agenda : AgendaDatabase
agenda = record { base = base; items = row ∷ []; rules = []; exceptions = [] }

abbrev alice : CommandContext
alice = record {
  actor_user_id = "alice";
  roles = [];
  shared_owner_user_id = none;
  readable_shared_owner_user_ids = [];
  authentication = password;
  request_channel = private_chat;
  confirmed = true;
  now = none;
}

abbrev to_cancel : AuthorizedAction
to_cancel = record {
  actor_user_id = "alice";
  action = update;
  resource = reminder_ref notice;
  authorized_at = at 500;
}

abbrev to_delete : AuthorizedAction
to_delete = record {
  actor_user_id = "alice";
  action = delete;
  resource = agenda_ref row;
  authorized_at = at 500;
}

abbrev silenced : AgendaDatabase
silenced = record {
  base = record base {
    reminders = set_status ReminderStatus.cancelled 500 notice ∷ [];
    audit_events = event to_cancel "completed" "cancelled" ∷ event to_delete "completed" "" ∷ [];
  };
  items = [];
  rules = [];
  exceptions = [];
}

delete_agenda-Silent_example :
    (item : AgendaItem) × (find key "a1" agenda.items ≡ some item)
    × (find key "a1" silenced.items ≡ none)
    × Silences "a1" item.owner_user_id agenda silenced
unfolding delete_agenda is_blank has_access count_where update_where delete_where
delete_agenda-Silent_example =
    delete_agenda-Silent checks calendars agenda silenced "a1" alice (at 500) (refl, tt) refl
