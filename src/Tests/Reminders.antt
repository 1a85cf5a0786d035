-- ===== src/Tests/Reminders.antt =====
-- Runs of reminders: one that is due, one that is cancelled, and one that a calendar item makes
-- (src/zhixu/adapters/storage/sqlite/repositories.py, src/zhixu/application/services.py and scheduler.py).
use zhixu.Prelude.{ℕ, ◌≡◌, refl, true, false, none, some, List, [], ◌∷◌, is_blank}
use zhixu.Prelude.Result.{ok}
use zhixu.Prelude.Int.{pos}
use zhixu.Prelude.Text.{is_blank}
use zhixu.Prelude.Table.{select_one}
use zhixu.Domain.Time.{DateTime}
use zhixu.Domain.Classification.{personal}
use zhixu.Domain.Policy.{CommandContext, password, private_chat}
use zhixu.Domain.Reminder.{Reminder, ReminderStatus, fire}
use zhixu.Domain.Agenda.{AgendaItem}
use zhixu.Domain.Agenda.Occurrences.{AgendaOccurrence}
use zhixu.Storage.Tables.{Database}
use zhixu.Storage.Leads.{Leads}
use zhixu.Storage.Reminders.{Checks, set_status}
use zhixu.Storage.Reminders.Effect.{created}
use zhixu.Storage.Reminders.Due.{Writing, set_row, reminder_delivery, enqueue_due}
use zhixu.Storage.Reminders.Due.Again.{enqueue_due_again}
use zhixu.Storage.Reminders.Due.Settle.{row_of}
use zhixu.Services.Reminders.Calls.{Call, snoozes, ticks, run}
use zhixu.Services.Reminders.Cancelled.{cancelled_stays}
use zhixu.Scheduler.Leads.{Ports, lead_reminder, by_service}

abbrev at : ℕ → DateTime
at t = record { instant = t; aware = true }

abbrev checks : Checks
checks = record { is_zone = λ z. true; urlsplit = λ u. none }

abbrev writing : Writing
writing = record { isoformat = λ t. "a moment"; delivery_id = λ k. k; card = λ r. r.title }

abbrev call_home : Reminder
call_home = record {
  id = "r1";
  owner_user_id = "alice";
  title = "call home";
  fire_at = at 1500;
  target_ref = "alice";
  creator_user_id = some "alice";
  action_links = [];
  status = ReminderStatus.pending;
  missed_policy = fire;
  classification = personal;
  related_kind = none;
  related_id = none;
  related_start_at = none;
  timezone = none;
  version = 1;
  created_at = some (at 10);
  updated_at = some (at 10);
}

abbrev database_of : List Reminder → Database
database_of rows = record {
  users = "alice" ∷ [];
  resource_acl = [];
  tasks = [];
  reminders = rows;
  routes = [];
  deliveries = [];
  audit_events = [];
}

abbrev with_due : Database
with_due = database_of (call_home ∷ [])

abbrev enqueued : Database
enqueued =
    set_row "r1" ReminderStatus.fired 2000 "enqueue" ""
      (record with_due { deliveries = reminder_delivery writing with_due call_home 2000 ∷ [] })

enqueues_once : enqueue_due checks writing with_due (at 2000) 300 ≡ ok (1, enqueued)
unfolding enqueue_due is_blank
enqueues_once = refl

enqueue_due_again_example : enqueue_due checks writing enqueued (at 2000) 60 ≡ ok (0, enqueued)
enqueue_due_again_example = enqueue_due_again checks writing with_due (at 2000) 300 60 enqueues_once

abbrev dropped : Reminder
dropped = set_status ReminderStatus.cancelled 1600 call_home

abbrev alice : CommandContext
alice = record {
  actor_user_id = "alice";
  roles = [];
  shared_owner_user_id = none;
  readable_shared_owner_user_ids = [];
  authentication = password;
  request_channel = private_chat;
  confirmed = false;
  now = none;
}

abbrev later_calls : List Call
later_calls = ticks (at 2000) 300 ∷ snoozes "r1" (at 5000) alice (at 2500) ∷ []

cancelled_stays_example :
    row_of (run checks writing later_calls (database_of (dropped ∷ []))) "r1" ≡ some dropped
unfolding select_one
cancelled_stays_example =
    cancelled_stays checks writing later_calls (database_of (dropped ∷ [])) dropped refl refl

abbrev concert : AgendaItem
concert = record {
  id = "a1";
  owner_user_id = "alice";
  title = "concert";
  start_at = at 10_000_000_000;
  end_at = at 20_000_000_000;
  timezone = "Asia/Shanghai";
  creator_user_id = some "alice";
  all_day = false;
  description = "";
  action_links = [];
  classification = personal;
  recurrence = none;
  version = 1;
  created_at = some (at 10);
  updated_at = some (at 10);
}

abbrev evening : AgendaOccurrence
evening = record {
  agenda_item_id = "a1";
  start_at = 10_000_000_000;
  end_at = 20_000_000_000;
  title = "concert";
  replaced = false;
  creator_user_id = some "alice";
}

abbrev ports : Ports
ports = record {
  list_scheduled = λ s e. ok (concert ∷ []);
  occurrences = λ o s e. ok (evening ∷ []);
  default_target_for = λ o. some "alice";
  wall = λ z t. t;
  moment = λ z t. t;
  isoformat = λ t. "a moment";
  decimal = λ m. "60";
  reminder_id = λ i. i;
}

-- The owner chose one hour, and one day, which is already past.
abbrev leads : Leads
leads = record {
  users = "alice" ∷ [];
  agenda_items = "a1" ∷ [];
  defaults = [];
  overrides =
      record {
        agenda_item_id = "a1";
        owner_user_id = "alice";
        lead_minutes = pos 1440 ∷ pos 60 ∷ [];
        updated_at = 5;
      }
      ∷ [];
}

abbrev announcement : Reminder
announcement = created (lead_reminder checks ports 1000 concert evening (pos 60) "alice") (
    by_service checks ports 1000 (lead_reminder checks ports 1000 concert evening (pos 60) "alice"))
