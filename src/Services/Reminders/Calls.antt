-- ===== src/Services/Reminders/Calls.antt =====
-- The commands on reminders and the ticks of `ReminderScheduler` (src/zhixu/application/scheduler.py) as
-- values, and their runs.
use zhixu.Prelude.{ℕ, String, List, [], ◌∷◌}
use zhixu.Prelude.Result.{Result, ok, err}
use zhixu.Domain.Time.{DateTime}
use zhixu.Domain.Policy.{CommandContext}
use zhixu.Storage.Tables.{Database}
use zhixu.Storage.Reminders.{Checks}
use zhixu.Storage.Reminders.Due.{Writing, enqueue_due}
use zhixu.Services.Reminders.{
  CreateReminder, create_reminder, acknowledge_reminder, cancel_reminder, snooze_reminder,
}

pub data Call : Type 0 where
  creates : String → CreateReminder → CommandContext → DateTime → Call
  acknowledges : String → CommandContext → DateTime → Call
  cancels : String → CommandContext → DateTime → Call
  snoozes : String → DateTime → CommandContext → DateTime → Call
  ticks : DateTime → ℕ → Call

-- What raises leaves the database as it was.
abbrev pub after {ℓ} : {A : Type ℓ} → Database → Result (A × Database) → Database
after db (ok (u, next)) = next
after db (err e) = db

module _ (checks : Checks) (w : Writing) where
  unfoldable pub step : Call → Database → Database
  unfolding create_reminder acknowledge_reminder cancel_reminder snooze_reminder enqueue_due
  step (creates id command c now) db = after db (create_reminder checks db id command c now)
  step (acknowledges id c now) db = after db (acknowledge_reminder checks db id c now)
  step (cancels id c now) db = after db (cancel_reminder checks db id c now)
  step (snoozes id fire_at c now) db = after db (snooze_reminder checks db id fire_at c now)
  step (ticks now grace) db = after db (enqueue_due checks w db now grace)

  unfoldable pub run : List Call → Database → Database
  unfolding step
  run [] db = db
  run (c ∷ cs) db = run cs (step c db)
