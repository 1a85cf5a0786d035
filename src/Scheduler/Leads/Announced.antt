-- ===== src/Scheduler/Leads/Announced.antt =====
-- Which reminders a tick of `NotificationLeadScheduler` adds.
use zhixu.Prelude.{ℕ, ◌+◌, ◌-◌, ◌*◌, ◌≤◌, ◌≢◌, String, ◌≡◌, ◌⊎◌, true, false, some, List, str_eq}
use zhixu.Prelude.Result.{Result, ok}
use zhixu.Prelude.Int.{ℤ, pos, negsuc}
use zhixu.Prelude.Table.{In}
use zhixu.Domain.Time.{second}
use zhixu.Domain.Reminder.{Reminder, ReminderStatus}
use zhixu.Domain.Agenda.{AgendaItem}
use zhixu.Domain.Agenda.Occurrences.{AgendaOccurrence}
use zhixu.Storage.Tables.{Database}
use zhixu.Storage.Leads
use zhixu.Storage.Leads.{resolve}
use zhixu.Storage.Reminders.{Checks}
use zhixu.Storage.Reminders.Effect.{created}
use zhixu.Scheduler.Leads.{Ports, Ran, fire_at, lead_reminder, by_service}

-- A wall time so many minutes earlier; a negative number of minutes is later.
abbrev pub earlier : ℤ → ℕ → ℕ
earlier (pos n) wall = wall - n * 60_000_000
earlier (negsuc n) wall = wall + (n + 1) * 60_000_000

-- After the work every reminder was there before, or has the property.
abbrev Adds {κ} : (Reminder → Type κ) → Database → Ran → Type κ
Adds P db (r, end) = (x : Reminder) → In x end.reminders → In x db.reminders ⊎ P x

module _ (checks : Checks) (ports : Ports) (now : ℕ) (leads : Leads.Leads) (horizon_days : ℕ) where
  abbrev window_end : ℕ
  window_end = now + horizon_days * (86400 * second)

  -- A stored reminder for an occurrence, with all that the tick found out about it.
  pub record Announces (r : Reminder) : Type 0 where
    pub item : AgendaItem
    pub occurrence : AgendaOccurrence
    pub minutes : ℤ
    pub target : String
    pub items : List AgendaItem
    pub scheduled : ports.list_scheduled now window_end ≡ ok items
    pub is_scheduled : In item items
    pub timed : item.all_day ≡ false
    pub chosen : In minutes (resolve leads item.id item.owner_user_id)
    pub addressed : ports.default_target_for item.owner_user_id ≡ some target
    pub occurrences : List AgendaOccurrence
    pub expanded : ports.occurrences item.owner_user_id now window_end ≡ ok occurrences
    pub occurs : In occurrence occurrences
    pub concerned : str_eq occurrence.agenda_item_id item.id ≡ true
    pub pending : r.status ≡ ReminderStatus.pending
    pub fires :
        r.fire_at.instant
        ≡ ports.moment item.timezone
            (earlier minutes (ports.wall item.timezone occurrence.start_at))
    pub ahead : now ≤ r.fire_at.instant
    pub owned : r.owner_user_id ≡ item.owner_user_id
    pub to : r.target_ref ≡ target
    pub titled :
        (occurrence.title ≢ "" → r.title ≡ occurrence.title)
        × (occurrence.title ≡ "" → r.title ≡ item.title)
    pub related :
        (r.related_kind ≡ some "agenda")
        × (r.related_id ≡ some item.id)
        × (r.related_start_at ≡ some (record { instant = occurrence.start_at; aware = true }))
    pub as_secret : r.classification ≡ item.classification

  module _ (item : AgendaItem) (o : AgendaOccurrence) (target : String)
      (P : Reminder → Type 0) where
    abbrev Follows : ℤ → Type 0
    Follows m =
        now ≤ fire_at ports item.timezone o.start_at m
        → P (
            created (lead_reminder checks ports now item o m target)
              (by_service checks ports now (lead_reminder checks ports now item o m target)))
