-- ===== src/Services/Reminders.antt =====
-- The commands on reminders of `ZhixuServices` in src/zhixu/application/services.py. The identifier that
-- `id_factory` makes and what the clock says are arguments.
pub mod Calls
pub mod Cancelled
use zhixu.Prelude.{
  ℕ, zero, suc, ◌+◌, ◌-◌, ◌*◌, ◌/◌, ◌%◌, ◌≤◌, ◌<◌, max, String, ◌≡◌, refl, sym, ap, ◌∙◌, subst, ◌≢◌,
  ◌⊎◌, inl, inr, Bool, true, false, not, ◌&&◌, ◌||◌, Option, none, some, List, [], ◌∷◌, ◌++◌, map,
  arith, eq_iff, ltb, leb, ◌==◌, if◌then◌else◌, ltb→lt, leb→le, Bool-cases, Option-cases, length,
  any, all, All, length-append, str_eq, codes, is_space, is_blank, text_length, prefix, str_leb,
  str_mem, str_leb_total, str_leb_trans, str_leb_refl, str_eq_comm, str_eq_refl,
}
use zhixu.Prelude.Result.{
  Result-cases, Error, Result, ok, err, ◌>>=◌, ◌>>◌, raise_if, or_raise, >>=-eq-ok, >>-eq-ok,
  validation_error, not_found, conflict, concurrency_conflict, permission_denied,
  confirmation_required, classification_not_supported, invalid_transition, llm_unavailable,
  llm_budget_exceeded, invalid_model_output, value_error, key_error, permission_error,
  runtime_error, type_error, integrity_error, assertion_error,
}
use zhixu.Domain.Time.{DateTime, second}
use zhixu.Domain.Classification.{DataClassification}
use zhixu.Domain.Policy.{CommandContext, create, read, update}
use zhixu.Domain.Reminder.{ActionLink, Reminder, MissedReminderPolicy, pending, check_reminder}
use zhixu.Storage.Tables.{Database}
use zhixu.Storage.Reminders
use zhixu.Storage.Reminders.{Checks, reminder_ref, get_reminder, list_for_owner, is_active}
use zhixu.Services.Context.{
  current_context, create_owner, read_owners, require_creator_or_manager, authorize,
}

-- `CreateReminder`
pub record CreateReminder : Type 0 where
  pub title : String
  pub fire_at : DateTime
  pub target_ref : String
  pub action_links : List ActionLink
  pub missed_policy : MissedReminderPolicy
  pub classification : DataClassification
  pub related_kind : Option String
  pub related_id : Option String
  pub related_start_at : Option DateTime
  pub is_private : Bool

abbrev pub proposed : String → CreateReminder → CommandContext → Reminder
proposed id command c = record {
  id = id;
  owner_user_id = create_owner c command.is_private;
  title = command.title;
  fire_at = command.fire_at;
  target_ref = command.target_ref;
  creator_user_id = some c.actor_user_id;
  action_links = command.action_links;
  status = pending;
  missed_policy = command.missed_policy;
  classification = command.classification;
  related_kind = command.related_kind;
  related_id = command.related_id;
  related_start_at = command.related_start_at;
  timezone = none;
  version = 1;
  created_at = none;
  updated_at = none;
}

module _ (checks : Checks) where
  -- `ZhixuServices.create_reminder`
  unfoldable pub create_reminder :
      Database → String → CreateReminder → CommandContext → DateTime → Result (Reminder × Database)
  unfolding current_context create_owner check_reminder authorize Reminders.create_reminder
  create_reminder db id command context now = do
    current ← current_context context now
    reminder ← check_reminder checks.is_zone (proposed id command current)
    a ← authorize db current create (reminder_ref reminder)
    Reminders.create_reminder checks db reminder a

  -- The reminder that a command names.
  unfoldable pub named_reminder : Database → String → Result Reminder
  unfolding get_reminder
  named_reminder db id = do found ← get_reminder checks db id; or_raise found not_found

  -- `ZhixuServices.acknowledge_reminder`
  unfoldable pub acknowledge_reminder :
      Database → String → CommandContext → DateTime → Result (Reminder × Database)
  unfolding named_reminder current_context authorize Reminders.acknowledge
  acknowledge_reminder db id context now = do
    reminder ← named_reminder db id
    current ← current_context context now
    a ← authorize db current update (reminder_ref reminder)
    Reminders.acknowledge checks db reminder.id reminder.version a

  -- `ZhixuServices.cancel_reminder`
  unfoldable pub cancel_reminder :
      Database → String → CommandContext → DateTime → Result (Reminder × Database)
  unfolding named_reminder current_context require_creator_or_manager authorize Reminders.cancel
  cancel_reminder db id context now = do
    reminder ← named_reminder db id
    current ← current_context context now
    require_creator_or_manager current reminder.owner_user_id reminder.creator_user_id
    a ← authorize db current update (reminder_ref reminder)
    Reminders.cancel checks db reminder.id reminder.version a

  -- `ZhixuServices.snooze_reminder`
  unfoldable pub snooze_reminder :
      Database → String → DateTime → CommandContext → DateTime → Result (Reminder × Database)
  unfolding named_reminder current_context authorize Reminders.snooze
  snooze_reminder db id fire_at context now = do
    reminder ← named_reminder db id
    current ← current_context context now
    a ← authorize db current update (reminder_ref reminder)
    Reminders.snooze checks db reminder.id fire_at reminder.version a

  unfoldable pub reminders_of : Database → List String → Result (List Reminder)
  unfolding list_for_owner
  reminders_of db [] = ok []
  reminders_of db (owner ∷ owners) =
      let rest = reminders_of db owners in
      do mine ← list_for_owner checks db owner; others ← rest; ok (mine ++ others)

  unfoldable pub may_read_all : Database → CommandContext → List Reminder → Result (Unit {0})
  unfolding authorize
  may_read_all db c [] = ok tt
  may_read_all db c (r ∷ rs) =
      let rest = may_read_all db c rs in do _ ← authorize db c read (reminder_ref r); rest

  abbrev active : List Reminder → List Reminder
  active [] = []
  active (r ∷ rs) = let rest = active rs in if is_active r then r ∷ rest else rest

  -- `ZhixuServices.list_reminders`
  unfoldable pub list_reminders :
      Database → Bool → CommandContext → DateTime → Result (List Reminder)
  unfolding current_context read_owners reminders_of may_read_all
  list_reminders db include_inactive context now = do
    current ← current_context context now
    reminders ← reminders_of db (read_owners current)
    may_read_all db current reminders
    ok (if include_inactive then reminders else active reminders)
