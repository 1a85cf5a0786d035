-- ===== src/Storage/Tables.antt =====
-- The tables that src/zhixu/adapters/storage/sqlite/repositories.py reads and writes, as the migrations
-- create them. A table is the list of its rows; a text of a time is the moment that it stands for.
use zhixu.Prelude.{ℕ, String, Bool, true, Option, none, some, List, str_mem}
use zhixu.Domain.Policy.{
  Action, list_metadata, read, create, update, delete, use', reveal, export, grant, rotate,
}
use zhixu.Domain.Task.{Task}
use zhixu.Domain.Reminder.{Reminder}
use zhixu.Delivery.Outbox.Tables.{Delivery}

-- A row of `resource_acl`.
pub record AclRow : Type 0 where
  pub resource_kind : String
  pub resource_id : String
  pub subject_user_id : String
  pub action : String
  pub granted_by : String
  pub created_at : ℕ

-- A row of `audit_events`.
pub record AuditEvent : Type 0 where
  pub occurred_at : ℕ
  pub actor_user_id : String
  pub action : String
  pub resource_kind : String
  pub resource_id : String
  pub outcome : String
  pub reason_code : String

-- A row of `channel_routes`, with the columns that are read here.
pub record Route : Type 0 where
  pub opaque_ref : String
  pub channel : String
  pub channel_account : String
  pub last_seen_at : ℕ

-- The rows of `tasks` and `reminders` have the columns of the values that they hold. `users` holds
-- the ids that a foreign key may name.
pub record Database : Type 0 where
  pub users : List String
  pub resource_acl : List AclRow
  pub tasks : List Task
  pub reminders : List Reminder
  pub routes : List Route
  pub deliveries : List Delivery
  pub audit_events : List AuditEvent

-- `action.value`
abbrev pub action_value : Action → String
action_value list_metadata = "list_metadata"
action_value read = "read"
action_value create = "create"
action_value update = "update"
action_value delete = "delete"
action_value use' = "use"
action_value reveal = "reveal"
action_value export = "export"
action_value grant = "grant"
action_value rotate = "rotate"

-- A foreign key that may be NULL.
abbrev pub is_user? : List String → Option String → Bool
is_user? users none = true
is_user? users (some id) = str_mem id users
