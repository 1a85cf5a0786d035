-- ===== src/Domain/Task.antt =====
-- src/zhixu/domain/task.py: a task, its construction, and the machine of its states with a version
-- that counts the changes.
pub mod Lifecycle
use zhixu.Prelude.{
  ℕ, ◌+◌, String, Bool, true, false, not, ◌||◌, Option, none, some, ltb, leb, is_blank, ◌&&◌,
}
use zhixu.Prelude.Result.{Result, ok, ◌>>=◌, ◌>>◌, raise_if, validation_error, invalid_transition}
use zhixu.Domain.Time.{DateTime, require_aware}
use zhixu.Domain.Classification.{DataClassification, require_ordinary_storage}

pub data TaskStatus : Type 0 where
  pending in_progress completed cancelled archived : TaskStatus

-- `ALLOWED_TRANSITIONS`
unfoldable pub allowed_transition : TaskStatus → TaskStatus → Bool
allowed_transition pending in_progress = true
allowed_transition pending completed = true
allowed_transition pending cancelled = true
allowed_transition in_progress pending = true
allowed_transition in_progress completed = true
allowed_transition in_progress cancelled = true
allowed_transition completed archived = true
allowed_transition cancelled archived = true
allowed_transition _ _ = false

pub record Task : Type 0 where
  pub id : String
  pub owner_user_id : String
  pub title : String
  pub creator_user_id : Option String
  pub status : TaskStatus
  pub priority : ℕ
  pub due_at : Option DateTime
  pub description : String
  pub classification : DataClassification
  pub version : ℕ
  pub created_at : Option DateTime
  pub updated_at : Option DateTime

abbrev is_some_blank : Option String → Bool
is_some_blank none = false
is_some_blank (some s) = is_blank s

abbrev require_aware? : Option DateTime → Result (Unit {0})
require_aware? none = ok tt
require_aware? (some t) = require_aware t

-- `Task.__post_init__`. A priority is an integer there: a negative one, which the code refuses too,
-- is no number of the model.
unfoldable pub valid_task : Task → Result (Unit {0})
unfolding require_aware require_ordinary_storage
valid_task t = do
  raise_if (is_blank t.id || (is_blank t.owner_user_id || is_blank t.title)) validation_error
  raise_if (is_some_blank t.creator_user_id) validation_error
  raise_if (not (leb t.priority 4)) validation_error
  require_aware? t.due_at
  raise_if (ltb t.version 1) validation_error
  require_ordinary_storage t.classification

-- The construction of a task: the value itself, unless the check raises.
unfoldable pub check_task : Task → Result Task
check_task t = do valid_task t; ok t

-- `Task.transition`. `replace` constructs the new value, so `__post_init__` runs again.
unfoldable pub transition : Task → TaskStatus → DateTime → Result Task
unfolding require_aware
transition t status now = do
  require_aware now
  raise_if (not (allowed_transition t.status status)) invalid_transition
  check_task (record t { status = status; version = t.version + 1; updated_at = some now })

-- `self.status in {COMPLETED, CANCELLED, ARCHIVED}`
abbrev pub is_closed : TaskStatus → Bool
is_closed completed = true
is_closed cancelled = true
is_closed archived = true
is_closed _ = false

-- `Task.postpone`
unfoldable pub postpone : Task → DateTime → DateTime → Result Task
unfolding require_aware
postpone t due_at now = do
  require_aware due_at
  require_aware now
  raise_if (is_closed t.status) invalid_transition
  check_task (record t { due_at = some due_at; version = t.version + 1; updated_at = some now })
