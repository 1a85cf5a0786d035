-- ===== src/Domain/Identity.antt =====
-- src/zhixu/domain/identity.py and src/zhixu/domain/job.py: users, their identities in the channels,
-- and scheduled jobs, with the checks of their constructors. Whether a name is a time zone and whether
-- `rrulestr` accepts a rule are arguments; a `tzinfo` is taken to give an offset.
use zhixu.Prelude.{String, Bool, not, ◌||◌, Option, none, some, [], ◌∷◌, any, str_eq}
use zhixu.Prelude.Result.{Result, ok, ◌>>◌, raise_if, validation_error}
use zhixu.Prelude.Text.{is_blank, prefix}
use zhixu.Domain.Time.{DateTime, require_aware}

pub data UserStatus : Type 0 where
  active disabled : UserStatus

pub record User : Type 0 where
  pub id : String
  pub display_name : String
  pub status : UserStatus
  pub created_at : DateTime

-- `User.__post_init__`
unfoldable pub check_user : User → Result User
check_user u = do
  raise_if (is_blank u.id) validation_error
  raise_if (is_blank u.display_name) validation_error
  raise_if (not u.created_at.aware) validation_error
  ok u

pub record EncryptedIdentifier : Type 0 where
  pub value : String

-- `EncryptedIdentifier.__post_init__`
unfoldable pub check_encrypted : EncryptedIdentifier → Result EncryptedIdentifier
check_encrypted e = do raise_if (not (str_eq (prefix 4 e.value) "enc:")) validation_error; ok e

pub record ExternalIdentity : Type 0 where
  pub id : String
  pub user_id : String
  pub channel : String
  pub channel_account : String
  pub encrypted_subject : EncryptedIdentifier
  pub opaque_ref : String
  pub created_at : DateTime

-- `ExternalIdentity.__post_init__`
unfoldable pub check_identity : ExternalIdentity → Result ExternalIdentity
check_identity i = do
  raise_if (any is_blank (i.id ∷ i.user_id ∷ i.channel ∷ i.channel_account ∷ i.opaque_ref ∷ []))
      validation_error
  raise_if (not i.created_at.aware) validation_error
  ok i

pub data JobRunStatus : Type 0 where
  pending running completed failed skipped : JobRunStatus

pub record ScheduledJob : Type 0 where
  pub id : String
  pub owner_user_id : String
  pub job_kind : String
  pub schedule_spec : String
  pub timezone : String
  pub enabled : Bool
  pub created_at : Option DateTime
  pub updated_at : Option DateTime

-- `ScheduledJob.__post_init__`
unfoldable pub check_job :
    (String → Bool) → (String → String → Bool) → ScheduledJob → Result ScheduledJob
check_job is_zone is_rule j = do
  raise_if (any is_blank (j.id ∷ j.owner_user_id ∷ j.job_kind ∷ j.schedule_spec ∷ []))
      validation_error
  raise_if (not (is_zone j.timezone)) validation_error
  raise_if (not (is_rule j.schedule_spec j.timezone)) validation_error
  ok j

pub record JobRun : Type 0 where
  pub id : String
  pub scheduled_job_id : String
  pub scheduled_for : DateTime
  pub status : JobRunStatus
  pub started_at : Option DateTime
  pub completed_at : Option DateTime
  pub error_code : String

abbrev check_time : Option DateTime → Result (Unit {0})
check_time none = ok tt
check_time (some t) = require_aware t

-- `JobRun.__post_init__`
unfoldable pub check_job_run : JobRun → Result JobRun
unfolding require_aware
check_job_run r = do
  raise_if (is_blank r.id || is_blank r.scheduled_job_id) validation_error
  require_aware r.scheduled_for
  check_time r.started_at
  check_time r.completed_at
  ok r
