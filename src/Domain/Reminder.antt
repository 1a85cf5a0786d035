-- ===== src/Domain/Reminder.antt =====
-- src/zhixu/domain/reminder.py and src/zhixu/domain/action_link.py: a reminder with its links, and the
-- checks of their constructors. What `urlsplit` makes of a URL is an argument.
use zhixu.Prelude.{
  ℕ, String, Bool, true, false, not, ◌||◌, Option, none, some, List, [], ◌∷◌, ltb, ◌==◌,
  if◌then◌else◌, length, any, str_eq, codes,
}
use zhixu.Prelude.Result.{Result, ok, ◌>>=◌, ◌>>◌, raise_if, or_raise, validation_error}
use zhixu.Prelude.Text.{is_blank, text_length}
use zhixu.Domain.Time.{DateTime, require_aware}
use zhixu.Domain.Classification.{DataClassification, require_ordinary_storage}

pub record ActionLink : Type 0 where
  pub label : String
  pub url : String

-- The parts of a URL that the check reads, with the scheme in lower case.
pub record SplitUrl : Type 0 where
  pub scheme : String
  pub hostname : Option String
  pub username : Option String
  pub password : Option String

abbrev pub is_missing {ℓ} : {A : Type ℓ} → Option A → Bool
is_missing none = true
is_missing (some a) = false

-- `not parsed.hostname`
abbrev pub no_host : Option String → Bool
no_host none = true
no_host (some s) = str_eq s ""

-- `ActionLink.__post_init__`; `urlsplit` gives none where it raises a ValueError.
unfoldable pub check_action_link : (String → Option SplitUrl) → ActionLink → Result ActionLink
check_action_link urlsplit a = do
  raise_if (is_blank a.label || ltb 40 (text_length a.label)) validation_error
  raise_if (is_blank a.url || ltb 2048 (text_length a.url)) validation_error
  raise_if (any (λ c. ltb c 32) (codes a.url)) validation_error
  parsed ← or_raise (urlsplit a.url) validation_error
  raise_if
      (not (str_eq parsed.scheme "https")
        || (no_host parsed.hostname
            || (not (is_missing parsed.username) || not (is_missing parsed.password))))
      validation_error
  ok a

pub data ReminderStatus : Type 0 where
  pending fired cancelled : ReminderStatus

pub data MissedReminderPolicy : Type 0 where
  fire skip : MissedReminderPolicy

pub record Reminder : Type 0 where
  pub id : String
  pub owner_user_id : String
  pub title : String
  pub fire_at : DateTime
  pub target_ref : String
  pub creator_user_id : Option String
  pub action_links : List ActionLink
  pub status : ReminderStatus
  pub missed_policy : MissedReminderPolicy
  pub classification : DataClassification
  pub related_kind : Option String
  pub related_id : Option String
  pub related_start_at : Option DateTime
  pub timezone : Option String
  pub version : ℕ
  pub created_at : Option DateTime
  pub updated_at : Option DateTime

abbrev blank_creator : Option String → Bool
blank_creator none = false
blank_creator (some s) = is_blank s

abbrev unknown_zone : (String → Bool) → Option String → Bool
unknown_zone is_zone none = false
unknown_zone is_zone (some z) = not (is_zone z)

-- `if self.related_start_at is not None`
unfoldable pub check_start : Reminder → Result (Unit {0})
unfolding require_aware
check_start r = elim r.related_start_at [
  | none ↦ ok tt
  | some t ↦ (do require_aware t; raise_if (is_missing r.related_id) validation_error)
]

-- `(self.related_kind is None) != (self.related_id is None)`
abbrev one_missing : Reminder → Bool
one_missing r =
    if is_missing r.related_kind then not (is_missing r.related_id) else is_missing r.related_id

-- `Reminder.__post_init__`
unfoldable pub check_reminder : (String → Bool) → Reminder → Result Reminder
unfolding check_start require_aware require_ordinary_storage
check_reminder is_zone r = do
  raise_if (any is_blank (r.id ∷ r.owner_user_id ∷ r.title ∷ r.target_ref ∷ [])) validation_error
  raise_if (blank_creator r.creator_user_id) validation_error
  require_aware r.fire_at
  raise_if (one_missing r) validation_error
  raise_if (unknown_zone is_zone r.timezone) validation_error
  check_start r
  raise_if (r.version == 0) validation_error
  require_ordinary_storage r.classification
  raise_if (ltb 8 (length r.action_links)) validation_error
  ok r
