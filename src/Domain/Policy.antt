-- ===== src/Domain/Policy.antt =====
-- src/zhixu/domain/policy.py: authorization of one action on one resource, independent of the
-- channel that asks and of the store that keeps the resource.
pub mod Authorization
use zhixu.Prelude.{
  ℕ, String, Bool, true, false, not, ◌&&◌, ◌||◌, Option, none, some, List, [], ◌∷◌, ltb, leb,
  str_eq, str_mem, any, is_blank,
}
use zhixu.Prelude.Result.{
  Result, ok, err, ◌>>=◌, ◌>>◌, raise_if, or_raise, validation_error, permission_denied,
  confirmation_required,
}
use zhixu.Domain.Time.{DateTime}
use zhixu.Domain.Classification.{DataClassification, confidential, level, require_ordinary_storage}

pub data Action : Type 0 where
  list_metadata read create update delete use' reveal export grant rotate : Action

pub data AuthenticationStrength : Type 0 where
  channel password mfa step_up : AuthenticationStrength

-- The value of the `IntEnum`.
abbrev pub strength : AuthenticationStrength → ℕ
strength channel = 0
strength password = 1
strength mfa = 2
strength step_up = 3

pub data RequestChannel : Type 0 where
  private_chat group_chat admin_web service : RequestChannel

pub record CommandContext : Type 0 where
  pub actor_user_id : String
  pub roles : List String
  pub shared_owner_user_id : Option String
  pub readable_shared_owner_user_ids : List String
  pub authentication : AuthenticationStrength
  pub request_channel : RequestChannel
  pub confirmed : Bool
  pub now : Option DateTime

abbrev is_some_blank : Option String → Bool
is_some_blank none = false
is_some_blank (some s) = is_blank s

abbrev is_some_naive : Option DateTime → Bool
is_some_naive none = false
is_some_naive (some t) = not t.aware

-- `len(values) != len(set(values))`
unfoldable pub has_duplicates : List String → Bool
has_duplicates [] = false
has_duplicates (x ∷ xs) = str_mem x xs || has_duplicates xs

-- `CommandContext.__post_init__`
unfoldable pub check_context : CommandContext → Result CommandContext
unfolding has_duplicates
check_context c = do
  raise_if (is_blank c.actor_user_id) validation_error
  raise_if (is_some_blank c.shared_owner_user_id) validation_error
  raise_if (any is_blank c.readable_shared_owner_user_ids) validation_error
  raise_if (has_duplicates c.readable_shared_owner_user_ids) validation_error
  raise_if (is_some_naive c.now) validation_error
  ok c

pub record ResourceRef : Type 0 where
  pub kind : String
  pub id : String
  pub owner_user_id : String
  pub classification : DataClassification

-- `ResourceRef.__post_init__`
unfoldable pub check_resource : ResourceRef → Result ResourceRef
check_resource r = do
  raise_if (is_blank r.kind || (is_blank r.id || is_blank r.owner_user_id)) validation_error
  ok r

pub record AuthorizedAction : Type 0 where
  pub actor_user_id : String
  pub action : Action
  pub resource : ResourceRef
  pub authorized_at : DateTime

abbrev pub GrantLookup : Type 0
GrantLookup = String → Action → ResourceRef → Bool

-- The default of `PolicyEngine.__init__`.
abbrev pub no_grants : GrantLookup
no_grants actor action resource = false

-- `action in {USE, REVEAL, EXPORT, ROTATE}`
abbrev pub is_vault_action : Action → Bool
is_vault_action use' = true
is_vault_action reveal = true
is_vault_action export = true
is_vault_action rotate = true
is_vault_action _ = false

abbrev pub is_grant : Action → Bool
is_grant grant = true
is_grant _ = false

abbrev pub is_delete : Action → Bool
is_delete delete = true
is_delete _ = false

abbrev pub is_group_chat : RequestChannel → Bool
is_group_chat group_chat = true
is_group_chat _ = false

abbrev pub is_admin_web : RequestChannel → Bool
is_admin_web admin_web = true
is_admin_web _ = false

-- `resource.classification >= DataClassification.CONFIDENTIAL`
abbrev pub is_confidential : ResourceRef → Bool
is_confidential r = leb (level confidential) (level r.classification)

-- `context.authentication < AuthenticationStrength.STEP_UP`
abbrev pub below_step_up : CommandContext → Bool
below_step_up c = ltb (strength c.authentication) (strength step_up)

-- The three ways to reach a resource: its owner, a member of the workspace that shares it, and the
-- holder of an explicit grant.
unfoldable pub has_access : GrantLookup → CommandContext → Action → ResourceRef → Bool
has_access lookup c action r =
    str_eq c.actor_user_id r.owner_user_id
    || ((str_mem "shared_workspace_member" c.roles
          && str_mem r.owner_user_id c.readable_shared_owner_user_ids)
        || lookup c.actor_user_id action r)

-- `PolicyEngine.require`
unfoldable pub require :
    GrantLookup → CommandContext → Action → ResourceRef → Result AuthorizedAction
unfolding require_ordinary_storage
require lookup c action r = do
  require_ordinary_storage r.classification
  raise_if (is_vault_action action) permission_denied
  raise_if (not (has_access lookup c action r)) permission_denied
  raise_if (is_confidential r && is_group_chat c.request_channel) permission_denied
  raise_if (is_confidential r && below_step_up c) permission_denied
  raise_if (is_grant action && (below_step_up c || not (is_admin_web c.request_channel)))
      permission_denied
  raise_if (is_delete action && not c.confirmed) confirmation_required
  authorized_at ← or_raise c.now validation_error
  ok (record {
    actor_user_id = c.actor_user_id;
    action = action;
    resource = r;
    authorized_at = authorized_at;
  })
