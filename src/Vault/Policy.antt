-- ===== src/Vault/Policy.antt =====
-- src/zhixu_vault/policy.py: which verified grant lets an action on a secret through.
use zhixu.Prelude.{
  String, ◌≡◌, refl, ap, ◌∙◌, ◌≢◌, ◌⊎◌, Bool, true, false, not, ◌&&◌, ◌||◌, Option, none, some,
  arith, eq_iff, if◌then◌else◌, str_eq,
}
use zhixu.Prelude.Result.{Result, ok, ◌>>=◌, ◌>>◌, raise_if, or_raise, >>=-eq-ok, permission_error}
use zhixu.Vault.Grants.{VerifiedGrant}

pub data VaultAction : Type 0 where
  list_metadata create use' reveal update delete export grant rotate : VaultAction

pub data SecretKind : Type 0 where
  machine human : SecretKind

pub data VaultClassification : Type 0 where
  machine_secret human_secret l4_human_override prohibited : VaultClassification

-- The values of `VaultAction`.
abbrev pub action_value : VaultAction → String
action_value list_metadata = "list_metadata"
action_value create = "create"
action_value use' = "use"
action_value reveal = "reveal"
action_value update = "update"
action_value delete = "delete"
action_value export = "export"
action_value grant = "grant"
action_value rotate = "rotate"

-- `VaultAction(grant.action)`: a text that names no action is a ValueError, raised again as a
-- PermissionError.
unfoldable pub vault_action : String → Option VaultAction
vault_action s =
    if str_eq s "list_metadata"
    then some list_metadata
    else if str_eq s "create"
    then some create
    else if str_eq s "use"
    then some use'
    else if str_eq s "reveal"
    then some reveal
    else if str_eq s "update"
    then some update
    else if str_eq s "delete"
    then some delete
    else if str_eq s "export"
    then some export
    else if str_eq s "grant"
    then some grant
    else if str_eq s "rotate"
    then some rotate
    else none

abbrev pub is_human : SecretKind → Bool
is_human human = true
is_human machine = false

abbrev pub is_override : VaultClassification → Bool
is_override l4_human_override = true
is_override _ = false

-- `action in {USE, GRANT}`
abbrev pub is_shared : VaultAction → Bool
is_shared use' = true
is_shared grant = true
is_shared _ = false

abbrev pub is_reveal : VaultAction → Bool
is_reveal reveal = true
is_reveal _ = false

abbrev pub is_use : VaultAction → Bool
is_use use' = true
is_use _ = false

-- `action in {UPDATE, DELETE, EXPORT, GRANT, ROTATE}`
abbrev pub is_high_risk : VaultAction → Bool
is_high_risk update = true
is_high_risk delete = true
is_high_risk export = true
is_high_risk grant = true
is_high_risk rotate = true
is_high_risk _ = false

-- `VaultPolicy.require`, from the line that knows the action.
unfoldable pub require_action :
    VaultAction
    → VerifiedGrant
    → SecretKind
    → VaultClassification
    → String
    → Bool
    → Result (Unit {0})
require_action action g kind classification owner acl_allowed = do
  raise_if (not acl_allowed) permission_error
  raise_if (is_override classification && (not (is_human kind) || not (str_eq g.subject owner)))
      permission_error
  raise_if (is_override classification && is_shared action) permission_error
  raise_if (is_reveal action && not (is_human kind)) permission_error
  raise_if (is_reveal action && not (str_eq g.authentication "step_up")) permission_error
  raise_if (is_use action && is_human kind) permission_error
  raise_if (is_high_risk action && not (str_eq g.authentication "step_up")) permission_error

-- `VaultPolicy.require`
unfoldable pub require :
    VerifiedGrant → SecretKind → VaultClassification → String → Bool → Result (Unit {0})
unfolding vault_action require_action
require g kind classification owner acl_allowed = do
  action ← or_raise (vault_action g.action) permission_error
  require_action action g kind classification owner acl_allowed

-- What the policy promises about a grant that it lets through for an action.
pub record Allows (action : VaultAction) (g : VerifiedGrant) (kind : SecretKind)
    (classification : VaultClassification) (owner : String) (acl_allowed : Bool) : Type 0 where
  pub named : g.action ≡ action_value action
  pub listed : acl_allowed ≡ true
  pub owner_only :
      classification ≡ l4_human_override
      → (kind ≡ human) × (g.subject ≡ owner) × (action ≢ use') × (action ≢ grant)
  pub revealed : action ≡ reveal → (kind ≡ human) × (g.authentication ≡ "step_up")
  pub used : action ≡ use' → kind ≡ machine
  pub changed :
      (action ≡ update) ⊎ ((action ≡ delete) ⊎ (action ≡ rotate)) → g.authentication ≡ "step_up"
  pub exported : action ≡ export → g.authentication ≡ "step_up"
  pub shared : action ≡ grant → g.authentication ≡ "step_up"

vault_action-value : (s : String) (a : VaultAction) → vault_action s ≡ some a → s ≡ action_value a
unfolding vault_action
vault_action-value s a h = ground (
  arith,
  eq_iff s "list_metadata",
  eq_iff s "create",
  eq_iff s "use",
  eq_iff s "reveal",
  eq_iff s "update",
  eq_iff s "delete",
  eq_iff s "export",
  eq_iff s "grant",
  eq_iff s "rotate",
)

-- A grant that is let through names an action that the access list allows. A human secret is never
-- used by an executor and a machine secret never revealed; whoever reveals, updates, deletes,
-- rotates, exports or shares a secret was stepped up; and a secret under the owner's override is open to its owner
-- alone, neither for use nor for a grant.
pub require-Allows :
    (g : VerifiedGrant) (kind : SecretKind) (classification : VaultClassification) (owner : String)
    (acl_allowed : Bool)
    → require g kind classification owner acl_allowed ≡ ok tt
    → (action : VaultAction) × Allows action g kind classification owner acl_allowed
unfolding require require_action
require-Allows g kind classification owner acl_allowed h =
    let (action, named, k) =
      >>=-eq-ok (or_raise (vault_action g.action) permission_error)
        (λ action. require_action action g kind classification owner acl_allowed) h in
    (
      action,
      record {
        named = vault_action-value g.action action (ground arith);
        listed = ground arith;
        owner_only = ground (arith, eq_iff g.subject owner);
        revealed = ground (arith, eq_iff g.authentication "step_up");
        used = ground arith;
        changed = ground (arith, eq_iff g.authentication "step_up");
        exported = ground (arith, eq_iff g.authentication "step_up");
        shared = ground (arith, eq_iff g.authentication "step_up");
      },
    )

vault_action-action_value :
    (action : VaultAction) → vault_action (action_value action) ≡ some action
unfolding vault_action
vault_action-action_value list_metadata = refl
vault_action-action_value create = refl
vault_action-action_value use' = refl
vault_action-action_value reveal = refl
vault_action-action_value update = refl
vault_action-action_value delete = refl
vault_action-action_value export = refl
vault_action-action_value grant = refl
vault_action-action_value rotate = refl

-- A grant for which all that the policy promises holds is let through.
pub require_of_Allows :
    (action : VaultAction) (g : VerifiedGrant) (kind : SecretKind)
    (classification : VaultClassification) (owner : String) (acl_allowed : Bool)
    → Allows action g kind classification owner acl_allowed
    → require g kind classification owner acl_allowed ≡ ok tt
unfolding require require_action
require_of_Allows action g kind classification owner acl_allowed a =
    let named = ap vault_action a.named ∙ vault_action-action_value action in
    rw named (
      ground (
        arith,
        eq_iff g.subject owner,
        eq_iff g.authentication "step_up",
        a.listed,
        a.owner_only,
        a.revealed,
        a.used,
        a.changed,
        a.exported,
        a.shared,
      ))
