-- ===== src/Domain/Policy/Authorization.antt =====
-- What a minted authorization guarantees, and when one is minted.
use zhixu.Prelude.{String, ◌≡◌, ◌≢◌, ◌⊎◌, true, List, [], ◌∷◌, arith, eq_iff, str_mem, some}
use zhixu.Prelude.Table.{In}
use zhixu.Prelude.Result.{ok}
use zhixu.Domain.Classification.{confidential, secret, prohibited, require_ordinary_storage}
use zhixu.Domain.Policy.{
  CommandContext, ResourceRef, AuthorizedAction, Action, GrantLookup, step_up, group_chat,
  admin_web, grant, delete, use', reveal, export, rotate, has_access, require,
}
use zhixu.Domain.Time.{DateTime}

-- Everything that holds of a context, an action and a resource for which an authorization is minted.
pub record Permitted (lookup : GrantLookup) (c : CommandContext) (action : Action) (r : ResourceRef)
    : Type 0 where
  pub ordinary : (r.classification ≢ secret) × (r.classification ≢ prohibited)
  pub not_vault : (action ≢ use') × (action ≢ reveal) × (action ≢ export) × (action ≢ rotate)
  pub access :
      (c.actor_user_id ≡ r.owner_user_id)
      ⊎ ((In "shared_workspace_member" c.roles
            × In r.owner_user_id c.readable_shared_owner_user_ids)
          ⊎ (lookup c.actor_user_id action r ≡ true))
  pub private_if_confidential : r.classification ≡ confidential → c.request_channel ≢ group_chat
  pub step_up_if_confidential : r.classification ≡ confidential → c.authentication ≡ step_up
  pub grant_by_admin :
      action ≡ grant → (c.authentication ≡ step_up) × (c.request_channel ≡ admin_web)
  pub delete_confirmed : action ≡ delete → c.confirmed ≡ true

str_mem-In : (s : String) (ts : List String) → str_mem s ts ≡ true → In s ts
str_mem-In s [] h = ground arith
str_mem-In s (t ∷ ts) h = ground (arith, eq_iff t s, eq_iff s t, str_mem-In s ts)

has_access-cases :
    (lookup : GrantLookup) (c : CommandContext) (action : Action) (r : ResourceRef)
    → has_access lookup c action r ≡ true
    → (c.actor_user_id ≡ r.owner_user_id)
      ⊎ ((In "shared_workspace_member" c.roles
            × In r.owner_user_id c.readable_shared_owner_user_ids)
          ⊎ (lookup c.actor_user_id action r ≡ true))
unfolding has_access
has_access-cases lookup c action r h = ground (
  arith,
  eq_iff c.actor_user_id r.owner_user_id,
  str_mem-In "shared_workspace_member" c.roles,
  str_mem-In r.owner_user_id c.readable_shared_owner_user_ids,
)

-- An authorization is minted only for ordinary data and an action outside the vault, to the owner, a
-- member of the workspace that shares the resource or the holder of a grant; confidential data only
-- with step-up authentication and outside a group chat, a grant only by an administrator who stepped
-- up, and a deletion only when it was confirmed.
pub require-Permitted :
    (lookup : GrantLookup) (c : CommandContext) (action : Action) (r : ResourceRef)
    {a : AuthorizedAction}
    → require lookup c action r ≡ ok a
    → Permitted lookup c action r
unfolding require require_ordinary_storage
require-Permitted lookup c action r h = record {
  ordinary = ground arith;
  not_vault = ground arith;
  access = has_access-cases lookup c action r (ground arith);
  private_if_confidential = ground arith;
  step_up_if_confidential = ground arith;
  grant_by_admin = ground arith;
  delete_confirmed = ground arith;
}

In-str_mem : (s : String) (ts : List String) → In s ts → str_mem s ts ≡ true
In-str_mem s [] i = absurd i
In-str_mem s (t ∷ ts) i = ground (arith, eq_iff t s, eq_iff s t, In-str_mem s ts, i)

has_access-of_cases :
    (lookup : GrantLookup) (c : CommandContext) (action : Action) (r : ResourceRef)
    → (c.actor_user_id ≡ r.owner_user_id)
      ⊎ ((In "shared_workspace_member" c.roles
            × In r.owner_user_id c.readable_shared_owner_user_ids)
          ⊎ (lookup c.actor_user_id action r ≡ true))
    → has_access lookup c action r ≡ true
unfolding has_access
has_access-of_cases lookup c action r h = ground (
  arith,
  eq_iff c.actor_user_id r.owner_user_id,
  In-str_mem "shared_workspace_member" c.roles,
  In-str_mem r.owner_user_id c.readable_shared_owner_user_ids,
  h,
)

-- A permitted request whose context has a current time is granted, for exactly what was asked.
pub require_of_Permitted :
    (lookup : GrantLookup) (c : CommandContext) (action : Action) (r : ResourceRef) (t : DateTime)
    → Permitted lookup c action r
    → c.now ≡ some t
    → require lookup c action r
      ≡ ok (record {
        actor_user_id = c.actor_user_id;
        action = action;
        resource = r;
        authorized_at = t;
      })
unfolding require require_ordinary_storage
require_of_Permitted lookup c action r t p h =
    let reaches = has_access-of_cases lookup c action r p.access in
    ground (
      arith, reaches, h, p.ordinary, p.not_vault, p.private_if_confidential,
      p.step_up_if_confidential, p.grant_by_admin, p.delete_confirmed,
    )
