-- ===== src/Services/Context.antt =====
-- What the methods of `ZhixuServices` in src/zhixu/application/services.py share: the context with the
-- time of the clock, the owners that it gives access to, and the policy with the grants of the database.
use zhixu.Prelude.{
  String, Bool, true, false, not, ◌||◌, Option, none, some, List, ◌∷◌, if◌then◌else◌, str_eq,
  str_mem,
}
use zhixu.Prelude.Result.{Result, ◌>>=◌, raise_if, permission_denied}
use zhixu.Domain.Time.{DateTime}
use zhixu.Domain.Policy.{
  CommandContext, Action, ResourceRef, AuthorizedAction, is_group_chat, check_context,
  check_resource, require,
}
use zhixu.Storage.Tables.{Database}
use zhixu.Storage.Access.{has_grant}

-- `ZhixuServices._context`, with what the clock says; `replace` constructs the context, with its check.
unfoldable pub current_context : CommandContext → DateTime → Result CommandContext
unfolding check_context
current_context c now = check_context (record c { now = some now })

-- `ZhixuServices._create_owner`
unfoldable pub create_owner : CommandContext → Bool → String
create_owner c true = c.actor_user_id
create_owner c false = elim c.shared_owner_user_id [ none ↦ c.actor_user_id | some owner ↦ owner ]

-- `ZhixuServices._read_owners`
unfoldable pub read_owners : CommandContext → List String
read_owners c =
    if is_group_chat c.request_channel
    then c.readable_shared_owner_user_ids
    else c.actor_user_id ∷ c.readable_shared_owner_user_ids

abbrev is_creator : String → Option String → Bool
is_creator actor none = false
is_creator actor (some creator) = str_eq actor creator

-- `context.roles.intersection({"group_owner", "project_admin"})`
abbrev pub is_manager : CommandContext → Bool
is_manager c = str_mem "group_owner" c.roles || str_mem "project_admin" c.roles

-- `ZhixuServices._require_creator_or_manager`
unfoldable pub require_creator_or_manager :
    CommandContext → String → Option String → Result (Unit {0})
require_creator_or_manager c owner creator =
    raise_if
      (not (str_eq c.actor_user_id owner || (is_creator c.actor_user_id creator || is_manager c)))
      permission_denied

-- `self.policy.require` on `self._ref(...)`, which constructs the reference, with its check. The policy
-- looks up the grants of the database.
unfoldable pub authorize :
    Database → CommandContext → Action → ResourceRef → Result AuthorizedAction
unfolding check_resource require has_grant
authorize db c action r = do resource ← check_resource r; require (has_grant db) c action resource
