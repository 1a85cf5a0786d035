-- ===== src/Storage/Access.antt =====
-- What binds a write of src/zhixu/adapters/storage/sqlite/repositories.py to its authorization, and
-- `GrantRepository`, the explicit grants that the policy looks up.
use zhixu.Prelude.{
  String, Bool, not, ◌&&◌, ◌||◌, [], ◌∷◌, ◌++◌, ◌==◌, if◌then◌else◌, any, str_eq, str_mem,
}
use zhixu.Prelude.Result.{Result, ok, ◌>>=◌, ◌>>◌, raise_if, permission_denied, integrity_error}
use zhixu.Prelude.Table.{delete_where, count_where}
use zhixu.Domain.Time.{require_aware}
use zhixu.Domain.Classification.{level}
use zhixu.Domain.Policy.{Action, grant, ResourceRef, AuthorizedAction, GrantLookup, check_resource}
use zhixu.Storage.Tables.{AclRow, AuditEvent, Database, action_value}

-- `authorization.action is action`
abbrev pub same_action : Action → Action → Bool
same_action a b = str_eq (action_value a) (action_value b)

-- Equality of two resource references.
abbrev pub same_resource : ResourceRef → ResourceRef → Bool
same_resource r s =
    (str_eq r.kind s.kind && str_eq r.id s.id)
    && (str_eq r.owner_user_id s.owner_user_id && level r.classification == level s.classification)

-- `_require_authorization`; `_resource` constructs the reference, with the check of its constructor.
unfoldable pub require_authorization : AuthorizedAction → Action → ResourceRef → Result (Unit {0})
unfolding check_resource
require_authorization a action resource = do
  expected ← check_resource resource
  raise_if (not (same_action a.action action) || not (same_resource a.resource expected))
      permission_denied

-- The row that `_audit` inserts.
abbrev pub event : AuthorizedAction → String → String → AuditEvent
event a outcome reason_code = record {
  occurred_at = a.authorized_at.instant;
  actor_user_id = a.actor_user_id;
  action = action_value a.action;
  resource_kind = a.resource.kind;
  resource_id = a.resource.id;
  outcome = outcome;
  reason_code = reason_code;
}

-- `_audit`
unfoldable pub audit : AuthorizedAction → String → String → Database → Result Database
unfolding require_aware
audit a outcome reason_code db = do
  require_aware a.authorized_at
  ok (record db { audit_events = db.audit_events ++ event a outcome reason_code ∷ [] })

-- The condition of the statements on `resource_acl`, its PRIMARY KEY too.
abbrev pub is_grant_of : String → Action → ResourceRef → AclRow → Bool
is_grant_of subject action r row =
    (str_eq row.resource_kind r.kind && str_eq row.resource_id r.id)
    && (str_eq row.subject_user_id subject && str_eq row.action (action_value action))

-- `GrantRepository.has_grant`
unfoldable pub has_grant : Database → GrantLookup
has_grant db actor action r = any (is_grant_of actor action r) db.resource_acl

-- INSERT OR IGNORE: a row with that key is kept, and a user that does not exist breaks a foreign key.
unfoldable pub insert_grant : Database → String → Action → AuthorizedAction → Result Database
unfolding has_grant
insert_grant db subject action a = if has_grant db subject action a.resource then ok db else do
  raise_if (not (str_mem subject db.users && str_mem a.actor_user_id db.users)) integrity_error
  ok (record db {
    resource_acl =
        db.resource_acl
        ++ record {
          resource_kind = a.resource.kind;
          resource_id = a.resource.id;
          subject_user_id = subject;
          action = action_value action;
          granted_by = a.actor_user_id;
          created_at = a.authorized_at.instant;
        }
          ∷ [];
  })

-- `GrantRepository.grant`
unfoldable pub grant_access : Database → String → Action → AuthorizedAction → Result Database
unfolding require_authorization insert_grant audit require_aware
grant_access db subject action a = do
  require_authorization a grant a.resource
  require_aware a.authorized_at
  granted ← insert_grant db subject action a
  audit a "completed" "" granted

-- `GrantRepository.revoke`
unfoldable pub revoke_access :
    Database → String → Action → AuthorizedAction → Result (Bool × Database)
unfolding require_authorization audit
revoke_access db subject action a =
    let changed = count_where (is_grant_of subject action a.resource) db.resource_acl in
    let rest = delete_where (is_grant_of subject action a.resource) db.resource_acl in
    do
      require_authorization a grant a.resource
      after ←
          audit a (if changed == 0 then "not_found" else "completed") ""
            (record db { resource_acl = rest })
      ok (changed == 1, after)
