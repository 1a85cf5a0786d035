-- ===== src/Plans.antt =====
-- src/zhixu/adapters/storage/sqlite/pending_plans.py: the plans that wait for the confirmation of a
-- user, `PendingPlanStore`. The id that `secrets.token_urlsafe` draws is an argument.
pub mod Calls
pub mod Effect
pub mod Single
pub mod Once
pub mod Current
use zhixu.Prelude.{
  ℕ, zero, suc, ◌+◌, ◌-◌, ◌*◌, ◌/◌, ◌%◌, ◌≤◌, ◌<◌, max, String, ◌≡◌, refl, sym, ap, ◌∙◌, ◌≢◌, ◌⊎◌,
  inl, inr, Bool, true, false, not, ◌&&◌, ◌||◌, Option, none, some, List, [], ◌∷◌, ◌++◌, map, arith,
  eq_iff, ltb, leb, ◌==◌, if◌then◌else◌, ltb→lt, leb→le, Bool-cases, Option-cases, length, any, all,
  All, length-append, str_eq, codes, is_space, is_blank, text_length, prefix, str_leb, str_mem,
  str_leb_total, str_leb_trans, str_leb_refl, str_eq_comm, str_eq_refl,
}
use zhixu.Prelude.Result.{
  Result-cases, Error, Result, ok, err, ◌>>=◌, ◌>>◌, raise_if, or_raise, >>=-eq-ok, >>-eq-ok,
  validation_error, not_found, conflict, concurrency_conflict, permission_denied,
  confirmation_required, classification_not_supported, invalid_transition, llm_unavailable,
  llm_budget_exceeded, invalid_model_output, value_error, key_error, permission_error,
  runtime_error, type_error, integrity_error, assertion_error,
}
use Prim.Native.String.{◌++◌ as append}
use zhixu.Prelude.Table.{select_where, select_one, update_where, count_where}
use zhixu.Domain.Time.{DateTime, require_aware}

pub data PlanState : Type 0 where
  pending revising accepted : PlanState

-- A row of `assistant_pending_plans`.
pub record Plan : Type 0 where
  pub id : String
  pub actor_user_id : String
  pub target_ref : String
  pub action : String
  pub payload_json : String
  pub state : PlanState
  pub created_at : ℕ
  pub expires_at : ℕ

-- The table, and the ids of `users` that its foreign key may name.
pub record PlanStore : Type 0 where
  pub users : List String
  pub plans : List Plan

pub record StoredPendingPlan : Type 0 where
  pub id : String
  pub actor_user_id : String
  pub target_ref : String
  pub action : String
  pub payload_json : String
  pub state : PlanState
  pub expires_at : ℕ

-- `_from_row`
unfoldable pub from_row : Plan → StoredPendingPlan
from_row row = record {
  id = row.id;
  actor_user_id = row.actor_user_id;
  target_ref = row.target_ref;
  action = row.action;
  payload_json = row.payload_json;
  state = row.state;
  expires_at = row.expires_at;
}

-- `state IN ('pending','revising')`
abbrev pub is_open : PlanState → Bool
is_open accepted = false
is_open _ = true

abbrev pub is_pending : PlanState → Bool
is_pending pending = true
is_pending _ = false

abbrev pub is_revising : PlanState → Bool
is_revising revising = true
is_revising _ = false

-- `actor_user_id=? AND target_ref=?`
abbrev pub concerns : String → String → Plan → Bool
concerns actor target row = str_eq row.actor_user_id actor && str_eq row.target_ref target

abbrev pub has_id : String → Plan → Bool
has_id i row = str_eq row.id i

abbrev pub open_for : String → String → Plan → Bool
open_for actor target row = concerns actor target row && is_open row.state

abbrev pub open_id : String → Plan → Bool
open_id i row = has_id i row && is_open row.state

-- The WHERE of `get` and `update_payload`.
unfoldable pub is_live : String → String → String → ℕ → Plan → Bool
is_live i actor target now row =
    has_id i row && (open_for actor target row && ltb now row.expires_at)

abbrev pub with_state : PlanState → Plan → Plan
with_state state row = record row { state = state }

-- The keyword arguments of `put` but `now`, with the token that is drawn. `ttl` is in microseconds.
pub record Put : Type 0 where
  pub actor_user_id : String
  pub target_ref : String
  pub action : String
  pub payload_json : String
  pub ttl : ℕ
  pub token : String

unfoldable pub new_plan : Put → ℕ → Plan
new_plan p now = record {
  id = append "plan_" p.token;
  actor_user_id = p.actor_user_id;
  target_ref = p.target_ref;
  action = p.action;
  payload_json = p.payload_json;
  state = pending;
  created_at = now;
  expires_at = now + p.ttl;
}

-- `PendingPlanStore.put`: the open plans of the conversation are closed, and the new one is open. An
-- id that is taken or an actor who is no user break a constraint of the table.
unfoldable pub put : PlanStore → Put → DateTime → Result (StoredPendingPlan × PlanStore)
unfolding require_aware new_plan from_row
put s p now = do
  require_aware now
  let row = new_plan p now.instant
  raise_if (any (has_id row.id) s.plans || not (any (str_eq p.actor_user_id) s.users))
      integrity_error
  ok (
    from_row row,
    record s {
      plans =
          update_where (open_for p.actor_user_id p.target_ref) (with_state accepted) s.plans
          ++ row ∷ [];
    },
  )

abbrev pub given_row : Option Plan → Option StoredPendingPlan
given_row none = none
given_row (some row) = some (from_row row)

-- `PendingPlanStore.get`
unfoldable pub get :
    PlanStore → String → String → String → DateTime → Result (Option StoredPendingPlan)
unfolding require_aware is_live
get s i actor target now = do
  require_aware now
  ok (given_row (select_one (is_live i actor target now.instant) s.plans))

-- `ORDER BY created_at DESC LIMIT 1`, the earlier row first among equals.
unfoldable pub newest : Option Plan → List Plan → Option Plan
newest best [] = best
newest none (r ∷ rs) = newest (some r) rs
newest (some b) (r ∷ rs) = newest (some (if ltb b.created_at r.created_at then r else b)) rs

-- `PendingPlanStore.revising`
unfoldable pub find_revising :
    PlanStore → String → String → DateTime → Result (Option StoredPendingPlan)
unfolding require_aware newest
find_revising s actor target now = do
  require_aware now
  ok (
      given_row (
        newest none (
          select_where
            (λ row.
              concerns actor target row
              && (is_revising row.state && ltb now.instant row.expires_at))
            s.plans)))

-- `PendingPlanStore.current`
unfoldable pub current : PlanStore → String → String → DateTime → Result (Option StoredPendingPlan)
unfolding require_aware newest
current s actor target now = do
  require_aware now
  ok (
      given_row (
        newest none (
          select_where (λ row. open_for actor target row && ltb now.instant row.expires_at)
            s.plans)))

-- `PendingPlanStore.update_payload`
unfoldable pub update_payload :
    PlanStore
    → String
    → String
    → String
    → String
    → DateTime
    → Result (Option StoredPendingPlan × PlanStore)
unfolding require_aware is_live
update_payload s i actor target payload now =
    let live = is_live i actor target now.instant in
    let rows = update_where live (λ row. record row { payload_json = payload }) s.plans in
    do
      require_aware now
      ok (
          if count_where live s.plans == 0
          then (none, s)
          else (given_row (select_one (has_id i) rows), record s { plans = rows }))

-- `PendingPlanStore.reject`
unfoldable pub reject : PlanStore → String → DateTime → Result PlanStore
unfolding require_aware
reject s i now = do
  require_aware now
  ok (record s {
    plans =
        update_where
          (λ row. has_id i row && (is_pending row.state && ltb now.instant row.expires_at))
          (with_state revising) s.plans;
  })

-- `PendingPlanStore.consume`
unfoldable pub consume : PlanStore → String → DateTime → Result (Bool × PlanStore)
unfolding require_aware
consume s i now = do
  require_aware now
  ok (
    count_where (open_id i) s.plans == 1,
    record s { plans = update_where (open_id i) (with_state accepted) s.plans },
  )
