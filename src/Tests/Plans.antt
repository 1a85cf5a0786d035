-- ===== src/Tests/Plans.antt =====
-- Runs of the pending plans (src/zhixu/adapters/storage/sqlite/pending_plans.py): one conversation.
use zhixu.Prelude.{ℕ, ◌≡◌, refl, true, false, none, [], ◌∷◌, arith}
use zhixu.Prelude.Result.{ok}
use zhixu.Prelude.Table.{update_where, count_where}
use zhixu.Domain.Time.{DateTime}
use zhixu.Plans.{Plan, PlanStore, Put, StoredPendingPlan, pending, accepted, get, consume}
use zhixu.Plans.Calls.{puts, rejects, run}
use zhixu.Plans.Single.{Single, run-Single}
use zhixu.Plans.Once.{consume_once}

abbrev at : ℕ → DateTime
at t = record { instant = t; aware = true }

abbrev request : Put
request = record {
  actor_user_id = "alice";
  target_ref = "chat-1";
  action = "create_task";
  payload_json = "{}";
  ttl = 1000;
  token = "abc";
}

abbrev empty : PlanStore
empty = record { users = "alice" ∷ []; plans = [] }

abbrev waiting : Plan
waiting = record {
  id = "plan_abc";
  actor_user_id = "alice";
  target_ref = "chat-1";
  action = "create_task";
  payload_json = "{}";
  state = pending;
  created_at = 10;
  expires_at = 1010;
}

abbrev stored : PlanStore
stored = record empty { plans = waiting ∷ [] }

abbrev confirmed : PlanStore
confirmed = record empty { plans = record waiting { state = accepted } ∷ [] }

abbrev offered : StoredPendingPlan
offered = record {
  id = "plan_abc";
  actor_user_id = "alice";
  target_ref = "chat-1";
  action = "create_task";
  payload_json = "{}";
  state = pending;
  expires_at = 1010;
}

empty-Single : Single empty
unfolding count_where
empty-Single = record { single = λ actor target. omega arith }

run-Single_example :
    Single (run empty (puts request (at 10) ∷ puts (record request { token = "abd" }) (at 20) ∷ []))
run-Single_example =
    run-Single empty (puts request (at 10) ∷ puts (record request { token = "abd" }) (at 20) ∷ [])
      empty-Single

consume_once_example :
    ((u : PlanStore) × (consume
          (run confirmed (rejects "plan_abc" (at 21) ∷ puts request (at 22) ∷ []))
          "plan_abc"
          (at 30)
        ≡ ok (false, u)))
    × (get
          (run confirmed (rejects "plan_abc" (at 21) ∷ puts request (at 22) ∷ []))
          "plan_abc"
          "alice"
          "chat-1"
          (at 30)
        ≡ ok none)
unfolding consume update_where count_where
consume_once_example =
    consume_once stored confirmed "plan_abc" "alice" "chat-1" (at 20) (at 30)
      (rejects "plan_abc" (at 21) ∷ puts request (at 22) ∷ []) refl refl
