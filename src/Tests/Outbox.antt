-- ===== src/Tests/Outbox.antt =====
-- Runs of the outbox (src/zhixu/delivery/outbox.py): one message on its way.
use zhixu.Prelude.{ℕ, ◌≡◌, refl, ◌≢◌, inl, inr, true, false, none, some, List, [], ◌∷◌, arith}
use zhixu.Prelude.Result.{ok}
use zhixu.Prelude.Text.{is_blank, text_length}
use zhixu.Prelude.Table.{select_one, select_where, update_where, count_where, In}
use zhixu.Domain.Time.{DateTime}
use zhixu.Domain.Classification.{personal}
use zhixu.Channels.{check_message, OutboundMessage, text, ChannelDeliveryResult}
use zhixu.Delivery.Outbox.Tables.{
  message_from_row, DeliveryStatus, Delivery, Payload, DeadLetter, Store, ClaimedDelivery, pending,
  sending, sent, default_backoff,
}
use zhixu.Delivery.Outbox.Enqueue.{Enqueue, enqueue}
use zhixu.Delivery.Outbox.Claim.{is_due, Claim, claim}
use zhixu.Delivery.Outbox.Complete.{complete, retry_dead}
use zhixu.Delivery.Outbox.Calls.{enqueues, claims, completes, run}
use zhixu.Delivery.Outbox.Rows.{WellFormed, RowOk}
use zhixu.Delivery.Outbox.Invariant.{run-WellFormed}
use zhixu.Delivery.Outbox.Idempotency.{enqueue_again}
use zhixu.Delivery.Outbox.Selection.{Takes, claim-Takes}
use zhixu.Delivery.Outbox.Exclusion.{lease_holds, settled_stays}
use zhixu.Delivery.Outbox.Outcome.{Completed, complete-outcome}
use zhixu.Delivery.Outbox.Requeue.{retry_dead_revives, expiring, expiring-attempts, Hands}

abbrev at : ℕ → DateTime
at t = record { instant = t; aware = true }

abbrev greeting : OutboundMessage
greeting = record {
  channel = "wecom";
  channel_account = "main";
  target_ref = "alice";
  kind = text;
  text = "good morning";
  buttons = [];
  attachment_url = none;
  reply_context_ref = "";
  classification = personal;
  calendar_preview = none;
  daily_agenda_preview = none;
}

abbrev request : Enqueue
request = record {
  delivery_id = "d1";
  idempotency_key = "key-1";
  owner_user_id = "alice";
  message = greeting;
  priority = 50;
  max_attempts = 3;
  actor_user_id = "alice";
}

abbrev body : Payload
body = record {
  text = "good morning";
  buttons = [];
  attachment_url = none;
  calendar_preview = none;
  daily_agenda_preview = none;
  reply_context_ref = "";
}

abbrev queued : Delivery
queued = record {
  id = "d1";
  idempotency_key = "key-1";
  owner_user_id = "alice";
  target_ref = "alice";
  message_kind = text;
  payload = body;
  classification = personal;
  priority = 50;
  status = pending;
  attempts = 0;
  max_attempts = 3;
  next_attempt_at = 1000;
  last_error_code = "";
  created_at = 1000;
  updated_at = 1000;
  channel = "wecom";
  channel_account = "main";
  lease_owner = "";
  lease_token = "";
  lease_expires_at = none;
  provider_message_id = "";
}

abbrev leased_row : Delivery
leased_row = record queued {
  status = sending;
  attempts = 1;
  lease_owner = "w1";
  lease_token = "token-1";
  lease_expires_at = some 3000;
  updated_at = 2000;
}

abbrev store_of : List Delivery → Store
store_of rows = record {
  users = "alice" ∷ [];
  deliveries = rows;
  dead_letters = [];
  audit_events = [];
  backoff_seconds = default_backoff;
}

abbrev with_queued : Store
with_queued = store_of (queued ∷ [])

abbrev with_leased : Store
with_leased = store_of (leased_row ∷ [])

abbrev work : Claim
work = record { worker_id = "w1"; lease_for = 1000; accounts = none; token = "token-1" }

abbrev other_work : Claim
other_work = record { worker_id = "w2"; lease_for = 1000; accounts = none; token = "token-2" }

abbrev ticket : ClaimedDelivery
ticket = record {
  id = "d1";
  owner_user_id = "alice";
  idempotency_key = "key-1";
  message = greeting;
  priority = 50;
  attempts = 1;
  max_attempts = 3;
  lease_token = "token-1";
  lease_expires_at = 3000;
}

abbrev success : ChannelDeliveryResult
success = record { ok = true; retryable = false; provider_code = "0"; provider_message_id = "m-1" }

abbrev failure : ChannelDeliveryResult
failure = record { ok = false; retryable = true; provider_code = "busy"; provider_message_id = "" }

abbrev sent_now : Delivery
sent_now = record leased_row {
  status = sent;
  lease_owner = "";
  lease_token = "";
  lease_expires_at = none;
  updated_at = 2500;
  provider_message_id = "m-1";
}

one-WellFormed : (row : Delivery) → RowOk row → WellFormed (row ∷ [])
one-WellFormed row r = record {
  unique = (refl, tt);
  each = λ x i. elim i [ inl e ↦ rw e r | inr z ↦ absurd z ];
}

leased-WellFormed : WellFormed (leased_row ∷ [])
leased-WellFormed = one-WellFormed leased_row (ground arith)

sent-WellFormed : WellFormed (sent_now ∷ [])
sent-WellFormed = one-WellFormed sent_now (ground arith)

lease_holds_example :
    In leased_row
      (run with_leased (claims other_work (at 2600) ∷ enqueues request (at 2700) ∷ [])).deliveries
lease_holds_example =
    lease_holds with_leased leased_row 3000
      (claims other_work (at 2600) ∷ enqueues request (at 2700) ∷ []) leased-WellFormed (inl refl)
      (record { status = refl; expires = refl }) (ground arith)

claim-Takes_example : Takes with_queued work 2000 ticket with_leased
unfolding claim message_from_row is_blank text_length select_where select_one count_where
    update_where check_message
claim-Takes_example = claim-Takes with_queued with_leased work (at 2000) ticket (refl, tt) refl

settled_stays_example :
    In sent_now
      (run
        (store_of (sent_now ∷ []))
        (claims other_work (at 9000) ∷ completes ticket failure (at 9500) ∷ [])).deliveries
settled_stays_example =
    settled_stays (store_of (sent_now ∷ [])) sent_now
      (claims other_work (at 9000) ∷ completes ticket failure (at 9500) ∷ []) sent-WellFormed
      (inl refl) (ground arith) (ground arith)

run-WellFormed_example :
    WellFormed
      (run with_leased (completes ticket failure (at 2500) ∷ claims work (at 9000) ∷ [])).deliveries
run-WellFormed_example =
    run-WellFormed with_leased (completes ticket failure (at 2500) ∷ claims work (at 9000) ∷ [])
      leased-WellFormed

abbrev with_accepted : Store
with_accepted = record with_queued {
  audit_events =
      record {
        occurred_at = 1000;
        actor_user_id = "alice";
        action = "enqueue";
        resource_kind = "outbox_delivery";
        resource_id = "d1";
      }
      ∷ [];
}

enqueue_again_example :
    enqueue
      (run with_accepted (claims work (at 2000) ∷ []))
      (record request { delivery_id = "d2" })
      (at 2500)
    ≡ ok (false, run with_accepted (claims work (at 2000) ∷ []))
unfolding enqueue
enqueue_again_example =
    enqueue_again (store_of []) with_accepted request (record request { delivery_id = "d2" })
      (at 1000) (at 2500) (claims work (at 2000) ∷ []) refl refl (omega arith) refl

complete-outcome_example :
    (st : DeliveryStatus) × (t : Store) × (complete with_leased ticket failure (at 2500)
      ≡ ok (st, t))
    × Completed default_backoff failure 2500 leased_row st t
    × ((other : Delivery) → In other (leased_row ∷ []) → other.id ≢ "d1" → In other t.deliveries)
complete-outcome_example =
    complete-outcome with_leased ticket failure (at 2500) leased_row (refl, tt)
      (λ q. ground (arith, q)) (inl refl) refl refl

abbrev letter : DeadLetter
letter = record {
  id = "dead_d1";
  delivery_id = "d1";
  reason_code = "busy";
  created_at = 2000;
  retried_at = some 2100;
}

abbrev with_letter : Store
with_letter = record with_leased { deliveries = sent_now ∷ []; dead_letters = letter ∷ [] }

-- The delivery was retried, sent and is retried again.
retry_dead_revives_example :
    (t : Store) × (again : Delivery) × (retry_dead with_letter "dead_d1" "alice" (at 5000)
      ≡ ok (true, t))
    × In again t.deliveries
    × (again.id ≡ "d1")
    × (again.attempts ≡ 0)
    × (is_due 5000 again ≡ true)
unfolding select_one
retry_dead_revives_example =
    retry_dead_revives with_letter "dead_d1" "alice" (at 5000) letter sent_now refl (inl refl) refl
      refl

-- The work of a worker that names its accounts.
abbrev own_work : Claim
own_work = record other_work { accounts = some (("wecom", "main") ∷ []) }

expiring-attempts_example :
    (x : Delivery) × ((run with_leased (expiring 9 own_work 3000)).deliveries ≡ x ∷ [])
    × (x.id ≡ "d1")
    × (x.status ≡ sending)
    × (x.attempts ≡ 10)
    × (x.max_attempts ≡ 3)
    × Hands
        (claim (run with_leased (expiring 9 own_work 3000)) own_work (at 12_000)).0
        leased_row
        11
unfolding is_blank message_from_row text_length
expiring-attempts_example =
    expiring-attempts 9 with_leased own_work leased_row 3000 refl
      (record { status = refl; expires = refl }) refl (omega arith)
      (inr (("wecom", "main") ∷ [], refl, inl refl)) refl
