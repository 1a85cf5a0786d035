-- ===== src/Tests/Worker.antt =====
-- Runs of the delivery worker (src/zhixu/delivery/worker.py) and of the renderer
-- (src/zhixu/delivery/renderer.py): one message and one adapter.
use zhixu.Prelude.{
  ℕ, ◌≡◌, refl, true, false, none, some, List, [], ◌∷◌, arith, String, Option, Bool, if◌then◌else◌,
  str_eq,
}
use zhixu.Prelude.Result.{ok, err, runtime_error}
use zhixu.Prelude.Text.{is_blank, text_length, is_space}
use zhixu.Prelude.Table.{In, select_one, select_where, update_where, count_where}
use zhixu.Domain.Time.{DateTime}
use zhixu.Domain.Classification.{personal}
use zhixu.Channels.{OutboundMessage, ChannelCapabilities, text, markdown, check_message, is_none}
use zhixu.Delivery.Outbox.Tables.{
  Delivery, Payload, Store, ClaimedDelivery, pending, sending, default_backoff, message_from_row,
}
use zhixu.Delivery.Outbox.Claim.{claim, owns_lease}
use zhixu.Delivery.Quota.{QuotaDecision, reserve, minute, QuotaRule, QuotaUsage, Zone}
use zhixu.Delivery.Renderer.{render_for_capabilities}
use zhixu.Delivery.Worker.{Adapter, DeliveryWorker, tick, work, reserve_for, find_adapter}
use zhixu.Delivery.Worker.Settle.{Settles, tick-Settles}
use zhixu.Delivery.Worker.Raise.{Fails, tick-Fails}

abbrev at : ℕ → DateTime
at t = record { instant = t; aware = true }

abbrev plain : ChannelCapabilities
plain = record {
  inbound_text = true;
  outbound_text = true;
  markdown = false;
  proactive_push = true;
  buttons = false;
  attachments = false;
  voice = false;
  groups = false;
}

abbrev heading : OutboundMessage
heading = record {
  channel = "wecom";
  channel_account = "main";
  target_ref = "alice";
  kind = markdown;
  text = "# Good **morning**";
  buttons = [];
  attachment_url = none;
  reply_context_ref = "";
  classification = personal;
  calendar_preview = none;
  daily_agenda_preview = none;
}

abbrev greeting : OutboundMessage
greeting = record heading { kind = text; text = "Good morning" }

abbrev adapter : Adapter
adapter = record {
  channel = "wecom";
  channel_account = "main";
  capabilities = plain;
  send = λ m. err runtime_error;
}

abbrev utc : String → Option Zone
utc name =
    if str_eq name "UTC"
    then some (record { to_local = λ t. (t, false); to_utc = λ (p : ℕ × Bool). p.0 })
    else none

abbrev per_minute : QuotaRule
per_minute = record { scope_kind = "user"; window = minute; limit = 2; timezone = "UTC" }

abbrev worker : DeliveryWorker
worker = record { worker_id = "w1"; adapters = adapter ∷ []; zones = utc; rules = per_minute ∷ [] }

abbrev used_once : QuotaUsage
used_once = record {
  scope_kind = "user";
  scope_ref = "alice";
  window_kind = minute;
  window_start = 0;
  used = 1;
}

abbrev body : Payload
body = record {
  text = "# Good **morning**";
  buttons = [];
  attachment_url = none;
  calendar_preview = none;
  daily_agenda_preview = none;
  reply_context_ref = "";
}

abbrev queued : Delivery
queued = record {
  id = "d1";
  idempotency_key = "key-1";
  owner_user_id = "alice";
  target_ref = "alice";
  message_kind = markdown;
  payload = body;
  classification = personal;
  priority = 50;
  status = pending;
  attempts = 0;
  max_attempts = 3;
  next_attempt_at = 1000;
  last_error_code = "";
  created_at = 1000;
  updated_at = 1000;
  channel = "wecom";
  channel_account = "main";
  lease_owner = "";
  lease_token = "";
  lease_expires_at = none;
  provider_message_id = "";
}

abbrev leased_row : Delivery
leased_row = record queued {
  status = sending;
  attempts = 1;
  lease_owner = "w1";
  lease_token = "token-1";
  lease_expires_at = some 30_002_000;
  updated_at = 2000;
}

abbrev store_of : List Delivery → Store
store_of rows = record {
  users = "alice" ∷ [];
  deliveries = rows;
  dead_letters = [];
  audit_events = [];
  backoff_seconds = default_backoff;
}

abbrev ticket : ClaimedDelivery
ticket = record {
  id = "d1";
  owner_user_id = "alice";
  idempotency_key = "key-1";
  message = heading;
  priority = 50;
  attempts = 1;
  max_attempts = 3;
  lease_token = "token-1";
  lease_expires_at = 30_002_000;
}

abbrev granted : QuotaDecision
granted = record { allowed = true; next_available_at = 2000; reason_code = "reserved" }

is_claimed :
    claim (store_of (queued ∷ [])) (work worker "token-1") (at 2000)
    ≡ (ok (some ticket), store_of (leased_row ∷ []))
unfolding claim message_from_row is_blank text_length select_where select_one count_where
    update_where check_message
is_claimed = refl

is_reserved : reserve_for worker [] ticket (at 2000) ≡ ok (granted, used_once ∷ [])
unfolding reserve_for is_blank reserve select_one update_where
is_reserved = refl

tick-Settles_example :
    Settles ticket (tick worker "token-1" (store_of (queued ∷ [])) [] (at 2000))
    × (is_none (tick worker "token-1" (store_of (queued ∷ [])) [] (at 2000)).sent ≡ false
        → granted.allowed ≡ true)
tick-Settles_example =
    tick-Settles worker "token-1" (store_of (queued ∷ [])) (store_of (leased_row ∷ [])) []
      (used_once ∷ []) (at 2000) ticket granted (refl, tt) is_claimed is_reserved

is_found : find_adapter "wecom" "main" worker.adapters ≡ some adapter
unfolding find_adapter
is_found = refl

is_rendered : render_for_capabilities heading plain ≡ ok greeting
unfolding render_for_capabilities is_space is_blank text_length check_message
is_rendered = refl

tick-Fails_example :
    (row : Delivery) × In row (leased_row ∷ [])
    × (owns_lease "d1" "token-1" row ≡ true)
    × Fails
        (store_of (leased_row ∷ []))
        (used_once ∷ [])
        greeting
        2000
        row
        runtime_error
        (tick worker "token-1" (store_of (queued ∷ [])) [] (at 2000))
tick-Fails_example =
    tick-Fails worker "token-1" (store_of (queued ∷ [])) (store_of (leased_row ∷ [])) []
      (used_once ∷ []) (at 2000) ticket granted adapter greeting runtime_error (refl, tt)
      (λ q. ground (arith, q)) is_claimed is_found is_reserved refl is_rendered refl
