-- ===== src/Delivery/Worker/Settle.antt =====
-- A step of the worker (src/zhixu/delivery/worker.py) gives every delivery that it claims back.
use zhixu.Prelude.{
  ◌+◌, String, ◌≡◌, refl, ap, ◌∙◌, inl, inr, true, false, Option, none, some, List, arith, eq_iff,
  Bool-cases, Option-cases, str_eq_refl,
}
use zhixu.Prelude.Result.{Result-cases, ok}
use zhixu.Prelude.Table.{In, update_where, count_where, In-update_where}
use zhixu.Domain.Time.{DateTime}
use zhixu.Channels.{OutboundMessage, ChannelDeliveryResult, is_none}
use zhixu.Delivery.Outbox.Tables.{Delivery, DeliveryStatus, Store, ClaimedDelivery}
use zhixu.Delivery.Outbox.Claim.{
  Claim, claim, defer_for_quota, defer_row, owns_lease, may_lease, lease_row,
}
use zhixu.Delivery.Outbox.Complete.{complete}
use zhixu.Delivery.Outbox.Rows.{UniqueIds, UniqueIds-update_where}
use zhixu.Delivery.Outbox.Selection.{claim-Takes, count-one, leased-In, leased}
use zhixu.Delivery.Outbox.Outcome.{NotOwned, finish-released, complete-finish, complete-succeeds}
use zhixu.Delivery.Quota.{QuotaUsage, QuotaDecision}
use zhixu.Delivery.Worker.{
  Adapter, DeliveryWorker, Tick, TickStatus, quota_wait, completed, find_adapter, attempt,
  reserve_for, finish_tick, decided_tick, claimed_tick, work, resume, tick, failed,
}

-- The claim that was handed out owns its row.
pub record Owned (d : ClaimedDelivery) (now : DateTime) (t : Store) : Type 0 where
  pub row : Delivery
  pub unique : UniqueIds t.deliveries
  pub member : In row t.deliveries
  pub owned : owns_lease d.id d.lease_token row ≡ true
  pub aware : now.aware ≡ true

pub claim-Owned :
    (s t : Store) (c : Claim) (now : DateTime) (d : ClaimedDelivery)
    → UniqueIds s.deliveries
    → claim s c now ≡ (ok (some d), t)
    → Owned d now t
unfolding claim
claim-Owned s t c now d u h =
    let k = claim-Takes s t c now d u h in
    record {
      row = leased c now.instant k.row;
      unique = rw k.store (
          UniqueIds-update_where (may_lease k.row.id now.instant)
            (lease_row c.worker_id c.token (now.instant + c.lease_for) now.instant) s.deliveries
            (λ x. unfold lease_row in refl) u);
      member = rw k.store (leased-In s c now.instant k.row u k.member k.due);
      owned =
          unfold lease_row in rw (k.id, k.token, str_eq_refl k.row.id, str_eq_refl c.token) refl;
      aware = ground arith;
    }

-- The step returns, and the lease that it took is over.
pub record Settles (d : ClaimedDelivery) (k : Tick) : Type 0 where
  pub status : TickStatus
  pub returns : k.outcome ≡ ok status
  pub released : NotOwned d.id d.lease_token k.store.deliveries

finish_tick-Settles :
    (s : Store) (usage : List QuotaUsage) (d : ClaimedDelivery)
    (attempted : ChannelDeliveryResult × Option OutboundMessage) (now : DateTime)
    → Owned d now s
    → Settles d (finish_tick s usage d attempted now)
unfolding finish_tick
finish_tick-Settles s usage d attempted now o =
    let (st, t, done) =
      complete-succeeds s d attempted.0 now o.row o.unique o.member o.owned o.aware in
    let (row, _, f) = complete-finish s t d attempted.0 now st done in
    rw (done, finish_tick)
      (record {
        status = completed st;
        returns = refl;
        released =
            rw (ap (λ (p : DeliveryStatus × Store). p.1.deliveries) f)
              (finish-released s row d.id d.lease_token attempted.0 now.instant);
      })

finish_tick-sent :
    (s : Store) (usage : List QuotaUsage) (d : ClaimedDelivery)
    (attempted : ChannelDeliveryResult × Option OutboundMessage) (now : DateTime)
    → (finish_tick s usage d attempted now).sent ≡ attempted.1
unfolding finish_tick
finish_tick-sent s usage d attempted now = elim (Result-cases (complete s d attempted.0 now)) [
  | inl (e, q) ↦ rw (q, finish_tick) refl
  | inr (r, q) ↦ rw (q, finish_tick) refl
]

defer-Settles :
    (s : Store) (d : ClaimedDelivery) (next now : DateTime) (reason : String)
    → Owned d now s
    → next.aware ≡ true
    → (t : Store) × (defer_for_quota s d next now reason ≡ ok t)
      × NotOwned d.id d.lease_token t.deliveries
unfolding defer_for_quota
defer-Settles s d next now reason o a =
    let owner = owns_lease d.id d.lease_token in
    let row_id : o.row.id ≡ d.id = ground (arith, o.owned, eq_iff o.row.id d.id) in
    let counted : count_where owner s.deliveries ≡ 1 =
      count-one o.row owner s.deliveries (λ x y. rw row_id (ground arith)) o.unique o.member
        o.owned in
    (
      record s {
        deliveries = update_where owner (defer_row next.instant reason now.instant) s.deliveries;
      },
      rw (a, o.aware, counted) refl,
      λ x m.
          let (b, _, x_is) =
            In-update_where owner (defer_row next.instant reason now.instant) s.deliveries x m in
          ap owner x_is ∙ elim (Bool-cases (owner b)) [
            | inl y ↦ rw y (unfold defer_row in ground arith)
            | inr n ↦ rw n n
          ],
    )

decided_tick-Settles :
    (s : Store) (a : Adapter) (d : ClaimedDelivery) (now : DateTime) (decision : QuotaDecision)
    (usage : List QuotaUsage)
    → Owned d now s
    → Settles d (decided_tick s a d now (decision, usage))
      × (is_none (decided_tick s a d now (decision, usage)).sent ≡ false → decision.allowed ≡ true)
unfolding decided_tick
decided_tick-Settles s a d now decision usage o = elim (Bool-cases decision.allowed) [
  | inl y ↦ rw y (finish_tick-Settles s usage d (attempt a d.message) now o, λ _. refl)
  | inr n ↦
      let (t, done, free) =
        defer-Settles s d (record { instant = decision.next_available_at; aware = true }) now
          decision.reason_code o refl in
      rw (n, done)
        (record { status = quota_wait; returns = refl; released = free }, λ f. absurd (cc))
]

-- Where ids are unique and the quotas answer, a step that claims a delivery returns a status,
-- whatever the adapter answers or raises, its lease on the delivery is over, and a message was only
-- handed to the adapter if the quotas allowed it.
pub tick-Settles :
    (w : DeliveryWorker) (token : String) (s t : Store) (usage after : List QuotaUsage)
    (now : DateTime) (d : ClaimedDelivery) (decision : QuotaDecision)
    → UniqueIds s.deliveries
    → claim s (work w token) now ≡ (ok (some d), t)
    → reserve_for w usage d now ≡ ok (decision, after)
    → Settles d (tick w token s usage now)
      × (is_none (tick w token s usage now).sent ≡ false → decision.allowed ≡ true)
unfolding tick resume claimed_tick
tick-Settles w token s t usage after now d decision u h q =
    let o = claim-Owned s t (work w token) now d u h in
    elim (Option-cases (find_adapter d.message.channel d.message.channel_account w.adapters)) [
      | inl n ↦
          let unsent = finish_tick-sent t usage d (failed false "adapter_unavailable", none) now in
          rw (h, n, claimed_tick)
            (
              finish_tick-Settles t usage d (failed false "adapter_unavailable", none) now o,
              λ f. absurd (cc (rw unsent at f)),
            )
      | inr (a, f) ↦ rw (h, f, q, claimed_tick) (decided_tick-Settles t a d now decision after o)
    ]
