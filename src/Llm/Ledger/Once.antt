-- ===== src/Llm/Ledger/Once.antt =====
-- The result of a call is recorded at most once
-- (src/zhixu/adapters/storage/sqlite/llm_usage.py).
use zhixu.Prelude.{
  ℕ, ◌+◌, ◌<◌, String, ◌≡◌, refl, sym, ap, ◌∙◌, ◌⊎◌, inl, inr, true, false, Option, none, List, [],
  ◌∷◌, ◌++◌, arith, eq_iff, ◌==◌, if◌then◌else◌, Bool-cases, any, str_eq, str_mem,
}
use zhixu.Prelude.Result.{Result-cases, ok, err, >>=-eq-ok, runtime_error}
use zhixu.Prelude.Table.{
  In, update_where, count_where, count_where-none, In-update_where, In-append,
}
use zhixu.Llm.Ledger.{
  CallEvent, Ledger, Reserve, reserve, charged, some_exceeded, charge_all, reserved_event,
}
use zhixu.Llm.Ledger.Finish.{Outcome, is_reserved, finalized, record_result}
use zhixu.Llm.Ledger.Calls.{Call, reserves, records, step, run}

-- No event of the call is reserved, and its id is not given again.
record Closed (o : Outcome) (g : Ledger) : Type 0 where
  none_reserved : (e : CallEvent) → In e g.events → is_reserved o e ≡ false
  given : o.call_id < g.next_id

other_outcome :
    (outcome : String)
    → str_mem outcome ("completed" ∷ "failed" ∷ []) ≡ true
    → str_eq outcome "reserved" ≡ false
other_outcome outcome m = elim (Bool-cases (str_eq "completed" outcome)) [
  | inl y ↦ rw (sym ((eq_iff "completed" outcome).0 y)) refl
  | inr n ↦
      (let second : str_eq "failed" outcome ≡ true = ground arith in
        rw (sym ((eq_iff "failed" outcome).0 second)) refl)
]

-- A result makes an event that is not reserved.
finalized-closed :
    (o p : Outcome) (e : CallEvent)
    → str_mem p.outcome ("completed" ∷ "failed" ∷ []) ≡ true
    → is_reserved o (finalized p e) ≡ false
unfolding finalized is_reserved
finalized-closed o p e m =
    let kept : (finalized p e).outcome ≡ p.outcome =
      elim (Bool-cases (str_eq p.outcome "completed")) [ inl y ↦ rw y refl | inr n ↦ rw n refl ] in
    let not_reserved : str_eq (finalized p e).outcome "reserved" ≡ false =
      rw kept (other_outcome p.outcome m) in
    ground (arith, not_reserved)

charged-events :
    (g after : Ledger) (r : Reserve) (given : Option ℕ)
    → charged g r ≡ ok (given, after)
    → (after.events ≡ g.events ++ reserved_event r g.next_id ∷ []) × (after.next_id ≡ g.next_id + 1)
unfolding charged
charged-events g after r given h = elim (Bool-cases (any (str_eq r.owner_user_id) g.users)) [
  | inr n ↦ absurd (ground arith)
  | inl y ↦
      elim (Result-cases
        (charge_all r.owner_user_id r.model_ref r.estimated_input_units r.now r.limits g.usage)) [
          | inl (e, q) ↦ absurd (ground arith)
          | inr (rows, q) ↦ (ground arith, ground arith)
        ]
]

-- What a reservation and a result leave in the table of events.
reserve-events :
    (g after : Ledger) (r : Reserve) (given : Option ℕ)
    → reserve g r ≡ ok (given, after)
    → (after ≡ g)
      ⊎ ((after.events ≡ g.events ++ reserved_event r g.next_id ∷ [])
          × (after.next_id ≡ g.next_id + 1))
unfolding reserve
reserve-events g after r given h =
    let (b, _, rest) =
      >>=-eq-ok
        (some_exceeded r.owner_user_id r.model_ref r.estimated_input_units r.now g.usage r.limits)
        (λ b. if b then ok (none, g) else charged g r) h in
    elim (Bool-cases b) [
      | inl y ↦ (let nothing : ok (none, g) ≡ ok (given, after) = rw y at rest in inl (cc))
      | inr n ↦ inr (charged-events g after r given (rw n at rest))
    ]

record_result-events :
    (g after : Ledger) (p : Outcome)
    → record_result g p ≡ ok after
    → (str_mem p.outcome ("completed" ∷ "failed" ∷ []) ≡ true)
      × (after.events ≡ update_where (is_reserved p) (finalized p) g.events)
      × (after.next_id ≡ g.next_id)
unfolding record_result
record_result-events g after p h =
    elim (Bool-cases (str_mem p.outcome ("completed" ∷ "failed" ∷ []))) [
      | inr n ↦ absurd (ground arith)
      | inl y ↦ elim (Bool-cases (count_where (is_reserved p) g.events == 1)) [
        | inr n ↦ absurd (ground arith)
        | inl z ↦ (y, ground arith, ground arith)
      ]
    ]

reserve-Closed :
    (o : Outcome) (g : Ledger) (r : Reserve) → Closed o g → Closed o (step g (reserves r))
unfolding step
reserve-Closed o g r c = elim (Result-cases (reserve g r)) [
  | inl (e, q) ↦ rw q c
  | inr ((given, after), q) ↦ elim (reserve-events g after r given q) [
    | inl same ↦ rw q (rw same c)
    | inr (events_are, next_is) ↦ rw q (record {
      none_reserved = λ e m.
          elim (In-append g.events (reserved_event r g.next_id ∷ []) e (rw events_are at m)) [
            | inl k ↦ c.none_reserved e k
            | inr (inl e_is) ↦
                (rw e_is (unfold is_reserved reserved_event in ground (arith, c.given)))
            | inr (inr none_left) ↦ absurd none_left
          ];
      given = omega (arith, c.given, next_is);
    })
  ]
]

record_result-Closed :
    (o : Outcome) (g : Ledger) (p : Outcome) → Closed o g → Closed o (step g (records p))
unfolding step
record_result-Closed o g p c = elim (Result-cases (record_result g p)) [
  | inl (e, q) ↦ rw q c
  | inr (after, q) ↦
      let (valid, events_are, next_is) = record_result-events g after p q in
      rw q (record {
        none_reserved = λ e m.
            let (b, k, e_is) =
              In-update_where (is_reserved p) (finalized p) g.events e (rw events_are at m) in
            ap (is_reserved o) e_is ∙ elim (Bool-cases (is_reserved p b)) [
              | inl y ↦ rw y (finalized-closed o p b valid)
              | inr n ↦ rw n (c.none_reserved b k)
            ];
        given = omega (arith, c.given, next_is);
      })
]

run-Closed : (o : Outcome) (g : Ledger) (cs : List Call) → Closed o g → Closed o (run g cs)
unfolding run
run-Closed o g [] c = c
run-Closed o g (reserves r ∷ cs) c = run-Closed o (step g (reserves r)) cs (reserve-Closed o g r c)
run-Closed o g (records p ∷ cs) c =
    run-Closed o (step g (records p)) cs (record_result-Closed o g p c)

result-Closed :
    (g after : Ledger) (o : Outcome)
    → o.call_id < g.next_id
    → record_result g o ≡ ok after
    → Closed o after
result-Closed g after o l h =
    let (valid, events_are, next_is) = record_result-events g after o h in
    record {
      none_reserved = λ e m.
          let (b, k, e_is) =
            In-update_where (is_reserved o) (finalized o) g.events e (rw events_are at m) in
          ap (is_reserved o) e_is ∙ elim (Bool-cases (is_reserved o b)) [
            | inl y ↦ rw y (finalized-closed o o b valid)
            | inr n ↦ rw n n
          ];
      given = omega (arith, l, next_is);
    }

-- Where the id of a call was given, after its result is recorded, whatever calls follow, a further
-- result of that call is refused as a RuntimeError, and the ledger is as it was.
pub record_result_once :
    (g after : Ledger) (o p : Outcome) (cs : List Call)
    → o.call_id < g.next_id
    → record_result g o ≡ ok after
    → p.call_id ≡ o.call_id
    → p.owner_user_id ≡ o.owner_user_id
    → p.model_ref ≡ o.model_ref
    → str_mem p.outcome ("completed" ∷ "failed" ∷ []) ≡ true
    → (record_result (run after cs) p ≡ err runtime_error)
      × (step (run after cs) (records p) ≡ run after cs)
unfolding record_result step is_reserved
record_result_once g after o p cs l h i w m v =
    let closed = run-Closed o after cs (result-Closed g after o l h) in
    let none : count_where (is_reserved p) (run after cs).events ≡ 0 =
      count_where-none (is_reserved p) (run after cs).events
        (λ e k. rw (i, w, m) (closed.none_reserved e k)) in
    let refused : record_result (run after cs) p ≡ err runtime_error = rw (v, none) refl in
    (refused, rw refused refl)
