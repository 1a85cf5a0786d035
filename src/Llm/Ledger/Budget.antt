-- ===== src/Llm/Ledger/Budget.antt =====
-- No window is charged above its limit (src/zhixu/adapters/storage/sqlite/llm_usage.py).
use zhixu.Prelude.{
  ℕ, String, ◌≡◌, sym, ap, ◌∙◌, ◌⊎◌, inl, inr, true, false, ◌&&◌, Option, none, List, [], ◌∷◌,
  arith, ◌==◌, if◌then◌else◌, Bool-cases, any, All, str_eq, str_mem,
}
use zhixu.Prelude.Result.{Result-cases, ok, >>=-eq-ok}
use zhixu.Prelude.Table.{In, update_where, count_where}
use zhixu.Calendar.{Date}
use zhixu.Llm.Ledger.{
  LlmBudgetLimit, Usage, Ledger, start_of_window, has_key, used_in, exceeds, some_exceeded, charged,
  charge_all, Reserve, reserve,
}
use zhixu.Llm.Ledger.Finish.{Outcome, add_output, is_reserved, record_result}
use zhixu.Llm.Ledger.Calls.{Call, reserves, records, step, run}
use zhixu.Llm.Ledger.Charge.{of_kind, RowWithin, FitsIn, charge_all-RowWithin, charge_all-other}

module _ (owner model : String) (l : LlmBudgetLimit) where
  -- The reservation is for others, or under this limit and no other on its kind of window.
  unfoldable pub Respects : Call → Type 0
  Respects (records o) = Unit
  Respects (reserves r) =
      (str_eq r.owner_user_id owner && str_eq r.model_ref model ≡ true)
      → In l r.limits × (count_where (of_kind l.window_kind) r.limits ≡ 1)

  some_exceeded-fits :
      (o m : String) (estimated : ℕ) (now : Date) (rows : List Usage) (ls : List LlmBudgetLimit)
      → some_exceeded o m estimated now rows ls ≡ ok false
      → In l ls
      → (start : Date) × (start_of_window now l.window_kind ≡ ok start)
        × FitsIn owner model l estimated (used_in o m l.window_kind start rows)
  unfolding some_exceeded
  some_exceeded-fits o m estimated now rows [] h i = absurd i
  some_exceeded-fits o m estimated now rows (x ∷ ls) h i =
      let (st, e, rest) =
        >>=-eq-ok (start_of_window now x.window_kind)
          (λ z.
            if exceeds x (used_in o m x.window_kind z rows) estimated
            then ok true
            else some_exceeded o m estimated now rows ls)
          h in
      elim (Bool-cases (exceeds x (used_in o m x.window_kind st rows) estimated)) [
        | inl y ↦ absurd (ground arith)
        | inr n ↦ elim i [
          | inl l_is ↦
              let kept : exceeds l (used_in o m l.window_kind st rows) estimated ≡ false =
                rw l_is n in
              (
                st,
                rw l_is e,
                record {
                  one_more = unfold exceeds in ground arith;
                  units_more = unfold exceeds in ground arith;
                },
              )
          | inr j ↦ some_exceeded-fits o m estimated now rows ls (rw n at rest) j
        ]
      ]

  charged-RowWithin :
      (r : Reserve) (rows after : List Usage)
      → Respects (reserves r)
      → some_exceeded r.owner_user_id r.model_ref r.estimated_input_units r.now rows r.limits
        ≡ ok false
      → All (RowWithin owner model l) rows
      → charge_all r.owner_user_id r.model_ref r.estimated_input_units r.now r.limits rows
        ≡ ok after
      → All (RowWithin owner model l) after
  unfolding Respects
  charged-RowWithin r rows after k x w h =
      elim (Bool-cases (str_eq r.owner_user_id owner && str_eq r.model_ref model)) [
        | inl y ↦
            let (start, s, fits) =
              some_exceeded-fits r.owner_user_id r.model_ref r.estimated_input_units r.now rows
                r.limits x (k y).0 in
            charge_all-RowWithin owner model l r.owner_user_id r.model_ref r.estimated_input_units
              r.now start r.limits rows after s w (omega (arith, (k y).1)) (λ _ _. fits) h
        | inr n ↦
            charge_all-other owner model l r.owner_user_id r.model_ref r.estimated_input_units r.now
              r.limits rows after n w h
      ]

  charged-result :
      (g after : Ledger) (r : Reserve) (given : Option ℕ)
      → charged g r ≡ ok (given, after)
      → charge_all r.owner_user_id r.model_ref r.estimated_input_units r.now r.limits g.usage
        ≡ ok after.usage
  unfolding charged
  charged-result g after r given h =
      let all =
        charge_all r.owner_user_id r.model_ref r.estimated_input_units r.now r.limits g.usage in
      elim (Bool-cases (any (str_eq r.owner_user_id) g.users)) [
        | inr n ↦ absurd (ground arith)
        | inl y ↦ elim (Result-cases all) [
          | inl (e, q) ↦ absurd (ground arith)
          | inr (rows, q) ↦ (let same : after.usage ≡ rows = ground arith in q ∙ ap ok (sym same))
        ]
      ]

  reserve-result :
      (g after : Ledger) (r : Reserve) (given : Option ℕ)
      → reserve g r ≡ ok (given, after)
      → (after ≡ g)
        ⊎ ((some_exceeded r.owner_user_id r.model_ref r.estimated_input_units r.now g.usage r.limits
              ≡ ok false)
            × (charge_all r.owner_user_id r.model_ref r.estimated_input_units r.now r.limits g.usage
                ≡ ok after.usage))
  unfolding reserve
  reserve-result g after r given h =
      let (b, x, rest) =
        >>=-eq-ok
          (some_exceeded r.owner_user_id r.model_ref r.estimated_input_units r.now g.usage r.limits)
          (λ b. if b then ok (none, g) else charged g r) h in
      elim (Bool-cases b) [
        | inl y ↦ (let nothing : ok (none, g) ≡ ok (given, after) = rw y at rest in inl (cc))
        | inr n ↦ inr (x ∙ ap ok n, charged-result g after r given (rw n at rest))
      ]

  reserve-RowWithin :
      (g : Ledger) (r : Reserve)
      → Respects (reserves r)
      → All (RowWithin owner model l) g.usage
      → All (RowWithin owner model l) (step g (reserves r)).usage
  unfolding step
  reserve-RowWithin g r k w = elim (Result-cases (reserve g r)) [
    | inl (e, q) ↦ rw q w
    | inr ((given, after), q) ↦ elim (reserve-result g after r given q) [
      | inl same ↦ rw q (rw same w)
      | inr (x, h) ↦ rw q (charged-RowWithin r g.usage after.usage k x w h)
    ]
  ]

  add_output-RowWithin :
      (o : Outcome) (kind : String) (start : Date) (rows : List Usage)
      → All (RowWithin owner model l) rows
      → All (RowWithin owner model l) (add_output o kind start rows)
  unfolding add_output update_where
  add_output-RowWithin o kind start [] w = tt
  add_output-RowWithin o kind start (u ∷ us) w = (
    elim (Bool-cases (has_key o.owner_user_id o.model_ref kind start u)) [
      | inl y ↦ rw y (record { calls_within = w.0.calls_within; input_within = w.0.input_within })
      | inr n ↦ rw n w.0
    ],
    add_output-RowWithin o kind start us w.1,
  )

  record_result-usage :
      (g after : Ledger) (o : Outcome)
      → record_result g o ≡ ok after
      → after.usage ≡ (
          if str_eq o.outcome "completed"
          then add_output o "month" (record o.now { day = 1 }) (add_output o "day" o.now g.usage)
          else g.usage)
  unfolding record_result
  record_result-usage g after o h =
      elim (Bool-cases (str_mem o.outcome ("completed" ∷ "failed" ∷ []))) [
        | inr n ↦ absurd (ground arith)
        | inl y ↦ elim (Bool-cases (count_where (is_reserved o) g.events == 1)) [
          | inr n ↦ absurd (ground arith)
          | inl z ↦ ground arith
        ]
      ]

  usage_after :
      (g : Ledger) (o : Outcome)
      → All (RowWithin owner model l) g.usage
      → All (RowWithin owner model l) (
          if str_eq o.outcome "completed"
          then add_output o "month" (record o.now { day = 1 }) (add_output o "day" o.now g.usage)
          else g.usage)
  usage_after g o w = elim (Bool-cases (str_eq o.outcome "completed")) [
    | inr n ↦ rw n w
    | inl y ↦ rw y (
        add_output-RowWithin o "month" (record o.now { day = 1 }) (add_output o "day" o.now g.usage)
          (add_output-RowWithin o "day" o.now g.usage w))
  ]

  record_result-RowWithin :
      (g : Ledger) (o : Outcome)
      → All (RowWithin owner model l) g.usage
      → All (RowWithin owner model l) (step g (records o)).usage
  unfolding step
  record_result-RowWithin g o w = elim (Result-cases (record_result g o)) [
    | inl (e, q) ↦ rw q w
    | inr (h, q) ↦ rw q (rw (record_result-usage g h o q) (usage_after g o w))
  ]

  step-RowWithin :
      (g : Ledger) (c : Call)
      → Respects c
      → All (RowWithin owner model l) g.usage
      → All (RowWithin owner model l) (step g c).usage
  step-RowWithin g (reserves r) k w = reserve-RowWithin g r k w
  step-RowWithin g (records o) k w = record_result-RowWithin g o w

  -- For one owner, one model and one limit: where every reservation is under that limit, and under no
  -- other on its kind of window, no run of the calls takes the calls or the input of a window over it.
  pub run-RowWithin :
      (g : Ledger) (cs : List Call)
      → All Respects cs
      → All (RowWithin owner model l) g.usage
      → All (RowWithin owner model l) (run g cs).usage
  unfolding run
  run-RowWithin g [] k w = w
  run-RowWithin g (c ∷ cs) k w = run-RowWithin (step g c) cs k.1 (step-RowWithin g c k.0 w)
