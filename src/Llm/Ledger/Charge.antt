-- ===== src/Llm/Ledger/Charge.antt =====
-- What a reservation does to the windows of one limit
-- (src/zhixu/adapters/storage/sqlite/llm_usage.py).
use zhixu.Prelude.{
  ℕ, ◌+◌, ◌≤◌, ◌<◌, String, ◌≡◌, refl, sym, ap, ◌∙◌, inl, inr, Bool, true, false, ◌&&◌, List, [],
  ◌∷◌, arith, eq_iff, Bool-cases, All, str_eq, str_eq_comm,
}
use zhixu.Prelude.Result.{ok, >>=-eq-ok}
use zhixu.Prelude.Table.{select_one, count_where}
use zhixu.Calendar.{Date}
use zhixu.Llm.Ledger.{LlmBudgetLimit, Usage, start_of_window, has_key, used_in, charge, charge_all}

-- A row of the windows that the limit bounds, for one owner and one model.
abbrev bounded : String → String → LlmBudgetLimit → Usage → Bool
bounded owner model l u =
    str_eq u.owner_user_id owner && (str_eq u.model_ref model && str_eq u.window_kind l.window_kind)

abbrev pub of_kind : String → LlmBudgetLimit → Bool
of_kind kind l = str_eq l.window_kind kind

module _ (owner model : String) (l : LlmBudgetLimit) where
  -- A window of the limit is within it.
  pub record RowWithin (u : Usage) : Type 0 where
    pub calls_within : bounded owner model l u ≡ true → u.calls ≤ l.calls
    pub input_within : bounded owner model l u ≡ true → u.input_units ≤ l.input_units

  -- The next call fits the limit after what the window has used.
  pub record FitsIn (estimated : ℕ) (u : Usage) : Type 0 where
    pub one_more : u.calls + 1 ≤ l.calls
    pub units_more : u.input_units + estimated ≤ l.input_units

  abbrev ours : String → String → String → Bool
  ours o m kind = str_eq o owner && (str_eq m model && str_eq kind l.window_kind)

  bounded-ours :
      (o m kind : String) (start : Date) (u : Usage)
      → has_key o m kind start u ≡ true
      → bounded owner model l u ≡ true
      → ours o m kind ≡ true
  unfolding has_key
  bounded-ours o m kind start u h b =
      let o_is : u.owner_user_id ≡ o = (eq_iff u.owner_user_id o).0 (ground arith) in
      let m_is : u.model_ref ≡ m = (eq_iff u.model_ref m).0 (ground arith) in
      let kind_is : u.window_kind ≡ kind = (eq_iff u.window_kind kind).0 (ground arith) in
      rw (sym o_is, sym m_is, sym kind_is) b

  used_in-here :
      (o m kind : String) (start : Date) (u : Usage) (us : List Usage)
      → has_key o m kind start u ≡ true
      → used_in o m kind start (u ∷ us) ≡ u
  unfolding used_in select_one
  used_in-here o m kind start u us h = rw (h, used_in) refl

  used_in-later :
      (o m kind : String) (start : Date) (u : Usage) (us : List Usage)
      → has_key o m kind start u ≡ false
      → used_in o m kind start (u ∷ us) ≡ used_in o m kind start us
  unfolding used_in select_one
  used_in-later o m kind start u us h = rw (h, used_in) refl

  charge-RowWithin :
      (o m kind : String) (start : Date) (estimated : ℕ) (rows : List Usage)
      → All RowWithin rows
      → (ours o m kind ≡ true → FitsIn estimated (used_in o m kind start rows))
      → All RowWithin (charge o m kind start estimated rows)
  unfolding charge
  charge-RowWithin o m kind start estimated [] w f = (
    record {
      calls_within = λ b. unfold used_in select_one in omega (arith, (f b).one_more);
      input_within = λ b. unfold used_in select_one in omega (arith, (f b).units_more);
    },
    tt,
  )
  charge-RowWithin o m kind start estimated (u ∷ us) w f =
      elim (Bool-cases (has_key o m kind start u)) [
        | inl y ↦
            let here = used_in-here o m kind start u us y in
            let fits : bounded owner model l u ≡ true → FitsIn estimated u =
              λ b. rw here at (f (bounded-ours o m kind start u y b)) in
            rw y (
              record {
                calls_within = λ b. (fits b).one_more;
                input_within = λ b. (fits b).units_more;
              },
              w.1,
            )
        | inr n ↦
            let later = used_in-later o m kind start u us n in
            rw n (w.0, charge-RowWithin o m kind start estimated us w.1 (λ e. rw later at (f e)))
      ]

  -- A window of another kind is not touched.
  used_in-charge :
      (o m kind other : String) (start day : Date) (estimated : ℕ) (rows : List Usage)
      → str_eq kind other ≡ false
      → used_in o m kind start (charge o m other day estimated rows) ≡ used_in o m kind start rows
  unfolding charge used_in select_one
  used_in-charge o m kind other start day estimated [] n =
      used_in-later o m kind start
        (record {
          owner_user_id = o;
          model_ref = m;
          window_kind = other;
          window_start = day;
          calls = 1;
          input_units = estimated;
          output_units = 0;
        })
        [] (unfold has_key in ground (arith, n, str_eq_comm kind other))
  used_in-charge o m kind other start day estimated (u ∷ us) n =
      let more = record u { calls = u.calls + 1; input_units = u.input_units + estimated } in
      elim (Bool-cases (has_key o m other day u)) [
        | inl y ↦
            let skip : has_key o m kind start u ≡ false =
              unfold has_key in
              ground (
                arith,
                y,
                n,
                eq_iff u.window_kind other,
                eq_iff u.window_kind kind,
                eq_iff kind other,
              ) in
            rw y (
              used_in-later o m kind start more us (unfold has_key in skip)
              ∙ sym (used_in-later o m kind start u us skip))
        | inr z ↦ rw z (elim (Bool-cases (has_key o m kind start u)) [
          | inl k ↦
              used_in-here o m kind start u (charge o m other day estimated us) k
              ∙ sym (used_in-here o m kind start u us k)
          | inr k ↦
              used_in-later o m kind start u (charge o m other day estimated us) k
              ∙ used_in-charge o m kind other start day estimated us n
              ∙ sym (used_in-later o m kind start u us k)
        ])
      ]

  pub charge_all-RowWithin :
      (o m : String) (estimated : ℕ) (now start : Date) (ls : List LlmBudgetLimit)
      (rows after : List Usage)
      → start_of_window now l.window_kind ≡ ok start
      → All RowWithin rows
      → count_where (of_kind l.window_kind) ls ≤ 1
      → (str_eq o owner && str_eq m model ≡ true
          → 0 < count_where (of_kind l.window_kind) ls
          → FitsIn estimated (used_in o m l.window_kind start rows))
      → charge_all o m estimated now ls rows ≡ ok after
      → All RowWithin after
  unfolding charge_all
  charge_all-RowWithin o m estimated now start [] rows after s w c f h =
      (let same : after ≡ rows = ground arith in rw same w)
  charge_all-RowWithin o m estimated now start (x ∷ ls) rows after s w c f h =
      let (st, e, rest) =
        >>=-eq-ok (start_of_window now x.window_kind)
          (λ z. charge_all o m estimated now ls (charge o m x.window_kind z estimated rows)) h in
      elim (Bool-cases (str_eq x.window_kind l.window_kind)) [
        | inl y ↦
            let kind_is : x.window_kind ≡ l.window_kind =
              (eq_iff x.window_kind l.window_kind).0 y in
            let start_is : st ≡ start =
              (let both = sym e ∙ ap (start_of_window now) kind_is ∙ s in cc) in
            let none_left : count_where (of_kind l.window_kind) ls ≡ 0 =
              unfold count_where in ground arith in
            charge_all-RowWithin o m estimated now start ls
              (charge o m x.window_kind st estimated rows) after s
              (charge-RowWithin o m x.window_kind st estimated rows w (λ b.
                rw (kind_is, start_is) (f (ground arith) (unfold count_where in ground arith))))
              (omega (arith, none_left)) (λ _ more. absurd (omega (arith, none_left, more))) rest
        | inr n ↦
            let fewer : count_where (of_kind l.window_kind) ls
                ≡ count_where (of_kind l.window_kind) (x ∷ ls) =
              unfold count_where in rw n refl in
            charge_all-RowWithin o m estimated now start ls
              (charge o m x.window_kind st estimated rows) after s
              (charge-RowWithin o m x.window_kind st estimated rows w (λ b. absurd (ground arith)))
              (omega (arith, fewer, c))
              (λ b more.
                rw
                  (used_in-charge o m l.window_kind x.window_kind start st estimated rows
                    (str_eq_comm l.window_kind x.window_kind ∙ n))
                  (f b (omega (arith, fewer, more))))
              rest
      ]

  -- What is charged to another owner or model.
  pub charge_all-other :
      (o m : String) (estimated : ℕ) (now : Date) (ls : List LlmBudgetLimit)
      (rows after : List Usage)
      → (str_eq o owner && str_eq m model) ≡ false
      → All RowWithin rows
      → charge_all o m estimated now ls rows ≡ ok after
      → All RowWithin after
  unfolding charge_all
  charge_all-other o m estimated now [] rows after n w h =
      let same : after ≡ rows = ground arith in rw same w
  charge_all-other o m estimated now (x ∷ ls) rows after n w h =
      let (st, e, rest) =
        >>=-eq-ok (start_of_window now x.window_kind)
          (λ z. charge_all o m estimated now ls (charge o m x.window_kind z estimated rows)) h in
      charge_all-other o m estimated now ls (charge o m x.window_kind st estimated rows) after n
        (charge-RowWithin o m x.window_kind st estimated rows w (λ b. absurd (ground arith))) rest
