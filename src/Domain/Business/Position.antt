-- ===== src/Domain/Business/Position.antt =====
-- The business day that a position of a month names (src/zhixu/domain/business_calendar.py), against
-- a count of the days of the month.
use zhixu.Prelude.{
  ℕ, zero, suc, ◌+◌, ◌-◌, ◌≤◌, ◌<◌, ◌≡◌, refl, sym, ap, ◌∙◌, ◌⊎◌, inl, inr, true, false, ◌||◌, none,
  some, List, [], ◌∷◌, arith, ltb, ◌==◌, ltb→lt, Bool-cases, Option-cases, length, any,
}
use zhixu.Prelude.Result.{Result-cases, Result, ok, err, validation_error}
use zhixu.Prelude.Int.{ℤ, pos, negsuc, magnitude}
use zhixu.Prelude.Table.{In}
use zhixu.Calendar.{Date, days_in_month}
use zhixu.Domain.Business.{
  BusinessCalendar, is_working, is_business_day, business_days, get_elem?, at_position, is_zero,
  monthly_business_day,
}
use zhixu.Domain.Business.Count.{
  on, working, Counted, length-business_days, business_days-get, business_days-err,
}

module _ (c : BusinessCalendar) (year month : ℕ) where
  -- The year is installed; the day is in the month of `last` days, works, and is the one that the position counts: from
  -- the first business day, 1, or from the last, -1.
  unfoldable pub IsCounted : ℤ → ℕ → ℕ → Type 0
  IsCounted (pos p) before behind = before + 1 ≡ p
  IsCounted (negsuc q) before behind = behind ≡ q

  pub record Stands (position : ℤ) (last : ℕ) (d : Date) : Type 0 where
    pub installed : In year c.supported_years
    pub date_is : d ≡ on year month d.day
    pub in_month : (1 ≤ d.day) × (d.day ≤ last)
    pub works : is_working c d ≡ true
    pub counted :
        IsCounted position
          (working c year month 1 (d.day - 1))
          (working c year month (d.day + 1) (last - d.day))

  -- What the rule may answer: the day that the position counts, or a refusal with its reason.
  pub data Answers (position : ℤ) (last : ℕ) : Result Date → Type 0 where
    stands : {d : Date} → Stands position last d → Answers position last (ok d)
    not_installed : (In year c.supported_years → ⊥) → Answers position last (err validation_error)
    outside :
        working c year month 1 last < magnitude position
        → Answers position last (err validation_error)
    no_position :
        (magnitude position ≡ 0) ⊎ (31 < magnitude position)
        → Answers position last (err validation_error)

  any-In : (xs : List ℕ) → any (λ y. y == year) xs ≡ true → In year xs
  any-In [] h = ground arith
  any-In (x ∷ xs) h = ground (arith, any-In xs)

  any-not_In : (xs : List ℕ) → any (λ y. y == year) xs ≡ false → In year xs → ⊥
  any-not_In [] h i = absurd i
  any-not_In (x ∷ xs) h (inl e) = ground (arith, e)
  any-not_In (x ∷ xs) h (inr i) = any-not_In xs (ground arith) i

  -- Who has looked at a day has found the year installed.
  business_days-installed :
      (day n : ℕ) (days : List Date)
      → business_days c year month day n ≡ ok days
      → 0 < length days
      → In year c.supported_years
  unfolding business_days is_business_day
  business_days-installed day zero days h some_day = absurd (ground (arith, h))
  business_days-installed day (suc n) days h some_day =
      elim (Bool-cases (any (λ y. y == year) c.supported_years)) [
        | inl y ↦ any-In c.supported_years y
        | inr m ↦ absurd (ground (arith, m))
      ]

  at_position-some :
      (days : List Date) (position : ℤ) (d : Date)
      → at_position days position ≡ some d
      → 0 < length days
  unfolding at_position get_elem?
  at_position-some [] (pos zero) d h = absurd (cc)
  at_position-some [] (pos (suc i)) d h = absurd (cc)
  at_position-some [] (negsuc i) d h = absurd (ground (arith, h))
  at_position-some (x ∷ days) position d h = ground arith

  Counted-Stands :
      (n i : ℕ) (d : Date) (position : ℤ)
      → ((before behind : ℕ)
          → before ≡ i
          → behind + i + 1 ≡ working c year month 1 n
          → IsCounted position before behind)
      → Counted c year month 1 n i d
      → In year c.supported_years
      → Stands position n d
  Counted-Stands n i d position t r known =
      let day_is : d.day ≡ 1 + r.k = ap (λ z. z.day) r.date_is in
      record {
        installed = known;
        date_is = r.date_is ∙ ap (on year month) (sym day_is);
        in_month = (omega (arith, day_is), omega (arith, day_is, r.below));
        works = ap (is_working c) r.date_is ∙ r.works;
        counted =
            let early : d.day - 1 ≡ r.k = omega (arith, day_is) in
            let later : d.day + 1 ≡ 1 + r.k + 1 = omega (arith, day_is) in
            let left : n - d.day ≡ n - r.k - 1 = omega (arith, day_is) in
            t (working c year month 1 (d.day - 1)) (working c year month (d.day + 1) (n - d.day))
              (ap (working c year month 1) early ∙ r.before) (rw (later, left) r.behind);
      }

  get_elem?-short : (ds : List Date) (i : ℕ) → get_elem? ds i ≡ none → length ds ≤ i
  unfolding get_elem?
  get_elem?-short [] i h = omega arith
  get_elem?-short (d ∷ ds) zero h = absurd (cc)
  get_elem?-short (d ∷ ds) (suc i) h = omega (arith, get_elem?-short ds i h)

  at_position-behind :
      (days : List Date) (i : ℕ)
      → ltb i (length days) ≡ true
      → at_position days (negsuc i) ≡ get_elem? days (length days - 1 - i)
  unfolding at_position
  at_position-behind days i y = rw y refl

  refused_position :
      (position : ℤ)
      → is_zero position || ltb 31 (magnitude position) ≡ true
      → (magnitude position ≡ 0) ⊎ (31 < magnitude position)
  refused_position (pos zero) b = inl refl
  refused_position (pos (suc i)) b = inr (ltb→lt 31 (suc i) b)
  refused_position (negsuc i) b = inr (ltb→lt 31 (suc i) b)

  is_zero-fine :
      (position : ℤ)
      → is_zero position || ltb 31 (magnitude position) ≡ false
      → is_zero position ≡ false
  is_zero-fine (pos zero) f = cc
  is_zero-fine (pos (suc i)) f = refl
  is_zero-fine (negsuc i) f = refl

  at_position-none :
      (days : List Date) (position : ℤ)
      → is_zero position ≡ false
      → at_position days position ≡ none
      → length days < magnitude position
  unfolding at_position
  at_position-none days (pos zero) z h = absurd (cc)
  at_position-none days (pos (suc i)) z h = omega (arith, get_elem?-short days i h)
  at_position-none days (negsuc i) z h = elim (Bool-cases (ltb i (length days))) [
    | inl y ↦
        let g : get_elem? days (length days - 1 - i) ≡ none =
          sym (at_position-behind days i y) ∙ h in
        omega (arith, get_elem?-short days (length days - 1 - i) g, ltb→lt i (length days) y)
    | inr n ↦ ground arith
  ]

  at_position-Stands :
      (n : ℕ) (days : List Date) (position : ℤ) (d : Date)
      → business_days c year month 1 n ≡ ok days
      → at_position days position ≡ some d
      → Stands position n d
  unfolding at_position IsCounted
  at_position-Stands n days (pos zero) d h g = absurd (cc)
  at_position-Stands n days (pos (suc i)) d h g =
      Counted-Stands n i d (pos (suc i)) (λ before behind s _. omega (arith, s))
        (business_days-get c year month 1 n days i d h g)
        (business_days-installed 1 n days h (at_position-some days (pos (suc i)) d g))
  at_position-Stands n days (negsuc i) d h g = elim (Bool-cases (ltb i (length days))) [
    | inl y ↦
        Counted-Stands n (length days - 1 - i) d (negsuc i)
          (λ before behind _ s.
            omega
              (arith, s, ltb→lt i (length days) y, length-business_days c year month 1 n days h))
          (business_days-get c year month 1 n days (length days - 1 - i) d h
            (sym (at_position-behind days i y) ∙ g))
          (business_days-installed 1 n days h (at_position-some days (negsuc i) d g))
    | inr o ↦ absurd (let none_is : at_position days (negsuc i) ≡ none = rw o refl in cc)
  ]

  -- A rule names the business day that its position counts, in a year that is installed, and is refused
  -- only for a year that is not installed, a position that is zero or above 31, or one with too few business days.
  pub monthly_business_day-Answers :
      (position : ℤ)
      → Answers position (days_in_month year month) (monthly_business_day c year month position)
  unfolding monthly_business_day
  monthly_business_day-Answers position =
      elim (Bool-cases (is_zero position || ltb 31 (magnitude position))) [
        | inl bad ↦ rw (bad, monthly_business_day) (no_position (refused_position position bad))
        | inr fine ↦ elim (Result-cases (business_days c year month 1 (days_in_month year month))) [
          | inl (e, q) ↦
              let (s, f) = business_days-err c year month 1 (days_in_month year month) e q in
              let refused : business_days c year month 1 (days_in_month year month)
                  ≡ err validation_error =
                q ∙ ap err s in
              rw (fine, refused, monthly_business_day)
                (not_installed (any-not_In c.supported_years f))
          | inr (days, q) ↦ elim (Option-cases (at_position days position)) [
            | inl m ↦
                rw (fine, q, m, monthly_business_day)
                  (outside omega (
                    arith,
                    length-business_days c year month 1 (days_in_month year month) days q,
                    at_position-none days position (is_zero-fine position fine) m,
                  ))
            | inr (d, m) ↦
                rw (fine, q, m, monthly_business_day)
                  (stands (at_position-Stands (days_in_month year month) days position d q m))
          ]
        ]
      ]
