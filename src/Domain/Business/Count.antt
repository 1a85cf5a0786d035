-- ===== src/Domain/Business/Count.antt =====
-- The business days of a run of days of a month (src/zhixu/domain/business_calendar.py), counted one
-- by one.
use zhixu.Prelude.{
  ℕ, zero, suc, ◌+◌, ◌-◌, ◌<◌, ◌≡◌, refl, sym, ap, ◌∙◌, ◌⊎◌, inl, inr, true, false, not, some, List,
  ◌∷◌, arith, ◌==◌, if◌then◌else◌, Bool-cases, length, any,
}
use zhixu.Prelude.Result.{
  Result-cases, Error, ok, err, ◌>>=◌, raise_if, >>=-eq-ok, >>-eq-ok, validation_error,
}
use zhixu.Calendar.{Date}
use zhixu.Domain.Business.{BusinessCalendar, is_working, is_business_day, business_days, get_elem?}

abbrev pub on : ℕ → ℕ → ℕ → Date
on year month day = record { year = year; month = month; day = day }

module _ (c : BusinessCalendar) (year month : ℕ) where
  -- The business days among `n` days of the month from `day` on, counted one by one.
  unfoldable pub working : ℕ → ℕ → ℕ
  working day zero = 0
  working day (suc n) =
      let rest = working (day + 1) n in if is_working c (on year month day) then suc rest else rest

  -- The days that remain decide the whole, and the first is kept where it works.
  business_days-suc :
      (day n : ℕ) (ds : List Date)
      → business_days c year month day (suc n) ≡ ok ds
      → (rest : List Date) × (business_days c year month (day + 1) n ≡ ok rest)
        × (ds ≡ (if is_working c (on year month day) then on year month day ∷ rest else rest))
  unfolding business_days is_business_day
  business_days-suc day n ds h =
      let (works, test, onward) =
        >>=-eq-ok (is_business_day c (on year month day))
          (λ w. business_days c year month (day + 1) n >>= λ rest.
            ok (if w then on year month day ∷ rest else rest))
          h in
      let (rest, more, last) =
        >>=-eq-ok (business_days c year month (day + 1) n)
          (λ rest. ok (if works then on year month day ∷ rest else rest)) onward in
      let (_, same) =
        >>-eq-ok (raise_if (not (any (λ y. y == year) c.supported_years)) validation_error)
          (is_working c (on year month day)) test in
      (rest, more, cc)

  get-kept :
      (day i : ℕ) (ds rest : List Date) (d : Date)
      → ds ≡ (if is_working c (on year month day) then on year month day ∷ rest else rest)
      → get_elem? ds i ≡ some d
      → (is_working c (on year month day) ≡ true)
          × (get_elem? (on year month day ∷ rest) i ≡ some d)
        ⊎ (is_working c (on year month day) ≡ false) × (get_elem? rest i ≡ some d)
  get-kept day i ds rest d same g = elim (Bool-cases (is_working c (on year month day))) [
    | inl y ↦ inl (y, ap (λ z. get_elem? z i) (sym (same ∙ rw y refl)) ∙ g)
    | inr w ↦ inr (w, ap (λ z. get_elem? z i) (sym (same ∙ rw w refl)) ∙ g)
  ]

  pub length-business_days :
      (day n : ℕ) (ds : List Date)
      → business_days c year month day n ≡ ok ds
      → length ds ≡ working day n
  unfolding business_days working
  length-business_days day zero ds h = ground arith
  length-business_days day (suc n) ds h =
      let (rest, more, same) = business_days-suc day n ds h in
      let ih = length-business_days (day + 1) n rest more in
      elim (Bool-cases (is_working c (on year month day))) [
        | inl y ↦
            let kept : ds ≡ on year month day ∷ rest = same ∙ rw y refl in
            ap length kept ∙ rw y (ap suc ih)
        | inr n ↦ let kept : ds ≡ rest = same ∙ rw n refl in ap length kept ∙ rw n ih
      ]

  -- `d` is `k` days after `day`, works, and has `i` business days before it among `n` days.
  pub record Counted (day n i : ℕ) (d : Date) : Type 0 where
    pub k : ℕ
    pub below : k < n
    pub date_is : d ≡ on year month (day + k)
    pub works : is_working c (on year month (day + k)) ≡ true
    pub before : working day k ≡ i
    pub behind : working (day + k + 1) (n - k - 1) + i + 1 ≡ working day n

  Counted-here :
      (day n : ℕ)
      → is_working c (on year month day) ≡ true
      → Counted day (suc n) 0 (on year month day)
  unfolding working
  Counted-here day n w =
      let same : day + 0 ≡ day = omega arith in
      let left : suc n - 0 - 1 ≡ n = omega arith in
      record {
        k = 0;
        below = omega arith;
        date_is = rw same refl;
        works = rw same w;
        before = refl;
        behind = rw (w, same, left) (omega arith);
      }

  Counted-later :
      (day n i j : ℕ) (d : Date)
      → Counted (day + 1) n i d
      → (is_working c (on year month day) ≡ true) × (j ≡ i + 1)
        ⊎ (is_working c (on year month day) ≡ false) × (j ≡ i)
      → Counted day (suc n) j d
  unfolding working
  Counted-later day n i j d r (inl (w, e)) =
      let shift : day + suc r.k ≡ day + 1 + r.k = omega arith in
      let left : suc n - suc r.k - 1 ≡ n - r.k - 1 = omega arith in
      record {
        k = suc r.k;
        below = omega (arith, r.below);
        date_is = rw shift r.date_is;
        works = rw shift r.works;
        before = rw w (omega (arith, r.before, e));
        behind = rw (w, shift, left) (omega (arith, r.behind, e));
      }
  Counted-later day n i j d r (inr (w, e)) =
      let shift : day + suc r.k ≡ day + 1 + r.k = omega arith in
      let left : suc n - suc r.k - 1 ≡ n - r.k - 1 = omega arith in
      record {
        k = suc r.k;
        below = omega (arith, r.below);
        date_is = rw shift r.date_is;
        works = rw shift r.works;
        before = rw w (omega (arith, r.before, e));
        behind = rw (w, shift, left) (omega (arith, r.behind, e));
      }

  -- The i-th business day from `day` on.
  pub business_days-get :
      (day n : ℕ) (ds : List Date) (i : ℕ) (d : Date)
      → business_days c year month day n ≡ ok ds
      → get_elem? ds i ≡ some d
      → Counted day n i d
  unfolding business_days working get_elem?
  business_days-get day zero ds i d h g = absurd (cc)
  business_days-get day (suc n) ds zero d h g =
      let (rest, more, same) = business_days-suc day n ds h in
      elim (get-kept day 0 ds rest d same g) [
        | inl (y, here) ↦
            let at_here : d ≡ on year month day = cc in rw at_here (Counted-here day n y)
        | inr (w, later) ↦
            Counted-later day n 0 0 d (business_days-get (day + 1) n rest 0 d more later)
              (inr (w, refl))
      ]
  business_days-get day (suc n) ds (suc i) d h g =
      let (rest, more, same) = business_days-suc day n ds h in
      elim (get-kept day (suc i) ds rest d same g) [
        | inl (y, later) ↦
            Counted-later day n i (suc i) d (business_days-get (day + 1) n rest i d more later)
              (inl (y, omega arith))
        | inr (w, later) ↦
            Counted-later day n (suc i) (suc i) d
              (business_days-get (day + 1) n rest (suc i) d more later) (inr (w, refl))
      ]

  pub business_days-err :
      (day n : ℕ) (e : Error)
      → business_days c year month day n ≡ err e
      → (e ≡ validation_error) × (any (λ y. y == year) c.supported_years ≡ false)
  unfolding business_days is_business_day
  business_days-err day zero e h = absurd (cc)
  business_days-err day (suc n) e h = elim (Bool-cases (any (λ y. y == year) c.supported_years)) [
    | inr out ↦
        let all : business_days c year month day (suc n) ≡ err validation_error = rw out refl in
        (cc, out)
    | inl y ↦ elim (Result-cases (business_days c year month (day + 1) n)) [
      | inl (e', q) ↦
          let all : business_days c year month day (suc n) ≡ err e' = rw (y, q) refl in
          let (s, f) = business_days-err (day + 1) n e' q in absurd (cc)
      | inr (rest, q) ↦ absurd (
          let w : business_days c year month day (suc n)
              ≡ ok (if is_working c (on year month day) then on year month day ∷ rest else rest) =
            rw (y, q) refl in
          cc)
    ]
  ]
