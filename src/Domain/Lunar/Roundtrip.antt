-- ===== src/Domain/Lunar/Roundtrip.antt =====
-- The two conversions of src/zhixu/domain/lunar_calendar.py undo each other.
use zhixu.Prelude.{
  ℕ, ◌+◌, ◌-◌, ◌≤◌, ◌<◌, ◌≡◌, refl, sym, ap, ◌∙◌, inl, inr, true, false, some, List, [], ◌∷◌, arith,
  Bool-cases,
}
use zhixu.Prelude.Result.{ok}
use zhixu.Domain.Lunar.{
  LunarDate, LunarYear, months, find_year, find_offset, find_month, span, to_solar, from_solar,
  check_lunar_date,
}
use zhixu.Domain.Lunar.Year.{total-months, find_offset-find_month, find_month-total}
use zhixu.Domain.Lunar.Table.{years}
use zhixu.Domain.Lunar.Lookup.{
  is_ordered, is_contiguous, end_of, find_year-In, find_month-fits, to_solar-In, inside,
  from_solar-hit, from_solar-miss, find_year-head, find_year_first, find_year_skip, later, in_year,
  day_pos, inside-in, inside-out, inside-lt, is_ordered-tail,
}

from_solar-found :
    (table : List LunarYear) (d : LunarDate) (y : LunarYear) (o : ℕ)
    → is_ordered table ≡ true
    → check_lunar_date d ≡ ok d
    → find_year d.year table ≡ ok y
    → find_offset (months y) d false 0 ≡ ok o
    → from_solar table (y.start + o) ≡ ok d
from_solar-found [] d y o w c f g = absurd (find_year-In d.year [] y f).0
from_solar-found (x ∷ xs) d y o w c f g =
    let (l, q) = in_year y d o g (day_pos d c) in
    elim (find_year-head d.year x y xs f) [
      | inl (n, e) ↦
          let q' : find_month x.number (months x) (x.start + o - x.start) ≡ some d =
            ap (λ (z : ℕ). find_month z (months x) (x.start + o - x.start)) n
            ∙ ap (λ (z : LunarYear). find_month d.year (months z) (z.start + o - z.start)) (sym e)
            ∙ q in
          let l' : o < span x.lengths =
            omega (arith, l, ap (λ (z : LunarYear). span z.lengths) e) in
          ap (λ (z : LunarYear). from_solar (x ∷ xs) (z.start + o)) e
          ∙ from_solar-hit x xs (x.start + o) d (inside-in x o l') q'
          ∙ c
      | inr r ↦
          let k = later x y xs w (find_year-In d.year xs y r).0 in
          from_solar-miss x xs (y.start + o) (inside-out x (y.start + o) (omega (arith, k.0)))
          ∙ from_solar-found xs d y o (is_ordered-tail x xs w).2 c r g
    ]

-- The lunar year of a Gregorian day has the date of that day at its place.
from_solar-In :
    (table : List LunarYear) (d : LunarDate) (s : ℕ)
    → is_ordered table ≡ true
    → from_solar table s ≡ ok d
    → (y : LunarYear) × (o : ℕ) × (find_year d.year table ≡ ok y)
      × (find_offset (months y) d false 0 ≡ ok o)
      × (s ≡ y.start + o)
unfolding from_solar
from_solar-In [] d s w h = cc
from_solar-In (x ∷ xs) d s w h = elim (Bool-cases (inside x s)) [
  | inr n ↦
      let (y, o, f, g, q) =
        from_solar-In xs d s (is_ordered-tail x xs w).2 (sym (from_solar-miss x xs s n) ∙ h) in
      let (i, num) = find_year-In d.year xs y f in
      let k = later x y xs w i in (y, o, find_year_skip d.year x xs (ground arith) ∙ f, g, q)
  | inl i ↦
      let (t0, t1, t2) = is_ordered-tail x xs w in
      let (lo, hi) = inside-lt x s i in
      let (e, m) =
        find_month-total x.number (months x) (s - x.start) (omega (arith, hi, total-months x)) in
      let c = find_month-fits x.number (months x) (s - x.start) e t1 m in
      let same : e ≡ d = cc (from_solar-hit x xs s e i m, c, h) in
      let (g, n) = find_offset-find_month x.number (months x) 0 (s - x.start) e t0 m in
      (
        x,
        s - x.start,
        find_year_first d.year x xs (sym n ∙ ap (λ (z : LunarDate). z.year) same),
        ap (λ (z : LunarDate). find_offset (months x) z false 0) (sym same)
            ∙ g
            ∙ ap ok (omega arith),
        omega (arith, lo),
      )
]

years_ordered : is_ordered years ≡ true
unfolding years is_ordered months span
years_ordered = refl

-- A lunar date that is converted to a Gregorian day, without `clamp`, is the lunar date of that day.
pub from_solar-to_solar :
    (d : LunarDate) (s : ℕ)
    → check_lunar_date d ≡ ok d
    → to_solar years d false ≡ ok s
    → from_solar years s ≡ ok d
from_solar-to_solar d s c h =
    let (y, o, f, g, e) = to_solar-In years d s h in
    ap (from_solar years) e ∙ from_solar-found years d y o years_ordered c f g

to_solar-eq :
    (table : List LunarYear) (d : LunarDate) (y : LunarYear) (o : ℕ)
    → find_year d.year table ≡ ok y
    → find_offset (months y) d false 0 ≡ ok o
    → to_solar table d false ≡ ok (y.start + o)
unfolding to_solar
to_solar-eq table d y o f g = rw f (rw g refl)

from_solar_total :
    (table : List LunarYear) (start s : ℕ)
    → is_ordered table ≡ true
    → is_contiguous start table ≡ true
    → start ≤ s
    → s < end_of start table
    → (d : LunarDate) × (from_solar table s ≡ ok d)
unfolding is_contiguous end_of
from_solar_total [] start s w g lo hi = absurd (omega (arith, lo, hi))
from_solar_total (x ∷ xs) start s w g lo hi = elim (Bool-cases (inside x s)) [
  | inl i ↦
      let (t0, t1, t2) = is_ordered-tail x xs w in
      let (e, m) =
        find_month-total x.number (months x) (s - x.start)
          (omega (arith, (inside-lt x s i).1, total-months x)) in
      (e, from_solar-hit x xs s e i m ∙ find_month-fits x.number (months x) (s - x.start) e t1 m)
  | inr n ↦
      let (d, h) =
        from_solar_total xs (start + span x.lengths) s (is_ordered-tail x xs w).2 (ground arith)
          (unfold inside in ground arith) hi in
      (d, from_solar-miss x xs s n ∙ h)
]

years_contiguous : (is_contiguous 730155 years ≡ true) × (end_of 730155 years ≡ 740372)
unfolding years is_contiguous end_of span
years_contiguous = (refl, refl)

-- Every day from 5 February 2000 (ordinal 730155) to 25 January 2028 (740371) has a lunar date, and
-- that date is converted back to the day.
pub to_solar-from_solar :
    (s : ℕ)
    → 730155 ≤ s
    → s < 740372
    → (d : LunarDate) × (from_solar years s ≡ ok d) × (to_solar years d false ≡ ok s)
to_solar-from_solar s lo hi =
    let (d, h) =
      from_solar_total years 730155 s years_ordered years_contiguous.0 lo
        (omega (arith, hi, years_contiguous.1)) in
    let (y, o, f, g, e) = from_solar-In years d s years_ordered h in
    (d, h, to_solar-eq years d y o f g ∙ ap ok (sym e))
