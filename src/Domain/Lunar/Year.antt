-- ===== src/Domain/Lunar/Year.antt =====
-- One year of src/zhixu/domain/lunar_calendar.py: the offset of a date in it and the date at an
-- offset undo each other.
use zhixu.Prelude.{
  ℕ, ◌+◌, ◌-◌, ◌≤◌, ◌<◌, ◌≡◌, refl, sym, ap, ◌∙◌, inl, inr, Bool, true, false, not, ◌&&◌, some,
  List, [], ◌∷◌, arith, ltb, Bool-cases, any,
}
use zhixu.Prelude.Result.{ok}
use zhixu.Domain.Lunar.{
  LunarDate, LunarYear, Month, months_from, months, bool_eq, is_month, find_offset, find_month,
  span,
}

-- The days of the months.
pub total : List Month → ℕ
total [] = 0
total (m ∷ ms) = m.length + total ms

total-months_from :
    (leap_month : ℕ) (ns : List ℕ) (number : ℕ) (seen : Bool)
    → total (months_from leap_month ns number seen) ≡ span ns
unfolding total months_from span
total-months_from leap_month [] number seen = refl
total-months_from leap_month (n ∷ ns) number seen = ground (
  arith,
  total-months_from leap_month ns number true,
  total-months_from leap_month ns (number + 1) seen,
)

pub total-months : (y : LunarYear) → total (months y) ≡ span y.lengths
unfolding months
total-months y = total-months_from y.leap_month y.lengths 1 false

bool_eq-eq : (a b : Bool) → bool_eq a b ≡ true → a ≡ b
bool_eq-eq true b h = sym h
bool_eq-eq false true h = cc
bool_eq-eq false false h = refl

bool_eq_refl : (a : Bool) → bool_eq a a ≡ true
bool_eq_refl true = refl
bool_eq_refl false = refl

is_month_self : (m : Month) → is_month m.number m.leap m ≡ true
is_month_self m = ground (arith, bool_eq_refl m.leap)

-- A date that has an offset is the date at that offset.
pub find_month-find_offset :
    (ms : List Month) (d : LunarDate) (o s : ℕ)
    → find_offset ms d false o ≡ ok s
    → 1 ≤ d.day
    → (o ≤ s) × (s < o + total ms) × (find_month d.year ms (s - o) ≡ some d)
unfolding find_offset find_month total
find_month-find_offset [] d o s h p = cc
find_month-find_offset (m ∷ ms) d o s h p = elim (Bool-cases (is_month d.month d.leap m)) [
  | inl y ↦ ground (arith, bool_eq-eq m.leap d.leap)
  | inr n ↦
      let (a, b, c) = find_month-find_offset ms d (o + m.length) s (ground arith) p in
      (
        omega (arith, a),
        omega (arith, b),
        let e : s - (o + m.length) ≡ s - o - m.length = omega arith in
            ground (arith, ap (find_month d.year ms) e),
      )
]

abbrev pub distinct : List Month → Bool
distinct [] = true
distinct (m ∷ ms) = not (any (is_month m.number m.leap) ms) && distinct ms

find_month-any :
    (year : ℕ) (ms : List Month) (k : ℕ) (d : LunarDate)
    → find_month year ms k ≡ some d
    → any (is_month d.month d.leap) ms ≡ true
unfolding find_month
find_month-any year [] k d h = cc
find_month-any year (m ∷ ms) k d h =
    ground (arith, find_month-any year ms (k - m.length) d, is_month_self m)

is_month_trans :
    (m x : Month) (number : ℕ) (leap : Bool)
    → is_month number leap m ≡ true
    → is_month number leap x ≡ true
    → is_month m.number m.leap x ≡ true
is_month_trans m x number leap h k =
    ground (arith, bool_eq-eq m.leap leap, bool_eq-eq x.leap leap, bool_eq_refl leap)

-- A month that is not among the rest is not the month of a date that is.
month-apart :
    (m : Month) (d : LunarDate) (ms : List Month)
    → any (is_month m.number m.leap) ms ≡ false
    → any (is_month d.month d.leap) ms ≡ true
    → is_month d.month d.leap m ≡ false
month-apart m d [] u h = cc
month-apart m d (x ∷ ms) u h = ground (arith, month-apart m d ms, is_month_trans m x d.month d.leap)

-- The date at an offset has that offset, if no month comes twice.
pub find_offset-find_month :
    (year : ℕ) (ms : List Month) (o k : ℕ) (d : LunarDate)
    → distinct ms ≡ true
    → find_month year ms k ≡ some d
    → (find_offset ms d false o ≡ ok (o + k)) × (d.year ≡ year)
unfolding find_offset find_month
find_offset-find_month year [] o k d u h = cc
find_offset-find_month year (m ∷ ms) o k d u h = elim (Bool-cases (ltb k m.length)) [
  | inl y ↦ ground (arith, is_month_self m)
  | inr n ↦
      let other =
        month-apart m d ms (ground arith)
          (find_month-any year ms (k - m.length) d (ground arith)) in
      let (f, e) =
        find_offset-find_month year ms (o + m.length) (k - m.length) d (ground arith)
          (ground arith) in
      let q : o + m.length + (k - m.length) ≡ o + k = ground arith in (rw other (f ∙ ap ok q), e)
]

-- Within the year there is a date at every offset.
pub find_month-total :
    (year : ℕ) (ms : List Month) (k : ℕ)
    → k < total ms
    → (d : LunarDate) × (find_month year ms k ≡ some d)
unfolding find_month total
find_month-total year [] k h = absurd (omega (arith, h))
find_month-total year (m ∷ ms) k h = elim (Bool-cases (ltb k m.length)) [
  | inl y ↦ (record { year = year; month = m.number; day = k + 1; leap = m.leap }, rw y refl)
  | inr n ↦ let (d, e) = find_month-total year ms (k - m.length) (ground arith) in (d, rw n e)
]
