-- ===== src/Domain/Lunar/Lookup.antt =====
-- The table of years of src/zhixu/domain/lunar_calendar.py: what it must be like, and where a day falls.
use zhixu.Prelude.{
  ℕ, ◌+◌, ◌-◌, ◌≤◌, ◌<◌, ◌≡◌, refl, sym, ap, ◌∙◌, ◌⊎◌, inl, inr, Bool, true, false, not, ◌&&◌, some,
  List, [], ◌∷◌, arith, ltb, leb, ◌==◌, Bool-cases, all,
}
use zhixu.Prelude.Result.{Result-cases, ok}
use zhixu.Prelude.Table.{In}
use zhixu.Domain.Lunar.{
  LunarDate, LunarYear, Month, months, find_year, find_offset, find_month, span, to_solar,
  from_solar, check_lunar_date,
}
use zhixu.Domain.Lunar.Year.{total-months, find_month-find_offset, distinct}

-- A month that `LunarDate` accepts, with all its days.
abbrev pub fits : Month → Bool
fits m = leb 1 m.number && (leb m.number 12 && leb m.length 30)

-- What the table must be like: no month of a year comes twice, each can be written as a date, the
-- years after a year start at or after its end, and their numbers are others.
unfoldable pub is_ordered : List LunarYear → Bool
is_ordered [] = true
is_ordered (y ∷ ys) =
    distinct (months y)
    && (all fits (months y)
        && (all
              (λ (z : LunarYear).
                leb (y.start + span y.lengths) z.start && not (z.number == y.number))
              ys
            && is_ordered ys))

-- Each year starts where the one before it ends.
unfoldable pub is_contiguous : ℕ → List LunarYear → Bool
is_contiguous start [] = true
is_contiguous start (y ∷ ys) = (y.start == start) && is_contiguous (start + span y.lengths) ys

-- The first day after the table.
unfoldable pub end_of : ℕ → List LunarYear → ℕ
end_of start [] = start
end_of start (y ∷ ys) = end_of (start + span y.lengths) ys

pub all-In :
    {A : Type 0} (p : A → Bool) (xs : List A) (a : A) → all p xs ≡ true → In a xs → p a ≡ true
all-In p [] a h i = absurd i
all-In p (x ∷ xs) a h (inl e) = ground arith
all-In p (x ∷ xs) a h (inr i) = all-In p xs a (ground arith) i

pub find_year-In :
    (n : ℕ) (table : List LunarYear) (y : LunarYear)
    → find_year n table ≡ ok y
    → In y table × (y.number ≡ n)
unfolding find_year
find_year-In n [] y h = cc
find_year-In n (x ∷ xs) y h = ground (arith, find_year-In n xs y)

pub find_month-fits :
    (year : ℕ) (ms : List Month) (k : ℕ) (d : LunarDate)
    → all fits ms ≡ true
    → find_month year ms k ≡ some d
    → check_lunar_date d ≡ ok d
unfolding find_month check_lunar_date
find_month-fits year [] k d f h = cc
find_month-fits year (m ∷ ms) k d f h = ground (arith, find_month-fits year ms (k - m.length) d)

pub to_solar-In :
    (table : List LunarYear) (d : LunarDate) (s : ℕ)
    → to_solar table d false ≡ ok s
    → (y : LunarYear) × (o : ℕ) × (find_year d.year table ≡ ok y)
      × (find_offset (months y) d false 0 ≡ ok o)
      × (s ≡ y.start + o)
unfolding to_solar
to_solar-In table d s h = elim (Result-cases (find_year d.year table)) [
  | inl (e, f) ↦ absurd (ground arith)
  | inr (y, f) ↦ elim (Result-cases (find_offset (months y) d false 0)) [
    | inl (e, g) ↦ absurd (ground arith)
    | inr (o, g) ↦ (y, o, f, g, ground arith)
  ]
]

unfoldable pub inside : LunarYear → ℕ → Bool
inside y v = leb y.start v && ltb v (y.start + span y.lengths)

pub from_solar-hit :
    (y : LunarYear) (ys : List LunarYear) (s : ℕ) (d : LunarDate)
    → inside y s ≡ true
    → find_month y.number (months y) (s - y.start) ≡ some d
    → from_solar (y ∷ ys) s ≡ check_lunar_date d
unfolding from_solar inside
from_solar-hit y ys s d i h = rw (i, h, from_solar) refl

pub from_solar-miss :
    (y : LunarYear) (ys : List LunarYear) (s : ℕ)
    → inside y s ≡ false
    → from_solar (y ∷ ys) s ≡ from_solar ys s
unfolding from_solar inside
from_solar-miss y ys s i = rw (i, from_solar) refl

pub find_year-head :
    (n : ℕ) (x y : LunarYear) (xs : List LunarYear)
    → find_year n (x ∷ xs) ≡ ok y
    → ((x.number ≡ n) × (y ≡ x)) ⊎ (find_year n xs ≡ ok y)
unfolding find_year
find_year-head n x y xs h = elim (Bool-cases (x.number == n)) [
  | inl e ↦ inl (ground arith, ground arith)
  | inr e ↦ inr (ground arith)
]

pub find_year_first :
    (n : ℕ) (x : LunarYear) (xs : List LunarYear) → x.number ≡ n → find_year n (x ∷ xs) ≡ ok x
unfolding find_year
find_year_first n x xs e = ground arith

pub find_year_skip :
    (n : ℕ) (x : LunarYear) (xs : List LunarYear)
    → (x.number == n) ≡ false
    → find_year n (x ∷ xs) ≡ find_year n xs
unfolding find_year
find_year_skip n x xs e = rw e refl

-- What the table says of a year and a later one.
pub later :
    (x z : LunarYear) (xs : List LunarYear)
    → is_ordered (x ∷ xs) ≡ true
    → In z xs
    → (x.start + span x.lengths ≤ z.start) × ((z.number == x.number) ≡ false)
unfolding is_ordered
later x z xs w i =
    let f =
      all-In
        (λ (z : LunarYear). leb (x.start + span x.lengths) z.start && not (z.number == x.number)) xs
        z (ground arith) i in
    ground arith

-- The offset of a date lies within its year, which has the date there.
pub in_year :
    (y : LunarYear) (d : LunarDate) (o : ℕ)
    → find_offset (months y) d false 0 ≡ ok o
    → 1 ≤ d.day
    → (o < span y.lengths) × (find_month d.year (months y) (y.start + o - y.start) ≡ some d)
in_year y d o g p =
    let (a, b, c) = find_month-find_offset (months y) d 0 o g p in
    let e : o - 0 ≡ y.start + o - y.start = omega arith in
    (omega (arith, b, total-months y), ap (find_month d.year (months y)) (sym e) ∙ c)

pub day_pos : (d : LunarDate) → check_lunar_date d ≡ ok d → 1 ≤ d.day
unfolding check_lunar_date
day_pos d c = ground arith

pub inside-in : (y : LunarYear) (o : ℕ) → o < span y.lengths → inside y (y.start + o) ≡ true
unfolding inside
inside-in y o h = ground arith

pub inside-out : (x : LunarYear) (s : ℕ) → x.start + span x.lengths ≤ s → inside x s ≡ false
unfolding inside
inside-out x s h = ground arith

pub inside-lt :
    (x : LunarYear) (s : ℕ) → inside x s ≡ true → (x.start ≤ s) × (s - x.start < span x.lengths)
unfolding inside
inside-lt x s h = ground arith

pub is_ordered-tail :
    (x : LunarYear) (xs : List LunarYear)
    → is_ordered (x ∷ xs) ≡ true
    → (distinct (months x) ≡ true) × (all fits (months x) ≡ true) × (is_ordered xs ≡ true)
unfolding is_ordered
is_ordered-tail x xs w = ground arith
