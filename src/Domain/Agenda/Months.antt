-- ===== src/Domain/Agenda/Months.antt =====
-- The loop over months of `occurrences_between` in src/zhixu/domain/agenda.py, on fuel, and that it ends.
use zhixu.Prelude.{
  ℕ, zero, suc, ◌+◌, ◌-◌, ◌*◌, ◌≤◌, ◌<◌, String, ◌≡◌, refl, inl, inr, Bool, true, false, ◌&&◌, ◌||◌,
  Option, none, some, List, [], ◌∷◌, ◌++◌, arith, ltb, leb, ◌==◌, if◌then◌else◌, Bool-cases,
}
use zhixu.Prelude.Result.{Result, ok, err, ◌>>=◌}
use zhixu.Domain.Business.{monthly_business_day}
use zhixu.Domain.Agenda.{Calendars, BusinessDayRule}

-- `(year, month) <= (last_year, last_month)`
abbrev pub month_leb : ℕ → ℕ → ℕ → ℕ → Bool
month_leb year month last_year last_month =
    ltb year last_year || (year == last_year && leb month last_month)

-- The month after a month.
abbrev pub next_year : ℕ → ℕ → ℕ
next_year year month = if month == 12 then year + 1 else year

abbrev pub next_month : ℕ → ℕ
next_month month = if month == 12 then 1 else month + 1

module _ (k : Calendars) (zone : String) (start : ℕ) (rule : BusinessDayRule) where
  -- What the body adds to `starts`: the business day of the month at the wall time of the start, unless
  -- it comes before the item.
  unfoldable pub month_start : ℕ → ℕ → Result (List ℕ)
  unfolding monthly_business_day
  month_start year month = do
    date ← monthly_business_day rule.calendar year month rule.position
    ok (if leb start (k.combine zone date start) then k.combine zone date start ∷ [] else [])

  abbrev pub append_starts : Result (List ℕ) → Result (List ℕ) → Result (List ℕ)
  append_starts first rest = do xs ← first; ys ← rest; ok (xs ++ ys)

  -- An error ends the loop at once.
  abbrev pub in_front : Result (List ℕ) → Option (Result (List ℕ)) → Option (Result (List ℕ))
  in_front (err e) rest = some (err e)
  in_front (ok xs) none = none
  in_front (ok xs) (some rest) = some (append_starts (ok xs) rest)

  -- The `while` loop; `none` when the fuel runs out.
  unfoldable pub month_loop : ℕ → ℕ → ℕ → ℕ → ℕ → Option (Result (List ℕ))
  unfolding month_start
  month_loop zero year month last_year last_month = none
  month_loop (suc fuel) year month last_year last_month =
      let rest = month_loop fuel (next_year year month) (next_month month) last_year last_month in
      if month_leb year month last_year last_month
      then in_front (month_start year month) rest
      else some (ok [])

  -- The months from one on, a given number of them, and what each adds, up to the first error.
  unfoldable pub month_starts : ℕ → ℕ → ℕ → Result (List ℕ)
  month_starts zero year month = ok []
  month_starts (suc n) year month =
      append_starts (month_start year month)
        (month_starts n (next_year year month) (next_month month))

-- How many months there are from the first to the last, both counted.
abbrev pub month_count : ℕ → ℕ → ℕ → ℕ → ℕ
month_count year month last_year last_month =
    (12 * last_year + last_month + 1) - (12 * year + month)

abbrev pub IsMonth : ℕ → Type 0
IsMonth m = (1 ≤ m) × (m ≤ 12)

next_month-IsMonth : (m : ℕ) → IsMonth m → IsMonth (next_month m)
next_month-IsMonth m h = ground arith

-- The order of the pairs is that of the numbers of the months.
month_leb-index :
    (year month last_year last_month : ℕ)
    → IsMonth month
    → IsMonth last_month
    → (month_leb year month last_year last_month ≡ true
        → 12 * year + month ≤ 12 * last_year + last_month)
      × (month_leb year month last_year last_month ≡ false
          → 12 * last_year + last_month < 12 * year + month)
month_leb-index year month last_year last_month m l = ground arith

next-index : (year month : ℕ) → 12 * next_year year month + next_month month ≡ 12 * year + month + 1
next-index year month = ground arith

module _ (k : Calendars) (zone : String) (start : ℕ) (rule : BusinessDayRule) where
  in_front-some :
      (first rest : Result (List ℕ))
      → in_front k zone start rule first (some rest)
        ≡ some (append_starts k zone start rule first rest)
  in_front-some (ok xs) rest = refl
  in_front-some (err e) rest = refl

  -- The loop ends: with more fuel than there are months from the first to the last it gives what
  -- each of these months adds, in order, up to the first error; if the last month is before the first,
  -- it gives nothing.
  pub month_loop_ends :
      (fuel year month last_year last_month : ℕ)
      → IsMonth month
      → IsMonth last_month
      → month_count year month last_year last_month < fuel
      → month_loop k zone start rule fuel year month last_year last_month
        ≡ some (
            month_starts k zone start rule (month_count year month last_year last_month) year month)
  unfolding month_loop month_starts
  month_loop_ends zero year month last_year last_month m l enough = absurd (omega (arith, enough))
  month_loop_ends (suc fuel) year month last_year last_month m l enough =
      let index = next-index year month in
      elim (Bool-cases (month_leb year month last_year last_month)) [
        | inl y ↦
            let order : 12 * year + month ≤ 12 * last_year + last_month =
              (month_leb-index year month last_year last_month m l).0 y in
            let n = month_count (next_year year month) (next_month month) last_year last_month in
            let more : month_count year month last_year last_month ≡ suc n =
              omega (arith, index, order) in
            let rest =
              month_loop_ends fuel (next_year year month) (next_month month) last_year last_month
                (next_month-IsMonth month m) l (omega (arith, more, enough)) in
            rw (y, more, rest)
              (in_front-some (month_start k zone start rule year month)
                (month_starts k zone start rule n (next_year year month) (next_month month)))
        | inr n ↦
            let order : 12 * last_year + last_month < 12 * year + month =
              (month_leb-index year month last_year last_month m l).1 n in
            let empty : month_count year month last_year last_month ≡ 0 = omega (arith, order) in
            rw (n, empty) refl
      ]
