-- ===== src/Calendar.antt =====
-- Python's calendar of the Gregorian years 1 to 9999 (`datetime.date`, `calendar.monthrange`), which
-- the domain's calendars and the message contracts compute with.
use zhixu.Prelude.{
  ℕ, zero, suc, ◌+◌, ◌-◌, ◌*◌, ◌/◌, ◌%◌, Bool, not, ◌&&◌, ◌||◌, leb, ◌==◌, if◌then◌else◌,
}

pub record Date : Type 0 where
  pub year : ℕ
  pub month : ℕ
  pub day : ℕ

unfoldable pub is_leap : ℕ → Bool
is_leap y = (y % 4 == 0) && (not (y % 100 == 0) || (y % 400 == 0))

-- `calendar.monthrange(year, month)[1]`
unfoldable pub days_in_month : ℕ → ℕ → ℕ
unfolding is_leap
days_in_month y m =
    if m == 2
    then (if is_leap y then 29 else 28)
    else if m == 4 || (m == 6 || (m == 9 || m == 11))
    then 30
    else 31

-- Whether `date(year, month, day)` is constructed without a `ValueError`.
unfoldable pub is_date : Date → Bool
unfolding days_in_month
is_date d =
    leb 1 d.year
    && (leb d.year 9999
        && (leb 1 d.month
            && (leb d.month 12 && (leb 1 d.day && leb d.day (days_in_month d.year d.month)))))

-- The days of the months before `month`; `n` is `month - 1`.
unfoldable pub days_before_month : ℕ → ℕ → ℕ
unfolding days_in_month
days_before_month y zero = 0
days_before_month y (suc n) = days_before_month y n + days_in_month y (suc n)

-- `date.toordinal`: the first of January of year 1 has number 1.
unfoldable pub to_ordinal : Date → ℕ
unfolding days_before_month
to_ordinal d =
    let y = d.year - 1 in
    y * 365 + y / 4 - y / 100 + y / 400 + days_before_month d.year (d.month - 1) + d.day

-- `date.weekday`: Monday is 0.
unfoldable pub weekday : Date → ℕ
unfolding to_ordinal
weekday d = (to_ordinal d + 6) % 7
