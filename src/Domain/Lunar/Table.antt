-- ===== src/Domain/Lunar/Table.antt =====
-- The table `_YEAR_VALUES` of src/zhixu/domain/lunar_calendar.py, as `_load` reads it.
use zhixu.Prelude.{ℕ, List, [], ◌∷◌}
use zhixu.Calendar.{Date, to_ordinal}
use zhixu.Domain.Lunar.{LunarYear}

-- A line: the year, the first day of its first month, the intercalary month, the lengths.
abbrev line : ℕ → Date → ℕ → List ℕ → LunarYear
line number first leap_month lengths = record {
  number = number;
  start = to_ordinal first;
  leap_month = leap_month;
  lengths = lengths;
}

abbrev on : ℕ → ℕ → ℕ → Date
on y m d = record { year = y; month = m; day = d }

-- `_YEARS`
unfoldable pub years : List LunarYear
unfolding to_ordinal
years =
    line 2000 (on 2000 2 5) 0 (30 ∷ 30 ∷ 29 ∷ 29 ∷ 30 ∷ 29 ∷ 29 ∷ 30 ∷ 29 ∷ 30 ∷ 30 ∷ 29 ∷ [])
    ∷ line 2001 (on 2001 1 24) 4
        (30 ∷ 30 ∷ 29 ∷ 30 ∷ 29 ∷ 30 ∷ 29 ∷ 29 ∷ 30 ∷ 29 ∷ 30 ∷ 29 ∷ 30 ∷ [])
    ∷ line 2002 (on 2002 2 12) 0 (30 ∷ 30 ∷ 29 ∷ 30 ∷ 29 ∷ 30 ∷ 29 ∷ 29 ∷ 30 ∷ 29 ∷ 30 ∷ 29 ∷ [])
    ∷ line 2003 (on 2003 2 1) 0 (30 ∷ 30 ∷ 29 ∷ 30 ∷ 30 ∷ 29 ∷ 30 ∷ 29 ∷ 29 ∷ 30 ∷ 29 ∷ 30 ∷ [])
    ∷ line 2004 (on 2004 1 22) 2
        (29 ∷ 30 ∷ 29 ∷ 30 ∷ 30 ∷ 29 ∷ 30 ∷ 29 ∷ 30 ∷ 29 ∷ 30 ∷ 29 ∷ 30 ∷ [])
    ∷ line 2005 (on 2005 2 9) 0 (29 ∷ 30 ∷ 29 ∷ 30 ∷ 29 ∷ 30 ∷ 30 ∷ 29 ∷ 30 ∷ 29 ∷ 30 ∷ 29 ∷ [])
    ∷ line 2006 (on 2006 1 29) 7
        (30 ∷ 29 ∷ 30 ∷ 29 ∷ 30 ∷ 29 ∷ 30 ∷ 29 ∷ 30 ∷ 30 ∷ 29 ∷ 30 ∷ 30 ∷ [])
    ∷ line 2007 (on 2007 2 18) 0 (29 ∷ 29 ∷ 30 ∷ 29 ∷ 29 ∷ 30 ∷ 29 ∷ 30 ∷ 30 ∷ 30 ∷ 29 ∷ 30 ∷ [])
    ∷ line 2008 (on 2008 2 7) 0 (30 ∷ 29 ∷ 29 ∷ 30 ∷ 29 ∷ 29 ∷ 30 ∷ 29 ∷ 30 ∷ 30 ∷ 29 ∷ 30 ∷ [])
    ∷ line 2009 (on 2009 1 26) 5
        (30 ∷ 30 ∷ 29 ∷ 29 ∷ 30 ∷ 29 ∷ 29 ∷ 30 ∷ 29 ∷ 30 ∷ 29 ∷ 30 ∷ 30 ∷ [])
    ∷ line 2010 (on 2010 2 14) 0 (30 ∷ 29 ∷ 30 ∷ 29 ∷ 30 ∷ 29 ∷ 29 ∷ 30 ∷ 29 ∷ 30 ∷ 29 ∷ 30 ∷ [])
    ∷ line 2011 (on 2011 2 3) 0 (30 ∷ 29 ∷ 30 ∷ 30 ∷ 29 ∷ 30 ∷ 29 ∷ 29 ∷ 30 ∷ 29 ∷ 30 ∷ 29 ∷ [])
    ∷ line 2012 (on 2012 1 23) 4
        (30 ∷ 29 ∷ 30 ∷ 30 ∷ 29 ∷ 30 ∷ 29 ∷ 30 ∷ 29 ∷ 30 ∷ 29 ∷ 30 ∷ 29 ∷ [])
    ∷ line 2013 (on 2013 2 10) 0 (30 ∷ 29 ∷ 30 ∷ 29 ∷ 30 ∷ 30 ∷ 29 ∷ 30 ∷ 29 ∷ 30 ∷ 29 ∷ 30 ∷ [])
    ∷ line 2014 (on 2014 1 31) 9
        (29 ∷ 30 ∷ 29 ∷ 30 ∷ 29 ∷ 30 ∷ 29 ∷ 30 ∷ 30 ∷ 29 ∷ 30 ∷ 29 ∷ 30 ∷ [])
    ∷ line 2015 (on 2015 2 19) 0 (29 ∷ 30 ∷ 29 ∷ 29 ∷ 30 ∷ 29 ∷ 30 ∷ 30 ∷ 30 ∷ 29 ∷ 30 ∷ 29 ∷ [])
    ∷ line 2016 (on 2016 2 8) 0 (30 ∷ 29 ∷ 30 ∷ 29 ∷ 29 ∷ 30 ∷ 29 ∷ 30 ∷ 30 ∷ 29 ∷ 30 ∷ 30 ∷ [])
    ∷ line 2017 (on 2017 1 28) 6
        (29 ∷ 30 ∷ 29 ∷ 30 ∷ 29 ∷ 29 ∷ 30 ∷ 29 ∷ 30 ∷ 29 ∷ 30 ∷ 30 ∷ 30 ∷ [])
    ∷ line 2018 (on 2018 2 16) 0 (29 ∷ 30 ∷ 29 ∷ 30 ∷ 29 ∷ 29 ∷ 30 ∷ 29 ∷ 30 ∷ 29 ∷ 30 ∷ 30 ∷ [])
    ∷ line 2019 (on 2019 2 5) 0 (30 ∷ 29 ∷ 30 ∷ 29 ∷ 30 ∷ 29 ∷ 29 ∷ 30 ∷ 29 ∷ 29 ∷ 30 ∷ 30 ∷ [])
    ∷ line 2020 (on 2020 1 25) 4
        (29 ∷ 30 ∷ 30 ∷ 30 ∷ 29 ∷ 30 ∷ 29 ∷ 29 ∷ 30 ∷ 29 ∷ 30 ∷ 29 ∷ 30 ∷ [])
    ∷ line 2021 (on 2021 2 12) 0 (29 ∷ 30 ∷ 30 ∷ 29 ∷ 30 ∷ 29 ∷ 30 ∷ 29 ∷ 30 ∷ 29 ∷ 30 ∷ 29 ∷ [])
    ∷ line 2022 (on 2022 2 1) 0 (30 ∷ 29 ∷ 30 ∷ 29 ∷ 30 ∷ 30 ∷ 29 ∷ 30 ∷ 29 ∷ 30 ∷ 29 ∷ 30 ∷ [])
    ∷ line 2023 (on 2023 1 22) 2
        (29 ∷ 30 ∷ 29 ∷ 29 ∷ 30 ∷ 30 ∷ 29 ∷ 30 ∷ 30 ∷ 29 ∷ 30 ∷ 29 ∷ 30 ∷ [])
    ∷ line 2024 (on 2024 2 10) 0 (29 ∷ 30 ∷ 29 ∷ 29 ∷ 30 ∷ 29 ∷ 30 ∷ 30 ∷ 29 ∷ 30 ∷ 30 ∷ 29 ∷ [])
    ∷ line 2025 (on 2025 1 29) 6
        (30 ∷ 29 ∷ 30 ∷ 29 ∷ 29 ∷ 30 ∷ 29 ∷ 30 ∷ 29 ∷ 30 ∷ 30 ∷ 30 ∷ 29 ∷ [])
    ∷ line 2026 (on 2026 2 17) 0 (30 ∷ 29 ∷ 30 ∷ 29 ∷ 29 ∷ 30 ∷ 29 ∷ 29 ∷ 30 ∷ 30 ∷ 30 ∷ 29 ∷ [])
    ∷ line 2027 (on 2027 2 6) 0 (30 ∷ 30 ∷ 29 ∷ 30 ∷ 29 ∷ 29 ∷ 30 ∷ 29 ∷ 29 ∷ 30 ∷ 30 ∷ 29 ∷ [])
    ∷ []
