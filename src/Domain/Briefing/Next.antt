-- ===== src/Domain/Briefing/Next.antt =====
-- When a day that recurs comes next, and when it is announced (src/zhixu/domain/briefing.py).
use zhixu.Prelude.{ℕ, ◌+◌, ◌≤◌, ◌≡◌, ◌⊎◌, some, List}
use zhixu.Prelude.Result.{ok}
use zhixu.Calendar.{Date, to_ordinal}
use zhixu.Domain.Lunar.{LunarYear}
use zhixu.Domain.Briefing.{Anniversary, occurrence_in}

module _ (table : List LunarYear) (a : Anniversary) (today : Date) where
  -- The day recurs then, today or later, this year or the next, and not sooner this year.
  pub record First (s : ℕ) : Type 0 where
    pub not_before : to_ordinal today ≤ s
    pub recurs :
        (occurrence_in table a today.year ≡ ok (some s))
        ⊎ (occurrence_in table a (today.year + 1) ≡ ok (some s))
    pub not_sooner :
        (t : ℕ) → occurrence_in table a today.year ≡ ok (some t) → to_ordinal today ≤ t → s ≡ t
