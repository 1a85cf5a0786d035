-- ===== src/Tests/Quota.antt =====
-- Runs of a reservation (src/zhixu/delivery/quota.py), in a zone where local time is UTC.
use zhixu.Prelude.{
  ℕ, String, ◌≡◌, refl, ◌⊎◌, Bool, true, false, Option, none, some, List, [], ◌∷◌, if◌then◌else◌,
  str_eq,
}
use zhixu.Prelude.Result.{ok}
use zhixu.Prelude.Table.{select_one, update_where}
use zhixu.Domain.Time.{DateTime}
use zhixu.Delivery.Quota.{
  minute, QuotaScope, QuotaRule, QuotaUsage, QuotaDecision, Zone, Check, find_checks, reserve,
}
use zhixu.Delivery.Quota.Reserve.{Counted, Refused, reserve-all_or_none}

abbrev utc : String → Option Zone
utc name =
    if str_eq name "UTC"
    then some (record { to_local = λ t. (t, false); to_utc = λ (p : ℕ × Bool). p.0 })
    else none

abbrev per_minute : QuotaRule
per_minute = record { scope_kind = "user"; window = minute; limit = 2; timezone = "UTC" }

abbrev alice : QuotaScope
alice = record { kind = "user"; ref = "alice" }

abbrev noon : DateTime
noon = record { instant = 61_000_000; aware = true }

abbrev used_once : QuotaUsage
used_once = record {
  scope_kind = "user";
  scope_ref = "alice";
  window_kind = minute;
  window_start = 60_000_000;
  used = 1;
}

abbrev this_minute : Check
this_minute = record { rule = per_minute; scope = alice; start = 60_000_000; end = 120_000_000 }

abbrev yes : QuotaDecision
yes = record { allowed = true; next_available_at = 61_000_000; reason_code = "reserved" }

reserve-all_or_none_example :
    (checks : List Check) × (find_checks utc (per_minute ∷ []) (alice ∷ []) 61_000_000 ≡ ok checks)
    × (((yes.allowed ≡ true) × Counted checks (used_once ∷ []) (record used_once { used = 2 } ∷ []))
        ⊎ ((yes.allowed ≡ false)
            × Refused checks (used_once ∷ []) 61_000_000 (record used_once { used = 2 } ∷ [])))
unfolding reserve select_one update_where
reserve-all_or_none_example =
    reserve-all_or_none utc (per_minute ∷ []) (used_once ∷ []) (record used_once { used = 2 } ∷ [])
      (alice ∷ []) noon yes refl
