-- ===== src/Delivery/Quota.antt =====
-- src/zhixu/delivery/quota.py: `QuotaManager` counts what is sent in fixed windows, for every scope
-- that a rule names. The time zones of `zoneinfo` are the parameter `zones`.
pub mod Counters
pub mod Reserve
use zhixu.Prelude.{
  ℕ, zero, suc, ◌+◌, ◌-◌, ◌*◌, ◌/◌, ◌%◌, ◌≤◌, ◌<◌, max, String, ◌≡◌, refl, sym, ap, ◌∙◌, ◌≢◌, ◌⊎◌,
  inl, inr, Bool, true, false, not, ◌&&◌, ◌||◌, Option, none, some, List, [], ◌∷◌, ◌++◌, map, arith,
  eq_iff, ltb, leb, ◌==◌, if◌then◌else◌, ltb→lt, leb→le, Bool-cases, Option-cases, length, any, all,
  All, length-append, str_eq, codes, is_space, is_blank, text_length, prefix, str_leb, str_mem,
  str_leb_total, str_leb_trans, str_leb_refl, str_eq_comm, str_eq_refl,
}
use zhixu.Prelude.Result.{
  Error, Result, ok, err, ◌>>=◌, ◌>>◌, raise_if, or_raise, >>=-eq-ok, >>-eq-ok, validation_error,
  not_found, conflict, concurrency_conflict, permission_denied, confirmation_required,
  classification_not_supported, invalid_transition, llm_unavailable, llm_budget_exceeded,
  invalid_model_output, value_error, key_error, permission_error, runtime_error, type_error,
  integrity_error, assertion_error,
}
use Prim.Native.String.{◌++◌ as append}
use zhixu.Prelude.Table.{select_one, update_where}
use zhixu.Domain.Time.{DateTime, require_aware}
use zhixu.Domain.Policy.{has_duplicates}

pub data QuotaWindow : Type 0 where
  second minute day : QuotaWindow

pub record QuotaScope : Type 0 where
  pub kind : String
  pub ref : String

pub record QuotaRule : Type 0 where
  pub scope_kind : String
  pub window : QuotaWindow
  pub limit : ℕ
  pub timezone : String

pub record QuotaDecision : Type 0 where
  pub allowed : Bool
  pub next_available_at : ℕ
  pub reason_code : String

-- A row of `quota_usage`.
pub record QuotaUsage : Type 0 where
  pub scope_kind : String
  pub scope_ref : String
  pub window_kind : QuotaWindow
  pub window_start : ℕ
  pub used : ℕ

-- A `ZoneInfo`: the fields of a local time, as microseconds, with `fold`, and the way back.
pub record Zone : Type 0 where
  pub to_local : ℕ → ℕ × Bool
  pub to_utc : ℕ × Bool → ℕ

abbrev pub scope_kinds : List String
scope_kinds = "provider" ∷ "account" ∷ "conversation" ∷ "user" ∷ []

-- `QuotaScope.__post_init__`
unfoldable pub check_scope : QuotaScope → Result QuotaScope
check_scope s = do
  raise_if (not (str_mem s.kind scope_kinds)) validation_error
  raise_if (is_blank s.ref) validation_error
  ok s

-- `QuotaRule.__post_init__`: `ZoneInfo` raises a KeyError for a name it does not know.
unfoldable pub check_rule : (String → Option Zone) → QuotaRule → Result QuotaRule
check_rule zones r = do
  raise_if (not (str_mem r.scope_kind scope_kinds)) validation_error
  raise_if (r.limit == 0) validation_error
  zone ← or_raise (zones r.timezone) key_error
  ok r

-- The length of a window in microseconds.
abbrev pub span : QuotaWindow → ℕ
span second = 1_000_000
span minute = 60_000_000
span day = 86_400_000_000

-- `_window`: the local time is cut down, keeping its `fold`; the sum with a `timedelta` has none.
unfoldable pub window : Zone → QuotaWindow → ℕ → ℕ × ℕ
window zone w now =
    let (local, fold) = zone.to_local now in
    let start = (local / span w) * span w in
    (zone.to_utc (start, fold), zone.to_utc (start + span w, false))

-- `second`, `minute` and `day`, as texts.
abbrev pub window_value : QuotaWindow → String
window_value second = "second"
window_value minute = "minute"
window_value day = "day"

abbrev pub window_eq : QuotaWindow → QuotaWindow → Bool
window_eq second second = true
window_eq minute minute = true
window_eq day day = true
window_eq _ _ = false

-- An element of `checks`.
pub record Check : Type 0 where
  pub rule : QuotaRule
  pub scope : QuotaScope
  pub start : ℕ
  pub end : ℕ

abbrev pub is_kind : String → QuotaScope → Bool
is_kind k s = str_eq s.kind k

-- The loop that fills `checks`.
unfoldable pub find_checks :
    (String → Option Zone) → List QuotaRule → List QuotaScope → ℕ → Result (List Check)
unfolding window
find_checks zones [] scopes now = ok []
find_checks zones (r ∷ rs) scopes now =
    let rest = find_checks zones rs scopes now in
    do
      scope ← or_raise (select_one (is_kind r.scope_kind) scopes) validation_error
      zone ← or_raise (zones r.timezone) key_error
      checks ← rest
      ok (
          record {
            rule = r;
            scope = scope;
            start = (window zone r.window now).0;
            end = (window zone r.window now).1;
          }
          ∷ checks)

-- The key of `quota_usage`, at a check.
unfoldable pub has_key : Check → QuotaUsage → Bool
has_key c u =
    str_eq u.scope_kind c.scope.kind
    && (str_eq u.scope_ref c.scope.ref
        && (window_eq u.window_kind c.rule.window && (u.window_start == c.start)))

-- The counter at a check, 0 for a missing row.
unfoldable pub used_at : Check → List QuotaUsage → ℕ
unfolding has_key
used_at c usage = elim (select_one (has_key c) usage) [ none ↦ 0 | some u ↦ u.used ]

-- `row is not None and int(row["used"]) >= rule.limit`
unfoldable pub is_blocked : List QuotaUsage → Check → Bool
unfolding has_key
is_blocked usage c = elim (select_one (has_key c) usage) [
  | none ↦ false
  | some u ↦ leb c.rule.limit u.used
]

-- `blocked_until` and `blocked_windows`
unfoldable pub blocked : List QuotaUsage → List Check → List (ℕ × String)
unfolding is_blocked
blocked usage [] = []
blocked usage (c ∷ cs) =
    let rest = blocked usage cs in
    if is_blocked usage c
    then (c.end, append c.scope.kind (append ":" (window_value c.rule.window))) ∷ rest
    else rest

-- `max` of the times.
abbrev pub latest : ℕ → List (ℕ × String) → ℕ
latest t [] = t
latest t ((u, s) ∷ rest) = latest (max t u) rest

-- `sorted` on texts.
unfoldable pub insert : String → List String → List String
insert s [] = s ∷ []
insert s (t ∷ ts) = if str_leb s t then s ∷ (t ∷ ts) else t ∷ insert s ts

unfoldable pub sorted : List (ℕ × String) → List String
unfolding insert
sorted [] = []
sorted ((u, s) ∷ rest) = insert s (sorted rest)

-- `",".join(…)`
unfoldable pub join : List String → String
join [] = ""
join (s ∷ []) = s
join (s ∷ (t ∷ ts)) = append s (append "," (join (t ∷ ts)))

-- INSERT … ON CONFLICT DO UPDATE SET used=used+1
unfoldable pub count_one : Check → List QuotaUsage → List QuotaUsage
unfolding has_key
count_one c usage =
    if any (has_key c) usage
    then update_where (has_key c) (λ u. record u { used = u.used + 1 }) usage
    else usage
      ++ record {
        scope_kind = c.scope.kind;
        scope_ref = c.scope.ref;
        window_kind = c.rule.window;
        window_start = c.start;
        used = 1;
      }
        ∷ []

unfoldable pub count_all : List Check → List QuotaUsage → List QuotaUsage
unfolding count_one
count_all [] usage = usage
count_all (c ∷ cs) usage = count_all cs (count_one c usage)

-- The transaction of `reserve`.
unfoldable pub decide : List Check → List QuotaUsage → ℕ → QuotaDecision × List QuotaUsage
unfolding blocked sorted join count_all
decide checks usage now = elim (blocked usage checks) [
  | [] ↦ (
    record { allowed = true; next_available_at = now; reason_code = "reserved" },
    count_all checks usage,
  )
  | (t, s) ∷ rest ↦ (
    record {
      allowed = false;
      next_available_at = latest t rest;
      reason_code = append "quota_exhausted:" (join (sorted ((t, s) ∷ rest)));
    },
    usage,
  )
]

-- `QuotaManager.reserve`
unfoldable pub reserve :
    (String → Option Zone)
    → List QuotaRule
    → List QuotaUsage
    → List QuotaScope
    → DateTime
    → Result (QuotaDecision × List QuotaUsage)
unfolding require_aware has_duplicates find_checks decide
reserve zones rules usage scopes now = do
  require_aware now
  raise_if (has_duplicates (map (λ s. s.kind) scopes)) validation_error
  checks ← find_checks zones rules scopes now.instant
  ok (decide checks usage now.instant)
