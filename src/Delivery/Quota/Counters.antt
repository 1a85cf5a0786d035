-- ===== src/Delivery/Quota/Counters.antt =====
-- The counters of src/zhixu/delivery/quota.py, as the checks of a reservation count in them.
use zhixu.Prelude.{
  ℕ, suc, ◌+◌, ◌≡◌, refl, Bool, true, false, ◌&&◌, List, [], ◌∷◌, ◌++◌, arith, eq_iff, ◌==◌,
  if◌then◌else◌, any, str_eq, str_eq_refl,
}
use zhixu.Prelude.Table.{select_one, update_where}
use zhixu.Delivery.Quota.{
  QuotaWindow, second, minute, day, QuotaUsage, Check, window_eq, has_key, used_at, count_one,
  count_all,
}

window_eq_refl : (v : QuotaWindow) → window_eq v v ≡ true
window_eq_refl second = refl
window_eq_refl minute = refl
window_eq_refl day = refl

window_eq→≡ : (v w : QuotaWindow) → window_eq v w ≡ true → v ≡ w
window_eq→≡ second second h = refl
window_eq→≡ minute minute h = refl
window_eq→≡ day day h = refl
window_eq→≡ second minute h = cc
window_eq→≡ second day h = cc
window_eq→≡ minute second h = cc
window_eq→≡ minute day h = cc
window_eq→≡ day second h = cc
window_eq→≡ day minute h = cc

-- The two checks count in the same row.
abbrev pub same_key : Check → Check → Bool
same_key c d =
    str_eq d.scope.kind c.scope.kind
    && (str_eq d.scope.ref c.scope.ref
        && (window_eq d.rule.window c.rule.window && (d.start == c.start)))

-- How many of the checks count in the row of a check.
unfoldable pub hits : Check → List Check → ℕ
hits c [] = 0
hits c (d ∷ ds) = let rest = hits c ds in if same_key c d then suc rest else rest

abbrev fresh_row : Check → QuotaUsage
fresh_row d = record {
  scope_kind = d.scope.kind;
  scope_ref = d.scope.ref;
  window_kind = d.rule.window;
  window_start = d.start;
  used = 1;
}

abbrev counted : QuotaUsage → QuotaUsage
counted u = record u { used = u.used + 1 }

module _ (c d : Check) where
  -- What the key of a check compares, as equations.
  key_eqs :
      (u : QuotaUsage)
      → has_key c u ≡ true
      → (u.scope_kind ≡ c.scope.kind)
        × (u.scope_ref ≡ c.scope.ref)
        × (u.window_kind ≡ c.rule.window)
        × (u.window_start ≡ c.start)
  unfolding has_key
  key_eqs u h = (
    ground (arith, eq_iff u.scope_kind c.scope.kind),
    ground (arith, eq_iff u.scope_ref c.scope.ref),
    window_eq→≡ u.window_kind c.rule.window (ground arith),
    ground arith,
  )

  same_eqs :
      same_key c d ≡ true
      → (d.scope.kind ≡ c.scope.kind)
        × (d.scope.ref ≡ c.scope.ref)
        × (d.rule.window ≡ c.rule.window)
        × (d.start ≡ c.start)
  same_eqs h = (
    ground (arith, eq_iff d.scope.kind c.scope.kind),
    ground (arith, eq_iff d.scope.ref c.scope.ref),
    window_eq→≡ d.rule.window c.rule.window (ground arith),
    ground arith,
  )

  same_has_key : (u : QuotaUsage) → same_key c d ≡ true → has_key c u ≡ has_key d u
  unfolding has_key
  same_has_key u h = let (a, b, e, f) = same_eqs h in rw a (rw b (rw e (rw f refl)))

other_has_key :
    (c d : Check) (u : QuotaUsage) → same_key c d ≡ false → has_key d u ≡ true → has_key c u ≡ false
unfolding has_key
other_has_key c d u h k = let (a, b, e, f) = key_eqs d d u k in rw a (rw b (rw e (rw f h)))

fresh-has_key : (d : Check) → has_key d (fresh_row d) ≡ true
unfolding has_key
fresh-has_key d =
    ground (arith, str_eq_refl d.scope.kind, str_eq_refl d.scope.ref, window_eq_refl d.rule.window)

used_at-same :
    (c d : Check) (usage : List QuotaUsage)
    → same_key c d ≡ true
    → used_at c usage ≡ used_at d usage
unfolding used_at select_one
used_at-same c d [] h = refl
used_at-same c d (u ∷ us) h = ground (arith, same_has_key c d u h, used_at-same c d us h)

used_at-found :
    (d : Check) (usage : List QuotaUsage)
    → any (has_key d) usage ≡ true
    → used_at d (update_where (has_key d) counted usage) ≡ suc (used_at d usage)
unfolding used_at select_one update_where has_key
used_at-found d [] h = cc
used_at-found d (u ∷ us) h = ground (arith, used_at-found d us)

used_at-missing :
    (d : Check) (usage : List QuotaUsage)
    → any (has_key d) usage ≡ false
    → used_at d (usage ++ fresh_row d ∷ []) ≡ suc (used_at d usage)
unfolding used_at select_one
used_at-missing d [] h = ground (arith, fresh-has_key d)
used_at-missing d (u ∷ us) h = ground (arith, used_at-missing d us)

counted-has_key : (c : Check) (u : QuotaUsage) → has_key c (counted u) ≡ has_key c u
unfolding has_key
counted-has_key c u = refl

used_at-others :
    (c d : Check) (usage : List QuotaUsage)
    → same_key c d ≡ false
    → used_at c (update_where (has_key d) counted usage) ≡ used_at c usage
unfolding used_at select_one update_where
used_at-others c d [] h = refl
used_at-others c d (u ∷ us) h = ground (
  arith,
  other_has_key c d u h,
  other_has_key c d (counted u) h,
  counted-has_key c u,
  counted-has_key d u,
  used_at-others c d us h,
)

used_at-append :
    (c d : Check) (usage : List QuotaUsage)
    → same_key c d ≡ false
    → used_at c (usage ++ fresh_row d ∷ []) ≡ used_at c usage
unfolding used_at select_one
used_at-append c d [] h = ground (arith, other_has_key c d (fresh_row d) h (fresh-has_key d))
used_at-append c d (u ∷ us) h = ground (arith, used_at-append c d us)

count_one_self :
    (d : Check) (usage : List QuotaUsage) → used_at d (count_one d usage) ≡ suc (used_at d usage)
unfolding count_one
count_one_self d usage = ground (arith, used_at-found d usage, used_at-missing d usage)

count_one_other :
    (c d : Check) (usage : List QuotaUsage)
    → same_key c d ≡ false
    → used_at c (count_one d usage) ≡ used_at c usage
unfolding count_one
count_one_other c d usage h = ground (arith, used_at-others c d usage h, used_at-append c d usage h)

used_at-count_one :
    (c d : Check) (usage : List QuotaUsage)
    → used_at c (count_one d usage)
      ≡ (if same_key c d then suc (used_at c usage) else used_at c usage)
used_at-count_one c d usage = ground (
  arith,
  count_one_other c d usage,
  count_one_self d usage,
  used_at-same c d usage,
  used_at-same c d (count_one d usage),
)

-- Every counter grows by the number of checks that count in it, and no other counter changes.
pub used_at-count_all :
    (c : Check) (checks : List Check) (usage : List QuotaUsage)
    → used_at c (count_all checks usage) ≡ used_at c usage + hits c checks
unfolding count_all hits
used_at-count_all c [] usage = omega arith
used_at-count_all c (d ∷ ds) usage =
    ground (arith, used_at-count_all c ds (count_one d usage), used_at-count_one c d usage)
