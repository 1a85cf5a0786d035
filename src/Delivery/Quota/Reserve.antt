-- ===== src/Delivery/Quota/Reserve.antt =====
-- What a reservation of src/zhixu/delivery/quota.py does to the counters: all of them, or none.
use zhixu.Prelude.{
  ℕ, ◌+◌, ◌≤◌, ◌<◌, max, String, ◌≡◌, refl, sym, ap, ◌∙◌, ◌⊎◌, inl, inr, true, false, Option, List,
  [], ◌∷◌, arith, Bool-cases,
}
use zhixu.Prelude.Result.{Result-cases, ok}
use Prim.Native.String.{◌++◌ as append}
use zhixu.Prelude.Table.{In}
use zhixu.Domain.Time.{DateTime}
use zhixu.Delivery.Quota.Counters.{hits, used_at-count_all}
use zhixu.Delivery.Quota.{
  QuotaScope, QuotaRule, QuotaUsage, QuotaDecision, Zone, Check, window_value, used_at, is_blocked,
  blocked, latest, count_all, decide, find_checks, reserve,
}

blocked-All :
    (usage : List QuotaUsage) (checks : List Check) (c : Check)
    → blocked usage checks ≡ []
    → In c checks
    → is_blocked usage c ≡ false
unfolding blocked
blocked-All usage [] c h i = absurd i
blocked-All usage (d ∷ ds) c h (inl e) = rw e (ground arith)
blocked-All usage (d ∷ ds) c h (inr i) = ground (arith, blocked-All usage ds c)

label : Check → String
label c = append c.scope.kind (append ":" (window_value c.rule.window))

blocked-yes :
    (usage : List QuotaUsage) (c : Check) (cs : List Check)
    → is_blocked usage c ≡ true
    → blocked usage (c ∷ cs) ≡ (c.end, label c) ∷ blocked usage cs
unfolding blocked label
blocked-yes usage c cs h = rw h refl

blocked-no :
    (usage : List QuotaUsage) (c : Check) (cs : List Check)
    → is_blocked usage c ≡ false
    → blocked usage (c ∷ cs) ≡ blocked usage cs
unfolding blocked
blocked-no usage c cs h = rw h refl

In-blocked :
    (usage : List QuotaUsage) (checks : List Check) (c : Check)
    → In c checks
    → is_blocked usage c ≡ true
    → (s : String) × In (c.end, s) (blocked usage checks)
In-blocked usage [] c i h = absurd i
In-blocked usage (d ∷ ds) c (inl e) h =
    (label d, rw e (rw (blocked-yes usage d ds (rw (sym e) h)) (inl refl)))
In-blocked usage (d ∷ ds) c (inr i) h =
    let (s, m) = In-blocked usage ds c i h in
    elim (Bool-cases (is_blocked usage d)) [
      | inl b ↦ (s, rw (blocked-yes usage d ds b) (inr m))
      | inr b ↦ (s, rw (blocked-no usage d ds b) m)
    ]

blocked-some :
    (usage : List QuotaUsage) (checks : List Check) (p : ℕ × String) (rest : List (ℕ × String))
    → blocked usage checks ≡ p ∷ rest
    → (c : Check) × In c checks × (is_blocked usage c ≡ true)
unfolding blocked
blocked-some usage [] p rest h = cc
blocked-some usage (c ∷ cs) p rest h = elim (Bool-cases (is_blocked usage c)) [
  | inl b ↦ (c, inl refl, b)
  | inr b ↦
      let (d, i, k) = blocked-some usage cs p rest (sym (blocked-no usage c cs b) ∙ h) in
      (d, inr i, k)
]

latest-ge : (t : ℕ) (rest : List (ℕ × String)) → t ≤ latest t rest
latest-ge t [] = omega arith
latest-ge t ((u, s) ∷ rest) = omega (arith, latest-ge (max t u) rest)

latest-In : (t u : ℕ) (s : String) (rest : List (ℕ × String)) → In (u, s) rest → u ≤ latest t rest
latest-In t u s [] i = absurd i
latest-In t u s ((v, r) ∷ rest) (inl e) =
    omega (arith, latest-ge (max t v) rest, ap (λ (p : ℕ × String). p.0) e)
latest-In t u s ((v, r) ∷ rest) (inr i) = latest-In (max t v) u s rest i

blocked-used :
    (usage : List QuotaUsage) (c : Check)
    → is_blocked usage c ≡ true
    → c.rule.limit ≤ used_at c usage
unfolding is_blocked used_at
blocked-used usage c h = ground arith

free-used :
    (usage : List QuotaUsage) (c : Check)
    → is_blocked usage c ≡ false
    → 0 < c.rule.limit
    → used_at c usage < c.rule.limit
unfolding is_blocked used_at
free-used usage c h l = ground arith

list-cases : {A : Type 0} (xs : List A) → (xs ≡ []) ⊎ ((x : A) × (rest : List A) × (xs ≡ x ∷ rest))
list-cases [] = inl refl
list-cases (x ∷ xs) = inr (x, xs, refl)

module _ (checks : List Check) (usage : List QuotaUsage) where
  -- The counters of the checks are all below their limits, and exactly the counters that the checks
  -- stand on grow, each by as many as stand on it.
  pub record Counted (after : List QuotaUsage) : Type 0 where
    pub below : (c : Check) → In c checks → 0 < c.rule.limit → used_at c usage < c.rule.limit
    pub grown : (c : Check) → used_at c after ≡ used_at c usage + hits c checks

  -- A limit is reached, no counter changes, and the time that is given is not before the end of
  -- any window that is full.
  pub record Refused (next : ℕ) (after : List QuotaUsage) : Type 0 where
    pub same : after ≡ usage
    pub reached : (c : Check) × In c checks × (c.rule.limit ≤ used_at c usage)
    pub waits :
        (c : Check) → In c checks → 0 < c.rule.limit → c.rule.limit ≤ used_at c usage → c.end ≤ next

module _ (checks : List Check) (usage : List QuotaUsage) (now : ℕ) where
  decide-free :
      blocked usage checks ≡ []
      → ((decide checks usage now).0.allowed ≡ true)
        × ((decide checks usage now).1 ≡ count_all checks usage)
  unfolding decide
  decide-free h = rw (h, decide) (refl, refl)

  decide-blocked :
      (t : ℕ) (s : String) (rest : List (ℕ × String))
      → blocked usage checks ≡ (t, s) ∷ rest
      → ((decide checks usage now).0.allowed ≡ false)
        × ((decide checks usage now).1 ≡ usage)
        × ((decide checks usage now).0.next_available_at ≡ latest t rest)
  unfolding decide
  decide-blocked t s rest h = rw (h, decide) (refl, refl, refl)

  latest-all :
      (t : ℕ) (s : String) (rest : List (ℕ × String)) (u : ℕ) (r : String)
      → In (u, r) ((t, s) ∷ rest)
      → u ≤ latest t rest
  latest-all t s rest u r (inl e) = omega (arith, latest-ge t rest, ap (λ (p : ℕ × String). p.0) e)
  latest-all t s rest u r (inr i) = latest-In t u r rest i

  full-blocked :
      (c : Check) → 0 < c.rule.limit → c.rule.limit ≤ used_at c usage → is_blocked usage c ≡ true
  full-blocked c l h = ground (arith, free-used usage c)

  decide-All :
      (((decide checks usage now).0.allowed ≡ true)
        × Counted checks usage (decide checks usage now).1)
      ⊎ (((decide checks usage now).0.allowed ≡ false)
          × Refused checks usage
              (decide checks usage now).0.next_available_at
              (decide checks usage now).1)
  decide-All = elim (list-cases (blocked usage checks)) [
    | inl e ↦
        let (a, b) = decide-free e in
        inl (
          a,
          record {
            below = λ c i l. free-used usage c (blocked-All usage checks c e i) l;
            grown = λ c. ap (used_at c) b ∙ used_at-count_all c checks usage;
          },
        )
    | inr ((t, s), rest, e) ↦
        let (a, b, n) = decide-blocked t s rest e in
        let (c, i, k) = blocked-some usage checks (t, s) rest e in
        inr (
          a,
          record {
            same = b;
            reached = (c, i, blocked-used usage c k);
            waits = λ d j l f.
                let (r, m) = In-blocked usage checks d j (full-blocked d l f) in
                rw n (latest-all t s rest d.end r (rw e at m));
          },
        )
  ]

-- A reservation that is answered counts in every counter that its rules name, or in none. If it is
-- allowed, every counter with a positive limit was below it and each grows by the number of rules
-- that count in it; if it is not, some counter has reached its limit, no counter changes, and the
-- time that is given is not before the end of any window that is full under a positive limit.
pub reserve-all_or_none :
    (zones : String → Option Zone) (rules : List QuotaRule) (usage after : List QuotaUsage)
    (scopes : List QuotaScope) (now : DateTime) (decision : QuotaDecision)
    → reserve zones rules usage scopes now ≡ ok (decision, after)
    → (checks : List Check) × (find_checks zones rules scopes now.instant ≡ ok checks)
      × (((decision.allowed ≡ true) × Counted checks usage after)
          ⊎ ((decision.allowed ≡ false) × Refused checks usage decision.next_available_at after))
unfolding reserve
reserve-all_or_none zones rules usage after scopes now decision h =
    elim (Result-cases (find_checks zones rules scopes now.instant)) [
      | inl (e, f) ↦ absurd (ground arith)
      | inr (checks, f) ↦
          let p : decide checks usage now.instant ≡ (decision, after) = ground arith in
          (checks, f, rw p at (decide-All checks usage now.instant))
    ]

-- A positive limit is not passed: a counter on which a single rule counts, and that is within the
-- limit of that rule, is within it after a reservation, allowed or not.
pub reserve-within :
    (zones : String → Option Zone) (rules : List QuotaRule) (usage after : List QuotaUsage)
    (scopes : List QuotaScope) (now : DateTime) (decision : QuotaDecision) (checks : List Check)
    (c : Check)
    → reserve zones rules usage scopes now ≡ ok (decision, after)
    → find_checks zones rules scopes now.instant ≡ ok checks
    → In c checks
    → hits c checks ≡ 1
    → 0 < c.rule.limit
    → used_at c usage ≤ c.rule.limit
    → used_at c after ≤ c.rule.limit
reserve-within zones rules usage after scopes now decision checks c h f i one l u =
    let (found, e, branch) = reserve-all_or_none zones rules usage after scopes now decision h in
    let p : found ≡ checks = ground arith in
    elim branch [
      | inl (a, k) ↦ omega (arith, k.below c (rw p i) l, k.grown c, ap (hits c) p)
      | inr (a, k) ↦ rw k.same u
    ]
