-- ===== src/Domain/Leads/Canonical.antt =====
-- What `normalise_lead_minutes` of src/zhixu/domain/agenda.py gives depends only on the set of its
-- values, which it lists from the greatest to the least.
use zhixu.Prelude.{
  ℕ, ◌*◌, ◌≤◌, ◌≡◌, refl, sym, ap, ◌∙◌, ◌⊎◌, inl, inr, true, false, List, [], ◌∷◌, arith, ltb,
  Bool-cases, length, any,
}
use zhixu.Prelude.Result.{ok}
use zhixu.Prelude.Int.{ℤ, pos, negsuc}
use zhixu.Prelude.Table.{In, any-false}
use zhixu.Domain.Leads.{
  int_ltb, insert, sorted_set, maximum_entries, out_of_range, normalise_lead_minutes,
}

int_ltb_trans : (a b c : ℤ) → int_ltb a b ≡ true → int_ltb b c ≡ true → int_ltb a c ≡ true
unfolding int_ltb
int_ltb_trans (pos a) (pos b) (pos c) h k = ground arith
int_ltb_trans (pos a) (pos b) (negsuc c) h k = absurd (cc)
int_ltb_trans (pos a) (negsuc b) c h k = absurd (cc)
int_ltb_trans (negsuc a) (pos b) (pos c) h k = refl
int_ltb_trans (negsuc a) (pos b) (negsuc c) h k = absurd (cc)
int_ltb_trans (negsuc a) (negsuc b) (pos c) h k = refl
int_ltb_trans (negsuc a) (negsuc b) (negsuc c) h k = ground arith

int_ltb_irrefl : (a : ℤ) → int_ltb a a ≡ false
unfolding int_ltb
int_ltb_irrefl (pos a) = ground arith
int_ltb_irrefl (negsuc a) = ground arith

int_ltb_total : (a b : ℤ) → int_ltb a b ≡ false → int_ltb b a ≡ false → a ≡ b
unfolding int_ltb
int_ltb_total (pos a) (pos b) h k = ap pos (ground arith)
int_ltb_total (pos a) (negsuc b) h k = absurd (cc)
int_ltb_total (negsuc a) (pos b) h k = absurd (cc)
int_ltb_total (negsuc a) (negsuc b) h k = ap negsuc (ground arith)

-- Every entry is below the one before it.
abbrev pub Descending : List ℤ → Type 0
Descending [] = Unit
Descending (x ∷ xs) = ((y : ℤ) → In y xs → int_ltb y x ≡ true) × Descending xs

In-insert : (x : ℤ) (ys : List ℤ) (v : ℤ) → In v (insert x ys) → (v ≡ x) ⊎ In v ys
unfolding insert
In-insert x [] v i = i
In-insert x (y ∷ ys) v i = ground (arith, In-insert x ys v)

insert-In : (x : ℤ) (ys : List ℤ) (v : ℤ) → (v ≡ x) ⊎ In v ys → In v (insert x ys)
unfolding insert
insert-In x [] v i = i
insert-In x (y ∷ ys) v i = ground (arith, insert-In x ys v, int_ltb_total x y)

insert-Descending : (x : ℤ) (ys : List ℤ) → Descending ys → Descending (insert x ys)
unfolding insert
insert-Descending x [] d = (λ y i. absurd i, tt)
insert-Descending x (y ∷ ys) d = elim (Bool-cases (int_ltb y x)) [
  | inl a ↦ rw a (λ z i. elim i [ inl e ↦ rw e a | inr j ↦ int_ltb_trans z y x (d.0 z j) a ], d)
  | inr n ↦ elim (Bool-cases (int_ltb x y)) [
    | inl b ↦
        rw (n, b)
          (
            λ z i. elim (In-insert x ys z i) [ inl e ↦ rw e b | inr j ↦ d.0 z j ],
            insert-Descending x ys d.1,
          )
    | inr m ↦ rw (n, m) d
  ]
]

sorted_set-Descending : (xs : List ℤ) → Descending (sorted_set xs)
unfolding sorted_set
sorted_set-Descending [] = tt
sorted_set-Descending (x ∷ xs) = insert-Descending x (sorted_set xs) (sorted_set-Descending xs)

In-sorted_set : (xs : List ℤ) (v : ℤ) → In v (sorted_set xs) → In v xs
unfolding sorted_set
In-sorted_set [] v i = i
In-sorted_set (x ∷ xs) v i = elim (In-insert x (sorted_set xs) v i) [
  | inl e ↦ inl e
  | inr j ↦ inr (In-sorted_set xs v j)
]

sorted_set-In : (xs : List ℤ) (v : ℤ) → In v xs → In v (sorted_set xs)
unfolding sorted_set
sorted_set-In [] v i = i
sorted_set-In (x ∷ xs) v (inl e) = insert-In x (sorted_set xs) v (inl e)
sorted_set-In (x ∷ xs) v (inr j) = insert-In x (sorted_set xs) v (inr (sorted_set-In xs v j))

-- The values of one list are those of the other.
pub record SameSet (xs ys : List ℤ) : Type 0 where
  pub there : (v : ℤ) → In v xs → In v ys
  pub back : (v : ℤ) → In v ys → In v xs

-- Of two lists in descending order with the same values, the heads are the same.
same_head :
    (x y : ℤ) (xs ys : List ℤ)
    → Descending (x ∷ xs)
    → Descending (y ∷ ys)
    → SameSet (x ∷ xs) (y ∷ ys)
    → x ≡ y
same_head x y xs ys d e s = elim (s.there x (inl refl)) [
  | inl q ↦ q
  | inr i ↦ elim (s.back y (inl refl)) [
    | inl q ↦ sym q
    | inr j ↦ absurd (cc (int_ltb_trans x y x (e.0 x i) (d.0 y j), int_ltb_irrefl x))
  ]
]

same_tail :
    (x : ℤ) (xs ys : List ℤ)
    → Descending (x ∷ xs)
    → Descending (x ∷ ys)
    → SameSet (x ∷ xs) (x ∷ ys)
    → SameSet xs ys
same_tail x xs ys d e s = record {
  there = λ v i. elim (s.there v (inr i)) [
    | inl q ↦ absurd (cc (rw q at (d.0 v i), int_ltb_irrefl x))
    | inr j ↦ j
  ];
  back = λ v i. elim (s.back v (inr i)) [
    | inl q ↦ absurd (cc (rw q at (e.0 v i), int_ltb_irrefl x))
    | inr j ↦ j
  ];
}

Descending-unique : (xs ys : List ℤ) → Descending xs → Descending ys → SameSet xs ys → xs ≡ ys
Descending-unique [] [] d e s = refl
Descending-unique [] (y ∷ ys) d e s = absurd (s.back y (inl refl))
Descending-unique (x ∷ xs) [] d e s = absurd (s.there x (inl refl))
Descending-unique (x ∷ xs) (y ∷ ys) d e s =
    let same = same_head x y xs ys d e s in
    let e_here : Descending (x ∷ ys) = rw same e in
    let s_here : SameSet (x ∷ xs) (x ∷ ys) = rw (← same) at s in
    ap (λ t. x ∷ t) (Descending-unique xs ys d.1 e.1 (same_tail x xs ys d e_here s_here))
    ∙ ap (λ h. h ∷ ys) same

sorted_set_canonical : (xs ys : List ℤ) → SameSet xs ys → sorted_set xs ≡ sorted_set ys
sorted_set_canonical xs ys s =
    Descending-unique (sorted_set xs) (sorted_set ys) (sorted_set-Descending xs)
      (sorted_set-Descending ys)
      (record {
        there = λ v i. sorted_set-In ys v (s.there v (In-sorted_set xs v i));
        back = λ v i. sorted_set-In xs v (s.back v (In-sorted_set ys v i));
      })

-- The list has the values of the argument, from the greatest to the least, at most twelve of them,
-- and none below zero or above the minutes of 366 days.
pub record Normal (xs zs : List ℤ) : Type 0 where
  pub same_set : SameSet xs zs
  pub descending : Descending zs
  pub few : length zs ≤ 12
  pub in_range : (v : ℤ) → In v zs → (n : ℕ) × (v ≡ pos n) × (n ≤ 366 * 24 * 60)

within : (v : ℤ) → out_of_range v ≡ false → (n : ℕ) × (v ≡ pos n) × (n ≤ 366 * 24 * 60)
unfolding out_of_range
within (pos n) h = (n, refl, ground arith)
within (negsuc n) h = absurd (cc)

normalise_lead_minutes-ok :
    (xs zs : List ℤ)
    → normalise_lead_minutes xs ≡ ok zs
    → (zs ≡ sorted_set xs)
      × (ltb maximum_entries (length zs) ≡ false)
      × (any out_of_range zs ≡ false)
unfolding normalise_lead_minutes
normalise_lead_minutes-ok xs zs h =
    elim (Bool-cases (ltb maximum_entries (length (sorted_set xs)))) [
      | inl y ↦ absurd (ground arith)
      | inr n ↦ elim (Bool-cases (any out_of_range (sorted_set xs))) [
        | inl y ↦ absurd (ground arith)
        | inr m ↦ (let same : zs ≡ sorted_set xs = ground arith in (same, rw same n, rw same m))
      ]
    ]

normalise_lead_minutes-Normal : (xs zs : List ℤ) → normalise_lead_minutes xs ≡ ok zs → Normal xs zs
normalise_lead_minutes-Normal xs zs h =
    let (same, few, fine) = normalise_lead_minutes-ok xs zs h in
    record {
      same_set = rw same (record { there = sorted_set-In xs; back = In-sorted_set xs });
      descending = rw same (sorted_set-Descending xs);
      few = ground (arith, few);
      in_range = λ v i. within v (any-false out_of_range zs v fine i);
    }

-- A list that is accepted is normalised to one that is Normal for it, and every other list of the same
-- values to the same one.
pub normalise_lead_minutes_canonical :
    (xs ys zs : List ℤ)
    → SameSet xs ys
    → normalise_lead_minutes xs ≡ ok zs
    → Normal xs zs × (normalise_lead_minutes ys ≡ ok zs)
unfolding normalise_lead_minutes
normalise_lead_minutes_canonical xs ys zs s h =
    let sets = sorted_set_canonical xs ys s in
    let same : normalise_lead_minutes xs ≡ normalise_lead_minutes ys = rw sets refl in
    (normalise_lead_minutes-Normal xs zs h, sym same ∙ h)
