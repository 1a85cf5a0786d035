-- ===== src/Prelude/Keyed.antt =====
-- Tables whose rows have a key: the row of a key, and what the statements do to it.
use Prim.Native.Nat.{ℕ}
use Prim.Native.String.{String}
use mathlib.Core.Path.{◌≡◌, refl, ap}
use mathlib.Core.Logic.{inl, inr}
use mathlib.Core.Bool.{Bool, true, false}
use mathlib.Core.Option.{Option, none, some}
use mathlib.Core.List.{List, [], ◌∷◌, ◌++◌}
use native.Mathlib.Omega.{arith}
use text.Mathlib.TextEquality.{eq_iff}
use zhixu.Prelude.Tests.{if◌then◌else◌, Bool-cases, Option-cases}
use zhixu.Prelude.Text.{str_eq, str_eq_refl, str_eq_comm}
use zhixu.Prelude.Lists.{any}
use zhixu.Prelude.Table.{In, select_one, update_where, delete_where, count_where}

module _ {A : Type 0} where
  -- What an UPDATE makes of the row of a key.
  abbrev pub updated : (A → Bool) → (A → A) → Option A → Option A
  updated p f none = none
  updated p f (some x) = some (if p x then f x else x)

  -- What a DELETE leaves of it.
  abbrev pub kept : (A → Bool) → Option A → Option A
  kept p none = none
  kept p (some x) = if p x then none else some x

  abbrev pub counted : (A → Bool) → Option A → ℕ
  counted p none = 0
  counted p (some x) = if p x then 1 else 0

module _ {A : Type 0} (key : A → String) where
  abbrev pub has_key : String → A → Bool
  has_key k x = str_eq (key x) k

  -- The row of a key.
  abbrev pub find : String → List A → Option A
  find k xs = select_one (has_key k) xs

  -- No two rows have the same key.
  abbrev pub Unique : List A → Type 0
  Unique [] = Unit
  Unique (x ∷ xs) = (find (key x) xs ≡ none) × Unique xs

  pub find-key : (k : String) (xs : List A) (x : A) → find k xs ≡ some x → key x ≡ k
  unfolding select_one
  find-key k [] x h = cc
  find-key k (y ∷ ys) x h = elim (Bool-cases (str_eq (key y) k)) [
    | inl same ↦
        let e : some y ≡ some x = rw same at h in
        let same_row : y ≡ x = cc in rw (← same_row) ((eq_iff (key y) k).0 same)
    | inr other ↦ let e : find k ys ≡ some x = rw other at h in find-key k ys x e
  ]

  pub any-find : (k : String) (xs : List A) → any (has_key k) xs ≡ false → find k xs ≡ none
  unfolding select_one
  any-find k [] h = refl
  any-find k (x ∷ xs) h = ground (arith, any-find k xs)

  pub any-find-some :
      (k : String) (xs : List A) → any (has_key k) xs ≡ true → (x : A) × (find k xs ≡ some x)
  unfolding select_one
  any-find-some k [] h = cc
  any-find-some k (x ∷ xs) h = elim (Bool-cases (str_eq (key x) k)) [
    | inl y ↦ (x, rw y refl)
    | inr n ↦
        let more : any (has_key k) xs ≡ true = rw n at h in
        let (z, e) = any-find-some k xs more in (z, rw n e)
  ]

  abbrev pub or_else : Option A → Option A → Option A
  or_else none y = y
  or_else (some x) y = some x

  pub find-last :
      (k : String) (xs : List A) (a : A)
      → find k (xs ++ a ∷ []) ≡ or_else (find k xs) (if str_eq (key a) k then some a else none)
  unfolding select_one
  find-last k [] a = refl
  find-last k (x ∷ xs) a = ground (arith, find-last k xs a)

  module _ (p : A → Bool) where
    pub find-update_where :
        (f : A → A) (same : (x : A) → key (f x) ≡ key x) (k : String) (xs : List A)
        → find k (update_where p f xs) ≡ updated p f (find k xs)
    unfolding select_one update_where
    find-update_where f same k [] = refl
    find-update_where f same k (x ∷ xs) = elim (Bool-cases (p x)) [
      | inl y ↦
          rw (y, same x)
            (elim (Bool-cases (str_eq (key x) k)) [
              | inl e ↦ rw (e, y) refl
              | inr n ↦ rw n (find-update_where f same k xs)
            ])
      | inr y ↦ rw y (elim (Bool-cases (str_eq (key x) k)) [
        | inl e ↦ rw (e, y) refl
        | inr n ↦ rw n (find-update_where f same k xs)
      ])
    ]

    find-delete_none :
        (k : String) (xs : List A) → find k xs ≡ none → find k (delete_where p xs) ≡ none
    unfolding select_one delete_where
    find-delete_none k [] h = refl
    find-delete_none k (x ∷ xs) h = ground (arith, find-delete_none k xs)

    pub find-delete_where :
        (k : String) (xs : List A) → Unique xs → find k (delete_where p xs) ≡ kept p (find k xs)
    unfolding select_one delete_where
    find-delete_where k [] u = refl
    find-delete_where k (x ∷ xs) u = elim (Bool-cases (str_eq (key x) k)) [
      | inl e ↦
          let same : key x ≡ k = (eq_iff (key x) k).0 e in
          let gone : find k xs ≡ none = rw same at u.0 in ground (arith, find-delete_none k xs gone)
      | inr n ↦ ground (arith, find-delete_where k xs u.1)
    ]

    -- A condition that only rows with one key satisfy counts the row of that key.
    pub count_where-find :
        (k : String) (only : (x : A) → p x ≡ true → key x ≡ k) (xs : List A)
        → Unique xs
        → count_where p xs ≡ counted p (find k xs)
    unfolding select_one count_where
    count_where-find k only [] u = refl
    count_where-find k only (x ∷ xs) u =
        let below = count_where-find k only xs u.1 in
        elim (Bool-cases (str_eq (key x) k)) [
          | inl e ↦
              let same : key x ≡ k = (eq_iff (key x) k).0 e in
              let gone : find k xs ≡ none = rw same at u.0 in
              let zero : count_where p xs ≡ 0 = rw gone at below in ground (arith, zero)
          | inr n ↦ elim (Bool-cases (p x)) [
            | inl y ↦
                let same : key x ≡ k = only x y in
                absurd (cc (n, ap (λ j. str_eq j k) same, str_eq_refl k))
            | inr m ↦ rw (n, m) below
          ]
        ]

    pub Unique-update_where :
        (f : A → A) (same : (x : A) → key (f x) ≡ key x) (xs : List A)
        → Unique xs
        → Unique (update_where p f xs)
    unfolding update_where
    Unique-update_where f same [] u = tt
    Unique-update_where f same (x ∷ xs) u = (
      elim (Bool-cases (p x)) [
        | inl y ↦ rw (y, same x, find-update_where f same (key x) xs, u.0) refl
        | inr n ↦ rw (n, find-update_where f same (key x) xs, u.0) refl
      ],
      Unique-update_where f same xs u.1,
    )

    pub Unique-delete_where : (xs : List A) → Unique xs → Unique (delete_where p xs)
    unfolding delete_where
    Unique-delete_where [] u = tt
    Unique-delete_where (x ∷ xs) u = elim (Bool-cases (p x)) [
      | inl y ↦ rw y (Unique-delete_where xs u.1)
      | inr n ↦ rw n (find-delete_none (key x) xs u.0, Unique-delete_where xs u.1)
    ]

  pub Unique-last :
      (xs : List A) (a : A) → Unique xs → find (key a) xs ≡ none → Unique (xs ++ a ∷ [])
  unfolding select_one
  Unique-last [] a u h = (refl, tt)
  Unique-last (x ∷ xs) a u h = elim (Bool-cases (str_eq (key x) (key a))) [
    | inl e ↦ let taken : some x ≡ none = rw e at h in cc
    | inr n ↦
        let rest : find (key a) xs ≡ none = rw n at h in
        (
          rw (find-last (key x) xs a, u.0, str_eq_comm (key a) (key x), n) refl,
          Unique-last xs a u.1 rest,
        )
  ]

  pub Unique-find : (xs : List A) (a : A) → Unique xs → In a xs → find (key a) xs ≡ some a
  unfolding select_one
  Unique-find [] a u i = absurd i
  Unique-find (x ∷ xs) a u (inl e) = rw (← e, str_eq_refl (key a)) refl
  Unique-find (x ∷ xs) a u (inr i) =
      let below = Unique-find xs a u.1 i in
      elim (Bool-cases (str_eq (key x) (key a))) [
        | inl y ↦
            let same : key x ≡ key a = (eq_iff (key x) (key a)).0 y in
            let gone : find (key a) xs ≡ none = rw same at u.0 in cc
        | inr n ↦ rw n below
      ]

  -- A deletion that counts one row, under a condition that only rows of one key satisfy, takes that row.
  pub find-delete_one :
      (p : A → Bool) (k : String)
      → ((x : A) → p x ≡ true → key x ≡ k)
      → (xs : List A) → Unique xs
      → count_where p xs ≡ 1
      → find k (delete_where p xs) ≡ none
  find-delete_one p k only xs u one =
      let counts = count_where-find p k only xs u in
      elim (Option-cases (find k xs)) [
        | inl e ↦
            let zero : count_where p xs ≡ 0 = rw e at counts in absurd (omega (arith, one, zero))
        | inr (x, e) ↦
            let now : count_where p xs ≡ (if p x then 1 else 0) = rw e at counts in
            let hit : p x ≡ true = ground arith in rw (find-delete_where p k xs u, e, hit) refl
      ]
