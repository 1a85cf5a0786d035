-- ===== src/Prelude/Table.antt =====
-- A table of the database as the list of its rows, in the order of insertion, with the statements
-- that the source writes: SELECT, UPDATE and DELETE … WHERE, and the count of the rows they touch.
use Prim.Native.Nat.{ℕ, suc, ◌+◌, ◌≤◌, ◌<◌}
use mathlib.Core.Path.{◌≡◌, refl}
use mathlib.Core.Logic.{◌⊎◌, inl, inr}
use mathlib.Core.Bool.{Bool, true, false}
use mathlib.Core.Option.{Option, none, some}
use mathlib.Core.List.{List, [], ◌∷◌, ◌++◌}
use native.Mathlib.Omega.{arith}
use zhixu.Prelude.Tests.{if◌then◌else◌, Bool-cases}
use zhixu.Prelude.Lists.{All, any}

module _ {A : Type 0} where
  unfoldable pub select_where : (A → Bool) → List A → List A
  select_where p [] = []
  select_where p (x ∷ xs) = let rest = select_where p xs in if p x then x ∷ rest else rest

  -- The first row of a SELECT that matches at most one, or whose order is that of insertion.
  unfoldable pub select_one : (A → Bool) → List A → Option A
  select_one p [] = none
  select_one p (x ∷ xs) = let rest = select_one p xs in if p x then some x else rest

  unfoldable pub update_where : (A → Bool) → (A → A) → List A → List A
  update_where p f [] = []
  update_where p f (x ∷ xs) = (if p x then f x else x) ∷ update_where p f xs

  unfoldable pub delete_where : (A → Bool) → List A → List A
  delete_where p [] = []
  delete_where p (x ∷ xs) = let rest = delete_where p xs in if p x then rest else x ∷ rest

  -- `cursor.rowcount` of an UPDATE or a DELETE.
  unfoldable pub count_where : (A → Bool) → List A → ℕ
  count_where p [] = 0
  count_where p (x ∷ xs) = let rest = count_where p xs in if p x then suc rest else rest

  -- The row at hand stands in the table.
  abbrev pub In : A → List A → Type 0
  In a [] = ⊥
  In a (x ∷ xs) = (a ≡ x) ⊎ In a xs

  pub select_one-some :
      (p : A → Bool) (xs : List A) (a : A) → select_one p xs ≡ some a → In a xs × (p a ≡ true)
  unfolding select_one
  select_one-some p [] a h = cc
  select_one-some p (x ∷ xs) a h = ground (arith, select_one-some p xs a)

  pub select_one-none :
      (p : A → Bool) (xs : List A) (a : A) → select_one p xs ≡ none → In a xs → p a ≡ false
  unfolding select_one
  select_one-none p [] a h i = absurd i
  select_one-none p (x ∷ xs) a h (inl e) = ground arith
  select_one-none p (x ∷ xs) a h (inr i) = ground (arith, select_one-none p xs a)

  pub In-select_where :
      (p : A → Bool) (xs : List A) (a : A) → In a (select_where p xs) → In a xs × (p a ≡ true)
  unfolding select_where
  In-select_where p [] a h = absurd h
  In-select_where p (x ∷ xs) a h = ground (arith, In-select_where p xs a)

  pub select_where-In :
      (p : A → Bool) (xs : List A) (a : A) → In a xs → p a ≡ true → In a (select_where p xs)
  unfolding select_where
  select_where-In p [] a i h = i
  select_where-In p (x ∷ xs) a (inl e) h = ground arith
  select_where-In p (x ∷ xs) a (inr i) h = ground (arith, select_where-In p xs a i h)

  pub select_where-none :
      (p : A → Bool) (xs : List A) → ((a : A) → In a xs → p a ≡ false) → select_where p xs ≡ []
  unfolding select_where
  select_where-none p [] h = refl
  select_where-none p (x ∷ xs) h =
      ground (arith, h x (inl refl), select_where-none p xs (λ a i. h a (inr i)))

  pub any-append_left : (p : A → Bool) (xs ys : List A) → any p xs ≡ true → any p (xs ++ ys) ≡ true
  any-append_left p [] ys h = cc
  any-append_left p (x ∷ xs) ys h = ground (arith, any-append_left p xs ys)

  pub In-append_left : (xs ys : List A) (a : A) → In a xs → In a (xs ++ ys)
  In-append_left [] ys a i = absurd i
  In-append_left (x ∷ xs) ys a (inl e) = inl e
  In-append_left (x ∷ xs) ys a (inr i) = inr (In-append_left xs ys a i)

  pub In-append_right : (xs ys : List A) (a : A) → In a ys → In a (xs ++ ys)
  In-append_right [] ys a i = i
  In-append_right (x ∷ xs) ys a i = inr (In-append_right xs ys a i)

  pub In-append : (xs ys : List A) (a : A) → In a (xs ++ ys) → In a xs ⊎ In a ys
  In-append [] ys a i = inr i
  In-append (x ∷ xs) ys a (inl e) = inl (inl e)
  In-append (x ∷ xs) ys a (inr i) = elim (In-append xs ys a i) [
    | inl j ↦ inl (inr j)
    | inr j ↦ inr j
  ]

  pub any-false : (p : A → Bool) (xs : List A) (a : A) → any p xs ≡ false → In a xs → p a ≡ false
  any-false p [] a h i = absurd i
  any-false p (x ∷ xs) a h (inl e) = ground arith
  any-false p (x ∷ xs) a h (inr i) = ground (arith, any-false p xs a)

  pub any-append_last :
      (p : A → Bool) (xs : List A) (a : A) → p a ≡ true → any p (xs ++ a ∷ []) ≡ true
  any-append_last p [] a h = ground arith
  any-append_last p (x ∷ xs) a h = ground (arith, any-append_last p xs a)

  pub any-append_not :
      (p : A → Bool) (xs : List A) (a : A)
      → any p xs ≡ false
      → p a ≡ false
      → any p (xs ++ a ∷ []) ≡ false
  any-append_not p [] a h k = ground arith
  any-append_not p (x ∷ xs) a h k = ground (arith, any-append_not p xs a)

  -- The rows after an update: each is an old one, changed if the condition holds of it.
  pub In-update_where :
      (p : A → Bool) (f : A → A) (xs : List A) (a : A)
      → In a (update_where p f xs)
      → (b : A) × In b xs × (a ≡ (if p b then f b else b))
  unfolding update_where
  In-update_where p f [] a i = absurd i
  In-update_where p f (x ∷ xs) a (inl e) = (x, inl refl, e)
  In-update_where p f (x ∷ xs) a (inr i) = let r = In-update_where p f xs a i in (r.0, inr r.1, r.2)

  pub update_where-In :
      (p : A → Bool) (f : A → A) (xs : List A) (a : A)
      → In a xs
      → In (if p a then f a else a) (update_where p f xs)
  unfolding update_where
  update_where-In p f [] a i = i
  update_where-In p f (x ∷ xs) a (inl e) = inl (rw e)
  update_where-In p f (x ∷ xs) a (inr i) = inr (update_where-In p f xs a i)

module _ {A : Type 0} where
  -- An update adds no row to those that satisfy a test.
  pub count_where-update_where :
      (p q : A → Bool) (f : A → A) (xs : List A)
      → ((x : A) → q x ≡ true → p (f x) ≡ true → p x ≡ true)
      → count_where p (update_where q f xs) ≤ count_where p xs
  unfolding count_where update_where
  count_where-update_where p q f [] k = omega arith
  count_where-update_where p q f (x ∷ xs) k =
      ground (arith, k x, count_where-update_where p q f xs k)

  pub count_where-none :
      (p : A → Bool) (xs : List A) → ((x : A) → In x xs → p x ≡ false) → count_where p xs ≡ 0
  unfolding count_where
  count_where-none p [] k = refl
  count_where-none p (x ∷ xs) k =
      ground (arith, k x (inl refl), count_where-none p xs (λ y m. k y (inr m)))

  pub count_where-some :
      (p : A → Bool) (xs : List A) → 0 < count_where p xs → (x : A) × In x xs × (p x ≡ true)
  unfolding count_where
  count_where-some p [] k = absurd (omega (arith, k))
  count_where-some p (x ∷ xs) k = elim (Bool-cases (p x)) [
    | inl y ↦ (x, inl refl, y)
    | inr n ↦
        let more : 0 < count_where p xs = rw n at k in
        let (z, m, y) = count_where-some p xs more in (z, inr m, y)
  ]

  pub count_where-last :
      (p : A → Bool) (xs : List A) (a : A)
      → count_where p (xs ++ a ∷ []) ≡ count_where p xs + (if p a then 1 else 0)
  unfolding count_where
  count_where-last p [] a = ground arith
  count_where-last p (x ∷ xs) a = ground (arith, count_where-last p xs a)

module _ {κ} {A : Type 0} (P : A → Type κ) where
  pub All-In : (xs : List A) (a : A) → All P xs → In a xs → P a
  All-In [] a h i = absurd i
  All-In (x ∷ xs) a h (inl e) = rw e h.0
  All-In (x ∷ xs) a h (inr i) = All-In xs a h.1 i

  pub All-of-In : (xs : List A) → ((a : A) → In a xs → P a) → All P xs
  All-of-In [] k = tt
  All-of-In (x ∷ xs) k = (k x (inl refl), All-of-In xs (λ a i. k a (inr i)))

-- ORDER BY: rows that the order does not tell apart keep the order of insertion.
module _ {A : Type 0} (before : A → A → Bool) where
  abbrev insert_in_order : A → List A → List A
  insert_in_order a [] = a ∷ []
  insert_in_order a (x ∷ xs) =
      let rest = insert_in_order a xs in if before a x then a ∷ x ∷ xs else x ∷ rest

  unfoldable pub order_by : List A → List A
  order_by [] = []
  order_by (x ∷ xs) = insert_in_order x (order_by xs)

  In-insert_in_order :
      (a : A) (xs : List A) (b : A) → In b (insert_in_order a xs) → (b ≡ a) ⊎ In b xs
  In-insert_in_order a [] b i = i
  In-insert_in_order a (x ∷ xs) b i = elim (Bool-cases (before a x)) [
    | inl y ↦ rw y at i
    | inr n ↦
        let j : In b (x ∷ insert_in_order a xs) = rw n at i in
        elim j [
          | inl e ↦ inr (inl e)
          | inr k ↦ elim (In-insert_in_order a xs b k) [ inl e ↦ inl e | inr m ↦ inr (inr m) ]
        ]
  ]

  pub In-order_by : (xs : List A) (b : A) → In b (order_by xs) → In b xs
  unfolding order_by
  In-order_by [] b i = i
  In-order_by (x ∷ xs) b i = elim (In-insert_in_order x (order_by xs) b i) [
    | inl e ↦ inl e
    | inr j ↦ inr (In-order_by xs b j)
  ]

  insert_in_order-In :
      (a : A) (xs : List A) (b : A) → (b ≡ a) ⊎ In b xs → In b (insert_in_order a xs)
  insert_in_order-In a [] b i = i
  insert_in_order-In a (x ∷ xs) b i = elim (Bool-cases (before a x)) [
    | inl y ↦ rw y i
    | inr n ↦ rw n (elim i [
      | inl e ↦ inr (insert_in_order-In a xs b (inl e))
      | inr j ↦ elim j [ inl e ↦ inl e | inr k ↦ inr (insert_in_order-In a xs b (inr k)) ]
    ])
  ]

  pub order_by-In : (xs : List A) (b : A) → In b xs → In b (order_by xs)
  unfolding order_by
  order_by-In [] b i = i
  order_by-In (x ∷ xs) b i =
      insert_in_order-In x (order_by xs) b
        (elim i [ inl e ↦ inl e | inr j ↦ inr (order_by-In xs b j) ])
