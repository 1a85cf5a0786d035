-- ===== src/Delivery/Outbox/Order.antt =====
-- The order in which deliveries are claimed, and the first row under it.
use zhixu.Prelude.{
  ◌<◌, ◌≡◌, refl, ◌⊎◌, inl, inr, true, false, none, some, List, [], ◌∷◌, arith, Bool-cases, str_leb,
  str_leb_total, str_leb_trans, str_leb_refl,
}
use zhixu.Prelude.Table.{In}
use zhixu.Delivery.Outbox.Tables.{Delivery}
use zhixu.Delivery.Outbox.Claim.{row_leb, least, first_row}

-- The order of claims, written out: by priority, then by age, then by id.
abbrev pub Precedes : Delivery → Delivery → Type 0
Precedes r s =
    (r.priority < s.priority)
    ⊎ ((r.priority ≡ s.priority)
        × ((r.created_at < s.created_at)
            ⊎ ((r.created_at ≡ s.created_at) × (str_leb r.id s.id ≡ true))))

pub row_leb-Precedes : (r s : Delivery) → row_leb r s ≡ true → Precedes r s
unfolding row_leb
row_leb-Precedes r s h = ground arith

row_leb_refl : (r : Delivery) → row_leb r r ≡ true
unfolding row_leb
row_leb_refl r = ground (arith, str_leb_refl r.id)

pub row_leb_total : (r s : Delivery) → row_leb r s ≡ false → row_leb s r ≡ true
unfolding row_leb
row_leb_total r s h = ground (arith, str_leb_total r.id s.id)

pub row_leb_trans :
    (r s t : Delivery) → row_leb r s ≡ true → row_leb s t ≡ true → row_leb r t ≡ true
unfolding row_leb
row_leb_trans r s t h k = ground (arith, str_leb_trans r.id s.id t.id)

-- The row is in the list, and none of the list goes before it.
pub record IsFirst (r : Delivery) (rows : List Delivery) : Type 0 where
  pub member : In r rows
  pub first : (s : Delivery) → In s rows → row_leb r s ≡ true

least-IsFirst : (r : Delivery) (rows : List Delivery) → IsFirst (least r rows) (r ∷ rows)
unfolding least
least-IsFirst r [] = record {
  member = inl refl;
  first = λ s i. elim i [ inl e ↦ rw e (row_leb_refl r) | inr z ↦ absurd z ];
}
least-IsFirst r (s ∷ rows) = elim (Bool-cases (row_leb r s)) [
  | inl y ↦ rw (y, least) (keep r s (least r rows) y (least-IsFirst r rows))
  | inr n ↦ rw (n, least) (drop r s (least s rows) (row_leb_total r s n) (least-IsFirst s rows))
]
  where
    keep :
        (r s t : Delivery) → row_leb r s ≡ true → IsFirst t (r ∷ rows) → IsFirst t (r ∷ (s ∷ rows))
    keep r s t y f = record {
      member = elim f.member [ inl e ↦ inl e | inr i ↦ inr (inr i) ];
      first = λ x i. elim i [
        | inl e ↦ f.first x (inl e)
        | inr (inl e) ↦ rw e (row_leb_trans t r s (f.first r (inl refl)) y)
        | inr (inr j) ↦ f.first x (inr j)
      ];
    }

    drop :
        (r s t : Delivery) → row_leb s r ≡ true → IsFirst t (s ∷ rows) → IsFirst t (r ∷ (s ∷ rows))
    drop r s t y f = record {
      member = inr f.member;
      first = λ x i. elim i [
        | inl e ↦ rw e (row_leb_trans t s r (f.first s (inl refl)) y)
        | inr j ↦ f.first x j
      ];
    }

pub first_row-IsFirst :
    (rows : List Delivery) (r : Delivery) → first_row rows ≡ some r → IsFirst r rows
unfolding first_row
first_row-IsFirst [] r h = cc
first_row-IsFirst (x ∷ rows) r h = let e : least x rows ≡ r = cc in rw (← e) (least-IsFirst x rows)

pub first_row-none : (rows : List Delivery) → first_row rows ≡ none → rows ≡ []
unfolding first_row
first_row-none [] h = refl
first_row-none (x ∷ rows) h = cc
