-- ===== src/Vault/Audit/Chain.antt =====
-- What the chain of src/zhixu_vault/audit.py shows: a log that was only appended to verifies, and
-- the code at its head stands for the whole of it.
use zhixu.Prelude.{
  ℕ, zero, suc, ◌<◌, String, ◌≡◌, refl, sym, ◌∙◌, inl, inr, true, some, List, [], ◌∷◌, ◌++◌, arith,
  eq_iff, Option-cases, length, str_eq_refl,
}
use zhixu.Prelude.Result.{ok}
use zhixu.Prelude.Table.{In}
use zhixu.Domain.Time.{DateTime}
use zhixu.Vault.Audit.{
  AuditEvent, AuditRow, Checkpoint, head_mac, append, after_append, verify_from, verify, append_all,
  mac_at, write_checkpoint, verify_checkpoint,
}

module _ (mac : AuditEvent → String → String) where
  verify_from-append :
      (previous : String) (rows : List AuditRow) (e : AuditEvent)
      → verify_from mac previous rows ≡ true
      → verify_from mac previous (
          rows
          ++ record {
            event = e;
            previous_mac = head_mac previous rows;
            event_mac = mac e (head_mac previous rows);
          }
            ∷ [])
        ≡ true
  unfolding verify_from head_mac
  verify_from-append previous [] e h =
      ground (arith, str_eq_refl previous, str_eq_refl (mac e previous))
  verify_from-append previous (r ∷ rs) e h =
      ground (arith, eq_iff (mac r.event previous) r.event_mac, verify_from-append r.event_mac rs e)

  append-verify :
      (rows : List AuditRow) (e : AuditEvent)
      → verify mac rows ≡ true
      → verify mac (after_append mac rows (append mac rows e)) ≡ true
  unfolding append verify
  append-verify rows e h = ground (arith, verify_from-append "" rows e h)

  -- A log that verifies still verifies after any events were appended to it, where an append that
  -- raises leaves it as it was.
  pub append_all-verify :
      (rows : List AuditRow) (es : List AuditEvent)
      → verify mac rows ≡ true
      → verify mac (append_all mac rows es) ≡ true
  unfolding append_all
  append_all-verify rows [] h = h
  append_all-verify rows (e ∷ es) h =
      append_all-verify (after_append mac rows (append mac rows e)) es (append-verify rows e h)

row_ext :
    (x y : AuditRow) (xs ys : List AuditRow)
    → x.event ≡ y.event
    → x.previous_mac ≡ y.previous_mac
    → x.event_mac ≡ y.event_mac
    → xs ≡ ys
    → ◌≡◌ {A = List AuditRow} (x ∷ xs) (y ∷ ys)
row_ext x y xs ys a b m r = λ i. record { event = a i; previous_mac = b i; event_mac = m i } ∷ r i

-- The first rows of a log.
unfoldable pub first : ℕ → List AuditRow → List AuditRow
first zero rows = []
first (suc n) [] = []
first (suc n) (r ∷ rs) = r ∷ first n rs

-- No two rows of the two logs have the same code without having the same contents: the code does
-- not collide on what is in the logs.
abbrev pub NoCollision : List AuditRow → List AuditRow → Type 0
NoCollision xs ys =
    (r s : AuditRow)
    → In r xs
    → In s ys
    → r.event_mac ≡ s.event_mac
    → (r.event ≡ s.event) × (r.previous_mac ≡ s.previous_mac)

first-In : (n : ℕ) (rows : List AuditRow) (r : AuditRow) → In r (first n rows) → In r rows
unfolding first
first-In zero rows r i = absurd i
first-In (suc n) [] r i = absurd i
first-In (suc n) (x ∷ rows) r (inl e) = inl e
first-In (suc n) (x ∷ rows) r (inr i) = inr (first-In n rows r i)

-- The row at a sequence is the head of the rows up to it.
mac_at-first :
    (n : ℕ) (p : String) (rows : List AuditRow) (m : String)
    → mac_at (suc n) rows ≡ some m
    → (head_mac p (first (suc n) rows) ≡ m) × (length (first (suc n) rows) ≡ suc n)
unfolding mac_at first head_mac
mac_at-first n p [] m h = cc
mac_at-first zero p (r ∷ rows) m h = (cc, refl)
mac_at-first (suc n) p (r ∷ rows) m h =
    let f = mac_at-first n r.event_mac rows m h in (f.0, omega (arith, f.1))

module _ (mac : AuditEvent → String → String) where
  verify_from-first :
      (n : ℕ) (p : String) (rows : List AuditRow)
      → verify_from mac p rows ≡ true
      → verify_from mac p (first n rows) ≡ true
  unfolding verify_from first
  verify_from-first zero p rows h = refl
  verify_from-first (suc n) p [] h = refl
  verify_from-first (suc n) p (r ∷ rows) h =
      ground (arith, verify_from-first n (mac r.event p) rows)

  -- Two chains of the same length that end in the same code are the same.
  same_head :
      (p q : String) (xs ys : List AuditRow)
      → verify_from mac p xs ≡ true
      → verify_from mac q ys ≡ true
      → length xs ≡ length ys
      → head_mac p xs ≡ head_mac q ys
      → NoCollision xs ys
      → (p ≡ q) × (xs ≡ ys)
  unfolding verify_from head_mac
  same_head p q [] [] h k l e c = (e, refl)
  same_head p q [] (y ∷ ys) h k l e c = absurd (omega (arith, l))
  same_head p q (x ∷ xs) [] h k l e c = absurd (omega (arith, l))
  same_head p q (x ∷ xs) (y ∷ ys) h k l e c =
      let (m, rest) =
        same_head x.event_mac y.event_mac xs ys (ground (arith, eq_iff (mac x.event p) x.event_mac))
          (ground (arith, eq_iff (mac y.event q) y.event_mac)) (omega (arith, l)) e
          (λ r s i j. c r s (inr i) (inr j)) in
      let (a, b) = c x y (inl refl) (inl refl) m in
      (
        ground (arith, eq_iff x.previous_mac p, eq_iff y.previous_mac q),
        row_ext x y xs ys a b m rest,
      )

module _ (mac : AuditEvent → String → String) (checkpoint_code : ℕ → String → ℕ → String) where
  written :
      (rows : List AuditRow) (now : DateTime) (keep : ℕ) (c : Checkpoint)
      → write_checkpoint mac checkpoint_code rows now keep ≡ ok c
      → (c.sequence ≡ length rows)
        × (c.head_event_mac ≡ head_mac "" rows)
        × (verify_from mac "" rows ≡ true)
  unfolding write_checkpoint verify
  written rows now keep c w = (ground arith, ground arith, ground arith)

  accepted :
      (later : List AuditRow) (c : Checkpoint) (n : ℕ)
      → c.sequence ≡ suc n
      → verify_checkpoint mac checkpoint_code later c ≡ true
      → (verify_from mac "" later ≡ true) × (mac_at (suc n) later ≡ some c.head_event_mac)
  unfolding verify_checkpoint verify
  accepted later c n s v = elim (Option-cases (mac_at c.sequence later)) [
    | inl e ↦ absurd (ground arith)
    | inr (m, e) ↦ (ground arith, ground (arith, eq_iff c.head_event_mac m))
  ]

  -- A checkpoint pins the log. If the checkpoint that was written over a log that had events is
  -- accepted for a later log, and the codes do not collide on the two, then the later log starts
  -- with every row of the first, unchanged.
  pub checkpoint_pins :
      (rows later : List AuditRow) (now : DateTime) (keep : ℕ) (c : Checkpoint)
      → write_checkpoint mac checkpoint_code rows now keep ≡ ok c
      → 0 < length rows
      → verify_checkpoint mac checkpoint_code later c ≡ true
      → NoCollision rows later
      → first (length rows) later ≡ rows
  checkpoint_pins [] later now keep c w l v n = absurd (omega (arith, l))
  checkpoint_pins (r ∷ rs) later now keep c w l v n =
      let (s, d, h) = written (r ∷ rs) now keep c w in
      let (k, m) = accepted later c (length rs) s v in
      let (f, e) = mac_at-first (length rs) "" later c.head_event_mac m in
      sym (
        (same_head mac "" "" (r ∷ rs) (first (length (r ∷ rs)) later) h
          (verify_from-first mac (length (r ∷ rs)) "" later k) (sym e) (sym d ∙ sym f)
          (λ x y i j. n x y i (first-In (length (r ∷ rs)) later y j))).1)
