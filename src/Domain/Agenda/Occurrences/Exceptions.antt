-- ===== src/Domain/Agenda/Occurrences/Exceptions.antt =====
-- Which exception `occurrences_between` of src/zhixu/domain/agenda.py finds for a start: the last one for it.
use zhixu.Prelude.{
  ℕ, true, ◌≡◌, refl, sym, ap, ◌∙◌, subst, inl, inr, none, some, List, [], ◌∷◌, ◌++◌, arith,
  Bool-cases, Option-cases, ◌≢◌, ◌==◌,
}
use zhixu.Prelude.Table.{In, In-append_right}
use zhixu.Domain.Agenda.{RecurrenceException}
use zhixu.Domain.Agenda.Occurrences.{exception_at}

-- No exception is for the start.
abbrev pub Free : ℕ → List RecurrenceException → Type 0
Free start xs = (x : RecurrenceException) → In x xs → x.occurrence_at.instant ≢ start

-- The exception is for the start, and none that comes after it is.
pub record IsLast (start : ℕ) (xs : List RecurrenceException) (x : RecurrenceException)
    : Type 0 where
  pub front : List RecurrenceException
  pub back : List RecurrenceException
  pub split : xs ≡ front ++ x ∷ back
  pub concerned : x.occurrence_at.instant ≡ start
  pub last : Free start back

pub exception_at-none :
    (start : ℕ) (xs : List RecurrenceException) → exception_at start xs ≡ none → Free start xs
unfolding exception_at
exception_at-none start [] h x i = absurd i
exception_at-none start (y ∷ ys) h x i = elim (Option-cases (exception_at start ys)) [
  | inr (z, e) ↦ absurd (let found : some z ≡ none = rw e at h in cc)
  | inl e ↦
      let rest = exception_at-none start ys e in
      elim i [
        | inl first ↦ λ same.
            (let at : y.occurrence_at.instant ≡ start =
                ap (λ (z : RecurrenceException). z.occurrence_at.instant) (sym first) ∙ same in
              let hit : (y.occurrence_at.instant == start) ≡ true = ground (arith, at) in
              let found : some y ≡ none = rw (e, hit) at h in cc)
        | inr more ↦ rest x more
      ]
]

pub exception_at-some :
    (start : ℕ) (xs : List RecurrenceException) (x : RecurrenceException)
    → exception_at start xs ≡ some x
    → IsLast start xs x
unfolding exception_at
exception_at-some start [] x h = absurd (cc)
exception_at-some start (y ∷ ys) x h = elim (Option-cases (exception_at start ys)) [
  | inr (z, e) ↦
      (let found : some z ≡ some x = rw e at h in
        let k = exception_at-some start ys x (e ∙ found) in
        record {
          front = y ∷ k.front;
          back = k.back;
          split = ap (λ l. y ∷ l) k.split;
          concerned = k.concerned;
          last = k.last;
        })
  | inl e ↦ elim (Bool-cases (y.occurrence_at.instant == start)) [
    | inl hit ↦
        (let found : some y ≡ some x = rw (e, hit) at h in
          let same : y ≡ x = cc in
          let at : y.occurrence_at.instant ≡ start = ground (arith, hit) in
          record {
            front = [];
            back = ys;
            split = ap (λ z. z ∷ ys) same;
            concerned = ap (λ (z : RecurrenceException). z.occurrence_at.instant) (sym same) ∙ at;
            last = exception_at-none start ys e;
          })
    | inr n ↦ absurd (let lost : none ≡ some x = rw (e, n) at h in cc)
  ]
]

pub Free-exception_at :
    (start : ℕ) (xs : List RecurrenceException) → Free start xs → exception_at start xs ≡ none
Free-exception_at start xs free = elim (Option-cases (exception_at start xs)) [
  | inl e ↦ e
  | inr (x, e) ↦
      (let k = exception_at-some start xs x e in
        let there : In x (k.front ++ x ∷ k.back) =
          In-append_right k.front (x ∷ k.back) x (inl refl) in
        absurd (free x (subst (λ l. In x l) (sym k.split) there) k.concerned))
]
