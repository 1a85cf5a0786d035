-- ===== src/Domain/Note/Checked.antt =====
-- What a note that its constructor accepts is like (src/zhixu/domain/note.py).
use zhixu.Prelude.{
  ℕ, ◌≤◌, String, ◌≡◌, ap, ◌∙◌, ◌≢◌, ◌⊎◌, inl, Bool-cases, str_eq, inr, false, ◌||◌, List, [], ◌∷◌,
  map, arith, eq_iff, ltb, length, is_blank, text_length, str_mem,
}
use zhixu.Prelude.Result.{ok}
use zhixu.Prelude.Table.{In, any-false}
use zhixu.Domain.Classification.{secret, prohibited, require_ordinary_storage}
use zhixu.Domain.Policy.{has_duplicates}
use zhixu.Domain.Note.{
  Note, NoteAttachment, NoteContentBlock, block_ids, is_unfit, is_empty, check_note,
}

-- No text stands at two places of the list.
abbrev pub Distinct : List String → Type 0
Distinct [] = Unit
Distinct (s ∷ ss) = ((t : String) → In t ss → s ≢ t) × Distinct ss

str_mem-In : (s t : String) (ts : List String) → str_mem s ts ≡ false → In t ts → s ≢ t
str_mem-In s t [] h i = absurd i
str_mem-In s t (u ∷ ts) h (inl e) = λ q. ground (arith, eq_iff u s)
str_mem-In s t (u ∷ ts) h (inr i) = str_mem-In s t ts (ground arith) i

has_duplicates-Distinct : (ss : List String) → has_duplicates ss ≡ false → Distinct ss
unfolding has_duplicates
has_duplicates-Distinct [] h = tt
has_duplicates-Distinct (s ∷ ss) h =
    ((λ t i. str_mem-In s t ss (ground arith) i), has_duplicates-Distinct ss (ground arith))

-- No block that has a name of its own shares it with a later one.
abbrev pub DistinctBlocks : List NoteContentBlock → Type 0
DistinctBlocks [] = Unit
DistinctBlocks (b ∷ bs) =
    ((d : NoteContentBlock) → In d bs → b.id ≢ "" → b.id ≢ d.id) × DistinctBlocks bs

block_ids-In :
    (bs : List NoteContentBlock) (d : NoteContentBlock)
    → In d bs
    → d.id ≢ ""
    → In d.id (block_ids bs)
unfolding block_ids
block_ids-In [] d i n = absurd i
block_ids-In (b ∷ bs) d (inl e) n = elim (Bool-cases (str_eq b.id "")) [
  | inl y ↦ absurd (n (ap (λ (x : NoteContentBlock). x.id) e ∙ (eq_iff b.id "").0 y))
  | inr m ↦ rw m (inl (ap (λ (x : NoteContentBlock). x.id) e))
]
block_ids-In (b ∷ bs) d (inr i) n = elim (Bool-cases (str_eq b.id "")) [
  | inl y ↦ rw y (block_ids-In bs d i n)
  | inr m ↦ rw m (inr (block_ids-In bs d i n))
]

block_ids-Distinct : (bs : List NoteContentBlock) → Distinct (block_ids bs) → DistinctBlocks bs
unfolding block_ids
block_ids-Distinct [] h = tt
block_ids-Distinct (b ∷ bs) h = elim (Bool-cases (str_eq b.id "")) [
  | inl y ↦
      let rest : Distinct (block_ids bs) = rw y at h in
      (λ d i n. absurd (n ((eq_iff b.id "").0 y)), block_ids-Distinct bs rest)
  | inr m ↦
      let here : Distinct (b.id ∷ block_ids bs) = rw m at h in
      (
        λ d i n same. here.0 d.id (block_ids-In bs d i (λ q. n (same ∙ q))) same,
        block_ids-Distinct bs here.1,
      )
]

-- An accepted note, in the terms of those who read it.
pub record Readable (n : Note) : Type 0 where
  pub owned : is_blank n.owner_user_id ≡ false
  pub says_something : (is_blank n.title ≡ false) ⊎ (is_blank n.body ≡ false)
  pub path_length : (1 ≤ length n.category_path) × (length n.category_path ≤ 8)
  pub path_parts :
      (part : String) → In part n.category_path → (is_blank part ≡ false) × (text_length part ≤ 80)
  pub distinct_tags : Distinct n.tags
  pub distinct_blocks : DistinctBlocks n.content_blocks
  pub distinct_attachments : Distinct (map (λ (a : NoteAttachment). a.id) n.attachments)
  pub versioned : 1 ≤ n.version
  pub ordinary : (n.classification ≢ secret) × (n.classification ≢ prohibited)

fit :
    (limit : ℕ) (s : String)
    → is_unfit limit s ≡ false
    → (is_blank s ≡ false) × (text_length s ≤ limit)
unfolding is_unfit
fit limit s h = ground arith

short :
    (path : List String)
    → (is_empty path || ltb 8 (length path)) ≡ false
    → (1 ≤ length path) × (length path ≤ 8)
short [] h = cc
short (s ∷ ss) h = ground arith

-- A note that is accepted has an owner, a title or a body, a category path of one to eight parts that
-- are neither blank nor longer than 80 characters, tags, attachments and named blocks that are all
-- distinct, a version from 1 on, and ordinary data.
pub check_note-Readable : (n : Note) → check_note n ≡ ok tt → Readable n
unfolding check_note require_ordinary_storage
check_note-Readable n h = record {
  owned = ground arith;
  says_something = ground arith;
  path_length = short n.category_path (ground arith);
  path_parts =
      λ part i. fit 80 part (any-false (is_unfit 80) n.category_path part (ground arith) i);
  distinct_tags = has_duplicates-Distinct n.tags (ground arith);
  distinct_blocks =
      block_ids-Distinct n.content_blocks
        (has_duplicates-Distinct (block_ids n.content_blocks) (ground arith));
  distinct_attachments =
      has_duplicates-Distinct (map (λ (a : NoteAttachment). a.id) n.attachments) (ground arith);
  versioned = ground arith;
  ordinary = ground arith;
}
