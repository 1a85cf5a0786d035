-- ===== src/Domain/Note.antt =====
-- src/zhixu/domain/note.py: a note with its fields, content blocks and attachments, and the checks of
-- the constructors.
pub mod Checked
use zhixu.Prelude.{
  ℕ, zero, suc, ◌+◌, ◌-◌, ◌*◌, ◌/◌, ◌%◌, ◌≤◌, ◌<◌, max, String, ◌≡◌, refl, sym, ap, ◌∙◌, ◌≢◌, ◌⊎◌,
  inl, inr, Bool, true, false, not, ◌&&◌, ◌||◌, Option, none, some, List, [], ◌∷◌, ◌++◌, map, arith,
  eq_iff, ltb, leb, ◌==◌, if◌then◌else◌, ltb→lt, leb→le, Bool-cases, Option-cases, length, any, all,
  All, length-append, str_eq, codes, is_space, is_blank, text_length, prefix, str_leb, str_mem,
  str_leb_total, str_leb_trans, str_leb_refl, str_eq_comm, str_eq_refl,
}
use zhixu.Prelude.Result.{
  Error, Result, ok, err, ◌>>=◌, ◌>>◌, raise_if, or_raise, >>=-eq-ok, >>-eq-ok, validation_error,
  not_found, conflict, concurrency_conflict, permission_denied, confirmation_required,
  classification_not_supported, invalid_transition, llm_unavailable, llm_budget_exceeded,
  invalid_model_output, value_error, key_error, permission_error, runtime_error, type_error,
  integrity_error, assertion_error,
}
use zhixu.Domain.Time.{DateTime, require_aware}
use zhixu.Domain.Classification.{DataClassification, require_ordinary_storage}
use zhixu.Domain.Policy.{has_duplicates}

pub record NoteAttachment : Type 0 where
  pub id : String
  pub filename : String
  pub media_type : String
  pub size_bytes : ℕ
  pub content_ref : String

-- `not value.strip() or len(value) > limit`
unfoldable pub is_unfit : ℕ → String → Bool
is_unfit limit value = is_blank value || ltb limit (text_length value)

-- `NoteAttachment.__post_init__`. A size is an integer there; a negative one is refused too.
unfoldable pub check_attachment : NoteAttachment → Result (Unit {0})
unfolding is_unfit
check_attachment a = do
  raise_if
      (is_unfit 160 a.id
        || (is_unfit 500 a.filename || (is_unfit 200 a.media_type || is_unfit 500 a.content_ref)))
      validation_error
  raise_if (ltb 10_737_418_240 a.size_bytes) validation_error

pub record NoteField : Type 0 where
  pub name : String
  pub value : String

-- `NoteField.__post_init__`
unfoldable pub check_field : NoteField → Result (Unit {0})
unfolding is_unfit
check_field f = do
  raise_if (is_unfit 80 f.name) validation_error
  raise_if (is_unfit 200_000 f.value) validation_error

pub record NoteContentBlock : Type 0 where
  pub name : String
  pub body : String
  pub fields : List NoteField
  pub id : String

abbrev pub is_empty {ℓ} : {A : Type ℓ} → List A → Bool
is_empty [] = true
is_empty (x ∷ xs) = false

-- `NoteContentBlock.__post_init__`
unfoldable pub check_block : NoteContentBlock → Result (Unit {0})
unfolding is_unfit has_duplicates
check_block b = do
  raise_if (is_unfit 120 b.name) validation_error
  raise_if (ltb 160 (text_length b.id)) validation_error
  raise_if (ltb 200_000 (text_length b.body) || (is_blank b.body && is_empty b.fields))
      validation_error
  raise_if (has_duplicates (map (λ (f : NoteField). f.name) b.fields)) validation_error

pub record Note : Type 0 where
  pub id : String
  pub owner_user_id : String
  pub title : String
  pub body : String
  pub category_path : List String
  pub content_blocks : List NoteContentBlock
  pub creator_user_id : Option String
  pub tags : List String
  pub attachments : List NoteAttachment
  pub classification : DataClassification
  pub version : ℕ
  pub created_at : Option DateTime
  pub updated_at : Option DateTime

-- `[item.id for item in self.content_blocks if item.id]`
unfoldable pub block_ids : List NoteContentBlock → List String
block_ids [] = []
block_ids (b ∷ bs) = let rest = block_ids bs in if str_eq b.id "" then rest else b.id ∷ rest

abbrev is_some_blank : Option String → Bool
is_some_blank none = false
is_some_blank (some s) = is_blank s

abbrev is_some_naive : Option DateTime → Bool
is_some_naive none = false
is_some_naive (some t) = not t.aware

-- `Note.__post_init__`
unfoldable pub check_note : Note → Result (Unit {0})
unfolding is_unfit block_ids has_duplicates require_ordinary_storage
check_note n = do
  raise_if (is_blank n.id || is_blank n.owner_user_id) validation_error
  raise_if (is_some_blank n.creator_user_id) validation_error
  raise_if (is_blank n.title && is_blank n.body) validation_error
  raise_if (is_empty n.category_path || ltb 8 (length n.category_path)) validation_error
  raise_if (any (is_unfit 80) n.category_path) validation_error
  raise_if (has_duplicates (block_ids n.content_blocks)) validation_error
  raise_if (ltb n.version 1) validation_error
  raise_if (is_some_naive n.created_at) validation_error
  raise_if (is_some_naive n.updated_at) validation_error
  raise_if (any is_blank n.tags) validation_error
  raise_if (has_duplicates n.tags) validation_error
  raise_if (has_duplicates (map (λ (a : NoteAttachment). a.id) n.attachments)) validation_error
  require_ordinary_storage n.classification
