-- ===== src/Vault/Audit.antt =====
-- src/zhixu_vault/audit.py: the log of audit events, chained by a message authentication code. The
-- HMAC of the canonical JSON of an event and the code before it is the parameter `mac`.
pub mod Chain
use zhixu.Prelude.{
  ℕ, zero, suc, ◌+◌, ◌-◌, ◌*◌, ◌/◌, ◌%◌, ◌≤◌, ◌<◌, max, String, ◌≡◌, refl, sym, ap, ◌∙◌, ◌≢◌, ◌⊎◌,
  inl, inr, Bool, true, false, not, ◌&&◌, ◌||◌, Option, none, some, List, [], ◌∷◌, ◌++◌, map, arith,
  eq_iff, ltb, leb, ◌==◌, if◌then◌else◌, ltb→lt, leb→le, Bool-cases, Option-cases, length, any, all,
  All, length-append, str_eq, codes, is_space, is_blank, text_length, prefix, str_leb, str_mem,
  str_leb_total, str_leb_trans, str_leb_refl, str_eq_comm, str_eq_refl,
}
use zhixu.Prelude.Result.{
  Error, Result, ok, err, ◌>>=◌, ◌>>◌, raise_if, or_raise, >>=-eq-ok, >>-eq-ok, validation_error,
  not_found, conflict, concurrency_conflict, permission_denied, confirmation_required,
  classification_not_supported, invalid_transition, llm_unavailable, llm_budget_exceeded,
  invalid_model_output, value_error, key_error, permission_error, runtime_error, type_error,
  integrity_error, assertion_error,
}
use zhixu.Domain.Time.{DateTime}

pub record AuditEvent : Type 0 where
  pub occurred_at : ℕ
  pub actor : String
  pub action : String
  pub secret_id : String
  pub outcome : String
  pub reason_code : String

-- A row of `vault_audit`. Its `sequence` is its place in the table.
pub record AuditRow : Type 0 where
  pub event : AuditEvent
  pub previous_mac : String
  pub event_mac : String

-- `_head`, without the sequence: the code of the last row, or the empty text.
unfoldable pub head_mac : String → List AuditRow → String
head_mac previous [] = previous
head_mac previous (r ∷ rs) = head_mac r.event_mac rs

module _ (mac : AuditEvent → String → String) where
  -- `VaultAuditLog.append`. The column `event_mac` is UNIQUE.
  unfoldable pub append : List AuditRow → AuditEvent → Result (List AuditRow)
  unfolding head_mac
  append rows event = do
    raise_if (any (λ r. str_eq r.event_mac (mac event (head_mac "" rows))) rows) integrity_error
    ok (
        rows
        ++ record {
          event = event;
          previous_mac = head_mac "" rows;
          event_mac = mac event (head_mac "" rows);
        }
          ∷ [])

  -- The loop of `VaultAuditLog.verify`, from the code that is expected of the next row.
  unfoldable pub verify_from : String → List AuditRow → Bool
  verify_from previous [] = true
  verify_from previous (r ∷ rs) =
      let rest = verify_from (mac r.event previous) rs in
      if not (str_eq r.previous_mac previous)
      then false
      else if not (str_eq (mac r.event previous) r.event_mac)
      then false
      else rest

  -- `VaultAuditLog.verify`
  unfoldable pub verify : List AuditRow → Bool
  unfolding verify_from
  verify rows = verify_from "" rows

  -- The log after an event: a transaction that raises is rolled back.
  abbrev pub after_append : List AuditRow → Result (List AuditRow) → List AuditRow
  after_append rows (ok after) = after
  after_append rows (err e) = rows

  unfoldable pub append_all : List AuditRow → List AuditEvent → List AuditRow
  unfolding append
  append_all rows [] = rows
  append_all rows (e ∷ es) = append_all (after_append rows (append rows e)) es

-- `SELECT event_mac FROM vault_audit WHERE sequence=?`
unfoldable pub mac_at : ℕ → List AuditRow → Option String
mac_at n [] = none
mac_at zero (r ∷ rs) = none
mac_at (suc zero) (r ∷ rs) = some r.event_mac
mac_at (suc (suc n)) (r ∷ rs) = mac_at (suc n) rs

-- The body of a checkpoint, with its own code. Its `format` is a constant.
pub record Checkpoint : Type 0 where
  pub sequence : ℕ
  pub head_event_mac : String
  pub created_at : ℕ
  pub checkpoint_mac : String

module _ (mac : AuditEvent → String → String) (checkpoint_code : ℕ → String → ℕ → String) where
  -- `VaultAuditLog.write_checkpoint`, up to the writing of the file.
  unfoldable pub write_checkpoint : List AuditRow → DateTime → ℕ → Result Checkpoint
  unfolding verify head_mac
  write_checkpoint rows now keep = do
    raise_if (not now.aware) value_error
    raise_if (not (leb 2 keep && leb keep 3650)) value_error
    raise_if (not (verify mac rows)) runtime_error
    ok (record {
      sequence = length rows;
      head_event_mac = head_mac "" rows;
      created_at = now.instant;
      checkpoint_mac = checkpoint_code (length rows) (head_mac "" rows) now.instant;
    })

  abbrev has_mac : String → Option String → Bool
  has_mac expected none = false
  has_mac expected (some m) = str_eq expected m

  -- `VaultAuditLog.verify_latest_checkpoint`, for the newest checkpoint that was read.
  unfoldable pub verify_checkpoint : List AuditRow → Checkpoint → Bool
  unfolding verify mac_at
  verify_checkpoint rows c =
      if not (str_eq (checkpoint_code c.sequence c.head_event_mac c.created_at) c.checkpoint_mac)
      then false
      else if not (verify mac rows)
      then false
      else if c.sequence == 0
      then str_eq c.head_event_mac ""
      else has_mac c.head_event_mac (mac_at c.sequence rows)
