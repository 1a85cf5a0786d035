-- ===== src/Vault/Service.antt =====
-- `VaultService.create_secret`, `create_with_grant` and `_authorize` of src/zhixu_vault/service.py,
-- with the row that `VaultRepository` of storage.py keeps. Secrets are texts; sealing them is outside
-- the model.
pub mod Creation
use zhixu.Prelude.{
  ℕ, zero, suc, ◌+◌, ◌-◌, ◌*◌, ◌/◌, ◌%◌, ◌≤◌, ◌<◌, max, String, ◌≡◌, refl, sym, ap, ◌∙◌, ◌≢◌, ◌⊎◌,
  inl, inr, Bool, true, false, not, ◌&&◌, ◌||◌, Option, none, some, List, [], ◌∷◌, ◌++◌, map, arith,
  eq_iff, ltb, leb, ◌==◌, if◌then◌else◌, ltb→lt, leb→le, Bool-cases, Option-cases, length, any, all,
  All, length-append, str_eq, codes, is_space, is_blank, text_length, prefix, str_leb, str_mem,
  str_leb_total, str_leb_trans, str_leb_refl, str_eq_comm, str_eq_refl,
}
use zhixu.Prelude.Result.{
  Error, Result, ok, err, ◌>>=◌, ◌>>◌, raise_if, or_raise, >>=-eq-ok, >>-eq-ok, validation_error,
  not_found, conflict, concurrency_conflict, permission_denied, confirmation_required,
  classification_not_supported, invalid_transition, llm_unavailable, llm_budget_exceeded,
  invalid_model_output, value_error, key_error, permission_error, runtime_error, type_error,
  integrity_error, assertion_error,
}
use zhixu.Prelude.Table.{select_one}
use zhixu.Vault.Grants.{VerifiedGrant}
use zhixu.Vault.Policy.{
  list_metadata, update, delete, export, rotate, reveal, use', grant, VaultClassification,
  SecretKind, VaultAction, machine, human, machine_secret, human_secret, l4_human_override,
  prohibited, is_human, require,
}

-- The arguments of `create_secret`.
pub record NewSecret : Type 0 where
  pub secret_id : String
  pub owner_user_id : String
  pub label : String
  pub kind : SecretKind
  pub value : String
  pub classification : Option VaultClassification
  pub policy_override : Option String

-- The columns of `secrets` that the policy reads.
pub record SecretRow : Type 0 where
  pub id : String
  pub owner_user_id : String
  pub label : String
  pub kind : SecretKind
  pub classification : VaultClassification
  pub policy_override : Option String
  pub version : ℕ

-- `VaultRepository._metadata`: the classification that a row is read with.
unfoldable pub read_classification : SecretRow → VaultClassification
read_classification r = elim r.policy_override [
  | none ↦ r.classification
  | some o ↦ if str_eq o "owner_explicit_human_storage" then l4_human_override else r.classification
]

-- The first condition of `create_secret`.
unfoldable pub is_invalid : NewSecret → Bool
is_invalid n =
    is_blank n.secret_id
    || (ltb 160 (text_length n.secret_id)
        || (is_blank n.owner_user_id
            || (ltb 160 (text_length n.owner_user_id)
                || (is_blank n.label
                    || (ltb 200 (text_length n.label) || (text_length n.value == 0))))))

-- `selected`
unfoldable pub selected : NewSecret → VaultClassification
selected n = elim n.classification [
  | some c ↦ c
  | none ↦ if is_human n.kind then human_secret else machine_secret
]

abbrev pub is_owner_override : Option String → Bool
is_owner_override none = false
is_owner_override (some o) = str_eq o "owner_explicit_human_storage"

abbrev pub is_given : Option String → Bool
is_given none = false
is_given (some o) = true

-- `stored_classification` and `stored_override`, or the error that refuses both.
unfoldable pub stored :
    VaultClassification → SecretKind → Option String → Result (VaultClassification × Option String)
stored prohibited kind override =
    if not (is_human kind) || not (is_owner_override override)
    then err permission_error
    else ok (human_secret, override)
stored l4_human_override kind override = err value_error
stored machine_secret kind override =
    if is_given override then err value_error else ok (machine_secret, none)
stored human_secret kind override =
    if is_given override then err value_error else ok (human_secret, none)

-- The last condition of `create_secret`: the kind and the classification do not match.
unfoldable pub mismatch : SecretKind → VaultClassification → Bool
mismatch machine machine_secret = false
mismatch human human_secret = false
mismatch _ _ = true

-- `create_secret`, up to the call of `VaultRepository.create`, and the columns of the row that
-- this call inserts.
unfoldable pub create_secret : NewSecret → String → Result SecretRow
unfolding is_invalid selected stored mismatch
create_secret n authentication = do
  raise_if (is_invalid n) value_error
  raise_if (not (str_eq authentication "step_up")) permission_error
  (classification, override) ← stored (selected n) n.kind n.policy_override
  raise_if (mismatch n.kind classification) value_error
  ok (record {
    id = n.secret_id;
    owner_user_id = n.owner_user_id;
    label = n.label;
    kind = n.kind;
    classification = classification;
    policy_override = override;
    version = 1;
  })

-- `owner_actions` of `VaultRepository.create`: what the access list of a new secret gives its owner.
unfoldable pub owner_actions : SecretRow → List VaultAction
owner_actions r =
    list_metadata
    ∷ update
    ∷ delete
    ∷ export
    ∷ rotate
    ∷ (if is_human r.kind then reveal else use')
    ∷ (if is_given r.policy_override then [] else grant ∷ [])

-- `create_with_grant`, from the verified grant on.
unfoldable pub create_granted : NewSecret → VerifiedGrant → Result SecretRow
unfolding create_secret
create_granted n g = do
  raise_if (not (str_eq g.subject n.owner_user_id) || not (str_eq g.authentication "step_up"))
      permission_error
  create_secret n g.authentication

-- `_authorize`, from the verified grant on: the row is looked up and the policy asked.
unfoldable pub authorize :
    List SecretRow
    → (String → String → String → Bool)
    → VerifiedGrant
    → String
    → String
    → Result SecretRow
unfolding read_classification
authorize rows has_acl g secret_id action = do
  row ← or_raise (select_one (λ r. str_eq r.id secret_id) rows) key_error
  require g row.kind (read_classification row) row.owner_user_id
      (has_acl secret_id g.subject action)
  ok row
