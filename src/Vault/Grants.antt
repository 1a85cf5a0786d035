-- ===== src/Vault/Grants.antt =====
-- src/zhixu_vault/grants.py: a capability grant is verified against its exact binding, and its nonce
-- is consumed. Outside the model are base64, JSON, SHA-256 and Ed25519: parameters of `Codec`.
pub mod Nonce
use zhixu.Prelude.{
  ℕ, zero, suc, ◌+◌, ◌-◌, ◌*◌, ◌/◌, ◌%◌, ◌≤◌, ◌<◌, max, String, ◌≡◌, refl, sym, ap, ◌∙◌, ◌≢◌, ◌⊎◌,
  inl, inr, Bool, true, false, not, ◌&&◌, ◌||◌, Option, none, some, List, [], ◌∷◌, ◌++◌, map, arith,
  eq_iff, ltb, leb, ◌==◌, if◌then◌else◌, ltb→lt, leb→le, Bool-cases, Option-cases, length, any, all,
  All, length-append, str_eq, codes, is_space, is_blank, text_length, prefix, str_leb, str_mem,
  str_leb_total, str_leb_trans, str_leb_refl, str_eq_comm, str_eq_refl,
}
use zhixu.Prelude.Result.{
  Error, Result, ok, err, ◌>>=◌, ◌>>◌, raise_if, or_raise, >>=-eq-ok, >>-eq-ok, validation_error,
  not_found, conflict, concurrency_conflict, permission_denied, confirmation_required,
  classification_not_supported, invalid_transition, llm_unavailable, llm_budget_exceeded,
  invalid_model_output, value_error, key_error, permission_error, runtime_error, type_error,
  integrity_error, assertion_error,
}
use zhixu.Prelude.Table.{In}
use zhixu.Domain.Time.{DateTime}

-- What `json.loads` gives for a member of the payload. Of a value that is neither null nor a text
-- the code asks whether it is truthy, and its `str`.
pub data JsonValue : Type 0 where
  null : JsonValue
  text : String → JsonValue
  other : Bool → String → JsonValue

abbrev pub Payload : Type 0
Payload = List (String × JsonValue)

-- The libraries that the verifier calls, each with the failures it raises as none or as false.
pub record Codec (Bytes : Type 0) (Key : Type 0) : Type 0 where
  pub decode : String → Option Bytes
  pub loads : Bytes → Option Payload
  pub fromisoformat : String → Option DateTime
  pub verify : Key → Bytes → Bytes → Bool
  pub sha256 : String → String

pub record VerifiedGrant : Type 0 where
  pub issuer : String
  pub subject : String
  pub secret_id : String
  pub action : String
  pub audience : String
  pub expires_at : DateTime
  pub authentication : String

-- A row of the table `grant_nonces`, whose key is the hash.
pub record GrantNonce : Type 0 where
  pub nonce_hash : String
  pub subject : String
  pub secret_id : String
  pub action : String
  pub expires_at : ℕ
  pub consumed_at : ℕ

-- `str(value)`
abbrev pub shown : JsonValue → String
shown null = "None"
shown (text s) = s
shown (other b s) = s

-- `str(value or "")`
abbrev pub shown_or_empty : JsonValue → String
shown_or_empty null = ""
shown_or_empty (text s) = s
shown_or_empty (other true s) = s
shown_or_empty (other false s) = ""

-- `payload.get(name)`: None for a missing member.
unfoldable pub get : String → Payload → JsonValue
get name [] = null
get name ((k, v) ∷ kvs) = let rest = get name kvs in if str_eq k name then v else rest

-- `payload[name]`: a KeyError for a missing member.
unfoldable pub item : String → Payload → Option JsonValue
item name [] = none
item name ((k, v) ∷ kvs) = let rest = item name kvs in if str_eq k name then some v else rest

unfoldable pub split_at : ℕ → String → Option (String × String)
split_at c String.[] = none
split_at c (String.◌∷◌ d s) =
    let rest = split_at c s in
    if Prim.Native.Char.code d == c
    then some (String.[], s)
    else elim rest [ none ↦ none | some (a, b) ↦ some (String.◌∷◌ d a, b) ]

-- `token.split(".", 1)` into two parts.
abbrev pub split_dot : String → Option (String × String)
split_dot token = split_at 46 token

module _ {Bytes : Type 0} {Key : Type 0} (codec : Codec Bytes Key) where
  -- The body of the `try`: any failure is raised again as a PermissionError.
  unfoldable pub read_signed : (String → Option Key) → String → Result (Payload × String × DateTime)
  unfolding split_at item
  read_signed issuers token = do
    (payload_part, signature_part) ← or_raise (split_dot token) permission_error
    payload_bytes ← or_raise (codec.decode payload_part) permission_error
    signature ← or_raise (codec.decode signature_part) permission_error
    payload ← or_raise (codec.loads payload_bytes) permission_error
    issuer ← or_raise (item "issuer" payload) permission_error
    public_key ← or_raise (issuers (shown issuer)) permission_error
    raise_if (not (codec.verify public_key signature payload_bytes)) permission_error
    expires ← or_raise (item "expires_at" payload) permission_error
    expires_at ← or_raise (codec.fromisoformat (shown expires)) permission_error
    raise_if (not expires_at.aware) permission_error
    ok (payload, shown issuer, expires_at)

  -- The transaction: INSERT OR IGNORE on the hash of the nonce, and the count of its rows.
  unfoldable pub consume :
      List GrantNonce
      → Payload
      → String
      → String
      → String
      → DateTime
      → ℕ
      → Result (String × List GrantNonce)
  unfolding item
  consume nonces payload nonce secret_id action expires_at consumed_at = do
    subject ← or_raise (item "subject" payload) key_error
    raise_if (any (λ n. str_eq n.nonce_hash (codec.sha256 nonce)) nonces) permission_error
    ok (
      shown subject,
      nonces
          ++ record {
            nonce_hash = codec.sha256 nonce;
            subject = shown subject;
            secret_id = secret_id;
            action = action;
            expires_at = expires_at.instant;
            consumed_at = consumed_at;
          }
            ∷ [],
    )

  -- `verify_and_consume`, from the line that knows the payload.
  unfoldable pub check_payload :
      String
      → List GrantNonce
      → String
      → String
      → ℕ
      → ℕ
      → Payload × String × DateTime
      → Result (VerifiedGrant × List GrantNonce)
  unfolding get consume
  check_payload audience nonces secret_id action now consumed_at (payload, issuer, expires_at) = do
    raise_if (not (str_eq (shown (get "audience" payload)) audience)) permission_error
    raise_if (not (str_eq (shown (get "secret_id" payload)) secret_id)) permission_error
    raise_if (not (str_eq (shown (get "action" payload)) action)) permission_error
    raise_if (leb expires_at.instant now) permission_error
    raise_if (str_eq (shown_or_empty (get "nonce" payload)) "") permission_error
    (subject, after) ←
        consume nonces payload (shown_or_empty (get "nonce" payload)) secret_id action expires_at
          consumed_at
    ok (
      record {
        issuer = issuer;
        subject = subject;
        secret_id = secret_id;
        action = action;
        audience = audience;
        expires_at = expires_at;
        authentication = shown_or_empty (get "authentication" payload);
      },
      after,
    )

  -- `CapabilityGrantVerifier.verify_and_consume`, with the two readings of the clock.
  unfoldable pub verify_and_consume :
      (String → Option Key)
      → String
      → List GrantNonce
      → String
      → String
      → String
      → ℕ
      → ℕ
      → Result (VerifiedGrant × List GrantNonce)
  unfolding read_signed check_payload
  verify_and_consume issuers audience nonces token secret_id action now consumed_at = do
    signed ← read_signed issuers token
    check_payload audience nonces secret_id action now consumed_at signed
