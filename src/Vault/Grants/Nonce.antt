-- ===== src/Vault/Grants/Nonce.antt =====
-- What a verified grant of src/zhixu_vault/grants.py stands for, and the one use of its nonce.
use zhixu.Prelude.{
  ℕ, ◌<◌, String, ◌≡◌, refl, ◌≢◌, inl, inr, Bool, true, false, Option, some, List, [], ◌∷◌, ◌++◌,
  arith, eq_iff, Option-cases, any, str_eq,
}
use zhixu.Prelude.Result.{Result-cases, Result, ok, err, >>=-eq-ok, permission_error}
use zhixu.Domain.Time.{DateTime}
use zhixu.Vault.Grants.{
  JsonValue, Payload, Codec, VerifiedGrant, GrantNonce, shown, shown_or_empty, get, item,
  read_signed, consume, check_payload, verify_and_consume,
}

-- A presentation of a token to the verifier, with the two readings of the clock.
pub record Attempt : Type 0 where
  pub token : String
  pub secret_id : String
  pub action : String
  pub now : ℕ
  pub consumed_at : ℕ

abbrev pub is_hash : String → GrantNonce → Bool
is_hash h n = str_eq n.nonce_hash h

any-append_left :
    {A : Type 0} (p : A → Bool) (xs ys : List A) → any p xs ≡ true → any p (xs ++ ys) ≡ true
any-append_left p [] ys h = cc
any-append_left p (x ∷ xs) ys h = ground (arith, any-append_left p xs ys)

any-append_right :
    {A : Type 0} (p : A → Bool) (xs : List A) (a : A) → p a ≡ true → any p (xs ++ a ∷ []) ≡ true
any-append_right p [] a h = ground arith
any-append_right p (x ∷ xs) a h = ground (arith, any-append_right p xs a)

module _ {Bytes : Type 0} {Key : Type 0} (codec : Codec Bytes Key) (issuers : String → Option Key)
    (audience : String) where
  abbrev pub check : List GrantNonce → Attempt → Result (VerifiedGrant × List GrantNonce)
  check nonces a =
      verify_and_consume codec issuers audience nonces a.token a.secret_id a.action a.now
        a.consumed_at

  -- The table after an attempt: one that raises is rolled back.
  abbrev after_check : List GrantNonce → Result (VerifiedGrant × List GrantNonce) → List GrantNonce
  after_check nonces (ok (g, t)) = t
  after_check nonces (err e) = nonces

  unfoldable pub run : List GrantNonce → List Attempt → List GrantNonce
  unfolding verify_and_consume
  run nonces [] = nonces
  run nonces (a ∷ rest) = run (after_check nonces (check nonces a)) rest

  -- What stands behind a grant that the verifier returns.
  pub record Accepted (nonces : List GrantNonce) (a : Attempt) (g : VerifiedGrant)
      (after : List GrantNonce) : Type 0 where
    pub payload : Payload
    pub signed : read_signed codec issuers a.token ≡ ok (payload, g.issuer, g.expires_at)
    pub for_audience : shown (get "audience" payload) ≡ audience
    pub for_secret : shown (get "secret_id" payload) ≡ a.secret_id
    pub for_action : shown (get "action" payload) ≡ a.action
    pub grants_secret : g.secret_id ≡ a.secret_id
    pub grants_action : g.action ≡ a.action
    pub unexpired : a.now < g.expires_at.instant
    pub has_nonce : shown_or_empty (get "nonce" payload) ≢ ""
    pub has_subject : (v : JsonValue) × (item "subject" payload ≡ some v) × (g.subject ≡ shown v)
    pub fresh : any (is_hash (codec.sha256 (shown_or_empty (get "nonce" payload)))) nonces ≡ false
    pub recorded :
        (row : GrantNonce) × (after ≡ nonces ++ row ∷ [])
        × (row.nonce_hash ≡ codec.sha256 (shown_or_empty (get "nonce" payload)))

  consume-eq-ok :
      (nonces : List GrantNonce) (payload : Payload) (nonce secret_id action : String)
      (e : DateTime) (c : ℕ) (subject : String) (after : List GrantNonce)
      → consume codec nonces payload nonce secret_id action e c ≡ ok (subject, after)
      → ((v : JsonValue) × (item "subject" payload ≡ some v) × (subject ≡ shown v))
        × (any (is_hash (codec.sha256 nonce)) nonces ≡ false)
        × ((row : GrantNonce) × (after ≡ nonces ++ row ∷ [])
            × (row.nonce_hash ≡ codec.sha256 nonce))
  unfolding consume
  consume-eq-ok nonces payload nonce secret_id action e c subject after h =
      elim (Option-cases (item "subject" payload)) [
        | inl n ↦ absurd (cc)
        | inr (v, s) ↦ (
          (v, s, ground arith),
          ground arith,
          (
            record {
              nonce_hash = codec.sha256 nonce;
              subject = shown v;
              secret_id = secret_id;
              action = action;
              expires_at = e.instant;
              consumed_at = c;
            },
            ground arith,
            refl,
          ),
        )
      ]

  payload-Accepted :
      (nonces : List GrantNonce) (a : Attempt) (g : VerifiedGrant) (after : List GrantNonce)
      (payload : Payload) (issuer : String) (e : DateTime)
      → read_signed codec issuers a.token ≡ ok (payload, issuer, e)
      → check_payload codec audience nonces a.secret_id a.action a.now a.consumed_at
          (payload, issuer, e)
        ≡ ok (g, after)
      → Accepted nonces a g after
  unfolding check_payload
  payload-Accepted nonces a g after payload issuer e s h =
      let nonce = shown_or_empty (get "nonce" payload) in
      elim (Result-cases
        (consume codec nonces payload nonce a.secret_id a.action e a.consumed_at)) [
          | inl (x, n) ↦ absurd (ground arith)
          | inr ((subject, t), c) ↦
              let (has, free, row) =
                consume-eq-ok nonces payload nonce a.secret_id a.action e a.consumed_at subject t
                  c in
              record {
                payload = payload;
                signed = ground arith;
                for_audience = ground (arith, eq_iff (shown (get "audience" payload)) audience);
                for_secret = ground (arith, eq_iff (shown (get "secret_id" payload)) a.secret_id);
                for_action = ground (arith, eq_iff (shown (get "action" payload)) a.action);
                grants_secret = ground arith;
                grants_action = ground arith;
                unexpired = ground arith;
                has_nonce = ground (arith, eq_iff nonce "");
                has_subject = (has.0, has.1, ground arith);
                fresh = free;
                recorded = (row.0, ground arith, row.2);
              }
        ]

  -- A grant is returned only for a token that carries the signature of a known issuer, for the
  -- verifier's audience, the secret and the action that are asked for, before its expiry and with a
  -- nonce that no row of the table has; and the row of that nonce is then in the table.
  pub check-Accepted :
      (nonces : List GrantNonce) (a : Attempt) (g : VerifiedGrant) (after : List GrantNonce)
      → check nonces a ≡ ok (g, after)
      → Accepted nonces a g after
  unfolding verify_and_consume
  check-Accepted nonces a g after h =
      let ((payload, issuer, e), s, k) =
        >>=-eq-ok (read_signed codec issuers a.token)
          (check_payload codec audience nonces a.secret_id a.action a.now a.consumed_at) h in
      payload-Accepted nonces a g after payload issuer e s k

  present-keeps :
      (nonces : List GrantNonce) (a : Attempt) (h : String)
      → any (is_hash h) nonces ≡ true
      → any (is_hash h) (after_check nonces (check nonces a)) ≡ true
  present-keeps nonces a h k = elim (Result-cases (check nonces a)) [
    | inl (e, c) ↦ rw c k
    | inr ((g, t), c) ↦
        let (row, r, _) = (check-Accepted nonces a g t c).recorded in
        rw c (rw r (any-append_left (is_hash h) nonces (row ∷ []) k))
  ]

  run-keeps :
      (nonces : List GrantNonce) (later : List Attempt) (h : String)
      → any (is_hash h) nonces ≡ true
      → any (is_hash h) (run nonces later) ≡ true
  unfolding run
  run-keeps nonces [] h k = k
  run-keeps nonces (a ∷ rest) h k =
      run-keeps (after_check nonces (check nonces a)) rest h (present-keeps nonces a h k)

  -- The grant of a token whose nonce stands in the table is refused, whatever is asked with it.
  spent_refused :
      (nonces : List GrantNonce) (b : Attempt) (payload : Payload) (issuer : String) (e : DateTime)
      → read_signed codec issuers b.token ≡ ok (payload, issuer, e)
      → (v : JsonValue) × (item "subject" payload ≡ some v)
      → any (is_hash (codec.sha256 (shown_or_empty (get "nonce" payload)))) nonces ≡ true
      → check nonces b ≡ err permission_error
  unfolding verify_and_consume check_payload consume
  spent_refused nonces b payload issuer e s (v, q) k = rw s (ground arith)

  -- A token that was accepted is refused with a PermissionError when it is presented again, for any
  -- secret, action and time and whatever else was presented in between.
  pub replay_refused :
      (nonces : List GrantNonce) (a : Attempt) (g : VerifiedGrant) (after : List GrantNonce)
      (later : List Attempt) (again : Attempt)
      → check nonces a ≡ ok (g, after)
      → again.token ≡ a.token
      → check (run after later) again ≡ err permission_error
  replay_refused nonces a g after later again h k =
      let acc = check-Accepted nonces a g after h in
      let (row, r, n) = acc.recorded in
      let nonce = shown_or_empty (get "nonce" acc.payload) in
      let spent : any (is_hash (codec.sha256 nonce)) after ≡ true = rw r (
        any-append_right (is_hash (codec.sha256 nonce)) nonces row
          ((eq_iff row.nonce_hash (codec.sha256 nonce)).1 n)) in
      spent_refused (run after later) again acc.payload g.issuer g.expires_at (rw k acc.signed)
        (acc.has_subject.0, acc.has_subject.1) (run-keeps after later (codec.sha256 nonce) spent)
