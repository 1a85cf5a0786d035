-- ===== src/Tests/Vault.antt =====
-- Runs of the vault (src/zhixu_vault): a grant and its replay, and an audit log with a checkpoint.
-- The codec of these runs keeps the parts of a token as they are and accepts one signature; its
-- codes name the actor, the action and the code before.
use zhixu.Prelude.{
  ℕ, String, ◌≡◌, refl, inl, inr, true, Option, none, some, [], ◌∷◌, arith, eq_iff, if◌then◌else◌,
  str_eq,
}
use zhixu.Prelude.Result.{err, permission_error}
use zhixu.Prelude.Text.{is_blank, text_length}
use Prim.Native.String.{◌++◌ as append_text}
use zhixu.Domain.Time.{DateTime}
use zhixu.Vault.Grants.{Payload, Codec, VerifiedGrant, GrantNonce, text, verify_and_consume}
use zhixu.Vault.Grants.Nonce.{Attempt, check, run, replay_refused}
use zhixu.Vault.Policy.{
  VaultAction, Allows, require, human, human_secret, prohibited, l4_human_override, require-Allows,
}
use zhixu.Vault.Audit.{AuditEvent, AuditRow, Checkpoint, write_checkpoint, verify_checkpoint}
use zhixu.Vault.Audit.Chain.{NoCollision, first, checkpoint_pins}
use zhixu.Vault.Service.{NewSecret, SecretRow, create_granted}
use zhixu.Vault.Service.Creation.{Created, create_granted-Created}

abbrev expiry : DateTime
expiry = record { instant = 9000; aware = true }

abbrev claims : Payload
claims =
    ("issuer", text "zhixu")
    ∷ ("subject", text "alice")
    ∷ ("secret_id", text "s1")
    ∷ ("action", text "reveal")
    ∷ ("audience", text "vault")
    ∷ ("nonce", text "n-1")
    ∷ ("expires_at", text "soon")
    ∷ ("authentication", text "step_up")
    ∷ []

abbrev codec : Codec String String
codec = record {
  decode = λ s. some s;
  loads = λ b. if str_eq b "payload" then some claims else none;
  fromisoformat = λ s. if str_eq s "soon" then some expiry else none;
  verify = λ key signature b. str_eq signature "signed";
  sha256 = λ s. s;
}

abbrev issuers : String → Option String
issuers name = if str_eq name "zhixu" then some "key" else none

abbrev asked : Attempt
asked = record {
  token = "payload.signed";
  secret_id = "s1";
  action = "reveal";
  now = 100;
  consumed_at = 101;
}

abbrev given : VerifiedGrant
given = record {
  issuer = "zhixu";
  subject = "alice";
  secret_id = "s1";
  action = "reveal";
  audience = "vault";
  expires_at = expiry;
  authentication = "step_up";
}

abbrev spent : GrantNonce
spent = record {
  nonce_hash = "n-1";
  subject = "alice";
  secret_id = "s1";
  action = "reveal";
  expires_at = 9000;
  consumed_at = 101;
}

replay_refused_example :
    check codec issuers "vault"
      (run codec issuers "vault" (spent ∷ []) (asked ∷ []))
      (record asked { secret_id = "s2" })
    ≡ err permission_error
unfolding verify_and_consume
replay_refused_example =
    replay_refused codec issuers "vault" [] asked given (spent ∷ []) (asked ∷ [])
      (record asked { secret_id = "s2" }) refl refl

require-Allows_example :
    (action : VaultAction) × Allows action given human l4_human_override "alice" true
unfolding require
require-Allows_example = require-Allows given human l4_human_override "alice" true refl

abbrev event_of : String → String → AuditEvent
event_of actor action = record {
  occurred_at = 7;
  actor = actor;
  action = action;
  secret_id = "s1";
  outcome = "ok";
  reason_code = "";
}

abbrev mac : AuditEvent → String → String
mac e previous = append_text e.actor (append_text e.action previous)

abbrev checkpoint_code : ℕ → String → ℕ → String
checkpoint_code n head t = append_text "checkpoint" head

abbrev first_row : AuditRow
first_row = record { event = event_of "alice" "use"; previous_mac = ""; event_mac = "aliceuse" }

abbrev second_row : AuditRow
second_row = record {
  event = event_of "bob" "use";
  previous_mac = "aliceuse";
  event_mac = "bobusealiceuse";
}

abbrev kept : Checkpoint
kept = record {
  sequence = 1;
  head_event_mac = "aliceuse";
  created_at = 50;
  checkpoint_mac = "checkpointaliceuse";
}

rows-NoCollision : NoCollision (first_row ∷ []) (first_row ∷ second_row ∷ [])
rows-NoCollision r s (inl a) (inl b) e = rw a (rw b (refl, refl))
rows-NoCollision r s (inl a) (inr (inl b)) e =
    absurd (ground (arith, eq_iff "aliceuse" "bobusealiceuse"))
rows-NoCollision r s (inl a) (inr (inr z)) e = absurd z
rows-NoCollision r s (inr z) j e = absurd z

checkpoint_pins_example : first 1 (first_row ∷ second_row ∷ []) ≡ first_row ∷ []
unfolding write_checkpoint verify_checkpoint
checkpoint_pins_example =
    checkpoint_pins mac checkpoint_code (first_row ∷ []) (first_row ∷ second_row ∷ [])
      (record { instant = 50; aware = true }) 90 kept refl (omega arith) refl rows-NoCollision

abbrev new_secret : NewSecret
new_secret = record {
  secret_id = "s1";
  owner_user_id = "alice";
  label = "recovery phrase";
  kind = human;
  value = "words";
  classification = some prohibited;
  policy_override = some "owner_explicit_human_storage";
}

abbrev new_row : SecretRow
new_row = record {
  id = "s1";
  owner_user_id = "alice";
  label = "recovery phrase";
  kind = human;
  classification = human_secret;
  policy_override = some "owner_explicit_human_storage";
  version = 1;
}

create_granted-Created_example :
    Created new_secret new_row
    × (new_row.owner_user_id ≡ given.subject)
    × (given.authentication ≡ "step_up")
unfolding create_granted is_blank text_length
create_granted-Created_example = create_granted-Created new_secret given new_row refl
