-- ===== src/Vault/Service/Creation.antt =====
-- What a created secret allows later, by the policy of the vault (src/zhixu_vault/service.py).
use zhixu.Prelude.{
  String, ◌≡◌, refl, ◌≢◌, ◌⊎◌, inl, inr, Bool, true, false, Option, none, some, List, arith, eq_iff,
  str_eq,
}
use zhixu.Prelude.Result.{ok}
use zhixu.Prelude.Result.{Result-cases}
use zhixu.Prelude.Table.{In, select_one}
use zhixu.Vault.Grants.{VerifiedGrant}
use zhixu.Vault.Policy.{
  VaultClassification, SecretKind, VaultAction, machine, human, machine_secret, human_secret,
  l4_human_override, prohibited, use', grant, reveal, require, Allows, action_value,
  require_of_Allows,
}
use zhixu.Vault.Service.{
  NewSecret, SecretRow, read_classification, is_given, is_owner_override, selected, stored,
  mismatch, create_secret, create_granted, authorize, owner_actions,
}

-- What `stored` gives, after the check that kind and classification agree.
record Stored (c : VaultClassification) (k : SecretKind) (d : VaultClassification)
    (o : Option String) : Type 0 where
  agrees : ((k ≡ machine) × (d ≡ machine_secret)) ⊎ ((k ≡ human) × (d ≡ human_secret))
  guarded : c ≡ prohibited → (k ≡ human) × (is_owner_override o ≡ true)
  plain : c ≢ prohibited → o ≡ none

stored-Stored :
    (c : VaultClassification) (k : SecretKind) (p : Option String) (d : VaultClassification)
    (o : Option String)
    → stored c k p ≡ ok (d, o)
    → mismatch k d ≡ false
    → Stored c k d o
unfolding stored mismatch
stored-Stored prohibited machine p d o h m = cc
stored-Stored prohibited human p d o h m = record {
  agrees = ground arith;
  guarded = λ e. (refl, ground arith);
  plain = λ e. absurd (e refl);
}
stored-Stored l4_human_override k p d o h m = cc
stored-Stored machine_secret machine p d o h m = ground arith
stored-Stored machine_secret human p d o h m = ground arith
stored-Stored human_secret machine p d o h m = ground arith
stored-Stored human_secret human p d o h m = ground arith

override-read :
    (row : SecretRow)
    → is_owner_override row.policy_override ≡ true
    → read_classification row ≡ l4_human_override
unfolding read_classification
override-read row h = ground arith

plain-read :
    (row : SecretRow) → row.policy_override ≡ none → read_classification row ≡ row.classification
unfolding read_classification
plain-read row h = rw h refl

-- A row that `create_secret` makes: its kind and its classification agree, and it stands under the
-- owner's override exactly if it was asked for as prohibited data.
pub record Created (n : NewSecret) (row : SecretRow) : Type 0 where
  pub agrees :
      ((row.kind ≡ machine) × (row.classification ≡ machine_secret))
      ⊎ ((row.kind ≡ human) × (row.classification ≡ human_secret))
  pub guarded :
      selected n ≡ prohibited → (row.kind ≡ human) × (is_owner_override row.policy_override ≡ true)
  pub plain : selected n ≢ prohibited → row.policy_override ≡ none

create_secret-eq-ok :
    (n : NewSecret) (authentication : String) (row : SecretRow)
    → create_secret n authentication ≡ ok row
    → Stored (selected n) row.kind row.classification row.policy_override
      × (row.owner_user_id ≡ n.owner_user_id)
      × (authentication ≡ "step_up")
unfolding create_secret
create_secret-eq-ok n authentication row h =
    elim (Result-cases (stored (selected n) n.kind n.policy_override)) [
      | inl (e, s) ↦ absurd (ground arith)
      | inr ((d, o), s) ↦
          let f = stored-Stored (selected n) n.kind n.policy_override d o s (ground arith) in
          let k : row.kind ≡ n.kind = ground arith in
          let c : row.classification ≡ d = ground arith in
          let p : row.policy_override ≡ o = ground arith in
          (rw k (rw c (rw p f)), ground arith, ground (arith, eq_iff authentication "step_up"))
    ]

-- The secret that is created with a grant belongs to the subject of the grant, who has stepped up;
-- its kind and classification agree, and it stands under the owner's override if it was asked for as
-- prohibited data, and under none otherwise.
pub create_granted-Created :
    (n : NewSecret) (g : VerifiedGrant) (row : SecretRow)
    → create_granted n g ≡ ok row
    → Created n row × (row.owner_user_id ≡ g.subject) × (g.authentication ≡ "step_up")
unfolding create_granted
create_granted-Created n g row h =
    let (s, o, a) = create_secret-eq-ok n g.authentication row (ground arith) in
    (
      record { agrees = s.agrees; guarded = s.guarded; plain = s.plain },
      ground (arith, eq_iff g.subject n.owner_user_id),
      a,
    )

-- Which actions the access list can give.
record Fits (row : SecretRow) (action : VaultAction) : Type 0 where
  revealed : action ≡ reveal → row.kind ≡ human
  used : action ≡ use' → row.kind ≡ machine
  shared : action ≡ grant → is_given row.policy_override ≡ false

owner_actions-Fits :
    (row : SecretRow) (action : VaultAction) → In action (owner_actions row) → Fits row action
unfolding owner_actions
owner_actions-Fits row action i = record {
  revealed = ground arith;
  used = ground arith;
  shared = ground arith;
}

prohibited-cases : (c : VaultClassification) → (c ≡ prohibited) ⊎ (c ≢ prohibited)
prohibited-cases prohibited = inl refl
prohibited-cases machine_secret = inr (λ e. cc)
prohibited-cases human_secret = inr (λ e. cc)
prohibited-cases l4_human_override = inr (λ e. cc)

-- A row is read under the override, of a human secret; or it has none and is read as neither.
Created-read :
    (n : NewSecret) (row : SecretRow)
    → Created n row
    → ((row.kind ≡ human) × (is_given row.policy_override ≡ true))
      ⊎ (read_classification row ≢ l4_human_override)
Created-read n row c = elim (prohibited-cases (selected n)) [
  | inl y ↦ inl ((c.guarded y).0, ground (arith, c.guarded y))
  | inr k ↦ inr (λ e. ground (arith, plain-read row (c.plain k), c.agrees))
]

owner_actions-Allows :
    (n : NewSecret) (g h : VerifiedGrant) (row : SecretRow) (action : VaultAction)
    → create_granted n g ≡ ok row
    → In action (owner_actions row)
    → h.action ≡ action_value action
    → h.subject ≡ row.owner_user_id
    → h.authentication ≡ "step_up"
    → require h row.kind (read_classification row) row.owner_user_id true ≡ ok tt
owner_actions-Allows n g h row action c i a s t =
    let f = owner_actions-Fits row action i in
    let allowed : Allows action h row.kind (read_classification row) row.owner_user_id true =
      record {
        named = a;
        listed = refl;
        owner_only = λ e. elim (Created-read n row (create_granted-Created n g row c).0) [
          | inl (k, o) ↦ (k, s, (λ u. ground (arith, f.used u)), (λ u. ground (arith, f.shared u)))
          | inr x ↦ absurd (x e)
        ];
        revealed = λ e. (f.revealed e, t);
        used = λ e. f.used e;
        changed = λ e. t;
        exported = λ e. t;
        shared = λ e. t;
      } in
    require_of_Allows action h row.kind (read_classification row) row.owner_user_id true allowed

-- An owner who presents a stepped-up grant for an action is authorized for it on a secret that was
-- created and is found under its id, if the action is one that the creation put on the access list
-- and the list has it.
pub owner_actions-authorize :
    (n : NewSecret) (g h : VerifiedGrant) (row : SecretRow) (action : VaultAction)
    (rows : List SecretRow) (has_acl : String → String → String → Bool)
    → create_granted n g ≡ ok row
    → In action (owner_actions row)
    → h.action ≡ action_value action
    → h.subject ≡ row.owner_user_id
    → h.authentication ≡ "step_up"
    → select_one (λ r. str_eq r.id row.id) rows ≡ some row
    → has_acl row.id h.subject (action_value action) ≡ true
    → authorize rows has_acl h row.id (action_value action) ≡ ok row
unfolding authorize
owner_actions-authorize n g h row action rows has_acl c i a s t found listed =
    let allowed = owner_actions-Allows n g h row action c i a s t in
    rw found (rw listed (rw allowed refl))
