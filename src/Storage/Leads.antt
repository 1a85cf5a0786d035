-- ===== src/Storage/Leads.antt =====
-- `NotificationLeadRepository` of src/zhixu/adapters/storage/sqlite/repositories.py: how long before an
-- occurrence its owner is told. A text of minutes is the list that it stands for.
use zhixu.Prelude.{
  ℕ, String, Bool, not, ◌&&◌, Option, none, some, List, [], ◌∷◌, ◌++◌, if◌then◌else◌, any, str_eq,
  str_mem,
}
use zhixu.Prelude.Result.{Result, ok, ◌>>=◌, ◌>>◌, raise_if, integrity_error}
use zhixu.Prelude.Int.{ℤ, pos}
use zhixu.Prelude.Table.{select_one, update_where, delete_where}
use zhixu.Domain.Time.{DateTime, require_aware}
use zhixu.Domain.Leads.{normalise_lead_minutes}

-- A row of `notification_lead_defaults`.
pub record LeadDefault : Type 0 where
  pub owner_user_id : String
  pub lead_minutes : List ℤ
  pub updated_at : ℕ

-- A row of `agenda_notification_leads`.
pub record LeadOverride : Type 0 where
  pub agenda_item_id : String
  pub owner_user_id : String
  pub lead_minutes : List ℤ
  pub updated_at : ℕ

-- Both tables, with the ids that their foreign keys may name.
pub record Leads : Type 0 where
  pub users : List String
  pub agenda_items : List String
  pub defaults : List LeadDefault
  pub overrides : List LeadOverride

-- `DEFAULT_NOTIFICATION_LEAD_MINUTES`
abbrev pub default_minutes : List ℤ
default_minutes = pos 1440 ∷ pos 360 ∷ pos 60 ∷ pos 30 ∷ pos 1 ∷ pos 0 ∷ []

abbrev pub of_owner : String → LeadDefault → Bool
of_owner owner row = str_eq row.owner_user_id owner

abbrev pub of_item : String → LeadOverride → Bool
of_item id row = str_eq row.agenda_item_id id

abbrev minutes_of : Option LeadDefault → Option (List ℤ)
minutes_of none = none
minutes_of (some row) = some row.lead_minutes

abbrev override_minutes : Option LeadOverride → Option (List ℤ)
override_minutes none = none
override_minutes (some row) = some row.lead_minutes

-- `NotificationLeadRepository.default_for`
unfoldable pub default_for : Leads → String → Option (List ℤ)
unfolding select_one
default_for s owner = minutes_of (select_one (of_owner owner) s.defaults)

-- `NotificationLeadRepository.override_for`
unfoldable pub override_for : Leads → String → Option (List ℤ)
unfolding select_one
override_for s id = override_minutes (select_one (of_item id) s.overrides)

-- `NotificationLeadRepository.set_default`: the row of the owner is written anew, or added.
unfoldable pub set_default : Leads → String → List ℤ → DateTime → Result (List ℤ × Leads)
unfolding normalise_lead_minutes require_aware update_where
set_default s owner minutes now = do
  leads ← normalise_lead_minutes minutes
  require_aware now
  if any (of_owner owner) s.defaults
      then ok (
        leads,
        record s {
          defaults =
              update_where (of_owner owner)
                (λ row. record row { lead_minutes = leads; updated_at = now.instant }) s.defaults;
        },
      )
      else do
        raise_if (not (str_mem owner s.users)) integrity_error
        ok (
          leads,
          record s {
            defaults =
                s.defaults
                ++ record { owner_user_id = owner; lead_minutes = leads; updated_at = now.instant }
                  ∷ [];
          },
        )

-- `NotificationLeadRepository.set_override`
unfoldable pub set_override : Leads → String → String → List ℤ → DateTime → Result (List ℤ × Leads)
unfolding normalise_lead_minutes require_aware update_where
set_override s id owner minutes now = do
  leads ← normalise_lead_minutes minutes
  require_aware now
  if any (of_item id) s.overrides
      then ok (
        leads,
        record s {
          overrides =
              update_where (of_item id)
                (λ row. record row { lead_minutes = leads; updated_at = now.instant }) s.overrides;
        },
      )
      else do
        raise_if (not (str_mem owner s.users && str_mem id s.agenda_items)) integrity_error
        ok (
          leads,
          record s {
            overrides =
                s.overrides
                ++ record {
                  agenda_item_id = id;
                  owner_user_id = owner;
                  lead_minutes = leads;
                  updated_at = now.instant;
                }
                  ∷ [];
          },
        )

-- `NotificationLeadRepository.clear_override`
unfoldable pub clear_override : Leads → String → Leads
unfolding delete_where
clear_override s id = record s { overrides = delete_where (of_item id) s.overrides }

abbrev or_default : Option (List ℤ) → List ℤ
or_default none = default_minutes
or_default (some minutes) = minutes

-- `NotificationLeadRepository.resolve`
unfoldable pub resolve : Leads → String → String → List ℤ
unfolding override_for default_for
resolve s id owner = elim (override_for s id) [
  | some minutes ↦ minutes
  | none ↦ or_default (default_for s owner)
]
