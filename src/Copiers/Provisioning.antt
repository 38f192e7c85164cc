-- ===== src/Copiers/Provisioning.antt =====
-- copiers/provisioning.py: the accounts that a copier should have.
-- A table is the list of its rows; the identities are in the order of their emails.
pub mod Holders
use printops.Prelude.{
  ℕ, zero, suc, ◌+◌, String, Bool, true, false, not, ◌&&◌, Option, none, some, List, [], ◌∷◌, ◌==◌,
  str_eq, if◌then◌else◌, filter, length,
}
use printops.Copiers.OrgUnits.{
  WorkspaceSettings, resolve_copier_identity_org_units, device_provisioning_scope,
  org_unit_included,
}

-- models/staff_copier_identity.py, as far as it is read
pub record Identity : Type 0 where
  pub id : ℕ
  pub staff_email : String
  pub identity_type : String
  pub identity_value : String

-- A row of the synced directory.
pub record DirectoryUser : Type 0 where
  pub email : String
  pub org_unit_path : Option (List ℕ)

pub record ProvisioningPlan : Type 0 where
  pub identities : List Identity
  pub org_unit_paths : List (List ℕ)
  pub excluded_org_unit_paths : List (List ℕ)
  pub skipped_no_org_unit : ℕ

abbrev pub has_value : String → Identity → Bool
has_value value i = str_eq value i.identity_value

-- `Counter(identity.identity_value for identity in in_scope)[value]`
abbrev pub holders : String → List Identity → ℕ
holders value in_scope = length (filter (has_value value) in_scope)

abbrev pub held_once : List Identity → List Identity
held_once in_scope = filter (λ i. holders i.identity_value in_scope == 1) in_scope

-- `lower` is `str.lower`.
module _ (lower : String → String) where
  -- `org_unit_by_email.get(email.lower())`: the last row of an email decides.
  unfoldable pub org_unit_of : String → List DirectoryUser → Option (List ℕ) → Option (List ℕ)
  org_unit_of email [] found = found
  org_unit_of email (u ∷ users) found =
      org_unit_of email users
        (if str_eq (lower u.email) (lower email) then u.org_unit_path else found)

  -- One turn of the loop, on what the directory knows.
  abbrev pub is_in_scope : List DirectoryUser → List (List ℕ) → List (List ℕ) → Identity → Bool
  is_in_scope users includes excludes i = elim (org_unit_of i.staff_email users none) [
    | none ↦ false
    | some path ↦ org_unit_included (some path) includes excludes
  ]

  abbrev pub is_unknown : List DirectoryUser → Identity → Bool
  is_unknown users i = elim (org_unit_of i.staff_email users none) [
    | none ↦ true
    | some path ↦ false
  ]

  unfoldable pub scoped :
      List DirectoryUser → List (List ℕ) → List (List ℕ) → List Identity → List Identity
  unfolding org_unit_of org_unit_included
  scoped users includes excludes identities =
      filter (is_in_scope users includes excludes) identities

  -- `identity_type or settings.auto_copier_identity_type`
  abbrev pub or_type : Option String → String → String
  or_type none auto = auto
  or_type (some t) auto = if str_eq t "" then auto else t

  abbrev pub plan_for :
      List DirectoryUser → List Identity → List (List ℕ) × List (List ℕ) → ProvisioningPlan
  plan_for users identities (includes, excludes) = record {
    identities = held_once (scoped users includes excludes identities);
    org_unit_paths = includes;
    excluded_org_unit_paths = excludes;
    skipped_no_org_unit = length (filter (is_unknown users) identities);
  }

  unfoldable pub build_provisioning_plan :
      WorkspaceSettings
      → (auto_type : String) → (device_paths : Option (List (List ℕ))) → Option String
      → List DirectoryUser
      → List Identity
      → ProvisioningPlan
  unfolding scoped org_unit_of resolve_copier_identity_org_units device_provisioning_scope
  build_provisioning_plan settings auto_type device_paths identity_type users identities =
      let (org_includes, org_excludes) = resolve_copier_identity_org_units settings in
      plan_for users
        (filter (λ i. str_eq (or_type identity_type auto_type) i.identity_type) identities)
        (device_provisioning_scope device_paths org_includes org_excludes)
