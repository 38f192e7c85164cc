-- ===== src/Copiers/Provisioning/Holders.antt =====
-- copiers/provisioning.py: a code that two people hold is given to neither.
use mathlib.Core.Path.{subst}
use printops.Prelude.{
  ℕ, String, Bool, Option, List, [], ◌∷◌, ◌≡◌, ◌∙◌, ap, arith, inl, inr, ◌==◌, str_eq,
  if◌then◌else◌, filter, Bool-cases, eq_iff,
}
use printops.Copiers.OrgUnits.{
  WorkspaceSettings, resolve_copier_identity_org_units, device_provisioning_scope,
}
use printops.Copiers.Provisioning.{
  Identity, DirectoryUser, holders, held_once, scoped, or_type, build_provisioning_plan,
}

-- Filtering by a test of the value keeps the holders of a value, or drops them all.
holders-filter :
    (test : String → Bool) (value : String) (xs : List Identity)
    → holders value (filter (λ i. test i.identity_value) xs)
      ≡ (if test value then holders value xs else 0)
holders-filter test value [] = ground arith
holders-filter test value (i ∷ xs) =
    let ih = holders-filter test value xs in
    elim (Bool-cases (str_eq value i.identity_value)) [
      | inl e ↦ let t = ap test ((eq_iff value i.identity_value).0 e) in ground arith
      | inr n ↦ ground arith
    ]

module _ (lower : String → String) where
  -- Of every code, the plan of a copier has one identity row if exactly one identity row in its scope has the code, and
  -- none if two or more have it, be they of one person, or none has it.
  pub build_provisioning_plan-holders :
      (settings : WorkspaceSettings) (auto_type : String) (device_paths : Option (List (List ℕ)))
      (identity_type : Option String) (users : List DirectoryUser) (identities : List Identity)
      (value : String) (scope : List (List ℕ) × List (List ℕ))
      → scope
        ≡ device_provisioning_scope device_paths
            (resolve_copier_identity_org_units settings).0
            (resolve_copier_identity_org_units settings).1
      → holders value
          (build_provisioning_plan lower settings auto_type device_paths identity_type users
            identities).identities
        ≡ (if holders value (
                scoped lower users scope.0 scope.1 (
                  filter
                    (λ i. str_eq (or_type lower identity_type auto_type) i.identity_type)
                    identities))
              == 1
            then 1
            else 0)
  unfolding build_provisioning_plan
  build_provisioning_plan-holders settings auto_type device_paths identity_type users identities
        value scope e =
      let wanted =
        filter (λ (i : Identity). str_eq (or_type lower identity_type auto_type) i.identity_type)
          identities in
      subst
        (λ (s : List (List ℕ) × List (List ℕ)).
          holders value (held_once (scoped lower users s.0 s.1 wanted))
          ≡ (if holders value (scoped lower users scope.0 scope.1 wanted) == 1 then 1 else 0))
        e (once (scoped lower users scope.0 scope.1 wanted))
    where
      once :
          (xs : List Identity)
          → holders value (held_once xs) ≡ (if holders value xs == 1 then 1 else 0)
      once xs = holders-filter (λ w. holders w xs == 1) value xs ∙ ground arith
