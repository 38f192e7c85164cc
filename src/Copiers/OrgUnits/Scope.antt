-- ===== src/Copiers/OrgUnits/Scope.antt =====
-- copiers/device_admin.py: the scope of a device against the scope of the organisation.
use mathlib.Core.Path.{subst}
use printops.Prelude.{
  ℕ, true, false, Option, some, List, [], ◌∷◌, ◌≡◌, ◌∙◌, inl, inr, sym, ap, arith, any, Bool-cases,
  branch_true, branch_false,
}
use printops.Copiers.OrgUnits.{
  path_matches, org_unit_matches, org_unit_included, is_empty, non_empty, allowed,
  device_provisioning_scope,
}
use printops.Copiers.OrgUnits.Nested.{path_matches_trans}

any-matches_trans :
    (u d : List ℕ) (includes : List (List ℕ))
    → path_matches u d ≡ true
    → any (path_matches d) includes ≡ true
    → any (path_matches u) includes ≡ true
any-matches_trans u d [] h k = cc
any-matches_trans u d (a ∷ includes) h k = elim (Bool-cases (path_matches d a)) [
  | inl e ↦ let t = path_matches_trans u d a h e in ground arith
  | inr e ↦ let t = any-matches_trans u d includes h (ground arith) in ground arith
]

-- What a path of the narrowed list matches, the organisation's list matches as well.
any-allowed :
    (u : List ℕ) (device_paths includes : List (List ℕ))
    → any (path_matches u) (allowed device_paths includes) ≡ true
    → any (path_matches u) includes ≡ true
any-allowed u [] includes h = cc
any-allowed u (d ∷ device_paths) includes h = elim (Bool-cases (any (path_matches d) includes)) [
  | inr e ↦
      any-allowed u device_paths includes
        (subst (λ l. any (path_matches u) l ≡ true) (branch_false _ _ _ e) h)
  | inl e ↦ elim (Bool-cases (path_matches u d)) [
    | inl m ↦ any-matches_trans u d includes m e
    | inr n ↦ any-allowed u device_paths includes (
        let k =
          subst (λ l. any (path_matches u) l ≡ true)
            (branch_true _ (d ∷ allowed device_paths includes) _ e) h in
        ground arith)
  ]
]

-- A filter that is open under the excludes, on the includes of the narrowed scope.
included-allowed :
    (u : List ℕ) (device_paths includes excludes : List (List ℕ))
    → is_empty (allowed device_paths includes) ≡ false
    → is_empty includes ≡ false
    → org_unit_included (some u) (allowed device_paths includes) excludes ≡ true
    → org_unit_included (some u) includes excludes ≡ true
unfolding org_unit_included
included-allowed u device_paths includes excludes some_allowed filtered h =
    let k = any-allowed u device_paths includes in
    elim (Bool-cases (any (path_matches u) excludes)) [
      | inl e ↦ ground arith
      | inr e ↦
          branch_false _ _ _ e
          ∙ (branch_false _ _ _ filtered
              ∙ k (sym (branch_false _ _ _ e ∙ branch_false _ _ _ some_allowed) ∙ h))
    ]

-- The list of a copier never lets in a unit that the organisation's lists keep out, provided that it has a path that the
-- organisation's filter allows.
device_provisioning_scope-narrows :
    (device_paths : Option (List (List ℕ))) (includes excludes : List (List ℕ)) (u : List ℕ)
    → is_empty includes ≡ false
    → is_empty (allowed (non_empty device_paths) includes) ≡ false
    → org_unit_included
        (some u)
        (device_provisioning_scope device_paths includes excludes).0
        (device_provisioning_scope device_paths includes excludes).1
      ≡ true
    → org_unit_included (some u) includes excludes ≡ true
unfolding device_provisioning_scope
device_provisioning_scope-narrows device_paths includes excludes u filtered some_allowed h =
    elim (Bool-cases (is_empty (non_empty device_paths))) [
      | inl e ↦ subst included (branch_true _ _ _ e) h
      | inr e ↦
          included-allowed u (non_empty device_paths) includes excludes some_allowed filtered
            (subst included (branch_false _ _ _ e ∙ branch_false _ _ _ filtered) h)
    ]
  where
    included : List (List ℕ) × List (List ℕ) → Type 0
    included s = org_unit_included (some u) s.0 s.1 ≡ true

-- A copier whose paths are all outside the organisation's filter is in the scope of everybody whom the organisation does
-- not exclude, also of those whom its filter keeps out.
pub device_provisioning_scope-widens :
    (device_paths : Option (List (List ℕ))) (includes excludes : List (List ℕ))
    (u : Option (List ℕ))
    → is_empty (non_empty device_paths) ≡ false
    → is_empty includes ≡ false
    → allowed (non_empty device_paths) includes ≡ []
    → any (org_unit_matches u) excludes ≡ false
    → org_unit_included u
        (device_provisioning_scope device_paths includes excludes).0
        (device_provisioning_scope device_paths includes excludes).1
      ≡ true
unfolding device_provisioning_scope org_unit_included
device_provisioning_scope-widens device_paths includes excludes u narrowed filtered nothing kept =
    subst (λ (s : List (List ℕ) × List (List ℕ)). org_unit_included u s.0 s.1 ≡ true)
      (sym (
        branch_false _ _ _ narrowed
        ∙ (branch_false _ _ _ filtered ∙ ap (λ l. (l, excludes)) nothing)))
      (branch_false _ _ _ kept)
