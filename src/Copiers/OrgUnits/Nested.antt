-- ===== src/Copiers/OrgUnits/Nested.antt =====
-- integrations/google_workspace.py: a unit nested under a unit is nested under what contains that.
use mathlib.Core.Path.{subst}
use printops.Prelude.{
  ℕ, Bool, true, false, ◌||◌, List, [], ◌∷◌, ◌++◌, ◌≡◌, ◌⊎◌, inl, inr, refl, sym, arith, same_codes,
  same_codes_sound, Bool-cases,
}
use printops.QueueRecovery.Lpstat.{starts_with, strip}
use printops.Copiers.OrgUnits.{
  slash, or_root, normalize_org_unit_path, is_nested, is_root, path_matches, without_slashes,
  rooted,
}

starts_with_trans :
    (a b c : List ℕ) → starts_with a b ≡ true → starts_with b c ≡ true → starts_with a c ≡ true
unfolding starts_with
starts_with_trans [] b c h k = refl
starts_with_trans (x ∷ a) [] c h k = cc
starts_with_trans (x ∷ a) (y ∷ b) [] h k = cc
starts_with_trans (x ∷ a) (y ∷ b) (z ∷ c) h k = ground (arith, starts_with_trans a b c)

starts_with-append : (a b c : List ℕ) → starts_with (a ++ b) c ≡ true → starts_with a c ≡ true
unfolding starts_with
starts_with-append [] b c h = refl
starts_with-append (x ∷ a) b [] h = cc
starts_with-append (x ∷ a) b (z ∷ c) h = ground (arith, starts_with-append a b c)

-- One of the two ways to be nested.
nested-cases :
    (u t : List ℕ) → is_nested u t ≡ true → (u ≡ t) ⊎ (starts_with (t ++ (slash ∷ [])) u ≡ true)
unfolding is_nested
nested-cases u t h = elim (Bool-cases (same_codes u t)) [
  | inl e ↦ inl (same_codes_sound u t e)
  | inr e ↦ inr (ground arith)
]

nested-below : (u t : List ℕ) → starts_with (t ++ (slash ∷ [])) u ≡ true → is_nested u t ≡ true
unfolding is_nested
nested-below u t h = ground arith

is_nested_trans :
    (u d a : List ℕ) → is_nested u d ≡ true → is_nested d a ≡ true → is_nested u a ≡ true
is_nested_trans u d a h k = elim (nested-cases u d h) [
  | inl e ↦ subst (λ x. is_nested x a ≡ true) (sym e) k
  | inr below ↦ elim (nested-cases d a k) [
    | inl e ↦ subst (λ x. is_nested u x ≡ true) e h
    | inr above ↦
        nested-below u a (starts_with_trans _ d u above (starts_with-append d (slash ∷ []) u below))
  ]
]

-- Below the root alone there is no unit but the root itself.
root-nested : (a : List ℕ) → is_nested (slash ∷ []) (or_root a) ≡ true → is_root (or_root a) ≡ true
unfolding is_nested
root-nested [] h = refl
root-nested (c ∷ []) h = ground arith
root-nested (c ∷ d ∷ a) h = ground arith

or-right : (a b : Bool) → (a || b) ≡ true → a ≡ false → b ≡ true
or-right a b h k = ground arith

or-inr : (a b : Bool) → b ≡ true → (a || b) ≡ true
or-inr a b h = ground arith

or-inl : (a b : Bool) → a ≡ true → (a || b) ≡ true
or-inl a b h = ground arith

normal_trans :
    (u d a : List ℕ)
    → (is_root d || is_nested u d) ≡ true
    → (is_root (or_root a) || is_nested d (or_root a)) ≡ true
    → (is_root (or_root a) || is_nested u (or_root a)) ≡ true
normal_trans u d a h k = elim (Bool-cases (is_root (or_root a))) [
  | inl e ↦ or-inl _ _ e
  | inr e ↦
      let below = or-right _ _ k e in
      elim (Bool-cases (is_root d)) [
        | inl f ↦ or-inl _ _ (
            root-nested a (
              subst (λ x. is_nested x (or_root a) ≡ true) (same_codes_sound d (slash ∷ []) f)
                below))
        | inr f ↦ or-inr _ _ (is_nested_trans u d (or_root a) (or-right _ _ h f) below)
      ]
]

-- A unit that is nested under one that is nested under a third is nested under the third.
pub path_matches_trans :
    (u d a : List ℕ) → path_matches u d ≡ true → path_matches d a ≡ true → path_matches u a ≡ true
unfolding path_matches
path_matches_trans [] d a h k = cc
path_matches_trans (c ∷ u) [] a h k = cc
path_matches_trans (c ∷ u) (e ∷ d) a h k =
    normal_trans (normalize_org_unit_path (c ∷ u)) (normalize_org_unit_path (e ∷ d))
      (without_slashes (rooted (strip a))) h k
