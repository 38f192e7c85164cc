-- ===== src/Copiers/OrgUnits.antt =====
-- integrations/google_workspace.py and copiers/device_admin.py: the organisational units that
-- decide who has an account on a copier. A path is the list of its code points.
pub mod Nested
pub mod Scope
use printops.Prelude.{
  ℕ, Bool, true, false, not, ◌&&◌, ◌||◌, Option, none, some, List, [], ◌∷◌, ◌++◌, ◌==◌,
  if◌then◌else◌, filter, any, same_codes,
}
use printops.QueueRecovery.Lpstat.{starts_with, strip}

abbrev pub slash : ℕ
slash = 47

abbrev pub put_before : ℕ → List ℕ → List ℕ
put_before c [] = if c == slash then [] else c ∷ []
put_before c (d ∷ rest) = c ∷ d ∷ rest

-- `path.rstrip("/")`
unfoldable pub without_slashes : List ℕ → List ℕ
without_slashes [] = []
without_slashes (c ∷ path) = put_before c (without_slashes path)

abbrev pub or_root : List ℕ → List ℕ
or_root [] = slash ∷ []
or_root (c ∷ path) = c ∷ path

abbrev pub rooted : List ℕ → List ℕ
rooted path = if starts_with (slash ∷ []) path then path else slash ∷ path

unfoldable pub normalize_org_unit_path : List ℕ → List ℕ
unfolding without_slashes starts_with
normalize_org_unit_path path = or_root (without_slashes (rooted (strip path)))

-- `user_path == target or user_path.startswith(f"{target}/")`
unfoldable pub is_nested : List ℕ → List ℕ → Bool
unfolding same_codes starts_with
is_nested user_path target =
    same_codes user_path target || starts_with (target ++ (slash ∷ [])) user_path

abbrev pub is_root : List ℕ → Bool
is_root target = same_codes target (slash ∷ [])

-- An empty path is falsy.
unfoldable pub path_matches : List ℕ → List ℕ → Bool
unfolding normalize_org_unit_path is_nested
path_matches [] configured = false
path_matches (c ∷ path) configured =
    is_root (normalize_org_unit_path configured)
    || is_nested (normalize_org_unit_path (c ∷ path)) (normalize_org_unit_path configured)

unfoldable pub org_unit_matches : Option (List ℕ) → List ℕ → Bool
unfolding path_matches
org_unit_matches none configured = false
org_unit_matches (some path) configured = path_matches path configured

abbrev pub is_empty {ℓ} : {A : Type ℓ} → List A → Bool
is_empty [] = true
is_empty (x ∷ xs) = false

unfoldable pub org_unit_included : Option (List ℕ) → List (List ℕ) → List (List ℕ) → Bool
unfolding org_unit_matches
org_unit_included path includes excludes =
    if any (org_unit_matches path) excludes
    then false
    else if is_empty includes
    then true
    else any (org_unit_matches path) includes

-- `[p for p in (paths or []) if p]`
abbrev pub non_empty : Option (List (List ℕ)) → List (List ℕ)
non_empty none = []
non_empty (some paths) = filter (λ p. not (is_empty p)) paths

-- The columns of GoogleWorkspaceSettings that are read.
pub record WorkspaceSettings : Type 0 where
  pub copier_identity_org_unit_paths : Option (List (List ℕ))
  pub copier_identity_excluded_org_unit_paths : Option (List (List ℕ))
  pub staff_org_unit_path : Option (List ℕ)

abbrev pub staff_path : Option (List ℕ) → List (List ℕ)
staff_path none = []
staff_path (some []) = []
staff_path (some (c ∷ path)) = (c ∷ path) ∷ []

-- The include list and the exclude list.
unfoldable pub resolve_copier_identity_org_units : WorkspaceSettings → List (List ℕ) × List (List ℕ)
resolve_copier_identity_org_units settings = (
  if is_empty (non_empty settings.copier_identity_org_unit_paths)
      then staff_path settings.staff_org_unit_path
      else non_empty settings.copier_identity_org_unit_paths,
  non_empty settings.copier_identity_excluded_org_unit_paths,
)

-- The device's paths that the org-wide filter allows.
abbrev pub allowed : List (List ℕ) → List (List ℕ) → List (List ℕ)
allowed device_paths includes = filter (λ path. any (path_matches path) includes) device_paths

-- `device_paths` are the device's provision_org_unit_paths.
unfoldable pub device_provisioning_scope :
    Option (List (List ℕ)) → List (List ℕ) → List (List ℕ) → List (List ℕ) × List (List ℕ)
unfolding path_matches
device_provisioning_scope device_paths includes excludes =
    if is_empty (non_empty device_paths)
    then (includes, excludes)
    else if is_empty includes
    then (non_empty device_paths, excludes)
    else (allowed (non_empty device_paths) includes, excludes)
