-- ===== src/Attribution.antt =====
-- attribution/resolve.py: whose job a job is. A text is the list of its code points; `raised` is the
-- MultipleResultsFound of a query for one row that finds two.
pub mod Chain
pub mod Known
pub mod Provenance
mod Tests
use printops.Prelude.{
  ℕ, String, Bool, true, false, not, ◌&&◌, ◌||◌, Option, none, some, List, [], ◌∷◌, ◌==◌,
  if◌then◌else◌, filter, any, codes, same_codes,
}
use printops.QueueRecovery.Lpstat.{strip}

abbrev pub Str : Type 0
Str = List ℕ

pub record Alias : Type 0 where
  pub alias : Str
  pub resolved_email : Str

-- A row of the overrides, by its MAC address.
pub record DeviceUserOverride : Type 0 where
  pub mac_address : Str
  pub resolved_email : Str

pub record MosyleDevice : Type 0 where
  pub mac_address : Str
  pub user_email : Option Str
  pub user_name : Option Str

pub record WorkspaceDevice : Type 0 where
  pub mac_address : Option Str
  pub user_email : Option Str

-- The tables and the switches of the integrations.
pub record Db : Type 0 where
  pub aliases : List Alias
  pub overrides : List DeviceUserOverride
  pub mosyle_enabled : Bool
  pub mosyle_devices : List MosyleDevice
  pub workspace_enabled : Bool
  pub workspace_devices : List WorkspaceDevice
  -- the emails of the roster
  pub roster : List Str
  pub classguard_enabled : Bool

-- The row that `scalar_one_or_none` finds.
pub data Found {ℓ} (A : Type ℓ) : Type ℓ where
  nothing : Found A
  one : A → Found A
  several : Found A

unfoldable pub one_of {ℓ} : {A : Type ℓ} → List A → Found A
one_of [] = nothing
one_of (x ∷ []) = one x
one_of (x ∷ y ∷ xs) = several

pub data Method : Type 0 where
  cups alias override mosyle google_workspace unresolved : Method

-- The user, the method and the MAC address, or what is raised.
pub data Resolution : Type 0 where
  resolved : Str → Method → Option Str → Resolution
  raised : Resolution

-- `str.lower`, `str.upper`, whether a text is an IP address, and ClassGuard's answer: none also where
-- it fails.
pub record Outside : Type 0 where
  pub lower : Str → Str
  pub upper : Str → Str
  pub is_ip : Str → Bool
  pub lease : Str → Option Str

abbrev pub is_blank : Option Str → Bool
is_blank none = true
is_blank (some []) = true
is_blank (some (c ∷ s)) = false

-- `"@" in value`
abbrev pub looks_like_email : Str → Bool
looks_like_email value = any (λ c. c == 64) value

-- `email.split("@", 1)[0]`
unfoldable pub local_part : Str → Str
local_part [] = []
local_part (c ∷ s) = let rest = local_part s in if c == 64 then [] else c ∷ rest

module _ (o : Outside) where
  -- `value.strip().lower()`
  abbrev pub key_of : Str → Str
  key_of value = o.lower (strip value)

  unfoldable pub is_generic : Str → Bool
  unfolding same_codes
  is_generic user = same_codes (key_of user) [] || same_codes (key_of user) (codes "anonymous")

  -- `cups_user_clean`
  abbrev pub clean : Option Str → Option Str
  clean none = none
  clean (some []) = none
  clean (some (c ∷ s)) = if is_generic (c ∷ s) then none else some (c ∷ s)

  unfoldable pub lookup_mac_for_source : Db → Str → Option Str
  lookup_mac_for_source db host =
      if not (o.is_ip host) then none else if not db.classguard_enabled then none else o.lease host

  -- `"-"` becomes `":"`
  abbrev pub with_colons : Str → Str
  with_colons [] = []
  with_colons (c ∷ s) = (if c == 45 then 58 else c) ∷ with_colons s

  unfoldable pub normalize_mac : Str → Str
  normalize_mac mac = with_colons (o.upper (strip mac))

  -- An empty answer is none.
  abbrev pub normalized : Option Str → Option Str
  normalized none = none
  normalized (some []) = none
  normalized (some (c ∷ mac)) = some (normalize_mac (c ∷ mac))

  -- The MAC address of the source; an empty one is falsy.
  unfoldable pub mac_of : Db → Option Str → Option Str
  unfolding lookup_mac_for_source normalize_mac
  mac_of db none = none
  mac_of db (some []) = none
  mac_of db (some (c ∷ host)) = normalized (lookup_mac_for_source db (c ∷ host))

  unfoldable pub find_attribution_alias : Db → Str → Found Alias
  unfolding one_of same_codes
  find_attribution_alias db value =
      one_of (filter (λ a. same_codes a.alias (key_of value)) db.aliases)

  unfoldable pub find_roster_user_by_email : Db → Str → Found Str
  unfolding one_of same_codes
  find_roster_user_by_email db email =
      one_of (filter (λ e. same_codes (o.lower e) (key_of email)) db.roster)

  abbrev pub unless_several : Found Str → Option Str
  unless_several (one e) = some e
  unless_several _ = none

  abbrev pub roster_match_of : Db → Str → Option Str
  roster_match_of db [] = none
  roster_match_of db (c ∷ key) =
      unless_several
        (one_of (filter (λ e. same_codes (o.lower (local_part e)) (c ∷ key)) db.roster))

  unfoldable pub find_roster_user_by_local_part : Db → Str → Option Str
  unfolding one_of same_codes local_part
  find_roster_user_by_local_part db username = roster_match_of db (key_of username)
