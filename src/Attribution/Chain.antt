-- ===== src/Attribution/Chain.antt =====
-- attribution/resolve.py: resolve_user, the strategies in their order.
use printops.Prelude.{
  Bool, false, not, ◌&&◌, Option, none, some, [], ◌∷◌, if◌then◌else◌, filter, codes, same_codes,
}
use printops.Attribution.{
  Str, Alias, DeviceUserOverride, MosyleDevice, WorkspaceDevice, Db, Found, nothing, one, several,
  one_of, cups, alias, override, mosyle, google_workspace, unresolved, Resolution, resolved, raised,
  Outside, is_blank, looks_like_email, clean, mac_of, find_attribution_alias,
  find_roster_user_by_email, find_roster_user_by_local_part,
}

-- The alias of a reported name, or the name itself.
abbrev pub alias_or : Str → Option Str → Found Alias → Resolution
alias_or user mac nothing = resolved user cups mac
alias_or user mac (one a) = resolved a.resolved_email alias mac
alias_or user mac several = raised

-- `cups_user or "unknown"`
abbrev pub or_unknown : Option Str → Str
or_unknown none = codes "unknown"
or_unknown (some []) = codes "unknown"
or_unknown (some (c ∷ s)) = c ∷ s

module _ (o : Outside) (db : Db) (cups_user : Option Str) where
  -- The last strategy.
  unfoldable pub fall_back : Option Str → Option Str → Resolution
  unfolding find_attribution_alias
  fall_back mac none = resolved (or_unknown cups_user) unresolved mac
  fall_back mac (some user) = alias_or user mac (find_attribution_alias o db user)

  abbrev pub workspace_email : Option Str → Str → Resolution
  workspace_email none mac = fall_back (some mac) (clean o cups_user)
  workspace_email (some []) mac = fall_back (some mac) (clean o cups_user)
  workspace_email (some (c ∷ email)) mac = resolved (c ∷ email) google_workspace (some mac)

  abbrev pub by_workspace_device : Str → Found WorkspaceDevice → Resolution
  by_workspace_device mac nothing = fall_back (some mac) (clean o cups_user)
  by_workspace_device mac (one d) = workspace_email d.user_email mac
  by_workspace_device mac several = raised

  abbrev pub has_mac : Str → Option Str → Bool
  has_mac mac none = false
  has_mac mac (some m) = same_codes m mac

  unfoldable pub by_workspace : Str → Resolution
  unfolding one_of same_codes fall_back
  by_workspace mac =
      if not db.workspace_enabled
      then fall_back (some mac) (clean o cups_user)
      else by_workspace_device mac
          (one_of (filter (λ d. has_mac mac d.mac_address) db.workspace_devices))

  -- The email of the device, where the roster confirms neither it nor the name.
  abbrev pub mosyle_email : Option Str → Str → Resolution
  mosyle_email none mac = by_workspace mac
  mosyle_email (some []) mac = by_workspace mac
  mosyle_email (some (c ∷ email)) mac = resolved (c ∷ email) mosyle (some mac)

  abbrev pub roster_or_email : MosyleDevice → Str → Option Str → Resolution
  roster_or_email d mac none = mosyle_email d.user_email mac
  roster_or_email d mac (some email) = resolved email mosyle (some mac)

  -- The match by name, where there is none by email.
  abbrev pub name_match : Option Str → Option Str
  name_match none = none
  name_match (some []) = none
  name_match (some (c ∷ name)) = find_roster_user_by_local_part o db (c ∷ name)

  abbrev pub by_roster : MosyleDevice → Str → Found Str → Resolution
  by_roster d mac nothing = roster_or_email d mac (name_match d.user_name)
  by_roster d mac (one email) = resolved email mosyle (some mac)
  by_roster d mac several = raised

  abbrev pub email_match : Option Str → Found Str
  email_match none = nothing
  email_match (some []) = nothing
  email_match (some (c ∷ email)) = find_roster_user_by_email o db (c ∷ email)

  abbrev pub by_mosyle_device : Str → Found MosyleDevice → Resolution
  by_mosyle_device mac nothing = by_workspace mac
  by_mosyle_device mac (one d) =
      if is_blank d.user_email && is_blank d.user_name
      then by_workspace mac
      else by_roster d mac (email_match d.user_email)
  by_mosyle_device mac several = raised

  unfoldable pub by_mosyle : Str → Resolution
  unfolding one_of same_codes by_workspace find_roster_user_by_email find_roster_user_by_local_part
  by_mosyle mac =
      if not db.mosyle_enabled
      then by_workspace mac
      else by_mosyle_device mac
          (one_of (filter (λ d. same_codes d.mac_address mac) db.mosyle_devices))

  abbrev pub by_override : Str → Found DeviceUserOverride → Resolution
  by_override mac nothing = by_mosyle mac
  by_override mac (one x) = resolved x.resolved_email override (some mac)
  by_override mac several = raised

  -- An empty MAC address is falsy.
  unfoldable pub by_mac : Option Str → Resolution
  unfolding one_of same_codes by_mosyle fall_back
  by_mac none = fall_back none (clean o cups_user)
  by_mac (some []) = fall_back (some []) (clean o cups_user)
  by_mac (some (c ∷ mac)) =
      by_override (c ∷ mac) (one_of (filter (λ x. same_codes x.mac_address (c ∷ mac)) db.overrides))

  abbrev pub by_name : Option Str → Option Str → Resolution
  by_name source_host none = by_mac (mac_of o db source_host)
  by_name source_host (some user) =
      if looks_like_email user
      then alias_or user none (find_attribution_alias o db user)
      else by_mac (mac_of o db source_host)

  unfoldable pub resolve_user : Option Str → Resolution
  unfolding by_mac mac_of find_attribution_alias
  resolve_user source_host = by_name source_host (clean o cups_user)
