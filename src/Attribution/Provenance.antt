-- ===== src/Attribution/Provenance.antt =====
-- attribution/resolve.py: where the user of a job comes from.
use mathlib.Core.Path.{subst}
use printops.Prelude.{
  true, not, ◌&&◌, Option, none, some, [], ◌∷◌, ◌≡◌, refl, ap, arith, filter, same_codes,
  same_codes_sound, either_branch, some_inj,
}
use printops.Attribution.{
  Str, Alias, DeviceUserOverride, MosyleDevice, WorkspaceDevice, Db, Found, nothing, one, several,
  one_of, cups, alias, override, mosyle, google_workspace, Outside, is_blank, looks_like_email,
  clean, mac_of, find_attribution_alias, find_roster_user_by_email, find_roster_user_by_local_part,
  roster_match_of, unless_several, key_of, local_part,
}
use printops.Attribution.Known.{Claim, HoldsOf, IsKnown, one_of-filter, clean-reported}
use printops.Attribution.Chain.{
  alias_or, fall_back, workspace_email, by_workspace_device, has_mac, by_workspace, mosyle_email,
  roster_or_email, name_match, by_roster, email_match, by_mosyle_device, by_mosyle, by_override,
  by_mac, by_name, resolve_user,
}

module _ (P : Claim) (o : Outside) (db : Db) (cups_user : Option Str)
    (k : IsKnown P db cups_user) where
  alias_or-HoldsOf :
      (user : Str) (mac : Option Str) (f : Found Alias)
      → P cups mac user
      → ((a : Alias) → f ≡ one a → P alias mac a.resolved_email)
      → HoldsOf P (alias_or user mac f)
  alias_or-HoldsOf user mac nothing p q = p
  alias_or-HoldsOf user mac (one a) p q = q a refl
  alias_or-HoldsOf user mac several p q = tt

  reported-HoldsOf :
      (user : Str) (mac : Option Str)
      → clean o cups_user ≡ some user
      → HoldsOf P (alias_or user mac (find_attribution_alias o db user))
  unfolding find_attribution_alias
  reported-HoldsOf user mac h =
      alias_or-HoldsOf user mac (find_attribution_alias o db user)
        (k.reported mac user (clean-reported o cups_user user h))
        (λ a f.
          (one_of-filter (λ (a : Alias). P alias mac a.resolved_email)
            (λ (a : Alias). same_codes a.alias (key_of o user)) db.aliases a f (k.aliases mac)).0)

  fall_back-HoldsOf :
      (mac c : Option Str) → clean o cups_user ≡ c → HoldsOf P (fall_back o db cups_user mac c)
  unfolding fall_back
  fall_back-HoldsOf mac none h = k.unknown mac
  fall_back-HoldsOf mac (some user) h = reported-HoldsOf user mac h

  workspace_email-HoldsOf :
      (email : Option Str) (mac : Str)
      → ((e : Str) → email ≡ some e → P google_workspace (some mac) e)
      → HoldsOf P (workspace_email o db cups_user email mac)
  workspace_email-HoldsOf none mac p = fall_back-HoldsOf (some mac) _ refl
  workspace_email-HoldsOf (some []) mac p = fall_back-HoldsOf (some mac) _ refl
  workspace_email-HoldsOf (some (c ∷ e)) mac p = p (c ∷ e) refl

  by_workspace_device-HoldsOf :
      (mac : Str) (f : Found WorkspaceDevice)
      → ((d : WorkspaceDevice)
          → f ≡ one d
          → (e : Str) → d.user_email ≡ some e
          → P google_workspace (some mac) e)
      → HoldsOf P (by_workspace_device o db cups_user mac f)
  by_workspace_device-HoldsOf mac nothing p = fall_back-HoldsOf (some mac) _ refl
  by_workspace_device-HoldsOf mac (one d) p = workspace_email-HoldsOf d.user_email mac (p d refl)
  by_workspace_device-HoldsOf mac several p = tt

  at_mac : (mac : Str) (m : Option Str) → has_mac o db cups_user mac m ≡ true → m ≡ some mac
  at_mac mac none h = cc
  at_mac mac (some m) h = ap some (same_codes_sound m mac h)

  by_workspace-HoldsOf : (mac : Str) → HoldsOf P (by_workspace o db cups_user mac)
  unfolding by_workspace
  by_workspace-HoldsOf mac =
      either_branch (HoldsOf P) (not db.workspace_enabled)
        (fall_back o db cups_user (some mac) (clean o cups_user)) _
        (λ _. fall_back-HoldsOf (some mac) _ refl)
        (λ _.
          by_workspace_device-HoldsOf mac
            (one_of (filter (λ d. has_mac o db cups_user mac d.mac_address) db.workspace_devices))
            found)
    where
      found :
          (d : WorkspaceDevice)
          → one_of (filter (λ d. has_mac o db cups_user mac d.mac_address) db.workspace_devices)
            ≡ one d
          → (e : Str) → d.user_email ≡ some e
          → P google_workspace (some mac) e
      found d f e u =
          let (q, t) =
            one_of-filter
              (λ (d : WorkspaceDevice).
                (e mac : Str)
                → d.mac_address ≡ some mac
                → d.user_email ≡ some e
                → P google_workspace (some mac) e)
              (λ (d : WorkspaceDevice). has_mac o db cups_user mac d.mac_address)
              db.workspace_devices d f k.workspace_devices in
          q e mac (at_mac mac d.mac_address t) u

  -- What is known of a device that Mosyle found at the MAC address.
  abbrev IsDevice : Str → MosyleDevice → Type 0
  IsDevice mac d = (e : Str) → d.user_email ≡ some e → P mosyle (some mac) e

  mosyle_email-HoldsOf :
      (email : Option Str) (mac : Str)
      → ((e : Str) → email ≡ some e → P mosyle (some mac) e)
      → HoldsOf P (mosyle_email o db cups_user email mac)
  mosyle_email-HoldsOf none mac p = by_workspace-HoldsOf mac
  mosyle_email-HoldsOf (some []) mac p = by_workspace-HoldsOf mac
  mosyle_email-HoldsOf (some (c ∷ e)) mac p = p (c ∷ e) refl

  roster_or_email-HoldsOf :
      (d : MosyleDevice) (mac : Str) (m : Option Str)
      → IsDevice mac d
      → ((e : Str) → m ≡ some e → P mosyle (some mac) e)
      → HoldsOf P (roster_or_email o db cups_user d mac m)
  roster_or_email-HoldsOf d mac none p q = mosyle_email-HoldsOf d.user_email mac p
  roster_or_email-HoldsOf d mac (some e) p q = q e refl

  name_match-roster :
      (mac : Str) (name : Option Str) (e : Str)
      → name_match o db cups_user name ≡ some e
      → P mosyle (some mac) e
  unfolding find_roster_user_by_local_part
  name_match-roster mac none e h = cc
  name_match-roster mac (some []) e h = cc
  name_match-roster mac (some (c ∷ name)) e h = by_key (key_of o (c ∷ name)) h
    where
      by_found : (f : Found Str) → unless_several o f ≡ some e → f ≡ one e
      by_found nothing h = cc
      by_found (one x) h = ap one (some_inj h)
      by_found several h = cc

      by_key : (key : Str) → roster_match_of o db key ≡ some e → P mosyle (some mac) e
      by_key [] h = cc
      by_key (d ∷ key) h =
          (one_of-filter (P mosyle (some mac))
            (λ (e : Str). same_codes (o.lower (local_part e)) (d ∷ key)) db.roster e (by_found _ h)
            (k.roster (some mac))).0

  email_match-roster :
      (mac : Str) (email : Option Str) (e : Str)
      → email_match o db cups_user email ≡ one e
      → P mosyle (some mac) e
  unfolding find_roster_user_by_email
  email_match-roster mac none e h = ground arith
  email_match-roster mac (some []) e h = ground arith
  email_match-roster mac (some (c ∷ email)) e h =
      (one_of-filter (P mosyle (some mac))
        (λ (e : Str). same_codes (o.lower e) (key_of o (c ∷ email))) db.roster e h
        (k.roster (some mac))).0

  by_roster-HoldsOf :
      (d : MosyleDevice) (mac : Str) (f : Found Str)
      → IsDevice mac d
      → ((e : Str) → f ≡ one e → P mosyle (some mac) e)
      → HoldsOf P (by_roster o db cups_user d mac f)
  by_roster-HoldsOf d mac nothing p q =
      roster_or_email-HoldsOf d mac _ p (name_match-roster mac d.user_name)
  by_roster-HoldsOf d mac (one e) p q = q e refl
  by_roster-HoldsOf d mac several p q = tt

  by_mosyle_device-HoldsOf :
      (mac : Str) (f : Found MosyleDevice)
      → ((d : MosyleDevice) → f ≡ one d → IsDevice mac d)
      → HoldsOf P (by_mosyle_device o db cups_user mac f)
  by_mosyle_device-HoldsOf mac nothing p = by_workspace-HoldsOf mac
  by_mosyle_device-HoldsOf mac (one d) p =
      either_branch (HoldsOf P) (is_blank d.user_email && is_blank d.user_name)
        (by_workspace o db cups_user mac)
        (by_roster o db cups_user d mac (email_match o db cups_user d.user_email))
        (λ _. by_workspace-HoldsOf mac)
        (λ _.
          by_roster-HoldsOf d mac (email_match o db cups_user d.user_email) (p d refl)
            (email_match-roster mac d.user_email))
  by_mosyle_device-HoldsOf mac several p = tt

  by_mosyle-HoldsOf : (mac : Str) → HoldsOf P (by_mosyle o db cups_user mac)
  unfolding by_mosyle
  by_mosyle-HoldsOf mac =
      either_branch (HoldsOf P) (not db.mosyle_enabled) (by_workspace o db cups_user mac)
        (by_mosyle_device o db cups_user mac
          (one_of (filter (λ d. same_codes d.mac_address mac) db.mosyle_devices)))
        (λ _. by_workspace-HoldsOf mac) (λ _. by_mosyle_device-HoldsOf mac _ found)
    where
      found :
          (d : MosyleDevice)
          → one_of (filter (λ d. same_codes d.mac_address mac) db.mosyle_devices) ≡ one d
          → IsDevice mac d
      found d f e u =
          let (q, t) =
            one_of-filter
              (λ (d : MosyleDevice).
                (e : Str) → d.user_email ≡ some e → P mosyle (some d.mac_address) e)
              (λ (d : MosyleDevice). same_codes d.mac_address mac) db.mosyle_devices d f
              k.mosyle_devices in
          subst (λ m. P mosyle (some m) e) (same_codes_sound d.mac_address mac t) (q e u)

  by_override-HoldsOf :
      (mac : Str) (f : Found DeviceUserOverride)
      → ((x : DeviceUserOverride) → f ≡ one x → P override (some mac) x.resolved_email)
      → HoldsOf P (by_override o db cups_user mac f)
  by_override-HoldsOf mac nothing p = by_mosyle-HoldsOf mac
  by_override-HoldsOf mac (one x) p = p x refl
  by_override-HoldsOf mac several p = tt

  by_mac-HoldsOf : (mac : Option Str) → HoldsOf P (by_mac o db cups_user mac)
  unfolding by_mac
  by_mac-HoldsOf none = fall_back-HoldsOf none _ refl
  by_mac-HoldsOf (some []) = fall_back-HoldsOf (some []) _ refl
  by_mac-HoldsOf (some (c ∷ mac)) = by_override-HoldsOf (c ∷ mac) _ found
    where
      found :
          (x : DeviceUserOverride)
          → one_of (filter (λ x. same_codes x.mac_address (c ∷ mac)) db.overrides) ≡ one x
          → P override (some (c ∷ mac)) x.resolved_email
      found x f =
          let (q, t) =
            one_of-filter
              (λ (x : DeviceUserOverride). P override (some x.mac_address) x.resolved_email)
              (λ (x : DeviceUserOverride). same_codes x.mac_address (c ∷ mac)) db.overrides x f
              k.overrides in
          subst (λ m. P override (some m) x.resolved_email)
            (same_codes_sound x.mac_address (c ∷ mac) t) q

  by_name-HoldsOf :
      (source_host c : Option Str)
      → clean o cups_user ≡ c
      → HoldsOf P (by_name o db cups_user source_host c)
  by_name-HoldsOf source_host none h = by_mac-HoldsOf (mac_of o db source_host)
  by_name-HoldsOf source_host (some user) h =
      either_branch (HoldsOf P) (looks_like_email user)
        (alias_or user none (find_attribution_alias o db user))
        (by_mac o db cups_user (mac_of o db source_host)) (λ _. reported-HoldsOf user none h)
        (λ _. by_mac-HoldsOf (mac_of o db source_host))

  -- The user of a job comes from where the method says: under "alias" it is the target of an alias, under "override",
  -- "mosyle" and "google_workspace" it is what that table says of the device with the MAC address of the answer, or, for
  -- Mosyle, an email of the roster; under "cups" it is the name that CUPS reported; and where nothing resolves it is that
  -- name or "unknown". Whatever holds of each of these under its method holds of the answer.
  pub resolve_user-HoldsOf :
      (source_host : Option Str) → HoldsOf P (resolve_user o db cups_user source_host)
  unfolding resolve_user
  resolve_user-HoldsOf source_host = by_name-HoldsOf source_host (clean o cups_user) refl
