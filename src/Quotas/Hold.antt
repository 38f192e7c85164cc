-- ===== src/Quotas/Hold.antt =====
-- quotas/service.py: `resolve_hold_reason`, with the rows that it creates and the alert that it raises.
use printops.Prelude.{
  ℕ, String, Bool, true, false, not, ◌&&◌, ◌||◌, Option, none, some, List, [], ◌∷◌, leb,
  if◌then◌else◌,
}
use printops.Text.{Piece, lit, num, uuid, date}
use printops.Calendar.{DateTime, instant}
use printops.Jobs.{Job, HoldReason, pin_release, follow_me, quota, printer_offline}
use printops.Printers.{Printer, is_offline}
use printops.Notifications.Conditions.{Settings, Db, Observation, quota_exceeded, info, observe}
use printops.Quotas.Periods.{
  Period, daily, weekly, monthly, quarterly, yearly, other, period_bounds,
}
use printops.Quotas.Effective.{
  PrinterUserQuota, PrinterReleaseBypass, get_effective_quota, get_pages_used, has_release_bypass,
}

pub record Store : Type 0 where
  pub quotas : List PrinterUserQuota
  pub bypasses : List PrinterReleaseBypass
  -- the singletons; `QuotaSettings` has the one column `enabled`
  pub quota_settings : Option Bool
  pub notification_settings : Option Settings
  pub notices : Db
  pub jobs : List Job

-- `get_or_create_quota_settings`
unfoldable pub get_or_create_quota_settings : Store → Store × Bool
get_or_create_quota_settings s = elim s.quota_settings [
  | none ↦ (record s { quota_settings = some false }, false)
  | some enabled ↦ (s, enabled)
]

-- The column defaults of a new `NotificationSettings`.
abbrev pub default_settings : Settings
default_settings = record {
  enabled = false;
  settle_minutes = 10;
  notify_printer_attention = true;
  notify_printer_error = true;
  notify_toner_low = true;
  notify_quota_exceeded = false;
}

-- `get_or_create_notification_settings`
unfoldable pub get_or_create_notification_settings : Store → Store × Settings
get_or_create_notification_settings s = elim s.notification_settings [
  | none ↦ (record s { notification_settings = some default_settings }, default_settings)
  | some settings ↦ (s, settings)
]

abbrev pub period_name : Period → String
period_name daily = "daily"
period_name weekly = "weekly"
period_name monthly = "monthly"
period_name quarterly = "quarterly"
period_name yearly = "yearly"
period_name (other s) = s

abbrev pub date_of : DateTime → Piece
date_of d = date d.year d.month d.day

unfoldable pub quota_alert : Printer → String → PrinterUserQuota → ℕ → ℕ → DateTime → Observation
quota_alert printer submitted_by q used limit start = record {
  kind = quota_exceeded;
  dedupe_key =
      lit "quota.exceeded:"
      ∷ uuid printer.id
      ∷ lit ":"
      ∷ lit submitted_by
      ∷ lit ":"
      ∷ date_of start
      ∷ [];
  title = lit submitted_by ∷ lit " has reached their print quota" ∷ [];
  body =
      num used
      ∷ lit " of "
      ∷ num limit
      ∷ lit " pages on "
      ∷ lit printer.name
      ∷ lit " for the "
      ∷ lit (period_name q.period)
      ∷ lit " period beginning "
      ∷ date_of start
      ∷ lit ". Further jobs are being held."
      ∷ [];
  subject_type = some "user";
  subject_id = some (lit submitted_by ∷ []);
  severity = info;
  raise_immediately = true;
}

-- From `used >= quota.page_limit`.
unfoldable pub hold_over_limit :
    Store
    → Printer
    → String
    → PrinterUserQuota
    → ℕ
    → ℕ
    → DateTime
    → DateTime
    → Store × Option HoldReason
hold_over_limit s printer submitted_by q limit used start now =
    if leb limit used
    then (let (s', settings) = get_or_create_notification_settings s in
        let alert = quota_alert printer submitted_by q used limit start in
        (
          record s' { notices = (observe (some settings) alert (instant now) s'.notices).0 },
          some quota,
        ))
    else (s, none)

-- From the call of `period_bounds`, on its result; `none` is its ValueError.
unfoldable pub hold_in_window :
    Store
    → Printer
    → String
    → PrinterUserQuota
    → ℕ
    → DateTime
    → Option (DateTime × DateTime)
    → Option (Store × Option HoldReason)
unfolding hold_over_limit
hold_in_window s printer submitted_by q limit now none = none
hold_in_window s printer submitted_by q limit now (some (start, end)) = some (
    hold_over_limit s printer submitted_by q limit
      (get_pages_used s.jobs printer.id submitted_by (instant start) (instant end)) start now)

-- `if quota is None or quota.page_limit is None: return None`
unfoldable pub hold_for_row :
    Store
    → Printer
    → String
    → Option PrinterUserQuota
    → DateTime
    → Option (Store × Option HoldReason)
hold_for_row s printer submitted_by none now = some (s, none)
hold_for_row s printer submitted_by (some q) now = elim q.page_limit [
  | none ↦ some (s, none)
  | some limit ↦ hold_in_window s printer submitted_by q limit now (period_bounds q.period now)
]

-- From `if not settings.enabled`, on the store and the switch.
unfoldable pub hold_if_enforced :
    Store × Bool → Printer → String → DateTime → Option (Store × Option HoldReason)
hold_if_enforced (s, false) printer submitted_by now = some (s, none)
hold_if_enforced (s, true) printer submitted_by now =
    hold_for_row s printer submitted_by (get_effective_quota s.quotas printer (some submitted_by))
      now

-- The part behind the two checks on the printer.
unfoldable pub hold_for_quota :
    Store → Printer → Option String → DateTime → Option (Store × Option HoldReason)
hold_for_quota s printer none now = some (s, none)
hold_for_quota s printer (some submitted_by) now =
    hold_if_enforced (get_or_create_quota_settings s) printer submitted_by now

abbrev pub bypassed : Store → Printer → Option String → Bool
bypassed s printer none = false
bypassed s printer (some submitted_by) = has_release_bypass s.bypasses printer.id submitted_by

unfoldable pub resolve_hold_reason :
    Store → Printer → Option String → DateTime → Option (Store × Option HoldReason)
unfolding hold_for_quota hold_if_enforced hold_for_row hold_in_window hold_over_limit
resolve_hold_reason s printer submitted_by now =
    if (printer.release_required || printer.follow_me_enabled)
      && not (bypassed s printer submitted_by)
    then some (s, some (if printer.follow_me_enabled then follow_me else pin_release))
    else if is_offline printer.status
    then some (s, some printer_offline)
    else hold_for_quota s printer submitted_by now
