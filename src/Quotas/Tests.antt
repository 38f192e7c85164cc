-- ===== src/Quotas/Tests.antt =====
-- Small inputs of the quota service, and the theorems at them.
use printops.Prelude.{
  ◌+◌, ◌≤◌, ◌≡◌, ◌↔◌, refl, true, Option, none, some, List, [], ◌∷◌, arith, length,
}
use printops.Text.{Text, lit, uuid, date}
use printops.Calendar.{DateTime, IsDateTime, instant, days_in_month, ordinal, days_before_month}
use printops.Jobs.{Job, HoldReason, quota, forwarded}
use printops.Printers.Sample.{sample_printer}
use printops.Printers.{Printer, exclude}
use printops.Notifications.Conditions.{Settings}
use printops.Notifications.Conditions.Once.{events_of, chances}
use printops.Quotas.Periods.{weekly, quarterly, period_bounds}
use printops.Quotas.Midnights.{Contains}
use printops.Quotas.Windows.{period_bounds-Contains}
use printops.Quotas.Effective.{
  PrinterUserQuota, get_effective_quota, get_user_quota, get_pages_used, has_release_bypass,
}
use printops.Quotas.Hold.{Store, get_or_create_quota_settings, resolve_hold_reason}
use printops.Quotas.Decision.{HeldFor, QuotaHold, resolve_hold_reason-quota_iff}
use printops.Quotas.Answers.{resolve_hold_reason_total}
use printops.Quotas.Budget.{Adds, IsOneOf, Submission, submit_all, submit_all_alerts_once}

-- 2026-09-02 is a Wednesday.
abbrev now : DateTime
now = record { year = 2026; month = 9; day = 2; micros = 36_000_000_000 }

abbrev monday : DateTime
monday = record { year = 2026; month = 8; day = 31; micros = 0 }

abbrev next_monday : DateTime
next_monday = record { year = 2026; month = 9; day = 7; micros = 0 }

now-IsDateTime : IsDateTime now
unfolding days_in_month
now-IsDateTime = omega arith

week : period_bounds weekly now ≡ some (monday, next_monday)
unfolding period_bounds
week = refl

quarter_at_december :
    period_bounds quarterly (record now { month = 12 })
    ≡ some (
      record { year = 2026; month = 10; day = 1; micros = 0 },
      record { year = 2027; month = 1; day = 1; micros = 0 },
    )
unfolding period_bounds
quarter_at_december = refl

period_bounds-Contains_example : Contains now (monday, next_monday)
period_bounds-Contains_example =
    period_bounds-Contains weekly now (monday, next_monday) now-IsDateTime week

sunday-IsDateTime : IsDateTime (record now { day = 6 })
unfolding days_in_month
sunday-IsDateTime = omega arith

sunday-in-week : Contains (record now { day = 6 }) (monday, next_monday)
unfolding ordinal days_before_month
sunday-in-week = (omega arith, omega arith)

abbrev printer : Printer
printer = record sample_printer { id = 1; name = "Library" }

abbrev job : Job
job = record {
  id = 5;
  printer_id = 1;
  cups_job_id = none;
  superseded_by_job_id = none;
  submitted_by = some "ann@x.org";
  status = forwarded;
  hold_reason = none;
  error_message = none;
  page_count = some 40;
  submitted_pages = none;
  document_name = none;
  copy_count = none;
  color_mode = none;
  duplex = none;
  paper_size = none;
  created_at = instant now;
  completed_at = none;
  held_file_path = none;
  held_job_options = none;
}

abbrev row : PrinterUserQuota
row = record {
  printer_id = 1;
  user_email = some "ann@x.org";
  period = weekly;
  page_limit = some 40;
}

abbrev settings : Settings
settings = record {
  enabled = true;
  settle_minutes = 10;
  notify_printer_attention = true;
  notify_printer_error = true;
  notify_toner_low = true;
  notify_quota_exceeded = true;
}

abbrev store : Store
store = record {
  quotas = row ∷ [];
  bypasses = [];
  quota_settings = some true;
  notification_settings = some settings;
  notices = record { states = []; events = [] };
  jobs = job ∷ [];
}

program : Unit {0}
unfolding resolve_hold_reason get_or_create_quota_settings get_effective_quota get_user_quota
    get_pages_used period_bounds ordinal days_before_month has_release_bypass
program = tt

held_over_quota : HeldFor quota (resolve_hold_reason store printer (some "ann@x.org") now)
unfolding program
held_over_quota = refl

bob_prints : resolve_hold_reason store printer (some "bob@x.org") now ≡ some (store, none)
unfolding program
bob_prints = refl

resolve_hold_reason-quota_iff_example :
    HeldFor quota (resolve_hold_reason store printer (some "ann@x.org") now)
    ↔ QuotaHold store printer (some "ann@x.org") now
resolve_hold_reason-quota_iff_example =
    resolve_hold_reason-quota_iff store printer (some "ann@x.org") now

resolve_hold_reason_total_example :
    (o : Store × Option HoldReason) × (resolve_hold_reason store printer (some "ann@x.org") now
      ≡ some o)
resolve_hold_reason_total_example =
    resolve_hold_reason_total store printer (some "ann@x.org") now (tt, tt)

abbrev twice : List Submission
twice =
    record { printer = printer; submitted_by = some "ann@x.org"; now = now; store = store }
    ∷ record { printer = printer; submitted_by = some "ann@x.org"; now = now; store = store }
    ∷ []

abbrev alert_key : Text
alert_key =
    lit "quota.exceeded:" ∷ uuid 1 ∷ lit ":" ∷ lit "ann@x.org" ∷ lit ":" ∷ date 2026 8 31 ∷ []

submit_all_alerts_once_example :
    Adds (IsOneOf twice) store.notices (submit_all twice store.notices)
    × (length (events_of alert_key (submit_all twice store.notices))
        ≤ length (events_of alert_key store.notices) + chances alert_key store.notices)
submit_all_alerts_once_example = submit_all_alerts_once alert_key twice store.notices

abbrev exempting : Printer
exempting = record printer { quota_mode = exclude }
