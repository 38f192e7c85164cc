-- ===== src/Quotas/Modes.antt =====
-- How the exclude mode reads the quota rows of one person.
use printops.Prelude.{◌≡◌, String, some, arith}
use printops.Calendar.{DateTime}
use printops.Jobs.{quota}
use printops.Printers.{Printer, exclude}
use printops.Quotas.Effective.{
  PrinterUserQuota, get_effective_quota, effective_excluded, get_user_quota,
}
use printops.Quotas.Hold.{Store, resolve_hold_reason}
use printops.Quotas.Decision.{HeldFor, resolve_hold_reason-quota_iff}

-- In exclude mode a person with a row of their own, whatever it carries, is never held over a quota.
exempt-not-held :
    (s : Store) (printer : Printer) (email : String) (row : PrinterUserQuota) (now : DateTime)
    → printer.quota_mode ≡ exclude
    → get_user_quota s.quotas printer.id email ≡ some row
    → ¬ HeldFor quota (resolve_hold_reason s printer (some email) now)
unfolding get_effective_quota effective_excluded
exempt-not-held s printer email row now mode own held =
    let q = (resolve_hold_reason-quota_iff s printer (some email) now).0 held in
    ground (arith, q.named, q.over.effective, own, mode)
