-- ===== src/Quotas/Effective.antt =====
-- quotas/service.py: the rows that apply to one person at one printer.
-- The unique constraints of the two tables make the row of a query the first that fits.
use printops.Prelude.{
  ℕ, String, Bool, not, ◌&&◌, Option, none, some, List, ◌==◌, ltb, leb, if◌then◌else◌, find, filter,
  sum_by, is_none, has_text, str_eq, or_number,
}
use printops.Jobs.{Job}
use printops.Printers.{Printer, include, exclude}
use printops.Quotas.Periods.{Period}

pub record PrinterUserQuota : Type 0 where
  pub printer_id : ℕ
  pub user_email : Option String
  pub period : Period
  pub page_limit : Option ℕ

pub record PrinterReleaseBypass : Type 0 where
  pub printer_id : ℕ
  pub user_email : String

unfoldable pub get_user_quota : List PrinterUserQuota → ℕ → String → Option PrinterUserQuota
get_user_quota rows p email = find (λ q. q.printer_id == p && has_text q.user_email email) rows

unfoldable pub get_blanket_quota : List PrinterUserQuota → ℕ → Option PrinterUserQuota
get_blanket_quota rows p = find (λ q. q.printer_id == p && is_none q.user_email) rows

unfoldable pub effective_excluded :
    List PrinterUserQuota → ℕ → Option String → Option PrinterUserQuota
effective_excluded rows p none = get_blanket_quota rows p
effective_excluded rows p (some email) =
    if not (is_none (get_user_quota rows p email)) then none else get_blanket_quota rows p

unfoldable pub effective_included :
    List PrinterUserQuota → ℕ → Option String → Option PrinterUserQuota
effective_included rows p none = none
effective_included rows p (some email) = get_user_quota rows p email

unfoldable pub get_effective_quota :
    List PrinterUserQuota → Printer → Option String → Option PrinterUserQuota
unfolding effective_excluded effective_included
get_effective_quota rows printer email = elim printer.quota_mode [
  | exclude ↦ effective_excluded rows printer.id email
  | include ↦ effective_included rows printer.id email
]

-- A job that the usage query sums: [start, end).
abbrev pub counts_for : ℕ → String → ℕ → ℕ → Job → Bool
counts_for p email start end j =
    j.printer_id == p
    && (has_text j.submitted_by email && (leb start j.created_at && ltb j.created_at end))

unfoldable pub get_pages_used : List Job → ℕ → String → ℕ → ℕ → ℕ
get_pages_used jobs p email start end =
    sum_by (λ j. or_number j.page_count 0) (filter (counts_for p email start end) jobs)

unfoldable pub has_release_bypass : List PrinterReleaseBypass → ℕ → String → Bool
has_release_bypass rows p email =
    not (is_none (find (λ b. b.printer_id == p && str_eq b.user_email email) rows))
