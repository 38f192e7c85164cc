-- ===== src/PageReconcile/Sweep.antt =====
-- printers/page_reconcile.py: sweep_unprinted_pages.
use printops.Prelude.{
  ℕ, ◌+◌, ◌-◌, Bool, true, false, not, ◌&&◌, Option, none, some, List, [], ◌∷◌, ltb, leb, ◌==◌,
  if◌then◌else◌, is_none,
}
use printops.Jobs.{Job, HoldReason, follow_me, is_forwarded}
use printops.Printers.{Printer}
use printops.Counters.{PrinterCounterReading}
use printops.PageReconcile.{SentJob, LostWindow, assess, to_record, window}

-- `ORDER BY recorded_at` on the readings of a printer, as (instant, total)
unfoldable pub insert_reading : ℕ × ℕ → List (ℕ × ℕ) → List (ℕ × ℕ)
insert_reading (t, n) [] = (t, n) ∷ []
insert_reading (t, n) ((u, m) ∷ rows) =
    let rest = insert_reading (t, n) rows in
    if ltb u t then (u, m) ∷ rest else (t, n) ∷ (u, m) ∷ rows

abbrev pub at_instant : ℕ → Option ℕ → Option (ℕ × ℕ)
at_instant t none = none
at_instant t (some n) = some (t, n)

-- The readings of one printer, which the grouping in Python picks from those of the fleet.
abbrev pub reading_of : ℕ → ℕ → PrinterCounterReading → Option (ℕ × ℕ)
reading_of since printer_id r =
    if r.printer_id == printer_id && leb since r.recorded_at
    then at_instant r.recorded_at r.page_count_total
    else none

abbrev pub add_reading : Option (ℕ × ℕ) → List (ℕ × ℕ) → List (ℕ × ℕ)
add_reading none rows = rows
add_reading (some r) rows = insert_reading r rows

unfoldable pub readings_by_printer : ℕ → ℕ → List PrinterCounterReading → List (ℕ × ℕ)
unfolding insert_reading
readings_by_printer since printer_id [] = []
readings_by_printer since printer_id (r ∷ rows) =
    add_reading (reading_of since printer_id r) (readings_by_printer since printer_id rows)

-- `func.coalesce(Job.page_count, Job.submitted_pages)`
abbrev pub coalesce : Option ℕ → Option ℕ → Option ℕ
coalesce none b = b
coalesce (some a) b = some a

abbrev pub is_follow_me : Option HoldReason → Bool
is_follow_me (some follow_me) = true
is_follow_me _ = false

abbrev pub sent : Job → Option ℕ → Option ℕ → Option SentJob
sent job (some at) (some pages) =
    if ltb 0 pages
    then some (record {
      completed_at = at;
      pages = pages;
      duplex = job.duplex;
      document_name = job.document_name;
    })
    else none
sent job _ _ = none

abbrev pub since_then : ℕ → Option ℕ → Bool
since_then since none = false
since_then since (some at) = leb since at

-- What the query for jobs and the grouping make of a row, for one printer.
unfoldable pub sent_by : ℕ → ℕ → Job → Option SentJob
sent_by since printer_id job =
    if job.printer_id == printer_id
      && (is_forwarded job.status
          && (since_then since job.completed_at
              && (is_none job.superseded_by_job_id && not (is_follow_me job.hold_reason))))
    then sent job job.completed_at (coalesce job.page_count job.submitted_pages)
    else none

abbrev pub add_job : Option SentJob → List SentJob → List SentJob
add_job none jobs = jobs
add_job (some j) jobs = j ∷ jobs

unfoldable pub jobs_by_printer : ℕ → ℕ → List Job → List SentJob
unfolding sent_by
jobs_by_printer since printer_id [] = []
jobs_by_printer since printer_id (job ∷ jobs) =
    add_job (sent_by since printer_id job) (jobs_by_printer since printer_id jobs)

pub record SweepResult : Type 0 where
  pub assessed : ℕ
  pub flagged : ℕ
  pub cleared : ℕ

-- `printer_readings[-1][0]`
abbrev pub last_instant : ℕ → List (ℕ × ℕ) → ℕ
last_instant t [] = t
last_instant t ((u, n) ∷ rows) = last_instant u rows

abbrev pub count_assessed : SweepResult → SweepResult
count_assessed r = record r { assessed = r.assessed + 1 }

-- The body of the loop behind the assessment.
unfoldable pub settle : Printer → ℕ → Option (List LostWindow) → SweepResult → Printer × SweepResult
unfolding to_record
settle printer newest none r =
    if is_none printer.pages_not_printed
    then (printer, r)
    else (record printer { pages_not_printed = none }, record r { cleared = r.cleared + 1 })
settle printer newest (some windows) r = (
  record printer { pages_not_printed = some (to_record windows newest) },
  record r { flagged = r.flagged + 1 },
)

unfoldable pub sweep_printer :
    Printer → List (ℕ × ℕ) → List SentJob → SweepResult → Printer × SweepResult
unfolding settle assess
sweep_printer printer [] jobs r = (printer, r)
sweep_printer printer (first ∷ []) jobs r = (printer, r)
sweep_printer printer ((t, n) ∷ second ∷ readings) jobs r =
    settle printer (last_instant t (second ∷ readings)) (assess ((t, n) ∷ second ∷ readings) jobs)
      (count_assessed r)

-- `Printer.archived_at.is_(None), Printer.is_virtual.is_(False)`
abbrev pub is_active : Printer → Bool
is_active printer = is_none printer.archived_at && not printer.is_virtual

unfoldable pub sweep_printers :
    ℕ
    → List PrinterCounterReading
    → List Job
    → List Printer
    → SweepResult
    → List Printer × SweepResult
unfolding sweep_printer readings_by_printer jobs_by_printer
sweep_printers since readings jobs [] r = ([], r)
sweep_printers since readings jobs (printer ∷ printers) r =
    let one =
      sweep_printer printer (readings_by_printer since printer.id readings)
        (jobs_by_printer since printer.id jobs) r in
    let (p, s) = if is_active printer then one else (printer, r) in
    let (ps, end) = sweep_printers since readings jobs printers s in (p ∷ ps, end)

unfoldable pub sweep_unprinted_pages :
    ℕ → List PrinterCounterReading → List Job → List Printer → List Printer × SweepResult
unfolding sweep_printers
sweep_unprinted_pages now readings jobs printers =
    sweep_printers (now - window) readings jobs printers
      (record { assessed = 0; flagged = 0; cleared = 0 })
