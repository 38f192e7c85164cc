-- ===== src/PageReconcile/Fleet.antt =====
-- printers/page_reconcile.py: what a sweep of the fleet writes.
use printops.Prelude.{
  ℕ, Bool, true, false, Option, none, some, List, [], ◌∷◌, if◌then◌else◌, is_none, not, ◌&&◌, leb,
  ◌==◌,
}
use printops.Jobs.{Job, HoldReason, follow_me, is_forwarded}
use printops.Printers.{Printer, PagesRecord}
use printops.Counters.{PrinterCounterReading}
use printops.PageReconcile.{SentJob, LostWindow, assess, to_record}
use printops.PageReconcile.Sweep.{readings_by_printer, jobs_by_printer, last_instant, is_active}

-- The verdict on one printer, as its row has it after the sweep.
unfoldable pub verdict_on : Option (List LostWindow) → ℕ → Option PagesRecord
verdict_on none newest = none
verdict_on (some windows) newest = some (to_record windows newest)

-- A printer with fewer than two readings keeps its old verdict; any other has that of its readings.
unfoldable pub pages_not_printed_after :
    List (ℕ × ℕ) → List SentJob → Option PagesRecord → Option PagesRecord
unfolding verdict_on
pages_not_printed_after [] jobs old = old
pages_not_printed_after (first ∷ []) jobs old = old
pages_not_printed_after ((t, n) ∷ second ∷ readings) jobs old =
    verdict_on (assess ((t, n) ∷ second ∷ readings) jobs) (last_instant t (second ∷ readings))

unfoldable pub swept : ℕ → List PrinterCounterReading → List Job → Printer → Printer
unfolding pages_not_printed_after
swept since readings jobs printer =
    if is_active printer
    then record printer {
      pages_not_printed =
          pages_not_printed_after (readings_by_printer since printer.id readings)
            (jobs_by_printer since printer.id jobs) printer.pages_not_printed;
    }
    else printer

-- A reading of the printer since an instant.
abbrev pub is_reading_of : ℕ → ℕ → PrinterCounterReading → Bool
is_reading_of since id r = (r.printer_id == id) && leb since r.recorded_at

-- A job that the printer finished since an instant: sent to it, not superseded and not released from a Follow-Me queue.
abbrev pub is_at_follow_me : Option HoldReason → Bool
is_at_follow_me none = false
is_at_follow_me (some follow_me) = true
is_at_follow_me (some _) = false

abbrev pub is_finished : ℕ → Option ℕ → Bool
is_finished since none = false
is_finished since (some t) = leb since t

abbrev pub is_job_of : ℕ → ℕ → Job → Bool
is_job_of since id job =
    (job.printer_id == id)
    && (is_forwarded job.status
        && (is_finished since job.completed_at
            && (is_none job.superseded_by_job_id && not (is_at_follow_me job.hold_reason))))
