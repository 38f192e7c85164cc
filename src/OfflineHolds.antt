-- ===== src/OfflineHolds.antt =====
-- printers/offline_holds.py: the jobs that were held because their printer was unreachable.
pub mod Waiting
pub mod Released
pub mod Order
pub mod Alert
mod Tests
use printops.Prelude.{
  ℕ, ◌+◌, ◌-◌, ◌*◌, ◌/◌, String, Bool, true, false, not, ◌&&◌, Option, none, some, List, [], ◌∷◌,
  ◌++◌, ltb, leb, ◌==◌, if◌then◌else◌, filter, length, min, is_none,
}
use printops.Text.{Text, Piece, lit, num}
use printops.Jobs.{
  Job, JobStatus, HoldReason, failed, forwarded, printer_offline, is_held, is_text, update_job,
}
use printops.Printers.{Printer, Capabilities}
use printops.JobReconcile.Sweep.{sort_by_created}
use printops.HeldJobs.{unlink}
use printops.Release.{Argument, LpOutcome, submit_released_job}

-- AWAY_TOO_LONG
abbrev pub away_too_long : ℕ
away_too_long = 24 * 3_600_000_000

abbrev pub is_printer_offline : Option HoldReason → Bool
is_printer_offline (some printer_offline) = true
is_printer_offline _ = false

-- The rows of both queries.
abbrev pub waits : ℕ → Job → Bool
waits printer_id job =
    (job.printer_id == printer_id) && (is_held job.status && is_printer_offline job.hold_reason)

abbrev pub waiting_for : ℕ → List Job → List Job
waiting_for printer_id jobs = sort_by_created (filter (waits printer_id) jobs)

-- `bool((printer.capabilities or {}).get("media_col_broken"))`
abbrev pub flag : Option Bool → Bool
flag none = false
flag (some b) = b

abbrev pub drops_page_size : Option Capabilities → Bool
drops_page_size none = false
drops_page_size (some c) = flag c.media_col_broken

-- The tables, the spool files, the documents handed to CUPS so far and their number.
pub record Progress : Type 0 where
  pub jobs : List Job
  pub files : List String
  pub submitted : List ℕ
  pub released : ℕ

abbrev pub path_of : Option String → String
path_of none = ""
path_of (some path) = path

abbrev pub lost_row : ℕ → Job → Job
lost_row now job = record job {
  status = failed;
  error_message = some (lit "Held while the printer was offline, but the document was lost." ∷ []);
  completed_at = some now;
}

abbrev pub failed_row : ℕ → Text → Job → Job
failed_row now message job = record job {
  status = failed;
  error_message = some message;
  completed_at = some now;
}

abbrev pub forwarded_row : ℕ → Job → Job
forwarded_row now job = record job {
  status = forwarded;
  completed_at = some now;
  held_file_path = none;
}

-- What follows the submission, on its error.
unfoldable pub after_submission : ℕ → Job → Option Text → Progress → Progress
unfolding update_job unlink
after_submission now job none p = record {
  jobs = update_job p.jobs job.id (λ _. forwarded_row now job);
  files = unlink (path_of job.held_file_path) p.files;
  submitted = p.submitted ++ (job.id ∷ []);
  released = p.released + 1;
}
after_submission now job (some message) p = record p {
  jobs = update_job p.jobs job.id (λ _. failed_row now message job);
}

module _ (lp : List Argument → LpOutcome) where
  -- The body of the loop.
  unfoldable pub release_job : ℕ → Printer → Job → Progress → Progress
  unfolding after_submission update_job submit_released_job
  release_job now printer job p =
      if not (is_text job.held_file_path)
      then record p { jobs = update_job p.jobs job.id (λ _. lost_row now job) }
      else after_submission now job
          (submit_released_job lp printer.id (path_of job.held_file_path) job.document_name
            job.copy_count job.held_job_options (drops_page_size printer.capabilities))
          p

  unfoldable pub release_each : ℕ → Printer → List Job → Progress → Progress
  unfolding release_job
  release_each now printer [] p = p
  release_each now printer (job ∷ waiting) p =
      release_each now printer waiting (release_job now printer job p)

  unfoldable pub release_jobs_waiting_for : ℕ → Printer → List Job → List String → Progress
  unfolding release_each
  release_jobs_waiting_for now printer jobs files =
      release_each now printer (waiting_for printer.id jobs)
        (record { jobs = jobs; files = files; submitted = []; released = 0 })
