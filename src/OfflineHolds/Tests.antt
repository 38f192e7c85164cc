-- ===== src/OfflineHolds/Tests.antt =====
-- A printer that comes back to two jobs, and the theorems at it.
use printops.Prelude.{◌≡◌, refl, false, none, some, List, [], ◌∷◌, any, length}
use printops.Jobs.{Job, held, printer_offline}
use printops.Printers.Sample.{sample_printer}
use printops.Printers.{Printer}
use printops.Release.{Argument, LpOutcome, accepted}
use printops.OfflineHolds.{waits, waiting_for, release_jobs_waiting_for}
use printops.OfflineHolds.Released.{Pointwise, Released, release_jobs_waiting_for-none_left}
use printops.OfflineHolds.Alert.{describe_wait, oldest_of, counted}
use printops.OfflineHolds.Order.{IsOldestFirst, ids_taken, release_jobs_waiting_for-IsOldestFirst}

abbrev printer : Printer
printer = record sample_printer { id = 1; name = "ES Copier"; ip_address = none }

abbrev late : Job
late = record {
  id = 5;
  printer_id = 1;
  cups_job_id = some 88;
  superseded_by_job_id = none;
  submitted_by = some "ann";
  status = held;
  hold_reason = some printer_offline;
  error_message = none;
  page_count = none;
  submitted_pages = none;
  document_name = none;
  copy_count = none;
  color_mode = none;
  duplex = none;
  paper_size = none;
  created_at = 9;
  completed_at = none;
  held_file_path = some "/held/5";
  held_job_options = none;
}

abbrev early : Job
early = record late { id = 6; created_at = 7; held_file_path = some "/held/6" }

abbrev jobs : List Job
jobs = late ∷ early ∷ []

abbrev takes_all : List Argument → LpOutcome
takes_all arguments = accepted

release_jobs_waiting_for-none_left_example :
    (any (waits 1) (release_jobs_waiting_for takes_all 10 printer jobs ("/held/5" ∷ [])).jobs
      ≡ false)
    × Pointwise
        (Released takes_all 10 printer jobs)
        jobs
        (release_jobs_waiting_for takes_all 10 printer jobs ("/held/5" ∷ [])).jobs
release_jobs_waiting_for-none_left_example =
    release_jobs_waiting_for-none_left takes_all 10 printer jobs ("/held/5" ∷ [])

release_jobs_waiting_for-IsOldestFirst_example :
    IsOldestFirst (waiting_for 1 jobs)
    × ((release_jobs_waiting_for takes_all 10 printer jobs []).submitted
        ≡ ids_taken takes_all 10 printer (waiting_for 1 jobs))
    × ((release_jobs_waiting_for takes_all 10 printer jobs []).released
        ≡ length (ids_taken takes_all 10 printer (waiting_for 1 jobs)))
release_jobs_waiting_for-IsOldestFirst_example =
    release_jobs_waiting_for-IsOldestFirst takes_all 10 printer jobs []

-- A day later, with the printer never seen, there would have been something to tell.
wait_of_a_day : describe_wait (oldest_of jobs) 90_000_000_007 ≡ counted 1 " day" " days"
unfolding describe_wait oldest_of
wait_of_a_day = refl
