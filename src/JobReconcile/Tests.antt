-- ===== src/JobReconcile/Tests.antt =====
-- A sweep over small tables, and the theorems at them.
use printops.Prelude.{filter, ℕ, ◌≡◌, refl, true, Option, none, some, List, [], ◌∷◌}
use printops.Jobs.{Job, forwarding}
use printops.Printers.{Capabilities}
use printops.JobReconcile.{CupsJobOutcome, same_cups_job, latest, superseded_by}
use printops.JobReconcile.Sweep.{ask, turn}
use printops.JobReconcile.Verdicts.{Fair, turn-Fair}
use printops.JobReconcile.Superseding.{Stands, superseded_by-Stands}

abbrev early : Job
early = record {
  id = 5;
  printer_id = 1;
  cups_job_id = some 88;
  superseded_by_job_id = none;
  submitted_by = some "ann";
  status = forwarding;
  hold_reason = none;
  error_message = none;
  page_count = none;
  submitted_pages = none;
  document_name = none;
  copy_count = none;
  color_mode = none;
  duplex = none;
  paper_size = none;
  created_at = 7;
  completed_at = none;
  held_file_path = none;
  held_job_options = none;
}

abbrev late : Job
late = record early { id = 6; created_at = 9 }

abbrev rows : List Job
rows = early ∷ late ∷ []

-- cupsd has the job as completed, with three pages
abbrev cupsd : ℕ → ℕ → Option CupsJobOutcome
cupsd printer_id cups_job_id = some (record {
  state = some 9;
  reason = none;
  page_count = some 3;
  color_mode = some "color";
  duplex = some true;
  paper_size = none;
})

abbrev no_capabilities : ℕ → Option Capabilities
no_capabilities printer_id = none

early_superseded : superseded_by rows early ≡ some 6
unfolding superseded_by latest
early_superseded = refl

late_stands : superseded_by rows late ≡ none
unfolding superseded_by latest
late_stands = refl

turn-Fair_example :
    Fair 9_000_000_000 rows late
      (ask cupsd no_capabilities late)
      (turn cupsd no_capabilities 9_000_000_000 rows late)
turn-Fair_example = turn-Fair cupsd no_capabilities 9_000_000_000 rows late

superseded_by-Stands_example :
    (winner : ℕ) × (at : ℕ) × Stands rows (filter (same_cups_job late) rows) winner at
superseded_by-Stands_example = superseded_by-Stands rows late 88 refl refl
