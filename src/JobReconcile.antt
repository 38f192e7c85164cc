-- ===== src/JobReconcile.antt =====
-- printers/job_reconcile.py: job rows that were left in "forwarding" by a backend that never
-- reported, resolved from the record that cupsd has of the job (printers/job_control.py).
pub mod Sweep
pub mod Verdicts
pub mod Superseding
mod Tests
use printops.Prelude.{
  ℕ, ◌+◌, ◌*◌, ◌≤◌, String, Bool, true, false, not, ◌&&◌, ◌||◌, Option, none, some, List, [], ◌∷◌,
  ltb, leb, ◌==◌, str_eq, has_text, if◌then◌else◌,
}
use printops.Text.{Text, lit, num}
use printops.Jobs.{Job, forwarded, failed, cancelled}
use printops.Printers.{Capabilities}

-- RFC 8011's job states, by number, of which the sweep tells apart the final ones.
abbrev pub state_canceled : ℕ
state_canceled = 7

abbrev pub state_aborted : ℕ
state_aborted = 8

abbrev pub state_completed : ℕ
state_completed = 9

-- What cupsd answered about one job; no state is the answer that it has no record of it.
pub record CupsJobOutcome : Type 0 where
  pub state : Option ℕ
  pub reason : Option String
  pub page_count : Option ℕ
  pub color_mode : Option String
  pub duplex : Option Bool
  pub paper_size : Option String

-- `outcome.in_flight`: pending, pending-held, processing or processing-stopped
abbrev pub in_flight : CupsJobOutcome → Bool
in_flight o = elim o.state [ none ↦ false | some n ↦ leb 3 n && leb n 6 ]

abbrev pub no_record : CupsJobOutcome
no_record = record {
  state = none;
  reason = none;
  page_count = none;
  color_mode = none;
  duplex = none;
  paper_size = none;
}

abbrev pub seconds : ℕ → ℕ
seconds n = n * 1_000_000

-- thirty minutes, and two hours
abbrev pub stuck_after : ℕ
stuck_after = seconds 1800

abbrev pub unresolvable_after : ℕ
unresolvable_after = seconds 7200

abbrev pub max_per_sweep : ℕ
max_per_sweep = 200

abbrev pub no_color : Option Capabilities → Bool
no_color none = false
no_color (some c) = elim c.color_supported [ none ↦ false | some b ↦ not b ]

-- printers/capabilities.py: a printer that is known to have no color printed in grey.
unfoldable pub recorded_color_mode : Option Capabilities → Option String → Option String
recorded_color_mode capabilities reported =
    if not (has_text reported "color")
    then reported
    else if no_color capabilities
    then some "monochrome"
    else reported

abbrev pub superseded_message : ℕ → Text
superseded_message cups_job_id =
    lit "Superseded — the print server restarted CUPS job "
    ∷ num cups_job_id
    ∷ lit ", and the later record of it has what was printed."
    ∷ []

abbrev pub unknown_message : Text
unknown_message =
    lit
      "Outcome unknown — delivery stopped without reporting, and the print server no longer has a record of this job. It may well have printed."
    ∷ []

abbrev pub cancelled_message : Text
cancelled_message =
    lit
      "Cancelled at the print server — CUPS ends a job's delivery this way when it is cancelled, held or restarted."
    ∷ []

-- An empty reason reads like none.
abbrev pub aborted_message : Option String → Text
aborted_message none = lit "Aborted at the print server." ∷ []
aborted_message (some r) =
    if str_eq r ""
    then lit "Aborted at the print server." ∷ []
    else lit "Aborted at the print server." ∷ lit " CUPS's reason: " ∷ lit r ∷ lit "." ∷ []

-- The row of a final state, and whether the state is one.
abbrev pub resolve_final : Job → CupsJobOutcome → ℕ → ℕ → Option Capabilities → Job × Bool
resolve_final job o n now capabilities =
    if n == state_completed
    then (
      record job {
        status = forwarded;
        error_message = none;
        page_count = o.page_count;
        color_mode = recorded_color_mode capabilities o.color_mode;
        duplex = o.duplex;
        paper_size = o.paper_size;
        completed_at = some now;
      },
      true,
    )
    else if n == state_aborted
    then (
      record job {
        status = failed;
        error_message = some (aborted_message o.reason);
        completed_at = some now;
      },
      true,
    )
    else if n == state_canceled
    then (
      record job {
        status = cancelled;
        error_message = some cancelled_message;
        completed_at = some now;
      },
      true,
    )
    else (job, false)

-- `_resolve`: the new row, and whether it was resolved.
unfoldable pub resolve : Job → CupsJobOutcome → ℕ → Option Capabilities → Job × Bool
resolve job o now capabilities = if in_flight o then (job, false) else elim o.state [
  | none ↦ if ltb now (job.created_at + unresolvable_after) then (job, false) else (
    record job {
      status = cancelled;
      error_message = some unknown_message;
      completed_at = some now;
    },
    true,
  )
  | some n ↦ resolve_final job o n now capabilities
]

-- A row of the query in `_superseding_job_ids`: one attempt at the CUPS job of `job`.
abbrev pub same_cups_job : Job → Job → Bool
same_cups_job job row = row.printer_id == job.printer_id && elim job.cups_job_id [
  | none ↦ false
  | some c ↦ elim row.cups_job_id [ none ↦ false | some d ↦ d == c ]
]

-- One turn of the loop over the rows: the id and the creation of the latest attempt so far.
abbrev pub later_of : Job → Option (ℕ × ℕ) → Option (ℕ × ℕ)
later_of row none = some (row.id, row.created_at)
later_of row (some (i, at)) =
    if ltb at row.created_at then some (row.id, row.created_at) else some (i, at)

unfoldable pub latest : Job → List Job → Option (ℕ × ℕ) → Option (ℕ × ℕ)
latest job [] best = best
latest job (row ∷ rows) best =
    latest job rows (if same_cups_job job row then later_of row best else best)

-- The entry of `superseded` for one candidate.
unfoldable pub superseded_by : List Job → Job → Option ℕ
unfolding latest
superseded_by rows job = elim (latest job rows none) [
  | none ↦ none
  | some (i, at) ↦ if i == job.id then none else some i
]
