-- ===== src/JobReconcile/Sweep.antt =====
-- `reconcile_stuck_jobs`: the candidates, what becomes of each, and the table afterwards.
use printops.Prelude.{
  ℕ, ◌+◌, Bool, ◌&&◌, Option, none, some, List, [], ◌∷◌, ltb, leb, if◌then◌else◌, filter, take,
  is_none,
}
use printops.Jobs.{Job, cancelled, is_forwarding, update_job}
use printops.Printers.{Capabilities}
use printops.JobReconcile.{
  CupsJobOutcome, no_record, stuck_after, superseded_message, resolve, superseded_by,
}

-- `ORDER BY created_at`, as a stable insertion.
unfoldable pub insert_by_created : Job → List Job → List Job
insert_by_created j [] = j ∷ []
insert_by_created j (k ∷ l) =
    if leb j.created_at k.created_at then j ∷ k ∷ l else k ∷ insert_by_created j l

unfoldable pub sort_by_created : List Job → List Job
unfolding insert_by_created
sort_by_created [] = []
sort_by_created (j ∷ l) = insert_by_created j (sort_by_created l)

abbrev pub is_stuck : ℕ → Job → Bool
is_stuck now j = is_forwarding j.status && ltb (j.created_at + stuck_after) now

unfoldable pub candidates : ℕ → ℕ → List Job → List Job
unfolding sort_by_created
candidates now limit jobs = take limit (sort_by_created (filter (is_stuck now) jobs))

pub record ReconcileResult : Type 0 where
  pub resolved : ℕ
  pub left_in_flight : ℕ
  pub unresolvable_kept : ℕ
  pub unasked : ℕ

-- How one candidate ended: its row, and the counter that it moved.
pub data Turn : Type 0 where
  resolved_turn in_flight_turn kept_turn unasked_turn : Job → Turn

abbrev pub row_of : Turn → Job
row_of (resolved_turn j) = j
row_of (in_flight_turn j) = j
row_of (kept_turn j) = j
row_of (unasked_turn j) = j

abbrev pub tally : Turn → ReconcileResult → ReconcileResult
tally (resolved_turn _) r = record r { resolved = r.resolved + 1 }
tally (in_flight_turn _) r = record r { left_in_flight = r.left_in_flight + 1 }
tally (kept_turn _) r = record r { unresolvable_kept = r.unresolvable_kept + 1 }
tally (unasked_turn _) r = record r { unasked = r.unasked + 1 }

-- The message names the CUPS job, which every superseded row has.
abbrev pub supersede : ℕ → Job → ℕ → Job
supersede now job winner = record job {
  status = cancelled;
  superseded_by_job_id = some winner;
  error_message = some (superseded_message (elim job.cups_job_id [ none ↦ 0 | some c ↦ c ]));
  completed_at = some now;
}

abbrev pub nothing_done : ReconcileResult
nothing_done = record { resolved = 0; left_in_flight = 0; unresolvable_kept = 0; unasked = 0 }

-- The two collaborators: cupsd's answer about a job of a printer's queue (no answer is `none`), and
-- the capabilities column of the printers.
module _ (lookup : ℕ → ℕ → Option CupsJobOutcome) (capabilities : ℕ → Option Capabilities) where
  -- Nothing is asked about a row with no CUPS job id.
  abbrev pub ask : Job → Option CupsJobOutcome
  ask job = elim job.cups_job_id [ none ↦ some no_record | some c ↦ lookup job.printer_id c ]

  unfoldable pub judge : ℕ → Job → Option CupsJobOutcome → Turn
  judge now job none = unasked_turn job
  judge now job (some o) =
      let (job', done) = resolve job o now (capabilities job.printer_id) in
      if done
      then resolved_turn job'
      else if is_none o.state
      then kept_turn job
      else in_flight_turn job

  -- The body of the loop over the candidates, on the entry of `superseded`.
  unfoldable pub turn_with : ℕ → Job → Option ℕ → Turn
  turn_with now job (some winner) = resolved_turn (supersede now job winner)
  turn_with now job none = judge now job (ask job)

  unfoldable pub turn : ℕ → List Job → Job → Turn
  unfolding turn_with
  turn now rows job = turn_with now job (superseded_by rows job)

  -- The loop: the table and the counters. `rows` is the table as the query for the attempts saw it.
  unfoldable pub sweep_loop :
      ℕ → List Job → List Job → List Job × ReconcileResult → List Job × ReconcileResult
  sweep_loop now rows [] acc = acc
  sweep_loop now rows (job ∷ rest) (jobs, result) =
      let t = turn now rows job in
      sweep_loop now rows rest (update_job jobs job.id (λ _. row_of t), tally t result)

  unfoldable pub reconcile_stuck_jobs : ℕ → ℕ → List Job → List Job × ReconcileResult
  reconcile_stuck_jobs now limit jobs =
      sweep_loop now jobs (candidates now limit jobs) (jobs, nothing_done)
