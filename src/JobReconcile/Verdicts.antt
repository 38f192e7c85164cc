-- ===== src/JobReconcile/Verdicts.antt =====
-- What one turn may do to a row, and what the counters add up to.
use printops.Prelude.{
  ℕ, ◌+◌, ◌≤◌, ◌≡◌, refl, ◌∙◌, true, false, ◌&&◌, Option, none, some, List, [], ◌∷◌, arith, ltb,
  leb, if◌then◌else◌, filter, length, is_none, length-take-le, not-ltb, Bool-cases, ◌⊎◌, inl, inr,
}
use printops.Jobs.{Job, update_job}
use printops.Printers.{Capabilities}
use printops.JobReconcile.{
  CupsJobOutcome, unresolvable_after, state_canceled, state_aborted, state_completed, resolve,
  resolve_final, superseded_by,
}
use printops.JobReconcile.Sweep.{
  ReconcileResult, Turn, resolved_turn, in_flight_turn, kept_turn, unasked_turn, row_of, tally, ask,
  judge, turn_with, turn, sweep_loop, candidates, sort_by_created, is_stuck, nothing_done,
  reconcile_stuck_jobs,
}

abbrev pub total : ReconcileResult → ℕ
total r = r.resolved + r.left_in_flight + r.unresolvable_kept + r.unasked

total-tally : (t : Turn) (r : ReconcileResult) → total (tally t r) ≡ total r + 1
total-tally (resolved_turn j) r = omega arith
total-tally (in_flight_turn j) r = omega arith
total-tally (kept_turn j) r = omega arith
total-tally (unasked_turn j) r = omega arith

-- Why a row may leave "forwarding".
pub data Justified (now : ℕ) (rows : List Job) (job : Job) (answer : Option CupsJobOutcome)
    : Type 0 where
  -- a later attempt at the same CUPS job took over
  superseded : (winner : ℕ) → superseded_by rows job ≡ some winner → Justified now rows job answer
  -- cupsd has the job in a final state
  final :
      (o : CupsJobOutcome) (n : ℕ)
      → answer ≡ some o
      → o.state ≡ some n
      → (n ≡ state_completed) ⊎ ((n ≡ state_aborted) ⊎ (n ≡ state_canceled))
      → Justified now rows job answer
  -- cupsd has no record of it, and the row is two hours old
  written_off :
      (o : CupsJobOutcome)
      → answer ≡ some o
      → o.state ≡ none
      → job.created_at + unresolvable_after ≤ now
      → Justified now rows job answer

-- A turn that is counted as resolved is justified; any other leaves the row as it is.
abbrev pub Fair : ℕ → List Job → Job → Option CupsJobOutcome → Turn → Type 0
Fair now rows job answer (resolved_turn j) = Justified now rows job answer
Fair now rows job answer (in_flight_turn j) = j ≡ job
Fair now rows job answer (kept_turn j) = j ≡ job
Fair now rows job answer (unasked_turn j) = j ≡ job

final_state :
    (job : Job) (o : CupsJobOutcome) (n now : ℕ) (c : Option Capabilities)
    → ((resolve_final job o n now c).1 ≡ true)
        × ((n ≡ state_completed) ⊎ ((n ≡ state_aborted) ⊎ (n ≡ state_canceled)))
      ⊎ (resolve_final job o n now c ≡ (job, false))
final_state job o n now c = ground arith

resolve_state :
    (job : Job) (o : CupsJobOutcome) (now : ℕ) (c : Option Capabilities) (s : Option ℕ)
    → o.state ≡ s
    → (resolve job o now c ≡ (job, false))
      ⊎ ((resolve job o now c).1 ≡ true)
        × (((n : ℕ) × (s ≡ some n)
              × ((n ≡ state_completed) ⊎ ((n ≡ state_aborted) ⊎ (n ≡ state_canceled))))
            ⊎ ((s ≡ none) × (job.created_at + unresolvable_after ≤ now)))
unfolding resolve
resolve_state job o now c none e =
    elim (Bool-cases (ltb now (job.created_at + unresolvable_after))) [
      | inl young ↦ inl (rw (e, young))
      | inr old ↦
          inr (rw (e, old), inr (refl, not-ltb now (job.created_at + unresolvable_after) old))
    ]
resolve_state job o now c (some n) e = elim (Bool-cases (leb 3 n && leb n 6)) [
  | inl flight ↦ inl (rw (e, flight))
  | inr done ↦ elim (final_state job o n now c) [
    | inl (t, k) ↦ inr (rw (e, done) t, inl (n, refl, k))
    | inr same ↦ inl (rw (e, done) same)
  ]
]

module _ (lookup : ℕ → ℕ → Option CupsJobOutcome) (capabilities : ℕ → Option Capabilities) where
  judge-Fair :
      (now : ℕ) (rows : List Job) (job : Job) (answer : Option CupsJobOutcome)
      → Fair now rows job answer (judge lookup capabilities now job answer)
  unfolding judge
  judge-Fair now rows job none = refl
  judge-Fair now rows job (some o) =
      elim (resolve_state job o now (capabilities job.printer_id) o.state refl) [
        | inl same ↦ rw same (left o.state)
        | inr (done, inl (n, e, k)) ↦ rw done (final o n refl e k)
        | inr (done, inr (e, old)) ↦ rw done (written_off o refl e old)
      ]
    where
      left :
          (s : Option ℕ)
          → Fair now rows job (some o) (if is_none s then kept_turn job else in_flight_turn job)
      left none = refl
      left (some n) = refl

  -- No row is written off on a guess. A turn that resolves a row does so because a later attempt at
  -- the same CUPS job took over, because cupsd has the job as completed, aborted or canceled, or
  -- because cupsd has no record of it (or there was nothing to ask) and the row is two hours old.
  -- Every other turn, an unanswered question included, leaves the row as it is.
  pub turn-Fair :
      (now : ℕ) (rows : List Job) (job : Job)
      → Fair now rows job (ask lookup capabilities job) (turn lookup capabilities now rows job)
  unfolding turn
  turn-Fair now rows job = by_entry (superseded_by rows job) refl
    where
      by_entry :
          (entry : Option ℕ)
          → superseded_by rows job ≡ entry
          → Fair now rows job
              (ask lookup capabilities job)
              (turn_with lookup capabilities now job entry)
      by_entry none e = judge-Fair now rows job (ask lookup capabilities job)
      by_entry (some winner) e = superseded winner e

  loop-total :
      (now : ℕ) (rows cands jobs : List Job) (r : ReconcileResult)
      → total (sweep_loop lookup capabilities now rows cands (jobs, r)).1 ≡ total r + length cands
  unfolding sweep_loop
  loop-total now rows [] jobs r = omega arith
  loop-total now rows (job ∷ rest) jobs r =
      let t = turn lookup capabilities now rows job in
      omega (
        arith,
        loop-total now rows rest (update_job jobs job.id (λ _. row_of t)) (tally t r),
        total-tally t r,
      )

  -- The four counters account for every candidate, and a sweep takes at most `limit` of them.
  reconcile_stuck_jobs-total :
      (now limit : ℕ) (jobs : List Job)
      → (total (reconcile_stuck_jobs lookup capabilities now limit jobs).1
          ≡ length (candidates now limit jobs))
        × (total (reconcile_stuck_jobs lookup capabilities now limit jobs).1 ≤ limit)
  unfolding reconcile_stuck_jobs candidates
  reconcile_stuck_jobs-total now limit jobs =
      let e = loop-total now jobs (candidates now limit jobs) jobs nothing_done in
      (
        e ∙ (omega arith),
        omega (arith, e, length-take-le {0} limit (sort_by_created (filter (is_stuck now) jobs))),
      )
