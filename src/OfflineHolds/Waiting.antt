-- ===== src/OfflineHolds/Waiting.antt =====
-- printers/offline_holds.py: what a release leaves behind.
use printops.Prelude.{
  ℕ, ◌≡◌, refl, ap, ◌∙◌, String, Bool, true, false, ◌||◌, Option, none, some, List, [], ◌∷◌, ◌==◌,
  any, filter, All, arith, Bool-cases, inl, inr,
}
use printops.Text.{Text}
use printops.Jobs.{Job, update_job, is_text}
use printops.Printers.{Printer}
use printops.JobReconcile.Sweep.{insert_by_created, sort_by_created}
use printops.Release.{Argument, LpOutcome, submit_released_job}
use printops.OfflineHolds.{
  waits, waiting_for, Progress, lost_row, failed_row, forwarded_row, after_submission, release_job,
  release_each, release_jobs_waiting_for, path_of, drops_page_size,
}

abbrev pub among : ℕ → List Job → Bool
among k jobs = any (λ j. j.id == k) jobs

among-insert :
    (k : ℕ) (job : Job) (jobs : List Job)
    → among k (insert_by_created job jobs) ≡ ((job.id == k) || among k jobs)
unfolding insert_by_created
among-insert k job [] = refl
among-insert k job (j ∷ jobs) = ground (arith, among-insert k job jobs)

pub among-sort : (k : ℕ) (jobs : List Job) → among k (sort_by_created jobs) ≡ among k jobs
unfolding sort_by_created
among-sort k [] = refl
among-sort k (j ∷ jobs) =
    among-insert k j (sort_by_created jobs) ∙ ap (λ b. (j.id == k) || b) (among-sort k jobs)

-- Every row that waits is among the rows to be released.
abbrev pub Covered : ℕ → List Job → List Job → Type 0
Covered printer_id waiting jobs =
    All (λ r. waits printer_id r ≡ true → among r.id waiting ≡ true) jobs

not_waiting :
    (printer_id : ℕ) (r : Job) (b : Bool)
    → waits printer_id r ≡ false
    → waits printer_id r ≡ true
    → b ≡ true
not_waiting printer_id r b h k = cc

update-Covered :
    (printer_id : ℕ) (job new : Job) (waiting jobs : List Job)
    → waits printer_id new ≡ false
    → Covered printer_id (job ∷ waiting) jobs
    → Covered printer_id waiting (update_job jobs job.id (λ _. new))
unfolding update_job
update-Covered printer_id job new waiting [] n h = tt
update-Covered printer_id job new waiting (r ∷ jobs) n h = (
  elim (Bool-cases (r.id == job.id)) [
    | inl e ↦ rw e (not_waiting printer_id new (among new.id waiting) n)
    | inr e ↦ rw e (λ w. other r.id e (h.0 w))
  ],
  update-Covered printer_id job new waiting jobs n h.1,
)
  where
    other :
        (k : ℕ) → (k == job.id) ≡ false → among k (job ∷ waiting) ≡ true → among k waiting ≡ true
    other k e m = ground arith

none_left :
    (printer_id : ℕ) (jobs : List Job)
    → Covered printer_id [] jobs
    → any (waits printer_id) jobs ≡ false
none_left printer_id [] h = refl
none_left printer_id (r ∷ jobs) h = elim (Bool-cases (waits printer_id r)) [
  | inl e ↦ cc (h.0 e)
  | inr e ↦ rw e (none_left printer_id jobs h.1)
]

pub All-Covered :
    (printer_id : ℕ) (jobs all : List Job)
    → ((k : ℕ) → among k (filter (waits printer_id) jobs) ≡ true → among k all ≡ true)
    → All (λ r. waits printer_id r ≡ true → among r.id all ≡ true) jobs
All-Covered printer_id [] all h = tt
All-Covered printer_id (r ∷ jobs) all h = elim (Bool-cases (waits printer_id r)) [
  | inl e ↦ (
    λ w. h r.id (rw e (ground arith)),
    All-Covered printer_id jobs all (λ k m. h k (rw e (ground (arith, m)))),
  )
  | inr e ↦ (λ w. cc (e, w), All-Covered printer_id jobs all (λ k m. h k (rw e m)))
]

module _ (lp : List Argument → LpOutcome) (now : ℕ) (printer : Printer) where
  after-Covered :
      (job : Job) (waiting : List Job) (o : Option Text) (p : Progress)
      → Covered printer.id (job ∷ waiting) p.jobs
      → Covered printer.id waiting (after_submission now job o p).jobs
  unfolding after_submission
  after-Covered job waiting none p h =
      update-Covered printer.id job (forwarded_row now job) waiting p.jobs (ground arith) h
  after-Covered job waiting (some m) p h =
      update-Covered printer.id job (failed_row now m job) waiting p.jobs (ground arith) h

  job-Covered :
      (job : Job) (waiting : List Job) (p : Progress)
      → Covered printer.id (job ∷ waiting) p.jobs
      → Covered printer.id waiting (release_job lp now printer job p).jobs
  unfolding release_job
  job-Covered job waiting p h = elim (Bool-cases (is_text job.held_file_path)) [
    | inl e ↦ rw e (
        after-Covered job waiting
          (submit_released_job lp printer.id (path_of job.held_file_path) job.document_name
            job.copy_count job.held_job_options (drops_page_size printer.capabilities))
          p h)
    | inr e ↦
        rw e (update-Covered printer.id job (lost_row now job) waiting p.jobs (ground arith) h)
  ]

  each-Covered :
      (waiting : List Job) (p : Progress)
      → Covered printer.id waiting p.jobs
      → Covered printer.id [] (release_each lp now printer waiting p).jobs
  unfolding release_each
  each-Covered [] p h = h
  each-Covered (job ∷ waiting) p h =
      each-Covered waiting (release_job lp now printer job p) (job-Covered job waiting p h)

  pub none_waits :
      (jobs : List Job) (files : List String)
      → any (waits printer.id) (release_jobs_waiting_for lp now printer jobs files).jobs ≡ false
  unfolding release_jobs_waiting_for
  none_waits jobs files =
      let p : Progress = record { jobs = jobs; files = files; submitted = []; released = 0 } in
      none_left printer.id (release_each lp now printer (waiting_for printer.id jobs) p).jobs (
        each-Covered (waiting_for printer.id jobs) p (
          All-Covered printer.id jobs (waiting_for printer.id jobs)
            (λ k m. among-sort k (filter (waits printer.id) jobs) ∙ m)))
