-- ===== src/OfflineHolds/Order.antt =====
-- printers/offline_holds.py: the order in which the jobs are handed to CUPS.
use printops.Prelude.{
  ℕ, ◌+◌, ◌≤◌, ◌≡◌, refl, sym, ap, ◌∙◌, String, Bool, true, false, ◌&&◌, Option, none, some, List,
  [], ◌∷◌, ◌++◌, if◌then◌else◌, filter, map, All, length, arith, Bool-cases, inl, inr, is_none, leb,
  leb→le, not-leb,
}
use printops.Text.{Text}
use printops.Jobs.{Job, is_text}
use printops.Printers.{Printer}
use printops.JobReconcile.Sweep.{insert_by_created, sort_by_created}
use printops.Release.{Argument, LpOutcome, submit_released_job}
use printops.OfflineHolds.{
  waits, waiting_for, Progress, after_submission, release_job, release_each,
  release_jobs_waiting_for, path_of, drops_page_size,
}

-- Each row was created no later than the next.
unfoldable pub IsOldestFirst : List Job → Type 0
IsOldestFirst [] = Unit
IsOldestFirst (j ∷ jobs) = All (λ r. j.created_at ≤ r.created_at) jobs × IsOldestFirst jobs

insert-All :
    (t : ℕ) (job : Job) (jobs : List Job)
    → t ≤ job.created_at
    → All (λ r. t ≤ r.created_at) jobs
    → All (λ r. t ≤ r.created_at) (insert_by_created job jobs)
unfolding insert_by_created
insert-All t job [] h k = (h, tt)
insert-All t job (j ∷ jobs) h k = elim (Bool-cases (leb job.created_at j.created_at)) [
  | inl e ↦ rw e (h, k)
  | inr e ↦ rw e (k.0, insert-All t job jobs h k.1)
]

later-All :
    (s t : ℕ) (jobs : List Job)
    → s ≤ t
    → All (λ r. t ≤ r.created_at) jobs
    → All (λ r. s ≤ r.created_at) jobs
later-All s t [] h k = tt
later-All s t (j ∷ jobs) h k = (omega (arith, h, k.0), later-All s t jobs h k.1)

insert-IsOldestFirst :
    (job : Job) (jobs : List Job) → IsOldestFirst jobs → IsOldestFirst (insert_by_created job jobs)
unfolding IsOldestFirst insert_by_created
insert-IsOldestFirst job [] h = (tt, tt)
insert-IsOldestFirst job (j ∷ jobs) h = elim (Bool-cases (leb job.created_at j.created_at)) [
  | inl e ↦
      let le = leb→le job.created_at j.created_at e in
      rw e ((le, later-All job.created_at j.created_at jobs le h.0), h)
  | inr e ↦
      let lt = not-leb job.created_at j.created_at e in
      rw e (
        insert-All j.created_at job jobs (omega (arith, lt)) h.0,
        insert-IsOldestFirst job jobs h.1,
      )
]

sort-IsOldestFirst : (jobs : List Job) → IsOldestFirst (sort_by_created jobs)
unfolding IsOldestFirst sort_by_created
sort-IsOldestFirst [] = tt
sort-IsOldestFirst (j ∷ jobs) =
    insert-IsOldestFirst j (sort_by_created jobs) (sort-IsOldestFirst jobs)

module _ (lp : List Argument → LpOutcome) (now : ℕ) (printer : Printer) where
  abbrev error_of : Job → Option Text
  error_of job =
      submit_released_job lp printer.id (path_of job.held_file_path) job.document_name
        job.copy_count job.held_job_options (drops_page_size printer.capabilities)

  -- A job has a document, and `lp` takes it.
  abbrev pub is_taken : Job → Bool
  is_taken job = is_text job.held_file_path && is_none (error_of job)

  abbrev pub ids_taken : List Job → List ℕ
  ids_taken jobs = map (λ j. j.id) (filter is_taken jobs)

  abbrev with_id : Job → Bool → List ℕ → List ℕ
  with_id job b ids = if b then ids ++ (job.id ∷ []) else ids

  after-submitted :
      (job : Job) (o : Option Text) (p : Progress)
      → ((after_submission now job o p).submitted ≡ with_id job (is_none o) p.submitted)
        × ((after_submission now job o p).released ≡ p.released + (if is_none o then 1 else 0))
  unfolding after_submission
  after-submitted job none p = (refl, refl)
  after-submitted job (some m) p = (refl, omega arith)

  job-submitted :
      (job : Job) (p : Progress)
      → ((release_job lp now printer job p).submitted ≡ with_id job (is_taken job) p.submitted)
        × ((release_job lp now printer job p).released
            ≡ p.released + (if is_taken job then 1 else 0))
  unfolding release_job
  job-submitted job p = elim (Bool-cases (is_text job.held_file_path)) [
    | inl e ↦ rw e (after-submitted job (error_of job) p)
    | inr e ↦ rw e (refl, omega arith)
  ]

  append_assoc : (xs : List ℕ) (y : ℕ) (ys : List ℕ) → (xs ++ (y ∷ [])) ++ ys ≡ xs ++ (y ∷ ys)
  append_assoc [] y ys = refl
  append_assoc (x ∷ xs) y ys = ap (λ l. x ∷ l) (append_assoc xs y ys)

  append_nil : (xs : List ℕ) → xs ++ [] ≡ xs
  append_nil [] = refl
  append_nil (x ∷ xs) = ap (λ l. x ∷ l) (append_nil xs)

  each-submitted :
      (waiting : List Job) (p : Progress)
      → ((release_each lp now printer waiting p).submitted ≡ p.submitted ++ ids_taken waiting)
        × ((release_each lp now printer waiting p).released
            ≡ p.released + length (ids_taken waiting))
  unfolding release_each
  each-submitted [] p = (sym (append_nil p.submitted), omega arith)
  each-submitted (job ∷ waiting) p =
      let ih = each-submitted waiting (release_job lp now printer job p) in
      let one = job-submitted job p in
      elim (Bool-cases (is_taken job)) [
        | inl e ↦ (
          ih.0
              ∙ ap (λ ids. ids ++ ids_taken waiting) (one.0 ∙ ap (λ b. with_id job b p.submitted) e)
              ∙ append_assoc p.submitted job.id (ids_taken waiting)
              ∙ ap (λ js. p.submitted ++ map (λ j. j.id) js) (sym (kept e)),
          ih.1
              ∙ ap (λ n. n + length (ids_taken waiting))
                  (one.1 ∙ ap (λ b. p.released + (if b then 1 else 0)) e)
              ∙ omega arith
              ∙ ap (λ js. p.released + length (map (λ j. j.id) js)) (sym (kept e)),
        )
        | inr e ↦ (
          ih.0
              ∙ ap (λ ids. ids ++ ids_taken waiting) (one.0 ∙ ap (λ b. with_id job b p.submitted) e)
              ∙ ap (λ js. p.submitted ++ map (λ j. j.id) js) (sym (dropped e)),
          ih.1
              ∙ ap (λ n. n + length (ids_taken waiting))
                  (one.1 ∙ ap (λ b. p.released + (if b then 1 else 0)) e)
              ∙ omega arith
              ∙ ap (λ js. p.released + length (map (λ j. j.id) js)) (sym (dropped e)),
        )
      ]
    where
      kept : is_taken job ≡ true → filter is_taken (job ∷ waiting) ≡ job ∷ filter is_taken waiting
      kept e = rw e

      dropped : is_taken job ≡ false → filter is_taken (job ∷ waiting) ≡ filter is_taken waiting
      dropped e = rw e

  -- The jobs of a printer that came back are handed to CUPS oldest first: those that wait, have a
  -- document and are taken by `lp`, each once, and the call returns their number.
  pub release_jobs_waiting_for-IsOldestFirst :
      (jobs : List Job) (files : List String)
      → IsOldestFirst (waiting_for printer.id jobs)
        × ((release_jobs_waiting_for lp now printer jobs files).submitted
            ≡ ids_taken (waiting_for printer.id jobs))
        × ((release_jobs_waiting_for lp now printer jobs files).released
            ≡ length (ids_taken (waiting_for printer.id jobs)))
  unfolding release_jobs_waiting_for
  release_jobs_waiting_for-IsOldestFirst jobs files =
      let e =
        each-submitted (waiting_for printer.id jobs)
          (record { jobs = jobs; files = files; submitted = []; released = 0 }) in
      (sort-IsOldestFirst (filter (waits printer.id) jobs), e.0, e.1 ∙ omega arith)
