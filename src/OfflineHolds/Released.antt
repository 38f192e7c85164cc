-- ===== src/OfflineHolds/Released.antt =====
-- printers/offline_holds.py: what a release makes of each row.
use mathlib.Core.Path.{subst}
use printops.Prelude.{
  sym, branch_true, branch_false, if◌then◌else◌, ℕ, ◌≡◌, refl, ap, ◌∙◌, String, Bool, true, false,
  ◌||◌, ◌&&◌, not, is_none, Option, none, some, List, [], ◌∷◌, ◌==◌, any, filter, All, arith,
  Bool-cases, inl, inr, ◌⊎◌,
}
use printops.Text.{Text}
use printops.Jobs.{Job, update_job, is_text, forwarded, failed, is_forwarded}
use printops.Printers.{Printer}
use printops.Release.{Argument, LpOutcome, submit_released_job}
use printops.OfflineHolds.{
  waits, waiting_for, Progress, lost_row, failed_row, forwarded_row, after_submission, release_job,
  release_each, release_jobs_waiting_for, path_of, drops_page_size,
}
use printops.OfflineHolds.Order.{is_taken}
use printops.JobReconcile.Sweep.{insert_by_created, sort_by_created}
use printops.OfflineHolds.Waiting.{among, among-sort, Covered, All-Covered, none_waits}

-- The rows of two tables in their order.
abbrev pub Pointwise : (Job → Job → Type 0) → List Job → List Job → Type 0
Pointwise R [] [] = Unit
Pointwise R (x ∷ xs) (y ∷ ys) = R x y × Pointwise R xs ys
Pointwise R _ _ = ⊥

-- A row that had its turn.
pub record IsResolved (now : ℕ) (r : Job) : Type 0 where
  pub status : (r.status ≡ forwarded) ⊎ (r.status ≡ failed)
  pub completed_at : r.completed_at ≡ some now

any-insert :
    (p : Job → Bool) (job : Job) (jobs : List Job)
    → any p (insert_by_created job jobs) ≡ (p job || any p jobs)
unfolding insert_by_created
any-insert p job [] = refl
any-insert p job (j ∷ jobs) = ground (arith, any-insert p job jobs)

any-sort : (p : Job → Bool) (jobs : List Job) → any p (sort_by_created jobs) ≡ any p jobs
unfolding sort_by_created
any-sort p [] = refl
any-sort p (j ∷ jobs) = any-insert p j (sort_by_created jobs) ∙ ap (λ b. p j || b) (any-sort p jobs)

module _ (lp : List Argument → LpOutcome) (now : ℕ) (printer : Printer) where
  -- A job with the id has a document that `lp` takes, or it has none that it takes.
  abbrev pub has_answer : List Job → ℕ → Bool → Bool
  has_answer jobs i taken =
      any
        (λ j.
          (j.id == i)
          && (if taken then is_taken lp now printer j else not (is_taken lp now printer j)))
        jobs

  answer_later :
      (x : Job) (ys zs : List Job)
      → All (λ j. has_answer ys j.id (is_taken lp now printer j) ≡ true) zs
      → All (λ j. has_answer (x ∷ ys) j.id (is_taken lp now printer j) ≡ true) zs
  answer_later x ys [] a = tt
  answer_later x ys (z ∷ zs) (h, a) = (ground (arith, h), answer_later x ys zs a)

  own_answers :
      (ys : List Job) → All (λ j. has_answer ys j.id (is_taken lp now printer j) ≡ true) ys
  own_answers [] = tt
  own_answers (y ∷ ys) = (
    elim (Bool-cases (is_taken lp now printer y)) [
      | inl t ↦ rw t (ground (arith, t))
      | inr t ↦ rw t (ground (arith, t))
    ],
    answer_later y ys ys (own_answers ys),
  )

  module _ (all : List Job) where
    -- On the way: a row as it was, with its turn to come if it waits, or one that had its turn.
    abbrev Turned : List Job → Job → Job → Type 0
    Turned waiting r r' =
        ((r' ≡ r) × (waits printer.id r ≡ true → among r.id waiting ≡ true))
        ⊎ (IsResolved now r'
            × (r'.id ≡ r.id)
            × (has_answer all r.id (is_forwarded r'.status) ≡ true))

    id_of_Turned : (waiting : List Job) (r r' : Job) → Turned waiting r r' → r'.id ≡ r.id
    id_of_Turned waiting r r' (inl (e, w)) = ap (λ (j : Job). j.id) e
    id_of_Turned waiting r r' (inr (d, e, m)) = e

    not_first : (k i : ℕ) (b : Bool) → (k == i) ≡ false → ((i == k) || b) ≡ true → b ≡ true
    not_first k i b n h = ground arith

    stays :
        (job r r' : Job) (waiting : List Job)
        → (r'.id == job.id) ≡ false
        → Turned (job ∷ waiting) r r'
        → Turned waiting r r'
    stays job r r' waiting n (inr h) = inr h
    stays job r r' waiting n (inl (e, w)) =
        let k : (r.id == job.id) ≡ false = subst (λ (j : Job). (j.id == job.id) ≡ false) e n in
        inl (e, λ h. not_first r.id job.id (among r.id waiting) k (w h))

    turns :
        (job new r r' : Job) (waiting : List Job)
        → IsResolved now new
        → new.id ≡ job.id
        → has_answer all job.id (is_forwarded new.status) ≡ true
        → Turned (job ∷ waiting) r r'
        → Turned waiting r (if r'.id == job.id then new else r')
    turns job new r r' waiting d i m t = elim (Bool-cases (r'.id == job.id)) [
      | inr n ↦ subst (Turned waiting r) (sym (branch_false _ _ _ n)) (stays job r r' waiting n t)
      | inl y ↦
          let same : job.id ≡ r.id =
            sym (same_id r'.id job.id y) ∙ id_of_Turned (job ∷ waiting) r r' t in
          subst (Turned waiting r) (sym (branch_true _ _ _ y)) (
            inr
              (d, i ∙ same, subst (λ k. has_answer all k (is_forwarded new.status) ≡ true) same m))
    ]
      where
        same_id : (a b : ℕ) → (a == b) ≡ true → a ≡ b
        same_id a b h = ground arith

    update-Turned :
        (job new : Job) (waiting jobs jobs' : List Job)
        → IsResolved now new
        → new.id ≡ job.id
        → has_answer all job.id (is_forwarded new.status) ≡ true
        → Pointwise (Turned (job ∷ waiting)) jobs jobs'
        → Pointwise (Turned waiting) jobs (update_job jobs' job.id (λ _. new))
    unfolding update_job
    update-Turned job new waiting [] [] d i m h = tt
    update-Turned job new waiting [] (r' ∷ jobs') d i m h = elim h [ ]
    update-Turned job new waiting (r ∷ jobs) [] d i m h = elim h [ ]
    update-Turned job new waiting (r ∷ jobs) (r' ∷ jobs') d i m (t, h) =
        (turns job new r r' waiting d i m t, update-Turned job new waiting jobs jobs' d i m h)

    after-Turned :
        (job : Job) (waiting jobs : List Job) (o : Option Text) (p : Progress)
        → has_answer all job.id (is_none o) ≡ true
        → Pointwise (Turned (job ∷ waiting)) jobs p.jobs
        → Pointwise (Turned waiting) jobs (after_submission now job o p).jobs
    unfolding after_submission
    after-Turned job waiting jobs none p m h =
        update-Turned job (forwarded_row now job) waiting jobs p.jobs
          (record { status = inl refl; completed_at = refl }) refl m h
    after-Turned job waiting jobs (some e) p m h =
        update-Turned job (failed_row now e job) waiting jobs p.jobs
          (record { status = inr refl; completed_at = refl }) refl m h

    job-Turned :
        (job : Job) (waiting jobs : List Job) (p : Progress)
        → has_answer all job.id (is_taken lp now printer job) ≡ true
        → Pointwise (Turned (job ∷ waiting)) jobs p.jobs
        → Pointwise (Turned waiting) jobs (release_job lp now printer job p).jobs
    unfolding release_job
    job-Turned job waiting jobs p m h = elim (Bool-cases (is_text job.held_file_path)) [
      | inl e ↦ rw e (
          after-Turned job waiting jobs
            (submit_released_job lp printer.id (path_of job.held_file_path) job.document_name
              job.copy_count job.held_job_options (drops_page_size printer.capabilities))
            p (answered e m) h)
      | inr e ↦ rw e (
          update-Turned job (lost_row now job) waiting jobs p.jobs
            (record { status = inr refl; completed_at = refl }) refl (lost e m) h)
    ]
      where
        answered :
            is_text job.held_file_path ≡ true
            → has_answer all job.id (is_taken lp now printer job) ≡ true
            → has_answer all job.id (
                is_none (
                  submit_released_job lp printer.id
                    (path_of job.held_file_path)
                    job.document_name
                    job.copy_count
                    job.held_job_options
                    (drops_page_size printer.capabilities)))
              ≡ true
        answered e m =
            subst (λ b. has_answer all job.id b ≡ true)
              (ap
                (λ b.
                  b
                  && is_none (
                      submit_released_job lp printer.id (path_of job.held_file_path)
                        job.document_name job.copy_count job.held_job_options
                        (drops_page_size printer.capabilities)))
                e)
              m

        lost :
            is_text job.held_file_path ≡ false
            → has_answer all job.id (is_taken lp now printer job) ≡ true
            → has_answer all job.id false ≡ true
        lost e m =
            subst (λ b. has_answer all job.id b ≡ true)
              (ap
                (λ b.
                  b
                  && is_none (
                      submit_released_job lp printer.id (path_of job.held_file_path)
                        job.document_name job.copy_count job.held_job_options
                        (drops_page_size printer.capabilities)))
                e)
              m

    each-Turned :
        (waiting jobs : List Job) (p : Progress)
        → All (λ j. has_answer all j.id (is_taken lp now printer j) ≡ true) waiting
        → Pointwise (Turned waiting) jobs p.jobs
        → Pointwise (Turned []) jobs (release_each lp now printer waiting p).jobs
    unfolding release_each
    each-Turned [] jobs p a h = h
    each-Turned (job ∷ waiting) jobs p (m, a) h =
        each-Turned waiting jobs (release_job lp now printer job p) a
          (job-Turned job waiting jobs p m h)

    start-Turned :
        (jobs : List Job) → Covered printer.id all jobs → Pointwise (Turned all) jobs jobs
    start-Turned [] c = tt
    start-Turned (r ∷ jobs) (c, cs) = (inl (refl, c), start-Turned jobs cs)

  -- What the release makes of a row: nothing, and the row did not wait; or it has the id of one that waited, and is now
  -- forwarded or failed as one with that id was taken or was not.
  abbrev pub Released : List Job → Job → Job → Type 0
  Released jobs r r' =
      ((r' ≡ r) × (waits printer.id r ≡ false))
      ⊎ (IsResolved now r'
          × (r'.id ≡ r.id)
          × (has_answer (filter (waits printer.id) jobs) r.id (is_forwarded r'.status) ≡ true))

  Released-rows :
      (jobs rows rows' : List Job)
      → Pointwise (Turned (waiting_for printer.id jobs) []) rows rows'
      → Pointwise (Released jobs) rows rows'
  Released-rows jobs [] [] h = tt
  Released-rows jobs [] (r' ∷ rows') h = elim h [ ]
  Released-rows jobs (r ∷ rows) [] h = elim h [ ]
  Released-rows jobs (r ∷ rows) (r' ∷ rows') (inl (e, w), h) =
      (inl (e, ground (arith, w)), Released-rows jobs rows rows' h)
  Released-rows jobs (r ∷ rows) (r' ∷ rows') (inr (d, i, m), h) = (
    inr (d, i, sym (any-sort _ (filter (waits printer.id) jobs)) ∙ m),
    Released-rows jobs rows rows' h,
  )

  -- A printer that comes back has no job waiting for it afterwards, whatever `lp` answers: each row is as it was and did not
  -- wait, or it has the id of a row that waited and is completed at that time, forwarded if a row that waited with that id
  -- has a document that `lp` takes, or failed if one has none that it takes.
  pub release_jobs_waiting_for-none_left :
      (jobs : List Job) (files : List String)
      → (any (waits printer.id) (release_jobs_waiting_for lp now printer jobs files).jobs ≡ false)
        × Pointwise (Released jobs) jobs (release_jobs_waiting_for lp now printer jobs files).jobs
  unfolding release_jobs_waiting_for
  release_jobs_waiting_for-none_left jobs files =
      let all = waiting_for printer.id jobs in
      let p : Progress = record { jobs = jobs; files = files; submitted = []; released = 0 } in
      let covered =
        All-Covered printer.id jobs all
          (λ k m. among-sort k (filter (waits printer.id) jobs) ∙ m) in
      (
        none_waits lp now printer jobs files,
        Released-rows jobs jobs (release_each lp now printer all p).jobs
            (each-Turned all all jobs p (own_answers all) (start-Turned all jobs covered)),
      )
