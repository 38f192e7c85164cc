-- ===== src/HeldJobs/Outcomes.antt =====
-- What a discard returns, what it changes and what it leaves alone.
use mathlib.Core.Option
use mathlib.Core.Path.{subst}
use printops.Prelude.{
  ℕ, String, ◌≡◌, refl, ◌∙◌, ap, Bool, false, not, ◌&&◌, Option, none, some, List, [], ◌∷◌, map,
  str_eq, eq_iff, arith, ◌==◌, if◌then◌else◌, any, Bool-cases, inl, inr,
}
use printops.Jobs.{Job, get_job, update_job}
use printops.Jobs.Rows.{get_job-update_job}
use printops.HeldJobs.{
  World, Result, discarded, hold_not_found, unlink, cancel_row, owner_clause, claims,
  submitted_by_one_of, refusal, spool_of, remove_spool, returned, discard_seen, discard_hold,
}

any-unlink :
    (p f : String) (files : List String)
    → any (str_eq f) (unlink p files) ≡ (not (str_eq f p) && any (str_eq f) files)
unfolding unlink
any-unlink p f [] = ground arith
any-unlink p f (g ∷ files) =
    ground (arith, any-unlink p f files, eq_iff f g, eq_iff g p, eq_iff f p)

-- `f` is the document at `path`; no file has the empty name.
abbrev pub is_spool : Option String → String → Bool
is_spool none f = false
is_spool (some p) f = not (str_eq p "") && str_eq f p

any-remove_spool :
    (p : Option String) (f : String) (files : List String)
    → any (str_eq f) (remove_spool p files) ≡ (not (is_spool p f) && any (str_eq f) files)
unfolding remove_spool
any-remove_spool none f files = ground arith
any-remove_spool (some p) f files = ground (arith, any-unlink p f files)

abbrev pub IsDiscarded : Result → Type 0
IsDiscarded (discarded j) = Unit
IsDiscarded _ = ⊥

module _ (lower casefold : String → String) where
  -- The answer to a call, from the row alone.
  unfoldable pub answer : ℕ → Option (List String) → Option Job → Result
  answer now owned_by row =
      if claims lower casefold owned_by row
      then returned (Option.map (cancel_row now) row)
      else refusal lower casefold owned_by row

  cancelled_row :
      (now job_id i : ℕ) (jobs : List Job)
      → get_job (update_job jobs job_id (cancel_row now)) i
        ≡ (if job_id == i then Option.map (cancel_row now) (get_job jobs i) else get_job jobs i)
  unfolding cancel_row
  cancelled_row now job_id i jobs = get_job-update_job jobs job_id i (cancel_row now) (λ j. refl)

  -- A discard answers from the row of the job alone, moves that row to cancelled exactly when it
  -- claims it, leaves every other row, and deletes that row's document and no other file.
  pub discard_hold-effect :
      (now job_id i : ℕ) (owned_by : Option (List String)) (f : String) (w : World)
      → ((discard_hold lower casefold now job_id owned_by w).1
          ≡ answer now owned_by (get_job w.jobs job_id))
        × (get_job (discard_hold lower casefold now job_id owned_by w).0.jobs i ≡ (
            if (job_id == i) && claims lower casefold owned_by (get_job w.jobs job_id)
            then Option.map (cancel_row now) (get_job w.jobs i)
            else get_job w.jobs i))
        × (any (str_eq f) (discard_hold lower casefold now job_id owned_by w).0.files ≡ (
            not (
              claims lower casefold owned_by (get_job w.jobs job_id)
              && is_spool (spool_of (get_job w.jobs job_id)) f)
            && any (str_eq f) w.files))
  unfolding discard_hold answer
  discard_hold-effect now job_id i owned_by f w =
      elim (Bool-cases (claims lower casefold owned_by (get_job w.jobs job_id))) [
        | inl c ↦ rw c (
          ap returned (cancelled_row now job_id job_id w.jobs ∙ (ground arith)),
          cancelled_row now job_id i w.jobs ∙ (ground arith),
          any-remove_spool (spool_of (get_job w.jobs job_id)) f w.files,
        )
        | inr c ↦ rw c (refl, ground arith, ground arith)
      ]

  refusal-not-IsDiscarded :
      (owned_by : Option (List String)) (row : Option Job)
      → ¬ IsDiscarded (refusal lower casefold owned_by row)
  unfolding refusal
  refusal-not-IsDiscarded owned_by none h = h
  refusal-not-IsDiscarded none (some j) h = h
  refusal-not-IsDiscarded (some o) (some j) h =
      elim (Bool-cases (submitted_by_one_of lower casefold j.submitted_by o)) [
        | inl e ↦ rw e at h
        | inr e ↦ rw e at h
      ]

  not_held-not_claimed :
      (owned_by : Option (List String)) (now : ℕ) (row : Option Job)
      → claims lower casefold owned_by (Option.map (cancel_row now) row) ≡ false
  unfolding claims cancel_row
  not_held-not_claimed owned_by now none = refl
  not_held-not_claimed owned_by now (some j) = refl

  unclaimed-eq :
      (existing : Option Job) (now job_id : ℕ) (owned_by : Option (List String)) (w : World)
      → claims lower casefold owned_by (get_job w.jobs job_id) ≡ false
      → discard_seen lower casefold existing now job_id owned_by w
        ≡ (w, refusal lower casefold owned_by (get_job w.jobs job_id))
  unfolding discard_seen
  unclaimed-eq existing now job_id owned_by w c = rw c

  claimed_row :
      (now job_id : ℕ) (owned_by : Option (List String)) (w : World)
      → IsDiscarded (discard_hold lower casefold now job_id owned_by w).1
      → get_job (discard_hold lower casefold now job_id owned_by w).0.jobs job_id
        ≡ Option.map (cancel_row now) (get_job w.jobs job_id)
  unfolding discard_hold
  claimed_row now job_id owned_by w h =
      elim (Bool-cases (claims lower casefold owned_by (get_job w.jobs job_id))) [
        | inl c ↦ (discard_hold-effect now job_id job_id owned_by "" w).1 ∙ rw c (ground arith)
        | inr c ↦ absurd (
            refusal-not-IsDiscarded owned_by (get_job w.jobs job_id) (
              subst (λ r. IsDiscarded r.1)
                (unclaimed-eq (get_job w.jobs job_id) now job_id owned_by w c) h))
      ]

  -- A job is discarded once: after one call has discarded it, no call of anybody discards it again,
  -- not even one that read the row while it was held, and such a call changes nothing.
  pub discard_hold-once :
      (now later job_id : ℕ) (owned_by others : Option (List String)) (stale : Option Job)
      (w : World)
      → IsDiscarded (discard_hold lower casefold now job_id owned_by w).1
      → (¬ IsDiscarded
          (discard_seen lower casefold stale later job_id others
            (discard_hold lower casefold now job_id owned_by w).0).1)
        × ((discard_seen lower casefold stale later job_id others
              (discard_hold lower casefold now job_id owned_by w).0).0
            ≡ (discard_hold lower casefold now job_id owned_by w).0)
  discard_hold-once now later job_id owned_by others stale w h =
      let row = claimed_row now job_id owned_by w h in
      let e =
        unclaimed-eq stale later job_id others (discard_hold lower casefold now job_id owned_by w).0
          (rw row (not_held-not_claimed others now (get_job w.jobs job_id))) in
      rw e (refusal-not-IsDiscarded others _, refl)

  any-fold :
      (x : String) (ids : List String)
      → any (str_eq x) (map casefold ids) ≡ any (λ i. str_eq (casefold i) x) ids
  any-fold x [] = refl
  any-fold x (i ∷ ids) =
      ground (arith, any-fold x ids, eq_iff x (casefold i), eq_iff (casefold i) x)

  stranger-not_claimed :
      (identities : List String) (j : Job) (submitter : String)
      → j.submitted_by ≡ some submitter
      → lower submitter ≡ casefold submitter
      → submitted_by_one_of lower casefold (some submitter) identities ≡ false
      → str_eq submitter "" ≡ false
      → claims lower casefold (some identities) (some j) ≡ false
  unfolding claims owner_clause submitted_by_one_of
  stranger-not_claimed identities j submitter by agree other named =
      rw (by, agree) (ground (arith, any-fold (casefold submitter) identities))

  -- Where the two case foldings agree on the submitter, a caller who is restricted to their own jobs
  -- gets for somebody else's job, held or not, what they get for a job that does not exist, and
  -- nothing changes.
  pub discard_hold-hides :
      (now job_id : ℕ) (identities : List String) (w : World) (j : Job) (submitter : String)
      → get_job w.jobs job_id ≡ some j
      → j.submitted_by ≡ some submitter
      → lower submitter ≡ casefold submitter
      → submitted_by_one_of lower casefold (some submitter) identities ≡ false
      → str_eq submitter "" ≡ false
      → discard_hold lower casefold now job_id (some identities) w ≡ (w, hold_not_found)
  unfolding discard_hold
  discard_hold-hides now job_id identities w j submitter row by agree other named =
      rw (row, stranger-not_claimed identities j submitter by agree other named) told_nothing
    where
      told_nothing :
          ◌≡◌ {A = World × Result}
            (w, refusal lower casefold (some identities) (some j))
            (w, hold_not_found)
      told_nothing = unfold refusal in (rw (by, other))
