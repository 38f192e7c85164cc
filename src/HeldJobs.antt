-- ===== src/HeldJobs.antt =====
-- held_jobs/service.py: discarding a held job, by an administrator or by its owner.
pub mod Outcomes
mod Tests
use printops.Prelude.{
  ℕ, String, Bool, true, false, not, ◌&&◌, ◌||◌, Option, none, some, List, [], ◌∷◌, map, str_eq,
  if◌then◌else◌, any, is_none, filter,
}
use printops.Text.{Text, lit}
use printops.Jobs.{Job, JobStatus, cancelled, is_held, get_job, update_job, is_text}

-- The tables and the spool files.
pub record World : Type 0 where
  pub jobs : List Job
  pub files : List String

pub data Result : Type 0 where
  discarded : Job → Result
  hold_not_found : Result
  hold_no_longer_held : JobStatus → Result

-- `Path(p).unlink(missing_ok=True)`
unfoldable pub unlink : String → List String → List String
unlink p files = filter (λ f. not (str_eq f p)) files

-- The values that the claim writes.
unfoldable pub cancel_row : ℕ → Job → Job
cancel_row now j = record j {
  status = cancelled;
  error_message = some (lit "Discarded without printing" ∷ []);
  completed_at = some now;
  held_file_path = none;
}

-- `existing.held_file_path if existing else None`
abbrev pub spool_of : Option Job → Option String
spool_of none = none
spool_of (some j) = j.held_file_path

unfoldable pub remove_spool : Option String → List String → List String
unfolding unlink
remove_spool none files = files
remove_spool (some p) files = if str_eq p "" then files else unlink p files

-- The new row, read again for the result.
unfoldable pub returned : Option Job → Result
returned none = hold_not_found
returned (some j) = discarded j

-- `lower` is the database's function, `casefold` that of `str`.
module _ (lower casefold : String → String) where
  -- `func.lower(Job.submitted_by).in_([o.casefold() for o in owned_by])`
  unfoldable pub owner_clause : Option (List String) → Option String → Bool
  owner_clause none submitted = true
  owner_clause (some owned_by) none = false
  owner_clause (some owned_by) (some submitted) =
      any (str_eq (lower submitted)) (map casefold owned_by)

  unfoldable pub claims : Option (List String) → Option Job → Bool
  unfolding owner_clause
  claims owned_by none = false
  claims owned_by (some j) = is_held j.status && owner_clause owned_by j.submitted_by

  unfoldable pub submitted_by_one_of : Option String → List String → Bool
  submitted_by_one_of none identities = false
  submitted_by_one_of (some s) identities =
      not (str_eq s "") && any (λ identity. str_eq (casefold identity) (casefold s)) identities

  -- What a caller is told whose claim failed.
  unfoldable pub refusal : Option (List String) → Option Job → Result
  unfolding submitted_by_one_of
  refusal owned_by none = hold_not_found
  refusal none (some j) = hold_no_longer_held j.status
  refusal (some owned_by) (some j) =
      if not (submitted_by_one_of j.submitted_by owned_by)
      then hold_not_found
      else hold_no_longer_held j.status

  -- The call from its claim on. `existing` is the row that the call read before, so that other
  -- sessions may have written in between.
  unfoldable pub discard_seen : Option Job → ℕ → ℕ → Option (List String) → World → World × Result
  discard_seen existing now job_id owned_by w =
      if not (claims owned_by (get_job w.jobs job_id))
      then (w, refusal owned_by (get_job w.jobs job_id))
      else (let jobs = update_job w.jobs job_id (cancel_row now) in
          (
            record { jobs = jobs; files = remove_spool (spool_of existing) w.files },
            returned (get_job jobs job_id),
          ))

  unfoldable pub discard_hold : ℕ → ℕ → Option (List String) → World → World × Result
  unfolding discard_seen
  discard_hold now job_id owned_by w = discard_seen (get_job w.jobs job_id) now job_id owned_by w
