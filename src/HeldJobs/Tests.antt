-- ===== src/HeldJobs/Tests.antt =====
-- Small inputs of the discard, and the theorems at them.
use printops.Prelude.{
  String, ◌≡◌, refl, true, none, some, [], ◌∷◌, str_eq, any, ◌&&◌, not, ◌==◌, if◌then◌else◌,
}
use printops.Jobs.{Job, held, get_job, update_job}
use printops.HeldJobs.{
  World, discarded, hold_not_found, cancel_row, claims, owner_clause, returned, remove_spool,
  discard_seen, discard_hold, submitted_by_one_of,
}
use printops.HeldJobs.Outcomes.{
  answer, is_spool, IsDiscarded, discard_hold-effect, discard_hold-once, discard_hold-hides,
}

abbrev job : Job
job = record {
  id = 5;
  printer_id = 1;
  cups_job_id = some 88;
  superseded_by_job_id = none;
  submitted_by = some "ann";
  status = held;
  hold_reason = none;
  error_message = none;
  page_count = none;
  submitted_pages = none;
  document_name = none;
  copy_count = none;
  color_mode = none;
  duplex = none;
  paper_size = none;
  created_at = 7;
  completed_at = none;
  held_file_path = some "/held/5";
  held_job_options = none;
}

abbrev world : World
world = record { jobs = job ∷ []; files = "/held/5" ∷ "/held/6" ∷ [] }

abbrev id : String → String
id s = s

by_admin : discard_hold id id 9 5 none world ≡ (
  record { jobs = cancel_row 9 job ∷ []; files = "/held/6" ∷ [] },
  discarded (cancel_row 9 job),
)
unfolding discard_hold claims owner_clause update_job remove_spool returned cancel_row
by_admin = refl

discard_hold-effect_example :
    ((discard_hold id id 9 5 none world).1 ≡ answer id id 9 none (some job))
    × (get_job (discard_hold id id 9 5 none world).0.jobs 5
        ≡ (if (5 == 5) && claims id id none (some job) then some (cancel_row 9 job) else some job))
    × (any (str_eq "/held/6") (discard_hold id id 9 5 none world).0.files
        ≡ (not (claims id id none (some job) && is_spool (some "/held/5") "/held/6") && true))
discard_hold-effect_example = discard_hold-effect id id 9 5 5 none "/held/6" world

admin_discards : IsDiscarded (discard_hold id id 9 5 none world).1
unfolding discard_hold claims owner_clause update_job remove_spool returned cancel_row
admin_discards = tt

discard_hold-once_example :
    (¬ IsDiscarded
      (discard_seen id id
        (some job)
        10
        5
        (some ("ann" ∷ []))
        (discard_hold id id 9 5 none world).0).1)
    × ((discard_seen id id
          (some job)
          10
          5
          (some ("ann" ∷ []))
          (discard_hold id id 9 5 none world).0).0
        ≡ (discard_hold id id 9 5 none world).0)
discard_hold-once_example =
    discard_hold-once id id 9 10 5 none (some ("ann" ∷ [])) (some job) world admin_discards

discard_hold-hides_example :
    discard_hold id id 9 5 (some ("bob" ∷ [])) world ≡ (world, hold_not_found)
unfolding submitted_by_one_of
discard_hold-hides_example =
    discard_hold-hides id id 9 5 ("bob" ∷ []) world job "ann" refl refl refl refl refl
