-- ===== src/Jobs.antt =====
-- models/job.py: the row of a print job, as far as the modelled services read or write it.
-- Instants are microseconds since a fixed origin, identifiers are numbers.
pub mod Rows
use printops.Prelude.{
  ℕ, String, Bool, true, false, Option, List, [], ◌∷◌, none, some, not, ◌==◌, str_eq, if◌then◌else◌,
  find,
}
use printops.Text.{Text}

pub data JobStatus : Type 0 where
  received forwarding forwarded failed cancelled held : JobStatus

pub data HoldReason : Type 0 where
  pin_release follow_me quota printer_offline : HoldReason

pub record Job : Type 0 where
  pub id : ℕ
  pub printer_id : ℕ
  pub cups_job_id : Option ℕ
  pub superseded_by_job_id : Option ℕ
  pub submitted_by : Option String
  pub status : JobStatus
  pub hold_reason : Option HoldReason
  pub error_message : Option Text
  pub page_count : Option ℕ
  pub submitted_pages : Option ℕ
  pub document_name : Option String
  pub copy_count : Option ℕ
  pub color_mode : Option String
  pub duplex : Option Bool
  pub paper_size : Option String
  pub created_at : ℕ
  pub completed_at : Option ℕ
  pub held_file_path : Option String
  -- the options string of CUPS, by its code points
  pub held_job_options : Option (List ℕ)

-- `job.status == "held"`
abbrev pub is_held : JobStatus → Bool
is_held held = true
is_held _ = false

-- `job.status == "forwarding"`
abbrev pub is_forwarding : JobStatus → Bool
is_forwarding forwarding = true
is_forwarding _ = false

-- `job.status == "forwarded"`
abbrev pub is_forwarded : JobStatus → Bool
is_forwarded forwarded = true
is_forwarded _ = false

-- `db.get(Job, job_id)`
abbrev pub get_job : List Job → ℕ → Option Job
get_job jobs k = find (λ j. j.id == k) jobs

-- An `UPDATE` of the row of a primary key.
unfoldable pub update_job : List Job → ℕ → (Job → Job) → List Job
update_job [] k f = []
update_job (j ∷ jobs) k f = (if j.id == k then f j else j) ∷ update_job jobs k f

-- An optional text that is not empty: the test `if path:`.
abbrev pub is_text : Option String → Bool
is_text none = false
is_text (some s) = not (str_eq s "")
