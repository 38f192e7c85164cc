-- ===== src/Release.antt =====
-- printers/release.py: the delivery of a held job through the internal release queue.
pub mod Plain
mod Tests
use printops.Prelude.{
  ℕ, String, Bool, true, false, not, Option, none, some, List, [], ◌∷◌, ◌++◌, ◌==◌, if◌then◌else◌,
  any, filter,
}
use printops.Text.{Text, lit, num, uuid}
use printops.Jobs.{is_text}
use printops.MediaOptions.{is_space, equals, with_current, strip_media_options}

-- `raw.split()`
unfoldable pub split_spaces : List ℕ → List (List ℕ) → List ℕ → List (List ℕ)
unfolding is_space
split_spaces [] tokens current = with_current tokens current
split_spaces (c ∷ raw) tokens current =
    split_spaces raw (if is_space c then with_current tokens current else tokens)
      (if is_space c then [] else current ++ (c ∷ []))

abbrev pub has_equals : List ℕ → Bool
has_equals token = any (λ c. c == equals) token

unfoldable pub parse_job_options : List ℕ → List (List ℕ)
unfolding split_spaces
parse_job_options raw = filter has_equals (split_spaces raw [] [])

-- One argument of the command line.
pub data Argument : Type 0 where
  word : String → Argument
  release_queue : ℕ → Argument
  number : ℕ → Argument
  option : List ℕ → Argument

abbrev pub copies : Option ℕ → List Argument
copies none = []
copies (some n) = if n == 0 then [] else word "-n" ∷ number n ∷ []

abbrev pub title : Option String → List Argument
title none = []
title (some name) = if is_text (some name) then word "-t" ∷ word name ∷ [] else []

unfoldable pub option_arguments : List (List ℕ) → List Argument
option_arguments [] = []
option_arguments (o ∷ options) = word "-o" ∷ option o ∷ option_arguments options

-- `held_job_options or ""`, less the page size for a printer that cannot parse it
abbrev pub replayed_options : Option (List ℕ) → Bool → List ℕ
replayed_options none drop_page_size = if drop_page_size then strip_media_options [] else []
replayed_options (some raw) drop_page_size = if drop_page_size then strip_media_options raw else raw

unfoldable pub arguments :
    ℕ → String → Option String → Option ℕ → Option (List ℕ) → Bool → List Argument
unfolding parse_job_options option_arguments strip_media_options
arguments printer_id held_file_path document_name copy_count held_job_options drop_page_size =
    (word "lp" ∷ word "-d" ∷ release_queue printer_id ∷ [])
    ++ (copies copy_count
        ++ (title document_name
            ++ (option_arguments
                  (parse_job_options (replayed_options held_job_options drop_page_size))
                ++ (word held_file_path ∷ []))))

-- How `lp` ends: with its stripped output where it fails, and whether that names an unknown
-- destination.
pub data LpOutcome : Type 0 where
  accepted not_found timed_out : LpOutcome
  exited : (is_unknown_destination : Bool) → Option Text → LpOutcome

-- The ReleaseError; `none` is a job that was handed to CUPS.
unfoldable pub release_error : ℕ → LpOutcome → Option Text
release_error printer_id accepted = none
release_error printer_id not_found =
    some (lit "The `lp` command isn't available on the PrintOps server." ∷ [])
release_error printer_id timed_out = some (lit "Releasing the job timed out." ∷ [])
release_error printer_id (exited true reason) = some (
    lit "No internal release queue exists for this printer yet — run scripts/sync_release_queue.sh "
    ∷ uuid printer_id
    ∷ lit " on the print server first."
    ∷ [])
release_error printer_id (exited false none) = some (lit "lp exited with an error." ∷ [])
release_error printer_id (exited false (some reason)) = some reason

-- `lp` is the command, a function of its arguments.
unfoldable pub submit_released_job :
    (lp : List Argument → LpOutcome)
    → ℕ
    → String
    → Option String
    → Option ℕ
    → Option (List ℕ)
    → Bool
    → Option Text
unfolding arguments release_error
submit_released_job lp printer_id held_file_path document_name copy_count held_job_options
      drop_page_size =
    release_error printer_id (
      lp (
        arguments printer_id held_file_path document_name copy_count held_job_options
          drop_page_size))
