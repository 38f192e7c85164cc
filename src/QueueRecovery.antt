-- ===== src/QueueRecovery.antt =====
-- printers/queue_recovery.py: the memory of the resumes of stopped CUPS queues, and its backoff.
-- The process-wide dictionary is a table that the functions take and return.
pub mod Lpstat
pub mod Message
pub mod Backoff
pub mod Spacing
mod Tests
use printops.Prelude.{
  ℕ, ◌+◌, ◌*◌, ◌^◌, min, Bool, true, false, not, ◌||◌, Option, none, some, List, [], ltb, leb, ◌==◌,
  if◌then◌else◌, Table, lookup, remove, insert,
}

abbrev pub seconds : ℕ → ℕ
seconds n = n * 1_000_000

-- five minutes, four hours, five minutes
abbrev pub resume_cooldown : ℕ
resume_cooldown = seconds 300

abbrev pub max_resume_backoff : ℕ
max_resume_backoff = seconds 14400

abbrev pub healthy_reset_period : ℕ
healthy_reset_period = seconds 300

abbrev pub max_backoff_doublings : ℕ
max_backoff_doublings = 16

pub record Attempt : Type 0 where
  pub last_attempt : ℕ
  pub failures : ℕ
  pub awaiting_verdict : Bool
  pub device_was_away : Bool
  pub online_since : Option ℕ

abbrev pub Attempts : Type 0
Attempts = Table Attempt

-- `_attempts.clear()`
unfoldable pub reset : Attempts → Attempts
reset attempts = []

unfoldable pub forget : ℕ → Attempts → Attempts
unfolding remove
forget printer_id attempts = remove printer_id attempts

unfoldable pub backoff : ℕ → ℕ
backoff failures =
    if leb failures 0
    then resume_cooldown
    else min (resume_cooldown * 2 ^ min failures max_backoff_doublings) max_resume_backoff

-- The test of `resume_due` on the remembered attempt.
unfoldable pub is_due : Option Attempt → ℕ → Bool
unfolding backoff
is_due none now = true
is_due (some a) now = leb (a.last_attempt + backoff a.failures) now

unfoldable pub resume_due : ℕ → ℕ → Attempts → Bool
unfolding is_due lookup
resume_due printer_id now attempts = is_due (lookup printer_id attempts) now

-- What each function makes of the attempt of its printer; `none` is a printer without one.
unfoldable pub still_stopped : Option Attempt → Option Attempt
still_stopped none = none
still_stopped (some a) =
    if not a.awaiting_verdict
    then some a
    else some (record a { failures = a.failures + 1; awaiting_verdict = false })

unfoldable pub device_away : Option Attempt → Option Attempt
device_away none = none
device_away (some a) = some (record a { device_was_away = true; online_since = none })

-- The part behind the first two tests, on `online_since`.
unfoldable pub back_since : Attempt → ℕ → Option ℕ → Option Attempt
back_since a now none = some (record a { online_since = some now })
back_since a now (some since) = if ltb now (since + healthy_reset_period) then some a else none

unfoldable pub device_back : ℕ → Option Attempt → Option Attempt
unfolding back_since
device_back now none = none
device_back now (some a) = if not a.device_was_away then some a else back_since a now a.online_since

-- Writes the attempt of one printer.
unfoldable pub store_attempt : ℕ → Option Attempt → Attempts → Attempts
unfolding insert remove
store_attempt printer_id none attempts = remove printer_id attempts
store_attempt printer_id (some a) attempts = insert printer_id a attempts

unfoldable pub note_still_stopped : ℕ → Attempts → Attempts
unfolding still_stopped store_attempt lookup
note_still_stopped printer_id attempts =
    store_attempt printer_id (still_stopped (lookup printer_id attempts)) attempts

unfoldable pub note_device_away : ℕ → Attempts → Attempts
unfolding device_away store_attempt lookup
note_device_away printer_id attempts =
    store_attempt printer_id (device_away (lookup printer_id attempts)) attempts

unfoldable pub note_device_back : ℕ → ℕ → Attempts → Attempts
unfolding device_back store_attempt lookup
note_device_back printer_id now attempts =
    store_attempt printer_id (device_back now (lookup printer_id attempts)) attempts

-- `_failures`
abbrev pub failures_of : Option Attempt → ℕ
failures_of none = 0
failures_of (some a) = a.failures

-- The attempt that `resume_queue` records before it runs the script.
unfoldable pub started : ℕ → Option Attempt → Attempt
started now a = record {
  last_attempt = now;
  failures = failures_of a;
  awaiting_verdict = true;
  device_was_away = false;
  online_since = none;
}

-- `script` is the outcome of resume_cups_queue.sh: whether it exits with 0. A failure is the
-- QueueResumeError, and the attempt stays recorded.
unfoldable pub resume_queue : (script : ℕ → Bool) → ℕ → ℕ → Attempts → Attempts × Bool
unfolding started store_attempt lookup
resume_queue script printer_id now attempts = (
  store_attempt printer_id (some (started now (lookup printer_id attempts))) attempts,
  script printer_id,
)
