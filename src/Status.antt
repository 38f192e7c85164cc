-- ===== src/Status.antt =====
-- printers/status.py: the poll of one printer, and what it makes of the row.
-- A poll asks the device, the scheduler and the queue; `Poll` holds what each of them answers. The
-- clock is read once. The memories of queue_recovery.py and queue_stall.py are passed on, and the
-- runs of the resume script are logged.
pub mod Recovery
pub mod Refresh
pub mod Resync
pub mod Keeps
pub mod Debounce
pub mod Resumes
pub mod Frame
pub mod Rediscovered
pub mod Spaced
mod Tests
use printops.Prelude.{
  ℕ, ◌+◌, String, Bool, true, false, not, ◌&&◌, ◌||◌, Option, none, some, List, [], ◌∷◌, ◌++◌, leb,
  ◌==◌, str_eq, if◌then◌else◌, filter, any, is_none, ends_with,
}
use printops.Text.{Text, lit}
use printops.Printers.{Printer, PrinterStatus, unknown, online, error, offline}
use printops.QueueRecovery.{Attempts}
use printops.QueueRecovery.Lpstat.{QueueName}
use printops.QueueStall.{QueueSnapshot, Observations}

-- The answer of `probe_printer_state`, or the PrinterProbeError.
pub data Probe : Type 0 where
  answered :
      (printer_state : Option ℕ)
      → (state_reasons : List String) → (state_message : Option String) → Probe
  unanswered : (message : Text) → Probe

pub record Poll : Type 0 where
  pub now : ℕ
  pub probe : Probe
  -- how long the probe took
  pub seconds : ℕ
  -- cups_health.is_saturated, before the queue recovery and before the stall detection
  pub saturated : Bool
  pub saturated_later : Bool
  -- `lpstat -p`, the resume script and `job_control.queue_snapshot`
  pub lpstat : List QueueName → Option (List (List ℕ))
  pub script : ℕ → Bool
  pub snapshot : Option QueueSnapshot

pub record Memory : Type 0 where
  pub attempts : Attempts
  pub observations : Observations
  -- the printers whose queues the script was run for, the latest first
  pub resumes : List ℕ

abbrev pub printer_state_stopped : ℕ
printer_state_stopped = 5

abbrev pub failures_before_offline : ℕ
failures_before_offline = 2

-- `[r for r in state_reasons if r != "none"]`
abbrev pub real_reasons : List String → List String
real_reasons reasons = filter (λ r. not (str_eq r "none")) reasons

abbrev pub first_of : List String → Option String
first_of [] = none
first_of (r ∷ reasons) = some r

abbrev pub is_state : Option ℕ → ℕ → Bool
is_state none n = false
is_state (some s) n = s == n

abbrev pub has_error_reason : List String → Bool
has_error_reason reasons = any (λ r. ends_with r "-error") (real_reasons reasons)

unfoldable pub derive_status : Option ℕ → List String → PrinterStatus × Option String
unfolding ends_with
derive_status printer_state reasons =
    if has_error_reason reasons || is_state printer_state printer_state_stopped
    then (error, first_of (real_reasons reasons))
    else if is_state printer_state 3 || is_state printer_state 4
    then (online, first_of (real_reasons reasons))
    else (unknown, none)

-- `reasons or None`
abbrev pub or_null : List String → Option (List String)
or_null [] = none
or_null (r ∷ reasons) = some (r ∷ reasons)

abbrev pub as_text : Option String → Option Text
as_text none = none
as_text (some m) = some (lit m ∷ [])

-- `result.state_message or message`; an empty message is falsy
abbrev pub message_of : Option String → Option String → Option Text
message_of none m = as_text m
message_of (some s) m = if str_eq s "" then as_text m else some (lit s ∷ [])

abbrev pub or_now : Option ℕ → ℕ → ℕ
or_now none now = now
or_now (some t) now = t

-- The row after the probe, up to `status_checked_at`.
unfoldable pub apply_probe : ℕ → Probe → Printer → Printer
unfolding derive_status
apply_probe now (unanswered message) printer =
    let failures = printer.status_probe_failures + 1 in
    if leb failures_before_offline failures
    then record printer {
      status_probe_failures = failures;
      status = offline;
      status_reasons = none;
      status_message = some message;
      status_checked_at = some now;
    }
    else record printer { status_probe_failures = failures; status_checked_at = some now }
apply_probe now (answered state reasons message) printer = record printer {
  status_probe_failures = 0;
  status = (derive_status state reasons).0;
  status_reasons = or_null (real_reasons reasons);
  status_message = message_of message (derive_status state reasons).1;
  last_online_at = some (or_now printer.status_checked_at now);
  status_checked_at = some now;
}

abbrev pub is_answered : Probe → Bool
is_answered (answered state reasons message) = true
is_answered (unanswered message) = false

-- `[*(printer.status_reasons or []), reason]`
abbrev pub with_reason : String → Option (List String) → Option (List String)
with_reason r none = some (r ∷ [])
with_reason r (some reasons) = some (reasons ++ (r ∷ []))
