-- ===== src/Status/Recovery.antt =====
-- printers/status.py: _apply_queue_recovery, which starts a stopped queue of a healthy device again.
use Prim.Native.String.{String}
use printops.Prelude.{ℕ, Bool, true, false, not, ◌||◌, Option, none, some, ◌∷◌, if◌then◌else◌}
use printops.Printers.{Printer, error, is_online}
use printops.QueueRecovery.{
  Attempts, note_still_stopped, note_device_away, note_device_back, resume_due, resume_queue,
}
use printops.QueueRecovery
use printops.QueueRecovery.Lpstat.{LocalQueueState, local_queue_state}
use printops.QueueRecovery.Message.{paused_reason}
use printops.QueueStall
use printops.Status.{Poll, Memory, with_reason}

-- QUEUE_PAUSED_REASON
abbrev pub queue_paused_reason : String
queue_paused_reason = "printops-queue-paused"

unfoldable pub mark_paused : Printer → LocalQueueState → Bool → Printer
unfolding paused_reason
mark_paused printer state true = record printer { status_message = some (paused_reason state true) }
mark_paused printer state false = record printer {
  status_message = some (paused_reason state false);
  status = error;
  status_reasons = with_reason queue_paused_reason printer.status_reasons;
}

-- The row, the memory, and whether the queue is this printer's diagnosis.
abbrev pub Outcome : Type 0
Outcome = (Printer × Memory) × Bool

-- `queue_recovery.forget`, where no recovery is in progress
abbrev pub forget_recovery : ℕ → Memory → Memory
forget_recovery printer_id m = record m { attempts = QueueRecovery.forget printer_id m.attempts }

abbrev pub forget_stall : ℕ → Memory → Memory
forget_stall printer_id m = record m { observations = QueueStall.forget printer_id m.observations }

abbrev pub still_stopped_memory : ℕ → Memory → Memory
still_stopped_memory printer_id m = record m { attempts = note_still_stopped printer_id m.attempts }

-- The device does not answer, or the row is not online: nothing is resumed.
unfoldable pub wait_for_device : Printer → Memory → Outcome
unfolding note_device_away note_still_stopped
wait_for_device printer m = (
  (
    record printer { status_reasons = with_reason queue_paused_reason printer.status_reasons },
    if is_online printer.status then m else record m {
      attempts = note_still_stopped printer.id (note_device_away printer.id m.attempts);
    },
  ),
  false,
)

-- The resume script is run.
unfoldable pub resume : Poll → Printer → LocalQueueState → Memory → Outcome
unfolding resume_queue mark_paused
resume poll printer state m =
    let (attempts, done) = resume_queue poll.script printer.id poll.now m.attempts in
    (
      (
        mark_paused printer state done,
        record m { attempts = attempts; resumes = printer.id ∷ m.resumes },
      ),
      true,
    )

-- From `note_device_back`, on the memory that it leaves.
unfoldable pub resume_if_due : Poll → Bool → Printer → LocalQueueState → Memory → Outcome
unfolding resume resume_due note_still_stopped mark_paused
resume_if_due poll manual printer state m =
    if not (manual || resume_due printer.id poll.now m.attempts)
    then ((mark_paused printer state false, still_stopped_memory printer.id m), true)
    else resume poll printer state m

-- The branch of a stopped queue.
unfoldable pub recover_stopped : Poll → Bool → Bool → Printer → LocalQueueState → Memory → Outcome
unfolding wait_for_device resume_if_due note_device_back
recover_stopped poll manual device_answered printer state m =
    let m' = forget_stall printer.id m in
    if not device_answered || not (is_online printer.status)
    then wait_for_device printer m'
    else resume_if_due poll manual printer state
        (record m' { attempts = note_device_back printer.id poll.now m'.attempts })

-- `state is None or not state.stopped`
unfoldable pub recover : Poll → Bool → Bool → Printer → Option LocalQueueState → Memory → Outcome
unfolding recover_stopped
recover poll manual device_answered printer none m =
    ((printer, forget_recovery printer.id m), false)
recover poll manual device_answered printer (some state) m =
    if not state.stopped
    then ((printer, forget_recovery printer.id m), false)
    else recover_stopped poll manual device_answered printer state m

unfoldable pub apply_queue_recovery : Poll → Bool → Bool → Printer → Memory → Outcome
unfolding recover local_queue_state
apply_queue_recovery poll manual device_answered printer m =
    if poll.saturated
    then ((printer, m), false)
    else recover poll manual device_answered printer (local_queue_state poll.lpstat printer.id) m
