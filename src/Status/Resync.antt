-- ===== src/Status/Resync.antt =====
-- printers/status.py: the automatic resync of a printer's CUPS queue, and what follows a poll.
-- The process-wide lock makes the resyncs run one after another; a resync is one step here.
use printops.Prelude.{
  ℕ, ◌+◌, ◌*◌, ◌^◌, min, Bool, true, false, not, ◌||◌, Option, none, some, List, [], ◌∷◌, leb, ltb,
  if◌then◌else◌,
}
use printops.Text.{Text}
use printops.Printers.{Printer, is_online}
use printops.IppClient.{Network}
use printops.Discovery.MediaCol.{Ipptool}
use printops.Discovery.Refresh.{refresh_printer_capabilities, has_value_error}
use printops.QueueRecovery.{seconds, max_backoff_doublings}
use printops.Status.{Poll, Memory}
use printops.Status.Refresh.{refresh_printer_status}

-- half an hour, six hours
abbrev pub auto_resync_cooldown : ℕ
auto_resync_cooldown = seconds 1800

abbrev pub max_auto_resync_backoff : ℕ
max_auto_resync_backoff = seconds 21600

unfoldable pub auto_resync_backoff : ℕ → ℕ
auto_resync_backoff failures =
    if leb failures 0
    then auto_resync_cooldown
    else min (auto_resync_cooldown * 2 ^ min failures max_backoff_doublings) max_auto_resync_backoff

-- The test of `auto_resync_due` on the last attempt.
abbrev pub is_off_cooldown : Option ℕ → ℕ → ℕ → Bool
is_off_cooldown none failures now = true
is_off_cooldown (some last) failures now = leb (last + auto_resync_backoff failures) now

unfoldable pub auto_resync_due : Printer → ℕ → Bool
auto_resync_due printer now =
    is_off_cooldown printer.last_auto_queue_sync_at printer.auto_queue_sync_failures now

-- What the scheduler answers to a resync.
pub record Scheduler : Type 0 where
  pub saturated : Bool
  -- `job_control.active_job_count`
  pub active : Option ℕ
  -- `sync_queue`: none, or the QueueSyncError
  pub sync : Option Text

-- `active is None or active > 0`
abbrev pub is_busy : Option ℕ → Bool
is_busy none = true
is_busy (some n) = ltb 0 n

-- The row behind the gates, which is stamped before the outcome is known, and the printers whose queue `sync_queue` was
-- called for.
unfoldable pub attempt_sync : ℕ → Option Text → Printer → Printer × List ℕ
attempt_sync now none printer = (
  record printer {
    last_auto_queue_sync_at = some now;
    queue_sync_error = none;
    auto_queue_sync_failures = 0;
  },
  printer.id ∷ [],
)
attempt_sync now (some e) printer = (
  record printer {
    last_auto_queue_sync_at = some now;
    queue_sync_error = some e;
    auto_queue_sync_failures = printer.auto_queue_sync_failures + 1;
  },
  printer.id ∷ [],
)

-- The row and the calls of `sync_queue`, and whether a resync was attempted.
unfoldable pub run_automatic_queue_sync : Scheduler → ℕ → Printer → (Printer × List ℕ) × Bool
unfolding attempt_sync auto_resync_due
run_automatic_queue_sync scheduler now printer =
    if not (auto_resync_due printer now)
    then ((printer, []), false)
    else if scheduler.saturated
    then ((printer, []), false)
    else if is_busy scheduler.active
    then ((printer, []), false)
    else (attempt_sync now scheduler.sync printer, true)

-- What the device and the scheduler answer behind the poll.
pub record Reconnect : Type 0 where
  pub first : Network
  pub second : Network
  pub tool : Text → Ipptool
  pub scheduler : Scheduler

-- What is left behind a poll: the row, the printers whose queue `sync_queue` was called for, and whether the ValueError
-- of a malformed redirect goes on to the caller. The loop of main.py drops it and commits the row.
pub record Rediscovery : Type 0 where
  pub row : Printer
  pub syncs : List ℕ
  pub raised : Bool

abbrev pub with_sync : Printer × List ℕ → Rediscovery
with_sync (row, syncs) = record { row = row; syncs = syncs; raised = false }

-- Behind the discovery; an exception of it skips the resync.
unfoldable pub resync_unless : Bool → Scheduler → ℕ → Printer → Rediscovery
unfolding run_automatic_queue_sync
resync_unless true scheduler now printer = record { row = printer; syncs = []; raised = true }
resync_unless false scheduler now printer =
    with_sync (run_automatic_queue_sync scheduler now printer).0

unfoldable pub rediscover : Poll → Reconnect → Bool → Printer → Rediscovery
unfolding resync_unless refresh_printer_capabilities has_value_error
rediscover poll r was_online printer =
    if not (is_online printer.status) || was_online
    then record { row = printer; syncs = []; raised = false }
    else resync_unless (has_value_error r.first r.second poll.now printer) r.scheduler poll.now
        (refresh_printer_capabilities r.first r.second r.tool poll.now printer)

unfoldable pub refresh_printer_status_and_rediscover :
    Poll → Reconnect → Bool → Printer → Memory → Rediscovery × Memory
unfolding refresh_printer_status rediscover
refresh_printer_status_and_rediscover poll r manual printer m =
    let (p, m') = refresh_printer_status poll manual printer m in
    (rediscover poll r (is_online printer.status) p, m')
