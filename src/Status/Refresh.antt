-- ===== src/Status/Refresh.antt =====
-- printers/status.py: refresh_printer_status, and the steps behind the queue recovery.
use printops.Prelude.{
  ℕ, String, Bool, true, false, not, ◌||◌, Option, none, some, List, if◌then◌else◌,
}
use printops.Printers.{Printer, error, is_online}
use printops.QueueStall.{QueueSnapshot, Observations}
use printops.QueueStall
use printops.QueueStall.Message.{stall_reason}
use printops.NetworkHealth.{NetworkFlap}
use printops.NetworkHealth
use printops.NetworkHealth.Message.{flap_reason}
use printops.PageReconcile.{recorded_reason}
use printops.PageReconcile.Message.{reason}
use printops.Status.{Poll, Memory, apply_probe, is_answered, with_reason}
use printops.Status.Recovery.{apply_queue_recovery, forget_stall}

-- What `queue_stall.observe` returned, with the snapshot.
unfoldable pub stalled : Printer → Option QueueSnapshot → Option ℕ → Printer
unfolding stall_reason
stalled printer (some snapshot) (some stuck_for) = record printer {
  status = error;
  status_message = some (stall_reason stuck_for snapshot);
  status_reasons = with_reason "printops-queue-stalled" printer.status_reasons;
}
stalled printer _ _ = printer

unfoldable pub apply_queue_stall : Poll → Printer → Memory → Printer × Memory
unfolding stalled
apply_queue_stall poll printer m =
    if not (is_online printer.status) || poll.saturated_later
    then (printer, forget_stall printer.id m)
    else (let seen = QueueStall.observe printer.id poll.snapshot poll.now m.observations in
        (stalled printer poll.snapshot seen.1, record m { observations = seen.0 }))

unfoldable pub apply_network_flap : Printer → Option NetworkFlap → Printer
unfolding flap_reason
apply_network_flap printer none = printer
apply_network_flap printer (some flap) =
    if not (is_online printer.status) then printer else record printer {
      status_message = some (flap_reason flap);
      status_reasons = with_reason "printops-network-unstable" printer.status_reasons;
    }

unfoldable pub report_pages : Printer → Option (ℕ × ℕ × List String) → Printer
unfolding reason
report_pages printer none = printer
report_pages printer (some found) = record printer {
  status_message = some (reason found);
  status_reasons = with_reason "printops-pages-not-printed" printer.status_reasons;
}

unfoldable pub apply_pages_not_printed : ℕ → Printer → Printer
unfolding report_pages recorded_reason
apply_pages_not_printed now printer =
    if not (is_online printer.status)
    then printer
    else report_pages printer (recorded_reason printer.pages_not_printed now)

-- What follows a queue that is not the diagnosis, for a device that answered.
unfoldable pub apply_warnings : Poll → Option NetworkFlap → Printer → Memory → Printer × Memory
unfolding apply_queue_stall apply_network_flap apply_pages_not_printed
apply_warnings poll flap printer m =
    let (p, m') = apply_queue_stall poll printer m in
    (apply_pages_not_printed poll.now (apply_network_flap p flap), m')

-- From the call of `_apply_queue_recovery`, on its outcome.
unfoldable pub after_recovery :
    Poll → Bool → Option NetworkFlap → (Printer × Memory) × Bool → Printer × Memory
unfolding apply_warnings
after_recovery poll device_answered flap ((printer, m), true) = (printer, m)
after_recovery poll device_answered flap ((printer, m), false) =
    if not device_answered
    then (printer, forget_stall printer.id m)
    else apply_warnings poll flap printer m

-- The row when the queue recovery starts, and the verdict on the network.
unfoldable pub probed : Poll → Printer → Printer
unfolding apply_probe
probed poll printer =
    let p = apply_probe poll.now poll.probe printer in
    record p {
      network_probe_log =
          (NetworkHealth.observe p.network_probe_log (is_answered poll.probe) (some poll.seconds)
            poll.now).0;
    }

unfoldable pub flap_of : Poll → Printer → Option NetworkFlap
unfolding apply_probe
flap_of poll printer =
    let p = apply_probe poll.now poll.probe printer in
    (NetworkHealth.observe p.network_probe_log (is_answered poll.probe) (some poll.seconds)
      poll.now).1

unfoldable pub refresh_printer_status : Poll → Bool → Printer → Memory → Printer × Memory
unfolding probed flap_of apply_queue_recovery after_recovery
refresh_printer_status poll manual printer m =
    after_recovery poll (is_answered poll.probe) (flap_of poll printer)
      (apply_queue_recovery poll manual (is_answered poll.probe) (probed poll printer) m)
