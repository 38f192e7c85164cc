-- ===== src/Status/Keeps.antt =====
-- printers/status.py: what the steps behind the probe leave alone in the row.
use printops.Prelude.{
  ℕ, Bool, true, false, not, ◌||◌, Option, none, some, ◌≡◌, refl, arith, Bool-cases, inl, inr, ◌∙◌,
  List, String,
}
use printops.Text.{Text}
use printops.Printers.{
  Printer, ProbeEntry, PrinterStatus, unknown, online, error, offline, is_online, is_offline,
}
use printops.QueueRecovery
use printops.QueueRecovery.Lpstat.{LocalQueueState}
use printops.QueueStall.{QueueSnapshot}
use printops.NetworkHealth.{NetworkFlap}
use printops.Status.{Poll, Memory, is_answered, apply_probe}
use printops.Status.Recovery.{
  Outcome, mark_paused, wait_for_device, resume, resume_if_due, recover_stopped, recover,
  apply_queue_recovery,
}
use printops.Status.Refresh.{
  stalled, apply_queue_stall, apply_network_flap, report_pages, apply_pages_not_printed,
  apply_warnings, after_recovery, probed, refresh_printer_status,
}

-- The row's address, what the probe recorded, and the stamps of the resync stay; a printer is
-- offline after the step exactly if it was before.
pub record IsKept (p q : Printer) : Type 0 where
  pub offline : is_offline q.status ≡ is_offline p.status
  pub failures : q.status_probe_failures ≡ p.status_probe_failures
  pub checked : q.status_checked_at ≡ p.status_checked_at
  pub reached : q.last_online_at ≡ p.last_online_at
  pub synced : q.last_auto_queue_sync_at ≡ p.last_auto_queue_sync_at
  pub sync_failures : q.auto_queue_sync_failures ≡ p.auto_queue_sync_failures
  pub id : q.id ≡ p.id

pub same : (p : Printer) → IsKept p p
same p = record {
  offline = refl;
  failures = refl;
  checked = refl;
  reached = refl;
  synced = refl;
  sync_failures = refl;
  id = refl;
}

pub trans : {p q r : Printer} → IsKept p q → IsKept q r → IsKept p r
trans a b = record {
  offline = b.offline ∙ a.offline;
  failures = b.failures ∙ a.failures;
  checked = b.checked ∙ a.checked;
  reached = b.reached ∙ a.reached;
  synced = b.synced ∙ a.synced;
  sync_failures = b.sync_failures ∙ a.sync_failures;
  id = b.id ∙ a.id;
}

online-not_offline : (s : PrinterStatus) → is_online s ≡ true → false ≡ is_offline s
online-not_offline unknown h = refl
online-not_offline online h = refl
online-not_offline error h = refl
online-not_offline offline h = cc

-- Every step behind the probe is such a change of the row.
abbrev restate : Printer → PrinterStatus → Option (List String) → Option Text → Printer
restate p s reasons message = record p {
  status = s;
  status_reasons = reasons;
  status_message = message;
}

restate-IsKept :
    (p : Printer) (s : PrinterStatus) (reasons : Option (List String)) (message : Option Text)
    → is_offline s ≡ is_offline p.status
    → IsKept p (restate p s reasons message)
restate-IsKept p s reasons message h = record {
  offline = h;
  failures = refl;
  checked = refl;
  reached = refl;
  synced = refl;
  sync_failures = refl;
  id = refl;
}

mark_paused-IsKept :
    (p : Printer) (state : LocalQueueState) (resumed : Bool)
    → is_online p.status ≡ true
    → IsKept p (mark_paused p state resumed)
unfolding mark_paused
mark_paused-IsKept p state true h = restate-IsKept p p.status _ _ refl
mark_paused-IsKept p state false h = restate-IsKept p error _ _ (online-not_offline p.status h)

module _ (poll : Poll) (manual : Bool) where
  resume_if_due-IsKept :
      (p : Printer) (state : LocalQueueState) (m : Memory)
      → is_online p.status ≡ true
      → IsKept p (resume_if_due poll manual p state m).0.0
  unfolding resume_if_due resume
  resume_if_due-IsKept p state m h =
      elim (Bool-cases (manual || QueueRecovery.resume_due p.id poll.now m.attempts)) [
        | inl e ↦ rw e (mark_paused-IsKept p state _ h)
        | inr e ↦ rw e (mark_paused-IsKept p state false h)
      ]

  recover_stopped-IsKept :
      (b : Bool) (p : Printer) (state : LocalQueueState) (m : Memory)
      → IsKept p (recover_stopped poll manual b p state m).0.0
  unfolding recover_stopped wait_for_device
  recover_stopped-IsKept b p state m = elim (Bool-cases (not b || not (is_online p.status))) [
    | inl e ↦ rw e (restate-IsKept p p.status _ _ refl)
    | inr e ↦ rw e (resume_if_due-IsKept p state _ (ground arith))
  ]

  recover-IsKept :
      (b : Bool) (p : Printer) (state : Option LocalQueueState) (m : Memory)
      → IsKept p (recover poll manual b p state m).0.0
  unfolding recover
  recover-IsKept b p none m = same p
  recover-IsKept b p (some state) m = elim (Bool-cases state.stopped) [
    | inl e ↦ rw e (recover_stopped-IsKept b p state m)
    | inr e ↦ rw e (same p)
  ]

  pub apply_queue_recovery-IsKept :
      (b : Bool) (p : Printer) (m : Memory) → IsKept p (apply_queue_recovery poll manual b p m).0.0
  unfolding apply_queue_recovery
  apply_queue_recovery-IsKept b p m = elim (Bool-cases poll.saturated) [
    | inl e ↦ rw e (same p)
    | inr e ↦ rw e (recover-IsKept b p _ m)
  ]

stalled-IsKept :
    (p : Printer) (snapshot : Option QueueSnapshot) (stuck_for : Option ℕ)
    → is_online p.status ≡ true
    → IsKept p (stalled p snapshot stuck_for)
unfolding stalled
stalled-IsKept p none none h = same p
stalled-IsKept p none (some n) h = same p
stalled-IsKept p (some s) none h = same p
stalled-IsKept p (some s) (some n) h = restate-IsKept p error _ _ (online-not_offline p.status h)

apply_queue_stall-IsKept :
    (poll : Poll) (p : Printer) (m : Memory) → IsKept p (apply_queue_stall poll p m).0
unfolding apply_queue_stall
apply_queue_stall-IsKept poll p m =
    elim (Bool-cases (not (is_online p.status) || poll.saturated_later)) [
      | inl e ↦ rw e (same p)
      | inr e ↦ rw e (stalled-IsKept p _ _ (ground arith))
    ]

apply_network_flap-IsKept :
    (p : Printer) (flap : Option NetworkFlap) → IsKept p (apply_network_flap p flap)
unfolding apply_network_flap
apply_network_flap-IsKept p none = same p
apply_network_flap-IsKept p (some flap) = elim (Bool-cases (is_online p.status)) [
  | inl e ↦ rw e (restate-IsKept p p.status _ _ refl)
  | inr e ↦ rw e (same p)
]

report_pages-IsKept :
    (p : Printer) (found : Option (ℕ × ℕ × List String)) → IsKept p (report_pages p found)
unfolding report_pages
report_pages-IsKept p none = same p
report_pages-IsKept p (some found) = restate-IsKept p p.status _ _ refl

apply_pages_not_printed-IsKept : (now : ℕ) (p : Printer) → IsKept p (apply_pages_not_printed now p)
unfolding apply_pages_not_printed
apply_pages_not_printed-IsKept now p = elim (Bool-cases (is_online p.status)) [
  | inl e ↦ rw e (report_pages-IsKept p _)
  | inr e ↦ rw e (same p)
]

apply_warnings-IsKept :
    (poll : Poll) (flap : Option NetworkFlap) (p : Printer) (m : Memory)
    → IsKept p (apply_warnings poll flap p m).0
unfolding apply_warnings
apply_warnings-IsKept poll flap p m =
    trans (apply_queue_stall-IsKept poll p m)
      (trans (apply_network_flap-IsKept _ flap) (apply_pages_not_printed-IsKept poll.now _))

after_recovery-IsKept :
    (poll : Poll) (b : Bool) (flap : Option NetworkFlap) (p : Printer) (m : Memory) (done : Bool)
    → IsKept p (after_recovery poll b flap ((p, m), done)).0
unfolding after_recovery
after_recovery-IsKept poll b flap p m true = same p
after_recovery-IsKept poll true flap p m false = apply_warnings-IsKept poll flap p m
after_recovery-IsKept poll false flap p m false = same p

logged-IsKept :
    (p : Printer) (log : List ProbeEntry) → IsKept p (record p { network_probe_log = log })
logged-IsKept p log = record {
  offline = refl;
  failures = refl;
  checked = refl;
  reached = refl;
  synced = refl;
  sync_failures = refl;
  id = refl;
}

after_outcome-IsKept :
    (poll : Poll) (b : Bool) (flap : Option NetworkFlap) (o : Outcome)
    → IsKept o.0.0 (after_recovery poll b flap o).0
after_outcome-IsKept poll b flap ((p, m), done) = after_recovery-IsKept poll b flap p m done

pub probed-IsKept :
    (poll : Poll) (printer : Printer)
    → IsKept (apply_probe poll.now poll.probe printer) (probed poll printer)
unfolding probed
probed-IsKept poll printer = logged-IsKept _ _

-- Behind the probe, a poll keeps what the probe recorded.
pub refresh_printer_status-IsKept :
    (poll : Poll) (manual : Bool) (printer : Printer) (m : Memory)
    → IsKept
        (apply_probe poll.now poll.probe printer)
        (refresh_printer_status poll manual printer m).0
unfolding refresh_printer_status
refresh_printer_status-IsKept poll manual printer m = trans (probed-IsKept poll printer) (
    trans (apply_queue_recovery-IsKept poll manual (is_answered poll.probe) _ m)
      (after_outcome-IsKept poll (is_answered poll.probe) _ _))
