-- ===== src/Status/Frame.antt =====
-- printers/status.py: whose memory a poll touches, and what an outage leaves of it.
use mathlib.Core.Path.{subst}
use printops.Prelude.{
  ap, ℕ, Bool, true, false, not, ◌||◌, Option, none, some, ◌≡◌, ◌∙◌, refl, arith, ◌==◌, Bool-cases,
  inl, inr, Table, lookup, lookup-remove, lookup-insert,
}
use printops.Text.{Text}
use printops.Printers.{Printer, is_online}
use printops.QueueRecovery.{
  Attempt, started, store_attempt, note_still_stopped, note_device_away, note_device_back,
  resume_queue, resume_due,
}
use printops.QueueRecovery
use printops.QueueRecovery.Lpstat.{LocalQueueState}
use printops.QueueStall.{HeadObservation, store_observation, observe}
use printops.QueueStall
use printops.NetworkHealth.{NetworkFlap}
use printops.Status.{Poll, Probe, unanswered, Memory, is_answered, apply_probe}
use printops.Status.Keeps.{probed-IsKept, apply_queue_recovery-IsKept}
use printops.Status.Recovery.{
  Outcome, wait_for_device, resume, resume_if_due, recover_stopped, recover, apply_queue_recovery,
  forget_stall, forget_recovery,
}
use printops.Status.Refresh.{
  apply_queue_stall, apply_warnings, after_recovery, probed, flap_of, refresh_printer_status,
}

-- The memory of the printers but one.
pub record IsLocal (id : ℕ) (m m' : Memory) : Type 0 where
  pub attempts : (k : ℕ) → (id == k) ≡ false → lookup k m'.attempts ≡ lookup k m.attempts
  pub observations :
      (k : ℕ) → (id == k) ≡ false → lookup k m'.observations ≡ lookup k m.observations

IsLocal-same : (id : ℕ) (m : Memory) → IsLocal id m m
IsLocal-same id m = record { attempts = λ k h. refl; observations = λ k h. refl }

IsLocal-trans : {id : ℕ} {a b c : Memory} → IsLocal id a b → IsLocal id b c → IsLocal id a c
IsLocal-trans p q = record {
  attempts = λ k h. q.attempts k h ∙ p.attempts k h;
  observations = λ k h. q.observations k h ∙ p.observations k h;
}

store_attempt-lookup :
    (id : ℕ) (a : Option Attempt) (m : Table Attempt) (k : ℕ)
    → (id == k) ≡ false
    → lookup k (store_attempt id a m) ≡ lookup k m
unfolding store_attempt
store_attempt-lookup id none m k h = ground (arith, lookup-remove id k m)
store_attempt-lookup id (some a) m k h = ground (arith, lookup-insert id k a m)

store_observation-lookup :
    (id : ℕ) (o : Option HeadObservation) (m : Table HeadObservation) (k : ℕ)
    → (id == k) ≡ false
    → lookup k (store_observation id o m) ≡ lookup k m
unfolding store_observation
store_observation-lookup id none m k h = ground (arith, lookup-remove id k m)
store_observation-lookup id (some o) m k h = ground (arith, lookup-insert id k o m)

-- A step that stores one attempt of the printer.
IsLocal-attempt :
    (id : ℕ) (a : Option Attempt) (m : Memory)
    → IsLocal id m (record m { attempts = store_attempt id a m.attempts })
IsLocal-attempt id a m = record {
  attempts = λ k h. store_attempt-lookup id a m.attempts k h;
  observations = λ k h. refl;
}

IsLocal-observation :
    (id : ℕ) (o : Option HeadObservation) (m : Memory)
    → IsLocal id m (record m { observations = store_observation id o m.observations })
IsLocal-observation id o m = record {
  attempts = λ k h. refl;
  observations = λ k h. store_observation-lookup id o m.observations k h;
}

forget_stall-IsLocal : (id : ℕ) (m : Memory) → IsLocal id m (forget_stall id m)
unfolding QueueStall.forget store_observation
forget_stall-IsLocal id m = IsLocal-observation id none m

forget_recovery-IsLocal : (id : ℕ) (m : Memory) → IsLocal id m (forget_recovery id m)
unfolding QueueRecovery.forget store_attempt
forget_recovery-IsLocal id m = IsLocal-attempt id none m

module _ (poll : Poll) (manual : Bool) (p : Printer) where
  wait_for_device-IsLocal : (m : Memory) → IsLocal p.id m (wait_for_device p m).0.1
  unfolding wait_for_device note_still_stopped note_device_away
  wait_for_device-IsLocal m = elim (Bool-cases (is_online p.status)) [
    | inl e ↦ rw e (IsLocal-same p.id m)
    | inr e ↦ rw e (IsLocal-trans (IsLocal-attempt p.id _ m) (IsLocal-attempt p.id _ _))
  ]

  resume_if_due-IsLocal :
      (state : LocalQueueState) (m : Memory)
      → IsLocal p.id m (resume_if_due poll manual p state m).0.1
  unfolding resume_if_due resume resume_queue note_still_stopped
  resume_if_due-IsLocal state m =
      elim (Bool-cases (manual || resume_due p.id poll.now m.attempts)) [
        | inr e ↦ rw e (IsLocal-attempt p.id _ m)
        | inl e ↦ rw e (record {
          attempts =
              (IsLocal-attempt p.id (some (started poll.now (lookup p.id m.attempts))) m).attempts;
          observations = λ k h. refl;
        })
      ]

  recover_stopped-IsLocal :
      (b : Bool) (state : LocalQueueState) (m : Memory)
      → IsLocal p.id m (recover_stopped poll manual b p state m).0.1
  unfolding recover_stopped note_device_back
  recover_stopped-IsLocal b state m = elim (Bool-cases (not b || not (is_online p.status))) [
    | inl e ↦ rw e (IsLocal-trans (forget_stall-IsLocal p.id m) (wait_for_device-IsLocal _))
    | inr e ↦ rw e (
        IsLocal-trans (forget_stall-IsLocal p.id m)
          (IsLocal-trans (IsLocal-attempt p.id _ _) (resume_if_due-IsLocal state _)))
  ]

  recover-IsLocal :
      (b : Bool) (state : Option LocalQueueState) (m : Memory)
      → IsLocal p.id m (recover poll manual b p state m).0.1
  unfolding recover
  recover-IsLocal b none m = forget_recovery-IsLocal p.id m
  recover-IsLocal b (some state) m = elim (Bool-cases state.stopped) [
    | inl e ↦ rw e (recover_stopped-IsLocal b state m)
    | inr e ↦ rw e (forget_recovery-IsLocal p.id m)
  ]

  apply_queue_recovery-IsLocal :
      (b : Bool) (m : Memory) → IsLocal p.id m (apply_queue_recovery poll manual b p m).0.1
  unfolding apply_queue_recovery
  apply_queue_recovery-IsLocal b m = elim (Bool-cases poll.saturated) [
    | inl e ↦ rw e (IsLocal-same p.id m)
    | inr e ↦ rw e (recover-IsLocal b _ m)
  ]

apply_queue_stall-IsLocal :
    (poll : Poll) (p : Printer) (m : Memory) → IsLocal p.id m (apply_queue_stall poll p m).1
unfolding apply_queue_stall observe
apply_queue_stall-IsLocal poll p m =
    elim (Bool-cases (not (is_online p.status) || poll.saturated_later)) [
      | inl e ↦ rw e (forget_stall-IsLocal p.id m)
      | inr e ↦ rw e (IsLocal-observation p.id _ m)
    ]

after_recovery-IsLocal :
    (poll : Poll) (b : Bool) (flap : Option NetworkFlap) (p : Printer) (m : Memory) (done : Bool)
    → IsLocal p.id m (after_recovery poll b flap ((p, m), done)).1
unfolding after_recovery apply_warnings
after_recovery-IsLocal poll b flap p m true = IsLocal-same p.id m
after_recovery-IsLocal poll true flap p m false = apply_queue_stall-IsLocal poll p m
after_recovery-IsLocal poll false flap p m false = forget_stall-IsLocal p.id m

apply_probe-id : (now : ℕ) (probe : Probe) (p : Printer) → (apply_probe now probe p).id ≡ p.id
unfolding apply_probe
apply_probe-id now (Probe.answered state reasons message) p = refl
apply_probe-id now (unanswered message) p = ground arith

after_outcome-IsLocal :
    (poll : Poll) (b : Bool) (flap : Option NetworkFlap) (o : Outcome)
    → IsLocal o.0.0.id o.0.1 (after_recovery poll b flap o).1
after_outcome-IsLocal poll b flap ((p, m), done) = after_recovery-IsLocal poll b flap p m done

forget_stall-lookup : (id : ℕ) (m : Memory) → lookup id (forget_stall id m).observations ≡ none
unfolding QueueStall.forget
forget_stall-lookup id m = ground (arith, lookup-remove id id m.observations)

-- For a device that did not answer, the outcome of the queue recovery is never a diagnosis.
recover-unanswered :
    (poll : Poll) (manual : Bool) (p : Printer) (state : Option LocalQueueState) (m : Memory)
    → (recover poll manual false p state m).1 ≡ false
unfolding recover recover_stopped wait_for_device
recover-unanswered poll manual p none m = refl
recover-unanswered poll manual p (some state) m = elim (Bool-cases state.stopped) [
  | inl e ↦ rw e refl
  | inr e ↦ rw e refl
]

apply_queue_recovery-unanswered :
    (poll : Poll) (manual : Bool) (p : Printer) (m : Memory)
    → (apply_queue_recovery poll manual false p m).1 ≡ false
unfolding apply_queue_recovery
apply_queue_recovery-unanswered poll manual p m = elim (Bool-cases poll.saturated) [
  | inl e ↦ rw e refl
  | inr e ↦ rw e (recover-unanswered poll manual p _ m)
]

after_recovery-unanswered :
    (poll : Poll) (flap : Option NetworkFlap) (o : Outcome)
    → o.1 ≡ false
    → lookup o.0.0.id (after_recovery poll false flap o).1.observations ≡ none
unfolding after_recovery
after_recovery-unanswered poll flap ((p, m), true) h = cc
after_recovery-unanswered poll flap ((p, m), false) h = forget_stall-lookup p.id m

recovered-id :
    (poll : Poll) (manual : Bool) (b : Bool) (printer : Printer) (m : Memory)
    → (apply_queue_recovery poll manual b (probed poll printer) m).0.0.id ≡ printer.id
recovered-id poll manual b printer m =
    (apply_queue_recovery-IsKept poll manual b (probed poll printer) m).id
    ∙ ((probed-IsKept poll printer).id ∙ apply_probe-id poll.now poll.probe printer)

-- A poll of one printer leaves the remembered resumes and stalls of every other printer as they were.
refresh_printer_status-IsLocal :
    (poll : Poll) (manual : Bool) (printer : Printer) (m : Memory)
    → IsLocal printer.id m (refresh_printer_status poll manual printer m).1
unfolding refresh_printer_status
refresh_printer_status-IsLocal poll manual printer m =
    IsLocal-trans
      (subst (λ i. IsLocal i m o.0.1)
        ((probed-IsKept poll printer).id ∙ apply_probe-id poll.now poll.probe printer)
        (apply_queue_recovery-IsLocal poll manual (probed poll printer) b m))
      (subst (λ i. IsLocal i o.0.1 (after_recovery poll b (flap_of poll printer) o).1)
        (recovered-id poll manual b printer m) (after_outcome-IsLocal poll b _ o))
  where
    b : Bool
    b = is_answered poll.probe

    o : Outcome
    o = apply_queue_recovery poll manual b (probed poll printer) m

unanswered-forgets :
    (poll : Poll) (manual b : Bool) (printer : Printer) (m : Memory)
    → b ≡ false
    → lookup printer.id
        (after_recovery poll b
          (flap_of poll printer)
          (apply_queue_recovery poll manual b (probed poll printer) m)).1.observations
      ≡ none
unanswered-forgets poll manual true printer m h = cc
unanswered-forgets poll manual false printer m h =
    subst (λ i. lookup i (after_recovery poll false (flap_of poll printer) o).1.observations ≡ none)
      (recovered-id poll manual false printer m)
      (after_recovery-unanswered poll _ o
        (apply_queue_recovery-unanswered poll manual (probed poll printer) m))
  where
    o : Outcome
    o = apply_queue_recovery poll manual false (probed poll printer) m

-- A poll without an answer leaves no observation of the printer's queue: the stall clock starts anew once the device is
-- back, whatever the queue recovery found.
refresh_printer_status-forgets :
    (poll : Poll) (manual : Bool) (printer : Printer) (m : Memory) (message : Text)
    → poll.probe ≡ unanswered message
    → lookup printer.id (refresh_printer_status poll manual printer m).1.observations ≡ none
unfolding refresh_printer_status
refresh_printer_status-forgets poll manual printer m message h =
    unanswered-forgets poll manual (is_answered poll.probe) printer m (ap is_answered h)
