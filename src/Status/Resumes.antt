-- ===== src/Status/Resumes.antt =====
-- printers/status.py: when the resume script is run for a stopped queue, and what the row says then.
use mathlib.Core.Path.{subst}
use printops.Prelude.{
  ap, Bool, true, false, not, ◌||◌, Option, none, some, ◌∷◌, ◌≡◌, ◌∙◌, ◌⊎◌, refl, sym, arith,
  Bool-cases, inl, inr, branch_true, branch_false,
}
use printops.Printers.{Printer, is_online}
use printops.QueueRecovery.{note_device_back, resume_due}
use printops.QueueRecovery.Lpstat.{LocalQueueState, local_queue_state}
use printops.NetworkHealth.{NetworkFlap}
use printops.Status.{Poll, Memory, is_answered}
use printops.Status.Recovery.{
  Outcome, forget_stall, wait_for_device, resume, resume_if_due, recover_stopped, recover,
  apply_queue_recovery,
}
use printops.Status.Refresh.{
  apply_queue_stall, apply_warnings, after_recovery, probed, flap_of, refresh_printer_status,
}

-- The gates of a resume, on the row as the probe left it.
pub record IsAllowed (poll : Poll) (manual b : Bool) (p : Printer) (m : Memory) : Type 0 where
  pub room : poll.saturated ≡ false
  pub answered : b ≡ true
  pub online : is_online p.status ≡ true
  pub state : LocalQueueState
  pub found : local_queue_state poll.lpstat p.id ≡ some state
  pub stopped : state.stopped ≡ true
  pub due : (manual || resume_due p.id poll.now (note_device_back p.id poll.now m.attempts)) ≡ true

-- Of the memory that a step leaves: no resume, or one that was allowed.
abbrev pub Resumed : Printer → Memory → Memory → Type 0 → Type 0
Resumed p m m' allowed = (m'.resumes ≡ m.resumes) ⊎ ((m'.resumes ≡ p.id ∷ m.resumes) × allowed)

module _ (poll : Poll) (manual b : Bool) (p : Printer) (m : Memory) where
  abbrev Allowed : Type 0
  Allowed = IsAllowed poll manual b p m

  wait_for_device-resumes : (m' : Memory) → (wait_for_device p m').0.1.resumes ≡ m'.resumes
  unfolding wait_for_device
  wait_for_device-resumes m' = ground arith

  resume_if_due-resumes :
      (state : LocalQueueState) (m' : Memory)
      → ((resume_if_due poll manual p state m').0.1.resumes ≡ m'.resumes)
        ⊎ (((resume_if_due poll manual p state m').0.1.resumes ≡ p.id ∷ m'.resumes)
            × ((manual || resume_due p.id poll.now m'.attempts) ≡ true))
  unfolding resume_if_due resume
  resume_if_due-resumes state m' =
      elim (Bool-cases (manual || resume_due p.id poll.now m'.attempts)) [
        | inr e ↦ inl (rw e refl)
        | inl e ↦ inr (rw e refl, e)
      ]

  -- A step that goes on as another, on its outcome.
  same_outcome : {o o' : Outcome} → o ≡ o' → Resumed p m o'.0.1 Allowed → Resumed p m o.0.1 Allowed
  same_outcome e h = subst (λ (o : Outcome). Resumed p m o.0.1 Allowed) (sym e) h

  recover_stopped-Resumed :
      (state : LocalQueueState)
      → poll.saturated ≡ false
      → local_queue_state poll.lpstat p.id ≡ some state
      → state.stopped ≡ true
      → Resumed p m (recover_stopped poll manual b p state m).0.1 Allowed
  unfolding recover_stopped
  recover_stopped-Resumed state room found stopped =
      elim (Bool-cases (not b || not (is_online p.status))) [
        | inl e ↦ same_outcome (branch_true _ _ _ e) (inl (wait_for_device-resumes _))
        | inr e ↦ same_outcome (branch_false _ _ _ e) (elim (resume_if_due-resumes state back) [
          | inl g ↦ inl g
          | inr (g, due) ↦ inr (
            g,
            record {
              room = room;
              answered = ground arith;
              online = ground arith;
              state = state;
              found = found;
              stopped = stopped;
              due = due;
            },
          )
        ])
      ]
    where
      back : Memory
      back = record (forget_stall p.id m) { attempts = note_device_back p.id poll.now m.attempts }

  recover-Resumed :
      (state : Option LocalQueueState)
      → poll.saturated ≡ false
      → local_queue_state poll.lpstat p.id ≡ state
      → Resumed p m (recover poll manual b p state m).0.1 Allowed
  unfolding recover
  recover-Resumed none room found = inl refl
  recover-Resumed (some state) room found = elim (Bool-cases state.stopped) [
    | inl e ↦
        same_outcome (branch_false _ _ _ (ap not e)) (recover_stopped-Resumed state room found e)
    | inr e ↦ same_outcome (branch_true _ _ _ (ap not e)) (inl refl)
  ]

  apply_queue_recovery-Resumed : Resumed p m (apply_queue_recovery poll manual b p m).0.1 Allowed
  unfolding apply_queue_recovery
  apply_queue_recovery-Resumed = elim (Bool-cases poll.saturated) [
    | inl e ↦ same_outcome (branch_true _ _ _ e) (inl refl)
    | inr e ↦ same_outcome (branch_false _ _ _ e) (recover-Resumed _ e refl)
  ]

after_recovery-resumes :
    (poll : Poll) (b : Bool) (flap : Option NetworkFlap) (o : Outcome)
    → (after_recovery poll b flap o).1.resumes ≡ o.0.1.resumes
unfolding after_recovery apply_warnings apply_queue_stall
after_recovery-resumes poll b flap ((p, m), true) = refl
after_recovery-resumes poll true flap ((p, m), false) = ground arith
after_recovery-resumes poll false flap ((p, m), false) = refl

-- A poll runs the resume script at most once and for its own printer only, and never unless the scheduler has room, the
-- device answered this very poll, the row is online with that answer, `lpstat` says that the queue is stopped, and a
-- person asked or the backoff of the printer is over.
pub refresh_printer_status-Resumed :
    (poll : Poll) (manual : Bool) (printer : Printer) (m : Memory)
    → Resumed
        (probed poll printer)
        m
        (refresh_printer_status poll manual printer m).1
        (IsAllowed poll manual (is_answered poll.probe) (probed poll printer) m)
unfolding refresh_printer_status
refresh_printer_status-Resumed poll manual printer m =
    elim (apply_queue_recovery-Resumed poll manual (is_answered poll.probe) (probed poll printer)
      m) [
        | inl e ↦
            inl (after_recovery-resumes poll (is_answered poll.probe) (flap_of poll printer) o ∙ e)
        | inr (e, a) ↦
            inr
              (after_recovery-resumes poll (is_answered poll.probe) (flap_of poll printer) o ∙ e, a)
      ]
  where
    o : Outcome
    o = apply_queue_recovery poll manual (is_answered poll.probe) (probed poll printer) m
