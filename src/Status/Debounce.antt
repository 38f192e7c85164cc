-- ===== src/Status/Debounce.antt =====
-- printers/status.py: a printer is offline once two probes in a row had no answer.
use printops.Prelude.{
  ℕ, ◌+◌, Bool, true, false, Option, none, some, List, [], ◌∷◌, ◌≡◌, ◌∙◌, sym, ap, refl, arith, leb,
  String, either_branch, Bool-cases, inl, inr, if◌then◌else◌,
}
use printops.Text.{Text}
use printops.Printers.{Printer, is_offline}
use printops.Discovery.Refresh.{has_value_error}
use printops.Status.{
  Poll, Memory, Probe, unanswered, apply_probe, is_answered, derive_status, failures_before_offline,
}
use printops.Status.Rediscovered.{refresh_printer_capabilities-IsKept}
use printops.Status.Keeps.{IsKept, refresh_printer_status-IsKept}
use printops.Status.Refresh.{refresh_printer_status}
use printops.Status.Resync.{
  Reconnect, Scheduler, auto_resync_due, is_busy, attempt_sync, run_automatic_queue_sync,
  Rediscovery, resync_unless, rediscover, refresh_printer_status_and_rediscover,
}

-- The two fields that the debounce is about.
pub record IsStill (p q : Printer) : Type 0 where
  pub offline : is_offline q.status ≡ is_offline p.status
  pub failures : q.status_probe_failures ≡ p.status_probe_failures

IsStill-trans : {p q r : Printer} → IsStill p q → IsStill q r → IsStill p r
IsStill-trans a b = record { offline = b.offline ∙ a.offline; failures = b.failures ∙ a.failures }

kept-IsStill : {p q : Printer} → IsKept p q → IsStill p q
kept-IsStill k = record { offline = k.offline; failures = k.failures }

IsStill-equal : {p q : Printer} → p ≡ q → IsStill p q
IsStill-equal e = record {
  offline = ap (λ r. is_offline r.status) (sym e);
  failures = ap (λ r. r.status_probe_failures) (sym e);
}

attempt_sync-IsStill :
    (now : ℕ) (e : Option Text) (p : Printer) → IsStill p (attempt_sync now e p).0
unfolding attempt_sync
attempt_sync-IsStill now none p = record { offline = refl; failures = refl }
attempt_sync-IsStill now (some e) p = record { offline = refl; failures = refl }

run_automatic_queue_sync-IsStill :
    (s : Scheduler) (now : ℕ) (p : Printer) → IsStill p (run_automatic_queue_sync s now p).0.0
unfolding run_automatic_queue_sync
run_automatic_queue_sync-IsStill s now p = elim (Bool-cases (auto_resync_due p now)) [
  | inr e ↦ rw e (IsStill-equal refl)
  | inl e ↦ elim (Bool-cases s.saturated) [
    | inl f ↦ rw (e, f) (IsStill-equal refl)
    | inr f ↦ elim (Bool-cases (is_busy s.active)) [
      | inl g ↦ rw (e, f, g) (IsStill-equal refl)
      | inr g ↦ rw (e, f, g) (attempt_sync-IsStill now s.sync p)
    ]
  ]
]

resync_unless-IsStill :
    (b : Bool) (s : Scheduler) (now : ℕ) (p : Printer) → IsStill p (resync_unless b s now p).row
unfolding resync_unless
resync_unless-IsStill true s now p = IsStill-equal refl
resync_unless-IsStill false s now p = run_automatic_queue_sync-IsStill s now p

rediscover-IsStill :
    (poll : Poll) (r : Reconnect) (b : Bool) (p : Printer) → IsStill p (rediscover poll r b p).row
unfolding rediscover
rediscover-IsStill poll r b p =
    either_branch (λ (o : Rediscovery). IsStill p o.row) _ _ _ (λ _. IsStill-equal refl)
      (λ _.
        IsStill-trans
          (kept-IsStill (refresh_printer_capabilities-IsKept r.first r.second poll.now p r.tool))
          (resync_unless-IsStill (has_value_error r.first r.second poll.now p) r.scheduler poll.now
            _))

-- A poll of the printer, with what is answered to it and behind it, and whether a person asked.
pub record Visit : Type 0 where
  pub poll : Poll
  pub reconnect : Reconnect
  pub manual : Bool

-- The row and the memory after the polls, the latest first.
abbrev pub polled : List Visit → Printer → Memory → Printer × Memory
polled [] printer m = (printer, m)
polled (t ∷ ts) printer m =
    let (p, m') = polled ts printer m in
    let (o, m'') = refresh_printer_status_and_rediscover t.poll t.reconnect t.manual p m' in
    (o.row, m'')

-- How many probes in a row had no answer, up to now.
abbrev pub missed : List Visit → ℕ
missed [] = 0
missed (t ∷ ts) = let n = missed ts in if is_answered t.poll.probe then 0 else n + 1

-- The status and the count agree.
pub record IsDebounced (n : ℕ) (p : Printer) : Type 0 where
  pub status : is_offline p.status ≡ leb failures_before_offline n
  pub failures : p.status_probe_failures ≡ n

IsDebounced-still : (n : ℕ) {p q : Printer} → IsStill p q → IsDebounced n p → IsDebounced n q
IsDebounced-still n k d = record {
  status = k.offline ∙ d.status;
  failures = k.failures ∙ d.failures;
}

derived-not_offline :
    (state : Option ℕ) (reasons : List String) → is_offline (derive_status state reasons).0 ≡ false
unfolding derive_status
derived-not_offline state reasons = ground arith

apply_probe-IsDebounced :
    (n now : ℕ) (probe : Probe) (p : Printer)
    → IsDebounced n p
    → IsDebounced (if is_answered probe then 0 else n + 1) (apply_probe now probe p)
unfolding apply_probe
apply_probe-IsDebounced n now (Probe.answered state reasons message) p d = record {
  status = derived-not_offline state reasons;
  failures = refl;
}
apply_probe-IsDebounced n now (unanswered message) p d =
    let ds = d.status in
    let df = d.failures in
    either_branch (IsDebounced (n + 1)) (leb failures_before_offline (p.status_probe_failures + 1))
      _ _ (λ e. record { status = ground arith; failures = ground arith })
      (λ e. record { status = ground arith; failures = ground arith })

-- A printer that starts out without failed probes and not offline is offline after any polls, by the loop or by a
-- person, exactly if the last two probes had no answer, whatever the queue recovery, the warnings, the rediscovery and
-- the resync did in between; the row's count is the number of probes in a row without an answer.
pub polled-IsDebounced :
    (ts : List Visit) (printer : Printer) (m : Memory)
    → IsDebounced 0 printer
    → IsDebounced (missed ts) (polled ts printer m).0
unfolding refresh_printer_status_and_rediscover
polled-IsDebounced [] printer m d = d
polled-IsDebounced (t ∷ ts) printer m d =
    IsDebounced-still _ (rediscover-IsStill t.poll t.reconnect _ _) (
      IsDebounced-still _ (behind _) (
        apply_probe-IsDebounced (missed ts) t.poll.now t.poll.probe _
          (polled-IsDebounced ts printer m d)))
  where
    behind :
        (o : Printer × Memory)
        → IsStill
            (apply_probe t.poll.now t.poll.probe o.0)
            (refresh_printer_status t.poll t.manual o.0 o.1).0
    behind (p, m') = kept-IsStill (refresh_printer_status-IsKept t.poll t.manual p m')
