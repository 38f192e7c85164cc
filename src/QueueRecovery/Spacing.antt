-- ===== src/QueueRecovery/Spacing.antt =====
-- printers/queue_recovery.py: what the polls between two resumes can do to the backoff.
use printops.Prelude.{
  ℕ, ◌+◌, ◌≤◌, ◌≡◌, refl, Bool, true, false, any, ◌⊎◌, Option, none, some, List, [], ◌∷◌, arith,
  ltb, if◌then◌else◌, leb→le, not-ltb, Bool-cases, inl, inr,
}
use printops.QueueRecovery.{
  Attempt, resume_cooldown, healthy_reset_period, backoff, is_due, still_stopped, device_away,
  back_since, device_back, started, failures_of,
}
use printops.QueueRecovery.Backoff.{backoff-bounds}

-- What a poll finds: the queue is still stopped, its device is away or online, or the queue is running or lpstat silent.
pub data Poll : Type 0 where
  seen_stopped : ℕ → Poll
  seen_away : ℕ → Poll
  seen_online : ℕ → Poll
  seen_running : ℕ → Poll

abbrev pub time_of : Poll → ℕ
time_of (seen_stopped t) = t
time_of (seen_away t) = t
time_of (seen_online t) = t
time_of (seen_running t) = t

abbrev pub is_running : Poll → Bool
is_running (seen_running t) = true
is_running _ = false

-- What is remembered of the queue; `forget` leaves nothing.
unfoldable pub poll : Poll → Option Attempt → Option Attempt
unfolding still_stopped device_away device_back back_since
poll (seen_stopped t) a = still_stopped a
poll (seen_away t) a = device_away a
poll (seen_online t) a = device_back t a
poll (seen_running t) a = none

unfoldable pub polls : List Poll → Option Attempt → Option Attempt
unfolding poll
polls [] a = a
polls (p ∷ ps) a = polls ps (poll p a)

-- The polls are in the order of time, from `t` on.
abbrev pub InOrder : ℕ → List Poll → Type 0
InOrder t [] = Unit
InOrder t (p ∷ ps) = (t ≤ time_of p) × InOrder (time_of p) ps

abbrev pub end_of : ℕ → List Poll → ℕ
end_of t [] = t
end_of t (p ∷ ps) = end_of (time_of p) ps

-- The memory of a resume at `t`, seen at `now`: it stands, and its device came back after it, or
-- it has been dropped after the reset period.
abbrev Since : ℕ → Option ℕ → Type 0
Since t none = Unit
Since t (some u) = t ≤ u

abbrev Remembers : ℕ → ℕ → Option Attempt → Type 0
Remembers t now none = t + healthy_reset_period ≤ now
Remembers t now (some a) = (a.last_attempt ≡ t) × Since t a.online_since

back-Remembers :
    (t u : ℕ) (a : Attempt) (s : Option ℕ)
    → t ≤ u
    → a.last_attempt ≡ t
    → a.online_since ≡ s
    → Since t s
    → Remembers t u (back_since a u s)
unfolding back_since
back-Remembers t u a none l r e h = (r, l)
back-Remembers t u a (some v) l r e h = elim (Bool-cases (ltb u (v + healthy_reset_period))) [
  | inl y ↦ rw (y, e) (r, h)
  | inr n ↦ rw n (omega (arith, h, not-ltb u (v + healthy_reset_period) n))
]

poll-Remembers :
    (t now : ℕ) (p : Poll) (a : Option Attempt)
    → t ≤ now
    → now ≤ time_of p
    → is_running p ≡ false
    → Remembers t now a
    → Remembers t (time_of p) (poll p a)
unfolding poll still_stopped device_away device_back
poll-Remembers t now (seen_stopped u) none l k n r = omega (arith, r, k)
poll-Remembers t now (seen_away u) none l k n r = omega (arith, r, k)
poll-Remembers t now (seen_online u) none l k n r = omega (arith, r, k)
poll-Remembers t now (seen_running u) a l k n r = cc
poll-Remembers t now (seen_stopped u) (some a) l k n r = elim (Bool-cases a.awaiting_verdict) [
  | inl e ↦ rw e r
  | inr e ↦ rw e r
]
poll-Remembers t now (seen_away u) (some a) l k n r = (r.0, tt)
poll-Remembers t now (seen_online u) (some a) l k n r = elim (Bool-cases a.device_was_away) [
  | inl e ↦ simp e (back-Remembers t u a a.online_since (omega (arith, l, k)) r.0 refl r.1)
  | inr e ↦ rw e r
]

polls-Remembers :
    (t now : ℕ) (ps : List Poll) (a : Option Attempt)
    → t ≤ now
    → InOrder now ps
    → any is_running ps ≡ false
    → Remembers t now a
    → Remembers t (end_of now ps) (polls ps a)
unfolding polls
polls-Remembers t now [] a l o n r = r
polls-Remembers t now (p ∷ ps) a l o n r =
    let m : (is_running p ≡ false) × (any is_running ps ≡ false) = ground arith in
    polls-Remembers t (time_of p) ps (poll p a) (omega (arith, l, o.0)) o.1 m.1
      (poll-Remembers t now p a l o.0 m.0 r)

due_after :
    (t end now : ℕ) (a : Option Attempt)
    → Remembers t end a
    → end ≤ now
    → is_due a now ≡ true
    → t + resume_cooldown ≤ now
unfolding is_due
due_after t end now none r l d = omega (arith, r, l)
due_after t end now (some a) r l d = omega (
  arith,
  leb→le (a.last_attempt + backoff a.failures) now d,
  (backoff-bounds a.failures 0).0,
  r.0,
)

-- After a resume at `t` and polls in the order of time, the queue is due for another automatic resume only when the cooldown
-- of five minutes since `t` is over, or if one of the polls found the queue running or had no answer about it, which makes
-- the program forget the resume.
pub is_due-spaced :
    (t now : ℕ) (before : Option Attempt) (ps : List Poll)
    → InOrder t ps
    → end_of t ps ≤ now
    → is_due (polls ps (some (started t before))) now ≡ true
    → (t + resume_cooldown ≤ now) ⊎ (any is_running ps ≡ true)
unfolding started
is_due-spaced t now before ps o l d = elim (Bool-cases (any is_running ps)) [
  | inl y ↦ inr y
  | inr n ↦ inl (
      due_after t (end_of t ps) now (polls ps (some (started t before)))
        (polls-Remembers t t ps (some (started t before)) (omega arith) o n (refl, tt)) l d)
]

-- The failures of an attempt, and one more while its verdict is awaited.
abbrev budget : Option Attempt → ℕ
budget none = 0
budget (some a) = a.failures + (if a.awaiting_verdict then 1 else 0)

failures-budget : (a : Option Attempt) → failures_of a ≤ budget a
failures-budget none = omega arith
failures-budget (some a) = omega arith

back-budget : (u : ℕ) (a : Attempt) (s : Option ℕ) → budget (back_since a u s) ≤ budget (some a)
unfolding back_since
back-budget u a none = omega arith
back-budget u a (some v) = ground arith

poll-budget : (p : Poll) (a : Option Attempt) → budget (poll p a) ≤ budget a
unfolding poll still_stopped device_away device_back
poll-budget (seen_stopped u) none = omega arith
poll-budget (seen_away u) none = omega arith
poll-budget (seen_online u) none = omega arith
poll-budget (seen_running u) a = omega arith
poll-budget (seen_stopped u) (some a) = ground arith
poll-budget (seen_away u) (some a) = omega arith
poll-budget (seen_online u) (some a) = ground (arith, back-budget u a a.online_since)

polls-budget : (ps : List Poll) (a : Option Attempt) → budget (polls ps a) ≤ budget a
unfolding polls
polls-budget [] a = omega arith
polls-budget (p ∷ ps) a = omega (arith, polls-budget ps (poll p a), poll-budget p a)

-- A resume that does not hold is counted once, however many polls find the queue stopped.
polls-failures_once :
    (t : ℕ) (before : Option Attempt) (ps : List Poll)
    → failures_of (polls ps (some (started t before))) ≤ failures_of before + 1
unfolding started
polls-failures_once t before ps =
    let a = polls ps (some (started t before)) in
    omega (arith, failures-budget a, polls-budget ps (some (started t before)))
