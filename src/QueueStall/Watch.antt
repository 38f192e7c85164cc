-- ===== src/QueueStall/Watch.antt =====
-- printers/queue_stall.py: the memory of a queue's head job over the polls.
use mathlib.Core.Path.{subst}
use printops.Prelude.{
  ℕ, ◌-◌, ◌≤◌, ◌≡◌, refl, sym, ap, ◌∙◌, String, true, Option, none, some, List, [], ◌∷◌, arith, leb,
  str_eq, eq_iff, Bool-cases, ◌⊎◌, inl, inr, leb→le, some_inj,
}
use printops.QueueStall.{
  QueueSnapshot, HeadObservation, observe_head, observe_queue, observe_snapshot, threshold_for,
}

-- One poll of a queue: when, and what lpstat answered. The latest poll stands first.
abbrev pub Poll : Type 0
Poll = ℕ × Option QueueSnapshot

abbrev pub head_of : Option QueueSnapshot → Option String
head_of none = none
head_of (some s) = s.head_job

abbrev pub size_of : Option QueueSnapshot → Option ℕ
size_of none = none
size_of (some s) = s.head_size_bytes

-- What is remembered after the polls.
unfoldable pub memory_of : List Poll → Option HeadObservation
unfolding observe_snapshot
memory_of [] = none
memory_of ((now, s) ∷ polls) = (observe_snapshot now s (memory_of polls)).0

-- Every poll since the one at `t` found the job at the head.
abbrev pub SameHead : String → ℕ → List Poll → Type 0
SameHead job t [] = ⊥
SameHead job t ((now, s) ∷ polls) = (head_of s ≡ some job) × ((now ≡ t) ⊎ SameHead job t polls)

abbrev Remembered : List Poll → Option HeadObservation → Type 0
Remembered polls none = Unit
Remembered polls (some o) = SameHead o.head_job o.first_seen polls

Remembered-head :
    (now : ℕ) (s : Option QueueSnapshot) (job : String) (size : Option ℕ) (polls : List Poll)
    (o : Option HeadObservation)
    → head_of s ≡ some job
    → Remembered polls o
    → Remembered ((now, s) ∷ polls) (observe_head now job size o).0
unfolding observe_head
Remembered-head now s job size polls none e r = (e, inl refl)
Remembered-head now s job size polls (some o) e r = elim (Bool-cases (str_eq o.head_job job)) [
  | inl same ↦ rw same (e ∙ ap some (sym (text_same same)), inr r)
  | inr other ↦ rw other (e, inl refl)
]
  where
    text_same : str_eq o.head_job job ≡ true → o.head_job ≡ job
    text_same h = ground (arith, eq_iff o.head_job job)

Remembered-queue :
    (now : ℕ) (s : Option QueueSnapshot) (head : Option String) (size : Option ℕ)
    (polls : List Poll) (o : Option HeadObservation)
    → head_of s ≡ head
    → Remembered polls o
    → Remembered ((now, s) ∷ polls) (observe_queue now head size o).0
unfolding observe_queue
Remembered-queue now s none size polls o e r = tt
Remembered-queue now s (some job) size polls o e r = Remembered-head now s job size polls o e r

Remembered-poll :
    (now : ℕ) (s : Option QueueSnapshot) (polls : List Poll) (o : Option HeadObservation)
    → Remembered polls o
    → Remembered ((now, s) ∷ polls) (observe_snapshot now s o).0
unfolding observe_snapshot
Remembered-poll now none polls o r = tt
Remembered-poll now (some s) polls o r =
    Remembered-queue now (some s) s.head_job s.head_size_bytes polls o refl r

memory-Remembered : (polls : List Poll) → Remembered polls (memory_of polls)
unfolding memory_of
memory-Remembered [] = tt
memory-Remembered ((now, s) ∷ polls) =
    Remembered-poll now s polls (memory_of polls) (memory-Remembered polls)

-- A stall is reported with the observation that shows it.
head_stall :
    (now : ℕ) (job : String) (size : Option ℕ) (o : Option HeadObservation) (stuck : ℕ)
    → (observe_head now job size o).1 ≡ some stuck
    → (p : HeadObservation) × (o ≡ some p)
      × (p.head_job ≡ job)
      × (stuck ≡ now - p.first_seen)
      × (threshold_for size ≤ stuck)
unfolding observe_head
head_stall now job size none stuck e = cc
head_stall now job size (some p) stuck e = elim (Bool-cases (str_eq p.head_job job)) [
  | inr other ↦ cc (rw other at e)
  | inl same ↦ elim (Bool-cases (leb (threshold_for size) (now - p.first_seen))) [
    | inr young ↦ cc (rw young at (rw same at e))
    | inl old ↦
        let d : now - p.first_seen ≡ stuck = some_inj (rw old at (rw same at e)) in
        (
          p,
          refl,
          text_same same,
          sym d,
          omega (arith, leb→le (threshold_for size) (now - p.first_seen) old, d),
        )
  ]
]
  where
    text_same : str_eq p.head_job job ≡ true → p.head_job ≡ job
    text_same h = ground (arith, eq_iff p.head_job job)

queue_stall :
    (now : ℕ) (head : Option String) (size : Option ℕ) (o : Option HeadObservation) (stuck : ℕ)
    → (observe_queue now head size o).1 ≡ some stuck
    → (p : HeadObservation) × (o ≡ some p)
      × (head ≡ some p.head_job)
      × (stuck ≡ now - p.first_seen)
      × (threshold_for size ≤ stuck)
unfolding observe_queue
queue_stall now none size o stuck e = cc
queue_stall now (some job) size o stuck e =
    let (p, a, b, c, d) = head_stall now job size o stuck e in (p, a, ap some (sym b), c, d)

snapshot_stall :
    (now : ℕ) (s : Option QueueSnapshot) (o : Option HeadObservation) (stuck : ℕ)
    → (observe_snapshot now s o).1 ≡ some stuck
    → (p : HeadObservation) × (o ≡ some p)
      × (head_of s ≡ some p.head_job)
      × (stuck ≡ now - p.first_seen)
      × (threshold_for (size_of s) ≤ stuck)
unfolding observe_snapshot
snapshot_stall now none o stuck e = cc
snapshot_stall now (some s) o stuck e = queue_stall now s.head_job s.head_size_bytes o stuck e

-- A stall is reported for no less than its threshold, and only of a head job that every poll since
-- has found at the head of the queue: one poll without an answer, of an empty queue or of another
-- job begins the count again.
pub observe-SameHead :
    (polls : List Poll) (now : ℕ) (snapshot : Option QueueSnapshot) (stuck : ℕ)
    → (observe_snapshot now snapshot (memory_of polls)).1 ≡ some stuck
    → (job : String) × (since : ℕ) × (head_of snapshot ≡ some job)
      × SameHead job since polls
      × (stuck ≡ now - since)
      × (threshold_for (size_of snapshot) ≤ stuck)
observe-SameHead polls now snapshot stuck e =
    let (p, a, b, c, d) = snapshot_stall now snapshot (memory_of polls) stuck e in
    (p.head_job, p.first_seen, b, subst (Remembered polls) a (memory-Remembered polls), c, d)
