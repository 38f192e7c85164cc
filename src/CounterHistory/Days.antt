-- ===== src/CounterHistory/Days.antt =====
-- printers/counter_history.py: which days have a delta.
use mathlib.Core.Path.{subst}
use printops.Prelude.{
  ℕ, ◌≡◌, ◌<◌, refl, ap, ◌∙◌, Bool, true, ◌||◌, Option, some, List, [], ◌∷◌, ltb, ◌==◌, any, All,
  arith, Bool-cases, inl, inr,
}
use printops.Counters.{PrinterCounterReading}
use printops.CounterHistory.{
  DailyCounterDelta, day_of, set_day, last_per_day, deltas_from, diff_readings,
}

-- The days ascend, and no day stands twice.
unfoldable pub IsAscending : List (ℕ × PrinterCounterReading) → Type 0
IsAscending [] = Unit
IsAscending (e ∷ days) = All (λ f. e.0 < f.0) days × IsAscending days

abbrev has_day : ℕ → List (ℕ × PrinterCounterReading) → Bool
has_day d days = any (λ e. e.0 == d) days

set_day-has_day :
    (k day : ℕ) (r : PrinterCounterReading) (days : List (ℕ × PrinterCounterReading))
    → has_day k (set_day day r days) ≡ ((day == k) || has_day k days)
unfolding set_day
set_day-has_day k day r [] = refl
set_day-has_day k day r (e ∷ days) = ground (arith, set_day-has_day k day r days)

set_day-All :
    (t day : ℕ) (r : PrinterCounterReading) (days : List (ℕ × PrinterCounterReading))
    → t < day
    → All (λ f. t < f.0) days
    → All (λ f. t < f.0) (set_day day r days)
unfolding set_day
set_day-All t day r [] h k = (h, tt)
set_day-All t day r (e ∷ days) h k = elim (Bool-cases (day == e.0)) [
  | inl same ↦ rw same (h, k.1)
  | inr other ↦ elim (Bool-cases (ltb day e.0)) [
    | inl l ↦ rw (other, l) (h, k)
    | inr l ↦ rw (other, l) (k.0, set_day-All t day r days h k.1)
  ]
]

later-All :
    (s t : ℕ) (days : List (ℕ × PrinterCounterReading))
    → s < t
    → All (λ f. t < f.0) days
    → All (λ f. s < f.0) days
later-All s t [] h k = tt
later-All s t (e ∷ days) h k = (omega (arith, h, k.0), later-All s t days h k.1)

pub set_day-IsAscending :
    (day : ℕ) (r : PrinterCounterReading) (days : List (ℕ × PrinterCounterReading))
    → IsAscending days
    → IsAscending (set_day day r days)
unfolding IsAscending set_day
set_day-IsAscending day r [] h = (tt, tt)
set_day-IsAscending day r (e ∷ days) h = elim (Bool-cases (day == e.0)) [
  | inl same ↦ rw same (subst (λ d. All (λ f. d < f.0) days) (day_eq same) h.0, h.1)
  | inr other ↦ elim (Bool-cases (ltb day e.0)) [
    | inl l ↦
        let lt : day < e.0 = ground arith in rw (other, l) ((lt, later-All day e.0 days lt h.0), h)
    | inr l ↦
        let lt : e.0 < day = ground arith in
        rw (other, l) (set_day-All e.0 day r days lt h.0, set_day-IsAscending day r days h.1)
  ]
]
  where
    day_eq : (day == e.0) ≡ true → e.0 ≡ day
    day_eq h = ground arith

last_per_day-days :
    (k : ℕ) (readings : List PrinterCounterReading) (days : List (ℕ × PrinterCounterReading))
    → IsAscending days
    → IsAscending (last_per_day readings days)
      × (has_day k (last_per_day readings days)
          ≡ (has_day k days || any (λ r. day_of r == k) readings))
unfolding last_per_day
last_per_day-days k [] days h = (h, ground arith)
last_per_day-days k (r ∷ readings) days h =
    let ih =
      last_per_day-days k readings (set_day (day_of r) r days)
        (set_day-IsAscending (day_of r) r days h) in
    (
      ih.0,
      ih.1
          ∙ ap (λ b. b || any (λ r. day_of r == k) readings) (set_day-has_day k (day_of r) r days)
          ∙ swap (has_day k days) (day_of r == k) (any (λ r. day_of r == k) readings),
    )
  where
    swap : (a b c : Bool) → ((b || a) || c) ≡ (a || (b || c))
    swap a b c = ground arith

-- The buckets ascend.
unfoldable pub AreAscending : List DailyCounterDelta → Type 0
AreAscending [] = Unit
AreAscending (d ∷ deltas) = All (λ f. d.bucket_start < f.bucket_start) deltas × AreAscending deltas

deltas-days :
    (k : ℕ) (previous : Option PrinterCounterReading) (days : List (ℕ × PrinterCounterReading))
    → IsAscending days
    → AreAscending (deltas_from previous days)
      × (any (λ d. d.bucket_start == k) (deltas_from previous days) ≡ has_day k days)
unfolding deltas_from IsAscending AreAscending
deltas-days k previous [] h = (tt, refl)
deltas-days k previous (e ∷ days) h =
    let ih = deltas-days k (some e.1) days h.1 in
    ((after e.0 (some e.1) days h.0, ih.0), ap (λ b. (e.0 == k) || b) ih.1)
  where
    after :
        (t : ℕ) (p : Option PrinterCounterReading) (days : List (ℕ × PrinterCounterReading))
        → All (λ f. t < f.0) days
        → All (λ f. t < f.bucket_start) (deltas_from p days)
    after t p [] k = tt
    after t p (f ∷ days) k = (k.0, after t (some f.1) days k.1)

-- There is one delta for each day with a reading, and none for any other; the days ascend.
diff_readings-AreAscending :
    (readings : List PrinterCounterReading) (boundary : Option PrinterCounterReading) (day : ℕ)
    → AreAscending (diff_readings readings boundary)
      × (any (λ d. d.bucket_start == day) (diff_readings readings boundary)
          ≡ any (λ r. day_of r == day) readings)
unfolding diff_readings IsAscending
diff_readings-AreAscending readings boundary day =
    let l = last_per_day-days day readings [] nothing in
    let d = deltas-days day boundary (last_per_day readings []) l.0 in (d.0, d.1 ∙ l.1)
  where
    nothing : IsAscending []
    nothing = tt
