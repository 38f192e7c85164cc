-- ===== src/CounterHistory/Sums.antt =====
-- printers/counter_history.py: what the deltas add up to.
use printops.Prelude.{
  ℕ, ◌+◌, ◌-◌, ◌/◌, ◌≤◌, ◌<◌, ◌≡◌, refl, sym, ap, ◌∙◌, true, false, Option, none, some, List, [],
  ◌∷◌, ltb, ◌==◌, is_none, or_number, sum_by, All, arith, Bool-cases, inl, inr,
}
use printops.Counters.{PrinterCounterReading}
use printops.CounterHistory.{
  DailyCounterDelta, day_of, micros_in_day, field_delta, set_day, last_per_day, deltas_from,
  diff_readings,
}
use printops.CounterHistory.Days.{IsAscending, set_day-IsAscending}

-- The total at the end of some days.
abbrev end_total : Option ℕ → List (ℕ × PrinterCounterReading) → Option ℕ
end_total o [] = o
end_total o (e ∷ days) = end_total e.1.page_count_total days

-- No day's total is unavailable.
abbrev pub AreKnown : List DailyCounterDelta → Type 0
AreKnown deltas = All (λ d. is_none d.total_delta ≡ false) deltas

abbrev pub total_of : List DailyCounterDelta → ℕ
total_of deltas = sum_by (λ d. or_number d.total_delta 0) deltas

known_delta :
    (c : Option ℕ) (n : ℕ)
    → is_none (field_delta c (some n)) ≡ false
    → (m : ℕ) × (c ≡ some m) × (field_delta c (some n) ≡ some (m - n)) × (n ≤ m)
unfolding field_delta
known_delta none n h = cc
known_delta (some m) n h = elim (Bool-cases (ltb m n)) [
  | inl e ↦ cc (rw e at h)
  | inr e ↦ (m, refl, rw e, ground arith)
]

deltas-sum :
    (p : PrinterCounterReading) (n : ℕ) (days : List (ℕ × PrinterCounterReading))
    → p.page_count_total ≡ some n
    → AreKnown (deltas_from (some p) days)
    → end_total (some n) days ≡ some (n + total_of (deltas_from (some p) days))
unfolding deltas_from
deltas-sum p n [] e h = ap some (omega arith)
deltas-sum p n ((day, current) ∷ days) e h =
    let d = ap (field_delta current.page_count_total) e in
    let (m, c, f, le) = known_delta current.page_count_total n (ap is_none (sym d) ∙ h.0) in
    let rest = deltas-sum current m days c h.1 in
    ap (λ o. end_total o days) c
    ∙ rest
    ∙ ap some (omega (arith, le, ap (λ o. or_number o 0) (d ∙ f)))

-- The readings are in the order of time, from `t` on.
abbrev pub InOrder : ℕ → List PrinterCounterReading → Type 0
InOrder t [] = Unit
InOrder t (r ∷ readings) = (t ≤ r.recorded_at) × InOrder r.recorded_at readings

abbrev pub last_total : Option ℕ → List PrinterCounterReading → Option ℕ
last_total o [] = o
last_total o (r ∷ readings) = last_total r.page_count_total readings

abbrev UpTo : ℕ → List (ℕ × PrinterCounterReading) → Type 0
UpTo day days = All (λ f. f.0 ≤ day) days

set_day-UpTo :
    (day : ℕ) (r : PrinterCounterReading) (days : List (ℕ × PrinterCounterReading))
    → UpTo day days
    → UpTo day (set_day day r days)
unfolding set_day
set_day-UpTo day r [] h = (omega arith, tt)
set_day-UpTo day r (e ∷ days) h = elim (Bool-cases (day == e.0)) [
  | inl same ↦ rw same (omega arith, h.1)
  | inr other ↦ elim (Bool-cases (ltb day e.0)) [
    | inl l ↦ rw (other, l) (omega arith, h)
    | inr l ↦ rw (other, l) (h.0, set_day-UpTo day r days h.1)
  ]
]

later-UpTo : (s t : ℕ) (days : List (ℕ × PrinterCounterReading)) → s ≤ t → UpTo s days → UpTo t days
later-UpTo s t [] h k = tt
later-UpTo s t (e ∷ days) h k = (omega (arith, h, k.0), later-UpTo s t days h k.1)

-- A reading of the last day so far is the last one.
set_day-end :
    (day : ℕ) (r : PrinterCounterReading) (o : Option ℕ) (days : List (ℕ × PrinterCounterReading))
    → IsAscending days
    → UpTo day days
    → end_total o (set_day day r days) ≡ r.page_count_total
unfolding IsAscending set_day
set_day-end day r o [] a h = refl
set_day-end day r o (e ∷ days) a h = elim (Bool-cases (day == e.0)) [
  | inl same ↦ rw same (ended days e.0 (ground arith) a.0 h.1)
  | inr other ↦ elim (Bool-cases (ltb day e.0)) [
    | inl l ↦ absurd (too_late e.0 l h.0)
    | inr l ↦ rw (other, l) (set_day-end day r e.1.page_count_total days a.1 h.1)
  ]
]
  where
    too_late : (d : ℕ) → ltb day d ≡ true → d ≤ day → ⊥
    too_late d l h = ground arith

    ended :
        (days : List (ℕ × PrinterCounterReading)) (d : ℕ)
        → day ≡ d
        → All (λ f. d < f.0) days
        → UpTo day days
        → end_total r.page_count_total days ≡ r.page_count_total
    ended [] d e k h = refl
    ended (f ∷ days) d e k h = absurd (omega (arith, e, k.0, h.0))

last_per_day-end :
    (readings : List PrinterCounterReading) (t : ℕ) (o : Option ℕ)
    (days : List (ℕ × PrinterCounterReading))
    → InOrder t readings
    → IsAscending days
    → UpTo (t / micros_in_day) days
    → end_total o (last_per_day readings days) ≡ last_total (end_total o days) readings
unfolding last_per_day
last_per_day-end [] t o days i a h = refl
last_per_day-end (r ∷ readings) t o days i a h =
    let up = later-UpTo (t / micros_in_day) (day_of r) days (omega (arith, i.0)) h in
    last_per_day-end readings r.recorded_at o (set_day (day_of r) r days) i.1
      (set_day-IsAscending (day_of r) r days a) (set_day-UpTo (day_of r) r days up)
    ∙ ap (λ v. last_total v readings) (set_day-end (day_of r) r o days a up)

-- No page is counted twice and none between two days is lost: with the readings in the order of
-- time, after a boundary whose counter is known, and with every day's difference available, the
-- boundary's counter and the daily deltas add up to the counter of the last reading.
pub diff_readings-sum :
    (t : ℕ) (readings : List PrinterCounterReading) (boundary : PrinterCounterReading) (n : ℕ)
    → InOrder t readings
    → boundary.page_count_total ≡ some n
    → AreKnown (diff_readings readings (some boundary))
    → last_total (some n) readings ≡ some (n + total_of (diff_readings readings (some boundary)))
unfolding diff_readings IsAscending
diff_readings-sum t readings boundary n i e k =
    sym (last_per_day-end readings t (some n) [] i tt tt)
    ∙ deltas-sum boundary n (last_per_day readings []) e k
