-- ===== src/CounterHistory/Tests.antt =====
-- Three readings over two days, and the theorems at them.
use printops.Prelude.{ℕ, ◌+◌, ◌≡◌, refl, none, some, List, [], ◌∷◌, arith}
use printops.Counters.{PrinterCounterReading}
use printops.CounterHistory.{diff_readings, deltas_from, last_per_day, set_day, field_delta}
use printops.CounterHistory.Sums.{AreKnown, total_of, diff_readings-sum}

abbrev reading : ℕ → ℕ → PrinterCounterReading
reading at total = record {
  printer_id = 1;
  recorded_at = at;
  page_count_total = some total;
  page_count_copy = none;
  page_count_print = none;
}

abbrev readings : List PrinterCounterReading
readings = reading 1_000_000 110 ∷ reading 2_000_000 120 ∷ reading 86_400_000_005 150 ∷ []

totals_known : AreKnown (diff_readings readings (some (reading 0 100)))
unfolding diff_readings deltas_from last_per_day set_day field_delta
totals_known = (refl, (refl, tt))

diff_readings-sum_example :
    some 150 ≡ some (100 + total_of (diff_readings readings (some (reading 0 100))))
diff_readings-sum_example =
    diff_readings-sum 0 readings (reading 0 100) 100 (omega arith, (omega arith, (omega arith, tt)))
      refl totals_known
