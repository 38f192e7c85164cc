-- ===== src/CounterHistory.antt =====
-- printers/counter_history.py: the daily usage of a printer, from its counter readings.
-- A day is the number of a UTC day, which an instant lies in.
pub mod Days
pub mod Sums
mod Tests
use printops.Prelude.{
  ℕ, ◌+◌, ◌-◌, ◌*◌, ◌/◌, Bool, true, false, ◌&&◌, Option, none, some, List, [], ◌∷◌, ltb, leb, ◌==◌,
  if◌then◌else◌, filter,
}
use printops.Counters.{PrinterCounterReading}

pub record DailyCounterDelta : Type 0 where
  pub bucket_start : ℕ
  pub total_delta : Option ℕ
  pub copy_delta : Option ℕ
  pub print_delta : Option ℕ

abbrev pub micros_in_day : ℕ
micros_in_day = 86_400_000_000

-- `reading.recorded_at.date()`
abbrev pub day_of : PrinterCounterReading → ℕ
day_of reading = reading.recorded_at / micros_in_day

-- `_field_delta`; a negative difference is unavailable
unfoldable pub field_delta : Option ℕ → Option ℕ → Option ℕ
field_delta (some current) (some previous) =
    if ltb current previous then none else some (current - previous)
field_delta _ _ = none

-- `last_per_day[day] = reading`, on the items in the order of their keys
unfoldable pub set_day :
    ℕ → PrinterCounterReading → List (ℕ × PrinterCounterReading) → List (ℕ × PrinterCounterReading)
set_day day reading [] = (day, reading) ∷ []
set_day day reading ((d, r) ∷ days) =
    let rest = set_day day reading days in
    if day == d
    then (day, reading) ∷ days
    else if ltb day d
    then (day, reading) ∷ (d, r) ∷ days
    else (d, r) ∷ rest

unfoldable pub last_per_day :
    List PrinterCounterReading → List (ℕ × PrinterCounterReading) → List (ℕ × PrinterCounterReading)
unfolding set_day
last_per_day [] days = days
last_per_day (reading ∷ readings) days =
    last_per_day readings (set_day (day_of reading) reading days)

-- `previous.f if previous else None`
abbrev pub field_of : (PrinterCounterReading → Option ℕ) → Option PrinterCounterReading → Option ℕ
field_of f none = none
field_of f (some reading) = f reading

abbrev pub delta_of : ℕ → PrinterCounterReading → Option PrinterCounterReading → DailyCounterDelta
delta_of day current previous = record {
  bucket_start = day;
  total_delta =
      field_delta current.page_count_total
        (field_of PrinterCounterReading.page_count_total previous);
  copy_delta =
      field_delta current.page_count_copy (field_of PrinterCounterReading.page_count_copy previous);
  print_delta =
      field_delta current.page_count_print
        (field_of PrinterCounterReading.page_count_print previous);
}

-- The loop over the days.
unfoldable pub deltas_from :
    Option PrinterCounterReading → List (ℕ × PrinterCounterReading) → List DailyCounterDelta
unfolding field_delta
deltas_from previous [] = []
deltas_from previous ((day, current) ∷ days) =
    delta_of day current previous ∷ deltas_from (some current) days

unfoldable pub diff_readings :
    List PrinterCounterReading → Option PrinterCounterReading → List DailyCounterDelta
unfolding last_per_day deltas_from
diff_readings readings boundary = deltas_from boundary (last_per_day readings [])

abbrev pub not_before : Option ℕ → ℕ → Bool
not_before none t = true
not_before (some floor) t = leb floor t

-- The rows of the query for the boundary.
abbrev pub can_bound : ℕ → ℕ → Option ℕ → PrinterCounterReading → Bool
can_bound printer_id start boundary_floor r =
    (r.printer_id == printer_id)
    && (ltb r.recorded_at start && not_before boundary_floor r.recorded_at)

abbrev pub later_reading :
    PrinterCounterReading → Option PrinterCounterReading → PrinterCounterReading
later_reading r none = r
later_reading r (some s) = if ltb r.recorded_at s.recorded_at then s else r

-- `ORDER BY recorded_at DESC LIMIT 1`
unfoldable pub latest_reading : List PrinterCounterReading → Option PrinterCounterReading
latest_reading [] = none
latest_reading (r ∷ readings) = some (later_reading r (latest_reading readings))

unfoldable pub insert_by_time :
    PrinterCounterReading → List PrinterCounterReading → List PrinterCounterReading
insert_by_time r [] = r ∷ []
insert_by_time r (s ∷ readings) =
    let rest = insert_by_time r readings in
    if ltb s.recorded_at r.recorded_at then s ∷ rest else r ∷ s ∷ readings

-- `ORDER BY recorded_at ASC`
unfoldable pub sort_by_time : List PrinterCounterReading → List PrinterCounterReading
unfolding insert_by_time
sort_by_time [] = []
sort_by_time (r ∷ readings) = insert_by_time r (sort_by_time readings)

abbrev pub in_range : ℕ → ℕ → ℕ → PrinterCounterReading → Bool
in_range printer_id start end r =
    (r.printer_id == printer_id) && (leb start r.recorded_at && ltb r.recorded_at end)

-- With no boundary and a floor that is not before `start`, the first reading becomes the boundary.
unfoldable pub with_boundary :
    ℕ
    → Option ℕ
    → Option PrinterCounterReading
    → List PrinterCounterReading
    → List DailyCounterDelta
unfolding diff_readings
with_boundary start (some floor) none (r ∷ readings) =
    if leb start floor then diff_readings readings (some r) else diff_readings (r ∷ readings) none
with_boundary start boundary_floor boundary readings = diff_readings readings boundary

unfoldable pub get_daily_deltas_range :
    List PrinterCounterReading → ℕ → ℕ → ℕ → Option ℕ → List DailyCounterDelta
unfolding with_boundary latest_reading sort_by_time
get_daily_deltas_range rows printer_id start end boundary_floor =
    with_boundary start boundary_floor
      (latest_reading (filter (can_bound printer_id start boundary_floor) rows))
      (sort_by_time (filter (in_range printer_id start end) rows))

unfoldable pub get_daily_deltas : List PrinterCounterReading → ℕ → ℕ → ℕ → List DailyCounterDelta
unfolding get_daily_deltas_range
get_daily_deltas rows printer_id days now =
    get_daily_deltas_range rows printer_id (now - days * micros_in_day) now none
