-- ===== src/Calendar.antt =====
-- Python's `datetime`, as far as the program computes with calendar fields: the proleptic
-- Gregorian calendar, a date stepped by a day, its ordinal and weekday, and the order of instants.
-- The time of day is in microseconds. Years past 9999, where Python raises, are not modelled.
pub mod Order
pub mod Ordinal
pub mod NextDay
pub mod Steps
use printops.Prelude.{
  ℕ, zero, suc, ◌+◌, ◌-◌, ◌*◌, ◌/◌, ◌%◌, ◌≤◌, ◌<◌, Bool, true, false, not, ◌&&◌, ◌||◌, ◌==◌, ltb,
  if◌then◌else◌,
}

pub record DateTime : Type 0 where
  pub year : ℕ
  pub month : ℕ
  pub day : ℕ
  pub micros : ℕ

abbrev pub is_leap : ℕ → Bool
is_leap y = y % 4 == 0 && (not (y % 100 == 0) || y % 400 == 0)

abbrev pub leap_day : ℕ → ℕ
leap_day y = if is_leap y then 1 else 0

unfoldable pub days_in_month : ℕ → ℕ → ℕ
days_in_month y m =
    if m == 2 then 28 + leap_day y else if m == 4 || (m == 6 || (m == 9 || m == 11)) then 30 else 31

abbrev pub micros_per_day : ℕ
micros_per_day = 86_400_000_000

-- The fields are in range, as the constructor of `datetime` checks.
pub record IsDateTime (d : DateTime) : Type 0 where
  pub year_pos : 1 ≤ d.year
  pub month_pos : 1 ≤ d.month
  pub month_le : d.month ≤ 12
  pub day_pos : 1 ≤ d.day
  pub day_le : d.day ≤ days_in_month d.year d.month
  pub micros_lt : d.micros < micros_per_day

-- The order of instants: `a < b` exactly when `key a < key b`, field by field.
abbrev pub key : DateTime → ℕ
key d = (((d.year * 12 + d.month) * 32) + d.day) * micros_per_day + d.micros

-- `d + timedelta(days=1)`
unfoldable pub next_day : DateTime → DateTime
next_day d =
    if ltb d.day (days_in_month d.year d.month)
    then record d { day = d.day + 1 }
    else if d.month == 12
    then record d { year = d.year + 1; month = 1; day = 1 }
    else record d { month = d.month + 1; day = 1 }

-- `d - timedelta(days=1)`
unfoldable pub prev_day : DateTime → DateTime
prev_day d =
    if ltb 1 d.day
    then record d { day = d.day - 1 }
    else if d.month == 1
    then record d { year = d.year - 1; month = 12; day = 31 }
    else record d { month = d.month - 1; day = days_in_month d.year (d.month - 1) }

-- `d + timedelta(days=n)`
unfoldable pub add_days : ℕ → DateTime → DateTime
unfolding next_day days_in_month
add_days zero d = d
add_days (suc n) d = add_days n (next_day d)

-- `d - timedelta(days=n)`
unfoldable pub sub_days : ℕ → DateTime → DateTime
unfolding prev_day days_in_month
sub_days zero d = d
sub_days (suc n) d = sub_days n (prev_day d)

-- The days of the years before `y`.
abbrev pub days_before_year : ℕ → ℕ
days_before_year y = (y - 1) * 365 + (y - 1) / 4 - (y - 1) / 100 + (y - 1) / 400

unfoldable pub days_before_month : ℕ → ℕ → ℕ
days_before_month y m =
    if m == 1
    then 0
    else if m == 2
    then 31
    else if m == 3
    then 59 + leap_day y
    else if m == 4
    then 90 + leap_day y
    else if m == 5
    then 120 + leap_day y
    else if m == 6
    then 151 + leap_day y
    else if m == 7
    then 181 + leap_day y
    else if m == 8
    then 212 + leap_day y
    else if m == 9
    then 243 + leap_day y
    else if m == 10
    then 273 + leap_day y
    else if m == 11
    then 304 + leap_day y
    else 334 + leap_day y

-- `d.toordinal()`
unfoldable pub ordinal : DateTime → ℕ
ordinal d = days_before_year d.year + days_before_month d.year d.month + d.day

-- `d.weekday()`: Monday is 0.
unfoldable pub weekday : DateTime → ℕ
unfolding ordinal days_before_month
weekday d = (ordinal d + 6) % 7

-- Microseconds since midnight before day 1, the instants of the rows.
abbrev pub instant : DateTime → ℕ
instant d = ordinal d * micros_per_day + d.micros
