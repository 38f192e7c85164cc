-- ===== src/Calendar/Order.antt =====
-- Steps of a day keep the fields in range and move the order.
use printops.Prelude.{ℕ, ◌+◌, ◌≤◌, ◌<◌, arith}
use printops.Calendar.{DateTime, IsDateTime, days_in_month, key, next_day}

days_in_month_bounds : (y m : ℕ) → (28 ≤ days_in_month y m) × (days_in_month y m ≤ 31)
unfolding days_in_month
days_in_month_bounds y m = ground arith

pub next_day-IsDateTime : (d : DateTime) → IsDateTime d → IsDateTime (next_day d)
unfolding next_day
next_day-IsDateTime d v =
    ground (arith, days_in_month_bounds (d.year + 1) 1, days_in_month_bounds d.year (d.month + 1))

pub key-next_day : (d : DateTime) → IsDateTime d → key d < key (next_day d)
unfolding next_day
key-next_day d v = ground (arith, days_in_month_bounds d.year d.month)
