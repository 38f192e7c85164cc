-- ===== src/Quotas/Periods.antt =====
-- quotas/service.py: `_add_months` and `period_bounds`.
use printops.Prelude.{ℕ, ◌+◌, ◌-◌, ◌*◌, ◌/◌, ◌%◌, String, Option, none, some}
use printops.Calendar.{DateTime, add_days, sub_days, weekday}

-- The text of the column `period`; `other` is any text but the five known ones.
pub data Period : Type 0 where
  daily weekly monthly quarterly yearly : Period
  other : String → Period

-- `dt.replace(day=1)` is part of every call.
unfoldable pub add_months : DateTime → ℕ → DateTime
add_months dt months =
    let month_index = dt.month - 1 + months in
    record dt { year = dt.year + month_index / 12; month = month_index % 12 + 1; day = 1 }

-- The bounds [start, end); `none` is the ValueError.
unfoldable pub period_bounds : Period → DateTime → Option (DateTime × DateTime)
unfolding add_days sub_days weekday add_months
period_bounds daily now =
    let day_start : DateTime = record now { micros = 0 } in some (day_start, add_days 1 day_start)
period_bounds weekly now =
    let day_start : DateTime = record now { micros = 0 } in
    let week_start = sub_days (weekday day_start) day_start in
    some (week_start, add_days 7 week_start)
period_bounds monthly now =
    let month_start : DateTime = record now { micros = 0; day = 1 } in
    some (month_start, add_months month_start 1)
period_bounds quarterly now =
    let quarter_start : DateTime = record now {
      micros = 0;
      month = (now.month - 1) / 3 * 3 + 1;
      day = 1;
    } in
    some (quarter_start, add_months quarter_start 3)
period_bounds yearly now =
    let year_start : DateTime = record now { micros = 0; month = 1; day = 1 } in
    some (year_start, record year_start { year = now.year + 1 })
period_bounds (other _) now = none
