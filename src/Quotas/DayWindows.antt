-- ===== src/Quotas/DayWindows.antt =====
-- The daily and the weekly windows of a quota period.
use printops.Prelude.{◌+◌, ◌%◌, ◌≤◌, ◌≡◌, refl, arith}
use printops.Calendar.{DateTime, IsDateTime, ordinal, weekday, add_days, sub_days}
use printops.Calendar.Steps.{add_days-ordinal, sub_days-ordinal, eq_of_ordinal}
use printops.Quotas.Midnights.{
  Contains, day_start, day_start-IsDateTime, le_midnight, lt_midnight, midnight_le, midnight_lt,
  ordinal-day_start,
}

pub daily-Contains :
    (now : DateTime) → IsDateTime now → Contains now (day_start now, add_days 1 (day_start now))
daily-Contains now v =
    let (w, o, m) = add_days-ordinal 1 (day_start now) (day_start-IsDateTime now v) in
    (
      midnight_le (day_start now) now refl v (omega (arith, ordinal-day_start now)),
      midnight_lt now (add_days 1 (day_start now)) v (omega (arith, ordinal-day_start now)),
    )

pub daily_stable :
    (now d : DateTime)
    → IsDateTime now
    → IsDateTime d
    → Contains d (day_start now, add_days 1 (day_start now))
    → day_start d ≡ day_start now
daily_stable now d v w h =
    let (a, o, m) = add_days-ordinal 1 (day_start now) (day_start-IsDateTime now v) in
    eq_of_ordinal (day_start d) (day_start now) (day_start-IsDateTime d w)
      (day_start-IsDateTime now v)
      (omega (
        arith,
        le_midnight (day_start now) d refl w h.0,
        lt_midnight d (add_days 1 (day_start now)) m w h.1,
        ordinal-day_start now,
        ordinal-day_start d,
      ))
      refl

-- The Monday of the week, at midnight.
abbrev pub week_start : DateTime → DateTime
week_start d = sub_days (weekday (day_start d)) (day_start d)

pub ordinal_pos : (d : DateTime) → IsDateTime d → 1 ≤ ordinal d
unfolding ordinal
ordinal_pos d v = omega (arith, v.day_pos)

pub week_start-ordinal :
    (d : DateTime)
    → IsDateTime d
    → IsDateTime (week_start d)
      × (ordinal (week_start d) + (ordinal d + 6) % 7 ≡ ordinal d)
      × ((week_start d).micros ≡ 0)
unfolding weekday
week_start-ordinal d v =
    sub_days-ordinal ((ordinal (day_start d) + 6) % 7) (day_start d) (day_start-IsDateTime d v)
      (omega (arith, ordinal_pos d v, ordinal-day_start d))

pub weekly-Contains :
    (now : DateTime) → IsDateTime now → Contains now (week_start now, add_days 7 (week_start now))
weekly-Contains now v =
    let (a, o, m) = week_start-ordinal now v in
    let (b, o', m') = add_days-ordinal 7 (week_start now) a in
    (
      midnight_le (week_start now) now m v (omega arith),
      midnight_lt now (add_days 7 (week_start now)) v (omega arith),
    )

pub weekly_stable :
    (now d : DateTime)
    → IsDateTime now
    → IsDateTime d
    → Contains d (week_start now, add_days 7 (week_start now))
    → week_start d ≡ week_start now
weekly_stable now d v w h =
    let (a, o, m) = week_start-ordinal now v in
    let (b, o', m') = add_days-ordinal 7 (week_start now) a in
    let (c, p, n) = week_start-ordinal d w in
    let lo = le_midnight (week_start now) d m w h.0 in
    let hi = lt_midnight d (add_days 7 (week_start now)) (omega arith) w h.1 in
    eq_of_ordinal (week_start d) (week_start now) c a (omega arith) (omega arith)
