-- ===== src/Calendar/NextDay.antt =====
-- The ordinal of the next and of the previous day, datetime.toordinal.
use printops.Prelude.{ℕ, ◌+◌, ◌-◌, ◌≤◌, ◌<◌, ◌≡◌, refl, ap, arith, ◌⊎◌, inl, inr}
use printops.Calendar.{
  DateTime, IsDateTime, days_in_month, days_before_month, days_before_year, next_day, prev_day,
  ordinal, leap_day,
}
use printops.Calendar.Ordinal.{
  days_before_month-suc, days_before_year-suc, first_of_year, january_december,
}

abbrev NextOrdinal : DateTime → DateTime → Type 0
NextOrdinal d e = ordinal e ≡ ordinal d + 1

next_day_cases :
    (d : DateTime)
    → IsDateTime d
    → ((d.day < days_in_month d.year d.month) × (next_day d ≡ record d { day = d.day + 1 }))
      ⊎ (((d.day ≡ days_in_month d.year d.month)
            × (d.month ≡ 12)
            × (next_day d ≡ record d { year = d.year + 1; month = 1; day = 1 }))
          ⊎ ((d.day ≡ days_in_month d.year d.month)
              × (d.month < 12)
              × (next_day d ≡ record d { month = d.month + 1; day = 1 })))
unfolding next_day
next_day_cases d v = ground arith

december :
    (d : DateTime)
    → d.month ≡ 12
    → days_before_month d.year d.month + days_in_month d.year d.month ≡ 365 + leap_day d.year
december d e = rw e (rw ((first_of_year d.year).1, (january_december d.year).1) (omega arith))

pub ordinal-next_day : (d : DateTime) → IsDateTime d → ordinal (next_day d) ≡ ordinal d + 1
unfolding ordinal
ordinal-next_day d v = elim (next_day_cases d v) [
  | inl (_, e) ↦ rw e (omega arith)
  | inr (inl (l, m, e)) ↦ rw e (
      omega (
        arith,
        days_before_year-suc d.year v.year_pos,
        (first_of_year (d.year + 1)).0,
        december d m,
        l,
      ))
  | inr (inr (l, m, e)) ↦
      rw e (omega (arith, days_before_month-suc d.year d.month v.month_pos m, l))
]

prev_day_cases :
    (d : DateTime)
    → IsDateTime d
    → ((1 < d.day) × (prev_day d ≡ record d { day = d.day - 1 }))
      ⊎ (((d.day ≡ 1)
            × (d.month ≡ 1)
            × (prev_day d ≡ record d { year = d.year - 1; month = 12; day = 31 }))
          ⊎ ((d.day ≡ 1)
              × (1 < d.month)
              × (prev_day d
                  ≡ record d { month = d.month - 1; day = days_in_month d.year (d.month - 1) })))
unfolding prev_day
prev_day_cases d v = ground arith

back_one : (n : ℕ) → 1 ≤ n - 1 → n - 1 + 1 ≡ n
back_one n h = omega arith

pub days_in_month_pos : (y m : ℕ) → 1 ≤ days_in_month y m
unfolding days_in_month
days_in_month_pos y m = ground arith

later_than_first :
    (d : DateTime) → IsDateTime d → d.month ≡ 1 → d.day ≡ 1 → 1 < ordinal d → 1 ≤ d.year - 1
unfolding ordinal
later_than_first d v m l h =
    grind (arith, (first_of_year d.year).0, ap (days_before_month d.year) m, v.year_pos, m, l, h)

-- The predecessor's fields, where there is a day before.
pub prev_day-ordinal :
    (d : DateTime)
    → IsDateTime d
    → 1 < ordinal d
    → IsDateTime (prev_day d)
      × (ordinal (prev_day d) + 1 ≡ ordinal d)
      × ((prev_day d).micros ≡ d.micros)
unfolding ordinal
prev_day-ordinal d v h = elim (prev_day_cases d v) [
  | inl (l, e) ↦ rw e (
    record {
      year_pos = v.year_pos;
      month_pos = v.month_pos;
      month_le = v.month_le;
      day_pos = omega arith;
      day_le = omega (arith, v.day_le);
      micros_lt = v.micros_lt;
    },
    omega arith,
    refl,
  )
  | inr (inl (l, m, e)) ↦
      let y = later_than_first d v m l h in
      rw e (
        record {
          year_pos = y;
          month_pos = omega arith;
          month_le = omega arith;
          day_pos = omega arith;
          day_le = omega (arith, (january_december (d.year - 1)).1);
          micros_lt = v.micros_lt;
        },
        omega (
          arith,
          days_before_year-suc (d.year - 1) y,
          ap days_before_year (back_one d.year y),
          (first_of_year (d.year - 1)).1,
          (first_of_year d.year).0,
          ap (days_before_month d.year) m,
          l,
        ),
        refl,
      )
  | inr (inr (l, m, e)) ↦ rw e (
    record {
      year_pos = v.year_pos;
      month_pos = omega arith;
      month_le = omega (arith, v.month_le);
      day_pos = omega (arith, days_in_month_pos d.year (d.month - 1));
      day_le = omega arith;
      micros_lt = v.micros_lt;
    },
    omega (
      arith,
      days_before_month-suc d.year (d.month - 1),
      ap (days_before_month d.year) (back_one d.month (omega arith)),
      v.month_le,
      l,
    ),
    refl,
  )
]
