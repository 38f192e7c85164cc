-- ===== src/Quotas/Midnights.antt =====
-- Midnights and firsts of the month, by which the windows of a quota period are cut.
use printops.Prelude.{ℕ, ◌+◌, ◌*◌, ◌≤◌, ◌<◌, ◌≡◌, refl, arith, inl, inr}
use printops.Calendar.{DateTime, IsDateTime, instant, ordinal}
use printops.Calendar.Ordinal.{day_le_31, ordinal-lt}
use printops.Calendar.NextDay.{days_in_month_pos}
use printops.Calendar.Steps.{date_key_of_ordinal, ordinal_of_date_key, date_key-order}

-- Midnight of a valid date.
abbrev pub day_start : DateTime → DateTime
day_start d = record d { micros = 0 }

pub day_start-IsDateTime : (d : DateTime) → IsDateTime d → IsDateTime (day_start d)
day_start-IsDateTime d v = record {
  year_pos = v.year_pos;
  month_pos = v.month_pos;
  month_le = v.month_le;
  day_pos = v.day_pos;
  day_le = v.day_le;
  micros_lt = omega arith;
}

pub ordinal-day_start : (d : DateTime) → ordinal (day_start d) ≡ ordinal d
unfolding ordinal
ordinal-day_start d = refl

-- A first of the month at midnight.
abbrev pub IsFirst : DateTime → Type 0
IsFirst d = (1 ≤ d.year) × (1 ≤ d.month) × (d.month ≤ 12) × (d.day ≡ 1) × (d.micros ≡ 0)

pub IsFirst-IsDateTime : (d : DateTime) → IsFirst d → IsDateTime d
IsFirst-IsDateTime d (y, m, m', k, t) = record {
  year_pos = y;
  month_pos = m;
  month_le = m';
  day_pos = omega arith;
  day_le = omega (arith, days_in_month_pos d.year d.month);
  micros_lt = omega arith;
}

-- The days decide the order against a midnight.
pub midnight_le :
    (s d : DateTime) → s.micros ≡ 0 → IsDateTime d → (ordinal s ≤ ordinal d) → instant s ≤ instant d
midnight_le s d m v h = omega arith

pub le_midnight :
    (s d : DateTime) → s.micros ≡ 0 → IsDateTime d → instant s ≤ instant d → ordinal s ≤ ordinal d
le_midnight s d m v h = omega (arith, v.micros_lt)

pub lt_midnight :
    (d e : DateTime) → e.micros ≡ 0 → IsDateTime d → instant d < instant e → ordinal d < ordinal e
lt_midnight d e m v h = omega arith

pub midnight_lt : (d e : DateTime) → IsDateTime d → ordinal d < ordinal e → instant d < instant e
midnight_lt d e v h = omega (arith, v.micros_lt)

abbrev pub months : DateTime → ℕ
months d = d.year * 12 + d.month

-- Between two firsts, the months decide.
pub in_months :
    (s d e : DateTime)
    → IsFirst s
    → IsDateTime d
    → IsFirst e
    → instant s ≤ instant d
    → instant d < instant e
    → (months s ≤ months d) × (months d < months e)
in_months s d e fs v fe h k = (
  omega (
    arith,
    day_le_31 d v,
    fs,
    date_key_of_ordinal s d (IsFirst-IsDateTime s fs) v (le_midnight s d (fs.4) v h),
  ),
  elim (date_key-order d e) [
    | inl l ↦ omega (arith, v.day_pos, fe)
    | inr g ↦ absurd (
        omega (
          arith,
          lt_midnight d e (fe.4) v k,
          ordinal_of_date_key e d (IsFirst-IsDateTime e fe) v g,
        ))
  ],
)

pub months_in :
    (s d e : DateTime)
    → IsFirst s
    → IsDateTime d
    → IsFirst e
    → months s ≤ months d
    → months d < months e
    → (instant s ≤ instant d) × (instant d < instant e)
months_in s d e fs v fe h k = (
  midnight_le s d (fs.4) v
      (ordinal_of_date_key s d (IsFirst-IsDateTime s fs) v (omega (arith, v.day_pos, fs))),
  midnight_lt d e v (ordinal-lt d e v (IsFirst-IsDateTime e fe) (omega (arith, day_le_31 d v, fe))),
)

-- What the window [s, e) of the instant `now` has to satisfy.
abbrev pub Contains : DateTime → DateTime × DateTime → Type 0
Contains now w = (instant w.0 ≤ instant now) × (instant now < instant w.1)
