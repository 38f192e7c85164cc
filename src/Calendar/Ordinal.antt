-- ===== src/Calendar/Ordinal.antt =====
-- The ordinal counts the days, in the order of the instants.
use printops.Prelude.{ℕ, zero, suc, ◌+◌, ◌-◌, ◌*◌, ◌≤◌, ◌<◌, ◌≡◌, refl, ap, arith, ◌⊎◌, inl, inr}
use printops.Calendar.{
  DateTime, IsDateTime, days_in_month, days_before_month, days_before_year, ordinal, leap_day,
}

pub days_before_month-suc :
    (y m : ℕ)
    → 1 ≤ m
    → m < 12
    → days_before_month y (m + 1) ≡ days_before_month y m + days_in_month y m
unfolding days_before_month days_in_month
days_before_month-suc y m lo hi = ground arith

pub days_before_year-suc :
    (y : ℕ) → 1 ≤ y → days_before_year (y + 1) ≡ days_before_year y + 365 + leap_day y
days_before_year-suc y h = ground arith

arith_step : (m k : ℕ) → m + (k + 1) + 1 ≡ m + (suc k + 1)
arith_step m k = omega arith

arith_gap : (m n : ℕ) → m < n → m + (n - m - 1 + 1) ≡ n
arith_gap m n h = omega arith

days_before_month-lt :
    (y m k : ℕ)
    → 1 ≤ m
    → m + k < 12
    → days_before_month y m + days_in_month y m ≤ days_before_month y (m + (k + 1))
days_before_month-lt y m zero lo hi = omega (arith, days_before_month-suc y m)
days_before_month-lt y m (suc k) lo hi = omega (
  arith,
  days_before_month-lt y m k lo,
  days_before_month-suc y (m + (k + 1)),
  ap (days_before_month y) (arith_step m k),
)

days_before_month-december :
    (y m : ℕ) → 1 ≤ m → m ≤ 12 → days_before_month y m + days_in_month y m ≤ 365 + leap_day y
unfolding days_before_month days_in_month
days_before_month-december y m lo hi = ground arith

days_before_year-lt :
    (y k : ℕ) → 1 ≤ y → days_before_year y + 365 + leap_day y ≤ days_before_year (y + (k + 1))
days_before_year-lt y zero h = omega (arith, days_before_year-suc y h)
days_before_year-lt y (suc k) h = omega (
  arith,
  days_before_year-lt y k h,
  days_before_year-suc (y + (k + 1)),
  ap days_before_year (arith_step y k),
)

-- The order of the dates alone.
abbrev pub date_key : DateTime → ℕ
date_key d = (d.year * 12 + d.month) * 32 + d.day

same_year :
    (d e : DateTime)
    → IsDateTime d
    → IsDateTime e
    → d.year ≡ e.year
    → d.month < e.month
    → ordinal d < ordinal e
unfolding ordinal
same_year d e v w y m = omega (
  arith,
  days_before_month-lt d.year d.month (e.month - d.month - 1),
  ap (λ k. days_before_month k e.month) y,
  ap (days_before_month d.year) (arith_gap d.month e.month m),
  ap days_before_year y,
  v.month_pos,
  w.month_le,
  v.day_le,
  w.day_pos,
)

later_year :
    (d e : DateTime) → IsDateTime d → IsDateTime e → d.year < e.year → ordinal d < ordinal e
unfolding ordinal
later_year d e v w h = omega (
  arith,
  days_before_year-lt d.year (e.year - d.year - 1) v.year_pos,
  ap days_before_year (arith_gap d.year e.year h),
  days_before_month-december d.year d.month v.month_pos v.month_le,
  v.day_le,
  w.day_pos,
)

same_month :
    (d e : DateTime) → d.year ≡ e.year → d.month ≡ e.month → d.day < e.day → ordinal d < ordinal e
unfolding ordinal
same_month d e y m h = ground arith

pub day_le_31 : (d : DateTime) → IsDateTime d → d.day ≤ 31
unfolding days_in_month
day_le_31 d v = ground arith

date_cases :
    (d e : DateTime)
    → IsDateTime d
    → IsDateTime e
    → date_key d < date_key e
    → (d.year < e.year)
      ⊎ (((d.year ≡ e.year) × (d.month < e.month))
          ⊎ ((d.year ≡ e.year) × (d.month ≡ e.month) × (d.day < e.day)))
date_cases d e v w h =
    grind (arith, v.month_pos, v.month_le, w.month_pos, w.month_le, day_le_31 d v, day_le_31 e w, h)

pub ordinal-lt :
    (d e : DateTime) → IsDateTime d → IsDateTime e → date_key d < date_key e → ordinal d < ordinal e
ordinal-lt d e v w h = elim (date_cases d e v w h) [
  | inl y ↦ later_year d e v w y
  | inr (inl (y, m)) ↦ same_year d e v w y m
  | inr (inr (y, m, k)) ↦ same_month d e y m k
]

pub first_of_year :
    (y : ℕ) → (days_before_month y 1 ≡ 0) × (days_before_month y 12 ≡ 334 + leap_day y)
unfolding days_before_month
first_of_year y = (refl, refl)

pub january_december : (y : ℕ) → (days_in_month y 1 ≡ 31) × (days_in_month y 12 ≡ 31)
unfolding days_in_month
january_december y = (refl, refl)
