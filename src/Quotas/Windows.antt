-- ===== src/Quotas/Windows.antt =====
-- The windows of a quota period: they contain their instants and divide time.
use printops.Prelude.{
  ℕ, ◌+◌, ◌-◌, ◌*◌, ◌/◌, ◌≤◌, ◌<◌, ◌≡◌, refl, sym, ap, ◌∙◌, some_inj, some, arith,
}
use mathlib.Core.Path.{subst}
use printops.Calendar.{DateTime, IsDateTime, add_days}
use printops.Quotas.Periods.{
  Period, daily, weekly, monthly, quarterly, yearly, other, add_months, period_bounds,
}
use printops.Quotas.Midnights.{Contains, IsFirst, in_months, months, months_in}
use printops.Quotas.DayWindows.{daily-Contains, daily_stable, weekly-Contains, weekly_stable}

add_months-IsFirst :
    (s : DateTime) (k : ℕ)
    → IsFirst s
    → IsFirst (add_months s k) × (months (add_months s k) ≡ months s + k)
unfolding add_months
add_months-IsFirst s k (y, m, m', d, t) =
    ((omega arith, omega arith, omega arith, refl, t), omega arith)

abbrev month_start : DateTime → DateTime
month_start d = record d { micros = 0; day = 1 }

abbrev quarter_start : DateTime → DateTime
quarter_start d = record d { micros = 0; month = (d.month - 1) / 3 * 3 + 1; day = 1 }

abbrev year_start : DateTime → DateTime
year_start d = record d { micros = 0; month = 1; day = 1 }

starts-IsFirst :
    (d : DateTime)
    → IsDateTime d
    → IsFirst (month_start d) × IsFirst (quarter_start d) × IsFirst (year_start d)
starts-IsFirst d v = (
  (v.year_pos, v.month_pos, v.month_le, refl, refl),
  (v.year_pos, omega arith, omega (arith, v.month_le), refl, refl),
  (v.year_pos, omega arith, omega arith, refl, refl),
)

-- A window of `k` months from a first.
months-Contains :
    (s now : DateTime) (k : ℕ)
    → IsFirst s
    → IsDateTime now
    → months s ≤ months now
    → months now < months s + k
    → Contains now (s, add_months s k)
months-Contains s now k f v lo hi =
    let (g, e) = add_months-IsFirst s k f in months_in s now (add_months s k) f v g lo (omega arith)

months_within :
    (s d : DateTime) (k : ℕ)
    → IsFirst s
    → IsDateTime d
    → Contains d (s, add_months s k)
    → (months s ≤ months d) × (months d < months s + k)
months_within s d k f v h =
    let (g, e) = add_months-IsFirst s k f in
    let (lo, hi) = in_months s d (add_months s k) f v g h.0 h.1 in (lo, omega arith)

next_year :
    (d : DateTime) → record (year_start d) { year = d.year + 1 } ≡ add_months (year_start d) 12
unfolding add_months
next_year d = ground arith

monthly_stable :
    (now d : DateTime)
    → IsDateTime now
    → IsDateTime d
    → Contains d (month_start now, add_months (month_start now) 1)
    → month_start d ≡ month_start now
monthly_stable now d v w h =
    let (lo, hi) = months_within (month_start now) d 1 (starts-IsFirst now v).0 w h in
    let y : d.year ≡ now.year = omega (arith, v.month_pos, w.month_pos, v.month_le, w.month_le) in
    let m : d.month ≡ now.month = omega arith in rw (y, m)

quarterly_stable :
    (now d : DateTime)
    → IsDateTime now
    → IsDateTime d
    → Contains d (quarter_start now, add_months (quarter_start now) 3)
    → quarter_start d ≡ quarter_start now
quarterly_stable now d v w h =
    let (lo, hi) = months_within (quarter_start now) d 3 (starts-IsFirst now v).1 w h in
    let y : d.year ≡ now.year = omega (arith, v.month_pos, w.month_pos, v.month_le, w.month_le) in
    let q : (d.month - 1) / 3 ≡ (now.month - 1) / 3 = omega (arith, v.month_pos, w.month_pos) in
    rw (y, q)

yearly_stable :
    (now d : DateTime)
    → IsDateTime now
    → IsDateTime d
    → Contains d (year_start now, add_months (year_start now) 12)
    → year_start d ≡ year_start now
yearly_stable now d v w h =
    let (lo, hi) = months_within (year_start now) d 12 (starts-IsFirst now v).2 w h in
    let y : d.year ≡ now.year = omega (arith, v.month_pos, w.month_pos, v.month_le, w.month_le) in
    rw y

-- The window of a known period contains the instant that it was computed for.
pub period_bounds-Contains :
    (p : Period) (now : DateTime) (w : DateTime × DateTime)
    → IsDateTime now
    → period_bounds p now ≡ some w
    → Contains now w
unfolding period_bounds
period_bounds-Contains daily now w v h = subst (Contains now) (some_inj h) (daily-Contains now v)
period_bounds-Contains weekly now w v h = subst (Contains now) (some_inj h) (weekly-Contains now v)
period_bounds-Contains monthly now w v h =
    subst (Contains now) (some_inj h) (
      months-Contains (month_start now) now 1 (starts-IsFirst now v).0 v (omega arith)
        (omega arith))
period_bounds-Contains quarterly now w v h = subst (Contains now) (some_inj h) (
    months-Contains (quarter_start now) now 3 (starts-IsFirst now v).1 v
      (omega (arith, v.month_pos)) (omega (arith, v.month_pos)))
period_bounds-Contains yearly now w v h = subst (Contains now) (some_inj h) (
    subst (λ e. Contains now (year_start now, e)) (sym (next_year now))
      (months-Contains (year_start now) now 12 (starts-IsFirst now v).2 v
        (omega (arith, v.month_pos)) (omega (arith, v.month_le))))
period_bounds-Contains (other s) now w v h = cc

-- A window that contains a valid instant is the window of that instant: the windows of a period
-- do not overlap, and each is computed alike from all of its instants.
period_bounds_stable :
    (p : Period) (now d : DateTime) (w : DateTime × DateTime)
    → IsDateTime now
    → IsDateTime d
    → period_bounds p now ≡ some w
    → Contains d w
    → period_bounds p d ≡ some w
unfolding period_bounds
period_bounds_stable daily now d w v u h c =
    let c' = subst (Contains d) (sym (some_inj h)) c in
    ap (λ s. some (s, add_days 1 s)) (daily_stable now d v u c') ∙ h
period_bounds_stable weekly now d w v u h c =
    let c' = subst (Contains d) (sym (some_inj h)) c in
    ap (λ s. some (s, add_days 7 s)) (weekly_stable now d v u c') ∙ h
period_bounds_stable monthly now d w v u h c =
    let c' = subst (Contains d) (sym (some_inj h)) c in
    ap (λ s. some (s, add_months s 1)) (monthly_stable now d v u c') ∙ h
period_bounds_stable quarterly now d w v u h c =
    let c' = subst (Contains d) (sym (some_inj h)) c in
    ap (λ s. some (s, add_months s 3)) (quarterly_stable now d v u c') ∙ h
period_bounds_stable yearly now d w v u h c =
    let c' = subst (Contains d) (sym (some_inj h)) c in
    ap (λ (s : DateTime). some (s, record s { year = s.year + 1 }))
      (yearly_stable now d v u (subst (λ e. Contains d (year_start now, e)) (next_year now) c'))
    ∙ h
period_bounds_stable (other s) now d w v u h c = cc
