-- ===== src/Reports/Periods/Resolved.antt =====
-- reports/periods.py: the periods that are named without a date contain today.
use mathlib.Core.Path.{subst}
use printops.Prelude.{
  ℕ, ◌+◌, ◌-◌, ◌%◌, ◌≤◌, ◌<◌, Bool, true, false, Option, none, some, List, [], ◌∷◌, ◌≡◌, refl, sym,
  arith, find, Bool-cases, inl, inr, branch_true, branch_false,
}
use printops.Calendar.{DateTime, IsDateTime, next_day, sub_days, weekday, ordinal, key}
use printops.Calendar.Order.{key-next_day}
use printops.Calendar.Ordinal.{date_key, day_le_31}
use printops.Calendar.Steps.{sub_days-ordinal, date_key_of_ordinal}
use printops.Reports.Periods.{
  Key, week, month, calendar_year, reporting_year, current_term, semester, calendar_year_at,
  year_at, term_at, unknown, CalendarSpec, TermSpec, TermOverride, Period, this_week, this_month,
  contains, is_until, year_start, date, reporting_year_of, reporting_year_period,
  calendar_year_period, current_term_of, or_year, resolve, terms_for_year,
}

-- The month and the day are what the API accepts for the start of a year.
pub record IsYearStart (calendar : CalendarSpec) : Type 0 where
  pub month_pos : 1 ≤ calendar.year_start_month
  pub month_le : calendar.year_start_month ≤ 12
  pub day_pos : 1 ≤ calendar.year_start_day
  pub day_le : calendar.year_start_day ≤ 31

-- The keys that name a period by today.
abbrev pub is_named : Key → Bool
is_named (calendar_year_at year) = false
is_named (year_at year) = false
is_named (term_at year position) = false
is_named unknown = false
is_named key = true

contains-intro :
    (p : Period) (day : DateTime)
    → date_key p.start ≤ date_key day
    → date_key day < date_key p.end
    → contains p day ≡ true
unfolding contains
contains-intro p day h k = ground arith

find-holds : {A : Type 0} (p : A → Bool) (xs : List A) (x : A) → find p xs ≡ some x → p x ≡ true
find-holds p [] x h = ground arith
find-holds p (y ∷ ys) x h = ground (arith, find-holds p ys x)

year_period-contains :
    (day : DateTime) (year : ℕ) (calendar : CalendarSpec)
    → date_key (year_start year calendar) ≤ date_key day
    → date_key day < date_key (year_start (year + 1) calendar)
    → contains (reporting_year_period year calendar) day ≡ true
unfolding reporting_year_period
year_period-contains day year calendar h k = contains-intro _ day h k

week_day-lt : (n : ℕ) → 1 ≤ n → (n + 6) % 7 < n
week_day-lt n h = omega arith

ordinal-pos : (d : DateTime) → IsDateTime d → 1 ≤ ordinal d
unfolding ordinal
ordinal-pos d v = omega (arith, v.day_pos)

weekday-lt : (d : DateTime) → IsDateTime d → weekday d < ordinal d
unfolding weekday
weekday-lt d v = week_day-lt (ordinal d) (ordinal-pos d v)

next_day_micros : (d : DateTime) → (next_day d).micros ≡ d.micros
unfolding next_day
next_day_micros d = ground arith

module _ (today : DateTime) (v : IsDateTime today) where
  before_next_day : date_key today < date_key (next_day today)
  before_next_day = omega (arith, key-next_day today v, next_day_micros today)

  week_start-le : date_key (sub_days (weekday today) today) ≤ date_key today
  week_start-le =
      let (w, o, m) = sub_days-ordinal (weekday today) today v (weekday-lt today v) in
      date_key_of_ordinal (sub_days (weekday today) today) today w v (omega (arith, o))

  reporting_year_of-contains :
      (calendar : CalendarSpec)
      → IsYearStart calendar
      → contains (reporting_year_period (reporting_year_of today calendar) calendar) today ≡ true
  unfolding reporting_year_of
  reporting_year_of-contains calendar c =
      elim (Bool-cases (is_until (year_start today.year calendar) today)) [
        | inl y ↦
            subst (λ n. contains (reporting_year_period n calendar) today ≡ true)
              (sym (branch_true _ _ _ y))
              (year_period-contains today today.year calendar (ground arith)
                (omega (arith, v.month_le, day_le_31 today v, c.month_pos)))
        | inr n ↦
            let lt : date_key today < date_key (year_start today.year calendar) =
              ground (arith, n) in
            subst (λ k. contains (reporting_year_period k calendar) today ≡ true)
              (sym (branch_false _ _ _ n))
              (year_period-contains today (today.year - 1) calendar
                (omega (arith, v.year_pos, v.month_pos, v.day_pos, c.month_le, c.day_le))
                (omega (arith, lt, v.year_pos)))
      ]

  month_start-le : date_key (date today.year today.month 1) ≤ date_key today
  month_start-le = omega (arith, v.day_pos)

  this_year : contains (calendar_year_period today.year) today ≡ true
  unfolding calendar_year_period
  this_year =
      contains-intro _ today (omega (arith, v.month_pos, v.day_pos))
        (omega (arith, v.month_le, day_le_31 today v))

  or_year-contains :
      (calendar : CalendarSpec) (found : Option Period)
      → IsYearStart calendar
      → ((p : Period) → found ≡ some p → contains p today ≡ true)
      → contains (or_year today calendar found) today ≡ true
  or_year-contains calendar none c h = reporting_year_of-contains calendar c
  or_year-contains calendar (some p) c h = h p refl

  module _ (calendar : CalendarSpec) (c : IsYearStart calendar) (terms : List TermSpec)
      (overrides : List TermOverride) where
    term-contains :
        contains (or_year today calendar (current_term_of today calendar terms overrides)) today
        ≡ true
    unfolding current_term_of
    term-contains =
        or_year-contains calendar (current_term_of today calendar terms overrides) c (λ p e.
          find-holds (λ q. contains q today)
            (terms_for_year (reporting_year_of today calendar) calendar terms overrides) p e)

    -- A valid day is in each of the periods that are named without a date: the week, the month, the calendar year, the
    -- reporting year and the current term, whatever the terms and the stated dates are, if the year starts on a day that the
    -- API accepts.
    pub resolve-contains :
        (k : Key)
        → is_named k ≡ true
        → (p : Period) × (resolve today calendar terms overrides k ≡ some p)
          × (contains p today ≡ true)
    unfolding resolve
    resolve-contains week h = (
      this_week today,
      refl,
      contains-intro (this_week today) today week_start-le before_next_day,
    )
    resolve-contains month h = (
      this_month today,
      refl,
      contains-intro (this_month today) today month_start-le before_next_day,
    )
    resolve-contains calendar_year h = (_, refl, this_year)
    resolve-contains reporting_year h = (_, refl, reporting_year_of-contains calendar c)
    resolve-contains current_term h = (_, refl, term-contains)
    resolve-contains semester h = (_, refl, term-contains)
    resolve-contains (calendar_year_at y) h = ground arith
    resolve-contains (year_at y) h = ground arith
    resolve-contains (term_at y n) h = ground arith
    resolve-contains unknown h = ground arith
