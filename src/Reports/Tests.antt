-- ===== src/Reports/Tests.antt =====
-- A school year from July with two terms, and the theorems at it.
use printops.Prelude.{true, some, List, [], ◌∷◌, ◌≡◌, refl, arith, map}
use printops.Calendar.{DateTime, IsDateTime, days_in_month}
use printops.Reports.Periods.{
  Key, current_term, term_at, CalendarSpec, TermSpec, Period, date, contains, placed, resolve,
  terms_for_year,
}
use printops.Reports.Periods.Resolved.{IsYearStart, resolve-contains}
use printops.Reports.Periods.Terms.{holding, holding-terms_for_year}

abbrev school : CalendarSpec
school = record {
  year_start_month = 7;
  year_start_day = 1;
  year_noun = "School year";
  label_style = "auto";
}

abbrev terms : List TermSpec
terms =
    record { name = "Spring"; start_month = 1; start_day = 6; position = 1 }
    ∷ record { name = "Fall"; start_month = 8; start_day = 15; position = 0 }
    ∷ []

abbrev today : DateTime
today = date 2027 2 3

today-IsDateTime : IsDateTime today
unfolding days_in_month
today-IsDateTime = record {
  year_pos = omega arith;
  month_pos = omega arith;
  month_le = omega arith;
  day_pos = omega arith;
  day_le = omega arith;
  micros_lt = omega arith;
}

school-IsYearStart : IsYearStart school
school-IsYearStart = record {
  month_pos = omega arith;
  month_le = omega arith;
  day_pos = omega arith;
  day_le = omega arith;
}

-- The spring of the year that starts in 2026.
spring :
    map {B = Key × DateTime × DateTime}
      (λ p. (p.key, p.start, p.end))
      (terms_for_year 2026 school terms [])
    ≡ (term_at 2026 0, date 2026 8 15, date 2027 1 6)
      ∷ (term_at 2026 1, date 2027 1 6, date 2027 7 1)
      ∷ []
unfolding terms_for_year
spring = refl

resolve-contains_example :
    (p : Period) × (resolve today school terms [] current_term ≡ some p) × (contains p today ≡ true)
resolve-contains_example =
    resolve-contains today today-IsDateTime school school-IsYearStart terms [] current_term refl

holding-terms_for_year_example : holding today (terms_for_year 2026 school terms []) ≡ 1
unfolding placed
holding-terms_for_year_example = holding-terms_for_year today 2026 school terms [] refl
