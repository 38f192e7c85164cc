-- ===== src/Reports/Periods.antt =====
-- reports/periods.py: a named period as dates, and the parts of a reporting year.
-- A `date` is a `DateTime` at midnight. The constructor of `date` is total here: that a month and a day exist in every year is
-- what schemas/reporting_period.py checks, and years outside 1 to 9999 are not modelled. A key is given as it was read;
-- `partition` and `int` are not modelled.
pub mod Resolved
pub mod Terms
use printops.Prelude.{
  ℕ, ◌+◌, ◌-◌, String, Bool, true, false, not, ◌&&◌, Option, none, some, List, [], ◌∷◌, ltb, leb,
  ◌==◌, str_eq, if◌then◌else◌, find, filter, map,
}
use printops.Text.{Text, lit, num}
use printops.Calendar.{DateTime, next_day, prev_day, sub_days, weekday}
use printops.Calendar.Ordinal.{date_key}

abbrev pub date : ℕ → ℕ → ℕ → DateTime
date y m d = record { year = y; month = m; day = d; micros = 0 }

-- `a < b` and `a <= b` on dates
abbrev pub is_before : DateTime → DateTime → Bool
is_before a b = ltb (date_key a) (date_key b)

abbrev pub is_until : DateTime → DateTime → Bool
is_until a b = leb (date_key a) (date_key b)

pub data Key : Type 0 where
  week : Key
  month : Key
  calendar_year : Key
  reporting_year : Key
  current_term : Key
  semester : Key
  calendar_year_at : ℕ → Key
  year_at : ℕ → Key
  term_at : (year position : ℕ) → Key
  unknown : Key

-- `LEGACY_ALIASES.get(key, key)`
abbrev pub canonical : Key → Key
canonical semester = current_term
canonical key = key

pub record CalendarSpec : Type 0 where
  pub year_start_month : ℕ
  pub year_start_day : ℕ
  pub year_noun : String
  pub label_style : String

pub record TermSpec : Type 0 where
  pub name : String
  pub start_month : ℕ
  pub start_day : ℕ
  pub position : ℕ

pub record TermOverride : Type 0 where
  pub reporting_year : ℕ
  pub name : String
  pub start : DateTime
  pub end : DateTime
  pub position : Option ℕ

pub record Period : Type 0 where
  pub key : Key
  pub label : Text
  pub start : DateTime
  pub end : DateTime
  pub kind : String

unfoldable pub contains : Period → DateTime → Bool
contains p day = is_until p.start day && is_before day p.end

abbrev pub year_start : ℕ → CalendarSpec → DateTime
year_start year calendar = date year calendar.year_start_month calendar.year_start_day

unfoldable pub reporting_year_of : DateTime → CalendarSpec → ℕ
reporting_year_of day calendar =
    if is_until (year_start day.year calendar) day then day.year else day.year - 1

unfoldable pub reporting_year_bounds : ℕ → CalendarSpec → DateTime × DateTime
reporting_year_bounds year calendar = (year_start year calendar, year_start (year + 1) calendar)

unfoldable pub effective_style : CalendarSpec → String
effective_style calendar =
    if not (str_eq calendar.label_style "auto")
    then calendar.label_style
    else if calendar.year_start_month == 1
    then "single"
    else "spanning"

unfoldable pub year_designation : ℕ → CalendarSpec → ℕ
year_designation year calendar = if calendar.year_start_month == 1 then year else year + 1

unfoldable pub year_label : ℕ → CalendarSpec → Text
unfolding effective_style year_designation
year_label year calendar =
    if str_eq (effective_style calendar) "spanning"
    then lit calendar.year_noun ∷ lit " " ∷ num year ∷ lit "–" ∷ num (year + 1) ∷ []
    else lit calendar.year_noun ∷ lit " " ∷ num (year_designation year calendar) ∷ []

unfoldable pub term_label : String → DateTime → ℕ → CalendarSpec → Text
unfolding effective_style year_designation
term_label name start year calendar =
    if str_eq (effective_style calendar) "spanning"
    then lit name ∷ lit " " ∷ num start.year ∷ []
    else lit name ∷ lit " " ∷ num (year_designation year calendar) ∷ []

unfoldable pub reporting_year_period : ℕ → CalendarSpec → Period
unfolding reporting_year_bounds year_label
reporting_year_period year calendar = record {
  key = year_at year;
  label = year_label year calendar;
  start = (reporting_year_bounds year calendar).0;
  end = (reporting_year_bounds year calendar).1;
  kind = "year";
}

unfoldable pub calendar_year_period : ℕ → Period
calendar_year_period year = record {
  key = calendar_year_at year;
  label = lit "Calendar year " ∷ num year ∷ [];
  start = date year 1 1;
  end = date (year + 1) 1 1;
  kind = "calendar_year";
}

-- `sorted(xs, key=f)`, which is stable.
unfoldable pub insert_on {ℓ} : {A : Type ℓ} → (A → ℕ) → A → List A → List A
insert_on f x [] = x ∷ []
insert_on f x (y ∷ ys) =
    let rest = insert_on f x ys in if leb (f x) (f y) then x ∷ y ∷ ys else y ∷ rest

unfoldable pub sort_on {ℓ} : {A : Type ℓ} → (A → ℕ) → List A → List A
unfolding insert_on
sort_on f [] = []
sort_on f (x ∷ xs) = insert_on f x (sort_on f xs)

abbrev pub position_or : Option ℕ → ℕ → ℕ
position_or none index = index
position_or (some p) index = p

-- The terms of a year with stated dates; the stored end is inclusive.
unfoldable pub stated_terms : ℕ → CalendarSpec → ℕ → List TermOverride → List Period
unfolding term_label next_day
stated_terms year calendar index [] = []
stated_terms year calendar index (o ∷ os) =
    record {
      key = term_at year (position_or o.position index);
      label = term_label o.name o.start year calendar;
      start = o.start;
      end = next_day o.end;
      kind = "term";
    }
    ∷ stated_terms year calendar (index + 1) os

-- Where a term of the pattern starts.
abbrev pub candidate : ℕ → CalendarSpec → TermSpec → DateTime
candidate year calendar term =
    if is_before (date year term.start_month term.start_day) (year_start year calendar)
    then date (year + 1) term.start_month term.start_day
    else date year term.start_month term.start_day

unfoldable pub placed : ℕ → CalendarSpec → List TermSpec → List (DateTime × TermSpec)
placed year calendar [] = []
placed year calendar (term ∷ terms) =
    let rest = placed year calendar terms in
    let start = candidate year calendar term in
    if is_until (year_start (year + 1) calendar) start then rest else (start, term) ∷ rest

abbrev pub start_key : DateTime × TermSpec → ℕ
start_key (start, term) = date_key start

abbrev pub start_or : DateTime → List (DateTime × TermSpec) → DateTime
start_or year_end [] = year_end
start_or year_end ((start, term) ∷ rest) = start

-- Each term ends where the next one starts, the last one with the year.
unfoldable pub ranges : ℕ → CalendarSpec → List (DateTime × TermSpec) → List Period
unfolding term_label
ranges year calendar [] = []
ranges year calendar ((start, term) ∷ rest) =
    record {
      key = term_at year term.position;
      label = term_label term.name start year calendar;
      start = start;
      end = start_or (year_start (year + 1) calendar) rest;
      kind = "term";
    }
    ∷ ranges year calendar rest

abbrev pub generated_terms : ℕ → CalendarSpec → List TermSpec → List Period
generated_terms year calendar terms =
    ranges year calendar (sort_on start_key (placed year calendar terms))

abbrev pub stated_or : ℕ → CalendarSpec → List TermSpec → List TermOverride → List Period
stated_or year calendar terms [] = generated_terms year calendar terms
stated_or year calendar terms (o ∷ os) =
    stated_terms year calendar 0 (sort_on (λ (t : TermOverride). date_key t.start) (o ∷ os))

unfoldable pub terms_for_year : ℕ → CalendarSpec → List TermSpec → List TermOverride → List Period
unfolding ranges placed sort_on stated_terms
terms_for_year year calendar terms overrides =
    stated_or year calendar terms (filter (λ o. o.reporting_year == year) overrides)

unfoldable pub current_term_of :
    DateTime → CalendarSpec → List TermSpec → List TermOverride → Option Period
unfolding terms_for_year reporting_year_of contains
current_term_of today calendar terms overrides =
    find (λ p. contains p today)
      (terms_for_year (reporting_year_of today calendar) calendar terms overrides)

abbrev pub has_key : ℕ → ℕ → Key → Bool
has_key year position (term_at y p) = (y == year) && (p == position)
has_key year position key = false

abbrev pub or_year : DateTime → CalendarSpec → Option Period → Period
or_year today calendar none = reporting_year_period (reporting_year_of today calendar) calendar
or_year today calendar (some p) = p

abbrev pub this_week : DateTime → Period
this_week today = record {
  key = week;
  label = lit "This week" ∷ [];
  start = sub_days (weekday today) today;
  end = next_day today;
  kind = "week";
}

abbrev pub this_month : DateTime → Period
this_month today = record {
  key = month;
  label = lit "This month" ∷ [];
  start = date today.year today.month 1;
  end = next_day today;
  kind = "month";
}

module _ (today : DateTime) (calendar : CalendarSpec) (terms : List TermSpec)
    (overrides : List TermOverride) where
  abbrev pub resolve_key : Key → Option Period
  resolve_key week = some (this_week today)
  resolve_key month = some (this_month today)
  resolve_key calendar_year = some (calendar_year_period today.year)
  resolve_key reporting_year =
      some (reporting_year_period (reporting_year_of today calendar) calendar)
  resolve_key current_term =
      some (or_year today calendar (current_term_of today calendar terms overrides))
  resolve_key semester = none
  resolve_key (calendar_year_at year) = some (calendar_year_period year)
  resolve_key (year_at year) = some (reporting_year_period year calendar)
  resolve_key (term_at year position) =
      find (λ p. has_key year position p.key) (terms_for_year year calendar terms overrides)
  resolve_key unknown = none

  -- `none` is ValueError.
  unfoldable pub resolve : Key → Option Period
  unfolding sub_days weekday next_day calendar_year_period reporting_year_period reporting_year_of
      current_term_of
  resolve key = resolve_key (canonical key)

abbrev pub later_date : DateTime → DateTime → DateTime
later_date a b = if is_before a b then b else a

abbrev pub earlier_date : DateTime → DateTime → DateTime
earlier_date a b = if is_before b a then b else a

unfoldable pub clamp_to_today : Period → DateTime → DateTime × DateTime
unfolding prev_day
clamp_to_today p today = (p.start, later_date p.start (earlier_date (prev_day p.end) today))
