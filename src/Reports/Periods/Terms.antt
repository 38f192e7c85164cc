-- ===== src/Reports/Periods/Terms.antt =====
-- reports/periods.py: the generated terms of a year cover it from the first start, each day once.
use mathlib.Core.Path.{subst}
use printops.Prelude.{
  ℕ, ◌+◌, ◌≤◌, ◌<◌, Bool, ◌&&◌, ◌||◌, List, [], ◌∷◌, ◌≡◌, refl, sym, ap, ◌∙◌, leb, ◌==◌,
  if◌then◌else◌, any, All, arith, filter, Bool-cases, inl, inr, branch_true, branch_false,
}
use printops.Calendar.{DateTime}
use printops.Calendar.Ordinal.{date_key}
use printops.Reports.Periods.{
  CalendarSpec, TermSpec, TermOverride, Period, contains, is_before, is_until, year_start,
  insert_on, sort_on, candidate, placed, start_key, ranges, stated_or, terms_for_year,
}

-- How many of the periods a day is in.
abbrev pub holding : DateTime → List Period → ℕ
holding day [] = 0
holding day (p ∷ ps) = (if contains p day then 1 else 0) + holding day ps

-- Whether some term of the pattern has started.
abbrev pub has_started : DateTime → List (DateTime × TermSpec) → Bool
has_started day xs = any (λ s. leb (start_key s) (date_key day)) xs

module _ {A : Type 0} (f : A → ℕ) where
  abbrev AreAscending : List A → Type 0
  AreAscending [] = Unit
  AreAscending (x ∷ xs) = All (λ y. f x ≤ f y) xs × AreAscending xs

  any-insert_on :
      (p : A → Bool) (x : A) (xs : List A) → any p (insert_on f x xs) ≡ (p x || any p xs)
  unfolding insert_on
  any-insert_on p x [] = refl
  any-insert_on p x (y ∷ ys) = ground (arith, any-insert_on p x ys)

  any-sort_on : (p : A → Bool) (xs : List A) → any p (sort_on f xs) ≡ any p xs
  unfolding sort_on
  any-sort_on p [] = refl
  any-sort_on p (x ∷ xs) = any-insert_on p x (sort_on f xs) ∙ ap (λ b. p x || b) (any-sort_on p xs)

  insert_on-All : (P : A → Type 0) (x : A) (xs : List A) → P x → All P xs → All P (insert_on f x xs)
  unfolding insert_on
  insert_on-All P x [] h a = (h, a)
  insert_on-All P x (y ∷ ys) h (b, a) = elim (Bool-cases (leb (f x) (f y))) [
    | inl l ↦ subst (All P) (sym (branch_true _ _ _ l)) (h, (b, a))
    | inr g ↦ subst (All P) (sym (branch_false _ _ _ g)) (b, insert_on-All P x ys h a)
  ]

  sort_on-All : (P : A → Type 0) (xs : List A) → All P xs → All P (sort_on f xs)
  unfolding sort_on
  sort_on-All P [] a = a
  sort_on-All P (x ∷ xs) (h, a) = insert_on-All P x (sort_on f xs) h (sort_on-All P xs a)

  All-le : (m n : ℕ) (ys : List A) → m ≤ n → All (λ y. n ≤ f y) ys → All (λ y. m ≤ f y) ys
  All-le m n [] h a = tt
  All-le m n (y ∷ ys) h (b, a) = (omega (arith, h, b), All-le m n ys h a)

  insert_on-AreAscending : (x : A) (xs : List A) → AreAscending xs → AreAscending (insert_on f x xs)
  unfolding insert_on
  insert_on-AreAscending x [] a = (tt, tt)
  insert_on-AreAscending x (y ∷ ys) (h, a) = elim (Bool-cases (leb (f x) (f y))) [
    | inl l ↦
        let le : f x ≤ f y = ground (arith, l) in
        subst AreAscending (sym (branch_true _ _ _ l)) ((le, All-le (f x) (f y) ys le h), (h, a))
    | inr g ↦
        let le : f y ≤ f x = ground (arith, g) in
        subst AreAscending (sym (branch_false _ _ _ g))
          (insert_on-All (λ z. f y ≤ f z) x ys le h, insert_on-AreAscending x ys a)
  ]

  sort_on-AreAscending : (xs : List A) → AreAscending (sort_on f xs)
  unfolding sort_on
  sort_on-AreAscending [] = tt
  sort_on-AreAscending (x ∷ xs) = insert_on-AreAscending x (sort_on f xs) (sort_on-AreAscending xs)

-- Of the starts in their order, the first one decides whether any has come.
has_started-ascending :
    (day : DateTime) (x : DateTime × TermSpec) (xs : List (DateTime × TermSpec))
    → AreAscending start_key (x ∷ xs)
    → has_started day (x ∷ xs) ≡ leb (start_key x) (date_key day)
has_started-ascending day x [] a = ground arith
has_started-ascending day x (y ∷ ys) ((le, rest), a) =
    ground (arith, le, has_started-ascending day y ys a)

module _ (day : DateTime) (year : ℕ) (calendar : CalendarSpec) where
  abbrev year_end : DateTime
  year_end = year_start (year + 1) calendar

  abbrev StartsInside : DateTime × TermSpec → Type 0
  StartsInside s = start_key s < date_key year_end

  holding-ranges :
      (xs : List (DateTime × TermSpec))
      → AreAscending start_key xs
      → All StartsInside xs
      → holding day (ranges year calendar xs)
        ≡ (if has_started day xs && is_before day year_end then 1 else 0)
  unfolding ranges contains
  holding-ranges [] a i = refl
  holding-ranges ((start, term) ∷ []) a (i, j) = ground arith
  holding-ranges ((start, term) ∷ (next, t) ∷ xs) ((le, below), a) (i, (j, k)) = ground (
    arith,
    le,
    j,
    holding-ranges ((next, t) ∷ xs) a (j, k),
    has_started-ascending day (next, t) xs a,
  )

  placed-StartsInside : (terms : List TermSpec) → All StartsInside (placed year calendar terms)
  unfolding placed
  placed-StartsInside [] = tt
  placed-StartsInside (t ∷ terms) =
      elim (Bool-cases (is_until year_end (candidate year calendar t))) [
        | inl y ↦ subst (All StartsInside) (sym (branch_true _ _ _ y)) (placed-StartsInside terms)
        | inr n ↦
            let lt : date_key (candidate year calendar t) < date_key year_end = ground (arith, n) in
            subst (All StartsInside) (sym (branch_false _ _ _ n)) (lt, placed-StartsInside terms)
      ]

  -- Where no dates are stated for a year, a day is in exactly one of its terms if some term has started by then and the year
  -- is not over, and in none otherwise: the generated terms have no gap and no overlap.
  pub holding-terms_for_year :
      (terms : List TermSpec) (overrides : List TermOverride)
      → filter (λ o. o.reporting_year == year) overrides ≡ []
      → holding day (terms_for_year year calendar terms overrides)
        ≡ (if has_started day (placed year calendar terms) && is_before day year_end then 1 else 0)
  unfolding terms_for_year
  holding-terms_for_year terms overrides none_stated =
      let starts = placed year calendar terms in
      ap (λ os. holding day (stated_or year calendar terms os)) none_stated
      ∙ holding-ranges (sort_on start_key starts) (sort_on-AreAscending start_key starts)
          (sort_on-All start_key StartsInside starts (placed-StartsInside terms))
      ∙ ap (λ b. if b && is_before day year_end then 1 else 0)
          (any-sort_on start_key (λ s. leb (start_key s) (date_key day)) starts)
