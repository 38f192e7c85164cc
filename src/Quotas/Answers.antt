-- ===== src/Quotas/Answers.antt =====
-- quotas/service.py: the hold decision is always made.
use mathlib.Core.Path.{subst}
use printops.Prelude.{
  ◌≡◌, refl, sym, String, Bool, true, false, Option, none, some, List, ◌⊎◌, inl, inr, arith, All,
  Option-cases, find-All,
}
use printops.Calendar.{DateTime}
use printops.Jobs.{HoldReason}
use printops.Printers.{Printer}
use printops.Quotas.Periods.{
  Period, daily, weekly, monthly, quarterly, yearly, other, period_bounds,
}
use printops.Quotas.Effective.{
  PrinterUserQuota, get_effective_quota, effective_excluded, effective_included, get_user_quota,
  get_blanket_quota,
}
use printops.Quotas.Hold.{
  Store, get_or_create_quota_settings, hold_in_window, hold_for_row, hold_if_enforced,
  hold_for_quota, resolve_hold_reason,
}
use printops.Quotas.Decision.{resolve_cases}

-- A period that the API accepts (QUOTA_PERIODS).
abbrev pub IsKnown : Period → Type 0
IsKnown (other s) = ⊥
IsKnown _ = Unit

abbrev Returns : Option (Store × Option HoldReason) → Type 0
Returns r = (o : Store × Option HoldReason) × (r ≡ some o)

period_bounds-known :
    (p : Period) (now : DateTime)
    → IsKnown p
    → (w : DateTime × DateTime) × (period_bounds p now ≡ some w)
unfolding period_bounds
period_bounds-known daily now k = (_, refl)
period_bounds-known weekly now k = (_, refl)
period_bounds-known monthly now k = (_, refl)
period_bounds-known quarterly now k = (_, refl)
period_bounds-known yearly now k = (_, refl)
period_bounds-known (other s) now k = absurd k

effective_cases :
    (rows : List PrinterUserQuota) (printer : Printer) (email : String) (q : PrinterUserQuota)
    → get_effective_quota rows printer (some email) ≡ some q
    → (get_user_quota rows printer.id email ≡ some q) ⊎ (get_blanket_quota rows printer.id ≡ some q)
unfolding get_effective_quota effective_excluded effective_included
effective_cases rows printer email q h = ground arith

-- The row that applies is a row of the table.
effective-All :
    (P : PrinterUserQuota → Type 0) (rows : List PrinterUserQuota) (printer : Printer)
    (email : String) (q : PrinterUserQuota)
    → All P rows
    → get_effective_quota rows printer (some email) ≡ some q
    → P q
unfolding get_user_quota get_blanket_quota
effective-All P rows printer email q all h = elim (effective_cases rows printer email q h) [
  | inl e ↦ find-All P _ rows q all e
  | inr e ↦ find-All P _ rows q all e
]

row-Returns :
    (s : Store) (printer : Printer) (email : String) (q : Option PrinterUserQuota) (now : DateTime)
    → ((r : PrinterUserQuota) → q ≡ some r → IsKnown r.period)
    → Returns (hold_for_row s printer email q now)
unfolding hold_for_row hold_in_window
row-Returns s printer email none now k = (_, refl)
row-Returns s printer email (some q) now k =
    let (w, e) = period_bounds-known q.period now (k q refl) in
    elim (Option-cases q.page_limit) [
      | inl l ↦ rw l (_, refl)
      | inr (limit, l) ↦ rw l (rw e (_, refl))
    ]

enforced-Returns :
    (r : Store × Bool) (printer : Printer) (email : String) (now : DateTime)
    → All (λ q. IsKnown q.period) r.0.quotas
    → Returns (hold_if_enforced r printer email now)
unfolding hold_if_enforced
enforced-Returns (s, false) printer email now all = (_, refl)
enforced-Returns (s, true) printer email now all =
    row-Returns s printer email _ now
      (λ q e. effective-All (λ q. IsKnown q.period) s.quotas printer email q all e)

same_quotas : (s : Store) → (get_or_create_quota_settings s).0.quotas ≡ s.quotas
unfolding get_or_create_quota_settings
same_quotas s = ground arith

-- With the periods that the API accepts, the decision is always made: the ValueError of
-- `period_bounds` cannot escape from the creation of a job.
pub resolve_hold_reason_total :
    (s : Store) (printer : Printer) (submitted_by : Option String) (now : DateTime)
    → All (λ q. IsKnown q.period) s.quotas
    → (o : Store × Option HoldReason) × (resolve_hold_reason s printer submitted_by now ≡ some o)
resolve_hold_reason_total s printer submitted_by now all =
    elim (resolve_cases s printer submitted_by now) [
      | inl (i, e) ↦ (_, e)
      | inr (inl (i, o, e)) ↦ (_, e)
      | inr (inr (i, o, e)) ↦ subst Returns (sym e) (behind submitted_by)
    ]
  where
    behind : (who : Option String) → Returns (hold_for_quota s printer who now)
    behind none = unfold hold_for_quota in (_, refl)
    behind (some email) =
        unfold hold_for_quota in
        enforced-Returns (get_or_create_quota_settings s) printer email now
          (subst (All (λ q. IsKnown q.period)) (sym (same_quotas s)) all)
