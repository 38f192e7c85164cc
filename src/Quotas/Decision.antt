-- ===== src/Quotas/Decision.antt =====
-- When `resolve_hold_reason` holds a job over a quota, when it does not, and what it reports.
use mathlib.Core.Path.{subst}
use printops.Prelude.{
  ℕ, ◌≤◌, ◌≡◌, refl, sym, String, Bool, true, false, not, ◌&&◌, ◌||◌, Option, none, some, ◌⊎◌, ◌↔◌,
  inl, inr, arith, leb, leb→le, le→leb, if◌then◌else◌, some_inj, Bool-cases, Option-cases,
}
use printops.Calendar.{DateTime, instant}
use printops.Jobs.{HoldReason, pin_release, follow_me, quota, printer_offline}
use printops.Printers.{Printer, is_offline}
use printops.Quotas.Periods.{period_bounds}
use printops.Quotas.Effective.{PrinterUserQuota, get_effective_quota, get_pages_used}
use printops.Quotas.Hold.{
  Store, get_or_create_quota_settings, hold_over_limit, hold_in_window, hold_for_row,
  hold_if_enforced, hold_for_quota, resolve_hold_reason, bypassed,
}

-- The person has used up the limit of the row that applies to them, in the window of `now`.
pub record Over (s : Store) (printer : Printer) (email : String) (now : DateTime) : Type 0 where
  pub row : PrinterUserQuota
  pub effective : get_effective_quota s.quotas printer (some email) ≡ some row
  pub limit : ℕ
  pub limited : row.page_limit ≡ some limit
  pub window : DateTime × DateTime
  pub bounds : period_bounds row.period now ≡ some window
  pub reached : limit ≤ get_pages_used s.jobs printer.id email (instant window.0) (instant window.1)

abbrev pub HeldFor : HoldReason → Option (Store × Option HoldReason) → Type 0
HeldFor r none = ⊥
HeldFor r (some (s, reason)) = reason ≡ some r

over_limit-quota :
    (s : Store) (printer : Printer) (email : String) (q : PrinterUserQuota) (limit used : ℕ)
    (start now : DateTime)
    → (hold_over_limit s printer email q limit used start now).1 ≡ some quota
    → limit ≤ used
unfolding hold_over_limit
over_limit-quota s printer email q limit used start now h = elim (Bool-cases (leb limit used)) [
  | inl e ↦ leb→le limit used e
  | inr e ↦ absurd (let h' : ◌≡◌ {A = Option HoldReason} none (some quota) = rw e at h in cc)
]

module _ (s : Store) (printer : Printer) (email : String) (now : DateTime) where
  in_window-Over :
      (q : PrinterUserQuota) (limit : ℕ)
      → get_effective_quota s.quotas printer (some email) ≡ some q
      → q.page_limit ≡ some limit
      → (w : Option (DateTime × DateTime)) → period_bounds q.period now ≡ w
      → HeldFor quota (hold_in_window s printer email q limit now w)
      → Over s printer email now
  unfolding hold_in_window
  in_window-Over q limit e l none b h = absurd h
  in_window-Over q limit e l (some w) b h = record {
    row = q;
    effective = e;
    limit = limit;
    limited = l;
    window = w;
    bounds = b;
    reached = over_limit-quota s printer email q limit _ w.0 now h;
  }

  for_row-Over :
      (q : Option PrinterUserQuota)
      → get_effective_quota s.quotas printer (some email) ≡ q
      → HeldFor quota (hold_for_row s printer email q now)
      → Over s printer email now
  unfolding hold_for_row
  for_row-Over none e h = cc
  for_row-Over (some q) e h = elim (Option-cases q.page_limit) [
    | inl l ↦ absurd (let h' : ◌≡◌ {A = Option HoldReason} none (some quota) = rw l at h in cc)
    | inr (limit, l) ↦ in_window-Over q limit e l _ refl (rw (l, hold_for_row) at h)
  ]

-- A release printer takes the jobs of everybody without a bypass.
abbrev pub intercepts : Store → Printer → Option String → Bool
intercepts s printer submitted_by =
    (printer.release_required || printer.follow_me_enabled) && not (bypassed s printer submitted_by)

-- All that has to come together for a hold over a quota.
pub record QuotaHold (s : Store) (printer : Printer) (submitted_by : Option String) (now : DateTime)
    : Type 0 where
  pub not_intercepted : intercepts s printer submitted_by ≡ false
  pub reachable : is_offline printer.status ≡ false
  pub enforced : s.quota_settings ≡ some true
  pub email : String
  pub named : submitted_by ≡ some email
  pub over : Over s printer email now

-- The switch: on only if the singleton exists and says so.
enforced_cases :
    (s : Store)
    → ((s.quota_settings ≡ some true) × (get_or_create_quota_settings s ≡ (s, true)))
      ⊎ ((get_or_create_quota_settings s).1 ≡ false)
unfolding get_or_create_quota_settings
enforced_cases s = ground arith

settings_on : (s : Store) → s.quota_settings ≡ some true → (get_or_create_quota_settings s).1 ≡ true
unfolding get_or_create_quota_settings
settings_on s h = rw h

idle :
    (r : Store × Bool) (printer : Printer) (email : String) (now : DateTime)
    → r.1 ≡ false
    → hold_if_enforced r printer email now ≡ some (r.0, none)
unfolding hold_if_enforced
idle (s, b) printer email now h = rw (h, hold_if_enforced)

for_quota-QuotaHold :
    (s : Store) (printer : Printer) (submitted_by : Option String) (now : DateTime)
    → intercepts s printer submitted_by ≡ false
    → is_offline printer.status ≡ false
    → HeldFor quota (hold_for_quota s printer submitted_by now)
    → QuotaHold s printer submitted_by now
unfolding hold_for_quota
for_quota-QuotaHold s printer none now i o h = cc
for_quota-QuotaHold s printer (some email) now i o h = elim (enforced_cases s) [
  | inl (e, r) ↦ record {
    not_intercepted = i;
    reachable = o;
    enforced = e;
    email = email;
    named = refl;
    over = for_row-Over s printer email now _ refl (
        unfold hold_if_enforced in
        subst (λ x. HeldFor quota (hold_if_enforced x printer email now)) r h);
  }
  | inr off ↦ absurd (
      let h' : ◌≡◌ {A = Option HoldReason} none (some quota) =
        subst (HeldFor quota) (idle (get_or_create_quota_settings s) printer email now off) h in
      cc)
]

pub resolve_cases :
    (s : Store) (printer : Printer) (submitted_by : Option String) (now : DateTime)
    → ((intercepts s printer submitted_by ≡ true)
        × (resolve_hold_reason s printer submitted_by now
            ≡ some (s, some (if printer.follow_me_enabled then follow_me else pin_release))))
      ⊎ (((intercepts s printer submitted_by ≡ false)
            × (is_offline printer.status ≡ true)
            × (resolve_hold_reason s printer submitted_by now ≡ some (s, some printer_offline)))
          ⊎ ((intercepts s printer submitted_by ≡ false)
              × (is_offline printer.status ≡ false)
              × (resolve_hold_reason s printer submitted_by now
                  ≡ hold_for_quota s printer submitted_by now)))
unfolding resolve_hold_reason
resolve_cases s printer submitted_by now = elim (Bool-cases (intercepts s printer submitted_by)) [
  | inl e ↦ inl (e, rw e)
  | inr e ↦ elim (Bool-cases (is_offline printer.status)) [
    | inl o ↦ inr (inl (e, o, rw (e, o)))
    | inr o ↦ inr (inr (e, o, rw (e, o)))
  ]
]

resolve-QuotaHold :
    (s : Store) (printer : Printer) (submitted_by : Option String) (now : DateTime)
    → HeldFor quota (resolve_hold_reason s printer submitted_by now)
    → QuotaHold s printer submitted_by now
resolve-QuotaHold s printer submitted_by now h = elim (resolve_cases s printer submitted_by now) [
  | inl (i, e) ↦
      absurd (other_reason printer.follow_me_enabled (some_inj (subst (HeldFor quota) e h)))
  | inr (inl (i, o, e)) ↦ absurd (
      let h' : ◌≡◌ {A = Option HoldReason} (some printer_offline) (some quota) =
        subst (HeldFor quota) e h in
      cc)
  | inr (inr (i, o, e)) ↦
      for_quota-QuotaHold s printer submitted_by now i o (subst (HeldFor quota) e h)
]
  where
    other_reason : (b : Bool) → (if b then follow_me else pin_release) ≡ quota → ⊥
    other_reason true h = cc
    other_reason false h = cc

over_limit-held :
    (s : Store) (printer : Printer) (email : String) (q : PrinterUserQuota) (limit used : ℕ)
    (start now : DateTime)
    → limit ≤ used
    → (hold_over_limit s printer email q limit used start now).1 ≡ some quota
unfolding hold_over_limit
over_limit-held s printer email q limit used start now h = rw (le→leb limit used h)

row-held :
    (s : Store) (printer : Printer) (email : String) (now : DateTime)
    → (o : Over s printer email now) → HeldFor quota (hold_for_row s printer email (some o.row) now)
unfolding hold_for_row hold_in_window
row-held s printer email now o =
    rw (o.limited, HeldFor)
      (rw (o.bounds, hold_in_window)
        (over_limit-held s printer email o.row o.limit _ o.window.0 now o.reached))

QuotaHold-resolve :
    (s : Store) (printer : Printer) (submitted_by : Option String) (now : DateTime)
    → QuotaHold s printer submitted_by now
    → HeldFor quota (resolve_hold_reason s printer submitted_by now)
unfolding hold_for_quota hold_if_enforced
QuotaHold-resolve s printer submitted_by now q = elim (resolve_cases s printer submitted_by now) [
  | inl (i, e) ↦ cc (i, q.not_intercepted)
  | inr (inl (i, o, e)) ↦ cc (o, q.reachable)
  | inr (inr (i, o, e)) ↦ elim (enforced_cases s) [
    | inl (t, r) ↦
        rw (e, q.named)
          (subst (λ x. HeldFor quota (hold_if_enforced x printer q.email now)) (sym r)
            (subst (λ x. HeldFor quota (hold_for_row s printer q.email x now))
              (sym q.over.effective) (row-held s printer q.email now q.over)))
    | inr off ↦ cc (off, settings_on s q.enforced)
  ]
]

-- A new job is held as over quota exactly when no release hold intercepts it, the printer is not
-- offline, enforcement is switched on, the submitter is known, and the pages counted for them at
-- this printer in the window of now have reached the limit of the row that applies to them.
pub resolve_hold_reason-quota_iff :
    (s : Store) (printer : Printer) (submitted_by : Option String) (now : DateTime)
    → HeldFor quota (resolve_hold_reason s printer submitted_by now)
      ↔ QuotaHold s printer submitted_by now
resolve_hold_reason-quota_iff s printer submitted_by now =
    (resolve-QuotaHold s printer submitted_by now, QuotaHold-resolve s printer submitted_by now)
