-- ===== src/Quotas/Budget.antt =====
-- quotas/service.py: the alerts of a quota row, over any submissions.
use mathlib.Core.List.{append-nil}
use mathlib.Core.Path.{subst}
use native.Mathlib.Nat.{le_trans}
use printops.Prelude.{
  ℕ, ◌+◌, ◌≤◌, ◌≡◌, ◌∙◌, ◌⊎◌, ◌++◌, ap, All, refl, sym, String, Bool, true, false, Option, none,
  some, List, [], ◌∷◌, inl, inr, arith, leb, length, Bool-cases, Option-cases,
}
use printops.Text.{Text, lit, uuid, date}
use printops.Calendar.{DateTime, instant}
use printops.Jobs.{HoldReason}
use printops.Printers.{Printer}
use printops.Notifications.Conditions.{Settings, Event, Db, select_state, new_event, observe}
use printops.Notifications.Conditions.Raising.{should_raise, observe-Outcome}
use printops.Notifications.Conditions.Once.{budget, events_of, chances, observe_seen-budget}
use printops.Quotas.Periods.{Period, period_bounds}
use printops.Quotas.Effective.{PrinterUserQuota}
use printops.Quotas.Hold.{
  Store, get_or_create_quota_settings, get_or_create_notification_settings, quota_alert,
  hold_over_limit, hold_in_window, hold_for_row, hold_if_enforced, hold_for_quota,
  resolve_hold_reason,
}
use printops.Quotas.Decision.{resolve_cases}

-- The events and the rows of the conditions after a decision.
abbrev pub notices_of : Db → Option (Store × Option HoldReason) → Db
notices_of db none = db
notices_of db (some (s, reason)) = s.notices

same_notices : (s : Store) → (get_or_create_notification_settings s).0.notices ≡ s.notices
unfolding get_or_create_notification_settings
same_notices s = ground arith

same_notices_of_quota : (s : Store) → (get_or_create_quota_settings s).0.notices ≡ s.notices
unfolding get_or_create_quota_settings
same_notices_of_quota s = ground arith

-- What a decision does to the notices: nothing, or one observation of the alert of a person who reached the limit of a quota
-- row, for the window of the row's period.
data Alerted (printer : Printer) (who : Option String) (now : DateTime) (db db' : Db) : Type 0 where
  quiet : db' ≡ db → Alerted printer who now db db'
  alerted :
      (email : String) (q : PrinterUserQuota) (used limit : ℕ) (w : DateTime × DateTime)
      (settings : Option Settings)
      → who ≡ some email
      → period_bounds q.period now ≡ some w
      → db' ≡ (observe settings (quota_alert printer email q used limit w.0) (instant now) db).0
      → Alerted printer who now db db'

over_limit-Alerted :
    (s : Store) (printer : Printer) (email : String) (q : PrinterUserQuota) (limit used : ℕ)
    (w : DateTime × DateTime) (now : DateTime)
    → period_bounds q.period now ≡ some w
    → Alerted printer
        (some email)
        now
        s.notices
        (hold_over_limit s printer email q limit used w.0 now).0.notices
unfolding hold_over_limit
over_limit-Alerted s printer email q limit used w now e = elim (Bool-cases (leb limit used)) [
  | inl h ↦
      let g = get_or_create_notification_settings s in
      rw h (
        alerted email q used limit w (some g.1) refl e (
          ap
            (λ n.
              (observe (some g.1) (quota_alert printer email q used limit w.0) (instant now) n).0)
            (same_notices s)))
  | inr h ↦ rw h (quiet refl)
]

in_window-Alerted :
    (s : Store) (printer : Printer) (email : String) (q : PrinterUserQuota) (limit : ℕ)
    (now : DateTime) (o : Option (DateTime × DateTime))
    → period_bounds q.period now ≡ o
    → Alerted printer
        (some email)
        now
        s.notices
        (notices_of s.notices (hold_in_window s printer email q limit now o))
unfolding hold_in_window
in_window-Alerted s printer email q limit now none e = quiet refl
in_window-Alerted s printer email q limit now (some (start, end)) e =
    over_limit-Alerted s printer email q limit _ (start, end) now e

row-Alerted :
    (s : Store) (printer : Printer) (email : String) (q : Option PrinterUserQuota) (now : DateTime)
    → Alerted printer
        (some email)
        now
        s.notices
        (notices_of s.notices (hold_for_row s printer email q now))
unfolding hold_for_row
row-Alerted s printer email none now = quiet refl
row-Alerted s printer email (some q) now = elim (Option-cases q.page_limit) [
  | inl l ↦ rw l (quiet refl)
  | inr (limit, l) ↦ rw l (in_window-Alerted s printer email q limit now _ refl)
]

enforced-Alerted :
    (r : Store × Bool) (printer : Printer) (email : String) (now : DateTime)
    → Alerted printer
        (some email)
        now
        r.0.notices
        (notices_of r.0.notices (hold_if_enforced r printer email now))
unfolding hold_if_enforced
enforced-Alerted (s, false) printer email now = quiet refl
enforced-Alerted (s, true) printer email now = row-Alerted s printer email _ now

resolve-Alerted :
    (s : Store) (printer : Printer) (submitted_by : Option String) (now : DateTime)
    → Alerted printer submitted_by now s.notices
        (notices_of s.notices (resolve_hold_reason s printer submitted_by now))
resolve-Alerted s printer submitted_by now = elim (resolve_cases s printer submitted_by now) [
  | inl (i, e) ↦ rw e (quiet refl)
  | inr (inl (i, o, e)) ↦ rw e (quiet refl)
  | inr (inr (i, o, e)) ↦ rw e (behind submitted_by)
]
  where
    behind :
        (who : Option String)
        → Alerted printer who now s.notices
            (notices_of s.notices (hold_for_quota s printer who now))
    behind none = unfold hold_for_quota in (quiet refl)
    behind (some email) =
        unfold hold_for_quota in
        subst
          (λ n.
            Alerted printer (some email) now n
              (notices_of n (hold_if_enforced (get_or_create_quota_settings s) printer email now)))
          (same_notices_of_quota s)
          (enforced-Alerted (get_or_create_quota_settings s) printer email now)

Alerted-budget :
    (k : Text) {printer : Printer} {who : Option String} {now : DateTime} (db db' : Db)
    → Alerted printer who now db db'
    → budget k db' ≤ budget k db
unfolding observe
Alerted-budget k db db' (quiet e) = rw e (omega arith)
Alerted-budget k db db' (alerted email q used limit w settings h i e) =
    rw e (observe_seen-budget settings k _ _ _ db)

-- The creation of a job, as far as the alerts go: who prints, where, when, and the rows that other
-- code has left in the tables but those of the notifications.
pub record Submission : Type 0 where
  pub printer : Printer
  pub submitted_by : Option String
  pub now : DateTime
  pub store : Store

-- The notification tables after a series of decisions.
unfoldable pub submit_all : List Submission → Db → Db
submit_all [] db = db
submit_all (x ∷ xs) db = submit_all xs (
    notices_of db
      (resolve_hold_reason (record x.store { notices = db }) x.printer x.submitted_by x.now))

-- Alerts that the submissions account for: the key names the printer, the person and the day on which the window of the
-- submission begins.
abbrev pub key_for : ℕ → String → DateTime → Text
key_for printer_id email start =
    lit "quota.exceeded:"
    ∷ uuid printer_id
    ∷ lit ":"
    ∷ lit email
    ∷ lit ":"
    ∷ date start.year start.month start.day
    ∷ []

pub record IsAlertOf (x : Submission) (e : Event) : Type 0 where
  pub email : String
  pub period : Period
  pub window : DateTime × DateTime
  pub by_email : x.submitted_by ≡ some email
  pub in_window : period_bounds period x.now ≡ some window
  pub key : e.dedupe_key ≡ key_for x.printer.id email window.0

abbrev pub IsOneOf : List Submission → Event → Type 0
IsOneOf [] e = ⊥
IsOneOf (x ∷ xs) e = IsAlertOf x e ⊎ IsOneOf xs e

-- The events that are added to a table.
pub record Adds (P : Event → Type 0) (db db' : Db) : Type 0 where
  pub new : List Event
  pub events : db'.events ≡ db.events ++ new
  pub all : All P new

observed-Adds :
    (x : Submission) (email : String) (q : PrinterUserQuota) (used limit : ℕ)
    (w : DateTime × DateTime) (settings : Option Settings) (db : Db)
    → x.submitted_by ≡ some email
    → period_bounds q.period x.now ≡ some w
    → Adds
        (IsAlertOf x)
        db
        (observe settings (quota_alert x.printer email q used limit w.0) (instant x.now) db).0
unfolding quota_alert new_event
observed-Adds x email q used limit w settings db h i =
    let alert = quota_alert x.printer email q used limit w.0 in
    let out = observe-Outcome settings alert (instant x.now) db in
    elim (Bool-cases
      (should_raise settings alert (instant x.now) (select_state alert.dedupe_key db.states))) [
        | inl y ↦ record {
          new = new_event alert (instant x.now) ∷ [];
          events = rw y at out.1;
          all = (
            record {
              email = email;
              period = q.period;
              window = w;
              by_email = h;
              in_window = i;
              key = refl;
            },
            tt,
          );
        }
        | inr n ↦ record { new = []; events = rw n at out.1; all = tt }
      ]

Alerted-Adds :
    (x : Submission) (db db' : Db)
    → Alerted x.printer x.submitted_by x.now db db'
    → Adds (IsAlertOf x) db db'
Alerted-Adds x db db' (quiet e) = record {
  new = [];
  events = ap (λ (d : Db). d.events) e ∙ sym (append-nil db.events);
  all = tt;
}
Alerted-Adds x db db' (alerted email q used limit w settings h i e) =
    subst (Adds (IsAlertOf x) db) (sym e) (observed-Adds x email q used limit w settings db h i)

All-imp : (P Q : Event → Type 0) (l : List Event) → ((e : Event) → P e → Q e) → All P l → All Q l
All-imp P Q [] f h = tt
All-imp P Q (e ∷ l) f h = (f e h.0, All-imp P Q l f h.1)

All-append : (P : Event → Type 0) (l m : List Event) → All P l → All P m → All P (l ++ m)
All-append P [] m h k = k
All-append P (e ∷ l) m h k = (h.0, All-append P l m h.1 k)

append_twice : (l m n : List Event) → (l ++ m) ++ n ≡ l ++ (m ++ n)
append_twice [] m n = refl
append_twice (e ∷ l) m n = ap (λ t. e ∷ t) (append_twice l m n)

Adds-then :
    (x : Submission) (xs : List Submission) (a b c : Db)
    → Adds (IsAlertOf x) a b
    → Adds (IsOneOf xs) b c
    → Adds (IsOneOf (x ∷ xs)) a c
Adds-then x xs a b c f g = record {
  new = f.new ++ g.new;
  events = g.events ∙ ap (λ l. l ++ g.new) f.events ∙ append_twice a.events f.new g.new;
  all =
      All-append (IsOneOf (x ∷ xs)) f.new g.new
        (All-imp (IsAlertOf x) (IsOneOf (x ∷ xs)) f.new (λ e h. inl h) f.all)
        (All-imp (IsOneOf xs) (IsOneOf (x ∷ xs)) g.new (λ e h. inr h) g.all);
}

submit_all-Adds : (xs : List Submission) (db : Db) → Adds (IsOneOf xs) db (submit_all xs db)
unfolding submit_all
submit_all-Adds [] db = record { new = []; events = sym (append-nil db.events); all = tt }
submit_all-Adds (x ∷ xs) db =
    let s : Store = record x.store { notices = db } in
    let db' = notices_of db (resolve_hold_reason s x.printer x.submitted_by x.now) in
    Adds-then x xs db db' (submit_all xs db')
      (Alerted-Adds x db db' (resolve-Alerted s x.printer x.submitted_by x.now))
      (submit_all-Adds xs db')

submit_all-budget :
    (k : Text) (xs : List Submission) (db : Db) → budget k (submit_all xs db) ≤ budget k db
unfolding submit_all
submit_all-budget k [] db = omega arith
submit_all-budget k (x ∷ xs) db =
    let s : Store = record x.store { notices = db } in
    let db' = notices_of db (resolve_hold_reason s x.printer x.submitted_by x.now) in
    le_trans (submit_all-budget k xs db')
      (Alerted-budget k db db' (resolve-Alerted s x.printer x.submitted_by x.now))

-- However many jobs are submitted, in whatever order and over whatever quota rows, only alerts are added to the events,
-- each with the key of the printer and the person of one of the submissions and of the first day of a window of a period
-- around it; and of one key at most one alert is added, and none if its row is marked as notified already.
pub submit_all_alerts_once :
    (k : Text) (xs : List Submission) (db : Db)
    → Adds (IsOneOf xs) db (submit_all xs db)
      × (length (events_of k (submit_all xs db)) ≤ length (events_of k db) + chances k db)
submit_all_alerts_once k xs db = (submit_all-Adds xs db, omega (arith, submit_all-budget k xs db))
