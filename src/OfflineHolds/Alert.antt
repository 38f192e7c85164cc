-- ===== src/OfflineHolds/Alert.antt =====
-- printers/offline_holds.py: waiting_alert, what an administrator is told of the jobs that wait.
use printops.Prelude.{
  ℕ, ◌+◌, ◌-◌, ◌/◌, ◌≡◌, refl, String, false, Option, none, some, List, [], ◌∷◌, ◌++◌, ltb, ◌==◌,
  if◌then◌else◌, filter, length, any, min, Bool-cases, inl, inr,
}
use printops.Text.{Text, Piece, lit, num}
use printops.Jobs.{Job}
use printops.Printers.{Printer}
use printops.Release.{Argument, LpOutcome}
use printops.OfflineHolds.{waits, away_too_long, release_jobs_waiting_for}
use printops.OfflineHolds.Waiting.{none_waits}

-- `func.min(Job.created_at)`
unfoldable pub oldest_of : List Job → Option ℕ
oldest_of [] = none
oldest_of (j ∷ jobs) = some (earlier (oldest_of jobs))
  where
    earlier : Option ℕ → ℕ
    earlier none = j.created_at
    earlier (some t) = min j.created_at t

-- `{n} hour{'s' if n != 1 else ''}`
abbrev pub counted : ℕ → String → String → Text
counted n one many = num n ∷ lit (if n == 1 then one else many) ∷ []

-- `hours`, of an instant that lies before `now`
abbrev pub hours_since : ℕ → ℕ → ℕ
hours_since since now = (now - since) / 3_600_000_000

unfoldable pub describe_wait : Option ℕ → ℕ → Text
describe_wait none now = lit "an unknown time" ∷ []
describe_wait (some since) now =
    if ltb (hours_since since now) 1
    then lit "less than an hour" ∷ []
    else if ltb (hours_since since now) 24
    then counted (hours_since since now) " hour" " hours"
    else counted (hours_since since now / 24) " day" " days"

abbrev pub address_of : Option String → Piece
address_of none = lit "None"
address_of (some address) = lit address

abbrev pub never_answered : ℕ → Printer → Text → Text
never_answered count printer waited =
    num count
    ∷ lit (if count == 1 then " job" else " jobs")
    ∷ lit " waiting, and this printer has never answered at "
    ∷ address_of printer.ip_address
    ∷ lit
        ". That is usually the wrong address rather than a printer that is switched off — nothing will print until it is corrected. Oldest has been waiting "
    ∷ (waited ++ (lit "." ∷ []))

abbrev pub away_long : ℕ → Text → Text → Text
away_long count gone_for waited =
    num count
    ∷ lit (if count == 1 then " job" else " jobs")
    ∷ lit " waiting, and this printer has not answered for "
    ∷ (gone_for
        ++ (lit
              ". They will print when it comes back, but a printer away this long with work behind it is usually switched off for good, moved, or on a changed address. Oldest job has been waiting "
            ∷ (waited ++ (lit "." ∷ []))))

-- From the test of `last_online_at`.
unfoldable pub alert_for : ℕ → Printer → List Job → Option ℕ → Option Text
unfolding describe_wait oldest_of
alert_for now printer waiting none =
    some (never_answered (length waiting) printer (describe_wait (oldest_of waiting) now))
alert_for now printer waiting (some last_online_at) =
    if ltb now (last_online_at + away_too_long)
    then none
    else some (
        away_long (length waiting) (describe_wait (some last_online_at) now)
          (describe_wait (oldest_of waiting) now))

unfoldable pub waiting_alert : ℕ → Printer → List Job → Option Text
unfolding alert_for
waiting_alert now printer jobs =
    if length (filter (waits printer.id) jobs) == 0
    then none
    else alert_for now printer (filter (waits printer.id) jobs) printer.last_online_at

no_row_waits :
    (printer_id : ℕ) (jobs : List Job)
    → any (waits printer_id) jobs ≡ false
    → filter (waits printer_id) jobs ≡ []
no_row_waits printer_id [] h = refl
no_row_waits printer_id (j ∷ jobs) h = elim (Bool-cases (waits printer_id j)) [
  | inl e ↦ cc (rw e at h)
  | inr e ↦ rw e (no_row_waits printer_id jobs (rw e at h))
]

-- Releasing the jobs of a printer settles its alert: there is nothing to tell of it afterwards,
-- at any time, whatever `lp` answered and however long the printer had been away.
waiting_alert-release :
    (lp : List Argument → LpOutcome)
    → (now later : ℕ) (printer : Printer) (jobs : List Job) (files : List String)
    → waiting_alert later printer (release_jobs_waiting_for lp now printer jobs files).jobs ≡ none
unfolding waiting_alert
waiting_alert-release lp now later printer jobs files = rw (
    no_row_waits printer.id (release_jobs_waiting_for lp now printer jobs files).jobs
      (none_waits lp now printer jobs files))
