-- ===== src/PageReconcile.antt =====
-- printers/page_reconcile.py: the pages sent to a printer against its page counter.
-- Instants are microseconds since a fixed origin. `counted` may be negative in the program, so the
-- two readings of a window are kept and every test on their difference is written with both.
pub mod Sweep
pub mod Message
pub mod Evidence
pub mod Charges
pub mod Fleet
mod Tests
use printops.Prelude.{
  ℕ, ◌+◌, ◌-◌, ◌*◌, ◌/◌, String, Bool, true, false, not, ◌&&◌, ◌||◌, Option, none, some, List, [],
  ◌∷◌, ltb, leb, ◌==◌, str_eq, if◌then◌else◌, filter, sum_by, length, any, map, min, is_none,
}
use printops.Jobs.{Job, HoldReason, follow_me, is_forwarded, is_text}
use printops.Printers.{PagesRecord, Printer}

-- WINDOW, MIN_SHORTFALL and STALE_AFTER; MAX_DELIVERED_FRACTION is one half
abbrev pub window : ℕ
window = 24 * 3_600_000_000

abbrev pub min_shortfall : ℕ
min_shortfall = 5

abbrev pub stale_after : ℕ
stale_after = 3 * 3_600_000_000

pub record SentJob : Type 0 where
  pub completed_at : ℕ
  pub pages : ℕ
  pub duplex : Option Bool
  pub document_name : Option String

-- `bool(x)` of an optional flag
abbrev pub is_true : Option Bool → Bool
is_true none = false
is_true (some b) = b

-- `ceil(self.pages / 2) if self.duplex else self.pages`
abbrev pub least_expected : SentJob → ℕ
least_expected job = if is_true job.duplex then (job.pages + 1) / 2 else job.pages

pub record LostWindow : Type 0 where
  pub started_at : ℕ
  pub ended_at : ℕ
  pub expected : ℕ
  pub counted : ℕ
  pub documents : List String
  pub jobs : ℕ

-- `LostWindow.shortfall`
abbrev pub shortfall_of : LostWindow → ℕ
shortfall_of w = w.expected - w.counted

-- `tuple(name for name in … if name)`
unfoldable pub names_of : List SentJob → List String
names_of [] = []
names_of (job ∷ jobs) = add_name job.document_name (names_of jobs)
  where
    add_name : Option String → List String → List String
    add_name none names = names
    add_name (some name) names = if is_text (some name) then name ∷ names else names

-- `after - before` is the `counted` of the program.
unfoldable pub window_verdict : ℕ → ℕ → ℕ → ℕ → List SentJob → Option LostWindow
unfolding names_of
window_verdict started_at ended_at before after jobs =
    let expected = sum_by least_expected jobs in
    if ltb after before
    then none
    else if leb expected 0
    then none
    else if ltb expected (after - before + min_shortfall) || leb expected (2 * (after - before))
    then none
    else some (record {
      started_at = started_at;
      ended_at = ended_at;
      expected = expected;
      counted = after - before;
      documents = names_of jobs;
      jobs = length jobs;
    })

-- The jobs that finished between two readings.
abbrev pub inside : ℕ → ℕ → List SentJob → List SentJob
inside started_at ended_at jobs =
    filter (λ job. ltb started_at job.completed_at && leb job.completed_at ended_at) jobs

-- The body of the loop of `assess`.
unfoldable pub judged : ℕ × ℕ → ℕ × ℕ → List SentJob → Option LostWindow
unfolding window_verdict
judged (started_at, before) (ended_at, after) jobs =
    if length (inside started_at ended_at jobs) == 0
    then none
    else window_verdict started_at ended_at before after (inside started_at ended_at jobs)

abbrev pub append_verdict : Option LostWindow → List LostWindow → List LostWindow
append_verdict none windows = windows
append_verdict (some w) windows = w ∷ windows

-- The loop over `zip(readings, readings[1:])`, behind the reading that comes first.
unfoldable pub windows_from : ℕ × ℕ → List (ℕ × ℕ) → List SentJob → List LostWindow
unfolding judged
windows_from first [] jobs = []
windows_from first (next ∷ readings) jobs =
    append_verdict (judged first next jobs) (windows_from next readings jobs)

abbrev pub or_none : List LostWindow → Option (List LostWindow)
or_none [] = none
or_none (w ∷ windows) = some (w ∷ windows)

-- An UnprintedPages is the list of its windows.
unfoldable pub assess : List (ℕ × ℕ) → List SentJob → Option (List LostWindow)
unfolding windows_from
assess [] jobs = none
assess (first ∷ readings) jobs = or_none (windows_from first readings jobs)

-- `sorted(…, key=shortfall, reverse=True)`, which is stable
unfoldable pub insert_window : LostWindow → List LostWindow → List LostWindow
insert_window w [] = w ∷ []
insert_window w (v ∷ windows) =
    let rest = insert_window w windows in
    if ltb (shortfall_of w) (shortfall_of v) then v ∷ rest else w ∷ v ∷ windows

unfoldable pub worst_first : List LostWindow → List LostWindow
unfolding insert_window
worst_first [] = []
worst_first (w ∷ windows) = insert_window w (worst_first windows)

-- `seen.setdefault(name, None)` on the keys of a dictionary, in the order of insertion
unfoldable pub set_default : String → List String → List String
set_default name [] = name ∷ []
set_default name (n ∷ names) =
    let rest = set_default name names in if str_eq n name then n ∷ names else n ∷ rest

unfoldable pub set_defaults : List String → List String → List String
unfolding set_default
set_defaults [] seen = seen
set_defaults (name ∷ names) seen = set_defaults names (set_default name seen)

unfoldable pub seen_documents : List LostWindow → List String → List String
unfolding set_defaults
seen_documents [] seen = seen
seen_documents (w ∷ windows) seen = seen_documents windows (set_defaults w.documents seen)

-- `UnprintedPages.documents`
unfoldable pub documents_of : List LostWindow → List String
unfolding worst_first seen_documents
documents_of windows = seen_documents (worst_first windows) []

-- `UnprintedPages.since`, of windows that are not empty
unfoldable pub since_of : List LostWindow → ℕ
since_of [] = 0
since_of (w ∷ []) = w.started_at
since_of (w ∷ v ∷ windows) = min w.started_at (since_of (v ∷ windows))

unfoldable pub to_record : List LostWindow → ℕ → PagesRecord
unfolding documents_of since_of
to_record windows now = record {
  shortfall = sum_by shortfall_of windows;
  windows = length windows;
  jobs = sum_by LostWindow.jobs windows;
  documents = documents_of windows;
  since = since_of windows;
  assessed_at = now;
}

-- The three numbers from which `_reason` makes its sentence. A record here is never malformed.
unfoldable pub recorded_reason : Option PagesRecord → ℕ → Option (ℕ × ℕ × List String)
recorded_reason none now = none
recorded_reason (some r) now =
    if ltb (r.assessed_at + stale_after) now || (ltb r.shortfall min_shortfall || ltb r.windows 1)
    then none
    else some (r.shortfall, r.windows, r.documents)
