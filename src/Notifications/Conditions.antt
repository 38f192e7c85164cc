-- ===== src/Notifications/Conditions.antt =====
-- notifications/conditions.py: which observations of a condition become events.
-- The rows of the two tables are lists. A call reads the row of its key first and writes later:
-- `observe_seen` takes what was read, so that another session may have written in between, and
-- `observe` is the call that nothing interrupts.
pub mod Once
pub mod Raising
pub mod Clearing
mod Tests
use printops.Prelude.{
  ℕ, zero, suc, ◌+◌, ◌*◌, max, String, ◌≡◌, Bool, true, false, not, ◌&&◌, Option, none, some, List,
  [], ◌∷◌, ◌++◌, map, ltb, if◌then◌else◌, find, filter, any, is_none,
}
use printops.Text.{Text, text_eq}

pub data Kind : Type 0 where
  printer_attention printer_error toner_low quota_exceeded : Kind

pub data Severity : Type 0 where
  info warning : Severity

pub record Settings : Type 0 where
  pub enabled : Bool
  pub settle_minutes : ℕ
  pub notify_printer_attention : Bool
  pub notify_printer_error : Bool
  pub notify_toner_low : Bool
  pub notify_quota_exceeded : Bool

pub record State : Type 0 where
  pub dedupe_key : Text
  pub kind : Kind
  pub subject_type : Option String
  pub subject_id : Option Text
  pub first_seen_at : ℕ
  pub last_seen_at : ℕ
  pub notified_at : Option ℕ

pub record Event : Type 0 where
  pub kind : Kind
  pub dedupe_key : Text
  pub subject_type : Option String
  pub subject_id : Option Text
  pub title : Text
  pub body : Text
  pub severity : Severity
  pub created_at : ℕ
  pub delivered_at : Option ℕ
  pub attempts : ℕ
  pub next_attempt_at : Option ℕ
  pub last_error : Option Text

pub record Db : Type 0 where
  pub states : List State
  pub events : List Event

-- The keyword arguments of one call.
pub record Observation : Type 0 where
  pub kind : Kind
  pub dedupe_key : Text
  pub title : Text
  pub body : Text
  pub subject_type : Option String
  pub subject_id : Option Text
  pub severity : Severity
  pub raise_immediately : Bool

-- `getattr(settings, ENABLED_FLAG[kind], False)`
unfoldable pub enabled_flag : Settings → Kind → Bool
enabled_flag s printer_attention = s.notify_printer_attention
enabled_flag s printer_error = s.notify_printer_error
enabled_flag s toner_low = s.notify_toner_low
enabled_flag s quota_exceeded = s.notify_quota_exceeded

unfoldable pub kind_enabled : Option Settings → Kind → Bool
unfolding enabled_flag
kind_enabled none kind = false
kind_enabled (some s) kind = if not s.enabled then false else enabled_flag s kind

abbrev pub has_key : Text → State → Bool
has_key k s = text_eq s.dedupe_key k

-- A row that the compare-and-set of `observe` matches.
abbrev pub is_open : Text → State → Bool
is_open k s = has_key k s && is_none s.notified_at

-- `select(NotificationState).where(dedupe_key == k)`
unfoldable pub select_state : Text → List State → Option State
select_state k states = find (has_key k) states

-- The insert: `none` is the IntegrityError of the unique index.
unfoldable pub insert_state : State → List State → Option (List State)
insert_state s states = if any (has_key s.dedupe_key) states then none else some (states ++ s ∷ [])

unfoldable pub touch : Text → ℕ → List State → List State
touch k now states = map (λ s. if has_key k s then record s { last_seen_at = now } else s) states

-- The compare-and-set, and whether its row count is not 0.
unfoldable pub claim : Text → ℕ → List State → List State × Bool
claim k now states = (
  map (λ s. if is_open k s then record s { notified_at = some now; last_seen_at = now } else s)
      states,
  any (is_open k) states,
)

abbrev pub minutes : ℕ → ℕ
minutes m = m * 60_000_000

abbrev pub settle_of : Option Settings → ℕ
settle_of none = minutes 0
settle_of (some s) = minutes (max 0 s.settle_minutes)

unfoldable pub new_state : Option Settings → Observation → ℕ → State
new_state settings o now = record {
  dedupe_key = o.dedupe_key;
  kind = o.kind;
  subject_type = o.subject_type;
  subject_id = o.subject_id;
  first_seen_at = now;
  last_seen_at = now;
  notified_at = if kind_enabled settings o.kind then none else some now;
}

unfoldable pub new_event : Observation → ℕ → Event
new_event o now = record {
  kind = o.kind;
  dedupe_key = o.dedupe_key;
  subject_type = o.subject_type;
  subject_id = o.subject_id;
  title = o.title;
  body = o.body;
  severity = o.severity;
  created_at = now;
  delivered_at = none;
  attempts = 0;
  next_attempt_at = some now;
  last_error = none;
}

-- From the compare-and-set to the end.
unfoldable pub raise_event : Observation → ℕ → Db → Db × Option Event
unfolding claim new_event
raise_event o now db =
    let (states, claimed) = claim o.dedupe_key now db.states in
    if not claimed then (record db { states = states }, none) else (
      record { states = states; events = db.events ++ new_event o now ∷ [] },
      some (new_event o now),
    )

-- From `state.last_seen_at = now`, with the row as it was read.
unfoldable pub observe_row : Option Settings → Observation → ℕ → State → Db → Db × Option Event
unfolding touch kind_enabled
observe_row settings o now state db =
    let db' : Db = record db { states = touch o.dedupe_key now db.states } in
    if not (is_none state.notified_at)
    then (db', none)
    else if not (kind_enabled settings o.kind)
    then (db', none)
    else if not o.raise_immediately && ltb now (state.first_seen_at + settle_of settings)
    then (db', none)
    else raise_event o now db'

-- What follows the insert: `none` is the IntegrityError, which ends the pass.
unfoldable pub observe_inserted :
    Option Settings → Observation → ℕ → Db → Option (List State) → Db × Option Event
unfolding observe_row
observe_inserted settings o now db none = (db, none)
observe_inserted settings o now db (some states) =
    if not o.raise_immediately
    then (record db { states = states }, none)
    else observe_row settings o now (new_state settings o now) (record db { states = states })

-- The branch without a row.
unfoldable pub observe_new : Option Settings → Observation → ℕ → Db → Db × Option Event
unfolding observe_inserted
observe_new settings o now db =
    observe_inserted settings o now db (insert_state (new_state settings o now) db.states)

unfoldable pub observe_seen :
    Option Settings → Observation → ℕ → Option State → Db → Db × Option Event
unfolding observe_new observe_row
observe_seen settings o now none db = observe_new settings o now db
observe_seen settings o now (some state) db = observe_row settings o now state db

unfoldable pub observe : Option Settings → Observation → ℕ → Db → Db × Option Event
unfolding observe_seen select_state
observe settings o now db = observe_seen settings o now (select_state o.dedupe_key db.states) db

unfoldable pub clear : Text → Db → Db
clear k db = record db { states = filter (λ s. not (has_key k s)) db.states }

-- `like` is the database's `LIKE`, with the prefix and its `%`.
unfoldable pub clear_missing : (like : Text → Text → Bool) → Text → List Text → Db → Db
clear_missing like prefix still_true db = record db {
  states =
      filter (λ s. not (like prefix s.dedupe_key && not (any (text_eq s.dedupe_key) still_true)))
        db.states;
}
