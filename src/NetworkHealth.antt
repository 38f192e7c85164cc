-- ===== src/NetworkHealth.antt =====
-- printers/network_health.py: the loss on the path to a printer that answers.
-- Instants and durations are microseconds. The log is the JSON column of the printer's row.
pub mod Message
pub mod Evidence
pub mod Rolling
mod Tests
use printops.Prelude.{
  ℕ, ◌+◌, ◌-◌, Bool, true, false, not, ◌&&◌, ◌||◌, Option, none, some, List, [], ◌∷◌, ◌++◌, ltb,
  leb, ◌==◌, if◌then◌else◌, filter, length, any,
}
use printops.Printers.{ProbeEntry, entry, malformed}

abbrev pub window : ℕ
window = 3_600_000_000

abbrev pub miss_threshold : ℕ
miss_threshold = 3

abbrev pub min_successes : ℕ
min_successes = 1

abbrev pub slow_probe : ℕ
slow_probe = 2_000_000

abbrev pub fast_probe : ℕ
fast_probe = 1_000_000

pub record NetworkFlap : Type 0 where
  pub misses : ℕ
  pub slow : ℕ
  pub probes : ℕ

-- `flap.affected`
abbrev pub affected : NetworkFlap → ℕ
affected flap = flap.misses + flap.slow

-- `when >= cutoff`, where the cutoff is the window before `now`; a malformed entry is dropped
abbrev pub is_kept : ℕ → ProbeEntry → Bool
is_kept now (entry when answered seconds) = leb now (when + window)
is_kept now malformed = false

abbrev pub prune : ℕ → List ProbeEntry → List ProbeEntry
prune now log = filter (is_kept now) log

-- `not entry[1]`
abbrev pub is_miss : ProbeEntry → Bool
is_miss (entry when answered seconds) = not answered
is_miss malformed = false

-- `entry[1] and entry[2] is not None and entry[2] < FAST_PROBE_SECONDS`
abbrev pub is_quick : ProbeEntry → Bool
is_quick (entry when true (some seconds)) = ltb seconds fast_probe
is_quick _ = false

-- `entry[1] and entry[2] is not None and entry[2] >= SLOW_PROBE_SECONDS`
abbrev pub is_slow : ProbeEntry → Bool
is_slow (entry when true (some seconds)) = leb slow_probe seconds
is_slow _ = false

abbrev pub history_of : List ProbeEntry → Bool → Option ℕ → ℕ → List ProbeEntry
history_of log answered seconds now = prune now log ++ (entry now answered seconds ∷ [])

abbrev pub misses_of : List ProbeEntry → ℕ
misses_of history = length (filter is_miss history)

abbrev pub slow_of : List ProbeEntry → ℕ
slow_of history = if any is_quick history then length (filter is_slow history) else 0

-- What the history shows.
unfoldable pub verdict : List ProbeEntry → Option NetworkFlap
verdict history =
    if ltb (misses_of history + slow_of history) miss_threshold
      || ltb (length history - misses_of history) min_successes
    then none
    else some
        (record { misses = misses_of history; slow = slow_of history; probes = length history })

unfoldable pub observe :
    List ProbeEntry → Bool → Option ℕ → ℕ → List ProbeEntry × Option NetworkFlap
unfolding verdict
observe log answered seconds now =
    (history_of log answered seconds now, verdict (history_of log answered seconds now))
