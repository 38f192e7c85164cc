-- ===== src/QueueStall.antt =====
-- printers/queue_stall.py: a queue whose head job does not change.
-- Instants and durations are microseconds; a job is known by its name in the queue.
pub mod Message
pub mod Watch
pub mod Threshold
mod Tests
use printops.Prelude.{
  ℕ, ◌+◌, ◌-◌, ◌*◌, ◌/◌, ◌%◌, String, Bool, true, false, not, ◌&&◌, ◌||◌, Option, none, some, List,
  [], ◌∷◌, ltb, leb, ◌==◌, str_eq, if◌then◌else◌, min, Table, lookup, remove, insert,
}

-- job_control.QueueSnapshot
pub record QueueSnapshot : Type 0 where
  pub depth : ℕ
  pub head_job : Option String
  pub head_size_bytes : Option ℕ

abbrev pub stall_threshold : ℕ
stall_threshold = 30 * 60_000_000

abbrev pub stall_grace_per_mb : ℕ
stall_grace_per_mb = 60_000_000

abbrev pub max_size_grace : ℕ
max_size_grace = 60 * 60_000_000

abbrev pub bytes_per_mb : ℕ
bytes_per_mb = 1024 * 1024

abbrev pub size_grace_floor_bytes : ℕ
size_grace_floor_bytes = 5 * bytes_per_mb

-- A duration times a fraction, which Python rounds half to even
unfoldable pub round_div : ℕ → ℕ → ℕ
round_div a b =
    if ltb (2 * (a % b)) b
    then a / b
    else if ltb b (2 * (a % b))
    then a / b + 1
    else a / b + (a / b) % 2

-- `STALL_GRACE_PER_MB * (size_bytes / _BYTES_PER_MB)`, whose quotient a float holds exactly
abbrev pub grace_of : ℕ → ℕ
grace_of size_bytes = min (round_div (stall_grace_per_mb * size_bytes) bytes_per_mb) max_size_grace

unfoldable pub threshold_for : Option ℕ → ℕ
unfolding round_div
threshold_for none = stall_threshold
threshold_for (some size_bytes) =
    if leb size_bytes size_grace_floor_bytes
    then stall_threshold
    else stall_threshold + grace_of size_bytes

pub record HeadObservation : Type 0 where
  pub head_job : String
  pub first_seen : ℕ

abbrev pub Observations : Type 0
Observations = Table HeadObservation

-- What `observe` makes of the remembered observation, and what it returns.
unfoldable pub observe_head :
    ℕ → String → Option ℕ → Option HeadObservation → Option HeadObservation × Option ℕ
unfolding threshold_for
observe_head now head size none = (some (record { head_job = head; first_seen = now }), none)
observe_head now head size (some previous) =
    if not (str_eq previous.head_job head)
    then (some (record { head_job = head; first_seen = now }), none)
    else (
      some previous,
      if leb (threshold_for size) (now - previous.first_seen)
          then some (now - previous.first_seen)
          else none,
    )

unfoldable pub observe_queue :
    ℕ → Option String → Option ℕ → Option HeadObservation → Option HeadObservation × Option ℕ
unfolding observe_head
observe_queue now none size previous = (none, none)
observe_queue now (some head) size previous = observe_head now head size previous

unfoldable pub observe_snapshot :
    ℕ → Option QueueSnapshot → Option HeadObservation → Option HeadObservation × Option ℕ
unfolding observe_queue
observe_snapshot now none previous = (none, none)
observe_snapshot now (some snapshot) previous =
    observe_queue now snapshot.head_job snapshot.head_size_bytes previous

unfoldable pub store_observation : ℕ → Option HeadObservation → Observations → Observations
unfolding insert remove
store_observation printer_id none observations = remove printer_id observations
store_observation printer_id (some o) observations = insert printer_id o observations

unfoldable pub observe : ℕ → Option QueueSnapshot → ℕ → Observations → Observations × Option ℕ
unfolding observe_snapshot store_observation lookup
observe printer_id snapshot now observations =
    let seen = observe_snapshot now snapshot (lookup printer_id observations) in
    (store_observation printer_id seen.0 observations, seen.1)

-- `_observations.clear()`
unfoldable pub reset : Observations → Observations
reset observations = []

unfoldable pub forget : ℕ → Observations → Observations
unfolding remove
forget printer_id observations = remove printer_id observations
