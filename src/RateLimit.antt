-- ===== src/RateLimit.antt =====
-- core/rate_limit.py: the limiter of failed attempts.
-- Instants are microseconds of the monotonic clock. A key, the caller's address, is a number.
pub mod Log
pub mod History
mod Tests
use printops.Prelude.{
  ℕ, ◌+◌, ◌-◌, Bool, true, false, not, Option, none, some, List, [], ◌∷◌, ◌++◌, ltb, leb,
  if◌then◌else◌, filter, length, any, Table, lookup, remove, insert,
}

abbrev pub sweep_interval : ℕ
sweep_interval = 60_000_000

pub record Limiter : Type 0 where
  pub max_failures : ℕ
  pub window_seconds : ℕ
  pub failures : Table (List ℕ)
  pub last_sweep : ℕ

-- `self._failures[key]` of a defaultdict
abbrev pub or_empty : Option (List ℕ) → List ℕ
or_empty none = []
or_empty (some ats) = ats

abbrev pub failures_at : Limiter → ℕ → List ℕ
failures_at l key = or_empty (lookup key l.failures)

-- `now - at < self.window_seconds`, and `at > cutoff` in the sweep
abbrev pub is_recent : ℕ → ℕ → ℕ → Bool
is_recent window now at = ltb now (at + window)

abbrev pub has_recent : ℕ → ℕ → List ℕ → Bool
has_recent window now ats = any (is_recent window now) ats

-- `[k for k, ats in self._failures.items() if not any(…)]`
unfoldable pub expired : ℕ → ℕ → Table (List ℕ) → List ℕ
expired window now [] = []
expired window now ((key, ats) ∷ table) =
    let rest = expired window now table in if has_recent window now ats then rest else key ∷ rest

-- `del self._failures[key]` for every one of the keys
unfoldable pub delete_all : List ℕ → Table (List ℕ) → Table (List ℕ)
unfolding remove
delete_all [] table = table
delete_all (key ∷ keys) table = delete_all keys (remove key table)

unfoldable pub sweep : ℕ → Limiter → Limiter
unfolding expired delete_all
sweep now l = if ltb now (l.last_sweep + sweep_interval) then l else record l {
  last_sweep = now;
  failures = delete_all (expired l.window_seconds now l.failures) l.failures;
}

-- The failures of a key that still count, written back, or the key discarded.
unfoldable pub store_recent : ℕ → List ℕ → Limiter → Limiter
unfolding insert remove
store_recent key [] l = record l { failures = remove key l.failures }
store_recent key (at ∷ ats) l = record l { failures = insert key (at ∷ ats) l.failures }

abbrev pub recent_of : ℕ → Limiter → ℕ → List ℕ
recent_of now l key = filter (is_recent l.window_seconds now) (failures_at l key)

-- The second part is whether the call raises the 429.
unfoldable pub check : ℕ → ℕ → Limiter → Limiter × Bool
unfolding sweep store_recent lookup
check now key l =
    let s = sweep now l in
    (store_recent key (recent_of now s key) s, leb s.max_failures (length (recent_of now s key)))

unfoldable pub record_failure : ℕ → ℕ → Limiter → Limiter
unfolding insert lookup
record_failure now key l = record l {
  failures = insert key (failures_at l key ++ (now ∷ [])) l.failures;
}

unfoldable pub record_success : ℕ → Limiter → Limiter
unfolding remove
record_success key l = record l { failures = remove key l.failures }

unfoldable pub reset : ℕ → Limiter → Limiter
reset now l = record l { failures = []; last_sweep = now }

-- `tracked_keys`, of a table whose keys are different
abbrev pub tracked_keys : Limiter → ℕ
tracked_keys l = length l.failures
