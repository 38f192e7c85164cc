-- ===== src/QueueRecovery/Tests.antt =====
-- A copier that goes away and comes back, and the theorems at it.
use printops.Prelude.{
  ℕ, ◌+◌, ◌≡◌, ◌≤◌, ◌⊎◌, any, refl, true, false, Option, none, some, List, [], ◌∷◌, arith,
}
use printops.QueueRecovery.{
  Attempt, seconds, resume_cooldown, is_due, still_stopped, device_away, back_since, device_back,
  started,
}
use printops.MediaOptions.{is_space}
use printops.QueueRecovery.Lpstat.{
  LocalQueueState, parse, parse_lines, parse_line, starts_with, contains, strip_left, strip_right,
}
use printops.QueueRecovery.Spacing.{
  Poll, seen_stopped, seen_away, seen_online, is_running, poll, polls, is_due-spaced,
}

-- The device is away at a minute, back at two, and still online at eight.
abbrev flapping : List Poll
flapping =
    seen_stopped (seconds 60)
    ∷ seen_away (seconds 60)
    ∷ seen_online (seconds 120)
    ∷ seen_online (seconds 480)
    ∷ []

failed_twice : Option Attempt
failed_twice = some (record {
  last_attempt = 0;
  failures = 2;
  awaiting_verdict = false;
  device_was_away = false;
  online_since = none;
})

-- With three failures the backoff would be forty minutes; the return of the device drops it.
flapping_due : is_due (polls flapping (some (started 0 failed_twice))) (seconds 480) ≡ true
unfolding failed_twice is_due polls poll still_stopped device_away device_back back_since started
flapping_due = refl

is_due-spaced_example : (0 + resume_cooldown ≤ seconds 480) ⊎ (any is_running flapping ≡ true)
is_due-spaced_example =
    is_due-spaced 0 (seconds 480) failed_twice flapping
      (omega arith, (omega arith, (omega arith, (omega arith, tt)))) (omega arith) flapping_due

-- "printer q disabled since x", "  jam" and "printer r is idle."
abbrev output : List (List ℕ)
output =
    (112 ∷ 114 ∷ 105 ∷ 110 ∷ 116 ∷ 101 ∷ 114 ∷ 32 ∷ 113 ∷ 32 ∷ 100 ∷ 105 ∷ 115 ∷ 97 ∷ 98 ∷ 108 ∷ 101
      ∷ 100 ∷ 32 ∷ 115 ∷ 105 ∷ 110 ∷ 99 ∷ 101 ∷ 32 ∷ 120 ∷ [])
    ∷ (32 ∷ 32 ∷ 106 ∷ 97 ∷ 109 ∷ [])
    ∷ (112 ∷ 114 ∷ 105 ∷ 110 ∷ 116 ∷ 101 ∷ 114 ∷ 32 ∷ 114 ∷ 32 ∷ 105 ∷ 115 ∷ 32 ∷ 105 ∷ 100 ∷ 108
        ∷ 101 ∷ 46 ∷ [])
    ∷ []

-- "jam"
abbrev jammed : LocalQueueState
jammed = record { stopped = true; message = some (106 ∷ 97 ∷ 109 ∷ []) }

output-jammed : parse output ≡ some jammed
unfolding parse parse_lines parse_line starts_with contains strip_left strip_right is_space
output-jammed = refl
