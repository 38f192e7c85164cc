-- ===== src/QueueStall/Tests.antt =====
-- A queue that has not moved for an hour, and the theorems at it.
use printops.Prelude.{ℕ, ◌-◌, ◌≡◌, ◌≤◌, refl, String, Option, none, some, List, [], ◌∷◌}
use printops.QueueStall.{
  QueueSnapshot, threshold_for, round_div, observe_head, observe_queue, observe_snapshot,
}
use printops.QueueStall.Watch.{Poll, head_of, size_of, memory_of, SameHead, observe-SameHead}

-- A job of ten megabytes, which has forty minutes.
abbrev snapshot : Option QueueSnapshot
snapshot = some (record { depth = 2; head_job = some "q-12"; head_size_bytes = some 10_485_760 })

abbrev polls : List Poll
polls = (1_800_000_000, snapshot) ∷ (60_000_000, snapshot) ∷ (0, none) ∷ []

stalled : (observe_snapshot 3_660_000_000 snapshot (memory_of polls)).1 ≡ some 3_600_000_000
unfolding observe_snapshot observe_queue observe_head threshold_for round_div memory_of
stalled = refl

observe-SameHead_example :
    (job : String) × (since : ℕ) × (head_of snapshot ≡ some job)
    × SameHead job since polls
    × (3_600_000_000 ≡ 3_660_000_000 - since)
    × (threshold_for (size_of snapshot) ≤ 3_600_000_000)
observe-SameHead_example = observe-SameHead polls 3_660_000_000 snapshot 3_600_000_000 stalled
