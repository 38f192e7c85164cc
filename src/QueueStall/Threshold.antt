-- ===== src/QueueStall/Threshold.antt =====
-- printers/queue_stall.py: the thresholds.
use printops.Prelude.{ℕ, ◌+◌, ◌*◌, ◌≤◌, some, arith}
use printops.QueueStall.{
  stall_threshold, max_size_grace, stall_grace_per_mb, bytes_per_mb, threshold_for, round_div,
}

round_div-monotone : (a b : ℕ) → a ≤ b → round_div a bytes_per_mb ≤ round_div b bytes_per_mb
unfolding round_div
round_div-monotone a b h = ground arith

-- A head job is given thirty minutes at least and ninety at most, and a larger one never less.
threshold_for-bounds :
    (m n : ℕ)
    → (stall_threshold ≤ threshold_for (some m))
      × (threshold_for (some m) ≤ stall_threshold + max_size_grace)
      × (m ≤ n → threshold_for (some m) ≤ threshold_for (some n))
unfolding threshold_for
threshold_for-bounds m n = (
  ground arith,
  ground arith,
  λ h.
      let r = round_div-monotone (stall_grace_per_mb * m) (stall_grace_per_mb * n) (omega arith) in
      ground arith,
)
