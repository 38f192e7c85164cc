-- ===== src/QueueRecovery/Backoff.antt =====
-- printers/queue_recovery.py: how long the backoff of a printer is.
use native.Mathlib.Nat.{pow-le-pow_right}
use printops.Prelude.{ℕ, ◌^◌, ◌≤◌, arith, min}
use printops.QueueRecovery.{backoff, resume_cooldown, max_resume_backoff}

pub two_pow : (m n : ℕ) → m ≤ n → 2 ^ m ≤ 2 ^ n
two_pow m n h = pow-le-pow_right (omega arith) h

-- The backoff lies between the cooldown and its cap, and more failures never make it shorter.
pub backoff-bounds :
    (m n : ℕ)
    → (resume_cooldown ≤ backoff m)
      × (backoff m ≤ max_resume_backoff)
      × (m ≤ n → backoff m ≤ backoff n)
unfolding backoff
backoff-bounds m n =
    let pm = two_pow 0 (min m 16) (omega arith) in
    (
      ground arith,
      ground arith,
      λ h.
          let p = two_pow (min m 16) (min n 16) (omega arith) in
          let pn = two_pow 0 (min n 16) (omega arith) in ground arith,
    )
