-- ===== src/RateLimit/Tests.antt =====
-- Two callers of a limiter, and the theorem at them.
use printops.Prelude.{◌≡◌, List, [], ◌∷◌, arith, leb, filter, length}
use printops.RateLimit.{Limiter, is_recent, check, reset}
use printops.RateLimit.History.{
  Call, checked, failed, succeeded, perform_all, failures_logged, check-log,
}

abbrev limiter : Limiter
limiter = record { max_failures = 2; window_seconds = 300_000_000; failures = []; last_sweep = 0 }

abbrev calls : List Call
calls = failed 10 7 ∷ failed 20 9 ∷ succeeded 30 9 ∷ failed 40 7 ∷ checked 70_000_000 9 ∷ []

check-log_example :
    (check 80_000_000 7 (perform_all calls (reset 0 limiter))).1
    ≡ leb 2 (length (filter (is_recent 300_000_000 80_000_000) (failures_logged 7 calls [])))
check-log_example =
    check-log 0 80_000_000 7 limiter calls
      (omega arith, (omega arith, (omega arith, (omega arith, (omega arith, tt))))) (omega arith)
