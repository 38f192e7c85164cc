-- ===== src/NetworkHealth/Evidence.antt =====
-- printers/network_health.py: what a reported flap has seen.
use printops.Prelude.{
  ℕ, ◌+◌, ◌≤◌, ◌<◌, ◌≡◌, Bool, true, false, Option, none, some, List, [], ◌∷◌, arith, if◌then◌else◌,
  filter, length, any,
}
use printops.Printers.{ProbeEntry, entry, malformed}
use printops.NetworkHealth.{
  NetworkFlap, affected, is_miss, is_quick, is_slow, verdict, observe, history_of, miss_threshold,
}

misses-slow-le :
    (h : List ProbeEntry)
    → length (filter is_miss h) + length (filter is_slow h) + (if any is_quick h then 1 else 0)
      ≤ length h
misses-slow-le [] = omega arith
misses-slow-le (malformed ∷ h) = ground (arith, misses-slow-le h)
misses-slow-le (entry t false s ∷ h) = ground (arith, misses-slow-le h)
misses-slow-le (entry t true none ∷ h) = ground (arith, misses-slow-le h)
misses-slow-le (entry t true (some s) ∷ h) = ground (arith, misses-slow-le h)

verdict-flap :
    (h : List ProbeEntry) (flap : NetworkFlap)
    → verdict h ≡ some flap
    → (miss_threshold ≤ affected flap) × (affected flap < flap.probes) × (flap.probes ≡ length h)
unfolding verdict
verdict-flap h flap e = ground (arith, misses-slow-le h, e)

-- A flap is reported of a printer that also answers: it has three probes or more that ran into
-- the fault, and some probe of the hour did not, so that the loss is never the whole.
observe-flap :
    (log : List ProbeEntry) (answered : Bool) (seconds : Option ℕ) (now : ℕ) (flap : NetworkFlap)
    → (observe log answered seconds now).1 ≡ some flap
    → (miss_threshold ≤ affected flap)
      × (affected flap < flap.probes)
      × (flap.probes ≡ length (observe log answered seconds now).0)
unfolding observe
observe-flap log answered seconds now flap e =
    verdict-flap (history_of log answered seconds now) flap e
