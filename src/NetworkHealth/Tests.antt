-- ===== src/NetworkHealth/Tests.antt =====
-- A lossy path, and the theorems at it.
use printops.Prelude.{◌≡◌, refl, true, false, none, some, List, [], ◌∷◌, ◌++◌, arith, map}
use printops.Printers.{ProbeEntry, entry, malformed}
use printops.NetworkHealth.{NetworkFlap, prune, verdict, observe}
use printops.NetworkHealth.Rolling.{Probe, entry_of, observe_all, observe_all-prune}

-- An answer, a malformed entry, and two misses.
abbrev log : List ProbeEntry
log = entry 10 true (some 400_000) ∷ malformed ∷ entry 20 false none ∷ entry 30 false none ∷ []

abbrev flap : NetworkFlap
flap = record { misses = 3; slow = 0; probes = 4 }

observe-log : (observe log false none 40).1 ≡ some flap
unfolding observe verdict
observe-log = refl

abbrev probes : List Probe
probes = (40, false, none) ∷ (3_600_000_020, true, some 2_500_000) ∷ []

observe_all-prune_example :
    prune 3_600_000_035 (observe_all log probes) ≡ prune 3_600_000_035 (log ++ map entry_of probes)
observe_all-prune_example =
    observe_all-prune 30 3_600_000_035 log probes (omega arith, (omega arith, tt)) (omega arith)
