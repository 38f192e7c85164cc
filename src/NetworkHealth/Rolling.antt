-- ===== src/NetworkHealth/Rolling.antt =====
-- printers/network_health.py: the log over the polls of a printer.
use printops.Prelude.{
  ℕ, ◌≤◌, ◌≡◌, refl, sym, ◌∙◌, ap, Bool, Option, List, [], ◌∷◌, ◌++◌, arith, map, filter-append,
}
use printops.Printers.{ProbeEntry, entry, malformed}
use printops.NetworkHealth.{is_kept, prune, observe, history_of}

-- One probe: when it was made, whether it was answered, and its duration.
abbrev pub Probe : Type 0
Probe = ℕ × Bool × Option ℕ

abbrev pub entry_of : Probe → ProbeEntry
entry_of (t, answered, seconds) = entry t answered seconds

-- The log after the polls of a printer, one after the other.
unfoldable pub observe_all : List ProbeEntry → List Probe → List ProbeEntry
unfolding observe
observe_all log [] = log
observe_all log ((t, answered, seconds) ∷ probes) =
    observe_all (observe log answered seconds t).0 probes

abbrev pub InOrder : ℕ → List Probe → Type 0
InOrder t [] = Unit
InOrder t (p ∷ ps) = (t ≤ p.0) × InOrder p.0 ps

abbrev pub end_of : ℕ → List Probe → ℕ
end_of t [] = t
end_of t (p ∷ ps) = end_of p.0 ps

prune-prune : (s t : ℕ) (log : List ProbeEntry) → s ≤ t → prune t (prune s log) ≡ prune t log
prune-prune s t [] h = refl
prune-prune s t (malformed ∷ log) h = prune-prune s t log h
prune-prune s t (entry u a d ∷ log) h = ground (arith, prune-prune s t log h)

end-le : (t : ℕ) (ps : List Probe) → InOrder t ps → t ≤ end_of t ps
end-le t [] o = omega arith
end-le t (p ∷ ps) o = omega (arith, o.0, end-le p.0 ps o.1)

append_nil : (log : List ProbeEntry) → log ++ [] ≡ log
append_nil [] = refl
append_nil (e ∷ log) = ap (λ l. e ∷ l) (append_nil log)

append_one :
    (xs : List ProbeEntry) (e : ProbeEntry) (zs : List ProbeEntry)
    → (xs ++ (e ∷ [])) ++ zs ≡ xs ++ (e ∷ zs)
append_one [] e zs = refl
append_one (x ∷ xs) e zs = ap (λ l. x ∷ l) (append_one xs e zs)

-- Entries that the log has lost are of no use at any later instant: the log kept poll by poll shows
-- at its end, and later, what a log of all the probes ever made would show.
pub observe_all-prune :
    (t now : ℕ) (log : List ProbeEntry) (probes : List Probe)
    → InOrder t probes
    → end_of t probes ≤ now
    → prune now (observe_all log probes) ≡ prune now (log ++ map entry_of probes)
unfolding observe_all observe
observe_all-prune t now log [] o l = ap (prune now) (sym (append_nil log))
observe_all-prune t now log ((u, a, d) ∷ probes) o l =
    let e = entry u a d in
    let later = map entry_of probes in
    observe_all-prune u now (history_of log a d u) probes o.1 l
    ∙ ap (prune now) (append_one (prune u log) e later)
    ∙ filter-append (is_kept now) (prune u log) (e ∷ later)
    ∙ ap (λ xs. xs ++ prune now (e ∷ later))
        (prune-prune u now log (omega (arith, end-le u probes o.1, l)))
    ∙ sym (filter-append (is_kept now) log (e ∷ later))
