-- ===== src/RateLimit/History.antt =====
-- core/rate_limit.py: the limiter against the log of what its callers did.
use mathlib.Core.Path.{subst}
use printops.Prelude.{
  ℕ, ◌≤◌, ◌≡◌, refl, sym, ap, ◌∙◌, true, List, [], ◌∷◌, ◌++◌, arith, leb, ◌==◌, if◌then◌else◌,
  filter, length, lookup, lookup-remove, lookup-insert, filter-append, Bool-cases, inl, inr,
}
use printops.RateLimit.{
  Limiter, failures_at, is_recent, sweep, recent_of, check, record_failure, record_success, reset,
}
use printops.RateLimit.Log.{
  IsUnique, insert-IsUnique, remove-IsUnique, counted, sweep-counted, sweep-IsUnique,
  sweep-settings, store-counted, store-IsUnique, store-settings,
}

-- What happens to a limiter: an attempt is admitted or refused, and fails or succeeds.
pub data Call : Type 0 where
  checked : ℕ → ℕ → Call
  failed : ℕ → ℕ → Call
  succeeded : ℕ → ℕ → Call

abbrev pub time_of : Call → ℕ
time_of (checked t key) = t
time_of (failed t key) = t
time_of (succeeded t key) = t

unfoldable pub perform : Call → Limiter → Limiter
unfolding check record_failure record_success
perform (checked t key) l = (check t key l).0
perform (failed t key) l = record_failure t key l
perform (succeeded t key) l = record_success key l

unfoldable pub perform_all : List Call → Limiter → Limiter
unfolding perform
perform_all [] l = l
perform_all (c ∷ calls) l = perform_all calls (perform c l)

-- The failures of a key since its last success, by the log alone.
abbrev pub logged : ℕ → Call → List ℕ → List ℕ
logged k (checked t key) ats = ats
logged k (failed t key) ats = if key == k then ats ++ (t ∷ []) else ats
logged k (succeeded t key) ats = if key == k then [] else ats

unfoldable pub failures_logged : ℕ → List Call → List ℕ → List ℕ
failures_logged k [] ats = ats
failures_logged k (c ∷ calls) ats = failures_logged k calls (logged k c ats)

abbrev pub InOrder : ℕ → List Call → Type 0
InOrder t [] = Unit
InOrder t (c ∷ calls) = (t ≤ time_of c) × InOrder (time_of c) calls

abbrev pub end_of : ℕ → List Call → ℕ
end_of t [] = t
end_of t (c ∷ calls) = end_of (time_of c) calls

-- The limiter and the log agree on the failures of every key that count at `t` or later.
record Agrees (w most t : ℕ) (l : Limiter) (log : ℕ → List ℕ) : Type 0 where
  settings : (l.window_seconds ≡ w) × (l.max_failures ≡ most)
  unique : IsUnique l.failures
  same : (k u : ℕ) → t ≤ u → counted u l k ≡ filter (is_recent l.window_seconds u) (log k)

check-counted :
    (t u key k : ℕ) (l : Limiter)
    → IsUnique l.failures
    → t ≤ u
    → counted u (check t key l).0 k ≡ counted u l k
unfolding check
check-counted t u key k l h le =
    store-counted t u key k (recent_of t (sweep t l) key) (sweep t l) le refl
    ∙ sweep-counted t u k l h le

check-settings :
    (t key : ℕ) (l : Limiter)
    → ((check t key l).0.window_seconds ≡ l.window_seconds)
      × ((check t key l).0.max_failures ≡ l.max_failures)
unfolding check
check-settings t key l =
    let a = store-settings key (recent_of t (sweep t l) key) (sweep t l) in
    let b = sweep-settings t l in (a.0 ∙ b.0, a.1 ∙ b.1)

check-IsUnique :
    (t key : ℕ) (l : Limiter) → IsUnique l.failures → IsUnique (check t key l).0.failures
unfolding check
check-IsUnique t key l h =
    store-IsUnique key (recent_of t (sweep t l) key) (sweep t l) (sweep-IsUnique t l h)

one_more :
    (l : Limiter) (log : ℕ → List ℕ) (s key k u : ℕ)
    → (key == k) ≡ true
    → counted u l k ≡ filter (is_recent l.window_seconds u) (log k)
    → filter (is_recent l.window_seconds u) (failures_at l key ++ (s ∷ []))
      ≡ filter (is_recent l.window_seconds u) (log k ++ (s ∷ []))
one_more l log s key k u e h =
    let same : key ≡ k = ground arith in
    subst
      (λ j.
        filter (is_recent l.window_seconds u) (failures_at l j ++ (s ∷ []))
        ≡ filter (is_recent l.window_seconds u) (log k ++ (s ∷ [])))
      (sym same)
      (filter-append (is_recent l.window_seconds u) (failures_at l k) (s ∷ [])
        ∙ ap (λ xs. xs ++ filter (is_recent l.window_seconds u) (s ∷ [])) h
        ∙ sym (filter-append (is_recent l.window_seconds u) (log k) (s ∷ [])))

perform-Agrees :
    (w most t : ℕ) (c : Call) (l : Limiter) (log : ℕ → List ℕ)
    → t ≤ time_of c
    → Agrees w most t l log
    → Agrees w most (time_of c) (perform c l) (λ k. logged k c (log k))
unfolding perform record_failure record_success
perform-Agrees w most t (checked s key) l log le a = record {
  settings = ((check-settings s key l).0 ∙ a.settings.0, (check-settings s key l).1 ∙ a.settings.1);
  unique = check-IsUnique s key l a.unique;
  same = λ k u h.
      check-counted s u key k l a.unique h
      ∙ a.same k u (omega (arith, le, h))
      ∙ ap (λ v. filter (is_recent v u) (log k)) (sym (check-settings s key l).0);
}
perform-Agrees w most t (failed s key) l log le a = record {
  settings = a.settings;
  unique = insert-IsUnique key (failures_at l key ++ (s ∷ [])) l.failures a.unique;
  same = λ k u h. elim (Bool-cases (key == k)) [
    | inl e ↦
        rw (lookup-insert key k (failures_at l key ++ (s ∷ [])) l.failures, e)
          (one_more l log s key k u e (a.same k u (omega (arith, le, h))))
    | inr e ↦
        rw (lookup-insert key k (failures_at l key ++ (s ∷ [])) l.failures, e)
          (a.same k u (omega (arith, le, h)))
  ];
}
perform-Agrees w most t (succeeded s key) l log le a = record {
  settings = a.settings;
  unique = remove-IsUnique key l.failures a.unique;
  same = λ k u h. elim (Bool-cases (key == k)) [
    | inl e ↦ rw (lookup-remove key k l.failures, e)
    | inr e ↦ rw (lookup-remove key k l.failures, e) (a.same k u (omega (arith, le, h)))
  ];
}

perform_all-Agrees :
    (w most t : ℕ) (calls : List Call) (l : Limiter) (log : ℕ → List ℕ)
    → InOrder t calls
    → Agrees w most t l log
    → Agrees w most (end_of t calls) (perform_all calls l) (λ k. failures_logged k calls (log k))
unfolding perform_all failures_logged
perform_all-Agrees w most t [] l log o a = a
perform_all-Agrees w most t (c ∷ calls) l log o a =
    perform_all-Agrees w most (time_of c) calls (perform c l) (λ k. logged k c (log k)) o.1
      (perform-Agrees w most t c l log o.0 a)

reset-Agrees :
    (t : ℕ) (l : Limiter) → Agrees l.window_seconds l.max_failures t (reset t l) (λ k. [])
unfolding reset IsUnique lookup
reset-Agrees t l = record { settings = (refl, refl); unique = tt; same = λ k u h. refl }

check-refusal :
    (w most t now key : ℕ) (l : Limiter) (log : ℕ → List ℕ)
    → t ≤ now
    → Agrees w most t l log
    → (check now key l).1 ≡ leb most (length (filter (is_recent w now) (log key)))
unfolding check
check-refusal w most t now key l log le a =
    ap (λ n. leb n (length (recent_of now (sweep now l) key)))
      ((sweep-settings now l).1 ∙ a.settings.1)
    ∙ ap (λ xs. leb most (length xs))
        (sweep-counted now now key l a.unique (omega arith)
          ∙ a.same key now le
          ∙ ap (λ v. filter (is_recent v now) (log key)) a.settings.0)

-- The limiter forgets nothing that counts, and keeps nothing that does not: after any calls in the
-- order of time, by any callers, sweeps included, an attempt is refused exactly when the log shows
-- for its key as many failures as are allowed, since its last success and within the window.
pub check-log :
    (t now key : ℕ) (l : Limiter) (calls : List Call)
    → InOrder t calls
    → end_of t calls ≤ now
    → (check now key (perform_all calls (reset t l))).1
      ≡ leb l.max_failures
          (length (filter (is_recent l.window_seconds now) (failures_logged key calls [])))
check-log t now key l calls o le =
    check-refusal l.window_seconds l.max_failures (end_of t calls) now key
      (perform_all calls (reset t l)) (λ k. failures_logged k calls []) le
      (perform_all-Agrees l.window_seconds l.max_failures t calls (reset t l) (λ k. []) o
        (reset-Agrees t l))
