-- ===== src/RateLimit/Log.antt =====
-- core/rate_limit.py: the limiter against the log of what its callers did.
use mathlib.Core.Path.{subst}
use printops.Prelude.{
  ℕ, ◌+◌, ◌≤◌, ◌≡◌, refl, Bool, true, false, none, some, List, [], ◌∷◌, arith, ltb, ◌==◌,
  if◌then◌else◌, filter, any, Table, lookup, remove, insert, lookup-remove, lookup-insert,
  Bool-cases, inl, inr,
}
use printops.RateLimit.{
  Limiter, or_empty, failures_at, is_recent, has_recent, expired, delete_all, sweep, store_recent,
  recent_of, sweep_interval,
}

-- Every key stands once in the table.
unfoldable pub IsUnique : Table (List ℕ) → Type 0
IsUnique [] = Unit
IsUnique ((key, ats) ∷ table) = (lookup key table ≡ none) × IsUnique table

pub remove-IsUnique : (k : ℕ) (m : Table (List ℕ)) → IsUnique m → IsUnique (remove k m)
unfolding IsUnique remove
remove-IsUnique k [] h = tt
remove-IsUnique k ((j, v) ∷ m) h = elim (Bool-cases (j == k)) [
  | inl e ↦ rw e (remove-IsUnique k m h.1)
  | inr e ↦ rw e (absent, remove-IsUnique k m h.1)
]
  where
    absent : lookup j (remove k m) ≡ none
    absent = rw (lookup-remove k j m, h.0) (ground arith)

pub insert-IsUnique :
    (k : ℕ) (v : List ℕ) (m : Table (List ℕ)) → IsUnique m → IsUnique (insert k v m)
unfolding IsUnique insert
insert-IsUnique k v m h = (rw lookup-remove (ground arith), remove-IsUnique k m h)

delete_all-IsUnique : (ks : List ℕ) (m : Table (List ℕ)) → IsUnique m → IsUnique (delete_all ks m)
unfolding delete_all
delete_all-IsUnique [] m h = h
delete_all-IsUnique (k ∷ ks) m h = delete_all-IsUnique ks (remove k m) (remove-IsUnique k m h)

abbrev member : ℕ → List ℕ → Bool
member k ks = any (λ j. j == k) ks

lookup-delete_all :
    (ks : List ℕ) (k : ℕ) (m : Table (List ℕ))
    → lookup k (delete_all ks m) ≡ (if member k ks then none else lookup k m)
unfolding delete_all
lookup-delete_all [] k m = refl
lookup-delete_all (j ∷ ks) k m =
    ground (arith, lookup-delete_all ks k (remove j m), lookup-remove j k m)

key_clash :
    (j k : ℕ) (m : Table (List ℕ)) (ats : List ℕ)
    → (j == k) ≡ true
    → lookup j m ≡ none
    → lookup k m ≡ some ats
    → ⊥
key_clash j k m ats same h found = let e : j ≡ k = ground arith in cc (e, h, found)

-- A key that the sweep deletes has no failure that counts.
expired-lookup :
    (w now k : ℕ) (m : Table (List ℕ))
    → IsUnique m
    → member k (expired w now m) ≡ true
    → (ats : List ℕ) × (lookup k m ≡ some ats) × (has_recent w now ats ≡ false)
unfolding IsUnique expired lookup
expired-lookup w now k [] h e = ground arith
expired-lookup w now k ((j, v) ∷ m) h e = elim (Bool-cases (j == k)) [
  | inl same ↦ elim (Bool-cases (has_recent w now v)) [
    | inl r ↦
        let (ats, found, old) = expired-lookup w now k m h.1 (rw r at e) in
        absurd (key_clash j k m ats same h.0 found)
    | inr r ↦ (v, rw same, r)
  ]
  | inr other ↦ elim (Bool-cases (has_recent w now v)) [
    | inl r ↦ rw other (expired-lookup w now k m h.1 (rw r at e))
    | inr r ↦ rw other (expired-lookup w now k m h.1 (rw other at (rw r at e)))
  ]
]

-- Failures that have aged out stay so.
filter-old :
    (w now u : ℕ) (ats : List ℕ)
    → now ≤ u
    → has_recent w now ats ≡ false
    → filter (is_recent w u) ats ≡ []
filter-old w now u [] l h = refl
filter-old w now u (at ∷ ats) l h = ground (arith, filter-old w now u ats l)

filter-filter :
    (w now u : ℕ) (ats : List ℕ)
    → now ≤ u
    → filter (is_recent w u) (filter (is_recent w now) ats) ≡ filter (is_recent w u) ats
filter-filter w now u [] l = refl
filter-filter w now u (at ∷ ats) l = ground (arith, filter-filter w now u ats l)

module _ (w now : ℕ) (m : Table (List ℕ)) (unique : IsUnique m) where
  -- Deleting the expired keys changes no failure that counts, now or later.
  delete_expired :
      (k u : ℕ)
      → now ≤ u
      → filter (is_recent w u) (or_empty (lookup k (delete_all (expired w now m) m)))
        ≡ filter (is_recent w u) (or_empty (lookup k m))
  delete_expired k u l = elim (Bool-cases (member k (expired w now m))) [
    | inl e ↦
        let (ats, found, old) = expired-lookup w now k m unique e in
        rw (lookup-delete_all (expired w now m) k m, e, found, filter-old w now u ats l old)
    | inr e ↦ rw (lookup-delete_all (expired w now m) k m, e)
  ]

-- What the limiter keeps of a key, as far as it counts at `u`.
abbrev pub counted : ℕ → Limiter → ℕ → List ℕ
counted u l k = filter (is_recent l.window_seconds u) (failures_at l k)

pub sweep-counted :
    (now u k : ℕ) (l : Limiter)
    → IsUnique l.failures
    → now ≤ u
    → counted u (sweep now l) k ≡ counted u l k
unfolding sweep
sweep-counted now u k l h le = elim (Bool-cases (ltb now (l.last_sweep + sweep_interval))) [
  | inl e ↦ rw e
  | inr e ↦ rw e (delete_expired l.window_seconds now l.failures h k u le)
]

pub sweep-IsUnique : (now : ℕ) (l : Limiter) → IsUnique l.failures → IsUnique (sweep now l).failures
unfolding sweep
sweep-IsUnique now l h = elim (Bool-cases (ltb now (l.last_sweep + sweep_interval))) [
  | inl e ↦ rw e h
  | inr e ↦ rw e (delete_all-IsUnique (expired l.window_seconds now l.failures) l.failures h)
]

pub sweep-settings :
    (now : ℕ) (l : Limiter)
    → ((sweep now l).window_seconds ≡ l.window_seconds)
      × ((sweep now l).max_failures ≡ l.max_failures)
unfolding sweep
sweep-settings now l = elim (Bool-cases (ltb now (l.last_sweep + sweep_interval))) [
  | inl e ↦ rw e (refl, refl)
  | inr e ↦ rw e (refl, refl)
]

aged :
    (w now u key k : ℕ) (fs : Table (List ℕ)) (ats : List ℕ)
    → now ≤ u
    → (key == k) ≡ true
    → ats ≡ filter (is_recent w now) (or_empty (lookup key fs))
    → filter (is_recent w u) ats ≡ filter (is_recent w u) (or_empty (lookup k fs))
aged w now u key k fs ats le same e =
    let h : key ≡ k = ground arith in
    subst (λ j. filter (is_recent w u) ats ≡ filter (is_recent w u) (or_empty (lookup j fs))) h
      (rw e (filter-filter w now u (or_empty (lookup key fs)) le))

pub store-counted :
    (now u key k : ℕ) (ats : List ℕ) (l : Limiter)
    → now ≤ u
    → ats ≡ recent_of now l key
    → counted u (store_recent key ats l) k ≡ counted u l k
unfolding store_recent
store-counted now u key k [] l le e = elim (Bool-cases (key == k)) [
  | inl same ↦
      rw (lookup-remove key k l.failures, same)
        (aged l.window_seconds now u key k l.failures [] le same e)
  | inr other ↦ rw (lookup-remove key k l.failures, other)
]
store-counted now u key k (at ∷ ats) l le e = elim (Bool-cases (key == k)) [
  | inl same ↦
      rw (lookup-insert key k (at ∷ ats) l.failures, same)
        (aged l.window_seconds now u key k l.failures (at ∷ ats) le same e)
  | inr other ↦ rw (lookup-insert key k (at ∷ ats) l.failures, other)
]

pub store-IsUnique :
    (key : ℕ) (ats : List ℕ) (l : Limiter)
    → IsUnique l.failures
    → IsUnique (store_recent key ats l).failures
unfolding store_recent
store-IsUnique key [] l h = remove-IsUnique key l.failures h
store-IsUnique key (at ∷ ats) l h = insert-IsUnique key (at ∷ ats) l.failures h

pub store-settings :
    (key : ℕ) (ats : List ℕ) (l : Limiter)
    → ((store_recent key ats l).window_seconds ≡ l.window_seconds)
      × ((store_recent key ats l).max_failures ≡ l.max_failures)
unfolding store_recent
store-settings key [] l = (refl, refl)
store-settings key (at ∷ ats) l = (refl, refl)
