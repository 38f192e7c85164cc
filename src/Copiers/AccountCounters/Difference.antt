-- ===== src/Copiers/AccountCounters/Difference.antt =====
-- copiers/account_counters.py: diff_counters, counter by counter and over a sequence of readings.
use mathlib.Core.Path.{subst}
use printops.Prelude.{
  ℕ, ◌+◌, ◌-◌, ◌≤◌, String, Bool, true, false, none, some, List, [], ◌∷◌, ◌≡◌, refl, sym, ap, ◌∙◌,
  str_eq, if◌then◌else◌, any, arith, inl, inr, Bool-cases, eq_iff, branch_false, All,
}
use printops.Copiers.AccountCounters.{
  Dict, Counters, Lists, find_key, list_of, count_of, or_zero, or_empty, deltas_of, with_deltas,
  delta_lists, is_reset, goes_down, diff_counters,
}

-- Each key once.
abbrev pub HasKeysOnce : {V : Type 0} → Dict V → Type 0
HasKeysOnce [] = Unit
HasKeysOnce ((k, v) ∷ d) = (find_key k d ≡ none) × HasKeysOnce d

-- A reading: each activity once, and each counter of an activity once.
abbrev pub HasListsOnce : Lists → Type 0
HasListsOnce [] = Unit
HasListsOnce ((a, counters) ∷ lists) =
    (find_key a lists ≡ none) × (HasKeysOnce counters × HasListsOnce lists)

str_eq-same : (a b : String) → str_eq a b ≡ true → a ≡ b
str_eq-same a b h = ground (arith, eq_iff a b)

str_eq_refl : (a : String) → str_eq a a ≡ true
str_eq_refl a = ground (arith, eq_iff a a)

find_key-any :
    {V : Type 0} (p : String × V → Bool) (k : String) (d : Dict V) (v : V)
    → find_key k d ≡ some v
    → any p d ≡ false
    → p (k, v) ≡ false
unfolding find_key
find_key-any p k [] v h e = ground arith
find_key-any p k ((k', v') ∷ d) v h e = elim (Bool-cases (str_eq k' k)) [
  | inl y ↦ ground (arith, h, e, str_eq-same k' k y)
  | inr n ↦ find_key-any p k d v (sym (branch_false _ _ _ n) ∙ h) (ground arith)
]

count_of-deltas_of :
    (reset : Bool) (before : Counters) (name : String) (counters : Counters)
    → HasKeysOnce counters
    → count_of name (deltas_of reset before counters)
      ≡ count_of name counters - (if reset then 0 else count_of name before)
unfolding deltas_of count_of find_key
count_of-deltas_of reset before name [] u = ground arith
count_of-deltas_of reset before name ((k, v) ∷ counters) (once, u) =
    let ih = count_of-deltas_of reset before name counters u in
    elim (Bool-cases (str_eq k name)) [
      | inl y ↦ ground (arith, ih, once, str_eq-same k name y)
      | inr n ↦ ground (arith, ih, n)
    ]

list_of-first :
    (a b : String) (counters : Counters) (lists : Lists)
    → str_eq b a ≡ true
    → list_of a ((b, counters) ∷ lists) ≡ counters
unfolding list_of find_key
list_of-first a b counters lists y = ground arith

list_of-later :
    (a b : String) (counters : Counters) (lists : Lists)
    → str_eq b a ≡ false
    → list_of a ((b, counters) ∷ lists) ≡ list_of a lists
unfolding list_of find_key
list_of-later a b counters lists n = ground arith

list_of-absent :
    (a b : String) (lists : Lists)
    → str_eq b a ≡ true
    → find_key b lists ≡ none
    → list_of a lists ≡ []
unfolding list_of
list_of-absent a b lists y once =
    ap or_empty (subst (λ k. find_key k lists ≡ none) (str_eq-same b a y) once)

list_of-with_deltas-same :
    (a : String) (deltas : Counters) (lists : Lists)
    → list_of a lists ≡ []
    → list_of a (with_deltas a deltas lists) ≡ deltas
unfolding list_of find_key
list_of-with_deltas-same a [] lists h = h
list_of-with_deltas-same a (c ∷ deltas) lists h = ground (arith, eq_iff a a)

list_of-with_deltas-other :
    (a b : String) (deltas : Counters) (lists : Lists)
    → str_eq a b ≡ false
    → list_of b (with_deltas a deltas lists) ≡ list_of b lists
unfolding list_of find_key
list_of-with_deltas-other a b [] lists h = refl
list_of-with_deltas-other a b (c ∷ deltas) lists h = ground arith

list_of-with_deltas-head :
    (b a : String) (deltas : Counters) (lists : Lists)
    → str_eq b a ≡ true
    → list_of b lists ≡ []
    → list_of a (with_deltas b deltas lists) ≡ deltas
list_of-with_deltas-head b a deltas lists y h =
    subst (λ k. list_of k (with_deltas b deltas lists) ≡ deltas) (str_eq-same b a y)
      (list_of-with_deltas-same b deltas lists h)

list_of-delta_lists :
    (reset : Bool) (previous : Lists) (a : String) (current : Lists)
    → HasListsOnce current
    → list_of a (delta_lists reset previous current)
      ≡ deltas_of reset (list_of a previous) (list_of a current)
unfolding delta_lists deltas_of list_of find_key
list_of-delta_lists reset previous a [] u = refl
list_of-delta_lists reset previous a ((b, counters) ∷ current) (once, (v, u)) =
    elim (Bool-cases (str_eq b a)) [
      | inl y ↦
          list_of-with_deltas-head b a _ _ y (
            list_of-delta_lists reset previous b current u
            ∙ ap (deltas_of reset (list_of b previous))
                (list_of-absent b b current (str_eq_refl b) once))
          ∙ ap (λ c. deltas_of reset c counters) (ap (λ k. list_of k previous) (str_eq-same b a y))
          ∙ ap (deltas_of reset (list_of a previous)) (sym (list_of-first a b counters current y))
      | inr n ↦
          list_of-with_deltas-other b a _ _ n
          ∙ list_of-delta_lists reset previous a current u
          ∙ ap (deltas_of reset (list_of a previous)) (sym (list_of-later a b counters current n))
    ]

find_key-HasKeysOnce :
    (a : String) (lists : Lists) → HasListsOnce lists → HasKeysOnce (list_of a lists)
unfolding list_of find_key
find_key-HasKeysOnce a [] u = tt
find_key-HasKeysOnce a ((b, counters) ∷ lists) (once, (v, u)) = elim (Bool-cases (str_eq b a)) [
  | inl y ↦ subst HasKeysOnce (sym (list_of-first a b counters lists y)) v
  | inr n ↦
      subst HasKeysOnce (sym (list_of-later a b counters lists n)) (find_key-HasKeysOnce a lists u)
]

-- `counters[activity][name]`
abbrev pub shown : String → String → Lists → ℕ
shown activity name lists = count_of name (list_of activity lists)

-- A reading that has the counter.
pub record IsReported (activity name : String) (lists : Lists) : Type 0 where
  pub once : HasListsOnce lists
  pub counters : Counters
  pub value : ℕ
  pub has_activity : find_key activity lists ≡ some counters
  pub has_counter : find_key name counters ≡ some value

is_reset-le :
    (activity name : String) (previous current : Lists)
    → IsReported activity name current
    → is_reset previous current ≡ false
    → shown activity name previous ≤ shown activity name current
unfolding is_reset list_of count_of
is_reset-le activity name previous current r h =
    let down = find_key-any _ activity current r.counters r.has_activity h in
    let up =
      find_key-any (goes_down (list_of activity previous)) name r.counters r.value r.has_counter
        down in
    let e : shown activity name current ≡ r.value =
      ap (λ c. or_zero (find_key name (or_empty c))) r.has_activity ∙ ap or_zero r.has_counter in
    ground (arith, up, e)

diff_counters-shown :
    (activity name : String) (previous current : Lists)
    → IsReported activity name current
    → shown activity name (diff_counters previous current).lists + shown activity name previous
      ≡ (if is_reset previous current then shown activity name previous else 0)
        + shown activity name current
unfolding diff_counters
diff_counters-shown activity name previous current r =
    let reset = is_reset previous current in
    let e =
      ap (count_of name) (list_of-delta_lists reset previous activity current r.once)
      ∙ count_of-deltas_of reset (list_of activity previous) name (list_of activity current)
          (find_key-HasKeysOnce activity current r.once) in
    elim (Bool-cases reset) [
      | inl y ↦ ground (arith, e, y)
      | inr n ↦ ground (arith, e, n, is_reset-le activity name previous current r n)
    ]

-- Over the readings after a first one: what the differences say of a counter, what it showed when it was cleared, and the
-- last reading.
abbrev pub usage : String → String → Lists → List Lists → ℕ
usage activity name previous [] = 0
usage activity name previous (r ∷ readings) =
    shown activity name (diff_counters previous r).lists + usage activity name r readings

abbrev pub cleared : String → String → Lists → List Lists → ℕ
cleared activity name previous [] = 0
cleared activity name previous (r ∷ readings) =
    (if is_reset previous r then shown activity name previous else 0)
    + cleared activity name r readings

abbrev pub last_of : Lists → List Lists → Lists
last_of previous [] = previous
last_of previous (r ∷ readings) = last_of r readings

-- Over any readings that have a counter, the differences of the counter and its first value are its last value and what it
-- showed before each reset.
pub diff_counters-adds_up :
    (activity name : String) (previous : Lists) (readings : List Lists)
    → All (IsReported activity name) readings
    → usage activity name previous readings + shown activity name previous
      ≡ cleared activity name previous readings + shown activity name (last_of previous readings)
diff_counters-adds_up activity name previous [] a = refl
diff_counters-adds_up activity name previous (r ∷ readings) (h, a) =
    let step = diff_counters-shown activity name previous r h in
    let rest = diff_counters-adds_up activity name r readings a in omega (arith, step, rest)
