-- ===== src/Copiers/AccountCounters.antt =====
-- copiers/account_counters.py: the usage in a copier's counters of its accounts.
-- A dictionary of counters is the list of its entries. A counter that is lower than before makes the
-- whole reading a reset, so that no difference is taken of a greater number from a smaller one.
pub mod Usage
pub mod Poll
pub mod Difference
pub mod Current
use printops.Prelude.{
  ℕ, ◌+◌, ◌-◌, String, Bool, true, false, not, ◌&&◌, ◌||◌, Option, none, some, List, [], ◌∷◌, ltb,
  ◌==◌, str_eq, if◌then◌else◌, any, all, length, sum_by, ends_with,
}

abbrev pub Dict {ℓ} : Type ℓ → Type ℓ
Dict V = List (String × V)

abbrev pub Counters : Type 0
Counters = Dict ℕ

-- By the activity.
abbrev pub Lists : Type 0
Lists = Dict Counters

-- `counters.get(name)`
unfoldable pub find_key {ℓ} : {V : Type ℓ} → String → Dict V → Option V
find_key key [] = none
find_key key ((k, v) ∷ d) = if str_eq k key then some v else find_key key d

abbrev pub or_zero : Option ℕ → ℕ
or_zero none = 0
or_zero (some n) = n

abbrev pub or_empty : Option Counters → Counters
or_empty none = []
or_empty (some c) = c

-- `lists.get(activity, {})`, `counters.get(name, 0)`
unfoldable pub list_of : String → Lists → Counters
unfolding find_key
list_of activity lists = or_empty (find_key activity lists)

unfoldable pub count_of : String → Counters → ℕ
unfolding find_key
count_of name counters = or_zero (find_key name counters)

abbrev pub non_page_types : List String
non_page_types = "BlackPrintPaper" ∷ "Paper" ∷ "Document" ∷ "DuplexTotal" ∷ "PrintPageTotal" ∷ []

unfoldable pub is_page_type : String → Bool
unfolding ends_with
is_page_type counter_type =
    not (ends_with counter_type "Large") && not (any (str_eq counter_type) non_page_types)

pub record AccountDelta : Type 0 where
  pub account_id : String
  pub lists : Lists
  pub follows_reset : Bool

unfoldable pub pages : String → List String → AccountDelta → ℕ
unfolding list_of count_of
pages activity types delta = sum_by (λ t. count_of t (list_of activity delta.lists)) types

abbrev pub page_count : String × ℕ → ℕ
page_count (name, count) = if is_page_type name then count else 0

abbrev pub total_of : Option ℕ → Counters → ℕ
total_of none counters = sum_by page_count counters
total_of (some total) counters = total

unfoldable pub total_pages : String → AccountDelta → ℕ
unfolding list_of find_key is_page_type
total_pages activity delta =
    total_of (find_key "Total" (list_of activity delta.lists)) (list_of activity delta.lists)

-- A counter of the current reading that is lower than in the previous one.
abbrev pub goes_down : Counters → String × ℕ → Bool
goes_down before (name, value) = ltb value (count_of name before)

unfoldable pub is_reset : Lists → Lists → Bool
unfolding list_of count_of
is_reset previous current =
    any (λ entry. any (goes_down (list_of entry.0 previous)) entry.1) current

-- The differences of one activity that are not 0.
unfoldable pub deltas_of : Bool → Counters → Counters → Counters
unfolding count_of
deltas_of reset before [] = []
deltas_of reset before ((name, value) ∷ counters) =
    let rest = deltas_of reset before counters in
    let delta = value - (if reset then 0 else count_of name before) in
    if delta == 0 then rest else (name, delta) ∷ rest

abbrev pub with_deltas : String → Counters → Lists → Lists
with_deltas activity [] lists = lists
with_deltas activity (c ∷ deltas) lists = (activity, c ∷ deltas) ∷ lists

unfoldable pub delta_lists : Bool → Lists → Lists → Lists
unfolding deltas_of list_of
delta_lists reset previous [] = []
delta_lists reset previous ((activity, counters) ∷ current) =
    with_deltas activity (deltas_of reset (list_of activity previous) counters)
      (delta_lists reset previous current)

unfoldable pub diff_counters : Lists → Lists → AccountDelta
unfolding delta_lists is_reset
diff_counters previous current = record {
  account_id = "";
  lists = delta_lists (is_reset previous current) previous current;
  follows_reset = is_reset previous current;
}
