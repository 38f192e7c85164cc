-- ===== src/CupsHealth.antt =====
-- printers/cups_health.py: how much room cupsd has left.
-- A line of /proc/net/unix is the list of its fields.
mod Margin
use printops.Prelude.{
  ℕ, zero, suc, ◌+◌, ◌*◌, String, Bool, true, false, not, ◌||◌, Option, none, some, List, [], ◌∷◌,
  ltb, leb, ◌==◌, str_eq, if◌then◌else◌, length,
}

abbrev pub default_max_clients : ℕ
default_max_clients = 100

-- The configuration file: it cannot be read, it has no MaxClients line, or it has one.
pub data CupsdConf : Type 0 where
  unreadable no_directive : CupsdConf
  directive : ℕ → CupsdConf

unfoldable pub max_clients : CupsdConf → ℕ
max_clients unreadable = default_max_clients
max_clients no_directive = default_max_clients
max_clients (directive value) = if value == 0 then default_max_clients else value

-- `parts[-1]`, `parts[5]`
abbrev pub last_is : String → List String → Bool
last_is s [] = false
last_is s (p ∷ []) = str_eq p s
last_is s (p ∷ ps) = last_is s ps

abbrev pub nth_is : ℕ → String → List String → Bool
nth_is n s [] = false
nth_is zero s (p ∷ ps) = str_eq p s
nth_is (suc n) s (p ∷ ps) = nth_is n s ps

unfoldable pub is_connection : List String → Bool
is_connection parts =
    if ltb (length parts) 8 || not (last_is "/run/cups/cups.sock" parts)
    then false
    else nth_is 5 "03" parts

unfoldable pub count_open : List (List String) → ℕ
unfolding is_connection
count_open [] = 0
count_open (parts ∷ lines) = (if is_connection parts then 1 else 0) + count_open lines

-- `none` where the file cannot be read
unfoldable pub open_connections : Option (List (List String)) → Option ℕ
unfolding count_open
open_connections none = none
open_connections (some lines) = some (count_open lines)

-- `count >= limit * 0.6`
abbrev pub is_above : Option ℕ → ℕ → Bool
is_above none limit = false
is_above (some count) limit = leb (3 * limit) (5 * count)

unfoldable pub is_saturated : Option (List (List String)) → CupsdConf → Bool
unfolding open_connections max_clients
is_saturated lines conf = is_above (open_connections lines) (max_clients conf)
