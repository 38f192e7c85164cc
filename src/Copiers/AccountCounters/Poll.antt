-- ===== src/Copiers/AccountCounters/Poll.antt =====
-- copiers/account_counters.py: the poll of a copier, whose snapshot has each account once.
use printops.Prelude.{
  ℕ, ◌+◌, String, Bool, true, false, ◌&&◌, Option, none, some, List, [], ◌∷◌, ◌++◌, ◌==◌, str_eq,
  if◌then◌else◌, all, any, not, length, is_none,
}
use printops.Text.{Text, lit, num}
use printops.Copiers.AccountCounters.{Counters, Lists, find_key, AccountDelta, diff_counters}
use printops.Copiers.AccountCounters.Usage.{
  ProvisionedAccount, UsageRecord, AccountCounters, owner_of, usage_rows, baseline_usage_rows,
}

pub record Reading : Type 0 where
  pub device_account_id : String
  pub counters : Lists
  pub first_seen_at : ℕ
  pub last_seen_at : ℕ
  pub superseded_at : Option ℕ
  pub follows_counter_reset : Bool

-- Equality of dictionaries, whose keys differ.
unfoldable pub same_counters : Counters → Counters → Bool
unfolding find_key
same_counters a b = (length a == length b) && all (λ c. is_value c.1 (find_key c.0 b)) a
  where
    is_value : ℕ → Option ℕ → Bool
    is_value n none = false
    is_value n (some m) = n == m

unfoldable pub same_lists : Lists → Lists → Bool
unfolding find_key same_counters
same_lists a b = (length a == length b) && all (λ entry. is_list entry.1 (find_key entry.0 b)) a
  where
    is_list : Counters → Option Counters → Bool
    is_list c none = false
    is_list c (some d) = same_counters c d

pub record PollResult : Type 0 where
  pub accounts_read : ℕ
  pub baselines : ℕ
  pub unchanged : ℕ
  pub changed : ℕ
  pub usage_rows : ℕ
  pub baseline_usage_rows : ℕ
  pub resets : ℕ
  pub unmapped : ℕ

-- `last_poll` is the device's `last_counter_poll_at` and `last_counter_poll_message`; `last_counter_poll_ok` is true.
pub record Db : Type 0 where
  pub readings : List Reading
  pub usage : List UsageRecord
  pub last_poll : Option (ℕ × Text)

-- The parts of `CounterPollResult.message`, each but the first after a comma.
abbrev pub part_if : Bool → Text → Text
part_if false text = []
part_if true text = lit ", " ∷ text

abbrev pub first_readings : PollResult → Text
first_readings r =
    num r.baselines
    ∷ lit " first readings"
    ∷ (if r.baseline_usage_rows == 0
        then lit " (no usage yet)" ∷ []
        else lit " (" ∷ num r.baseline_usage_rows ∷ lit " with usage since provisioning)" ∷ [])

abbrev pub usage_part : PollResult → Text
usage_part r =
    if r.usage_rows == 0
    then part_if (r.baselines == 0) (lit "no new usage" ∷ [])
    else part_if true
        (num r.usage_rows ∷ lit " usage rows from " ∷ num r.changed ∷ lit " accounts" ∷ [])

unfoldable pub message : PollResult → Text
message r =
    num r.accounts_read
    ∷ lit " accounts read"
    ∷ (part_if (not (r.baselines == 0)) (first_readings r)
        ++ (usage_part r
            ++ (part_if (not (r.resets == 0))
                  (num r.resets ∷ lit " counters were cleared on the device" ∷ [])
                ++ part_if (not (r.unmapped == 0))
                    (num r.unmapped ∷ lit " not matched to a person" ∷ []))))

abbrev pub is_current : String → Reading → Bool
is_current account r = is_none r.superseded_at && str_eq r.device_account_id account

-- `existing.get(account_id)`: the last of the readings that are not superseded.
unfoldable pub existing : String → List Reading → Option Reading → Option Reading
existing account [] found = found
existing account (r ∷ readings) found =
    existing account readings (if is_current account r then some r else found)

abbrev pub new_reading : AccountCounters → ℕ → Bool → Reading
new_reading account now reset = record {
  device_account_id = account.account_id;
  counters = account.lists;
  first_seen_at = now;
  last_seen_at = now;
  superseded_at = none;
  follows_counter_reset = reset;
}

-- An assignment to the reading that `existing` has for the account.
abbrev pub update_current : String → (Reading → Reading) → List Reading → List Reading
update_current account f [] = []
update_current account f (r ∷ readings) =
    let rest = update_current account f readings in
    if is_current account r && not (any (is_current account) readings)
    then f r ∷ readings
    else r ∷ rest

abbrev pub one_if : Bool → ℕ
one_if true = 1
one_if false = 0

-- An account that was never read.
unfoldable pub first_reading :
    ℕ → Option ProvisionedAccount → AccountCounters → Db × PollResult → Db × PollResult
unfolding baseline_usage_rows
first_reading now owner account (db, result) =
    let rows = baseline_usage_rows account owner now in
    (
      record db {
        readings = db.readings ++ (new_reading account now false ∷ []);
        usage = db.usage ++ rows;
      },
      record result {
        baselines = result.baselines + 1;
        usage_rows = result.usage_rows + length rows;
        baseline_usage_rows = result.baseline_usage_rows + length rows;
      },
    )

-- An account whose counters moved, on the difference.
unfoldable pub changed_reading :
    ℕ
    → Option ProvisionedAccount
    → AccountCounters
    → Reading
    → AccountDelta
    → Db × PollResult
    → Db × PollResult
unfolding usage_rows
changed_reading now owner account previous delta (db, result) =
    let rows =
      usage_rows (record delta { account_id = account.account_id }) owner previous.last_seen_at
        now in
    (
      record db {
        readings =
            update_current account.account_id (λ r. record r { superseded_at = some now })
              db.readings
            ++ (new_reading account now delta.follows_reset ∷ []);
        usage = db.usage ++ rows;
      },
      record result {
        resets = result.resets + one_if delta.follows_reset;
        changed = result.changed + 1;
        unmapped = result.unmapped + one_if (is_none owner);
        usage_rows = result.usage_rows + length rows;
      },
    )

unfoldable pub poll_account :
    ℕ
    → Option ProvisionedAccount
    → AccountCounters
    → Option Reading
    → Db × PollResult
    → Db × PollResult
unfolding first_reading changed_reading same_lists diff_counters
poll_account now owner account none s = first_reading now owner account s
poll_account now owner account (some previous) (db, result) =
    if same_lists previous.counters account.lists
    then (
      record db {
        readings =
            update_current account.account_id (λ r. record r { last_seen_at = now }) db.readings;
      },
      record result { unchanged = result.unchanged + 1 },
    )
    else changed_reading now owner account previous (diff_counters previous.counters account.lists)
        (db, result)

-- `stored` are the readings as the poll found them.
unfoldable pub poll_accounts :
    ℕ
    → List ProvisionedAccount
    → List Reading
    → List AccountCounters
    → Db × PollResult
    → Db × PollResult
unfolding poll_account existing owner_of
poll_accounts now owners stored [] s = s
poll_accounts now owners stored (account ∷ snapshot) s = poll_accounts now owners stored snapshot (
    poll_account now (owner_of now account.account_id owners none) account
      (existing account.account_id stored none) s)

abbrev pub no_result : ℕ → PollResult
no_result n = record {
  accounts_read = n;
  baselines = 0;
  unchanged = 0;
  changed = 0;
  usage_rows = 0;
  baseline_usage_rows = 0;
  resets = 0;
  unmapped = 0;
}

unfoldable pub poll_account_counters :
    ℕ → List ProvisionedAccount → List AccountCounters → Db → Db × PollResult
unfolding poll_accounts message
poll_account_counters now owners snapshot db =
    let s = poll_accounts now owners db.readings snapshot (db, no_result (length snapshot)) in
    (record s.0 { last_poll = some (now, message s.1) }, s.1)
