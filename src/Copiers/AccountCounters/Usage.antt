-- ===== src/Copiers/AccountCounters/Usage.antt =====
-- copiers/account_counters.py: the owner of an account, and the usage rows of a difference.
use printops.Prelude.{
  ℕ, String, Bool, true, false, not, ◌&&◌, Option, none, some, List, [], ◌∷◌, ◌++◌, map, leb, ◌==◌,
  str_eq, if◌then◌else◌, any,
}
use printops.Copiers.AccountCounters.{Lists, list_of, count_of, AccountDelta, pages, total_pages}

-- A row of the provisioned accounts.
pub record ProvisionedAccount : Type 0 where
  pub device_account_id : String
  pub staff_email : String
  pub identity_type : String
  pub provisioned_at : ℕ
  pub removed_at : Option ℕ

-- The columns of a usage row that vary; a null count is `none`.
pub record UsageRecord : Type 0 where
  pub staff_email : Option String
  pub external_identity_used : String
  pub external_identity_type : Option String
  pub activity_type : String
  pub page_count : ℕ
  pub color_page_count : Option ℕ
  pub monochrome_page_count : Option ℕ
  pub period_start : ℕ
  pub period_end : ℕ
  pub follows_counter_reset : Bool
  pub from_provisioning_baseline : Bool

pub record AccountCounters : Type 0 where
  pub account_id : String
  pub lists : Lists

abbrev pub color_types : List String
color_types = "FullColor" ∷ "BiColor" ∷ "MonoColor" ∷ []

abbrev pub mono_types : List String
mono_types = "Bw" ∷ []

-- Whether the row stands at an instant.
abbrev pub is_removed : Option ℕ → ℕ → Bool
is_removed none at = false
is_removed (some t) at = leb t at

abbrev pub owns : ℕ → String → ProvisionedAccount → Bool
owns at account row =
    leb row.provisioned_at at
    && (not (is_removed row.removed_at at) && str_eq row.device_account_id account)

-- `_owner_map(...).get(account)`: the last row of the account, in the order of `provisioned_at`.
unfoldable pub owner_of :
    ℕ → String → List ProvisionedAccount → Option ProvisionedAccount → Option ProvisionedAccount
owner_of at account [] found = found
owner_of at account (row ∷ rows) found =
    owner_of at account rows (if owns at account row then some row else found)

-- `pages or None`
abbrev pub or_none : ℕ → Option ℕ
or_none n = if n == 0 then none else some n

abbrev pub email_of : Option ProvisionedAccount → Option String
email_of none = none
email_of (some owner) = some owner.staff_email

abbrev pub type_of : Option ProvisionedAccount → Option String
type_of none = none
type_of (some owner) = some owner.identity_type

unfoldable pub usage_row :
    AccountDelta
    → Option ProvisionedAccount
    → ℕ
    → ℕ
    → String
    → ℕ
    → Option ℕ
    → Option ℕ
    → UsageRecord
usage_row delta owner period_start period_end activity count color mono = record {
  staff_email = email_of owner;
  external_identity_used = delta.account_id;
  external_identity_type = type_of owner;
  activity_type = activity;
  page_count = count;
  color_page_count = color;
  monochrome_page_count = mono;
  period_start = period_start;
  period_end = period_end;
  follows_counter_reset = delta.follows_reset;
  from_provisioning_baseline = false;
}

-- A row, unless nothing moved.
abbrev pub if_any : ℕ → UsageRecord → List UsageRecord
if_any n row = if n == 0 then [] else row ∷ []

unfoldable pub usage_rows : AccountDelta → Option ProvisionedAccount → ℕ → ℕ → List UsageRecord
unfolding usage_row total_pages pages list_of count_of
usage_rows delta owner period_start period_end =
    let add = usage_row delta owner period_start period_end in
    let copied = total_pages "copy" delta in
    let scanned = count_of "DocumentReadTotal" (list_of "scan_fax" delta.lists) in
    let fax_sent = count_of "FaxSend" (list_of "scan_fax" delta.lists) in
    if_any copied (
      add "copy" copied (or_none (pages "copy" color_types delta))
        (or_none (pages "copy" mono_types delta)))
    ++ (if_any scanned (add "scan" scanned none none)
        ++ if_any fax_sent (add "fax" fax_sent none none))

abbrev pub any_count : Lists → Bool
any_count lists = any (λ entry. any (λ c. not (c.1 == 0)) entry.1) lists

abbrev pub from_baseline : UsageRecord → UsageRecord
from_baseline row = record row { from_provisioning_baseline = true }

-- The rows of a first reading; a positive count of some activity is needed.
unfoldable pub baseline_usage_rows :
    AccountCounters → Option ProvisionedAccount → ℕ → List UsageRecord
unfolding usage_rows
baseline_usage_rows account none now = []
baseline_usage_rows account (some owner) now =
    if not (any_count account.lists)
    then []
    else map from_baseline (
        usage_rows
          (record { account_id = account.account_id; lists = account.lists; follows_reset = false })
          (some owner) owner.provisioned_at now)
