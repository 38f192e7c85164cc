-- ===== src/Copiers/Tests.antt =====
-- A copier outside the organisation's scope, one with a person who answers for it, and the theorems at them.
use printops.Prelude.{
  ℕ, String, ◌+◌, true, false, Option, none, some, List, [], ◌∷◌, ◌≡◌, refl, arith, codes, length,
  filter, str_eq, if◌then◌else◌, ◌==◌, map,
}
use printops.Counters.{PrinterCounterReading}
use printops.QueueRecovery.Lpstat.{strip_left, strip_right}
use printops.Copiers.OrgUnits.{
  WorkspaceSettings, path_matches, org_unit_included, device_provisioning_scope, allowed, non_empty,
  is_empty, resolve_copier_identity_org_units,
}
use printops.Copiers.OrgUnits.Scope.{device_provisioning_scope-widens}
use printops.Copiers.Provisioning.{
  Identity, DirectoryUser, ProvisioningPlan, holders, scoped, build_provisioning_plan,
}
use printops.Copiers.Provisioning.Holders.{build_provisioning_plan-holders}
use printops.Copiers.DeviceOwner.{
  MeteredPrinter, Device, Mark, latest, linked_marks, marks_of, skipped,
}
use printops.Copiers.DeviceOwner.Total.{
  pages_of, written, total, readings_after, Proceeds, attribute_device_copies-total,
}
use printops.Copiers.AccountCounters.{Lists, find_key, list_of, count_of, is_page_type}
use printops.Copiers.AccountCounters.Usage.{AccountCounters}
use printops.Copiers.AccountCounters.Poll.{Db, poll_account_counters}
use printops.Copiers.AccountCounters.Current.{IsRead, poll_account_counters-Polled}
use printops.Copiers.AccountCounters.Difference.{IsReported, usage, cleared, diff_counters-adds_up}

abbrev employees : List (List ℕ)
employees = codes "/Employees" ∷ []

abbrev students : Option (List (List ℕ))
students = some (codes "/Students" ∷ [])

abbrev teachers : Option (List (List ℕ))
teachers = some (codes "/Employees/Teachers" ∷ [])

teachers-allowed : is_empty (allowed (non_empty teachers) employees) ≡ false
unfolding path_matches strip_left strip_right
teachers-allowed = refl

teacher-included :
    org_unit_included
      (some (codes "/Employees/Teachers/HS"))
      (device_provisioning_scope teachers employees []).0
      (device_provisioning_scope teachers employees []).1
    ≡ true
unfolding org_unit_included device_provisioning_scope strip_left strip_right
teacher-included = refl

students-outside : allowed (non_empty students) employees ≡ []
unfolding path_matches strip_left strip_right
students-outside = refl

-- A board member is in the scope of the students' copier.
device_provisioning_scope-widens_example :
    org_unit_included
      (some (codes "/Board"))
      (device_provisioning_scope students employees []).0
      (device_provisioning_scope students employees []).1
    ≡ true
device_provisioning_scope-widens_example =
    device_provisioning_scope-widens students employees [] (some (codes "/Board")) refl refl
      students-outside refl

abbrev settings : WorkspaceSettings
settings = record {
  copier_identity_org_unit_paths = some employees;
  copier_identity_excluded_org_unit_paths = none;
  staff_org_unit_path = none;
}

abbrev users : List DirectoryUser
users =
    record { email = "ann@x.org"; org_unit_path = some (codes "/Employees") }
    ∷ record { email = "bob@x.org"; org_unit_path = some (codes "/Board") }
    ∷ []

abbrev identities : List Identity
identities =
    record { id = 1; staff_email = "ann@x.org"; identity_type = "pin"; identity_value = "1234" }
    ∷ record { id = 2; staff_email = "bob@x.org"; identity_type = "pin"; identity_value = "5678" }
    ∷ []

abbrev plan : Option (List (List ℕ)) → ProvisioningPlan
plan device_paths =
    build_provisioning_plan (λ s. s) settings "pin" device_paths none users identities

-- The plan of a copier without paths has one account; the plan of one with a path outside has both.
widened-plan : (length (plan none).identities ≡ 1) × (length (plan students).identities ≡ 2)
unfolding build_provisioning_plan strip_left strip_right
widened-plan = (refl, refl)

employees-scope :
    ◌≡◌ {A = List (List ℕ) × List (List ℕ)}
      (employees, [])
      (device_provisioning_scope none
        (resolve_copier_identity_org_units settings).0
        (resolve_copier_identity_org_units settings).1)
unfolding device_provisioning_scope resolve_copier_identity_org_units
employees-scope = refl

build_provisioning_plan-holders_example : holders "1234" (plan none).identities ≡ (
    if holders "1234"
        (scoped (λ s. s) users employees [] (filter (λ i. str_eq "pin" i.identity_type) identities))
      == 1
    then 1
    else 0)
build_provisioning_plan-holders_example =
    build_provisioning_plan-holders (λ s. s) settings "pin" none none users identities "1234"
      (employees, []) employees-scope

abbrev copier : Device
copier = record {
  default_owner_email = some "nurse@x.org";
  auto_poll_counters = false;
  has_account_readings = false;
  printer_id = some 3;
  default_owner_attributed_through = some 10;
}

abbrev printers : ℕ → Option MeteredPrinter
printers id =
    some (record { name = "Nurse"; snmp_enabled = true; page_count_confidence = "verified" })

abbrev reading : ℕ → ℕ → PrinterCounterReading
reading t pages = record {
  printer_id = 3;
  recorded_at = t;
  page_count_total = none;
  page_count_copy = some pages;
  page_count_print = none;
}

abbrev batches : List (List PrinterCounterReading)
batches = (reading 20 105 ∷ reading 30 107 ∷ []) ∷ [] ∷ (reading 40 120 ∷ []) ∷ []

copier-Proceeds :
    Proceeds
      (some 3)
      (record { recorded_at = 10; pages = 100 } ∷ [])
      (record { recorded_at = 10; pages = 100 })
      batches
unfolding marks_of latest
copier-Proceeds = (
  (omega arith, (omega arith, tt)),
  (
    record { recorded_at = 30; pages = 107 },
    refl,
    omega arith,
    (
      tt,
      (
        record { recorded_at = 30; pages = 107 },
        refl,
        omega arith,
        ((omega arith, tt), (record { recorded_at = 40; pages = 120 }, refl, omega arith, tt)),
      ),
    ),
  ),
)

attribute_device_copies-total_example :
    (last : Mark) × (latest (linked_marks (some 3) (readings_after batches (reading 10 100 ∷ [])))
      ≡ some last)
    × (pages_of "nurse@x.org" (written printers batches (reading 10 100 ∷ []) copier) + 100
        ≡ last.pages)
    × (total printers batches (reading 10 100 ∷ []) copier + 100 ≡ last.pages)
unfolding marks_of latest skipped
attribute_device_copies-total_example =
    attribute_device_copies-total printers batches (reading 10 100 ∷ []) copier
      (record { recorded_at = 10; pages = 100 }) refl refl refl copier-Proceeds

abbrev copied : ℕ → Lists
copied n = ("copy", ("Bw", n) ∷ []) ∷ []

copied-IsReported : (n : ℕ) → IsReported "copy" "Bw" (copied n)
unfolding find_key
copied-IsReported n = record {
  once = (refl, ((refl, tt), tt));
  counters = ("Bw", n) ∷ [];
  value = n;
  has_activity = refl;
  has_counter = refl;
}

-- From 40 to 55, cleared, and then 3: 18 pages.
diff_counters-adds_up_example :
    usage "copy" "Bw" (copied 40) (copied 55 ∷ copied 3 ∷ []) + 40
    ≡ cleared "copy" "Bw" (copied 40) (copied 55 ∷ copied 3 ∷ []) + 3
unfolding list_of count_of find_key
diff_counters-adds_up_example =
    diff_counters-adds_up "copy" "Bw" (copied 40) (copied 55 ∷ copied 3 ∷ [])
      (copied-IsReported 55, (copied-IsReported 3, tt))

abbrev account : String → ℕ → AccountCounters
account id n = record { account_id = id; lists = copied n }

abbrev known : Db
known = record {
  readings =
      record {
        device_account_id = "7";
        counters = copied 40;
        first_seen_at = 1;
        last_seen_at = 5;
        superseded_at = none;
        follows_counter_reset = false;
      }
      ∷ [];
  usage = [];
  last_poll = none;
}

-- Account 7 made 15 pages, and account 8 is new.
poll_account_counters-Polled_example :
    IsRead 9
      (account "7" 55)
      "7"
      (poll_account_counters 9 [] (account "7" 55 ∷ account "8" 2 ∷ []) known).0.readings
poll_account_counters-Polled_example =
    poll_account_counters-Polled 9 [] (account "7" 55 ∷ account "8" 2 ∷ []) known "7"
      (refl, (refl, tt)) (omega arith)

fifteen :
    map
      (λ r. r.page_count)
      (poll_account_counters 9 [] (account "7" 55 ∷ account "8" 2 ∷ []) known).0.usage
    ≡ 15 ∷ []
unfolding poll_account_counters is_page_type
fifteen = refl
