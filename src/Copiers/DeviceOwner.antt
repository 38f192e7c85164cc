-- ===== src/Copiers/DeviceOwner.antt =====
-- copiers/device_owner.py: the copies of a copier that one person answers for.
-- The readings of the linked printer's copy meter are the marks of a list.
pub mod Marks
pub mod Total
use printops.Prelude.{
  ℕ, ◌+◌, ◌-◌, String, Bool, true, false, not, ◌&&◌, ◌||◌, Option, none, some, List, [], ◌∷◌, ◌++◌,
  ltb, leb, ◌==◌, str_eq, if◌then◌else◌, filter, is_none,
}
use printops.Text.{Text, lit}
use printops.Counters.{PrinterCounterReading}

-- The row of the printer, as far as it is read.
pub record MeteredPrinter : Type 0 where
  pub name : String
  pub snmp_enabled : Bool
  pub page_count_confidence : String

-- models/mfp_device.py, as far as it is read or written
pub record Device : Type 0 where
  pub default_owner_email : Option String
  pub auto_poll_counters : Bool
  -- whether any reading of an account of this device is stored
  pub has_account_readings : Bool
  pub printer_id : Option ℕ
  pub default_owner_attributed_through : Option ℕ

pub record DefaultOwnerResult : Type 0 where
  pub attributed_pages : ℕ
  pub usage_rows : ℕ
  pub baselined : Bool
  pub meter_reset : Bool
  pub skipped_reason : Option Text

-- The fields of the usage row that vary.
pub record Usage : Type 0 where
  pub staff_email : String
  pub page_count : ℕ
  pub period_start : ℕ
  pub period_end : ℕ
  pub meter_from : ℕ
  pub meter_to : ℕ

abbrev pub no_result : DefaultOwnerResult
no_result = record {
  attributed_pages = 0;
  usage_rows = 0;
  baselined = false;
  meter_reset = false;
  skipped_reason = none;
}

-- A reading whose copy counter is known.
pub record Mark : Type 0 where
  pub recorded_at : ℕ
  pub pages : ℕ

abbrev pub mark_of : ℕ → Option ℕ → List Mark → List Mark
mark_of t none marks = marks
mark_of t (some pages) marks = record { recorded_at = t; pages = pages } ∷ marks

-- The readings of a printer with a copy counter.
unfoldable pub marks_of : ℕ → List PrinterCounterReading → List Mark
marks_of printer_id [] = []
marks_of printer_id (r ∷ readings) =
    let rest = marks_of printer_id readings in
    if r.printer_id == printer_id then mark_of r.recorded_at r.page_count_copy rest else rest

abbrev pub later_of : Mark → Option Mark → Option Mark
later_of m none = some m
later_of m (some n) = if ltb n.recorded_at m.recorded_at then some m else some n

-- `_latest_reading`
unfoldable pub latest : List Mark → Option Mark
latest [] = none
latest (m ∷ marks) = later_of m (latest marks)

unfoldable pub latest_before : ℕ → List Mark → Option Mark
unfolding latest
latest_before t marks = latest (filter (λ m. leb m.recorded_at t) marks)

abbrev pub earlier_of : Mark → Option Mark → Option Mark
earlier_of m none = some m
earlier_of m (some n) = if ltb m.recorded_at n.recorded_at then some m else some n

unfoldable pub earliest : List Mark → Option Mark
earliest [] = none
earliest (m ∷ marks) = earlier_of m (earliest marks)

-- `_earliest_reading_after`
unfoldable pub earliest_after : ℕ → List Mark → Option Mark
unfolding earliest
earliest_after t marks = earliest (filter (λ m. ltb t m.recorded_at) marks)

abbrev pub is_blank : Option String → Bool
is_blank none = true
is_blank (some s) = str_eq s ""

abbrev pub skip_for_printer : Option MeteredPrinter → Option Text
skip_for_printer none = some (lit "the linked printer no longer exists" ∷ [])
skip_for_printer (some p) =
    if not p.snmp_enabled
    then some (lit "SNMP is off for " ∷ lit p.name ∷ lit ", so its copy meter is never read" ∷ [])
    else if not
        (str_eq p.page_count_confidence "verified" || str_eq p.page_count_confidence "best_effort")
    then some (
        lit p.name
        ∷ lit " reports one combined page total, not a separate copy "
        ∷ lit "counter — copies can't be measured on this device"
        ∷ [])
    else none

-- `db.get(Printer, id)` is a table's lookup.
abbrev pub skip_for_link : (ℕ → Option MeteredPrinter) → Option ℕ → Option Text
skip_for_link printers none =
    some (lit "this copier isn't linked to a printer, so PrintOps has no meter to read" ∷ [])
skip_for_link printers (some id) = skip_for_printer (printers id)

-- The guards, up to the query of the readings.
unfoldable pub skipped : (ℕ → Option MeteredPrinter) → Device → Option Text
skipped printers device =
    if is_blank device.default_owner_email
    then some (lit "no default owner set for this device" ∷ [])
    else if device.auto_poll_counters || device.has_account_readings
    then some (
        lit "this copier reports per-account counters, which already say who made "
        ∷ lit "each copy — a whole-device owner would count the same copies a second "
        ∷ lit "time, so it is not applied here"
        ∷ [])
    else skip_for_link printers device.printer_id

abbrev pub owner_of : Option String → String
owner_of none = ""
owner_of (some s) = s

-- The device, the result, and the usage rows that are added.
abbrev pub Outcome : Type 0
Outcome = (Device × DefaultOwnerResult) × List Usage

abbrev pub move_to : ℕ → Device → Device
move_to t device = record device { default_owner_attributed_through = some t }

-- From the difference of the two readings.
unfoldable pub attribute_between : Device → Mark → Mark → Outcome
attribute_between device base last =
    if ltb last.pages base.pages
    then (
      (move_to last.recorded_at device, record no_result { baselined = true; meter_reset = true }),
      [],
    )
    else if last.pages == base.pages
    then ((move_to last.recorded_at device, no_result), [])
    else (
      (
        move_to last.recorded_at device,
        record no_result { attributed_pages = last.pages - base.pages; usage_rows = 1 },
      ),
      record {
        staff_email = owner_of device.default_owner_email;
        page_count = last.pages - base.pages;
        period_start = base.recorded_at;
        period_end = last.recorded_at;
        meter_from = base.pages;
        meter_to = last.pages;
      }
          ∷ [],
    )

unfoldable pub attribute_from : Device → Mark → Option Mark → Outcome
unfolding attribute_between
attribute_from device last none = ((device, no_result), [])
attribute_from device last (some base) =
    if leb last.recorded_at base.recorded_at
    then ((device, no_result), [])
    else attribute_between device base last

abbrev pub or_else : Option Mark → Option Mark → Option Mark
or_else none m = m
or_else (some b) m = some b

unfoldable pub attribute_since : Device → List Mark → Mark → Option ℕ → Outcome
unfolding attribute_from latest_before earliest_after
attribute_since device marks last none =
    ((move_to last.recorded_at device, record no_result { baselined = true }), [])
attribute_since device marks last (some watermark) =
    attribute_from device last
      (or_else (latest_before watermark marks) (earliest_after watermark marks))

unfoldable pub attribute_marks : Device → List Mark → Option Mark → Outcome
unfolding attribute_since
attribute_marks device marks none = (
  (
    device,
    record no_result {
      skipped_reason =
          some
            (lit "no copy meter readings recorded yet — check back after the next SNMP poll" ∷ []);
    },
  ),
  [],
)
attribute_marks device marks (some last) =
    attribute_since device marks last device.default_owner_attributed_through

abbrev pub attribute_unless : Option Text → Device → List Mark → Outcome
attribute_unless (some reason) device marks =
    ((device, record no_result { skipped_reason = some reason }), [])
attribute_unless none device marks = attribute_marks device marks (latest marks)

abbrev pub linked_marks : Option ℕ → List PrinterCounterReading → List Mark
linked_marks none readings = []
linked_marks (some id) readings = marks_of id readings

unfoldable pub attribute_device_copies :
    (ℕ → Option MeteredPrinter) → List PrinterCounterReading → Device → Outcome
unfolding skipped marks_of attribute_marks latest
attribute_device_copies printers readings device =
    attribute_unless (skipped printers device) device (linked_marks device.printer_id readings)
