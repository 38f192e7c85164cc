-- ===== src/Copiers/DeviceOwner/Total.antt =====
-- copiers/device_owner.py: over many runs, every copy is attributed once.
use mathlib.Core.Path.{subst}
use printops.Prelude.{
  ℕ, ◌+◌, ◌≤◌, ◌<◌, String, false, str_eq, eq_iff, sum_by, if◌then◌else◌, Option, none, some, List,
  [], ◌∷◌, ◌++◌, ◌≡◌, ◌∙◌, ◌⊎◌, inl, inr, refl, sym, ap, arith, ltb, leb, ◌==◌, Bool-cases,
  branch_true, branch_false,
}
use printops.Counters.{PrinterCounterReading}
use printops.Copiers.DeviceOwner.{
  MeteredPrinter, Usage, owner_of, Device, Mark, Outcome, marks_of, latest, earliest_after, skipped,
  linked_marks, move_to, attribute_between, attribute_from, attribute_since, attribute_marks,
  attribute_unless, attribute_device_copies, or_else,
}
use printops.Copiers.DeviceOwner.Marks.{AreAfter, latest_before-append, latest-append}

marks_of-append :
    (id : ℕ) (readings new : List PrinterCounterReading)
    → marks_of id (readings ++ new) ≡ marks_of id readings ++ marks_of id new
unfolding marks_of
marks_of-append id [] new = refl
marks_of-append id (r ∷ readings) new = ground (arith, marks_of-append id readings new)

-- The pages of the usage rows that name a person.
abbrev pub pages_of : String → List Usage → ℕ
pages_of owner rows = sum_by (λ u. if str_eq u.staff_email owner then u.page_count else 0) rows

-- What an outcome says of a run from a reading to the next.
record Moves (device : Device) (base next : Mark) (o : Outcome) : Type 0 where
  pages : o.0.1.attributed_pages + base.pages ≡ next.pages
  rows : pages_of (owner_of device.default_owner_email) o.1 + base.pages ≡ next.pages
  moved : o.0.0 ≡ move_to next.recorded_at device

not_below : (a b : ℕ) → b ≤ a → ltb a b ≡ false
not_below a b h = ground arith

not_reached : (a b : ℕ) → b < a → leb a b ≡ false
not_reached a b h = ground arith

abbrev with_watermark : Device → Option ℕ → Device
with_watermark device t = record device { default_owner_attributed_through = t }

attribute_between-Moves :
    (device : Device) (base next : Mark)
    → base.pages ≤ next.pages
    → Moves device base next (attribute_between device base next)
unfolding attribute_between
attribute_between-Moves device base next up = elim (Bool-cases (next.pages == base.pages)) [
  | inl e ↦
      subst (Moves device base next)
        (sym (branch_false _ _ _ (not_below next.pages base.pages up) ∙ branch_true _ _ _ e))
        (record { pages = ground arith; rows = ground arith; moved = refl })
  | inr n ↦
      subst (Moves device base next)
        (sym (branch_false _ _ _ (not_below next.pages base.pages up) ∙ branch_false _ _ _ n))
        (record {
          pages = omega (arith, up);
          rows = ground (
            arith,
            up,
            eq_iff (owner_of device.default_owner_email) (owner_of device.default_owner_email),
          );
          moved = refl;
        })
]

attribute_from-Moves :
    (device : Device) (base next : Mark)
    → device.default_owner_attributed_through ≡ some base.recorded_at
    → base.pages ≤ next.pages
    → (next ≡ base) ⊎ (base.recorded_at < next.recorded_at)
    → Moves device base next (attribute_from device next (some base))
unfolding attribute_from
attribute_from-Moves device base next w up (inl e) =
    subst (λ (n : Mark). Moves device base n (attribute_from device n (some base))) (sym e)
      (subst (Moves device base base)
        (sym (branch_true (leb base.recorded_at base.recorded_at) _ _ (ground arith)))
        (record { pages = omega arith; rows = omega arith; moved = ap (with_watermark device) w }))
attribute_from-Moves device base next w up (inr later) =
    subst (Moves device base next)
      (sym (branch_false _ _ _ (not_reached next.recorded_at base.recorded_at later)))
      (attribute_between-Moves device base next up)

-- One run of a device that nothing stands in the way of, on the readings with the new ones.
attribute_device_copies-Moves :
    (printers : ℕ → Option MeteredPrinter) (readings : List PrinterCounterReading) (device : Device)
    (marks new : List Mark) (base next : Mark)
    → skipped printers device ≡ none
    → linked_marks device.printer_id readings ≡ marks ++ new
    → device.default_owner_attributed_through ≡ some base.recorded_at
    → latest marks ≡ some base
    → AreAfter base.recorded_at new
    → latest (marks ++ new) ≡ some next
    → base.pages ≤ next.pages
    → Moves device base next (attribute_device_copies printers readings device)
unfolding attribute_device_copies attribute_marks attribute_since
attribute_device_copies-Moves printers readings device marks new base next go linked w b after n
      up =
    subst (Moves device base next) (sym run)
      (attribute_from-Moves device base next w up (latest-append marks new base next b after n))
  where
    at : List Mark → Outcome
    at ms = attribute_unless (skipped printers device) device ms

    run : attribute_device_copies printers readings device ≡ attribute_from device next (some base)
    run =
        ap at linked
        ∙ (ap (λ g. attribute_unless g device (marks ++ new)) go
            ∙ (ap (attribute_marks device (marks ++ new)) n
                ∙ (ap (attribute_since device (marks ++ new) next) w
                    ∙ ap
                        (λ o.
                          attribute_from device next
                            (or_else o (earliest_after base.recorded_at (marks ++ new))))
                        (latest_before-append marks new base b after))))

-- The readings that come in between the runs, with the latest one so far: they are newer, and the meter does not go down.
abbrev pub Proceeds : Option ℕ → List Mark → Mark → List (List PrinterCounterReading) → Type 0
Proceeds id marks base [] = Unit
Proceeds id marks base (new ∷ batches) =
    AreAfter base.recorded_at (linked_marks id new)
    × ((next : Mark) × (latest (marks ++ linked_marks id new) ≡ some next)
        × (base.pages ≤ next.pages)
        × Proceeds id (marks ++ linked_marks id new) next batches)

-- The readings after the runs.
abbrev pub readings_after :
    List (List PrinterCounterReading) → List PrinterCounterReading → List PrinterCounterReading
readings_after [] readings = readings
readings_after (new ∷ batches) readings = readings_after batches (readings ++ new)

-- The usage rows that the runs write, and the pages that their results report.
abbrev pub written :
    (ℕ → Option MeteredPrinter)
    → List (List PrinterCounterReading)
    → List PrinterCounterReading
    → Device
    → List Usage
written printers [] readings device = []
written printers (new ∷ batches) readings device =
    let o = attribute_device_copies printers (readings ++ new) device in
    o.1 ++ written printers batches (readings ++ new) o.0.0

abbrev pub total :
    (ℕ → Option MeteredPrinter)
    → List (List PrinterCounterReading)
    → List PrinterCounterReading
    → Device
    → ℕ
total printers [] readings device = 0
total printers (new ∷ batches) readings device =
    let o = attribute_device_copies printers (readings ++ new) device in
    o.0.1.attributed_pages + total printers batches (readings ++ new) o.0.0

pages_of-append :
    (owner : String) (xs ys : List Usage)
    → pages_of owner (xs ++ ys) ≡ pages_of owner xs + pages_of owner ys
pages_of-append owner [] ys = omega arith
pages_of-append owner (x ∷ xs) ys = ground (arith, pages_of-append owner xs ys)

linked-append :
    (id : Option ℕ) (readings new : List PrinterCounterReading)
    → linked_marks id (readings ++ new) ≡ linked_marks id readings ++ linked_marks id new
linked-append none readings new = refl
linked-append (some i) readings new = marks_of-append i readings new

module _ (printers : ℕ → Option MeteredPrinter) where
  -- Over any runs with new readings in between, as long as nothing stands in the way of the attribution and the meter does
  -- not go down, the pages of the usage rows written for the owner add up to what the meter counted since the reading at
  -- which the counting starts, and so do the pages that the results report: no copy is attributed twice, and none is lost.
  pub attribute_device_copies-total :
      (batches : List (List PrinterCounterReading)) (readings : List PrinterCounterReading)
      (device : Device) (base : Mark)
      → skipped printers device ≡ none
      → device.default_owner_attributed_through ≡ some base.recorded_at
      → latest (linked_marks device.printer_id readings) ≡ some base
      → Proceeds device.printer_id (linked_marks device.printer_id readings) base batches
      → (last : Mark) × (latest (linked_marks device.printer_id (readings_after batches readings))
          ≡ some last)
        × (pages_of (owner_of device.default_owner_email) (written printers batches readings device)
              + base.pages
            ≡ last.pages)
        × (total printers batches readings device + base.pages ≡ last.pages)
  unfolding skipped
  attribute_device_copies-total [] readings device base go w b p =
      (base, b, omega arith, omega arith)
  attribute_device_copies-total (new ∷ batches) readings device base go w b
        (after, (next, n, up, p)) =
      let owner = owner_of device.default_owner_email in
      let o = attribute_device_copies printers (readings ++ new) device in
      let linked = linked-append device.printer_id readings new in
      let m =
        attribute_device_copies-Moves printers (readings ++ new) device _ _ base next go linked w b
          after n up in
      let (last, l, rows, sum) =
        attribute_device_copies-total batches (readings ++ new) (move_to next.recorded_at device)
          next go refl (ap latest linked ∙ n)
          (subst (λ ms. Proceeds device.printer_id ms next batches) (sym linked) p) in
      let rest = ap (total printers batches (readings ++ new)) m.moved in
      let rest_rows =
        ap (λ d. pages_of owner (written printers batches (readings ++ new) d)) m.moved in
      let both = pages_of-append owner o.1 (written printers batches (readings ++ new) o.0.0) in
      let first_pages = m.pages in
      let first_rows = m.rows in
      (
        last,
        l,
        omega (arith, rest_rows, rows, first_rows, both),
        omega (arith, rest, sum, first_pages),
      )
