-- ===== src/Calendar/Steps.antt =====
-- Several days forth and back, and dates that are one because their ordinals are.
use printops.Prelude.{ℕ, zero, suc, ◌+◌, ◌≤◌, ◌<◌, ◌≡◌, refl, arith, ◌⊎◌, inl, inr}
use printops.Calendar.{DateTime, IsDateTime, next_day, add_days, sub_days, ordinal, prev_day}
use printops.Calendar.Order.{next_day-IsDateTime}
use printops.Calendar.Ordinal.{date_key, day_le_31, ordinal-lt}
use printops.Calendar.NextDay.{ordinal-next_day, prev_day-ordinal}

next_day-micros : (d : DateTime) → (next_day d).micros ≡ d.micros
unfolding next_day
next_day-micros d = ground arith

-- The date `n` days after, or before, `d`, at the same time of day.
pub add_days-ordinal :
    (n : ℕ) (d : DateTime)
    → IsDateTime d
    → IsDateTime (add_days n d)
      × (ordinal (add_days n d) ≡ ordinal d + n)
      × ((add_days n d).micros ≡ d.micros)
unfolding add_days
add_days-ordinal zero d v = (v, omega arith, refl)
add_days-ordinal (suc n) d v =
    let (w, o, m) = add_days-ordinal n (next_day d) (next_day-IsDateTime d v) in
    (w, omega (arith, o, ordinal-next_day d v), omega (arith, m, next_day-micros d))

pub sub_days-ordinal :
    (n : ℕ) (d : DateTime)
    → IsDateTime d
    → n < ordinal d
    → IsDateTime (sub_days n d)
      × (ordinal (sub_days n d) + n ≡ ordinal d)
      × ((sub_days n d).micros ≡ d.micros)
unfolding sub_days
sub_days-ordinal zero d v h = (v, omega arith, refl)
sub_days-ordinal (suc n) d v h =
    let (w, o, m) = prev_day-ordinal d v (omega arith) in
    let (w', o', m') = sub_days-ordinal n (prev_day d) w (omega arith) in
    (w', omega arith, omega arith)

pub date_key-order : (d e : DateTime) → (date_key d < date_key e) ⊎ (date_key e ≤ date_key d)
date_key-order d e = omega arith

date_fields :
    (d e : DateTime)
    → IsDateTime d
    → IsDateTime e
    → date_key d ≡ date_key e
    → (d.year ≡ e.year) × (d.month ≡ e.month) × (d.day ≡ e.day)
date_fields d e v w h =
    let dd = day_le_31 d v in
    let ee = day_le_31 e w in
    (omega (arith, v.month_le, w.month_le), omega (arith, v.month_le, w.month_le), omega arith)

same_date :
    (d e : DateTime) → IsDateTime d → IsDateTime e → date_key d ≡ date_key e → ordinal d ≤ ordinal e
unfolding ordinal
same_date d e v w h = let (y, m, k) = date_fields d e v w h in rw (y, m, k) (omega arith)

fields_eq :
    (d e : DateTime)
    → IsDateTime d
    → IsDateTime e
    → date_key d ≡ date_key e
    → d.micros ≡ e.micros
    → d ≡ e
fields_eq d e v w h m = let (y, o, k) = date_fields d e v w h in ground arith

-- Instants are ordered as their ordinals and times of day are.
pub date_key_of_ordinal :
    (d e : DateTime) → IsDateTime d → IsDateTime e → ordinal d ≤ ordinal e → date_key d ≤ date_key e
date_key_of_ordinal d e v w h = elim (date_key-order e d) [
  | inl l ↦ absurd (omega (arith, ordinal-lt e d w v l))
  | inr g ↦ g
]

pub ordinal_of_date_key :
    (d e : DateTime) → IsDateTime d → IsDateTime e → date_key d ≤ date_key e → ordinal d ≤ ordinal e
ordinal_of_date_key d e v w h = elim (date_key-order d e) [
  | inl l ↦ omega (arith, ordinal-lt d e v w l)
  | inr g ↦ same_date d e v w (omega arith)
]

pub eq_of_ordinal :
    (d e : DateTime)
    → IsDateTime d
    → IsDateTime e
    → ordinal d ≡ ordinal e
    → d.micros ≡ e.micros
    → d ≡ e
eq_of_ordinal d e v w h m =
    fields_eq d e v w (omega (arith, date_key_of_ordinal d e v w, date_key_of_ordinal e d w v)) m
