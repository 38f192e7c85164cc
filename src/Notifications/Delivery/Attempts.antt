-- ===== src/Notifications/Delivery/Attempts.antt =====
-- notifications/delivery.py: what an attempt means for an event.
use printops.Prelude.{
  ap, ℕ, ◌+◌, ◌-◌, ◌≤◌, ◌<◌, String, true, false, not, Option, none, some, List, [], ◌∷◌, ◌≡◌, ◌⊎◌,
  refl, sym, inl, inr, arith, Bool-cases, branch_true, branch_false,
}
use mathlib.Core.Path.{subst}
use printops.QueueRecovery.Backoff.{two_pow}
use printops.Notifications.Conditions.{Settings, Event}
use printops.Notifications.Delivery.{
  Channel, DeliveryError, Wire, seconds, backoff_delay, max_delivery_attempts,
}
use printops.Notifications.Delivery.Pass.{
  Refusals, refusals, is_retryable, settled, counted, is_due, Db, deliver_pending,
}
use printops.Notifications.Delivery.Rows.{get, deliver_pending-Related}

-- How an attempt at `now` ends, by the channels that refused.
pub data IsSettled (now : ℕ) (e e' : Event) (rs : Refusals) : Type 0 where
  arrives :
      rs ≡ []
      → e'.delivered_at ≡ some now
      → e'.attempts ≡ e.attempts + 1
      → ((later : ℕ) → is_due later e' ≡ false)
      → IsSettled now e e' rs
  waits :
      is_retryable rs ≡ true
      → e'.delivered_at ≡ none
      → e'.attempts ≡ e.attempts + 1
      → (t : ℕ) → e'.next_attempt_at ≡ some t
      → now + seconds 60 ≤ t
      → t ≤ now + seconds 3600
      → IsSettled now e e' rs
  gives_up :
      (r : String × DeliveryError) (rest : Refusals)
      → rs ≡ r ∷ rest
      → is_retryable rs ≡ false
      → e'.delivered_at ≡ none
      → e'.attempts ≡ max_delivery_attempts
      → ((later : ℕ) → is_due later e' ≡ false)
      → IsSettled now e e' rs

backoff_delay-bounds : (n : ℕ) → (seconds 60 ≤ backoff_delay n) × (backoff_delay n ≤ seconds 3600)
unfolding backoff_delay
backoff_delay-bounds n = let p = two_pow 0 (n - 1) (omega arith) in (ground arith, ground arith)

undelivered :
    (now : ℕ) (e : Event)
    → is_due now e ≡ true
    → (e.delivered_at ≡ none) × (e.attempts < max_delivery_attempts)
unfolding is_due
undelivered now e d = ground arith

delivered-not_due : (e : Event) (now later : ℕ) → e.delivered_at ≡ some now → is_due later e ≡ false
unfolding is_due
delivered-not_due e now later h = ground arith

exhausted-not_due :
    (e : Event) (later : ℕ) → e.attempts ≡ max_delivery_attempts → is_due later e ≡ false
unfolding is_due
exhausted-not_due e later h = ground arith

settled-IsSettled :
    (now : ℕ) (e : Event) (rs : Refusals)
    → is_due now e ≡ true
    → IsSettled now e (settled now (counted e) rs) rs
unfolding settled
settled-IsSettled now e [] d = arrives refl refl refl (λ later. delivered-not_due _ now later refl)
settled-IsSettled now e (r ∷ rs) d = elim (Bool-cases (is_retryable (r ∷ rs))) [
  | inl y ↦
      let (lo, hi) = backoff_delay-bounds (e.attempts + 1) in
      subst (λ e'. IsSettled now e e' (r ∷ rs)) (sym (branch_false _ _ _ (ap not y)))
        (waits y (undelivered now e d).0 refl _ refl (omega (arith, lo)) (omega (arith, hi)))
  | inr n ↦
      subst (λ e'. IsSettled now e e' (r ∷ rs)) (sym (branch_true _ _ _ (ap not n)))
        (gives_up r rs refl n (undelivered now e d).0 refl
          (λ later. exhausted-not_due _ later refl))
]

attempts-le :
    (now : ℕ) (e e' : Event) (rs : Refusals)
    → is_due now e ≡ true
    → IsSettled now e e' rs
    → e'.attempts ≤ max_delivery_attempts
attempts-le now e e' rs d (arrives r t a f) = let h = (undelivered now e d).1 in omega (arith, a, h)
attempts-le now e e' rs d (waits r t a u n lo hi) =
    let h = (undelivered now e d).1 in omega (arith, a, h)
attempts-le now e e' rs d (gives_up r rest q n t a f) = omega (arith, a)

-- The row of a position after a pass: as it was, or an attempt at a due event.
abbrev pub Passed : ℕ → Wire → List Channel → Option Event → Option Event → Type 0
Passed now wire cs o c =
    (c ≡ o)
    ⊎ ((e : Event) × (e' : Event) × (o ≡ some e)
        × (is_due now e ≡ true)
        × (c ≡ some e')
        × IsSettled now e e' (refusals wire (counted e) cs)
        × (e'.attempts ≤ max_delivery_attempts))

-- A pass leaves each event as it was, or makes one attempt at it, which counts, if it was due: not delivered, attempted
-- fewer than eight times and with its time reached. The event is delivered exactly if every enabled channel took it; it
-- is tried again after a minute at least and an hour at most if some refusal may pass; and if all of them are permanent
-- it has used up its attempts. A delivered event and one without attempts are never due again.
pub deliver_pending-IsSettled :
    (settings : Settings) (wire : Wire) (now : ℕ) (db : Db) (j : ℕ)
    → Passed now wire db.channels
        (get j db.events)
        (get j (deliver_pending settings wire now db).0.events)
deliver_pending-IsSettled settings wire now db j =
    elim (deliver_pending-Related settings wire now db j) [
      | inl h ↦ inl h
      | inr (e, o, d, c) ↦
          let s = settled-IsSettled now e (refusals wire (counted e) db.channels) d in
          inr (e, _, o, d, c, s, attempts-le now e _ _ d s)
    ]
