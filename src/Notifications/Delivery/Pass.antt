-- ===== src/Notifications/Delivery/Pass.antt =====
-- notifications/delivery.py: deliver_pending, a pass over the events that are due.
use printops.Prelude.{
  ℕ, zero, suc, ◌+◌, String, Bool, true, false, not, ◌&&◌, Option, none, some, List, [], ◌∷◌, ◌++◌,
  ltb, leb, if◌then◌else◌, filter, any, is_none, take, codes,
}
use printops.Text.{raw}
use printops.Notifications.Conditions.{Settings, Event}
use printops.Notifications.Delivery.{
  max_delivery_attempts, batch_limit, backoff_delay, Channel, DeliveryError, Wire, send_to_channel,
}

-- The channel after a send.
unfoldable pub note_outcome : ℕ → Channel → Option DeliveryError → Channel
note_outcome now channel none = record channel { last_error = none; last_success_at = some now }
note_outcome now channel (some e) = record channel { last_error = some (take 500 e.message) }

-- The names of the channels that refused, with their errors.
abbrev pub Refusals : Type 0
Refusals = List (String × DeliveryError)

abbrev pub refusal : Channel → Option DeliveryError → Refusals → Refusals
refusal channel none rest = rest
refusal channel (some e) rest = (channel.name, e) ∷ rest

-- The loop over the enabled channels: what it makes of each, and what refused.
unfoldable pub touched : ℕ → Wire → Event → List Channel → List Channel
unfolding send_to_channel note_outcome
touched now wire event [] = []
touched now wire event (c ∷ cs) =
    let rest = touched now wire event cs in
    (if c.enabled then note_outcome now c (send_to_channel wire c event) else c) ∷ rest

abbrev pub considered : Wire → Event → Channel → Refusals → Refusals
considered wire event c rest =
    if c.enabled then refusal c (send_to_channel wire c event) rest else rest

unfoldable pub refusals : Wire → Event → List Channel → Refusals
unfolding send_to_channel
refusals wire event [] = []
refusals wire event (c ∷ cs) = considered wire event c (refusals wire event cs)

-- `"; ".join(errors)`
abbrev pub joined : Refusals → List ℕ
joined [] = []
joined ((name, e) ∷ []) = codes name ++ (codes ": " ++ e.message)
joined ((name, e) ∷ rest) = codes name ++ (codes ": " ++ (e.message ++ (codes "; " ++ joined rest)))

-- `retryable`
abbrev pub is_retryable : Refusals → Bool
is_retryable rs = any (λ r. not r.1.permanent) rs

-- The event after the channels, with the attempt counted.
unfoldable pub settled : ℕ → Event → Refusals → Event
unfolding backoff_delay
settled now event [] = record event { delivered_at = some now; last_error = none }
settled now event (r ∷ rs) =
    if not (is_retryable (r ∷ rs))
    then record event {
      last_error = some (raw (take 1000 (joined (r ∷ rs))) ∷ []);
      attempts = max_delivery_attempts;
      next_attempt_at = none;
    }
    else record event {
      last_error = some (raw (take 1000 (joined (r ∷ rs))) ∷ []);
      next_attempt_at = some (now + backoff_delay event.attempts);
    }

abbrev pub counted : Event → Event
counted event = record event { attempts = event.attempts + 1 }

unfoldable pub deliver_event : ℕ → Wire → List Channel → Event → Event
unfolding settled refusals
deliver_event now wire channels event =
    settled now (counted event) (refusals wire (counted event) channels)

-- `next_attempt_at <= now`, which is not true of a null
abbrev pub is_reached : Option ℕ → ℕ → Bool
is_reached none now = false
is_reached (some t) now = leb t now

unfoldable pub is_due : ℕ → Event → Bool
is_due now e =
    is_none e.delivered_at
    && (ltb e.attempts max_delivery_attempts && is_reached e.next_attempt_at now)

abbrev pub numbered : ℕ → List Event → List (ℕ × Event)
numbered i [] = []
numbered i (e ∷ es) = (i, e) ∷ numbered (suc i) es

-- `ORDER BY created_at`
unfoldable pub insert_by_created : ℕ × Event → List (ℕ × Event) → List (ℕ × Event)
insert_by_created x [] = x ∷ []
insert_by_created x (y ∷ ys) =
    let rest = insert_by_created x ys in
    if leb x.1.created_at y.1.created_at then x ∷ y ∷ ys else y ∷ rest

unfoldable pub sort_by_created : List (ℕ × Event) → List (ℕ × Event)
unfolding insert_by_created
sort_by_created [] = []
sort_by_created (x ∷ xs) = insert_by_created x (sort_by_created xs)

unfoldable pub due : ℕ → List Event → List (ℕ × Event)
unfolding sort_by_created is_due
due now events =
    take batch_limit (sort_by_created (filter (λ x. is_due now x.1) (numbered 0 events)))

-- The row at a position.
unfoldable pub set_row : ℕ → Event → List Event → List Event
set_row i e [] = []
set_row zero e (x ∷ es) = e ∷ es
set_row (suc i) e (x ∷ es) = x ∷ set_row i e es

pub record Db : Type 0 where
  pub channels : List Channel
  pub events : List Event

abbrev pub one_if : Bool → ℕ
one_if true = 1
one_if false = 0

-- One event: it is committed before the next.
unfoldable pub deliver_one : ℕ → Wire → ℕ × Event → Db → Db
unfolding deliver_event touched set_row
deliver_one now wire (i, e) db = record {
  channels = touched now wire (counted e) db.channels;
  events = set_row i (deliver_event now wire db.channels e) db.events;
}

-- The tables, and how many events were delivered.
unfoldable pub deliver_each : ℕ → Wire → List (ℕ × Event) → Db → Db × ℕ
unfolding deliver_one
deliver_each now wire [] db = (db, 0)
deliver_each now wire (x ∷ xs) db =
    let (db', n) = deliver_each now wire xs (deliver_one now wire x db) in
    (db', one_if (not (is_none (deliver_event now wire db.channels x.1).delivered_at)) + n)

unfoldable pub deliver_pending : Settings → Wire → ℕ → Db → Db × ℕ
unfolding deliver_each due
deliver_pending settings wire now db =
    if not settings.enabled
    then (db, 0)
    else if not (any (λ c. c.enabled) db.channels)
    then (db, 0)
    else deliver_each now wire (due now db.events) db
