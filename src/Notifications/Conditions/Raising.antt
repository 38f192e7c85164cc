-- ===== src/Notifications/Conditions/Raising.antt =====
-- What an uninterrupted observation does: when it raises, and what it leaves of the condition's row.
use printops.Prelude.{
  ℕ, ◌+◌, ◌≡◌, refl, sym, Bool, true, false, not, ◌&&◌, ◌||◌, Option, none, some, List, [], ◌∷◌,
  ◌++◌, arith, leb, if◌then◌else◌, find, is_none, find-append, find-none, Bool-cases, inl, inr,
}
use mathlib.Core.List.{append-nil}
use printops.Text.{Text, text_eq_refl}
use printops.Notifications.Conditions.{
  Settings, State, Event, Db, Observation, has_key, select_state, touch, claim, settle_of,
  insert_state, new_state, new_event, raise_event, observe_row, observe_inserted, observe_new,
  observe_seen, observe, kind_enabled,
}

-- The rule, over the row of the key: enabled, not yet reported, and settled or immediate.
unfoldable pub should_raise : Option Settings → Observation → ℕ → Option State → Bool
should_raise settings o now none = o.raise_immediately && kind_enabled settings o.kind
should_raise settings o now (some s) =
    is_none s.notified_at
    && (kind_enabled settings o.kind
        && (o.raise_immediately || leb (s.first_seen_at + settle_of settings) now))

-- The row of the key afterwards.
unfoldable pub row_after : Option Settings → Observation → ℕ → Option State → State
row_after settings o now none = record {
  dedupe_key = o.dedupe_key;
  kind = o.kind;
  subject_type = o.subject_type;
  subject_id = o.subject_id;
  first_seen_at = now;
  last_seen_at = now;
  notified_at = if kind_enabled settings o.kind && not o.raise_immediately then none else some now;
}
row_after settings o now (some s) = record s {
  last_seen_at = now;
  notified_at = if should_raise settings o now (some s) then some now else s.notified_at;
}

-- What the call returns, what it adds to the events, and the row that it leaves.
abbrev pub Outcome : Text → Option Event → State → Db → Db × Option Event → Type 0
Outcome k e row db r =
    (r.1 ≡ e)
    × (r.0.events ≡ db.events ++ elim e [ none ↦ [] | some x ↦ x ∷ [] ])
    × (select_state k r.0.states ≡ some row)

touch-select :
    (k : Text) (now : ℕ) (l : List State) (s : State)
    → find (has_key k) l ≡ some s
    → find (has_key k) (touch k now l) ≡ some (record s { last_seen_at = now })
unfolding touch
touch-select k now [] s h = ground arith
touch-select k now (x ∷ l) s h = ground (arith, touch-select k now l s)

claim-select :
    (k : Text) (now : ℕ) (l : List State) (s : State)
    → find (has_key k) l ≡ some s
    → is_none s.notified_at ≡ true
    → (find (has_key k) (claim k now l).0
        ≡ some (record s { notified_at = some now; last_seen_at = now }))
      × ((claim k now l).1 ≡ true)
unfolding claim
claim-select k now [] s h o = ground arith
claim-select k now (x ∷ l) s h o = ground (arith, claim-select k now l s)

append_none : (l : List Event) → l ≡ l ++ []
append_none l = sym (append-nil l)

raise_event-Outcome :
    (o : Observation) (now : ℕ) (db : Db) (s : State)
    → select_state o.dedupe_key db.states ≡ some s
    → is_none s.notified_at ≡ true
    → Outcome o.dedupe_key
        (some (new_event o now))
        (record s { notified_at = some now; last_seen_at = now })
        db
        (raise_event o now db)
unfolding raise_event select_state
raise_event-Outcome o now db s h free =
    let c = claim-select o.dedupe_key now db.states s h free in rw (c.1) (refl, refl, c.0)

unfoldable pub touched : Observation → ℕ → Db → Db
touched o now db = record db { states = touch o.dedupe_key now db.states }

pub observe_row-by_rule :
    (settings : Option Settings) (o : Observation) (now : ℕ) (db : Db) (s : State)
    → observe_row settings o now s db ≡ (
        if should_raise settings o now (some s)
        then raise_event o now (touched o now db)
        else (touched o now db, none))
unfolding observe_row should_raise touched
observe_row-by_rule settings o now db s = ground arith

should_raise-free :
    (settings : Option Settings) (o : Observation) (now : ℕ) (s : State)
    → should_raise settings o now (some s) ≡ true
    → is_none s.notified_at ≡ true
unfolding should_raise
should_raise-free settings o now s h = ground arith

observe_row-Outcome :
    (settings : Option Settings) (o : Observation) (now : ℕ) (db : Db) (s : State)
    → select_state o.dedupe_key db.states ≡ some s
    → Outcome o.dedupe_key
        (if should_raise settings o now (some s) then some (new_event o now) else none)
        (row_after settings o now (some s))
        db
        (observe_row settings o now s db)
unfolding select_state row_after touched
observe_row-Outcome settings o now db s h =
    elim (Bool-cases (should_raise settings o now (some s))) [
      | inl e ↦
          rw (observe_row-by_rule settings o now db s, e)
            (raise_event-Outcome o now (touched o now db) (record s { last_seen_at = now })
              (touch-select o.dedupe_key now db.states s h) (should_raise-free settings o now s e))
      | inr e ↦
          rw (observe_row-by_rule settings o now db s, e)
            (refl, append_none db.events, touch-select o.dedupe_key now db.states s h)
    ]

inserted_lem :
    (settings : Option Settings) (o : Observation) (now : ℕ) (l : List State)
    → find (has_key o.dedupe_key) l ≡ none
    → (insert_state (new_state settings o now) l ≡ some (l ++ new_state settings o now ∷ []))
      × (find (has_key o.dedupe_key) (l ++ new_state settings o now ∷ [])
          ≡ some (new_state settings o now))
unfolding insert_state new_state
inserted_lem settings o now l h = (
  rw (find-none (has_key o.dedupe_key) l h),
  rw (find-append, h) (rw (text_eq_refl o.dedupe_key)),
)

new_state-should_raise :
    (settings : Option Settings) (o : Observation) (now : ℕ)
    → o.raise_immediately ≡ true
    → should_raise settings o now (some (new_state settings o now))
      ≡ should_raise settings o now none
unfolding should_raise new_state
new_state-should_raise settings o now h = ground arith

new_state-row_after :
    (settings : Option Settings) (o : Observation) (now : ℕ)
    → o.raise_immediately ≡ true
    → row_after settings o now (some (new_state settings o now)) ≡ row_after settings o now none
unfolding should_raise new_state row_after
new_state-row_after settings o now h = ground arith

new_state-waits :
    (settings : Option Settings) (o : Observation) (now : ℕ)
    → o.raise_immediately ≡ false
    → (should_raise settings o now none ≡ false)
      × (row_after settings o now none ≡ new_state settings o now)
unfolding should_raise new_state row_after
new_state-waits settings o now h = ground arith

abbrev Raised : Option Settings → Observation → ℕ → Option State → Db → Db × Option Event → Type 0
Raised settings o now seen db r =
    Outcome o.dedupe_key (if should_raise settings o now seen then some (new_event o now) else none)
      (row_after settings o now seen) db r

observe_inserted-Raised :
    (settings : Option Settings) (o : Observation) (now : ℕ) (db : Db)
    → find (has_key o.dedupe_key) db.states ≡ none
    → (b : Bool) → o.raise_immediately ≡ b
    → Raised settings o now none db (
        if not b
        then (record db { states = db.states ++ new_state settings o now ∷ [] }, none)
        else observe_row settings o now
            (new_state settings o now)
            (record db { states = db.states ++ new_state settings o now ∷ [] }))
unfolding select_state
observe_inserted-Raised settings o now db h true e =
    rw (← new_state-should_raise settings o now e, ← new_state-row_after settings o now e)
      (observe_row-Outcome settings o now
        (record db { states = db.states ++ new_state settings o now ∷ [] })
        (new_state settings o now) (inserted_lem settings o now db.states h).1)
observe_inserted-Raised settings o now db h false e =
    let w = new_state-waits settings o now e in
    rw (w.0, w.1) (refl, append_none db.events, (inserted_lem settings o now db.states h).1)

observe_seen-Raised :
    (settings : Option Settings) (o : Observation) (now : ℕ) (db : Db) (seen : Option State)
    → select_state o.dedupe_key db.states ≡ seen
    → Raised settings o now seen db (observe_seen settings o now seen db)
unfolding observe_seen observe_new observe_inserted select_state
observe_seen-Raised settings o now db none h =
    rw ((inserted_lem settings o now db.states h).0)
      (observe_inserted-Raised settings o now db h o.raise_immediately refl)
observe_seen-Raised settings o now db (some s) h = observe_row-Outcome settings o now db s h

-- An uninterrupted observation returns an event, and adds that event alone to the table, exactly
-- when its kind is enabled and the condition is either new and to be raised at once, or known, not
-- reported yet and either to be raised at once or first seen at least the settle time ago.
-- It leaves a row of the condition, which keeps the first sighting and is marked as notified if it
-- was, if an event was raised, or if the kind was off when the condition was first seen.
pub observe-Outcome :
    (settings : Option Settings) (o : Observation) (now : ℕ) (db : Db)
    → Outcome o.dedupe_key
        (if should_raise settings o now (select_state o.dedupe_key db.states)
          then some (new_event o now)
          else none)
        (row_after settings o now (select_state o.dedupe_key db.states))
        db
        (observe settings o now db)
unfolding observe
observe-Outcome settings o now db = observe_seen-Raised settings o now db _ refl
