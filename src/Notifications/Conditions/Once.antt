-- ===== src/Notifications/Conditions/Once.antt =====
-- A condition is reported once: what any number of observations, by sessions that may have read
-- before one another's writes, add to the events of one key.
use printops.Prelude.{
  ℕ, ◌+◌, ◌≤◌, ◌≡◌, refl, ap, true, false, not, ◌||◌, Option, none, some, List, [], ◌∷◌, ◌++◌,
  arith, if◌then◌else◌, filter, any, length, length-append, filter-append, any-append, Bool-cases,
  inl, inr,
}
use mathlib.Core.Path.{subst}
use printops.Text.{Text, text_eq, text_eq_sound, text_eq_refl, text_eq_left}
use printops.Notifications.Conditions.{
  Settings, State, Event, Db, Observation, has_key, is_open, touch, claim, insert_state, new_state,
  new_event, raise_event, observe_row, observe_inserted, observe_seen,
}

abbrev pub events_of : Text → Db → List Event
events_of k db = filter (λ e. text_eq e.dedupe_key k) db.events

-- 1 while an observation of the key may still raise an event, and else 0.
abbrev pub chances : Text → Db → ℕ
chances k db = if any (is_open k) db.states || not (any (has_key k) db.states) then 1 else 0

touch-any_open :
    (k j : Text) (now : ℕ) (l : List State) → any (is_open k) (touch j now l) ≡ any (is_open k) l
unfolding touch
touch-any_open k j now [] = refl
touch-any_open k j now (s ∷ l) = ground (arith, touch-any_open k j now l)

pub touch-any_key :
    (k j : Text) (now : ℕ) (l : List State) → any (has_key k) (touch j now l) ≡ any (has_key k) l
unfolding touch
touch-any_key k j now [] = refl
touch-any_key k j now (s ∷ l) = ground (arith, touch-any_key k j now l)

pub claim-any_key :
    (k j : Text) (now : ℕ) (l : List State) → any (has_key k) (claim j now l).0 ≡ any (has_key k) l
unfolding claim
claim-any_key k j now [] = refl
claim-any_key k j now (s ∷ l) = ground (arith, claim-any_key k j now l)

claim-any_open_self :
    (k : Text) (now : ℕ) (l : List State) → any (is_open k) (claim k now l).0 ≡ false
unfolding claim
claim-any_open_self k now [] = refl
claim-any_open_self k now (s ∷ l) = ground (arith, claim-any_open_self k now l)

claim-any_open_ne :
    (k j : Text) (now : ℕ) (l : List State)
    → text_eq j k ≡ false
    → any (is_open k) (claim j now l).0 ≡ any (is_open k) l
unfolding claim
claim-any_open_ne k j now [] ne = refl
claim-any_open_ne k j now (s ∷ l) ne =
    ground (arith, claim-any_open_ne k j now l ne, text_eq_left s.dedupe_key j k)

-- The potential of the argument: events so far, and those that may still come.
abbrev pub budget : Text → Db → ℕ
budget k db = length (events_of k db) + chances k db

budget_snoc :
    (k : Text) (db : Db) (e : Event)
    → length (filter (λ x. text_eq x.dedupe_key k) (db.events ++ e ∷ []))
      ≡ length (events_of k db) + (if text_eq e.dedupe_key k then 1 else 0)
budget_snoc k db e = rw filter-append (rw length-append (ground arith))

any_open→any_key : (k : Text) (l : List State) → any (is_open k) l ≡ true → any (has_key k) l ≡ true
any_open→any_key k [] h = h
any_open→any_key k (s ∷ l) h = ground (arith, any_open→any_key k l)

raise_event-budget_self :
    (o : Observation) (now : ℕ) (db : Db)
    → budget o.dedupe_key (raise_event o now db).0 ≤ budget o.dedupe_key db
unfolding raise_event
raise_event-budget_self o now db = elim (Bool-cases (any (is_open o.dedupe_key) db.states)) [
  | inl e ↦ rw e (
      ground (
        arith,
        budget_snoc o.dedupe_key db (new_event o now),
        text_eq_refl o.dedupe_key,
        claim-any_key o.dedupe_key o.dedupe_key now db.states,
        claim-any_open_self o.dedupe_key now db.states,
        any_open→any_key o.dedupe_key db.states e,
      ))
  | inr e ↦ rw e (
      ground (
        arith,
        claim-any_key o.dedupe_key o.dedupe_key now db.states,
        claim-any_open_self o.dedupe_key now db.states,
      ))
]

raise_event-budget_ne :
    (k : Text) (o : Observation) (now : ℕ) (db : Db)
    → text_eq o.dedupe_key k ≡ false
    → budget k (raise_event o now db).0 ≤ budget k db
unfolding raise_event
raise_event-budget_ne k o now db ne = elim (Bool-cases (any (is_open o.dedupe_key) db.states)) [
  | inl e ↦ rw e (
      ground (
        arith,
        budget_snoc k db (new_event o now),
        claim-any_key k o.dedupe_key now db.states,
        claim-any_open_ne k o.dedupe_key now db.states ne,
      ))
  | inr e ↦ rw e (
      ground (
        arith,
        claim-any_key k o.dedupe_key now db.states,
        claim-any_open_ne k o.dedupe_key now db.states ne,
      ))
]

raise_event-budget :
    (k : Text) (o : Observation) (now : ℕ) (db : Db)
    → budget k (raise_event o now db).0 ≤ budget k db
raise_event-budget k o now db = elim (Bool-cases (text_eq o.dedupe_key k)) [
  | inl e ↦
      subst (λ t. budget t (raise_event o now db).0 ≤ budget t db) (text_eq_sound o.dedupe_key k e)
        (raise_event-budget_self o now db)
  | inr ne ↦ raise_event-budget_ne k o now db ne
]

observe_row-budget :
    (settings : Option Settings) (k : Text) (o : Observation) (now : ℕ) (state : State) (db : Db)
    → budget k (observe_row settings o now state db).0 ≤ budget k db
unfolding observe_row
observe_row-budget settings k o now state db = ground (
  arith,
  touch-any_open k o.dedupe_key now db.states,
  touch-any_key k o.dedupe_key now db.states,
  raise_event-budget k o now (record db { states = touch o.dedupe_key now db.states }),
)

-- A new row of a key takes the chance that the missing row left.
insert_state-budget :
    (k : Text) (s : State) (db : Db) (states : List State)
    → insert_state s db.states ≡ some states
    → budget k (record db { states = states }) ≤ budget k db
unfolding insert_state
insert_state-budget k s db states h = elim (Bool-cases (text_eq s.dedupe_key k)) [
  | inl e ↦ ground (
    arith,
    any-append (is_open k) db.states (s ∷ []),
    any-append (has_key k) db.states (s ∷ []),
    ap (λ t. any (has_key t) db.states) (text_eq_sound s.dedupe_key k e),
  )
  | inr e ↦
      ground (
        arith,
        any-append (is_open k) db.states (s ∷ []),
        any-append (has_key k) db.states (s ∷ []),
      )
]

observe_inserted-budget :
    (settings : Option Settings) (k : Text) (o : Observation) (now : ℕ) (db : Db)
    (inserted : Option (List State))
    → insert_state (new_state settings o now) db.states ≡ inserted
    → budget k (observe_inserted settings o now db inserted).0 ≤ budget k db
unfolding observe_inserted
observe_inserted-budget settings k o now db none e = omega arith
observe_inserted-budget settings k o now db (some states) e =
    elim o.raise_immediately
      as (λ b.
        budget k
          (if not b
            then (record db { states = states }, none)
            else observe_row settings o now (new_state settings o now)
                (record db { states = states })).0
        ≤ budget k db) [
          | true ↦ omega (
            arith,
            insert_state-budget k (new_state settings o now) db states e,
            observe_row-budget settings k o now (new_state settings o now)
                (record db { states = states }),
          )
          | false ↦ insert_state-budget k (new_state settings o now) db states e
        ]

pub observe_seen-budget :
    (settings : Option Settings) (k : Text) (o : Observation) (now : ℕ) (seen : Option State)
    (db : Db)
    → budget k (observe_seen settings o now seen db).0 ≤ budget k db
unfolding observe_seen
observe_seen-budget settings k o now none db = observe_inserted-budget settings k o now db _ refl
observe_seen-budget settings k o now (some s) db = observe_row-budget settings k o now s db

-- One call of some session: its settings, its instant and the row that it had read.
pub record Call : Type 0 where
  pub settings : Option Settings
  pub observation : Observation
  pub now : ℕ
  pub seen : Option State

-- The writes of several sessions' calls, in the order in which they take effect.
unfoldable pub run : List Call → Db → Db
run [] db = db
run (c ∷ cs) db = run cs (observe_seen c.settings c.observation c.now c.seen db).0

run-budget : (k : Text) (cs : List Call) (db : Db) → budget k (run cs db) ≤ budget k db
unfolding run
run-budget k [] db = omega arith
run-budget k (c ∷ cs) db = omega (
  arith,
  run-budget k cs (observe_seen c.settings c.observation c.now c.seen db).0,
  observe_seen-budget c.settings k c.observation c.now c.seen db,
)

-- However many sessions observe a condition, in whatever order and with whatever stale rows in
-- hand, the event table gains at most one event of its key while the condition is not cleared;
-- and none if the condition has a row and each such row is marked as notified.
pub run-raises_once :
    (k : Text) (cs : List Call) (db : Db)
    → length (events_of k (run cs db)) ≤ length (events_of k db) + chances k db
run-raises_once k cs db = omega (arith, run-budget k cs db)
