-- ===== src/Notifications/Conditions/Clearing.antt =====
-- Conditions that end: what `clear` and `clear_missing` leave, and what comes after them.
use printops.Prelude.{
  ℕ, ◌+◌, ◌≤◌, ◌≡◌, ◌∙◌, ap, Bool, true, false, not, ◌&&◌, Option, none, some, List, [], ◌∷◌, arith,
  if◌then◌else◌, find, filter, any, Bool-cases, inl, inr,
}
use printops.Text.{Text, text_eq, text_eq_sound, text_eq_refl}
use printops.Notifications.Conditions.{
  Settings, State, Db, Observation, has_key, select_state, settle_of, new_event, observe,
  kind_enabled, clear, clear_missing,
}
use printops.Notifications.Conditions.Raising.{observe-Outcome, should_raise, row_after}

-- A selection over the rows that a test on the key keeps.
find-filter_key :
    (j : Text) (keep : Text → Bool) (l : List State)
    → find (has_key j) (filter (λ s. keep s.dedupe_key) l)
      ≡ (if keep j then find (has_key j) l else none)
find-filter_key j keep [] = ground arith
find-filter_key j keep (s ∷ l) = elim (Bool-cases (text_eq s.dedupe_key j)) [
  | inl e ↦ ground (arith, find-filter_key j keep l, ap keep (text_eq_sound s.dedupe_key j e))
  | inr e ↦ ground (arith, find-filter_key j keep l)
]

select-clear :
    (k j : Text) (db : Db)
    → select_state j (clear k db).states ≡ (if text_eq j k then none else select_state j db.states)
unfolding clear select_state
select-clear k j db = find-filter_key j (λ t. not (text_eq t k)) db.states ∙ (ground arith)

-- `clear_missing` removes the row of a key exactly when the key is under the prefix and was not
-- observed, and keeps every other row as it is.
select-clear_missing :
    (like : Text → Text → Bool) (prefix : Text) (still_true : List Text) (j : Text) (db : Db)
    → select_state j (clear_missing like prefix still_true db).states ≡ (
        if like prefix j && not (any (text_eq j) still_true)
        then none
        else select_state j db.states)
unfolding clear_missing select_state
select-clear_missing like prefix still_true j db =
    find-filter_key j (λ t. not (like prefix t && not (any (text_eq t) still_true))) db.states
    ∙ (ground arith)

module _ (settings : Option Settings) (o : Observation) (now later : ℕ) (db : Db)
    (enabled : kind_enabled settings o.kind ≡ true) (waits : o.raise_immediately ≡ false) where
  -- Let a condition be of a kind that the settings enable, and not be raised immediately. If it is cleared, then
  -- observed, and next observed, with the same settings and nothing in between, when the settle time has passed, the
  -- second observation reports it, whatever the tables were before it was cleared.
  pub observe_again-clear :
      now + settle_of settings ≤ later
      → (observe settings o later (observe settings o now (clear o.dedupe_key db)).0).1
        ≡ some (new_event o later)
  unfolding should_raise row_after
  observe_again-clear settled =
      let gone : select_state o.dedupe_key (clear o.dedupe_key db).states ≡ none =
        rw (select-clear, text_eq_refl) in
      let first = observe-Outcome settings o now (clear o.dedupe_key db) in
      let again =
        observe-Outcome settings o later (observe settings o now (clear o.dedupe_key db)).0 in
      again.0 ∙ rw (first.2, gone) (ground arith)
