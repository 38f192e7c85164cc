-- ===== src/Notifications/Conditions/Tests.antt =====
-- Small inputs of the notification conditions, and the theorems at them.
use printops.Prelude.{◌≡◌, ◌≤◌, ◌+◌, refl, true, false, none, some, List, [], ◌∷◌, arith, length}
use printops.Text.{lit, num, text_eq}
use printops.Notifications.Conditions.{
  Settings, Db, Observation, printer_error, warning, new_state, new_event, observe, observe_seen,
  select_state, clear, kind_enabled, insert_state, raise_event,
}
use printops.Notifications.Conditions.Once.{Call, run, run-raises_once, events_of, chances}
use printops.Notifications.Conditions.Raising.{observe-Outcome, Outcome, should_raise, row_after}
use printops.Notifications.Conditions.Clearing.{observe_again-clear}

abbrev on : Settings
on = record {
  enabled = true;
  settle_minutes = 5;
  notify_printer_attention = true;
  notify_printer_error = true;
  notify_toner_low = true;
  notify_quota_exceeded = false;
}

abbrev jam : Observation
jam = record {
  kind = printer_error;
  dedupe_key = lit "printer.error:" ∷ num 7 ∷ [];
  title = lit "Jam" ∷ [];
  body = lit "Tray 2" ∷ [];
  subject_type = some "printer";
  subject_id = some (num 7 ∷ []);
  severity = warning;
  raise_immediately = false;
}

abbrev empty : Db
empty = record { states = []; events = [] }

abbrev seen_once : Db
seen_once = record { states = new_state (some on) jam 0 ∷ []; events = [] }

first_pass : observe (some on) jam 0 empty ≡ (seen_once, none)
unfolding observe insert_state kind_enabled text_eq
first_pass = refl

-- Two sessions read the row before either wrote: one event.
abbrev racing : List Call
racing =
    record {
      settings = some on;
      observation = jam;
      now = 300_000_000;
      seen = some (new_state (some on) jam 0);
    }
    ∷ record {
      settings = some on;
      observation = jam;
      now = 300_000_000;
      seen = some (new_state (some on) jam 0);
    }
    ∷ []

racing_once : length (run racing seen_once).events ≡ 1
unfolding run observe_seen raise_event new_state kind_enabled text_eq
racing_once = refl

run-raises_once_example :
    length (events_of jam.dedupe_key (run racing seen_once))
    ≤ length (events_of jam.dedupe_key seen_once) + chances jam.dedupe_key seen_once
run-raises_once_example = run-raises_once jam.dedupe_key racing seen_once

observe-Outcome_example :
    Outcome jam.dedupe_key none (new_state (some on) jam 0) empty (observe (some on) jam 0 empty)
unfolding should_raise row_after kind_enabled new_state select_state
observe-Outcome_example = observe-Outcome (some on) jam 0 empty

-- The jam has been reported, and is cleared.
abbrev reported : Db
unfolding observe kind_enabled text_eq raise_event
reported = (observe (some on) jam 300_000_000 seen_once).0

told_already : (observe (some on) jam 400_000_000 reported).1 ≡ none
unfolding observe kind_enabled text_eq new_state raise_event
told_already = refl

observe_again-clear_example :
    (observe
      (some on)
      jam
      800_000_000
      (observe (some on) jam 500_000_000 (clear jam.dedupe_key reported)).0).1
    ≡ some (new_event jam 800_000_000)
unfolding kind_enabled
observe_again-clear_example =
    observe_again-clear (some on) jam 500_000_000 800_000_000 reported refl refl (omega arith)
