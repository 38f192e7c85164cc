-- ===== src/QueueRecovery/Lpstat.antt =====
-- printers/queue_recovery.py: _parse, which reads the output of `lpstat -p`.
-- The output is the list of its lines, as `splitlines` gives them, and a line is its code points.
use printops.Prelude.{
  codes, ℕ, ◌≡◌, refl, sym, ap, ◌∙◌, Bool, true, false, not, ◌&&◌, ◌||◌, Option, none, some, List,
  [], ◌∷◌, ◌==◌, if◌then◌else◌, any, is_none, some_inj, arith, Bool-cases, inl, inr,
}
use printops.MediaOptions.{is_space}

abbrev printer_word : List ℕ
printer_word = codes "printer "

abbrev disabled_since : List ℕ
disabled_since = codes " disabled since "

-- `line.startswith(prefix)`
unfoldable pub starts_with : List ℕ → List ℕ → Bool
starts_with [] line = true
starts_with (p ∷ prefix) [] = false
starts_with (p ∷ prefix) (c ∷ line) = (p == c) && starts_with prefix line

-- `part in line`
unfoldable pub contains : List ℕ → List ℕ → Bool
unfolding starts_with
contains part [] = starts_with part []
contains part (c ∷ line) = starts_with part (c ∷ line) || contains part line

unfoldable pub strip_left : List ℕ → List ℕ
unfolding is_space
strip_left [] = []
strip_left (c ∷ line) = let rest = strip_left line in if is_space c then rest else c ∷ line

unfoldable pub strip_right : List ℕ → List ℕ
unfolding is_space
strip_right [] = []
strip_right (c ∷ line) = trimmed (strip_right line)
  where
    trimmed : List ℕ → List ℕ
    trimmed [] = if is_space c then [] else c ∷ []
    trimmed (d ∷ rest) = c ∷ d ∷ rest

-- `line.strip()`
abbrev pub strip : List ℕ → List ℕ
strip line = strip_right (strip_left line)

pub record LocalQueueState : Type 0 where
  pub stopped : Bool
  pub message : Option (List ℕ)

-- The variables of the loop.
pub record Parsed : Type 0 where
  pub queue_stopped : Bool
  pub queue_message : Option (List ℕ)
  pub in_stopped_block : Bool
  pub saw_a_queue : Bool

-- `if in_stopped_block and detail and message is None: message = detail`
abbrev pub with_detail : Parsed → List ℕ → Parsed
with_detail p [] = p
with_detail p (c ∷ detail) =
    if p.in_stopped_block && is_none p.queue_message
    then record p { queue_message = some (c ∷ detail) }
    else p

abbrev pub is_queue_line : List ℕ → Bool
is_queue_line line = starts_with printer_word line

abbrev pub is_disabled : List ℕ → Bool
is_disabled line = contains disabled_since line

-- What the first line of a block does.
abbrev pub queue_line : Parsed → List ℕ → Parsed
queue_line p line = record p {
  saw_a_queue = true;
  in_stopped_block = is_disabled line;
  queue_stopped = p.queue_stopped || is_disabled line;
}

-- The body of the loop.
unfoldable pub parse_line : Parsed → List ℕ → Parsed
unfolding starts_with contains strip_left strip_right
parse_line p line = if is_queue_line line then queue_line p line else with_detail p (strip line)

unfoldable pub parse_lines : Parsed → List (List ℕ) → Parsed
unfolding parse_line
parse_lines p [] = p
parse_lines p (line ∷ lines) = parse_lines (parse_line p line) lines

abbrev pub nothing_seen : Parsed
nothing_seen = record {
  queue_stopped = false;
  queue_message = none;
  in_stopped_block = false;
  saw_a_queue = false;
}

unfoldable pub parse : List (List ℕ) → Option LocalQueueState
unfolding parse_lines
parse output =
    let p = parse_lines nothing_seen output in
    if not p.saw_a_queue
    then none
    else some (record { stopped = p.queue_stopped; message = p.queue_message })

-- printops-{id} and printops-release-{id}
pub data QueueName : Type 0 where
  client release : ℕ → QueueName

abbrev pub or_else : Option (List (List ℕ)) → Option (List (List ℕ)) → Option (List (List ℕ))
or_else none b = b
or_else (some a) b = some a

abbrev pub parse_output : Option (List (List ℕ)) → Option LocalQueueState
parse_output none = none
parse_output (some output) = parse output

-- `lpstat` is the command's output for the queues; `none` is a command that failed.
unfoldable pub local_queue_state :
    (lpstat : List QueueName → Option (List (List ℕ))) → ℕ → Option LocalQueueState
unfolding parse
local_queue_state lpstat printer_id = parse_output (
    or_else (lpstat (client printer_id ∷ release printer_id ∷ []))
      (lpstat (client printer_id ∷ [])))

with_detail-flags :
    (p : Parsed) (detail : List ℕ)
    → ((with_detail p detail).saw_a_queue ≡ p.saw_a_queue)
      × ((with_detail p detail).queue_stopped ≡ p.queue_stopped)
with_detail-flags p [] = (refl, refl)
with_detail-flags p (c ∷ detail) =
    elim (Bool-cases (p.in_stopped_block && is_none p.queue_message)) [
      | inl e ↦ rw e (refl, refl)
      | inr e ↦ rw e (refl, refl)
    ]

-- A line of a stopped queue.
abbrev pub is_stopped_line : List ℕ → Bool
is_stopped_line line = is_queue_line line && is_disabled line

queue_case :
    (p : Parsed) (line : List ℕ) → is_queue_line line ≡ true → parse_line p line ≡ queue_line p line
unfolding parse_line
queue_case p line e = ap (λ b. if b then queue_line p line else with_detail p (strip line)) e

detail_case :
    (p : Parsed) (line : List ℕ)
    → is_queue_line line ≡ false
    → parse_line p line ≡ with_detail p (strip line)
unfolding parse_line
detail_case p line e = ap (λ b. if b then queue_line p line else with_detail p (strip line)) e

lines-flags :
    (p : Parsed) (lines : List (List ℕ))
    → ((parse_lines p lines).saw_a_queue ≡ (p.saw_a_queue || any is_queue_line lines))
      × ((parse_lines p lines).queue_stopped ≡ (p.queue_stopped || any is_stopped_line lines))
unfolding parse_lines
lines-flags p [] = (ground arith, ground arith)
lines-flags p (line ∷ lines) = elim (Bool-cases (is_queue_line line)) [
  | inl e ↦
      let ih = lines-flags (queue_line p line) lines in
      let q = queue_case p line e in
      (
        ap (λ r. (parse_lines r lines).saw_a_queue) q
            ∙ ih.0
            ∙ seen p.saw_a_queue (is_queue_line line) (any is_queue_line lines) e,
        ap (λ r. (parse_lines r lines).queue_stopped) q
            ∙ ih.1
            ∙ disabled p.queue_stopped (is_queue_line line) (is_disabled line)
                (any is_stopped_line lines) e,
      )
  | inr e ↦
      let ih = lines-flags (with_detail p (strip line)) lines in
      let f = with_detail-flags p (strip line) in
      let q = detail_case p line e in
      (
        ap (λ r. (parse_lines r lines).saw_a_queue) q
            ∙ ih.0
            ∙ passed p.saw_a_queue (with_detail p (strip line)).saw_a_queue (is_queue_line line)
                (any is_queue_line lines) f.0 e,
        ap (λ r. (parse_lines r lines).queue_stopped) q
            ∙ ih.1
            ∙ skipped p.queue_stopped (with_detail p (strip line)).queue_stopped
                (is_queue_line line) (is_disabled line) (any is_stopped_line lines) f.1 e,
      )
]
  where
    seen : (a b c : Bool) → b ≡ true → (true || c) ≡ (a || (b || c))
    seen a b c e = ground arith

    disabled : (a b d c : Bool) → b ≡ true → ((a || d) || c) ≡ (a || ((b && d) || c))
    disabled a b d c e = ground arith

    passed : (a x b c : Bool) → x ≡ a → b ≡ false → (x || c) ≡ (a || (b || c))
    passed a x b c f e = ground arith

    skipped : (a x b d c : Bool) → x ≡ a → b ≡ false → (x || c) ≡ (a || ((b && d) || c))
    skipped a x b d c f e = ground arith

state_of :
    (b : Bool) (s t : LocalQueueState)
    → (if not b then none else some s) ≡ some t
    → s.stopped ≡ t.stopped
state_of false s t h = cc
state_of true s t h = ap LocalQueueState.stopped (some_inj h)

is_none_if : (b : Bool) (s : LocalQueueState) → is_none (if not b then none else some s) ≡ not b
is_none_if false s = refl
is_none_if true s = refl

-- The state of a printer's queues is unknown exactly when no line of the output names a queue, and
-- otherwise it is stopped exactly when some line of a queue says that it is disabled, whatever the
-- lines between them are: a detail line never makes a queue stopped.
parse-stopped :
    (output : List (List ℕ)) (s : LocalQueueState)
    → (is_none (parse output) ≡ not (any is_queue_line output))
      × (parse output ≡ some s → s.stopped ≡ any is_stopped_line output)
unfolding parse
parse-stopped output s =
    let f = lines-flags nothing_seen output in
    let p = parse_lines nothing_seen output in
    let t : LocalQueueState = record { stopped = p.queue_stopped; message = p.queue_message } in
    (is_none_if p.saw_a_queue t ∙ ap not f.0, λ h. sym (state_of p.saw_a_queue t s h) ∙ f.1)
