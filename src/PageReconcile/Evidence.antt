-- ===== src/PageReconcile/Evidence.antt =====
-- printers/page_reconcile.py: what a verdict rests on, and how it is read back from its row.
use mathlib.Core.Path.{subst}
use printops.Prelude.{
  ℕ, ◌+◌, ◌-◌, ◌*◌, ◌≤◌, ◌<◌, ◌≡◌, refl, Bool, true, false, not, ◌&&◌, ◌||◌, none, some, List, [],
  ◌∷◌, arith, ltb, leb, ◌==◌, if◌then◌else◌, sum_by, length, All, Bool-cases, inl, inr, some_inj,
}
use printops.Printers.{PagesRecord}
use printops.PageReconcile.{
  SentJob, least_expected, LostWindow, shortfall_of, window_verdict, inside, judged, append_verdict,
  windows_from, or_none, assess, to_record, recorded_reason, documents_of, names_of, min_shortfall,
  stale_after,
}

-- Pages were lost between a counter of `before` and one of `after`: the counter did not go backwards,
-- and `expected` is five pages more than it moved, and more than twice as many.
pub record Short (expected before after : ℕ) : Type 0 where
  pub forwards : before ≤ after
  pub enough : after + min_shortfall ≤ expected + before
  pub half : 2 * (after - before) < expected

abbrev is_lost : ℕ → ℕ → ℕ → Bool
is_lost x b a =
    not (ltb a b) && (not (leb x 0) && not (ltb x (a - b + min_shortfall) || leb x (2 * (a - b))))

is_lost-nested :
    (x b a : ℕ) (w : LostWindow)
    → (if ltb a b
        then none
        else if leb x 0
        then none
        else if ltb x (a - b + min_shortfall) || leb x (2 * (a - b))
        then none
        else some w)
      ≡ (if is_lost x b a then some w else none)
is_lost-nested x b a w = ground arith

is_lost-Short : (x b a : ℕ) → is_lost x b a ≡ true → Short x b a
is_lost-Short x b a h = record {
  forwards = ground arith;
  enough = ground arith;
  half = ground arith;
}

not_lost : (x b a : ℕ) → is_lost x b a ≡ false → ¬ Short x b a
not_lost x b a h s = let f = s.forwards in let n = s.enough in let m = s.half in ground arith

-- The counted pages of a verdict and what it expects.
abbrev pub expected_in : ℕ × ℕ → ℕ × ℕ → List SentJob → ℕ
expected_in first next jobs = sum_by least_expected (inside first.0 next.0 jobs)

-- What a pair of readings is judged to be.
pub data Judgement (first next : ℕ × ℕ) (jobs : List SentJob) : Type 0 where
  silent :
      judged first next jobs ≡ none
      → ¬ Short (expected_in first next jobs) first.1 next.1
      → Judgement first next jobs
  reported :
      (w : LostWindow)
      → judged first next jobs ≡ some w
      → Short (expected_in first next jobs) first.1 next.1
      → (w.started_at ≡ first.0) × (w.ended_at ≡ next.0)
      → w.counted + first.1 ≡ next.1
      → w.expected ≡ expected_in first next jobs
      → Judgement first next jobs

no_jobs : (jobs : List SentJob) → length jobs ≡ 0 → sum_by least_expected jobs ≡ 0
no_jobs [] h = refl
no_jobs (j ∷ jobs) h = omega (arith, h)

abbrev found : ℕ → ℕ → ℕ → List SentJob → LostWindow
found s e counted jobs = record {
  started_at = s;
  ended_at = e;
  expected = sum_by least_expected jobs;
  counted = counted;
  documents = names_of jobs;
  jobs = length jobs;
}

-- A pair of readings is reported exactly when pages were lost between them: the counter did not go
-- backwards, and the jobs that finished between them expected at least five pages more than it
-- moved and more than twice as many. The report has the instants and the counts of the pair.
pub judged-Judgement : (first next : ℕ × ℕ) (jobs : List SentJob) → Judgement first next jobs
unfolding judged window_verdict
judged-Judgement (s, b) (e, a) jobs = elim (Bool-cases (length (inside s e jobs) == 0)) [
  | inl z ↦
      silent (rw z)
        (λ h. let n = no_jobs (inside s e jobs) (ground arith) in let m = h.half in omega arith)
  | inr z ↦ elim (Bool-cases (is_lost (sum_by least_expected (inside s e jobs)) b a)) [
    | inl l ↦
        let h = is_lost-Short (sum_by least_expected (inside s e jobs)) b a l in
        reported (found s e (a - b) (inside s e jobs)) (rw (z, is_lost-nested, l)) h (refl, refl)
          (omega (arith, h.forwards)) refl
    | inr l ↦
        silent (rw (z, is_lost-nested, l))
          (not_lost (sum_by least_expected (inside s e jobs)) b a l)
  ]
]

-- The windows are the reports of the pairs.
abbrev pub Worth : LostWindow → Type 0
Worth w = (w.counted + min_shortfall ≤ w.expected) × (2 * w.counted < w.expected)

judged-Worth :
    (first next : ℕ × ℕ) (jobs : List SentJob) (ws : List LostWindow)
    → All Worth ws
    → All Worth (append_verdict (judged first next jobs) ws)
judged-Worth first next jobs ws h = elim (judged-Judgement first next jobs) [
  | silent e n ↦ rw e h
  | reported w e short p counted due ↦
      rw e ((omega (arith, short.enough, counted, due), omega (arith, short.half, counted, due)), h)
]

windows-Worth :
    (first : ℕ × ℕ) (readings : List (ℕ × ℕ)) (jobs : List SentJob)
    → All Worth (windows_from first readings jobs)
unfolding windows_from
windows-Worth first [] jobs = tt
windows-Worth first (next ∷ readings) jobs =
    judged-Worth first next jobs (windows_from next readings jobs)
      (windows-Worth next readings jobs)

Worth-sum :
    (ws : List LostWindow) → All Worth ws → length ws * min_shortfall ≤ sum_by shortfall_of ws
Worth-sum [] h = omega arith
Worth-sum (w ∷ ws) h = omega (arith, h.0.0, Worth-sum ws h.1)

assess-Worth :
    (readings : List (ℕ × ℕ)) (jobs : List SentJob) (ws : List LostWindow)
    → assess readings jobs ≡ some ws
    → (1 ≤ length ws) × All Worth ws
unfolding assess
assess-Worth [] jobs ws h = cc
assess-Worth (first ∷ readings) jobs ws h =
    listed (windows_from first readings jobs) h (windows-Worth first readings jobs)
  where
    listed :
        (us : List LostWindow)
        → or_none us ≡ some ws
        → All Worth us
        → (1 ≤ length ws) × All Worth ws
    listed [] e k = cc
    listed (u ∷ us) e k = subst (λ vs. (1 ≤ length vs) × All Worth vs) (some_inj e) (omega arith, k)

reported_record :
    (r : PagesRecord) (now : ℕ)
    → min_shortfall ≤ r.shortfall
    → 1 ≤ r.windows
    → recorded_reason (some r) now ≡ (
        if ltb (r.assessed_at + stale_after) now
        then none
        else some (r.shortfall, r.windows, r.documents))
unfolding recorded_reason
reported_record r now h k = ground arith

-- The verdict of an assessment is read back from the row as it was written, its pages, its windows
-- and its documents, until the three hours are over, and never after.
pub recorded_reason-to_record :
    (readings : List (ℕ × ℕ)) (jobs : List SentJob) (windows : List LostWindow) (at now : ℕ)
    → assess readings jobs ≡ some windows
    → recorded_reason (some (to_record windows at)) now ≡ (
        if ltb (at + stale_after) now
        then none
        else some (sum_by shortfall_of windows, length windows, documents_of windows))
unfolding to_record
recorded_reason-to_record readings jobs windows at now e =
    let k = assess-Worth readings jobs windows e in
    let s = Worth-sum windows k.1 in
    reported_record (to_record windows at) now (omega (arith, s, k.0)) k.0
