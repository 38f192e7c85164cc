-- ===== src/PageReconcile/Charges.antt =====
-- printers/page_reconcile.py: assess charges the pages of a job to one window.
use printops.Prelude.{
  ℕ, ◌+◌, ◌≤◌, ◌≡◌, sym, ap, some, List, [], ◌∷◌, arith, ltb, filter, sum_by, some_inj,
}
use printops.PageReconcile.{
  SentJob, least_expected, LostWindow, shortfall_of, inside, judged, append_verdict, windows_from,
  or_none, assess,
}
use printops.PageReconcile.Evidence.{judged-Judgement, silent, reported, expected_in}

-- The readings are in the order of time.
abbrev pub InOrder : ℕ × ℕ → List (ℕ × ℕ) → Type 0
InOrder first [] = Unit
InOrder first (next ∷ readings) = (first.0 ≤ next.0) × InOrder next readings

-- What is expected of the jobs that finished after an instant.
abbrev later : ℕ → List SentJob → ℕ
later s jobs = sum_by least_expected (filter (λ job. ltb s job.completed_at) jobs)

later-all : (s : ℕ) (jobs : List SentJob) → later s jobs ≤ sum_by least_expected jobs
later-all s [] = omega arith
later-all s (j ∷ jobs) = ground (arith, later-all s jobs)

inside-later :
    (s e : ℕ) (jobs : List SentJob)
    → s ≤ e
    → sum_by least_expected (inside s e jobs) + later e jobs ≤ later s jobs
inside-later s e [] h = omega arith
inside-later s e (j ∷ jobs) h = let ih = inside-later s e jobs h in ground arith

append-charge :
    (first next : ℕ × ℕ) (jobs : List SentJob) (ws : List LostWindow)
    → sum_by LostWindow.expected (append_verdict (judged first next jobs) ws)
      ≤ expected_in first next jobs + sum_by LostWindow.expected ws
append-charge first next jobs ws = elim (judged-Judgement first next jobs) [
  | silent e n ↦ rw e (omega arith)
  | reported w e short p counted due ↦ rw e (omega (arith, due))
]

windows-charge :
    (first : ℕ × ℕ) (readings : List (ℕ × ℕ)) (jobs : List SentJob)
    → InOrder first readings
    → sum_by LostWindow.expected (windows_from first readings jobs) ≤ later first.0 jobs
unfolding windows_from
windows-charge first [] jobs o = omega arith
windows-charge first (next ∷ readings) jobs o = omega (
  arith,
  append-charge first next jobs (windows_from next readings jobs),
  windows-charge next readings jobs o.1,
  inside-later first.0 next.0 jobs o.0,
)

-- No page is missed twice: with the readings in the order of time, all that the windows of an
-- assessment expect is at most what the jobs together expect, and so is all they report as lost.
assess-charges_once :
    (first : ℕ × ℕ) (readings : List (ℕ × ℕ)) (jobs : List SentJob) (windows : List LostWindow)
    → InOrder first readings
    → assess (first ∷ readings) jobs ≡ some windows
    → (sum_by LostWindow.expected windows ≤ sum_by least_expected jobs)
      × (sum_by shortfall_of windows ≤ sum_by least_expected jobs)
unfolding assess
assess-charges_once first readings jobs windows o e =
    let c = windows-charge first readings jobs o in
    let l = later-all first.0 jobs in
    let s = listed (windows_from first readings jobs) windows e in
    let t = shortfalls windows in (omega (arith, c, l, s), omega (arith, c, l, s, t))
  where
    listed :
        (us ws : List LostWindow)
        → or_none us ≡ some ws
        → sum_by LostWindow.expected ws ≡ sum_by LostWindow.expected us
    listed [] ws h = cc
    listed (u ∷ us) ws h = ap (sum_by LostWindow.expected) (sym (some_inj h))

    shortfalls : (ws : List LostWindow) → sum_by shortfall_of ws ≤ sum_by LostWindow.expected ws
    shortfalls [] = omega arith
    shortfalls (w ∷ ws) = omega (arith, shortfalls ws)
