-- ===== src/JobReconcile/Superseding.antt =====
-- jobs.py: of the attempts at one CUPS job the latest stands.
use printops.Prelude.{
  ℕ, ◌≤◌, ◌≡◌, refl, sym, Bool, ◌∙◌, true, false, ◌&&◌, Option, none, some, List, [], ◌∷◌, arith,
  ltb, ◌==◌, if◌then◌else◌, Bool-cases, ◌⊎◌, inl, inr, any, filter, any_of_find, All, not-ltb,
}
use printops.Jobs.{Job, get_job}
use printops.JobReconcile.{same_cups_job, later_of, latest, superseded_by}

-- Attempts at one CUPS job of one printer.
abbrev pub SameCupsJob : Job → Job → ℕ → Type 0
SameCupsJob a b c =
    (a.printer_id ≡ b.printer_id) × (a.cups_job_id ≡ some c) × (b.cups_job_id ≡ some c)

latest-same :
    (a b : Job) (c : ℕ) (rows : List Job) (best : Option (ℕ × ℕ))
    → SameCupsJob a b c
    → latest a rows best ≡ latest b rows best
unfolding latest
latest-same a b c [] best s = refl
latest-same a b c (row ∷ rows) best s = rw (same_rows a b c row s) (latest-same a b c rows _ s)
  where
    same_rows :
        (a b : Job) (c : ℕ) (row : Job)
        → SameCupsJob a b c
        → same_cups_job a row ≡ same_cups_job b row
    same_rows a b c row s = rw (s.0, s.1, s.2)

-- What the loop has found: an attempt among the rows or the one it began with, and none is later.
record Latest (job : Job) (rows : List Job) (best : Option (ℕ × ℕ)) (i t : ℕ) : Type 0 where
  from :
      (best ≡ some (i, t))
      ⊎ (any (λ r. same_cups_job job r && (r.id == i && r.created_at == t)) rows ≡ true)
  no_row_later : All (λ r. same_cups_job job r ≡ true → r.created_at ≤ t) rows
  no_later : (j u : ℕ) → best ≡ some (j, u) → u ≤ t

abbrev step : Job → Job → Option (ℕ × ℕ) → Option (ℕ × ℕ)
step job row best = if same_cups_job job row then later_of row best else best

data StepCase (job row : Job) (best : Option (ℕ × ℕ)) : Type 0 where
  passed : same_cups_job job row ≡ false → step job row best ≡ best → StepCase job row best
  taken :
      same_cups_job job row ≡ true
      → step job row best ≡ some (row.id, row.created_at)
      → ((j u : ℕ) → best ≡ some (j, u) → u ≤ row.created_at)
      → StepCase job row best
  kept :
      (j u : ℕ)
      → same_cups_job job row ≡ true
      → best ≡ some (j, u)
      → step job row best ≡ best
      → row.created_at ≤ u
      → StepCase job row best

step_case : (job row : Job) (best : Option (ℕ × ℕ)) → StepCase job row best
step_case job row best = elim (Bool-cases (same_cups_job job row)) [
  | inr e ↦ passed e (rw e)
  | inl e ↦ matched best e
]
  where
    matched : (b : Option (ℕ × ℕ)) → same_cups_job job row ≡ true → StepCase job row b
    matched none e = taken e (rw e) (λ j u h. cc)
    matched (some (j, u)) e = elim (Bool-cases (ltb u row.created_at)) [
      | inl l ↦ taken e (rw (e, l)) (λ k v h. ground arith)
      | inr l ↦ kept j u e refl (rw (e, l)) (not-ltb u row.created_at l)
    ]

same_pair :
    (i t : ℕ) (row : Job)
    → ◌≡◌ {A = Option (ℕ × ℕ)} (some (row.id, row.created_at)) (some (i, t))
    → (row.id ≡ i) × (row.created_at ≡ t)
same_pair i t row h = ground arith

same_second : (j u i t : ℕ) (b : Option (ℕ × ℕ)) → b ≡ some (j, u) → b ≡ some (i, t) → u ≡ t
same_second j u i t b h k = ground arith

latest-Latest :
    (job : Job) (rows : List Job) (best : Option (ℕ × ℕ)) (i t : ℕ)
    → latest job rows best ≡ some (i, t)
    → Latest job rows best i t
unfolding latest
latest-Latest job [] best i t e = record {
  from = inl e;
  no_row_later = tt;
  no_later = λ j u h. omega (arith, same_second j u i t best h e);
}
latest-Latest job (row ∷ rows) best i t e =
    let ih = latest-Latest job rows (step job row best) i t e in
    elim (step_case job row best) [
      | passed m s ↦ record {
        from = elim ih.from [ inl f ↦ inl (sym s ∙ f) | inr f ↦ inr (rw m f) ];
        no_row_later = (λ h. cc (m, h), ih.no_row_later);
        no_later = λ j u h. ih.no_later j u (s ∙ h);
      }
      | taken m s l ↦ record {
        from = elim ih.from [
          | inl f ↦ let p = same_pair i t row (sym s ∙ f) in inr (ground arith)
          | inr f ↦ inr (ground arith)
        ];
        no_row_later = (λ h. ih.no_later row.id row.created_at s, ih.no_row_later);
        no_later = λ j u h. omega (arith, l j u h, ih.no_later row.id row.created_at s);
      }
      | kept j u m b s l ↦ record {
        from = elim ih.from [ inl f ↦ inl (sym s ∙ f) | inr f ↦ inr (ground arith) ];
        no_row_later = (λ h. omega (arith, l, ih.no_later j u (s ∙ b)), ih.no_row_later);
        no_later = λ k v h. ih.no_later k v (s ∙ h);
      }
    ]

own_row : (job : Job) (c : ℕ) → job.cups_job_id ≡ some c → same_cups_job job job ≡ true
own_row job c e = rw e (ground arith)

-- Some attempt is the latest, once there is a row of the CUPS job.
latest-exists :
    (job : Job) (rows : List Job) (best : Option (ℕ × ℕ))
    → (any (same_cups_job job) rows ≡ true) ⊎ ((p : ℕ × ℕ) × (best ≡ some p))
    → (p : ℕ × ℕ) × (latest job rows best ≡ some p)
unfolding latest
latest-exists job [] best (inl h) = cc
latest-exists job [] best (inr h) = h
latest-exists job (row ∷ rows) best h =
    latest-exists job rows (step job row best) (elim (step_case job row best) [
      | passed m s ↦ elim h [ inl a ↦ inl (rw m at a) | inr (p, b) ↦ inr (p, s ∙ b) ]
      | taken m s l ↦ inr (_, s)
      | kept j u m b s l ↦ inr ((j, u), s ∙ b)
    ])

-- The row of a CUPS job that stands, in the list of the attempts at it.
pub record Stands (rows attempts : List Job) (winner at : ℕ) : Type 0 where
  pub is_attempt : any (λ r. r.id == winner && r.created_at == at) attempts ≡ true
  pub is_latest : All (λ r. r.created_at ≤ at) attempts
  pub others_superseded :
      All (λ r. superseded_by rows r ≡ (if winner == r.id then none else some winner)) attempts

same_attempt :
    (a r : Job) (c : ℕ) → a.cups_job_id ≡ some c → same_cups_job a r ≡ true → SameCupsJob a r c
same_attempt a r c e m = ground arith

any-filter_of :
    (job : Job) (i t : ℕ) (rows : List Job)
    → any (λ r. same_cups_job job r && (r.id == i && r.created_at == t)) rows ≡ true
    → any (λ r. r.id == i && r.created_at == t) (filter (same_cups_job job) rows) ≡ true
any-filter_of job i t [] h = h
any-filter_of job i t (r ∷ rows) h = elim (Bool-cases (same_cups_job job r)) [
  | inl e ↦ ground (arith, any-filter_of job i t rows)
  | inr e ↦ ground (arith, any-filter_of job i t rows)
]

All-filter_of :
    (P : Job → Type 0) (p : Job → Bool) (rows : List Job)
    → All (λ r. p r ≡ true → P r) rows
    → All P (filter p rows)
All-filter_of P p [] h = tt
All-filter_of P p (r ∷ rows) h = elim (Bool-cases (p r)) [
  | inl e ↦ rw e (h.0 e, All-filter_of P p rows h.1)
  | inr e ↦ rw e (All-filter_of P p rows h.1)
]

All_of : {P : Job → Type 0} (rows : List Job) → ((r : Job) → P r) → All P rows
All_of [] f = tt
All_of (r ∷ rows) f = (f r, All_of rows f)

-- Of the rows that are attempts at one CUPS job, of which there is one, exactly one is not superseded,
-- by its id: one of the latest. Each of the others is superseded by it.
pub superseded_by-Stands :
    (rows : List Job) (a : Job) (c : ℕ)
    → get_job rows a.id ≡ some a
    → a.cups_job_id ≡ some c
    → (winner : ℕ) × (at : ℕ) × Stands rows (filter (same_cups_job a) rows) winner at
unfolding superseded_by
superseded_by-Stands rows a c row named =
    let ((i, t), found) =
      latest-exists a rows none
        (inl (any_of_find (same_cups_job a) (λ j. j.id == a.id) rows a row (own_row a c named))) in
    let at_end = latest-Latest a rows none i t found in
    (
      i,
      t,
      record {
        is_attempt = any-filter_of a i t rows (from_rows i t at_end.from);
        is_latest =
            All-filter_of (λ r. r.created_at ≤ t) (same_cups_job a) rows at_end.no_row_later;
        others_superseded =
            All-filter_of (λ r. superseded_by rows r ≡ (if i == r.id then none else some i))
              (same_cups_job a) rows
              (All_of rows (λ r m.
                judged r i t
                  (sym (latest-same a r c rows none (same_attempt a r c named m)) ∙ found)));
      },
    )
  where
    judged :
        (r : Job) (i t : ℕ)
        → latest r rows none ≡ some (i, t)
        → superseded_by rows r ≡ (if i == r.id then none else some i)
    judged r i t e = rw (superseded_by, e)

    from_rows :
        (i t : ℕ)
        → (◌≡◌ {A = Option (ℕ × ℕ)} none (some (i, t)))
          ⊎ (any (λ r. same_cups_job a r && (r.id == i && r.created_at == t)) rows ≡ true)
        → any (λ r. same_cups_job a r && (r.id == i && r.created_at == t)) rows ≡ true
    from_rows i t (inl h) = cc
    from_rows i t (inr h) = h
