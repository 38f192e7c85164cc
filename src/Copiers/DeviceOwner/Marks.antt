-- ===== src/Copiers/DeviceOwner/Marks.antt =====
-- copiers/device_owner.py: the latest of the readings of a meter.
use mathlib.Core.Path.{subst}
use printops.Prelude.{
  ℕ, ◌≤◌, ◌<◌, none, some, List, [], ◌∷◌, ◌++◌, ◌≡◌, ◌∙◌, ◌⊎◌, inl, inr, refl, sym, ap, arith, ltb,
  leb, filter, filter-append, All, Bool-cases, Option-cases, some_inj, branch_true, branch_false,
}
use printops.Copiers.DeviceOwner.{Mark, later_of, latest, latest_before}

abbrev pub AreUpTo : ℕ → List Mark → Type 0
AreUpTo t marks = All (λ m. m.recorded_at ≤ t) marks

abbrev pub AreAfter : ℕ → List Mark → Type 0
AreAfter t marks = All (λ m. t < m.recorded_at) marks

AreUpTo-weaken : (s t : ℕ) (marks : List Mark) → s ≤ t → AreUpTo s marks → AreUpTo t marks
AreUpTo-weaken s t [] h a = tt
AreUpTo-weaken s t (m ∷ marks) h a = (omega (arith, a.0), AreUpTo-weaken s t marks h a.1)

latest-none : (marks : List Mark) → latest marks ≡ none → marks ≡ []
unfolding latest
latest-none [] h = refl
latest-none (m ∷ marks) h = ground arith

latest-AreUpTo :
    (marks : List Mark) (last : Mark) → latest marks ≡ some last → AreUpTo last.recorded_at marks
unfolding latest
latest-AreUpTo [] last h = tt
latest-AreUpTo (m ∷ marks) last h = elim (Option-cases (latest marks)) [
  | inl e ↦
      let q = some_inj (sym (ap (later_of m) e) ∙ h) in
      (
        subst (λ (x : Mark). m.recorded_at ≤ x.recorded_at) q (omega arith),
        subst (AreUpTo last.recorded_at) (sym (latest-none marks e)) tt,
      )
  | inr (n, e) ↦
      let k = latest-AreUpTo marks n e in
      let r = sym (ap (later_of m) e) ∙ h in
      elim (Bool-cases (ltb n.recorded_at m.recorded_at)) [
        | inl b ↦
            let q = some_inj (sym (branch_true _ (some m) (some n) b) ∙ r) in
            subst (λ (x : Mark). AreUpTo x.recorded_at (m ∷ marks)) q
              (omega arith, AreUpTo-weaken n.recorded_at m.recorded_at marks (ground arith) k)
        | inr b ↦
            let q = some_inj (sym (branch_false _ (some m) (some n) b) ∙ r) in
            subst (λ (x : Mark). AreUpTo x.recorded_at (m ∷ marks)) q (ground arith, k)
      ]
]

filter-AreUpTo :
    (t : ℕ) (marks : List Mark) → AreUpTo t marks → filter (λ m. leb m.recorded_at t) marks ≡ marks
filter-AreUpTo t [] a = refl
filter-AreUpTo t (m ∷ marks) a = let h = a.0 in ground (arith, filter-AreUpTo t marks a.1)

filter-AreAfter :
    (t : ℕ) (marks : List Mark) → AreAfter t marks → filter (λ m. leb m.recorded_at t) marks ≡ []
filter-AreAfter t [] a = refl
filter-AreAfter t (m ∷ marks) a = let h = a.0 in ground (arith, filter-AreAfter t marks a.1)

append-nil : (marks : List Mark) → marks ++ [] ≡ marks
append-nil [] = refl
append-nil (m ∷ marks) = ap (λ l. m ∷ l) (append-nil marks)

-- What was the latest reading is found again by its time.
pub latest_before-append :
    (marks new : List Mark) (last : Mark)
    → latest marks ≡ some last
    → AreAfter last.recorded_at new
    → latest_before last.recorded_at (marks ++ new) ≡ some last
unfolding latest_before
latest_before-append marks new last h a =
    ap latest (
      filter-append (λ (m : Mark). leb m.recorded_at last.recorded_at) marks new
      ∙ (ap (λ l. l ++ filter (λ (m : Mark). leb m.recorded_at last.recorded_at) new)
            (filter-AreUpTo last.recorded_at marks (latest-AreUpTo marks last h))
          ∙ (ap (λ l. marks ++ l) (filter-AreAfter last.recorded_at new a) ∙ append-nil marks)))
    ∙ h

AreUpTo-member :
    (t : ℕ) (marks new : List Mark) (n : Mark) → AreUpTo t (marks ++ (n ∷ new)) → n.recorded_at ≤ t
AreUpTo-member t [] new n a = a.0
AreUpTo-member t (m ∷ marks) new n a = AreUpTo-member t marks new n a.1

-- Later readings move the latest one, unless there are none.
pub latest-append :
    (marks new : List Mark) (last next : Mark)
    → latest marks ≡ some last
    → AreAfter last.recorded_at new
    → latest (marks ++ new) ≡ some next
    → (next ≡ last) ⊎ (last.recorded_at < next.recorded_at)
latest-append marks [] last next h a k = inl (some_inj (sym k ∙ (ap latest (append-nil marks) ∙ h)))
latest-append marks (n ∷ new) last next h a k =
    let up =
      AreUpTo-member next.recorded_at marks new n (latest-AreUpTo (marks ++ (n ∷ new)) next k) in
    let lo = a.0 in inr (omega (arith, up, lo))

-- There is a latest reading as long as there was one.
pub latest-kept :
    (marks new : List Mark) (last : Mark)
    → latest marks ≡ some last
    → (next : Mark) × (latest (marks ++ new) ≡ some next)
unfolding latest
latest-kept [] new last h = cc
latest-kept (m ∷ marks) new last h = elim (Option-cases (latest (marks ++ new))) [
  | inl e ↦ (m, ap (later_of m) e)
  | inr (n, e) ↦ elim (Bool-cases (ltb n.recorded_at m.recorded_at)) [
    | inl b ↦ (m, ground arith)
    | inr b ↦ (n, ground arith)
  ]
]
