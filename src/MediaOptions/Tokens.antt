-- ===== src/MediaOptions/Tokens.antt =====
-- printers/media_options.py: what the tokens of an options string look like.
use mathlib.Core.Path.{subst}
use printops.Prelude.{
  ℕ, ◌≡◌, refl, sym, ap, ◌∙◌, Bool, true, false, Option, none, some, List, [], ◌∷◌, ◌++◌, ◌==◌,
  if◌then◌else◌, Bool-cases, inl, inr, some_inj,
}
use printops.MediaOptions.{
  Scan, with_current, scan_plain, scan_char, scan, split_job_options, is_space, is_quote, backslash,
}

-- The quote that is open, and whether the last character was an escaping backslash.
abbrev pub Mode : Type 0
Mode = Option ℕ × Bool

abbrev pub outside : Mode
outside = (none, false)

-- The mode behind a character of a token; `none` is a character that ends the token.
unfoldable pub after : Mode → ℕ → Option Mode
unfolding is_space
after (q, true) c = some (q, false)
after (some q, false) c =
    if c == backslash then some (some q, true) else some (if c == q then none else some q, false)
after (none, false) c =
    if c == backslash
    then some (none, true)
    else if is_quote c
    then some (some c, false)
    else if is_space c
    then none
    else some (none, false)

abbrev pub then_after : Option Mode → ℕ → Option Mode
then_after none c = none
then_after (some m) c = after m c

-- The mode behind the characters.
unfoldable pub walk : Option Mode → List ℕ → Option Mode
unfolding after
walk m [] = m
walk m (c ∷ cs) = walk (then_after m c) cs

abbrev pub at : List (List ℕ) → List ℕ → Mode → Scan
at tokens current m = record { tokens = tokens; current = current; quote = m.0; escaped = m.1 }

-- The turn of the loop, by the mode behind the character.
abbrev turned : List (List ℕ) → List ℕ → ℕ → Option Mode → Scan
turned tokens current c none = at (with_current tokens current) [] outside
turned tokens current c (some m) = at tokens (current ++ (c ∷ [])) m

pub scan_char-after :
    (tokens : List (List ℕ)) (current : List ℕ) (m : Mode) (c : ℕ)
    → scan_char (at tokens current m) c ≡ turned tokens current c (after m c)
unfolding scan_char scan_plain after
scan_char-after tokens current (q, true) c = refl
scan_char-after tokens current (some q, false) c = elim (Bool-cases (c == backslash)) [
  | inl e ↦ rw e
  | inr e ↦ rw e
]
scan_char-after tokens current (none, false) c = elim (Bool-cases (c == backslash)) [
  | inl e ↦ rw e
  | inr e ↦ elim (Bool-cases (is_quote c)) [
    | inl f ↦ rw (e, f)
    | inr f ↦ elim (Bool-cases (is_space c)) [ inl g ↦ rw (e, f, g) | inr g ↦ rw (e, f, g) ]
  ]
]

walk-none : (cs : List ℕ) → walk none cs ≡ none
unfolding walk
walk-none [] = refl
walk-none (c ∷ cs) = walk-none cs

walk-append : (m : Option Mode) (xs ys : List ℕ) → walk m (xs ++ ys) ≡ walk (walk m xs) ys
unfolding walk
walk-append m [] ys = refl
walk-append m (x ∷ xs) ys = walk-append (then_after m x) xs ys

walk_nil : walk (some outside) [] ≡ some outside
unfolding walk
walk_nil = refl

walk_one : (m : Mode) (c : ℕ) → walk (some m) (c ∷ []) ≡ after m c
unfolding walk
walk_one m c = refl

-- A character ends a token outside of quotes only.
after-none : (m : Mode) (c : ℕ) → after m c ≡ none → m ≡ outside
unfolding after
after-none (q, true) c h = cc
after-none (some q, false) c h = elim (Bool-cases (c == backslash)) [
  | inl e ↦ cc (rw e at h)
  | inr e ↦ cc (rw e at h)
]
after-none (none, false) c h = refl

pub append_assoc :
    {A : Type 0} → (xs : List A) (y : A) (ys : List A) → (xs ++ (y ∷ [])) ++ ys ≡ xs ++ (y ∷ ys)
append_assoc [] y ys = refl
append_assoc (x ∷ xs) y ys = ap (λ l. x ∷ l) (append_assoc xs y ys)

pub scan-append : (xs ys : List ℕ) (s : Scan) → scan (xs ++ ys) s ≡ scan ys (scan xs s)
unfolding scan
scan-append [] ys s = refl
scan-append (x ∷ xs) ys s = scan-append xs ys (scan_char s x)

append_nil : (xs : List ℕ) → xs ++ [] ≡ xs
append_nil [] = refl
append_nil (x ∷ xs) = ap (λ l. x ∷ l) (append_nil xs)

-- The loop over characters that do not end the token.
pub scan-walk :
    (tokens : List (List ℕ)) (current : List ℕ) (m m' : Mode) (cs : List ℕ)
    → walk (some m) cs ≡ some m'
    → scan cs (at tokens current m) ≡ at tokens (current ++ cs) m'
unfolding scan walk
scan-walk tokens current m m' [] h =
    ap (λ n. at tokens current n) (some_inj h) ∙ ap (λ l. at tokens l m') (sym (append_nil current))
scan-walk tokens current m m' (c ∷ cs) h =
    ap (scan cs) (scan_char-after tokens current m c)
    ∙ by_mode (after m c) h (λ n k. scan-walk tokens (current ++ (c ∷ [])) n m' cs k)
  where
    by_mode :
        (n : Option Mode)
        → walk n cs ≡ some m'
        → ((n : Mode)
            → walk (some n) cs ≡ some m'
            → scan cs (at tokens (current ++ (c ∷ [])) n)
              ≡ at tokens ((current ++ (c ∷ [])) ++ cs) m')
        → scan cs (turned tokens current c n) ≡ at tokens (current ++ (c ∷ cs)) m'
    by_mode none k rest = cc (k, walk-none cs)
    by_mode (some n) k rest = rest n k ∙ ap (λ l. at tokens l m') (append_assoc current c cs)

abbrev pub nonempty : List ℕ → Bool
nonempty [] = false
nonempty (c ∷ cs) = true

-- A token that ends outside of quotes, and one that need not.
abbrev pub IsClosed : List ℕ → Type 0
IsClosed t = (nonempty t ≡ true) × (walk (some outside) t ≡ some outside)

abbrev pub IsToken : List ℕ → Type 0
IsToken t = (nonempty t ≡ true) × ((m : Mode) × (walk (some outside) t ≡ some m))

-- Only the last token can be left open.
unfoldable pub AreTokens : List (List ℕ) → Type 0
AreTokens [] = Unit
AreTokens (t ∷ []) = IsToken t
AreTokens (t ∷ u ∷ ts) = IsClosed t × AreTokens (u ∷ ts)

unfoldable AreClosed : List (List ℕ) → Type 0
AreClosed [] = Unit
AreClosed (t ∷ ts) = IsClosed t × AreClosed ts

closed_nil : AreClosed []
unfolding AreClosed
closed_nil = tt

closed_one :
    (ts : List (List ℕ)) (t : List ℕ) → AreClosed ts → IsClosed t → AreClosed (ts ++ (t ∷ []))
unfolding AreClosed
closed_one [] t h k = (k, tt)
closed_one (u ∷ ts) t h k = (h.0, closed_one ts t h.1 k)

with_current-AreClosed :
    (ts : List (List ℕ)) (current : List ℕ)
    → AreClosed ts
    → walk (some outside) current ≡ some outside
    → AreClosed (with_current ts current)
with_current-AreClosed ts [] h k = h
with_current-AreClosed ts (c ∷ current) h k = closed_one ts (c ∷ current) h (refl, k)

closed_tokens : (ts : List (List ℕ)) → AreClosed ts → AreTokens ts
unfolding AreClosed AreTokens
closed_tokens [] h = tt
closed_tokens (t ∷ []) h = (h.0.0, (outside, h.0.1))
closed_tokens (t ∷ u ∷ ts) h = (h.0, closed_tokens (u ∷ ts) h.1)

tokens_one :
    (ts : List (List ℕ)) (t : List ℕ) → AreClosed ts → IsToken t → AreTokens (ts ++ (t ∷ []))
unfolding AreClosed AreTokens
tokens_one [] t h k = k
tokens_one (u ∷ []) t h k = (h.0, k)
tokens_one (u ∷ v ∷ ts) t h k = (h.0, tokens_one (v ∷ ts) t h.1 k)

with_current-AreTokens :
    (ts : List (List ℕ)) (current : List ℕ) (m : Mode)
    → AreClosed ts
    → walk (some outside) current ≡ some m
    → AreTokens (with_current ts current)
with_current-AreTokens ts [] m h k = closed_tokens ts h
with_current-AreTokens ts (c ∷ current) m h k = tokens_one ts (c ∷ current) h (refl, (m, k))

-- The loop, from any point at which the tokens so far are closed.
scan-AreTokens :
    (cs : List ℕ) (ts : List (List ℕ)) (current : List ℕ) (m : Mode)
    → AreClosed ts
    → walk (some outside) current ≡ some m
    → AreTokens
        (with_current (scan cs (at ts current m)).tokens (scan cs (at ts current m)).current)
unfolding scan
scan-AreTokens [] ts current m h k = with_current-AreTokens ts current m h k
scan-AreTokens (c ∷ cs) ts current m h k =
    subst (λ s. AreTokens (with_current (scan cs s).tokens (scan cs s).current))
      (sym (scan_char-after ts current m c))
      (by_mode (after m c) refl (λ us now n a b. scan-AreTokens cs us now n a b))
  where
    by_mode :
        (n : Option Mode)
        → after m c ≡ n
        → ((us : List (List ℕ)) (now : List ℕ) (n : Mode)
            → AreClosed us
            → walk (some outside) now ≡ some n
            → AreTokens
                (with_current (scan cs (at us now n)).tokens (scan cs (at us now n)).current))
        → AreTokens (
            with_current
              (scan cs (turned ts current c n)).tokens
              (scan cs (turned ts current c n)).current)
    by_mode none e rest =
        rest (with_current ts current) [] outside
          (with_current-AreClosed ts current h (k ∙ ap some (after-none m c e))) walk_nil
    by_mode (some n) e rest = rest ts (current ++ (c ∷ [])) n h (
        walk-append (some outside) current (c ∷ [])
        ∙ ap (λ w. walk w (c ∷ [])) k
        ∙ walk_one m c
        ∙ e)

pub split-AreTokens : (job_options : List ℕ) → AreTokens (split_job_options job_options)
unfolding split_job_options
split-AreTokens job_options = scan-AreTokens job_options [] [] outside closed_nil walk_nil
