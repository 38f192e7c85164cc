-- ===== src/Text.antt =====
-- Formatted text. An f-string of the program is the list of its literal and formatted parts, in
-- their order; two texts of one format are the same text exactly when their parts are.
use mathlib.Core.Path.{subst}
use printops.Prelude.{
  sym, ◌∙◌, Bool-cases, inl, inr, ℕ, String, ◌≡◌, refl, ap, Bool, true, false, ◌&&◌, List, [], ◌∷◌,
  arith, eq_iff, ◌==◌, str_eq, same_codes, same_codes_sound, same_codes_refl,
}

pub data Piece : Type 0 where
  lit : String → Piece
  num : ℕ → Piece
  -- a UUID, by its 128-bit number
  uuid : ℕ → Piece
  -- a text that the program took over as it was, by its code points
  raw : List ℕ → Piece
  -- a number of bytes, in megabytes with one decimal
  megabytes : ℕ → Piece
  -- an ISO calendar date
  date : ℕ → ℕ → ℕ → Piece

abbrev pub Text : Type 0
Text = List Piece

unfoldable pub piece_eq : Piece → Piece → Bool
piece_eq (lit a) (lit b) = str_eq a b
piece_eq (num a) (num b) = a == b
piece_eq (uuid a) (uuid b) = a == b
piece_eq (raw s) (raw t) = same_codes s t
piece_eq (megabytes a) (megabytes b) = a == b
piece_eq (date y m d) (date y' m' d') = (y == y') && ((m == m') && (d == d'))
piece_eq _ _ = false

-- `a == b` on texts
unfoldable pub text_eq : Text → Text → Bool
unfolding piece_eq
text_eq [] [] = true
text_eq (p ∷ ps) (q ∷ qs) = piece_eq p q && text_eq ps qs
text_eq _ _ = false

piece_eq_sound : (p q : Piece) → piece_eq p q ≡ true → p ≡ q
unfolding piece_eq
piece_eq_sound (lit a) (lit b) h = ground (arith, eq_iff a b)
piece_eq_sound (num a) (num b) h = ground arith
piece_eq_sound (uuid a) (uuid b) h = ground arith
piece_eq_sound (raw s) (raw t) h = ap raw (same_codes_sound s t h)
piece_eq_sound (megabytes a) (megabytes b) h = ground arith
piece_eq_sound (date y m d) (date y' m' d') h = ground arith
piece_eq_sound _ _ h = ground arith

piece_eq_refl : (p : Piece) → piece_eq p p ≡ true
unfolding piece_eq
piece_eq_refl (lit a) = ground (arith, eq_iff a a)
piece_eq_refl (raw s) = same_codes_refl s
piece_eq_refl _ = ground arith

pub text_eq_sound : (s t : Text) → text_eq s t ≡ true → s ≡ t
unfolding text_eq
text_eq_sound [] [] h = refl
text_eq_sound (p ∷ ps) (q ∷ qs) h = ground (arith, piece_eq_sound p q, text_eq_sound ps qs)
text_eq_sound _ _ h = ground arith

pub text_eq_refl : (t : Text) → text_eq t t ≡ true
unfolding text_eq
text_eq_refl [] = refl
text_eq_refl (p ∷ ps) = ground (arith, piece_eq_refl p, text_eq_refl ps)

-- Texts that are equal compare alike.
pub text_eq_left : (s t u : Text) → text_eq s t ≡ true → text_eq s u ≡ text_eq t u
text_eq_left s t u h = ap (λ x. text_eq x u) (text_eq_sound s t h)

piece_eq_swap : (p q : Piece) → piece_eq p q ≡ true → piece_eq p q ≡ piece_eq q p
piece_eq_swap p q h = subst (λ r. piece_eq p r ≡ piece_eq r p) (piece_eq_sound p q h) refl

piece_eq_comm : (p q : Piece) → piece_eq p q ≡ piece_eq q p
piece_eq_comm p q = elim (Bool-cases (piece_eq p q)) [
  | inl e ↦ piece_eq_swap p q e
  | inr e ↦ elim (Bool-cases (piece_eq q p)) [
    | inl f ↦ sym (piece_eq_swap q p f)
    | inr f ↦ e ∙ sym f
  ]
]

pub text_eq_comm : (s t : Text) → text_eq s t ≡ text_eq t s
unfolding text_eq
text_eq_comm [] [] = refl
text_eq_comm [] (q ∷ qs) = refl
text_eq_comm (p ∷ ps) [] = refl
text_eq_comm (p ∷ ps) (q ∷ qs) = rw (piece_eq_comm p q, text_eq_comm ps qs)
