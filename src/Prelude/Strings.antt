-- ===== src/Prelude/Strings.antt =====
-- Python's `str`: its code points, and the tests that the program makes on whole texts.
use Prim.Native.Nat.{ℕ}
use Prim.Native.Char.{code}
use Prim.Native.String.{String}
use mathlib.Core.Path.{◌≡◌, refl}
use mathlib.Core.Bool.{Bool, true, false, ◌||◌, ◌&&◌}
use native.Mathlib.Omega.{arith}
use mathlib.Core.List.{List, [], ◌∷◌}
use printops.Prelude.Tests.{str_eq, ◌==◌}

-- The code points of a text.
abbrev pub codes : String → List ℕ
codes String.[] = []
codes (String.◌∷◌ c s) = code c ∷ codes s

-- `s.endswith(suffix)`
unfoldable pub ends_with : String → String → Bool
ends_with String.[] suffix = str_eq "" suffix
ends_with (String.◌∷◌ c s) suffix = str_eq (String.◌∷◌ c s) suffix || ends_with s suffix

-- Equality of texts by their code points.
unfoldable pub same_codes : List ℕ → List ℕ → Bool
same_codes [] [] = true
same_codes (c ∷ cs) (d ∷ ds) = (c == d) && same_codes cs ds
same_codes _ _ = false

pub same_codes_sound : (s t : List ℕ) → same_codes s t ≡ true → s ≡ t
unfolding same_codes
same_codes_sound [] [] h = refl
same_codes_sound (c ∷ s) (d ∷ t) h = ground (arith, same_codes_sound s t)
same_codes_sound [] (d ∷ t) h = ground arith
same_codes_sound (c ∷ s) [] h = ground arith

pub same_codes_refl : (s : List ℕ) → same_codes s s ≡ true
unfolding same_codes
same_codes_refl [] = refl
same_codes_refl (c ∷ s) = ground (arith, same_codes_refl s)
