-- ===== src/Release/Plain.antt =====
-- printers/release.py: the two ways in which the options of a job are split.
use printops.Prelude.{
  ℕ, ◌≡◌, refl, sym, ap, ◌∙◌, false, ◌||◌, List, [], ◌∷◌, ◌++◌, arith, ◌==◌, if◌then◌else◌,
  Bool-cases, inl, inr, any, filter,
}
use printops.MediaOptions.{
  Scan, with_current, scan, scan_char, scan_plain, split_job_options, is_space, is_quote, backslash,
}
use printops.MediaOptions.Tokens.{at, outside}
use printops.Release.{split_spaces, parse_job_options, has_equals}

-- No quote and no backslash.
abbrev pub IsPlain : List ℕ → Type 0
IsPlain raw = any (λ c. is_quote c || (c == backslash)) raw ≡ false

plain_char :
    (tokens : List (List ℕ)) (current : List ℕ) (c : ℕ)
    → (is_quote c || (c == backslash)) ≡ false
    → scan_char (at tokens current outside) c
      ≡ at
          (if is_space c then with_current tokens current else tokens)
          (if is_space c then [] else current ++ (c ∷ []))
          outside
unfolding scan_char scan_plain
plain_char tokens current c h =
    let a : is_quote c ≡ false = ground arith in
    let b : (c == backslash) ≡ false = ground arith in
    elim (Bool-cases (is_space c)) [ inl e ↦ rw (b, a, e) | inr e ↦ rw (b, a, e) ]

abbrev finish : Scan → List (List ℕ)
finish s = with_current s.tokens s.current

scan-plain :
    (raw : List ℕ) (tokens : List (List ℕ)) (current : List ℕ)
    → IsPlain raw
    → finish (scan raw (at tokens current outside)) ≡ split_spaces raw tokens current
unfolding scan split_spaces
scan-plain [] tokens current h = refl
scan-plain (c ∷ raw) tokens current h =
    ap (λ s. finish (scan raw s)) (plain_char tokens current c (ground arith))
    ∙ scan-plain raw (if is_space c then with_current tokens current else tokens)
        (if is_space c then [] else current ++ (c ∷ [])) (ground arith)

-- Where an options string has no quote and no backslash, the release hands `lp` the options that the
-- quote-aware splitting finds, less those without an equals sign.
parse_job_options-split :
    (raw : List ℕ) → IsPlain raw → parse_job_options raw ≡ filter has_equals (split_job_options raw)
unfolding parse_job_options split_job_options
parse_job_options-split raw h = ap (filter has_equals) (sym (scan-plain raw [] [] h))
