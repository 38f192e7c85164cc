-- ===== src/Release/Tests.antt =====
-- Options at release, and the theorem at them.
use printops.Prelude.{same_codes, ℕ, ◌≡◌, refl, List, [], ◌∷◌}
use printops.MediaOptions.{
  split_job_options, is_space, strip_media_options, scan, scan_char, scan_plain, is_kept, key_of,
  join,
}
use printops.Release.{parse_job_options, split_spaces}

-- n=2 k
abbrev plain : List ℕ
plain = 110 ∷ 61 ∷ 50 ∷ 32 ∷ 107 ∷ []

-- n="x media=A4", whose value survives the stripping and is cut at its space afterwards
abbrev quoted : List ℕ
quoted = 110 ∷ 61 ∷ 34 ∷ 120 ∷ 32 ∷ 109 ∷ 101 ∷ 100 ∷ 105 ∷ 97 ∷ 61 ∷ 65 ∷ 52 ∷ 34 ∷ []

cut_at_space :
    parse_job_options (strip_media_options quoted)
    ≡ (110 ∷ 61 ∷ 34 ∷ 120 ∷ []) ∷ (109 ∷ 101 ∷ 100 ∷ 105 ∷ 97 ∷ 61 ∷ 65 ∷ 52 ∷ 34 ∷ []) ∷ []
unfolding parse_job_options split_spaces strip_media_options split_job_options scan scan_char
    scan_plain is_space is_kept key_of same_codes join
cut_at_space = refl
