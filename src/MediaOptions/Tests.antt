-- ===== src/MediaOptions/Tests.antt =====
-- An options string with a page size, and the theorems at it.
use printops.Prelude.{same_codes, ℕ, ◌≡◌, refl, List, [], ◌∷◌, filter}
use printops.MediaOptions.{
  split_job_options, strip_media_options, is_kept, scan, scan_char, scan_plain, is_space, key_of,
  join,
}
use printops.MediaOptions.Strip.{split-strip_media_options}

-- media=A4 n="media= x" y
abbrev job_options : List ℕ
job_options =
    109 ∷ 101 ∷ 100 ∷ 105 ∷ 97 ∷ 61 ∷ 65 ∷ 52 ∷ 32 ∷ 110 ∷ 61 ∷ 34 ∷ 109 ∷ 101 ∷ 100 ∷ 105 ∷ 97 ∷ 61
    ∷ 32 ∷ 120 ∷ 34 ∷ 32 ∷ 32 ∷ 121 ∷ []

-- n="media= x" y
stripped_options :
    strip_media_options job_options
    ≡ 110 ∷ 61 ∷ 34 ∷ 109 ∷ 101 ∷ 100 ∷ 105 ∷ 97 ∷ 61 ∷ 32 ∷ 120 ∷ 34 ∷ 32 ∷ 121 ∷ []
unfolding strip_media_options split_job_options scan scan_char scan_plain is_space is_kept key_of
    same_codes join
stripped_options = refl

split-strip_media_options_example :
    split_job_options (strip_media_options job_options)
    ≡ filter is_kept (split_job_options job_options)
split-strip_media_options_example = split-strip_media_options job_options
