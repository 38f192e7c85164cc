-- ===== src/MediaOptions/Strip.antt =====
-- printers/media_options.py: what is left of an options string.
use printops.Prelude.{
  ℕ, ◌≡◌, refl, sym, ap, ◌∙◌, Bool, true, List, [], ◌∷◌, ◌++◌, Bool-cases, inl, inr, filter, none,
}
use printops.MediaOptions.{
  Scan, with_current, scan, scan_char, split_job_options, is_kept, join, strip_media_options,
  is_space,
}
use printops.MediaOptions.Tokens.{
  outside, at, after, scan-append, scan-walk, scan_char-after, append_assoc, nonempty, IsClosed,
  AreTokens, split-AreTokens,
}

after_space : after outside 32 ≡ none
unfolding after is_space
after_space = refl

flush :
    (tokens : List (List ℕ)) (t : List ℕ)
    → nonempty t ≡ true
    → with_current tokens t ≡ tokens ++ (t ∷ [])
flush tokens [] h = cc
flush tokens (c ∷ t) h = refl

space :
    (tokens : List (List ℕ)) (t : List ℕ)
    → nonempty t ≡ true
    → scan_char (at tokens t outside) 32 ≡ at (tokens ++ (t ∷ [])) [] outside
space tokens t h =
    scan_char-after tokens t outside 32
    ∙ rw after_space (ap (λ ts. at ts [] outside) (flush tokens t h))

abbrev finish : Scan → List (List ℕ)
finish s = with_current s.tokens s.current

-- Scanning joined tokens finds them again.
scan-join :
    (ts before : List (List ℕ))
    → AreTokens ts
    → finish (scan (join ts) (at before [] outside)) ≡ before ++ ts
unfolding join AreTokens scan
scan-join [] before h = sym (nil before)
  where
    nil : (xs : List (List ℕ)) → xs ++ [] ≡ xs
    nil [] = refl
    nil (x ∷ xs) = ap (λ l. x ∷ l) (nil xs)
scan-join (t ∷ []) before h =
    ap finish (scan-walk before [] outside h.1.0 t h.1.1) ∙ flush before t h.0
scan-join (t ∷ u ∷ ts) before h =
    ap finish (
      scan-append t (32 ∷ join (u ∷ ts)) (at before [] outside)
      ∙ ap (scan (32 ∷ join (u ∷ ts))) (scan-walk before [] outside outside t h.0.1)
      ∙ ap (scan (join (u ∷ ts))) (space before t h.0.0))
    ∙ scan-join (u ∷ ts) (before ++ (t ∷ [])) h.1
    ∙ append_assoc before t (u ∷ ts)

split-join : (ts : List (List ℕ)) → AreTokens ts → split_job_options (join ts) ≡ ts
unfolding split_job_options
split-join ts h = scan-join ts [] h

tail : (t : List ℕ) (ts : List (List ℕ)) → AreTokens (t ∷ ts) → AreTokens ts
unfolding AreTokens
tail t [] h = tt
tail t (u ∷ ts) h = h.1

cons_closed : (t : List ℕ) (ts : List (List ℕ)) → IsClosed t → AreTokens ts → AreTokens (t ∷ ts)
unfolding AreTokens
cons_closed t [] h k = (h.0, (outside, h.1))
cons_closed t (u ∷ ts) h k = (h, k)

-- Dropping tokens keeps the open one last.
filter-AreTokens : (p : List ℕ → Bool) (ts : List (List ℕ)) → AreTokens ts → AreTokens (filter p ts)
unfolding AreTokens
filter-AreTokens p [] h = tt
filter-AreTokens p (t ∷ []) h = elim (Bool-cases (p t)) [ inl e ↦ rw e h | inr e ↦ rw e tt ]
filter-AreTokens p (t ∷ u ∷ ts) h =
    let rest = filter-AreTokens p (u ∷ ts) h.1 in
    elim (Bool-cases (p t)) [
      | inl e ↦ rw e (cons_closed t (filter p (u ∷ ts)) h.0 rest)
      | inr e ↦ rw e rest
    ]

-- The stripped options are the options without those of the page size: splitting them again gives
-- the tokens of the original whose key names no page size, each as it was and in their order, also
-- where a quote or an escape is left open.
pub split-strip_media_options :
    (job_options : List ℕ)
    → split_job_options (strip_media_options job_options)
      ≡ filter is_kept (split_job_options job_options)
unfolding strip_media_options
split-strip_media_options job_options =
    split-join (filter is_kept (split_job_options job_options))
      (filter-AreTokens is_kept (split_job_options job_options) (split-AreTokens job_options))

-- Stripping twice is stripping once, so that a job that takes both roads is not changed further.
strip-strip_media_options :
    (job_options : List ℕ)
    → strip_media_options (strip_media_options job_options) ≡ strip_media_options job_options
unfolding strip_media_options
strip-strip_media_options job_options =
    ap (λ ts. join (filter is_kept ts)) (split-strip_media_options job_options)
    ∙ ap join (filter-filter is_kept (split_job_options job_options))
  where
    filter-filter : (p : List ℕ → Bool) (ts : List (List ℕ)) → filter p (filter p ts) ≡ filter p ts
    filter-filter p [] = refl
    filter-filter p (t ∷ ts) = elim (Bool-cases (p t)) [
      | inl e ↦ rw (e, e) (ap (λ l. t ∷ l) (filter-filter p ts))
      | inr e ↦ rw e (filter-filter p ts)
    ]
