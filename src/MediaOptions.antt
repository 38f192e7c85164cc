-- ===== src/MediaOptions.antt =====
-- printers/media_options.py: the page size in a job's CUPS options.
-- A string is the list of its code points.
pub mod Tokens
pub mod Strip
mod Tests
use printops.Prelude.{
  codes, same_codes, ℕ, Bool, true, false, not, ◌&&◌, ◌||◌, Option, none, some, List, [], ◌∷◌, ◌++◌,
  leb, ◌==◌, if◌then◌else◌, any, filter,
}

abbrev pub media_option_keys : List (List ℕ)
media_option_keys =
    codes "media"
    ∷ codes "media-col"
    ∷ codes "media-size"
    ∷ codes "media-top-margin"
    ∷ codes "media-bottom-margin"
    ∷ codes "media-left-margin"
    ∷ codes "media-right-margin"
    ∷ codes "PageSize"
    ∷ codes "PageRegion"
    ∷ []

-- `str.isspace` of one character
unfoldable pub is_space : ℕ → Bool
is_space c =
    (leb 9 c && leb c 13)
    || (leb 28 c && leb c 32)
    || (c == 133)
    || (c == 160)
    || (c == 5760)
    || (leb 8192 c && leb c 8202)
    || (c == 8232)
    || (c == 8233)
    || (c == 8239)
    || (c == 8287)
    || (c == 12288)

abbrev pub backslash : ℕ
backslash = 92

abbrev pub equals : ℕ
equals = 61

-- `char in "\"'"`
abbrev pub is_quote : ℕ → Bool
is_quote c = (c == 34) || (c == 39)

-- The variables of the loop.
pub record Scan : Type 0 where
  pub tokens : List (List ℕ)
  pub current : List ℕ
  pub quote : Option ℕ
  pub escaped : Bool

-- `if current: tokens.append(current)`
abbrev pub with_current : List (List ℕ) → List ℕ → List (List ℕ)
with_current tokens [] = tokens
with_current tokens (c ∷ current) = tokens ++ ((c ∷ current) ∷ [])

-- The branches of the loop below the first two, on `quote`.
unfoldable pub scan_plain : Scan → ℕ → Option ℕ → Scan
unfolding is_space
scan_plain s char (some q) = record s {
  current = s.current ++ (char ∷ []);
  quote = if char == q then none else some q;
}
scan_plain s char none =
    if is_quote char
    then record s { current = s.current ++ (char ∷ []); quote = some char }
    else if is_space char
    then record s { tokens = with_current s.tokens s.current; current = [] }
    else record s { current = s.current ++ (char ∷ []) }

unfoldable pub scan_char : Scan → ℕ → Scan
unfolding scan_plain
scan_char s char =
    if s.escaped
    then record s { current = s.current ++ (char ∷ []); escaped = false }
    else if char == backslash
    then record s { current = s.current ++ (char ∷ []); escaped = true }
    else scan_plain s char s.quote

unfoldable pub scan : List ℕ → Scan → Scan
unfolding scan_char
scan [] s = s
scan (char ∷ chars) s = scan chars (scan_char s char)

abbrev pub start : Scan
start = record { tokens = []; current = []; quote = none; escaped = false }

unfoldable pub split_job_options : List ℕ → List (List ℕ)
unfolding scan
split_job_options job_options = let s = scan job_options start in with_current s.tokens s.current

-- `token.split("=", 1)[0]`
unfoldable pub key_of : List ℕ → List ℕ
key_of [] = []
key_of (c ∷ token) = let rest = key_of token in if c == equals then [] else c ∷ rest

unfoldable pub is_kept : List ℕ → Bool
unfolding key_of same_codes
is_kept token = not (any (same_codes (key_of token)) media_option_keys)

-- `" ".join(tokens)`
unfoldable pub join : List (List ℕ) → List ℕ
join [] = []
join (token ∷ []) = token
join (token ∷ next ∷ tokens) = token ++ (32 ∷ join (next ∷ tokens))

unfoldable pub strip_media_options : List ℕ → List ℕ
unfolding split_job_options is_kept join
strip_media_options job_options = join (filter is_kept (split_job_options job_options))
