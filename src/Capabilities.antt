-- ===== src/Capabilities.antt =====
-- printers/capabilities.py: the capabilities of a printer, from the attributes that it answers.
-- An attribute comes back bare, as a list, or as a list of collections; a collection is read for
-- its size, its source and its type only.
pub mod Parsed
use printops.Prelude.{
  ℕ, ◌+◌, ◌*◌, ◌/◌, max, String, Bool, true, false, not, ◌&&◌, ◌||◌, Option, none, some, List, [],
  ◌∷◌, ◌++◌, ltb, str_eq, if◌then◌else◌, filter, any, map, is_none, Table, lookup, codes,
}
use printops.Text.{Text, lit, num}
use printops.Printers.{Scalar, boolean, integer, keyword, resolution, Tray, Capabilities}
use printops.QueueRecovery.Lpstat.{starts_with}

-- `media-size` with its dimensions in hundredths of a millimetre, `media-source`, `media-type`
pub record Collection : Type 0 where
  pub media_size : Option (Option ℕ × Option ℕ)
  pub media_source : Option Scalar
  pub media_type : Option Scalar

pub data Attribute : Type 0 where
  single : Scalar → Attribute
  several : List Scalar → Attribute
  -- an entry that is no dictionary is `none`
  collections : List (Option Collection) → Attribute

-- The raw dictionary.
abbrev pub Attributes : Type 0
Attributes = List (String × Attribute)

-- `raw.get(key)`
unfoldable pub get : String → Attributes → Option Attribute
get key [] = none
get key ((k, v) ∷ raw) = let rest = get key raw in if str_eq k key then some v else rest

-- `_as_list` of an attribute that is no collection, with the members unwrapped
abbrev pub as_list : Option Attribute → List Scalar
as_list none = []
as_list (some (single s)) = s ∷ []
as_list (some (several ss)) = ss
as_list (some (collections cs)) = []

-- `_scalar` of a bare attribute
abbrev pub scalar : Option Attribute → Option Scalar
scalar (some (single s)) = some s
scalar _ = none

abbrev pub values : String → Attributes → List Scalar
values key raw = as_list (get key raw)

-- `bool(value)`
abbrev pub is_truthy_scalar : Scalar → Bool
is_truthy_scalar (boolean b) = b
is_truthy_scalar (integer n) = ltb 0 n
is_truthy_scalar (keyword s) = not (str_eq s "")
is_truthy_scalar (resolution x y unit) = true

abbrev pub is_truthy : Option Attribute → Bool
is_truthy none = false
is_truthy (some (single s)) = is_truthy_scalar s
is_truthy (some (several [])) = false
is_truthy (some (several (s ∷ ss))) = true
is_truthy (some (collections [])) = false
is_truthy (some (collections (c ∷ cs))) = true

-- `value == k`
abbrev pub is_keyword : String → Scalar → Bool
is_keyword k (keyword s) = str_eq s k
is_keyword k _ = false

-- `str(value)`
abbrev pub str_of : Scalar → Text
str_of (boolean true) = lit "True" ∷ []
str_of (boolean false) = lit "False" ∷ []
str_of (integer n) = num n ∷ []
str_of (keyword s) = lit s ∷ []
str_of (resolution x y none) = lit "(" ∷ num x ∷ lit ", " ∷ num y ∷ lit ")" ∷ []
str_of (resolution x y (some u)) =
    lit "(" ∷ num x ∷ lit ", " ∷ num y ∷ lit ", " ∷ num u ∷ lit ")" ∷ []

abbrev pub finishings_map : Table String
finishings_map =
    (3, "none")
    ∷ (4, "staple")
    ∷ (5, "punch")
    ∷ (6, "cover")
    ∷ (7, "bind")
    ∷ (8, "saddle-stitch")
    ∷ (9, "edge-stitch")
    ∷ (10, "fold")
    ∷ (11, "trim")
    ∷ (12, "bale")
    ∷ (13, "booklet-maker")
    ∷ (14, "job-offset")
    ∷ (20, "staple-top-left")
    ∷ (21, "staple-bottom-left")
    ∷ (22, "staple-top-right")
    ∷ (23, "staple-bottom-right")
    ∷ (24, "edge-stitch-left")
    ∷ (25, "edge-stitch-top")
    ∷ (26, "edge-stitch-right")
    ∷ (27, "edge-stitch-bottom")
    ∷ (28, "staple-dual-left")
    ∷ (29, "staple-dual-top")
    ∷ (30, "staple-dual-right")
    ∷ (31, "staple-dual-bottom")
    ∷ (50, "bind-left")
    ∷ (51, "bind-top")
    ∷ (52, "bind-right")
    ∷ (53, "bind-bottom")
    ∷ (60, "trim-after-pages")
    ∷ (61, "trim-after-documents")
    ∷ (62, "trim-after-copies")
    ∷ (63, "trim-after-job")
    ∷ (70, "punch-top-left")
    ∷ (71, "punch-bottom-left")
    ∷ (72, "punch-top-right")
    ∷ (73, "punch-bottom-right")
    ∷ (74, "punch-dual-left")
    ∷ (75, "punch-dual-top")
    ∷ (76, "punch-dual-right")
    ∷ (77, "punch-dual-bottom")
    ∷ (78, "punch-triple-left")
    ∷ (79, "punch-triple-top")
    ∷ (80, "punch-triple-right")
    ∷ (81, "punch-triple-bottom")
    ∷ (82, "punch-quad-left")
    ∷ (83, "punch-quad-top")
    ∷ (84, "punch-quad-right")
    ∷ (85, "punch-quad-bottom")
    ∷ (86, "punch-multiple")
    ∷ []

-- `FINISHINGS_MAP.get(code, f"finishing-{code}")`; `none` is the label "none"
unfoldable pub label_of : Scalar → Option Text
unfolding lookup
label_of (integer code) = elim (lookup code finishings_map) [
  | some name ↦ if str_eq name "none" then none else some (lit name ∷ [])
  | none ↦ some (lit "finishing-" ∷ num code ∷ [])
]
label_of s = some (lit "finishing-" ∷ str_of s)

-- The members that a function gives a value.
abbrev pub collect {ℓ} : {A B : Type ℓ} → (A → Option B) → List A → List B
collect f [] = []
collect f (x ∷ xs) = elim (f x) [ none ↦ collect f xs | some y ↦ y ∷ collect f xs ]

abbrev pub resolution_of : Scalar → Option (ℕ × ℕ × Option ℕ)
resolution_of (resolution x y unit) = some (x, y, unit)
resolution_of s = none

unfoldable pub parse_resolutions : Attributes → List (ℕ × ℕ × Option ℕ)
unfolding get
parse_resolutions raw = collect resolution_of (values "printer-resolution-supported" raw)

-- The integers of a list; a Boolean is one.
abbrev pub int_of : Scalar → Option ℕ
int_of (boolean true) = some 1
int_of (boolean false) = some 0
int_of (integer n) = some n
int_of s = none

abbrev pub maximum : List ℕ → Option ℕ
maximum [] = none
maximum (n ∷ ns) = elim (maximum ns) [ none ↦ some n | some m ↦ some (max n m) ]

-- A bare triple is a sequence of integers as well.
abbrev pub copies_of : Option Attribute → Option ℕ
copies_of (some (single (resolution x y none))) = some (max x y)
copies_of (some (single (resolution x y (some u)))) = some (max (max x y) u)
copies_of (some (single s)) = int_of s
copies_of (some (several ss)) = maximum (collect int_of ss)
copies_of a = none

unfoldable pub parse_copies_max : Attributes → Option ℕ
unfolding get
parse_copies_max raw = copies_of (get "copies-supported" raw)

unfoldable pub parse_finishings : Attributes → List Text
unfolding get label_of
parse_finishings raw = collect label_of (values "finishings-supported" raw)

unfoldable pub parse_airprint_supported : Attributes → Option Bool
unfolding get
parse_airprint_supported raw =
    if is_truthy (get "urf-supported" raw)
    then some true
    else if is_truthy (get "mopria-certified" raw)
    then some true
    else none

-- `raw.get(key) is True`
abbrev pub is_true : Option Attribute → Bool
is_true (some (single (boolean b))) = b
is_true _ = false

unfoldable pub parse_color_supported : Attributes → Bool
unfolding get
parse_color_supported raw =
    if is_true (get "color-supported" raw)
    then true
    else any (is_keyword "color") (values "print-color-mode-supported" raw)

-- The text of a member, if it starts with "two-sided"; no number or Boolean does.
abbrev pub two_sided : Scalar → Option String
two_sided (keyword s) = if starts_with (codes "two-sided") (codes s) then some s else none
two_sided s = none

unfoldable pub parse_sides_supported : Attributes → List String
unfolding get starts_with
parse_sides_supported raw = collect two_sided (values "sides-supported" raw)

unfoldable pub parse_duplex_supported : Attributes → Bool
unfolding parse_sides_supported
parse_duplex_supported raw = elim (parse_sides_supported raw) [ [] ↦ false | side ∷ sides ↦ true ]

unfoldable pub parse_collation_supported : Attributes → Bool
unfolding get
parse_collation_supported raw =
    any (is_keyword "separate-documents-collated-copies")
      (values "multiple-document-handling-supported" raw)

-- `", ".join(values)`
abbrev pub joined : List Text → Text
joined [] = []
joined (t ∷ []) = t
joined (t ∷ ts) = t ++ (lit ", " ∷ joined ts)

abbrev pub joined_or_null : List Text → Option Text
joined_or_null [] = none
joined_or_null (t ∷ ts) = some (joined (t ∷ ts))

unfoldable pub parse_firmware_version : Attributes → Option Text
unfolding get
parse_firmware_version raw =
    joined_or_null (map str_of (values "printer-firmware-string-version" raw))

-- The value is truthy; an integer is not negative, and 0 is not truthy.
unfoldable pub parse_pin_printing_supported : Attributes → Bool
unfolding get
parse_pin_printing_supported raw = is_truthy (get "job-password-supported" raw)

unfoldable pub parse_accounting_supported : Attributes → Bool
unfolding get
parse_accounting_supported raw =
    is_truthy (get "job-account-id-supported" raw)
    || is_truthy (get "job-accounting-user-id-supported" raw)

unfoldable pub parse_tls_supported : Attributes → Bool
unfolding get
parse_tls_supported raw = any (is_keyword "tls") (values "uri-security-supported" raw)
