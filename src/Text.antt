-- ===== src/Text.antt =====
-- What the Python code asks of `str`: its length in code points, its characters, and the regular
-- expressions of identifiers and digests. `String` has its own `[]` and `∷`.
pub mod Chars
pub mod Lines
use Prim.Native.Char.{code}
use Prim.Native.String
use Prim.Native.String.{String}
use homeops_ai.Prelude.{ℕ, Bool, true, false, ◌&&◌, ◌||◌, List, [], ◌∷◌, leb, ◌==◌, length, all}
use homeops_ai.Prelude.{if◌then◌else◌, take, drop, ◌-◌}

abbrev pub codes : String → List ℕ
codes String.[] = []
codes (String.◌∷◌ c s) = code c ∷ codes s

-- `len(s)`
abbrev pub len : String → ℕ
len s = length (codes s)

abbrev pub between : ℕ → ℕ → ℕ → Bool
between lo hi c = leb lo c && leb c hi

abbrev pub is_alnum : ℕ → Bool
is_alnum c = between b'a' b'z' c || between b'A' b'Z' c || between b'0' b'9' c

abbrev pub is_lower_hex : ℕ → Bool
is_lower_hex c = between b'0' b'9' c || between b'a' b'f' c

abbrev is_id_char : ℕ → Bool
is_id_char c = is_alnum c || c == b'.' || c == b'_' || c == b'-'

-- `^[0-9a-f]{64}$`
unfoldable pub is_sha256 : String → Bool
is_sha256 s = len s == 64 && all is_lower_hex (codes s)

unfoldable pub safe_id_codes : List ℕ → Bool
safe_id_codes [] = false
safe_id_codes (c ∷ cs) = is_alnum c && leb (length cs) 127 && all is_id_char cs

-- `^[A-Za-z0-9][A-Za-z0-9._-]{0,127}$`
unfoldable pub is_safe_id : String → Bool
unfolding safe_id_codes
is_safe_id s = safe_id_codes (codes s)

-- Does the first text begin the second?
abbrev pub starts_codes : List ℕ → List ℕ → Bool
starts_codes [] t = true
starts_codes (a ∷ p) [] = false
starts_codes (a ∷ p) (b ∷ t) = a == b && starts_codes p t

unfoldable pub contains_codes : List ℕ → List ℕ → Bool
contains_codes p [] = starts_codes p []
contains_codes p (b ∷ t) = starts_codes p (b ∷ t) || contains_codes p t

-- `part in whole`
unfoldable pub contains : String → String → Bool
unfolding contains_codes
contains part whole = contains_codes (codes part) (codes whole)

unfoldable pub less_codes : List ℕ → List ℕ → Bool
less_codes [] t = true
less_codes (a ∷ s) [] = false
less_codes (a ∷ s) (b ∷ t) = if a == b then less_codes s t else leb a b

-- `s <= t` on `str`, which compares code points.
unfoldable pub str_leb : String → String → Bool
unfolding less_codes
str_leb s t = less_codes (codes s) (codes t)

-- The characters that `str.strip` and `str.split` take for white space.
unfoldable pub is_space : ℕ → Bool
is_space c =
    between 9 13 c
    || between 28 32 c
    || c == 0x85
    || c == 0xa0
    || c == 0x1680
    || between 0x2000 0x200a c
    || c == 0x2028
    || c == 0x2029
    || c == 0x202f
    || c == 0x205f
    || c == 0x3000

-- `not s.strip()`
unfoldable pub is_blank : String → Bool
unfolding is_space
is_blank s = all is_space (codes s)

-- `separator.join(parts)`
unfoldable pub join : String → List String → String
join separator [] = ""
join separator (part ∷ []) = part
join separator (part ∷ parts) = String.◌++◌ part (String.◌++◌ separator (join separator parts))

abbrev is_upload_char : ℕ → Bool
is_upload_char c = between b'a' b'z' c || between b'0' b'9' c || c == b'-'

abbrev is_lower_first : List ℕ → Bool
is_lower_first [] = false
is_lower_first (c ∷ cs) = between b'a' b'z' c && all is_upload_char cs

abbrev is_token : List ℕ → Bool
is_token [] = false
is_token (c ∷ cs) = c == b'-' && length cs == 32 && all is_lower_hex cs

unfoldable pub upload_codes : List ℕ → Bool
upload_codes cs =
    let n = length cs - 33 in
    leb 34 (length cs) && leb n 63 && is_lower_first (take n cs) && is_token (drop n cs)

-- `^\.upload-[a-z][a-z0-9-]{0,62}-[0-9a-f]{32}$`
unfoldable pub is_upload_name : String → Bool
unfolding upload_codes
is_upload_name s = starts_codes (codes ".upload-") (codes s) && upload_codes (drop 8 (codes s))
