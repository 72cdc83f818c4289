-- ===== src/Text/Chars.antt =====
-- More of Python's `str`: slices, `strip`, the length in UTF-8, and the pattern of a UUIDv4.
use Prim.Native.Char.{code}
use Prim.Native.String.{String}
use homeops_ai.Prelude.{
  ℕ, zero, suc, ◌+◌, ◌≤◌, ◌<◌, ◌≡◌, Bool, true, false, ◌&&◌, ◌||◌, List, [], ◌∷◌, arith, ltb, ◌==◌,
  any, if◌then◌else◌, Bool-cases, inl, inr,
}
use homeops_ai.Text.{codes, len, is_space, is_lower_hex}

-- `s[:n]`
abbrev pub take_chars : ℕ → String → String
take_chars zero s = ""
take_chars (suc n) String.[] = ""
take_chars (suc n) (String.◌∷◌ c s) = String.◌∷◌ c (take_chars n s)

-- `s[n:]`
abbrev pub drop_chars : ℕ → String → String
drop_chars zero s = s
drop_chars (suc n) String.[] = ""
drop_chars (suc n) (String.◌∷◌ c s) = drop_chars n s

abbrev pub is_empty_text : String → Bool
is_empty_text String.[] = true
is_empty_text (String.◌∷◌ c s) = false

-- `s[:-1]`
abbrev pub init : String → String
init String.[] = ""
init (String.◌∷◌ c s) = let rest = init s in if is_empty_text s then "" else String.◌∷◌ c rest

module _ (stripped : ℕ → Bool) where
  abbrev pub lstrip_by : String → String
  lstrip_by String.[] = ""
  lstrip_by (String.◌∷◌ c s) =
      let rest = lstrip_by s in if stripped (code c) then rest else String.◌∷◌ c s

  abbrev pub rstrip_by : String → String
  rstrip_by String.[] = ""
  rstrip_by (String.◌∷◌ c s) =
      let rest = rstrip_by s in
      if stripped (code c) && is_empty_text rest then "" else String.◌∷◌ c rest

  abbrev pub strip_by : String → String
  strip_by s = rstrip_by (lstrip_by s)

-- `s.strip()`
unfoldable pub strip : String → String
strip = strip_by is_space

-- The bytes that UTF-8 takes for a code point.
abbrev pub utf8_width : ℕ → ℕ
utf8_width c = if ltb c 0x80 then 1 else if ltb c 0x800 then 2 else if ltb c 0x1_0000 then 3 else 4

-- `len(s.encode("utf-8"))`
abbrev pub utf8_len : String → ℕ
utf8_len String.[] = 0
utf8_len (String.◌∷◌ c s) = utf8_width (code c) + utf8_len s

abbrev pub has_code : (ℕ → Bool) → String → Bool
has_code p s = any p (codes s)

-- A digit of a UUID under a pattern: `h` for any, `v` for the variant, else itself.
abbrev digit_fits : (pattern digit : ℕ) → Bool
digit_fits p c =
    if p == b'h'
    then is_lower_hex c
    else if p == b'v'
    then c == b'8' || c == b'9' || c == b'a' || c == b'b'
    else c == p

unfoldable pub digits_fit : (pattern digits : List ℕ) → Bool
digits_fit [] [] = true
digits_fit (p ∷ ps) (c ∷ cs) = digit_fits p c && digits_fit ps cs
digits_fit _ _ = false

-- A canonical UUID of version 4.
unfoldable pub is_uuid4 : String → Bool
is_uuid4 s = digits_fit (codes "hhhhhhhh-hhhh-4hhh-vhhh-hhhhhhhhhhhh") (codes s)

-- Stripping at the end shortens a text, or leaves it.
pub len-rstrip_by : (p : ℕ → Bool) (s : String) → len (rstrip_by p s) ≤ len s
len-rstrip_by p String.[] = omega arith
len-rstrip_by p (String.◌∷◌ c s) = elim (Bool-cases (p (code c) && is_empty_text (rstrip_by p s))) [
  | inl e ↦ rw e (omega arith)
  | inr e ↦ rw e (omega (arith, len-rstrip_by p s))
]

pub len-init : (s : String) → is_empty_text s ≡ false → len (init s) < len s
len-init String.[] h = cc
len-init (String.◌∷◌ c s) h = elim (Bool-cases (is_empty_text s)) [
  | inl e ↦ rw e (omega arith)
  | inr e ↦ rw e (omega (arith, len-init s e))
]
