-- ===== src/Broker/Filename.antt =====
-- `_safe_filename_title` of src/homeops_ai/write_broker.py.
use Prim.Native.Char.{code}
use Prim.Native.String
use homeops_ai.Prelude.{
  ℕ, zero, suc, ◌≤◌, String, ◌≡◌, refl, Bool, true, false, ◌||◌, arith, ltb, ◌==◌, if◌then◌else◌,
  Bool-cases, inl, inr,
}
use homeops_ai.Text.{len, is_space}
use homeops_ai.Text.Chars.{
  is_empty_text, init, rstrip_by, strip_by, utf8_len, len-rstrip_by, len-init,
}

-- One of `< > : " / \ | ? *`, or a control character.
abbrev is_invalid_filename_char : ℕ → Bool
is_invalid_filename_char c =
    c == b'<'
    || c == b'>'
    || c == b':'
    || c == b'"'
    || c == b'/'
    || c == b'\\'
    || c == b'|'
    || c == b'?'
    || c == b'*'
    || ltb c 0x20

unfoldable pub replace_invalid : String → String
replace_invalid String.[] = ""
replace_invalid (String.◌∷◌ c s) =
    let rest = replace_invalid s in
    if is_invalid_filename_char (code c) then String.◌++◌ "-" rest else String.◌∷◌ c rest

-- `re.sub(r"\s+", " ", s)`; `inside` says that the white space before has its blank.
unfoldable pub collapse : (inside : Bool) → String → String
collapse inside String.[] = ""
collapse inside (String.◌∷◌ c s) =
    let blank = collapse true s in
    let other = collapse false s in
    if is_space (code c)
    then (if inside then blank else String.◌++◌ " " blank)
    else String.◌∷◌ c other

-- One of the characters of `" .-"`.
abbrev pub is_edge : ℕ → Bool
is_edge c = c == b' ' || c == b'.' || c == b'-'

-- The `while` loop. Each round drops a character, so the length of the text is fuel enough.
unfoldable pub shrink : (fuel : ℕ) → String → String
shrink zero s = s
shrink (suc fuel) s =
    let rest = shrink fuel (rstrip_by is_edge (init s)) in if ltb 120 (utf8_len s) then rest else s

abbrev or_untitled : String → String
or_untitled s = if is_empty_text s then "Untitled" else s

unfoldable pub safe_filename_title : String → String
safe_filename_title title =
    let cleaned = or_untitled (strip_by is_edge (collapse false (replace_invalid title))) in
    or_untitled (shrink (len cleaned) cleaned)

utf8_empty : (s : String) → len s ≤ 0 → utf8_len s ≤ 120
utf8_empty String.[] h = omega arith
utf8_empty (String.◌∷◌ c s) h = absurd (omega arith)

long_not_empty : (s : String) → ltb 120 (utf8_len s) ≡ true → is_empty_text s ≡ false
long_not_empty String.[] h = cc
long_not_empty (String.◌∷◌ c s) h = refl

shrink-le : (fuel : ℕ) (s : String) → len s ≤ fuel → utf8_len (shrink fuel s) ≤ 120
unfolding shrink
shrink-le zero s h = utf8_empty s h
shrink-le (suc fuel) s h = elim (Bool-cases (ltb 120 (utf8_len s))) [
  | inl e ↦ rw e (
      shrink-le fuel (rstrip_by is_edge (init s))
        (omega (arith, len-rstrip_by is_edge (init s), len-init s (long_not_empty s e))))
  | inr e ↦ rw e (ground arith)
]

or_untitled-le : (s : String) → utf8_len s ≤ 120 → utf8_len (or_untitled s) ≤ 120
or_untitled-le String.[] h = omega arith
or_untitled-le (String.◌∷◌ c s) h = h

or_untitled-not_empty : (s : String) → is_empty_text (or_untitled s) ≡ false
or_untitled-not_empty String.[] = refl
or_untitled-not_empty (String.◌∷◌ c s) = refl

-- The file name's title is never empty and takes at most 120 bytes in UTF-8.
pub safe_filename_title-bounds :
    (title : String)
    → (is_empty_text (safe_filename_title title) ≡ false)
      × (utf8_len (safe_filename_title title) ≤ 120)
unfolding safe_filename_title
safe_filename_title-bounds title =
    let cleaned = or_untitled (strip_by is_edge (collapse false (replace_invalid title))) in
    (
      or_untitled-not_empty (shrink (len cleaned) cleaned),
      or_untitled-le (shrink (len cleaned) cleaned) (shrink-le (len cleaned) cleaned (omega arith)),
    )
