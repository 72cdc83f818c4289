-- ===== src/Text/Lines.antt =====
-- Python's `str.splitlines(keepends=True)`, and texts cut at the first occurrence of another.
use Prim.Native.Char.{Char, code}
use text.Mathlib.TextLemmas.{nil-append, cons-append, append_assoc}
use Prim.Native.String
use Prim.Native.String.{String}
use homeops_ai.Prelude.{
  ℕ, ◌≡◌, refl, ap, sym, ◌∙◌, Bool, true, false, not, ◌&&◌, ◌||◌, List, [], ◌∷◌, ◌++◌, ◌==◌,
  if◌then◌else◌, ==_iff, Bool-cases, inl, inr,
}
use homeops_ai.Text.{between}
use homeops_ai.Text.Chars.{is_empty_text}

-- The characters that end a line.
abbrev is_break : ℕ → Bool
is_break c = between 10 13 c || between 28 30 c || c == 0x85 || c == 0x2028 || c == 0x2029

abbrev starts_lf : String → Bool
starts_lf String.[] = false
starts_lf (String.◌∷◌ c s) = code c == 10

abbrev onto_first : Char → List String → List String
onto_first c [] = (String.◌∷◌ c "") ∷ []
onto_first c (l ∷ ls) = (String.◌∷◌ c l) ∷ ls

abbrev ends_line : Char → String → Bool
ends_line c s = is_break (code c) && not (code c == 13 && starts_lf s)

-- `s.splitlines(keepends=True)`; CR LF ends one line.
unfoldable pub split_lines : String → List String
split_lines String.[] = []
split_lines (String.◌∷◌ c s) =
    let rest = split_lines s in
    if ends_line c s then (String.◌∷◌ c "") ∷ rest else onto_first c rest

-- `"".join(parts)`
unfoldable pub concat : List String → String
concat [] = ""
concat (x ∷ xs) = String.◌++◌ x (concat xs)

concat-onto_first :
    (c : Char) (ls : List String) → concat (onto_first c ls) ≡ String.◌∷◌ c (concat ls)
unfolding concat
concat-onto_first c [] = cons-append c "" "" ∙ ap (λ t. String.◌∷◌ c t) (nil-append "")
concat-onto_first c (l ∷ ls) = cons-append c l (concat ls)

-- No character is lost.
pub concat-split_lines : (s : String) → concat (split_lines s) ≡ s
unfolding concat split_lines
concat-split_lines String.[] = refl
concat-split_lines (String.◌∷◌ c s) =
    let rest = ap (λ t. String.◌∷◌ c t) (concat-split_lines s) in
    elim (Bool-cases (ends_line c s)) [
      | inl e ↦ rw e (
          cons-append c "" (concat (split_lines s))
          ∙ ap (λ t. String.◌∷◌ c t) (nil-append (concat (split_lines s)))
          ∙ rest)
      | inr e ↦ rw e (concat-onto_first c (split_lines s) ∙ rest)
    ]

pub concat-append : (xs ys : List String) → concat (xs ++ ys) ≡ String.◌++◌ (concat xs) (concat ys)
unfolding concat
concat-append [] ys = sym (nil-append (concat ys))
concat-append (x ∷ xs) ys =
    ap (λ t. String.◌++◌ x t) (concat-append xs ys) ∙ sym (append_assoc x (concat xs) (concat ys))

-- Does the text end with a line feed?
unfoldable pub ends_lf : String → Bool
ends_lf String.[] = false
ends_lf (String.◌∷◌ c s) = let rest = ends_lf s in if is_empty_text s then code c == 10 else rest

split_lines-cons :
    (c : Char) (s : String)
    → split_lines (String.◌∷◌ c s)
      ≡ (if ends_line c s then (String.◌∷◌ c "") ∷ split_lines s else onto_first c (split_lines s))
unfolding split_lines
split_lines-cons c s = refl

onto_first_twice :
    (c d : Char) (ls ys : List String)
    → onto_first c (onto_first d ls ++ ys) ≡ onto_first c (onto_first d ls) ++ ys
onto_first_twice c d [] ys = refl
onto_first_twice c d (l ∷ ls) ys = refl

onto_first-append :
    (c d : Char) (s : String) (ys : List String)
    → onto_first c (split_lines (String.◌∷◌ d s) ++ ys)
      ≡ onto_first c (split_lines (String.◌∷◌ d s)) ++ ys
onto_first-append c d s ys = rw (split_lines-cons d s) (elim (Bool-cases (ends_line d s)) [
  | inl e ↦ rw e refl
  | inr e ↦ rw e (onto_first_twice c d (split_lines s) ys)
])

last_line :
    (c : Char) (t : String)
    → (code c == 10) ≡ true
    → (if ends_line c t then (String.◌∷◌ c "") ∷ split_lines t else onto_first c (split_lines t))
      ≡ (String.◌∷◌ c "") ∷ split_lines t
last_line c t h = let e = (==_iff (code c) 10).0 h in rw e refl

-- Lines that end are apart from what follows them.
pub split_lines-append :
    (s t : String)
    → ends_lf s ≡ true
    → split_lines (String.◌++◌ s t) ≡ split_lines s ++ split_lines t
unfolding ends_lf split_lines
split_lines-append String.[] t h = cc
split_lines-append (String.◌∷◌ c String.[]) t h =
    let one : split_lines (String.◌∷◌ c "") ≡ (String.◌∷◌ c "") ∷ [] =
      split_lines-cons c "" ∙ last_line c "" h in
    rw (cons-append c "" t, nil-append t, one) (split_lines-cons c t ∙ last_line c t h)
split_lines-append (String.◌∷◌ c (String.◌∷◌ d s)) t h =
    let rest = split_lines-append (String.◌∷◌ d s) t h in
    let same_end : ends_line c (String.◌++◌ (String.◌∷◌ d s) t) ≡ ends_line c (String.◌∷◌ d s) =
      rw (cons-append d s t) refl in
    rw (cons-append c (String.◌∷◌ d s) t) (
      rw (split_lines-cons c (String.◌++◌ (String.◌∷◌ d s) t), split_lines-cons c (String.◌∷◌ d s))
        (rw (same_end, rest)
          (elim (Bool-cases (ends_line c (String.◌∷◌ d s))) [
            | inl e ↦ rw e refl
            | inr e ↦ rw e (onto_first-append c d s (split_lines t))
          ])))
