-- ===== src/Markdown/Partition.antt =====
-- The sections of a document have its text: every line is in the preamble, is the line of a heading,
-- or is in the body of one section, in order.
use Prim.Native.String
use text.Mathlib.TextLemmas.{nil-append, cons-append, cons≢nil}
use homeops_ai.Prelude.{
  ℕ, zero, suc, ◌-◌, ◌<◌, ◌≤◌, ◌≡◌, refl, ap, sym, ◌∙◌, true, false, not, none, List, [], ◌∷◌, ◌++◌,
  Bool-cases, inl, inr, ◌⊎◌, arith, length, String, take, drop, all, any, str_eq, eq_iff,
}
use homeops_ai.Text.{is_blank}
use homeops_ai.Text.Lines.{concat, concat-append, split_lines, concat-split_lines}
use homeops_ai.Loader.{SectionRecord}
use homeops_ai.Markdown.{
  Heading, between_lines, end_of, shows_preamble, sections_from, pop, preamble, records_of,
  sections, headings_of, Token,
}
use homeops_ai.Prelude.Result.{ok}

-- The headings come in order, and each is at a line of the body.
abbrev pub IsOrdered : List Heading → List String → Type 0
IsOrdered [] lines = Unit {0}
IsOrdered (h ∷ hs) lines = (h.line < end_of hs lines) × IsOrdered hs lines

-- The lines of the headings and the bodies of their sections, in order
abbrev pub rebuilt : List String → List Heading → List SectionRecord → String
unfolding concat
rebuilt lines (h ∷ hs) (s ∷ ss) =
    String.◌++◌ (concat (take 1 (drop h.line lines))) (String.◌++◌ s.body (rebuilt lines hs ss))
rebuilt lines hs ss = ""

drop-length : (xs : List String) → drop (length xs) xs ≡ []
drop-length [] = refl
drop-length (x ∷ xs) = drop-length xs

drop_nil : (n : ℕ) → drop {A = String} n [] ≡ []
drop_nil zero = refl
drop_nil (suc n) = refl

take-drop : (n : ℕ) (xs : List String) → take n xs ++ drop n xs ≡ xs
take-drop zero xs = refl
take-drop (suc n) [] = refl
take-drop (suc n) (x ∷ xs) = ap (λ r. x ∷ r) (take-drop n xs)

drop-drop : (a b : ℕ) (xs : List String) → a ≤ b → drop (b - a) (drop a xs) ≡ drop b xs
drop-drop zero b xs h = let e : b - 0 ≡ b = omega arith in ap (λ n. drop n xs) e
drop-drop (suc a) b [] h = drop_nil (b - suc a) ∙ sym (drop_nil b)
drop-drop (suc a) zero (x ∷ xs) h = absurd (omega (arith, h))
drop-drop (suc a) (suc b) (x ∷ xs) h =
    let e : suc b - suc a ≡ b - a = omega arith in
    ap (λ n. drop n (drop a xs)) e ∙ drop-drop a b xs (omega (arith, h))

-- From a line on: what is before another line, and the rest.
cut :
    (a b : ℕ) (xs : List String)
    → a ≤ b
    → concat (drop a xs) ≡ String.◌++◌ (concat (between_lines a b xs)) (concat (drop b xs))
cut a b xs h =
    ap concat (sym (take-drop (b - a) (drop a xs)))
    ∙ concat-append (take (b - a) (drop a xs)) (drop (b - a) (drop a xs))
    ∙ ap (λ r. String.◌++◌ (concat (between_lines a b xs)) (concat r)) (drop-drop a b xs h)

cut_line :
    (a : ℕ) (xs : List String)
    → concat (drop a xs) ≡ String.◌++◌ (concat (take 1 (drop a xs))) (concat (drop (suc a) xs))
cut_line a xs =
    let one : suc a - a ≡ 1 = omega arith in
    cut a (suc a) xs (omega arith)
    ∙ ap (λ n. String.◌++◌ (concat (take n (drop a xs))) (concat (drop (suc a) xs))) one

concat-take-drop :
    (n : ℕ) (xs : List String) → String.◌++◌ (concat (take n xs)) (concat (drop n xs)) ≡ concat xs
concat-take-drop n xs = sym (concat-append (take n xs) (drop n xs)) ∙ ap concat (take-drop n xs)

append-empty : (s t : String) → String.◌++◌ s t ≡ "" → (s ≡ "") × (t ≡ "")
append-empty String.[] t h = (refl, sym (nil-append t) ∙ h)
append-empty (String.◌∷◌ c s) t h = absurd (cons≢nil (sym (cons-append c s t) ∙ h))

-- An empty text has no lines but empty ones.
concat-IsBlank : (xs : List String) → concat xs ≡ "" → all is_blank xs ≡ true
unfolding concat is_blank
concat-IsBlank [] h = refl
concat-IsBlank (x ∷ xs) h =
    let (first, rest) = append-empty x (concat xs) h in rw (first, concat-IsBlank xs rest) refl

any-not-all : (xs : List String) → any (λ l. not (is_blank l)) xs ≡ false → all is_blank xs ≡ true
any-not-all [] h = refl
any-not-all (x ∷ xs) h = ground (arith, any-not-all xs)

abbrev pub before_headings : List Heading → List String → List String
before_headings hs lines = take (end_of hs lines) lines

hidden-IsBlank :
    (hs : List Heading) (lines : List String)
    → shows_preamble hs lines ≡ false
    → all is_blank (take (end_of hs lines) lines) ≡ true
hidden-IsBlank [] lines h = cc
hidden-IsBlank (x ∷ xs) lines h = any-not-all (take x.line lines) h

module _ (hash : String → String) where
  -- From the first heading on
  rebuilt-sections_from :
      (lines : List String) (stack : List (ℕ × ℕ)) (n : ℕ) (hs : List Heading)
      → IsOrdered hs lines
      → rebuilt lines hs (sections_from hash lines stack n hs)
        ≡ concat (drop (end_of hs lines) lines)
  unfolding sections_from concat
  rebuilt-sections_from lines stack n [] h = sym (ap concat (drop-length lines))
  rebuilt-sections_from lines stack n (x ∷ xs) h =
      rw (rebuilt-sections_from lines ((x.level, n) ∷ pop x.level stack) (suc n) xs h.1) (
        ap (λ r. String.◌++◌ (concat (take 1 (drop x.line lines))) r)
          (sym (cut (suc x.line) (end_of xs lines) lines (omega (arith, h.0))))
        ∙ sym (cut_line x.line lines))

  -- The preamble has the lines before the first heading, or these lines are blank.
  preamble-cases :
      (hs : List Heading) (lines : List String)
      → ((pre : SectionRecord) × (preamble hash hs lines ≡ pre ∷ [])
          × (pre.heading ≡ none)
          × (pre.body ≡ concat (before_headings hs lines)))
        ⊎ ((preamble hash hs lines ≡ []) × (all is_blank (before_headings hs lines) ≡ true))
  unfolding preamble
  preamble-cases hs lines = elim (Bool-cases (shows_preamble hs lines)) [
    | inr e ↦ inr (rw e refl, hidden-IsBlank hs lines e)
    | inl e ↦ elim (Bool-cases (str_eq (concat (take (end_of hs lines) lines)) "")) [
      | inl b ↦
          inr (
            rw e (rw b refl),
            concat-IsBlank _ ((eq_iff (concat (before_headings hs lines)) "").0 b),
          )
      | inr b ↦ inl (
        record {
          ordinal = 0;
          parent_ordinal = none;
          heading_level = 0;
          heading = none;
          body = concat (before_headings hs lines);
          content_hash = hash (concat (before_headings hs lines));
        },
        rw e (rw b refl),
        refl,
        refl,
      )
    ]
  ]

  whole_text :
      (body : String) (hs : List Heading) (stack : List (ℕ × ℕ)) (n : ℕ)
      → IsOrdered hs (split_lines body)
      → String.◌++◌
          (concat (before_headings hs (split_lines body)))
          (rebuilt (split_lines body) hs (sections_from hash (split_lines body) stack n hs))
        ≡ body
  whole_text body hs stack n h =
      ap (λ r. String.◌++◌ (concat (before_headings hs (split_lines body))) r)
        (rebuilt-sections_from (split_lines body) stack n hs h)
      ∙ concat-take-drop (end_of hs (split_lines body)) (split_lines body)
      ∙ concat-split_lines body

  -- For a body whose headings are found in order, each at a line of the body, `_sections` returns
  -- sections. Either the first has no heading, and its body, with the line of each heading and the
  -- body of the section of this heading after it, is the text; or the lines before the first
  -- heading are blank, and they, with the lines of the headings and all the sections, are the text.
  pub sections-partition :
      (body : String) (tokens : List Token) (hs : List Heading)
      → headings_of tokens ≡ ok hs
      → IsOrdered hs (split_lines body)
      → (ss : List SectionRecord) × (sections hash body tokens ≡ ok ss)
        × (((pre : SectionRecord) × (rest : List SectionRecord) × (ss ≡ pre ∷ rest)
              × (pre.heading ≡ none)
              × (String.◌++◌ pre.body (rebuilt (split_lines body) hs rest) ≡ body))
            ⊎ ((all is_blank (before_headings hs (split_lines body)) ≡ true)
                × (String.◌++◌
                      (concat (before_headings hs (split_lines body)))
                      (rebuilt (split_lines body) hs ss)
                    ≡ body)))
  unfolding sections records_of
  sections-partition body tokens hs h ordered =
      let lines = split_lines body in
      (
        records_of hash lines hs,
        rw h refl,
        elim (preamble-cases hs lines) [
          | inl e ↦ inl (
            e.0,
            sections_from hash lines [] 1 hs,
            rw e.1 refl,
            e.2,
            ap (λ r. String.◌++◌ r (rebuilt lines hs (sections_from hash lines [] 1 hs))) e.3
                ∙ whole_text body hs [] 1 ordered,
          )
          | inr e ↦ inr (e.1, rw e.0 (whole_text body hs [] 0 ordered))
        ],
      )
