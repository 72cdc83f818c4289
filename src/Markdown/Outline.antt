-- ===== src/Markdown/Outline.antt =====
-- The outline of a document: sections are numbered in order, and the stack of markdown_parser.py
-- finds the enclosing section.
use homeops_ai.Prelude.{
  ℕ, suc, ◌≡◌, refl, ap, true, Option, none, some, List, [], ◌∷◌, ◌++◌, leb, ltb, if◌then◌else◌,
  Bool-cases, inl, inr, arith, length, length-map, sym, map, String, ◌∙◌, ◌⊎◌, str_eq,
}
use homeops_ai.Loader.{SectionRecord}
use homeops_ai.Markdown.{
  Token, Heading, pop, top, sections_from, preamble, records_of, shows_preamble, end_of, sections,
  headings_of,
}
use homeops_ai.Prelude.{take}
use homeops_ai.Text.Lines.{concat, split_lines}
use homeops_ai.Prelude.Result.{ok}

-- The latest of the headings so far, newest first, whose level is less
abbrev pub enclosing : (level : ℕ) → List (ℕ × ℕ) → Option ℕ
enclosing level [] = none
enclosing level (p ∷ ps) = if ltb p.0 level then some p.1 else enclosing level ps

-- What the sections of the headings are to say: level, ordinal and the enclosing section.
abbrev pub outline : (earlier : List (ℕ × ℕ)) (ordinal : ℕ) → List Heading → List (ℕ × ℕ × Option ℕ)
outline earlier n [] = []
outline earlier n (h ∷ hs) =
    (h.level, n, enclosing h.level earlier) ∷ outline ((h.level, n) ∷ earlier) (suc n) hs

abbrev pub place : SectionRecord → ℕ × ℕ × Option ℕ
place s = (s.heading_level, s.ordinal, s.parent_ordinal)

top-pop : (level : ℕ) (stack : List (ℕ × ℕ)) → top (pop level stack) ≡ enclosing level stack
unfolding pop
top-pop level [] = refl
top-pop level (p ∷ ps) = ground (arith, top-pop level ps)

-- What is popped cannot enclose a heading that is not deeper.
enclosing-pop :
    (m level : ℕ) (stack : List (ℕ × ℕ))
    → leb m level ≡ true
    → enclosing m (pop level stack) ≡ enclosing m stack
unfolding pop
enclosing-pop m level [] h = refl
enclosing-pop m level (p ∷ ps) h = ground (arith, enclosing-pop m level ps h)

-- The stack answers as all the earlier headings do.
abbrev Agrees : (stack earlier : List (ℕ × ℕ)) → Type 0
Agrees stack earlier = (m : ℕ) → enclosing m stack ≡ enclosing m earlier

push-Agrees :
    (level n : ℕ) (stack earlier : List (ℕ × ℕ))
    → Agrees stack earlier
    → Agrees ((level, n) ∷ pop level stack) ((level, n) ∷ earlier)
push-Agrees level n stack earlier h m = elim (Bool-cases (ltb level m)) [
  | inl e ↦ rw e refl
  | inr e ↦ rw e (enclosing-pop m level stack (ground arith) ∙ h m)
]

module _ (hash : String → String) where
  pub sections_from-outline :
      (lines : List String) (stack earlier : List (ℕ × ℕ)) (n : ℕ) (hs : List Heading)
      → Agrees stack earlier
      → map place (sections_from hash lines stack n hs) ≡ outline earlier n hs
  unfolding sections_from
  sections_from-outline lines stack earlier n [] h = refl
  sections_from-outline lines stack earlier n (x ∷ xs) h =
      rw (top-pop x.level stack, h x.level)
        (ap (λ rest. (x.level, n, enclosing x.level earlier) ∷ rest)
          (sections_from-outline lines ((x.level, n) ∷ pop x.level stack) ((x.level, n) ∷ earlier)
            (suc n) xs (push-Agrees x.level n stack earlier h)))

  preamble-place :
      (hs : List Heading) (lines : List String)
      → (preamble hash hs lines ≡ []) ⊎ (map place (preamble hash hs lines) ≡ (0, 0, none) ∷ [])
  unfolding preamble
  preamble-place hs lines = elim (Bool-cases (shows_preamble hs lines)) [
    | inr e ↦ inl (rw e refl)
    | inl e ↦ elim (Bool-cases (str_eq (concat (take (end_of hs lines) lines)) "")) [
      | inl b ↦ inl (rw e (rw b refl))
      | inr b ↦ inr (rw e (rw b refl))
    ]
  ]

  map-append_place :
      (xs ys : List SectionRecord) → map place (xs ++ ys) ≡ map place xs ++ map place ys
  map-append_place [] ys = refl
  map-append_place (x ∷ xs) ys = ap (λ r. place x ∷ r) (map-append_place xs ys)

  records_of-outline :
      (lines : List String) (hs : List Heading)
      → (map place (records_of hash lines hs) ≡ outline [] 0 hs)
        ⊎ (map place (records_of hash lines hs) ≡ (0, 0, none) ∷ outline [] 1 hs)
  unfolding records_of
  records_of-outline lines hs = elim (preamble-place hs lines) [
    | inl e ↦ inl (rw e (sections_from-outline lines [] [] 0 hs (λ m. refl)))
    | inr e ↦
        let one : length (preamble hash hs lines) ≡ 1 =
          sym (length-map place (preamble hash hs lines)) ∙ ap length e in
        inr (
          map-append_place (preamble hash hs lines)
            (sections_from hash lines [] (length (preamble hash hs lines)) hs)
          ∙ rw (e, one)
              (ap (λ r. (0, 0, none) ∷ r) (sections_from-outline lines [] [] 1 hs (λ m. refl))))
  ]

  -- The sections of a body whose headings are found are computed, and their levels, numbers and
  -- parents are those of the outline of the headings, numbered from 0 on, or of a section without
  -- heading, level or parent that has the number 0, and the outline numbered from 1 on. The outline
  -- takes for the parent of a heading the latest earlier heading of a lower level.
  pub sections-outline :
      (body : String) (tokens : List Token) (hs : List Heading)
      → headings_of tokens ≡ ok hs
      → (ss : List SectionRecord) × (sections hash body tokens ≡ ok ss)
        × ((map place ss ≡ outline [] 0 hs) ⊎ (map place ss ≡ (0, 0, none) ∷ outline [] 1 hs))
  unfolding sections
  sections-outline body tokens hs h =
      (records_of hash (split_lines body) hs, rw h refl, records_of-outline (split_lines body) hs)
