-- ===== src/Markdown/Numbered.antt =====
-- The links of a document: the parser always finds them, numbers them in order, and gives each the
-- number of a section that exists.
use homeops_ai.Prelude.{
  ℕ, suc, ◌+◌, ◌<◌, ◌≡◌, refl, sym, Bool, Option, none, some, List, [], ◌∷◌, ◌++◌, leb, Bool-cases,
  inl, inr, arith, length, All, String, subst,
}
use homeops_ai.Prelude.Result.{Result, ok, ◌>>=◌}
use homeops_ai.Text.{codes, starts_codes}
use homeops_ai.Loader.{LinkOccurrence}
use homeops_ai.Markdown.{
  MarkdownError, Inline, link_open, link_close, text, code_inline, wikilink, other_inline, Token,
  heading_open, inline, other_token,
}
use homeops_ai.Markdown.Links.{
  split_wiki_target, classify_other, classify_target, markdown_link, wiki_link, inline_links,
  or_earlier, line_or_zero, section_for_line, occurrences_from,
}

-- A section number that may be absent, of so many sections
abbrev pub IsWithin : (count : ℕ) → Option ℕ → Type 0
IsWithin count none = Unit {0}
IsWithin count (some k) = k < count

-- Links numbered from `n` on, each in a section of `count`
abbrev pub IsNumbered : (count n : ℕ) → List LinkOccurrence → Type 0
IsNumbered count n [] = Unit {0}
IsNumbered count n (l ∷ ls) =
    (l.ordinal ≡ n) × IsWithin count l.source_section_ordinal × IsNumbered count (suc n) ls

IsNumbered-append :
    (count n : ℕ) (xs ys : List LinkOccurrence)
    → IsNumbered count n xs
    → IsNumbered count (n + length xs) ys
    → IsNumbered count n (xs ++ ys)
IsNumbered-append count n [] ys hx hy = subst (λ m. IsNumbered count m ys) (omega arith) hy
IsNumbered-append count n (x ∷ xs) ys hx hy = (
  hx.0,
  hx.1,
  IsNumbered-append count (suc n) xs ys hx.2 (subst (λ m. IsNumbered count m ys) (omega arith) hy),
)

module _ (scheme : String → Result MarkdownError String) (suffix : String → String)
    (total : (t : String) → (x : String) × (scheme t ≡ ok x)) where
  classify_total :
      (t : Option String) → (kind : String) × (classify_target scheme suffix t ≡ ok kind)
  unfolding classify_target classify_other
  classify_total none = ("same-document", refl)
  classify_total (some t) = elim (Bool-cases (starts_codes (codes "#") (codes t))) [
    | inl e ↦ ("same-document", rw e refl)
    | inr e ↦ let (x, h) = total t in rw e (rw h (_, refl))
  ]

  module _ (count : ℕ) (section : Option ℕ) (within : IsWithin count section) where
    abbrev Links : (n : ℕ) → Result MarkdownError (List LinkOccurrence) → Type 0
    Links n r = (ls : List LinkOccurrence) × (r ≡ ok ls) × IsNumbered count n ls

    abbrev Link : (n : ℕ) → Result MarkdownError LinkOccurrence → Type 0
    Link n r =
        (l : LinkOccurrence) × (r ≡ ok l) × (l.ordinal ≡ n) × (l.source_section_ordinal ≡ section)

    markdown_link-Link :
        (n : ℕ) (href : String) (texts : List String)
        → Link n (markdown_link scheme suffix section n href texts)
    unfolding markdown_link
    markdown_link-Link n href texts =
        let (kind, h) = classify_total (some href) in rw h (_, refl, refl, refl)

    wiki_link-Link :
        (n : ℕ) (content : String) (embed : Bool)
        → Link n (wiki_link scheme suffix section n content embed)
    unfolding wiki_link
    wiki_link-Link n content embed =
        let (kind, h) = classify_total (split_wiki_target content).title in
        rw h (_, refl, refl, refl)

    Links-cons :
        (n : ℕ) (r : Result MarkdownError LinkOccurrence)
        (rest : Result MarkdownError (List LinkOccurrence))
        → Link n r
        → Links (suc n) rest
        → Links n (r >>= λ l. rest >>= λ ls. ok (l ∷ ls))
    Links-cons n r rest (l, e, ordinal, here) (ls, e', numbered) =
        (l ∷ ls, rw (e, e') refl, (ordinal, subst (IsWithin count) (sym here) within, numbered))

    inline_links-Links :
        (n : ℕ) (href : Option String) (texts : List String) (is : List Inline)
        → Links n (inline_links scheme suffix section n href texts is)
    unfolding inline_links
    inline_links-Links n href texts [] = ([], refl, tt)
    inline_links-Links n href texts (link_open found ∷ is) = inline_links-Links n found [] is
    inline_links-Links n none texts (link_close ∷ is) = inline_links-Links n none texts is
    inline_links-Links n (some href) texts (link_close ∷ is) =
        Links-cons n (markdown_link scheme suffix section n href texts)
          (inline_links scheme suffix section (suc n) none [] is) (markdown_link-Link n href texts)
          (inline_links-Links (suc n) none [] is)
    inline_links-Links n none texts (text s ∷ is) = inline_links-Links n none texts is
    inline_links-Links n (some href) texts (text s ∷ is) =
        inline_links-Links n (some href) (texts ++ (s ∷ [])) is
    inline_links-Links n none texts (code_inline s ∷ is) = inline_links-Links n none texts is
    inline_links-Links n (some href) texts (code_inline s ∷ is) =
        inline_links-Links n (some href) (texts ++ (s ∷ [])) is
    inline_links-Links n none texts (wikilink s embed ∷ is) =
        Links-cons n (wiki_link scheme suffix section n s embed)
          (inline_links scheme suffix section (suc n) none texts is) (wiki_link-Link n s embed)
          (inline_links-Links (suc n) none texts is)
    inline_links-Links n (some href) texts (wikilink s embed ∷ is) =
        Links-cons n (wiki_link scheme suffix section n s embed)
          (inline_links scheme suffix section (suc n) (some href) texts is)
          (wiki_link-Link n s embed) (inline_links-Links (suc n) (some href) texts is)
    inline_links-Links n none texts (other_inline ∷ is) = inline_links-Links n none texts is
    inline_links-Links n (some href) texts (other_inline ∷ is) =
        inline_links-Links n (some href) texts is

or_earlier-IsWithin :
    (count : ℕ) (o : Option ℕ) (n : ℕ)
    → n < count
    → IsWithin count o
    → IsWithin count (or_earlier o n)
or_earlier-IsWithin count none n h r = h
or_earlier-IsWithin count (some m) n h r = r

section_for_line-IsWithin :
    (count line : ℕ) (starts : List (ℕ × ℕ))
    → All (λ p. p.1 < count) starts
    → IsWithin count (section_for_line starts line)
unfolding section_for_line
section_for_line-IsWithin count line [] h = tt
section_for_line-IsWithin count line (p ∷ ps) h =
    let rest = section_for_line-IsWithin count line ps h.1 in
    elim (Bool-cases (leb p.0 line)) [
      | inr e ↦ rw e rest
      | inl e ↦ rw e (or_earlier-IsWithin count (section_for_line ps line) p.1 h.0 rest)
    ]

module _ (scheme : String → Result MarkdownError String) (suffix : String → String)
    (total : (t : String) → (x : String) × (scheme t ≡ ok x)) (count : ℕ) (starts : List (ℕ × ℕ))
    (inside : All (λ p. p.1 < count) starts) where
  pub occurrences-IsNumbered :
      (n : ℕ) (ts : List Token)
      → (ls : List LinkOccurrence) × (occurrences_from scheme suffix starts n ts ≡ ok ls)
        × IsNumbered count n ls
  unfolding occurrences_from
  occurrences-IsNumbered n [] = ([], refl, tt)
  occurrences-IsNumbered n (heading_open line level ∷ ts) = occurrences-IsNumbered n ts
  occurrences-IsNumbered n (other_token content ∷ ts) = occurrences-IsNumbered n ts
  occurrences-IsNumbered n (inline line content [] ∷ ts) = occurrences-IsNumbered n ts
  occurrences-IsNumbered n (inline line content (i ∷ is) ∷ ts) =
      let section = section_for_line starts (line_or_zero line) in
      let (here, e, numbered) =
        inline_links-Links scheme suffix total count section
          (section_for_line-IsWithin count (line_or_zero line) starts inside) n none [] (i ∷ is) in
      let (rest, e', numbered') = occurrences-IsNumbered (n + length here) ts in
      (here ++ rest, rw (e, e') refl, IsNumbered-append count n here rest numbered numbered')
