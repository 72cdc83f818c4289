-- ===== src/Markdown/Links.antt =====
-- src/homeops_ai/markdown_parser.py: links, wiki links and categories.
use Prim.Native.Char.{Char, code}
use homeops_ai.Prelude.{
  ℕ, suc, ◌+◌, String, Bool, true, false, ◌&&◌, ◌||◌, Option, none, some, List, [], ◌∷◌, ◌++◌, ◌==◌,
  leb, str_eq, if◌then◌else◌, length, filter, mem,
}
use homeops_ai.Prelude.Result.{Result, ok, err, ◌>>=◌}
use homeops_ai.Text.{codes, len, starts_codes}
use homeops_ai.Text.Chars.{drop_chars}
use homeops_ai.Text.Lines.{concat}
use homeops_ai.Loader.{SectionRecord, LinkOccurrence}
use homeops_ai.Markdown.{
  MarkdownError, stop_iteration, Inline, link_open, link_close, text, code_inline, wikilink, Token,
  heading_open, inline,
}

abbrev prepend : Char → Option (String × String) → Option (String × String)
prepend c none = none
prepend c (some p) = some (String.◌∷◌ c p.0, p.1)

-- `s.split(separator, 1)`, where the separator is there
unfoldable pub split_once : (separator : String) → String → Option (String × String)
split_once sep String.[] = none
split_once sep (String.◌∷◌ c s) =
    let rest = split_once sep s in
    if starts_codes (codes sep) (codes (String.◌∷◌ c s))
    then some ("", drop_chars (len sep) (String.◌∷◌ c s))
    else prepend c rest

-- What is before and after the first match of `\\?\|`
unfoldable pub find_alias : String → Option (String × String)
find_alias String.[] = none
find_alias (String.◌∷◌ c s) =
    let rest = find_alias s in
    if code c == b'|'
    then some ("", s)
    else if code c == b'\\' && starts_codes (codes "|") (codes s)
    then some ("", drop_chars 1 s)
    else prepend c rest

-- `s or None`
abbrev pub or_none : String → Option String
or_none s = if str_eq s "" then none else some s

abbrev with_alias : String → Option (String × String) → String × Option String
with_alias raw none = (raw, none)
with_alias raw (some p) = (p.0, or_none p.1)

-- `_split_alias`
unfoldable pub split_alias : String → String × Option String
unfolding find_alias
split_alias raw = with_alias raw (find_alias raw)

pub record WikiTarget : Type 0 where
  pub title : Option String
  pub heading : Option String
  pub block_id : Option String
  pub display : Option String

abbrev heading_target :
    (target : String) (display : Option String) → Option (String × String) → WikiTarget
heading_target target display none = record {
  title = or_none target;
  heading = none;
  block_id = none;
  display = display;
}
heading_target target display (some p) = record {
  title = or_none p.0;
  heading = or_none p.1;
  block_id = none;
  display = display;
}

abbrev block_target :
    (target : String) (display : Option String) → Option (String × String) → WikiTarget
unfolding split_once
block_target target display none = heading_target target display (split_once "#" target)
block_target target display (some p) = record {
  title = or_none p.0;
  heading = none;
  block_id = or_none p.1;
  display = display;
}

-- `_split_wiki_target`
unfoldable pub split_wiki_target : String → WikiTarget
unfolding split_alias block_target split_once
split_wiki_target raw =
    let (target, display) = split_alias raw in block_target target display (split_once "#^" target)

abbrev before_hash : String → Option (String × String) → String
before_hash target none = target
before_hash target (some p) = p.0

abbrev pub or_earlier : Option ℕ → ℕ → Option ℕ
or_earlier none n = some n
or_earlier (some m) n = some m

-- `_section_for_line`: the last of the sections that start at the line or before it
unfoldable pub section_for_line : List (ℕ × ℕ) → (line : ℕ) → Option ℕ
section_for_line [] line = none
section_for_line (p ∷ ps) line =
    let rest = section_for_line ps line in if leb p.0 line then or_earlier rest p.1 else rest

abbrev pub line_or_zero : Option ℕ → ℕ
line_or_zero none = 0
line_or_zero (some line) = line

module _ (scheme : String → Result MarkdownError String) (suffix : String → String) where
  -- The classification of a target that is not in the document itself
  unfoldable pub classify_other : String → Result MarkdownError String
  unfolding split_once
  classify_other target = do
    found ← scheme target
    let ending = suffix (before_hash target (split_once "#" target))
    ok (
        if mem found ("http" ∷ "https" ∷ [])
        then "external"
        else if str_eq ending ".md" || str_eq ending ""
        then "internal"
        else "attachment")

  -- `_classify_target`; the syntax makes no difference.
  unfoldable pub classify_target : Option String → Result MarkdownError String
  unfolding classify_other
  classify_target none = ok "same-document"
  classify_target (some target) =
      let other = classify_other target in
      if starts_codes (codes "#") (codes target) then ok "same-document" else other

  abbrev after_hash : Option (String × String) → Option String
  after_hash none = none
  after_hash (some p) = or_none p.1

  -- Title and heading of a Markdown link
  unfoldable pub link_target : (kind href : String) → Option String × Option String
  unfolding split_once
  link_target kind href =
      if str_eq kind "internal"
      then (or_none (before_hash href (split_once "#" href)), after_hash (split_once "#" href))
      else if str_eq kind "same-document"
      then (none, or_none (drop_chars 1 href))
      else (none, none)

  module _ (section : Option ℕ) where
    unfoldable pub markdown_link :
        (ordinal : ℕ) (href : String) (texts : List String) → Result MarkdownError LinkOccurrence
    unfolding classify_target link_target concat
    markdown_link ordinal href texts = do
      kind ← classify_target (some href)
      let (title, heading) = link_target kind href
      ok (record {
        ordinal = ordinal;
        source_section_ordinal = section;
        syntax = "markdown";
        link_kind = kind;
        raw_target = href;
        target_title = title;
        target_heading = heading;
        target_block_id = none;
        display_text = or_none (concat texts);
        is_embed = false;
      })

    unfoldable pub wiki_link :
        (ordinal : ℕ) (content : String) (is_embed : Bool) → Result MarkdownError LinkOccurrence
    unfolding classify_target split_wiki_target
    wiki_link ordinal content is_embed = do
      let target = split_wiki_target content
      kind ← classify_target target.title
      ok (record {
        ordinal = ordinal;
        source_section_ordinal = section;
        syntax = "wikilink";
        link_kind = kind;
        raw_target = content;
        target_title = target.title;
        target_heading = target.heading;
        target_block_id = target.block_id;
        display_text = target.display;
        is_embed = is_embed;
      })

    -- `_inline_links`: `href` is the open link and `texts` its texts so far.
    unfoldable pub inline_links :
        (ordinal : ℕ) (href : Option String) (texts : List String)
        → List Inline
        → Result MarkdownError (List LinkOccurrence)
    unfolding markdown_link wiki_link
    inline_links n href texts [] = ok []
    inline_links n href texts (link_open found ∷ is) = inline_links n found [] is
    inline_links n (some href) texts (link_close ∷ is) = do
      link ← markdown_link n href texts
      links ← inline_links (suc n) none [] is
      ok (link ∷ links)
    inline_links n (some href) texts (text s ∷ is) =
        inline_links n (some href) (texts ++ (s ∷ [])) is
    inline_links n (some href) texts (code_inline s ∷ is) =
        inline_links n (some href) (texts ++ (s ∷ [])) is
    inline_links n href texts (wikilink s embed ∷ is) = do
      link ← wiki_link n s embed
      links ← inline_links (suc n) href texts is
      ok (link ∷ links)
    inline_links n href texts (i ∷ is) = inline_links n href texts is

  -- The loop of `_link_occurrences`
  unfoldable pub occurrences_from :
      (starts : List (ℕ × ℕ)) (ordinal : ℕ)
      → List Token
      → Result MarkdownError (List LinkOccurrence)
  unfolding section_for_line inline_links
  occurrences_from starts n [] = ok []
  occurrences_from starts n (inline line content (i ∷ is) ∷ ts) = do
    here ← inline_links (section_for_line starts (line_or_zero line)) n none [] (i ∷ is)
    rest ← occurrences_from starts (n + length here) ts
    ok (here ++ rest)
  occurrences_from starts n (t ∷ ts) = occurrences_from starts n ts

abbrev pub has_heading : SectionRecord → Bool
has_heading s = elim s.heading [ none ↦ false | some h ↦ true ]

-- `next(heading_sections)`, and what the iterator has left
abbrev pub next_section : List SectionRecord → Result MarkdownError SectionRecord
next_section [] = err stop_iteration
next_section (s ∷ ss) = ok s

abbrev pub after_next : List SectionRecord → List SectionRecord
after_next [] = []
after_next (s ∷ ss) = ss

unfoldable pub starts_from : List SectionRecord → List Token → Result MarkdownError (List (ℕ × ℕ))
starts_from ss [] = ok []
starts_from ss (heading_open (some line) level ∷ ts) = do
  section ← next_section ss
  rest ← starts_from (after_next ss) ts
  ok ((line, section.ordinal) ∷ rest)
starts_from ss (t ∷ ts) = starts_from ss ts

abbrev pub first_start : List SectionRecord → List (ℕ × ℕ)
first_start [] = []
first_start (s ∷ ss) = if has_heading s then [] else (0, s.ordinal) ∷ []

-- `_section_starts`
unfoldable pub section_starts :
    List SectionRecord → List Token → Result MarkdownError (List (ℕ × ℕ))
unfolding starts_from
section_starts ss tokens = do
  rest ← starts_from (filter has_heading ss) tokens
  ok (first_start ss ++ rest)

-- `_link_occurrences`
unfoldable pub link_occurrences :
    (scheme : String → Result MarkdownError String) (suffix : String → String)
    → List Token
    → List SectionRecord
    → Result MarkdownError (List LinkOccurrence)
unfolding section_starts occurrences_from
link_occurrences scheme suffix tokens ss =
    section_starts ss tokens >>= λ starts. occurrences_from scheme suffix starts 0 tokens
