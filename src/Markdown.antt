-- ===== src/Markdown.antt =====
-- src/homeops_ai/markdown_parser.py: the sections and the links of a document. The tokens are what
-- the third-party parser of Markdown gives for the body; a token has the first line of its map, if it
-- has a map, a heading the number of its tag. `hash` is the SHA-256 of a text, `scheme` what
-- `urlparse` finds, or that it raises, and `suffix` the suffix of a POSIX path in lower case.
pub mod Outline
pub mod Partition
pub mod Links
pub mod Numbered
pub mod Attributed
use homeops_ai.Prelude.{
  ℕ, suc, ◌-◌, String, Bool, true, false, not, Option, none, some, List, [], ◌∷◌, ◌++◌, leb, str_eq,
  if◌then◌else◌, length, take, drop, any,
}
use homeops_ai.Prelude.Result.{Result, ok, err, ◌>>=◌}
use homeops_ai.Text.{is_blank}
use homeops_ai.Text.Lines.{split_lines, concat}
use homeops_ai.Loader.{SectionRecord}

-- `IndexError`, `StopIteration` and the `ValueError` of `urlparse`
pub data MarkdownError : Type 0 where
  index_error stop_iteration value_error : MarkdownError

-- A token within a paragraph or a heading
pub data Inline : Type 0 where
  link_open : (href : Option String) → Inline
  link_close : Inline
  text code_inline : (content : String) → Inline
  wikilink : (content : String) (is_embed : Bool) → Inline
  other_inline : Inline

pub data Token : Type 0 where
  heading_open : (line : Option ℕ) (level : ℕ) → Token
  inline : (line : Option ℕ) (content : String) (children : List Inline) → Token
  other_token : (content : String) → Token

pub record Heading : Type 0 where
  pub line : ℕ
  pub level : ℕ
  pub title : String

abbrev pub content_of : Token → String
content_of (heading_open line level) = ""
content_of (inline line content children) = content
content_of (other_token content) = content

abbrev pub next_content : List Token → Result MarkdownError String
next_content [] = err index_error
next_content (t ∷ ts) = ok (content_of t)

unfoldable pub headings_of : List Token → Result MarkdownError (List Heading)
headings_of [] = ok []
headings_of (heading_open (some line) level ∷ ts) = do
  title ← next_content ts
  rest ← headings_of ts
  ok (record { line = line; level = level; title = title } ∷ rest)
headings_of (t ∷ ts) = headings_of ts

-- `lines[start:end]`
abbrev pub between_lines : (start end : ℕ) → List String → List String
between_lines a b lines = take (b - a) (drop a lines)

-- The line of the next heading, or the end of the body
abbrev pub end_of : List Heading → List String → ℕ
end_of [] lines = length lines
end_of (h ∷ hs) lines = h.line

abbrev pub shows_preamble : List Heading → List String → Bool
shows_preamble [] lines = true
shows_preamble (h ∷ hs) lines = any (λ l. not (is_blank l)) (take h.line lines)

-- `while stack and stack[-1][0] >= level: stack.pop()`, the top of the stack first
unfoldable pub pop : (level : ℕ) → List (ℕ × ℕ) → List (ℕ × ℕ)
pop level [] = []
pop level (p ∷ ps) = let rest = pop level ps in if leb level p.0 then rest else p ∷ ps

abbrev pub top : List (ℕ × ℕ) → Option ℕ
top [] = none
top (p ∷ ps) = some p.1

module _ (hash : String → String) where
  unfoldable pub preamble : List Heading → List String → List SectionRecord
  unfolding concat
  preamble hs lines =
      let body = concat (take (end_of hs lines) lines) in
      if shows_preamble hs lines
      then (if str_eq body ""
          then []
          else record {
            ordinal = 0;
            parent_ordinal = none;
            heading_level = 0;
            heading = none;
            body = body;
            content_hash = hash body;
          }
            ∷ [])
      else []

  -- The loop over the headings
  unfoldable pub sections_from :
      (lines : List String) (stack : List (ℕ × ℕ)) (ordinal : ℕ) → List Heading → List SectionRecord
  unfolding pop concat
  sections_from lines stack ordinal [] = []
  sections_from lines stack ordinal (h ∷ hs) =
      let body = concat (between_lines (suc h.line) (end_of hs lines) lines) in
      let outer = pop h.level stack in
      record {
        ordinal = ordinal;
        parent_ordinal = top outer;
        heading_level = h.level;
        heading = some h.title;
        body = body;
        content_hash = hash body;
      }
      ∷ sections_from lines ((h.level, ordinal) ∷ outer) (suc ordinal) hs

  -- The records of `_sections`, once the headings are found
  unfoldable pub records_of : List String → List Heading → List SectionRecord
  unfolding preamble sections_from
  records_of lines hs =
      let before = preamble hs lines in before ++ sections_from lines [] (length before) hs

  -- `_sections`
  unfoldable pub sections : (body : String) → List Token → Result MarkdownError (List SectionRecord)
  unfolding headings_of split_lines records_of
  sections body tokens = headings_of tokens >>= λ hs. ok (records_of (split_lines body) hs)
