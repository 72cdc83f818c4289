-- ===== src/Tests/Markdown.antt =====
-- Tests of src/homeops_ai/frontmatter.py and markdown_parser.py on a small note.
use Prim.Native.String
use homeops_ai.Prelude.{
  String, ◌≡◌, refl, ◌⊎◌, true, false, not, Option, none, some, List, [], ◌∷◌, str_eq,
  if◌then◌else◌, map, all, arith,
}
use homeops_ai.Prelude.Result.{ok}
use homeops_ai.Text.{is_blank}
use homeops_ai.Text.Lines.{split_lines, concat, ends_lf}
use homeops_ai.Value.{Value, str, obj, Dict, field, end}
use homeops_ai.Loader.{SectionRecord}
use homeops_ai.Frontmatter.{MarkdownDocument, is_fence, parse_markdown, render_markdown}
use homeops_ai.Frontmatter.RoundTrip.{parse_markdown-render_markdown}
use homeops_ai.Markdown.{
  text, wikilink, link_open, link_close, Token, heading_open, inline, other_token, Heading,
  headings_of, sections,
}
use homeops_ai.Markdown.Outline.{place, sections-outline}
use homeops_ai.Markdown.Partition.{rebuilt, before_headings, sections-partition}

abbrev properties : Dict
properties = field "id" (str "note-1") end

abbrev dump : Dict → String
dump d = "id: note-1\n"

abbrev load : String → Option Value
load s = if str_eq s "id: note-1\n" then some (obj properties) else none

abbrev note : String
note = "intro\n# A\ntext\n## B\nmore\n"

abbrev document : MarkdownDocument
document = record { frontmatter = properties; body = note; had_frontmatter = true }

no_fence : all (λ l. not (is_fence l)) (split_lines (dump properties)) ≡ true
unfolding is_fence split_lines
no_fence = refl

ended : ends_lf (dump properties) ≡ true
unfolding ends_lf
ended = refl

parse_markdown-render_markdown_example :
    parse_markdown load (render_markdown dump document)
    ≡ ok (record { frontmatter = properties; body = note; had_frontmatter = true })
parse_markdown-render_markdown_example =
    parse_markdown-render_markdown dump load document refl ended no_fence

abbrev tokens : List Token
tokens =
    inline (some 0) "intro" (text "intro" ∷ [])
    ∷ heading_open (some 1) 1
    ∷ inline (some 1) "A" (text "A" ∷ [])
    ∷ other_token ""
    ∷ inline (some 2) "text"
        (wikilink "Other#part|shown" false ∷ link_open (some "b.md") ∷ text "b" ∷ link_close ∷ [])
    ∷ heading_open (some 3) 2
    ∷ inline (some 3) "B" (text "B" ∷ [])
    ∷ inline (some 4) "more" (wikilink "Third" true ∷ [])
    ∷ []

abbrev headings : List Heading
headings =
    record { line = 1; level = 1; title = "A" } ∷ record { line = 3; level = 2; title = "B" } ∷ []

found : headings_of tokens ≡ ok headings
unfolding headings_of
found = refl

hash : String → String
hash s = s

sections-outline_example :
    (ss : List SectionRecord) × (sections hash note tokens ≡ ok ss)
    × ((map place ss ≡ (1, 0, none) ∷ (2, 1, some 0) ∷ [])
        ⊎ (map place ss ≡ (0, 0, none) ∷ (1, 1, none) ∷ (2, 2, some 1) ∷ []))
sections-outline_example = sections-outline hash note tokens headings found

sections-partition_example :
    (ss : List SectionRecord) × (sections hash note tokens ≡ ok ss)
    × (((pre : SectionRecord) × (rest : List SectionRecord) × (ss ≡ pre ∷ rest)
          × (pre.heading ≡ none)
          × (String.◌++◌ pre.body (rebuilt (split_lines note) headings rest) ≡ note))
        ⊎ ((all is_blank (before_headings headings (split_lines note)) ≡ true)
            × (String.◌++◌
                  (concat (before_headings headings (split_lines note)))
                  (rebuilt (split_lines note) headings ss)
                ≡ note)))
unfolding split_lines
sections-partition_example =
    sections-partition hash note tokens headings found (omega arith, (omega arith, tt))
