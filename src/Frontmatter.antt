-- ===== src/Frontmatter.antt =====
-- src/homeops_ai/frontmatter.py: the YAML between two fences at the start of a Markdown file. `load`
-- and `dump` stand for those of ruamel.yaml; `load` gives nothing where it raises.
pub mod RoundTrip
use Prim.Native.String
use homeops_ai.Prelude.{
  String, ◌≡◌, Bool, true, false, ◌||◌, Option, none, some, List, [], ◌∷◌, ◌==◌, str_eq,
  if◌then◌else◌,
}
use homeops_ai.Prelude.Result.{Result, ok, err}
use homeops_ai.Text.Chars.{rstrip_by}
use homeops_ai.Text.Lines.{split_lines, concat}
use homeops_ai.Value.{Value, null, obj, Dict, end}

pub data FrontmatterError : Type 0 where
  no_closing_fence : FrontmatterError
  invalid_yaml : FrontmatterError
  not_a_mapping : FrontmatterError

pub record MarkdownDocument : Type 0 where
  pub frontmatter : Dict
  pub body : String
  pub had_frontmatter : Bool

-- `line.rstrip("\r\n") == "---"`
unfoldable pub is_fence : String → Bool
is_fence line = str_eq (rstrip_by (λ c. c == 10 || c == 13) line) "---"

abbrev pub opens : List String → Bool
unfolding is_fence
opens [] = false
opens (l ∷ ls) = is_fence l

abbrev pub with_line :
    String → Option (List String × List String) → Option (List String × List String)
with_line l none = none
with_line l (some p) = some (l ∷ p.0, p.1)

-- The lines before and after the first fence
unfoldable pub closing : List String → Option (List String × List String)
unfolding is_fence
closing [] = none
closing (l ∷ ls) = let rest = closing ls in if is_fence l then some ([], ls) else with_line l rest

abbrev pub rest_of : List String → List String
rest_of [] = []
rest_of (l ∷ ls) = ls

unfoldable pub mapping : (parsed : Value) (body : String) → Result FrontmatterError MarkdownDocument
mapping null body = ok (record { frontmatter = end; body = body; had_frontmatter = true })
mapping (obj d) body = ok (record { frontmatter = d; body = body; had_frontmatter = true })
mapping v body = err not_a_mapping

abbrev pub loaded : Option Value → String → Result FrontmatterError MarkdownDocument
unfolding mapping
loaded none body = err invalid_yaml
loaded (some parsed) body = mapping parsed body

module _ (load : String → Option Value) where
  unfoldable pub parse_lines :
      Option (List String × List String) → Result FrontmatterError MarkdownDocument
  unfolding loaded concat
  parse_lines none = err no_closing_fence
  parse_lines (some p) = loaded (load (concat p.0)) (concat p.1)

  unfoldable pub parse_markdown : String → Result FrontmatterError MarkdownDocument
  unfolding opens parse_lines split_lines closing
  parse_markdown text =
      let lines = split_lines text in
      if opens lines
      then parse_lines (closing (rest_of lines))
      else ok (record { frontmatter = end; body = text; had_frontmatter = false })

unfoldable pub render_markdown : (dump : Dict → String) → MarkdownDocument → String
render_markdown dump d =
    String.◌++◌ "---\n" (String.◌++◌ (dump d.frontmatter) (String.◌++◌ "---\n" d.body))
