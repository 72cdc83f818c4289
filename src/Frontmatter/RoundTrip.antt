-- ===== src/Frontmatter/RoundTrip.antt =====
-- What frontmatter.py writes, it reads back.
use Prim.Native.String
use homeops_ai.Prelude.{
  String, ◌≡◌, refl, true, not, Option, some, List, [], ◌∷◌, ◌++◌, all, and_true, not-eq-true,
}
use homeops_ai.Prelude.Result.{ok}
use homeops_ai.Text.Lines.{split_lines, concat-split_lines, split_lines-append, ends_lf}
use homeops_ai.Value.{Value, obj, Dict}
use homeops_ai.Frontmatter.{
  MarkdownDocument, is_fence, closing, parse_lines, mapping, parse_markdown, render_markdown,
}

-- The first fence is where it is, after lines that are none.
closing-append :
    (xs ys : List String) (l : String)
    → all (λ x. not (is_fence x)) xs ≡ true
    → is_fence l ≡ true
    → closing (xs ++ (l ∷ ys)) ≡ some (xs, ys)
unfolding closing
closing-append [] ys l h f = rw f refl
closing-append (x ∷ xs) ys l h f =
    let (a, b) = and_true (not (is_fence x)) (all (λ x. not (is_fence x)) xs) h in
    rw (not-eq-true (is_fence x) a, closing-append xs ys l b f) refl

fence_lines : split_lines "---\n" ≡ "---\n" ∷ []
unfolding split_lines
fence_lines = refl

ends_fence : ends_lf "---\n" ≡ true
unfolding ends_lf
ends_fence = refl

module _ (dump : Dict → String) where
  rendered_lines :
      (d : MarkdownDocument)
      → ends_lf (dump d.frontmatter) ≡ true
      → split_lines (render_markdown dump d)
        ≡ "---\n" ∷ (split_lines (dump d.frontmatter) ++ ("---\n" ∷ split_lines d.body))
  unfolding render_markdown
  rendered_lines d h =
      rw
        (
          split_lines-append "---\n" (String.◌++◌ (dump d.frontmatter) (String.◌++◌ "---\n" d.body))
              ends_fence,
          split_lines-append (dump d.frontmatter) (String.◌++◌ "---\n" d.body) h,
          split_lines-append "---\n" d.body ends_fence,
          fence_lines,
        )
        refl

  -- If what `dump` gives for the front matter of a document is loaded again to it, ends with a line
  -- feed, and has no line that is a fence, then parsing the rendered document gives its front matter
  -- and its body, and says that there was front matter.
  pub parse_markdown-render_markdown :
      (load : String → Option Value) (d : MarkdownDocument)
      → load (dump d.frontmatter) ≡ some (obj d.frontmatter)
      → ends_lf (dump d.frontmatter) ≡ true
      → all (λ l. not (is_fence l)) (split_lines (dump d.frontmatter)) ≡ true
      → parse_markdown load (render_markdown dump d)
        ≡ ok (record { frontmatter = d.frontmatter; body = d.body; had_frontmatter = true })
  unfolding parse_markdown parse_lines mapping is_fence
  parse_markdown-render_markdown load d back ended clear = rw (rendered_lines d ended) (
      rw (closing-append (split_lines (dump d.frontmatter)) (split_lines d.body) "---\n" clear refl)
        (rw (concat-split_lines (dump d.frontmatter), concat-split_lines d.body, back) refl))
