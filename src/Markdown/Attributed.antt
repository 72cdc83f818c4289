-- ===== src/Markdown/Attributed.antt =====
-- The links of a document belong to its sections: one start for each section is found.
use homeops_ai.Prelude.{ℕ, ◌<◌, ◌≡◌, none, List, All, String}
use homeops_ai.Prelude.Result.{Result, ok}
use homeops_ai.Loader.{SectionRecord}
use homeops_ai.Markdown.{MarkdownError}

-- Starts that name sections, of so many
abbrev Starts : (count : ℕ) → Result MarkdownError (List (ℕ × ℕ)) → Type 0
Starts count r = (st : List (ℕ × ℕ)) × (r ≡ ok st) × All (λ p. p.1 < count) st

module _ (hash : String → String) (lines : List String) where
  abbrev preamble_record : String → SectionRecord
  preamble_record body = record {
    ordinal = 0;
    parent_ordinal = none;
    heading_level = 0;
    heading = none;
    body = body;
    content_hash = hash body;
  }
