-- ===== src/Tests/Loader.antt =====
-- Tests of src/homeops_ai/loader.py on two documents, one of which links to the other.
use homeops_ai.Prelude.{IsUnique, String, ◌≡◌, refl, false, none, some, List, [], ◌∷◌, map}
use homeops_ai.Prelude.Result.{ok}
use homeops_ai.Value.{null}
use homeops_ai.Loader.{ParsedSourceDocument, LinkOccurrence, check_from, validate_documents}
use homeops_ai.Loader.Checks.{validate_documents-IsUnique}

abbrev same_text : String → String
same_text s = s

abbrev link : LinkOccurrence
link = record {
  ordinal = 1;
  source_section_ordinal = none;
  syntax = "wikilink";
  link_kind = "document";
  raw_target = "Network";
  target_title = some "Network";
  target_heading = none;
  target_block_id = none;
  display_text = none;
  is_embed = false;
}

abbrev document : (id path title : String) → List LinkOccurrence → ParsedSourceDocument
document id path title links = record {
  source_path = path;
  source_kind = "knowledge";
  document_id = some id;
  title = title;
  document_type = none;
  status = none;
  authority = none;
  created_at = none;
  updated_at = none;
  last_verified_at = none;
  content_hash = "h";
  raw_markdown = "text";
  raw_frontmatter = null;
  tags = [];
  categories = [];
  sections = [];
  links = links;
}

abbrev network : ParsedSourceDocument
network = document "a" "docs/network.md" "Network" []

abbrev switches : ParsedSourceDocument
switches = document "b" "docs/switches.md" "Switches" (link ∷ [])

abbrev documents : List ParsedSourceDocument
documents = network ∷ switches ∷ []

valid : validate_documents documents ≡ ok tt
unfolding validate_documents check_from
valid = refl

validate_documents-IsUnique_example :
    (ids : List String) × (map (λ d. d.document_id) documents ≡ map some ids)
    × IsUnique ids
    × IsUnique (map (λ d. d.source_path) documents)
validate_documents-IsUnique_example = validate_documents-IsUnique documents valid
