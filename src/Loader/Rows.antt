-- ===== src/Loader/Rows.antt =====
-- The rows that loader.py puts into the relations of the database.
use homeops_ai.Prelude.{
  ℕ, String, Option, none, some, List, [], ◌∷◌, ◌++◌, str_eq, if◌then◌else◌, filter, map,
}
use homeops_ai.Prelude.Result.{Result, ok, ◌>>◌}
use homeops_ai.Value.{Value, null, bool, str, num}
use homeops_ai.Loader.{
  ParsedSourceDocument, SectionRecord, CategoryAssignment, LinkOccurrence, ResolvedLink, LoadError,
  title_key, resolve_link, validate_documents,
}

abbrev optional : Option String → Value
optional none = null
optional (some s) = str s

abbrev optional_num : Option ℕ → Value
optional_num none = null
optional_num (some n) = num n

-- What a call of the client puts into one relation.
pub record Put : Type 0 where
  pub relation : String
  pub keys : List String
  pub rows : List (List Value)

-- `if not rows: return`
abbrev put : String → List String → List (List Value) → List Put
put relation keys [] = []
put relation keys (row ∷ rows) = record { relation = relation; keys = keys; rows = row ∷ rows } ∷ []

abbrev flat_map {ℓ κ} : {A : Type ℓ} {B : Type κ} → (A → List B) → List A → List B
flat_map f [] = []
flat_map f (x ∷ xs) = f x ++ flat_map f xs

module _ (final_name lower casefold : String → String) where
  -- The last document of a kind `category` with the key, as the dict of them has it.
  category_index : List ParsedSourceDocument → String → Option ParsedSourceDocument
  category_index [] key = none
  category_index (d ∷ ds) key = elim (category_index ds key) [
    | some e ↦ some e
    | none ↦
        if str_eq d.source_kind "category"
        then (if str_eq (title_key final_name lower casefold d.title) key then some d else none)
        else none
  ]

  abbrev pub source_row : ParsedSourceDocument → List Value
  source_row d =
      optional d.document_id
      ∷ str d.source_path
      ∷ str d.source_kind
      ∷ str d.title
      ∷ str d.content_hash
      ∷ d.raw_frontmatter
      ∷ []

  abbrev knowledge_row : ParsedSourceDocument → List Value
  knowledge_row d =
      optional d.document_id
      ∷ optional d.document_type
      ∷ optional d.status
      ∷ optional d.authority
      ∷ optional d.created_at
      ∷ optional d.updated_at
      ∷ optional d.last_verified_at
      ∷ []

  abbrev of_kind : String → List ParsedSourceDocument → List ParsedSourceDocument
  of_kind kind = filter (λ d. str_eq d.source_kind kind)

  abbrev tag_rows : ParsedSourceDocument → List (List Value)
  tag_rows d = map (λ t. optional d.document_id ∷ str t ∷ []) d.tags

  abbrev assignment_row :
      ParsedSourceDocument → CategoryAssignment → Option ParsedSourceDocument → List (List Value)
  assignment_row d a none = []
  assignment_row d a (some c) =
      (optional d.document_id ∷ optional c.document_id ∷ str a.raw_target ∷ []) ∷ []

  unfoldable pub category_rows :
      List ParsedSourceDocument → ParsedSourceDocument → List (List Value)
  unfolding category_index
  category_rows selected d =
      flat_map
        (λ a.
          assignment_row d a
            (category_index selected (title_key final_name lower casefold a.target_title)))
        d.categories

  abbrev section_rows : ParsedSourceDocument → List (List Value)
  section_rows d =
      map
        (λ (s : SectionRecord).
          optional d.document_id
          ∷ num s.ordinal
          ∷ optional_num s.parent_ordinal
          ∷ num s.heading_level
          ∷ optional s.heading
          ∷ str s.body
          ∷ str s.content_hash
          ∷ [])
        d.sections

  abbrev link_row : ParsedSourceDocument → LinkOccurrence → ResolvedLink → List Value
  link_row d l r =
      optional d.document_id
      ∷ num l.ordinal
      ∷ optional_num l.source_section_ordinal
      ∷ str l.syntax
      ∷ str l.link_kind
      ∷ str l.raw_target
      ∷ optional l.target_title
      ∷ optional l.target_heading
      ∷ optional l.target_block_id
      ∷ optional l.display_text
      ∷ bool l.is_embed
      ∷ str r.state
      ∷ optional r.target_id
      ∷ optional r.target_path
      ∷ []

  unfoldable pub link_rows :
      List ParsedSourceDocument → (known : List String) → ParsedSourceDocument → List (List Value)
  link_rows selected known d =
      map (λ l. link_row d l (resolve_link final_name lower casefold l d selected known)) d.links

  unfoldable pub load_documents :
      List ParsedSourceDocument → (known_source_titles : List String) → Result LoadError (List Put)
  load_documents selected known_source_titles = do
    validate_documents selected
    let known = map (title_key final_name lower casefold) known_source_titles
    ok (
        put "source_document" ("document_id" ∷ []) (map source_row selected)
        ++ put "document_content" ("document_id" ∷ [])
            (map (λ d. optional d.document_id ∷ str d.raw_markdown ∷ []) selected)
        ++ put "knowledge_document" ("document_id" ∷ [])
            (map knowledge_row (of_kind "knowledge" selected))
        ++ put "category" ("category_id" ∷ []) (
            map (λ d. optional d.document_id ∷ str d.title ∷ optional d.status ∷ [])
              (of_kind "category" selected))
        ++ put "document_tag" ("document_id" ∷ "tag" ∷ []) (flat_map tag_rows selected)
        ++ put "document_category" ("document_id" ∷ "category_id" ∷ [])
            (flat_map (category_rows selected) selected)
        ++ put "section" ("document_id" ∷ "ordinal" ∷ []) (flat_map section_rows selected)
        ++ put "link_occurrence" ("source_document_id" ∷ "ordinal" ∷ [])
            (flat_map (link_rows selected known) selected))
