-- ===== src/Loader.antt =====
-- src/homeops_ai/loader.py: the checks on the documents, the resolution of links, and the rows that
-- go to the database. `final_name` is `PurePosixPath(s).name`; `lower` and `casefold` are those of
-- str. The client is third-party: a call of it is the value `Put` of what it is given.
pub mod Checks
pub mod Rows
use Prim.Native.String
use homeops_ai.Prelude.{
  ℕ, zero, suc, ◌-◌, String, Bool, true, false, not, ◌&&◌, ◌||◌, Option, none, some, List, [], ◌∷◌,
  ◌++◌, ltb, ◌==◌, str_eq, if◌then◌else◌, length, filter, map, mem,
}
use homeops_ai.Prelude.Result.{Result, ok, err, ◌>>=◌, ◌>>◌, guard}
use homeops_ai.Text.{codes, len, starts_codes}
use homeops_ai.Value.{Value, null, bool, str, num}

pub record SectionRecord : Type 0 where
  pub ordinal : ℕ
  pub parent_ordinal : Option ℕ
  pub heading_level : ℕ
  pub heading : Option String
  pub body : String
  pub content_hash : String

pub record CategoryAssignment : Type 0 where
  pub ordinal : ℕ
  pub raw_target : String
  pub target_title : String

pub record LinkOccurrence : Type 0 where
  pub ordinal : ℕ
  pub source_section_ordinal : Option ℕ
  pub syntax : String
  pub link_kind : String
  pub raw_target : String
  pub target_title : Option String
  pub target_heading : Option String
  pub target_block_id : Option String
  pub display_text : Option String
  pub is_embed : Bool

pub record ParsedSourceDocument : Type 0 where
  pub source_path : String
  pub source_kind : String
  pub document_id : Option String
  pub title : String
  pub document_type : Option String
  pub status : Option String
  pub authority : Option String
  pub created_at : Option String
  pub updated_at : Option String
  pub last_verified_at : Option String
  pub content_hash : String
  pub raw_markdown : String
  pub raw_frontmatter : Value
  pub tags : List String
  pub categories : List CategoryAssignment
  pub sections : List SectionRecord
  pub links : List LinkOccurrence

pub data LoadError : Type 0 where
  missing_ids : List String → LoadError
  duplicate_id : (path other : String) → LoadError
  duplicate_path : String → LoadError
  assertion_failed : LoadError

-- `not document.document_id`
abbrev pub lacks_id : ParsedSourceDocument → Bool
lacks_id d = elim d.document_id [ none ↦ true | some id ↦ str_eq id "" ]

abbrev pub lookup : String → List (String × String) → Option String
lookup k [] = none
lookup k (p ∷ ps) = if str_eq p.0 k then some p.1 else lookup k ps

abbrev pub new_id : ParsedSourceDocument → String → Option String → Result LoadError String
new_id d id none = ok id
new_id d id (some path) = err (duplicate_id d.source_path path)

abbrev pub check_id :
    List (String × String) → ParsedSourceDocument → Option String → Result LoadError String
check_id by_id d none = err assertion_failed
check_id by_id d (some id) = new_id d id (lookup id by_id)

unfoldable pub check_from :
    (by_id : List (String × String)) (by_path : List String)
    → List ParsedSourceDocument
    → Result LoadError (Unit {0})
check_from by_id by_path [] = ok tt
check_from by_id by_path (d ∷ ds) = do
  id ← check_id by_id d d.document_id
  guard (not (mem d.source_path by_path)) (duplicate_path d.source_path)
  check_from ((id, d.source_path) ∷ by_id) (d.source_path ∷ by_path) ds

abbrev pub none_missing : List String → Bool
none_missing [] = true
none_missing (p ∷ ps) = false

unfoldable pub validate_documents : List ParsedSourceDocument → Result LoadError (Unit {0})
validate_documents documents = do
  let missing = map (λ d. d.source_path) (filter lacks_id documents)
  guard (none_missing missing) (missing_ids missing)
  check_from [] [] documents

pub record ResolvedLink : Type 0 where
  pub state : String
  pub target_id : Option String
  pub target_path : Option String

abbrev without_target : String → ResolvedLink
without_target s = record { state = s; target_id = none; target_path = none }

abbrev pub to_document : ParsedSourceDocument → ResolvedLink
to_document d = record {
  state = "resolved";
  target_id = d.document_id;
  target_path = some d.source_path;
}

-- The choice among the documents with the title; `otherwise` is for none.
abbrev pub single : List ParsedSourceDocument → ResolvedLink → ResolvedLink
single [] otherwise = otherwise
single (d ∷ []) otherwise = to_document d
single (d ∷ e ∷ ds) otherwise = without_target "ambiguous"

-- The first `n` characters.
keep_chars : ℕ → String → String
keep_chars zero s = ""
keep_chars (suc n) String.[] = ""
keep_chars (suc n) (String.◌∷◌ c s) = String.◌∷◌ c (keep_chars n s)

ends_codes : List ℕ → List ℕ → Bool
ends_codes p [] = false
ends_codes p (c ∷ cs) = (length p == length (c ∷ cs) && starts_codes p (c ∷ cs)) || ends_codes p cs

module _ (final_name lower casefold : String → String) where
  unfoldable pub title_key : String → String
  unfolding keep_chars ends_codes
  title_key value =
      let title = final_name value in
      casefold (
        if ends_codes (codes ".md") (codes (lower title))
        then keep_chars (len title - 3) title
        else title)

  -- `_title_index(documents).get(key, [])`
  unfoldable pub title_index : List ParsedSourceDocument → String → List ParsedSourceDocument
  title_index documents key = filter (λ d. str_eq (title_key d.title) key) documents

  abbrev is_knowledge : ParsedSourceDocument → Bool
  is_knowledge d = str_eq d.source_kind "knowledge"

  abbrev pub resolve_title :
      (documents : List ParsedSourceDocument) (known : List String) → String → ResolvedLink
  resolve_title documents known title =
      let matches = title_index documents (title_key title) in
      single (filter is_knowledge matches) (
        single matches
          (without_target (if mem (title_key title) known then "excluded" else "unresolved")))

  unfoldable pub resolve_link :
      LinkOccurrence
      → ParsedSourceDocument
      → (documents : List ParsedSourceDocument) → (known : List String) → ResolvedLink
  resolve_link link source documents known =
      if str_eq link.link_kind "external"
      then without_target "resolved"
      else if str_eq link.link_kind "attachment"
      then without_target "excluded"
      else if str_eq link.link_kind "same-document"
      then to_document source
      else elim link.target_title [
        | none ↦ without_target "unresolved"
        | some title ↦ resolve_title documents known title
      ]
