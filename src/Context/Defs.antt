-- ===== src/Context/Defs.antt =====
-- The definitions of context_compiler.py.
use Prim.Native.Char.{code}
use Prim.Native.String
use homeops_ai.Prelude.{
  ℕ, suc, ◌+◌, String, Bool, true, false, not, ◌&&◌, ◌||◌, Option, none, some, List, [], ◌∷◌, ◌++◌,
  ltb, leb, ◌==◌, str_eq, if◌then◌else◌, length, mem, any, filter,
}
use homeops_ai.Prelude.Result.{Result, ok, err, ◌>>=◌, ◌>>◌, guard}
use homeops_ai.Prelude.Sort.{sort_by}
use homeops_ai.Text.{len, is_alnum, is_blank, contains, str_leb, join}
use homeops_ai.Value.{ℤ}

-- A section that the query ranked for its document.
pub record Section : Type 0 where
  pub ordinal : ℕ
  pub heading : Option String
  pub matched_terms : List String
  pub score : ℕ

-- A row of the query: a document with its best sections.
pub record Row : Type 0 where
  pub document_id : String
  pub source_path : String
  pub title : String
  pub document_type : Option String
  pub status : Option String
  pub authority : Option String
  pub score : ℤ
  pub evidence : List Section

pub record Candidate : Type 0 where
  pub document_rank : ℕ
  pub section_rank : ℕ
  pub document : Row
  pub section : Section
  pub body : String
  pub char_count : ℕ

pub data Error : Type 0 where
  max_documents_out_of_range max_sections_out_of_range max_chars_too_small : Error
  empty_question unknown_risk_level nothing_fits : Error
  section_body_missing : String → ℕ → Error
  query_error : String → Error

pub record Budgets : Type 0 where
  pub max_documents : ℕ
  pub max_sections : ℕ
  pub max_chars : ℕ

unfoldable pub validate_budgets : Budgets → Result Error (Unit {0})
validate_budgets b = do
  guard (leb 1 b.max_documents && leb b.max_documents 25) max_documents_out_of_range
  guard (leb 1 b.max_sections && leb b.max_sections 50) max_sections_out_of_range
  guard (leb 200 b.max_chars) max_chars_too_small

-- A section with its body; a body that is missing is an error.
unfoldable pub candidate_of :
    (document_rank section_rank : ℕ) → Row → Section → Option String → Result Error Candidate
candidate_of n k row section none = err (section_body_missing row.source_path section.ordinal)
candidate_of n k row section (some body) = ok (record {
  document_rank = n;
  section_rank = k;
  document = row;
  section = section;
  body = body;
  char_count = len body;
})

module _ (bodies : String → ℕ → Option String) where
  -- The candidates of one document, from the section with the given rank on.
  unfoldable pub sections_from :
      (document_rank section_rank : ℕ) → Row → List Section → Result Error (List Candidate)
  sections_from n k row [] = ok []
  sections_from n k row (section ∷ sections) = do
    c ← candidate_of n k row section (bodies row.document_id section.ordinal)
    more ← sections_from n (suc k) row sections
    ok (c ∷ more)

  unfoldable pub rows_from : (document_rank : ℕ) → List Row → Result Error (List Candidate)
  rows_from n [] = ok []
  rows_from n (row ∷ rows) = do
    here ← sections_from n 1 row row.evidence
    more ← rows_from (suc n) rows
    ok (here ++ more)

unfoldable pub candidate_sections :
    List Row → (String → ℕ → Option String) → Result Error (List Candidate)
candidate_sections rows bodies = rows_from bodies 1 rows

-- The order of the keys (section_rank != 1, document_rank, section_rank, ordinal).
unfoldable pub ranks_before : Candidate → Candidate → Bool
ranks_before a b =
    let first_a = a.section_rank == 1 in
    let first_b = b.section_rank == 1 in
    if first_a && not first_b
    then true
    else if first_b && not first_a
    then false
    else if not (a.document_rank == b.document_rank)
    then ltb a.document_rank b.document_rank
    else if not (a.section_rank == b.section_rank)
    then ltb a.section_rank b.section_rank
    else leb a.section.ordinal b.section.ordinal

unfoldable pub selection_order : List Candidate → List Candidate
selection_order = sort_by ranks_before

abbrev compiler_wrapper_terms : List String
compiler_wrapper_terms =
    "bundle" ∷ "change" ∷ "changing" ∷ "context" ∷ "prepare" ∷ "smallest" ∷ "trustworthy" ∷ []

abbrev stopwords : List String
stopwords =
    "all" ∷ "and" ∷ "are" ∷ "before" ∷ "does" ∷ "for" ∷ "from" ∷ "into" ∷ "its" ∷ "that" ∷ "the"
    ∷ "this" ∷ "what" ∷ "where" ∷ "which" ∷ "with" ∷ []

abbrev low_information_terms : List String
low_information_terms = "current" ∷ "currently" ∷ "implemented" ∷ "running" ∷ "verified" ∷ []

abbrev pub forbidden_guidance_statuses : List String
forbidden_guidance_statuses = "historical" ∷ "superseded" ∷ "abandoned" ∷ []

abbrev is_joiner : ℕ → Bool
is_joiner c = c == b'_' || c == b'.' || c == b'-'

abbrev begins_alnum : String → Bool
begins_alnum String.[] = false
begins_alnum (String.◌∷◌ c s) = is_alnum (code c)

abbrev flush : String → List String → List String
flush word words = if str_eq word "" then words else word ∷ words

-- `re.findall(r"[A-Za-z0-9]+(?:[_.-][A-Za-z0-9]+)*", s)`; `word` is the match so far.
unfoldable pub words_from : (word : String) → String → List String
words_from word String.[] = flush word []
words_from word (String.◌∷◌ c s) =
    let longer = words_from (String.◌++◌ word (String.◌∷◌ c String.[])) s in
    let closed = flush word (words_from "" s) in
    if is_alnum (code c) || (is_joiner (code c) && not (str_eq word "") && begins_alnum s)
    then longer
    else closed

module _ (casefold : String → String) where
  unfoldable pub retrieval_question : String → String
  unfolding words_from join
  retrieval_question question =
      let kept = join " " (
        filter
          (λ w. not (mem (casefold w) compiler_wrapper_terms) && not (mem (casefold w) stopwords))
          (words_from "" question)) in
      if str_eq kept "" then question else kept

pub record Omitted : Type 0 where
  pub forbidden_lifecycle : ℕ
  pub redundant_evidence : ℕ
  pub document_budget : ℕ
  pub section_budget : ℕ
  pub character_budget : ℕ

pub record Selected : Type 0 where
  pub candidate : Candidate
  pub selection_reasons : List String

-- The variables of the selection loop; the sets are lists without repetition.
pub record State : Type 0 where
  pub selected : List Selected
  pub selected_documents : List String
  pub selected_terms : List String
  pub has_canonical_current_state : Bool
  pub evidence_chars : ℕ
  pub omitted : Omitted

abbrev pub initial : State
initial = record {
  selected = [];
  selected_documents = [];
  selected_terms = [];
  has_canonical_current_state = false;
  evidence_chars = 0;
  omitted = record {
    forbidden_lifecycle = 0;
    redundant_evidence = 0;
    document_budget = 0;
    section_budget = 0;
    character_budget = 0;
  };
}

-- `set.add`
abbrev pub add_once : String → List String → List String
add_once k ks = if mem k ks then ks else ks ++ k ∷ []

abbrev add_all : List String → List String → List String
add_all [] ks = ks
add_all (t ∷ ts) ks = add_all ts (add_once t ks)

abbrev opt_is : Option String → String → Bool
opt_is none s = false
opt_is (some t) s = str_eq t s

abbrev opt_in : Option String → List String → Bool
opt_in none ks = false
opt_in (some t) ks = mem t ks

abbrev pub is_forbidden : Candidate → Bool
is_forbidden c = opt_in c.document.status forbidden_guidance_statuses

abbrev is_canonical_current_state : Row → Bool
is_canonical_current_state d =
    opt_is d.authority "canonical"
    && opt_is d.status "current"
    && opt_is d.document_type "current-state"

abbrev pub is_empty {ℓ} : {A : Type ℓ} → List A → Bool
is_empty [] = true
is_empty (x ∷ xs) = false

abbrev when {ℓ} : {A : Type ℓ} → Bool → A → List A
when test a = if test then a ∷ [] else []

abbrev matched_terms : Candidate → List String
matched_terms c = filter (λ t. not (mem t low_information_terms)) c.section.matched_terms

-- `matched_terms - selected_terms`
abbrev fresh_terms : State → Candidate → List String
fresh_terms s c = filter (λ t. not (mem t s.selected_terms)) (add_all (matched_terms c) [])

abbrev pub is_known : State → Candidate → Bool
is_known s c = mem c.document.document_id s.selected_documents

module _ (casefold : String → String) (question : String) where
  abbrev exact_title_anchor : State → Candidate → Bool
  exact_title_anchor s c =
      not (is_known s c) && contains (casefold c.document.title) (casefold question)

  abbrev required_for_trust : State → Candidate → Bool
  required_for_trust s c =
      is_canonical_current_state c.document && not s.has_canonical_current_state

  unfoldable pub is_redundant : State → Candidate → Bool
  is_redundant s c =
      not (is_empty s.selected)
      && is_empty (fresh_terms s c)
      && not (required_for_trust s c)
      && not (exact_title_anchor s c)

  unfoldable pub selection_reasons : State → Candidate → List String
  selection_reasons s c =
      when (is_empty s.selected) "highest-ranked evidence"
      ++ when (not (is_empty (fresh_terms s c)))
          (String.◌++◌ "adds task terms: " (join ", " (sort_by str_leb (fresh_terms s c))))
      ++ when (required_for_trust s c) "adds required canonical current-state evidence"
      ++ when (exact_title_anchor s c) "adds exact-title anchor evidence"

  -- The loop variables after the candidate is taken.
  unfoldable pub taken : State → Candidate → State
  taken s c = record {
    selected =
        s.selected ++ record { candidate = c; selection_reasons = selection_reasons s c } ∷ [];
    selected_documents = add_once c.document.document_id s.selected_documents;
    selected_terms = add_all (matched_terms c) s.selected_terms;
    has_canonical_current_state =
        s.has_canonical_current_state || is_canonical_current_state c.document;
    evidence_chars = s.evidence_chars + c.char_count;
    omitted = s.omitted;
  }

module _ (casefold : String → String) (question : String) (budgets : Budgets) where
  -- One round of the loop over the ranked candidates.
  unfoldable pub choose : State → Candidate → State
  choose s c =
      let o = s.omitted in
      if is_forbidden c
      then record s { omitted = record o { forbidden_lifecycle = o.forbidden_lifecycle + 1 } }
      else if is_redundant casefold question s c
      then record s { omitted = record o { redundant_evidence = o.redundant_evidence + 1 } }
      else if not (is_known s c) && leb budgets.max_documents (length s.selected_documents)
      then record s { omitted = record o { document_budget = o.document_budget + 1 } }
      else if leb budgets.max_sections (length s.selected)
      then record s { omitted = record o { section_budget = o.section_budget + 1 } }
      else if ltb budgets.max_chars (s.evidence_chars + c.char_count)
      then record s { omitted = record o { character_budget = o.character_budget + 1 } }
      else taken casefold question s c

  unfoldable pub choose_all : State → List Candidate → State
  choose_all s [] = s
  choose_all s (c ∷ cs) = choose_all (choose s c) cs

-- A document of the bundle.
pub record Document : Type 0 where
  pub row : Row
  pub document_rank : ℕ
  pub selection_reasons : List String
  pub sections : List Selected

-- One round of the grouping loop; the dict by document is in the order of insertion.
unfoldable pub add_section : Selected → List Document → List Document
add_section s [] =
    record {
      row = s.candidate.document;
      document_rank = s.candidate.document_rank;
      selection_reasons = s.selection_reasons;
      sections = s ∷ [];
    }
    ∷ []
add_section s (d ∷ ds) =
    let rest = add_section s ds in
    if str_eq d.row.document_id s.candidate.document.document_id
    then record d {
      selection_reasons = add_all s.selection_reasons d.selection_reasons;
      sections = d.sections ++ s ∷ [];
    }
      ∷ ds
    else d ∷ rest

unfoldable pub group_from : List Document → List Selected → List Document
group_from ds [] = ds
group_from ds (s ∷ ss) = group_from (add_section s ds) ss

unfoldable pub by_document : List Selected → List Document
by_document = group_from []

pub data Risk : Type 0 where
  normal risky : Risk

pub record Gap : Type 0 where
  pub source_path : String
  pub ordinal : ℕ
  pub body : String

abbrev or_empty : Option String → String
or_empty none = ""
or_empty (some s) = s

module _ (casefold : String → String) where
  unfoldable pub gaps_in : Row → List Selected → List Gap
  gaps_in row [] = []
  gaps_in row (s ∷ ss) =
      when (str_eq (casefold (or_empty s.candidate.section.heading)) "known verification gaps")
        (record {
          source_path = row.source_path;
          ordinal = s.candidate.section.ordinal;
          body = s.candidate.body;
        })
      ++ gaps_in row ss

  unfoldable pub known_gaps : List Document → List Gap
  unfolding gaps_in
  known_gaps [] = []
  known_gaps (d ∷ ds) = gaps_in d.row d.sections ++ known_gaps ds

abbrev is_risky : Risk → Bool
is_risky risky = true
is_risky normal = false

abbrev pub total : Omitted → ℕ
total o =
    o.forbidden_lifecycle + o.redundant_evidence + o.document_budget + o.section_budget
    + o.character_budget

unfoldable pub warnings_of : Risk → List Document → Omitted → List Gap → List String
warnings_of risk documents omitted gaps =
    ("Compiled evidence is documented state; no live verification was performed." ∷ [])
    ++ when (is_risky risk) "Fresh live read-only discovery is required before mutation."
    ++ when (any (λ d. not (opt_is d.row.authority "canonical")) documents)
        "Supporting evidence is included and does not override canonical state."
    ++ when (ltb 0 (total omitted)) "Some ranked evidence was omitted by explicit bundle budgets."
    ++ when (is_risky risk && is_empty gaps)
        "No task-specific documented verification gap was selected; fresh discovery remains required."

pub record Bundle : Type 0 where
  pub retrieval_question : String
  pub risk_level : Risk
  pub live_verification_required : Bool
  pub known_verification_gaps : List Gap
  pub document_count : ℕ
  pub section_count : ℕ
  pub evidence_chars : ℕ
  pub retrieved_document_candidates : ℕ
  pub retrieved_section_candidates : ℕ
  pub omitted : Omitted
  pub documents : List Document
  pub warnings : List String

abbrev pub rank_before : Document → Document → Bool
rank_before a b = leb a.document_rank b.document_rank

-- What the database gives for the retrieval question: the ranked rows, and the section bodies.
pub record Retrieval : Type 0 where
  pub rows : List Row
  pub bodies : String → ℕ → Option String

abbrev pub parse_risk : String → Option Risk
parse_risk s =
    if str_eq s "normal" then some normal else if str_eq s "risky" then some risky else none

abbrev pub known_risk : Option Risk → Result Error Risk
known_risk none = err unknown_risk_level
known_risk (some r) = ok r

-- `QueryError` is raised again as `ContextCompilerError`.
abbrev pub translate {ℓ} : {A : Type ℓ} → Result String A → Result Error A
translate (ok a) = ok a
translate (err m) = err (query_error m)

module _ (casefold : String → String) where
  -- The bundle of a selection that is not empty.
  unfoldable pub bundle_of :
      (question : String) → Risk → Retrieval → List Candidate → State → Bundle
  bundle_of question risk retrieval candidates s =
      let documents = sort_by rank_before (by_document s.selected) in
      let gaps = known_gaps casefold documents in
      record {
        retrieval_question = question;
        risk_level = risk;
        live_verification_required = is_risky risk;
        known_verification_gaps = gaps;
        document_count = length documents;
        section_count = length s.selected;
        evidence_chars = s.evidence_chars;
        retrieved_document_candidates = length retrieval.rows;
        retrieved_section_candidates = length candidates;
        omitted = s.omitted;
        documents = documents;
        warnings = warnings_of risk documents s.omitted gaps;
      }

  -- What follows the query.
  unfoldable pub compile_from : (wanted : String) → Risk → Budgets → Retrieval → Result Error Bundle
  compile_from wanted risk budgets retrieval = do
    candidates ← candidate_sections retrieval.rows retrieval.bodies
    let s = choose_all casefold wanted budgets initial (selection_order candidates)
    guard (not (is_empty s.selected)) nothing_fits
    ok (bundle_of wanted risk retrieval candidates s)

  unfoldable pub compile_context :
      (retrieve : String → Result String Retrieval) (question risk_level : String)
      → Budgets
      → Result Error Bundle
  compile_context retrieve question risk_level budgets = do
    guard (not (is_blank question)) empty_question
    risk ← known_risk (parse_risk risk_level)
    validate_budgets budgets
    let wanted = retrieval_question casefold question
    retrieval ← translate (retrieve wanted)
    compile_from wanted risk budgets retrieval
