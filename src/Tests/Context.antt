-- ===== src/Tests/Context.antt =====
-- Tests of src/homeops_ai/context_compiler.py on two documents, one of them superseded.
use homeops_ai.Prelude.{
  ℕ, ◌+◌, ◌≤◌, String, ◌≡◌, refl, ◌⊎◌, false, none, some, List, [], ◌∷◌, All, length, ◌==◌,
  if◌then◌else◌, Option,
}
use homeops_ai.Prelude.Result.{Result, ok, err}
use homeops_ai.Prelude.Sort.{sort_by}
use homeops_ai.Text.{is_blank, is_space, contains, contains_codes}
use homeops_ai.Value.{pos}
use homeops_ai.Context.Defs.{
  Section, Row, Candidate, Budgets, Retrieval, Bundle, nothing_fits, normal, initial, total,
  validate_budgets, candidate_of, sections_from, rows_from, candidate_sections, ranks_before,
  selection_order, retrieval_question, is_redundant, taken, choose, choose_all, bundle_of,
  compile_from, compile_context, is_forbidden,
}
use homeops_ai.Context.Budgets.{
  total_sections, total_chars, compile_context-fits, compile_context-accounts,
}
use homeops_ai.Context.Evidence.{IsExact, EachIn, compile_context-IsExact}
use homeops_ai.Context.Fitting.{IsUnfit, compile_from-cases}

abbrev casefold : String → String
casefold s = s

abbrev network : Section
network = record { ordinal = 1; heading = some "Network"; matched_terms = "vlan" ∷ []; score = 9 }

abbrev gaps : Section
gaps = record { ordinal = 2; heading = none; matched_terms = "vlan" ∷ "switch" ∷ []; score = 4 }

abbrev current_row : Row
current_row = record {
  document_id = "a";
  source_path = "docs/network.md";
  title = "Network";
  document_type = some "current-state";
  status = some "current";
  authority = some "canonical";
  score = pos 10;
  evidence = network ∷ gaps ∷ [];
}

abbrev old_row : Row
old_row = record {
  document_id = "b";
  source_path = "docs/old.md";
  title = "Old network";
  document_type = none;
  status = some "superseded";
  authority = none;
  score = pos 3;
  evidence = network ∷ [];
}

abbrev bodies : String → ℕ → Option String
bodies id ordinal = some (if ordinal == 1 then "VLAN 10" else "switch ports")

abbrev retrieval : Retrieval
retrieval = record { rows = current_row ∷ old_row ∷ []; bodies = bodies }

abbrev retrieve : String → Result String Retrieval
retrieve q = ok retrieval

abbrev budgets : Budgets
budgets = record { max_documents = 8; max_sections = 12; max_chars = 4000 }

abbrev candidate : ℕ → ℕ → Row → Section → String → ℕ → Candidate
candidate n k row section body chars = record {
  document_rank = n;
  section_rank = k;
  document = row;
  section = section;
  body = body;
  char_count = chars;
}

abbrev candidates : List Candidate
candidates =
    candidate 1 1 current_row network "VLAN 10" 7
    ∷ candidate 1 2 current_row gaps "switch ports" 12
    ∷ candidate 2 1 old_row network "VLAN 10" 7
    ∷ []

abbrev bundle : Bundle
bundle =
    bundle_of casefold (retrieval_question casefold "vlan context") normal retrieval candidates (
      choose_all casefold (retrieval_question casefold "vlan context") budgets initial
        (selection_order candidates))

found : candidate_sections retrieval.rows retrieval.bodies ≡ ok candidates
unfolding candidate_sections rows_from sections_from candidate_of
found = refl

valid : validate_budgets budgets ≡ ok tt
unfolding validate_budgets
valid = refl

compiled : compile_context casefold retrieve "vlan context" "normal" budgets ≡ ok bundle
unfolding compile_context compile_from candidate_sections rows_from sections_from candidate_of
    validate_budgets is_blank is_space choose_all choose selection_order sort_by ranks_before
    is_redundant taken
compiled = refl

two_sections :
    (bundle.section_count ≡ 2) × (bundle.evidence_chars ≡ 19) × (total bundle.omitted ≡ 1)
unfolding bundle_of choose_all choose selection_order sort_by ranks_before is_redundant taken
    contains contains_codes
two_sections = (refl, refl, refl)

compile_context-fits_example :
    (length bundle.documents ≤ 8)
    × (total_sections bundle.documents ≤ 12)
    × (total_chars bundle.documents ≤ 4000)
    × (bundle.document_count ≡ length bundle.documents)
    × (bundle.section_count ≡ total_sections bundle.documents)
    × (bundle.evidence_chars ≡ total_chars bundle.documents)
compile_context-fits_example =
    compile_context-fits casefold retrieve "vlan context" "normal" budgets bundle compiled

compile_context-accounts_example :
    total_sections bundle.documents + total bundle.omitted ≡ bundle.retrieved_section_candidates
compile_context-accounts_example =
    compile_context-accounts casefold retrieve "vlan context" "normal" budgets bundle compiled

compile_context-IsExact_example :
    (r : Retrieval) × (retrieve (retrieval_question casefold "vlan context") ≡ ok r)
    × EachIn (λ c. IsExact r.bodies c × (is_forbidden c ≡ false)) bundle.documents
compile_context-IsExact_example =
    compile_context-IsExact casefold retrieve "vlan context" "normal" budgets bundle compiled

compile_from-cases_example :
    ((compile_from casefold "vlan" normal budgets retrieval ≡ err nothing_fits)
      × All (IsUnfit budgets) candidates)
    ⊎ ((b : Bundle) × (compile_from casefold "vlan" normal budgets retrieval ≡ ok b)
        × (¬ All (IsUnfit budgets) candidates))
compile_from-cases_example =
    compile_from-cases casefold "vlan" normal budgets retrieval candidates valid found
