-- ===== src/Context/Budgets.antt =====
-- The budgets of a context bundle, and the account of the candidates that it leaves out.
use homeops_ai.Prelude.{
  ℕ, suc, ◌+◌, ◌≤◌, ◌<◌, String, ◌≡◌, refl, ap, ◌∙◌, ◌⊎◌, inl, inr, true, List, [], ◌∷◌, ◌++◌,
  arith, length, length-append, mem, sum_by, sum_by-append, map, not,
}
use homeops_ai.Prelude.Result.{Result, ok, err, ◌>>=◌, ◌>>◌, guard, >>=-eq-ok}
use homeops_ai.Prelude.Sort.{length-sort_by, sum_by-sort_by}
use homeops_ai.Text.{is_blank}
use homeops_ai.Context.Defs.{
  Candidate, Budgets, Selected, State, initial, Document, Bundle, Retrieval, Risk, choose,
  choose_all, add_once, total, is_empty, add_section, group_from, by_document, selection_order,
  candidate_sections, bundle_of, compile_context, rank_before, ranks_before, retrieval_question,
  validate_budgets, compile_from, known_risk, parse_risk, translate, empty_question, nothing_fits,
}
use homeops_ai.Context.Progress.{IsTaken, IsSkipped, choose-cases}

abbrev pub chars : Selected → ℕ
chars s = s.candidate.char_count

abbrev pub ids : List Document → List String
ids = map (λ d. d.row.document_id)

-- The sections and the characters that the documents of a bundle hold.
abbrev pub total_sections : List Document → ℕ
total_sections = sum_by (λ d. length d.sections)

abbrev pub total_chars : List Document → ℕ
total_chars = sum_by (λ d. sum_by chars d.sections)

ids-add_section :
    (s : Selected) (ds : List Document)
    → ids (add_section s ds) ≡ add_once s.candidate.document.document_id (ids ds)
unfolding add_section
ids-add_section s [] = refl
ids-add_section s (d ∷ ds) = ground (arith, ids-add_section s ds)

sections-add_section :
    (s : Selected) (ds : List Document) → total_sections (add_section s ds) ≡ total_sections ds + 1
unfolding add_section
sections-add_section s [] = refl
sections-add_section s (d ∷ ds) =
    ground (arith, sections-add_section s ds, length-append d.sections (s ∷ []))

chars-add_section :
    (s : Selected) (ds : List Document) → total_chars (add_section s ds) ≡ total_chars ds + chars s
unfolding add_section
chars-add_section s [] = omega arith
chars-add_section s (d ∷ ds) =
    ground (arith, chars-add_section s ds, sum_by-append chars d.sections (s ∷ []))

group_from-append :
    (ds : List Document) (xs : List Selected) (s : Selected)
    → group_from ds (xs ++ s ∷ []) ≡ add_section s (group_from ds xs)
unfolding group_from
group_from-append ds [] s = refl
group_from-append ds (x ∷ xs) s = group_from-append (add_section x ds) xs s

by_document-append :
    (xs : List Selected) (s : Selected)
    → by_document (xs ++ s ∷ []) ≡ add_section s (by_document xs)
unfolding by_document
by_document-append xs s = group_from-append [] xs s

length-ids : (ds : List Document) → length ds ≡ length (ids ds)
length-ids [] = refl
length-ids (d ∷ ds) = ap suc (length-ids ds)

module _ (casefold : String → String) (question : String) (budgets : Budgets) where
  -- The loop invariant: the budgets hold, and the grouping of what is selected has one document for
  -- each identifier, with all the sections and their characters.
  pub record Fits (s : State) : Type 0 where
    pub documents : length s.selected_documents ≤ budgets.max_documents
    pub sections : length s.selected ≤ budgets.max_sections
    pub chars : s.evidence_chars ≤ budgets.max_chars
    pub grouped : ids (by_document s.selected) ≡ s.selected_documents
    pub all_sections : total_sections (by_document s.selected) ≡ length s.selected
    pub all_chars : total_chars (by_document s.selected) ≡ s.evidence_chars

  length-add_once :
      (k : String) (ks : List String) (m : ℕ)
      → length ks ≤ m
      → (mem k ks ≡ true) ⊎ (length ks < m)
      → length (add_once k ks) ≤ m
  length-add_once k ks m h d = ground (arith, length-append ks (k ∷ []))

  taken-Fits :
      (s t : State) (c : Candidate) → Fits s → IsTaken casefold question budgets s c t → Fits t
  taken-Fits s t c h k =
      let item : Selected = record { candidate = c; selection_reasons = k.reasons } in
      record {
        documents =
            rw k.documents (length-add_once _ s.selected_documents _ h.documents k.documents_left);
        sections =
            rw k.selected
              (omega (arith, length-append {0} s.selected (item ∷ []), k.sections_left));
        chars = rw k.chars k.chars_left;
        grouped =
            rw (k.selected, k.documents, by_document-append s.selected item, ids-add_section item)
              (ap (add_once c.document.document_id) h.grouped);
        all_sections =
            rw (k.selected, by_document-append s.selected item)
              (omega (
                arith,
                sections-add_section item (by_document s.selected),
                length-append {0} s.selected (item ∷ []),
                h.all_sections,
              ));
        all_chars =
            rw (k.selected, k.chars, by_document-append s.selected item)
              (omega (arith, chars-add_section item (by_document s.selected), h.all_chars));
      }

  skipped-Fits :
      (s t : State) (c : Candidate) → Fits s → IsSkipped casefold question budgets s c t → Fits t
  skipped-Fits s t c h k = record {
    documents = rw k.documents h.documents;
    sections = rw k.selected h.sections;
    chars = rw k.chars h.chars;
    grouped = rw (k.selected, k.documents) h.grouped;
    all_sections = rw k.selected h.all_sections;
    all_chars = rw (k.selected, k.chars) h.all_chars;
  }

  choose-Fits : (s : State) (c : Candidate) → Fits s → Fits (choose casefold question budgets s c)
  choose-Fits s c h = elim (choose-cases casefold question budgets s c) [
    | inl k ↦ skipped-Fits s _ c h k
    | inr k ↦ taken-Fits s _ c h k
  ]

  choose_all-Fits :
      (s : State) (cs : List Candidate) → Fits s → Fits (choose_all casefold question budgets s cs)
  unfolding choose_all
  choose_all-Fits s [] h = h
  choose_all-Fits s (c ∷ cs) h =
      choose_all-Fits (choose casefold question budgets s c) cs (choose-Fits s c h)

  choose-counted :
      (s : State) (c : Candidate)
      → length (choose casefold question budgets s c).selected
          + total (choose casefold question budgets s c).omitted
        ≡ length s.selected + total s.omitted + 1
  choose-counted s c = elim (choose-cases casefold question budgets s c) [
    | inl k ↦ rw k.selected (omega (arith, k.counted))
    | inr k ↦
        rw (k.selected, k.omitted)
          (omega (
            arith,
            length-append {0} s.selected
                (record { candidate = c; selection_reasons = k.reasons } ∷ []),
          ))
  ]

  choose_all-counted :
      (s : State) (cs : List Candidate)
      → length (choose_all casefold question budgets s cs).selected
          + total (choose_all casefold question budgets s cs).omitted
        ≡ length s.selected + total s.omitted + length cs
  unfolding choose_all
  choose_all-counted s [] = omega arith
  choose_all-counted s (c ∷ cs) =
      omega
        (arith, choose_all-counted (choose casefold question budgets s c) cs, choose-counted s c)

  pub initial-Fits : Fits initial
  unfolding by_document group_from
  initial-Fits = record {
    documents = omega arith;
    sections = omega arith;
    chars = omega arith;
    grouped = refl;
    all_sections = refl;
    all_chars = refl;
  }

-- The selection loop over the ordered candidates.
abbrev pub selection : (String → String) → String → Budgets → List Candidate → State
selection casefold question budgets candidates =
    choose_all casefold (retrieval_question casefold question) budgets initial
      (selection_order candidates)

-- What a successful call has gone through.
pub record IsRun (casefold : String → String) (retrieve : String → Result String Retrieval)
    (question : String) (budgets : Budgets) (b : Bundle) : Type 0 where
  pub risk : Risk
  pub retrieval : Retrieval
  pub candidates : List Candidate
  pub in_range : validate_budgets budgets ≡ ok tt
  pub retrieved : retrieve (retrieval_question casefold question) ≡ ok retrieval
  pub found : candidate_sections retrieval.rows retrieval.bodies ≡ ok candidates
  pub result :
      b
      ≡ bundle_of casefold
          (retrieval_question casefold question)
          risk
          retrieval
          candidates
          (selection casefold question budgets candidates)

translate-eq-ok {ℓ} : {A : Type ℓ} (r : Result String A) (a : A) → translate r ≡ ok a → r ≡ ok a
translate-eq-ok (ok x) a h = cc
translate-eq-ok (err m) a h = cc

module _ (casefold : String → String) (retrieve : String → Result String Retrieval) where
  from-IsRun :
      (question : String) (risk : Risk) (budgets : Budgets) (r : Retrieval) (b : Bundle)
      → validate_budgets budgets ≡ ok tt
      → retrieve (retrieval_question casefold question) ≡ ok r
      → compile_from casefold (retrieval_question casefold question) risk budgets r ≡ ok b
      → IsRun casefold retrieve question budgets b
  unfolding compile_from
  from-IsRun question risk budgets r b v e h =
      let (cs, found, h1) =
        >>=-eq-ok (candidate_sections r.rows r.bodies)
          (λ cs.
            guard (not (is_empty (selection casefold question budgets cs).selected)) nothing_fits
            >> ok (
                bundle_of casefold (retrieval_question casefold question) risk r cs
                  (selection casefold question budgets cs)))
          h in
      record {
        risk = risk;
        retrieval = r;
        candidates = cs;
        in_range = v;
        retrieved = e;
        found = found;
        result = ground arith;
      }

  pub compile_context-IsRun :
      (question risk_level : String) (budgets : Budgets) (b : Bundle)
      → compile_context casefold retrieve question risk_level budgets ≡ ok b
      → IsRun casefold retrieve question budgets b
  unfolding compile_context
  compile_context-IsRun question risk_level budgets b h =
      let wanted = retrieval_question casefold question in
      let (_, _, h1) =
        >>=-eq-ok (guard (not (is_blank question)) empty_question)
          (λ _. known_risk (parse_risk risk_level) >>= λ risk.
            validate_budgets budgets
            >> (translate (retrieve wanted) >>= λ r. compile_from casefold wanted risk budgets r))
          h in
      let (risk, _, h2) =
        >>=-eq-ok (known_risk (parse_risk risk_level))
          (λ risk.
            validate_budgets budgets
            >> (translate (retrieve wanted) >>= λ r. compile_from casefold wanted risk budgets r))
          h1 in
      let (_, valid, h3) =
        >>=-eq-ok (validate_budgets budgets)
          (λ _. translate (retrieve wanted) >>= λ r. compile_from casefold wanted risk budgets r)
          h2 in
      let (r, e, h4) =
        >>=-eq-ok (translate (retrieve wanted)) (λ r. compile_from casefold wanted risk budgets r)
          h3 in
      from-IsRun question risk budgets r b valid (translate-eq-ok _ r e) h4

  -- A bundle keeps its budgets: it holds at most `max_documents` documents, at most `max_sections`
  -- sections and at most `max_chars` characters of section text, counted over its documents, and
  -- the counts that it reports are these.
  pub compile_context-fits :
      (question risk_level : String) (budgets : Budgets) (b : Bundle)
      → compile_context casefold retrieve question risk_level budgets ≡ ok b
      → (length b.documents ≤ budgets.max_documents)
        × (total_sections b.documents ≤ budgets.max_sections)
        × (total_chars b.documents ≤ budgets.max_chars)
        × (b.document_count ≡ length b.documents)
        × (b.section_count ≡ total_sections b.documents)
        × (b.evidence_chars ≡ total_chars b.documents)
  unfolding bundle_of
  compile_context-fits question risk_level budgets b h =
      let run = compile_context-IsRun question risk_level budgets b h in
      let s = selection casefold question budgets run.candidates in
      let fits =
        choose_all-Fits casefold (retrieval_question casefold question) budgets initial
          (selection_order run.candidates)
          (initial-Fits casefold (retrieval_question casefold question) budgets) in
      let documents : List Document = by_document s.selected in
      let n = length-sort_by rank_before documents in
      let m = sum_by-sort_by rank_before (λ d. length d.sections) documents in
      let k = sum_by-sort_by rank_before (λ d. sum_by chars d.sections) documents in
      let each : length documents ≡ length s.selected_documents =
        length-ids documents ∙ ap length fits.grouped in
      rw run.result (
        omega (arith, n, each, fits.documents),
        omega (arith, m, fits.all_sections, fits.sections),
        omega (arith, k, fits.all_chars, fits.chars),
        refl,
        omega (arith, m, fits.all_sections),
        omega (arith, k, fits.all_chars),
      )

  -- Nothing is lost without account: the sections of a bundle and the candidates that it counts as
  -- omitted are together the candidates that were retrieved.
  pub compile_context-accounts :
      (question risk_level : String) (budgets : Budgets) (b : Bundle)
      → compile_context casefold retrieve question risk_level budgets ≡ ok b
      → total_sections b.documents + total b.omitted ≡ b.retrieved_section_candidates
  unfolding bundle_of selection_order
  compile_context-accounts question risk_level budgets b h =
      let run = compile_context-IsRun question risk_level budgets b h in
      let s = selection casefold question budgets run.candidates in
      let fits =
        choose_all-Fits casefold (retrieval_question casefold question) budgets initial
          (selection_order run.candidates)
          (initial-Fits casefold (retrieval_question casefold question) budgets) in
      rw run.result (
        omega (
          arith,
          sum_by-sort_by rank_before (λ d. length d.sections) (by_document s.selected),
          fits.all_sections,
          choose_all-counted casefold (retrieval_question casefold question) budgets initial
              (selection_order run.candidates),
          length-sort_by ranks_before run.candidates,
        ))
