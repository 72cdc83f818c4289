-- ===== src/Context/Evidence.antt =====
-- Where the sections of a context bundle come from.
use homeops_ai.Prelude.{
  ℕ, suc, String, ◌≡◌, refl, inl, inr, false, Option, none, some, List, [], ◌∷◌, ◌++◌, Bool-cases,
  All, All-append, str_eq, eq_iff,
}
use homeops_ai.Prelude.Result.{Result, ok, ◌>>=◌, >>=-eq-ok, ok-injective}
use homeops_ai.Prelude.Sort.{All-sort_by}
use homeops_ai.Text.{len}
use homeops_ai.Context.Defs.{
  Section, Row, Candidate, Budgets, Selected, State, initial, Document, Bundle, Retrieval, choose,
  choose_all, is_forbidden, candidate_of, sections_from, rows_from, candidate_sections, add_section,
  group_from, by_document, rank_before, ranks_before, selection_order, bundle_of, compile_context,
  retrieval_question,
}
use homeops_ai.Context.Progress.{choose-cases}
use homeops_ai.Context.Budgets.{selection, compile_context-IsRun}

-- The body is the one that the database gives for the section, and its length is counted right.
abbrev pub IsExact : (String → ℕ → Option String) → Candidate → Type 0
IsExact bodies c =
    (bodies c.document.document_id c.section.ordinal ≡ some c.body) × (c.char_count ≡ len c.body)

module _ (bodies : String → ℕ → Option String) where
  candidate_of-IsExact :
      (n k : ℕ) (row : Row) (s : Section) (o : Option String) (c : Candidate)
      → bodies row.document_id s.ordinal ≡ o
      → candidate_of n k row s o ≡ ok c
      → IsExact bodies c
  unfolding candidate_of
  candidate_of-IsExact n k row s none c e h = cc
  candidate_of-IsExact n k row s (some body) c e h = rw (← ok-injective _ c h) (e, refl)

  sections_from-IsExact :
      (n k : ℕ) (row : Row) (ss : List Section) (cs : List Candidate)
      → sections_from bodies n k row ss ≡ ok cs
      → All (IsExact bodies) cs
  unfolding sections_from
  sections_from-IsExact n k row [] cs h = rw (← ok-injective _ cs h) tt
  sections_from-IsExact n k row (s ∷ ss) cs h =
      let (c, first, h1) =
        >>=-eq-ok (candidate_of n k row s (bodies row.document_id s.ordinal))
          (λ c. sections_from bodies n (suc k) row ss >>= λ more. ok (c ∷ more)) h in
      let (more, rest, h2) =
        >>=-eq-ok (sections_from bodies n (suc k) row ss) (λ more. ok (c ∷ more)) h1 in
      rw (← ok-injective _ cs h2) (
        candidate_of-IsExact n k row s _ c refl first,
        sections_from-IsExact n (suc k) row ss more rest,
      )

  rows_from-IsExact :
      (n : ℕ) (rows : List Row) (cs : List Candidate)
      → rows_from bodies n rows ≡ ok cs
      → All (IsExact bodies) cs
  unfolding rows_from
  rows_from-IsExact n [] cs h = rw (← ok-injective _ cs h) tt
  rows_from-IsExact n (row ∷ rows) cs h =
      let (here, first, h1) =
        >>=-eq-ok (sections_from bodies n 1 row row.evidence)
          (λ here. rows_from bodies (suc n) rows >>= λ more. ok (here ++ more)) h in
      let (more, rest, h2) =
        >>=-eq-ok (rows_from bodies (suc n) rows) (λ more. ok (here ++ more)) h1 in
      rw (← ok-injective _ cs h2) (
        All-append (IsExact bodies) here more
          (sections_from-IsExact n 1 row row.evidence here first)
          (rows_from-IsExact (suc n) rows more rest))

module _ (P : Candidate → Type 0) where
  abbrev Each : List Selected → Type 0
  Each = All (λ s. P s.candidate)

  -- Each section of the documents, with its document being the one that it is filed under.
  abbrev Filed : String → List Selected → Type 0
  Filed id = All (λ s. P s.candidate × (id ≡ s.candidate.document.document_id))

  abbrev pub EachIn : List Document → Type 0
  EachIn = All (λ d. Filed d.row.document_id d.sections)

  add_section-EachIn :
      (s : Selected) (ds : List Document) → P s.candidate → EachIn ds → EachIn (add_section s ds)
  unfolding add_section
  add_section-EachIn s [] p h = (((p, refl), tt), tt)
  add_section-EachIn s (d ∷ ds) p h =
      elim (Bool-cases (str_eq d.row.document_id s.candidate.document.document_id)) [
        | inl e ↦ rw e (
          All-append (λ x. P x.candidate × (d.row.document_id ≡ x.candidate.document.document_id))
              d.sections (s ∷ []) h.0
              ((p, (eq_iff d.row.document_id s.candidate.document.document_id).0 e), tt),
          h.1,
        )
        | inr e ↦ rw e (h.0, add_section-EachIn s ds p h.1)
      ]

  group_from-EachIn :
      (ds : List Document) (ss : List Selected) → EachIn ds → Each ss → EachIn (group_from ds ss)
  unfolding group_from
  group_from-EachIn ds [] h k = h
  group_from-EachIn ds (s ∷ ss) h k =
      group_from-EachIn (add_section s ds) ss (add_section-EachIn s ds k.0 h) k.1

  by_document-EachIn : (ss : List Selected) → Each ss → EachIn (by_document ss)
  unfolding by_document
  by_document-EachIn ss h = group_from-EachIn [] ss tt h

module _ (casefold : String → String) (question : String) (budgets : Budgets)
    (P : Candidate → Type 0) where
  abbrev Allowed : Candidate → Type 0
  Allowed c = P c × (is_forbidden c ≡ false)

  choose-Each :
      (s : State) (c : Candidate)
      → P c
      → Each Allowed s.selected
      → Each Allowed (choose casefold question budgets s c).selected
  choose-Each s c p h = elim (choose-cases casefold question budgets s c) [
    | inl k ↦ rw k.selected h
    | inr k ↦ rw k.selected (
        All-append (λ x. Allowed x.candidate) s.selected
          (record { candidate = c; selection_reasons = k.reasons } ∷ []) h ((p, k.allowed), tt))
  ]

  pub choose_all-Each :
      (s : State) (cs : List Candidate)
      → All P cs
      → Each Allowed s.selected
      → Each Allowed (choose_all casefold question budgets s cs).selected
  unfolding choose_all
  choose_all-Each s [] p h = h
  choose_all-Each s (c ∷ cs) p h =
      choose_all-Each (choose casefold question budgets s c) cs p.1 (choose-Each s c p.0 h)

module _ (casefold : String → String) (retrieve : String → Result String Retrieval) where
  -- Every section of a bundle is filed under its own document and is evidence as the database has it:
  -- its body is the one stored for that document and its ordinal, its length is counted right, and
  -- its document is not historical, superseded or abandoned.
  pub compile_context-IsExact :
      (question risk_level : String) (budgets : Budgets) (b : Bundle)
      → compile_context casefold retrieve question risk_level budgets ≡ ok b
      → (r : Retrieval) × (retrieve (retrieval_question casefold question) ≡ ok r)
        × EachIn (λ c. IsExact r.bodies c × (is_forbidden c ≡ false)) b.documents
  unfolding bundle_of selection_order candidate_sections
  compile_context-IsExact question risk_level budgets b h =
      let run = compile_context-IsRun casefold retrieve question risk_level budgets b h in
      let exact =
        rows_from-IsExact run.retrieval.bodies 1 run.retrieval.rows run.candidates run.found in
      let s = selection casefold question budgets run.candidates in
      let each =
        choose_all-Each casefold (retrieval_question casefold question) budgets
          (IsExact run.retrieval.bodies) initial (selection_order run.candidates)
          (All-sort_by ranks_before (IsExact run.retrieval.bodies) run.candidates exact) tt in
      (
        run.retrieval,
        run.retrieved,
        rw run.result (
            All-sort_by rank_before _ (by_document s.selected)
              (by_document-EachIn _ s.selected each)),
      )
