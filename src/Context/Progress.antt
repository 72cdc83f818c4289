-- ===== src/Context/Progress.antt =====
-- What one round of the selection loop does: it skips the candidate and counts it as omitted, or it
-- takes the candidate, which then fits what is left of the budgets.
use homeops_ai.Prelude.{
  ℕ, ◌+◌, ◌≤◌, ◌<◌, String, ◌≡◌, refl, ◌⊎◌, inl, inr, Bool, true, false, List, [], ◌∷◌, ◌++◌, arith,
  length, mem, Bool-cases, not, ◌&&◌, leb, ltb,
}
use homeops_ai.Context.Defs.{
  Candidate, Budgets, Omitted, State, choose, add_once, total, is_forbidden, is_empty, is_known,
  is_redundant, selection_reasons, taken,
}

module _ (casefold : String → String) (question : String) (budgets : Budgets) where
  abbrev pub id_of : Candidate → String
  id_of c = c.document.document_id

  -- The reason to skip, as far as the budgets and the status give it.
  abbrev pub Blocked : State → Candidate → Type 0
  Blocked s c =
      (is_empty s.selected ≡ false)
      ⊎ ((is_forbidden c ≡ true)
          ⊎ ((budgets.max_documents ≤ length s.selected_documents)
              ⊎ ((budgets.max_sections ≤ length s.selected)
                  ⊎ (budgets.max_chars < s.evidence_chars + c.char_count))))

  pub record IsTaken (s : State) (c : Candidate) (t : State) : Type 0 where
    pub reasons : List String
    pub selected :
        t.selected ≡ s.selected ++ record { candidate = c; selection_reasons = reasons } ∷ []
    pub documents : t.selected_documents ≡ add_once c.document.document_id s.selected_documents
    pub chars : t.evidence_chars ≡ s.evidence_chars + c.char_count
    pub omitted : t.omitted ≡ s.omitted
    pub allowed : is_forbidden c ≡ false
    pub documents_left :
        (mem c.document.document_id s.selected_documents ≡ true)
        ⊎ (length s.selected_documents < budgets.max_documents)
    pub sections_left : length s.selected < budgets.max_sections
    pub chars_left : s.evidence_chars + c.char_count ≤ budgets.max_chars

  pub record IsSkipped (s : State) (c : Candidate) (t : State) : Type 0 where
    pub selected : t.selected ≡ s.selected
    pub documents : t.selected_documents ≡ s.selected_documents
    pub chars : t.evidence_chars ≡ s.evidence_chars
    pub counted : total t.omitted ≡ total s.omitted + 1
    pub why : Blocked s c

  redundant_not_empty :
      (s : State) (c : Candidate)
      → is_redundant casefold question s c ≡ true
      → is_empty s.selected ≡ false
  unfolding is_redundant
  redundant_not_empty s c h = ground arith

  taken-IsTaken :
      (s : State) (c : Candidate)
      → is_forbidden c ≡ false
      → (is_known s c ≡ true) ⊎ (length s.selected_documents < budgets.max_documents)
      → length s.selected < budgets.max_sections
      → s.evidence_chars + c.char_count ≤ budgets.max_chars
      → IsTaken s c (taken casefold question s c)
  unfolding taken
  taken-IsTaken s c f d n k = record {
    reasons = selection_reasons casefold question s c;
    selected = refl;
    documents = refl;
    chars = refl;
    omitted = refl;
    allowed = f;
    documents_left = d;
    sections_left = n;
    chars_left = k;
  }

  documents_left :
      (known : Bool) (m n : ℕ) → (not known && leb m n) ≡ false → (known ≡ true) ⊎ (n < m)
  documents_left true m n h = inl refl
  documents_left false m n h = inr (ground arith)

  skipped :
      (s : State) (c : Candidate) (o : Omitted)
      → total o ≡ total s.omitted + 1
      → Blocked s c
      → IsSkipped s c (record s { omitted = o })
  skipped s c o n w = record {
    selected = refl;
    documents = refl;
    chars = refl;
    counted = n;
    why = w;
  }

  pub choose-cases :
      (s : State) (c : Candidate)
      → IsSkipped s c (choose casefold question budgets s c)
        ⊎ IsTaken s c (choose casefold question budgets s c)
  unfolding choose
  choose-cases s c = elim (Bool-cases (is_forbidden c)) [
    | inl f ↦ rw f (inl (skipped s c _ (omega arith) (inr (inl f))))
    | inr f ↦ rw f (elim (Bool-cases (is_redundant casefold question s c)) [
      | inl r ↦ rw r (inl (skipped s c _ (omega arith) (inl (redundant_not_empty s c r))))
      | inr r ↦
          rw r
            (elim (Bool-cases
              (not (is_known s c) && leb budgets.max_documents (length s.selected_documents))) [
                | inl d ↦ rw d (inl (skipped s c _ (omega arith) (inr (inr (inl (ground arith))))))
                | inr d ↦ rw d (elim (Bool-cases (leb budgets.max_sections (length s.selected))) [
                  | inl n ↦
                      rw n
                        (inl (skipped s c _ (omega arith) (inr (inr (inr (inl (ground arith)))))))
                  | inr n ↦
                      rw n
                        (elim (Bool-cases
                          (ltb budgets.max_chars (s.evidence_chars + c.char_count))) [
                            | inl k ↦ rw k (
                                inl (
                                  skipped s c _ (omega arith)
                                    (inr (inr (inr (inr (ground arith)))))))
                            | inr k ↦ rw k (
                                inr (
                                  taken-IsTaken s c f (documents_left _ _ _ d) (ground arith)
                                    (ground arith)))
                          ])
                ])
              ])
    ])
  ]
