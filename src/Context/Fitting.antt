-- ===== src/Context/Fitting.antt =====
-- When a context bundle can be made at all.
use homeops_ai.Prelude.{
  ◌≤◌, ◌<◌, String, ◌≡◌, refl, ◌⊎◌, ◌↔◌, inl, inr, true, false, List, [], ◌∷◌, ◌++◌, arith,
  Bool-cases, All,
}
use homeops_ai.Prelude.Result.{ok, err}
use homeops_ai.Prelude.Sort.{All-sort_by, All-sort_by_inv}
use homeops_ai.Context.Defs.{
  Candidate, Budgets, Selected, State, initial, Bundle, Retrieval, nothing_fits, Risk, choose,
  choose_all, is_forbidden, is_empty, candidate_sections, ranks_before, selection_order, bundle_of,
  compile_from, validate_budgets,
}
use homeops_ai.Context.Progress.{Blocked, IsTaken, IsSkipped, choose-cases}

-- The candidate can stand in no bundle of this budget.
abbrev pub IsUnfit : Budgets → Candidate → Type 0
IsUnfit budgets c = (is_forbidden c ≡ true) ⊎ (budgets.max_chars < c.char_count)

-- The loop has selected nothing.
record IsEmpty (s : State) : Type 0 where
  selected : s.selected ≡ []
  documents : s.selected_documents ≡ []
  chars : s.evidence_chars ≡ 0

module _ (casefold : String → String) (question : String) (budgets : Budgets)
    (some_documents : 1 ≤ budgets.max_documents) (some_sections : 1 ≤ budgets.max_sections) where
  is_empty_of_IsEmpty : (s : State) → IsEmpty s → is_empty s.selected ≡ true
  is_empty_of_IsEmpty s h = rw h.selected

  skipped-IsUnfit :
      (s t : State) (c : Candidate)
      → IsEmpty s
      → IsSkipped casefold question budgets s c t
      → IsUnfit budgets c × IsEmpty t
  skipped-IsUnfit s t c h k = (
    unfit k.why,
    record {
      selected = rw k.selected h.selected;
      documents = rw k.documents h.documents;
      chars = rw k.chars h.chars;
    },
  )
    where
      unfit : Blocked casefold question budgets s c → IsUnfit budgets c
      unfit (inl e) = absurd (ground (arith, is_empty_of_IsEmpty s h))
      unfit (inr (inl f)) = inl f
      unfit (inr (inr (inl d))) = absurd (ground (arith, h.documents))
      unfit (inr (inr (inr (inl n)))) = absurd (ground (arith, h.selected))
      unfit (inr (inr (inr (inr k)))) = inr (omega (arith, h.chars))

  taken-not-IsUnfit :
      (s t : State) (c : Candidate)
      → IsEmpty s
      → IsTaken casefold question budgets s c t
      → (¬ IsUnfit budgets c) × (is_empty t.selected ≡ false)
  taken-not-IsUnfit s t c h k = (
    λ u. elim u [ inl f ↦ cc (f, k.allowed) | inr n ↦ omega (arith, n, k.chars_left, h.chars) ],
    rw (k.selected, h.selected),
  )

  is_empty-append : (xs : List Selected) (x : Selected) → is_empty (xs ++ x ∷ []) ≡ false
  is_empty-append [] x = refl
  is_empty-append (y ∷ ys) x = refl

  -- What is selected stays selected.
  choose-not_empty :
      (s : State) (c : Candidate)
      → is_empty s.selected ≡ false
      → is_empty (choose casefold question budgets s c).selected ≡ false
  choose-not_empty s c h = elim (choose-cases casefold question budgets s c) [
    | inl k ↦ rw k.selected h
    | inr k ↦ rw k.selected (is_empty-append s.selected _)
  ]

  choose_all-not_empty :
      (s : State) (cs : List Candidate)
      → is_empty s.selected ≡ false
      → is_empty (choose_all casefold question budgets s cs).selected ≡ false
  unfolding choose_all
  choose_all-not_empty s [] h = h
  choose_all-not_empty s (c ∷ cs) h =
      choose_all-not_empty (choose casefold question budgets s c) cs (choose-not_empty s c h)

  choose_all-empty_iff :
      (s : State) (cs : List Candidate)
      → IsEmpty s
      → (is_empty (choose_all casefold question budgets s cs).selected ≡ true)
        ↔ All (IsUnfit budgets) cs
  unfolding choose_all
  choose_all-empty_iff s [] h = (λ _. tt, λ _. is_empty_of_IsEmpty s h)
  choose_all-empty_iff s (c ∷ cs) h = elim (choose-cases casefold question budgets s c) [
    | inl k ↦
        let (unfit, still) = skipped-IsUnfit s _ c h k in
        let (to, from) = choose_all-empty_iff (choose casefold question budgets s c) cs still in
        (λ e. (unfit, to e), λ a. from a.1)
    | inr k ↦
        let (fit, full) = taken-not-IsUnfit s _ c h k in
        (
          λ e. cc (e, choose_all-not_empty (choose casefold question budgets s c) cs full),
          λ a. absurd (fit a.0),
        )
  ]

module _ (casefold : String → String) (wanted : String) (risk : Risk) (budgets : Budgets) where
  -- Within valid budgets, once the candidates are read, the compiler either refuses, and every
  -- candidate is of a forbidden status or longer by itself than the character budget, or gives a
  -- bundle, and some candidate is neither.
  pub compile_from-cases :
      (r : Retrieval) (cs : List Candidate)
      → validate_budgets budgets ≡ ok tt
      → candidate_sections r.rows r.bodies ≡ ok cs
      → ((compile_from casefold wanted risk budgets r ≡ err nothing_fits)
          × All (IsUnfit budgets) cs)
        ⊎ ((b : Bundle) × (compile_from casefold wanted risk budgets r ≡ ok b)
            × (¬ All (IsUnfit budgets) cs))
  unfolding compile_from selection_order validate_budgets
  compile_from-cases r cs v e =
      let full = choose_all casefold wanted budgets initial (selection_order cs) in
      let (to, from) =
        choose_all-empty_iff casefold wanted budgets (ground arith) (ground arith) initial
          (selection_order cs) (record { selected = refl; documents = refl; chars = refl }) in
      elim (Bool-cases (is_empty full.selected)) [
        | inl t ↦ inl (rw e (rw t), All-sort_by_inv ranks_before (IsUnfit budgets) cs (to t))
        | inr t ↦ inr (
          bundle_of casefold wanted risk r cs full,
          rw e (rw t),
          λ a. cc (from (All-sort_by ranks_before (IsUnfit budgets) cs a), t),
        )
      ]
