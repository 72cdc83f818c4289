-- ===== src/Build/Outcome.antt =====
-- src/homeops_ai/build.py: the outcomes of a promotion, and the calls that lead to them.
use text.Mathlib.TextPositions.{eq_refl}
use homeops_ai.Prelude.{
  String, ◌≡◌, refl, Bool, true, Option, none, some, List, ◌∷◌, ◌⊎◌, inl, inr, str_eq, lookup, sym,
  ap, ◌∙◌,
}
use homeops_ai.Prelude.Result.{ok}
use homeops_ai.Prelude.Triple.{
  Post, Triple, bind-Triple, given-Triple, lift-Triple, return-Triple, weaken_both,
}
use homeops_ai.Value.{Value, obj, Dict, get}
use homeops_ai.Deployment.{
  Selection, unchanged, promoted, validate_deployment_record, validate_safe_id, select_deployment,
}
use homeops_ai.Build.{
  Data, Plan, Host, as_raised, requires, text_of, stored_state, create_deployment, store_deployment,
  write,
}
use homeops_ai.Build.Candidate.{Evidence, candidate_matches_build}
use homeops_ai.Build.Promote.{absent, no_rollback, check_evaluation, select_state}
use homeops_ai.Build.Kept.{On, create-Post, access_any-Triple, as_raised-eq-ok}

lookup_first : (k : String) (r : Dict) (rs : List (String × Dict)) → lookup k ((k, r) ∷ rs) ≡ some r
lookup_first k r rs = rw (eq_refl k) refl

module _ (host : Host) (evidence : Dict → Evidence) (candidate : Value) (expected : Option String)
    (at : String) (required : Bool) (evaluation : Option Value) where
  -- The record of the candidate is in `deployments`.
  abbrev pub IsStored : Data → Type 0
  IsStored d =
      (r : Dict) × (stored : Dict) × (validate_deployment_record host.digest candidate ≡ ok r)
      × (lookup (text_of (get r "deployment_id")) d.deployments ≡ some stored)
      × (str_eq (host.encode (obj stored)) (host.encode (obj r)) ≡ true)

  -- From `before` to `after` the candidate has been selected, with all that this asks for.
  pub record IsPromotion (before after : Data) : Type 0 where
    pub state : Dict
    pub target : Dict
    pub idle : before.journal ≡ none
    pub agrees : candidate_matches_build host.digest evidence candidate ≡ ok tt
    pub evaluated : check_evaluation required evaluation ≡ ok tt
    pub read : stored_state host before.active ≡ ok state
    pub selects :
        select_deployment host.digest (obj state) candidate expected at ≡ ok (target, promoted)
    pub active : after.active ≡ some (obj target)
    pub journal : after.journal ≡ none
    pub stored : IsStored after

  abbrev pub IsKept : (before after : Data) → Type 0
  IsKept before after = (after.active ≡ before.active) × (after.journal ≡ before.journal)

  abbrev pub IsOutcome : (before : Data) → Selection → Data → Type 0
  IsOutcome before unchanged after = IsKept before after
  IsOutcome before promoted after = IsPromotion before after

  module _ (d0 : Data) where
    abbrev pub Safe : Data → Type 0
    Safe d = IsKept d0 d ⊎ IsPromotion d0 d

    pub start-Safe : (w : Data × Plan) → w.0 ≡ d0 → Safe w.0
    start-Safe w h = inl (ap (λ d. d.active) h, ap (λ d. d.journal) h)

    no_rollback-Post :
        (j : Option Dict) (w : Data × Plan)
        → w.0.journal ≡ j
        → w.0 ≡ d0
        → Post
            (λ u w. (w.0 ≡ d0) × (d0.journal ≡ none))
            (On Safe)
            (requires (absent j) "unfinished rollback transaction must be recovered first" w)
    no_rollback-Post none w e h = (h, sym (ap (λ d. d.journal) h) ∙ e)
    no_rollback-Post (some j) w e h = start-Safe w h

    pub no_rollback-Triple :
        Triple (λ w. w.0 ≡ d0) no_rollback (λ u w. (w.0 ≡ d0) × (d0.journal ≡ none)) (On Safe)
    unfolding no_rollback
    no_rollback-Triple = record { holds = λ w h. no_rollback-Post w.0.journal w refl h }

    create_deployment-Triple :
        (r : Dict)
        → validate_deployment_record host.digest candidate ≡ ok r
        → Triple
            (λ w. w.0 ≡ d0)
            (create_deployment host r)
            (λ u w. IsKept d0 w.0 × IsStored w.0)
            (On Safe)
    unfolding create_deployment
    create_deployment-Triple r h = record {
      holds = λ w start.
          let found = lookup (text_of (get r "deployment_id")) w.0.deployments in
          let add : Data → Data =
            λ e. record e { deployments = (text_of (get r "deployment_id"), r) ∷ e.deployments } in
          weaken_both
            (λ u w'.
              ((found ≡ none) × (w'.0 ≡ add w.0))
              ⊎ ((old : Dict) × (found ≡ some old)
                  × (str_eq (host.encode (obj old)) (host.encode (obj r)) ≡ true)
                  × (w'.0 ≡ w.0)))
            (λ u w. IsKept d0 w.0 × IsStored w.0) (λ w'. w'.0 ≡ w.0) (On Safe)
            (create_deployment host r w)
            (λ u w' c. elim c [
              | inl e ↦ (
                (ap (λ d. d.active) (e.1 ∙ ap add start), ap (λ d. d.journal) (e.1 ∙ ap add start)),
                (
                  r,
                  r,
                  h,
                  ap (λ d. lookup (text_of (get r "deployment_id")) d.deployments) e.1
                      ∙ lookup_first (text_of (get r "deployment_id")) r w.0.deployments,
                  eq_refl (host.encode (obj r)),
                ),
              )
              | inr e ↦ (
                (ap (λ d. d.active) (e.3 ∙ start), ap (λ d. d.journal) (e.3 ∙ start)),
                (
                  r,
                  e.0,
                  h,
                  ap (λ d. lookup (text_of (get r "deployment_id")) d.deployments) e.3 ∙ e.1,
                  e.2,
                ),
              )
            ])
            (λ w' e. start-Safe w' (e ∙ start)) (create-Post host found r add w);
    }

    store_deployment-Triple :
        Triple
          (λ w. w.0 ≡ d0)
          (store_deployment host candidate)
          (λ u w. IsKept d0 w.0 × IsStored w.0)
          (On Safe)
    unfolding store_deployment
    store_deployment-Triple =
        bind-Triple (λ r w. (w.0 ≡ d0) × (validate_deployment_record host.digest candidate ≡ ok r))
          (lift-Triple (as_raised (validate_deployment_record host.digest candidate))
            (λ w r e h. (h, as_raised-eq-ok _ r e)) start-Safe)
          (λ r. given-Triple (λ checked.
            bind-Triple (λ u w. w.0 ≡ d0)
              (lift-Triple (as_raised (validate_safe_id (get r "deployment_id"))) (λ w u e h. h)
                start-Safe)
              (λ u. create_deployment-Triple r checked)))

    module _ (s : Dict) (idle : d0.journal ≡ none)
        (agrees : candidate_matches_build host.digest evidence candidate ≡ ok tt)
        (evaluated : check_evaluation required evaluation ≡ ok tt)
        (read : stored_state host d0.active ≡ ok s) where
      select-IsPromotion :
          (t : Dict) (d : Data)
          → select_deployment host.digest (obj s) candidate expected at ≡ ok (t, promoted)
          → IsKept d0 d × IsStored d
          → IsPromotion d0 (record d { active = some (obj t) })
      select-IsPromotion t d selects h = record {
        state = s;
        target = t;
        idle = idle;
        agrees = agrees;
        evaluated = evaluated;
        read = read;
        selects = selects;
        active = refl;
        journal = h.0.1 ∙ idle;
        stored = h.1;
      }

      pub select_state-Triple :
          (next : Dict × Selection)
          → select_deployment host.digest (obj s) candidate expected at ≡ ok next
          → Triple
              (λ w. w.0 ≡ d0)
              (select_state host candidate next)
              (λ u w. IsOutcome d0 next.1 w.0)
              (On Safe)
      unfolding select_state write
      select_state-Triple (t, unchanged) selects =
          return-Triple tt (λ w h. (ap (λ d. d.active) h, ap (λ d. d.journal) h))
      select_state-Triple (t, promoted) selects =
          bind-Triple (λ u w. IsKept d0 w.0 × IsStored w.0) store_deployment-Triple
            (λ u.
              access_any-Triple (λ d. IsKept d0 d × IsStored d) (IsPromotion d0) Safe _ _
                (λ d h. select-IsPromotion t d selects h) (λ d h. inl h.0)
                (λ d h. inr (select-IsPromotion t d selects h)))
