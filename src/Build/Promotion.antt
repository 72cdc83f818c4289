-- ===== src/Build/Promotion.antt =====
-- src/homeops_ai/build.py: what a promotion leaves in the data directory, whatever fails on the way.
use homeops_ai.Prelude.{String, ◌≡◌, refl, Bool, Option, none, List, ◌⊎◌, inl, inr}
use homeops_ai.Prelude.Result.{Result, ok, err}
use homeops_ai.Prelude.Effect.{return, ◌>>=◌}
use homeops_ai.Prelude.Triple.{
  Post, Triple, bind-Triple, given-Triple, lift-Triple, ensure-Triple, return-Triple,
  weaken_post-Triple, weaken_raised-Triple,
}
use homeops_ai.Value.{Value, obj, Dict, get, same, num}
use homeops_ai.Deployment.{Selection, unchanged, promoted, select_deployment}
use homeops_ai.Build.{
  Data, Plan, Host, Failure, build_error, of_deployment, os_error, as_raised, stored_state, repair,
}
use homeops_ai.Build.Candidate.{Evidence, candidate_matches_build}
use homeops_ai.Build.Promote.{check_evaluation, promote_locked, promote, in_build}
use homeops_ai.Build.Outcome.{
  IsKept, IsPromotion, IsOutcome, Safe, start-Safe, no_rollback-Triple, select_state-Triple,
}
use homeops_ai.Build.Kept.{On, active_state-Triple, repair_keeps-Triple, as_raised-eq-ok}
use homeops_ai.Pipeline.{fields_of}

module _ (host : Host) (evidence : Dict → Evidence) (candidate : Value) (expected : Option String)
    (at : String) (required : Bool) (evaluation : Option Value) where
  module _ (d0 : Data) where
    IsOutcome-Safe :
        (sel : Selection) (d : Data)
        → (IsOutcome host evidence candidate expected at required evaluation d0) sel d
        → (Safe host evidence candidate expected at required evaluation d0) d
    IsOutcome-Safe unchanged d h = inl h
    IsOutcome-Safe promoted d h = inr h

    IsOutcome-history :
        (sel : Selection) (d : Data) (h : List (String × Dict))
        → (IsOutcome host evidence candidate expected at required evaluation d0) sel d
        → (IsOutcome host evidence candidate expected at required evaluation d0) sel
            (record d { history = h })
    IsOutcome-history unchanged d h o = o
    IsOutcome-history promoted d h o = record {
      state = o.state;
      target = o.target;
      idle = o.idle;
      agrees = o.agrees;
      evaluated = o.evaluated;
      read = o.read;
      selects = o.selects;
      active = o.active;
      journal = o.journal;
      stored = o.stored;
    }

    IsOutcome-projection :
        (sel : Selection) (d : Data) (p : Option Dict)
        → (IsOutcome host evidence candidate expected at required evaluation d0) sel d
        → (IsOutcome host evidence candidate expected at required evaluation d0) sel
            (record d { projection = p })
    IsOutcome-projection unchanged d p o = o
    IsOutcome-projection promoted d p o = record {
      state = o.state;
      target = o.target;
      idle = o.idle;
      agrees = o.agrees;
      evaluated = o.evaluated;
      read = o.read;
      selects = o.selects;
      active = o.active;
      journal = o.journal;
      stored = o.stored;
    }

    finish-Triple :
        (next : Dict × Selection)
        → Triple {A = Selection × Dict}
            (λ w. (IsOutcome host evidence candidate expected at required evaluation d0) next.1 w.0)
            (repair host (get (fields_of (get next.0 "current_deployment")) "deployment_id")
              >>= λ repaired. return (next.1, repaired))
            (λ r w. (IsOutcome host evidence candidate expected at required evaluation d0) r.0 w.0)
            (On (Safe host evidence candidate expected at required evaluation d0))
    finish-Triple next =
        bind-Triple
          (λ s. On ((IsOutcome host evidence candidate expected at required evaluation d0) next.1))
          (weaken_raised-Triple (λ w. IsOutcome-Safe next.1 w.0)
            (repair_keeps-Triple host
              ((IsOutcome host evidence candidate expected at required evaluation d0) next.1)
              (IsOutcome-history next.1) (IsOutcome-projection next.1)
              (get (fields_of (get next.0 "current_deployment")) "deployment_id")))
          (λ s. return-Triple (next.1, s) (λ w h. h))

    promote_locked-Triple :
        Triple
          (λ w. w.0 ≡ d0)
          (promote_locked host evidence candidate expected at required evaluation)
          (λ r w. (IsOutcome host evidence candidate expected at required evaluation d0) r.0 w.0)
          (On (Safe host evidence candidate expected at required evaluation d0))
    unfolding promote_locked
    promote_locked-Triple =
        bind-Triple (λ u w. (w.0 ≡ d0) × (d0.journal ≡ none))
          (no_rollback-Triple host evidence candidate expected at required evaluation d0)
          (λ u. given-Triple (λ idle.
            bind-Triple
              (λ u w. (w.0 ≡ d0) × (candidate_matches_build host.digest evidence candidate ≡ ok tt))
              (lift-Triple (candidate_matches_build host.digest evidence candidate)
                (λ w u e h. (h, e))
                (start-Safe host evidence candidate expected at required evaluation d0))
              (λ u. given-Triple (λ agrees.
                bind-Triple (λ u w. (w.0 ≡ d0) × (check_evaluation required evaluation ≡ ok tt))
                  (lift-Triple (check_evaluation required evaluation) (λ w u e h. (h, e))
                    (start-Safe host evidence candidate expected at required evaluation d0))
                  (λ u. given-Triple (λ evaluated.
                    bind-Triple (λ s w. (w.0 ≡ d0) × (stored_state host d0.active ≡ ok s))
                      (weaken_raised-Triple
                        (start-Safe host evidence candidate expected at required evaluation d0)
                        (active_state-Triple host d0))
                      (λ s. given-Triple (λ read.
                        bind-Triple (λ u w. w.0 ≡ d0)
                          (weaken_post-Triple (λ u w h. h.0)
                            (ensure-Triple (same (get s "schema_version") (num 2))
                              (build_error
                                "legacy active state must be explicitly adopted before v2 promotion")
                              (start-Safe host evidence candidate expected at required evaluation
                                d0)))
                          (λ u.
                            bind-Triple
                              (λ next w.
                                (w.0 ≡ d0)
                                × (select_deployment host.digest (obj s) candidate expected at
                                    ≡ ok next))
                              (lift-Triple
                                (as_raised
                                  (select_deployment host.digest (obj s) candidate expected at))
                                (λ w next e h. (h, as_raised-eq-ok _ next e))
                                (start-Safe host evidence candidate expected at required evaluation
                                  d0))
                              (λ next. given-Triple (λ selects.
                                bind-Triple
                                  (λ u w.
                                    (IsOutcome host evidence candidate expected at required
                                        evaluation d0)
                                      next.1 w.0)
                                  ((select_state-Triple host evidence candidate expected at required
                                      evaluation d0)
                                    s idle agrees evaluated read next selects)
                                  (λ u. finish-Triple next))))))))))))

  in_build-Post :
      (Q : Selection × Dict → Data × Plan → Type 0) (E : Data × Plan → Type 0)
      (x : (Data × Plan) × Result Failure (Selection × Dict))
      → Post Q E x
      → Post Q E (x.0, in_build x.1)
  in_build-Post Q E (w, ok a) h = h
  in_build-Post Q E (w, err (build_error m)) h = h
  in_build-Post Q E (w, err (of_deployment e)) h = h
  in_build-Post Q E (w, err os_error) h = h

  -- What a promotion that returns, and one that raises, leaves.
  abbrev pub IsLeft : (before : Data) → (Data × Plan) × Result Failure (Selection × Dict) → Type 0
  IsLeft before (w, ok r) =
      (IsOutcome host evidence candidate expected at required evaluation before) r.0 w.0
  IsLeft before (w, err e) =
      (IsKept host evidence candidate expected at required evaluation) before w.0
      ⊎ (IsPromotion host evidence candidate expected at required evaluation) before w.0

  Post-IsLeft :
      (d0 : Data) (x : (Data × Plan) × Result Failure (Selection × Dict))
      → Post
          (λ r w. (IsOutcome host evidence candidate expected at required evaluation d0) r.0 w.0)
          (λ w.
            (IsKept host evidence candidate expected at required evaluation) d0 w.0
            ⊎ (IsPromotion host evidence candidate expected at required evaluation) d0 w.0)
          x
      → IsLeft d0 x
  Post-IsLeft d0 (w, ok r) h = h
  Post-IsLeft d0 (w, err e) h = h

  -- Whatever is promoted over whatever data directory, and whichever writes fail: a promotion that
  -- returns `unchanged` leaves active.json and the journal as they were, and one that returns
  -- `promoted` has selected the candidate, in the sense of `IsPromotion`: no rollback was pending,
  -- the candidate agrees with its build, its evaluation passes if it has to, active.json holds the
  -- state that `select_deployment` gives for the state read before, and the record of the candidate
  -- is stored. A promotion that raises has done the one or the other.
  pub promote_is_atomic :
      (d0 : Data) (plan : Plan)
      → IsLeft d0 (promote host evidence candidate expected at required evaluation (d0, plan))
  unfolding promote
  promote_is_atomic d0 plan =
      Post-IsLeft d0 (promote host evidence candidate expected at required evaluation (d0, plan)) (
        in_build-Post
          (λ r w. (IsOutcome host evidence candidate expected at required evaluation d0) r.0 w.0)
          (λ w.
            (IsKept host evidence candidate expected at required evaluation) d0 w.0
            ⊎ (IsPromotion host evidence candidate expected at required evaluation) d0 w.0)
          (promote_locked host evidence candidate expected at required evaluation (d0, plan))
          ((promote_locked-Triple d0).holds (d0, plan) refl))
