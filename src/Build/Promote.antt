-- ===== src/Build/Promote.antt =====
-- src/homeops_ai/build.py: promotion of a candidate.
use homeops_ai.Prelude.{String, Bool, true, false, Option, none, some, if◌then◌else◌}
use homeops_ai.Prelude.Result.{Result, ok, err}
use homeops_ai.Prelude.Effect.{return, ◌>>=◌, ◌>>◌, lift}
use homeops_ai.Value.{Value, obj, Dict, get, same, num}
use homeops_ai.Deployment.{Selection, unchanged, promoted, select_deployment}
use homeops_ai.Deployment.Serving.{truthy}
use homeops_ai.Pipeline.{fields_of}
use homeops_ai.Build.{
  Host, Failure, build_error, Run, write, as_raised, of_deployment, message_of, requires,
  active_state, repair, store_deployment,
}
use homeops_ai.Build.Candidate.{Evidence, candidate_matches_build, load_json}

abbrev pub absent : Option Dict → Bool
absent none = true
absent (some j) = false

-- No rollback is pending.
unfoldable pub no_rollback : Run (Unit {0})
no_rollback (d, plan) =
    requires (absent d.journal) "unfinished rollback transaction must be recovered first" (d, plan)

-- `evaluation` is the JSON of promotion-evaluation.json, if that file is there.
unfoldable pub check_evaluation : (required : Bool) → Option Value → Result Failure (Unit {0})
unfolding load_json
check_evaluation false evaluation = ok tt
check_evaluation true none = err (build_error "candidate has no passing promotion-safe evaluation")
check_evaluation true (some v) = elim (load_json v) [
  | ok report ↦
      if truthy (get report "passed")
      then ok tt
      else err (build_error "candidate has no passing promotion-safe evaluation")
  | err e ↦ err e
]

-- `except DeploymentError as error: raise BuildError(str(error))` around a call
abbrev pub in_build {ℓ} : {A : Type ℓ} → Result Failure A → Result Failure A
in_build (err (of_deployment e)) = err (build_error (message_of e))
in_build r = r

module _ (host : Host) where
  -- The writes that select the state.
  unfoldable pub select_state : (candidate : Value) → Dict × Selection → Run (Unit {0})
  unfolding store_deployment write
  select_state candidate (selected, unchanged) = return tt
  select_state candidate (selected, promoted) =
      store_deployment host candidate >> write (λ d. record d { active = some (obj selected) })

module _ (host : Host) (evidence : Dict → Evidence) where
  -- `_promote_locked`
  unfoldable pub promote_locked :
      (candidate : Value) (expected : Option String) (at : String) (required : Bool)
      (evaluation : Option Value)
      → Run (Selection × Dict)
  unfolding no_rollback candidate_matches_build check_evaluation active_state same select_deployment
      select_state repair
  promote_locked candidate expected at required evaluation = do
    no_rollback
    lift (candidate_matches_build host.digest evidence candidate)
    lift (check_evaluation required evaluation)
    state ← active_state host
    requires (same (get state "schema_version") (num 2))
        "legacy active state must be explicitly adopted before v2 promotion"
    next ← lift (as_raised (select_deployment host.digest (obj state) candidate expected at))
    select_state host candidate next
    repaired ← repair host (get (fields_of (get next.0 "current_deployment")) "deployment_id")
    return (next.1, repaired)

  -- `promote`: a `DeploymentError` becomes a `BuildError`.
  unfoldable pub promote :
      (candidate : Value) (expected : Option String) (at : String) (required : Bool)
      (evaluation : Option Value)
      → Run (Selection × Dict)
  unfolding promote_locked
  promote candidate expected at required evaluation w =
      let (after, result) = promote_locked candidate expected at required evaluation w in
      (after, in_build result)
