-- ===== src/Build/Rollback.antt =====
-- src/homeops_ai/build.py: rollback with its journal, and its recovery.
use homeops_ai.Prelude.{
  String, Bool, false, not, ◌&&◌, Option, none, some, List, [], ◌∷◌, if◌then◌else◌,
}
use homeops_ai.Prelude.Result.{Result}
use homeops_ai.Prelude.Effect.{return, ◌>>=◌, ◌>>◌, lift, branch}
use homeops_ai.Value.{
  Value, str, obj, Dict, field, end, get, insert, has_exactly, same, num, is_null, is_text,
}
use homeops_ai.Deployment.{validate_state, rollback_transition, is_dict}
use homeops_ai.Deployment.Serving.{truthy}
use homeops_ai.Pipeline.{fields_of}
use homeops_ai.Build.{
  Host, Failure, Run, write, as_build, as_raised, requires, active_state, repair,
}
use homeops_ai.Build.Candidate.{Evidence, candidate_matches_build}

abbrev journal_fields : List String
journal_fields =
    "schema_version" ∷ "operation" ∷ "source_state" ∷ "target_state" ∷ "started_at" ∷ []

abbrev pub source_of : Dict → Dict
source_of j = fields_of (get j "source_state")

abbrev pub target_of : Dict → Dict
target_of j = fields_of (get j "target_state")

abbrev pub selected : Dict → Value
selected s = get s "current_deployment"

abbrev pub before_it : Dict → Value
before_it s = get s "previous_deployment"

unfoldable pub is_journal : Dict → Bool
unfolding has_exactly same
is_journal j =
    has_exactly journal_fields j
    && same (get j "schema_version") (num 1)
    && same (get j "operation") (str "rollback")
    && is_text (get j "started_at")

-- The target is the rollback of the source at the journal's time.
unfoldable pub is_transition : (journal source target : Dict) → Bool
unfolding same insert
is_transition j source target =
    is_dict (selected source)
    && is_dict (before_it source)
    && is_dict (selected target)
    && is_dict (before_it target)
    && same (get (fields_of (selected target)) "deployment_id")
        (get (fields_of (before_it source)) "deployment_id")
    && same (selected target)
        (obj (insert "promoted_at" (get j "started_at") (fields_of (before_it source))))
    && same (before_it target) (selected source)
    && same (get (fields_of (selected target)) "promoted_at") (get j "started_at")
    && same (get target "promoted_at") (get j "started_at")

abbrev pub new_journal : (source target : Dict) → Dict
new_journal source target = field "schema_version" (num 1) (
    field "operation" (str "rollback") (
      field "source_state" (obj source)
        (field "target_state" (obj target) (field "started_at" (get target "promoted_at") end))))

-- `_clear_rollback_journal`
unfoldable pub clear_journal : Run (Unit {0})
unfolding write
clear_journal = write (λ d. record d { journal = none })

unfoldable pub select_target : (actual source target : Dict) → Run (Unit {0})
unfolding same write
select_target actual source target =
    if same (obj actual) (obj source)
    then write (λ d. record d { active = some (obj target) })
    else requires (same (obj actual) (obj target))
        "active deployment changed during rollback recovery"

module _ (host : Host) where
  abbrev state_of : Value → Result Failure Dict
  unfolding validate_state
  state_of v = as_build (validate_state host.digest false v)

  -- The checks of `_load_rollback_journal` on the file that is there
  unfoldable pub check_journal : Dict → Run (Unit {0})
  unfolding is_journal state_of is_transition
  check_journal j = do
    requires (is_journal j) "rollback transaction journal is invalid"
    source ← lift (state_of (get j "source_state"))
    target ← lift (state_of (get j "target_state"))
    requires (is_transition j source target) "rollback transaction journal transition is invalid"

  -- `_finish_rollback_locked`
  unfoldable pub finish_rollback : Dict → Run Dict
  unfolding active_state select_target repair clear_journal
  finish_rollback j = do
    actual ← active_state host
    select_target actual (source_of j) (target_of j)
    repaired ← repair host (get (fields_of (selected (target_of j))) "deployment_id")
    clear_journal
    return (target_of j)

  -- A pending rollback: its journal is checked and the rollback is finished.
  unfoldable pub finish_pending : Dict → Run Dict
  unfolding check_journal finish_rollback
  finish_pending j = check_journal j >> finish_rollback j

  -- `_write_rollback_journal`
  unfoldable pub write_journal : (source target : Dict) → Run Dict
  unfolding validate_state write
  write_journal source target = do
    checked ← lift (as_raised (validate_state host.digest false (obj source)))
    checked_target ← lift (as_raised (validate_state host.digest false (obj target)))
    let journal = new_journal checked checked_target
    write (λ d. record d { journal = some journal })
    return journal

  module _ (evidence : Dict → Evidence) (at : String) where
    abbrev legacy_target : Dict → Dict
    legacy_target state = field "schema_version" (num 1) (
        field "current" (get state "previous")
          (field "previous" (get state "current") (field "promoted_at" (str at) end)))

    -- A state of schema 1. `evidence` of the run says whether the verifier accepts it.
    unfoldable pub rollback_legacy : Dict → Run Dict
    unfolding write
    rollback_legacy state = do
      requires (truthy (get state "current") && truthy (get state "previous"))
          "rollback requires current and previous verified builds"
      requires (evidence (field "run_id" (get state "previous") end)).verified
          "the verifier does not accept the build"
      write (λ d. record d { active = some (obj (legacy_target state)) })
      return (legacy_target state)

    unfoldable pub rollback_selected : Dict → Run Dict
    unfolding candidate_matches_build rollback_transition write_journal finish_rollback
    rollback_selected state = do
      requires (same (get state "schema_version") (num 2))
          "unsupported active state schema for rollback"
      requires (not (is_null (before_it state)))
          "rollback requires current and previous verified deployments"
      lift (candidate_matches_build host.digest evidence (before_it state))
      target ← lift (as_build (rollback_transition host.digest (obj state) at))
      journal ← write_journal state target
      finish_rollback journal

    unfoldable pub rollback_fresh : Run Dict
    unfolding active_state rollback_legacy rollback_selected
    rollback_fresh = do
      state ← active_state host
      branch (same (get state "schema_version") (num 1)) (rollback_legacy state)
          (rollback_selected state)

    unfoldable pub pending_or : Option Dict → Run Dict
    unfolding finish_pending rollback_fresh
    pending_or none = rollback_fresh
    pending_or (some j) = finish_pending j

    unfoldable pub rollback : Run Dict
    unfolding pending_or
    rollback (d, plan) = pending_or d.journal (d, plan)

  unfoldable pub recovered : Dict → Run (Option Dict)
  unfolding finish_pending
  recovered j = finish_pending j >>= λ target. return (some target)

  unfoldable pub recover_or : Option Dict → Run (Option Dict)
  unfolding recovered
  recover_or none = return none
  recover_or (some j) = recovered j

  -- `recover_pending_rollback`
  unfoldable pub recover_pending_rollback : Run (Option Dict)
  unfolding recover_or
  recover_pending_rollback (d, plan) = recover_or d.journal (d, plan)
