-- ===== src/Tests/Deployment.antt =====
-- Tests of src/homeops_ai/deployment.py on three records whose digest is their run identifier.
use homeops_ai.Prelude.{String, ◌≡◌, refl, ◌≢◌, none, arith, eq_iff}
use homeops_ai.Prelude.Result.{ok, err, ◌>>=◌}
use homeops_ai.Text.{is_sha256, is_safe_id}
use homeops_ai.Value.{
  Value, null, str, obj, num, Dict, end, field, get?, get, insert, keys, has_exactly, same,
}
use homeops_ai.Deployment.{
  promotion_conflict, promoted, checks_before, checks_after, deployment_identity,
  validate_deployment_record, validate_state, v2_state, check_current, check_previous,
  validate_safe_id, next_state, promote_at, select_deployment, rollback_transition, empty_state,
}
use homeops_ai.Deployment.Transitions.{
  IsStateOf, select_deployment_lem, selection-branches, IsSwitch, second_promotion_conflicts,
  rollback_transition_lem, rollback_twice,
}
use homeops_ai.Prelude.{[], some}
use homeops_ai.Deployment.Serving.{active, deployment_for_run, deployment_for_run-current}
use homeops_ai.Deployment.Reachable.{Step, Reach, Reach-selected}

abbrev text : Value → String
text (str s) = s
text v = ""

-- A digest for the tests: the run identifier.
abbrev pub digest : Value → String
digest (obj d) = text (get d "run_id")
digest v = ""

abbrev pub hex : String
hex = "0123456789abcdef0123456789abcdef0123456789abcdef0123456789abcdef"

abbrev pub record_of : String → Dict
record_of run = field "deployment_schema_version" (num 2) (
    field "deployment_contract_version" (str "homeops-deployment-v2") (
      field "deployment_id" (str run) (
        field "snapshot_id" (str hex) (
          field "run_id" (str run) (
            field "source_fingerprint" (str hex) (
              field "artifact_fingerprint" (str hex) (
                field "logical_fingerprint" (str hex) (
                  field "snapshot_created_at" (str "t0") (
                    field "snapshot_received_at" (str "t1") (
                      field "build_completed_at" (str "t2") (
                        field "build_verified_at" (str "t3") (
                          field "promoted_at" null (
                            field "homeops_version" (str "0.1.0") (
                              field "source_revision" (str "abc") (
                                field "image_digest" (str "sha256") (
                                  field "snapshot_schema_version" (num 1) (
                                    field "snapshot_contract_version" (str "v1") (
                                      field "build_schema_version" (num 1) (
                                        field "build_contract_version" (str "v1")
                                          (field "result" (str "verified") end))))))))))))))))))))

abbrev pub one : Dict
one = record_of "run-1"

abbrev pub two : Dict
two = record_of "run-2"

abbrev after_one : Dict
after_one = next_state (promote_at "now" one) null "now"

one_is_accepted : validate_deployment_record digest (obj one) ≡ ok one
unfolding validate_state validate_deployment_record checks_before checks_after deployment_identity
    validate_safe_id get? get insert keys has_exactly same is_sha256 is_safe_id check_current
    check_previous v2_state
one_is_accepted = refl

two_is_accepted : validate_deployment_record digest (obj two) ≡ ok two
unfolding validate_state validate_deployment_record checks_before checks_after deployment_identity
    validate_safe_id get? get insert keys has_exactly same is_sha256 is_safe_id check_current
    check_previous v2_state
two_is_accepted = refl

empty_is_accepted : IsStateOf digest empty_state
unfolding validate_state validate_deployment_record checks_before checks_after deployment_identity
    validate_safe_id get? get insert keys has_exactly same is_sha256 is_safe_id check_current
    check_previous v2_state
empty_is_accepted = refl

after_one_is_accepted : IsStateOf digest after_one
unfolding validate_state validate_deployment_record checks_before checks_after deployment_identity
    validate_safe_id get? get insert keys has_exactly same is_sha256 is_safe_id check_current
    check_previous v2_state
after_one_is_accepted = refl

pub now_not_empty : ◌≢◌ {A = String} "now" ""
now_not_empty = ground (arith, eq_iff "now" "")

later_not_empty : ◌≢◌ {A = String} "later" ""
later_not_empty = ground (arith, eq_iff "later" "")

-- The first promotion, the second one, and the state after both.
abbrev pub after_two : Dict
after_two = next_state (promote_at "later" two) (obj (promote_at "now" one)) "later"

pub after_two_is_accepted : IsStateOf digest after_two
unfolding validate_state validate_deployment_record checks_before checks_after deployment_identity
    validate_safe_id get? get insert keys has_exactly same is_sha256 is_safe_id check_current
    check_previous v2_state
after_two_is_accepted = refl

first_promotion :
    select_deployment digest (obj empty_state) (obj one) none "now" ≡ ok (after_one, promoted)
unfolding get? get same
first_promotion =
    selection-branches digest empty_state one none "now" empty_is_accepted one_is_accepted
      now_not_empty

select_deployment_lem_example :
    (t : Dict) × ((select_deployment digest (obj after_one) (obj two) (some "run-1") "later"
        ≡ ok (t, promoted))
      × IsSwitch (obj (promote_at "now" one)) two "later" t)
unfolding get? get same insert
select_deployment_lem_example =
    select_deployment_lem digest after_one two (some "run-1") "later" after_one_is_accepted
      two_is_accepted later_not_empty

second_promotion_conflicts_example :
    (select_deployment digest (obj empty_state) (obj one) none "now" >>= λ r.
    select_deployment digest (obj r.0) (obj two) none "later")
    ≡ err (promotion_conflict "active deployment changed")
unfolding get? get same
second_promotion_conflicts_example =
    second_promotion_conflicts digest empty_state one two none "now" "later" empty_is_accepted
      one_is_accepted two_is_accepted now_not_empty later_not_empty refl refl refl refl

rollback_transition_lem_example :
    (t : Dict) × ((rollback_transition digest (obj after_two) "now" ≡ ok t)
      × IsSwitch (obj (promote_at "later" two)) (promote_at "now" one) "now" t)
unfolding get? get
rollback_transition_lem_example =
    rollback_transition_lem digest after_two "now" after_two_is_accepted now_not_empty

rollback_twice_example :
    ((rollback_transition digest (obj after_two) "now" >>= λ t.
    rollback_transition digest (obj t) "later")
      ≡ ok (
          next_state
            (promote_at "later" (promote_at "later" two))
            (obj (promote_at "now" (promote_at "now" one)))
            "later"))
    × (deployment_identity (get (promote_at "later" (promote_at "later" two)))
        ≡ deployment_identity (get (promote_at "later" two)))
    × (deployment_identity (get (promote_at "now" (promote_at "now" one)))
        ≡ deployment_identity (get (promote_at "now" one)))
unfolding get? get
rollback_twice_example =
    rollback_twice digest after_two (promote_at "later" two) (promote_at "now" one) "now" "later"
      after_two_is_accepted now_not_empty later_not_empty refl refl

Reach-selected_example :
    IsStateOf digest after_one
    × (get (promote_at "now" one) "deployment_id"
        ≡ str (digest (obj (deployment_identity (get (promote_at "now" one))))))
unfolding get? get
Reach-selected_example =
    Reach-selected digest empty_state after_one (promote_at "now" one) empty_is_accepted
      (Reach.next Reach.here (Step.select (obj one) none "now" promoted first_promotion)) refl

shown : get after_one "current_deployment" ≡ obj (promote_at "now" one)
unfolding get? get
shown = refl

deployment_for_run-current_example :
    (run : String) × (get (promote_at "now" one) "run_id" ≡ str run)
    × (deployment_for_run digest after_one [] (λ id. []) none
        ≡ ok (some (promote_at "now" one), active, run))
deployment_for_run-current_example =
    deployment_for_run-current digest after_one (promote_at "now" one) [] (λ id. [])
      after_one_is_accepted shown
