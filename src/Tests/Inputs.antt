-- ===== src/Tests/Inputs.antt =====
-- Tests of the result validator in src/homeops_ai/retention.py on a promoted result.
use homeops_ai.Prelude.{String, ◌≡◌, refl, true, Bool, Option, some}
use homeops_ai.Prelude.Result.{ok}
use homeops_ai.Text.{is_sha256, is_safe_id, safe_id_codes}
use homeops_ai.Text.Chars.{digits_fit, is_uuid4}
use homeops_ai.Value.{bool, str, num, Dict, end, field, get, get?, keys, has_exactly, same}
use homeops_ai.Retention.Plan.{References, no_references}
use homeops_ai.Retention.Inputs.{
  optional_sha256, required_sha256, expected_deployment_id, check_request_id, optional_run,
  validate_ready_references, parse_time, ready_result, successful_result, failed_result,
  validate_result_record, replace_z,
}
use homeops_ai.Retention.Journal.{add_identity_references}
use homeops_ai.Retention.Identity.{IsRegistered, accepted_result-IsRegistered}
use homeops_ai.Prelude.{Bool, false}

-- A parser for the tests, for which every text is a time with a zone.
abbrev parse : String → Option Bool
parse s = some true

abbrev hex : String
hex = "0123456789abcdef0123456789abcdef0123456789abcdef0123456789abcdef"

abbrev request : String
request = "01234567-89ab-4cde-8f01-23456789abcd"

abbrev promoted_result : Dict
promoted_result = field "schema_version" (num 1) (
    field "protocol" (str "homeops.receiver/v1") (
      field "request_id" (str request) (
        field "publisher_id" (str "laptop") (
          field "outcome" (str "PROMOTED") (
            field "retryable" (bool false) (
              field "candidate_deployment_id" (str hex) (
                field "expected_current_deployment_id" (str "") (
                  field "snapshot_id" (str hex) (
                    field "run_id" (str "run-1") (
                      field "release_policy_id" (str hex) (
                        field "promotion_policy_id" (str hex) (
                          field "submission_archive_sha256" (str hex)
                            (field "promoted_at" (str "2026-01-01T00:00:00Z") end)))))))))))))

accepted : validate_result_record parse "laptop" request promoted_result ≡ ok promoted_result
unfolding is_sha256 is_safe_id safe_id_codes get get? keys has_exactly same optional_sha256
    required_sha256 expected_deployment_id digits_fit is_uuid4 check_request_id optional_run
    validate_ready_references parse_time ready_result successful_result failed_result
    validate_result_record replace_z
accepted = refl

accepted_result-IsRegistered_example :
    (t : References) × (add_identity_references false promoted_result no_references ≡ ok t)
    × IsRegistered promoted_result no_references t
unfolding get get?
accepted_result-IsRegistered_example =
    accepted_result-IsRegistered parse "laptop" request promoted_result promoted_result "PROMOTED"
      no_references refl refl accepted
