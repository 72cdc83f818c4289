-- ===== src/Tests/Commit.antt =====
-- Tests of the commit processor of src/homeops_ai/pipeline.py: one commit, and its replay.
use homeops_ai.Prelude.{◌≤◌, ◌≡◌, refl, true, none, some, [], ◌∷◌}
use homeops_ai.Prelude.Result.{ok}
use homeops_ai.Value.{
  Value, bool, str, obj, arr, nil, Dict, end, field, num, get, has_exactly, same,
}
use homeops_ai.Text.{is_sha256, is_safe_id}
use homeops_ai.Deployment.{validate_deployment_record, checks_before, checks_after}
use homeops_ai.Pipeline.{receiver_protocol}
use homeops_ai.Pipeline.Commit.{Files, Host, promoted, check_commit}
use homeops_ai.Pipeline.CommitOnce.{visits, promotes_at_most_once}
use homeops_ai.Tests.Deployment.{record_of}

abbrev policy : Dict
policy = field "schema_version" (num 1) (
    field "homeops_version" (str "0.1.0") (
      field "source_revision" (str "abc") (
        field "image_digest" (str "sha256") (
          field "snapshot_schema_version" (num 1) (
            field "snapshot_contract_version" (str "v1") (
              field "build_schema_version" (num 1) (
                field "build_contract_version" (str "v1")
                  (field "evaluation_suite_sha256" (arr nil) end))))))))

abbrev ready : Dict
ready = field "outcome" (str "CANDIDATE_READY") (
    field "request_id" (str "request") (
      field "publisher_id" (str "workstation") (
        field "candidate_deployment_id" (str "run-1") (
          field "expected_current_deployment_id" (str "") (
            field "release_policy_id" (str "run-1")
              (field "promotion_policy_id" (str "run-1") end))))))

abbrev marker : Dict
marker = field "schema_version" (num 1) (
    field "protocol" (str receiver_protocol) (
      field "request_id" (str "request") (
        field "publisher_id" (str "workstation") (
          field "candidate_deployment_id" (str "run-1") (
            field "expected_current_deployment_id" (str "")
              (field "submission_archive_sha256" (str "archive") end))))))

abbrev files : Files
files = record {
  request_id = "request";
  publisher_id = "workstation";
  ready = ready;
  archive_sha256 = str "archive";
  marker = some (obj marker);
  canonical = true;
  deployment = obj (record_of "run-1");
  evaluation = obj (field "passed" (bool true) (field "promotion_policy_id" (str "run-1") end));
}

abbrev selected : Value
selected = obj (field "deployment_id" (str "run-1") (field "promoted_at" (str "t9") end))

abbrev host : Host
host = record {
  digest = λ v. "run-1";
  now = "t8";
  promote = λ deployment expected. promoted selected "promoted";
  active = ok selected;
  repaired = ok selected;
}

commit_is_accepted : check_commit host policy files ≡ ok tt
unfolding check_commit same get validate_deployment_record has_exactly checks_before is_safe_id
    is_sha256 checks_after
commit_is_accepted = refl

promotes_at_most_once_example :
    (visits
      (record { host = host; policy = policy; files = files }
        ∷ record { host = host; policy = policy; files = files }
        ∷ [])
      (record { journal = none; promotions = 0 })).promotions
    ≤ 1
promotes_at_most_once_example = promotes_at_most_once (
    record { host = host; policy = policy; files = files }
    ∷ record { host = host; policy = policy; files = files }
    ∷ [])
