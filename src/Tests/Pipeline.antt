-- ===== src/Tests/Pipeline.antt =====
-- Tests of src/homeops_ai/pipeline.py: the recovery of a prepared attempt up to its promotion.
use homeops_ai.Prelude.{
  ◌↔◌, ℕ, ◌==◌, if◌then◌else◌, String, arith, ◌≡◌, refl, true, false, none, some, List, [], ◌∷◌,
}
use homeops_ai.Prelude.Result.{ok}
use homeops_ai.Value.{
  null, bool, str, arr, obj, nil, cons, Dict, end, field, num, get, get?, insert, keys, has_exactly,
  same,
}
use homeops_ai.Text.{is_sha256}
use homeops_ai.Text.Chars.{is_uuid4, digits_fit}
use homeops_ai.Pipeline.{is_secret, receiver_protocol, redact, redact_result}
use homeops_ai.Pipeline.Redact.{redact_result_lem, clean_fields, is_private}
use homeops_ai.Pipeline.Receiver.{answer_of, check_candidate, Completed, exited}
use homeops_ai.Pipeline.Run.{World, Env, Event, works}
use homeops_ai.Pipeline.Resume.{resume_pending_attempt, poll, poll_rounds}
use homeops_ai.Prelude.Triple.{Post}
use homeops_ai.Pipeline.Safety.{IsOrderly}
use homeops_ai.Pipeline.Resolution.{
  found_pending, IsResolved, IsLeft, recovery-IsOrderly, recovery_resolves_or_retains,
}
use homeops_ai.Pipeline.Attempt.{checked_attempt}
use homeops_ai.Pipeline.Loading.{PendingFiles, load_pending_attempt}
use homeops_ai.Pipeline.Reconcile.{reconcile_pending}
use homeops_ai.Pipeline.Reported.{IsReported, IsStanding, reconcile-IsReported}
use homeops_ai.Pipeline.Polling.{poll-poll_rounds}
use homeops_ai.Prelude.{◌-◌}
use homeops_ai.Pipeline.Fresh.{Draft, begin_fresh, first_attempt-IsOrderly}

abbrev hex : String
hex = "0123456789abcdef0123456789abcdef0123456789abcdef0123456789abcdef"

abbrev uuid : String
uuid = "01234567-89ab-4def-8123-456789abcdef"

abbrev release : Dict
release = field "schema_version" (num 1) (
    field "homeops_version" (str "1.0") (
      field "source_revision" (str "r1") (
        field "image_digest" (str "sha256:i") (
          field "snapshot_schema_version" (num 1) (
            field "snapshot_contract_version" (str "homeops-snapshot-v1") (
              field "build_schema_version" (num 1) (
                field "build_contract_version" (str "homeops-build-v1")
                  (field "evaluation_suite_sha256" (arr nil) end))))))))

abbrev source : Dict
source = field "snapshot_id" (str hex) (
    field "source_fingerprint" (str hex)
      (field "artifact_fingerprint" (str hex) (field "logical_fingerprint" (str hex) end)))

abbrev request : Dict
request = field "schema_version" (num 1) (
    field "protocol" (str receiver_protocol) (
      field "request_id" (str uuid) (
        field "publisher_id" (str "workstation") (
          field "capability_token" (str hex) (
            field "release_policy_id" (str hex) (
              field "snapshot_id" (str hex) (
                field "expected_current_deployment_id" (str "")
                  (field "snapshot_manifest_sha256" (str hex) end))))))))

abbrev prepared : Dict
prepared = field "schema_version" (num 1) (
    field "protocol" (str receiver_protocol) (
      field "phase" (str "PREPARED") (
        field "request" (obj request) (
          field "snapshot" (obj source) (
            field "release_policy" (obj release) (
              field "archive_sha256" (str hex) (
                field "candidate_deployment_id" null (
                  field "promotion_policy_id" null (
                    field "created_at" (str "t0")
                      (field "updated_at" (str "t0") (field "terminal_result" null end)))))))))))

abbrev envelope : String → Dict → Completed
envelope outcome rest = exited false (
    some (
      obj (
        field "schema_version" (num 1)
          (field "protocol" (str receiver_protocol) (field "outcome" (str outcome) rest))))
    ∷ [])

abbrev accepted : Completed
accepted =
    envelope "ACCEPTED" (field "request_id" (str uuid) (field "archive_sha256" (str hex) end))

abbrev result : String → Dict
result outcome = field "schema_version" (num 1) (
    field "protocol" (str receiver_protocol) (
      field "request_id" (str uuid) (
        field "publisher_id" (str "workstation") (
          field "outcome" (str outcome) (
            field "retryable" (bool false) (
              field "snapshot_id" (str hex) (
                field "candidate_deployment_id" (str hex) (
                  field "expected_current_deployment_id" (str "") (
                    field "release_policy_id" (str hex) (
                      field "promotion_policy_id" (str hex)
                        (field "run_id" (str "run") end)))))))))))

abbrev status : String → Completed
status outcome = envelope "RESULT" (
    field "request_id" (str uuid)
      (field "commit_accepted" (bool false) (field "result" (obj (result outcome)) end)))

abbrev commit_accepted : Completed
commit_accepted = envelope "COMMIT_ACCEPTED" (field "request_id" (str uuid) end)

abbrev current_of_id : String → Completed
current_of_id id = envelope "CURRENT" (
    field "current"
      (obj (
        field "schema_version" (num 2) (
          field "current_deployment_id" (str id) (
            field "snapshot_id" (str id) (
              field "run_id" (str "run") (
                field "source_fingerprint" (str hex) (
                  field "artifact_fingerprint" (str hex) (
                    field "logical_fingerprint" (str hex) (
                      field "homeops_version" (str "1.0") (
                        field "source_revision" (str "r1") (
                          field "image_digest" (str "sha256:i") (
                            field "snapshot_contract_version" (str "homeops-snapshot-v1") (
                              field "build_contract_version" (str "homeops-build-v1")
                                (field "promoted_at" (str "t9") end))))))))))))))
      end)

abbrev selected : Completed
selected = current_of_id hex

-- The answers by the length of the log.
abbrev answers : ℕ → Completed
answers n =
    if n == 3
    then accepted
    else if n == 5
    then status "CANDIDATE_READY"
    else if n == 8
    then status "CANDIDATE_READY"
    else if n == 10
    then commit_accepted
    else if n == 12
    then status "PROMOTED"
    else if n == 13
    then selected
    else Completed.not_run

abbrev env : Env
env = record {
  digest = λ v. hex;
  receiver = answers;
  vault = λ n. ok (record { clean = true; identity = source });
  clock = λ n. "t1";
  monotonic = λ n. n;
  deadline = 99;
  disk = λ n. works;
  close = ok tt;
}

abbrev names : List Event → List String
names [] = []
names (Event.journaled a ∷ log) = "journaled" ∷ names log
names (Event.recorded r ∷ log) = "recorded" ∷ names log
names (Event.archived d ∷ log) = "archived" ∷ names log
names (Event.archive_removed ∷ log) = "removed" ∷ names log
names (Event.retired ∷ log) = "retired" ∷ names log
names (Event.flushed ∷ log) = "flushed" ∷ names log
names (Event.failed ∷ log) = "failed" ∷ names log
names (Event.inspected m ∷ log) = "inspected" ∷ names log
names (Event.submitted a ∷ log) = "submitted" ∷ names log
names (Event.polled b ∷ log) = "polled" ∷ names log
names (Event.committed b ∷ log) = "committed" ∷ names log
names (Event.asked_current ∷ log) = "asked" ∷ names log

abbrev secret : Dict
secret = field "outcome" (str "PROMOTED") (
    field "capability_token" (str hex)
      (field "inner" (arr (cons (obj (field "_path" (str "/x") end)) nil)) end))

-- A prepared attempt is submitted, built, committed and promoted; the newest event is first.
recovered_log :
    names
      (resume_pending_attempt env release prepared (found_pending prepared (some "tar") none)).0.log
    ≡ "flushed" ∷ "retired" ∷ "removed" ∷ "recorded" ∷ "journaled" ∷ "inspected" ∷ "asked"
      ∷ "polled" ∷ "journaled" ∷ "committed" ∷ "inspected" ∷ "polled" ∷ "journaled" ∷ "inspected"
      ∷ "polled" ∷ "journaled" ∷ "submitted" ∷ "journaled" ∷ "inspected" ∷ "journaled" ∷ []
unfolding resume_pending_attempt get get? insert keys has_exactly same is_uuid4 digits_fit is_sha256
    answer_of check_candidate is_secret
recovered_log = refl

redact_result_lem_example :
    (clean_fields (redact_result secret) ≡ true)
    × ((k : String) → is_private k ≡ false → get (redact_result secret) k ≡ redact (get secret k))
    × ((redact_result secret ≡ secret) ↔ (clean_fields secret ≡ true))
redact_result_lem_example = redact_result_lem secret

recovery-IsOrderly_example :
    IsOrderly release
      (resume_pending_attempt env release prepared (found_pending prepared (some "tar") none)).0.log
recovery-IsOrderly_example = recovery-IsOrderly env release prepared (some "tar") none

recovery_resolves_or_retains_example :
    Post IsResolved
      (IsLeft prepared (some "tar"))
      (resume_pending_attempt env release prepared (found_pending prepared (some "tar") none))
recovery_resolves_or_retains_example =
    recovery_resolves_or_retains env release prepared (some "tar") none

poll-poll_rounds_example :
    poll_rounds env request true 99 (found_pending prepared (some "tar") none)
    ≡ poll env request true (found_pending prepared (some "tar") none)
poll-poll_rounds_example =
    poll-poll_rounds env request true (found_pending prepared (some "tar") none) 99
      (λ k. omega arith) (omega arith)

abbrev pending_files : PendingFiles
pending_files = record { private = true; parsed = some (obj prepared); archive = some hex }

-- The attempt as its validation gives it back.
abbrev loaded : Dict
unfolding insert
loaded = checked_attempt prepared

pending_files_load : load_pending_attempt env.digest pending_files ≡ ok loaded
unfolding load_pending_attempt get is_uuid4 digits_fit is_sha256 insert
pending_files_load = refl

reconcile-IsReported_example : Post (IsReported loaded (some hex)) (IsStanding loaded (some hex)) (
    reconcile_pending env
      (λ e. "failure")
      "workstation"
      release
      pending_files
      (found_pending loaded (some hex) none))
reconcile-IsReported_example =
    reconcile-IsReported env (λ e. "failure") "workstation" release loaded (some hex) none
      pending_files pending_files_load

-- A first attempt, from the export to the promotion.
abbrev draft : Draft
draft = record {
  request_id = uuid;
  publisher_id = "workstation";
  capability = hex;
  manifest_sha256 = hex;
  archive_sha256 = hex;
  exported = ok source;
}

-- Nothing is selected when the first attempt asks.
abbrev first_env : Env
first_env = record env { receiver = λ n. if n == 0 then current_of_id "" else answers (n - 2) }

abbrev nothing_pending : World
nothing_pending = record { attempt = none; archive = none; last_result = none; log = [] }

first_attempt_log :
    names (begin_fresh first_env draft release nothing_pending).0.log
    ≡ "flushed" ∷ "retired" ∷ "removed" ∷ "recorded" ∷ "journaled" ∷ "inspected" ∷ "asked"
      ∷ "polled" ∷ "journaled" ∷ "committed" ∷ "inspected" ∷ "polled" ∷ "journaled" ∷ "inspected"
      ∷ "polled" ∷ "journaled" ∷ "submitted" ∷ "journaled" ∷ "inspected" ∷ "journaled" ∷ "archived"
      ∷ "asked" ∷ []
unfolding begin_fresh same get is_sha256 is_uuid4 digits_fit is_secret
first_attempt_log = refl

first_attempt-IsOrderly_example :
    IsOrderly release (begin_fresh first_env draft release nothing_pending).0.log
first_attempt-IsOrderly_example =
    first_attempt-IsOrderly first_env draft release nothing_pending refl
