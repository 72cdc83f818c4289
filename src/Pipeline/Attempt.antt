-- ===== src/Pipeline/Attempt.antt =====
-- src/homeops_ai/pipeline.py: the pending attempt, its validation, and the checks of a terminal
-- result against it. `digest` stands for `sha256_json`.
use homeops_ai.Prelude.{String, Bool, false, not, ◌&&◌, ◌||◌, List, [], ◌∷◌, if◌then◌else◌}
use homeops_ai.Prelude.Result.{Result, ok, err, ◌>>=◌, ◌>>◌, for_each}
use homeops_ai.Value.{Value, str, obj, Dict, get, insert, has_exactly, same, num, is_text, is_null}
use homeops_ai.Pipeline.{
  Raised, pipeline_error, receiver_protocol, is_one_of, is_terminal, is_object, is_digest,
  fields_of, redact_result,
}
use homeops_ai.Pipeline.Policy.{
  internal, validate_policy, validate_request_message, request_fields, pick,
}

abbrev phases : List String
phases =
    "PREPARED" ∷ "SUBMITTING" ∷ "SUBMITTED" ∷ "COMMITTING" ∷ "COMMIT_REQUESTED" ∷ "TERMINAL" ∷ []

abbrev attempt_fields : List String
attempt_fields =
    "schema_version" ∷ "protocol" ∷ "phase" ∷ "request" ∷ "snapshot" ∷ "release_policy"
    ∷ "archive_sha256" ∷ "candidate_deployment_id" ∷ "promotion_policy_id" ∷ "created_at"
    ∷ "updated_at" ∷ "terminal_result" ∷ []

abbrev snapshot_fields : List String
snapshot_fields =
    "snapshot_id" ∷ "source_fingerprint" ∷ "artifact_fingerprint" ∷ "logical_fingerprint" ∷ []

abbrev pub request_of : Dict → Dict
request_of a = fields_of (get a "request")

abbrev pub snapshot_of : Dict → Dict
snapshot_of a = fields_of (get a "snapshot")

abbrev pub policy_of : Dict → Dict
policy_of a = fields_of (get a "release_policy")

abbrev pub phase_of : Dict → Value
phase_of a = get a "phase"

-- `v is None or v` is a lowercase SHA-256
abbrev pub digest_or_null : Value → Bool
digest_or_null v = is_null v || is_digest v

abbrev pub committing : Value → Bool
committing v = is_one_of ("COMMITTING" ∷ "COMMIT_REQUESTED" ∷ []) v

-- The exception that `SnapshotError` becomes.
abbrev internally : Result Raised (Unit {0}) → Result Raised (Unit {0})
internally (ok u) = ok u
internally (err e) = err (pipeline_error "INTERNAL_ERROR" "pending request is invalid" false)

unfoldable pub terminal_agrees : (phase terminal : Value) → Bool
terminal_agrees phase terminal =
    if is_one_of ("TERMINAL" ∷ []) phase
    then is_object terminal && is_terminal (get (fields_of terminal) "outcome")
    else is_null terminal

abbrev pub redacted_terminal : Value → Value
redacted_terminal (obj t) = obj (redact_result t)
redacted_terminal v = v

-- The attempt that the checks give back.
abbrev pub checked_attempt : Dict → Dict
checked_attempt a =
    insert "request" (obj (pick request_fields (request_of a)))
      (insert "terminal_result" (redacted_terminal (get a "terminal_result")) a)

module _ (digest : Value → String) where
  -- The checks on the attempt's parts, its request as rebuilt.
  unfoldable pub check_request : (attempt request : Dict) → Result Raised (Unit {0})
  unfolding has_exactly validate_request_message validate_policy
  check_request a request = do
    internally (validate_request_message request)
    internal (is_object (get a "snapshot") && has_exactly snapshot_fields (snapshot_of a))
        "pending snapshot identity is invalid"
    for_each snapshot_fields
        (λ f. internal (is_digest (get (snapshot_of a) f)) "pending snapshot field is invalid")
    internal (same (get (snapshot_of a) "snapshot_id") (get request "snapshot_id"))
        "pending snapshot and request disagree"
    release_policy ← validate_policy (get a "release_policy")
    internal (same (get request "release_policy_id") (str (digest (obj release_policy))))
        "pending request and release policy disagree"

  -- The checks on the progress of the attempt.
  unfoldable pub check_progress : Dict → Result Raised (Unit {0})
  unfolding terminal_agrees
  check_progress a = do
    internal (is_digest (get a "archive_sha256")) "pending archive digest is invalid"
    internal (digest_or_null (get a "candidate_deployment_id"))
        "pending candidate deployment is invalid"
    internal (not (committing (phase_of a) && is_null (get a "candidate_deployment_id")))
        "pending commit lacks a candidate deployment"
    internal (digest_or_null (get a "promotion_policy_id")) "pending promotion policy is invalid"
    internal (not (committing (phase_of a) && is_null (get a "promotion_policy_id")))
        "pending commit lacks promotion policy identity"
    for_each ("created_at" ∷ "updated_at" ∷ [])
        (λ f. internal (is_text (get a f)) "pending attempt field is invalid")
    internal (terminal_agrees (phase_of a) (get a "terminal_result"))
        "pending terminal result is invalid, or of a nonterminal attempt"

  unfoldable pub check_attempt : Dict → Result Raised (Unit {0})
  unfolding has_exactly check_request check_progress
  check_attempt a = do
    internal (has_exactly attempt_fields a) "pending attempt contract is invalid"
    internal
        (same (get a "schema_version") (num 1)
          && same (get a "protocol") (str receiver_protocol)
          && is_one_of phases (phase_of a))
        "pending attempt schema is unsupported"
    internal (is_object (get a "request") && has_exactly request_fields (request_of a))
        "pending request contract is invalid"
    check_request a (pick request_fields (request_of a))
    check_progress a

  unfoldable pub validate_pending_attempt : Value → Result Raised Dict
  unfolding check_attempt
  validate_pending_attempt (obj a) = do check_attempt a; ok (checked_attempt a)
  validate_pending_attempt v =
      err (pipeline_error "INTERNAL_ERROR" "pending attempt contract is invalid" false)

-- `a is None or b == a`
abbrev null_or_same : Value → Value → Bool
null_or_same a b = is_null a || same b a

-- `_terminal_matches_attempt`
unfoldable pub terminal_matches_attempt : (terminal attempt : Dict) → Bool
terminal_matches_attempt terminal a =
    same (get terminal "snapshot_id") (get (snapshot_of a) "snapshot_id")
    && null_or_same (get a "candidate_deployment_id") (get terminal "candidate_deployment_id")
    && same (get terminal "expected_current_deployment_id")
        (get (request_of a) "expected_current_deployment_id")
    && same (get terminal "release_policy_id") (get (request_of a) "release_policy_id")
    && null_or_same (get a "promotion_policy_id") (get terminal "promotion_policy_id")

-- `_same_identity`
unfoldable pub same_identity : (first second : Dict) → Bool
same_identity first second =
    same (get first "source_fingerprint") (get second "source_fingerprint")
    && same (get first "artifact_fingerprint") (get second "artifact_fingerprint")
    && same (get first "logical_fingerprint") (get second "logical_fingerprint")
