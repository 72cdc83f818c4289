-- ===== src/Pipeline/Receiver.antt =====
-- The receiver's answers in src/homeops_ai/pipeline.py: what `SSHTransport.call` makes of the
-- finished subprocess, the exception that a rejection becomes, and the envelope of `current`. What
-- the subprocess does, and its output as text, are outside: a line is given as what
-- `strict_json_loads` reads in it, `none` where that raises.
use homeops_ai.Prelude.{
  String, Bool, true, false, ◌&&◌, ◌||◌, Option, none, some, List, [], ◌∷◌, str_eq, if◌then◌else◌,
  mem, all,
}
use homeops_ai.Prelude.Result.{Result, ok, err, ◌>>◌, guard, for_each}
use homeops_ai.Value.{Value, bool, str, obj, Dict, get, get?, keys, same, num, is_text, is_null}
use homeops_ai.Pipeline.{
  Raised, pipeline_error, transport_error, receiver_rejected, receiver_protocol, is_string,
  is_boolean, is_object, is_digest, fields_of,
}

abbrev transport : Bool → String → Result Raised (Unit {0})
transport test message = guard test (transport_error message)

abbrev boolean_if_there : Option Value → Bool
boolean_if_there none = true
boolean_if_there (some v) = is_boolean v

unfoldable pub validate_receiver_envelope : Value → Result Raised Dict
validate_receiver_envelope (obj response) = do
  transport (same (get response "schema_version") (num 1))
      "receiver response has unsupported schema version"
  transport (same (get response "protocol") (str receiver_protocol))
      "receiver response has unsupported protocol"
  transport (is_text (get response "outcome")) "receiver response lacks an outcome"
  transport (boolean_if_there (get? "retryable" response)) "receiver retryable flag is invalid"
  ok response
validate_receiver_envelope v = err (transport_error "receiver response must be an object")

-- The finished subprocess.
pub data Completed : Type 0 where
  not_run : Completed
  not_utf8 : Completed
  exited : (failed : Bool) (lines : List (Option Value)) → Completed

-- The exception that a response on a failed exit raises.
abbrev rejection : Result Raised Dict → Raised
rejection (ok response) = receiver_rejected response
rejection (err e) = e

unfoldable pub answer_of : Completed → Result Raised Dict
unfolding validate_receiver_envelope
answer_of not_run = err (transport_error "the receiver cannot be run")
answer_of not_utf8 = err (transport_error "receiver returned non-UTF-8 output")
answer_of (exited true (some v ∷ [])) = err (rejection (validate_receiver_envelope v))
answer_of (exited true lines) = err (transport_error "receiver exited")
answer_of (exited false (some v ∷ [])) = validate_receiver_envelope v
answer_of (exited false (none ∷ [])) = err (transport_error "receiver returned invalid JSON")
answer_of (exited false lines) =
    err (transport_error "receiver did not return exactly one JSON line")

-- `ReceiverRejected.outcome`
abbrev pub outcome_of : Dict → String
outcome_of response = elim (get response "outcome") [
  | str s ↦ if str_eq s "" then "INTERNAL_ERROR" else s
  | _ ↦ "INTERNAL_ERROR"
]

-- `ReceiverRejected.retryable`
abbrev pub retryable_of : Dict → Bool
retryable_of response = elim (get response "retryable") [ bool b ↦ b | _ ↦ false ]

unfoldable pub outcome_from_receiver : (outcome : String) (retryable : Bool) → String
outcome_from_receiver outcome retryable =
    if mem outcome ("NOT_FOUND" ∷ [])
    then "AUTHORIZATION_FAILED"
    else if mem outcome ("COMMIT_MISMATCH" ∷ "COMMIT_CONFLICT" ∷ [])
    then "PROMOTION_CONFLICT"
    else if mem outcome (
        "PROTOCOL_REJECTED" ∷ "INVALID_REQUEST" ∷ "REQUEST_ID_CONFLICT" ∷ "ARCHIVE_LIMIT_EXCEEDED"
        ∷ "ARCHIVE_INVALID" ∷ [])
    then "TRANSFER_FAILED"
    else if str_eq outcome "COMMIT_NOT_READY"
    then "TIMEOUT"
    else if str_eq outcome "INTERNAL_ERROR"
    then (if retryable then "HOMEOPS_UNAVAILABLE" else "INTERNAL_ERROR")
    else "INTERNAL_ERROR"

unfoldable pub pipeline_error_from_receiver : Dict → Raised
unfolding outcome_from_receiver
pipeline_error_from_receiver response =
    pipeline_error (outcome_from_receiver (outcome_of response) (retryable_of response))
      "receiver rejected request" (retryable_of response)

-- `tuple(d) == names`
abbrev pub same_names : List String → List String → Bool
same_names [] [] = true
same_names (a ∷ xs) (b ∷ ys) = str_eq a b && same_names xs ys
same_names xs ys = false

abbrev current_fields : List String
current_fields =
    "schema_version" ∷ "current_deployment_id" ∷ "snapshot_id" ∷ "run_id" ∷ "source_fingerprint"
    ∷ "artifact_fingerprint" ∷ "logical_fingerprint" ∷ "homeops_version" ∷ "source_revision"
    ∷ "image_digest" ∷ "snapshot_contract_version" ∷ "build_contract_version" ∷ "promoted_at" ∷ []

abbrev empty_or_digest : Value → Bool
empty_or_digest (str s) = str_eq s "" || is_digest (str s)
empty_or_digest v = false

-- `SSHTransport.current`, from the response to its call
unfoldable pub current_of : Dict → Result Raised Dict
unfolding keys
current_of response = do
  transport
      (same_names (keys response) ("schema_version" ∷ "protocol" ∷ "outcome" ∷ "current" ∷ [])
        && same (get response "outcome") (str "CURRENT")
        && is_object (get response "current"))
      "receiver returned an invalid current envelope"
  let current = fields_of (get response "current")
  transport
      (same_names (keys current) current_fields && same (get current "schema_version") (num 2))
      "receiver returned an invalid current deployment schema"
  for_each
      ("current_deployment_id" ∷ "snapshot_id" ∷ "source_fingerprint" ∷ "artifact_fingerprint"
        ∷ "logical_fingerprint" ∷ [])
      (λ f. transport (empty_or_digest (get current f)) "receiver current field is invalid")
  transport
      (all (λ f. is_string (get current f))
        ("run_id" ∷ "homeops_version" ∷ "source_revision" ∷ "image_digest"
          ∷ "snapshot_contract_version" ∷ "build_contract_version" ∷ "promoted_at" ∷ []))
      "receiver current metadata is invalid"
  ok current

abbrev same_unless_null : Value → Value → Bool
same_unless_null wanted v = is_null wanted || same v wanted

-- `_current_matches`; `wanted` is `null` where the caller gives no identifier.
unfoldable pub current_matches :
    (current manifest policy : Dict) (deployment_id run_id : Value) → Bool
current_matches current manifest policy deployment_id run_id =
    same_unless_null deployment_id (get current "current_deployment_id")
    && same_unless_null run_id (get current "run_id")
    && same (get current "snapshot_id") (get manifest "snapshot_id")
    && same (get current "source_fingerprint") (get manifest "source_fingerprint")
    && same (get current "artifact_fingerprint") (get manifest "artifact_fingerprint")
    && same (get current "logical_fingerprint") (get manifest "logical_fingerprint")
    && same (get current "homeops_version") (get policy "homeops_version")
    && same (get current "source_revision") (get policy "source_revision")
    && same (get current "image_digest") (get policy "image_digest")
    && same (get current "snapshot_contract_version") (str "homeops-snapshot-v1")
    && same (get current "build_contract_version") (str "homeops-build-v1")

-- The checks of `_resume_pending_attempt` on a candidate that the receiver reports.
unfoldable pub check_candidate : (request ready : Dict) → Result Raised (Unit {0})
check_candidate request ready = do
  transport (same (get ready "outcome") (str "CANDIDATE_READY"))
      "remote processor returned an invalid candidate result"
  transport (is_string (get ready "candidate_deployment_id")) "candidate result lacks deployment ID"
  transport
      (same (get ready "release_policy_id") (get request "release_policy_id")
        && is_digest (get ready "promotion_policy_id"))
      "candidate result has invalid release policy identity"
