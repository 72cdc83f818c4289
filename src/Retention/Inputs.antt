-- ===== src/Retention/Inputs.antt =====
-- The validators of retention.py for the parts of the pipeline's JSON records and for its result
-- records. `parse` stands for `datetime.fromisoformat`: nothing for a text that is no time, else
-- whether it has a zone.
use Prim.Native.Char.{code}
use Prim.Native.String
use homeops_ai.Prelude.{
  String, Bool, false, not, ◌&&◌, ◌||◌, Option, none, some, List, [], ◌∷◌, ◌++◌, leb, ◌==◌, str_eq,
  if◌then◌else◌, mem,
}
use homeops_ai.Prelude.Result.{Result, ok, err, ◌>>=◌, ◌>>◌, guard}
use homeops_ai.Text.{len, is_sha256, is_safe_id}
use homeops_ai.Text.Chars.{is_uuid4}
use homeops_ai.Value.{Value, null, bool, arr, str, obj, Dict, get, keys, has_exactly, same, num}

-- `type_error` is Python's own, for a list or a dict that is looked up in a set.
pub data InputError : Type 0 where
  retention_error : String → InputError
  deployment_error : String → InputError
  type_error : InputError

abbrev pub about : (subject message : String) → InputError
about subject message = retention_error (String.◌++◌ subject message)

unfoldable pub optional_sha256 : (subject : String) → Value → Result InputError (Option String)
optional_sha256 subject null = ok none
optional_sha256 subject (str s) =
    if str_eq s ""
    then ok none
    else if is_sha256 s
    then ok (some s)
    else err (about subject " is not a lowercase SHA-256")
optional_sha256 subject v = err (about subject " is not a lowercase SHA-256")

abbrev pub present : (subject : String) → Option String → Result InputError String
present subject none = err (about subject " is required")
present subject (some s) = ok s

unfoldable pub required_sha256 : (subject : String) → Value → Result InputError String
required_sha256 subject v = do checked ← optional_sha256 subject v; present subject checked

unfoldable pub expected_deployment_id :
    (subject : String) → Value → Result InputError (Option String)
expected_deployment_id subject (str s) =
    if str_eq s ""
    then ok none
    else if is_sha256 s
    then ok (some s)
    else err (about subject " must be empty or a lowercase SHA-256")
expected_deployment_id subject v = err (about subject " must be empty or a lowercase SHA-256")

unfoldable pub check_request_id : String → Result InputError (Unit {0})
check_request_id s = guard (is_uuid4 s) (about "request_id" " must be a lowercase UUIDv4")

unfoldable pub optional_run : Value → Result InputError (Option String)
optional_run null = ok none
optional_run (str s) =
    if str_eq s ""
    then ok none
    else if is_safe_id s
    then ok (some s)
    else err (deployment_error "run_id is not a safe identifier")
optional_run v = err (deployment_error "run_id is not a safe identifier")

abbrev pub terminal_outcomes : List String
terminal_outcomes =
    "UNCHANGED" ∷ "PROMOTED" ∷ "LOCAL_VAULT_INVALID" ∷ "LOCAL_SOURCE_CHANGED"
    ∷ "PROMOTED_SOURCE_MOVED" ∷ "AUTHORIZATION_FAILED" ∷ "TRANSFER_FAILED"
    ∷ "REMOTE_SNAPSHOT_INVALID" ∷ "BUILD_FAILED" ∷ "EVALUATION_FAILED" ∷ "PROMOTION_CONFLICT"
    ∷ "POST_PROMOTION_MISMATCH" ∷ "HOMEOPS_UNAVAILABLE" ∷ "TIMEOUT" ∷ "INTERNAL_ERROR" ∷ []

abbrev pub success_outcomes : List String
success_outcomes = "UNCHANGED" ∷ "PROMOTED" ∷ []

abbrev pub result_common_fields : List String
result_common_fields =
    "schema_version" ∷ "protocol" ∷ "request_id" ∷ "publisher_id" ∷ "outcome" ∷ "retryable" ∷ []

abbrev pub result_ready_fields : List String
result_ready_fields =
    "candidate_deployment_id" ∷ "expected_current_deployment_id" ∷ "snapshot_id" ∷ "run_id"
    ∷ "release_policy_id" ∷ "promotion_policy_id" ∷ []

abbrev pub ready_fields : List String
ready_fields = result_common_fields ++ result_ready_fields ++ "submission_archive_sha256" ∷ []

abbrev pub promoted_fields : List String
promoted_fields = ready_fields ++ "promoted_at" ∷ []

abbrev pub simple_failure_fields : List String
simple_failure_fields = result_common_fields ++ "diagnostic" ∷ []

abbrev pub candidate_failure_fields : List String
candidate_failure_fields = ready_fields ++ "diagnostic" ∷ []

-- A call whose value is not used.
abbrev pub checked {ℓ} : {A : Type ℓ} → Result InputError A → Result InputError (Unit {0})
checked m = m >>= λ a. ok tt

-- Checks that are made under a test.
abbrev pub checked_if : Bool → Result InputError (Unit {0}) → Result InputError (Unit {0})
checked_if test m = if test then m else ok tt

abbrev sha256_at : Dict → String → Result InputError (Unit {0})
sha256_at v k = checked (required_sha256 k (get v k))

abbrev pub run_required : Option String → Result InputError (Unit {0})
run_required none = err (retention_error "run_id is required")
run_required (some s) = ok tt

unfoldable pub validate_ready_references : Dict → Result InputError (Unit {0})
validate_ready_references v = do
  candidate ← required_sha256 "candidate_deployment_id" (get v "candidate_deployment_id")
  expected ←
      expected_deployment_id "expected_current_deployment_id"
        (get v "expected_current_deployment_id")
  snapshot ← required_sha256 "snapshot_id" (get v "snapshot_id")
  run ← optional_run (get v "run_id")
  run_required run
  sha256_at v "release_policy_id"
  sha256_at v "promotion_policy_id"

-- The tests on the protocol identity that the records share.
abbrev pub is_addressed : (publisher request : String) → Dict → Bool
is_addressed publisher request v =
    same (get v "schema_version") (num 1)
    && same (get v "protocol") (str "homeops.receiver/v1")
    && same (get v "publisher_id") (str publisher)
    && same (get v "request_id") (str request)

-- `outcome not in _TERMINAL_OUTCOMES | {"CANDIDATE_READY"}`, which hashes the value.
abbrev pub known_outcome : Value → Result InputError String
known_outcome (str s) =
    if str_eq s "CANDIDATE_READY" || mem s terminal_outcomes
    then ok s
    else err (retention_error "result outcome is unknown")
known_outcome (arr xs) = err type_error
known_outcome (obj d) = err type_error
known_outcome v = err (retention_error "result outcome is unknown")

abbrev pub flag : Value → Result InputError Bool
flag (bool b) = ok b
flag v = err (retention_error "result retryable flag is invalid")

-- `isinstance(v, str) and v and len(v) <= 500`
abbrev pub is_diagnostic : Value → Bool
is_diagnostic (str s) = not (str_eq s "") && leb (len s) 500
is_diagnostic v = false

unfoldable pub replace_z : String → String
replace_z String.[] = String.[]
replace_z (String.◌∷◌ c s) =
    let rest = replace_z s in
    if code c == b'Z' then String.◌++◌ "+00:00" rest else String.◌∷◌ c rest

module _ (parse : String → Option Bool) where
  abbrev zoned : (subject : String) → Option Bool → Result InputError (Unit {0})
  zoned subject none = err (about subject " is not an ISO-8601 timestamp")
  zoned subject (some b) = guard b (about subject " lacks a timezone")

  unfoldable pub parse_time : (subject : String) → Value → Result InputError (Unit {0})
  unfolding replace_z
  parse_time subject (str s) = do
    guard (not (str_eq s "")) (about subject " is not a timestamp")
    zoned subject (parse (replace_z s))
  parse_time subject v = err (about subject " is not a timestamp")

  unfoldable pub ready_result : Dict → (retryable : Bool) → Result InputError (Unit {0})
  ready_result v retryable = do
    guard (not retryable && has_exactly ready_fields v)
        (retention_error "candidate-ready result contract is invalid")
    validate_ready_references v
    sha256_at v "submission_archive_sha256"

  unfoldable pub successful_result :
      Dict → (outcome : String) → (retryable : Bool) → Result InputError (Unit {0})
  successful_result v outcome retryable = do
    guard
        (not retryable
          && (has_exactly promoted_fields v
              || (not (str_eq outcome "PROMOTED") && has_exactly ready_fields v)))
        (retention_error "successful result contract is invalid")
    validate_ready_references v
    sha256_at v "submission_archive_sha256"
    checked_if (mem "promoted_at" (keys v)) (parse_time "result promoted_at" (get v "promoted_at"))

  unfoldable pub failed_result : Dict → Result InputError (Unit {0})
  failed_result v = do
    guard (has_exactly simple_failure_fields v || has_exactly candidate_failure_fields v)
        (retention_error "failure result contract is invalid")
    guard (is_diagnostic (get v "diagnostic"))
        (retention_error "failure result diagnostic is invalid")
    checked_if (has_exactly candidate_failure_fields v)
        (validate_ready_references v >> sha256_at v "submission_archive_sha256")

  abbrev pub outcome_checks : Dict → String → Bool → Result InputError (Unit {0})
  outcome_checks v outcome retryable =
      if str_eq outcome "CANDIDATE_READY"
      then ready_result v retryable
      else if mem outcome success_outcomes
      then successful_result v outcome retryable
      else failed_result v

  unfoldable pub validate_result_record :
      (publisher request : String) → Dict → Result InputError Dict
  validate_result_record publisher request v = do
    guard (is_addressed publisher request v)
        (retention_error "result protocol identity disagrees with its path")
    check_request_id request
    outcome ← known_outcome (get v "outcome")
    retryable ← flag (get v "retryable")
    outcome_checks v outcome retryable
    ok v
