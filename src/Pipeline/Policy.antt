-- ===== src/Pipeline/Policy.antt =====
-- src/homeops_ai/pipeline.py and snapshot.py: the checks on a promotion policy and on the request
-- that the publisher sends.
use homeops_ai.Prelude.{
  ℕ, String, Bool, true, false, not, ◌&&◌, ◌||◌, List, [], ◌∷◌, str_eq, leb, all, length, ◌==◌,
}
use homeops_ai.Prelude.Result.{Result, ok, err, ◌>>◌, guard, for_each}
use homeops_ai.Text.{codes, between, str_leb}
use homeops_ai.Text.Chars.{is_uuid4}
use homeops_ai.Value.{
  Value, str, arr, obj, Items, nil, cons, Dict, end, field, get, has_exactly, same, num, is_text,
  is_positive,
}
use homeops_ai.Pipeline.{Raised, pipeline_error, snapshot_error, receiver_protocol, is_digest}

-- `raise PipelineError("INTERNAL_ERROR", ...)` unless the test holds
abbrev pub internal : Bool → String → Result Raised (Unit {0})
internal test message = guard test (pipeline_error "INTERNAL_ERROR" message false)

abbrev snapshot : Bool → String → Result Raised (Unit {0})
snapshot test message = guard test (snapshot_error message)

abbrev policy_fields : List String
policy_fields =
    "schema_version" ∷ "homeops_version" ∷ "source_revision" ∷ "image_digest"
    ∷ "snapshot_schema_version" ∷ "snapshot_contract_version" ∷ "build_schema_version"
    ∷ "build_contract_version" ∷ "evaluation_suite_sha256" ∷ []

-- `s < t`
abbrev before : Value → Items → Bool
unfolding str_leb
before (str s) (cons (str t) ts) = str_leb s t && not (str_eq s t)
before v ts = true

-- `suites == sorted(set(suites))` for a list of digests, which are texts
unfoldable pub ascending_digests : Items → Bool
unfolding str_leb
ascending_digests nil = true
ascending_digests (cons v vs) = is_digest v && before v vs && ascending_digests vs

unfoldable pub digest_list : Value → Bool
unfolding ascending_digests
digest_list (arr suites) = ascending_digests suites
digest_list v = false

unfoldable pub validate_policy : Value → Result Raised Dict
unfolding has_exactly digest_list
validate_policy (obj policy) = do
  internal (has_exactly policy_fields policy) "promotion policy contract is invalid"
  internal (same (get policy "schema_version") (num 1)) "promotion policy schema is unsupported"
  for_each
      ("homeops_version" ∷ "source_revision" ∷ "image_digest" ∷ "snapshot_contract_version"
        ∷ "build_contract_version" ∷ [])
      (λ f. internal (is_text (get policy f)) "promotion policy field is invalid")
  for_each ("snapshot_schema_version" ∷ "build_schema_version" ∷ [])
      (λ f. internal (is_positive (get policy f)) "promotion policy field is invalid")
  internal (digest_list (get policy "evaluation_suite_sha256"))
      "promotion evaluation policy is invalid"
  ok policy
validate_policy v =
    err (pipeline_error "INTERNAL_ERROR" "promotion policy contract is invalid" false)

abbrev is_lower : ℕ → Bool
is_lower c = between b'a' b'z' c

abbrev is_publisher_char : ℕ → Bool
is_publisher_char c = is_lower c || between b'0' b'9' c || c == b'-'

unfoldable pub publisher_codes : List ℕ → Bool
publisher_codes [] = false
publisher_codes (c ∷ cs) = is_lower c && leb (length cs) 62 && all is_publisher_char cs

-- `validate_publisher_id`
unfoldable pub validate_publisher_id : Value → Result Raised (Unit {0})
unfolding publisher_codes
validate_publisher_id (str s) =
    snapshot (publisher_codes (codes s)) "publisher_id must match [a-z][a-z0-9-]{0,62}"
validate_publisher_id v = err (snapshot_error "publisher_id must match [a-z][a-z0-9-]{0,62}")

abbrev pub request_fields : List String
request_fields =
    "schema_version" ∷ "protocol" ∷ "request_id" ∷ "publisher_id" ∷ "capability_token"
    ∷ "release_policy_id" ∷ "snapshot_id" ∷ "expected_current_deployment_id"
    ∷ "snapshot_manifest_sha256" ∷ []

-- `{field: d[field] for field in fields}`
abbrev pub pick : List String → Dict → Dict
pick [] d = end
pick (f ∷ fs) d = field f (get d f) (pick fs d)

abbrev uuid4_value : Value → Bool
uuid4_value (str s) = is_uuid4 s
uuid4_value v = false

abbrev empty_or_sha256 : Value → Bool
empty_or_sha256 (str s) = str_eq s "" || is_digest (str s)
empty_or_sha256 v = false

-- `validate_request_message`, of a request whose fields are in order
unfoldable pub validate_request_message : Dict → Result Raised (Unit {0})
unfolding validate_publisher_id
validate_request_message request = do
  snapshot
      (same (get request "schema_version") (num 1)
        && same (get request "protocol") (str receiver_protocol))
      "unsupported receiver request protocol"
  snapshot (uuid4_value (get request "request_id")) "request_id must be a lowercase UUIDv4"
  validate_publisher_id (get request "publisher_id")
  for_each
      ("capability_token" ∷ "release_policy_id" ∷ "snapshot_id" ∷ "snapshot_manifest_sha256" ∷ [])
      (λ f. snapshot (is_digest (get request f)) "field must be a lowercase SHA-256")
  snapshot (empty_or_sha256 (get request "expected_current_deployment_id"))
      "expected_current_deployment_id must be empty or a lowercase SHA-256"
