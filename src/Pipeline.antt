-- ===== src/Pipeline.antt =====
-- src/homeops_ai/pipeline.py, the publisher's side: the exceptions, the results without capability
-- material, the messages of the receiver, and the pending attempt that a run recovers. The texts of
-- the exceptions are those of the code without the values that it interpolates. A value that Python
-- cannot hash or order raises `TypeError` where the model's test fails with the code's own exception.
pub mod Redact
pub mod Receiver
pub mod Policy
pub mod Attempt
pub mod Run
pub mod Resume
pub mod Safety
pub mod Updates
pub mod Steps
pub mod Recovery
pub mod Phases
pub mod Resolution
pub mod Commit
pub mod CommitOnce
pub mod Reconcile
pub mod Ending
pub mod Loading
pub mod Polling
pub mod Reported
pub mod Fresh
use homeops_ai.Deployment.{Error as DeploymentError}
use homeops_ai.Prelude.{
  String, Bool, true, false, not, ◌&&◌, ◌||◌, Option, none, some, List, [], ◌∷◌, str_eq,
  if◌then◌else◌, mem,
}
use homeops_ai.Prelude.Result.{Result, ok, err, ◌>>=◌, ◌>>◌, guard}
use homeops_ai.Text.{codes, starts_codes, is_sha256}
use homeops_ai.Value.{
  Value, null, bool, int, str, arr, obj, Items, nil, cons, Dict, end, field, get, keys, same,
}

pub data Raised : Type 0 where
  pipeline_error : (outcome message : String) (retryable : Bool) → Raised
  transport_error : (message : String) → Raised
  receiver_rejected : (response : Dict) → Raised
  snapshot_error : (message : String) → Raised
  deployment_failed : DeploymentError → Raised
  os_failure : Raised

abbrev pub receiver_protocol : String
receiver_protocol = "homeops.receiver/v1"

abbrev pub terminal_outcomes : List String
terminal_outcomes =
    "UNCHANGED" ∷ "PROMOTED" ∷ "LOCAL_VAULT_INVALID" ∷ "LOCAL_SOURCE_CHANGED"
    ∷ "PROMOTED_SOURCE_MOVED" ∷ "AUTHORIZATION_FAILED" ∷ "TRANSFER_FAILED"
    ∷ "REMOTE_SNAPSHOT_INVALID" ∷ "BUILD_FAILED" ∷ "EVALUATION_FAILED" ∷ "PROMOTION_CONFLICT"
    ∷ "POST_PROMOTION_MISMATCH" ∷ "HOMEOPS_UNAVAILABLE" ∷ "TIMEOUT" ∷ "INTERNAL_ERROR" ∷ []

-- `v in names`
abbrev pub is_one_of : List String → Value → Bool
is_one_of names (str s) = mem s names
is_one_of names v = false

abbrev pub is_terminal : Value → Bool
is_terminal v = is_one_of terminal_outcomes v

abbrev pub is_string : Value → Bool
is_string (str s) = true
is_string v = false

abbrev pub is_boolean : Value → Bool
is_boolean (bool b) = true
is_boolean v = false

abbrev pub is_object : Value → Bool
is_object (obj d) = true
is_object v = false

-- The dict of a value that is known to be one.
abbrev pub fields_of : Value → Dict
fields_of (obj d) = d
fields_of v = end

-- A lowercase SHA-256.
abbrev pub is_digest : Value → Bool
is_digest (str s) = is_sha256 s
is_digest v = false

-- Is a key one that a result shown to the user must not have?
unfoldable pub is_secret : String → Bool
is_secret k =
    str_eq k "capability_token"
    || str_eq k "capability_sha256"
    || starts_codes (codes "_") (codes k)

unfoldable mutual
  pub redact : Value → Value
  redact (arr xs) = arr (redact_items xs)
  redact (obj d) = obj (redact_fields d)
  redact v = v

  pub redact_items : Items → Items
  redact_items nil = nil
  redact_items (cons x xs) = cons (redact x) (redact_items xs)

  pub redact_fields : Dict → Dict
  redact_fields end = end
  redact_fields (field k v d) =
      let rest = redact_fields d in if is_secret k then rest else field k (redact v) rest

-- `_redact_result`, whose argument is a dict.
abbrev pub redact_result : Dict → Dict
redact_result d = redact_fields d
