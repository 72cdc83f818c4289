-- ===== src/Pipeline/Loading.antt =====
-- src/homeops_ai/pipeline.py: loading the pending attempt.
use homeops_ai.Prelude.{String, Bool, false, ◌||◌, Option, none, some, [], ◌∷◌}
use homeops_ai.Prelude.Result.{Result, ok, err, ◌>>=◌, ◌>>◌}
use homeops_ai.Value.{Value, str, Dict, get, same}
use homeops_ai.Pipeline.{Raised, pipeline_error, is_one_of}
use homeops_ai.Pipeline.Policy.{internal}
use homeops_ai.Pipeline.Attempt.{phase_of, validate_pending_attempt}

-- The file of the pending attempt: whether it is a private regular file, and what
-- `strict_json_loads` reads in it. `archive` is the digest of the archive if that is a private
-- regular file.
pub record PendingFiles : Type 0 where
  pub private : Bool
  pub parsed : Option Value
  pub archive : Option String

abbrev has_digest : Option String → Value → Bool
unfolding same
has_digest none v = false
has_digest (some s) v = same (str s) v

abbrev read_parsed : (digest : Value → String) → Option Value → Result Raised Dict
unfolding validate_pending_attempt
read_parsed digest none =
    err (pipeline_error "INTERNAL_ERROR" "pending attempt cannot be read" false)
read_parsed digest (some v) = validate_pending_attempt digest v

-- `_load_pending_attempt`, where the file exists
unfoldable pub load_pending_attempt : (digest : Value → String) → PendingFiles → Result Raised Dict
unfolding has_digest read_parsed
load_pending_attempt digest files = do
  internal files.private "pending attempt permissions are not private"
  checked ← read_parsed digest files.parsed
  internal
      (is_one_of ("TERMINAL" ∷ []) (phase_of checked)
        || has_digest files.archive (get checked "archive_sha256"))
      "pending submission archive is missing or invalid"
  ok checked
