-- ===== src/Deployment.antt =====
-- src/homeops_ai/deployment.py: the immutable deployment records, the schema-v2 active state, and
-- its two pure transitions, promotion by compare-and-swap and rollback. A record and a state are
-- the dicts that the code handles. `deepcopy` gives an equal value, so the model returns the dict.
-- `digest` stands for `sha256_json`: hashlib over the canonical encoding of a value. The texts of
-- the exceptions are those of the code without the values that it interpolates.
pub mod Records
pub mod States
pub mod Transitions
pub mod Reachable
pub mod Serving
use homeops_ai.Prelude.{
  String, Bool, true, false, not, ◌&&◌, ◌||◌, Option, none, some, List, [], ◌∷◌, ◌==◌, str_eq,
  if◌then◌else◌,
}
use homeops_ai.Prelude.Result.{Result, ok, err, ◌>>=◌, ◌>>◌, guard, for_each}
use homeops_ai.Text.{is_sha256, is_safe_id}
use homeops_ai.Value.{
  Value, null, str, obj, Dict, end, field, get, insert, has_exactly, has_only, same, num, is_null,
  is_text, is_positive,
}

pub data Error : Type 0 where
  deployment_error : String → Error
  promotion_conflict : String → Error

abbrev pub require : Bool → String → Result Error (Unit {0})
require test message = guard test (deployment_error message)

abbrev safe_id_value : Value → Bool
safe_id_value (str s) = is_safe_id s
safe_id_value _ = false

unfoldable pub validate_safe_id : Value → Result Error (Unit {0})
validate_safe_id v = require (safe_id_value v) "not a safe identifier"

abbrev sha256_value : Value → Bool
sha256_value (str s) = is_sha256 s
sha256_value _ = false

abbrev pub record_fields : List String
record_fields =
    "deployment_schema_version" ∷ "deployment_contract_version" ∷ "deployment_id" ∷ "snapshot_id"
    ∷ "run_id" ∷ "source_fingerprint" ∷ "artifact_fingerprint" ∷ "logical_fingerprint"
    ∷ "snapshot_created_at" ∷ "snapshot_received_at" ∷ "build_completed_at" ∷ "build_verified_at"
    ∷ "promoted_at" ∷ "homeops_version" ∷ "source_revision" ∷ "image_digest"
    ∷ "snapshot_schema_version" ∷ "snapshot_contract_version" ∷ "build_schema_version"
    ∷ "build_contract_version" ∷ "result" ∷ []

-- The identity of the record whose values `g` gives.
unfoldable pub deployment_identity : (String → Value) → Dict
deployment_identity g = field "deployment_contract_version" (g "deployment_contract_version") (
    field "snapshot_id" (g "snapshot_id") (
      field "run_id" (g "run_id") (
        field "source_fingerprint" (g "source_fingerprint") (
          field "artifact_fingerprint" (g "artifact_fingerprint") (
            field "logical_fingerprint" (g "logical_fingerprint") (
              field "homeops_version" (g "homeops_version") (
                field "source_revision" (g "source_revision") (
                  field "image_digest" (g "image_digest") (
                    field "snapshot_schema_version" (g "snapshot_schema_version") (
                      field "snapshot_contract_version" (g "snapshot_contract_version") (
                        field "build_schema_version" (g "build_schema_version") (
                          field "build_contract_version" (g "build_contract_version")
                            end))))))))))))

abbrev pub promoted_at_ok : Value → Bool
promoted_at_ok v = is_null v || is_text v

module _ (digest : Value → String) where
  -- The checks on the record's values that precede the one on `promoted_at`.
  unfoldable pub checks_before : (String → Value) → Result Error (Unit {0})
  unfolding validate_safe_id
  checks_before g = do
    require (same (g "deployment_schema_version") (num 2)) "unsupported deployment schema version"
    require (same (g "deployment_contract_version") (str "homeops-deployment-v2"))
        "unsupported deployment contract version"
    for_each ("deployment_id" ∷ "snapshot_id" ∷ "run_id" ∷ []) (λ f. validate_safe_id (g f))
    for_each ("source_fingerprint" ∷ "artifact_fingerprint" ∷ "logical_fingerprint" ∷ []) (λ f.
        require (is_text (g f)) "deployment field must be a non-empty string"
        >> require (sha256_value (g f)) "deployment field must be a lowercase SHA-256")
    for_each
        ("snapshot_created_at" ∷ "snapshot_received_at" ∷ "build_completed_at" ∷ "build_verified_at"
          ∷ "homeops_version" ∷ "source_revision" ∷ "image_digest" ∷ "snapshot_contract_version"
          ∷ "build_contract_version" ∷ [])
        (λ f. require (is_text (g f)) "deployment field must be a non-empty string")

  -- The checks that follow it.
  unfoldable pub checks_after : (String → Value) → Result Error (Unit {0})
  checks_after g = do
    for_each ("snapshot_schema_version" ∷ "build_schema_version" ∷ [])
        (λ f. require (is_positive (g f)) "deployment field must be a positive integer")
    require (same (g "result") (str "verified")) "only verified deployments may be selected"
    require (same (g "deployment_id") (str (digest (obj (deployment_identity g)))))
        "deployment_id does not match deployment identity"

  unfoldable pub validate_deployment_record : Value → Result Error Dict
  validate_deployment_record (obj r) = do
    let g = get r
    require (has_exactly record_fields r) "invalid deployment record fields"
    checks_before g
    require (promoted_at_ok (g "promoted_at")) "deployment field must be a non-empty string"
    checks_after g
    ok r
  validate_deployment_record _ = err (deployment_error "deployment record must be an object")

  -- Bind a verified build to the snapshot from which it was built. `snapshot` and `build` are
  -- manifests; `validate_deployment_record` refuses the null that the model reads for a missing
  -- key, where Python raises `KeyError`.
  create_deployment_record :
      (snapshot build : Dict) (received version revision image : String) (promoted_at : Value)
      → Result Error Dict
  unfolding validate_deployment_record
  create_deployment_record snapshot build received version revision image promoted_at = do
    for_each ("source_fingerprint" ∷ "artifact_fingerprint" ∷ "logical_fingerprint" ∷ [])
        (λ f. require (same (get snapshot f) (get build f)) "snapshot/build mismatch")
    require (same (get build "result") (str "verified")) "candidate build is not verified"
    let pending = field "deployment_schema_version" (num 2) (
        field "deployment_contract_version" (str "homeops-deployment-v2") (
          field "deployment_id" (str "pending") (
            field "snapshot_id" (get snapshot "snapshot_id") (
              field "run_id" (get build "run_id") (
                field "source_fingerprint" (get snapshot "source_fingerprint") (
                  field "artifact_fingerprint" (get snapshot "artifact_fingerprint") (
                    field "logical_fingerprint" (get snapshot "logical_fingerprint") (
                      field "snapshot_created_at" (get snapshot "created_at") (
                        field "snapshot_received_at" (str received) (
                          field "build_completed_at" (get build "completed_at") (
                            field "build_verified_at" (get build "verified_at") (
                              field "promoted_at" promoted_at (
                                field "homeops_version" (str version) (
                                  field "source_revision" (str revision) (
                                    field "image_digest" (str image) (
                                      field "snapshot_schema_version"
                                        (get snapshot "schema_version")
                                        (field "snapshot_contract_version"
                                          (get snapshot "snapshot_contract_version")
                                          (field "build_schema_version" (get build "schema_version")
                                            (field "build_contract_version"
                                              (get build "build_contract_version")
                                              (field "result" (str "verified")
                                                end))))))))))))))))))))
    validate_deployment_record (
        obj
          (insert "deployment_id" (str (digest (obj (deployment_identity (get pending))))) pending))

abbrev pub empty_state : Dict
empty_state = field "schema_version" (num 2) (
    field "current" null (
      field "previous" null (
        field "current_deployment" null
          (field "previous_deployment" null (field "promoted_at" null end)))))

abbrev pub state_fields : List String
state_fields =
    "schema_version" ∷ "current" ∷ "previous" ∷ "current_deployment" ∷ "previous_deployment"
    ∷ "promoted_at" ∷ []

abbrev pub is_str : Value → Bool
is_str (str s) = true
is_str _ = false

-- A schema-v1 state: run identifiers only.
pub legacy_state : Dict → Result Error Dict
legacy_state s = do
  require (has_only ("schema_version" ∷ "current" ∷ "previous" ∷ "promoted_at" ∷ []) s)
      "legacy active state has unknown fields"
  for_each ("current" ∷ "previous" ∷ [])
      (λ f. if is_null (get s f) then ok tt else validate_safe_id (get s f))
  ok s

module _ (digest : Value → String) where
  unfoldable pub check_current :
      (selected run previous previous_run : Value) → Result Error (Unit {0})
  check_current null run previous previous_run =
      require (is_null run && is_null previous && is_null previous_run)
        "empty active state contains a selected deployment"
  check_current selected run previous previous_run = do
    checked ← validate_deployment_record digest selected
    require (same run (get checked "run_id"))
        "legacy current run ID disagrees with current deployment"

  unfoldable pub check_previous : (selected run : Value) → Result Error (Unit {0})
  check_previous null run = require (is_null run) "previous run ID has no previous deployment"
  check_previous selected run = do
    checked ← validate_deployment_record digest selected
    require (same run (get checked "run_id"))
        "legacy previous run ID disagrees with previous deployment"

  unfoldable pub v2_state : Dict → Result Error Dict
  v2_state s = do
    require (has_exactly state_fields s) "schema-v2 active state has missing or unknown fields"
    check_current (get s "current_deployment") (get s "current") (get s "previous_deployment")
        (get s "previous")
    check_previous (get s "previous_deployment") (get s "previous")
    require (is_null (get s "promoted_at") || is_str (get s "promoted_at"))
        "active promoted_at must be a string or null"
    ok s

  unfoldable pub validate_state : (allow_legacy : Bool) → Value → Result Error Dict
  validate_state allow_legacy (obj s) =
      if same (get s "schema_version") (num 1) && allow_legacy then legacy_state s else do
        require (same (get s "schema_version") (num 2))
            "unsupported active deployment schema version"
        v2_state s
  validate_state allow_legacy _ = err (deployment_error "active deployment state must be an object")

pub data Selection : Type 0 where
  unchanged promoted : Selection

abbrev pub or_none : Option String → Value
or_none none = null
or_none (some s) = str s

-- `current["deployment_id"] if current else None`
abbrev pub id_of : Value → Value
id_of (obj r) = get r "deployment_id"
id_of _ = null

abbrev pub is_dict : Value → Bool
is_dict (obj r) = true
is_dict _ = false

-- `current["run_id"] if current else None`
abbrev pub run_of : Value → Value
run_of (obj r) = get r "run_id"
run_of _ = null

abbrev pub next_state : Dict → Value → String → Dict
next_state selected previous at = field "schema_version" (num 2) (
    field "current" (get selected "run_id") (
      field "previous" (run_of previous) (
        field "current_deployment" (obj selected)
          (field "previous_deployment" previous (field "promoted_at" (str at) end)))))

-- The record `deployment["promoted_at"] = at` of a copy.
abbrev pub promote_at : String → Dict → Dict
promote_at at r = insert "promoted_at" (str at) r

module _ (digest : Value → String) where
  -- The choice that `select_deployment` makes over a checked state and a checked record.
  unfoldable pub select_checked :
      (selected checked : Dict) (expected : Option String) (at : String)
      → Result Error (Dict × Selection)
  select_checked selected checked expected at =
      let current = get selected "current_deployment" in
      if is_dict current && same (id_of current) (get checked "deployment_id")
      then ok (selected, unchanged)
      else do
        guard (same (id_of current) (or_none expected))
            (promotion_conflict "active deployment changed")
        next ← validate_state digest false (obj (next_state (promote_at at checked) current at))
        ok (next, promoted)

  unfoldable pub select_deployment :
      (state candidate : Value) (expected : Option String) (at : String)
      → Result Error (Dict × Selection)
  select_deployment state candidate expected at = do
    selected ← validate_state digest false state
    checked ← validate_deployment_record digest candidate
    select_checked selected checked expected at

  unfoldable pub swap : (current previous : Value) → String → Result Error Dict
  swap (obj c) (obj p) at =
      validate_state digest false (obj (next_state (promote_at at p) (obj c) at))
  swap _ _ at = err (deployment_error "rollback requires current and previous verified deployments")

  unfoldable pub rollback_transition : (state : Value) (at : String) → Result Error Dict
  rollback_transition state at = do
    selected ← validate_state digest false state
    swap (get selected "current_deployment") (get selected "previous_deployment") at
