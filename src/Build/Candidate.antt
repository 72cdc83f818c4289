-- ===== src/Build/Candidate.antt =====
-- src/homeops_ai/build.py: whether a deployment record agrees with its build and its snapshot. What
-- is on disk for a record is `Evidence`: the JSON of the build's manifest, if it is there, the snapshot's manifest
-- if it can be read and the snapshot agrees with it, and whether the verifier accepts the build.
use homeops_ai.Prelude.{String, Bool, ◌&&◌, Option, none, some, List, [], ◌∷◌, if◌then◌else◌}
use homeops_ai.Prelude.Result.{Result, ok, err, ◌>>=◌, ◌>>◌, guard, for_each}
use homeops_ai.Value.{Value, str, obj, Dict, field, end, get, same}
use homeops_ai.Deployment.{validate_deployment_record}
use homeops_ai.Deployment.Serving.{truthy}
use homeops_ai.Build.{Failure, build_error, os_error, as_raised}

pub record Evidence : Type 0 where
  pub manifest : Option Value
  pub snapshot : Option Dict
  pub verified : Bool

abbrev expect : Bool → String → Result Failure (Unit {0})
expect test message = guard test (build_error message)

-- `_load_json`
unfoldable pub load_json : Value → Result Failure Dict
load_json (obj d) = ok d
load_json v = err (build_error "JSON document is not an object")

-- A file that may be missing
abbrev load_file : Option Value → Result Failure Dict
unfolding load_json
load_file none = err os_error
load_file (some v) = load_json v

-- `value or default`
abbrev or_default : Value → String → Value
or_default v d = if truthy v then v else str d

unfoldable pub is_legacy : Dict → Bool
unfolding same
is_legacy r =
    same (get r "homeops_version") (str "legacy")
    && same (get r "source_revision") (str "legacy")
    && same (get r "image_digest") (str "legacy-unrecorded")

abbrev value_of : (legacy : Bool) (manifest : Dict) (key default : String) → Value
value_of legacy m key default = if legacy then or_default (get m key) default else get m key

-- The provenance that the manifest gives, with the defaults of a legacy record.
unfoldable pub provenance_of : (legacy : Bool) (manifest : Dict) → Dict
provenance_of legacy m =
    let with_default = value_of legacy m in
    field "build_contract_version" (with_default "build_contract_version" "homeops-build-v1") (
      field "homeops_version" (with_default "homeops_version" "legacy") (
        field "source_revision" (with_default "source_revision" "legacy")
          (field "image_digest" (with_default "image_digest" "legacy-unrecorded") end)))

abbrev fingerprints : List String
fingerprints = "source_fingerprint" ∷ "artifact_fingerprint" ∷ "logical_fingerprint" ∷ []

abbrev agree_on : (there checked : Dict) → List String → String → Result Failure (Unit {0})
unfolding same
agree_on there checked fields message =
    for_each fields (λ f. expect (same (get there f) (get checked f)) message)

unfoldable pub matches_build : (checked manifest : Dict) → Result Failure (Unit {0})
unfolding same is_legacy provenance_of agree_on
matches_build checked m = do
  expect (same (get m "result") (str "verified")) "candidate build manifest is not verified"
  expect (same (get m "run_id") (get checked "run_id")) "candidate deployment/build run ID mismatch"
  expect (same (get m "schema_version") (get checked "build_schema_version"))
      "candidate deployment/build schema version mismatch"
  agree_on (provenance_of (is_legacy checked) m) checked
      ("build_contract_version" ∷ "homeops_version" ∷ "source_revision" ∷ "image_digest" ∷ [])
      "candidate deployment/build provenance mismatch"
  expect (same (get m "completed_at") (get checked "build_completed_at"))
      "candidate deployment/build completion timestamp mismatch"
  expect (same (get m "verified_at") (get checked "build_verified_at"))
      "candidate deployment/build verification timestamp mismatch"
  agree_on m checked fingerprints "candidate deployment/build fingerprint mismatch"

unfoldable pub matches_snapshot : (checked : Dict) → Option Dict → Result Failure (Unit {0})
unfolding same agree_on
matches_snapshot checked none = err (build_error "candidate snapshot verification failed")
matches_snapshot checked (some s) = do
  expect (same (get s "snapshot_id") (get checked "snapshot_id"))
      "candidate deployment/snapshot ID mismatch"
  expect (same (get s "schema_version") (get checked "snapshot_schema_version"))
      "candidate deployment/snapshot schema version mismatch"
  expect (same (get s "snapshot_contract_version") (get checked "snapshot_contract_version"))
      "candidate deployment/snapshot contract version mismatch"
  expect (same (get s "created_at") (get checked "snapshot_created_at"))
      "candidate deployment/snapshot creation timestamp mismatch"
  agree_on s checked fingerprints "candidate deployment/snapshot fingerprint mismatch"

-- `_candidate_matches_build`, without the manifest that it returns
unfoldable pub candidate_matches_build :
    (digest : Value → String) (evidence : Dict → Evidence) (candidate : Value)
    → Result Failure (Unit {0})
unfolding validate_deployment_record load_json matches_build matches_snapshot
candidate_matches_build digest evidence candidate = do
  checked ← as_raised (validate_deployment_record digest candidate)
  let there = evidence checked
  manifest ← load_file there.manifest
  matches_build checked manifest
  matches_snapshot checked there.snapshot
  expect there.verified "the verifier does not accept the build"
