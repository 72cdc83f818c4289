-- ===== src/Retention/Journal.antt =====
-- The validators of retention.py for queued requests, commit markers and commit journals, and the
-- references that an accepted record adds.
use homeops_ai.Prelude.{
  String, Bool, true, false, ◌&&◌, Option, none, some, List, [], ◌∷◌, ◌++◌, str_eq, if◌then◌else◌,
  mem,
}
use homeops_ai.Prelude.Result.{Result, ok, err, ◌>>=◌, ◌>>◌, guard}
use homeops_ai.Value.{str, Dict, get, keys, has_exactly, same}
use homeops_ai.Retention.Plan.{References}
use homeops_ai.Retention.Inputs.{
  InputError, retention_error, optional_sha256, required_sha256, expected_deployment_id,
  check_request_id, optional_run, checked, is_addressed, parse_time,
}

abbrev same_texts : List String → List String → Bool
same_texts [] [] = true
same_texts (j ∷ js) (k ∷ ks) = str_eq j k && same_texts js ks
same_texts _ _ = false

-- `tuple(value) == fields`: the keys in the order of the dict.
abbrev pub has_in_order : List String → Dict → Bool
has_in_order fields v = same_texts (keys v) fields

abbrev pub queued_request_fields : List String
queued_request_fields =
    "schema_version" ∷ "protocol" ∷ "request_id" ∷ "publisher_id" ∷ "release_policy_id"
    ∷ "snapshot_id" ∷ "expected_current_deployment_id" ∷ "snapshot_manifest_sha256" ∷ []

abbrev pub commit_fields : List String
commit_fields =
    "schema_version" ∷ "protocol" ∷ "request_id" ∷ "publisher_id" ∷ "candidate_deployment_id"
    ∷ "expected_current_deployment_id" ∷ "submission_archive_sha256" ∷ []

abbrev pub commit_journal_fields : List String
commit_journal_fields =
    "schema_version" ∷ "protocol" ∷ "state" ∷ "request_id" ∷ "publisher_id"
    ∷ "candidate_deployment_id" ∷ "expected_current_deployment_id" ∷ "release_policy_id"
    ∷ "started_at" ∷ []

abbrev required_at : Dict → String → Result InputError (Unit {0})
required_at v k = checked (required_sha256 k (get v k))

abbrev expected_at : Dict → Result InputError (Unit {0})
expected_at v = checked (
    expected_deployment_id "expected_current_deployment_id"
      (get v "expected_current_deployment_id"))

unfoldable pub validate_queued_request :
    (publisher request : String) → Dict → Result InputError Dict
validate_queued_request publisher request v = do
  guard (has_in_order queued_request_fields v)
      (retention_error "queued request has missing or unknown fields")
  guard (is_addressed publisher request v)
      (retention_error "queued request protocol identity disagrees with its path")
  required_at v "release_policy_id"
  required_at v "snapshot_id"
  check_request_id request
  expected_at v
  required_at v "snapshot_manifest_sha256"
  ok v

unfoldable pub validate_commit_reference :
    (publisher request : String) → Dict → Result InputError Dict
validate_commit_reference publisher request v = do
  guard (has_in_order commit_fields v)
      (retention_error "commit marker has missing or unknown fields")
  guard (is_addressed publisher request v)
      (retention_error "commit marker protocol identity disagrees with its path")
  required_at v "candidate_deployment_id"
  check_request_id request
  expected_at v
  required_at v "submission_archive_sha256"
  ok v

unfoldable pub validate_commit_journal_reference :
    (parse : String → Option Bool) (publisher request : String) → Dict → Result InputError Dict
validate_commit_journal_reference parse publisher request v = do
  guard (has_exactly commit_journal_fields v)
      (retention_error "commit journal has missing or unknown fields")
  guard (is_addressed publisher request v && same (get v "state") (str "APPLYING"))
      (retention_error "commit journal protocol identity disagrees with its path")
  check_request_id request
  required_at v "candidate_deployment_id"
  expected_at v
  required_at v "release_policy_id"
  parse_time parse "commit journal started_at" (get v "started_at")
  ok v

-- `set.add`
abbrev pub add : String → List String → List String
add k ks = if mem k ks then ks else ks ++ k ∷ []

abbrev pub add_optional : Option String → List String → List String
add_optional none ks = ks
add_optional (some k) ks = add k ks

abbrev pub add_candidate : (failure : Bool) → Option String → References → References
add_candidate true k r = record r { failure_deployments = add_optional k r.failure_deployments }
add_candidate false k r = record r { deployments = add_optional k r.deployments }

abbrev pub add_expected : Option String → References → References
add_expected k r = record r { deployments = add_optional k r.deployments }

abbrev pub add_snapshot : (failure : Bool) → Option String → References → References
add_snapshot true k r = record r { failure_snapshots = add_optional k r.failure_snapshots }
add_snapshot false k r = record r { snapshots = add_optional k r.snapshots }

abbrev pub add_run : (failure : Bool) → Option String → References → References
add_run true k r = record r { failure_runs = add_optional k r.failure_runs }
add_run false k r = record r { runs = add_optional k r.runs }

abbrev pub add_bundle :
    (failure : Bool) (candidate snapshot run : Option String) → References → References
add_bundle failure (some c) (some s) (some k) r = record r {
  identity_bundles =
      r.identity_bundles
      ++ record {
        deployment_id = c;
        run_id = k;
        snapshot_id = s;
        kind = if failure then "failure" else "unresolved";
      }
        ∷ [];
}
add_bundle failure c s k r = r

-- An exception leaves the references as they are when it is raised.
abbrev pub raised_at {ℓ} :
    {A : Type ℓ} → References → Result InputError A → Result (InputError × References) A
raised_at r (ok a) = ok a
raised_at r (err e) = err (e, r)

unfoldable pub add_identity_references :
    (failure : Bool) → Dict → References → Result (InputError × References) References
add_identity_references failure v r = do
  candidate ←
      raised_at r (optional_sha256 "candidate_deployment_id" (get v "candidate_deployment_id"))
  let r1 = add_candidate failure candidate r
  expected ←
      raised_at r1
        (optional_sha256 "expected_current_deployment_id" (get v "expected_current_deployment_id"))
  let r2 = add_expected expected r1
  snapshot ← raised_at r2 (optional_sha256 "snapshot_id" (get v "snapshot_id"))
  let r3 = add_snapshot failure snapshot r2
  run ← raised_at r3 (optional_run (get v "run_id"))
  ok (add_bundle failure candidate snapshot run (add_run failure run r3))
