-- ===== src/Pipeline/Commit.antt =====
-- src/homeops_ai/pipeline.py, the processor's side of a commit: `_process_commit` with its checks and
-- its journal. The files that one run reads are `Files`. What `promote`, `active_state` and
-- `repair_selected_bookkeeping` of build.py give is a value of `Host`: they are not in the model. A
-- result that is no object raises `AttributeError` in the code, and is not in the model.
use homeops_ai.Prelude.{
  ℕ, suc, String, Bool, false, ◌&&◌, Option, none, some, List, [], ◌∷◌, str_eq, if◌then◌else◌, all,
}
use homeops_ai.Prelude.Result.{Result, ok, err, ◌>>=◌, ◌>>◌, guard, for_each}
use homeops_ai.Value.{
  Value, null, bool, str, arr, obj, nil, Dict, end, field, get, keys, insert, has_exactly, same,
  num,
}
use homeops_ai.Deployment.{Error as DeploymentError, validate_deployment_record}
use homeops_ai.Pipeline.{
  Raised, pipeline_error, deployment_failed, os_failure, receiver_protocol, is_terminal, fields_of,
}
use homeops_ai.Pipeline.Receiver.{same_names}

-- What a run is given and reads: the request of the marker, the publisher, the result, the archive digest of the receipt, the marker, whether the marker's
-- text is the canonical one, the deployment and its evaluation.
pub record Files : Type 0 where
  pub request_id : String
  pub publisher_id : String
  pub ready : Dict
  pub archive_sha256 : Value
  pub marker : Option Value
  pub canonical : Bool
  pub deployment : Value
  pub evaluation : Value

pub data Promotion : Type 0 where
  promoted : (selected : Value) (result : String) → Promotion
  io_failure : (selected : Value) → Promotion
  refused : (changed : Bool) (message : String) → Promotion

-- What a run gets of deployment.py and build.py, whose data directory is not part of the state here:
-- `active` is the selected deployment that `active_state` reads, `repaired` that which
-- `repair_selected_bookkeeping` returns after its own writes. Either may raise.
pub record Host : Type 0 where
  pub digest : Value → String
  pub now : String
  pub promote : (deployment expected : Value) → Promotion
  pub active : Result Raised Value
  pub repaired : Result Raised Value

-- The journal of the commit, and the number of calls of `promote`.
pub record Server : Type 0 where
  pub journal : Option Value
  pub promotions : ℕ

abbrev conflict : Bool → String → Result Raised (Unit {0})
conflict test message = guard test (pipeline_error "PROMOTION_CONFLICT" message false)

abbrev commit_fields : List String
commit_fields =
    "schema_version" ∷ "protocol" ∷ "request_id" ∷ "publisher_id" ∷ "candidate_deployment_id"
    ∷ "expected_current_deployment_id" ∷ "submission_archive_sha256" ∷ []

-- `_validate_commit`
unfoldable pub validate_commit : Files → Option Value → Result Raised (Unit {0})
unfolding keys
validate_commit files (some (obj commit)) = do
  conflict (same_names (keys commit) commit_fields) "commit marker contract is invalid"
  conflict files.canonical "commit marker is not canonical"
  for_each
      ("request_id" ∷ "publisher_id" ∷ "candidate_deployment_id" ∷ "expected_current_deployment_id"
        ∷ [])
      (λ f. conflict (same (get commit f) (get files.ready f)) "commit disagrees with candidate")
  conflict (same (get commit "submission_archive_sha256") files.archive_sha256)
      "commit archive digest disagrees with receipt"
validate_commit files (some v) = conflict false "commit marker contract is invalid"
validate_commit files none = conflict false "commit marker is invalid JSON"

abbrev policy_binding : List String
policy_binding =
    "homeops_version" ∷ "source_revision" ∷ "image_digest" ∷ "snapshot_schema_version"
    ∷ "snapshot_contract_version" ∷ "build_schema_version" ∷ "build_contract_version" ∷ []

-- `_deployment_matches_policy`, of an accepted record
unfoldable pub record_matches_policy : (checked policy : Dict) → Bool
record_matches_policy checked policy = all (λ f. same (get checked f) (get policy f)) policy_binding

-- `_base_release_policy`
abbrev pub base_release_policy : Dict → Dict
base_release_policy policy = insert "evaluation_suite_sha256" (arr nil) policy

abbrev of_deployment : Result DeploymentError Dict → Result Raised Dict
of_deployment (ok r) = ok r
of_deployment (err e) = err (deployment_failed e)

-- `isinstance(evaluation, dict) and evaluation.get("passed") is True`
abbrev passed : Value → Bool
passed (obj e) = elim (get e "passed") [ bool b ↦ b | _ ↦ false ]
passed v = false

module _ (host : Host) (policy : Dict) (files : Files) where
  -- `_policy_id(release_policy)`
  abbrev policy_id : Value
  policy_id = str (host.digest (obj policy))

  abbrev release_policy_id : Value
  unfolding insert
  release_policy_id = str (host.digest (obj (base_release_policy policy)))

  -- The checks that precede the journal.
  unfoldable pub check_commit : Result Raised (Unit {0})
  unfolding validate_commit record_matches_policy release_policy_id
  check_commit = do
    conflict (same (get files.ready "outcome") (str "CANDIDATE_READY"))
        "commit has no candidate-ready result"
    validate_commit files files.marker
    conflict
        (same (get files.ready "release_policy_id") release_policy_id
          && same (get files.ready "promotion_policy_id") policy_id)
        "candidate belongs to a different release policy"
    checked ← of_deployment (validate_deployment_record host.digest files.deployment)
    conflict (record_matches_policy checked policy)
        "candidate deployment does not match release policy"
    conflict
        (passed files.evaluation
          && same (get (fields_of files.evaluation) "promotion_policy_id") policy_id)
        "candidate evaluation does not match release policy"

  abbrev pub candidate : Value
  candidate = get files.ready "candidate_deployment_id"

  -- The journal that `_write_commit_journal` writes.
  unfoldable pub new_journal : Dict
  unfolding release_policy_id
  new_journal = field "schema_version" (num 1) (
      field "protocol" (str receiver_protocol) (
        field "state" (str "APPLYING") (
          field "request_id" (str files.request_id) (
            field "publisher_id" (str files.publisher_id) (
              field "candidate_deployment_id" candidate (
                field "expected_current_deployment_id"
                  (get files.ready "expected_current_deployment_id")
                  (field "release_policy_id" release_policy_id
                    (field "started_at" (str host.now) end))))))))

  abbrev journal_fields : List String
  unfolding new_journal keys
  journal_fields = keys new_journal

  -- `_load_commit_journal`, and the comparison with the candidate
  unfoldable pub check_journal : Value → Result Raised (Unit {0})
  unfolding has_exactly journal_fields release_policy_id
  check_journal (obj j) = do
    conflict
        (has_exactly journal_fields j
          && same (get j "schema_version") (num 1)
          && same (get j "protocol") (str receiver_protocol)
          && same (get j "state") (str "APPLYING")
          && same (get j "request_id") (str files.request_id)
          && same (get j "publisher_id") (str files.publisher_id))
        "commit journal is invalid"
    conflict
        (same (get j "candidate_deployment_id") candidate
          && same (get j "expected_current_deployment_id")
              (get files.ready "expected_current_deployment_id")
          && same (get j "release_policy_id") release_policy_id)
        "commit journal disagrees with candidate"
  check_journal v = conflict false "commit journal is invalid"

  -- Is a deployment selected, and is it the candidate?
  unfoldable pub is_candidate : Value → Bool
  is_candidate (obj d) = same (get d "deployment_id") candidate
  is_candidate v = false

  -- `{**ready, "outcome": outcome, "promoted_at": selected["promoted_at"]}`
  unfoldable pub final_result : String → Value → Dict
  unfolding insert
  final_result outcome selected =
      insert "promoted_at" (get (fields_of selected) "promoted_at")
        (insert "outcome" (str outcome) files.ready)

  -- A run that finds the journal.
  unfoldable pub replay : Value → Result Raised Dict
  unfolding check_journal is_candidate final_result
  replay j = do
    check_journal j
    current ← host.active
    guard (is_candidate current) (
        pipeline_error "PROMOTION_CONFLICT"
          "commit was already applied or interrupted and cannot be replayed" false)
    repaired ← host.repaired
    ok (final_result "PROMOTED" repaired)

  unfoldable pub selected_result : (selected : Value) (result : String) → Result Raised Dict
  unfolding is_candidate final_result
  selected_result selected result =
      if is_candidate selected
      then ok (final_result (if str_eq result "promoted" then "PROMOTED" else "UNCHANGED") selected)
      else err
          (pipeline_error "POST_PROMOTION_MISMATCH" "selected deployment differs from commit" false)

  -- What follows the call of `promote`.
  unfoldable pub after_promote : Promotion → Result Raised Dict
  unfolding is_candidate selected_result
  after_promote (promoted selected result) = selected_result selected result
  after_promote (io_failure selected) =
      if is_candidate selected
      then (host.repaired >>= λ repaired. selected_result repaired "promoted")
      else err os_failure
  after_promote (refused changed message) =
      err (pipeline_error (if changed then "PROMOTION_CONFLICT" else "BUILD_FAILED") message false)

  -- `ready["expected_current_deployment_id"] or None`
  abbrev pub expected : Value
  expected = elim (get files.ready "expected_current_deployment_id") [
    | str s ↦ if str_eq s "" then null else str s
    | v ↦ v
  ]

  -- The journal is written before `promote` is called.
  unfoldable pub apply : Option Value → Server → Server × Result Raised Dict
  unfolding replay new_journal after_promote
  apply (some j) s = (s, replay j)
  apply none s = (
    record { journal = some (obj new_journal); promotions = suc s.promotions },
    after_promote (host.promote files.deployment expected),
  )

  unfoldable pub when_checked : Result Raised (Unit {0}) → Server → Server × Result Raised Dict
  unfolding apply
  when_checked (err e) s = (s, err e)
  when_checked (ok u) s = apply s.journal s

  unfoldable pub process_commit : Server → Server × Result Raised Dict
  unfolding check_commit when_checked
  process_commit s =
      if is_terminal (get files.ready "outcome")
      then (s, ok files.ready)
      else when_checked check_commit s
