-- ===== src/Tests/Build.antt =====
-- Tests of src/homeops_ai/build.py: a rollback that fails half-way, and a promotion.
use homeops_ai.Prelude.{◌≡◌, refl, true, Option, none, some, [], ◌∷◌, ◌⊎◌, lookup}
use homeops_ai.Prelude.Result.{ok}
use homeops_ai.Text.{is_sha256, is_safe_id}
use homeops_ai.Value.{
  Value, str, bool, obj, num, Dict, end, field, get?, get, insert, keys, has_exactly, same,
}
use homeops_ai.Value.Json.{json_fields}
use homeops_ai.Deployment.{
  checks_before, checks_after, deployment_identity, validate_deployment_record, validate_safe_id,
  promote_at,
}
use homeops_ai.Tests.Deployment.{
  digest, hex, one, two, after_two, after_two_is_accepted, now_not_empty,
}
use homeops_ai.Build.{Data, Host, Plan, fine, before, after, history_name}
use homeops_ai.Build.Candidate.{
  Evidence, candidate_matches_build, load_json, is_legacy, provenance_of, matches_build,
  matches_snapshot,
}
use homeops_ai.Build.Rollback.{rollback, recover_pending_rollback}
use homeops_ai.Build.Interrupted.{IsDone, interrupted, rollback_is_atomic}
use homeops_ai.Build.Promote.{promote}
use homeops_ai.Build.Promotion.{IsLeft, promote_is_atomic}
use homeops_ai.Build.Facts.{swapped}

abbrev host : Host
host = record { digest = digest; encode = λ v. digest v; name_of_time = λ s. s }

abbrev manifest : Dict → Dict
manifest r = field "result" (str "verified") (
    field "run_id" (get r "run_id") (
      field "schema_version" (num 1) (
        field "build_contract_version" (str "v1") (
          field "homeops_version" (str "0.1.0") (
            field "source_revision" (str "abc") (
              field "image_digest" (str "sha256") (
                field "completed_at" (str "t2") (
                  field "verified_at" (str "t3") (
                    field "source_fingerprint" (str hex) (
                      field "artifact_fingerprint" (str hex)
                        (field "logical_fingerprint" (str hex) end)))))))))))

abbrev snapshot : Dict
snapshot = field "snapshot_id" (str hex) (
    field "schema_version" (num 1) (
      field "snapshot_contract_version" (str "v1") (
        field "created_at" (str "t0") (
          field "source_fingerprint" (str hex)
            (field "artifact_fingerprint" (str hex) (field "logical_fingerprint" (str hex) end))))))

abbrev evidence : Dict → Evidence
evidence r = record {
  manifest = some (obj (manifest r));
  snapshot = some snapshot;
  verified = true;
}

abbrev disk : Data
disk = record {
  active = some (obj after_two);
  journal = none;
  deployments = [];
  history = [];
  projection = none;
}

-- The first write works, and the second one replaces active.json but cannot sync the directory.
abbrev half_way : Plan
half_way = fine ∷ after ∷ []

agrees : candidate_matches_build host.digest evidence (obj (promote_at "now" one)) ≡ ok tt
unfolding candidate_matches_build validate_deployment_record checks_before checks_after
    deployment_identity validate_safe_id get? get insert keys has_exactly same is_sha256 is_safe_id
    load_json is_legacy provenance_of matches_build matches_snapshot
agrees = refl

unseen : lookup (history_name host (promote_at "now" (promote_at "now" one))) disk.history ≡ none
unseen = refl

unique_keys : json_fields after_two ≡ true
unfolding json_fields insert keys get get?
unique_keys = refl

rollback_is_atomic_example :
    ((rollback host evidence "now" (disk, [])).1
      ≡ ok (swapped (promote_at "later" two) (promote_at "now" one) "now"))
    × ((rollback host evidence "now" (disk, [])).0.0.active
        ≡ some (obj (swapped (promote_at "later" two) (promote_at "now" one) "now")))
    × ((rollback host evidence "now" (disk, [])).0.0.journal ≡ none)
    × IsDone
        (rollback host evidence "now" (disk, [])).0.0
        (rollback host evidence "now" (disk, half_way))
    × ((x : Option Dict) × ((recover_pending_rollback host
            (interrupted host evidence "now" disk half_way ((before ∷ []) ∷ []), [])).1
          ≡ ok x))
    × (((recover_pending_rollback host
            (interrupted host evidence "now" disk half_way ((before ∷ []) ∷ []), [])).0.0
          ≡ (rollback host evidence "now" (disk, [])).0.0)
        ⊎ ((recover_pending_rollback host
              (interrupted host evidence "now" disk half_way ((before ∷ []) ∷ []), [])).0.0
            ≡ disk))
unfolding get get?
rollback_is_atomic_example =
    rollback_is_atomic host evidence "now" disk after_two (promote_at "later" two)
      (promote_at "now" one) half_way ((before ∷ []) ∷ []) refl refl after_two_is_accepted
      unique_keys refl refl now_not_empty agrees unseen

abbrev fresh : Data
fresh = record { active = none; journal = none; deployments = []; history = []; projection = none }

abbrev passing : Option Value
passing = some (obj (field "passed" (bool true) end))

promote_is_atomic_example :
    IsLeft host evidence
      (obj one)
      none
      "now"
      true
      passing
      fresh
      (promote host evidence (obj one) none "now" true passing (fresh, half_way))
promote_is_atomic_example =
    promote_is_atomic host evidence (obj one) none "now" true passing fresh half_way
