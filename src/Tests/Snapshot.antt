-- ===== src/Tests/Snapshot.antt =====
-- Tests of src/homeops_ai/snapshot.py: a manifest of one source and one excluded file.
use homeops_ai.Prelude.{String, ◌≡◌, refl, true}
use homeops_ai.Prelude.Result.{ok}
use homeops_ai.Text.{is_sha256, str_leb}
use homeops_ai.Value.{null, str, obj, arr, nil, cons, Dict, end, field, num, get, same, has_exactly}
use homeops_ai.Snapshot.{validate_snapshot_manifest, items_of}
use homeops_ai.Snapshot.Inventory.{IsManifest, validate_snapshot_manifest-IsManifest}

abbrev hex : String
hex = "0123456789abcdef0123456789abcdef0123456789abcdef0123456789abcdef"

abbrev source : Dict
source = field "path" (str "A/one.md") (
    field "kind" (str "source") (
      field "source_kind" (str "knowledge")
        (field "exclusion_reason" null (field "size" (num 7) (field "sha256" (str hex) end)))))

abbrev excluded : Dict
excluded = field "path" (str "B.md") (
    field "kind" (str "excluded") (
      field "source_kind" null (
        field "exclusion_reason" (str "draft")
          (field "size" (num 0) (field "sha256" (str hex) end)))))

abbrev manifest : Dict
manifest = field "schema_version" (num 1) (
    field "snapshot_contract_version" (str "homeops-snapshot-v1") (
      field "snapshot_id" (str hex) (
        field "created_at" (str "t0") (
          field "source_fingerprint" (str hex) (
            field "artifact_fingerprint" (str hex) (
              field "logical_fingerprint" (str hex) (
                field "included_source_count" (num 1) (
                  field "excluded_artifact_count" (num 1) (
                    field "file_count" (num 2) (
                      field "total_uncompressed_bytes" (num 7) (
                        field "inventory" (arr (cons (obj source) (cons (obj excluded) nil))) (
                          field "exporter"
                            (obj (
                              field "package_version" (str "1.0")
                                (field "source_revision" (str "r1") end)))
                            end))))))))))))

manifest_is_accepted :
    validate_snapshot_manifest (λ s. true) (λ s. s) (λ v. hex) hex 10 100 (obj manifest)
    ≡ ok manifest
unfolding validate_snapshot_manifest same get has_exactly is_sha256 str_leb
manifest_is_accepted = refl

validate_snapshot_manifest-IsManifest_example :
    (manifest ≡ manifest) × IsManifest 10 100 manifest (items_of (get manifest "inventory"))
validate_snapshot_manifest-IsManifest_example =
    validate_snapshot_manifest-IsManifest (λ s. true) (λ s. s) (λ v. hex) hex 10 100 manifest
      manifest manifest_is_accepted
