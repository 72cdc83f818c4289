-- ===== src/Snapshot.antt =====
-- src/homeops_ai/snapshot.py: the validation of a snapshot manifest. `canonical` stands for the tests
-- of `PurePosixPath` on a path, `casefold` for `str.casefold`, `digest` for `sha256_json` and
-- `empty_sha256` for the SHA-256 of the empty text. The size of a file is a natural number.
pub mod Inventory
use homeops_ai.Prelude.{
  ℕ, suc, ◌+◌, String, Bool, true, false, not, ◌&&◌, Option, none, some, List, [], ◌∷◌, str_eq, leb,
  ◌==◌, if◌then◌else◌, all, mem, length,
}
use homeops_ai.Prelude.Result.{Result, ok, err, ◌>>=◌, ◌>>◌, guard, for_each}
use homeops_ai.Text.{codes, between, str_leb}
use homeops_ai.Text.Chars.{is_empty_text}
use homeops_ai.Value.{
  ℤ, pos, Value, null, int, str, arr, obj, Items, nil, cons, Dict, end, field, get, has_exactly,
  same, num, is_null, is_text,
}
use homeops_ai.Pipeline.{
  Raised, snapshot_error, is_one_of, is_string, is_object, is_digest, fields_of,
}

abbrev refuse : Bool → String → Result Raised (Unit {0})
refuse test message = guard test (snapshot_error message)

abbrev manifest_fields : List String
manifest_fields =
    "schema_version" ∷ "snapshot_contract_version" ∷ "snapshot_id" ∷ "created_at"
    ∷ "source_fingerprint" ∷ "artifact_fingerprint" ∷ "logical_fingerprint"
    ∷ "included_source_count" ∷ "excluded_artifact_count" ∷ "file_count"
    ∷ "total_uncompressed_bytes" ∷ "inventory" ∷ "exporter" ∷ []

-- `snapshot_identity`
abbrev pub snapshot_identity : Dict → Dict
snapshot_identity m = field "schema_version" (get m "schema_version") (
    field "snapshot_contract_version" (get m "snapshot_contract_version") (
      field "source_fingerprint" (get m "source_fingerprint") (
        field "artifact_fingerprint" (get m "artifact_fingerprint") (
          field "logical_fingerprint" (get m "logical_fingerprint") (
            field "included_source_count" (get m "included_source_count") (
              field "excluded_artifact_count" (get m "excluded_artifact_count") (
                field "file_count" (get m "file_count") (
                  field "total_uncompressed_bytes" (get m "total_uncompressed_bytes")
                    (field "inventory" (get m "inventory") end)))))))))

abbrev pub text_of : Value → String
text_of (str s) = s
text_of v = ""

abbrev pub path_of : Value → String
path_of v = text_of (get (fields_of v) "path")

abbrev is_size : Value → Bool
is_size (int (pos n)) = true
is_size v = false

abbrev number_of : Value → ℕ
number_of (int (pos n)) = n
number_of v = 0

abbrev pub size_of : Value → ℕ
size_of v = number_of (get (fields_of v) "size")

abbrev pub is_source : Value → Bool
is_source v = is_one_of ("source" ∷ []) (get (fields_of v) "kind")

abbrev pub paths : Items → List String
paths nil = []
paths (cons v vs) = path_of v ∷ paths vs

abbrev pub total_size : Items → ℕ
total_size nil = 0
total_size (cons v vs) = size_of v + total_size vs

-- The counters of the loop over the inventory.
pub record Tally : Type 0 where
  pub seen : List String
  pub included : ℕ
  pub excluded : ℕ
  pub total : ℕ

unfoldable pub count : Value → Tally → Tally
count v t = record {
  seen = path_of v ∷ t.seen;
  included = (if is_source v then suc t.included else t.included);
  excluded = (if is_source v then t.excluded else suc t.excluded);
  total = t.total + size_of v;
}

abbrev is_printable : ℕ → Bool
is_printable c = between 0x20 0x7e c && not (c == b'\\')

module _ (canonical : String → Bool) (empty_sha256 : String) where
  -- `safe_relative_path`
  unfoldable pub safe_relative_path : Value → Bool
  safe_relative_path (str s) = not (is_empty_text s) && all is_printable (codes s) && canonical s
  safe_relative_path v = false

  unfoldable pub check_shape : Value → Result Raised (Unit {0})
  unfolding has_exactly safe_relative_path
  check_shape v = do
    refuse
        (is_object v
          && has_exactly
              ("path" ∷ "kind" ∷ "source_kind" ∷ "exclusion_reason" ∷ "size" ∷ "sha256" ∷ [])
              (fields_of v))
        "snapshot inventory item has missing or unknown fields"
    refuse (safe_relative_path (get (fields_of v) "path")) "snapshot path is not safe"

  unfoldable pub check_kind : (source : Bool) → Dict → Result Raised (Unit {0})
  unfolding same
  check_kind true d =
      refuse
        (is_one_of ("knowledge" ∷ "category" ∷ []) (get d "source_kind")
          && is_null (get d "exclusion_reason"))
        "snapshot source metadata is invalid"
  check_kind false d =
      refuse (is_null (get d "source_kind") && is_string (get d "exclusion_reason"))
        "snapshot exclusion metadata is invalid"
      >> refuse (same (get d "size") (num 0) && same (get d "sha256") (str empty_sha256))
          "snapshot excluded path is not an empty placeholder"

  unfoldable pub check_metadata : Value → Result Raised (Unit {0})
  unfolding check_kind
  check_metadata v = do
    let d = fields_of v
    refuse (is_one_of ("source" ∷ "excluded" ∷ []) (get d "kind"))
        "snapshot inventory has invalid kind"
    refuse (is_size (get d "size")) "snapshot inventory has invalid size"
    refuse (is_digest (get d "sha256")) "snapshot inventory has invalid SHA-256"
    check_kind (is_source v) d

  -- The loop over the inventory
  unfoldable pub walk : Items → Tally → Result Raised Tally
  unfolding check_shape check_metadata count
  walk nil t = ok t
  walk (cons v vs) t = do
    check_shape v
    refuse (not (mem (path_of v) t.seen)) "snapshot inventory contains duplicate path"
    check_metadata v
    walk vs (count v t)

abbrev pub items_of : Value → Items
items_of (arr xs) = xs
items_of v = nil

abbrev is_list : Value → Bool
is_list (arr xs) = true
is_list v = false

module _ (canonical : String → Bool) (casefold : String → String) (digest : Value → String)
    (empty_sha256 : String) (max_files max_bytes : ℕ) where
  -- `(a.casefold(), a) <= (b.casefold(), b)`
  abbrev key_leb : String → String → Bool
  unfolding str_leb
  key_leb a b =
      if str_eq (casefold a) (casefold b) then str_leb a b else str_leb (casefold a) (casefold b)

  -- The list of distinct paths is the sorted one.
  unfoldable pub is_sorted : List String → Bool
  unfolding key_leb
  is_sorted [] = true
  is_sorted (a ∷ []) = true
  is_sorted (a ∷ b ∷ rest) = key_leb a b && is_sorted (b ∷ rest)

  unfoldable pub check_header : Dict → Result Raised (Unit {0})
  unfolding has_exactly same
  check_header m = do
    refuse (has_exactly manifest_fields m) "snapshot manifest has missing or unknown fields"
    refuse (same (get m "schema_version") (num 1)) "unsupported snapshot schema version"
    refuse (same (get m "snapshot_contract_version") (str "homeops-snapshot-v1"))
        "unsupported snapshot contract version"
    for_each
        ("snapshot_id" ∷ "source_fingerprint" ∷ "artifact_fingerprint" ∷ "logical_fingerprint" ∷ [])
        (λ f. refuse (is_digest (get m f)) "snapshot field must be a lowercase SHA-256")
    refuse (is_text (get m "created_at")) "snapshot created_at must be a non-empty string"
    let exporter = fields_of (get m "exporter")
    refuse
        (is_object (get m "exporter")
          && has_exactly ("package_version" ∷ "source_revision" ∷ []) exporter)
        "snapshot exporter has missing or unknown fields"
    refuse (is_text (get exporter "package_version") && is_text (get exporter "source_revision"))
        "snapshot exporter fields must be non-empty strings"
    refuse (is_list (get m "inventory")) "snapshot inventory must be a list"

  unfoldable pub check_counts : Dict → Tally → Result Raised (Unit {0})
  unfolding same
  check_counts m t = do
    refuse (same (get m "included_source_count") (num t.included)) "count disagrees with inventory"
    refuse (same (get m "excluded_artifact_count") (num t.excluded))
        "count disagrees with inventory"
    refuse (same (get m "file_count") (num (length t.seen))) "count disagrees with inventory"
    refuse (same (get m "total_uncompressed_bytes") (num t.total)) "count disagrees with inventory"
    refuse (same (get m "snapshot_id") (str (digest (obj (snapshot_identity m)))))
        "snapshot_id does not match snapshot identity"

  unfoldable pub validate_snapshot_manifest : Value → Result Raised Dict
  unfolding check_header walk is_sorted check_counts
  validate_snapshot_manifest (obj m) = do
    let inventory = items_of (get m "inventory")
    check_header m
    refuse (leb (length (paths inventory)) max_files) "snapshot exceeds the file-count limit"
    tally ←
        walk canonical empty_sha256 inventory
          (record { seen = []; included = 0; excluded = 0; total = 0 })
    refuse (is_sorted (paths inventory)) "snapshot inventory is not canonically sorted"
    refuse (leb tally.total max_bytes) "snapshot exceeds the uncompressed-byte limit"
    check_counts m tally
    ok m
  validate_snapshot_manifest v =
      err (snapshot_error "snapshot manifest has missing or unknown fields")
