-- ===== src/Retention/Plan.antt =====
-- The definitions of the planner in retention.py, from the inventory to the delete targets.
use homeops_ai.Prelude.{
  ℕ, String, Bool, true, false, not, ◌&&◌, ◌||◌, Option, none, some, List, [], ◌∷◌, ◌++◌, map, ltb,
  ◌==◌, str_eq, if◌then◌else◌, length, mem, all, filter, take, distinct,
}
use homeops_ai.Prelude.Result.{Result, ok, ◌>>=◌, ◌>>◌, guard}
use homeops_ai.Prelude.Sort.{sort_by}
use homeops_ai.Text.{is_sha256, is_safe_id, is_upload_name, str_leb}

-- A valid immutable bundle of the inventory. `effective` is a time stamp.
pub record Item : Type 0 where
  pub deployment_id : String
  pub run_id : String
  pub snapshot_id : String
  pub has_history_dir : Bool
  pub history : List String
  pub effective : ℕ

-- Identities that one pipeline file names together.
pub record IdentityBundle : Type 0 where
  pub deployment_id : String
  pub run_id : String
  pub snapshot_id : String
  pub kind : String

-- What the pipeline's files refer to. An entry of `unresolved` is its code and its subject.
pub record References : Type 0 where
  pub deployments : List String
  pub runs : List String
  pub snapshots : List String
  pub failure_deployments : List String
  pub failure_runs : List String
  pub failure_snapshots : List String
  pub identity_bundles : List IdentityBundle
  pub unresolved : List (String × String)
  pub blocks_all : Bool

abbrev pub no_references : References
no_references = record {
  deployments = [];
  runs = [];
  snapshots = [];
  failure_deployments = [];
  failure_runs = [];
  failure_snapshots = [];
  identity_bundles = [];
  unresolved = [];
  blocks_all = false;
}

unfoldable pub unresolved : References → (code subject : String) → Bool → References
unresolved r code subject blocks = record r {
  unresolved = r.unresolved ++ (code, subject) ∷ [];
  blocks_all = r.blocks_all || blocks;
}

-- `_unresolved` for each entry of a list that passes the test.
unfoldable pub unresolved_each :
    (code : String) → (String → Bool) → List String → References → References
unfolding unresolved
unresolved_each code bad [] r = r
unresolved_each code bad (k ∷ ks) r =
    unresolved_each code bad ks (if bad k then unresolved r code k true else r)

abbrev pub owners_of : String → List Item → List Item
owners_of run = filter (λ i. str_eq i.run_id run)

-- The run is owned by more than one deployment record.
abbrev pub is_shared : List Item → String → Bool
is_shared items run = ltb 1 (length (owners_of run items))

unfoldable pub validate_build_ownership : List Item → References → References
validate_build_ownership items =
    unresolved_each "duplicate-build-ownership" (is_shared items)
      (sort_by str_leb (distinct (map (λ i. i.run_id) items)))

abbrev find_item : String → List Item → Option Item
find_item id [] = none
find_item id (i ∷ is) = if str_eq i.deployment_id id then some i else find_item id is

abbrev bundle_mismatch : List Item → IdentityBundle → Bool
bundle_mismatch items b = elim (find_item b.deployment_id items) [
  | none ↦ false
  | some i ↦ not (str_eq i.run_id b.run_id) || not (str_eq i.snapshot_id b.snapshot_id)
]

-- Does a tuple of texts stand before another, or equal it?
abbrev texts_before : List (String × String) → Bool
texts_before [] = true
texts_before ((a, b) ∷ ps) = let rest = texts_before ps in if str_eq a b then rest else str_leb a b

-- The order in which the bundles are checked.
abbrev pub bundle_before : IdentityBundle → IdentityBundle → Bool
bundle_before a b = texts_before (
    (a.deployment_id, b.deployment_id)
    ∷ (a.run_id, b.run_id)
    ∷ (a.snapshot_id, b.snapshot_id)
    ∷ (a.kind, b.kind)
    ∷ [])

unfoldable pub check_bundles : List Item → List IdentityBundle → References → References
check_bundles items [] r = r
check_bundles items (b ∷ bs) r = check_bundles items bs (
    if bundle_mismatch items b
    then unresolved r "pipeline-identity-mismatch" b.deployment_id true
    else r)

unfoldable pub validate_reference_integrity : List Item → References → References
unfolding check_bundles
validate_reference_integrity items r =
    check_bundles items (sort_by bundle_before r.identity_bundles) (
      unresolved_each "referenced-build-missing" (λ k. not (mem k (map (λ i. i.run_id) items)))
        (sort_by str_leb (distinct (r.runs ++ r.failure_runs)))
        (unresolved_each "referenced-deployment-missing"
          (λ k. not (mem k (map (λ i. i.deployment_id) items)))
          (sort_by str_leb (distinct (r.deployments ++ r.failure_deployments))) r))

-- What the probe of a run's advisory lock says; `invalid` is a lock file that cannot be trusted.
pub data Pin : Type 0 where
  free pinned invalid : Pin

abbrev is_pinned : Pin → Bool
is_pinned pinned = true
is_pinned _ = false

abbrev is_invalid : Pin → Bool
is_invalid invalid = true
is_invalid _ = false

pub data Kind : Type 0 where
  deployment_record deployment_history build snapshot failed_build incomplete_upload : Kind

pub record Target : Type 0 where
  pub kind : Kind
  pub subject : String

-- The parts of the plan that are read from disk: the items, what their inventory adds to the
-- references where a record or a directory is not accepted, the references of the pipeline's files,
-- the active state, the orphans, the pins, and whether a target is there and is no symbolic link.
pub record Disk : Type 0 where
  pub items : List Item
  pub inventory_references : References → References
  pub pipeline_references : References → References
  pub active_state : References → References
  pub current : Option String
  pub previous : Option String
  pub orphans : References → References
  pub age_targets : List Target
  pub pin : String → Pin
  pub present : Target → Bool

abbrev pub is_some_of : Option String → String → Bool
is_some_of none k = false
is_some_of (some j) k = str_eq j k

-- The items whose run is pinned by a reader.
unfoldable pub live_pins : Disk → List String
live_pins d = map (λ i. i.deployment_id) (filter (λ i. is_pinned (d.pin i.run_id)) d.items)

unfoldable pub probe_pins : Disk → References → References
probe_pins d =
    unresolved_each "run-pin-invalid" (λ run. is_invalid (d.pin run)) (map (λ i. i.run_id) d.items)

abbrev pub no_history : Item → Bool
no_history i = elim i.history [ [] ↦ true | _ ∷ _ ↦ false ]

-- The references as they are when the decisions are made.
unfoldable pub references_of : Disk → References
references_of d = probe_pins d (
    d.orphans (
      d.active_state (
        validate_reference_integrity d.items (
          d.pipeline_references
            (validate_build_ownership d.items (d.inventory_references no_references))))))

-- The deployments that are evidence of a failure, or that were never promoted.
unfoldable pub is_failure_evidence : Disk → Item → Bool
is_failure_evidence d i =
    mem i.deployment_id (references_of d).failure_deployments
    || (no_history i
        && not (is_some_of d.current i.deployment_id)
        && not (is_some_of d.previous i.deployment_id))

unfoldable pub is_reserved : Disk → Item → Bool
is_reserved d i =
    is_some_of d.current i.deployment_id
    || is_some_of d.previous i.deployment_id
    || mem i.deployment_id (live_pins d)
    || mem i.deployment_id (references_of d).deployments
    || is_failure_evidence d i

-- Newest first, then by identifier.
unfoldable pub newer : Item → Item → Bool
newer a b =
    if a.effective == b.effective
    then str_leb a.deployment_id b.deployment_id
    else ltb b.effective a.effective

unfoldable pub additional_candidates : Disk → List Item
additional_candidates d = sort_by newer (filter (λ i. not (is_reserved d i)) d.items)

unfoldable pub additional : (keep : ℕ) → Disk → List String
additional keep d = map (λ i. i.deployment_id) (take keep (additional_candidates d))

abbrev when : Bool → String → List String
when test reason = if test then reason ∷ [] else []

unfoldable pub reasons : (keep : ℕ) → Disk → Item → List String
reasons keep d i =
    let r = references_of d in
    when (is_some_of d.current i.deployment_id) "current"
    ++ when (is_some_of d.previous i.deployment_id) "previous"
    ++ when (mem i.deployment_id (live_pins d)) "live-pinned"
    ++ when
        (mem i.deployment_id r.deployments || mem i.run_id r.runs || mem i.snapshot_id r.snapshots)
        "unresolved-pipeline"
    ++ when
        (is_failure_evidence d i
          || mem i.run_id r.failure_runs
          || mem i.snapshot_id r.failure_snapshots)
        "failure-evidence"
    ++ when (mem i.deployment_id (additional keep d)) "additional-verified"

abbrev is_nil : List String → Bool
is_nil [] = true
is_nil (x ∷ xs) = false

-- The decision "remove".
unfoldable pub is_removable : (keep : ℕ) → Disk → Item → Bool
is_removable keep d i = is_nil (reasons keep d i)

pub data Error : Type 0 where
  target_missing_or_symlink target_not_allowlisted : Error

abbrev pub allowlisted : Target → Bool
allowlisted t = elim t.kind [
  | deployment_record ↦ is_sha256 t.subject
  | deployment_history ↦ is_sha256 t.subject
  | build ↦ is_safe_id t.subject
  | snapshot ↦ is_sha256 t.subject
  | failed_build ↦ is_safe_id t.subject
  | incomplete_upload ↦ is_upload_name t.subject
]

-- `_target`, by the subject of the allowed path: the identifier in it.
unfoldable pub target : Disk → Kind → String → Result Error Target
target d kind subject = do
  let t : Target = record { kind = kind; subject = subject }
  guard (d.present t) target_missing_or_symlink
  guard (allowlisted t) target_not_allowlisted
  ok t

-- The targets of a call that is made under a test.
abbrev pub targets_if : Bool → Result Error (List Target) → Result Error (List Target)
targets_if test m = if test then m else ok []

abbrev pub one_target : Disk → Kind → String → Result Error (List Target)
one_target d kind subject = do t ← target d kind subject; ok (t ∷ [])

unfoldable pub item_targets : Disk → Item → Result Error (List Target)
item_targets d i = do
  r ← one_target d deployment_record i.deployment_id
  h ← targets_if i.has_history_dir (one_target d deployment_history i.deployment_id)
  b ← one_target d build i.run_id
  ok (r ++ h ++ b)

unfoldable pub removal_targets : (keep : ℕ) → Disk → List Item → Result Error (List Target)
removal_targets keep d [] = ok []
removal_targets keep d (i ∷ is) = do
  here ← targets_if (is_removable keep d i) (item_targets d i)
  more ← removal_targets keep d is
  ok (here ++ more)

-- Every owner of the snapshot is removed, and no pipeline file names it.
unfoldable pub is_snapshot_removable : (keep : ℕ) → Disk → String → Bool
is_snapshot_removable keep d s =
    all (λ i. not (str_eq i.snapshot_id s) || is_removable keep d i) d.items
    && not (mem s (references_of d).snapshots)
    && not (mem s (references_of d).failure_snapshots)

unfoldable pub snapshot_targets : (keep : ℕ) → Disk → List String → Result Error (List Target)
snapshot_targets keep d [] = ok []
snapshot_targets keep d (s ∷ ss) = do
  here ← targets_if (is_snapshot_removable keep d s) (one_target d snapshot s)
  more ← snapshot_targets keep d ss
  ok (here ++ more)

-- The keys of the dict from snapshots to their owners.
abbrev pub snapshot_ids : List Item → List String
snapshot_ids items = distinct (map (λ i. i.snapshot_id) items)

abbrev pub kind_name : Kind → String
kind_name build = "build"
kind_name deployment_history = "deployment-history"
kind_name deployment_record = "deployment-record"
kind_name failed_build = "failed-build"
kind_name incomplete_upload = "incomplete-upload"
kind_name snapshot = "snapshot"

unfoldable pub target_before : Target → Target → Bool
target_before a b =
    if str_eq (kind_name a.kind) (kind_name b.kind)
    then str_leb a.subject b.subject
    else str_leb (kind_name a.kind) (kind_name b.kind)

abbrev pub by_id : Item → Item → Bool
by_id a b = str_leb a.deployment_id b.deployment_id

unfoldable pub delete_targets : (keep : ℕ) → Disk → Result Error (List Target)
delete_targets keep d = if (references_of d).blocks_all then ok [] else do
  removed ← removal_targets keep d (sort_by by_id d.items)
  snapshots ← snapshot_targets keep d (sort_by str_leb (snapshot_ids d.items))
  ok (sort_by target_before (d.age_targets ++ removed ++ snapshots))

pub record Plan : Type 0 where
  pub removable : List Item
  pub retained : List Item
  pub blocked : Bool
  pub delete_targets : List Target

unfoldable pub plan_deployment_retention : (keep : ℕ) → Disk → Result Error Plan
plan_deployment_retention keep d = do
  targets ← delete_targets keep d
  ok (record {
    removable = filter (is_removable keep d) d.items;
    retained = filter (λ i. not (is_removable keep d i)) d.items;
    blocked = (references_of d).blocks_all;
    delete_targets = targets;
  })
