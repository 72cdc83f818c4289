-- ===== src/Tests/Retention.antt =====
-- Tests of the planner in src/homeops_ai/retention.py on an inventory of three deployments.
use mathlib.Core.List.{Memᴰ}
use homeops_ai.Prelude.{ℕ, String, ◌≡◌, refl, true, false, none, some, List, [], ◌∷◌, All, length}
use homeops_ai.Prelude.Result.{ok}
use homeops_ai.Prelude.Sort.{sort_by}
use homeops_ai.Text.{is_sha256, is_safe_id, safe_id_codes, str_leb, less_codes}
use homeops_ai.Retention.Plan.{
  Item, Disk, free, Target, deployment_record, deployment_history, build, snapshot, Plan,
  unresolved, unresolved_each, validate_build_ownership, check_bundles,
  validate_reference_integrity, live_pins, probe_pins, references_of, is_failure_evidence,
  is_reserved, newer, additional_candidates, additional, reasons, is_removable, target,
  item_targets, removal_targets, is_snapshot_removable, snapshot_targets, target_before,
  delete_targets, plan_deployment_retention,
}
use homeops_ai.Retention.Targets.{IsJustified}
use homeops_ai.Retention.Safety.{plan-IsJustified, removable-keeps_additional}

abbrev id_1 : String
id_1 = "1123456789abcdef0123456789abcdef0123456789abcdef0123456789abcdef"

abbrev id_2 : String
id_2 = "2123456789abcdef0123456789abcdef0123456789abcdef0123456789abcdef"

abbrev id_3 : String
id_3 = "3123456789abcdef0123456789abcdef0123456789abcdef0123456789abcdef"

abbrev item : String → String → ℕ → Item
item id run at = record {
  deployment_id = id;
  run_id = run;
  snapshot_id = id;
  has_history_dir = true;
  history = "e" ∷ [];
  effective = at;
}

abbrev disk_of : List Item → Disk
disk_of items = record {
  items = items;
  inventory_references = λ r. r;
  pipeline_references = λ r. r;
  active_state = λ r. r;
  current = some id_3;
  previous = none;
  orphans = λ r. r;
  age_targets = [];
  pin = λ run. free;
  present = λ t. true;
}

abbrev disk : Disk
disk = disk_of (item id_1 "run-1" 1 ∷ item id_2 "run-2" 2 ∷ item id_3 "run-3" 3 ∷ [])

-- Two deployments own one run.
abbrev shared : Disk
shared = disk_of (item id_1 "run-1" 1 ∷ item id_2 "run-1" 2 ∷ item id_3 "run-3" 3 ∷ [])

abbrev target_at : String → String → List Target
target_at id run =
    record { kind = build; subject = run }
    ∷ record { kind = deployment_history; subject = id }
    ∷ record { kind = deployment_record; subject = id }
    ∷ record { kind = snapshot; subject = id }
    ∷ []

abbrev plan : Plan
plan = record {
  removable = item id_1 "run-1" 1 ∷ [];
  retained = item id_2 "run-2" 2 ∷ item id_3 "run-3" 3 ∷ [];
  blocked = false;
  delete_targets = target_at id_1 "run-1";
}

planned : plan_deployment_retention 1 disk ≡ ok plan
unfolding sort_by is_sha256 is_safe_id safe_id_codes str_leb less_codes unresolved unresolved_each
    validate_build_ownership check_bundles validate_reference_integrity live_pins probe_pins
    references_of is_failure_evidence is_reserved newer additional_candidates additional reasons
    is_removable target item_targets removal_targets is_snapshot_removable snapshot_targets
    target_before delete_targets plan_deployment_retention
planned = refl

removed : is_removable 1 disk (item id_1 "run-1" 1) ≡ true
unfolding sort_by is_sha256 is_safe_id safe_id_codes str_leb less_codes unresolved unresolved_each
    validate_build_ownership check_bundles validate_reference_integrity live_pins probe_pins
    references_of is_failure_evidence is_reserved newer additional_candidates additional reasons
    is_removable target item_targets removal_targets is_snapshot_removable snapshot_targets
    target_before delete_targets plan_deployment_retention
removed = refl

is_blocked : (references_of shared).blocks_all ≡ true
unfolding sort_by is_sha256 is_safe_id safe_id_codes str_leb less_codes unresolved unresolved_each
    validate_build_ownership check_bundles validate_reference_integrity live_pins probe_pins
    references_of is_failure_evidence is_reserved newer additional_candidates additional reasons
    is_removable target item_targets removal_targets is_snapshot_removable snapshot_targets
    target_before delete_targets plan_deployment_retention
is_blocked = refl

plan-IsJustified_example : All (IsJustified 1 disk) plan.delete_targets
plan-IsJustified_example = plan-IsJustified 1 disk plan planned

removable-keeps_additional_example : length (additional 1 disk) ≡ 1
removable-keeps_additional_example =
    removable-keeps_additional 1 disk (item id_1 "run-1" 1) (Memᴰ.head refl) removed
