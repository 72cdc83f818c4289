-- ===== src/Retention/Safety.antt =====
-- What a retention plan never deletes.
use mathlib.Core.List.{Memᴰ}
use homeops_ai.Prelude.{
  ℕ, ◌≡◌, refl, inl, inr, true, not, List, [], ◌++◌, map, Bool-cases, All, All-append, All-map,
  All-Memᴰ, mem, str_eq, eq_iff, filter, length, take, length-take_of_mem, length-map, any-map,
  any-filter,
}
use homeops_ai.Prelude.Result.{Result, ok, ◌>>=◌, >>=-eq-ok, ok-injective}
use homeops_ai.Prelude.Sort.{sort_by, All-sort_by, any-sort_by}
use homeops_ai.Text.{str_leb}
use homeops_ai.Retention.Plan.{
  Item, Disk, Target, Error, Plan, removal_targets, snapshot_targets, is_removable, references_of,
  delete_targets, by_id, snapshot_ids, target_before, plan_deployment_retention, is_reserved,
  additional, additional_candidates, newer,
}
use homeops_ai.Retention.Targets.{
  IsUnprotected, IsJustified, removable-IsUnprotected, removal_targets-IsJustified,
  snapshot_targets-IsJustified,
}

abbrev all_targets : ℕ → Disk → Result Error (List Target)
all_targets keep d = do
  removed ← removal_targets keep d (sort_by by_id d.items)
  snapshots ← snapshot_targets keep d (sort_by str_leb (snapshot_ids d.items))
  ok (sort_by target_before (d.age_targets ++ removed ++ snapshots))

abbrev plan_of : ℕ → Disk → List Target → Plan
plan_of keep d targets = record {
  removable = filter (is_removable keep d) d.items;
  retained = filter (λ i. not (is_removable keep d i)) d.items;
  blocked = (references_of d).blocks_all;
  delete_targets = targets;
}

module _ (keep : ℕ) (d : Disk) where
  delete_targets-IsJustified :
      (ts : List Target) → delete_targets keep d ≡ ok ts → All (IsJustified keep d) ts
  unfolding delete_targets
  delete_targets-IsJustified ts h = elim (Bool-cases (references_of d).blocks_all) [
    | inl b ↦ let e : ok [] ≡ ok ts = rw b at h in rw (← ok-injective [] ts e) tt
    | inr b ↦
        let g : all_targets keep d ≡ ok ts = rw b at h in
        let (removed, e, h1) =
          >>=-eq-ok (removal_targets keep d (sort_by by_id d.items))
            (λ removed.
              snapshot_targets keep d (sort_by str_leb (snapshot_ids d.items)) >>= λ snapshots.
              ok (sort_by target_before (d.age_targets ++ removed ++ snapshots)))
            g in
        let (snapshots, f, h2) =
          >>=-eq-ok (snapshot_targets keep d (sort_by str_leb (snapshot_ids d.items)))
            (λ snapshots. ok (sort_by target_before (d.age_targets ++ removed ++ snapshots))) h1 in
        rw (← ok-injective _ ts h2) (
          All-sort_by target_before (IsJustified keep d) (d.age_targets ++ removed ++ snapshots) (
            All-append (IsJustified keep d) (d.age_targets ++ removed) snapshots
              (All-append (IsJustified keep d) d.age_targets removed
                (All-map (λ t m. inl m) d.age_targets (All-Memᴰ d.age_targets))
                (removal_targets-IsJustified keep d (sort_by by_id d.items) removed
                  (All-sort_by by_id (λ i. Memᴰ i d.items) d.items (All-Memᴰ d.items)) e))
              (snapshot_targets-IsJustified keep d (sort_by str_leb (snapshot_ids d.items))
                snapshots f)))
  ]

  -- A plan deletes only what it may: each target is an expired one of the age rules, or belongs to a
  -- deployment of the inventory that no reason protects, or is a snapshot that only such deployments
  -- own and no pipeline file names.
  pub plan-IsJustified :
      (p : Plan)
      → plan_deployment_retention keep d ≡ ok p
      → All (IsJustified keep d) p.delete_targets
  unfolding plan_deployment_retention
  plan-IsJustified p h =
      let (ts, e, h1) = >>=-eq-ok (delete_targets keep d) (λ ts. ok (plan_of keep d ts)) h in
      rw (← ok-injective (plan_of keep d ts) p h1) (delete_targets-IsJustified ts e)

  unreserved : (i : Item) → IsUnprotected keep d i → not (is_reserved d i) ≡ true
  unfolding is_reserved
  unreserved i free =
      rw (free.not_current, free.not_previous, free.not_live, free.not_referenced, free.not_failure)
        refl

  candidate_of :
      (i : Item)
      → Memᴰ i d.items
      → IsUnprotected keep d i
      → mem i.deployment_id (map (λ j. j.deployment_id) (additional_candidates d)) ≡ true
  unfolding additional_candidates is_reserved
  candidate_of i m free =
      rw
        (
          any-map (λ j. j.deployment_id) (λ x. str_eq x i.deployment_id)
              (sort_by newer (filter (λ i. not (is_reserved d i)) d.items)),
          any-sort_by newer (λ j. str_eq j.deployment_id i.deployment_id)
              (filter (λ i. not (is_reserved d i)) d.items),
        )
        (any-filter (λ i. not (is_reserved d i)) (λ j. str_eq j.deployment_id i.deployment_id) i
          d.items m (unreserved i free) ((eq_iff i.deployment_id i.deployment_id).1 refl))

  -- When a deployment of the inventory is removable, the plan keeps exactly `keep` additional ones.
  pub removable-keeps_additional :
      (i : Item) → Memᴰ i d.items → is_removable keep d i ≡ true → length (additional keep d) ≡ keep
  unfolding additional
  removable-keeps_additional i m h =
      let free = removable-IsUnprotected keep d i h in
      let candidate : mem i.deployment_id (map (λ j. j.deployment_id) (additional_candidates d))
          ≡ true =
        candidate_of i m free in
      rw (length-map (λ j. j.deployment_id) (take keep (additional_candidates d))) (
        length-take_of_mem (λ j. j.deployment_id) i.deployment_id keep (additional_candidates d)
          candidate free.not_additional)
