-- ===== src/Retention/Targets.antt =====
-- Why a target of the retention plan may be deleted.
use mathlib.Core.List.{Memᴰ}
use homeops_ai.Prelude.{
  ℕ, String, ◌≡◌, ◌≢◌, refl, ◌⊎◌, inl, inr, Bool, true, false, not, ◌&&◌, ◌||◌, List, [], ◌∷◌, ◌++◌,
  arith, Bool-cases, All, All-append, all, mem, str_eq, eq_iff, and_true,
}
use homeops_ai.Prelude.Result.{Result, ok, ◌>>=◌, >>=-eq-ok, ok-injective}
use homeops_ai.Retention.Plan.{
  Item, Disk, Kind, deployment_record, deployment_history, build, snapshot, Target, Error, target,
  one_target, targets_if, item_targets, removal_targets, snapshot_targets, is_removable,
  is_snapshot_removable, references_of, is_some_of, live_pins, is_failure_evidence, additional,
  reasons,
}

abbrev pub target_of : Kind → String → Target
target_of k s = record { kind = k; subject = s }

-- None of the reasons to retain a deployment holds.
pub record IsUnprotected (keep : ℕ) (d : Disk) (i : Item) : Type 0 where
  pub not_current : is_some_of d.current i.deployment_id ≡ false
  pub not_previous : is_some_of d.previous i.deployment_id ≡ false
  pub not_live : mem i.deployment_id (live_pins d) ≡ false
  pub not_referenced : mem i.deployment_id (references_of d).deployments ≡ false
  pub run_not_referenced : mem i.run_id (references_of d).runs ≡ false
  pub snapshot_not_referenced : mem i.snapshot_id (references_of d).snapshots ≡ false
  pub not_failure : is_failure_evidence d i ≡ false
  pub run_not_failure : mem i.run_id (references_of d).failure_runs ≡ false
  pub snapshot_not_failure : mem i.snapshot_id (references_of d).failure_snapshots ≡ false
  pub not_additional : mem i.deployment_id (additional keep d) ≡ false

pub removable-IsUnprotected :
    (keep : ℕ) (d : Disk) (i : Item) → is_removable keep d i ≡ true → IsUnprotected keep d i
unfolding is_removable reasons
removable-IsUnprotected keep d i h = ground arith

module _ (keep : ℕ) (d : Disk) where
  -- The target belongs to a deployment of the inventory that nothing protects.
  pub record OfRemoved (t : Target) : Type 0 where
    pub item : Item
    pub listed : Memᴰ item d.items
    pub unprotected : IsUnprotected keep d item
    pub kind :
        (t ≡ target_of deployment_record item.deployment_id)
        ⊎ ((t ≡ target_of deployment_history item.deployment_id)
            ⊎ (t ≡ target_of build item.run_id))

  -- The target is a snapshot that only unprotected deployments own.
  pub record OfSnapshot (t : Target) : Type 0 where
    pub kind : t.kind ≡ snapshot
    pub owners : All (λ i. (i.snapshot_id ≢ t.subject) ⊎ IsUnprotected keep d i) d.items
    pub not_referenced : mem t.subject (references_of d).snapshots ≡ false
    pub not_failure : mem t.subject (references_of d).failure_snapshots ≡ false

  abbrev pub IsJustified : Target → Type 0
  IsJustified t = Memᴰ t d.age_targets ⊎ (OfRemoved t ⊎ OfSnapshot t)

  justified :
      (t : Target) (i : Item)
      → Memᴰ i d.items
      → IsUnprotected keep d i
      → (t ≡ target_of deployment_record i.deployment_id)
        ⊎ ((t ≡ target_of deployment_history i.deployment_id) ⊎ (t ≡ target_of build i.run_id))
      → IsJustified t
  justified t i m free k = inr (inl (record { item = i; listed = m; unprotected = free; kind = k }))

  target-eq : (k : Kind) (s : String) (t : Target) → target d k s ≡ ok t → t ≡ target_of k s
  unfolding target
  target-eq k s t h = ground arith

  one_target-All :
      (P : Target → Type 0) (k : Kind) (s : String) (ts : List Target)
      → P (target_of k s)
      → one_target d k s ≡ ok ts
      → All P ts
  one_target-All P k s ts p h =
      let (t, e, h1) = >>=-eq-ok (target d k s) (λ t. ok (t ∷ [])) h in
      rw (← ok-injective _ ts h1, target-eq k s t e) (p, tt)

  targets_if-All :
      (P : Target → Type 0) (b : Bool) (m : Result Error (List Target)) (ts : List Target)
      → (b ≡ true → m ≡ ok ts → All P ts)
      → targets_if b m ≡ ok ts
      → All P ts
  targets_if-All P true m ts p h = p refl h
  targets_if-All P false m ts p h = rw (← ok-injective _ ts h) tt

  -- Two lists of targets that come one after the other.
  append-All :
      (P : Target → Type 0) (m n : Result Error (List Target)) (ts : List Target)
      → ((us : List Target) → m ≡ ok us → All P us)
      → ((us : List Target) → n ≡ ok us → All P us)
      → (m >>= λ here. n >>= λ more. ok (here ++ more)) ≡ ok ts
      → All P ts
  append-All P m n ts pm pn h =
      let (here, e, h1) = >>=-eq-ok m (λ here. n >>= λ more. ok (here ++ more)) h in
      let (more, f, h2) = >>=-eq-ok n (λ more. ok (here ++ more)) h1 in
      rw (← ok-injective _ ts h2) (All-append P here more (pm here e) (pn more f))

  item_targets-IsJustified :
      (i : Item) (ts : List Target)
      → Memᴰ i d.items
      → is_removable keep d i ≡ true
      → item_targets d i ≡ ok ts
      → All IsJustified ts
  unfolding item_targets
  item_targets-IsJustified i ts m r h =
      let free = removable-IsUnprotected keep d i r in
      let (us, e, h1) =
        >>=-eq-ok (one_target d deployment_record i.deployment_id)
          (λ r.
            targets_if i.has_history_dir (one_target d deployment_history i.deployment_id) >>= λ h.
            one_target d build i.run_id >>= λ b. ok (r ++ h ++ b))
          h in
      let (vs, f, h2) =
        >>=-eq-ok (targets_if i.has_history_dir (one_target d deployment_history i.deployment_id))
          (λ h. one_target d build i.run_id >>= λ b. ok (us ++ h ++ b)) h1 in
      let (ws, g, h3) = >>=-eq-ok (one_target d build i.run_id) (λ b. ok (us ++ vs ++ b)) h2 in
      let of =
        λ (t : Target)
            (k : (t ≡ target_of deployment_record i.deployment_id)
              ⊎ ((t ≡ target_of deployment_history i.deployment_id)
                  ⊎ (t ≡ target_of build i.run_id))).
          justified t i m free k in
      rw (← ok-injective _ ts h3) (
        All-append IsJustified (us ++ vs) ws
          (All-append IsJustified us vs (one_target-All IsJustified _ _ us (of _ (inl refl)) e) (
            targets_if-All IsJustified i.has_history_dir _ vs
              (λ _ x. one_target-All IsJustified _ _ vs (of _ (inr (inl refl))) x) f))
          (one_target-All IsJustified _ _ ws (of _ (inr (inr refl))) g))

  pub removal_targets-IsJustified :
      (is : List Item) (ts : List Target)
      → All (λ i. Memᴰ i d.items) is
      → removal_targets keep d is ≡ ok ts
      → All IsJustified ts
  unfolding removal_targets
  removal_targets-IsJustified [] ts m h = rw (← ok-injective _ ts h) tt
  removal_targets-IsJustified (i ∷ is) ts m h =
      append-All IsJustified (targets_if (is_removable keep d i) (item_targets d i))
        (removal_targets keep d is) ts
        (λ us e.
          targets_if-All IsJustified (is_removable keep d i) (item_targets d i) us
            (λ r x. item_targets-IsJustified i us m.0 r x) e)
        (λ us e. removal_targets-IsJustified is us m.1 e) h

  owners-IsUnprotected :
      (s : String) (is : List Item)
      → all (λ i. not (str_eq i.snapshot_id s) || is_removable keep d i) is ≡ true
      → All (λ i. (i.snapshot_id ≢ s) ⊎ IsUnprotected keep d i) is
  owners-IsUnprotected s [] h = tt
  owners-IsUnprotected s (i ∷ is) h =
      let (here, more) =
        and_true (not (str_eq i.snapshot_id s) || is_removable keep d i)
          (all (λ i. not (str_eq i.snapshot_id s) || is_removable keep d i) is) h in
      (
        elim (Bool-cases (is_removable keep d i)) [
          | inl e ↦ inr (removable-IsUnprotected keep d i e)
          | inr e ↦ inl (λ same. ground (arith, here, e, eq_iff i.snapshot_id s))
        ],
        owners-IsUnprotected s is more,
      )

  snapshot-OfSnapshot :
      (s : String) → is_snapshot_removable keep d s ≡ true → OfSnapshot (target_of snapshot s)
  unfolding is_snapshot_removable
  snapshot-OfSnapshot s h =
      let (more, failure) =
        and_true
          (all (λ i. not (str_eq i.snapshot_id s) || is_removable keep d i) d.items
            && not (mem s (references_of d).snapshots))
          (not (mem s (references_of d).failure_snapshots)) h in
      let (owners, reference) =
        and_true (all (λ i. not (str_eq i.snapshot_id s) || is_removable keep d i) d.items)
          (not (mem s (references_of d).snapshots)) more in
      record {
        kind = refl;
        owners = owners-IsUnprotected s d.items owners;
        not_referenced = ground arith;
        not_failure = ground arith;
      }

  pub snapshot_targets-IsJustified :
      (ss : List String) (ts : List Target)
      → snapshot_targets keep d ss ≡ ok ts
      → All IsJustified ts
  unfolding snapshot_targets
  snapshot_targets-IsJustified [] ts h = rw (← ok-injective _ ts h) tt
  snapshot_targets-IsJustified (s ∷ ss) ts h =
      append-All IsJustified (targets_if (is_snapshot_removable keep d s) (one_target d snapshot s))
        (snapshot_targets keep d ss) ts
        (λ us e.
          targets_if-All IsJustified (is_snapshot_removable keep d s) (one_target d snapshot s) us
            (λ r x.
              one_target-All IsJustified snapshot s us (inr (inr (snapshot-OfSnapshot s r))) x)
            e)
        (λ us e. snapshot_targets-IsJustified ss us e) h
