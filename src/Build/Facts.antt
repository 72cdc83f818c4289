-- ===== src/Build/Facts.antt =====
-- What the checks of build.py's rollback say of the state that it leaves and of its journal.
use homeops_ai.Prelude.{String, ◌≡◌, refl, ◌≢◌, true, false, arith, eq_iff, subst}
use homeops_ai.Prelude.Result.{Result, ok, err}
use homeops_ai.Value.{Value, str, obj, int, pos, bool, Dict, end, get, same, num, keys}
use homeops_ai.Value.Laws.{get-insert, same-str_self}
use homeops_ai.Value.Json.{is_json, json_fields, same_refl, get-is_json, insert-is_json}
use homeops_ai.Deployment.{
  validate_state, validate_safe_id, promote_at, next_state, checks_before, rollback_transition,
}
use homeops_ai.Deployment.Records.{IsRecord, IsRecord-validate, promote_at-IsRecord}
use homeops_ai.Deployment.States.{
  current, previous, IsSlot, validate_state-checks, next_state-valid, current-next_state,
}
use homeops_ai.Deployment.Transitions.{
  IsStateOf, current-IsSlot, previous-IsSlot, rollback-branches,
}
use homeops_ai.Deployment.Serving.{current_projection}
use homeops_ai.Build.{Host}
use homeops_ai.Build.Selected.{IsSelected}
use homeops_ai.Build.Rollback.{is_journal, is_transition, new_journal}

-- The state after a rollback of a state with these deployments.
abbrev pub swapped : (current previous : Dict) (at : String) → Dict
swapped c p at = next_state (promote_at at p) (obj c) at

pub not_v1 : (v : Value) → same v (num 2) ≡ true → same v (num 1) ≡ false
unfolding same
not_v1 (int (pos k)) h = ground arith
not_v1 (bool true) h = ground arith
not_v1 (bool false) h = ground arith
not_v1 v h = cc

transition_holds :
    (j source target c p : Dict) (at : String)
    → current source ≡ obj c
    → previous source ≡ obj p
    → current target ≡ obj (promote_at at p)
    → previous target ≡ obj c
    → get j "started_at" ≡ str at
    → get target "promoted_at" ≡ str at
    → same (obj (promote_at at p)) (obj (promote_at at p)) ≡ true
    → same (obj c) (obj c) ≡ true
    → same (str at) (str at) ≡ true
    → get (promote_at at p) "promoted_at" ≡ str at
    → get (promote_at at p) "deployment_id" ≡ get p "deployment_id"
    → same (get p "deployment_id") (get p "deployment_id") ≡ true
    → is_transition j source target ≡ true
unfolding is_transition
transition_holds j source target c p at now old new before start stamp same_p same_c same_at a b d =
    rw (now, old, new, before, start, stamp) (rw (same_p, same_c, a, same_at, b, d) refl)

module _ (digest : Value → String) where
  version_first :
      {s : Dict}
      → IsStateOf digest s
      → same (get s "schema_version") (num 1) ≡ false
      → validate_state digest true (obj s) ≡ ok s
  unfolding validate_state
  version_first h other = let rest = rw other at h in rw other rest

  -- A state of schema 2 is accepted where one of schema 1 would be.
  pub IsStateOf-validate :
      (s : Dict) → IsStateOf digest s → validate_state digest true (obj s) ≡ ok s
  unfolding validate_state
  IsStateOf-validate s h =
      let (_, checks) = validate_state-checks digest (obj s) s h in
      let other = not_v1 (get s "schema_version") checks.version in version_first h other

  pub IsStateOf-version :
      (s : Dict) → IsStateOf digest s → same (get s "schema_version") (num 2) ≡ true
  IsStateOf-version s h =
      let (_, checks) = validate_state-checks digest (obj s) s h in checks.version

  pub IsRecord-safe :
      (r : Dict) → IsRecord digest r → validate_safe_id (get r "deployment_id") ≡ ok tt
  unfolding checks_before
  IsRecord-safe r h = ground (arith, h.before)

  module _ (s c p : Dict) (at : String) (hs : IsStateOf digest s) (json : json_fields s ≡ true)
      (now : current s ≡ obj c) (old : previous s ≡ obj p) (n : at ≢ "") where
    pub target-IsRecord : IsRecord digest (promote_at at p)
    target-IsRecord =
        promote_at-IsRecord digest at p n (subst (IsSlot digest) old (previous-IsSlot digest s hs))

    pub swapped-IsStateOf : IsStateOf digest (swapped c p at)
    swapped-IsStateOf =
        next_state-valid digest (promote_at at p) (obj c) at target-IsRecord
          (subst (IsSlot digest) now (current-IsSlot digest s hs))

    pub rollback_transition-swapped : rollback_transition digest (obj s) at ≡ ok (swapped c p at)
    rollback_transition-swapped = rw (rollback-branches digest s at hs n) (rw (now, old) refl)

    c_json : json_fields c ≡ true
    unfolding is_json
    c_json = subst (λ v. is_json v ≡ true) now (get-is_json s "current_deployment" json)

    p_json : json_fields p ≡ true
    unfolding is_json
    p_json = subst (λ v. is_json v ≡ true) old (get-is_json s "previous_deployment" json)

    stamped_json : json_fields (promote_at at p) ≡ true
    unfolding is_json
    stamped_json = insert-is_json "promoted_at" (str at) p refl p_json

    pub swapped-IsJson : json_fields (swapped c p at) ≡ true
    unfolding json_fields is_json keys
    swapped-IsJson =
        rw
          (
            c_json,
            stamped_json,
            get-is_json (promote_at at p) "run_id" stamped_json,
            get-is_json c "run_id" c_json,
          )
          refl

    pub new_journal-IsJournal : is_journal (new_journal s (swapped c p at)) ≡ true
    unfolding is_journal get
    new_journal-IsJournal = (ground (arith, eq_iff at ""))

    pub new_journal-IsTransition :
        is_transition (new_journal s (swapped c p at)) s (swapped c p at) ≡ true
    unfolding get is_json
    new_journal-IsTransition =
        let same_p' = same_refl (obj (promote_at at p)) stamped_json in
        let same_c = same_refl (obj c) c_json in
        let same_at = same-str_self at in
        transition_holds (new_journal s (swapped c p at)) s (swapped c p at) c p at now old refl
          refl refl refl same_p' same_c same_at (get-insert "promoted_at" "promoted_at" (str at) p)
          (get-insert "promoted_at" "deployment_id" (str at) p)
          (same_refl (get p "deployment_id") (get-is_json p "deployment_id" p_json))

abbrev result_or : {E : Type 0} → Dict → Result E Dict → Dict
result_or d (ok e) = e
result_or d (err e) = d

module _ (host : Host) where
  -- The projection of an accepted state.
  pub current_projection-shows :
      (s : Dict)
      → IsStateOf host.digest s
      → (shown : Dict) × (current_projection host.digest (obj s) ≡ ok shown)
  unfolding current_projection
  current_projection-shows s h = (
    result_or end (current_projection host.digest (obj s)),
    rw (IsStateOf-validate host.digest s h) (rw (IsStateOf-version host.digest s h) refl),
  )

  pub swapped-IsSelected :
      (s c p shown : Dict) (at : String)
      → IsStateOf host.digest s
      → json_fields s ≡ true
      → current s ≡ obj c
      → previous s ≡ obj p
      → at ≢ ""
      → current_projection host.digest (obj (swapped c p at)) ≡ ok shown
      → IsSelected host (swapped c p at) (promote_at at p) shown
  unfolding is_json
  swapped-IsSelected s c p shown at hs json now old n shows =
      let accepted = target-IsRecord host.digest s c p at hs json now old n in
      let state = swapped-IsStateOf host.digest s c p at hs json now old n in
      record {
        checked = IsRecord-validate host.digest (promote_at at p) accepted;
        safe = IsRecord-safe host.digest (promote_at at p) accepted;
        stamped =
            rw (get-insert "promoted_at" "promoted_at" (str at) p) (ground (arith, eq_iff at ""));
        valid = IsStateOf-validate host.digest (swapped c p at) state;
        version = IsStateOf-version host.digest (swapped c p at) state;
        now = current-next_state (promote_at at p) (obj c) at;
        named = rw (get-insert "promoted_at" "deployment_id" (str at) p) (
            same_refl (get p "deployment_id")
              (get-is_json p "deployment_id" (p_json host.digest s c p at hs json now old n)));
        shows = shows;
      }
