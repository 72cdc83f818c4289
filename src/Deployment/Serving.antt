-- ===== src/Deployment/Serving.antt =====
-- src/homeops_ai/deployment.py: which deployment a reader gets, its provenance, and the projection
-- of the active state that the receiver publishes. The files of a directory are a list of values,
-- nothing standing for a file that cannot be read or parsed; an absent directory has no files.
use homeops_ai.Prelude.{
  zero, String, Bool-cases, inl, inr, ◌≡◌, refl, Bool, true, false, not, ◌||◌, Option, none, some,
  List, [], ◌∷◌, str_eq, if◌then◌else◌, arith, eq_iff, subst,
}
use homeops_ai.Prelude.Result.{Result, ok, err, ◌>>=◌, ◌>>◌, guard, guard-eq-ok}
use homeops_ai.Text.{is_safe_id, safe_id_codes, str_leb}
use homeops_ai.Value.{
  Value, null, bool, int, arr, str, obj, pos, nil, Dict, end, field, get, insert, same, num,
}
use homeops_ai.Value.Laws.{same-str, same-str_self}
use homeops_ai.Deployment.{
  Error, deployment_error, require, validate_deployment_record, validate_state, check_current,
  checks_before, safe_id_value,
}
use homeops_ai.Deployment.Records.{IsRecord, IsRecord-validate}
use homeops_ai.Deployment.States.{current, previous, IsSlot, validate_state-checks, IsRecord-run}
use homeops_ai.Deployment.Transitions.{IsStateOf, current-IsSlot}

pub data Role : Type 0 where
  active previous_role retained : Role

-- `bool(v)`
abbrev pub truthy : Value → Bool
truthy null = false
truthy (bool b) = b
truthy (int (pos zero)) = false
truthy (str s) = not (str_eq s "")
truthy (arr nil) = false
truthy (obj end) = false
truthy v = true

abbrev pub selected_run : Option String → Dict → Value
selected_run none state = get state "current"
selected_run (some s) state = if str_eq s "" then get state "current" else str s

abbrev pub run_text : Value → Result Error String
run_text (str s) = do guard (is_safe_id s) (deployment_error "not a safe identifier"); ok s
run_text v = err (deployment_error "not a safe identifier")

abbrev pub runs : Value → String → Bool
runs (obj r) run = same (get r "run_id") (str run)
runs v run = false

-- `event["promoted_at"] or ""`, which is a text of an accepted record.
abbrev stamp : Dict → String
stamp r = elim (get r "promoted_at") [ str s ↦ s | _ ↦ "" ]

-- `max(events, key=...)`: the first of the latest, over the one found so far.
abbrev latest : Dict → List Dict → Dict
latest best [] = best
latest best (e ∷ es) = latest (if str_leb (stamp e) (stamp best) then best else e) es

abbrev latest_or : Dict → List Dict → Dict
latest_or r [] = r
latest_or r (e ∷ es) = latest e es

module _ (digest : Value → String) where
  abbrev accepted : Option Value → Option Dict
  accepted none = none
  accepted (some v) = elim (validate_deployment_record digest v) [ ok r ↦ some r | err e ↦ none ]

  events_of : Dict → List (Option Value) → List Dict
  events_of r [] = []
  events_of r (f ∷ fs) =
      let rest = events_of r fs in
      elim (accepted f) [
        | none ↦ rest
        | some e ↦ if same (get e "deployment_id") (get r "deployment_id") then e ∷ rest else rest
      ]

  abbrev text_of : Value → String
  text_of v = elim v [ str s ↦ s | _ ↦ "" ]

  -- The first accepted record of the directory with the run, as its latest event has it.
  unfoldable pub retained_record :
      List (Option Value) → (history : String → List (Option Value)) → (run : String) → Option Dict
  unfolding events_of
  retained_record [] history run = none
  retained_record (f ∷ fs) history run =
      let rest = retained_record fs history run in
      elim (accepted f) [
        | none ↦ rest
        | some r ↦
            if same (get r "run_id") (str run)
            then some (latest_or r (events_of r (history (text_of (get r "deployment_id")))))
            else rest
      ]

  abbrev dict_of : Value → Option Dict
  dict_of (obj r) = some r
  dict_of v = none

  abbrev legacy_role : Dict → String → Role
  legacy_role state run = if same (str run) (get state "current") then active else retained

  abbrev or_legacy : Dict → String → Option Dict → Option Dict × Role × String
  or_legacy state run none = (none, legacy_role state run, run)
  or_legacy state run (some r) = (some r, retained, run)

  abbrev resolve :
      (state : Dict)
      → List (Option Value)
      → (String → List (Option Value))
      → String
      → Option Dict × Role × String
  resolve state files history run =
      if same (get state "schema_version") (num 2)
      then (if runs (current state) run
          then (dict_of (current state), active, run)
          else if runs (previous state) run
          then (dict_of (previous state), previous_role, run)
          else or_legacy state run (retained_record files history run))
      else (none, legacy_role state run, run)

  -- `state` is what `load_state` returns.
  unfoldable pub deployment_for_run :
      (state : Dict)
      → List (Option Value)
      → (history : String → List (Option Value)) → (run_id : Option String)
      → Result Error (Option Dict × Role × String)
  deployment_for_run state files history run_id = do
    let selected = selected_run run_id state
    require (truthy selected) "there is no active deployment"
    run ← run_text selected
    ok (resolve state files history run)

  current-runs :
      (run p pr : Value) (c : Dict)
      → IsRecord digest c
      → check_current digest (obj c) run p pr ≡ ok tt
      → same run (get c "run_id") ≡ true
  unfolding check_current
  current-runs run p pr c r h =
      guard-eq-ok (same run (get c "run_id"))
        (deployment_error "legacy current run ID disagrees with current deployment")
        (rw (IsRecord-validate digest c r) at h)

  safe_run : (c : Dict) → IsRecord digest c → safe_id_value (get c "run_id") ≡ true
  unfolding checks_before
  safe_run c r = ground (arith, r.before)

  safe_text : (v : Value) (t : String) → v ≡ str t → safe_id_value v ≡ true → is_safe_id t ≡ true
  safe_text v t e h = rw e at h

  safe_not_empty : (t : String) → is_safe_id t ≡ true → str_eq t "" ≡ false
  unfolding is_safe_id safe_id_codes
  safe_not_empty t h = elim (Bool-cases (str_eq t "")) [
    | inr e ↦ e
    | inl e ↦
        let bad : is_safe_id "" ≡ true = subst (λ x. is_safe_id x ≡ true) ((eq_iff t "").0 e) h in
        cc (bad)
  ]

  -- A reader that names no run gets the deployment that an accepted state has selected, as the
  -- active one and under its run, whatever the directories hold.
  pub deployment_for_run-current :
      (state c : Dict) (files : List (Option Value)) (history : String → List (Option Value))
      → IsStateOf digest state
      → current state ≡ obj c
      → (run : String) × (get c "run_id" ≡ str run)
        × (deployment_for_run state files history none ≡ ok (some c, active, run))
  unfolding deployment_for_run
  deployment_for_run-current state c files history h e =
      let (_, checks) = validate_state-checks digest (obj state) state h in
      let accepted_c : IsRecord digest c =
        subst (IsSlot digest) e (current-IsSlot digest state h) in
      let (t, run) = IsRecord-run digest c accepted_c in
      let now = rw e at checks.now in
      let agrees =
        current-runs (get state "current") (previous state) (get state "previous") c accepted_c
          now in
      let named : get state "current" ≡ str t =
        same-str (get state "current") t (rw run at agrees) in
      let safe = safe_text (get c "run_id") t run (safe_run c accepted_c) in
      let full = safe_not_empty t safe in
      (t, run, rw (named, full, safe, checks.version, e, run, same-str_self t) refl)

abbrev pub role_text : Role → String
role_text active = "active"
role_text previous_role = "previous"
role_text retained = "retained"

abbrev is_active : Role → Bool
is_active active = true
is_active r = false

abbrev with_role : Role → Dict → Dict
with_role role d =
    insert "retained" (bool (not (is_active role)))
      (insert "active" (bool (is_active role)) (insert "role" (str (role_text role)) d))

-- An absent value of the projection is the empty text.
abbrev or_empty : Value → String → Value
or_empty (obj r) k = get r k
or_empty v k = str ""

abbrev promoted_or_empty : Value → Value
promoted_or_empty (obj r) = if truthy (get r "promoted_at") then get r "promoted_at" else str ""
promoted_or_empty v = str ""

module _ (digest : Value → String) where
  unfoldable pub provenance : Option Dict → Role → (run : String) → Result Error Dict
  provenance none role run = ok (
      field "deployment_id" null (
        field "snapshot_id" null (
          field "run_id" (str run) (
            field "role" (str (role_text role)) (
              field "active" (bool (is_active role))
                (field "retained" (bool (not (is_active role))) end))))))
  provenance (some r) role run = do
    checked ← validate_deployment_record digest (obj r)
    ok (with_role role checked)

  abbrev is_v2 : Dict → Bool
  is_v2 s = same (get s "schema_version") (num 2)

  unfoldable pub current_projection : Value → Result Error Dict
  current_projection state = do
    checked ← validate_state digest true state
    require (is_v2 checked || not (truthy (get checked "current")))
        "cannot publish schema-v2 current projection for unadopted legacy state"
    let deployment = if is_v2 checked then get checked "current_deployment" else null
    let at = or_empty deployment
    ok (
        field "schema_version" (num 2) (
          field "current_deployment_id" (at "deployment_id") (
            field "snapshot_id" (at "snapshot_id") (
              field "run_id" (at "run_id") (
                field "source_fingerprint" (at "source_fingerprint") (
                  field "artifact_fingerprint" (at "artifact_fingerprint") (
                    field "logical_fingerprint" (at "logical_fingerprint") (
                      field "homeops_version" (at "homeops_version") (
                        field "source_revision" (at "source_revision") (
                          field "image_digest" (at "image_digest") (
                            field "snapshot_contract_version" (at "snapshot_contract_version") (
                              field "build_contract_version" (at "build_contract_version")
                                (field "promoted_at" (promoted_or_empty deployment) end)))))))))))))
