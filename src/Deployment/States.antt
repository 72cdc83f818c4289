-- ===== src/Deployment/States.antt =====
-- What `validate_state` of deployment.py accepts, and that the states which transitions build pass it.
use homeops_ai.Prelude.{String, ◌≡◌, refl, true, false, ◌||◌, arith, sym, subst}
use homeops_ai.Prelude.Result.{ok, >>=-eq-ok}
use homeops_ai.Value.{Value, null, str, obj, Dict, get, has_exactly, same, is_null, num}
use homeops_ai.Value.Laws.{same-str_self}
use homeops_ai.Deployment.{
  safe_id_value, check_current, check_previous, is_str, state_fields, checks_before,
  validate_deployment_record, validate_state, v2_state, next_state, run_of,
}
use homeops_ai.Deployment.Records.{IsRecord, validate-IsRecord, IsRecord-validate}

abbrev pub current : Dict → Value
current s = get s "current_deployment"

abbrev pub previous : Dict → Value
previous s = get s "previous_deployment"

safe_id_text : (v : Value) → safe_id_value v ≡ true → (t : String) × (v ≡ str t)
safe_id_text (str t) h = (t, refl)
safe_id_text v h = cc

module _ (digest : Value → String) where
  -- What a slot of an accepted state holds.
  abbrev pub IsSlot : Value → Type 0
  IsSlot null = Unit {0}
  IsSlot (obj r) = IsRecord digest r
  IsSlot _ = ⊥

  pub IsRecord-run : (r : Dict) → IsRecord digest r → (t : String) × (get r "run_id" ≡ str t)
  unfolding checks_before
  IsRecord-run r h = safe_id_text (get r "run_id") (ground arith)

  same-run_self : (r : Dict) → IsRecord digest r → same (get r "run_id") (get r "run_id") ≡ true
  same-run_self r h = let (t, e) = IsRecord-run r h in rw e (same-str_self t)

  validate-IsSlot : (v : Value) (r : Dict) → validate_deployment_record digest v ≡ ok r → IsSlot v
  validate-IsSlot v r h =
      let (e, accepted) = validate-IsRecord digest v r h in subst IsSlot (sym e) accepted

  pub check_current-IsSlot :
      (v run p pr : Value) → check_current digest v run p pr ≡ ok tt → IsSlot v
  unfolding check_current
  check_current-IsSlot null run p pr h = tt
  check_current-IsSlot v run p pr h = let (r, e, _) = >>=-eq-ok _ _ h in validate-IsSlot v r e

  pub check_previous-IsSlot : (v run : Value) → check_previous digest v run ≡ ok tt → IsSlot v
  unfolding check_previous
  check_previous-IsSlot null run h = tt
  check_previous-IsSlot v run h = let (r, e, _) = >>=-eq-ok _ _ h in validate-IsSlot v r e

  pub record StateChecks (s : Dict) : Type 0 where
    pub version : same (get s "schema_version") (num 2) ≡ true
    pub shape : has_exactly state_fields s ≡ true
    pub now :
        check_current digest (current s) (get s "current") (previous s) (get s "previous") ≡ ok tt
    pub before : check_previous digest (previous s) (get s "previous") ≡ ok tt
    pub stamp : (is_null (get s "promoted_at") || is_str (get s "promoted_at")) ≡ true

  pub validate_state-checks :
      (v : Value) (s : Dict) → validate_state digest false v ≡ ok s → (v ≡ obj s) × StateChecks s
  unfolding validate_state v2_state
  validate_state-checks (obj d) s h = ground arith
  validate_state-checks v s h = cc

  pub checks-validate_state :
      (s : Dict) → StateChecks s → validate_state digest false (obj s) ≡ ok s
  unfolding validate_state v2_state
  checks-validate_state s h = ground arith

  check_previous-run_of : (v : Value) → IsSlot v → check_previous digest v (run_of v) ≡ ok tt
  unfolding check_previous
  check_previous-run_of null h = refl
  check_previous-run_of (obj p) h = rw (IsRecord-validate digest p h) (rw (same-run_self p h))
  check_previous-run_of v h = absurd h

  -- The state that a transition builds passes `validate_state`.
  pub next_state-checks :
      (r : Dict) (p : Value) (at : String)
      → IsRecord digest r
      → IsSlot p
      → StateChecks (next_state r p at)
  unfolding get has_exactly same check_current
  next_state-checks r p at h hp = record {
    version = refl;
    shape = refl;
    now = rw (IsRecord-validate digest r h) (rw (same-run_self r h));
    before = check_previous-run_of p hp;
    stamp = refl;
  }

  pub next_state-valid :
      (r : Dict) (p : Value) (at : String)
      → IsRecord digest r
      → IsSlot p
      → validate_state digest false (obj (next_state r p at)) ≡ ok (next_state r p at)
  next_state-valid r p at h hp = checks-validate_state _ (next_state-checks r p at h hp)

  pub validate_state-IsState :
      (v : Value) (s : Dict)
      → validate_state digest false v ≡ ok s
      → validate_state digest false (obj s) ≡ ok s
  validate_state-IsState v s h =
      subst (λ w. validate_state digest false w ≡ ok s) (validate_state-checks v s h).0 h

pub current-next_state : (r : Dict) (p : Value) (at : String) → current (next_state r p at) ≡ obj r
unfolding get
current-next_state r p at = refl

pub previous-next_state : (r : Dict) (p : Value) (at : String) → previous (next_state r p at) ≡ p
unfolding get
previous-next_state r p at = refl
