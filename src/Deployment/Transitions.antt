-- ===== src/Deployment/Transitions.antt =====
-- Promotion and rollback of deployment.py: which states they give, and when they refuse.
use homeops_ai.Prelude.{
  String, ◌≡◌, refl, ◌≢◌, str_eq, Bool, true, false, ◌&&◌, Option, arith, subst, if◌then◌else◌,
  Bool-cases, inl, inr,
}
use homeops_ai.Prelude.Result.{Result, ok, err, ◌>>=◌, >>=-eq-ok}
use homeops_ai.Value.{Value, null, str, obj, Dict, get, same}
use homeops_ai.Value.Laws.{get-insert}
use homeops_ai.Deployment.{
  Error, promotion_conflict, deployment_error, validate_deployment_record, validate_state,
  promote_at, next_state, select_deployment, select_checked, rollback_transition, Selection,
  unchanged, promoted, id_of, or_none, is_dict, swap, run_of, deployment_identity,
}
use homeops_ai.Deployment.Records.{validate-IsRecord, promote_at-IsRecord, identity-promote_at}
use homeops_ai.Deployment.States.{
  current, previous, IsSlot, next_state-valid, current-next_state, previous-next_state,
  validate_state-IsState, validate_state-checks, check_current-IsSlot, check_previous-IsSlot,
}

-- The identity of the record in a slot: what its identifier covers.
abbrev pub IsStateOf : (Value → String) → Dict → Type 0
IsStateOf digest s = validate_state digest false (obj s) ≡ ok s

-- The run id of the record in a slot.
abbrev run_within : Value → Value
run_within (obj r) = get r "run_id"
run_within _ = null

-- A state that has switched to a record at a time: what the slots held before is `was`.
pub record IsSwitch (was : Value) (r : Dict) (at : String) (t : Dict) : Type 0 where
  pub deployment : Dict
  pub now : get t "current_deployment" ≡ obj deployment
  pub fields :
      (k : String) → get deployment k ≡ (if str_eq "promoted_at" k then str at else get r k)
  pub run : get t "current" ≡ get r "run_id"
  pub before : get t "previous_deployment" ≡ was
  pub run_before : get t "previous" ≡ run_within was
  pub stamp : get t "promoted_at" ≡ str at

run_of-run_within : (v : Value) → run_of v ≡ run_within v
run_of-run_within (obj r) = refl
run_of-run_within v = refl

pub next-IsSwitch :
    (r : Dict) (was : Value) (at : String) → IsSwitch was r at (next_state (promote_at at r) was at)
unfolding get
next-IsSwitch r was at = record {
  deployment = promote_at at r;
  now = refl;
  fields = λ k. get-insert "promoted_at" k (str at) r;
  run = get-insert "promoted_at" "run_id" (str at) r;
  before = refl;
  run_before = run_of-run_within was;
  stamp = refl;
}

module _ (digest : Value → String) where
  -- Is the candidate the deployment that the state has selected?
  abbrev pub is_selected : Dict → Dict → Bool
  is_selected s c = is_dict (current s) && same (id_of (current s)) (get c "deployment_id")

  -- Is the selected deployment the one that the caller expects to replace?
  abbrev pub is_expected : Dict → Option String → Bool
  is_expected s expected = same (id_of (current s)) (or_none expected)

  pub current-IsSlot : (s : Dict) → IsStateOf digest s → IsSlot digest (current s)
  current-IsSlot s h =
      let (_, checks) = validate_state-checks digest (obj s) s h in
      check_current-IsSlot digest _ _ _ _ checks.now

  pub previous-IsSlot : (s : Dict) → IsStateOf digest s → IsSlot digest (previous s)
  previous-IsSlot s h =
      let (_, checks) = validate_state-checks digest (obj s) s h in
      check_previous-IsSlot digest _ _ checks.before

  pub promoted-IsStateOf :
      (s c : Dict) (at : String)
      → IsStateOf digest s
      → validate_deployment_record digest (obj c) ≡ ok c
      → at ≢ ""
      → IsStateOf digest (next_state (promote_at at c) (current s) at)
  promoted-IsStateOf s c at hs hc n =
      next_state-valid digest (promote_at at c) (current s) at
        (promote_at-IsRecord digest at c n (validate-IsRecord digest (obj c) c hc).1)
        (current-IsSlot s hs)

  -- The branches of `select_deployment` over an accepted state and an accepted record.
  pub selection-branches :
      (s c : Dict) (expected : Option String) (at : String)
      → IsStateOf digest s
      → validate_deployment_record digest (obj c) ≡ ok c
      → at ≢ ""
      → select_deployment digest (obj s) (obj c) expected at ≡ (
          if is_selected s c
          then ok (s, unchanged)
          else if is_expected s expected
          then ok (next_state (promote_at at c) (current s) at, promoted)
          else err (promotion_conflict "active deployment changed"))
  unfolding select_deployment select_checked
  selection-branches s c expected at hs hc n = rw hs (
      rw hc (elim (Bool-cases (is_selected s c)) [
        | inl e ↦ rw e
        | inr e ↦ rw e (elim (Bool-cases (is_expected s expected)) [
          | inl x ↦ rw x (rw (promoted-IsStateOf s c at hs hc n))
          | inr x ↦ rw x
        ])
      ]))

  -- What `select_deployment` answers, for each of the cases of a candidate.
  abbrev IsAnswer :
      (s c : Dict) (at : String) (selected expected : Bool)
      → Result Error (Dict × Selection)
      → Type 0
  IsAnswer s c at true e x = x ≡ ok (s, unchanged)
  IsAnswer s c at false false x = x ≡ err (promotion_conflict "active deployment changed")
  IsAnswer s c at false true x =
      (t : Dict) × ((x ≡ ok (t, promoted)) × IsSwitch (get s "current_deployment") c at t)

  -- Over an accepted state and an accepted record, at a time that is not the empty text,
  -- `select_deployment` answers as follows. If the record is selected already, it returns the state
  -- as it is, whatever deployment the caller expects. Otherwise, if the selected deployment is not
  -- the expected one, it raises `PromotionConflict`. Otherwise it returns a state in which the
  -- record is the current deployment, with the time as its `promoted_at` and all else as it was,
  -- what was selected is the previous deployment, and the run ids and the time are those of both.
  pub select_deployment_lem :
      (s c : Dict) (expected : Option String) (at : String)
      → IsStateOf digest s
      → validate_deployment_record digest (obj c) ≡ ok c
      → at ≢ ""
      → IsAnswer s c at
          (is_selected s c)
          (is_expected s expected)
          (select_deployment digest (obj s) (obj c) expected at)
  select_deployment_lem s c expected at hs hc n =
      rw (selection-branches s c expected at hs hc n) (elim (Bool-cases (is_selected s c)) [
        | inl e ↦ rw e refl
        | inr e ↦ rw e (elim (Bool-cases (is_expected s expected)) [
          | inl x ↦
              rw x (
                next_state (promote_at at c) (current s) at,
                (refl, next-IsSwitch c (current s) at),
              )
          | inr x ↦ rw x refl
        ])
      ])

  select_checked-IsStateOf :
      (t c : Dict) (expected : Option String) (at : String) (s : Dict) (o : Selection)
      → IsStateOf digest t
      → select_checked digest t c expected at ≡ ok (s, o)
      → IsStateOf digest s
  unfolding select_checked
  select_checked-IsStateOf t c expected at s o ht h =
      ground
        (arith, validate_state-IsState digest (obj (next_state (promote_at at c) (current t) at)) s)

  pub select_deployment-IsStateOf :
      (state candidate : Value) (expected : Option String) (at : String) (s : Dict) (o : Selection)
      → select_deployment digest state candidate expected at ≡ ok (s, o)
      → IsStateOf digest s
  unfolding select_deployment
  select_deployment-IsStateOf state candidate expected at s o h =
      let (selected, hs, h1) =
        >>=-eq-ok (validate_state digest false state)
          (λ t. validate_deployment_record digest candidate >>= λ c.
            select_checked digest t c expected at)
          h in
      let (checked, _, h2) =
        >>=-eq-ok (validate_deployment_record digest candidate)
          (λ c. select_checked digest selected c expected at) h1 in
      select_checked-IsStateOf selected checked expected at s o
        (validate_state-IsState digest state selected hs) h2

  -- Two accepted records with different identifiers, both prepared against the deployment that an
  -- accepted state has selected, neither of the two selected yet: once the first is promoted, the
  -- promotion of the second raises `PromotionConflict`, if the first is not the one it expects.
  pub second_promotion_conflicts :
      (s a b : Dict) (expected : Option String) (at later : String)
      → IsStateOf digest s
      → validate_deployment_record digest (obj a) ≡ ok a
      → validate_deployment_record digest (obj b) ≡ ok b
      → at ≢ ""
      → later ≢ ""
      → is_selected s a ≡ false
      → is_expected s expected ≡ true
      → same (get a "deployment_id") (get b "deployment_id") ≡ false
      → same (get a "deployment_id") (or_none expected) ≡ false
      → (select_deployment digest (obj s) (obj a) expected at >>= λ r.
          select_deployment digest (obj r.0) (obj b) expected later)
        ≡ err (promotion_conflict "active deployment changed")
  second_promotion_conflicts s a b expected at later hs ha hb n m new here other moved =
      rw (selection-branches s a expected at hs ha n) (
        rw (new, here)
          (rw
            (selection-branches (next_state (promote_at at a) (current s) at) b expected later
              (promoted-IsStateOf s a at hs ha n) hb m)
            (rw (
              current-next_state,
              get-insert "promoted_at" "deployment_id" (str at) a,
              other,
              moved,
            ))))

  -- What a rollback at a time gives of the selected and the previous deployment.
  abbrev pub exchanged : (current previous : Value) → String → Result Error Dict
  exchanged (obj c) (obj p) at = ok (next_state (promote_at at p) (obj c) at)
  exchanged c p at =
      err (deployment_error "rollback requires current and previous verified deployments")

  swap-exchanged :
      (c p : Value) (at : String)
      → IsSlot digest c
      → IsSlot digest p
      → at ≢ ""
      → swap digest c p at ≡ exchanged c p at
  unfolding swap
  swap-exchanged (obj c) (obj p) at hc hp n =
      next_state-valid digest (promote_at at p) (obj c) at (promote_at-IsRecord digest at p n hp) hc
  swap-exchanged (obj c) null at hc hp n = refl
  swap-exchanged null p at hc hp n = refl
  swap-exchanged c p at hc hp n = refl

  -- The branches of `rollback_transition` over an accepted state.
  pub rollback-branches :
      (s : Dict) (at : String)
      → IsStateOf digest s
      → at ≢ ""
      → rollback_transition digest (obj s) at ≡ exchanged (current s) (previous s) at
  unfolding rollback_transition
  rollback-branches s at hs n =
      rw hs
        (swap-exchanged (current s) (previous s) at (current-IsSlot s hs) (previous-IsSlot s hs) n)

  -- What `rollback_transition` answers, for what the two slots hold.
  abbrev IsRollback : (current previous : Value) → String → Result Error Dict → Type 0
  IsRollback (obj c) (obj p) at x = (t : Dict) × ((x ≡ ok t) × IsSwitch (obj c) p at t)
  IsRollback c p at x =
      x ≡ err (deployment_error "rollback requires current and previous verified deployments")

  exchanged-IsRollback : (c p : Value) (at : String) → IsRollback c p at (exchanged c p at)
  exchanged-IsRollback (obj c) (obj p) at =
      (next_state (promote_at at p) (obj c) at, (refl, next-IsSwitch p (obj c) at))
  exchanged-IsRollback (obj c) p at = refl
  exchanged-IsRollback c p at = refl

  -- Rollback of an accepted state that has both deployments, at a time that is not the empty text,
  -- returns a state in which the previous one is current, with the time as its `promoted_at` and all
  -- else as it was, the current one is the previous one, unchanged, and the run ids and the time are
  -- those of both. If one of the two is missing, it raises `DeploymentError`.
  pub rollback_transition_lem :
      (s : Dict) (at : String)
      → IsStateOf digest s
      → at ≢ ""
      → IsRollback
          (get s "current_deployment")
          (get s "previous_deployment")
          at
          (rollback_transition digest (obj s) at)
  rollback_transition_lem s at hs n =
      rw (rollback-branches s at hs n) (exchanged-IsRollback (current s) (previous s) at)

  -- Rolling back twice an accepted state that has both deployments selects the first deployment again, with the identity that it had, and keeps
  -- the second, with its identity, as the previous one.
  pub rollback_twice :
      (s c p : Dict) (at later : String)
      → IsStateOf digest s
      → at ≢ ""
      → later ≢ ""
      → current s ≡ obj c
      → previous s ≡ obj p
      → ((rollback_transition digest (obj s) at >>= λ t. rollback_transition digest (obj t) later)
          ≡ ok (next_state (promote_at later c) (obj (promote_at at p)) later))
        × (deployment_identity (get (promote_at later c)) ≡ deployment_identity (get c))
        × (deployment_identity (get (promote_at at p)) ≡ deployment_identity (get p))
  rollback_twice s c p at later hs n m hc hp =
      let accepted_c = subst (IsSlot digest) hc (current-IsSlot s hs) in
      let accepted_p = subst (IsSlot digest) hp (previous-IsSlot s hs) in
      let middle =
        next_state-valid digest (promote_at at p) (obj c) at
          (promote_at-IsRecord digest at p n accepted_p) accepted_c in
      let t : Dict = next_state (promote_at at p) (obj c) at in
      let second = rollback-branches t later middle m in
      (
        rw (rollback-branches s at hs n) (
            rw (hc, hp)
              (rw second (
                rw (
                  current-next_state (promote_at at p) (obj c) at,
                  previous-next_state (promote_at at p) (obj c) at,
                )))),
        identity-promote_at digest later c,
        identity-promote_at digest at p,
      )
