-- ===== src/Deployment/Reachable.antt =====
-- The active state as a state machine: what holds after any promotions and rollbacks.
use homeops_ai.Prelude.{String, ◌≡◌, false, Option, subst}
use homeops_ai.Prelude.Result.{ok, >>=-eq-ok}
use homeops_ai.Value.{Value, str, obj, Dict, get}
use homeops_ai.Deployment.{
  Selection, validate_state, deployment_identity, select_deployment, rollback_transition, swap,
}
use homeops_ai.Deployment.Records.{IsRecord-id}
use homeops_ai.Deployment.States.{current, previous, IsSlot, validate_state-IsState}
use homeops_ai.Deployment.Transitions.{IsStateOf, current-IsSlot, select_deployment-IsStateOf}

module _ (digest : Value → String) where
  -- One call of a transition on the selected state that does not raise. A call that raises leaves
  -- the state file alone.
  pub data Step (s : Dict) : Dict → Type 0 where
    select :
        {t : Dict} (candidate : Value) (expected : Option String) (at : String) (o : Selection)
        → select_deployment digest (obj s) candidate expected at ≡ ok (t, o)
        → Step s t
    rollback : {t : Dict} (at : String) → rollback_transition digest (obj s) at ≡ ok t → Step s t

  pub data Reach (s : Dict) : Dict → Type 0 where
    here : Reach s s
    next : {t u : Dict} → Reach s t → Step t u → Reach s u

  swap-IsStateOf :
      (c p : Value) (at : String) (s : Dict) → swap digest c p at ≡ ok s → IsStateOf digest s
  unfolding swap
  swap-IsStateOf (obj c) (obj p) at s h = validate_state-IsState digest _ s h
  swap-IsStateOf v w at s h = cc

  Step-IsStateOf : {s t : Dict} → Step s t → IsStateOf digest t
  unfolding rollback_transition
  Step-IsStateOf {s} {t} (select candidate expected at o h) =
      select_deployment-IsStateOf digest (obj s) candidate expected at t o h
  Step-IsStateOf {s} {t} (rollback at h) =
      let (u, _, h1) =
        >>=-eq-ok (validate_state digest false (obj s))
          (λ u. swap digest (current u) (previous u) at) h in
      swap-IsStateOf (current u) (previous u) at t h1

  pub Reach-IsStateOf : {s t : Dict} → IsStateOf digest s → Reach s t → IsStateOf digest t
  Reach-IsStateOf h here = h
  Reach-IsStateOf h (next r st) = Step-IsStateOf st

  -- After any promotions and rollbacks from an accepted state, the state is accepted, and if it
  -- selects a deployment, the deployment's identifier is the digest of its identity.
  pub Reach-selected :
      (s t c : Dict)
      → IsStateOf digest s
      → Reach s t
      → current t ≡ obj c
      → IsStateOf digest t
        × (get c "deployment_id" ≡ str (digest (obj (deployment_identity (get c)))))
  Reach-selected s t c h r e =
      let accepted = Reach-IsStateOf h r in
      (accepted, IsRecord-id digest c (subst (IsSlot digest) e (current-IsSlot digest t accepted)))
