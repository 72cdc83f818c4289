-- ===== src/Deployment/Records.antt =====
-- What the record checks of deployment.py accept.
use mathlib.Core.Path.{fun_ext}
use homeops_ai.Prelude.{String, ◌≡◌, refl, ◌≢◌, true, arith, eq_iff, str_eq, if◌then◌else◌}
use homeops_ai.Prelude.Result.{ok}
use homeops_ai.Value.{Value, str, obj, Dict, get, has_exactly}
use homeops_ai.Value.Laws.{get-insert, has_exactly-insert, same-str}
use homeops_ai.Deployment.{
  deployment_identity, promoted_at_ok, checks_before, checks_after, validate_deployment_record,
  promote_at, record_fields,
}

module _ (digest : Value → String) where
  -- The checks that `validate_deployment_record` makes, as facts.
  pub record IsRecord (r : Dict) : Type 0 where
    pub shape : has_exactly record_fields r ≡ true
    pub before : checks_before digest (get r) ≡ ok tt
    pub stamped : promoted_at_ok (get r "promoted_at") ≡ true
    pub after : checks_after digest (get r) ≡ ok tt

  pub validate-IsRecord :
      (v : Value) (r : Dict) → validate_deployment_record digest v ≡ ok r → (v ≡ obj r) × IsRecord r
  unfolding validate_deployment_record
  validate-IsRecord (obj d) r h = ground arith
  validate-IsRecord v r h = cc

  pub IsRecord-validate : (r : Dict) → IsRecord r → validate_deployment_record digest (obj r) ≡ ok r
  unfolding validate_deployment_record
  IsRecord-validate r h = ground arith

  -- The identifier of an accepted record is the digest of its identity.
  pub IsRecord-id :
      (r : Dict)
      → IsRecord r
      → get r "deployment_id" ≡ str (digest (obj (deployment_identity (get r))))
  unfolding checks_after
  IsRecord-id r h = same-str _ _ (ground arith)

  get-promote_at :
      (at : String) (r : Dict)
      → get (promote_at at r) ≡ (λ k. if str_eq "promoted_at" k then str at else get r k)
  get-promote_at at r = fun_ext λ k. get-insert "promoted_at" k (str at) r

  -- A stamp that is not empty leaves an accepted record accepted.
  pub promote_at-IsRecord :
      (at : String) (r : Dict) → at ≢ "" → IsRecord r → IsRecord (promote_at at r)
  unfolding checks_before checks_after deployment_identity
  promote_at-IsRecord at r n h = record {
    shape = has_exactly-insert record_fields "promoted_at" (str at) r refl h.shape;
    before = rw get-promote_at h.before;
    stamped = rw get-promote_at (ground (arith, eq_iff at ""));
    after = rw get-promote_at h.after;
  }

  -- Nor does it change the record's identity.
  pub identity-promote_at :
      (at : String) (r : Dict)
      → deployment_identity (get (promote_at at r)) ≡ deployment_identity (get r)
  unfolding deployment_identity
  identity-promote_at at r = rw get-promote_at
