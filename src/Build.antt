-- ===== src/Build.antt =====
-- src/homeops_ai/build.py: the changes of the data directory that select a deployment, promotion and
-- rollback, with the durable writes of deployment.py. `Data` is the data directory with the file
-- current.json next to it. A write may fail before it has changed its file, or after, when the
-- directory cannot be synced; a `Plan` says which do. The lock of the data directory lets one call
-- at a time through.
pub mod Candidate
pub mod Rollback
pub mod Promote
pub mod Facts
pub mod Faults
pub mod Selected
pub mod Atomic
pub mod Recovery
pub mod Interrupted
pub mod Kept
pub mod Outcome
pub mod Promotion
use homeops_ai.Prelude.{
  String, Bool, true, false, not, ◌&&◌, Option, none, some, List, [], ◌∷◌, str_eq, if◌then◌else◌,
  lookup,
}
use homeops_ai.Prelude.Result.{Result, ok, err}
use homeops_ai.Prelude.Effect.{Effect, return, raise, ◌>>=◌, ◌>>◌, ensure, lift}
use homeops_ai.Text.{join}
use homeops_ai.Value.{Value, null, str, obj, Dict, get, same, num}
use homeops_ai.Deployment.{
  Error, deployment_error, promotion_conflict, validate_safe_id, validate_deployment_record,
  empty_state, validate_state, is_dict,
}
use homeops_ai.Deployment.Serving.{truthy, current_projection}
use homeops_ai.Pipeline.{fields_of}

pub data Failure : Type 0 where
  build_error : (message : String) → Failure
  of_deployment : (error : Error) → Failure
  os_error : Failure

pub data Fault : Type 0 where
  fine before after : Fault

-- What happens to the writes that are still to come; the last entry is followed by writes that work.
abbrev pub Plan : Type 0
Plan = List Fault

-- `active` and `journal` are what the files active.json and rollback.json hold, if they are there.
-- `deployments` is by identifier, `history` by identifier and the name of the promotion time.
pub record Data : Type 0 where
  pub active : Option Value
  pub journal : Option Dict
  pub deployments : List (String × Dict)
  pub history : List (String × Dict)
  pub projection : Option Dict

-- `encode` stands for the JSON text of a record, `name_of_time` for the SHA-256 of a text.
pub record Host : Type 0 where
  pub digest : Value → String
  pub encode : Value → String
  pub name_of_time : String → String

abbrev pub Run {ℓ} : Type ℓ → Type ℓ
Run A = Effect (Data × Plan) Failure A

-- One access to the disk: `late` is what an error after the change leaves.
abbrev pub access : (done late : Data → Data) → Run (Unit {0})
access done late (d, []) = ((done d, []), ok tt)
access done late (d, fine ∷ plan) = ((done d, plan), ok tt)
access done late (d, before ∷ plan) = ((d, plan), err os_error)
access done late (d, after ∷ plan) = ((late d, plan), err os_error)

-- `durable_atomic_json`, and its like: an error after the replacement leaves the new file.
unfoldable pub write : (Data → Data) → Run (Unit {0})
write done = access done done

-- `_fsync_path`
unfoldable pub sync : Run (Unit {0})
sync = access (λ d. d) (λ d. d)

abbrev pub text_of : Value → String
text_of (str s) = s
text_of v = ""

-- `except DeploymentError as error: raise BuildError(str(error))`
abbrev pub message_of : Error → String
message_of (deployment_error m) = m
message_of (promotion_conflict m) = m

abbrev pub as_build {ℓ} : {A : Type ℓ} → Result Error A → Result Failure A
as_build (ok value) = ok value
as_build (err e) = err (build_error (message_of e))

-- A `DeploymentError` that goes through.
abbrev pub as_raised {ℓ} : {A : Type ℓ} → Result Error A → Result Failure A
as_raised (ok value) = ok value
as_raised (err e) = err (of_deployment e)

abbrev pub requires : Bool → String → Run (Unit {0})
requires test message = ensure test (build_error message)

module _ (host : Host) where
  -- `durable_create_json`: the file of `found` is there; an error unlinks a file that was made.
  unfoldable pub create : (found : Option Dict) (new : Dict) (add : Data → Data) → Run (Unit {0})
  create none r add = access add (λ d. d)
  create (some old) r add =
      ensure (str_eq (host.encode (obj old)) (host.encode (obj r)))
        (of_deployment (deployment_error "immutable record already exists with other bytes"))

  unfoldable pub create_deployment : Dict → Run (Unit {0})
  unfolding create
  create_deployment r (d, plan) =
      let id = text_of (get r "deployment_id") in
      create (lookup id d.deployments) r (λ e. record e { deployments = (id, r) ∷ e.deployments })
        (d, plan)

  -- `store_deployment`
  unfoldable pub store_deployment : Value → Run (Unit {0})
  unfolding validate_deployment_record validate_safe_id create_deployment
  store_deployment v = do
    checked ← lift (as_raised (validate_deployment_record host.digest v))
    lift (as_raised (validate_safe_id (get checked "deployment_id")))
    create_deployment checked

  -- `deployment-history/<deployment_id>/<name of the time>.json`
  unfoldable pub history_name : Dict → String
  unfolding join
  history_name r =
      join "/"
        (text_of (get r "deployment_id") ∷ host.name_of_time (text_of (get r "promoted_at")) ∷ [])

  unfoldable pub stored_state : Option Value → Result Error Dict
  unfolding validate_state
  stored_state none = ok empty_state
  stored_state (some v) = validate_state host.digest true v

  -- `active_state`
  unfoldable pub active_state : Run Dict
  unfolding stored_state
  active_state (d, plan) = ((d, plan), as_build (stored_state d.active))

  unfoldable pub create_history : Dict → Run (Unit {0})
  unfolding create history_name
  create_history r (d, plan) =
      let name = history_name r in
      create (lookup name d.history) r (λ e. record e { history = (name, r) ∷ e.history }) (d, plan)

  -- `_store_promoted_record`
  unfoldable pub store_promoted_record : Value → Run (Unit {0})
  unfolding validate_deployment_record create_history
  store_promoted_record v = do
    checked ← lift (as_raised (validate_deployment_record host.digest v))
    requires (truthy (get checked "promoted_at"))
        "promoted deployment record lacks promotion timestamp"
    create_history checked

  -- `publish_current_projection`
  unfoldable pub publish_projection : Dict → Run (Unit {0})
  unfolding current_projection write
  publish_projection state = do
    projection ← lift (as_raised (current_projection host.digest (obj state)))
    write (λ d. record d { projection = some projection })

  -- `_repair_selected_bookkeeping_locked`
  unfoldable pub repair : (expected : Value) → Run Dict
  unfolding validate_safe_id same active_state sync store_promoted_record publish_projection
  repair expected = do
    lift (as_raised (validate_safe_id expected))
    state ← active_state
    requires (same (get state "schema_version") (num 2))
        "selected deployment bookkeeping requires schema-v2 state"
    let current = get state "current_deployment"
    requires (is_dict current && same (get (fields_of current) "deployment_id") expected)
        "selected deployment changed before bookkeeping repair"
    sync
    store_promoted_record current
    publish_projection state
    return state
