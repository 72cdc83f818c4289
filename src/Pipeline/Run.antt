-- ===== src/Pipeline/Run.antt =====
-- The publisher's state directory and the calls that leave it, src/homeops_ai/pipeline.py: the two
-- files of the pending attempt, the last result, and a log of what a run does. A run that raises
-- keeps what it has done. The receiver, the vault and the clock answer by the length of the log,
-- so no two calls need agree. So does the disk: each change of the state directory works, or fails
-- before the change, or fails after it, as the `fsync` of the directory may.
use homeops_ai.Prelude.{ℕ, String, Bool, false, ◌&&◌, Option, none, some, List, ◌∷◌, length}
use homeops_ai.Prelude.Effect.{Effect, return, ◌>>=◌, ◌>>◌}
use homeops_ai.Prelude.Result.{Result, ok, err}
use homeops_ai.Value.{Value, str, obj, Dict, end, field, get, insert}
use homeops_ai.Pipeline.{Raised, os_failure, fields_of, redact_result, redact_fields}
use homeops_ai.Pipeline.Receiver.{Completed, answer_of}
use homeops_ai.Pipeline.Attempt.{validate_pending_attempt, same_identity, snapshot_of}

-- What a run has done, with what it sent or wrote.
pub data Event : Type 0 where
  journaled : (attempt : Dict) → Event
  recorded : (result : Dict) → Event
  archived : (digest : String) → Event
  archive_removed : Event
  retired : Event
  flushed : Event
  failed : Event
  inspected : (matches : Bool) → Event
  submitted : (archive : Option String) → Event
  polled : (body : Dict) → Event
  committed : (body : Dict) → Event
  asked_current : Event

-- What `inspect_vault` finds.
pub record Inspected : Type 0 where
  pub clean : Bool
  pub identity : Dict

-- How one change of the state directory ends.
pub data Disk : Type 0 where
  works fails_before fails_after : Disk

-- The newest event is the first of `log`.
pub record World : Type 0 where
  pub attempt : Option Dict
  pub archive : Option String
  pub last_result : Option Dict
  pub log : List Event

pub record Env : Type 0 where
  pub digest : Value → String
  pub receiver : ℕ → Completed
  pub vault : ℕ → Result Raised Inspected
  pub clock : ℕ → String
  pub monotonic : ℕ → ℕ
  pub deadline : ℕ
  pub disk : ℕ → Disk
  pub close : Result Raised (Unit {0})

abbrev pub Run {ℓ} : Type ℓ → Type ℓ
Run A = Effect World Raised A

abbrev pub logged : Event → World → World
logged e w = record w { log = e ∷ w.log }

-- A change of the state directory, with its event.
abbrev pub stored {ℓ} : {A : Type ℓ} → Disk → Event → (World → World) → A → Run A
stored works e change value w = (logged e (change w), ok value)
stored fails_before e change value w = (logged failed w, err os_failure)
stored fails_after e change value w = (logged failed (logged e (change w)), err os_failure)

-- `{**attempt, **changes}`
abbrev pub changed : (changes attempt : Dict) → Dict
changed end a = a
changed (field k v rest) a = changed rest (insert k v a)

module _ (env : Env) where
  abbrev pub write {ℓ} : {A : Type ℓ} → Event → (World → World) → A → Run A
  write e change value w = stored (env.disk (length w.log)) e change value w

  -- `transport.call`, and the event that it is
  unfoldable pub call : Event → Run Dict
  unfolding answer_of
  call e w = (logged e w, answer_of (env.receiver (length w.log)))

  unfoldable pub source_of : Dict → Result Raised Inspected → Result Raised Bool
  unfolding same_identity
  source_of a (ok i) = ok (i.clean && same_identity i.identity (snapshot_of a))
  source_of a (err e) = err e

  abbrev pub matched : Result Raised Bool → Bool
  matched (ok b) = b
  matched (err e) = false

  -- `_source_matches_pending`
  unfoldable pub source_matches_pending : Dict → Run Bool
  unfolding source_of
  source_matches_pending a w =
      let r = source_of a (env.vault (length w.log)) in (logged (inspected (matched r)) w, r)

  abbrev pub journal : World → Result Raised Dict → World × Result Raised Dict
  journal w (ok checked) =
      write (journaled checked) (λ v. record v { attempt = some checked }) checked w
  journal w (err e) = (w, err e)

  -- `_write_pending_attempt`
  unfoldable pub write_pending_attempt : Dict → Run Dict
  unfolding validate_pending_attempt
  write_pending_attempt a w = journal w (validate_pending_attempt env.digest (obj a))

  -- `_update_pending_attempt`
  unfoldable pub update_pending_attempt : (attempt changes : Dict) → Run Dict
  unfolding write_pending_attempt insert
  update_pending_attempt a changes w =
      write_pending_attempt
        (insert "updated_at" (str (env.clock (length w.log))) (changed changes a)) w

  -- `_write_last_result`
  unfoldable pub write_last_result : Dict → Run (Unit {0})
  unfolding redact_fields
  write_last_result result =
      let r = redact_result result in write (recorded r) (λ v. record v { last_result = some r }) tt

  -- `_retire_pending_attempt`
  unfoldable pub retire_pending_attempt : Run (Unit {0})
  retire_pending_attempt = do
    write archive_removed (λ v. record v { archive = none }) tt
    write retired (λ v. record v { attempt = none }) tt
    write flushed (λ v. v) tt

  -- `_resolve_pending_attempt`
  unfoldable pub resolve_pending_attempt : (attempt result : Dict) → Run Dict
  unfolding update_pending_attempt write_last_result retire_pending_attempt redact_fields
  resolve_pending_attempt a result = do
    let redacted = redact_result result
    terminal ←
        update_pending_attempt a
          (field "phase" (str "TERMINAL") (field "terminal_result" (obj redacted) end))
    write_last_result redacted
    retire_pending_attempt
    return (fields_of (get terminal "terminal_result"))
