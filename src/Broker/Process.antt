-- ===== src/Broker/Process.antt =====
-- `_process_intent` and `_publish_applied` of src/homeops_ai/write_broker.py. Each access to the
-- vault comes after what others have done to it meanwhile (`synced`).
use homeops_ai.Prelude.{lookup}
use homeops_ai.Prelude.{
  String, Bool, true, false, not, ◌||◌, Option, none, some, [], ◌∷◌, str_eq, if◌then◌else◌,
}
use homeops_ai.Prelude.Result.{Result, ok, err, ◌>>=◌}
use homeops_ai.Text.Chars.{is_uuid4}
use homeops_ai.Value.{bool, str, arr, Dict, end, field, insert}
use homeops_ai.Broker.Note.{BrokerError, protocol_error, broker_error}
use homeops_ai.Broker.State.{
  Host, Intent, Entry, regular, Vault, Inspection, Fault, before_open, before_create, before_link,
  after_link, Unlink, unlinks, fails_before, fails_after, Env, World, Reply, synced, respond,
  pending, rejected, to_items, validation_errors, has_errors, same_vault_identity, read_bounded,
  is_target, render_capture, result_of, publish_result,
}

-- `{**stored, "idempotent": b}` of a reply.
abbrev pub with_idempotent : Bool → Reply → Reply
with_idempotent b r = (r.0, r.1 >>= λ d. ok (insert "idempotent" (bool b) d))

abbrev pub applied : Env → Intent → Inspection → (recovered concurrent : Bool) → Dict
applied env i inspected recovered concurrent = respond "APPLIED" (
    field "request_id" (str i.request_id) (
      field "retryable" (bool false) (
        field "document_id" (str i.document_id) (
          field "source_path" (str i.target) (
            field "content_sha256" (str i.content_sha256) (
              field "source_fingerprint" (str inspected.source_fingerprint) (
                field "applied_at" (str env.applied_at) (
                  field "recovered" (bool recovered)
                    (field "concurrent_source_change" (bool concurrent) end)))))))))

unfoldable pub publish_applied :
    Env → Intent → Inspection → (recovered idempotent concurrent : Bool) → World → Reply
publish_applied env i inspected recovered idempotent concurrent w =
    with_idempotent idempotent (publish_result (applied env i inspected recovered concurrent) w)

-- How `_publish_note` ends: it returns, or raises `FileExistsError` or another `OSError`.
pub data Link : Type 0 where
  linked : Vault → Link
  file_exists : Vault → Link
  os_error : Vault → Link

abbrev pub without : String → Vault → Vault
without name [] = []
without name (p ∷ v) = let rest = without name v in if str_eq p.0 name then rest else p ∷ rest

-- The `finally` clause: the temporary name is removed, whether or not this call has created it.
abbrev pub cleanup : Unlink → (temporary : String) → Link → Link
cleanup unlinks t (linked v) = linked (without t v)
cleanup unlinks t (file_exists v) = file_exists (without t v)
cleanup unlinks t (os_error v) = os_error (without t v)
cleanup fails_before t (linked v) = os_error v
cleanup fails_before t (file_exists v) = os_error v
cleanup fails_before t (os_error v) = os_error v
cleanup fails_after t (linked v) = os_error (without t v)
cleanup fails_after t (file_exists v) = os_error (without t v)
cleanup fails_after t (os_error v) = os_error (without t v)

-- `os.link`, which never replaces a file.
abbrev pub link_absent : Fault → (target content : String) → Vault → Option Entry → Link
link_absent after_link target content v none = os_error ((target, regular content) ∷ v)
link_absent fault target content v none = linked ((target, regular content) ∷ v)
link_absent fault target content v (some e) = file_exists v

-- What follows the creation of the temporary file.
abbrev pub link_at : Env → (target content : String) → Vault → Fault → Link
link_at env target content v before_link =
    os_error ((env.temporary_name, regular (env.written content)) ∷ v)
link_at env target content v fault =
    let created : Vault = (env.temporary_name, regular content) ∷ v in
    link_absent fault target content created (lookup target created)

-- The body of the `try`: `O_EXCL` fails on a name that is there.
abbrev pub create_at : Env → (target content : String) → Vault → Fault → Option Entry → Link
create_at env target content v before_create o = os_error v
create_at env target content v fault none = link_at env target content v fault
create_at env target content v fault (some e) = file_exists v

abbrev pub publish_at : Env → (target content : String) → Vault → Fault → Link
publish_at env target content v before_open = os_error v
publish_at env target content v fault =
    cleanup env.unlink env.temporary_name
      (create_at env target content v fault (lookup env.temporary_name v))

-- `_publish_note`
unfoldable pub publish_note : Env → (target content : String) → Vault → Link
publish_note env target content v = publish_at env target content v env.fault

-- The inspection of a copy of the vault with the note in it.
abbrev pub inspect_candidate : Env → (target content : String) → Option Vault → Option Inspection
inspect_candidate env target content none = none
inspect_candidate env target content (some copy) = env.inspect 2 ((target, regular content) ∷ copy)

abbrev pub waiting : World → Intent → String → Reply
waiting w i state = (w, ok (pending i state))

module _ (env : Env) (i : Intent) (content : String) where
  abbrev is_concurrent : Inspection → Option Inspection → Bool
  is_concurrent candidate none = true
  is_concurrent candidate (some published) =
      has_errors published || not (same_vault_identity published candidate)

  unfoldable pub after_link_step : (idempotent : Bool) → Inspection → World → Link → Reply
  after_link_step idempotent candidate w (file_exists v) =
      waiting (record w { vault = v }) i "waiting-for-stable-vault"
  after_link_step idempotent candidate w (os_error v) =
      waiting (record w { vault = v }) i "waiting-for-writable-vault"
  after_link_step idempotent candidate w (linked v) =
      let w5 = synced env 5 (record w { vault = v }) in
      publish_applied env i candidate false idempotent
        (is_concurrent candidate (env.inspect 5 w5.vault)) w5

  abbrev link_step : (idempotent : Bool) → Inspection → World → Reply
  link_step idempotent candidate w =
      let w4 = synced env 4 w in
      after_link_step idempotent candidate w4 (publish_note env i.target content w4.vault)

  unfoldable pub with_before :
      (idempotent : Bool) → (baseline candidate : Inspection) → World → Option Inspection → Reply
  with_before idempotent baseline candidate w none = waiting w i "waiting-for-stable-vault"
  with_before idempotent baseline candidate w (some before) =
      if not (same_vault_identity before baseline) || has_errors before
      then waiting w i "waiting-for-stable-vault"
      else link_step idempotent candidate w

  abbrev pub violation : Inspection → Dict
  violation candidate =
      insert "validation_errors" (arr (to_items (validation_errors candidate)))
        (rejected i.request_id "capture would violate the vault validation contract")

  unfoldable pub with_candidate :
      (idempotent : Bool) → (baseline : Inspection) → World → Option Inspection → Reply
  with_candidate idempotent baseline w none = waiting w i "waiting-for-stable-vault"
  with_candidate idempotent baseline w (some candidate) =
      if has_errors candidate
      then publish_result (violation candidate) w
      else (let w3 = synced env 3 w in
          with_before idempotent baseline candidate w3 (env.inspect 3 w3.vault))

  unfoldable pub with_baseline : (idempotent : Bool) → World → Option Inspection → Reply
  with_baseline idempotent w none = waiting w i "waiting-for-readable-vault"
  with_baseline idempotent w (some baseline) =
      if has_errors baseline
      then waiting w i "waiting-for-valid-vault"
      else (let w2 = synced env 2 w in
          with_candidate idempotent baseline w2
            (inspect_candidate env i.target content (env.export w2.vault)))

  unfoldable pub recover : World → Option Inspection → Reply
  recover w none = waiting w i "waiting-for-readable-vault"
  recover w (some inspected) =
      if has_errors inspected
      then waiting w i "waiting-for-valid-vault"
      else publish_applied env i inspected true true false w

  -- What follows `lstat`: the entry that is there, or none.
  unfoldable pub at_destination : (idempotent : Bool) → World → Option Entry → Reply
  at_destination idempotent w none =
      let w1 = synced env 1 w in with_baseline idempotent w1 (env.inspect 1 w1.vault)
  at_destination idempotent w (some e) =
      let w1 = synced env 1 w in
      if not (str_eq (read_bounded (lookup i.target w1.vault)) content)
      then publish_result
          (rejected i.request_id "capture target already exists with different content") w1
      else (let w6 = synced env 6 w1 in recover w6 (env.inspect 6 w6.vault))

module _ (host : Host) (env : Env) where
  unfoldable pub process_new : Intent → (idempotent : Bool) → World → Reply
  process_new i idempotent w =
      let content = render_capture host i in
      if not (str_eq (host.sha256 content) i.content_sha256)
      then (w, err (broker_error "broker intent content is invalid"))
      else if not (is_target i.target)
      then (w, err (broker_error "broker intent target is invalid"))
      else if env.cannot_stat
      then waiting (synced env 0 w) i "waiting-for-readable-vault"
      else (let w0 = synced env 0 w in
          at_destination env i content idempotent w0 (lookup i.target w0.vault))

  abbrev pub stored_or :
      Intent → (idempotent : Bool) → World → Result BrokerError (Option Dict) → Reply
  stored_or i idempotent w (err e) = (w, err e)
  stored_or i idempotent w (ok (some r)) = (w, ok (insert "idempotent" (bool true) r))
  stored_or i idempotent w (ok none) = process_new i idempotent w

  unfoldable pub process_intent : Intent → (idempotent : Bool) → World → Reply
  process_intent i idempotent w =
      if not (is_uuid4 i.request_id)
      then (w, err (protocol_error "stored request_id must be a canonical UUIDv4"))
      else stored_or i idempotent w (result_of w i.request_id)
