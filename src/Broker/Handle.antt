-- ===== src/Broker/Handle.antt =====
-- `handle`, `_capture` and `_status` of src/homeops_ai/write_broker.py.
use homeops_ai.Prelude.{lookup}
use homeops_ai.Prelude.{
  String, Bool, true, false, not, ◌&&◌, Option, none, some, List, [], ◌∷◌, str_eq, if◌then◌else◌,
  mem,
}
use homeops_ai.Prelude.Result.{Result, ok, err, ◌>>=◌, ◌>>◌, guard}
use homeops_ai.Text.{join}
use homeops_ai.Text.Chars.{take_chars}
use homeops_ai.Value.{Value, bool, str, obj, num, Dict, end, field, get, insert, same, has_exactly}
use homeops_ai.Broker.Note.{
  BrokerError, protocol_error, broker_error, os_failure, Note, validate_identity, validate_uuid4,
  normalize_note,
}
use homeops_ai.Broker.Filename.{safe_filename_title}
use homeops_ai.Broker.State.{
  Host, Intent, Env, World, Reply, Entry, synced, respond, rejected, note_value, fingerprint,
  render_capture, result_of, read_bounded, is_target, protocol,
}
use homeops_ai.Broker.Process.{process_intent, waiting}

abbrev pub not_found : (request_id : String) → Dict
not_found id = respond "NOT_FOUND" (field "request_id" (str id) end)

abbrev pub conflict : (request_id : String) → Dict
conflict id =
    respond "REQUEST_ID_CONFLICT" (field "request_id" (str id) (field "retryable" (bool false) end))

-- A checked request.
pub data Command : Type 0 where
  unknown_subject : (request_id : String) → Command
  rejected_note : (request_id message : String) → Command
  capture_note : (request_id actor client : String) → Note → Command
  write_status : (request_id actor : String) → Command

module _ (host : Host) where
  unfoldable pub request_hash_of : Note → String
  request_hash_of n = host.sha256 (host.canonical_json (note_value n))

  abbrev unsigned_intent : Env → (request_id actor client : String) → Note → Intent
  unsigned_intent env id actor client n = record {
    request_id = id;
    request_hash = request_hash_of n;
    actor_fingerprint = actor;
    client_fingerprint = client;
    created_at = env.now;
    document_id = env.new_id;
    target =
        join "" ("Capture - " ∷ safe_filename_title n.title ∷ " - " ∷ take_chars 8 id ∷ ".md" ∷ []);
    note = n;
    content_sha256 = "";
  }

  unfoldable pub new_intent : Env → (request_id actor client : String) → Note → Intent
  new_intent env id actor client n =
      let i = unsigned_intent env id actor client n in
      record i { content_sha256 = host.sha256 (render_capture host i) }

  abbrev pub is_same_request : Intent → (actor : String) → Note → Bool
  is_same_request i actor n =
      str_eq i.request_hash (request_hash_of n) && str_eq i.actor_fingerprint actor

  abbrev pub capture_at :
      Env → (request_id actor client : String) → Note → World → Option Intent → Reply
  capture_at env id actor client n w (some i) =
      if is_same_request i actor n then process_intent host env i true w else (w, ok (conflict id))
  capture_at env id actor client n w none =
      let i = new_intent env id actor client n in
      process_intent host env i false (record w { requests = (id, i) ∷ w.requests })

  unfoldable pub capture : Env → (request_id actor client : String) → Note → World → Reply
  capture env id actor client n w = capture_at env id actor client n w (lookup id w.requests)

  abbrev pub status_of_entry : Env → Intent → (content : String) → World → Option Entry → Reply
  status_of_entry env i content w none = waiting w i "awaiting-capture-retry"
  status_of_entry env i content w (some e) =
      let w1 = synced env 1 w in
      if str_eq (read_bounded (lookup i.target w1.vault)) content
      then waiting w1 i "capture-present-awaiting-retry"
      else (w1, ok (rejected i.request_id "capture target exists with different content"))

  abbrev pub status_without_result : Env → Intent → World → Reply
  status_without_result env i w =
      let content = render_capture host i in
      if not (str_eq (host.sha256 content) i.content_sha256)
      then (w, err (broker_error "broker intent content is invalid"))
      else if not (is_target i.target)
      then (w, err (broker_error "broker intent target is invalid"))
      else if env.cannot_stat
      then (synced env 0 w, err os_failure)
      else (let w0 = synced env 0 w in status_of_entry env i content w0 (lookup i.target w0.vault))

  abbrev pub status_result : Env → Intent → World → Result BrokerError (Option Dict) → Reply
  status_result env i w (err e) = (w, err e)
  status_result env i w (ok (some r)) = (w, ok (insert "idempotent" (bool true) r))
  status_result env i w (ok none) = status_without_result env i w

  abbrev pub status_at : Env → (request_id actor : String) → World → Option Intent → Reply
  status_at env id actor w none = (w, ok (not_found id))
  status_at env id actor w (some i) =
      if str_eq i.actor_fingerprint actor
      then status_result env i w (result_of w id)
      else (w, ok (not_found id))

  unfoldable pub status : Env → (request_id actor : String) → World → Reply
  status env id actor w = status_at env id actor w (lookup id w.requests)

  abbrev message_of : BrokerError → String
  message_of (protocol_error m) = m
  message_of (broker_error m) = m
  message_of os_failure = ""

  abbrev noted : (request_id actor client : String) → Result BrokerError Note → Command
  noted id actor client (ok n) = capture_note id actor client n
  noted id actor client (err e) = rejected_note id (message_of e)

  abbrev is_operation : Value → String → Bool
  is_operation v name = same v (str name)

  abbrev capture_fields : List String
  capture_fields =
      "schema_version" ∷ "protocol" ∷ "operation" ∷ "request_id" ∷ "actor" ∷ "note" ∷ []

  abbrev status_fields : List String
  status_fields = "schema_version" ∷ "protocol" ∷ "operation" ∷ "request_id" ∷ "actor" ∷ []

  unfoldable pub command_of :
      Dict → (request_id subject client_id : String) → Result BrokerError Command
  command_of r id subject client_id =
      let actor = fingerprint host "subject" subject in
      if is_operation (get r "operation") "capture_note"
      then (guard (has_exactly capture_fields r)
            (protocol_error "capture request has an invalid shape")
          >> ok (
              noted id actor (fingerprint host "client" client_id)
                (normalize_note host.nfkc host.casefold (get r "note"))))
      else if is_operation (get r "operation") "write_status"
      then (guard (has_exactly status_fields r)
            (protocol_error "status request has an invalid shape")
          >> ok (write_status id actor))
      else err (protocol_error "unknown write-broker operation")

  abbrev actor_of : Value → Result BrokerError Dict
  actor_of (obj a) = do
    guard (has_exactly ("subject" ∷ "client_id" ∷ []) a)
        (protocol_error "actor has an invalid shape")
    ok a
  actor_of v = err (protocol_error "actor has an invalid shape")

  unfoldable pub parse_request :
      (allowed_subjects : List String) → Value → Result BrokerError Command
  parse_request allowed (obj r) = do
    guard (same (get r "schema_version") (num 1) && same (get r "protocol") (str protocol))
        (protocol_error "unsupported write-broker protocol")
    id ← validate_uuid4 (get r "request_id") "request_id"
    a ← actor_of (get r "actor")
    subject ← validate_identity (get a "subject") "subject" 512
    client_id ← validate_identity (get a "client_id") "client_id" 512
    if mem subject allowed then command_of r id subject client_id else ok (unknown_subject id)
  parse_request allowed v = err (protocol_error "request must be an object")

  unfoldable pub run : Env → Command → World → Reply
  run env (unknown_subject id) w = (w, ok (not_found id))
  run env (rejected_note id message) w = (w, ok (rejected id message))
  run env (capture_note id actor client n) w = capture env id actor client n w
  run env (write_status id actor) w = status env id actor w

  abbrev pub handle_parsed : Env → World → Result BrokerError Command → Reply
  handle_parsed env w (err e) = (w, err e)
  handle_parsed env w (ok c) = run env c w

  unfoldable pub handle : (allowed_subjects : List String) → Env → Value → World → Reply
  handle allowed env request w = handle_parsed env w (parse_request allowed request)
