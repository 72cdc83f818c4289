-- ===== src/Broker/State.antt =====
-- The state of the write broker of src/homeops_ai/write_broker.py, its responses and its files.
-- The broker's own directories are maps from request identifiers to what the broker has written
-- there. The vault is a map from file names; others write to it as well.
use homeops_ai.Prelude.{lookup}
use homeops_ai.Prelude.{
  ℕ, String, Bool, true, false, not, ◌&&◌, Option, none, some, List, [], ◌∷◌, map, leb, str_eq,
  ◌==◌, if◌then◌else◌, take,
}
use homeops_ai.Prelude.Result.{Result, ok, err, ◌>>=◌, ◌>>◌, guard}
use homeops_ai.Text.{join}
use homeops_ai.Text.Chars.{take_chars, utf8_len, has_code}
use homeops_ai.Value.{
  Value, Items, nil, cons, bool, str, arr, obj, num, Dict, end, field, get, same,
}
use homeops_ai.Broker.Note.{BrokerError, broker_error, Note, ends, text_of}

-- What the broker calls of Python's libraries.
pub record Host : Type 0 where
  pub nfkc : String → String
  pub casefold : String → String
  pub sha256 : String → String
  pub canonical_json : Value → String
  pub render_markdown : Dict → String → String
  pub date_minute : String → String
  pub date_day : String → String

-- What `request_path` holds.
pub record Intent : Type 0 where
  pub request_id : String
  pub request_hash : String
  pub actor_fingerprint : String
  pub client_fingerprint : String
  pub created_at : String
  pub document_id : String
  pub target : String
  pub note : Note
  pub content_sha256 : String

-- A directory entry of the vault; `other` is a link, a directory or a device.
pub data Entry : Type 0 where
  regular : String → Entry
  other : Entry

abbrev pub Vault : Type 0
Vault = List (String × Entry)

pub record Issue : Type 0 where
  pub code : String
  pub source_path : String
  pub message : String

-- The report of `inspect_vault`.
pub record Inspection : Type 0 where
  pub errors : List Issue
  pub source_fingerprint : String
  pub artifact_fingerprint : String
  pub logical_fingerprint : String

-- Where `_publish_note` meets an `OSError`: at the directory, at the temporary file, while that is
-- written or linked, or after the link.
pub data Fault : Type 0 where
  no_fault before_open before_create before_link after_link : Fault

-- How the removal of the temporary file ends.
pub data Unlink : Type 0 where
  unlinks fails_before fails_after : Unlink

-- What one call meets outside the broker: the clock, a new identifier, what others do to the vault
-- before the broker's k-th access to it, and whether an access raises `OSError` or `ValueError`
-- (nothing, where a report or a copy is expected). `written` is what is in the temporary file where
-- its writing fails.
pub record Env : Type 0 where
  pub now : String
  pub applied_at : String
  pub new_id : String
  pub sync : ℕ → Vault → Vault
  pub cannot_stat : Bool
  pub inspect : ℕ → Vault → Option Inspection
  pub export : Vault → Option Vault
  pub fault : Fault
  pub temporary_name : String
  pub written : String → String
  pub unlink : Unlink

pub record World : Type 0 where
  pub requests : List (String × Intent)
  pub results : List (String × Dict)
  pub vault : Vault

abbrev pub Reply : Type 0
Reply = World × Result BrokerError Dict

abbrev pub synced : Env → ℕ → World → World
synced env k w = record w { vault = env.sync k w.vault }

abbrev pub protocol : String
protocol = "homeops.write/v1"

abbrev pub respond : (outcome : String) → Dict → Dict
respond outcome fields =
    field "schema_version" (num 1)
      (field "protocol" (str protocol) (field "outcome" (str outcome) fields))

abbrev pub pending : Intent → (state : String) → Dict
pending i state = respond "ACCEPTED" (
    field "request_id" (str i.request_id) (
      field "retryable" (bool true) (
        field "state" (str state)
          (field "document_id" (str i.document_id) (field "source_path" (str i.target) end)))))

abbrev pub to_items : List Value → Items
to_items [] = nil
to_items (v ∷ vs) = cons v (to_items vs)

abbrev pub rejected : (request_id message : String) → Dict
rejected id message = respond "REJECTED" (
    field "request_id" (str id)
      (field "retryable" (bool false) (field "message" (str message) end)))

unfoldable pub validation_errors : Inspection → List Value
validation_errors i =
    map
      (λ (e : Issue). obj (
        field "code" (str (take_chars 128 e.code)) (
          field "source_path" (str (take_chars 512 e.source_path))
            (field "message" (str (take_chars 1024 e.message)) end))))
      (take 16 i.errors)

abbrev is_nil : List Value → Bool
is_nil [] = true
is_nil (v ∷ vs) = false

abbrev pub has_errors : Inspection → Bool
has_errors i = not (is_nil (validation_errors i))

abbrev pub same_vault_identity : Inspection → Inspection → Bool
same_vault_identity a b =
    str_eq a.source_fingerprint b.source_fingerprint
    && str_eq a.artifact_fingerprint b.artifact_fingerprint
    && str_eq a.logical_fingerprint b.logical_fingerprint

-- What `_read_bounded_regular` reads, or no text where it raises.
abbrev pub read_bounded : Option Entry → String
read_bounded none = ""
read_bounded (some other) = ""
read_bounded (some (regular s)) = if leb (utf8_len s) 131072 then s else ""

abbrev strings : List String → Value
strings ss = arr (to_items (map str ss))

abbrev pub note_value : Note → Value
note_value n = obj (
    field "title" (str n.title) (
      field "body" (str n.body)
        (field "categories" (strings n.categories) (field "tags" (strings n.tags) end))))

-- The test on a stored target: `Path(target).name == target` and the suffix.
abbrev pub is_target : String → Bool
is_target t = not (has_code (λ c. c == b'/') t) && ends ".md" t

module _ (host : Host) where
  unfoldable pub fingerprint : (kind value : String) → String
  fingerprint kind value = host.sha256 (join "\0" (protocol ∷ kind ∷ value ∷ []))

  unfoldable pub render_capture : Intent → String
  render_capture i =
      host.render_markdown
        (field "id" (str i.document_id) (
          field "categories" (strings (map (λ c. join "" ("[[" ∷ c ∷ "]]" ∷ [])) i.note.categories))
            (field "tags" (strings i.note.tags) (
              field "date" (str (host.date_minute i.created_at)) (
                field "type" (str "reference") (
                  field "status" (str "current") (
                    field "updated" (str (host.date_day i.created_at)) (
                      field "authority" (str "supporting")
                        (field "mcp_request_id" (str i.request_id) end)))))))))
        (join "" ("\n# " ∷ i.note.title ∷ "\n\n" ∷ i.note.body ∷ "\n" ∷ []))

abbrev pub is_addressed : String → Dict → Bool
is_addressed id r =
    same (get r "schema_version") (num 1)
    && same (get r "protocol") (str protocol)
    && same (get r "request_id") (str id)

abbrev checked_result : String → Option Dict → Result BrokerError (Option Dict)
checked_result id none = ok none
checked_result id (some r) = do
  guard (is_addressed id r) (broker_error "broker result state is invalid")
  ok (some r)

-- `_result`
unfoldable pub result_of : World → String → Result BrokerError (Option Dict)
result_of w id = checked_result id (lookup id w.results)

abbrev same_as : Dict → Option Dict → Result BrokerError Dict
same_as r none = err (broker_error "broker result state conflicts")
same_as r (some e) = do
  guard (same (obj e) (obj r)) (broker_error "broker result state conflicts")
  ok e

abbrev pub written : World → String → Dict → Option Dict → Reply
written w id r none = (record w { results = (id, r) ∷ w.results }, ok r)
written w id r (some e) = (w, result_of w id >>= same_as r)

-- `_publish_result`
unfoldable pub publish_result : Dict → World → Reply
publish_result r w = let id = text_of (get r "request_id") in written w id r (lookup id w.results)
