-- ===== src/Tests/Broker.antt =====
-- Tests of src/homeops_ai/write_broker.py: one capture into an empty vault, and its retry.
use homeops_ai.Prelude.{lookup}
use homeops_ai.Prelude.{◌≤◌, String, ◌≡◌, refl, false, some, [], ◌∷◌}
use homeops_ai.Prelude.Result.{ok}
use homeops_ai.Text.{join, is_space}
use homeops_ai.Text.Chars.{strip, is_uuid4, digits_fit, is_empty_text, utf8_len}
use homeops_ai.Value.{
  Value, cons, nil, str, arr, obj, num, bool, Dict, end, field, get, get?, insert, keys,
  has_exactly, same,
}
use homeops_ai.Broker.Note.{
  Note, normalize_note, normalize_fields, category_name, tag_name, names_from, unwrap, replace_cr,
  replace_crlf,
}
use homeops_ai.Broker.NoteLaws.{IsNote, normalize_note-IsNote}
use homeops_ai.Broker.Filename.{
  safe_filename_title, replace_invalid, collapse, shrink, safe_filename_title-bounds,
}
use homeops_ai.Broker.State.{
  Host, Intent, Entry, regular, Inspection, no_fault, unlinks, Env, World, render_capture,
  result_of, publish_result, validation_errors,
}
use homeops_ai.Broker.Process.{
  publish_applied, publish_note, after_link_step, with_before, with_candidate, with_baseline,
  recover, at_destination, process_new, process_intent, applied,
}
use homeops_ai.Broker.Handle.{new_intent, handle}
use homeops_ai.Broker.Vault.{handle-KeepsFile}
use homeops_ai.Broker.Life.{phase, ◌⟶*◌, handle-refines}
use homeops_ai.Broker.Applied.{applied_is_in_vault}

abbrev host : Host
host = record {
  nfkc = λ s. s;
  casefold = λ s. s;
  sha256 = λ s. s;
  canonical_json = λ v. "{}";
  render_markdown = λ d body. body;
  date_minute = λ s. s;
  date_day = λ s. s;
}

abbrev clean : Inspection
clean = record {
  errors = [];
  source_fingerprint = "s";
  artifact_fingerprint = "a";
  logical_fingerprint = "l";
}

abbrev env : Env
env = record {
  now = "2026-01-01T10:00:00+00:00";
  applied_at = "2026-01-01T10:00:01+00:00";
  new_id = "doc";
  sync = λ k v. v;
  cannot_stat = false;
  inspect = λ k v. some clean;
  export = λ v. some v;
  fault = no_fault;
  temporary_name = ".part";
  written = λ s. "";
  unlink = unlinks;
}

abbrev id_1 : String
id_1 = "01234567-89ab-4cde-8f01-23456789abcd"

abbrev raw_note : Value
raw_note = obj (
    field "title" (str " Switch ports ") (
      field "body" (str "Port 3 is the uplink.") (
        field "categories" (arr (cons (str "[[Network]]") nil))
          (field "tags" (arr (cons (str "#vlan") nil)) end))))

abbrev note : Note
note = record {
  title = "Switch ports";
  body = "Port 3 is the uplink.";
  categories = "Network" ∷ [];
  tags = "vlan" ∷ "mcp-capture" ∷ [];
}

abbrev request : Value
request = obj (
    field "schema_version" (num 1) (
      field "protocol" (str "homeops.write/v1") (
        field "operation" (str "capture_note") (
          field "request_id" (str id_1) (
            field "actor" (obj (field "subject" (str "alice") (field "client_id" (str "cli") end)))
              (field "note" raw_note end))))))

abbrev other_file : Entry
other_file = regular "old"

abbrev start : World
start = record { requests = []; results = []; vault = ("Old.md", other_file) ∷ [] }

normalized : normalize_note host.nfkc host.casefold raw_note ≡ ok note
unfolding normalize_note normalize_fields category_name tag_name names_from unwrap strip is_space
    replace_cr replace_crlf get get? keys has_exactly
normalized = refl

normalize_note-IsNote_example : IsNote (λ s. s) (λ s. s) note
normalize_note-IsNote_example = normalize_note-IsNote (λ s. s) (λ s. s) raw_note note normalized

safe_filename_title-bounds_example :
    (is_empty_text (safe_filename_title "VLAN: 10/20?") ≡ false)
    × (utf8_len (safe_filename_title "VLAN: 10/20?") ≤ 120)
safe_filename_title-bounds_example = safe_filename_title-bounds "VLAN: 10/20?"

safe_filename_runs : safe_filename_title " VLAN:  10/20? " ≡ "VLAN- 10-20"
unfolding safe_filename_title replace_invalid collapse shrink is_space
safe_filename_runs = refl

handle-KeepsFile_example :
    lookup "Old.md" (handle host ("alice" ∷ []) env request start).0.vault ≡ some other_file
handle-KeepsFile_example =
    handle-KeepsFile env host ("alice" ∷ []) request start "Old.md" other_file refl (λ k v h. h)
      refl

handle-refines_example :
    phase id_1 start ⟶* phase id_1 (handle host ("alice" ∷ []) env request start).0
handle-refines_example = handle-refines host ("alice" ∷ []) env request start id_1

abbrev intent : Intent
intent = new_intent host env id_1 "actor" "client" note

abbrev result : Dict
result = applied env intent clean false false

abbrev after_capture : World
after_capture = record {
  requests = (id_1, intent) ∷ [];
  results = (id_1, result) ∷ [];
  vault = ("Capture - Switch ports - 01234567.md", regular "text") ∷ [];
}

abbrev accepted_world : World
accepted_world = record start { requests = (id_1, intent) ∷ [] }

applied_runs :
    (process_intent host env intent false accepted_world).1
    ≡ ok (insert "idempotent" (bool false) result)
unfolding new_intent render_capture join is_uuid4 digits_fit get get? same insert result_of
    publish_result validation_errors publish_applied publish_note after_link_step with_before
    with_candidate with_baseline recover at_destination process_new process_intent
    safe_filename_title replace_invalid collapse shrink is_space
applied_runs = refl

applied_is_in_vault_example :
    lookup intent.target (process_intent host env intent false accepted_world).0.vault
    ≡ some (regular (render_capture host intent))
unfolding get get? insert render_capture join new_intent
applied_is_in_vault_example =
    applied_is_in_vault host env intent false accepted_world
      (insert "idempotent" (bool false) result) (λ k v l h. h) refl refl applied_runs refl
