-- ===== src/Broker/Note.antt =====
-- The checks and the normalization of a note in src/homeops_ai/write_broker.py. `nfkc` stands for
-- `unicodedata.normalize("NFKC", ...)` and `casefold` for `str.casefold`.
use Prim.Native.Char.{code}
use Prim.Native.String
use homeops_ai.Prelude.{
  ℕ, ◌-◌, String, Bool, false, not, ◌&&◌, ◌||◌, List, [], ◌∷◌, ◌++◌, ltb, leb, ◌==◌, str_eq,
  if◌then◌else◌, length, mem, all,
}
use homeops_ai.Prelude.Result.{Result, ok, err, ◌>>=◌, ◌>>◌, guard}
use homeops_ai.Text.{codes, len, is_alnum, starts_codes}
use homeops_ai.Text.Chars.{
  take_chars, drop_chars, is_empty_text, strip, utf8_len, has_code, is_uuid4,
}
use homeops_ai.Value.{Value, Items, nil, cons, str, arr, obj, Dict, get, has_exactly}

-- `os_failure` is an `OSError` that the method does not catch.
pub data BrokerError : Type 0 where
  protocol_error : String → BrokerError
  broker_error : String → BrokerError
  os_failure : BrokerError

abbrev pub is_control : ℕ → Bool
is_control c = ltb c 0x20

-- A text of between 1 and `maximum` characters without control characters.
abbrev pub is_identity : (maximum : ℕ) → Value → Bool
is_identity maximum (str s) = leb 1 (len s) && leb (len s) maximum && not (has_code is_control s)
is_identity maximum v = false

abbrev pub text_of : Value → String
text_of (str s) = s
text_of v = ""

unfoldable pub validate_identity :
    Value → (subject : String) → (maximum : ℕ) → Result BrokerError String
validate_identity v subject maximum = do
  guard (is_identity maximum v) (protocol_error (String.◌++◌ subject " is invalid"))
  ok (text_of v)

abbrev pub is_uuid : Value → Bool
is_uuid (str s) = is_uuid4 s
is_uuid v = false

unfoldable pub validate_uuid4 : Value → (subject : String) → Result BrokerError String
validate_uuid4 v subject = do
  guard (is_uuid v) (protocol_error (String.◌++◌ subject " must be a canonical UUIDv4"))
  ok (text_of v)

abbrev pub begins : String → String → Bool
begins part s = starts_codes (codes part) (codes s)

-- `s.endswith(part)`
abbrev pub ends : String → String → Bool
ends part s = str_eq (drop_chars (len s - len part) s) part && leb (len part) (len s)

-- `s.removeprefix("#")`
abbrev pub without_hash : String → String
without_hash s = if begins "#" s then drop_chars 1 s else s

-- `cleaned[2:-2].strip()` of a wiki link.
unfoldable pub unwrap : String → String
unwrap s =
    if begins "[[" s && ends "]]" s then strip (take_chars (len s - 4) (drop_chars 2 s)) else s

-- One of `[ ] # | / \`, or a control character.
abbrev is_category_barrier : ℕ → Bool
is_category_barrier c =
    c == b'[' || c == b']' || c == b'#' || c == b'|' || c == b'/' || c == b'\\' || is_control c

abbrev pub is_category : String → Bool
is_category s = leb 1 (len s) && leb (len s) 120 && not (has_code is_category_barrier s)

abbrev is_tag_char : ℕ → Bool
is_tag_char c = is_alnum c || c == b'_' || c == b'.' || c == b'/' || c == b'-'

abbrev matches_tag : List ℕ → Bool
matches_tag [] = false
matches_tag (c ∷ cs) = is_alnum c && all is_tag_char cs

abbrev pub is_tag : String → Bool
is_tag s = leb 1 (len s) && leb (len s) 64 && matches_tag (codes s)

abbrev pub is_title : String → Bool
is_title s = leb 1 (len s) && leb (len s) 160 && not (has_code is_control s)

abbrev is_body_control : ℕ → Bool
is_body_control c = is_control c && not (c == b'\n') && not (c == b'\t')

abbrev pub is_body : String → Bool
is_body s = not (is_empty_text s) && not (has_code is_body_control s) && leb (utf8_len s) 65536

abbrev begins_newline : String → Bool
begins_newline String.[] = false
begins_newline (String.◌∷◌ c s) = code c == b'\n'

-- `s.replace("\r\n", "\n")`: a carriage return before a line feed goes.
unfoldable pub replace_crlf : String → String
replace_crlf String.[] = ""
replace_crlf (String.◌∷◌ c s) =
    let rest = replace_crlf s in
    if code c == b'\r' && begins_newline s then rest else String.◌∷◌ c rest

-- `s.replace("\r", "\n")`
unfoldable pub replace_cr : String → String
replace_cr String.[] = ""
replace_cr (String.◌∷◌ c s) =
    let rest = replace_cr s in if code c == b'\r' then String.◌++◌ "\n" rest else String.◌∷◌ c rest

pub record Note : Type 0 where
  pub title : String
  pub body : String
  pub categories : List String
  pub tags : List String

abbrev pub items : Items → List Value
items nil = []
items (cons v vs) = v ∷ items vs

abbrev pub text_or : (message : String) → Value → Result BrokerError String
text_or message (str s) = ok s
text_or message v = err (protocol_error message)

abbrev pub list_or : (message : String) → Value → Result BrokerError (List Value)
list_or message (arr xs) = ok (items xs)
list_or message v = err (protocol_error message)

-- `if key not in seen: values.append(value)`
abbrev pub keep_if : Bool → String → List String → List String
keep_if test s rest = if test then s ∷ rest else rest

abbrev pub add_if : Bool → String → List String → List String
add_if test s seen = if test then s ∷ seen else seen

abbrev pub note_fields : List String
note_fields = "title" ∷ "body" ∷ "categories" ∷ "tags" ∷ []

module _ (casefold : String → String) where
  -- The loops over the raw categories and the raw tags: the name of each value, without those whose
  -- folded key was seen before or is to be skipped.
  unfoldable pub names_from :
      (name : Value → Result BrokerError String) (skip : String → Bool) (seen : List String)
      → List Value
      → Result BrokerError (List String)
  names_from name skip seen [] = ok []
  names_from name skip seen (v ∷ vs) = do
    s ← name v
    let fresh = not (mem (casefold s) seen) && not (skip (casefold s))
    rest ← names_from name skip (add_if fresh (casefold s) seen) vs
    ok (keep_if fresh s rest)

module _ (nfkc : String → String) where
  unfoldable pub category_name : Value → Result BrokerError String
  category_name v = do
    s ← text_or "categories must contain strings" v
    let cleaned = unwrap (strip (nfkc s))
    guard (is_category cleaned) (protocol_error "category name is invalid")
    ok cleaned

  unfoldable pub tag_name : Value → Result BrokerError String
  tag_name v = do
    s ← text_or "tags must contain strings" v
    let tag = without_hash (strip (nfkc s))
    guard (is_tag tag) (protocol_error "tag is invalid")
    ok tag

module _ (nfkc casefold : String → String) where
  unfoldable pub normalize_fields : Dict → Result BrokerError Note
  normalize_fields raw = do
    raw_title ← text_or "title must be a string" (get raw "title")
    let title = strip (nfkc raw_title)
    guard (is_title title) (protocol_error "title is invalid")
    raw_body ← text_or "body must be a string" (get raw "body")
    let body = strip (replace_cr (replace_crlf raw_body))
    guard (is_body body)
        (protocol_error "body is empty, contains control characters, or exceeds the size limit")
    raw_categories ←
        list_or "categories must contain between 1 and 8 entries" (get raw "categories")
    guard (leb 1 (length raw_categories) && leb (length raw_categories) 8)
        (protocol_error "categories must contain between 1 and 8 entries")
    categories ← names_from casefold (category_name nfkc) (λ k. false) [] raw_categories
    raw_tags ← list_or "tags must contain at most 16 entries" (get raw "tags")
    guard (leb (length raw_tags) 16) (protocol_error "tags must contain at most 16 entries")
    tags ← names_from casefold (tag_name nfkc) (λ k. str_eq k "mcp-capture") [] raw_tags
    guard (ltb (length tags) 16) (protocol_error "tags must contain at most 15 non-mcp entries")
    ok (record {
      title = title;
      body = body;
      categories = categories;
      tags = tags ++ "mcp-capture" ∷ [];
    })

  unfoldable pub normalize_note : Value → Result BrokerError Note
  normalize_note (obj raw) = do
    guard (has_exactly note_fields raw) (protocol_error "note has an invalid shape")
    normalize_fields raw
  normalize_note v = err (protocol_error "note has an invalid shape")
