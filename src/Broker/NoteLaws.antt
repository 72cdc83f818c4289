-- ===== src/Broker/NoteLaws.antt =====
-- What holds of a note that the write broker accepts.
use homeops_ai.Prelude.{
  ℕ, suc, ◌≤◌, String, ◌≡◌, refl, Bool, true, false, not, ◌&&◌, List, [], ◌∷◌, ◌++◌, map, arith,
  subst, ltb, leb, str_eq, eq_iff, mem, length, All, IsUnique, and_true, length-append,
}
use homeops_ai.Prelude.Result.{Result, ok, guard, guard-eq-ok, >>=-eq-ok, ok-injective}
use homeops_ai.Text.Chars.{strip}
use homeops_ai.Value.{Value, obj, Dict, get, has_exactly}
use homeops_ai.Broker.Note.{
  BrokerError, protocol_error, Note, note_fields, is_category, is_tag, is_title, is_body, unwrap,
  text_or, list_or, keep_if, add_if, category_name, tag_name, names_from, normalize_fields,
  normalize_note, replace_cr, replace_crlf, without_hash,
}

module _ (casefold : String → String) where
  -- Accepted names: each passes the test, no two have one key, no key is skipped, and there are at
  -- most as many as values.
  pub record Names (test skip : String → Bool) (names : List String) : Type 0 where
    pub each : All (λ s. (test s ≡ true) × (skip (casefold s) ≡ false)) names
    pub unique : IsUnique (map casefold names)

  record Fresh (test skip : String → Bool) (seen : List String) (n : ℕ) (names : List String)
      : Type 0 where
    good : Names test skip names
    bounded : length names ≤ n
    new : (k : String) → mem k seen ≡ true → mem k (map casefold names) ≡ false

  add_name-Fresh :
      (test skip : String → Bool) (s : String) (seen rest : List String) (n : ℕ) (fresh : Bool)
      → test s ≡ true
      → (not (mem (casefold s) seen) && not (skip (casefold s))) ≡ fresh
      → Fresh test skip (add_if fresh (casefold s) seen) n rest
      → Fresh test skip seen (suc n) (keep_if fresh s rest)
  add_name-Fresh test skip s seen rest n true t e h = record {
    good = record {
      each = ((t, ground arith), h.good.each);
      unique = (h.new (casefold s) (rw ((eq_iff (casefold s) (casefold s)).1 refl)), h.good.unique);
    };
    bounded = omega (arith, h.bounded);
    new = λ k m. ground (arith, eq_iff (casefold s) k, h.new k, m, e);
  }
  add_name-Fresh test skip s seen rest n false t e h = record {
    good = h.good;
    bounded = omega (arith, h.bounded);
    new = h.new;
  }

  names_from-Fresh :
      (name : Value → Result BrokerError String) (test skip : String → Bool)
      → ((v : Value) (s : String) → name v ≡ ok s → test s ≡ true)
      → (seen : List String) (vs : List Value) (names : List String)
      → names_from casefold name skip seen vs ≡ ok names
      → Fresh test skip seen (length vs) names
  unfolding names_from
  names_from-Fresh name test skip good seen [] names h = rw (← ok-injective [] names h) (record {
    good = record { each = tt; unique = tt };
    bounded = omega arith;
    new = λ k m. refl;
  })
  names_from-Fresh name test skip good seen (v ∷ vs) names h =
      let (s, e, h1) = >>=-eq-ok (name v) _ h in
      let fresh = not (mem (casefold s) seen) && not (skip (casefold s)) in
      let (rest, f, h2) =
        >>=-eq-ok (names_from casefold name skip (add_if fresh (casefold s) seen) vs) _ h1 in
      let more = names_from-Fresh name test skip good (add_if fresh (casefold s) seen) vs rest f in
      subst (Fresh test skip seen (suc (length vs))) (ok-injective (keep_if fresh s rest) names h2)
        (add_name-Fresh test skip s seen rest (length vs) fresh (good v s e) refl more)

  -- The first name of a list is always kept, unless its key is to be skipped.
  first_name_kept :
      (name : Value → Result BrokerError String) (v : Value) (vs : List Value)
      → (names : List String) → names_from casefold name (λ k. false) [] (v ∷ vs) ≡ ok names
      → 1 ≤ length names
  unfolding names_from
  first_name_kept name v vs names h =
      let (s, e, h1) = >>=-eq-ok (name v) _ h in
      let (rest, f, h2) =
        >>=-eq-ok (names_from casefold name (λ k. false) (casefold s ∷ []) vs) _ h1 in
      subst (λ ns. 1 ≤ length ns) (ok-injective (s ∷ rest) names h2) (omega arith)

some_first :
    (vs : List Value) → leb 1 (length vs) ≡ true → (v : Value) × (us : List Value) × (vs ≡ v ∷ us)
some_first [] h = cc
some_first (v ∷ us) h = (v, us, refl)

module _ (nfkc casefold : String → String) where
  category_name-is_category :
      (v : Value) (s : String) → category_name nfkc v ≡ ok s → is_category s ≡ true
  unfolding category_name
  category_name-is_category v s h =
      let (raw, _, h1) = >>=-eq-ok (text_or "categories must contain strings" v) _ h in
      let cleaned = unwrap (strip (nfkc raw)) in
      let (_, g, h2) =
        >>=-eq-ok (guard (is_category cleaned) (protocol_error "category name is invalid")) _ h1 in
      subst (λ x. is_category x ≡ true) (ok-injective cleaned s h2) (guard-eq-ok _ _ g)

  tag_name-is_tag : (v : Value) (s : String) → tag_name nfkc v ≡ ok s → is_tag s ≡ true
  unfolding tag_name
  tag_name-is_tag v s h =
      let (raw, _, h1) = >>=-eq-ok (text_or "tags must contain strings" v) _ h in
      let tag = without_hash (strip (nfkc raw)) in
      let (_, g, h2) = >>=-eq-ok (guard (is_tag tag) (protocol_error "tag is invalid")) _ h1 in
      subst (λ x. is_tag x ≡ true) (ok-injective tag s h2) (guard-eq-ok _ _ g)

  -- The shape of an accepted note.
  pub record IsNote (n : Note) : Type 0 where
    pub title : is_title n.title ≡ true
    pub body : is_body n.body ≡ true
    pub categories : Names casefold is_category (λ k. false) n.categories
    pub some_category : 1 ≤ length n.categories
    pub few_categories : length n.categories ≤ 8
    pub given_tags : List String
    pub tags : n.tags ≡ given_tags ++ "mcp-capture" ∷ []
    pub given : Names casefold is_tag (λ k. str_eq k "mcp-capture") given_tags
    pub few_tags : length n.tags ≤ 16

  fields-IsNote : (raw : Dict) (n : Note) → normalize_fields nfkc casefold raw ≡ ok n → IsNote n
  unfolding normalize_fields
  fields-IsNote raw n h =
      let (raw_title, _, h1) = >>=-eq-ok (text_or "title must be a string" (get raw "title")) _ h in
      let title = strip (nfkc raw_title) in
      let (_, title_ok, h2) =
        >>=-eq-ok (guard (is_title title) (protocol_error "title is invalid")) _ h1 in
      let (raw_body, _, h3) = >>=-eq-ok (text_or "body must be a string" (get raw "body")) _ h2 in
      let body = strip (replace_cr (replace_crlf raw_body)) in
      let (_, body_ok, h4) =
        >>=-eq-ok
          (guard (is_body body) (
            protocol_error "body is empty, contains control characters, or exceeds the size limit"))
          _ h3 in
      let (cs, _, h5) =
        >>=-eq-ok (list_or "categories must contain between 1 and 8 entries" (get raw "categories"))
          _ h4 in
      let (_, range, h6) =
        >>=-eq-ok
          (guard (leb 1 (length cs) && leb (length cs) 8)
            (protocol_error "categories must contain between 1 and 8 entries"))
          _ h5 in
      let (categories, from_cs, h7) =
        >>=-eq-ok (names_from casefold (category_name nfkc) (λ k. false) [] cs) _ h6 in
      let (ts, _, h8) =
        >>=-eq-ok (list_or "tags must contain at most 16 entries" (get raw "tags")) _ h7 in
      let (_, _, h9) =
        >>=-eq-ok
          (guard (leb (length ts) 16) (protocol_error "tags must contain at most 16 entries")) _
          h8 in
      let (tags, from_ts, h10) =
        >>=-eq-ok (names_from casefold (tag_name nfkc) (λ k. str_eq k "mcp-capture") [] ts) _ h9 in
      let (_, few, h11) =
        >>=-eq-ok
          (guard (ltb (length tags) 16)
            (protocol_error "tags must contain at most 15 non-mcp entries"))
          _ h10 in
      let in_range = and_true (leb 1 (length cs)) (leb (length cs) 8) (guard-eq-ok _ _ range) in
      let few_tags : ltb (length tags) 16 ≡ true = guard-eq-ok _ _ few in
      let (v, us, first) = some_first cs in_range.0 in
      let cats =
        names_from-Fresh casefold (category_name nfkc) is_category (λ k. false)
          category_name-is_category [] cs categories from_cs in
      let tagged =
        names_from-Fresh casefold (tag_name nfkc) is_tag (λ k. str_eq k "mcp-capture")
          tag_name-is_tag [] ts tags from_ts in
      rw (← ok-injective _ n h11) (record {
        title = guard-eq-ok _ _ title_ok;
        body = guard-eq-ok _ _ body_ok;
        categories = cats.good;
        some_category =
            first_name_kept casefold (category_name nfkc) v us categories (rw first at from_cs);
        few_categories = ground (arith, cats.bounded, in_range.1);
        given_tags = tags;
        tags = refl;
        given = tagged.good;
        few_tags = ground (arith, length-append tags ("mcp-capture" ∷ []), few_tags);
      })

  -- A note that the broker accepts has a title and a body within their limits; between 1 and 8
  -- categories, valid and without two of one folded name; and at most 16 tags, of which the last is
  -- `mcp-capture` and the others are valid, without two of one folded name and none folded to it.
  pub normalize_note-IsNote :
      (v : Value) (n : Note) → normalize_note nfkc casefold v ≡ ok n → IsNote n
  unfolding normalize_note
  normalize_note-IsNote (obj raw) n h =
      let (_, _, h1) =
        >>=-eq-ok (guard (has_exactly note_fields raw) (protocol_error "note has an invalid shape"))
          _ h in
      fields-IsNote raw n h1
  normalize_note-IsNote v n h = cc
