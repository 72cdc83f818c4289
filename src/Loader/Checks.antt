-- ===== src/Loader/Checks.antt =====
-- What the checks of loader.py on the documents establish.
use homeops_ai.Prelude.{
  IsUnique, String, ◌≡◌, refl, true, false, not, Option, none, some, List, [], ◌∷◌, map, mem, arith,
  eq_iff, filter,
}
use homeops_ai.Prelude.Result.{ok, guard, guard-eq-ok, >>=-eq-ok}
use homeops_ai.Loader.{
  ParsedSourceDocument, duplicate_path, missing_ids, lacks_id, lookup, check_id, check_from,
  none_missing, validate_documents,
}

-- The identifiers and paths of the documents are new, and no two of them are equal.
record Fresh (by_id : List String) (by_path : List String) (ds : List ParsedSourceDocument)
    : Type 0 where
  ids : List String
  named : map (λ d. d.document_id) ds ≡ map some ids
  unique_ids : IsUnique ids
  unique_paths : IsUnique (map (λ d. d.source_path) ds)
  new_ids : (k : String) → mem k by_id ≡ true → mem k ids ≡ false
  new_paths : (k : String) → mem k by_path ≡ true → mem k (map (λ d. d.source_path) ds) ≡ false

lookup-none :
    (k : String) (ps : List (String × String))
    → lookup k ps ≡ none
    → mem k (map (λ p. p.0) ps) ≡ false
lookup-none k [] h = refl
lookup-none k (p ∷ ps) h = ground (arith, lookup-none k ps)

check_id-new :
    (by_id : List (String × String)) (d : ParsedSourceDocument) (o : Option String) (id : String)
    → check_id by_id d o ≡ ok id
    → (o ≡ some id) × (lookup id by_id ≡ none)
check_id-new by_id d none id h = cc
check_id-new by_id d (some k) id h = ground arith

check_from-Fresh :
    (by_id : List (String × String)) (by_path : List String) (ds : List ParsedSourceDocument)
    → check_from by_id by_path ds ≡ ok tt
    → Fresh (map (λ p. p.0) by_id) by_path ds
unfolding check_from
check_from-Fresh by_id by_path [] h = record {
  ids = [];
  named = refl;
  unique_ids = tt;
  unique_paths = tt;
  new_ids = λ k m. refl;
  new_paths = λ k m. refl;
}
check_from-Fresh by_id by_path (d ∷ ds) h =
    let (id, e, h1) = >>=-eq-ok (check_id by_id d d.document_id) _ h in
    let (_, g, h2) =
      >>=-eq-ok (guard (not (mem d.source_path by_path)) (duplicate_path d.source_path)) _ h1 in
    let path : not (mem d.source_path by_path) ≡ true = guard-eq-ok _ _ g in
    let (has, new) = check_id-new by_id d d.document_id id e in
    let old = lookup-none id by_id new in
    let rest = check_from-Fresh ((id, d.source_path) ∷ by_id) (d.source_path ∷ by_path) ds h2 in
    record {
      ids = id ∷ rest.ids;
      named = rw (has, rest.named);
      unique_ids = (rest.new_ids id (rw ((eq_iff id id).1 refl)), rest.unique_ids);
      unique_paths = (
        rest.new_paths d.source_path (rw ((eq_iff d.source_path d.source_path).1 refl)),
        rest.unique_paths,
      );
      new_ids = λ k m. ground (arith, eq_iff id k, rest.new_ids k, old, m);
      new_paths = λ k m. ground (arith, eq_iff d.source_path k, rest.new_paths k, path, m);
    }

-- Documents that pass the checks all have an identifier, no two of them the same one, and no two of
-- them the same path.
pub validate_documents-IsUnique :
    (ds : List ParsedSourceDocument)
    → validate_documents ds ≡ ok tt
    → (ids : List String) × (map (λ d. d.document_id) ds ≡ map some ids)
      × IsUnique ids
      × IsUnique (map (λ d. d.source_path) ds)
unfolding validate_documents
validate_documents-IsUnique ds h =
    let missing = map (λ d. d.source_path) (filter lacks_id ds) in
    let (_, _, h1) = >>=-eq-ok (guard (none_missing missing) (missing_ids missing)) _ h in
    let fresh = check_from-Fresh [] [] ds h1 in
    (fresh.ids, fresh.named, fresh.unique_ids, fresh.unique_paths)
