-- ===== src/Snapshot/Inventory.antt =====
-- What the validation of src/homeops_ai/snapshot.py accepts of an inventory.
use homeops_ai.Prelude.{
  not-eq-true, subst, sym, ℕ, ◌+◌, ◌≤◌, String, ◌≡◌, refl, Bool, true, false, not, List, [], ◌∷◌,
  leb, arith, eq_iff, mem, length, All, IsUnique,
}
use homeops_ai.Prelude.Result.{guard, ok-injective, Result, ok, err, ◌>>◌, >>=-eq-ok, guard-eq-ok}
use homeops_ai.Value.{Value, obj, Items, nil, cons, Dict, get, num, same}
use homeops_ai.Pipeline.{snapshot_error}
use homeops_ai.Snapshot.{
  Tally, count, paths, path_of, total_size, walk, check_shape, check_metadata, items_of,
  validate_snapshot_manifest, check_header, is_sorted, check_counts,
}

-- What an accepted inventory adds to the counters.
pub record IsCounted (xs : Items) (t u : Tally) : Type 0 where
  pub fresh : All (λ p. mem p t.seen ≡ false) (paths xs)
  pub unique : IsUnique (paths xs)
  pub total : u.total ≡ t.total + total_size xs
  pub files : u.included + u.excluded ≡ t.included + t.excluded + length (paths xs)

after-ok {κ} :
    {E : Type 0} {B : Type κ} (check : Result E (Unit {0})) (rest : Result E B) {result : B}
    → (check >> rest) ≡ ok result
    → (check ≡ ok tt) × (rest ≡ ok result)
after-ok (ok tt) rest h = (refl, h)
after-ok (err e) rest h = cc

apart :
    (p : String) (seen qs : List String)
    → All (λ q. mem q (p ∷ seen) ≡ false) qs
    → (mem p qs ≡ false) × All (λ q. mem q seen ≡ false) qs
apart p seen [] h = (refl, tt)
apart p seen (q ∷ qs) h =
    let (a, b) = apart p seen qs h.1 in
    let first = h.0 in (ground (arith, eq_iff p q, eq_iff q p), (ground arith, b))

cons-IsCounted :
    (v : Value) (vs : Items) (t u : Tally)
    → mem (path_of v) t.seen ≡ false
    → IsCounted vs (count v t) u
    → IsCounted (cons v vs) t u
unfolding count
cons-IsCounted v vs t u n c =
    let (a, b) = apart (path_of v) t.seen (paths vs) c.fresh in
    let total = c.total in
    let files = c.files in
    record { fresh = (n, b); unique = (a, c.unique); total = omega arith; files = ground arith }

module _ (canonical : String → Bool) (empty_sha256 : String) where
  walk-IsCounted :
      (xs : Items) (t u : Tally) → walk canonical empty_sha256 xs t ≡ ok u → IsCounted xs t u
  unfolding walk
  walk-IsCounted nil t u h =
      let e : t ≡ u = ok-injective t u h in
      subst (λ v. IsCounted nil t v) e
        (record { fresh = tt; unique = tt; total = omega arith; files = omega arith })
  walk-IsCounted (cons v vs) t u h =
      let (_, h1) = after-ok (check_shape canonical empty_sha256 v) _ h in
      let (new, h2) =
        after-ok
          (guard (not (mem (path_of v) t.seen))
            (snapshot_error "snapshot inventory contains duplicate path"))
          _ h1 in
      let (_, h3) = after-ok (check_metadata canonical empty_sha256 v) _ h2 in
      cons-IsCounted v vs t u (not-eq-true _ (guard-eq-ok _ _ new))
        (walk-IsCounted vs (count v t) u h3)

-- What an accepted manifest says of its inventory.
pub record IsManifest (max_files max_bytes : ℕ) (m : Dict) (xs : Items) : Type 0 where
  pub unique : IsUnique (paths xs)
  pub few : length (paths xs) ≤ max_files
  pub small : total_size xs ≤ max_bytes
  pub bytes : same (get m "total_uncompressed_bytes") (num (total_size xs)) ≡ true

module _ (canonical : String → Bool) (casefold : String → String) (digest : Value → String)
    (empty_sha256 : String) (max_files max_bytes : ℕ) where
  leb_le : (a b : ℕ) → leb a b ≡ true → a ≤ b
  leb_le a b h = ground arith

  counts-bytes :
      (m : Dict) (t : Tally)
      → check_counts canonical casefold digest empty_sha256 max_files max_bytes m t ≡ ok tt
      → same (get m "total_uncompressed_bytes") (num t.total) ≡ true
  unfolding check_counts
  counts-bytes m t h = ground arith

  -- An accepted manifest is the dict that was given. No path occurs twice in its inventory, which has
  -- at most `max_files` files, of at most `max_bytes` bytes together, and the number of bytes that
  -- the manifest declares is the sum of the sizes.
  pub validate_snapshot_manifest-IsManifest :
      (m r : Dict)
      → validate_snapshot_manifest canonical casefold digest empty_sha256 max_files max_bytes
          (obj m)
        ≡ ok r
      → (r ≡ m) × IsManifest max_files max_bytes m (items_of (get m "inventory"))
  unfolding validate_snapshot_manifest
  validate_snapshot_manifest-IsManifest m r h =
      let xs = items_of (get m "inventory") in
      let start : Tally = record { seen = []; included = 0; excluded = 0; total = 0 } in
      let (_, h1) =
        after-ok (check_header canonical casefold digest empty_sha256 max_files max_bytes m) _ h in
      let (few, h2) =
        after-ok
          (guard (leb (length (paths xs)) max_files)
            (snapshot_error "snapshot exceeds the file-count limit"))
          _ h1 in
      let (tally, walked, h3) = >>=-eq-ok (walk canonical empty_sha256 xs start) _ h2 in
      let (_, h4) =
        after-ok
          (guard (is_sorted canonical casefold digest empty_sha256 max_files max_bytes (paths xs))
            (snapshot_error "snapshot inventory is not canonically sorted"))
          _ h3 in
      let (small, h5) =
        after-ok
          (guard (leb tally.total max_bytes)
            (snapshot_error "snapshot exceeds the uncompressed-byte limit"))
          _ h4 in
      let (counts, h6) =
        after-ok (check_counts canonical casefold digest empty_sha256 max_files max_bytes m tally) _
          h5 in
      let c = walk-IsCounted canonical empty_sha256 xs start tally walked in
      let counted = c.total in
      let total : tally.total ≡ total_size xs = omega arith in
      (
        sym (ok-injective m r h6),
        record {
          unique = c.unique;
          few = leb_le _ _ (guard-eq-ok _ _ few);
          small = subst (λ n. n ≤ max_bytes) total (leb_le _ _ (guard-eq-ok _ _ small));
          bytes =
              subst (λ n. same (get m "total_uncompressed_bytes") (num n) ≡ true) total
                (counts-bytes m tally counts);
        },
      )
