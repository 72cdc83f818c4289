-- ===== src/Pipeline/Redact.antt =====
-- What `_redact_result` of src/homeops_ai/pipeline.py leaves of a result.
use homeops_ai.Prelude.{
  not-eq-true, and_true, eq_iff, str_eq, ◌↔◌, subst, String, ◌≡◌, refl, Bool, true, false, not,
  ◌&&◌, ◌||◌, Bool-cases, inl, inr, ap, List, [], ◌∷◌, any, ◌==◌, arith, ℕ,
}
use homeops_ai.Value.{Value, arr, obj, Items, nil, cons, Dict, end, field, get, get?}
use homeops_ai.Text.{codes, starts_codes}
use homeops_ai.Pipeline.{redact_result, is_secret, redact, redact_items, redact_fields}

abbrev begins_with_underscore : List ℕ → Bool
begins_with_underscore [] = false
begins_with_underscore (c ∷ cs) = c == 95

-- The keys that a result must not have: the capability and its digest, and what begins with the
-- character 95, the underscore.
abbrev pub is_private : String → Bool
is_private k =
    any (λ name. str_eq k name) ("capability_token" ∷ "capability_sha256" ∷ [])
    || begins_with_underscore (codes k)

starts-underscore : (cs : List ℕ) → starts_codes (codes "_") cs ≡ begins_with_underscore cs
starts-underscore [] = refl
starts-underscore (c ∷ cs) = ground arith

is_secret-private : (k : String) → is_secret k ≡ is_private k
unfolding is_secret
is_secret-private k = rw (starts-underscore (codes k)) (ground arith)

-- No dict of a value, at any depth, has a key that is private.
unfoldable mutual
  pub is_clean : Value → Bool
  is_clean (arr xs) = clean_items xs
  is_clean (obj d) = clean_fields d
  is_clean v = true

  pub clean_items : Items → Bool
  clean_items nil = true
  clean_items (cons x xs) = is_clean x && clean_items xs

  pub clean_fields : Dict → Bool
  clean_fields end = true
  clean_fields (field k v d) = not (is_private k) && is_clean v && clean_fields d

mutual
  unfolding is_clean clean_items clean_fields redact redact_items redact_fields

  redact-clean : (v : Value) → is_clean (redact v) ≡ true
  redact-clean (arr xs) = items-clean xs
  redact-clean (obj d) = fields-clean d
  redact-clean v = refl

  items-clean : (xs : Items) → clean_items (redact_items xs) ≡ true
  items-clean nil = refl
  items-clean (cons x xs) = rw (redact-clean x, items-clean xs)

  fields-clean : (d : Dict) → clean_fields (redact_fields d) ≡ true
  fields-clean end = refl
  fields-clean (field k v d) = rw (is_secret-private k) (elim (Bool-cases (is_private k)) [
    | inl e ↦ rw e (fields-clean d)
    | inr e ↦ rw (e, e, redact-clean v, fields-clean d)
  ])

mutual
  unfolding is_clean clean_items clean_fields redact redact_items redact_fields

  clean-redact : (v : Value) → is_clean v ≡ true → redact v ≡ v
  clean-redact (arr xs) h = ap arr (clean-items xs h)
  clean-redact (obj d) h = ap obj (clean-fields d h)
  clean-redact v h = refl

  clean-items : (xs : Items) → clean_items xs ≡ true → redact_items xs ≡ xs
  clean-items nil h = refl
  clean-items (cons x xs) h =
      let (a, b) = and_true (is_clean x) (clean_items xs) h in
      rw (clean-redact x a, clean-items xs b)

  clean-fields : (d : Dict) → clean_fields d ≡ true → redact_fields d ≡ d
  clean-fields end h = refl
  clean-fields (field k v d) h =
      let (a, b2) = and_true (not (is_private k) && is_clean v) (clean_fields d) h in
      let (a1, b1) = and_true (not (is_private k)) (is_clean v) a in
      rw (is_secret-private k, not-eq-true (is_private k) a1, clean-redact v b1, clean-fields d b2)

-- Redaction keeps the other keys, and redacts what they hold.
get-redact :
    (d : Dict) (k : String) → is_private k ≡ false → get (redact_fields d) k ≡ redact (get d k)
unfolding redact redact_fields get get?
get-redact end k h = refl
get-redact (field j v d) k h = rw (is_secret-private j) (elim (Bool-cases (str_eq j k)) [
  | inl e ↦ let plain : is_private j ≡ false = rw ((eq_iff j k).0 e) h in rw (plain, e) refl
  | inr e ↦ rw (e) (elim (Bool-cases (is_private j)) [
    | inl x ↦ rw x (get-redact d k h)
    | inr x ↦ rw (x, e) (get-redact d k h)
  ])
])

-- `_redact_result` leaves no key that is `capability_token`, `capability_sha256` or begins with an
-- underscore, at any depth. What a key that is not secret holds is kept, redacted in turn. A result
-- is left as it is if and only if it has no such key.
pub redact_result_lem :
    (d : Dict)
    → (clean_fields (redact_result d) ≡ true)
      × ((k : String) → is_private k ≡ false → get (redact_result d) k ≡ redact (get d k))
      × ((redact_result d ≡ d) ↔ (clean_fields d ≡ true))
redact_result_lem d = (
  fields-clean d,
  get-redact d,
  (λ h. subst (λ e. clean_fields e ≡ true) h (fields-clean d), clean-fields d),
)
