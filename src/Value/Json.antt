-- ===== src/Value/Json.antt =====
-- The values that `strict_json_loads` gives: no dict has a key twice. Each of them equals itself.
use text.Mathlib.TextPositions.{eq_refl}
use homeops_ai.Prelude.{
  not-eq-true, String, ◌≡◌, refl, Bool, true, false, not, ◌&&◌, ◌||◌, none, some, List, [], ◌∷◌,
  arith, str_eq, eq_iff, all, mem, Bool-cases, inl, inr, and_true,
}
use homeops_ai.Value.{
  pos, negsuc, Value, null, bool, int, str, arr, obj, Items, nil, cons, Dict, end, field, get?, get,
  keys, insert, same, same_items, same_fields,
}

unfoldable mutual
  pub is_json : Value → Bool
  is_json (arr xs) = json_items xs
  is_json (obj d) = json_fields d
  is_json v = true

  pub json_items : Items → Bool
  json_items nil = true
  json_items (cons x xs) = is_json x && json_items xs

  pub json_fields : Dict → Bool
  json_fields end = true
  json_fields (field k v d) = not (mem k (keys d)) && is_json v && json_fields d

get?-absent : (k : String) (d : Dict) → mem k (keys d) ≡ false → get? k d ≡ none
unfolding get? keys
get?-absent k end h = refl
get?-absent k (field j v d) h = ground (arith, get?-absent k d)

-- A dict that is part of another, key by key.
abbrev Within : Dict → Dict → Type 0
Within d e = (k : String) (v : Value) → get? k d ≡ some v → get? k e ≡ some v

rest-Within :
    (j : String) (u : Value) (d e : Dict)
    → mem j (keys d) ≡ false
    → Within (field j u d) e
    → Within d e
unfolding get?
rest-Within j u d e n w k v h = elim (Bool-cases (str_eq j k)) [
  | inl q ↦ let absent = get?-absent j d n in let same_key = (eq_iff j k).0 q in cc
  | inr q ↦ w k v (rw q h)
]

all-mem_self :
    (xs ys : List String)
    → ((k : String) → mem k xs ≡ true → mem k ys ≡ true)
    → all (λ k. mem k ys) xs ≡ true
all-mem_self [] ys h = refl
all-mem_self (x ∷ xs) ys h =
    let first = h x (rw (eq_refl x) refl) in
    rw (first, all-mem_self xs ys (λ k m. h k (ground arith))) refl

mutual
  unfolding is_json json_items json_fields same same_items same_fields get? keys

  pub same_refl : (v : Value) → is_json v ≡ true → same v v ≡ true
  same_refl null h = refl
  same_refl (bool true) h = refl
  same_refl (bool false) h = refl
  same_refl (int (pos n)) h = ground arith
  same_refl (int (negsuc n)) h = ground arith
  same_refl (str s) h = eq_refl s
  same_refl (arr xs) h = items_refl xs h
  same_refl (obj d) h =
      rw (fields_refl d d h (λ k v e. e), all-mem_self (keys d) (keys d) (λ k m. m)) refl

  items_refl : (xs : Items) → json_items xs ≡ true → same_items xs xs ≡ true
  items_refl nil h = refl
  items_refl (cons x xs) h =
      let (a, b) = and_true (is_json x) (json_items xs) h in
      rw (same_refl x a, items_refl xs b) refl

  fields_refl : (d e : Dict) → json_fields d ≡ true → Within d e → same_fields d e ≡ true
  fields_refl end e h w = refl
  fields_refl (field k v d) e h w =
      let (a, rest) = and_true (not (mem k (keys d)) && is_json v) (json_fields d) h in
      let (new, good) = and_true (not (mem k (keys d))) (is_json v) a in
      let absent = not-eq-true (mem k (keys d)) new in
      let here = w k v (rw (eq_refl k) refl) in
      rw (here, same_refl v good, fields_refl d e rest (rest-Within k v d e absent w)) refl

-- The value at a key.
pub get-is_json : (d : Dict) (k : String) → json_fields d ≡ true → is_json (get d k) ≡ true
unfolding json_fields is_json get get?
get-is_json end k h = refl
get-is_json (field j v d) k h =
    let (a, rest) = and_true (not (mem j (keys d)) && is_json v) (json_fields d) h in
    let (_, good) = and_true (not (mem j (keys d))) (is_json v) a in
    elim (Bool-cases (str_eq j k)) [ inl e ↦ rw e good | inr e ↦ rw e (get-is_json d k rest) ]

mem-insert :
    (i k : String) (v : Value) (d : Dict)
    → mem i (keys (insert k v d)) ≡ (str_eq k i || mem i (keys d))
unfolding keys insert
mem-insert i k v end = refl
mem-insert i k v (field j w d) =
    ground (arith, mem-insert i k v d, eq_iff j k, eq_iff j i, eq_iff k i)

-- `d[k] = v`
pub insert-is_json :
    (k : String) (v : Value) (d : Dict)
    → is_json v ≡ true
    → json_fields d ≡ true
    → json_fields (insert k v d) ≡ true
unfolding json_fields keys insert
insert-is_json k v end g h = rw g refl
insert-is_json k v (field j w d) g h =
    let (a, rest) = and_true (not (mem j (keys d)) && is_json w) (json_fields d) h in
    let (new, good) = and_true (not (mem j (keys d))) (is_json w) a in
    elim (Bool-cases (str_eq j k)) [
      | inl e ↦ rw e (rw (new, g, rest) refl)
      | inr e ↦
          let apart : str_eq k j ≡ false = ground (arith, eq_iff j k, eq_iff k j) in
          rw e (rw (mem-insert j k v d, apart, new, good, insert-is_json k v d g rest) refl)
    ]
