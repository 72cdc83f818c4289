-- ===== src/Value.antt =====
-- The values of parsed JSON, as the code handles them: `dict` with `get`, item assignment and its
-- keys, and Python's `==`, by which `True` equals 1 and the order of a dict's keys is no matter.
-- JSON numbers with a fraction are not in the model.
pub mod Laws
pub mod Json
use homeops_ai.Prelude.{
  ℕ, zero, suc, String, Bool, true, false, ◌&&◌, Option, none, some, List, [], ◌∷◌, ◌==◌, str_eq,
  if◌then◌else◌, mem, all,
}

-- `negsuc n` is -(n + 1).
pub data ℤ : Type 0 where
  pos : ℕ → ℤ
  negsuc : ℕ → ℤ

mutual
  pub data Value : Type 0 where
    null : Value
    bool : Bool → Value
    int : ℤ → Value
    str : String → Value
    arr : Items → Value
    obj : Dict → Value

  pub data Items : Type 0 where
    nil : Items
    cons : Value → Items → Items

  pub data Dict : Type 0 where
    end : Dict
    field : String → Value → Dict → Dict

unfoldable pub get? : String → Dict → Option Value
get? k end = none
get? k (field j v d) = if str_eq j k then some v else get? k d

abbrev pub or_null : Option Value → Value
or_null none = null
or_null (some v) = v

-- `d.get(k)`, and `d[k]` where `k` is known to be a key
unfoldable pub get : Dict → String → Value
unfolding get?
get d k = or_null (get? k d)

-- `d[k] = v`
unfoldable pub insert : String → Value → Dict → Dict
insert k v end = field k v end
insert k v (field j w d) = if str_eq j k then field j v d else field j w (insert k v d)

unfoldable pub keys : Dict → List String
keys end = []
keys (field k v d) = k ∷ keys d

-- `set(d) == set(fields)`
unfoldable pub has_exactly : List String → Dict → Bool
unfolding keys
has_exactly fields d = all (λ k. mem k fields) (keys d) && all (λ f. mem f (keys d)) fields

-- `set(d) <= set(fields)`
unfoldable pub has_only : List String → Dict → Bool
unfolding keys
has_only fields d = all (λ k. mem k fields) (keys d)

abbrev same_int : ℤ → ℤ → Bool
same_int (pos m) (pos n) = m == n
same_int (negsuc m) (negsuc n) = m == n
same_int _ _ = false

-- `int(b)`
abbrev of_bool : Bool → ℤ
of_bool b = pos (if b then 1 else 0)

abbrev same_bool : Bool → Bool → Bool
same_bool true b = b
same_bool false true = false
same_bool false false = true

abbrev on_found : (Value → Bool) → Option Value → Bool
on_found same none = false
on_found same (some w) = same w

-- `v == w`; dicts are equal when each key of the one has an equal value in the other.
unfoldable mutual
  pub same : Value → Value → Bool
  same null null = true
  same (bool a) (bool b) = same_bool a b
  same (bool a) (int n) = same_int (of_bool a) n
  same (int m) (bool b) = same_int m (of_bool b)
  same (int m) (int n) = same_int m n
  same (str s) (str t) = str_eq s t
  same (arr xs) (arr ys) = same_items xs ys
  same (obj d) (obj e) = same_fields d e && all (λ k. mem k (keys d)) (keys e)
  same _ _ = false

  pub same_items : Items → Items → Bool
  same_items nil nil = true
  same_items (cons x xs) (cons y ys) = same x y && same_items xs ys
  same_items _ _ = false

  pub same_fields : Dict → Dict → Bool
  same_fields end e = true
  same_fields (field k v d) e = on_found (same v) (get? k e) && same_fields d e

abbrev pub num : ℕ → Value
num n = int (pos n)

-- `v is None`
abbrev pub is_null : Value → Bool
is_null null = true
is_null _ = false

-- `isinstance(v, str) and v`
abbrev pub is_text : Value → Bool
is_text (str s) = if str_eq s "" then false else true
is_text _ = false

-- `isinstance(v, int) and not isinstance(v, bool) and v >= 1`
abbrev pub is_positive : Value → Bool
is_positive (int (pos (suc n))) = true
is_positive _ = false
