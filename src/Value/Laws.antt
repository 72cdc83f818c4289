-- ===== src/Value/Laws.antt =====
-- Reading a dict after an assignment, and what `==` says of texts.
use text.Mathlib.TextPositions.{eq_refl}
use homeops_ai.Prelude.{
  String, all_at_mem, and_true, ◌≡◌, refl, true, some, List, arith, eq_iff, ap, str_eq,
  if◌then◌else◌, mem, List,
}
use homeops_ai.Value.{Value, str, Dict, end, field, get?, get, insert, keys, has_exactly, same}

pub get?-insert :
    (k j : String) (v : Value) (d : Dict)
    → get? j (insert k v d) ≡ (if str_eq k j then some v else get? j d)
unfolding get? insert
get?-insert k j v end = refl
get?-insert k j v (field i w d) =
    ground (arith, eq_iff k j, eq_iff i k, eq_iff i j, get?-insert k j v d)

-- Assignment changes the value at its key and at no other.
pub get-insert :
    (k j : String) (v : Value) (d : Dict)
    → get (insert k v d) j ≡ (if str_eq k j then v else get d j)
unfolding get
get-insert k j v d = ground (arith, get?-insert k j v d)

-- Assignment at a key that is there keeps the keys.
pub keys-insert_self :
    (k : String) (v : Value) (d : Dict) → mem k (keys d) ≡ true → keys (insert k v d) ≡ keys d
unfolding keys insert
keys-insert_self k v end h = cc
keys-insert_self k v (field i w d) h = ground (arith, keys-insert_self k v d, eq_iff i k)

-- A value that equals a text is that text.
pub same-str : (v : Value) (s : String) → same v (str s) ≡ true → v ≡ str s
unfolding same
same-str (str t) s h = ap str ((eq_iff t s).0 h)
same-str v s h = cc

pub same-str_self : (s : String) → same (str s) (str s) ≡ true
unfolding same
same-str_self s = eq_refl s

-- Assignment at one of the expected keys keeps the set of keys.
pub has_exactly-insert :
    (fields : List String) (k : String) (v : Value) (d : Dict)
    → mem k fields ≡ true
    → has_exactly fields d ≡ true
    → has_exactly fields (insert k v d) ≡ true
unfolding has_exactly
has_exactly-insert fields k v d m h =
    let there = all_at_mem (λ f. mem f (keys d)) k fields (and_true _ _ h).1 m in
    rw (keys-insert_self k v d there) h
