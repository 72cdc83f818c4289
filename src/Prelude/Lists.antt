-- ===== src/Prelude/Lists.antt =====
-- Lists measured by native numbers and searched by Boolean tests, under the library's names.
use Prim.Native.Nat.{ℕ, zero, suc, ◌+◌, ◌≤◌}
use Prim.Native.String.{String}
use mathlib.Core.Path.{◌≡◌, subst, refl, ap}
use mathlib.Core.Logic.{inl, inr}
use mathlib.Core.Bool.{Bool, true, false, ◌&&◌, ◌||◌}
use mathlib.Core.Option.{Option, none, some}
use mathlib.Core.List.{List, [], ◌∷◌, ◌++◌, map, Memᴰ}
use native.Mathlib.Omega.{arith}
use text.Mathlib.TextEquality.{eq_iff}
use homeops_ai.Prelude.Tests.{if◌then◌else◌, str_eq, Bool-cases, and_true}

module _ {ℓ} {A : Type ℓ} where
  abbrev pub length : List A → ℕ
  length [] = 0
  length (x ∷ xs) = suc (length xs)

  abbrev pub take : ℕ → List A → List A
  take zero xs = []
  take (suc n) [] = []
  take (suc n) (x ∷ xs) = x ∷ take n xs

  abbrev pub drop : ℕ → List A → List A
  drop zero xs = xs
  drop (suc n) [] = []
  drop (suc n) (x ∷ xs) = drop n xs

  abbrev pub all : (A → Bool) → List A → Bool
  all p [] = true
  all p (x ∷ xs) = p x && all p xs

  abbrev pub any : (A → Bool) → List A → Bool
  any p [] = false
  any p (x ∷ xs) = p x || any p xs

  abbrev pub filter : (A → Bool) → List A → List A
  filter p [] = []
  filter p (x ∷ xs) = let rest = filter p xs in if p x then x ∷ rest else rest

  pub length-append : (xs ys : List A) → length (xs ++ ys) ≡ length xs + length ys
  length-append [] ys = omega arith
  length-append (x ∷ xs) ys = omega (arith, length-append xs ys)

  pub length-take : (n : ℕ) (xs : List A) → length (take n xs) ≤ n
  length-take zero xs = omega arith
  length-take (suc n) [] = omega arith
  length-take (suc n) (x ∷ xs) = omega (arith, length-take n xs)

-- Membership of a text, as Python's `in` tests it.
abbrev pub mem : String → List String → Bool
mem k xs = any (λ x. str_eq x k) xs

-- `set(xs)`, as a list without repetition.
abbrev pub distinct : List String → List String
distinct [] = []
distinct (k ∷ ks) = let rest = distinct ks in if mem k rest then rest else k ∷ rest

abbrev pub All {ℓ κ} : {A : Type ℓ} → (A → Type κ) → List A → Type κ
All P [] = Unit
All P (x ∷ xs) = P x × All P xs

module _ {ℓ κ} {A : Type ℓ} (P : A → Type κ) where
  pub All-append : (xs ys : List A) → All P xs → All P ys → All P (xs ++ ys)
  All-append [] ys hx hy = hy
  All-append (x ∷ xs) ys hx hy = (hx.0, All-append xs ys hx.1 hy)

  pub All-filter : (p : A → Bool) (xs : List A) → All P xs → All P (filter p xs)
  All-filter p [] h = tt
  All-filter p (x ∷ xs) h = ground (arith, All-filter p xs h.1)

-- What holds of every text of a list holds of each text that is in it.
pub all_at_mem :
    (p : String → Bool) (k : String) (xs : List String)
    → all p xs ≡ true
    → mem k xs ≡ true
    → p k ≡ true
all_at_mem p k [] h m = cc
all_at_mem p k (x ∷ xs) h m = elim (Bool-cases (str_eq x k)) [
  | inl e ↦ subst (λ y. p y ≡ true) ((eq_iff x k).0 e) (and_true (p x) (all p xs) h).0
  | inr e ↦ all_at_mem p k xs (and_true (p x) (all p xs) h).1 (rw e at m)
]

module _ {ℓ} {A : Type ℓ} (f : A → ℕ) where
  -- `sum(f(x) for x in xs)`
  abbrev pub sum_by : List A → ℕ
  sum_by [] = 0
  sum_by (x ∷ xs) = f x + sum_by xs

  pub sum_by-append : (xs ys : List A) → sum_by (xs ++ ys) ≡ sum_by xs + sum_by ys
  sum_by-append [] ys = omega arith
  sum_by-append (x ∷ xs) ys = omega (arith, sum_by-append xs ys)

module _ {ℓ κ μ} {A : Type ℓ} {P : A → Type κ} {Q : A → Type μ} where
  pub All-map : ((x : A) → P x → Q x) → (xs : List A) → All P xs → All Q xs
  All-map f [] h = tt
  All-map f (x ∷ xs) h = (f x h.0, All-map f xs h.1)

-- Every element of a list is in it.
pub All-Memᴰ {ℓ} : {A : Type ℓ} (xs : List A) → All (λ x. Memᴰ x xs) xs
All-Memᴰ [] = tt
All-Memᴰ (x ∷ xs) = (Memᴰ.head refl, All-map (λ y m. Memᴰ.tail m) xs (All-Memᴰ xs))

-- A text that a list holds but not among its first `n` shows that there are `n` before it.
pub length-take_of_mem {ℓ} :
    {A : Type ℓ} (f : A → String) (k : String) (n : ℕ) (xs : List A)
    → mem k (map f xs) ≡ true
    → mem k (map f (take n xs)) ≡ false
    → length (take n xs) ≡ n
length-take_of_mem f k zero xs h m = refl
length-take_of_mem f k (suc n) [] h m = cc
length-take_of_mem f k (suc n) (x ∷ xs) h m = ground (arith, length-take_of_mem f k n xs)

pub length-map {ℓ κ} :
    {A : Type ℓ} {B : Type κ} (f : A → B) (xs : List A) → length (map f xs) ≡ length xs
length-map f [] = refl
length-map f (x ∷ xs) = ap suc (length-map f xs)

pub any-map {ℓ κ} :
    {A : Type ℓ} {B : Type κ} (f : A → B) (p : B → Bool) (xs : List A)
    → any p (map f xs) ≡ any (λ x. p (f x)) xs
any-map f p [] = refl
any-map f p (x ∷ xs) = ap (λ b. p (f x) || b) (any-map f p xs)

-- An element that both tests accept is found among those that the first accepts.
pub any-filter {ℓ} :
    {A : Type ℓ} (p q : A → Bool) (x : A) (xs : List A)
    → Memᴰ x xs
    → p x ≡ true
    → q x ≡ true
    → any q (filter p xs) ≡ true
any-filter p q x [] m px qx = elim m [ ]
any-filter p q x (y ∷ ys) (Memᴰ.head e) px qx =
    let py : p y ≡ true = subst (λ z. p z ≡ true) e px in
    let qy : q y ≡ true = subst (λ z. q z ≡ true) e qx in rw (py, qy) refl
any-filter p q x (y ∷ ys) (Memᴰ.tail m) px qx = ground (arith, any-filter p q x ys m px qx)

-- No text occurs twice.
abbrev pub IsUnique : List String → Type 0
IsUnique [] = Unit {0}
IsUnique (k ∷ ks) = (mem k ks ≡ false) × IsUnique ks

-- `d[k]` in an association list.
abbrev pub lookup {ℓ} : {A : Type ℓ} → String → List (String × A) → Option A
lookup k [] = none
lookup k (p ∷ ps) = if str_eq p.0 k then some p.1 else lookup k ps
