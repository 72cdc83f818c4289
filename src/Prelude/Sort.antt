-- ===== src/Prelude/Sort.antt =====
-- `sorted(items, key=...)`: a stable sort by a test that says whether one item may stand before
-- another.
use mathlib.Core.List.{Perm}
use mathlib.Core.List.Perm
use mathlib.Core.Path.{◌≡◌, refl}
use mathlib.Core.Bool.{Bool, ◌||◌}
use mathlib.Core.Logic.{inl, inr}
use mathlib.Core.List.{List, [], ◌∷◌}
use native.Mathlib.Omega.{arith}
use Prim.Native.Nat.{ℕ, suc, ◌+◌}
use homeops_ai.Prelude.Tests.{if◌then◌else◌, Bool-cases}
use homeops_ai.Prelude.Lists.{length, All, sum_by, any}

module _ {ℓ} {A : Type ℓ} (before : A → A → Bool) where
  insert_sorted : A → List A → List A
  insert_sorted x [] = x ∷ []
  insert_sorted x (y ∷ ys) =
      let rest = insert_sorted x ys in if before x y then x ∷ y ∷ ys else y ∷ rest

  unfoldable pub sort_by : List A → List A
  unfolding insert_sorted
  sort_by [] = []
  sort_by (x ∷ xs) = insert_sorted x (sort_by xs)

  insert_sorted-perm : (x : A) (xs : List A) → Perm (insert_sorted x xs) (x ∷ xs)
  unfolding insert_sorted
  insert_sorted-perm x [] = Perm.refl (x ∷ [])
  insert_sorted-perm x (y ∷ ys) = elim (Bool-cases (before x y)) [
    | inl e ↦ rw e (Perm.refl (x ∷ y ∷ ys))
    | inr e ↦ rw e (Perm.trans (Perm.cons y (insert_sorted-perm x ys)) (Perm.swap x y ys))
  ]

  pub sort_by-perm : (xs : List A) → Perm (sort_by xs) xs
  unfolding sort_by
  sort_by-perm [] = Perm.refl []
  sort_by-perm (x ∷ xs) =
      Perm.trans (insert_sorted-perm x (sort_by xs)) (Perm.cons x (sort_by-perm xs))

  length-insert_sorted : (x : A) (xs : List A) → length (insert_sorted x xs) ≡ suc (length xs)
  unfolding insert_sorted
  length-insert_sorted x [] = omega arith
  length-insert_sorted x (y ∷ ys) = ground (arith, length-insert_sorted x ys)

  pub length-sort_by : (xs : List A) → length (sort_by xs) ≡ length xs
  unfolding sort_by
  length-sort_by [] = omega arith
  length-sort_by (x ∷ xs) = omega (arith, length-insert_sorted x (sort_by xs), length-sort_by xs)

  module _ {κ} (P : A → Type κ) where
    All-insert_sorted : (x : A) (xs : List A) → P x → All P xs → All P (insert_sorted x xs)
    unfolding insert_sorted
    All-insert_sorted x [] p h = (p, tt)
    All-insert_sorted x (y ∷ ys) p h = elim (Bool-cases (before x y)) [
      | inl e ↦ rw e (p, h)
      | inr e ↦ rw e (h.0, All-insert_sorted x ys p h.1)
    ]

    pub All-sort_by : (xs : List A) → All P xs → All P (sort_by xs)
    unfolding sort_by
    All-sort_by [] h = tt
    All-sort_by (x ∷ xs) h = All-insert_sorted x (sort_by xs) h.0 (All-sort_by xs h.1)

    All-insert_sorted_inv : (x : A) (xs : List A) → All P (insert_sorted x xs) → P x × All P xs
    unfolding insert_sorted
    All-insert_sorted_inv x [] h = (h.0, tt)
    All-insert_sorted_inv x (y ∷ ys) h = elim (Bool-cases (before x y)) [
      | inl e ↦ let g : P x × (P y × All P ys) = rw e at h in g
      | inr e ↦
          let g : P y × All P (insert_sorted x ys) = rw e at h in
          let (px, pys) = All-insert_sorted_inv x ys g.1 in (px, (g.0, pys))
    ]

    pub All-sort_by_inv : (xs : List A) → All P (sort_by xs) → All P xs
    unfolding sort_by
    All-sort_by_inv [] h = tt
    All-sort_by_inv (x ∷ xs) h =
        let (p, hs) = All-insert_sorted_inv x (sort_by xs) h in (p, All-sort_by_inv xs hs)

  module _ (f : A → ℕ) where
    sum_by-insert_sorted : (x : A) (xs : List A) → sum_by f (insert_sorted x xs) ≡ f x + sum_by f xs
    unfolding insert_sorted
    sum_by-insert_sorted x [] = refl
    sum_by-insert_sorted x (y ∷ ys) = ground (arith, sum_by-insert_sorted x ys)

    pub sum_by-sort_by : (xs : List A) → sum_by f (sort_by xs) ≡ sum_by f xs
    unfolding sort_by
    sum_by-sort_by [] = refl
    sum_by-sort_by (x ∷ xs) = omega (arith, sum_by-insert_sorted x (sort_by xs), sum_by-sort_by xs)

  module _ (p : A → Bool) where
    any-insert_sorted : (x : A) (xs : List A) → any p (insert_sorted x xs) ≡ (p x || any p xs)
    unfolding insert_sorted
    any-insert_sorted x [] = refl
    any-insert_sorted x (y ∷ ys) = ground (arith, any-insert_sorted x ys)

    pub any-sort_by : (xs : List A) → any p (sort_by xs) ≡ any p xs
    unfolding sort_by
    any-sort_by [] = refl
    any-sort_by (x ∷ xs) = rw (any-insert_sorted x (sort_by xs), any-sort_by xs)
