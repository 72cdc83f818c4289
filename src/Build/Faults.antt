-- ===== src/Build/Faults.antt =====
-- How the accesses to the data directory fail, as triples: the invariant that a fault leaves, and that
-- a run without faults raises nothing.
use homeops_ai.Prelude.{◌≡◌, refl, Bool, true, false, [], ◌∷◌}
use homeops_ai.Prelude.Triple.{Post, Triple}
use homeops_ai.Build.{Data, Plan, Fault, fine, before, after, access}

-- `P` of the data; in a calm run there are no faults to come.
abbrev pub With : (calm : Bool) (P : Data → Type 0) → Data × Plan → Type 0
With calm P w = P w.0 × (calm ≡ true → w.1 ≡ [])

-- A run that is not calm has failed and left `E`.
abbrev pub Failed : (calm : Bool) (E : Data → Type 0) → Data × Plan → Type 0
Failed calm E w = E w.0 × (calm ≡ false)

not_calm : (calm : Bool) (f : Fault) (plan : Plan) → (calm ≡ true → (f ∷ plan) ≡ []) → calm ≡ false
not_calm true f plan h = let e = h refl in cc
not_calm false f plan h = refl

module _ (P Q E : Data → Type 0) (done late : Data → Data) where
  access-Post :
      (calm : Bool) (w : Data × Plan)
      → (P w.0 → Q (done w.0))
      → (P w.0 → E w.0)
      → (P w.0 → E (late w.0))
      → With calm P w
      → Post (λ u. With calm Q) (Failed calm E) (access done late w)
  access-Post calm (d, []) a b c (p, h) = (a p, h)
  access-Post calm (d, fine ∷ plan) a b c (p, h) =
      let noisy = not_calm calm fine plan h in (a p, λ e. cc)
  access-Post calm (d, before ∷ plan) a b c (p, h) = (b p, not_calm calm before plan h)
  access-Post calm (d, after ∷ plan) a b c (p, h) = (c p, not_calm calm after plan h)

module _ {P : Data → Type 0} (Q E : Data → Type 0) {done late : Data → Data} where
  pub access-Triple :
      (calm : Bool)
      → ((d : Data) → P d → Q (done d))
      → ((d : Data) → P d → E d)
      → ((d : Data) → P d → E (late d))
      → Triple (With calm P) (access done late) (λ u. With calm Q) (Failed calm E)
  access-Triple calm a b c = record {
    holds = λ w. access-Post P Q E done late calm w (a w.0) (b w.0) (c w.0);
  }
