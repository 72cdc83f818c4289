-- ===== src/Prelude/Triple.antt =====
-- Triples for runs that change a state and may raise: what holds before, of a returned value, and
-- when the run raises.
use homeops_ai.Prelude.Tests.{if◌then◌else◌}
use homeops_ai.Prelude.Result.{Result, ok, err}
use homeops_ai.Prelude.Effect.{Effect, return, raise, continue, ◌>>=◌, ensure, branch, lift}
use mathlib.Core.Path.{◌≡◌, refl, subst, sym}
use mathlib.Core.Logic.{◌⊎◌, inl, inr}
use mathlib.Core.Bool.{Bool, true, false}

module _ {W X : Type 0} where
  abbrev pub Post {ℓ} : {A : Type ℓ} (Q : A → W → Type 0) (E : W → Type 0) → W × Result X A → Type 0
  Post Q E (w, ok value) = Q value w
  Post Q E (w, err exception) = E w

  pub record Triple {ℓ} {A : Type ℓ} (P : W → Type 0) (m : Effect W X A) (Q : A → W → Type 0)
      (E : W → Type 0) : Type ℓ where
    pub holds : (w : W) → P w → Post Q E (m w)

  pub lift-Post {ℓ} :
      {A : Type ℓ} (Q : A → W → Type 0) (E : W → Type 0) (r : Result X A) (w : W)
      → ((a : A) → r ≡ ok a → Q a w)
      → E w
      → Post Q E (lift r w)
  lift-Post Q E (ok a) w s e = s a refl
  lift-Post Q E (err x) w s e = e

  pub weaken_both {ℓ} :
      {A : Type ℓ} (Q Q' : A → W → Type 0) (E E' : W → Type 0) (x : W × Result X A)
      → ((a : A) (w : W) → Q a w → Q' a w)
      → ((w : W) → E w → E' w)
      → Post Q E x
      → Post Q' E' x
  weaken_both Q Q' E E' (w, ok a) f g h = f a w h
  weaken_both Q Q' E E' (w, err e) f g h = g w h

  -- What holds of the state in both cases.
  pub either-Post {ℓ} :
      {A : Type ℓ} (F : W → Type 0) (Q : A → W → Type 0) (E : W → Type 0) (x : W × Result X A)
      → ((a : A) (w : W) → Q a w → F w)
      → ((w : W) → E w → F w)
      → Post Q E x
      → F x.0
  either-Post F Q E (w, ok a) f g h = f a w h
  either-Post F Q E (w, err e) f g h = g w h

  -- A run that cannot have raised has returned.
  pub returned-Post {ℓ} :
      {A : Type ℓ} (Q : A → W → Type 0) (E : W → Type 0) (x : W × Result X A)
      → Post Q E x
      → (E x.0 → ⊥)
      → (a : A) × (x.1 ≡ ok a) × Q a x.0
  returned-Post Q E (w, ok a) h n = (a, refl, h)
  returned-Post Q E (w, err e) h n = absurd (n h)

  weaken-Post {ℓ} :
      {A : Type ℓ} (Q Q' : A → W → Type 0) (E : W → Type 0)
      → ((a : A) (w : W) → Q a w → Q' a w)
      → (x : W × Result X A) → Post Q E x
      → Post Q' E x
  weaken-Post Q Q' E f (w, ok a) h = f a w h
  weaken-Post Q Q' E f (w, err e) h = h

  -- What is known when the run raises may be more than is asked.
  pub weaken_raised-Triple {ℓ} :
      {A : Type ℓ} {P : W → Type 0} {Q : A → W → Type 0} {E E' : W → Type 0} {m : Effect W X A}
      → ((w : W) → E w → E' w)
      → Triple P m Q E
      → Triple P m Q E'
  weaken_raised-Triple {Q = Q} {E = E} {E' = E'} {m = m} f t = record {
    holds = λ w p. weaken_both Q Q E E' (m w) (λ a w q. q) f (t.holds w p);
  }

  module _ {E : W → Type 0} where
    module _ {ℓ κ} {A : Type ℓ} {B : Type κ} where
      continue-Post :
          (Q : A → W → Type 0) (R : B → W → Type 0) (k : A → Effect W X B)
          → ((a : A) → Triple (Q a) (k a) R E)
          → (x : W × Result X A) → Post Q E x
          → Post R E (continue k x)
      continue-Post Q R k t (w, ok a) h = (t a).holds w h
      continue-Post Q R k t (w, err e) h = h

      -- The rest of a run starts where its first call returns.
      pub bind-Triple :
          {P : W → Type 0} (Q : A → W → Type 0) {R : B → W → Type 0} {m : Effect W X A}
          {k : A → Effect W X B}
          → Triple P m Q E
          → ((a : A) → Triple (Q a) (k a) R E)
          → Triple P (m >>= k) R E
      bind-Triple Q {R = R} {m = m} {k = k} s t = record {
        holds = λ w h. continue-Post Q R k t (m w) (s.holds w h);
      }

    module _ {ℓ} {A : Type ℓ} {P : W → Type 0} {Q : A → W → Type 0} where
      -- Each branch may use the outcome of the test.
      pub if-Triple :
          (b : Bool) {x y : Effect W X A}
          → (b ≡ true → Triple P x Q E)
          → (b ≡ false → Triple P y Q E)
          → Triple P (if b then x else y) Q E
      if-Triple true s t = s refl
      if-Triple false s t = t refl

      pub branch-Triple :
          (b : Bool) {x y : Effect W X A}
          → (b ≡ true → Triple P x Q E)
          → (b ≡ false → Triple P y Q E)
          → Triple P (branch b x y) Q E
      branch-Triple true s t = s refl
      branch-Triple false s t = t refl

      pub return-Triple : (value : A) → ((w : W) → P w → Q value w) → Triple P (return value) Q E
      return-Triple value h = record { holds = h }

      pub raise-Triple : (e : X) → ((w : W) → P w → E w) → Triple P (raise e) Q E
      raise-Triple e h = record { holds = h }

      -- What a run needs may be weaker than what is known.
      pub weaken-Triple :
          {P' : W → Type 0} {m : Effect W X A}
          → ((w : W) → P' w → P w)
          → Triple P m Q E
          → Triple P' m Q E
      weaken-Triple h t = record { holds = λ w p. t.holds w (h w p) }

      -- A pure call returns what it returns, and changes nothing.
      pub lift-Triple :
          (r : Result X A)
          → ((w : W) (a : A) → r ≡ ok a → P w → Q a w)
          → ((w : W) → P w → E w)
          → Triple P (lift r) Q E
      lift-Triple r s e = record { holds = λ w p. lift-Post Q E r w (λ a x. s w a x p) (e w p) }

    module _ {P : W → Type 0} where
      pub ensure-Triple :
          (b : Bool) (e : X)
          → ((w : W) → P w → E w)
          → Triple P (ensure b e) (λ u w. P w × (b ≡ true)) E
      ensure-Triple true e h = record { holds = λ w p. (p, refl) }
      ensure-Triple false e h = record { holds = h }

    module _ {ℓ} {A : Type ℓ} {P : W → Type 0} {Q : A → W → Type 0} where
      -- A fact that does not speak of the state is known for the whole run.
      pub given-Triple :
          {F : Type 0} {m : Effect W X A} → (F → Triple P m Q E) → Triple (λ w. P w × F) m Q E
      given-Triple t = record { holds = λ w h. (t h.1).holds w h.0 }

      -- What is known of the result may be more than is asked.
      pub weaken_post-Triple :
          {Q' : A → W → Type 0} {m : Effect W X A}
          → ((a : A) (w : W) → Q a w → Q' a w)
          → Triple P m Q E
          → Triple P m Q' E
      weaken_post-Triple {Q' = Q'} {m = m} f t = record {
        holds = λ w h. weaken-Post Q Q' E f (m w) (t.holds w h);
      }

      -- A call of which it is known what it returns, and that it changes nothing.
      pub known-Triple {κ} :
          {B : Type κ} (b : B) {m : Effect W X B} (k : B → Effect W X A)
          → ((w : W) → P w → m w ≡ (w, ok b))
          → Triple P (k b) Q E
          → Triple P (m >>= k) Q E
      known-Triple b k h t = record {
        holds = λ w p. subst (λ x. Post Q E (continue k x)) (sym (h w p)) (t.holds w p);
      }

      -- Two runs that do the same from the states in question.
      pub same-Triple :
          {m n : Effect W X A} → ((w : W) → P w → m w ≡ n w) → Triple P n Q E → Triple P m Q E
      same-Triple h t = record {
        holds = λ w p. subst (λ x. Post Q E x) (sym (h w p)) (t.holds w p);
      }

      -- What holds before is one of two things.
      pub or-Triple :
          {P' : W → Type 0} {m : Effect W X A}
          → Triple P m Q E
          → Triple P' m Q E
          → Triple (λ w. P w ⊎ P' w) m Q E
      or-Triple s t = record { holds = λ w h. elim h [ inl p ↦ s.holds w p | inr p ↦ t.holds w p ] }
