-- ===== src/Prelude/Effect.antt =====
-- Code that changes a state and may raise: a run returns the state that it leaves, and a value or the
-- exception that ended it. What was done before an exception stays done.
use homeops_ai.Prelude.Result.{Result, ok, err}
use mathlib.Core.Path.{◌≡◌, refl}
use mathlib.Core.Bool.{Bool, true, false}

-- `W` is the state, `X` are the exceptions.
abbrev pub Effect {ℓ} : (W X : Type 0) → Type ℓ → Type ℓ
Effect W X A = W → W × Result X A

module _ {W X : Type 0} where
  abbrev pub return {ℓ} : {A : Type ℓ} → A → Effect W X A
  return value w = (w, ok value)

  abbrev pub raise {ℓ} : {A : Type ℓ} → X → Effect W X A
  raise exception w = (w, err exception)

  abbrev pub continue {ℓ κ} :
      {A : Type ℓ} {B : Type κ} → (A → Effect W X B) → W × Result X A → W × Result X B
  continue rest (w, ok value) = rest value w
  continue rest (w, err exception) = (w, err exception)

  infixl 5 ◌>>=◌
  abbrev pub ◌>>=◌ {ℓ κ} :
      {A : Type ℓ} {B : Type κ} → Effect W X A → (A → Effect W X B) → Effect W X B
  (call >>= rest) w = continue rest (call w)

  infixl 5 ◌>>◌
  abbrev pub ◌>>◌ {κ} : {B : Type κ} → Effect W X (Unit {0}) → Effect W X B → Effect W X B
  check >> rest = check >>= λ done. rest

  -- `if not test: raise exception`
  abbrev pub ensure : Bool → X → Effect W X (Unit {0})
  ensure true exception = return tt
  ensure false exception = raise exception

  -- `if test: ...` at the start of a line
  abbrev pub branch {ℓ} : {A : Type ℓ} → Bool → Effect W X A → Effect W X A → Effect W X A
  branch true x y = x
  branch false x y = y

  -- A pure function that may raise.
  abbrev pub lift {ℓ} : {A : Type ℓ} → Result X A → Effect W X A
  lift r w = (w, r)

  -- Calls nest either way.
  pub continue_assoc {ℓ κ μ} :
      {A : Type ℓ} {B : Type κ} {C : Type μ} (k : A → Effect W X B) (l : B → Effect W X C)
      (x : W × Result X A)
      → continue l (continue k x) ≡ continue (λ a. k a >>= l) x
  continue_assoc k l (w, ok a) = refl
  continue_assoc k l (w, err e) = refl
