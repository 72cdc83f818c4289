-- ===== src/Broker/Life.antt =====
-- The life of a request at the write broker: an abstract machine, and that the broker follows it.
use homeops_ai.Prelude.{lookup}
use homeops_ai.Prelude.{String, ◌≡◌, refl, Option, none, some, List}
use homeops_ai.Value.{Value, Dict}
use homeops_ai.Broker.State.{Host, Intent, Env, World}
use homeops_ai.Broker.Handle.{handle}
use homeops_ai.Broker.Vault.{handle-Grows}

-- A request is unknown, or accepted with what it asks, or has its final result.
pub data Phase : Type 0 where
  unknown : Phase
  accepted : Intent → Phase
  finished : Intent → Dict → Phase

infix 40 ◌⟶◌ ◌⟶*◌
pub data ◌⟶◌ : Phase → Phase → Type 0 where
  accept : (i : Intent) → unknown ⟶ accepted i
  finish : (i : Intent) (r : Dict) → accepted i ⟶ finished i r

pub data ◌⟶*◌ (p : Phase) : Phase → Type 0 where
  stay : p ⟶* p
  go : {q r : Phase} → p ⟶* q → q ⟶ r → p ⟶* r

abbrev phase_from : Option Intent → Option Dict → Phase
phase_from none o = unknown
phase_from (some i) none = accepted i
phase_from (some i) (some r) = finished i r

-- The phase of a request in a state of the broker.
abbrev pub phase : String → World → Phase
phase id w = phase_from (lookup id w.requests) (lookup id w.results)

abbrev IsGrown {ℓ} : {A : Type ℓ} → Option A → Option A → Type ℓ
IsGrown {A} a b = (x : A) → a ≡ some x → b ≡ some x

grown-phase :
    (a b : Option Intent) (c d : Option Dict)
    → IsGrown a b
    → IsGrown c d
    → phase_from a c ⟶* phase_from b d
grown-phase none none c d p q = stay
grown-phase none (some i) c none p q = go stay (accept i)
grown-phase none (some i) c (some r) p q = go (go stay (accept i)) (finish i r)
grown-phase (some i) b c d p q = from_accepted c d q
  where
    from_accepted : (c d : Option Dict) → IsGrown c d → phase_from (some i) c ⟶* phase_from b d
    from_accepted none none q = rw (p i refl) stay
    from_accepted none (some r) q = rw (p i refl) (go stay (finish i r))
    from_accepted (some r) d q = rw (p i refl, q r refl) stay

-- Refinement: whatever the broker is asked and whatever happens to the vault meanwhile, each request
-- identifier moves along the abstract machine. So it is accepted at most once, it finishes only after
-- it was accepted, and its result never changes.
pub handle-refines :
    (host : Host) (allowed : List String) (env : Env) (request : Value) (w : World) (id : String)
    → phase id w ⟶* phase id (handle host allowed env request w).0
handle-refines host allowed env request w id =
    let (requests, results) = handle-Grows env host allowed request w in
    grown-phase (lookup id w.requests) (lookup id (handle host allowed env request w).0.requests)
      (lookup id w.results) (lookup id (handle host allowed env request w).0.results) (requests id)
      (results id)
