-- ===== src/Pipeline/Updates.antt =====
-- What an update of the pending attempt keeps, `_update_pending_attempt` of
-- src/homeops_ai/pipeline.py: its identity, and the fields that it does not change.
use homeops_ai.Prelude.{String, ◌≡◌, refl, sym, ◌∙◌, ap, false, List, [], ◌∷◌, str_eq, mem, All}
use homeops_ai.Prelude.Result.{Result, ok, err, ◌>>◌, ok-injective}
use homeops_ai.Value.{Value, str, obj, Dict, end, field, get, get?, insert, keys}
use homeops_ai.Value.Laws.{get-insert}
use homeops_ai.Pipeline.{fields_of, redact, redact_result}
use homeops_ai.Pipeline.Policy.{request_fields, pick}
use homeops_ai.Pipeline.Attempt.{
  request_of, phase_of, checked_attempt, check_attempt, validate_pending_attempt, redacted_terminal,
}
use homeops_ai.Pipeline.Run.{changed}
use homeops_ai.Pipeline.Safety.{
  IsSameAttempt, IsProgress, kept_parts, updated, get-changed, or_false,
}

pub get-updated :
    (at : String) (changes a : Dict) (k : String)
    → mem k ("request" ∷ "terminal_result" ∷ "updated_at" ∷ []) ≡ false
    → get (updated at changes a) k ≡ get (changed changes a) k
get-updated at changes a k h =
    let touched = insert "updated_at" (str at) (changed changes a) in
    let (h1, h2) = or_false (str_eq "request" k) _ h in
    let (h3, h4) = or_false (str_eq "terminal_result" k) _ h2 in
    let (h5, h6) = or_false (str_eq "updated_at" k) false h4 in
    let t = redacted_terminal (get touched "terminal_result") in
    let p = obj (pick request_fields (request_of touched)) in
    (get-insert "request" k p (insert "terminal_result" t touched) ∙ rw h1 refl)
    ∙ ((get-insert "terminal_result" k t touched ∙ rw h3 refl)
        ∙ (get-insert "updated_at" k (str at) (changed changes a) ∙ rw h5 refl))

-- The request that is rebuilt has the same fields.
request-updated :
    (at : String) (changes a : Dict)
    → mem "request" (keys changes) ≡ false
    → request_of (updated at changes a) ≡ pick request_fields (request_of a)
request-updated at changes a h =
    let touched = insert "updated_at" (str at) (changed changes a) in
    let t = redacted_terminal (get touched "terminal_result") in
    let p = obj (pick request_fields (request_of touched)) in
    let e : get touched "request" ≡ get a "request" =
      get-insert "updated_at" "request" (str at) (changed changes a)
      ∙ get-changed changes a "request" h in
    ap fields_of (get-insert "request" "request" p (insert "terminal_result" t touched))
    ∙ ap (λ v. pick request_fields (fields_of v)) e

part-updated :
    (at : String) (changes a : Dict) (k : String)
    → mem k ("request" ∷ "terminal_result" ∷ "updated_at" ∷ []) ≡ false
    → mem k (keys changes) ≡ false
    → get (updated at changes a) k ≡ get a k
part-updated at changes a k g h = get-updated at changes a k g ∙ get-changed changes a k h

All-each {ℓ κ} : {A : Type ℓ} {P : A → Type κ} → ((x : A) → P x) → (xs : List A) → All P xs
All-each f [] = tt
All-each f (x ∷ xs) = (f x, All-each f xs)

pub same-refl : (a : Dict) → IsSameAttempt a a
same-refl a = record {
  request =
      All-each {P = λ f. get (request_of a) f ≡ get (request_of a) f} (λ f. refl) request_fields;
  parts = All-each {P = λ f. get a f ≡ get a f} (λ f. refl) kept_parts;
}

pub updated-IsSameAttempt :
    (first : Dict) (at : String) (changes a : Dict)
    → IsProgress changes
    → IsSameAttempt first a
    → IsSameAttempt first (updated at changes a)
unfolding get get?
updated-IsSameAttempt first at changes a progress s = record {
  request = rw (request-updated at changes a progress.request) s.request;
  parts = (
    part-updated at changes a "snapshot" refl progress.parts.0 ∙ s.parts.0,
    (
      part-updated at changes a "release_policy" refl progress.parts.1.0 ∙ s.parts.1.0,
      (part-updated at changes a "archive_sha256" refl progress.parts.1.1.0 ∙ s.parts.1.1.0, tt),
    ),
  );
}

-- What follows a check that passes.
after {κ} :
    {E : Type 0} {B : Type κ} (check : Result E (Unit {0})) (rest : Result E B) {result : B}
    → (check >> rest) ≡ ok result
    → rest ≡ ok result
after (ok tt) rest h = h
after (err e) rest h = cc

pub validate-checked :
    (digest : Value → String) (a b : Dict)
    → validate_pending_attempt digest (obj a) ≡ ok b
    → b ≡ checked_attempt a
unfolding validate_pending_attempt
validate-checked digest a b h =
    sym (ok-injective _ _ (after (check_attempt digest a) (ok (checked_attempt a)) h))

abbrev pub terminal_change : Dict → Dict
terminal_change r = field "phase" (str "TERMINAL") (field "terminal_result" (obj r) end)

pub phase-terminal :
    (at : String) (r a : Dict) → phase_of (updated at (terminal_change r) a) ≡ str "TERMINAL"
phase-terminal at r a =
    get-updated at (terminal_change r) a "phase" refl
    ∙ (get-insert "terminal_result" "phase" (obj r) (insert "phase" (str "TERMINAL") a)
        ∙ get-insert "phase" "phase" (str "TERMINAL") a)

pub result-terminal :
    (at : String) (r a : Dict)
    → fields_of (get (updated at (terminal_change r) a) "terminal_result") ≡ redact_result r
unfolding redact
result-terminal at r a =
    let u = changed (terminal_change r) a in
    let touched = insert "updated_at" (str at) u in
    let t = redacted_terminal (get touched "terminal_result") in
    let p = obj (pick request_fields (request_of touched)) in
    ap fields_of (
      (get-insert "request" "terminal_result" p (insert "terminal_result" t touched)
        ∙ get-insert "terminal_result" "terminal_result" t touched)
      ∙ ap redacted_terminal (
          get-insert "updated_at" "terminal_result" (str at) u
          ∙ get-insert "terminal_result" "terminal_result" (obj r)
              (insert "phase" (str "TERMINAL") a)))

pub terminal-IsProgress : (r : Dict) → IsProgress (terminal_change r)
unfolding keys
terminal-IsProgress r = record { request = refl; parts = (refl, (refl, (refl, tt))) }
