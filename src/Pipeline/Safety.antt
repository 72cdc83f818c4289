-- ===== src/Pipeline/Safety.antt =====
-- What holds of the state directory and of the log while src/homeops_ai/pipeline.py recovers a
-- pending attempt: the predicates, and that the single steps keep them.
use homeops_ai.Prelude.{
  String, ◌≡◌, refl, ◌∙◌, Bool, true, false, ◌||◌, Option, none, some, List, [], ◌∷◌, arith, str_eq,
  mem, All,
}
use homeops_ai.Value.{str, Dict, end, field, get, insert, keys}
use homeops_ai.Value.Laws.{get-insert}
use homeops_ai.Pipeline.{fields_of}
use homeops_ai.Pipeline.Redact.{clean_fields}
use homeops_ai.Pipeline.Policy.{request_fields}
use homeops_ai.Pipeline.Attempt.{request_of, phase_of, checked_attempt}
use homeops_ai.Pipeline.Run.{
  Event, journaled, recorded, archive_removed, retired, inspected, committed, changed,
}
use homeops_ai.Pipeline.Resume.{commit_body, is_text_of, policy_matches}

-- The attempt that was journaled last.
abbrev pub last_journaled : List Event → Option Dict
last_journaled [] = none
last_journaled (journaled a ∷ log) = some a
last_journaled (e ∷ log) = last_journaled log

-- Was the source compared with the attempt just now, and found to match it?
abbrev pub just_matched : List Event → Bool
just_matched (inspected matches ∷ log) = matches
just_matched log = false

-- The result that was recorded last, since the attempt was journaled.
abbrev pub last_recorded : List Event → Option Dict
last_recorded [] = none
last_recorded (recorded r ∷ log) = some r
last_recorded (journaled a ∷ log) = none
last_recorded (e ∷ log) = last_recorded log

-- A commit sent after the log: the last journaled attempt has the phase COMMITTING, the commit
-- names its candidate and its request, its policy is the release policy, and the source was found
-- to match it just before.
pub record IsAuthorized (release_policy : Dict) (body : Dict) (log : List Event) : Type 0 where
  pub attempt : Dict
  pub journal : last_journaled log ≡ some attempt
  pub phase : is_text_of "COMMITTING" (phase_of attempt) ≡ true
  pub names : body ≡ commit_body (request_of attempt) (get attempt "candidate_deployment_id")
  pub policy : policy_matches release_policy attempt ≡ true
  pub source : just_matched log ≡ true

-- The pending files removed after the log: the last journaled attempt has the phase TERMINAL, and its
-- terminal result has been recorded since.
pub record IsEnded (log : List Event) : Type 0 where
  pub attempt : Dict
  pub journal : last_journaled log ≡ some attempt
  pub phase : phase_of attempt ≡ str "TERMINAL"
  pub result : last_recorded log ≡ some (fields_of (get attempt "terminal_result"))

abbrev pub IsJustified : (release_policy : Dict) → Event → List Event → Type 0
IsJustified policy (committed body) log = IsAuthorized policy body log
IsJustified policy (recorded r) log = clean_fields r ≡ true
IsJustified policy archive_removed log = IsEnded log
IsJustified policy retired log = IsEnded log
IsJustified policy e log = Unit {0}

-- Each event of a log is justified by what came before it.
abbrev pub IsOrderly : (release_policy : Dict) → List Event → Type 0
IsOrderly policy [] = Unit {0}
IsOrderly policy (e ∷ log) = IsJustified policy e log × IsOrderly policy log

abbrev pub kept_parts : List String
kept_parts = "snapshot" ∷ "release_policy" ∷ "archive_sha256" ∷ []

-- The same attempt at another phase: the request with its capability, the snapshot, the release
-- policy and the archive's digest.
pub record IsSameAttempt (a b : Dict) : Type 0 where
  pub request : All (λ f. get (request_of b) f ≡ get (request_of a) f) request_fields
  pub parts : All (λ f. get b f ≡ get a f) kept_parts

-- A change of fields that are not the attempt's identity.
pub record IsProgress (changes : Dict) : Type 0 where
  pub request : mem "request" (keys changes) ≡ false
  pub parts : All (λ f. mem f (keys changes) ≡ false) kept_parts

pub or_false : (a b : Bool) → (a || b) ≡ false → (a ≡ false) × (b ≡ false)
or_false a b h = ground arith

pub get-changed :
    (changes a : Dict) (k : String)
    → mem k (keys changes) ≡ false
    → get (changed changes a) k ≡ get a k
unfolding keys
get-changed end a k h = refl
get-changed (field j v rest) a k h =
    let (h1, h2) = or_false (str_eq j k) (mem k (keys rest)) h in
    get-changed rest (insert j v a) k h2 ∙ (get-insert j k v a ∙ rw h1 refl)

-- The attempt that an update journals.
abbrev pub updated : (at : String) (changes a : Dict) → Dict
updated at changes a = checked_attempt (insert "updated_at" (str at) (changed changes a))
