-- ===== src/Pipeline/Steps.antt =====
-- What the single steps of a recovery keep, src/homeops_ai/pipeline.py: updating the pending attempt,
-- calling the receiver, inspecting the source, and recording a result.
use homeops_ai.Prelude.{
  String, ◌≡◌, refl, sym, ◌∙◌, subst, Bool, true, false, Option, none, some, ◌∷◌, length,
}
use homeops_ai.Prelude.Result.{Result, ok, err}
use homeops_ai.Value.{str, obj, Dict, get, insert}
use homeops_ai.Pipeline.{Raised, fields_of, redact_result}
use homeops_ai.Pipeline.Redact.{clean_fields, redact_result_lem}
use homeops_ai.Pipeline.Receiver.{answer_of}
use homeops_ai.Pipeline.Attempt.{phase_of, validate_pending_attempt}
use homeops_ai.Pipeline.Run.{
  Event, recorded, inspected, journaled, failed, Disk, works, fails_before, fails_after, stored,
  World, Env, logged, changed, call, source_of, source_matches_pending, write_pending_attempt,
  matched, journal, update_pending_attempt, write_last_result,
}
use homeops_ai.Prelude.Triple.{Post, Triple}
use homeops_ai.Pipeline.Safety.{
  last_journaled, just_matched, last_recorded, IsJustified, IsOrderly, IsSameAttempt, IsProgress,
  updated,
}
use homeops_ai.Pipeline.Updates.{updated-IsSameAttempt, validate-checked}

-- What stays the same while a run lasts: the release policy, the attempt as it was read, and the
-- archive.
pub record Setting : Type 0 where
  pub policy : Dict
  pub first : Dict
  pub stored : Option String

-- The attempt is pending.
pub record IsHolding (s : Setting) (a : Dict) (w : World) : Type 0 where
  pub pending : w.attempt ≡ some a
  pub same : IsSameAttempt s.first a
  pub archive : w.archive ≡ s.stored
  pub journal : last_journaled w.log ≡ some a
  pub orderly : IsOrderly s.policy w.log

-- The attempt is terminal with a result that is recorded, and its archive is removed.
pub record IsTerminal (s : Setting) (a r : Dict) (w : World) : Type 0 where
  pub pending : w.attempt ≡ some a
  pub same : IsSameAttempt s.first a
  pub archive : w.archive ≡ none
  pub phase : phase_of a ≡ str "TERMINAL"
  pub value : fields_of (get a "terminal_result") ≡ r
  pub last : w.last_result ≡ some r
  pub clean : clean_fields r ≡ true
  pub journal : last_journaled w.log ≡ some a
  pub recorded : last_recorded w.log ≡ some r
  pub orderly : IsOrderly s.policy w.log

-- The attempt is resolved with a result.
pub record IsSettled (s : Setting) (r : Dict) (w : World) : Type 0 where
  pub pending : w.attempt ≡ none
  pub archive : w.archive ≡ none
  pub result : w.last_result ≡ some r
  pub clean : clean_fields r ≡ true
  pub orderly : IsOrderly s.policy w.log

-- What a run that raises may leave: some phase of the attempt, with its archive; the terminal
-- attempt without it; or nothing but the result.
pub data IsPending (s : Setting) (w : World) : Type 0 where
  held : (a : Dict) → IsHolding s a w → IsPending s w
  ending : (a r : Dict) → IsTerminal s a r w → IsPending s w
  over : (r : Dict) → IsSettled s r w → IsPending s w

pub pending-IsOrderly : (s : Setting) (w : World) → IsPending s w → IsOrderly s.policy w.log
pending-IsOrderly s w (held a h) = h.orderly
pending-IsOrderly s w (ending a r h) = h.orderly
pending-IsOrderly s w (over r h) = h.orderly

module _ (env : Env) (s : Setting) where
  pub fails : (a : Dict) (w : World) → IsHolding s a w → IsPending s w
  fails a w h = held a h

  -- An event that journals nothing and is no poll.
  pub logged-IsHolding :
      (e : Event) (a : Dict) (w : World)
      → last_journaled (e ∷ w.log) ≡ last_journaled w.log
      → IsJustified s.policy e w.log
      → IsHolding s a w
      → IsHolding s a (logged e w)
  logged-IsHolding e a w hj j h = record {
    pending = h.pending;
    same = h.same;
    archive = h.archive;
    journal = hj ∙ h.journal;
    orderly = (j, h.orderly);
  }

  answer-Post :
      (Q : World → Type 0) (r : Result Raised Dict) (w : World)
      → Q w
      → ((v : World) → Q v → IsPending s v)
      → Post (λ d v. Q v) (IsPending s) (w, r)
  answer-Post Q (ok d) w q f = q
  answer-Post Q (err e) w q f = f w q

  pub call-Triple :
      (e : Event) (P Q : World → Type 0)
      → ((w : World) → P w → Q (logged e w))
      → ((w : World) → Q w → IsPending s w)
      → Triple P (call env e) (λ d. Q) (IsPending s)
  unfolding call
  call-Triple e P Q f g = record {
    holds = λ w p. answer-Post Q (answer_of (env.receiver (length w.log))) (logged e w) (f w p) g;
  }

  inspect-Post :
      (a : Dict) (w : World) (r : Result Raised Bool)
      → IsHolding s a w
      → Post
          (λ matches v. IsHolding s a v × (just_matched v.log ≡ matches))
          (IsPending s)
          (logged (inspected (matched env r)) w, r)
  inspect-Post a w (ok b) h = (logged-IsHolding (inspected b) a w refl tt h, refl)
  inspect-Post a w (err e) h = fails a _ (logged-IsHolding (inspected false) a w refl tt h)

  pub inspect-Triple :
      (a b : Dict)
      → Triple
          (IsHolding s a)
          (source_matches_pending env b)
          (λ matches w. IsHolding s a w × (just_matched w.log ≡ matches))
          (IsPending s)
  unfolding source_matches_pending
  inspect-Triple a b = record {
    holds = λ w h. inspect-Post a w (source_of env b (env.vault (length w.log))) h;
  }

  -- A change of the state directory.
  pub stored-Post {ℓ} :
      {A : Type ℓ} (Q : A → World → Type 0) (E : World → Type 0) (d : Disk) (e : Event)
      (change : World → World) (value : A) (w : World)
      → Q value (logged e (change w))
      → E (logged failed w)
      → E (logged failed (logged e (change w)))
      → Post Q E (stored d e change value w)
  stored-Post Q E works e change value w good bad late = good
  stored-Post Q E fails_before e change value w good bad late = bad
  stored-Post Q E fails_after e change value w good bad late = late

  pub failed-IsHolding : (a : Dict) (w : World) → IsHolding s a w → IsHolding s a (logged failed w)
  failed-IsHolding a w h = logged-IsHolding failed a w refl tt h

  journaled-IsHolding :
      (a b : Dict) (w : World)
      → IsSameAttempt s.first b
      → IsHolding s a w
      → IsHolding s b (logged (journaled b) (record w { attempt = some b }))
  journaled-IsHolding a b w same h = record {
    pending = refl;
    same = same;
    archive = h.archive;
    journal = refl;
    orderly = (tt, h.orderly);
  }

  journal-Post :
      (a changes : Dict) (at : String) (w : World) (r : Result Raised Dict)
      → IsProgress changes
      → ((b : Dict) → r ≡ ok b → b ≡ updated at changes a)
      → IsHolding s a w
      → Post
          (λ b v. IsHolding s b v × ((at : String) × (b ≡ updated at changes a)))
          (IsPending s)
          (journal env w r)
  journal-Post a changes at w (ok b) p f h =
      let same =
        subst (IsSameAttempt s.first) (sym (f b refl))
          (updated-IsSameAttempt s.first at changes a p h.same) in
      let done = journaled-IsHolding a b w same h in
      stored-Post (λ b v. IsHolding s b v × ((at : String) × (b ≡ updated at changes a)))
        (IsPending s) (env.disk (length w.log)) (journaled b) (λ v. record v { attempt = some b }) b
        w (done, (at, f b refl)) (held a (failed-IsHolding a w h))
        (held b (failed-IsHolding b _ done))
  journal-Post a changes at w (err e) p f h = fails a w h

  pub update-Triple :
      (a changes : Dict)
      → IsProgress changes
      → Triple
          (IsHolding s a)
          (update_pending_attempt env a changes)
          (λ b w. IsHolding s b w × ((at : String) × (b ≡ updated at changes a)))
          (IsPending s)
  unfolding update_pending_attempt write_pending_attempt
  update-Triple a changes p = record {
    holds = λ w h.
        let at = env.clock (length w.log) in
        let touched = insert "updated_at" (str at) (changed changes a) in
        journal-Post a changes at w (validate_pending_attempt env.digest (obj touched)) p
          (λ b e. validate-checked env.digest touched b e) h;
  }

  recorded-IsHolding :
      (a r : Dict) (w : World)
      → IsHolding s a w
      → IsHolding s a
          (logged (recorded (redact_result r)) (record w { last_result = some (redact_result r) }))
  recorded-IsHolding a r w h = record {
    pending = h.pending;
    same = h.same;
    archive = h.archive;
    journal = h.journal;
    orderly = ((redact_result_lem r).0, h.orderly);
  }

  -- The attempt is pending, and the result has been recorded.
  abbrev pub IsRecorded : (a r : Dict) → World → Type 0
  IsRecorded a r w = IsHolding s a w × ((w.last_result ≡ some r) × (last_recorded w.log ≡ some r))

  pub write_last-Triple :
      (a r : Dict)
      → Triple
          (IsHolding s a)
          (write_last_result env r)
          (λ u. IsRecorded a (redact_result r))
          (IsPending s)
  unfolding write_last_result
  write_last-Triple a r = record {
    holds = λ w h.
        let done = recorded-IsHolding a r w h in
        stored-Post (λ u. IsRecorded a (redact_result r)) (IsPending s) (env.disk (length w.log))
          (recorded (redact_result r)) (λ v. record v { last_result = some (redact_result r) }) tt w
          (done, (refl, refl)) (held a (failed-IsHolding a w h))
          (held a (failed-IsHolding a _ done));
  }
