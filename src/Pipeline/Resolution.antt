-- ===== src/Pipeline/Resolution.antt =====
-- The theorems on the whole recovery of a pending attempt, `_resume_pending_attempt` of
-- src/homeops_ai/pipeline.py.
use homeops_ai.Prelude.{String, ◌≡◌, refl, sym, ◌∙◌, ap, true, Option, none, some, [], ◌∷◌}
use homeops_ai.Prelude.Result.{Result}
use homeops_ai.Value.{str, Dict, get}
use homeops_ai.Pipeline.{Raised, fields_of}
use homeops_ai.Pipeline.Attempt.{phase_of}
use homeops_ai.Pipeline.Run.{journaled, World, Env}
use homeops_ai.Pipeline.Resume.{resume_pending_attempt}
use homeops_ai.Prelude.Triple.{Post, either-Post, weaken_both}
use homeops_ai.Pipeline.Safety.{IsOrderly, IsSameAttempt}
use homeops_ai.Pipeline.Steps.{Setting, IsPending, held, ending, over, IsSettled, pending-IsOrderly}
use homeops_ai.Pipeline.Updates.{same-refl}
use homeops_ai.Pipeline.Redact.{clean_fields}
use homeops_ai.Pipeline.Phases.{resume-Triple}

-- The state in which a run finds the attempt that it reads, with its archive.
abbrev pub found_pending :
    (attempt : Dict) (archive : Option String) (last_result : Option Dict) → World
found_pending a archive last_result = record {
  attempt = some a;
  archive = archive;
  last_result = last_result;
  log = journaled a ∷ [];
}

-- The pending attempt and its archive are removed, and the result is recorded without capability
-- material.
abbrev pub IsResolved : Dict → World → Type 0
IsResolved r w =
    (w.attempt ≡ none) × ((w.archive ≡ none) × ((w.last_result ≡ some r) × (clean_fields r ≡ true)))

-- The attempt is still pending, with its archive.
abbrev pub IsRetained : (attempt : Dict) (archive : Option String) → World → Type 0
IsRetained a archive w =
    (b : Dict) × ((w.attempt ≡ some b) × (IsSameAttempt a b × (w.archive ≡ archive)))

-- The archive is removed, but the attempt is not: it is terminal, and its terminal result is the one
-- recorded, without capability material.
abbrev pub IsEnding : (attempt : Dict) → World → Type 0
IsEnding a w =
    (b : Dict) × ((w.attempt ≡ some b)
      × (IsSameAttempt a b
          × ((w.archive ≡ none)
              × ((phase_of b ≡ str "TERMINAL")
                  × ((w.last_result ≡ some (fields_of (get b "terminal_result")))
                      × (clean_fields (fields_of (get b "terminal_result")) ≡ true))))))

-- What a run that raises leaves of the attempt.
pub data IsLeft (attempt : Dict) (archive : Option String) (w : World) : Type 0 where
  kept : IsRetained attempt archive w → IsLeft attempt archive w
  stripped : IsEnding attempt w → IsLeft attempt archive w
  gone : (r : Dict) → IsResolved r w → IsLeft attempt archive w

module _ (env : Env) (policy a : Dict) (archive : Option String) (last : Option Dict) where
  abbrev recovery : World × Result Raised Dict
  recovery = resume_pending_attempt env policy a (found_pending a archive last)

  abbrev setting : Setting
  setting = record { policy = policy; first = a; stored = archive }

  resumed : Post (λ r. IsSettled setting r) (IsPending setting) recovery
  resumed = (resume-Triple env setting a).holds (found_pending a archive last) (record {
    pending = refl;
    same = same-refl a;
    archive = refl;
    journal = refl;
    orderly = (tt, tt);
  })

  -- However the receiver, the vault and the disk answer, each event of a recovery is justified by
  -- what came before it. A commit is sent only if the attempt journaled last has the phase
  -- COMMITTING, the commit names that attempt's request and candidate, the attempt's release policy
  -- equals the current one, and the source was found to match the attempt just before. A result is
  -- recorded only without capability material. The archive and the pending attempt are removed only
  -- if the attempt journaled last is TERMINAL and its terminal result has been recorded since.
  pub recovery-IsOrderly : IsOrderly policy recovery.0.log
  recovery-IsOrderly =
      either-Post (λ w. IsOrderly policy w.log) (λ r. IsSettled setting r) (IsPending setting)
        recovery (λ r w h. h.orderly) (pending-IsOrderly setting) resumed

  pending-IsLeft : (w : World) → IsPending setting w → IsLeft a archive w
  pending-IsLeft w (held b h) = IsLeft.kept (b, (h.pending, (h.same, h.archive)))
  pending-IsLeft w (ending b r h) = IsLeft.stripped (
    b,
    (
      h.pending,
      (
        h.same,
        (h.archive, (h.phase, (h.last ∙ ap some (sym h.value), ap clean_fields h.value ∙ h.clean))),
      ),
    ),
  )
  pending-IsLeft w (over r h) = IsLeft.gone r (h.pending, (h.archive, (h.result, h.clean)))

  -- A recovery that returns a result has removed the pending attempt and its archive, and has
  -- recorded that result, which is without capability material. A recovery that raises, as it does
  -- where a change of the state directory fails, leaves one of three things: the attempt still
  -- pending, with the request and its capability, the snapshot, the release policy and the archive
  -- that it had; or the same attempt without its archive, terminal, with its terminal result
  -- recorded; or neither attempt nor archive, with a result recorded.
  pub recovery_resolves_or_retains : Post IsResolved (IsLeft a archive) recovery
  recovery_resolves_or_retains =
      weaken_both (λ r. IsSettled setting r) IsResolved (IsPending setting) (IsLeft a archive)
        recovery (λ r w h. (h.pending, (h.archive, (h.result, h.clean)))) pending-IsLeft resumed
