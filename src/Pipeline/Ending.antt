-- ===== src/Pipeline/Ending.antt =====
-- The end of a pending attempt, src/homeops_ai/pipeline.py: `_retire_pending_attempt` and
-- `_resolve_pending_attempt`, of which each change of the state directory may fail.
use homeops_ai.Prelude.{◌≡◌, refl, sym, ◌∙◌, ap, subst, true, none, some, length}
use homeops_ai.Value.{str, Dict, get}
use homeops_ai.Pipeline.{fields_of, redact_result}
use homeops_ai.Pipeline.Redact.{clean_fields, redact_result_lem}
use homeops_ai.Pipeline.Attempt.{phase_of}
use homeops_ai.Pipeline.Run.{
  Event, archive_removed, retired, flushed, failed, World, Env, logged, retire_pending_attempt,
  resolve_pending_attempt,
}
use homeops_ai.Prelude.Triple.{Triple, bind-Triple, given-Triple, return-Triple}
use homeops_ai.Pipeline.Safety.{IsJustified}
use homeops_ai.Pipeline.Updates.{
  terminal_change, phase-terminal, result-terminal, terminal-IsProgress,
}
use homeops_ai.Pipeline.Steps.{
  Setting, IsHolding, IsTerminal, IsSettled, IsPending, held, ending, over, stored-Post,
  failed-IsHolding, IsRecorded, update-Triple, write_last-Triple,
}

module _ (env : Env) (s : Setting) (a r : Dict) where
  unarchived-IsTerminal :
      (w : World)
      → phase_of a ≡ str "TERMINAL"
      → fields_of (get a "terminal_result") ≡ r
      → clean_fields r ≡ true
      → IsRecorded env s a r w
      → IsTerminal s a r (logged archive_removed (record w { archive = none }))
  unarchived-IsTerminal w p v c h = record {
    pending = h.0.pending;
    same = h.0.same;
    archive = refl;
    phase = p;
    value = v;
    last = h.1.0;
    clean = c;
    journal = h.0.journal;
    recorded = h.1.1;
    orderly = (
      record { attempt = a; journal = h.0.journal; phase = p; result = h.1.1 ∙ ap some (sym v) },
      h.0.orderly,
    );
  }

  failed-IsTerminal : (w : World) → IsTerminal s a r w → IsTerminal s a r (logged failed w)
  failed-IsTerminal w h = record {
    pending = h.pending;
    same = h.same;
    archive = h.archive;
    phase = h.phase;
    value = h.value;
    last = h.last;
    clean = h.clean;
    journal = h.journal;
    recorded = h.recorded;
    orderly = (tt, h.orderly);
  }

  removed-IsSettled :
      (w : World)
      → IsTerminal s a r w
      → IsSettled s r (logged retired (record w { attempt = none }))
  removed-IsSettled w h = record {
    pending = refl;
    archive = h.archive;
    result = h.last;
    clean = h.clean;
    orderly = (
      record {
        attempt = a;
        journal = h.journal;
        phase = h.phase;
        result = h.recorded ∙ ap some (sym h.value);
      },
      h.orderly,
    );
  }

  -- An event that changes nothing.
  quiet-IsSettled :
      (e : Event) (w : World)
      → IsJustified s.policy e w.log
      → IsSettled s r w
      → IsSettled s r (logged e w)
  quiet-IsSettled e w j h = record {
    pending = h.pending;
    archive = h.archive;
    result = h.result;
    clean = h.clean;
    orderly = (j, h.orderly);
  }

  -- The archive is removed before the attempt, and the attempt only with its result recorded.
  pub retire-Triple :
      phase_of a ≡ str "TERMINAL"
      → fields_of (get a "terminal_result") ≡ r
      → clean_fields r ≡ true
      → Triple
          (IsRecorded env s a r)
          (retire_pending_attempt env)
          (λ u. IsSettled s r)
          (IsPending s)
  unfolding retire_pending_attempt
  retire-Triple p v c =
      bind-Triple (λ u. IsTerminal s a r)
        (record {
          holds = λ w h.
              let done = unarchived-IsTerminal w p v c h in
              stored-Post env s (λ u. IsTerminal s a r) (IsPending s) (env.disk (length w.log))
                archive_removed (λ v. record v { archive = none }) tt w done
                (held a (failed-IsHolding env s a w h.0)) (ending a r (failed-IsTerminal _ done));
        })
        (λ u.
          bind-Triple (λ u. IsSettled s r)
            (record {
              holds = λ w h.
                  let done = removed-IsSettled w h in
                  stored-Post env s (λ u. IsSettled s r) (IsPending s) (env.disk (length w.log))
                    retired (λ v. record v { attempt = none }) tt w done
                    (ending a r (failed-IsTerminal w h))
                    (over r (quiet-IsSettled failed _ tt done));
            })
            (λ u. record {
              holds = λ w h.
                  let done = quiet-IsSettled flushed w tt h in
                  stored-Post env s (λ u. IsSettled s r) (IsPending s) (env.disk (length w.log))
                    flushed (λ v. v) tt w done (over r (quiet-IsSettled failed w tt h))
                    (over r (quiet-IsSettled failed _ tt done));
            }))

module _ (env : Env) (s : Setting) where
  -- Resolving a pending attempt removes it and leaves its result, or leaves the attempt pending.
  pub resolve-Triple :
      (a r : Dict)
      → Triple (IsHolding s a) (resolve_pending_attempt env a r) (λ d. IsSettled s d) (IsPending s)
  unfolding resolve_pending_attempt
  resolve-Triple a r =
      let q = redact_result r in
      bind-Triple _ (update-Triple env s a (terminal_change q) (terminal-IsProgress q)) (λ b.
        given-Triple (λ x.
          let phase = ap phase_of x.1 ∙ phase-terminal x.0 q a in
          let value = ap (λ d. fields_of (get d "terminal_result")) x.1 ∙ result-terminal x.0 q a in
          bind-Triple _ (write_last-Triple env s b q) (λ u.
            bind-Triple _
              (retire-Triple env s b (redact_result q) phase value (redact_result_lem q).0)
              (λ v. return-Triple _ (λ w h. subst (λ d. IsSettled s d w) (sym value) h)))))
