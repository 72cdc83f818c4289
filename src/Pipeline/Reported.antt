-- ===== src/Pipeline/Reported.antt =====
-- What `reconcile` of src/homeops_ai/pipeline.py leaves and returns where an attempt is pending.
use homeops_ai.Prelude.{
  String, inl, inr, Bool-cases, ◌≡◌, refl, true, Option, none, some, List, ap, length,
}
use homeops_ai.Prelude.Result.{Result, ok, err}
use homeops_ai.Value.{Value, str, Dict, get, same}
use homeops_ai.Pipeline.{Raised, deployment_failed, redact_result}
use homeops_ai.Pipeline.Attempt.{request_of, phase_of}
use homeops_ai.Pipeline.Run.{World, Env, write_last_result, Event, recorded}
use homeops_ai.Pipeline.Safety.{IsSameAttempt}
use homeops_ai.Pipeline.Steps.{Setting, stored-Post}
use homeops_ai.Pipeline.Redact.{clean_fields, redact_result_lem}
use homeops_ai.Prelude.Triple.{Post, Triple, bind-Triple, return-Triple}
use homeops_ai.Pipeline.Updates.{same-refl}
use homeops_ai.Pipeline.Resolution.{
  found_pending, IsResolved, IsRetained, IsLeft, recovery_resolves_or_retains,
}
use homeops_ai.Pipeline.Loading.{PendingFiles, load_pending_attempt}
use homeops_ai.Pipeline.Reconcile.{
  resume_own, failure_result, handled, closed, pending_failure, report, resume_loaded,
  reconcile_pending,
}

-- How a run leaves the attempt that it found: resolved and removed with its archive; still pending,
-- with its archive; or terminal and without its archive.
pub data IsStanding (attempt : Dict) (archive : Option String) (w : World) : Type 0 where
  removed : w.attempt ≡ none → w.archive ≡ none → IsStanding attempt archive w
  kept : IsRetained attempt archive w → IsStanding attempt archive w
  stripped :
      (b : Dict)
      → w.attempt ≡ some b
      → IsSameAttempt attempt b
      → phase_of b ≡ str "TERMINAL"
      → w.archive ≡ none
      → IsStanding attempt archive w

-- The last result is the one returned, without capability material.
abbrev pub IsReported : (attempt : Dict) (archive : Option String) → Dict → World → Type 0
IsReported a archive r w =
    (w.last_result ≡ some r) × ((clean_fields r ≡ true) × IsStanding a archive w)

left-IsStanding :
    (a : Dict) (archive : Option String) (w : World) → IsLeft a archive w → IsStanding a archive w
left-IsStanding a archive w (IsLeft.kept h) = kept h
left-IsStanding a archive w (IsLeft.stripped (b, p)) = stripped b p.0 p.1.0 p.1.1.1.0 p.1.1.0
left-IsStanding a archive w (IsLeft.gone r h) = removed h.0 h.1.0

-- Neither the log nor the last result matters to it.
moved-IsStanding :
    (a : Dict) (archive : Option String) (w : World) (last : Option Dict) (log : List Event)
    → IsStanding a archive w
    → IsStanding a archive (record w { last_result = last; log = log })
moved-IsStanding a archive w last log (removed p q) = removed p q
moved-IsStanding a archive w last log (kept (b, h)) = kept (b, (h.0, (h.1.0, h.1.1)))
moved-IsStanding a archive w last log (stripped b p s t q) = stripped b p s t q

module _ (env : Env) (describe : Raised → String) (publisher_id : String) (policy a : Dict)
    (archive : Option String) (last_result : Option Dict) where
  abbrev Standing : World → Type 0
  Standing = IsStanding a archive

  free : Setting
  free = record { policy = policy; first = a; stored = archive }

  failure-Triple :
      (r : Dict)
      → Triple Standing
          (pending_failure env describe publisher_id policy r)
          (IsReported a archive)
          Standing
  unfolding pending_failure write_last_result
  failure-Triple r =
      let q = redact_result r in
      let clean = (redact_result_lem q).0 in
      let same = (redact_result_lem q).2.1 (redact_result_lem r).0 in
      bind-Triple {E = Standing} (λ u w. (w.last_result ≡ some q) × Standing w)
        {R = IsReported a archive}
        (record {
          holds = λ w h.
              stored-Post env free (λ u w. (w.last_result ≡ some q) × Standing w) Standing
                (env.disk (length w.log)) (recorded (redact_result q))
                (λ v. record v { last_result = some (redact_result q) }) tt w
                (ap some same, moved-IsStanding a archive w _ _ h)
                (moved-IsStanding a archive w _ _ h) (moved-IsStanding a archive w _ _ h);
        })
        (λ u. return-Triple q (λ w h. (h.0, ((redact_result_lem r).0, h.1))))

  closed-Post :
      (c : Result Raised (Unit {0})) (id : Value) (w : World) (x : Result Raised Dict)
      → Post IsResolved (IsLeft a archive) (w, x)
      → Post (IsReported a archive) Standing (
          closed env describe publisher_id policy c
            (handled env describe publisher_id policy id w x)
            w)
  unfolding handled
  closed-Post (ok u) id w (ok r) h = (h.1.1.0, (h.1.1.1, removed h.0 h.1.0))
  closed-Post (err e) id w (ok r) h = removed h.0 h.1.0
  closed-Post (err e) id w (err x) h = left-IsStanding a archive w h
  closed-Post (ok u) id w (err (deployment_failed d)) h = left-IsStanding a archive w h
  closed-Post (ok u) id w (err x) h =
      (failure-Triple
          (failure_result describe (env.clock (length w.log)) id (str publisher_id) x)).holds
        w (left-IsStanding a archive w h)

  report-Post :
      (id : Value) (x : World × Result Raised Dict)
      → Post IsResolved (IsLeft a archive) x
      → Post (IsReported a archive) Standing (report env describe publisher_id policy id x)
  unfolding report
  report-Post id (w, x) h = closed-Post env.close id w x h

  resume_own-Post :
      Post IsResolved
        (IsLeft a archive)
        (resume_own env describe publisher_id policy a (found_pending a archive last_result))
  unfolding resume_own
  resume_own-Post =
      elim (Bool-cases (same (get (request_of a) "publisher_id") (str publisher_id))) [
        | inl e ↦ rw e (recovery_resolves_or_retains env policy a archive last_result)
        | inr e ↦ rw e (IsLeft.kept (a, (refl, (same-refl a, refl))))
      ]

  -- `reconcile`, where an attempt is pending that loads: if it returns a result, it has recorded that
  -- result, which is without capability material. Whether it returns or raises, the attempt is
  -- afterwards removed with its archive, or still pending, with the request and its capability, the
  -- snapshot, the release policy and the archive that it had, or terminal, with the same parts but
  -- without its archive.
  pub reconcile-IsReported :
      (files : PendingFiles)
      → load_pending_attempt env.digest files ≡ ok a
      → Post (IsReported a archive) (IsStanding a archive) (
          reconcile_pending env describe publisher_id policy files
            (found_pending a archive last_result))
  unfolding reconcile_pending resume_loaded
  reconcile-IsReported files h = rw h (
      report-Post (get (request_of a) "request_id")
        (resume_own env describe publisher_id policy a (found_pending a archive last_result))
        resume_own-Post)

-- A result, or a `DeploymentError`.
abbrev pub IsAnswered : Result Raised Dict → Type 0
IsAnswered (ok r) = Unit {0}
IsAnswered (err (deployment_failed e)) = Unit {0}
IsAnswered (err e) = ⊥
