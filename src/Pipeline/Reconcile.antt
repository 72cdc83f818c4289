-- ===== src/Pipeline/Reconcile.antt =====
-- src/homeops_ai/pipeline.py: `reconcile` where an attempt is pending. What
-- `_redacted_failure` makes of an exception is the parameter `describe`. Under its lock one run is
-- made at a time.
use homeops_ai.Prelude.{String, Bool, true, false, if◌then◌else◌, length}
use homeops_ai.Prelude.Result.{Result, ok, err}
use homeops_ai.Value.{Value, bool, str, Dict, end, field, get, same, num}
use homeops_ai.Pipeline.{
  Raised, pipeline_error, transport_error, receiver_rejected, deployment_failed, receiver_protocol,
  redact_result,
}
use homeops_ai.Pipeline.Receiver.{outcome_of, retryable_of, outcome_from_receiver}
use homeops_ai.Pipeline.Attempt.{request_of}
use homeops_ai.Pipeline.Run.{World, Env, Run, write_last_result}
use homeops_ai.Prelude.Effect.{◌>>◌, return}
use homeops_ai.Pipeline.Resume.{resume_pending_attempt}
use homeops_ai.Pipeline.Loading.{PendingFiles, load_pending_attempt}

-- The outcome and the retryable flag with which an exception is reported.
unfoldable pub failure_of : Raised → String × Bool
unfolding outcome_from_receiver
failure_of (pipeline_error outcome message retryable) = (outcome, retryable)
failure_of (receiver_rejected response) =
    (outcome_from_receiver (outcome_of response) (retryable_of response), retryable_of response)
failure_of (transport_error message) = ("HOMEOPS_UNAVAILABLE", true)
failure_of e = ("INTERNAL_ERROR", false)

unfoldable pub failure_result :
    (describe : Raised → String) (at : String) (request_id publisher_id : Value) → Raised → Dict
unfolding failure_of
failure_result describe at request_id publisher_id e = field "schema_version" (num 1) (
    field "protocol" (str receiver_protocol) (
      field "outcome" (str (failure_of e).0) (
        field "at" (str at) (
          field "request_id" request_id (
            field "publisher_id" publisher_id (
              field "retryable" (bool (failure_of e).1)
                (field "diagnostic" (str (describe e)) end)))))))

module _ (env : Env) (describe : Raised → String) (publisher_id : String) (policy : Dict) where
  -- The body of the `try`, once the attempt is loaded.
  unfoldable pub resume_own : Dict → Run Dict
  unfolding resume_pending_attempt same
  resume_own a w =
      if same (get (request_of a) "publisher_id") (str publisher_id)
      then resume_pending_attempt env policy a w
      else (
        w,
        err (
            pipeline_error "INTERNAL_ERROR"
              "pending attempt publisher differs from configured publisher" false),
      )

  -- What the `try` and its `except` clauses leave: a result to return, or one to report, or an
  -- exception that passes through.
  unfoldable pub handled :
      (request_id : Value) → World → Result Raised Dict → Result Raised (Dict × Bool)
  unfolding failure_result
  handled request_id w (ok r) = ok (r, false)
  handled request_id w (err (deployment_failed e)) = err (deployment_failed e)
  handled request_id w (err e) =
      ok (failure_result describe (env.clock (length w.log)) request_id (str publisher_id) e, true)

  -- `_pending_failure`
  unfoldable pub pending_failure : Dict → Run Dict
  unfolding write_last_result
  pending_failure result = do
    let redacted = redact_result result
    write_last_result env redacted
    return redacted

  abbrev finish_report : Dict × Bool → Run Dict
  finish_report (r, false) = return r
  finish_report (r, true) = pending_failure r

  -- `finally: transport.close()`: what it raises takes the place of a result or of an exception.
  abbrev pub closed : Result Raised (Unit {0}) → Result Raised (Dict × Bool) → Run Dict
  closed (err e) x w = (w, err e)
  closed (ok u) (err e) w = (w, err e)
  closed (ok u) (ok x) w = finish_report x w

  unfoldable pub report :
      (request_id : Value) → World × Result Raised Dict → World × Result Raised Dict
  unfolding handled pending_failure
  report request_id (w, x) = closed env.close (handled request_id w x) w

  unfoldable pub resume_loaded : Result Raised Dict → World → World × Result Raised Dict
  unfolding resume_own report
  resume_loaded (ok a) w = report (get (request_of a) "request_id") (resume_own a w)
  resume_loaded (err e) w = report (str "unavailable") (w, err e)

  unfoldable pub reconcile_pending : PendingFiles → World → World × Result Raised Dict
  unfolding load_pending_attempt resume_loaded
  reconcile_pending files w = resume_loaded (load_pending_attempt env.digest files) w
