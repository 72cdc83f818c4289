-- ===== src/Pipeline/Resume.antt =====
-- src/homeops_ai/pipeline.py: polling the receiver, and the recovery of a pending attempt,
-- `_resume_pending_attempt`, one function for each of its phases. The waits between the polls are in the
-- readings of the monotonic clock.
use homeops_ai.Prelude.{
  ℕ, zero, suc, String, Bool, true, false, not, ◌&&◌, ◌||◌, Option, none, some, [], ◌∷◌,
  if◌then◌else◌, length, ltb, ◌-◌,
}
use homeops_ai.Prelude.Result.{Result, ok, err}
use homeops_ai.Value.{Value, bool, str, obj, Dict, end, field, get, insert, same, num}
use homeops_ai.Pipeline.{
  Raised, pipeline_error, transport_error, receiver_protocol, is_string, is_boolean, is_object,
  is_one_of, is_terminal, fields_of,
}
use homeops_ai.Pipeline.Receiver.{check_candidate, current_of, current_matches}
use homeops_ai.Pipeline.Policy.{validate_publisher_id}
use homeops_ai.Pipeline.Attempt.{
  request_of, snapshot_of, policy_of, phase_of, terminal_matches_attempt,
}
use homeops_ai.Pipeline.Run.{
  submitted, polled, committed, asked_current, World, Env, Run, call, source_matches_pending,
  update_pending_attempt, resolve_pending_attempt,
}
use homeops_ai.Prelude.Effect.{return, raise, ◌>>=◌, ◌>>◌, ensure, branch, lift}

-- `_status_body`
abbrev pub status_body : Dict → Dict
status_body request = field "schema_version" (num 1) (
    field "protocol" (str receiver_protocol) (
      field "request_id" (get request "request_id") (
        field "publisher_id" (get request "publisher_id")
          (field "capability_token" (get request "capability_token") end))))

-- `_commit_body`
abbrev pub commit_body : (request : Dict) (deployment_id : Value) → Dict
commit_body request deployment_id = field "schema_version" (num 1) (
    field "protocol" (str receiver_protocol) (
      field "request_id" (get request "request_id") (
        field "publisher_id" (get request "publisher_id") (
          field "capability_token" (get request "capability_token") (
            field "candidate_deployment_id" deployment_id (
              field "expected_current_deployment_id" (get request "expected_current_deployment_id")
                end))))))

abbrev pub result_matches : (request result : Dict) → Bool
result_matches request result =
    same (get result "schema_version") (num 1)
    && same (get result "protocol") (str receiver_protocol)
    && same (get result "request_id") (get request "request_id")
    && same (get result "publisher_id") (get request "publisher_id")
    && is_string (get result "outcome")
    && is_boolean (get result "retryable")

abbrev is_result : Dict → Bool
is_result response =
    same (get response "outcome") (str "RESULT") && is_object (get response "result")

-- One response to `status`: the result to return, or none to poll again.
unfoldable pub read_status :
    (terminal_only : Bool) (request response : Dict) → Result Raised (Option Dict)
read_status terminal_only request response =
    let result = fields_of (get response "result") in
    if not (same (get response "request_id") (get request "request_id"))
    then err (transport_error "receiver status does not match request")
    else if not (is_boolean (get response "commit_accepted"))
    then err (transport_error "receiver status lacks commit acceptance state")
    else if is_result response
    then (if not (result_matches request result)
        then err (transport_error "receiver result does not match request")
        else if not terminal_only || is_terminal (get result "outcome")
        then ok (some (insert "_commit_accepted" (get response "commit_accepted") result))
        else ok none)
    else if same (get response "outcome") (str "PENDING")
    then ok none
    else err (transport_error "receiver returned an invalid status envelope")

abbrev pub timed_out : Raised
timed_out = pipeline_error "TIMEOUT" "remote pipeline status timed out" true

abbrev pub found_or : Run Dict → Option Dict → Run Dict
found_or again none = again
found_or again (some result) = return result

abbrev pub changed_result : (attempt : Dict) (diagnostic at : String) → Dict
changed_result a diagnostic at = field "schema_version" (num 1) (
    field "protocol" (str receiver_protocol) (
      field "outcome" (str "LOCAL_SOURCE_CHANGED") (
        field "at" (str at) (
          field "request_id" (get (request_of a) "request_id") (
            field "publisher_id" (get (request_of a) "publisher_id") (
              field "snapshot_id" (get (snapshot_of a) "snapshot_id")
                (field "retryable" (bool true) (field "diagnostic" (str diagnostic) end))))))))

abbrev pub is_text_of : String → Value → Bool
is_text_of s v = same v (str s)

abbrev pub phase_change : String → Dict
phase_change phase = field "phase" (str phase) end

-- `{**terminal, "outcome": "PROMOTED_SOURCE_MOVED", "retryable": True}`
abbrev pub moved : Dict → Dict
moved terminal =
    insert "retryable" (bool true) (insert "outcome" (str "PROMOTED_SOURCE_MOVED") terminal)

-- `attempt["release_policy"] == release_policy`
unfoldable pub policy_matches : (release_policy attempt : Dict) → Bool
policy_matches release_policy a = same (get a "release_policy") (obj release_policy)

-- The receiver has accepted the submission.
unfoldable pub is_accepted : (request attempt answer : Dict) → Bool
is_accepted request b answer =
    is_text_of "ACCEPTED" (get answer "outcome")
    && same (get answer "request_id") (get request "request_id")
    && same (get answer "archive_sha256") (get b "archive_sha256")

module _ (env : Env) where
  -- Is `time.monotonic() < deadline`?
  abbrev pub in_time : World → Bool
  in_time w = ltb (env.monotonic (length w.log)) env.deadline

  abbrev pub when_in_time : World → Run Dict → World × Result Raised Dict
  when_in_time w round = if in_time w then round w else raise timed_out w

  -- The loop of `_poll`, on fuel.
  unfoldable pub poll_rounds : (request : Dict) (terminal_only : Bool) → ℕ → Run Dict
  unfolding call read_status
  poll_rounds request terminal_only zero w = raise timed_out w
  poll_rounds request terminal_only (suc n) w = when_in_time w (do
    response ← call env (polled (status_body request))
    status ← lift (read_status terminal_only request response)
    found_or (poll_rounds request terminal_only n) status)

  -- One round of fuel for each unit of time that is left.
  unfoldable pub poll : (request : Dict) (terminal_only : Bool) → Run Dict
  unfolding poll_rounds
  poll request terminal_only w =
      poll_rounds request terminal_only (env.deadline - env.monotonic (length w.log)) w

  -- `_validate_remote_terminal`
  unfoldable pub check_selected : (attempt terminal : Dict) → Run (Unit {0})
  unfolding call current_of current_matches terminal_matches_attempt
  check_selected a terminal = do
    ensure (terminal_matches_attempt terminal a) (
        pipeline_error "POST_PROMOTION_MISMATCH"
          "remote terminal result disagrees with pending attempt" false)
    response ← call env asked_current
    current ← lift (current_of response)
    ensure
        (current_matches current (snapshot_of a) (policy_of a)
          (get terminal "candidate_deployment_id") (get terminal "run_id"))
        (pipeline_error "POST_PROMOTION_MISMATCH"
          "selected deployment does not exactly match pending attempt" false)

  unfoldable pub validate_remote_terminal : (attempt terminal : Dict) → Run (Unit {0})
  unfolding check_selected
  validate_remote_terminal a terminal =
      if is_one_of ("PROMOTED" ∷ "UNCHANGED" ∷ []) (get terminal "outcome")
      then check_selected a terminal
      else return tt

  -- The attempt ends because the source or the release has changed.
  unfoldable pub source_changed : (attempt : Dict) (diagnostic : String) → Run Dict
  unfolding resolve_pending_attempt
  source_changed a diagnostic w =
      resolve_pending_attempt env a (changed_result a diagnostic (env.clock (length w.log))) w

  unfoldable pub settle_moved : (attempt terminal : Dict) (still : Bool) → Run Dict
  unfolding resolve_pending_attempt insert
  settle_moved a terminal still =
      resolve_pending_attempt env a (if still then terminal else moved terminal)

  -- `transport.call("submit", stream)`
  unfoldable pub send_archive : Run Dict
  unfolding call
  send_archive w = call env (submitted w.archive) w

  module _ (release_policy : Dict) where
    -- `terminal = _poll(...)` to the end
    unfoldable pub finish : Dict → Run Dict
    unfolding poll validate_remote_terminal settle_moved source_matches_pending
    finish a = do
      terminal ← poll (request_of a) true
      ensure (is_terminal (get terminal "outcome"))
          (transport_error "remote processor did not return a terminal result")
      validate_remote_terminal a terminal
      still ←
          (if is_text_of "PROMOTED" (get terminal "outcome")
            then source_matches_pending env a
            else return true)
      settle_moved a terminal still

    -- The second `if attempt["phase"] == "COMMITTING"`
    unfoldable pub commit_step : Dict → Run Dict
    unfolding call update_pending_attempt finish
    commit_step a =
        if is_text_of "COMMITTING" (phase_of a)
        then (do
          answer ←
              call env (committed (commit_body (request_of a) (get a "candidate_deployment_id")))
          ensure
              (is_text_of "COMMIT_ACCEPTED" (get answer "outcome")
                && same (get answer "request_id") (get (request_of a) "request_id"))
              (transport_error "receiver did not accept pending commit")
          b ← update_pending_attempt env a (phase_change "COMMIT_REQUESTED")
          finish b)
        else finish a

    -- `if status.get("_commit_accepted") is True`, with its `elif`
    unfoldable pub confirm : (attempt status : Dict) → Run Dict
    unfolding policy_matches update_pending_attempt source_matches_pending source_changed
        commit_step
    confirm a status =
        if is_text_of "CANDIDATE_READY" (get status "outcome")
        then (if same (get status "_commit_accepted") (bool true)
            then (do
              b ← update_pending_attempt env a (phase_change "COMMIT_REQUESTED")
              commit_step b)
            else if policy_matches release_policy a
            then (do
              matches ← source_matches_pending env a
              if matches
                  then commit_step a
                  else source_changed a "pending commit authorization is no longer current")
            else source_changed a "pending commit authorization is no longer current")
        else raise (transport_error "remote processor returned an invalid pending status")

    unfoldable pub settle_committing : (attempt status : Dict) → Run Dict
    unfolding policy_matches validate_remote_terminal settle_moved source_matches_pending
    settle_committing a status = do
      validate_remote_terminal a status
      still ←
          (if is_text_of "PROMOTED" (get status "outcome")
            then (if policy_matches release_policy a
                then source_matches_pending env a
                else return false)
            else return true)
      settle_moved a status still

    -- The first `if attempt["phase"] == "COMMITTING"`
    unfoldable pub authorize_step : Dict → Run Dict
    unfolding poll confirm settle_committing commit_step
    authorize_step a =
        if is_text_of "COMMITTING" (phase_of a)
        then (do
          status ← poll (request_of a) false
          if is_terminal (get status "outcome")
              then settle_committing a status
              else confirm a status)
        else commit_step a

    -- The candidate that the receiver has built: the source is inspected again, and the commit is
    -- journaled.
    unfoldable pub accept_candidate : (attempt ready : Dict) → Run Dict
    unfolding check_candidate source_matches_pending update_pending_attempt source_changed
        authorize_step
    accept_candidate a ready = do
      lift (check_candidate (request_of a) ready)
      matches ← source_matches_pending env a
      branch matches
          (do
            b ← update_pending_attempt env a (
                field "phase" (str "COMMITTING") (
                  field "candidate_deployment_id" (get ready "candidate_deployment_id")
                    (field "promotion_policy_id" (get ready "promotion_policy_id") end)))
            authorize_step b)
          (source_changed a "local source changed before commit authorization")

    -- `if attempt["phase"] == "SUBMITTED"`
    unfoldable pub await_step : Dict → Run Dict
    unfolding poll validate_remote_terminal resolve_pending_attempt accept_candidate authorize_step
    await_step a =
        if is_text_of "SUBMITTED" (phase_of a)
        then (do
          ready ← poll (request_of a) false
          branch (is_terminal (get ready "outcome"))
              (do validate_remote_terminal a ready; resolve_pending_attempt env a ready)
              (accept_candidate a ready))
        else authorize_step a

    -- `if attempt["phase"] in {"PREPARED", "SUBMITTING"}`
    unfoldable pub submit_step : Dict → Run Dict
    unfolding is_accepted send_archive update_pending_attempt await_step
    submit_step a =
        if is_one_of ("PREPARED" ∷ "SUBMITTING" ∷ []) (phase_of a)
        then (do
          b ← update_pending_attempt env a (phase_change "SUBMITTING")
          answer ← send_archive
          ensure (is_accepted (request_of a) b answer)
              (transport_error "receiver did not accept pending submission")
          c ← update_pending_attempt env b (phase_change "SUBMITTED")
          await_step c)
        else await_step a

    unfoldable pub begin_step : (attempt : Dict) (matches : Bool) → Run Dict
    unfolding policy_matches source_changed submit_step
    begin_step a matches =
        if not (policy_matches release_policy a && matches)
          && is_one_of ("PREPARED" ∷ "SUBMITTING" ∷ "SUBMITTED" ∷ []) (phase_of a)
        then source_changed a (
            if policy_matches release_policy a
            then "local source changed before commit authorization"
            else "pending attempt belongs to a different HomeOps release policy")
        else submit_step a

    unfoldable pub resume_pending_attempt : Dict → Run Dict
    unfolding validate_publisher_id resolve_pending_attempt source_matches_pending begin_step
    resume_pending_attempt a = do
      lift (validate_publisher_id (get (request_of a) "publisher_id"))
      branch (is_text_of "TERMINAL" (phase_of a))
          (resolve_pending_attempt env a (fields_of (get a "terminal_result")))
          (do matches ← source_matches_pending env a; begin_step a matches)
