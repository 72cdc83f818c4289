-- ===== src/Pipeline/Phases.antt =====
-- The recovery of a pending attempt, `_resume_pending_attempt` of src/homeops_ai/pipeline.py: its
-- phases up to the commit, and the theorems on the whole run.
use homeops_ai.Prelude.{◌≡◌, refl, sym, ◌∙◌, ap, Bool, true, false, not, ◌&&◌, [], ◌∷◌}
use homeops_ai.Value.{Value, bool, str, Dict, end, field, get, keys, same}
use homeops_ai.Pipeline.{transport_error, is_terminal, is_one_of}
use homeops_ai.Pipeline.Receiver.{check_candidate}
use homeops_ai.Pipeline.Policy.{validate_publisher_id}
use homeops_ai.Pipeline.Attempt.{request_of, phase_of}
use homeops_ai.Pipeline.Run.{submitted, World, Env}
use homeops_ai.Pipeline.Resume.{
  is_text_of, policy_matches, confirm, settle_committing, authorize_step, accept_candidate,
  await_step, send_archive, is_accepted, submit_step, begin_step, resume_pending_attempt,
  phase_change,
}
use homeops_ai.Prelude.Triple.{
  Triple, bind-Triple, given-Triple, if-Triple, branch-Triple, return-Triple, raise-Triple,
  weaken-Triple, lift-Triple,
}
use homeops_ai.Pipeline.Safety.{IsProgress}
use homeops_ai.Pipeline.Ending.{resolve-Triple}
use homeops_ai.Pipeline.Steps.{
  Setting, IsHolding, IsPending, IsSettled, fails, logged-IsHolding, call-Triple, inspect-Triple,
  update-Triple,
}
use homeops_ai.Pipeline.Recovery.{
  then-Triple, look-Triple, poll-Triple, validate-Triple, source_changed-Triple, settle-Triple,
  commit_step-Triple, IsReady, phase_change-IsProgress, phase-updated,
}

commit_change-IsProgress :
    (candidate policy_id : Value)
    → IsProgress (
        field "phase"
          (str "COMMITTING")
          (field "candidate_deployment_id" candidate (field "promotion_policy_id" policy_id end)))
unfolding keys
commit_change-IsProgress candidate policy_id = record {
  request = refl;
  parts = (refl, (refl, (refl, tt)));
}

true_false {ℓ} : {X : Type ℓ} → true ≡ false → X
true_false h = cc

-- An attempt whose commit is requested has no commit to send.
requested-IsReady :
    (env : Env) (s : Setting) (b : Dict) (w : World)
    → phase_of b ≡ str "COMMIT_REQUESTED"
    → IsHolding s b w
    → IsReady env s b w
unfolding same
requested-IsReady env s b w p h =
    let other : is_text_of "COMMITTING" (phase_of b) ≡ false = ap (is_text_of "COMMITTING") p in
    (h, λ e. true_false (sym e ∙ other))

module _ (env : Env) (s : Setting) where
  confirm-Triple :
      (a status : Dict)
      → Triple (IsHolding s a) (confirm env s.policy a status) (λ d. IsSettled s d) (IsPending s)
  unfolding confirm
  confirm-Triple a status =
      if-Triple (is_text_of "CANDIDATE_READY" (get status "outcome"))
        (λ ready.
          if-Triple (same (get status "_commit_accepted") (bool true))
            (λ accepted.
              bind-Triple _
                (update-Triple env s a (phase_change "COMMIT_REQUESTED")
                  (phase_change-IsProgress "COMMIT_REQUESTED"))
                (λ b. given-Triple (λ x.
                  let p = ap phase_of x.1 ∙ phase-updated x.0 "COMMIT_REQUESTED" a in
                  weaken-Triple (λ w h. requested-IsReady env s b w p h)
                    (commit_step-Triple env s b))))
            (λ accepted.
              if-Triple (policy_matches s.policy a)
                (λ p. bind-Triple _ (inspect-Triple env s a a) (λ matches.
                  if-Triple matches
                    (λ m.
                      weaken-Triple (λ w h. (h.0, λ e. (p, h.1 ∙ m))) (commit_step-Triple env s a))
                    (λ m. weaken-Triple (λ w h. h.0) (source_changed-Triple env s a _))))
                (λ p. source_changed-Triple env s a _)))
        (λ ready. raise-Triple _ (fails env s a))

  settle_committing-Triple :
      (a status : Dict)
      → Triple
          (IsHolding s a)
          (settle_committing env s.policy a status)
          (λ d. IsSettled s d)
          (IsPending s)
  unfolding settle_committing
  settle_committing-Triple a status =
      bind-Triple (λ u. IsHolding s a) (validate-Triple env s a status)
        (λ u.
          bind-Triple (λ b. IsHolding s a)
            (if-Triple (is_text_of "PROMOTED" (get status "outcome"))
              (λ e.
                if-Triple (policy_matches s.policy a) (λ p. look-Triple env s a)
                  (λ p. return-Triple false (λ w h. h)))
              (λ e. return-Triple true (λ w h. h)))
            (λ still. settle-Triple env s a status still))

  authorize_step-Triple :
      (a : Dict)
      → Triple (IsHolding s a) (authorize_step env s.policy a) (λ d. IsSettled s d) (IsPending s)
  unfolding authorize_step
  authorize_step-Triple a =
      if-Triple _
        (λ e.
          bind-Triple (λ r. IsHolding s a) (poll-Triple env s a (request_of a) false)
            (λ status.
              if-Triple _ (λ t. settle_committing-Triple a status) (λ t. confirm-Triple a status)))
        (λ e. weaken-Triple (λ w h. (h, λ c. true_false (sym c ∙ e))) (commit_step-Triple env s a))

  accept_candidate-Triple :
      (a ready : Dict)
      → Triple
          (IsHolding s a)
          (accept_candidate env s.policy a ready)
          (λ d. IsSettled s d)
          (IsPending s)
  unfolding accept_candidate
  accept_candidate-Triple a ready =
      bind-Triple (λ u. IsHolding s a)
        (lift-Triple (check_candidate (request_of a) ready) (λ w u e h. h) (fails env s a))
        (λ u.
          bind-Triple (λ b. IsHolding s a) (look-Triple env s a)
            (λ matches.
              branch-Triple matches
                (λ m.
                  bind-Triple _
                    (update-Triple env s a _ (
                      commit_change-IsProgress (get ready "candidate_deployment_id")
                        (get ready "promotion_policy_id")))
                    (λ b. given-Triple (λ x. authorize_step-Triple b)))
                (λ m.
                  source_changed-Triple env s a
                    "local source changed before commit authorization")))

  await_step-Triple :
      (a : Dict)
      → Triple (IsHolding s a) (await_step env s.policy a) (λ d. IsSettled s d) (IsPending s)
  unfolding await_step
  await_step-Triple a =
      if-Triple (is_text_of "SUBMITTED" (phase_of a))
        (λ e.
          bind-Triple (λ r. IsHolding s a) (poll-Triple env s a (request_of a) false)
            (λ ready.
              branch-Triple (is_terminal (get ready "outcome"))
                (λ t.
                  bind-Triple (λ u. IsHolding s a) (validate-Triple env s a ready)
                    (λ u. resolve-Triple env s a ready))
                (λ t. accept_candidate-Triple a ready)))
        (λ e. authorize_step-Triple a)

  send-Triple :
      (a : Dict) → Triple (IsHolding s a) (send_archive env) (λ r. IsHolding s a) (IsPending s)
  unfolding send_archive
  send-Triple a = record {
    holds = λ w h.
        (call-Triple env s (submitted w.archive) (IsHolding s a) (IsHolding s a)
            (λ v g. logged-IsHolding env s (submitted w.archive) a v refl tt g)
            (fails env s a)).holds
          w h;
  }

  submit_step-Triple :
      (a : Dict)
      → Triple (IsHolding s a) (submit_step env s.policy a) (λ d. IsSettled s d) (IsPending s)
  unfolding submit_step
  submit_step-Triple a =
      if-Triple (is_one_of ("PREPARED" ∷ "SUBMITTING" ∷ []) (phase_of a))
        (λ e.
          bind-Triple _
            (update-Triple env s a (phase_change "SUBMITTING")
              (phase_change-IsProgress "SUBMITTING"))
            (λ b. given-Triple (λ x.
              bind-Triple (λ r. IsHolding s b) (send-Triple b)
                (λ answer.
                  then-Triple env s b (is_accepted (request_of a) b answer)
                    (transport_error "receiver did not accept pending submission")
                    (bind-Triple _
                      (update-Triple env s b (phase_change "SUBMITTED")
                        (phase_change-IsProgress "SUBMITTED"))
                      (λ c. given-Triple (λ y. await_step-Triple c)))))))
        (λ e. await_step-Triple a)

  begin_step-Triple :
      (a : Dict) (matches : Bool)
      → Triple
          (IsHolding s a)
          (begin_step env s.policy a matches)
          (λ d. IsSettled s d)
          (IsPending s)
  unfolding begin_step
  begin_step-Triple a matches =
      if-Triple
        (not (policy_matches s.policy a && matches)
          && is_one_of ("PREPARED" ∷ "SUBMITTING" ∷ "SUBMITTED" ∷ []) (phase_of a))
        (λ e. source_changed-Triple env s a _) (λ e. submit_step-Triple a)

  pub resume-Triple :
      (a : Dict)
      → Triple
          (IsHolding s a)
          (resume_pending_attempt env s.policy a)
          (λ d. IsSettled s d)
          (IsPending s)
  unfolding resume_pending_attempt
  resume-Triple a =
      bind-Triple (λ u. IsHolding s a)
        (lift-Triple (validate_publisher_id (get (request_of a) "publisher_id")) (λ w u e h. h)
          (fails env s a))
        (λ u.
          branch-Triple (is_text_of "TERMINAL" (phase_of a)) (λ t. resolve-Triple env s a _)
            (λ t. bind-Triple (λ b. IsHolding s a) (look-Triple env s a) (begin_step-Triple a)))
