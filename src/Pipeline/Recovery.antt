-- ===== src/Pipeline/Recovery.antt =====
-- The recovery of a pending attempt, `_resume_pending_attempt` of src/homeops_ai/pipeline.py: what
-- its polls, its checks and its last phases keep.
use homeops_ai.Prelude.{
  ℕ, zero, suc, String, ◌≡◌, refl, ◌∙◌, Bool, true, Option, none, some, length, Bool-cases, inl,
  inr,
}
use homeops_ai.Value.{str, Dict, end, field, get, keys}
use homeops_ai.Value.Laws.{get-insert}
use homeops_ai.Pipeline.{Raised}
use homeops_ai.Pipeline.Receiver.{current_of}
use homeops_ai.Pipeline.Attempt.{request_of, phase_of}
use homeops_ai.Pipeline.Run.{
  polled, committed, asked_current, World, Env, Run, source_matches_pending,
}
use homeops_ai.Prelude.Effect.{ensure, ◌>>◌}
use homeops_ai.Pipeline.Resume.{
  commit_body, status_body, is_text_of, policy_matches, read_status, poll_rounds, poll,
  check_selected, validate_remote_terminal, source_changed, settle_moved, finish, commit_step,
  found_or, when_in_time, in_time, changed_result, phase_change,
}
use homeops_ai.Prelude.Triple.{
  Post, Triple, bind-Triple, given-Triple, if-Triple, return-Triple, raise-Triple, weaken-Triple,
  weaken_post-Triple, lift-Triple, ensure-Triple,
}
use homeops_ai.Pipeline.Safety.{just_matched, IsProgress, updated}
use homeops_ai.Pipeline.Ending.{resolve-Triple}
use homeops_ai.Pipeline.Steps.{
  Setting, IsHolding, IsPending, IsSettled, fails, logged-IsHolding, call-Triple, inspect-Triple,
  update-Triple,
}
use homeops_ai.Pipeline.Updates.{get-updated}

pub phase_change-IsProgress : (p : String) → IsProgress (field "phase" (str p) end)
unfolding keys
phase_change-IsProgress p = record { request = refl; parts = (refl, (refl, (refl, tt))) }

pub phase-updated :
    (at p : String) (a : Dict) → phase_of (updated at (field "phase" (str p) end) a) ≡ str p
phase-updated at p a =
    get-updated at (field "phase" (str p) end) a "phase" refl ∙ get-insert "phase" "phase" (str p) a

module _ (env : Env) (s : Setting) where
  found-Triple :
      (a : Dict) (again : Run Dict)
      → Triple (IsHolding s a) again (λ r. IsHolding s a) (IsPending s)
      → (o : Option Dict)
      → Triple (IsHolding s a) (found_or again o) (λ r. IsHolding s a) (IsPending s)
  found-Triple a again t none = t
  found-Triple a again t (some r) = return-Triple r (λ w h. h)

  in_time-Post :
      (a : Dict) (w : World) (round : Run Dict)
      → IsHolding s a w
      → Triple (IsHolding s a) round (λ r. IsHolding s a) (IsPending s)
      → Post (λ r. IsHolding s a) (IsPending s) (when_in_time env w round)
  in_time-Post a w round h t = elim (Bool-cases (in_time env w)) [
    | inl e ↦ rw e (t.holds w h)
    | inr e ↦ rw e (fails env s a w h)
  ]

  poll_rounds-Triple :
      (a request : Dict) (terminal_only : Bool) (n : ℕ)
      → Triple
          (IsHolding s a)
          (poll_rounds env request terminal_only n)
          (λ r. IsHolding s a)
          (IsPending s)
  unfolding poll_rounds
  poll_rounds-Triple a request terminal_only zero = raise-Triple _ (fails env s a)
  poll_rounds-Triple a request terminal_only (suc n) = record {
    holds = λ w h. in_time-Post a w _ h (
        bind-Triple (λ r. IsHolding s a)
          (call-Triple env s (polled (status_body request)) (IsHolding s a) (IsHolding s a)
            (λ w h. logged-IsHolding env s (polled (status_body request)) a w refl tt h)
            (fails env s a))
          (λ response.
            bind-Triple (λ r. IsHolding s a)
              (lift-Triple (read_status terminal_only request response) (λ w r e h. h)
                (fails env s a))
              (λ status. found-Triple a _ (poll_rounds-Triple a request terminal_only n) status)));
  }

  pub poll-Triple :
      (a request : Dict) (terminal_only : Bool)
      → Triple (IsHolding s a) (poll env request terminal_only) (λ r. IsHolding s a) (IsPending s)
  unfolding poll
  poll-Triple a request terminal_only = record {
    holds = λ w h. (poll_rounds-Triple a request terminal_only _).holds w h;
  }

  -- A check that may raise, and what follows it.
  pub then-Triple :
      (a : Dict) (b : Bool) (e : Raised) {m : Run Dict} {Q : Dict → World → Type 0}
      → Triple (IsHolding s a) m Q (IsPending s)
      → Triple (IsHolding s a) (ensure b e >> m) Q (IsPending s)
  then-Triple a b e t =
      bind-Triple _ (ensure-Triple b e (fails env s a)) (λ u. given-Triple (λ x. t))

  pub look-Triple :
      (a : Dict)
      → Triple (IsHolding s a) (source_matches_pending env a) (λ b. IsHolding s a) (IsPending s)
  look-Triple a = weaken_post-Triple (λ b w h. h.0) (inspect-Triple env s a a)

  check_selected-Triple :
      (a terminal : Dict)
      → Triple (IsHolding s a) (check_selected env a terminal) (λ u. IsHolding s a) (IsPending s)
  unfolding check_selected
  check_selected-Triple a terminal =
      bind-Triple (λ u. IsHolding s a)
        (weaken_post-Triple (λ u w h. h.0) (ensure-Triple _ _ (fails env s a)))
        (λ u.
          bind-Triple (λ r. IsHolding s a)
            (call-Triple env s asked_current (IsHolding s a) (IsHolding s a)
              (λ w h. logged-IsHolding env s asked_current a w refl tt h) (fails env s a))
            (λ response.
              bind-Triple (λ c. IsHolding s a)
                (lift-Triple (current_of response) (λ w c e h. h) (fails env s a))
                (λ current. weaken_post-Triple (λ u w h. h.0) (ensure-Triple _ _ (fails env s a)))))

  pub validate-Triple :
      (a terminal : Dict)
      → Triple
          (IsHolding s a)
          (validate_remote_terminal env a terminal)
          (λ u. IsHolding s a)
          (IsPending s)
  unfolding validate_remote_terminal
  validate-Triple a terminal =
      if-Triple _ (λ e. check_selected-Triple a terminal) (λ e. return-Triple tt (λ w h. h))

  pub source_changed-Triple :
      (a : Dict) (diagnostic : String)
      → Triple (IsHolding s a) (source_changed env a diagnostic) (λ d. IsSettled s d) (IsPending s)
  unfolding source_changed
  source_changed-Triple a diagnostic = record {
    holds = λ w h.
        (resolve-Triple env s a (changed_result a diagnostic (env.clock (length w.log)))).holds w h;
  }

  pub settle-Triple :
      (a terminal : Dict) (still : Bool)
      → Triple
          (IsHolding s a)
          (settle_moved env a terminal still)
          (λ d. IsSettled s d)
          (IsPending s)
  unfolding settle_moved
  settle-Triple a terminal still = resolve-Triple env s a _

  finish-Triple :
      (a : Dict) → Triple (IsHolding s a) (finish env s.policy a) (λ d. IsSettled s d) (IsPending s)
  unfolding finish
  finish-Triple a =
      bind-Triple (λ r. IsHolding s a) (poll-Triple a (request_of a) true)
        (λ terminal. then-Triple a _ _ (
          bind-Triple (λ u. IsHolding s a) (validate-Triple a terminal)
            (λ u.
              bind-Triple (λ b. IsHolding s a)
                (if-Triple _ (λ e. look-Triple a) (λ e. return-Triple true (λ w h. h)))
                (λ still. settle-Triple a terminal still))))

  -- A commit may be sent: the policy and the source have just been found to match.
  abbrev pub IsReady : Dict → World → Type 0
  IsReady a w =
      IsHolding s a w
      × (is_text_of "COMMITTING" (phase_of a) ≡ true
          → (policy_matches s.policy a ≡ true) × (just_matched w.log ≡ true))

  pub commit_step-Triple :
      (a : Dict)
      → Triple (IsReady a) (commit_step env s.policy a) (λ d. IsSettled s d) (IsPending s)
  unfolding commit_step
  commit_step-Triple a =
      if-Triple _
        (λ e.
          let body = commit_body (request_of a) (get a "candidate_deployment_id") in
          bind-Triple (λ r. IsHolding s a)
            (call-Triple env s (committed body) (IsReady a) (IsHolding s a)
              (λ w h.
                logged-IsHolding env s (committed body) a w refl
                  (record {
                    attempt = a;
                    journal = h.0.journal;
                    phase = e;
                    names = refl;
                    policy = (h.1 e).0;
                    source = (h.1 e).1;
                  })
                  h.0)
              (fails env s a))
            (λ answer. then-Triple a _ _ (
              bind-Triple _
                (update-Triple env s a (phase_change "COMMIT_REQUESTED")
                  (phase_change-IsProgress "COMMIT_REQUESTED"))
                (λ b. given-Triple (λ x. finish-Triple b)))))
        (λ e. weaken-Triple (λ w h. h.0) (finish-Triple a))
