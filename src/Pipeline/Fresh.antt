-- ===== src/Pipeline/Fresh.antt =====
-- src/homeops_ai/pipeline.py: `reconcile` where no attempt is pending. The identifier, the capability,
-- the exported snapshot and the digests of the files that it writes are values of `Draft`.
use homeops_ai.Prelude.{
  String, ◌≡◌, refl, false, none, some, [], ◌∷◌, str_eq, if◌then◌else◌, length,
}
use homeops_ai.Prelude.Result.{Result, ok, err}
use homeops_ai.Value.{Value, null, bool, str, obj, Dict, end, field, get, num}
use homeops_ai.Pipeline.{Raised, receiver_protocol, redact_result}
use homeops_ai.Pipeline.Redact.{redact_result_lem}
use homeops_ai.Pipeline.Receiver.{answer_of, current_of, current_matches}
use homeops_ai.Pipeline.Policy.{pick, validate_request_message}
use homeops_ai.Pipeline.Attempt.{validate_pending_attempt}
use homeops_ai.Pipeline.Run.{
  asked_current, archived, journaled, recorded, write, World, Env, Run, logged, call, journal,
  write_pending_attempt, write_last_result,
}
use homeops_ai.Prelude.Effect.{◌>>=◌, ◌>>◌, return, branch, lift}
use homeops_ai.Pipeline.Resume.{resume_pending_attempt}
use homeops_ai.Prelude.Triple.{
  Post, Triple, bind-Triple, branch-Triple, return-Triple, lift-Triple, lift-Post, weaken_both,
  either-Post,
}
use homeops_ai.Pipeline.Safety.{IsOrderly, last_journaled}
use homeops_ai.Pipeline.Updates.{same-refl}
use homeops_ai.Pipeline.Steps.{Setting, IsSettled, IsPending, pending-IsOrderly, stored-Post}
use homeops_ai.Pipeline.Phases.{resume-Triple}

pub record Draft : Type 0 where
  pub request_id : String
  pub publisher_id : String
  pub capability : String
  pub manifest_sha256 : String
  pub archive_sha256 : String
  pub exported : Result Raised Dict

-- `text or None`
abbrev text_or_none : Value → Value
text_or_none (str s) = if str_eq s "" then null else str s
text_or_none v = v

-- `_snapshot_identity`
unfoldable pub snapshot_identity : Dict → Dict
snapshot_identity manifest =
    pick
      ("snapshot_id" ∷ "source_fingerprint" ∷ "artifact_fingerprint" ∷ "logical_fingerprint" ∷ [])
      manifest

module _ (env : Env) (draft : Draft) (policy : Dict) where
  unfoldable pub new_request : (manifest : Dict) (expected : Value) → Dict
  new_request manifest expected = field "schema_version" (num 1) (
      field "protocol" (str receiver_protocol) (
        field "request_id" (str draft.request_id) (
          field "publisher_id" (str draft.publisher_id) (
            field "capability_token" (str draft.capability) (
              field "release_policy_id" (str (env.digest (obj policy))) (
                field "snapshot_id" (get manifest "snapshot_id") (
                  field "expected_current_deployment_id" expected
                    (field "snapshot_manifest_sha256" (str draft.manifest_sha256) end))))))))

  unfoldable pub new_attempt : (manifest request : Dict) (now : String) → Dict
  unfolding snapshot_identity
  new_attempt manifest request now = field "schema_version" (num 1) (
      field "protocol" (str receiver_protocol) (
        field "phase" (str "PREPARED") (
          field "request" (obj request) (
            field "snapshot" (obj (snapshot_identity manifest)) (
              field "release_policy" (obj policy) (
                field "archive_sha256" (str draft.archive_sha256) (
                  field "candidate_deployment_id" null (
                    field "promotion_policy_id" null (
                      field "created_at" (str now)
                        (field "updated_at" (str now) (field "terminal_result" null end)))))))))))

  unfoldable pub unchanged_result : (manifest current : Dict) (at : String) → Dict
  unchanged_result manifest current at = field "schema_version" (num 1) (
      field "protocol" (str receiver_protocol) (
        field "outcome" (str "UNCHANGED") (
          field "at" (str at) (
            field "request_id" (str draft.request_id) (
              field "publisher_id" (str draft.publisher_id) (
                field "deployment_id" (text_or_none (get current "current_deployment_id")) (
                  field "snapshot_id" (get manifest "snapshot_id") (
                    field "run_id" (text_or_none (get current "run_id"))
                      (field "retryable" (bool false) end)))))))))

  unfoldable pub report_unchanged : (manifest current : Dict) → Run Dict
  unfolding write_last_result unchanged_result
  report_unchanged manifest current w =
      let r = unchanged_result manifest current (env.clock (length w.log)) in
      (write_last_result env r >> return r) w

  -- `_persist_pending_archive`
  unfoldable pub persist_archive : Run (Unit {0})
  persist_archive =
      write env (archived draft.archive_sha256)
        (λ v. record v { archive = some draft.archive_sha256 }) tt

  unfoldable pub prepare_attempt : (manifest request : Dict) → Run Dict
  unfolding write_pending_attempt new_attempt
  prepare_attempt manifest request w =
      write_pending_attempt env (new_attempt manifest request (env.clock (length w.log))) w

  unfoldable pub submit_fresh : (manifest request : Dict) → Run Dict
  unfolding validate_request_message persist_archive prepare_attempt resume_pending_attempt
  submit_fresh manifest request = do
    lift (validate_request_message request)
    persist_archive
    attempt ← prepare_attempt manifest request
    resume_pending_attempt env policy attempt

  unfoldable pub begin_fresh : Run Dict
  unfolding call current_of current_matches report_unchanged new_request submit_fresh
  begin_fresh = do
    manifest ← lift draft.exported
    response ← call env asked_current
    current ← lift (current_of response)
    branch (current_matches current manifest policy null null) (report_unchanged manifest current)
        (submit_fresh manifest (new_request manifest (get current "current_deployment_id")))

  -- A setting for the lemmas on changes of the state directory.
  abbrev free : Setting
  free = record { policy = policy; first = end; stored = none }

  abbrev Ordered : World → Type 0
  Ordered w = IsOrderly policy w.log

  -- The attempt is journaled, whatever its archive.
  abbrev Journaled : Dict → World → Type 0
  Journaled b w = (w.attempt ≡ some b) × ((last_journaled w.log ≡ some b) × IsOrderly policy w.log)

  journal-Journaled :
      (w : World) (r : Result Raised Dict) → Ordered w → Post Journaled Ordered (journal env w r)
  journal-Journaled w (ok b) h =
      stored-Post env free Journaled Ordered (env.disk (length w.log)) (journaled b)
        (λ v. record v { attempt = some b }) b w (refl, (refl, (tt, h))) (tt, h) (tt, (tt, h))
  journal-Journaled w (err e) h = h

  prepare-Triple :
      (manifest request : Dict)
      → Triple Ordered (prepare_attempt manifest request) Journaled Ordered
  unfolding prepare_attempt write_pending_attempt
  prepare-Triple manifest request = record {
    holds = λ w h.
        journal-Journaled w
          (validate_pending_attempt env.digest
            (obj (new_attempt manifest request (env.clock (length w.log)))))
          h;
  }

  resumed-Triple :
      (b : Dict) → Triple (Journaled b) (resume_pending_attempt env policy b) (λ r. Ordered) Ordered
  resumed-Triple b = record {
    holds = λ w h.
        let s : Setting = record { policy = policy; first = b; stored = w.archive } in
        weaken_both (λ r. IsSettled s r) (λ r. Ordered) (IsPending s) Ordered
          (resume_pending_attempt env policy b w) (λ r v g. g.orderly) (pending-IsOrderly s)
          ((resume-Triple env s b).holds w (record {
            pending = h.0;
            same = same-refl b;
            archive = refl;
            journal = h.1.0;
            orderly = h.1.1;
          }));
  }

  persist-Triple : Triple Ordered persist_archive (λ u. Ordered) Ordered
  unfolding persist_archive
  persist-Triple = record {
    holds = λ w h.
        stored-Post env free (λ u. Ordered) Ordered (env.disk (length w.log))
          (archived draft.archive_sha256) (λ v. record v { archive = some draft.archive_sha256 }) tt
          w (tt, h) (tt, h) (tt, (tt, h));
  }

  submit-Triple :
      (manifest request : Dict)
      → Triple Ordered (submit_fresh manifest request) (λ r. Ordered) Ordered
  unfolding submit_fresh
  submit-Triple manifest request =
      bind-Triple (λ u. Ordered)
        (lift-Triple (validate_request_message request) (λ w u e h. h) (λ w h. h))
        (λ u.
          bind-Triple (λ v. Ordered) persist-Triple
            (λ v. bind-Triple Journaled (prepare-Triple manifest request) (λ b. resumed-Triple b)))

  call-Ordered : Triple Ordered (call env asked_current) (λ r. Ordered) Ordered
  unfolding call
  call-Ordered = record {
    holds = λ w h.
        lift-Post (λ r. Ordered) Ordered (answer_of (env.receiver (length w.log)))
          (logged asked_current w) (λ r e. (tt, h)) (tt, h);
  }

  unchanged-Triple :
      (manifest current : Dict)
      → Triple Ordered (report_unchanged manifest current) (λ r. Ordered) Ordered
  unfolding report_unchanged write_last_result
  unchanged-Triple manifest current = record {
    holds = λ w h.
        let r = unchanged_result manifest current (env.clock (length w.log)) in
        let clean = (redact_result_lem r).0 in
        (bind-Triple {E = Ordered} (λ u. Ordered) {R = λ r. Ordered} {m = write_last_result env r}
            {k = λ u. return r}
            (record {
              holds = λ v g.
                  stored-Post env free (λ u. Ordered) Ordered (env.disk (length v.log))
                    (recorded (redact_result r))
                    (λ x. record x { last_result = some (redact_result r) }) tt v (clean, g) (tt, g)
                    (tt, (clean, g));
            })
            (λ u. return-Triple r (λ v g. g))).holds
          w h;
  }

  fresh-Triple : Triple Ordered begin_fresh (λ r. Ordered) Ordered
  unfolding begin_fresh
  fresh-Triple =
      bind-Triple (λ m. Ordered) (lift-Triple draft.exported (λ w m e h. h) (λ w h. h))
        (λ manifest.
          bind-Triple (λ r. Ordered) call-Ordered
            (λ response.
              bind-Triple (λ c. Ordered)
                (lift-Triple (current_of response) (λ w c e h. h) (λ w h. h))
                (λ current.
                  branch-Triple (current_matches current manifest policy null null)
                    (λ e. unchanged-Triple manifest current)
                    (λ e.
                      submit-Triple manifest
                        (new_request manifest (get current "current_deployment_id"))))))

  -- A first attempt keeps the order of a recovery, from an empty log on: a commit is sent only for
  -- the candidate of the attempt that is journaled as COMMITTING, under an equal release policy and
  -- just after the source was found to match, and the pending files are removed only once a
  -- TERMINAL attempt is journaled and its terminal result has been recorded since.
  pub first_attempt-IsOrderly : (w : World) → w.log ≡ [] → IsOrderly policy (begin_fresh w).0.log
  first_attempt-IsOrderly w e =
      either-Post Ordered (λ r. Ordered) Ordered (begin_fresh w) (λ r v g. g) (λ v g. g)
        (fresh-Triple.holds w (rw e tt))
