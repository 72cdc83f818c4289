-- ===== src/Retention/Identity.antt =====
-- What an accepted result record adds to the references of the planner.
use homeops_ai.Prelude.{
  String, ◌≡◌, refl, Bool, true, false, not, ◌&&◌, ◌||◌, inl, inr, Option, none, some, List, [],
  ◌∷◌, ◌++◌, str_eq, mem, arith, Bool-cases, eq_iff,
}
use homeops_ai.Prelude.Result.{ok, err, guard, >>=-eq-ok, ok-injective}
use homeops_ai.Value.{Value, str, Dict, get, has_exactly}
use homeops_ai.Retention.Plan.{References}
use homeops_ai.Retention.Inputs.{
  optional_sha256, required_sha256, present, expected_deployment_id, optional_run, run_required,
  validate_ready_references, validate_result_record, ready_result, successful_result,
  outcome_checks, success_outcomes, terminal_outcomes, retention_error, ready_fields,
  promoted_fields, is_addressed, check_request_id, known_outcome, flag,
}
use homeops_ai.Retention.Journal.{
  add, add_optional, add_candidate, add_expected, add_snapshot, add_run, add_bundle,
  add_identity_references,
}

abbrev candidate_at : Dict → Value
candidate_at v = get v "candidate_deployment_id"

abbrev expected_at : Dict → Value
expected_at v = get v "expected_current_deployment_id"

-- The record names a complete identity.
pub record HasIdentity (v : Dict) : Type 0 where
  pub candidate : String
  pub snapshot : String
  pub run : String
  pub expected : Option String
  pub candidate_ok :
      optional_sha256 "candidate_deployment_id" (candidate_at v) ≡ ok (some candidate)
  pub expected_ok : optional_sha256 "expected_current_deployment_id" (expected_at v) ≡ ok expected
  pub snapshot_ok : optional_sha256 "snapshot_id" (get v "snapshot_id") ≡ ok (some snapshot)
  pub run_ok : optional_run (get v "run_id") ≡ ok (some run)

present-eq-ok : (s : String) (o : Option String) (k : String) → present s o ≡ ok k → o ≡ some k
present-eq-ok s none k h = cc
present-eq-ok s (some j) k h = cc

required-optional :
    (s : String) (v : Value) (k : String)
    → required_sha256 s v ≡ ok k
    → optional_sha256 s v ≡ ok (some k)
unfolding required_sha256
required-optional s v k h =
    let (o, e, h1) = >>=-eq-ok (optional_sha256 s v) (present s) h in
    rw (← present-eq-ok s o k h1) e

expected-optional :
    (s : String) (v : Value) (o : Option String)
    → expected_deployment_id s v ≡ ok o
    → optional_sha256 s v ≡ ok o
unfolding expected_deployment_id optional_sha256
expected-optional s (str t) o h = ground arith
expected-optional s v o h = cc

run_present : (o : Option String) → run_required o ≡ ok tt → (k : String) × (o ≡ some k)
run_present none h = cc
run_present (some k) h = (k, refl)

ready-HasIdentity : (v : Dict) → validate_ready_references v ≡ ok tt → HasIdentity v
unfolding validate_ready_references
ready-HasIdentity v h =
    let (c, hc, h1) = >>=-eq-ok (required_sha256 "candidate_deployment_id" (candidate_at v)) _ h in
    let (e, he, h2) =
      >>=-eq-ok (expected_deployment_id "expected_current_deployment_id" (expected_at v)) _ h1 in
    let (s, hs, h3) = >>=-eq-ok (required_sha256 "snapshot_id" (get v "snapshot_id")) _ h2 in
    let (o, ho, h4) = >>=-eq-ok (optional_run (get v "run_id")) _ h3 in
    let (_, hr, _) = >>=-eq-ok (run_required o) _ h4 in
    let (k, hk) = run_present o hr in
    record {
      candidate = c;
      snapshot = s;
      run = k;
      expected = e;
      candidate_ok = required-optional _ _ c hc;
      expected_ok = expected-optional _ _ e he;
      snapshot_ok = required-optional _ _ s hs;
      run_ok = rw (← hk) ho;
    }

optional_sha256-str :
    (s : String) (v : Value) (k : String) → optional_sha256 s v ≡ ok (some k) → v ≡ str k
unfolding optional_sha256
optional_sha256-str s (str t) k h = ground arith
optional_sha256-str s v k h = cc

optional_run-str : (v : Value) (k : String) → optional_run v ≡ ok (some k) → v ≡ str k
unfolding optional_run
optional_run-str (str t) k h = ground arith
optional_run-str v k h = cc

mem-append : (k : String) (ks js : List String) → mem k ks ≡ true → mem k (ks ++ js) ≡ true
mem-append k [] js h = cc
mem-append k (j ∷ ks) js h = ground (arith, mem-append k ks js)

mem-append_last : (k : String) (ks : List String) → mem k (ks ++ k ∷ []) ≡ true
mem-append_last k [] = rw ((eq_iff k k).1 refl)
mem-append_last k (j ∷ ks) = ground (arith, mem-append_last k ks)

mem-add : (k : String) (ks : List String) → mem k (add k ks) ≡ true
mem-add k ks = elim (Bool-cases (mem k ks)) [ inl e ↦ rw e e | inr e ↦ rw e (mem-append_last k ks) ]

mem-add_optional :
    (k : String) (o : Option String) (ks : List String)
    → mem k ks ≡ true
    → mem k (add_optional o ks) ≡ true
mem-add_optional k none ks h = h
mem-add_optional k (some j) ks h = elim (Bool-cases (mem j ks)) [
  | inl e ↦ rw e h
  | inr e ↦ rw e (mem-append k ks (j ∷ []) h)
]

-- The references `t` are `r` with the identity that the record names.
pub record IsRegistered (v : Dict) (r t : References) : Type 0 where
  pub candidate : String
  pub snapshot : String
  pub run : String
  pub names_candidate : get v "candidate_deployment_id" ≡ str candidate
  pub names_snapshot : get v "snapshot_id" ≡ str snapshot
  pub names_run : get v "run_id" ≡ str run
  pub deployment_kept : mem candidate t.deployments ≡ true
  pub snapshot_kept : mem snapshot t.snapshots ≡ true
  pub run_kept : mem run t.runs ≡ true
  pub bundled :
      t.identity_bundles
      ≡ r.identity_bundles
        ++ record {
          deployment_id = candidate;
          run_id = run;
          snapshot_id = snapshot;
          kind = "unresolved";
        }
          ∷ []
  pub not_blocked : t.blocks_all ≡ r.blocks_all

-- The references with the identity that the record names.
abbrev with_identity : (v : Dict) → References → HasIdentity v → References
with_identity v r i = add_bundle false (some i.candidate) (some i.snapshot) (some i.run) (
    add_run false (some i.run) (
      add_snapshot false (some i.snapshot)
        (add_expected i.expected (add_candidate false (some i.candidate) r))))

identity-IsRegistered :
    (v : Dict) (r : References)
    → HasIdentity v
    → (t : References) × (add_identity_references false v r ≡ ok t) × IsRegistered v r t
unfolding add_identity_references
identity-IsRegistered v r i = (
  with_identity v r i,
  rw i.candidate_ok (rw i.expected_ok (rw i.snapshot_ok (rw i.run_ok))),
  record {
    candidate = i.candidate;
    snapshot = i.snapshot;
    run = i.run;
    names_candidate = optional_sha256-str _ _ i.candidate i.candidate_ok;
    names_snapshot = optional_sha256-str _ _ i.snapshot i.snapshot_ok;
    names_run = optional_run-str _ i.run i.run_ok;
    deployment_kept =
        mem-add_optional i.candidate i.expected (add i.candidate r.deployments)
          (mem-add i.candidate r.deployments);
    snapshot_kept = mem-add i.snapshot r.snapshots;
    run_kept = mem-add i.run r.runs;
    bundled = refl;
    not_blocked = refl;
  },
)

module _ (parse : String → Option Bool) where
  ready_result-ready :
      (v : Dict) (b : Bool) → ready_result parse v b ≡ ok tt → validate_ready_references v ≡ ok tt
  unfolding ready_result
  ready_result-ready v b h =
      let (_, _, h1) =
        >>=-eq-ok
          (guard (not b && has_exactly ready_fields v)
            (retention_error "candidate-ready result contract is invalid"))
          _ h in
      let (_, e, _) = >>=-eq-ok (validate_ready_references v) _ h1 in e

  successful_result-ready :
      (v : Dict) (o : String) (b : Bool)
      → successful_result parse v o b ≡ ok tt
      → validate_ready_references v ≡ ok tt
  unfolding successful_result
  successful_result-ready v o b h =
      let (_, _, h1) =
        >>=-eq-ok
          (guard
            (not b
              && (has_exactly promoted_fields v
                  || (not (str_eq o "PROMOTED") && has_exactly ready_fields v)))
            (retention_error "successful result contract is invalid"))
          _ h in
      let (_, e, _) = >>=-eq-ok (validate_ready_references v) _ h1 in e

  checks-ready :
      (v : Dict) (o : String) (b : Bool)
      → (str_eq o "CANDIDATE_READY" || mem o success_outcomes) ≡ true
      → outcome_checks parse v o b ≡ ok tt
      → validate_ready_references v ≡ ok tt
  checks-ready v o b k h = elim (Bool-cases (str_eq o "CANDIDATE_READY")) [
    | inl e ↦ ready_result-ready v b (rw e at h)
    | inr e ↦
        let m : mem o success_outcomes ≡ true = rw e at k in
        successful_result-ready v o b (rw (e, m) at h)
  ]

  known_outcome-str : (v : Value) (o p : String) → v ≡ str o → known_outcome v ≡ ok p → p ≡ o
  known_outcome-str (str s) o p e h =
      elim (Bool-cases (str_eq s "CANDIDATE_READY" || mem s terminal_outcomes)) [
        | inl x ↦ let g : ok s ≡ ok p = rw x at h in cc (g, e)
        | inr x ↦
            let g : err (retention_error "result outcome is unknown") ≡ ok p = rw x at h in cc (g)
      ]
  known_outcome-str v o p e h = cc

  -- A result record that is accepted, with an outcome that is ready or a success, always names a
  -- complete identity: adding its identity to the references raises nothing, keeps its candidate,
  -- snapshot and run among the references, records that they belong together, and blocks nothing.
  pub accepted_result-IsRegistered :
      (publisher request : String) (v w : Dict) (o : String) (r : References)
      → get v "outcome" ≡ str o
      → (str_eq o "CANDIDATE_READY" || mem o success_outcomes) ≡ true
      → validate_result_record parse publisher request v ≡ ok w
      → (t : References) × (add_identity_references false w r ≡ ok t) × IsRegistered w r t
  unfolding validate_result_record
  accepted_result-IsRegistered publisher request v w o r e k h =
      let (_, _, h1) =
        >>=-eq-ok
          (guard (is_addressed publisher request v)
            (retention_error "result protocol identity disagrees with its path"))
          _ h in
      let (_, _, h2) = >>=-eq-ok (check_request_id request) _ h1 in
      let (p, hp, h3) = >>=-eq-ok (known_outcome (get v "outcome")) _ h2 in
      let (b, _, h4) = >>=-eq-ok (flag (get v "retryable")) _ h3 in
      let (_, h5, h6) = >>=-eq-ok (outcome_checks parse v p b) (λ _. ok v) h4 in
      let outcome : p ≡ o = known_outcome-str (get v "outcome") o p e hp in
      let ready = checks-ready v o b k (rw outcome at h5) in
      rw (← ok-injective v w h6) (identity-IsRegistered v r (ready-HasIdentity v ready))
