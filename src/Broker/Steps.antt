-- ===== src/Broker/Steps.antt =====
-- How a property of two states passes through the write broker: a relation that the single accesses
-- keep is kept by every request.
use homeops_ai.Prelude.{lookup}
use homeops_ai.Text.Chars.{is_uuid4}
use homeops_ai.Prelude.{
  ℕ, String, ◌≡◌, refl, Bool, true, false, not, ◌||◌, Option, none, some, List, ◌∷◌, str_eq,
  if◌then◌else◌,
}
use homeops_ai.Prelude.Result.{Result, ok, err}
use homeops_ai.Value.{Value, Dict}
use homeops_ai.Broker.Note.{BrokerError, Note}
use homeops_ai.Broker.State.{
  Host, Intent, Entry, Vault, Inspection, Env, World, Reply, synced, has_errors,
  same_vault_identity, read_bounded, is_target, render_capture, result_of, publish_result,
}
use homeops_ai.Broker.Process.{
  Link, linked, file_exists, os_error, publish_note, publish_applied, after_link_step, with_before,
  with_candidate, with_baseline, recover, at_destination, process_new, process_intent, stored_or,
}
use homeops_ai.Broker.Handle.{
  Command, unknown_subject, rejected_note, capture_note, write_status, capture, status, new_intent,
  run, parse_request, handle, is_same_request, capture_at, status_of_entry, status_result,
  status_at, handle_parsed,
}

-- The vault after a link that left one.
pub data LeavesVault : Link → Vault → Type 0 where
  by_link : (v : Vault) → LeavesVault (linked v) v
  by_exists : (v : Vault) → LeavesVault (file_exists v) v
  by_error : (v : Vault) → LeavesVault (os_error v) v

-- A relation between the state before and the state after, kept by each access.
pub record IsKept (env : Env) (R : World → World → Type 0) : Type 0 where
  pub same : (w : World) → R w w
  pub chain : (u v w : World) → R u v → R v w → R u w
  pub sync : (w : World) (k : ℕ) → R w (synced env k w)
  pub publish : (w : World) (r : Dict) → R w (publish_result r w).0
  pub link :
      (w : World) (target content : String) (v : Vault)
      → LeavesVault (publish_note env target content w.vault) v
      → R w (record w { vault = v })
  pub accept :
      (w : World) (id : String) (i : Intent)
      → lookup id w.requests ≡ none
      → R w (record w { requests = (id, i) ∷ w.requests })

module _ (env : Env) (R : World → World → Type 0) (kept : IsKept env R) where
  if-kept : (w : World) (b : Bool) (x y : Reply) → R w x.0 → R w y.0 → R w (if b then x else y).0
  if-kept w true x y p q = p
  if-kept w false x y p q = q

  after-kept : (u w : World) (x : Reply) → R u w → R w x.0 → R u x.0
  after-kept u w x p q = kept.chain u w x.0 p q

  module _ (i : Intent) (content : String) where
    after_link-kept :
        (idem : Bool) (candidate : Inspection) (w : World) (l : Link)
        → ((v : Vault) → LeavesVault l v → R w (record w { vault = v }))
        → R w (after_link_step env i content idem candidate w l).0
    unfolding after_link_step publish_applied
    after_link-kept idem candidate w (file_exists v) p = p v (LeavesVault.by_exists v)
    after_link-kept idem candidate w (os_error v) p = p v (LeavesVault.by_error v)
    after_link-kept idem candidate w (linked v) p =
        let w4 : World = record w { vault = v } in
        let w5 = synced env 5 w4 in
        kept.chain w w4 _ (p v (LeavesVault.by_link v))
          (kept.chain w4 w5 _ (kept.sync w4 5) (kept.publish w5 _))

    with_before-kept :
        (idem : Bool) (baseline candidate : Inspection) (w : World) (o : Option Inspection)
        → R w (with_before env i content idem baseline candidate w o).0
    unfolding with_before
    with_before-kept idem baseline candidate w none = kept.same w
    with_before-kept idem baseline candidate w (some before) =
        let w4 = synced env 4 w in
        if-kept w (not (same_vault_identity before baseline) || has_errors before) _ _ (kept.same w)
          (kept.chain w w4 _ (kept.sync w 4) (
            after_link-kept idem candidate w4 (publish_note env i.target content w4.vault)
              (kept.link w4 i.target content)))

    with_candidate-kept :
        (idem : Bool) (baseline : Inspection) (w : World) (o : Option Inspection)
        → R w (with_candidate env i content idem baseline w o).0
    unfolding with_candidate
    with_candidate-kept idem baseline w none = kept.same w
    with_candidate-kept idem baseline w (some candidate) =
        let w3 = synced env 3 w in
        if-kept w (has_errors candidate) _ _ (kept.publish w _) (
          kept.chain w w3 _ (kept.sync w 3)
            (with_before-kept idem baseline candidate w3 (env.inspect 3 w3.vault)))

    with_baseline-kept :
        (idem : Bool) (w : World) (o : Option Inspection)
        → R w (with_baseline env i content idem w o).0
    unfolding with_baseline
    with_baseline-kept idem w none = kept.same w
    with_baseline-kept idem w (some baseline) =
        let w2 = synced env 2 w in
        if-kept w (has_errors baseline) _ _ (kept.same w)
          (kept.chain w w2 _ (kept.sync w 2) (with_candidate-kept idem baseline w2 _))

    recover-kept : (w : World) (o : Option Inspection) → R w (recover env i content w o).0
    unfolding recover publish_applied
    recover-kept w none = kept.same w
    recover-kept w (some inspected) =
        if-kept w (has_errors inspected) _ _ (kept.same w) (kept.publish w _)

    destination-kept :
        (idem : Bool) (w : World) (o : Option Entry) → R w (at_destination env i content idem w o).0
    unfolding at_destination
    destination-kept idem w none =
        let w1 = synced env 1 w in
        kept.chain w w1 _ (kept.sync w 1) (with_baseline-kept idem w1 (env.inspect 1 w1.vault))
    destination-kept idem w (some e) =
        let w1 = synced env 1 w in
        kept.chain w w1 _ (kept.sync w 1) (
          if-kept w1 (not (str_eq (read_bounded (lookup i.target w1.vault)) content)) _ _
            (kept.publish w1 _)
            (let w6 = synced env 6 w1 in
              kept.chain w1 w6 _ (kept.sync w1 6) (recover-kept w6 (env.inspect 6 w6.vault))))

  module _ (host : Host) where
    process_new-kept :
        (i : Intent) (idem : Bool) (w : World) → R w (process_new host env i idem w).0
    unfolding process_new
    process_new-kept i idem w =
        let w0 = synced env 0 w in
        if-kept w (not (str_eq (host.sha256 (render_capture host i)) i.content_sha256)) _ _
          (kept.same w)
          (if-kept w (not (is_target i.target)) _ _ (kept.same w) (
            if-kept w env.cannot_stat _ _ (kept.sync w 0) (
              kept.chain w w0 _ (kept.sync w 0)
                (destination-kept i (render_capture host i) idem w0 (lookup i.target w0.vault)))))

    process_intent-kept :
        (i : Intent) (idem : Bool) (w : World) → R w (process_intent host env i idem w).0
    unfolding process_intent
    process_intent-kept i idem w =
        if-kept w (not (is_uuid4 i.request_id)) _ _ (kept.same w)
          (by_result (result_of w i.request_id))
      where
        by_result : (m : Result BrokerError (Option Dict)) → R w (stored_or host env i idem w m).0
        by_result (err e) = kept.same w
        by_result (ok (some r)) = kept.same w
        by_result (ok none) = process_new-kept i idem w

    capture-kept :
        (id actor client : String) (n : Note) (w : World)
        → R w (capture host env id actor client n w).0
    unfolding capture
    capture-kept id actor client n w = by_request (lookup id w.requests) refl
      where
        by_request :
            (o : Option Intent)
            → lookup id w.requests ≡ o
            → R w (capture_at host env id actor client n w o).0
        by_request (some i) e =
            if-kept w (is_same_request host i actor n) _ _ (process_intent-kept i true w)
              (kept.same w)
        by_request none e =
            let i = new_intent host env id actor client n in
            let w1 : World = record w { requests = (id, i) ∷ w.requests } in
            kept.chain w w1 _ (kept.accept w id i e) (process_intent-kept i false w1)

    status-kept : (id actor : String) (w : World) → R w (status host env id actor w).0
    unfolding status
    status-kept id actor w = by_request (lookup id w.requests)
      where
        w0 : World
        w0 = synced env 0 w

        by_entry :
            (i : Intent) (content : String) (o : Option Entry)
            → R w (status_of_entry host env i content w0 o).0
        by_entry i content none = kept.sync w 0
        by_entry i content (some e) =
            let w1 = synced env 1 w0 in
            kept.chain w w0 _ (kept.sync w 0) (
              if-kept w0 (str_eq (read_bounded (lookup i.target w1.vault)) content) _ _
                (kept.sync w0 1) (kept.sync w0 1))

        by_result :
            (i : Intent) (m : Result BrokerError (Option Dict))
            → R w (status_result host env i w m).0
        by_result i (err e) = kept.same w
        by_result i (ok (some r)) = kept.same w
        by_result i (ok none) =
            if-kept w (not (str_eq (host.sha256 (render_capture host i)) i.content_sha256)) _ _
              (kept.same w)
              (if-kept w (not (is_target i.target)) _ _ (kept.same w) (
                if-kept w env.cannot_stat _ _ (kept.sync w 0)
                  (by_entry i (render_capture host i) (lookup i.target w0.vault))))

        by_request : (o : Option Intent) → R w (status_at host env id actor w o).0
        by_request none = kept.same w
        by_request (some i) =
            if-kept w (str_eq i.actor_fingerprint actor) _ _ (by_result i (result_of w id))
              (kept.same w)

    pub run-kept : (c : Command) (w : World) → R w (run host env c w).0
    unfolding run
    run-kept (unknown_subject id) w = kept.same w
    run-kept (rejected_note id message) w = kept.same w
    run-kept (capture_note id actor client n) w = capture-kept id actor client n w
    run-kept (write_status id actor) w = status-kept id actor w

    pub handle-kept :
        (allowed : List String) (request : Value) (w : World)
        → R w (handle host allowed env request w).0
    unfolding handle
    handle-kept allowed request w = by_command (parse_request host allowed request)
      where
        by_command : (m : Result BrokerError Command) → R w (handle_parsed host env w m).0
        by_command (err e) = kept.same w
        by_command (ok c) = run-kept c w
