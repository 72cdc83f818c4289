-- ===== src/Broker/Applied.antt =====
-- What the outcome `APPLIED` of the write broker says of the vault.
use homeops_ai.Prelude.{lookup}
use homeops_ai.Prelude.{
  ℕ, ◌≤◌, ◌∷◌, String, ◌≡◌, refl, sym, ◌∙◌, ap, Bool, true, false, not, ◌||◌, Option, none, some,
  str_eq, eq_iff, leb, if◌then◌else◌, Bool-cases, inl, inr, arith,
}
use homeops_ai.Prelude.Result.{Result, ok, err, ok-injective}
use homeops_ai.Text.Chars.{is_empty_text, utf8_len, is_uuid4}
use homeops_ai.Value.{str, Dict, get, get?, insert}
use homeops_ai.Broker.Note.{BrokerError, text_of}
use homeops_ai.Broker.State.{
  Host, Intent, Entry, regular, other, Vault, Inspection, Fault, before_open, before_create,
  before_link, after_link, Unlink, unlinks, fails_before, fails_after, Env, World, Reply, synced,
  pending, rejected, has_errors, same_vault_identity, read_bounded, is_target, render_capture,
  result_of, publish_result,
}
use homeops_ai.Broker.Process.{
  Link, linked, file_exists, os_error, cleanup, link_absent, create_at, publish_at, publish_note,
  link_at, publish_applied, after_link_step, with_before, with_candidate, with_baseline, recover,
  at_destination, process_new, process_intent, waiting, violation,
}
use homeops_ai.Broker.Vault.{lookup-cons_self, lookup-without}

module _ (env : Env) (i : Intent) (content : String) where
  -- If the reply is the outcome `APPLIED`, the vault holds the note.
  record Sound (x : Reply) : Type 0 where
    held :
        (d : Dict)
        → x.1 ≡ ok d
        → get d "outcome" ≡ str "APPLIED"
        → lookup i.target x.0.vault ≡ some (regular content)

  if-Sound : (b : Bool) (x y : Reply) → Sound x → (b ≡ false → Sound y) → Sound (if b then x else y)
  if-Sound true x y p q = p
  if-Sound false x y p q = q refl

  -- A reply with another outcome.
  other-Sound :
      (w : World) (d : Dict) (outcome : String)
      → get d "outcome" ≡ str outcome
      → str_eq outcome "APPLIED" ≡ false
      → Sound (w, ok d)
  other-Sound w d outcome e differs = record { held = refuted }
    where
      refuted :
          (x : Dict)
          → ◌≡◌ {A = Result BrokerError Dict} (ok d) (ok x)
          → get x "outcome" ≡ str "APPLIED"
          → lookup i.target w.vault ≡ some (regular content)
      refuted x h a =
          let same : str outcome ≡ str "APPLIED" =
            sym e ∙ ap (λ y. get y "outcome") (ok-injective d x h) ∙ a in
          absurd (ground (arith, eq_iff outcome "APPLIED"))

  waiting-Sound : (w : World) (state : String) → Sound (waiting w i state)
  unfolding get get?
  waiting-Sound w state = other-Sound w (pending i state) "ACCEPTED" refl refl

  publish-other-Sound :
      (w : World) (r : Dict) (outcome : String)
      → get r "outcome" ≡ str outcome
      → str_eq outcome "APPLIED" ≡ false
      → lookup (text_of (get r "request_id")) w.results ≡ none
      → Sound (publish_result r w)
  unfolding publish_result
  publish-other-Sound w r outcome e differs new = rw new (other-Sound _ r outcome e differs)

  -- A vault that holds the note may be reported as such.
  publish_applied-Sound :
      (w : World) (inspected : Inspection) (recovered idempotent concurrent : Bool)
      → lookup i.request_id w.results ≡ none
      → lookup i.target w.vault ≡ some (regular content)
      → Sound (publish_applied env i inspected recovered idempotent concurrent w)
  unfolding publish_applied publish_result get get?
  publish_applied-Sound w inspected recovered idempotent concurrent new held =
      rw new (record { held = λ d h a. held })

  full_entry :
      (o : Option Entry)
      → read_bounded o ≡ content
      → is_empty_text content ≡ false
      → o ≡ some (regular content)
  full_entry none h f = absurd (ground (arith, ap is_empty_text h))
  full_entry (some other) h f = absurd (ground (arith, ap is_empty_text h))
  full_entry (some (regular s)) h f = elim (Bool-cases (leb (utf8_len s) 131072)) [
    | inl e ↦ let same : s ≡ content = rw e at h in ap (λ c. some (regular c)) same
    | inr e ↦
        let none_left : "" ≡ content = rw e at h in
        absurd (ground (arith, ap is_empty_text none_left))
  ]

  module _
      (others : (k : ℕ) (v : Vault)
        → 5 ≤ k
        → lookup i.target v ≡ some (regular content)
        → lookup i.target (env.sync k v) ≡ some (regular content))
      (filled : is_empty_text content ≡ false) where
    exists-Sound :
        (idem : Bool) (candidate : Inspection) (w : World) (v : Vault)
        → Sound (after_link_step env i content idem candidate w (file_exists v))
    unfolding after_link_step
    exists-Sound idem candidate w v = waiting-Sound _ "waiting-for-stable-vault"

    error-Sound :
        (idem : Bool) (candidate : Inspection) (w : World) (v : Vault)
        → Sound (after_link_step env i content idem candidate w (os_error v))
    unfolding after_link_step
    error-Sound idem candidate w v = waiting-Sound _ "waiting-for-writable-vault"

    linked-Sound :
        (idem : Bool) (candidate : Inspection) (w : World) (v : Vault)
        → lookup i.request_id w.results ≡ none
        → lookup i.target v ≡ some (regular content)
        → Sound (after_link_step env i content idem candidate w (linked v))
    unfolding after_link_step
    linked-Sound idem candidate w v new k =
        publish_applied-Sound _ candidate false idem _ new (others 5 v (omega arith) k)

    -- A link that has been made and cleaned up after holds the note.
    abbrev IsMade : Link → Type 0
    IsMade (linked v) = lookup i.target v ≡ some (regular content)
    IsMade l = Unit {0}

    after_link-Sound :
        (idem : Bool) (candidate : Inspection) (w : World) (l : Link)
        → lookup i.request_id w.results ≡ none
        → IsMade l
        → Sound (after_link_step env i content idem candidate w l)
    after_link-Sound idem candidate w (linked v) new k = linked-Sound idem candidate w v new k
    after_link-Sound idem candidate w (file_exists v) new k = exists-Sound idem candidate w v
    after_link-Sound idem candidate w (os_error v) new k = error-Sound idem candidate w v

    apart :
        (t text : String) (v : Vault)
        → lookup i.target ((t, regular text) ∷ v) ≡ none
        → str_eq t i.target ≡ false
    apart t text v h = ground arith

    linked-IsMade :
        (d : Unlink) (t text : String) (v : Vault)
        → lookup i.target ((t, regular text) ∷ v) ≡ none
        → IsMade (cleanup d t (linked ((i.target, regular content) ∷ (t, regular text) ∷ v)))
    linked-IsMade unlinks t text v h =
        lookup-without t i.target ((i.target, regular content) ∷ (t, regular text) ∷ v)
          (apart t text v h)
        ∙ lookup-cons_self i.target (regular content) ((t, regular text) ∷ v)
    linked-IsMade fails_before t text v h = tt
    linked-IsMade fails_after t text v h = tt

    other-IsMade : (d : Unlink) (t : String) (v : Vault) → IsMade (cleanup d t (os_error v))
    other-IsMade unlinks t v = tt
    other-IsMade fails_before t v = tt
    other-IsMade fails_after t v = tt

    exists-IsMade : (d : Unlink) (t : String) (v : Vault) → IsMade (cleanup d t (file_exists v))
    exists-IsMade unlinks t v = tt
    exists-IsMade fails_before t v = tt
    exists-IsMade fails_after t v = tt

    absent-IsMade :
        (d : Unlink) (fault : Fault) (t text : String) (v : Vault) (o : Option Entry)
        → lookup i.target ((t, regular text) ∷ v) ≡ o
        → IsMade (cleanup d t (link_absent fault i.target content ((t, regular text) ∷ v) o))
    absent-IsMade d after_link t text v none h = other-IsMade d t _
    absent-IsMade d fault t text v none h = linked-IsMade d t text v h
    absent-IsMade d fault t text v (some e) h = exists-IsMade d t _

    link-IsMade :
        (fault : Fault) (v : Vault)
        → IsMade (cleanup env.unlink env.temporary_name (link_at env i.target content v fault))
    link-IsMade before_link v = other-IsMade env.unlink env.temporary_name _
    link-IsMade fault v = absent-IsMade env.unlink fault env.temporary_name content v _ refl

    create-IsMade :
        (fault : Fault) (v : Vault) (o : Option Entry)
        → IsMade (cleanup env.unlink env.temporary_name (create_at env i.target content v fault o))
    create-IsMade before_create v o = other-IsMade env.unlink env.temporary_name v
    create-IsMade fault v none = link-IsMade fault v
    create-IsMade fault v (some e) = exists-IsMade env.unlink env.temporary_name v

    publish-IsMade : (fault : Fault) (v : Vault) → IsMade (publish_at env i.target content v fault)
    publish-IsMade before_open v = tt
    publish-IsMade fault v = create-IsMade fault v (lookup env.temporary_name v)

    with_before-Sound :
        (idem : Bool) (baseline candidate : Inspection) (w : World) (o : Option Inspection)
        → lookup i.request_id w.results ≡ none
        → Sound (with_before env i content idem baseline candidate w o)
    unfolding with_before publish_note
    with_before-Sound idem baseline candidate w none new =
        waiting-Sound w "waiting-for-stable-vault"
    with_before-Sound idem baseline candidate w (some before) new =
        if-Sound (not (same_vault_identity before baseline) || has_errors before) _ _
          (waiting-Sound w "waiting-for-stable-vault")
          (λ _.
            let w4 = synced env 4 w in
            after_link-Sound idem candidate w4 _ new (publish-IsMade env.fault w4.vault))

    with_candidate-Sound :
        (idem : Bool) (baseline : Inspection) (w : World) (o : Option Inspection)
        → lookup i.request_id w.results ≡ none
        → Sound (with_candidate env i content idem baseline w o)
    unfolding with_candidate get get? insert
    with_candidate-Sound idem baseline w none new = waiting-Sound w "waiting-for-stable-vault"
    with_candidate-Sound idem baseline w (some candidate) new =
        if-Sound (has_errors candidate) _ _
          (publish-other-Sound w (violation env i content candidate) "REJECTED" refl refl new)
          (λ _. with_before-Sound idem baseline candidate (synced env 3 w) _ new)

    with_baseline-Sound :
        (idem : Bool) (w : World) (o : Option Inspection)
        → lookup i.request_id w.results ≡ none
        → Sound (with_baseline env i content idem w o)
    unfolding with_baseline
    with_baseline-Sound idem w none new = waiting-Sound w "waiting-for-readable-vault"
    with_baseline-Sound idem w (some baseline) new =
        if-Sound (has_errors baseline) _ _ (waiting-Sound w "waiting-for-valid-vault")
          (λ _. with_candidate-Sound idem baseline (synced env 2 w) _ new)

    recover-Sound :
        (w : World) (o : Option Inspection)
        → lookup i.request_id w.results ≡ none
        → lookup i.target w.vault ≡ some (regular content)
        → Sound (recover env i content w o)
    unfolding recover
    recover-Sound w none new held = waiting-Sound w "waiting-for-readable-vault"
    recover-Sound w (some inspected) new held =
        if-Sound (has_errors inspected) _ _ (waiting-Sound w "waiting-for-valid-vault")
          (λ _. publish_applied-Sound w inspected true true false new held)

    destination-Sound :
        (idem : Bool) (w : World) (o : Option Entry)
        → lookup i.request_id w.results ≡ none
        → Sound (at_destination env i content idem w o)
    unfolding at_destination get get?
    destination-Sound idem w none new = with_baseline-Sound idem (synced env 1 w) _ new
    destination-Sound idem w (some e) new =
        let w1 = synced env 1 w in
        let there = read_bounded (lookup i.target w1.vault) in
        if-Sound (not (str_eq there content)) _ _
          (publish-other-Sound w1
            (rejected i.request_id "capture target already exists with different content")
            "REJECTED" refl refl new)
          (λ same. recover-Sound (synced env 6 w1) _ new (
            others 6 w1.vault (omega arith)
              (full_entry _ ((eq_iff there content).0 (ground arith)) filled)))

module _ (host : Host) (env : Env) where
  err-Sound :
      (i : Intent) (content : String) (w : World) (e : BrokerError) → Sound env i content (w, err e)
  err-Sound i content w e = record { held = λ d h a. cc (h) }

  process_intent-Sound :
      (i : Intent) (idempotent : Bool) (w : World)
      → ((k : ℕ) (v : Vault)
          → 5 ≤ k
          → lookup i.target v ≡ some (regular (render_capture host i))
          → lookup i.target (env.sync k v) ≡ some (regular (render_capture host i)))
      → is_empty_text (render_capture host i) ≡ false
      → lookup i.request_id w.results ≡ none
      → Sound env i (render_capture host i) (process_intent host env i idempotent w)
  unfolding process_intent process_new result_of
  process_intent-Sound i idem w others filled new =
      let content = render_capture host i in
      if-Sound env i content (not (is_uuid4 i.request_id)) _ _ (err-Sound i content w _) (λ _.
        rw new (
          if-Sound env i content (not (str_eq (host.sha256 content) i.content_sha256)) _ _
            (err-Sound i content w _)
            (λ _.
              if-Sound env i content (not (is_target i.target)) _ _ (err-Sound i content w _) (λ _.
                if-Sound env i content env.cannot_stat _ _
                  (waiting-Sound env i content (synced env 0 w) "waiting-for-readable-vault")
                  (λ _.
                    destination-Sound env i content others filled idem (synced env 0 w) _ new)))))

  -- A capture without a final result yet is reported as `APPLIED` only if the vault then holds the
  -- note under its target, complete, whatever the faults: provided that the others do not touch the
  -- file between the link and the report, or, where it is there already, between the reading of it
  -- and the report, and that the note's text is not empty.
  pub applied_is_in_vault :
      (i : Intent) (idempotent : Bool) (w : World) (d : Dict)
      → ((k : ℕ) (v : Vault)
          → 5 ≤ k
          → lookup i.target v ≡ some (regular (render_capture host i))
          → lookup i.target (env.sync k v) ≡ some (regular (render_capture host i)))
      → is_empty_text (render_capture host i) ≡ false
      → lookup i.request_id w.results ≡ none
      → (process_intent host env i idempotent w).1 ≡ ok d
      → get d "outcome" ≡ str "APPLIED"
      → lookup i.target (process_intent host env i idempotent w).0.vault
        ≡ some (regular (render_capture host i))
  unfolding process_intent process_new result_of
  applied_is_in_vault i idem w d others filled new h a =
      (process_intent-Sound i idem w others filled new).held d h a
