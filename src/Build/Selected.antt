-- ===== src/Build/Selected.antt =====
-- The bookkeeping after a selection, src/homeops_ai/build.py: with the selected state in active.json,
-- its history entry and its projection are written, whatever of them was written before.
use text.Mathlib.TextPositions.{eq_refl}
use homeops_ai.Prelude.{◌≡◌, refl, ap, Bool, true, Option, none, some, ◌∷◌, ◌⊎◌, inl, inr, lookup}
use homeops_ai.Prelude.Result.{ok}
use homeops_ai.Prelude.Effect.{return, ◌>>◌}
use homeops_ai.Prelude.Triple.{
  Triple, bind-Triple, same-Triple, or-Triple, weaken-Triple, return-Triple,
}
use homeops_ai.Value.{obj, Dict, get, same, num}
use homeops_ai.Deployment.{validate_state, validate_deployment_record, validate_safe_id}
use homeops_ai.Deployment.Serving.{truthy, current_projection}
use homeops_ai.Deployment.States.{current}
use homeops_ai.Build.{
  Data, Plan, Host, Run, access, write, create, history_name, create_history, active_state, sync,
  store_promoted_record, publish_projection, repair,
}
use homeops_ai.Build.Faults.{With, Failed, access-Triple}

module _ (host : Host) where
  pub active_state-known :
      (v : Dict) (w : Data × Plan)
      → validate_state host.digest true (obj v) ≡ ok v
      → w.0.active ≡ some (obj v)
      → active_state host w ≡ (w, ok v)
  unfolding active_state
  active_state-known v w h a = rw a (rw h refl)

  -- The state `t` selects the record `r`, and its projection is `shown`.
  pub record IsSelected (t r shown : Dict) : Type 0 where
    pub checked : validate_deployment_record host.digest (obj r) ≡ ok r
    pub safe : validate_safe_id (get r "deployment_id") ≡ ok tt
    pub stamped : truthy (get r "promoted_at") ≡ true
    pub valid : validate_state host.digest true (obj t) ≡ ok t
    pub version : same (get t "schema_version") (num 2) ≡ true
    pub now : current t ≡ obj r
    pub named : same (get r "deployment_id") (get r "deployment_id") ≡ true
    pub shows : current_projection host.digest (obj t) ≡ ok shown

  module _ (d0 : Data) (t r : Dict) where
    -- The history has what it had, and possibly the entry of the selection.
    abbrev pub HasHistory : Data → Type 0
    HasHistory d = (d.history ≡ d0.history) ⊎ (d.history ≡ ((history_name host r, r) ∷ d0.history))

    module _ (j : Option Dict) where
      abbrev pub Framed : Data → Type 0
      Framed d = (d.active ≡ some (obj t)) × (d.journal ≡ j) × (d.deployments ≡ d0.deployments)

      abbrev pub Selecting : Data → Type 0
      Selecting d = Framed d × HasHistory d

      abbrev pub Recorded : Data → Type 0
      Recorded d = Framed d × (d.history ≡ ((history_name host r, r) ∷ d0.history))

      abbrev pub Complete : (shown : Dict) → Data → Type 0
      Complete shown d = Recorded d × (d.projection ≡ some shown)

      -- `E` may be left by a fault on the way.
      module _ (E : Data → Type 0) (weak : (d : Data) → Selecting d → E d) (calm : Bool)
          (new : lookup (history_name host r) d0.history ≡ none) where
        create_history-Triple :
            Triple
              (With calm Selecting)
              (create_history host r)
              (λ u. With calm Recorded)
              (Failed calm E)
        unfolding create_history create
        create_history-Triple =
            weaken-Triple
              {P = λ w.
                With calm (λ d. Framed d × (d.history ≡ d0.history)) w ⊎ With calm Recorded w}
              (λ w h. elim h.0.1 [ inl e ↦ inl ((h.0.0, e), h.1) | inr e ↦ inr ((h.0.0, e), h.1) ])
              (or-Triple
                (same-Triple
                  {n = access (λ e. record e { history = (history_name host r, r) ∷ e.history })
                    (λ e. e)}
                  (λ w h. rw (h.0.1) (rw new refl))
                  (access-Triple Recorded E calm
                    (λ d h. (h.0, ap (λ hs. (history_name host r, r) ∷ hs) h.1))
                    (λ d h. weak d (h.0, inl h.1)) (λ d h. weak d (h.0, inl h.1))))
                (same-Triple {n = return tt}
                  (λ w h.
                    rw (h.0.1) (
                      rw (eq_refl (history_name host r)) (rw (eq_refl (host.encode (obj r))) refl)))
                  (return-Triple tt (λ w h. h))))

        module _ (shown : Dict) (facts : IsSelected t r shown) where
          store_promoted_record-Triple :
              Triple
                (With calm Selecting)
                (store_promoted_record host (obj r))
                (λ u. With calm Recorded)
                (Failed calm E)
          unfolding store_promoted_record
          store_promoted_record-Triple =
              same-Triple (λ w h. rw facts.checked (rw facts.stamped refl)) create_history-Triple

          publish_projection-Triple :
              Triple
                (With calm Recorded)
                (publish_projection host t)
                (λ u. With calm (Complete shown))
                (Failed calm E)
          unfolding publish_projection write
          publish_projection-Triple =
              same-Triple {n = write (λ d. record d { projection = some shown })}
                (λ w h. rw facts.shows refl)
                (access-Triple (Complete shown) E calm (λ d h. (h, refl))
                  (λ d h. weak d (h.0, inr h.1))
                  (λ d h. weak (record d { projection = some shown }) (h.0, inr h.1)))

          -- What `repair` does after its checks.
          abbrev bookkeeping : Run Dict
          unfolding sync store_promoted_record publish_projection
          bookkeeping = do
            sync
            store_promoted_record host (obj r)
            publish_projection host t
            return t

          repair-bookkeeping :
              (w : Data × Plan)
              → w.0.active ≡ some (obj t)
              → repair host (get r "deployment_id") w ≡ bookkeeping w
          unfolding repair bookkeeping
          repair-bookkeeping w h = rw facts.safe (
              rw (active_state-known t w facts.valid h)
                (rw facts.version (rw (facts.now, facts.named) refl)))

          pub repair-Triple :
              Triple
                (With calm Selecting)
                (repair host (get r "deployment_id"))
                (λ x. With calm (Complete shown))
                (Failed calm E)
          unfolding bookkeeping sync
          repair-Triple =
              same-Triple (λ w h. repair-bookkeeping w h.0.0.0)
                (bind-Triple (λ u. With calm Selecting)
                  (access-Triple Selecting E calm (λ d h. h) weak weak)
                  (λ u.
                    bind-Triple (λ u. With calm Recorded) store_promoted_record-Triple
                      (λ u.
                        bind-Triple (λ u. With calm (Complete shown)) publish_projection-Triple
                          (λ u. return-Triple t (λ w h. h)))))
