-- ===== src/Build/Kept.antt =====
-- What the accesses of build.py to the data directory leave as it is, whatever fails.
use homeops_ai.Prelude.{
  String, ◌≡◌, refl, Bool, true, ◌&&◌, Option, none, some, List, [], ◌∷◌, ◌⊎◌, inl, inr, str_eq,
  lookup, Bool-cases, subst, sym, ap, ◌∙◌,
}
use homeops_ai.Prelude.Result.{Result, ok, err}
use homeops_ai.Prelude.Effect.{lift}
use homeops_ai.Prelude.Triple.{
  Post, Triple, bind-Triple, lift-Post, weaken_both, lift-Triple, ensure-Triple, return-Triple,
  weaken_post-Triple,
}
use homeops_ai.Value.{Value, obj, Dict, get, same, num}
use homeops_ai.Deployment.{Error, validate_deployment_record, validate_safe_id, is_dict}
use homeops_ai.Deployment.Serving.{truthy, current_projection}
use homeops_ai.Pipeline.{fields_of}
use homeops_ai.Build.{
  Data, Plan, Host, Run, build_error, as_raised, requires, fine, before, after, Failure, access,
  create, create_history, history_name, as_build, active_state, stored_state, store_promoted_record,
  publish_projection, repair, write, sync,
}

-- A predicate of the data, of data and plan.
abbrev pub On : (Data → Type 0) → Data × Plan → Type 0
On P w = P w.0

pub as_build-eq-ok {ℓ} : {A : Type ℓ} (r : Result Error A) (a : A) → as_build r ≡ ok a → r ≡ ok a
as_build-eq-ok (ok b) a h = cc
as_build-eq-ok (err e) a h = cc

pub as_raised-eq-ok {ℓ} : {A : Type ℓ} (r : Result Error A) (a : A) → as_raised r ≡ ok a → r ≡ ok a
as_raised-eq-ok (ok b) a h = cc
as_raised-eq-ok (err e) a h = cc

module _ (P Q E : Data → Type 0) (done late : Data → Data) (a : (d : Data) → P d → Q (done d))
    (b : (d : Data) → P d → E d) (c : (d : Data) → P d → E (late d)) where
  access-Post : (w : Data × Plan) → P w.0 → Post (λ u. On Q) (On E) (access done late w)
  access-Post (d, []) p = a d p
  access-Post (d, fine ∷ plan) p = a d p
  access-Post (d, before ∷ plan) p = b d p
  access-Post (d, after ∷ plan) p = c d p

  pub access_any-Triple : Triple (On P) (access done late) (λ u. On Q) (On E)
  access_any-Triple = record { holds = access-Post }

module _ (host : Host) where
  -- An immutable file is made, or is there with the same bytes.
  pub create-Post :
      (found : Option Dict) (r : Dict) (add : Data → Data) (w : Data × Plan)
      → Post
          (λ u w'.
            ((found ≡ none) × (w'.0 ≡ add w.0))
            ⊎ ((old : Dict) × (found ≡ some old)
                × (str_eq (host.encode (obj old)) (host.encode (obj r)) ≡ true)
                × (w'.0 ≡ w.0)))
          (λ w'. w'.0 ≡ w.0)
          (create host found r add w)
  unfolding create
  create-Post none r add (d, []) = inl (refl, refl)
  create-Post none r add (d, fine ∷ plan) = inl (refl, refl)
  create-Post none r add (d, before ∷ plan) = refl
  create-Post none r add (d, after ∷ plan) = refl
  create-Post (some old) r add w =
      elim (Bool-cases (str_eq (host.encode (obj old)) (host.encode (obj r)))) [
        | inl e ↦ rw e (inr (old, refl, e, refl))
        | inr e ↦ rw e refl
      ]

  -- The state that `active_state` returns is the one on disk.
  pub active_state-Triple :
      (d0 : Data)
      → Triple
          (λ w. w.0 ≡ d0)
          (active_state host)
          (λ s w. (w.0 ≡ d0) × (stored_state host d0.active ≡ ok s))
          (λ w. w.0 ≡ d0)
  unfolding active_state
  active_state-Triple d0 = record {
    holds = λ w h.
        lift-Post (λ s w. (w.0 ≡ d0) × (stored_state host d0.active ≡ ok s)) (λ w. w.0 ≡ d0)
          (as_build (stored_state host w.0.active)) w
          (λ s e. (h, sym (ap (λ d. stored_state host d.active) h) ∙ as_build-eq-ok _ s e)) h;
  }

  kept_active_state-Triple :
      (P : Data → Type 0) → Triple (On P) (active_state host) (λ s. On P) (On P)
  unfolding active_state
  kept_active_state-Triple P = record {
    holds = λ w h.
        lift-Post (λ s. On P) (On P) (as_build (stored_state host w.0.active)) w (λ s e. h) h;
  }

  module _ (P : Data → Type 0)
      (history : (d : Data) (h : List (String × Dict)) → P d → P (record d { history = h }))
      (projection : (d : Data) (p : Option Dict) → P d → P (record d { projection = p })) where
    abbrev Kept {ℓ} : {A : Type ℓ} → Run A → Type ℓ
    Kept call = Triple (On P) call (λ a. On P) (On P)

    lift-Kept {ℓ} : {A : Type ℓ} (r : Result Failure A) → Kept (lift r)
    lift-Kept r = lift-Triple r (λ w a e p. p) (λ w p. p)

    requires-Kept : (test : Bool) (message : String) → Kept (requires test message)
    requires-Kept test message =
        weaken_post-Triple (λ u w h. h.0) (ensure-Triple test (build_error message) (λ w p. p))

    create_history-Kept : (r : Dict) → Kept (create_history host r)
    unfolding create_history
    create_history-Kept r = record {
      holds = λ w h.
          let found = lookup (history_name host r) w.0.history in
          let add : Data → Data =
            λ e. record e { history = (history_name host r, r) ∷ e.history } in
          weaken_both
            (λ u w'.
              ((found ≡ none) × (w'.0 ≡ add w.0))
              ⊎ ((old : Dict) × (found ≡ some old)
                  × (str_eq (host.encode (obj old)) (host.encode (obj r)) ≡ true)
                  × (w'.0 ≡ w.0)))
            (λ u. On P) (λ w'. w'.0 ≡ w.0) (On P) (create_history host r w)
            (λ u w' c. elim c [
              | inl e ↦ subst P (sym e.1) (history w.0 ((history_name host r, r) ∷ w.0.history) h)
              | inr e ↦ subst P (sym e.3) h
            ])
            (λ w' e. subst P (sym e) h) (create-Post found r add w);
    }

    store_promoted_record-Kept : (v : Value) → Kept (store_promoted_record host v)
    unfolding store_promoted_record
    store_promoted_record-Kept v =
        bind-Triple (λ c. On P) (lift-Kept (as_raised (validate_deployment_record host.digest v)))
          (λ c.
            bind-Triple (λ u. On P)
              (requires-Kept (truthy (get c "promoted_at"))
                "promoted deployment record lacks promotion timestamp")
              (λ u. create_history-Kept c))

    publish_projection-Kept : (s : Dict) → Kept (publish_projection host s)
    unfolding publish_projection write
    publish_projection-Kept s =
        bind-Triple (λ c. On P) (lift-Kept (as_raised (current_projection host.digest (obj s))))
          (λ c.
            access_any-Triple P P P _ _ (λ d. projection d (some c)) (λ d p. p)
              (λ d. projection d (some c)))

    -- The bookkeeping changes the history and the projection only.
    pub repair_keeps-Triple : (id : Value) → Triple (On P) (repair host id) (λ s. On P) (On P)
    unfolding repair sync
    repair_keeps-Triple id =
        bind-Triple (λ u. On P) (lift-Kept (as_raised (validate_safe_id id)))
          (λ u.
            bind-Triple (λ s. On P) (kept_active_state-Triple P)
              (λ s.
                bind-Triple (λ u. On P)
                  (requires-Kept (same (get s "schema_version") (num 2))
                    "selected deployment bookkeeping requires schema-v2 state")
                  (λ u.
                    bind-Triple (λ u. On P)
                      (requires-Kept
                        (is_dict (get s "current_deployment")
                          && same (get (fields_of (get s "current_deployment")) "deployment_id") id)
                        "selected deployment changed before bookkeeping repair")
                      (λ u.
                        bind-Triple (λ u. On P)
                          (access_any-Triple P P P _ _ (λ d p. p) (λ d p. p) (λ d p. p))
                          (λ u.
                            bind-Triple (λ u. On P)
                              (store_promoted_record-Kept (get s "current_deployment"))
                              (λ u.
                                bind-Triple (λ u. On P) (publish_projection-Kept s)
                                  (λ u. return-Triple s (λ w p. p))))))))
