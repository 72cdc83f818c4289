-- ===== src/Build/Atomic.antt =====
-- The states of the data directory in the course of a rollback, src/homeops_ai/build.py, and that the
-- rest of the rollback leads from each of them to the same end.
use homeops_ai.Prelude.{
  ◌≡◌, refl, Bool, true, false, none, some, ◌∷◌, ◌⊎◌, inl, inr, lookup, subst, sym,
}
use homeops_ai.Prelude.Result.{ok}
use homeops_ai.Prelude.Effect.{return, ◌>>◌, ◌>>=◌}
use homeops_ai.Prelude.Triple.{
  Triple, if-Triple, bind-Triple, same-Triple, or-Triple, weaken-Triple, return-Triple,
}
use homeops_ai.Value.{obj, Dict, get, same}
use homeops_ai.Deployment.{validate_state}
use homeops_ai.Build.{Data, Plan, Host, Run, write, history_name, repair}
use homeops_ai.Build.Faults.{With, Failed, access-Triple}
use homeops_ai.Build.Selected.{IsSelected, active_state-known, Selecting, Complete, repair-Triple}
use homeops_ai.Build.Rollback.{
  is_journal, is_transition, new_journal, select_target, finish_rollback, clear_journal, selected,
}
use homeops_ai.Pipeline.{fields_of}

module _ (host : Host) where
  -- The source and the target of a rollback that selects `r`.
  pub record IsStep (s t r : Dict) : Type 0 where
    pub source : validate_state host.digest true (obj s) ≡ ok s
    pub source_v2 : validate_state host.digest false (obj s) ≡ ok s
    pub target_v2 : validate_state host.digest false (obj t) ≡ ok t
    pub same_source : same (obj s) (obj s) ≡ true
    pub same_target : same (obj t) (obj t) ≡ true
    pub journal : is_journal (new_journal s t) ≡ true
    pub transition : is_transition (new_journal s t) s t ≡ true

  module _ (d0 : Data) (s t r shown : Dict) where
    -- The journal is written, and the source is still active.
    abbrev pub Prepared : Data → Type 0
    Prepared d =
        (d.active ≡ some (obj s))
        × (d.journal ≡ some (new_journal s t))
        × (d.deployments ≡ d0.deployments)
        × (d.history ≡ d0.history)

    abbrev pub Between : Data → Type 0
    Between d = Prepared d ⊎ Selecting host d0 t r (some (new_journal s t)) d

    abbrev pub finished : Data
    finished = record d0 {
      active = some (obj t);
      journal = none;
      history = (history_name host r, r) ∷ d0.history;
      projection = some shown;
    }

    abbrev pub Sound : Data → Type 0
    Sound d = Between d ⊎ (d ≡ finished) ⊎ (d ≡ d0)

    cleared :
        (d : Data)
        → Complete host d0 t r (some (new_journal s t)) shown d
        → (record d { journal = none }) ≡ finished
    cleared d h = rw (h.0.0.0, h.0.0.2, h.0.1, h.1) refl

    module _ (calm : Bool) (step : IsStep s t r) (facts : IsSelected host t r shown)
        (new : lookup (history_name host r) d0.history ≡ none) where
      select_source-Triple :
          Triple
            (With calm Prepared)
            (select_target s s t)
            (λ u. With calm (Selecting host d0 t r (some (new_journal s t))))
            (Failed calm Sound)
      unfolding select_target write
      select_source-Triple = rw step.same_source (
          access-Triple (Selecting host d0 t r (some (new_journal s t))) Sound calm
            (λ d h. ((refl, h.1, h.2), inl h.3)) (λ d h. inl (inl h))
            (λ d h. inl (inr ((refl, h.1, h.2), inl h.3))))

      select_again-Triple :
          Triple
            (With calm (Selecting host d0 t r (some (new_journal s t))))
            (select_target t s t)
            (λ u. With calm (Selecting host d0 t r (some (new_journal s t))))
            (Failed calm Sound)
      unfolding select_target write
      select_again-Triple =
          if-Triple (same (obj t) (obj s))
            (λ e.
              access-Triple (Selecting host d0 t r (some (new_journal s t))) Sound calm
                (λ d h. ((refl, h.0.1, h.0.2), h.1)) (λ d h. inl (inr h))
                (λ d h. inl (inr ((refl, h.0.1, h.0.2), h.1))))
            (λ e. rw step.same_target (return-Triple tt (λ w h. h)))

      clear_journal-Triple :
          Triple
            (With calm (Complete host d0 t r (some (new_journal s t)) shown))
            clear_journal
            (λ u. With calm (λ d. d ≡ finished))
            (Failed calm Sound)
      unfolding clear_journal write
      clear_journal-Triple =
          access-Triple (λ d. d ≡ finished) Sound calm cleared (λ d h. inl (inr (h.0.0, inr h.0.1)))
            (λ d h. inr (inl (cleared d h)))

      -- What follows the selection of the target.
      abbrev completion : Run Dict
      unfolding repair clear_journal
      completion = do
        repaired ← repair host (get (fields_of (selected t)) "deployment_id")
        clear_journal
        return t

      repair_selected-Triple :
          Triple
            (With calm (Selecting host d0 t r (some (new_journal s t))))
            (repair host (get (fields_of (selected t)) "deployment_id"))
            (λ x. With calm (Complete host d0 t r (some (new_journal s t)) shown))
            (Failed calm Sound)
      repair_selected-Triple =
          subst
            (λ v.
              Triple (With calm (Selecting host d0 t r (some (new_journal s t))))
                (repair host (get (fields_of v) "deployment_id"))
                (λ x. With calm (Complete host d0 t r (some (new_journal s t)) shown))
                (Failed calm Sound))
            (sym facts.now)
            (repair-Triple host d0 t r (some (new_journal s t)) Sound (λ d h. inl (inr h)) calm new
              shown facts)

      completion-Triple :
          Triple
            (With calm (Selecting host d0 t r (some (new_journal s t))))
            completion
            (λ x w. (x ≡ t) × With calm (λ d. d ≡ finished) w)
            (Failed calm Sound)
      unfolding completion
      completion-Triple =
          bind-Triple (λ x. With calm (Complete host d0 t r (some (new_journal s t)) shown))
            repair_selected-Triple
            (λ x.
              bind-Triple (λ u. With calm (λ d. d ≡ finished)) clear_journal-Triple
                (λ u. return-Triple t (λ w h. (refl, h))))

      finish_rollback-select :
          (v : Dict) (w : Data × Plan)
          → validate_state host.digest true (obj v) ≡ ok v
          → w.0.active ≡ some (obj v)
          → finish_rollback host (new_journal s t) w ≡ (select_target v s t >> completion) w
      unfolding finish_rollback completion get
      finish_rollback-select v w valid h = rw (active_state-known host v w valid h) refl

      pub finish_rollback-Triple :
          Triple
            (With calm Between)
            (finish_rollback host (new_journal s t))
            (λ x w. (x ≡ t) × With calm (λ d. d ≡ finished) w)
            (Failed calm Sound)
      finish_rollback-Triple =
          weaken-Triple
            {P = λ w.
              With calm Prepared w ⊎ With calm (Selecting host d0 t r (some (new_journal s t))) w}
            (λ w h. elim h.0 [ inl e ↦ inl (e, h.1) | inr e ↦ inr (e, h.1) ])
            (or-Triple
              (same-Triple (λ w h. finish_rollback-select s w step.source h.0.0)
                (bind-Triple _ select_source-Triple (λ u. completion-Triple)))
              (same-Triple (λ w h. finish_rollback-select t w facts.valid h.0.0.0)
                (bind-Triple _ select_again-Triple (λ u. completion-Triple))))
