-- ===== src/Build/Recovery.antt =====
-- src/homeops_ai/build.py: a rollback that faults interrupt, and the recoveries that follow it.
use homeops_ai.Prelude.{
  ◌≡◌, refl, Bool, true, false, Option, none, some, List, [], ◌∷◌, ◌⊎◌, inl, inr, lookup, ap, ◌∙◌,
}
use homeops_ai.Prelude.Result.{ok}
use homeops_ai.Prelude.Effect.{return, ◌>>=◌}
use homeops_ai.Prelude.Triple.{
  Triple, bind-Triple, same-Triple, return-Triple, or-Triple, weaken-Triple, weaken_post-Triple,
  either-Post, returned-Post,
}
use homeops_ai.Value.{Dict, get}
use homeops_ai.Build.{Data, Plan, Host, history_name}
use homeops_ai.Build.Faults.{With, Failed}
use homeops_ai.Build.Selected.{IsSelected}
use homeops_ai.Build.Rollback.{
  new_journal, finish_rollback, finish_pending, check_journal, recover_pending_rollback, recovered,
  recover_or,
}
use homeops_ai.Build.Atomic.{IsStep, Between, finished, Sound, finish_rollback-Triple}

module _ (host : Host) where
  -- Recoveries that come one after another, each with its faults; what they raise is left aside.
  unfoldable pub retry : List Plan → Data → Data
  unfolding recover_pending_rollback
  retry [] d = d
  retry (plan ∷ plans) d = retry plans (recover_pending_rollback host (d, plan)).0.0

  module _ (d0 : Data) (s t r shown : Dict) (step : IsStep host s t r)
      (facts : IsSelected host t r shown) (idle : d0.journal ≡ none)
      (new : lookup (history_name host r) d0.history ≡ none) where
    recovered-finish :
        (w : Data × Plan)
        → recovered host (new_journal s t) w
          ≡ (finish_rollback host (new_journal s t) >>= λ target. return (some target)) w
    unfolding recovered finish_pending check_journal get
    recovered-finish w = rw (step.journal, step.source_v2, step.target_v2, step.transition) refl

    recovered-Triple :
        (calm : Bool)
        → Triple
            (With calm (Between host d0 s t r shown))
            (recovered host (new_journal s t))
            (λ x. With calm (λ d. d ≡ finished host d0 s t r shown))
            (Failed calm (Sound host d0 s t r shown))
    recovered-Triple calm =
        same-Triple (λ w h. recovered-finish w)
          (bind-Triple _ (finish_rollback-Triple host d0 s t r shown calm step facts new)
            (λ x. return-Triple (some x) (λ w h. h.1)))

    abbrev pub IsEnd : Data → Type 0
    IsEnd d = (d ≡ finished host d0 s t r shown) ⊎ (d ≡ d0)

    IsEnd-idle : (d : Data) → IsEnd d → d.journal ≡ none
    IsEnd-idle d h = elim h [ inl e ↦ ap (λ x. x.journal) e | inr e ↦ ap (λ x. x.journal) e ∙ idle ]

    Between-pending :
        (d : Data) → Between host d0 s t r shown d → d.journal ≡ some (new_journal s t)
    Between-pending d h = elim h [ inl e ↦ e.1 | inr e ↦ e.0.1 ]

    -- One recovery, from each state that a rollback may leave.
    pub recover-Triple :
        (calm : Bool)
        → Triple
            (With calm (Sound host d0 s t r shown))
            (recover_pending_rollback host)
            (λ x. With calm IsEnd)
            (Failed calm (Sound host d0 s t r shown))
    unfolding recover_pending_rollback recover_or
    recover-Triple calm =
        weaken-Triple {P = λ w. With calm (Between host d0 s t r shown) w ⊎ With calm IsEnd w}
          (λ w h. elim h.0 [ inl e ↦ inl (e, h.1) | inr e ↦ inr (e, h.1) ])
          (or-Triple
            (same-Triple (λ w h. rw (Between-pending w.0 h.0) refl)
              (weaken_post-Triple (λ x w h. (inl h.0, h.1)) (recovered-Triple calm)))
            (same-Triple {n = return none} (λ w h. rw (IsEnd-idle w.0 h.0) refl)
              (return-Triple none (λ w h. h))))

    IsEnd-Sound : (d : Data) → IsEnd d → Sound host d0 s t r shown d
    IsEnd-Sound d h = inr h

    -- After any recoveries the state is still one that a recovery takes on.
    pub retry-Sound :
        (plans : List Plan) (d : Data)
        → Sound host d0 s t r shown d
        → Sound host d0 s t r shown (retry plans d)
    unfolding retry
    retry-Sound [] d h = h
    retry-Sound (plan ∷ plans) d h =
        retry-Sound plans (recover_pending_rollback host (d, plan)).0.0 (
          either-Post (λ w. Sound host d0 s t r shown w.0) (λ x. With false IsEnd)
            (Failed false (Sound host d0 s t r shown)) (recover_pending_rollback host (d, plan))
            (λ x w e. IsEnd-Sound w.0 e.0) (λ w e. e.0)
            ((recover-Triple false).holds (d, plan) (h, λ e. cc)))

    -- A recovery without faults.
    pub recover-IsEnd :
        (d : Data)
        → Sound host d0 s t r shown d
        → (x : Option Dict) × ((recover_pending_rollback host (d, [])).1 ≡ ok x)
          × IsEnd (recover_pending_rollback host (d, [])).0.0
    recover-IsEnd d h =
        let (x, e, end) =
          returned-Post (λ x. With true IsEnd) (Failed true (Sound host d0 s t r shown))
            (recover_pending_rollback host (d, []))
            ((recover-Triple true).holds (d, []) (h, λ e. refl)) (λ f. cc) in
        (x, e, end.0)
