-- ===== src/Build/Interrupted.antt =====
-- src/homeops_ai/build.py: rollback as a whole. With a journal on disk before active.json changes, a
-- rollback that stops half-way is finished by the next recovery.
use homeops_ai.Prelude.{
  String, ◌≡◌, refl, ◌≢◌, Bool, true, false, Option, none, some, List, [], ◌⊎◌, inl, inr, lookup,
  ap, ◌∙◌, sym, subst,
}
use homeops_ai.Prelude.Result.{Result, err, ok}
use homeops_ai.Prelude.Effect.{branch, continue_assoc, return, ◌>>◌}
use homeops_ai.Prelude.Triple.{Post, Triple, bind-Triple, same-Triple, either-Post, returned-Post}
use homeops_ai.Value.{obj, Dict, get, same, num}
use homeops_ai.Value.Json.{is_json, json_fields, same_refl}
use homeops_ai.Deployment.{promote_at, rollback_transition}
use homeops_ai.Deployment.States.{current, previous}
use homeops_ai.Deployment.Transitions.{IsStateOf}
use homeops_ai.Build.{Failure, Data, Plan, Host, Run, write, history_name}
use homeops_ai.Build.Candidate.{Evidence, candidate_matches_build}
use homeops_ai.Build.Faults.{With, Failed, access-Triple}
use homeops_ai.Build.Selected.{IsSelected, active_state-known}
use homeops_ai.Build.Rollback.{
  new_journal, finish_rollback, recover_pending_rollback, pending_or, rollback, rollback_fresh,
  rollback_selected, rollback_legacy, write_journal,
}
use homeops_ai.Build.Atomic.{IsStep, Prepared, Between, finished, Sound, finish_rollback-Triple}
use homeops_ai.Build.Recovery.{retry, retry-Sound, recover-IsEnd}
use homeops_ai.Build.Facts.{
  swapped, not_v1, IsStateOf-validate, IsStateOf-version, swapped-IsStateOf, swapped-IsJson,
  new_journal-IsJournal, new_journal-IsTransition, rollback_transition-swapped,
  current_projection-shows, swapped-IsSelected,
}

-- A run that returns has left the data directory like this.
abbrev pub IsDone : (left : Data) → (Data × Plan) × Result Failure Dict → Type 0
IsDone left (w, ok x) = w.0 ≡ left
IsDone left (w, err e) = Unit {0}

Post-IsDone :
    (t : Dict) (left : Data) (E : Data → Type 0) (r : (Data × Plan) × Result Failure Dict)
    → Post (λ x w. (x ≡ t) × With false (λ d. d ≡ left) w) (Failed false E) r
    → IsDone left r
Post-IsDone t left E (w, ok x) h = h.1.0
Post-IsDone t left E (w, err e) h = tt

subst-IsDone :
    {a b : Data} (r : (Data × Plan) × Result Failure Dict) → a ≡ b → IsDone b r → IsDone a r
subst-IsDone r e h = subst (λ d. IsDone d r) (sym e) h

module _ (host : Host) (evidence : Dict → Evidence) (at : String) where
  module _ (d0 : Data) (s t r shown p : Dict) (step : IsStep host s t r)
      (facts : IsSelected host t r shown) (idle : d0.journal ≡ none)
      (new : lookup (history_name host r) d0.history ≡ none) (stored : d0.active ≡ some (obj s))
      (old : previous s ≡ obj p) (v1 : same (get s "schema_version") (num 1) ≡ false)
      (v2 : same (get s "schema_version") (num 2) ≡ true)
      (agrees : candidate_matches_build host.digest evidence (obj p) ≡ ok tt)
      (transition : rollback_transition host.digest (obj s) at ≡ ok t) where
    -- What is left of the rollback when its checks have passed.
    abbrev pub remainder : Run Dict
    unfolding write finish_rollback
    remainder =
        write (λ d. record d { journal = some (new_journal s t) })
        >> finish_rollback host (new_journal s t)

    selected-remainder : (w : Data × Plan) → rollback_selected host evidence at s w ≡ remainder w
    unfolding rollback_selected write_journal remainder
    selected-remainder w =
        rw (transition, step.source_v2)
          (rw (v2, old, agrees)
            (rw step.target_v2 (
              continue_assoc (λ u. return (new_journal s t)) (finish_rollback host)
                (write (λ d. record d { journal = some (new_journal s t) }) w))))

    fresh-remainder :
        (w : Data × Plan)
        → w.0.active ≡ some (obj s)
        → rollback_fresh host evidence at w ≡ remainder w
    unfolding rollback_fresh
    fresh-remainder w active =
        let chosen =
          ap
            (λ b.
              branch b (rollback_legacy host evidence at s) (rollback_selected host evidence at s)
                w)
            v1 in
        rw (active_state-known host s w step.source active) chosen ∙ selected-remainder w

    rollback-remainder : (w : Data × Plan) → w.0 ≡ d0 → rollback host evidence at w ≡ remainder w
    unfolding rollback pending_or
    rollback-remainder (d, plan) h =
        let pending : d.journal ≡ none = ap (λ x. x.journal) h ∙ idle in
        ap (λ j. pending_or host evidence at j (d, plan)) pending
        ∙ fresh-remainder (d, plan) (ap (λ x. x.active) h ∙ stored)

    prepared :
        (d : Data)
        → d ≡ d0
        → Prepared host d0 s t r shown (record d { journal = some (new_journal s t) })
    prepared d h =
        (ap (λ x. x.active) h ∙ stored, refl, ap (λ x. x.deployments) h, ap (λ x. x.history) h)

    rollback-Triple :
        (calm : Bool)
        → Triple
            (With calm (λ d. d ≡ d0))
            (rollback host evidence at)
            (λ x w. (x ≡ t) × With calm (λ d. d ≡ finished host d0 s t r shown) w)
            (Failed calm (Sound host d0 s t r shown))
    unfolding remainder write
    rollback-Triple calm =
        same-Triple (λ w h. rollback-remainder w h.0)
          (bind-Triple (λ u. With calm (Between host d0 s t r shown))
            (access-Triple (Between host d0 s t r shown) (Sound host d0 s t r shown) calm
              (λ d h. inl (prepared d h)) (λ d h. inr (inr h)) (λ d h. inl (inl (prepared d h))))
            (λ u. finish_rollback-Triple host d0 s t r shown calm step facts new))

    -- The rollback without faults.
    rollback-finished :
        (rollback host evidence at (d0, [])).1 ≡ ok t
        × ((rollback host evidence at (d0, [])).0.0 ≡ finished host d0 s t r shown)
    rollback-finished =
        let (x, e, h) =
          returned-Post (λ x w. (x ≡ t) × With true (λ d. d ≡ finished host d0 s t r shown) w)
            (Failed true (Sound host d0 s t r shown)) (rollback host evidence at (d0, []))
            ((rollback-Triple true).holds (d0, []) (refl, λ e. refl)) (λ f. cc) in
        (e ∙ ap ok h.0, h.1.0)

    rollback-Sound :
        (plan : Plan) → Sound host d0 s t r shown (rollback host evidence at (d0, plan)).0.0
    rollback-Sound plan =
        either-Post (λ w. Sound host d0 s t r shown w.0)
          (λ x w. (x ≡ t) × With false (λ d. d ≡ finished host d0 s t r shown) w)
          (Failed false (Sound host d0 s t r shown)) (rollback host evidence at (d0, plan))
          (λ x w e. inr (inl e.1.0)) (λ w e. e.0)
          ((rollback-Triple false).holds (d0, plan) (refl, λ e. cc))

    rollback-IsDone :
        (plan : Plan) → IsDone (finished host d0 s t r shown) (rollback host evidence at (d0, plan))
    rollback-IsDone plan =
        Post-IsDone t (finished host d0 s t r shown) (Sound host d0 s t r shown)
          (rollback host evidence at (d0, plan))
          ((rollback-Triple false).holds (d0, plan) (refl, λ e. cc))

  -- What is on disk when the recoveries that follow a rollback with faults have had faults, too.
  abbrev pub interrupted : Data → (plan : Plan) → (retries : List Plan) → Data
  interrupted d0 plan retries = retry host retries (rollback host evidence at (d0, plan)).0.0

  -- The rollback of an accepted state whose dicts have no key twice, with a current and a previous
  -- deployment, of which the previous one agrees with its build, at a time that is not the empty
  -- text and for which there is no history entry, where no rollback is pending: when nothing fails,
  -- it returns the state with the two deployments exchanged, active.json holds that state, and no
  -- journal is left. Whichever writes fail: if the rollback returns, it leaves the data directory as
  -- without faults; and after it and any number of recoveries with faults of their own, a recovery
  -- without faults returns, and leaves the data directory either exactly as the rollback without
  -- faults leaves it, or exactly as it was before the rollback.
  pub rollback_is_atomic :
      (d0 : Data) (s c p : Dict) (plan : Plan) (retries : List Plan)
      → d0.active ≡ some (obj s)
      → d0.journal ≡ none
      → IsStateOf host.digest s
      → json_fields s ≡ true
      → current s ≡ obj c
      → previous s ≡ obj p
      → at ≢ ""
      → candidate_matches_build host.digest evidence (obj p) ≡ ok tt
      → lookup (history_name host (promote_at at p)) d0.history ≡ none
      → ((rollback host evidence at (d0, [])).1 ≡ ok (swapped c p at))
        × ((rollback host evidence at (d0, [])).0.0.active ≡ some (obj (swapped c p at)))
        × ((rollback host evidence at (d0, [])).0.0.journal ≡ none)
        × IsDone (rollback host evidence at (d0, [])).0.0 (rollback host evidence at (d0, plan))
        × ((x : Option Dict) × ((recover_pending_rollback host (interrupted d0 plan retries, [])).1
              ≡ ok x))
        × (((recover_pending_rollback host (interrupted d0 plan retries, [])).0.0
              ≡ (rollback host evidence at (d0, [])).0.0)
            ⊎ ((recover_pending_rollback host (interrupted d0 plan retries, [])).0.0 ≡ d0))
  unfolding json_fields is_json
  rollback_is_atomic d0 s c p plan retries stored idle hs json now old n agrees new =
      let target = swapped-IsStateOf host.digest s c p at hs json now old n in
      let v2 = IsStateOf-version host.digest s hs in
      let (shown, shows) = current_projection-shows host (swapped c p at) target in
      let facts = swapped-IsSelected host s c p shown at hs json now old n shows in
      let step : IsStep host s (swapped c p at) (promote_at at p) = record {
        source = IsStateOf-validate host.digest s hs;
        source_v2 = hs;
        target_v2 = target;
        same_source = same_refl (obj s) json;
        same_target =
            same_refl (obj (swapped c p at))
              (swapped-IsJson host.digest s c p at hs json now old n);
        journal = new_journal-IsJournal host.digest s c p at hs json now old n;
        transition = new_journal-IsTransition host.digest s c p at hs json now old n;
      } in
      let moved = rollback_transition-swapped host.digest s c p at hs json now old n in
      let (whole, end) =
        rollback-finished d0 s (swapped c p at) (promote_at at p) shown p step facts idle new stored
          old (not_v1 (get s "schema_version") v2) v2 agrees moved in
      let sound =
        rollback-Sound d0 s (swapped c p at) (promote_at at p) shown p step facts idle new stored
          old (not_v1 (get s "schema_version") v2) v2 agrees moved plan in
      let done =
        rollback-IsDone d0 s (swapped c p at) (promote_at at p) shown p step facts idle new stored
          old (not_v1 (get s "schema_version") v2) v2 agrees moved plan in
      let after =
        retry-Sound host d0 s (swapped c p at) (promote_at at p) shown step facts idle new retries
          (rollback host evidence at (d0, plan)).0.0 sound in
      let (x, returned, last) =
        recover-IsEnd host d0 s (swapped c p at) (promote_at at p) shown step facts idle new
          (retry host retries (rollback host evidence at (d0, plan)).0.0) after in
      (
        whole,
        ap (λ d. d.active) end,
        ap (λ d. d.journal) end,
        subst-IsDone (rollback host evidence at (d0, plan)) end done,
        (x, returned),
        elim last [ inl e ↦ inl (e ∙ sym end) | inr e ↦ inr e ],
      )
