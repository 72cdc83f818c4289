-- ===== src/Pipeline/CommitOnce.antt =====
-- That a commit is applied at most once, `_process_commit` of src/homeops_ai/pipeline.py: any number of
-- runs over a journal that stays, whatever files, policies and selections they meet.
use homeops_ai.Prelude.{
  ◌≤◌, ◌≡◌, refl, Option, none, some, List, [], ◌∷◌, Bool-cases, inl, inr, arith,
}
use homeops_ai.Prelude.Result.{Result, ok, err}
use homeops_ai.Value.{Value, Dict, get}
use homeops_ai.Pipeline.{Raised, is_terminal}
use homeops_ai.Pipeline.Commit.{
  Files, Host, Server, process_commit, when_checked, apply, check_commit,
}

-- What one run meets.
pub record Visit : Type 0 where
  pub host : Host
  pub policy : Dict
  pub files : Files

-- The state after a run for each of the visits, in order.
abbrev pub visits : List Visit → Server → Server
visits [] s = s
visits (v ∷ vs) s = visits vs (process_commit v.host v.policy v.files s).0

-- Without a journal nothing has been promoted.
pub record IsOnce (s : Server) : Type 0 where
  pub at_most : s.promotions ≤ 1
  pub unwritten : s.journal ≡ none → s.promotions ≡ 0

module _ (host : Host) (policy : Dict) (files : Files) where
  apply-IsOnce :
      (o : Option Value) (s : Server)
      → s.journal ≡ o
      → IsOnce s
      → IsOnce (apply host policy files o s).0
  unfolding apply
  apply-IsOnce (some j) s e h = h
  apply-IsOnce none s e h =
      let z = h.unwritten e in record { at_most = omega arith; unwritten = λ x. cc }

  when-IsOnce :
      (r : Result Raised (Unit {0})) (s : Server)
      → IsOnce s
      → IsOnce (when_checked host policy files r s).0
  unfolding when_checked
  when-IsOnce (err e) s h = h
  when-IsOnce (ok u) s h = apply-IsOnce s.journal s refl h

  process-IsOnce : (s : Server) → IsOnce s → IsOnce (process_commit host policy files s).0
  unfolding process_commit
  process-IsOnce s h = elim (Bool-cases (is_terminal (get files.ready "outcome"))) [
    | inl e ↦ rw e h
    | inr e ↦ rw e (when-IsOnce (check_commit host policy files) s h)
  ]

visits-IsOnce : (vs : List Visit) (s : Server) → IsOnce s → IsOnce (visits vs s)
visits-IsOnce [] s h = h
visits-IsOnce (v ∷ vs) s h =
    visits-IsOnce vs (process_commit v.host v.policy v.files s).0
      (process-IsOnce v.host v.policy v.files s h)

-- However often the commit of a request is processed, and whatever files, policies, selections and
-- failures the runs meet, `promote` is called at most once, as long as the journal stays.
pub promotes_at_most_once :
    (vs : List Visit) → (visits vs (record { journal = none; promotions = 0 })).promotions ≤ 1
promotes_at_most_once vs =
    (visits-IsOnce vs (record { journal = none; promotions = 0 })
      (record { at_most = omega arith; unwritten = λ x. refl })).at_most
