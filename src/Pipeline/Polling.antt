-- ===== src/Pipeline/Polling.antt =====
-- The fuel of `_poll` of src/homeops_ai/pipeline.py is enough.
use homeops_ai.Prelude.{
  ℕ, zero, suc, ◌+◌, ◌-◌, ◌≤◌, ◌≡◌, refl, Bool, false, Option, none, some, arith, length,
  Bool-cases, inl, inr,
}
use homeops_ai.Prelude.Result.{Result, ok, err}
use homeops_ai.Prelude.Effect.{continue, lift, ◌>>=◌}
use homeops_ai.Value.{Dict}
use homeops_ai.Pipeline.{Raised}
use homeops_ai.Pipeline.Receiver.{answer_of}
use homeops_ai.Pipeline.Run.{World, Env, Run, polled, logged, call}
use homeops_ai.Pipeline.Resume.{status_body, read_status, found_or, in_time, poll_rounds, poll}

-- The monotonic clock advances by at least one unit from one event to the next.
abbrev pub IsAdvancing : Env → Type 0
IsAdvancing env = (k : ℕ) → suc (env.monotonic k) ≤ env.monotonic (suc k)

module _ (env : Env) (request : Dict) (terminal_only : Bool) where
  -- What follows the answer to a poll, with what polls again.
  abbrev answered : Run Dict → Dict → Run Dict
  answered again response =
      lift (read_status terminal_only request response) >>= λ status. found_or again status

  read-same :
      (again more : Run Dict) (v : World) (r : Result Raised (Option Dict))
      → again v ≡ more v
      → continue (λ o. found_or again o) (v, r) ≡ continue (λ o. found_or more o) (v, r)
  read-same again more v (ok none) h = h
  read-same again more v (ok (some r)) h = refl
  read-same again more v (err e) h = refl

  answer-same :
      (again more : Run Dict) (v : World) (r : Result Raised Dict)
      → again v ≡ more v
      → continue (answered again) (v, r) ≡ continue (answered more) (v, r)
  answer-same again more v (ok d) h = read-same again more v (read_status terminal_only request d) h
  answer-same again more v (err e) h = refl

  late : (w : World) → env.deadline ≤ env.monotonic (length w.log) → in_time env w ≡ false
  late w h = ground arith

  rounds-enough :
      IsAdvancing env
      → (n m : ℕ) (w : World) → n ≤ m
      → env.deadline ≤ env.monotonic (length w.log) + n
      → poll_rounds env request terminal_only m w ≡ poll_rounds env request terminal_only n w
  unfolding poll_rounds call
  rounds-enough adv zero zero w l h = refl
  rounds-enough adv zero (suc m) w l h = rw (late w (omega arith)) refl
  rounds-enough adv (suc n) zero w l h = absurd (omega arith)
  rounds-enough adv (suc n) (suc m) w l h =
      let step = adv (length w.log) in
      let v = logged (polled (status_body request)) w in
      let same = rounds-enough adv n m v (omega arith) (omega arith) in
      elim (Bool-cases (in_time env w)) [
        | inl e ↦ rw e (
            answer-same (poll_rounds env request terminal_only m)
              (poll_rounds env request terminal_only n) v (answer_of (env.receiver (length w.log)))
              same)
        | inr e ↦ rw e refl
      ]

  -- If the monotonic clock advances by at least one unit with each event, the loop of `_poll` ends
  -- within as many rounds as units are left before the deadline: every larger number of rounds gives
  -- the run that `poll` gives.
  pub poll-poll_rounds :
      (w : World) (n : ℕ)
      → IsAdvancing env
      → (env.deadline - env.monotonic (length w.log)) ≤ n
      → poll_rounds env request terminal_only n w ≡ poll env request terminal_only w
  unfolding poll
  poll-poll_rounds w n adv l =
      rounds-enough adv (env.deadline - env.monotonic (length w.log)) n w l (omega arith)
