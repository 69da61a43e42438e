-- ===== src/Executor/Rounds.antt =====
-- The loop of src/relinker/executors/sync.py, one round at a time.
use relinker.Prelude.{ℕ, zero, suc, ◌≡◌, refl, Option, none, some}
use relinker.Python.{Python, Value, Outcome, return, raise}
use relinker.Effects.{World, Action, pure, ◌>>=◌}
use relinker.Records.{RetryResult}
use relinker.Policy.{RetryPolicy}
use relinker.Exhaustion.{Final}
use relinker.Flow.{FinalKind, final, RetryFlow}
use relinker.Executor.{finish, act_on, round, loop}

module _ ⦃py : Python⦄ where
  -- The rest of the loop behind a round.
  abbrev pub rest :
      RetryPolicy
      → ℕ
      → Action Value
      → Outcome (RetryFlow × Option Final) × World
      → Option (Outcome Final × World)
  rest p fuel function (return (flow', none), w') = loop fuel p function flow' w'
  rest p fuel function (return (flow', some answer), w') = some (return answer, w')
  rest p fuel function (raise e, w') = some (raise e, w')

  pub loop-zero :
      (p : RetryPolicy) (function : Action Value) (flow : RetryFlow) (w : World)
      → loop zero p function flow w ≡ none
  unfolding loop
  loop-zero p function flow w = refl

  pub loop-rest :
      (p : RetryPolicy) (fuel : ℕ) (function : Action Value) (flow : RetryFlow) (w : World)
      → loop (suc fuel) p function flow w ≡ rest p fuel function (round p function flow w)
  unfolding loop
  loop-rest p fuel function flow w =
      by_outcome (round p function flow w).0 (round p function flow w).1
    where
      by_outcome :
          (r : Outcome (RetryFlow × Option Final)) (w' : World)
          → elim r [
            | return (flow', none) ↦ loop fuel p function flow' w'
            | return (flow', some answer) ↦ some (return answer, w')
            | raise e ↦ some (raise e, w')
          ]
            ≡ rest p fuel function (r, w')
      by_outcome (return (flow', none)) w' = refl
      by_outcome (return (flow', some answer)) w' = refl
      by_outcome (raise e) w' = refl

  module _ (policy : RetryPolicy) where
    -- An execution whose last step is `ending` gives its outcome.
    own_rest :
        (fuel : ℕ) (function : Action Value) (flow : RetryFlow) (o : Outcome Final) (w : World)
        → rest policy fuel function (((λ _. (o, w)) >>= λ answer. pure (flow, some answer)) w)
          ≡ some (o, w)
    unfolding ◌>>=◌ pure
    own_rest fuel function flow (return answer) w = refl
    own_rest fuel function flow (raise e) w = refl

    pub own_final_rest :
        (fuel : ℕ) (function : Action Value) (flow : RetryFlow) (kind : FinalKind) (r : RetryResult)
        (w : World)
        → rest policy fuel function (act_on policy (flow, final kind r) w)
          ≡ some (finish policy kind r w)
    unfolding act_on ◌>>=◌
    own_final_rest fuel function flow kind r w =
        own_rest fuel function flow (finish policy kind r w).0 (finish policy kind r w).1
