-- ===== src/Executor.antt =====
-- src/relinker/executors/sync.py: the loop that calls the function, sleeps and calls again.
pub mod Terminates
pub mod Rounds
use Prim.Native.String.{String}
use relinker.Prelude.{ℕ, zero, suc, Bool, true, false, Option, none, some, if◌then◌else◌}
use relinker.Python.{Python, Value, Error, Outcome, return, raise, is_exception}
use relinker.Effects.{World, Action, pure, branch, on_error, ◌>>=◌, ◌>>◌}
use relinker.Records.{RetryResult}
use relinker.Policy.{RetryPolicy}
use relinker.Exhaustion.{Final, value, whole, finish_exhausted, raise_or_value}
use relinker.Wait.{RetryWaitPlan, release_retry_wait}
use relinker.Flow.{
  FinalKind, accept, reject, exhaust, Decision, wait, final, RetryFlow, new_flow, next_attempt,
  enter_attempt, after_exception, after_value,
}

module _ ⦃py : Python⦄ where
  -- `sleep_before_retry`
  unfoldable pub sleep_before_retry : RetryPolicy → RetryWaitPlan → Action (Unit {0})
  sleep_before_retry policy plan =
      on_error (policy.sleep plan.total_delay) (release_retry_wait plan)

  -- The `except Exception` and `else` clauses around the call of the function.
  unfoldable pub after_call :
      RetryPolicy → RetryFlow → Outcome Value × World → Outcome (RetryFlow × Decision) × World
  after_call policy flow (return v, w) = after_value policy flow v true w
  after_call policy flow (raise e, w) =
      if is_exception e then after_exception policy flow e w else (raise e, w)

  -- One round of the loop up to its decision.
  unfoldable pub run_attempt :
      RetryPolicy → Action Value → RetryFlow → Action (RetryFlow × Decision)
  run_attempt policy function flow = do
    entered ← enter_attempt policy (next_attempt flow)
    λ w. after_call policy entered (function w)

  -- What follows a final decision.
  unfoldable pub finish : RetryPolicy → FinalKind → RetryResult → Action Final
  finish policy exhaust r = finish_exhausted policy r
  finish policy reject r =
      branch policy.should_return_result (pure (whole r)) (raise_or_value r r.error)
  finish policy accept r =
      branch policy.should_return_result (pure (whole r)) (pure (value r.value))

  -- The rest of the round: sleep and go on, or end.
  unfoldable pub act_on : RetryPolicy → RetryFlow × Decision → Action (RetryFlow × Option Final)
  act_on policy (flow, wait plan) = sleep_before_retry policy plan >> pure (flow, none)
  act_on policy (flow, final kind r) = do answer ← finish policy kind r; pure (flow, some answer)

  unfoldable pub round : RetryPolicy → Action Value → RetryFlow → Action (RetryFlow × Option Final)
  round policy function flow = run_attempt policy function flow >>= act_on policy

  -- The `while True` loop, on fuel; `none` if it has made so many rounds and would go on.
  unfoldable pub loop :
      ℕ → RetryPolicy → Action Value → RetryFlow → World → Option (Outcome Final × World)
  loop zero policy function flow w = none
  loop (suc fuel) policy function flow w =
      let (r, w') = round policy function flow w in
      elim r [
        | return (flow', none) ↦ loop fuel policy function flow' w'
        | return (flow', some answer) ↦ some (return answer, w')
        | raise e ↦ some (raise e, w')
      ]

  -- `execute_sync`
  unfoldable pub execute_sync :
      ℕ → RetryPolicy → String → Action Value → World → Option (Outcome Final × World)
  execute_sync fuel policy function_name function w =
      let (r, w') = new_flow policy function_name w in
      elim r [ return flow ↦ loop fuel policy function flow w' | raise e ↦ some (raise e, w') ]
