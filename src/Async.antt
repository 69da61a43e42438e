-- ===== src/Async.antt =====
-- src/relinker/executors/async_.py, context/async_.py and the asynchronous wrapper of
-- internal/decorator.py. To await an awaitable is to run it: what other tasks do meanwhile is part
-- of what its run does to the world.
pub mod Parity
pub mod Contract
pub mod Wrapped
pub mod Testing
use Prim.Native.String.{String}
use relinker.Prelude.{ℕ, zero, suc, Bool, true, false, Option, none, some, if◌then◌else◌}
use relinker.Python.{Python, Value, Error, Outcome, return, raise, is_exception}
use relinker.Effects.{
  World, Action, Candidate, ensure_awaitable, pure, branch, on_error, ◌>>=◌, ◌>>◌,
}
use relinker.Records.{is_some}
use relinker.Policy.{RetryPolicy}
use relinker.Builders.{return_result}
use relinker.Exhaustion.{Final}
use relinker.Wait.{RetryWaitPlan, release_retry_wait}
use relinker.Flow.{
  Decision, wait, final, RetryFlow, new_flow, next_attempt, enter_attempt, after_exception,
  after_value,
}
use relinker.Executor.{finish}
use relinker.Decorator.{RetryStats, after_tracked}
use relinker.Context.{
  RetryBlockIterator, new_iterator, next_block, enter_block, finish_block, unless_suppressed,
}

module _ ⦃py : Python⦄ where
  -- `await ensure_awaitable_…(candidate)`
  abbrev pub await : {A : Type 0} → Candidate A → Action A
  await candidate = ensure_awaitable candidate >>= λ m. m

  unfoldable pub async_sleep_before_retry : RetryPolicy → RetryWaitPlan → Action (Unit {0})
  async_sleep_before_retry policy plan =
      on_error (policy.async_sleep plan.total_delay >>= await) (release_retry_wait plan)

  -- The inner `except Exception` and `else` clauses, around the `await`.
  unfoldable pub after_await :
      RetryPolicy → RetryFlow → Outcome Value × World → Outcome (RetryFlow × Decision) × World
  after_await policy flow (return v, w) = after_value policy flow v true w
  after_await policy flow (raise e, w) =
      if is_exception e then after_exception policy flow e w else (raise e, w)

  -- The outer clauses, around the call: what it returned is checked outside of every `try`.
  unfoldable pub after_candidate :
      RetryPolicy
      → RetryFlow
      → Outcome (Candidate Value) × World
      → Outcome (RetryFlow × Decision) × World
  after_candidate policy flow (return candidate, w) =
      (ensure_awaitable candidate >>= λ m. λ w'. after_await policy flow (m w')) w
  after_candidate policy flow (raise e, w) =
      if is_exception e then after_exception policy flow e w else (raise e, w)

  unfoldable pub async_attempt :
      RetryPolicy → Action (Candidate Value) → RetryFlow → Action (RetryFlow × Decision)
  async_attempt policy function flow = do
    entered ← enter_attempt policy (next_attempt flow)
    λ w. after_candidate policy entered (function w)

  -- The rest of the round; the end of an execution is in the words of the synchronous one.
  unfoldable pub async_act_on :
      RetryPolicy → RetryFlow × Decision → Action (RetryFlow × Option Final)
  async_act_on policy (flow, wait plan) = async_sleep_before_retry policy plan >> pure (flow, none)
  async_act_on policy (flow, final kind r) = do
    answer ← finish policy kind r
    pure (flow, some answer)

  unfoldable pub async_round :
      RetryPolicy → Action (Candidate Value) → RetryFlow → Action (RetryFlow × Option Final)
  async_round policy function flow = async_attempt policy function flow >>= async_act_on policy

  -- The `while True` loop, on fuel.
  unfoldable pub async_loop :
      ℕ
      → RetryPolicy
      → Action (Candidate Value)
      → RetryFlow
      → World
      → Option (Outcome Final × World)
  async_loop zero policy function flow w = none
  async_loop (suc fuel) policy function flow w =
      let (r, w') = async_round policy function flow w in
      elim r [
        | return (flow', none) ↦ async_loop fuel policy function flow' w'
        | return (flow', some answer) ↦ some (return answer, w')
        | raise e ↦ some (raise e, w')
      ]

  unfoldable pub execute_async :
      ℕ → RetryPolicy → String → Action (Candidate Value) → World → Option (Outcome Final × World)
  execute_async fuel policy function_name function w =
      let (r, w') = new_flow policy function_name w in
      elim r [
        | return flow ↦ async_loop fuel policy function flow w'
        | raise e ↦ some (raise e, w')
      ]

  -- `async_wrapper`
  unfoldable pub async_wrapper :
      ℕ
      → RetryPolicy
      → RetryStats
      → String
      → Action (Candidate Value)
      → World
      → Option ((Outcome Final × World) × RetryStats)
  async_wrapper fuel policy stats name function w =
      elim (execute_async fuel (return_result policy) name function w) [
        | none ↦ none
        | some answer ↦ some (after_tracked policy stats answer)
      ]

  -- `__aexit__` behind a decision.
  unfoldable pub async_act_on_block :
      RetryPolicy
      → RetryBlockIterator
      → Option Error
      → RetryFlow × Decision
      → Action (RetryBlockIterator × Bool)
  async_act_on_block policy it error (flow, wait plan) =
      async_sleep_before_retry policy plan >> pure (record it { flow = flow }, is_some error)
  async_act_on_block policy it error (flow, final kind r) =
      finish_block policy (record it { flow = flow }) kind r error

  unfoldable pub async_exit_block :
      RetryPolicy
      → RetryBlockIterator
      → Option Error
      → Value
      → (has_result : Bool) → Action (RetryBlockIterator × Bool)
  async_exit_block policy it none value has_result =
      after_value policy it.flow value has_result >>= async_act_on_block policy it none
  async_exit_block policy it (some e) value has_result =
      branch (is_exception e)
        (after_exception policy it.flow e >>= async_act_on_block policy it (some e))
        (pure (it, false))

  -- The end of an `async with` block.
  unfoldable pub async_leave_block :
      RetryPolicy → RetryBlockIterator → Outcome (Option Value) → Action RetryBlockIterator
  async_leave_block policy it (return (some v)) =
      async_exit_block policy it none v true >>= λ (it', _). pure it'
  async_leave_block policy it (return none) =
      async_exit_block policy it none py.none_value false >>= λ (it', _). pure it'
  async_leave_block policy it (raise e) =
      async_exit_block policy it (some e) py.none_value false >>= unless_suppressed e

  -- `async with attempt: body`
  unfoldable pub async_with_block :
      RetryPolicy → Action (Option Value) → RetryBlockIterator → Action RetryBlockIterator
  async_with_block policy body it = enter_block policy it >>= λ entered.
      λ w. async_leave_block policy entered (body w).0 (body w).1

  -- `async for attempt in policy: async with attempt: body`, on fuel; `__anext__` is `next_block`.
  unfoldable pub async_blocks :
      ℕ
      → RetryPolicy
      → Action (Option Value)
      → RetryBlockIterator
      → World
      → Option (Outcome RetryBlockIterator × World)
  async_blocks zero policy body it w = elim (next_block it) [
    | none ↦ some (return it, w)
    | some started ↦ none
  ]
  async_blocks (suc fuel) policy body it w = elim (next_block it) [
    | none ↦ some (return it, w)
    | some started ↦
        let (r, w') = async_with_block policy body started w in
        elim r [ return it' ↦ async_blocks fuel policy body it' w' | raise e ↦ some (raise e, w') ]
  ]

  unfoldable pub async_run_blocks :
      ℕ
      → RetryPolicy
      → String
      → Action (Option Value)
      → World
      → Option (Outcome RetryBlockIterator × World)
  async_run_blocks fuel policy name body w =
      let (r, w') = new_iterator policy name w in
      elim r [ return it ↦ async_blocks fuel policy body it w' | raise e ↦ some (raise e, w') ]
