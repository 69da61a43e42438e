-- ===== src/Context.antt =====
-- src/relinker/context/_shared.py and sync.py: `for attempt in policy` with a `with` block for each
-- attempt, in place of a call of a function.
pub mod Rounds
pub mod Parity
use Prim.Native.String.{String}
use relinker.Prelude.{ℕ, zero, suc, Bool, true, false, Option, none, some}
use relinker.Python.{Python, Value, Error, Outcome, return, raise, is_exception}
use relinker.Effects.{World, Action, pure, throw, branch, ◌>>=◌, ◌>>◌}
use relinker.Records.{RetryResult, is_some}
use relinker.Policy.{RetryPolicy}
use relinker.Exhaustion.{Final, finish_exhausted}
use relinker.Flow.{
  FinalKind, accept, reject, exhaust, Decision, wait, final, RetryFlow, new_flow, next_attempt,
  enter_attempt, after_exception, after_value,
}
use relinker.Executor.{sleep_before_retry}

module _ ⦃py : Python⦄ where
  -- `outcome` is there if `has_outcome` is set.
  pub record RetryBlockIterator : Type 0 where
    pub flow : RetryFlow
    pub finished : Bool
    pub result : Option RetryResult
    pub outcome : Option Final

  -- `_BaseRetryBlockIterator.__init__`
  pub new_iterator : RetryPolicy → String → Action RetryBlockIterator
  new_iterator policy name = do
    flow ← new_flow policy name
    pure (record { flow = flow; finished = false; result = none; outcome = none })

  -- `__next__`; `none` is StopIteration.
  pub next_block : RetryBlockIterator → Option RetryBlockIterator
  next_block it = elim it.finished [
    | true ↦ none
    | false ↦ some (record it { flow = next_attempt it.flow })
  ]

  -- `__enter__`
  pub enter_block : RetryPolicy → RetryBlockIterator → Action RetryBlockIterator
  enter_block policy it = do flow ← enter_attempt policy it.flow; pure (record it { flow = flow })

  -- `_finish`, with whether the exception is suppressed. Where ending the execution raises, that
  -- exception propagates from the block: by `raise`, or as the one that is in flight already.
  pub finish_block :
      RetryPolicy
      → RetryBlockIterator
      → FinalKind
      → RetryResult
      → Option Error
      → Action (RetryBlockIterator × Bool)
  finish_block policy it exhaust r error = do
    answer ← finish_exhausted policy r
    pure (record it { finished = true; result = some r; outcome = some answer }, is_some error)
  finish_block policy it reject r error =
      pure (record it { finished = true; result = some r }, false)
  finish_block policy it accept r error =
      pure (record it { finished = true; result = some r }, false)

  -- `__exit__` behind a decision.
  unfoldable pub act_on_block :
      RetryPolicy
      → RetryBlockIterator
      → Option Error
      → RetryFlow × Decision
      → Action (RetryBlockIterator × Bool)
  unfolding finish_block
  act_on_block policy it error (flow, wait plan) =
      sleep_before_retry policy plan >> pure (record it { flow = flow }, is_some error)
  act_on_block policy it error (flow, final kind r) =
      finish_block policy (record it { flow = flow }) kind r error

  -- `__exit__` with `_decide`, for the exception of the block or the value that it set.
  unfoldable pub exit_block :
      RetryPolicy
      → RetryBlockIterator
      → Option Error
      → Value
      → (has_result : Bool) → Action (RetryBlockIterator × Bool)
  unfolding act_on_block
  exit_block policy it none value has_result =
      after_value policy it.flow value has_result >>= act_on_block policy it none
  exit_block policy it (some e) value has_result =
      branch (is_exception e) (after_exception policy it.flow e >>= act_on_block policy it (some e))
        (pure (it, false))

  -- An exception of the block goes on unless `__exit__` suppressed it.
  abbrev pub unless_suppressed : Error → RetryBlockIterator × Bool → Action RetryBlockIterator
  unless_suppressed e (it, suppressed) = branch suppressed (pure it) (throw e)

  -- The end of a `with` block whose body set a value, set none, or raised.
  unfoldable pub leave_block :
      RetryPolicy → RetryBlockIterator → Outcome (Option Value) → Action RetryBlockIterator
  unfolding exit_block
  leave_block policy it (return (some v)) =
      exit_block policy it none v true >>= λ (it', _). pure it'
  leave_block policy it (return none) =
      exit_block policy it none py.none_value false >>= λ (it', _). pure it'
  leave_block policy it (raise e) =
      exit_block policy it (some e) py.none_value false >>= unless_suppressed e

  -- `with attempt: body`
  unfoldable pub with_block :
      RetryPolicy → Action (Option Value) → RetryBlockIterator → Action RetryBlockIterator
  unfolding enter_block leave_block
  with_block policy body it =
      enter_block policy it >>= λ entered. λ w. leave_block policy entered (body w).0 (body w).1

  -- `for attempt in policy: with attempt: body`, on fuel; `none` if the iterator would go on.
  unfoldable pub blocks :
      ℕ
      → RetryPolicy
      → Action (Option Value)
      → RetryBlockIterator
      → World
      → Option (Outcome RetryBlockIterator × World)
  unfolding next_block with_block
  blocks zero policy body it w = elim (next_block it) [
    | none ↦ some (return it, w)
    | some started ↦ none
  ]
  blocks (suc fuel) policy body it w = elim (next_block it) [
    | none ↦ some (return it, w)
    | some started ↦
        let (r, w') = with_block policy body started w in
        elim r [ return it' ↦ blocks fuel policy body it' w' | raise e ↦ some (raise e, w') ]
  ]

  -- A whole `for` statement.
  unfoldable pub run_blocks :
      ℕ
      → RetryPolicy
      → String
      → Action (Option Value)
      → World
      → Option (Outcome RetryBlockIterator × World)
  unfolding new_iterator blocks
  run_blocks fuel policy name body w =
      let (r, w') = new_iterator policy name w in
      elim r [ return it ↦ blocks fuel policy body it w' | raise e ↦ some (raise e, w') ]
