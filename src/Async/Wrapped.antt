-- ===== src/Async/Wrapped.antt =====
-- The asynchronous wrapper of src/relinker/internal/decorator.py and the asynchronous blocks of
-- src/relinker/context/async_.py against the synchronous ones.
use Prim.Native.String.{String}
use relinker.Prelude.{ℕ, zero, suc, ◌≡◌, refl, ◌∙◌, ap, Bool, true, false, Option, none, some}
use relinker.Python.{Python, Value, Error, Outcome, return, raise, is_exception}
use relinker.Effects.{World, Action, Candidate, pure, branch, ◌>>=◌}
use relinker.Effects.Laws.{bind_same}
use relinker.Policy.{RetryPolicy}
use relinker.Builders.{return_result}
use relinker.Exhaustion.{Final}
use relinker.Flow.{Decision, wait, final, RetryFlow, after_exception, after_value}
use relinker.Decorator.{RetryStats, after_tracked, sync_wrapper}
use relinker.Context.{
  RetryBlockIterator, new_iterator, next_block, enter_block, act_on_block, exit_block, leave_block,
  with_block, blocks, run_blocks, unless_suppressed,
}
use relinker.Async.{
  await, async_wrapper, async_act_on_block, async_exit_block, async_leave_block, async_with_block,
  async_blocks, async_run_blocks,
}
use relinker.Async.Parity.{SleepsAlike, IsAsync, sleep_same, then_same, execute_async-execute_sync}

module _ ⦃py : Python⦄ where
  abbrev recorded :
      RetryPolicy
      → RetryStats
      → Option (Outcome Final × World)
      → Option ((Outcome Final × World) × RetryStats)
  recorded p stats o = elim o [ none ↦ none | some answer ↦ some (after_tracked p stats answer) ]

  return_result-SleepsAlike : (p : RetryPolicy) → SleepsAlike p → SleepsAlike (return_result p)
  unfolding return_result relinker.Builders.replace_exhaustion
  return_result-SleepsAlike p h = record { alike = h.alike }

  -- If the two sleepers of a policy do the same, the asynchronous wrapper does on a function that
  -- returns nothing but awaitables what the synchronous wrapper does.
  pub async_wrapper-sync_wrapper :
      (p : RetryPolicy) (fuel : ℕ) (stats : RetryStats) (name : String)
      (function : Action (Candidate Value)) (w : World)
      → SleepsAlike p
      → IsAsync function
      → async_wrapper fuel p stats name function w
        ≡ sync_wrapper fuel p stats name (function >>= await) w
  unfolding async_wrapper sync_wrapper
  async_wrapper-sync_wrapper p fuel stats name function w alike only = ap (recorded p stats) (
      execute_async-execute_sync (return_result p) fuel name function w
        (return_result-SleepsAlike p alike) only)

  module _ (p : RetryPolicy) (alike : SleepsAlike p) where
    act_on_block_same :
        (it : RetryBlockIterator) (error : Option Error) (d : RetryFlow × Decision) (w : World)
        → async_act_on_block p it error d w ≡ act_on_block p it error d w
    unfolding async_act_on_block act_on_block
    act_on_block_same it error (flow, wait plan) w =
        then_same p alike _ _ _ w (sleep_same p alike plan w)
    act_on_block_same it error (flow, final kind r) w = refl

    exit_same :
        (it : RetryBlockIterator) (error : Option Error) (v : Value) (has_result : Bool) (w : World)
        → async_exit_block p it error v has_result w ≡ exit_block p it error v has_result w
    unfolding async_exit_block exit_block branch
    exit_same it none v has_result w =
        bind_same _ _ (after_value p it.flow v has_result) w (act_on_block_same it none)
    exit_same it (some e) v has_result w = by_class (is_exception e)
      where
        by_class :
            (b : Bool)
            → branch b
                (after_exception p it.flow e >>= async_act_on_block p it (some e))
                (pure (it, false))
                w
              ≡ branch b
                  (after_exception p it.flow e >>= act_on_block p it (some e))
                  (pure (it, false))
                  w
        by_class true =
            bind_same _ _ (after_exception p it.flow e) w (act_on_block_same it (some e))
        by_class false = refl

    abbrev left :
        (RetryBlockIterator × Bool → Action RetryBlockIterator)
        → Outcome (RetryBlockIterator × Bool) × World
        → Outcome RetryBlockIterator × World
    left f o = ((λ _. o) >>= f) o.1

    leave_same :
        (it : RetryBlockIterator) (r : Outcome (Option Value)) (w : World)
        → async_leave_block p it r w ≡ leave_block p it r w
    unfolding async_leave_block leave_block ◌>>=◌
    leave_same it (return (some v)) w =
        ap (left (λ (it', _). pure it')) (exit_same it none v true w)
    leave_same it (return none) w =
        ap (left (λ (it', _). pure it')) (exit_same it none py.none_value false w)
    leave_same it (raise e) w =
        ap (left (unless_suppressed e)) (exit_same it (some e) py.none_value false w)

    with_same :
        (body : Action (Option Value)) (it : RetryBlockIterator) (w : World)
        → async_with_block p body it w ≡ with_block p body it w
    unfolding async_with_block with_block
    with_same body it w =
        bind_same _ _ (enter_block p it) w λ entered w'. leave_same entered (body w').0 (body w').1

    module _ (body : Action (Option Value)) where
      abbrev Answer : Type 0
      Answer = Option (Outcome RetryBlockIterator × World)

      abbrev step :
          (RetryBlockIterator → World → Answer) → Outcome RetryBlockIterator × World → Answer
      step more o = let (r, w) = o in elim r [ return it ↦ more it w | raise e ↦ some (raise e, w) ]

      step_same :
          (more others : RetryBlockIterator → World → Answer)
          → ((it : RetryBlockIterator) (w : World) → more it w ≡ others it w)
          → (r : Outcome RetryBlockIterator) (w : World) → step more (r, w) ≡ step others (r, w)
      step_same more others h (return it) w = h it w
      step_same more others h (raise e) w = refl

      -- One block after another, by what follows a block.
      abbrev next_of :
          (RetryBlockIterator → World → Outcome RetryBlockIterator × World)
          → (RetryBlockIterator → World → Answer)
          → RetryBlockIterator
          → World
          → Option RetryBlockIterator
          → Answer
      next_of block more it w started = elim started [
        | none ↦ some (return it, w)
        | some s ↦ step more (block s w)
      ]

      next_same :
          (more others : RetryBlockIterator → World → Answer) (it : RetryBlockIterator) (w : World)
          → ((it : RetryBlockIterator) (w : World) → more it w ≡ others it w)
          → (started : Option RetryBlockIterator)
          → next_of (async_with_block p body) more it w started
            ≡ next_of (with_block p body) others it w started
      next_same more others it w h none = refl
      next_same more others it w h (some s) =
          ap (step more) (with_same body s w)
          ∙ step_same more others h (with_block p body s w).0 (with_block p body s w).1

      blocks_same :
          (fuel : ℕ) (it : RetryBlockIterator) (w : World)
          → async_blocks fuel p body it w ≡ blocks fuel p body it w
      unfolding async_blocks blocks
      blocks_same zero it w = refl
      blocks_same (suc fuel) it w =
          next_same (async_blocks fuel p body) (blocks fuel p body) it w (blocks_same fuel)
            (next_block it)

  -- An `async for` statement over asynchronous retry blocks comes to what the `for` statement
  -- with the same body does, if awaiting the asynchronous sleeper does what the synchronous one
  -- does.
  pub async_run_blocks-run_blocks :
      (p : RetryPolicy) (fuel : ℕ) (name : String) (body : Action (Option Value)) (w : World)
      → SleepsAlike p
      → async_run_blocks fuel p name body w ≡ run_blocks fuel p name body w
  unfolding async_run_blocks run_blocks
  async_run_blocks-run_blocks p fuel name body w alike =
      step_same p alike body (async_blocks fuel p body) (blocks fuel p body)
        (blocks_same p alike body fuel) (new_iterator p name w).0 (new_iterator p name w).1
