-- ===== src/Builders.antt =====
-- The builder methods of src/relinker/policy.py: each returns a new policy, or raises.
pub mod Exhaustions
pub mod Stops
pub mod Conditions
pub mod Delays
pub mod Hooks
use Prim.Native.String.{String}
use relinker.Prelude.{
  ℕ, Bool, true, false, not, Option, none, some, List, [], ◌∷◌, ◌++◌, if◌then◌else◌,
}
use relinker.Python.{Python, Float, Value, Error, Outcome, return, raise, invalid_config_error}
use relinker.Python.Outcomes.{◌>>=◌}
use relinker.Effects.{Action, pure}
use relinker.Records.{RetryResult, RetryEvent, EventName, EventFailureMode}
use relinker.Validation.{IntegerArgument, ensure_positive_int}
use relinker.Policy.{RetryPolicy, post_init, EventHandlerRegistration, return_last, raise_exhausted}

module _ ⦃py : Python⦄ where
  -- `_replace_exhaustion`; `replace` runs `__post_init__`, which the result passes if `self` did.
  unfoldable pub replace_exhaustion :
      RetryPolicy
      → (should_raise_last should_return_result : Bool) → Option (RetryResult → Action Value)
      → Option (RetryResult → Action (Option Error))
      → RetryPolicy
  replace_exhaustion p raise_last return_result callback factory = record p {
    should_raise_last = raise_last;
    should_return_result = return_result;
    exhausted_callback = callback;
    exhausted_exception_factory = factory;
  }

  pub raise_last : RetryPolicy → RetryPolicy
  unfolding replace_exhaustion
  raise_last p = replace_exhaustion p true false none none

  unfoldable pub return_result : RetryPolicy → RetryPolicy
  unfolding replace_exhaustion
  return_result p = replace_exhaustion p false true none none

  -- `on_exhausted_return`, and its alias `fallback`.
  pub on_exhausted_return : RetryPolicy → (RetryResult → Action Value) → RetryPolicy
  unfolding replace_exhaustion
  on_exhausted_return p callback = replace_exhaustion p false false (some callback) none

  -- `on_exhausted_return_value`, and its alias `fallback_value`.
  unfoldable pub on_exhausted_return_value : RetryPolicy → Value → RetryPolicy
  unfolding on_exhausted_return
  on_exhausted_return_value p v = on_exhausted_return p (λ r. pure v)

  -- `on_exhausted_raise`, once its argument is resolved to a factory.
  pub on_exhausted_raise : RetryPolicy → (RetryResult → Action (Option Error)) → RetryPolicy
  unfolding replace_exhaustion
  on_exhausted_raise p factory = replace_exhaustion p false false none (some factory)

  unfoldable pub raise_on_result_exhausted : RetryPolicy → RetryPolicy
  raise_on_result_exhausted p = record p { result_exhausted_behavior = raise_exhausted }

  unfoldable pub return_last_on_result_exhausted : RetryPolicy → RetryPolicy
  return_last_on_result_exhausted p = record p { result_exhausted_behavior = return_last }

  pub named : RetryPolicy → String → Outcome RetryPolicy
  named p name =
      if py.is_blank name
      then raise invalid_config_error
      else post_init (record p { name = some name })

  -- `keep_history`; an argument `none` keeps everything.
  pub keep_history : RetryPolicy → Option IntegerArgument → Outcome RetryPolicy
  keep_history p none = post_init (record p { history_limit = none })
  keep_history p (some maximum) = do
    n ← ensure_positive_int maximum
    post_init (record p { history_limit = some n })

  pub with_retry_budget : RetryPolicy → ℕ → String → Outcome RetryPolicy
  with_retry_budget p budget key =
      if py.is_blank key
      then raise invalid_config_error
      else post_init (record p { retry_budget = some budget; retry_budget_key = some key })

  pub without_retry_budget : RetryPolicy → Outcome RetryPolicy
  without_retry_budget p = post_init (record p { retry_budget = none; retry_budget_key = none })

  -- `on_event`, for a name and a failure mode that are valid and a handler that is synchronous.
  pub on_event :
      RetryPolicy
      → EventName
      → (RetryEvent → Action (Unit {0}))
      → EventFailureMode
      → Outcome RetryPolicy
  on_event p name handler failure_mode =
      let registration : EventHandlerRegistration = record {
        name = name;
        handler = handler;
        failure_mode = failure_mode;
      } in
      post_init (record p { event_handlers = p.event_handlers ++ (registration ∷ []) })
