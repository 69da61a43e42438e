-- ===== src/Exhaustion.antt =====
-- src/relinker/internal/exhaustion.py: what an execution that is exhausted ends in.
pub mod Signals
use relinker.Prelude.{ℕ, Bool, true, false, not, ◌&&◌, ◌||◌, Option, none, some, if◌then◌else◌}
use relinker.Python.{
  Python, Float, Value, ◌+F◌, Error, exception_object, Link, absent, present, Outcome, return,
  raise, invalid_config_error, new_error, retry_exhausted, is_exception, is_try_again,
}
use relinker.Effects.{Action, pure, throw, branch, ◌>>=◌}
use relinker.Records.{RetryResult, exhausted_by_result}
use relinker.Stop.{StopStrategy, should_stop}
use relinker.Policy.{RetryPolicy, ResultExhaustedBehavior, return_last, raise_exhausted}

-- An exception that can stand for a TryAgain signal: an Exception that is no TryAgain itself.
abbrev pub is_operational : Error → Bool
is_operational e = is_exception e && not (is_try_again e)

abbrev pub usable : Link → Option Error
usable absent = none
usable (present e) = if is_operational e then some e else none

-- The cause, else the context unless it is suppressed, else the signal itself.
abbrev pub first_usable : Option Error → Bool → Option Error → Error → Error
first_usable (some cause) suppress context signal = cause
first_usable none false (some context) signal = context
first_usable none _ _ signal = signal

-- `resolve_final_error` of an exception.
pub resolve_final_error : Error → Error
resolve_final_error (exception_object class ident cause context suppress) =
    let signal = exception_object class ident cause context suppress in
    if is_try_again signal
    then first_usable (usable cause) suppress (usable context) signal
    else signal

module _ ⦃py : Python⦄ where
  -- What an execution returns: a value, or the RetryResult itself.
  pub data Final : Type 0 where
    value : Value → Final
    whole : RetryResult → Final

  -- `should_stop_before_sleep`
  unfoldable pub should_stop_before_sleep : StopStrategy → ℕ → (elapsed delay : Float) → Action Bool
  should_stop_before_sleep strategy n elapsed delay = should_stop strategy n (elapsed +F delay)

  -- `raise exception`, of what the factory returned.
  abbrev pub raise_made : Option Error → Action Final
  raise_made none = throw invalid_config_error
  raise_made (some e) = throw e

  abbrev raises_on_result : ResultExhaustedBehavior → Bool
  raises_on_result raise_exhausted = true
  raises_on_result return_last = false

  -- The last two tests of `finish_exhausted`.
  unfoldable pub finish_default : RetryPolicy → RetryResult → Action Final
  finish_default policy r =
      branch (exhausted_by_result r && raises_on_result policy.result_exhausted_behavior)
        (throw (new_error retry_exhausted)) (pure (value r.value))

  unfoldable pub finish_error : RetryPolicy → RetryResult → Option Error → Action Final
  unfolding finish_default
  finish_error policy r none = finish_default policy r
  finish_error policy r (some e) =
      branch policy.should_raise_last (throw e) (finish_default policy r)

  unfoldable pub finish_made :
      RetryPolicy → RetryResult → Option (RetryResult → Action (Option Error)) → Action Final
  unfolding finish_error
  finish_made policy r none = finish_error policy r r.error
  finish_made policy r (some factory) = factory r >>= raise_made

  unfoldable pub finish_fallback :
      RetryPolicy → RetryResult → Option (RetryResult → Action Value) → Action Final
  unfolding finish_made
  finish_fallback policy r none = finish_made policy r policy.exhausted_exception_factory
  finish_fallback policy r (some callback) = callback r >>= λ v. pure (value v)

  -- `finish_exhausted`
  unfoldable pub finish_exhausted : RetryPolicy → RetryResult → Action Final
  unfolding finish_fallback
  finish_exhausted policy r =
      branch policy.should_return_result (pure (whole r))
        (finish_fallback policy r policy.exhausted_callback)

  -- `raise result.error` where there is one, else `return result.value`.
  unfoldable pub raise_or_value : RetryResult → Option Error → Action Final
  raise_or_value r none = pure (value r.value)
  raise_or_value r (some e) = throw e

  -- `resolve_tracked_result`
  unfoldable pub resolve_tracked_result : RetryPolicy → RetryResult → Action Final
  unfolding finish_exhausted raise_or_value
  resolve_tracked_result policy r =
      branch policy.should_return_result (pure (whole r))
        (branch r.exhausted (finish_exhausted policy r) (raise_or_value r r.error))
