-- ===== src/Builders/Stops.antt =====
-- The builders of src/relinker/policy.py that set or extend the stop strategy.
pub mod Combined
use relinker.Python.{Python, Outcome}
use relinker.Python.Outcomes.{◌>>=◌}
use relinker.Validation.{IntegerArgument, Object}
use relinker.Stop.{
  StopStrategy, stop_forever, nil, cons, new_stop_after_attempt, new_stop_after_delay, new_any_stop,
  new_all_stop,
}
use relinker.Stop.Flatten.{flatten_any_stop_strategies, flatten_all_stop_strategies}
use relinker.Policy.{RetryPolicy, post_init}

module _ ⦃py : Python⦄ where
  -- `replace(self, stop_strategy=strategy)`, and `stop_when`.
  pub stop_when : RetryPolicy → StopStrategy → Outcome RetryPolicy
  stop_when p strategy = post_init (record p { stop_strategy = strategy })

  pub attempts : RetryPolicy → IntegerArgument → Outcome RetryPolicy
  unfolding stop_when
  attempts p maximum = do s ← new_stop_after_attempt maximum; stop_when p s

  pub forever : RetryPolicy → Outcome RetryPolicy
  unfolding stop_when
  forever p = stop_when p stop_forever

  pub max_time : RetryPolicy → Object → Outcome RetryPolicy
  unfolding stop_when
  max_time p seconds = do s ← new_stop_after_delay seconds; stop_when p s

  pub or_stop_after_attempts : RetryPolicy → IntegerArgument → Outcome RetryPolicy
  unfolding stop_when
  or_stop_after_attempts p maximum = do
    s ← new_stop_after_attempt maximum
    either ← new_any_stop (flatten_any_stop_strategies (cons p.stop_strategy (cons s nil)))
    stop_when p either

  pub or_stop_after_time : RetryPolicy → Object → Outcome RetryPolicy
  unfolding stop_when
  or_stop_after_time p seconds = do
    s ← new_stop_after_delay seconds
    either ← new_any_stop (flatten_any_stop_strategies (cons p.stop_strategy (cons s nil)))
    stop_when p either

  pub and_stop_after_attempts : RetryPolicy → IntegerArgument → Outcome RetryPolicy
  unfolding stop_when
  and_stop_after_attempts p maximum = do
    s ← new_stop_after_attempt maximum
    both ← new_all_stop (flatten_all_stop_strategies (cons p.stop_strategy (cons s nil)))
    stop_when p both

  pub and_stop_after_time : RetryPolicy → Object → Outcome RetryPolicy
  unfolding stop_when
  and_stop_after_time p seconds = do
    s ← new_stop_after_delay seconds
    both ← new_all_stop (flatten_all_stop_strategies (cons p.stop_strategy (cons s nil)))
    stop_when p both
