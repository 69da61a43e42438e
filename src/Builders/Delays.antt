-- ===== src/Builders/Delays.antt =====
-- The builders of src/relinker/policy.py that set or extend the delay strategy.
use relinker.Prelude.{ℕ, Option, List}
use relinker.Python.{Python, zero_float, Outcome}
use relinker.Python.Outcomes.{◌>>=◌}
use relinker.Effects.{Action}
use relinker.Records.{RetryState}
use relinker.Validation.{Object, real}
use relinker.Delay.{DelayStrategy, additive_delay, custom_delay, stateful_custom_delay, nil, cons}
use relinker.Delay.Construct.{
  new_fixed_delay, new_linear_delay, new_exponential_delay, new_random_delay,
  new_random_exponential_delay, new_chain_delay,
}
use relinker.Policy.{RetryPolicy, post_init}

module _ ⦃py : Python⦄ where
  -- `replace(self, delay_strategy=strategy)`
  pub with_delay : RetryPolicy → DelayStrategy → Outcome RetryPolicy
  with_delay p strategy = post_init (record p { delay_strategy = strategy })

  pub fixed_delay : RetryPolicy → (seconds : Object) → Outcome RetryPolicy
  unfolding with_delay
  fixed_delay p seconds = do s ← new_fixed_delay seconds; with_delay p s

  pub no_delay : RetryPolicy → Outcome RetryPolicy
  unfolding fixed_delay
  no_delay p = fixed_delay p (real zero_float)

  pub linear_delay : RetryPolicy → (start step : Object) → Option Object → Outcome RetryPolicy
  unfolding with_delay
  linear_delay p start step maximum = do s ← new_linear_delay start step maximum; with_delay p s

  pub chain_delay : RetryPolicy → List Object → Outcome RetryPolicy
  unfolding with_delay
  chain_delay p delays = do s ← new_chain_delay delays; with_delay p s

  pub exponential_delay : RetryPolicy → (base factor : Object) → Option Object → Outcome RetryPolicy
  unfolding with_delay
  exponential_delay p base factor maximum = do
    s ← new_exponential_delay base factor maximum
    with_delay p s

  pub random_exponential_delay :
      RetryPolicy
      → (base factor minimum : Object) → Option Object
      → (seed : Option ℕ) → Outcome RetryPolicy
  unfolding with_delay
  random_exponential_delay p base factor minimum maximum seed = do
    s ← new_random_exponential_delay base factor minimum maximum seed
    with_delay p s

  pub random_delay :
      RetryPolicy → (minimum maximum : Object) → (seed : Option ℕ) → Outcome RetryPolicy
  unfolding with_delay
  random_delay p minimum maximum seed = do s ← new_random_delay minimum maximum seed; with_delay p s

  -- `AdditiveDelay((self.delay_strategy, strategy))`
  pub add_delay : RetryPolicy → DelayStrategy → Outcome RetryPolicy
  unfolding with_delay
  add_delay p strategy = with_delay p (additive_delay (cons p.delay_strategy (cons strategy nil)))

  pub jitter : RetryPolicy → (minimum maximum : Object) → (seed : Option ℕ) → Outcome RetryPolicy
  unfolding add_delay
  jitter p minimum maximum seed = do s ← new_random_delay minimum maximum seed; add_delay p s

  pub custom_delay_of : RetryPolicy → (ℕ → Action Object) → Outcome RetryPolicy
  unfolding with_delay
  custom_delay_of p callback = with_delay p (custom_delay callback)

  pub stateful_delay : RetryPolicy → (RetryState → Action Object) → Outcome RetryPolicy
  unfolding with_delay
  stateful_delay p callback = with_delay p (stateful_custom_delay callback)
