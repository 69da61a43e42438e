-- ===== src/Stop.antt =====
-- src/relinker/stop: when an execution stops, from the attempt number and the elapsed time.
pub mod Bounded
pub mod Flatten
use relinker.Prelude.{ℕ, Bool, true, false, List, leb, if◌then◌else◌}
use relinker.Python.{Python, Float, ◌≤F◌, Outcome, return, raise, invalid_config_error}
use relinker.Effects.{Action, pure, ◌>>=◌}
use relinker.Validation.{Object, IntegerArgument, ensure_positive_int, ensure_non_negative}

module _ ⦃py : Python⦄ where
  mutual
    -- The classes that implement StopStrategy, the application's own among them.
    pub data StopStrategy : Type 0 where
      stop_after_attempt : ℕ → StopStrategy
      stop_after_delay : Float → StopStrategy
      stop_forever : StopStrategy
      any_stop_strategy all_stop_strategy : StopStrategies → StopStrategy
      user_stop : (ℕ → Float → Action Bool) → StopStrategy

    pub data StopStrategies : Type 0 where
      nil : StopStrategies
      cons : StopStrategy → StopStrategies → StopStrategies

  unfoldable mutual
    -- `should_stop`, with the `any` and `all` of the composites, which end at the first answer.
    pub should_stop : StopStrategy → ℕ → Float → Action Bool
    should_stop (stop_after_attempt maximum) n elapsed = pure (leb maximum n)
    should_stop (stop_after_delay seconds) n elapsed = pure (seconds ≤F elapsed)
    should_stop stop_forever n elapsed = pure false
    should_stop (any_stop_strategy ss) n elapsed = any_stops ss n elapsed
    should_stop (all_stop_strategy ss) n elapsed = all_stop ss n elapsed
    should_stop (user_stop f) n elapsed = f n elapsed

    pub any_stops : StopStrategies → ℕ → Float → Action Bool
    any_stops nil n elapsed = pure false
    any_stops (cons s ss) n elapsed = should_stop s n elapsed >>= λ b. elim b [
      | true ↦ pure true
      | false ↦ any_stops ss n elapsed
    ]

    pub all_stop : StopStrategies → ℕ → Float → Action Bool
    all_stop nil n elapsed = pure true
    all_stop (cons s ss) n elapsed = should_stop s n elapsed >>= λ b. elim b [
      | true ↦ all_stop ss n elapsed
      | false ↦ pure false
    ]

  -- The constructors with their `__post_init__`.
  pub new_stop_after_attempt : IntegerArgument → Outcome StopStrategy
  new_stop_after_attempt maximum = elim (ensure_positive_int maximum) [
    | return n ↦ return (stop_after_attempt n)
    | raise e ↦ raise e
  ]

  pub new_stop_after_delay : Object → Outcome StopStrategy
  new_stop_after_delay seconds = elim (ensure_non_negative seconds) [
    | return x ↦ return (stop_after_delay x)
    | raise e ↦ raise e
  ]

  pub new_any_stop : StopStrategies → Outcome StopStrategy
  new_any_stop nil = raise invalid_config_error
  new_any_stop (cons s ss) = return (any_stop_strategy (cons s ss))

  pub new_all_stop : StopStrategies → Outcome StopStrategy
  new_all_stop nil = raise invalid_config_error
  new_all_stop (cons s ss) = return (all_stop_strategy (cons s ss))
