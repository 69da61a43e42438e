-- ===== src/Simulation.antt =====
-- src/relinker/internal/policy_simulation.py, with the records of diagnostics.py that it fills: the
-- delays that a policy would wait, and the calls that it may make.
pub mod Load
pub mod Calls
pub mod Timeline
use relinker.Prelude.{
  ℕ, zero, suc, ◌+◌, Bool, true, false, none, List, [], ◌∷◌, any, length, map, if◌then◌else◌,
}
use relinker.Python.{Python, Float, ◌+F◌, zero_float, float_max, invalid_config_error}
use relinker.Effects.{Action, pure, throw, lift, branch, ◌>>=◌}
use relinker.Validation.{IntegerArgument, ensure_positive_int}
use relinker.Stop.{should_stop}
use relinker.Delay.{DelayStrategy, custom_delay, stateful_custom_delay, checked, resolve_delay, sum}
use relinker.Delay.Walk.{search_tree}
use relinker.Policy.{RetryPolicy}

module _ ⦃py : Python⦄ where
  pub record RetrySimulationAttempt : Type 0 where
    pub attempt_number : ℕ
    pub delay_before_next_attempt : Float
    pub stops_after_attempt : Bool
    pub cumulative_sleep : Float

  pub record RetrySimulation : Type 0 where
    pub attempts : List RetrySimulationAttempt

  -- `RetrySimulation.attempt_count`
  abbrev pub simulated_count : RetrySimulation → ℕ
  simulated_count s = length s.attempts

  abbrev pub total_sleep : RetrySimulation → Float
  total_sleep s = sum (map (λ a. a.delay_before_next_attempt) s.attempts)

  -- `max` of what follows the first delay.
  abbrev largest_from : Float → List RetrySimulationAttempt → Float
  largest_from largest [] = largest
  largest_from largest (a ∷ rest) =
      largest_from (float_max largest a.delay_before_next_attempt) rest

  abbrev pub max_delay : RetrySimulation → Float
  max_delay s = elim s.attempts [
    | [] ↦ zero_float
    | (a ∷ rest) ↦ largest_from a.delay_before_next_attempt rest
  ]

  abbrev pub stops_early : RetrySimulation → Bool
  stops_early s = any (λ a. a.stops_after_attempt) s.attempts

  -- `isinstance(current, (CustomDelay, StatefulCustomDelay))`
  abbrev pub is_callback : DelayStrategy → Bool
  is_callback (custom_delay callback) = true
  is_callback (stateful_custom_delay callback) = true
  is_callback _ = false

  pub has_user_callback : DelayStrategy → Bool
  has_user_callback d = search_tree is_callback d

  -- `_safe_next_delay`
  pub safe_next_delay : RetryPolicy → ℕ → Action Float
  unfolding has_user_callback
  safe_next_delay p n =
      branch (has_user_callback p.delay_strategy) (throw invalid_config_error)
        (checked (resolve_delay p.delay_strategy n none))

  -- The delay after an attempt, and whether the policy stops there.
  pub simulate_attempt : RetryPolicy → ℕ → Float → Action (Float × Bool)
  unfolding safe_next_delay
  simulate_attempt p n elapsed = should_stop p.stop_strategy n elapsed >>= λ stopped.
      branch stopped (pure (zero_float, true)) (
        safe_next_delay p n >>= λ delay.
        should_stop p.stop_strategy n (elapsed +F delay) >>= λ stops.
        pure (if stops then zero_float else delay, stops))

  -- The `for` loop, for as many attempts as remain; `break` is the end of the list.
  pub simulate_from : RetryPolicy → ℕ → ℕ → Float → Float → Action (List RetrySimulationAttempt)
  unfolding simulate_attempt
  simulate_from p zero n elapsed cumulative = pure []
  simulate_from p (suc remaining) n elapsed cumulative =
      simulate_attempt p n elapsed >>= λ (delay, stops).
      branch stops (pure [])
        (simulate_from p remaining (n + 1) (elapsed +F delay) (cumulative +F delay))
      >>= λ rest. pure (
          record {
            attempt_number = n;
            delay_before_next_attempt = delay;
            stops_after_attempt = stops;
            cumulative_sleep = cumulative +F delay;
          }
          ∷ rest)

  pub simulate_policy : RetryPolicy → IntegerArgument → Action RetrySimulation
  unfolding simulate_from
  simulate_policy p attempts = lift (ensure_positive_int attempts) >>= λ n.
      simulate_from p n 1 zero_float zero_float >>= λ simulated.
      pure (record { attempts = simulated })
