-- ===== src/Tests/Advice.antt =====
-- The theorems on simulated and diagnosed policies.
use relinker.Prelude.{◌≡◌, inl, inr, refl, true, false, not, ◌&&◌, ◌||◌, some, [], ◌∷◌, arith}
use relinker.Python.{ticks_python, ticks-FloatLaws, return, zero_float}
use relinker.Effects.Hoare.{Always}
use relinker.Records.{is_some}
use relinker.Validation.{nonnegative, real}
use relinker.Stop.{
  StopStrategy, stop_after_attempt, stop_after_delay, stop_forever, any_stop_strategy,
  all_stop_strategy, nil, cons, should_stop,
}
use relinker.Stop.Bounded.{HasLimit}
use relinker.Delay.{
  DelayStrategy, fixed_delay, additive_delay, custom_delay, nil as no_delays, cons as delay_and,
}
use relinker.Delay.Walk.{search_tree, some_leaf, search_tree-some_leaf}
use relinker.Policy.{RetryPolicy}
use relinker.Simulation.{is_callback, simulate_policy}
use relinker.Simulation.Load.{RetryLoadEstimate, estimate_attempts, estimate_policy_load}
use relinker.Simulation.Calls.{Promises, estimate_policy_load-EndsWithin}
use relinker.Simulation.Timeline.{IsPart, simulate_policy-IsPart}
use relinker.Diagnostics.Stops.{
  stop_is_infinite, stops_after_first_attempt, known_attempt_limit, has_max_time,
}
use relinker.Diagnostics.Stops.Limits.{estimate_attempts-known_attempt_limit}
use relinker.Diagnostics.Stops.Configured.{Within, known_attempt_limit-HasLimit}
use relinker.Diagnostics.Stops.Answers.{
  stop_is_infinite-should_stop, stops_after_first_attempt-should_stop,
}
use relinker.Diagnostics.Health.{
  PolicyHealthReport, no_delay, forever, warning, critical, advisory, for_testing_with_max_time,
}
use relinker.Diagnostics.Warnings.{issue, compute_diagnostics}
use relinker.Diagnostics.Warnings.Given.{
  IsRisky, compute_diagnostics-never_retries, doctor_policy-IsRisky,
}
use relinker.Tests.Samples.{three_attempts, start}

-- An additive delay with a callback in a nested one.
abbrev nested : DelayStrategy
nested = additive_delay (
    delay_and (fixed_delay 1) (
      delay_and (additive_delay (delay_and (custom_delay (λ n w. (return (real n), w))) no_delays))
        no_delays))

search_tree-some_leaf_example : search_tree is_callback nested ≡ some_leaf is_callback nested
search_tree-some_leaf_example = search_tree-some_leaf is_callback nested

-- An AND of a limit and a composed OR.
abbrev both : StopStrategy
both = all_stop_strategy (
    cons (stop_after_attempt 4)
      (cons (any_stop_strategy (cons (stop_after_delay 9) (cons (stop_after_attempt 7) nil))) nil))

estimate_attempts-known_attempt_limit_example : estimate_attempts both ≡ (
  known_attempt_limit both,
  stop_is_infinite both,
  not (is_some (known_attempt_limit both) || stop_is_infinite both),
)
estimate_attempts-known_attempt_limit_example = estimate_attempts-known_attempt_limit both

both_known : known_attempt_limit both ≡ some 7
unfolding known_attempt_limit stop_is_infinite
both_known = refl

known_attempt_limit-HasLimit_example :
    (HasLimit 8 both → Within 8 (known_attempt_limit both))
    × (Within 8 (known_attempt_limit both) → HasLimit 8 both)
known_attempt_limit-HasLimit_example = known_attempt_limit-HasLimit 8 both

estimate_policy_load-EndsWithin_example :
    (load : RetryLoadEstimate) × (estimate_policy_load three_attempts (nonnegative 20) start
      ≡ (return load, start))
    × Promises 20 three_attempts load.maximum_total_calls
estimate_policy_load-EndsWithin_example = estimate_policy_load-EndsWithin three_attempts 19 start

simulate_policy-IsPart_example :
    Always
      (λ s. IsPart three_attempts 5 1 zero_float s.attempts)
      (simulate_policy three_attempts (nonnegative 5))
simulate_policy-IsPart_example = simulate_policy-IsPart three_attempts 4

sample_limit : HasLimit 3 three_attempts.stop_strategy
unfolding HasLimit
sample_limit = inr (inl (omega arith))

-- Never stops: one part of the AND does not.
abbrev endless : StopStrategy
endless = all_stop_strategy (cons (stop_after_attempt 2) (cons stop_forever nil))

endless_infinite : stop_is_infinite endless ≡ true
unfolding stop_is_infinite
endless_infinite = refl

stop_is_infinite-should_stop_example : Always (λ b. b ≡ false) (should_stop endless 50 900)
stop_is_infinite-should_stop_example = stop_is_infinite-should_stop endless 50 900 endless_infinite

-- Stops at once: one part of the OR does.
abbrev at_once : StopStrategy
at_once = any_stop_strategy (cons (stop_after_attempt 5) (cons (stop_after_delay 0) nil))

at_once_stops : stops_after_first_attempt at_once ≡ true
unfolding stops_after_first_attempt
at_once_stops = refl

stops_after_first_attempt-should_stop_example : Always (λ b. b ≡ true) (should_stop at_once 1 3)
stops_after_first_attempt-should_stop_example =
    stops_after_first_attempt-should_stop ticks-FloatLaws at_once 1 3 (omega arith) refl
      at_once_stops

abbrev report : PolicyHealthReport
report = record {
  warnings =
      record { code = forever; severity = critical }
      ∷ record { code = no_delay; severity = warning }
      ∷ [];
  complete = true;
  skipped_checks = [];
}

abbrev single : RetryPolicy
single = record three_attempts { stop_strategy = at_once }

compute_diagnostics-never_retries_example : compute_diagnostics single start ≡ (
  return (
    issue ((single.testing_mode && has_max_time at_once, for_testing_with_max_time, advisory) ∷ []),
    [],
  ),
  start,
)
compute_diagnostics-never_retries_example =
    compute_diagnostics-never_retries single start at_once_stops

abbrev unending : RetryPolicy
unending = record three_attempts { stop_strategy = endless }

doctor_policy-IsRisky_example : IsRisky unending start
doctor_policy-IsRisky_example = doctor_policy-IsRisky unending start endless_infinite
