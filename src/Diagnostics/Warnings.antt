-- ===== src/Diagnostics/Warnings.antt =====
-- `_compute_diagnostics` of src/relinker/internal/policy_diagnostics.py: which warnings a policy
-- gets, in their order, and which checks were skipped.
pub mod Given
use relinker.Prelude.{
  ℕ, ◌-◌, Bool, true, false, not, ◌&&◌, ◌||◌, Option, none, some, List, [], ◌∷◌, ◌++◌, any, ltb,
  leb, ◌==◌, if◌then◌else◌,
}
use relinker.Python.{Python, ◌<F◌, Outcome, return, raise, is_exception, any_exception, ErrorClass}
use relinker.Effects.{World, Action, pure, branch, ◌>>=◌}
use relinker.Records.{is_some, same_event, after_giveup}
use relinker.Validation.{nonnegative}
use relinker.Stop.{StopStrategy, stop_after_attempt}
use relinker.Condition.{RetryCondition, exception_condition}
use relinker.Delay.{DelayStrategy, fixed_delay}
use relinker.Policy.{RetryPolicy, ResultExhaustedBehavior, return_last, raise_exhausted}
use relinker.Simulation.{RetrySimulation, simulate_policy, total_sleep}
use relinker.Diagnostics.Stops.{
  stop_is_infinite, stops_after_first_attempt, known_attempt_limit, has_max_time,
}
use relinker.Diagnostics.Delays.{
  equals_zero, delay_is_always_zero, has_effective_random_delay, has_positive_deterministic_delay,
  has_unbounded_exponential,
}
use relinker.Diagnostics.Conditions.{
  has_result_condition, has_broad_exception, has_broad_os_error, is_broad_class,
}
use relinker.Diagnostics.Health.{
  Severity, advisory, warning, critical, Code, implicit_default_policy, forever, no_delay,
  tight_loop_risk, unbounded_exponential_with_forever, unbounded_history, broad_exception,
  broad_os_error, many_attempts, high_total_sleep, result_retry_without_observation, missing_jitter,
  seeded_random_delay, missing_retry_budget, silent_fallback, infinite_retry_with_budget,
  for_testing_with_max_time, background_broad_exception, PolicyWarning, PolicyHealthReport,
  is_empty,
}

-- An `if` that appends a warning: its condition, the code and the severity.
abbrev pub Check : Type 0
Check = Bool × Code × Severity

-- The warnings that a sequence of such statements appends.
abbrev pub issue : List Check → List PolicyWarning
issue [] = []
issue ((condition, code, severity) ∷ checks) =
    let rest = issue checks in
    if condition then record { code = code; severity = severity } ∷ rest else rest

abbrev is_raise : ResultExhaustedBehavior → Bool
is_raise raise_exhausted = true
is_raise return_last = false

module _ ⦃py : Python⦄ where
  abbrev stops_at_three : StopStrategy → Bool
  stops_at_three (stop_after_attempt maximum) = maximum == 3
  stops_at_three _ = false

  abbrev is_fixed_zero : DelayStrategy → Bool
  is_fixed_zero (fixed_delay seconds) = equals_zero seconds
  is_fixed_zero _ = false

  -- `isinstance(…, ExceptionCondition) and ….exception_types == (Exception,)`
  abbrev is_exception_only : RetryCondition → Bool
  is_exception_only (exception_condition (c ∷ [])) = is_broad_class c
  is_exception_only _ = false

  unfoldable pub uses_implicit_default_policy : RetryPolicy → Bool
  uses_implicit_default_policy p =
      stops_at_three p.stop_strategy
      && is_fixed_zero p.delay_strategy
      && is_exception_only p.condition

  abbrev at_least : ℕ → Option ℕ → Bool
  at_least n none = false
  at_least n (some limit) = leb n limit

  -- `_high_attempt_count` and `_many_attempts`
  unfoldable pub high_attempt_count : RetryPolicy → Bool
  high_attempt_count p = at_least 10 (known_attempt_limit p.stop_strategy)

  unfoldable pub is_many_attempts : RetryPolicy → Bool
  is_many_attempts p = at_least 11 (known_attempt_limit p.stop_strategy)

  unfoldable pub has_giveup_observer : RetryPolicy → Bool
  has_giveup_observer p = any (λ r. same_event r.name after_giveup) p.event_handlers

  -- `maximum_delay_attempts`
  abbrev pub maximum_delay_attempts : (can_retry : Bool) (limit : Option ℕ) → Option ℕ
  maximum_delay_attempts false limit = some 0
  maximum_delay_attempts true none = none
  maximum_delay_attempts true (some limit) = some (limit - 1)

  abbrev or_ten : Option ℕ → ℕ
  or_ten none = 10
  or_ten (some n) = n

  -- The statements before the check of the total sleep.
  pub checks_before : RetryPolicy → List Check
  unfolding uses_implicit_default_policy is_many_attempts
  checks_before p =
      let is_forever = stop_is_infinite p.stop_strategy in
      let is_no_delay = delay_is_always_zero p.delay_strategy in
      let can_retry = not (stops_after_first_attempt p.stop_strategy) in
      let is_broad = has_broad_exception p.condition in
      (uses_implicit_default_policy p, implicit_default_policy, advisory)
      ∷ (is_forever, forever, critical)
      ∷ (can_retry && is_no_delay, no_delay, warning)
      ∷ (is_forever && is_no_delay, tight_loop_risk, critical)
      ∷ (
        is_forever && has_unbounded_exponential p.delay_strategy,
        unbounded_exponential_with_forever,
        advisory,
      )
      ∷ (is_forever && not (is_some p.history_limit), unbounded_history, critical)
      ∷ (can_retry && is_broad, broad_exception, warning)
      ∷ (
        not (can_retry && is_broad) && can_retry && has_broad_os_error p.condition,
        broad_os_error,
        warning,
      )
      ∷ (can_retry && is_many_attempts p, many_attempts, warning)
      ∷ []

  -- Those behind it.
  pub checks_after : RetryPolicy → List Check
  unfolding high_attempt_count has_giveup_observer
  checks_after p =
      let is_forever = stop_is_infinite p.stop_strategy in
      let can_retry = not (stops_after_first_attempt p.stop_strategy) in
      let attempts = maximum_delay_attempts can_retry (known_attempt_limit p.stop_strategy) in
      let random = has_effective_random_delay p.delay_strategy attempts in
      let high = high_attempt_count p in
      (
        can_retry
            && has_result_condition p.condition
            && not p.should_return_result
            && not (is_some p.exhausted_callback)
            && not (is_some p.exhausted_exception_factory)
            && not (is_raise p.result_exhausted_behavior),
        result_retry_without_observation,
        warning,
      )
      ∷ (
        can_retry && high && has_positive_deterministic_delay p.delay_strategy && not (random none),
        missing_jitter,
        advisory,
      )
      ∷ (
        not p.testing_mode && random (some true) && not (random (some false)),
        seeded_random_delay,
        advisory,
      )
      ∷ (
        can_retry && (is_forever || high) && not (is_some p.retry_budget),
        missing_retry_budget,
        warning,
      )
      ∷ (
        can_retry
            && is_some p.exhausted_callback
            && not (has_giveup_observer p)
            && not p.should_return_result,
        silent_fallback,
        warning,
      )
      ∷ (is_forever && is_some p.retry_budget, infinite_retry_with_budget, warning)
      ∷ (p.testing_mode && has_max_time p.stop_strategy, for_testing_with_max_time, advisory)
      ∷ (
        can_retry && has_broad_exception p.condition && (is_forever || high),
        background_broad_exception,
        critical,
      )
      ∷ []

  -- `except Exception: skipped.append("high_total_sleep")`
  abbrev pub sleep_check :
      Outcome RetrySimulation × World → Outcome (List PolicyWarning × List Code) × World
  sleep_check (return simulation, w) = (
    return (issue ((py.of_nat 300 <F total_sleep simulation, high_total_sleep, advisory) ∷ []), []),
    w,
  )
  sleep_check (raise e, w) =
      if is_exception e then (return ([], high_total_sleep ∷ []), w) else (raise e, w)

  pub check_total_sleep : RetryPolicy → Action (List PolicyWarning × List Code)
  check_total_sleep p =
      let can_retry = not (stops_after_first_attempt p.stop_strategy) in
      let count = or_ten (known_attempt_limit p.stop_strategy) in
      branch (can_retry && not (stop_is_infinite p.stop_strategy))
        (λ w. sleep_check (simulate_policy p (nonnegative count) w)) (pure ([], []))

  -- The whole list, with what the check of the total sleep found.
  pub all_warnings : RetryPolicy → List PolicyWarning × List Code → List PolicyWarning × List Code
  all_warnings p (sleeps, skipped) =
      (issue (checks_before p) ++ sleeps ++ issue (checks_after p), skipped)

  pub compute_diagnostics : RetryPolicy → Action (List PolicyWarning × List Code)
  compute_diagnostics p = check_total_sleep p >>= λ found. pure (all_warnings p found)

  pub compute_warnings : RetryPolicy → Action (List PolicyWarning)
  unfolding compute_diagnostics
  compute_warnings p = compute_diagnostics p >>= λ (warnings, skipped). pure warnings

  pub doctor_policy : RetryPolicy → Action PolicyHealthReport
  unfolding compute_diagnostics
  doctor_policy p = compute_diagnostics p >>= λ (warnings, skipped).
      pure (record { warnings = warnings; complete = is_empty skipped; skipped_checks = skipped })
