-- ===== src/Flow/Limits.antt =====
-- The attempt number in src/relinker/internal/executor_flow.py under a stop strategy that limits
-- the attempts.
use relinker.Prelude.{ℕ, ◌+◌, ◌≤◌, ◌<◌, ◌≡◌, refl, Bool, true, false, arith}
use Prim.Native.String.{String}
use native.Mathlib.Decide.{dec_lt}
use relinker.Python.{Python, Value, Error, Float}
use relinker.Effects.Hoare.{
  Always, Always-of, Always-weaken, Always-pure, Always->>=, Always-next, Always-branch,
}
use relinker.Stop.{should_stop}
use relinker.Stop.Bounded.{StopsBy}
use relinker.Policy.{RetryPolicy}
use relinker.Runtime.{RetryRuntime, new_runtime, begin_attempt, record_failure, record_success}
use relinker.Flow.{
  Decision, wait, final, RetryFlow, Ended, failed, produced, new_flow, next_attempt, enter_attempt,
  exhaust_flow, reject_error, accept_value, stop_or_retry, after_exception, after_value,
}

module _ ⦃py : Python⦄ where
  abbrev pub IsWait : Decision → Type 0
  IsWait (wait plan) = Unit
  IsWait (final kind r) = ⊥

  -- A wait is decided at an attempt below the limit only.
  abbrev pub WaitsBelow : ℕ → ℕ → Decision → Type 0
  WaitsBelow n k d = IsWait d → k < n

  module _ (policy : RetryPolicy) (rt : RetryRuntime) (n : ℕ) where
    exhaust_flow-below :
        (ended : Ended) → Always (WaitsBelow n rt.attempt_number) (exhaust_flow policy rt ended)
    unfolding exhaust_flow
    exhaust_flow-below ended =
        Always-next _ _ λ t. Always-next _ _ λ _. Always-pure _ (λ w. absurd w)

    reject_error-below :
        (e : Error) → Always (WaitsBelow n rt.attempt_number) (reject_error policy rt e)
    unfolding reject_error
    reject_error-below e = Always-next _ _ λ t. Always-next _ _ λ _. Always-pure _ (λ w. absurd w)

    accept_value-below :
        (v : Value) (has_value : Bool)
        → Always (WaitsBelow n rt.attempt_number) (accept_value policy rt v has_value)
    unfolding accept_value
    accept_value-below v has_value =
        Always-next _ _ λ t. Always-next _ _ λ _. Always-pure _ (λ w. absurd w)

    stop_or_retry-below :
        (ended : Ended) (stops : Bool)
        → (n ≤ rt.attempt_number → stops ≡ true)
        → Always (WaitsBelow n rt.attempt_number) (stop_or_retry policy rt ended stops)
    unfolding stop_or_retry
    stop_or_retry-below ended stops h =
        Always-branch stops _ _ (λ _. exhaust_flow-below ended)
          (λ goes_on. Always-of _ (λ d _. below goes_on))
      where
        below : stops ≡ false → rt.attempt_number < n
        below goes_on = ground arith

  -- The runtime goes on in the same attempt, and waits below the limit only.
  abbrev pub Continues : ℕ → ℕ → RetryFlow × Decision → Type 0
  Continues n k (flow, d) = (flow.runtime.attempt_number ≡ k) × WaitsBelow n k d

  module _ (policy : RetryPolicy) (n : ℕ) (limit : StopsBy n policy.stop_strategy) where
    limit_lem :
        (k : ℕ) (elapsed : Float)
        → Always (λ b. n ≤ k → b ≡ true) (should_stop policy.stop_strategy k elapsed)
    limit_lem k elapsed = elim (dec_lt k n) [
      | yes less ↦ Always-of _ (λ b h. absurd (omega arith))
      | no more ↦ Always-weaken _ (λ b e h. e) (limit.stops k elapsed (omega arith))
    ]

    pub after_exception-below :
        (flow : RetryFlow) (e : Error)
        → Always (Continues n flow.runtime.attempt_number) (after_exception policy flow e)
    unfolding after_exception record_failure
    after_exception-below flow e = Always-next _ _ λ retries. Always-next _ _ λ t.
        Always->>= (λ b. n ≤ flow.runtime.attempt_number → b ≡ true) _ _ (limit_lem _ _)
          λ stops h. Always-next _ _ λ _.
            Always->>= (WaitsBelow n flow.runtime.attempt_number) _ _
              (Always-branch retries _ _ (λ _. stop_or_retry-below policy _ n (failed e) stops h)
                (λ _. reject_error-below policy _ n e))
              λ d below. Always-pure _ (refl, below)

    pub after_value-below :
        (flow : RetryFlow) (v : Value) (has_value : Bool)
        → Always (Continues n flow.runtime.attempt_number) (after_value policy flow v has_value)
    unfolding after_value record_success
    after_value-below flow v has_value = Always-next _ _ λ t. Always-next _ _ λ retries.
        Always->>= (λ b. n ≤ flow.runtime.attempt_number → b ≡ true) _ _ (limit_lem _ _)
          λ stops h.
            Always->>= (WaitsBelow n flow.runtime.attempt_number) _ _
              (Always-branch retries _ _
                (λ _. stop_or_retry-below policy _ n (produced v has_value) stops h)
                (λ _. accept_value-below policy _ n v has_value))
              λ d below. Always-pure _ (refl, below)

  -- Entering an attempt starts the next one.
  pub enter_attempt-attempt :
      (policy : RetryPolicy) (flow : RetryFlow)
      → Always
          (λ f. f.runtime.attempt_number ≡ flow.runtime.attempt_number + 1)
          (enter_attempt policy (next_attempt flow))
  unfolding enter_attempt next_attempt begin_attempt
  enter_attempt-attempt policy flow = Always-next _ _ λ _. Always-next _ _ λ t. Always-pure _ refl

  -- An execution starts before its first attempt.
  pub new_flow-attempt :
      (policy : RetryPolicy) (name : String)
      → Always (λ f. f.runtime.attempt_number ≡ 0) (new_flow policy name)
  unfolding new_flow new_runtime
  new_flow-attempt policy name = Always-next _ _ λ t. Always-pure _ refl
