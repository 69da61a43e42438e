-- ===== src/Flow.antt =====
-- src/relinker/internal/executor_flow.py: what happens after each attempt.
pub mod Planned
pub mod Decisions
pub mod Limits
use Prim.Native.String.{String}
use relinker.Prelude.{ℕ, Bool, true, false, not, ◌&&◌, ◌||◌, Option, none, some, if◌then◌else◌}
use relinker.Python.{Python, Float, Value, ◌-F◌, Error, is_try_again}
use relinker.Effects.{World, Action, pure, branch, on_error, now, ◌>>=◌, ◌>>◌}
use relinker.Records.{
  RetryState, RetryEvent, RetryResult, RetryCause, exception, result, EventName, before_attempt,
  after_success, after_failure, before_sleep, after_giveup, is_some,
}
use relinker.Stop.{should_stop}
use relinker.Condition.{should_retry_exception, should_retry_result}
use relinker.Delay.{delay_needs_state}
use relinker.Policy.{RetryPolicy, has_handler, emit}
use relinker.Exhaustion.{should_stop_before_sleep}
use relinker.Runtime.{
  RetryRuntime, new_runtime, begin_attempt, record_success, record_failure, StateFields, no_fields,
  state_of, result_of,
}
use relinker.Wait.{RetryWaitPlan, plan_retry_wait, release_retry_wait}

pub data FinalKind : Type 0 where
  accept reject exhaust : FinalKind

module _ ⦃py : Python⦄ where
  -- `RetryWaitPlan | FinalDecision`
  pub data Decision : Type 0 where
    wait : RetryWaitPlan → Decision
    final : FinalKind → RetryResult → Decision

  pub record RetryFlow : Type 0 where
    pub runtime : RetryRuntime
    pub attempt_started_at : Float

  -- How an attempt ended: the keyword arguments that `_exhaust` and `_plan_retry` share.
  pub record Ended : Type 0 where
    pub value : Value
    pub error : Option Error
    pub has_value : Bool
    pub retry_cause : RetryCause

  -- `RetryFlow.__init__`
  unfoldable pub new_flow : RetryPolicy → String → Action RetryFlow
  new_flow policy function_name = do
    t ← now
    pure (record {
      runtime = new_runtime function_name t policy.history_limit policy.name;
      attempt_started_at = t;
    })

  pub next_attempt : RetryFlow → RetryFlow
  next_attempt flow = record flow { runtime = begin_attempt flow.runtime }

  -- `runtime.state(...) if policy._has_handler(name) else None`
  pub state_if : Bool → RetryRuntime → StateFields → Action (Option RetryState)
  state_if false rt fields = pure none
  state_if true rt fields = do state ← state_of rt fields; pure (some state)

  -- `_emit`
  unfoldable pub emit_event :
      RetryPolicy
      → RetryRuntime
      → EventName
      → Value
      → Option Error
      → StateFields
      → Action (Unit {0})
  emit_event policy rt name value e fields = do
    state ← state_if (has_handler policy name) rt fields
    emit policy (record {
      name = name;
      attempt_number = rt.attempt_number;
      function_name = rt.function_name;
      delay = none;
      value = value;
      error = e;
      state = state;
      policy_name = none;
    })

  -- `enter_attempt`
  unfoldable pub enter_attempt : RetryPolicy → RetryFlow → Action RetryFlow
  enter_attempt policy flow = do
    emit_event policy flow.runtime before_attempt py.none_value none no_fields
    t ← now
    pure (record flow { attempt_started_at = t })

  abbrev giveup_fields : Ended → StateFields
  giveup_fields ended = record {
    last_value = ended.value;
    last_error = ended.error;
    has_value = ended.has_value;
    retry_cause = some ended.retry_cause;
    will_retry = false;
    will_stop = true;
  }

  -- `_exhaust`
  unfoldable pub exhaust_flow : RetryPolicy → RetryRuntime → Ended → Action Decision
  exhaust_flow policy rt ended = do
    t ← now
    let r = result_of rt t ended.value ended.error true (some ended.retry_cause)
    emit_event policy rt after_giveup ended.value ended.error (giveup_fields ended)
    pure (final exhaust r)

  -- `_sleep_would_stop`
  unfoldable pub sleep_would_stop : RetryPolicy → RetryRuntime → RetryWaitPlan → Action Bool
  sleep_would_stop policy rt plan = do
    t ← now
    should_stop_before_sleep policy.stop_strategy rt.attempt_number (t -F rt.started_at)
        plan.total_delay

  -- `state_with_wait_plan(pre_sleep_state, plan) if pre_sleep_state is not None else None`
  abbrev state_with_wait_plan : Option RetryState → RetryWaitPlan → Option RetryState
  state_with_wait_plan none plan = none
  state_with_wait_plan (some state) plan = some (record state {
    next_delay = some plan.total_delay;
    policy_delay = some plan.policy_delay;
    budget_delay = some plan.budget_delay;
  })

  unfoldable pub emit_before_sleep :
      RetryPolicy → RetryRuntime → Ended → Option RetryState → RetryWaitPlan → Action (Unit {0})
  emit_before_sleep policy rt ended state plan = emit policy (record {
    name = before_sleep;
    attempt_number = rt.attempt_number;
    function_name = rt.function_name;
    delay = some plan.total_delay;
    value = ended.value;
    error = ended.error;
    state = state_with_wait_plan state plan;
    policy_name = none;
  })

  -- `release_retry_wait(plan)` and `return self._exhaust(**outcome)`.
  unfoldable pub give_back : RetryPolicy → RetryRuntime → Ended → RetryWaitPlan → Action Decision
  give_back policy rt ended plan = release_retry_wait plan >> exhaust_flow policy rt ended

  -- The second test of `_sleep_would_stop` in `_plan_retry`, after the handlers.
  unfoldable pub confirm_wait : RetryPolicy → RetryRuntime → Ended → RetryWaitPlan → Action Decision
  confirm_wait policy rt ended plan = do
    late ← sleep_would_stop policy rt plan
    branch late (give_back policy rt ended plan) (pure (wait plan))

  -- `_plan_retry` from the moment that it has a plan.
  unfoldable pub offer_wait :
      RetryPolicy → RetryRuntime → Ended → Option RetryState → RetryWaitPlan → Action Decision
  offer_wait policy rt ended state plan = do
    late ← sleep_would_stop policy rt plan
    let announce = on_error (emit_before_sleep policy rt ended state plan) (release_retry_wait plan)
    let announced = announce >> confirm_wait policy rt ended plan
    branch late (give_back policy rt ended plan) announced

  unfoldable pub offer_if :
      RetryPolicy
      → RetryRuntime
      → Ended
      → Option RetryState
      → Option RetryWaitPlan
      → Action Decision
  offer_if policy rt ended state none = exhaust_flow policy rt ended
  offer_if policy rt ended state (some plan) = offer_wait policy rt ended state plan

  abbrev retry_fields : Ended → StateFields
  retry_fields ended = record {
    last_value = ended.value;
    last_error = ended.error;
    has_value = ended.has_value;
    retry_cause = some ended.retry_cause;
    will_retry = true;
    will_stop = false;
  }

  -- `_plan_retry`
  unfoldable pub plan_retry : RetryPolicy → RetryRuntime → Ended → Action Decision
  plan_retry policy rt ended = do
    state ←
        state_if (delay_needs_state policy.delay_strategy || has_handler policy before_sleep) rt
          (retry_fields ended)
    plan ← plan_retry_wait policy rt.attempt_number state
    offer_if policy rt ended state plan

  abbrev failed : Error → Ended
  failed e = record {
    value = py.none_value;
    error = some e;
    has_value = false;
    retry_cause = exception;
  }

  abbrev produced : Value → Bool → Ended
  produced value has_value = record {
    value = value;
    error = none;
    has_value = has_value;
    retry_cause = result;
  }

  abbrev failure_fields : Error → (will_retry will_stop : Bool) → StateFields
  failure_fields e will_retry will_stop = record {
    last_value = py.none_value;
    last_error = some e;
    has_value = false;
    retry_cause = some exception;
    will_retry = will_retry;
    will_stop = will_stop;
  }

  -- The non-retryable branch of `after_exception`.
  unfoldable pub reject_error : RetryPolicy → RetryRuntime → Error → Action Decision
  reject_error policy rt e = do
    t ← now
    let r = result_of rt t py.none_value (some e) false none
    emit_event policy rt after_giveup py.none_value (some e) (failure_fields e false false)
    pure (final reject r)

  -- The accepting branch of `after_value`.
  unfoldable pub accept_value : RetryPolicy → RetryRuntime → Value → Bool → Action Decision
  accept_value policy rt value has_value = do
    t ← now
    let r = result_of rt t value none false none
    emit_event policy rt after_success value none
        (record no_fields { last_value = value; has_value = has_value })
    pure (final accept r)

  -- `if should_stop: return self._exhaust(...)`, else `return self._plan_retry(...)`.
  unfoldable pub stop_or_retry : RetryPolicy → RetryRuntime → Ended → Bool → Action Decision
  stop_or_retry policy rt ended stops =
      branch stops (exhaust_flow policy rt ended) (plan_retry policy rt ended)

  -- `isinstance(error, TryAgain) or policy.condition.should_retry_exception(error)`
  unfoldable pub wants_retry : RetryPolicy → Error → Action Bool
  wants_retry policy e =
      branch (is_try_again e) (pure true) (should_retry_exception policy.condition e)

  -- `after_exception`
  unfoldable pub after_exception : RetryPolicy → RetryFlow → Error → Action (RetryFlow × Decision)
  after_exception policy flow e = do
    retries ← wants_retry policy e
    ended_at ← now
    let rt = record_failure flow.runtime flow.attempt_started_at ended_at e
    stops ← should_stop policy.stop_strategy rt.attempt_number (ended_at -F rt.started_at)
    emit_event policy rt after_failure py.none_value (some e)
        (failure_fields e (retries && not stops) stops)
    decision ← branch retries (stop_or_retry policy rt (failed e) stops) (reject_error policy rt e)
    pure (record flow { runtime = rt }, decision)

  -- `has_value and policy.condition.should_retry_result(value)`
  unfoldable pub wants_other : RetryPolicy → Value → Bool → Action Bool
  wants_other policy value has_value =
      branch has_value (should_retry_result policy.condition value) (pure false)

  -- `after_value`
  unfoldable pub after_value :
      RetryPolicy → RetryFlow → Value → Bool → Action (RetryFlow × Decision)
  after_value policy flow value has_value = do
    ended_at ← now
    let rt = record_success flow.runtime flow.attempt_started_at ended_at value has_value
    retries ← wants_other policy value has_value
    stops ← should_stop policy.stop_strategy rt.attempt_number (ended_at -F rt.started_at)
    let retry = stop_or_retry policy rt (produced value has_value) stops
    decision ← branch retries retry (accept_value policy rt value has_value)
    pure (record flow { runtime = rt }, decision)
