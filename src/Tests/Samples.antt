-- ===== src/Tests/Samples.antt =====
-- A policy of three attempts, a function that always fails, and the exceptions that it raises.
use relinker.Prelude.{◌+◌, true, false, none, some, [], ◌∷◌}
use relinker.Python.{
  ticks_python, Value, any_exception, application, try_again, Error, exception_object, absent,
  present, return, raise,
}
use relinker.Effects.{World, Action, awaitable}
use relinker.Records.{RetryResult, exception}
use relinker.Stop.{stop_after_attempt, stop_after_delay, any_stop_strategy, nil, cons}
use relinker.Condition.{exception_condition}
use relinker.Delay.{fixed_delay}
use relinker.Policy.{RetryPolicy, return_last}
use relinker.Runtime.{RetryRuntime, begin_attempt}
use relinker.Flow.{RetryFlow}

abbrev pub three_attempts : RetryPolicy
three_attempts = record {
  stop_strategy = any_stop_strategy (cons (stop_after_delay 500) (cons (stop_after_attempt 3) nil));
  delay_strategy = fixed_delay 2;
  condition = exception_condition (any_exception ∷ []);
  should_raise_last = true;
  should_return_result = false;
  result_exhausted_behavior = return_last;
  exhausted_callback = none;
  exhausted_exception_factory = none;
  event_handlers = [];
  sleep = λ d w. (return tt, record w { outside = w.outside + d });
  async_sleep =
      λ d w. (return (awaitable (λ v. (return tt, record v { outside = v.outside + d }))), w);
  history_limit = some 1000;
  retry_budget = none;
  retry_budget_key = none;
  name = none;
  testing_mode = false;
}

abbrev pub start : World
start = record {
  outside = 5;
  budgets =
      λ _. record { max_retries = 2; per = 10; reservations = []; next_token = 1; op_count = 0 };
}

abbrev pub failure : Error
failure = exception_object (application 4) 7 absent absent false

-- A TryAgain that was raised from the failure.
abbrev pub signal : Error
signal = exception_object try_again 8 (present failure) absent true

abbrev pub failing : Action Value
failing w = (raise failure, w)

-- Before the first attempt, and in it.
abbrev pub fresh : RetryRuntime
fresh = record {
  function_name = "fetch";
  started_at = 5;
  policy_name = none;
  history_limit = some 1000;
  attempts = [];
  attempt_number = 0;
  failed_count = 0;
  success_count = 0;
}

abbrev pub first_attempt : RetryFlow
first_attempt = record { runtime = begin_attempt fresh; attempt_started_at = 6 }

abbrev pub exhausted_result : RetryResult
exhausted_result = record {
  attempts = [];
  value = 0;
  error = some failure;
  started_at = 5;
  ended_at = 9;
  exhausted = true;
  retry_cause = some exception;
  total_attempts = 3;
  total_failed_attempts = some 3;
  total_successful_attempts = some 0;
  policy_name = none;
}
