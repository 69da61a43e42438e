-- ===== src/Recipes.antt =====
-- Policies that the library builds: `RetryPolicy()`, src/relinker/presets.py, the configuration of
-- src/relinker/retry.py, and `http_retry_policy` of src/relinker/http.py.
use relinker.Prelude.{Bool, true, false, Option, none, some, List, [], ◌∷◌, all, if◌then◌else◌}
use relinker.Python.{
  Python, Float, zero_float, ErrorClass, any_exception, os_error, connection_error, timeout_error,
  is_exception_class, Outcome, return, raise, invalid_config_error,
}
use relinker.Python.Outcomes.{◌>>=◌}
use relinker.Effects.{Action, Candidate, pure}
use relinker.Validation.{
  IntegerArgument, nonnegative, Object, real, ensure_positive_int, ensure_safe_delay,
}
use relinker.Stop.{stop_after_attempt}
use relinker.Condition.{exception_condition}
use relinker.Delay.{fixed_delay}
use relinker.Policy.{RetryPolicy, return_last}
use relinker.Builders.{return_result}
use relinker.Builders.Stops.{attempts}
use relinker.Builders.Conditions.{on, retry_if_result, or_on}
use relinker.Builders.Delays as Delays
use relinker.Builders.Delays.{stateful_delay, exponential_delay, random_exponential_delay, jitter}
use relinker.Http.{Dates}
use relinker.Http.Statuses.{StatusArgument, retry_if_status}
use relinker.Http.Headers.{Responses, retry_after_delay, float_action}

module _ ⦃py : Python⦄ where
  -- `RetryPolicy()`, with the sleepers of the runtime.
  abbrev pub default_policy :
      (Float → Action (Unit {0})) → (Float → Action (Candidate (Unit {0}))) → RetryPolicy
  default_policy sleep async_sleep = record {
    stop_strategy = stop_after_attempt 3;
    delay_strategy = fixed_delay zero_float;
    condition = exception_condition (any_exception ∷ []);
    should_raise_last = true;
    should_return_result = false;
    result_exhausted_behavior = return_last;
    exhausted_callback = none;
    exhausted_exception_factory = none;
    event_handlers = [];
    sleep = sleep;
    async_sleep = async_sleep;
    history_limit = some 1000;
    retry_budget = none;
    retry_budget_key = none;
    name = none;
    testing_mode = false;
  }

  -- `exception_types or default`
  abbrev exceptions_or_default : List ErrorClass → List ErrorClass → List ErrorClass
  exceptions_or_default [] default_types = default_types
  exceptions_or_default (t ∷ ts) default_types = t ∷ ts

  -- The transport errors that are the default of three presets.
  abbrev pub transport_errors : List ErrorClass
  transport_errors = timeout_error ∷ connection_error ∷ os_error ∷ []

  module _ (sleep : Float → Action (Unit {0}))
      (async_sleep : Float → Action (Candidate (Unit {0}))) where
    -- `fast`, its delay being the literal 0.1.
    pub fast : (tenth : Float) → List ErrorClass → Outcome RetryPolicy
    fast tenth types = do
      p ← attempts (default_policy sleep async_sleep) (nonnegative 3)
      q ← on p (exceptions_or_default types (any_exception ∷ []))
      Delays.fixed_delay q (real tenth)

    -- `network`, with the literal 0.25.
    pub network : (quarter : Float) → List ErrorClass → Outcome RetryPolicy
    network quarter types = do
      p ← attempts (default_policy sleep async_sleep) (nonnegative 5)
      q ← on p (exceptions_or_default types transport_errors)
      random_exponential_delay q (real quarter) (real (py.of_nat 2)) (real (py.of_nat 0))
          (some (real (py.of_nat 10))) none

    -- The other three: exponential backoff, and jitter up to a maximum.
    with_backoff : RetryPolicy → (base maximum maximum_jitter : Float) → Outcome RetryPolicy
    with_backoff p base maximum maximum_jitter = do
      q ← exponential_delay p (real base) (real (py.of_nat 2)) (some (real maximum))
      jitter q (real (py.of_nat 0)) (real maximum_jitter) none

    pub database : (tenth fifth : Float) → List ErrorClass → Outcome RetryPolicy
    unfolding with_backoff
    database tenth fifth types = do
      p ← attempts (default_policy sleep async_sleep) (nonnegative 4)
      q ← on p (exceptions_or_default types transport_errors)
      with_backoff q tenth (py.of_nat 2) fifth

    pub patient : List ErrorClass → Outcome RetryPolicy
    unfolding with_backoff
    patient types = do
      p ← attempts (default_policy sleep async_sleep) (nonnegative 8)
      q ← on p (exceptions_or_default types transport_errors)
      with_backoff q (py.of_nat 1) (py.of_nat 60) (py.of_nat 1)

    pub background_job : (half : Float) → List ErrorClass → Outcome RetryPolicy
    unfolding with_backoff
    background_job half types = do
      p ← attempts (default_policy sleep async_sleep) (nonnegative 10)
      q ← on p (exceptions_or_default types (any_exception ∷ []))
      with_backoff q half (py.of_nat 30) (py.of_nat 1)

    -- The policy of `retry(attempts=…, delay=…, on=…, return_result=…)`.
    pub retry_policy :
        IntegerArgument
        → (delay : Object) → List ErrorClass
        → (returns_result : Bool) → Outcome RetryPolicy
    retry_policy maximum delay types returns_result = do
      p ← attempts (default_policy sleep async_sleep) maximum
      q ← Delays.fixed_delay p delay
      r ← on q types
      if returns_result then return (return_result r) else return r

  -- `_normalize_transport_exceptions`, for classes that derive from BaseException.
  unfoldable pub normalize_transport_exceptions : List ErrorClass → Outcome (List ErrorClass)
  normalize_transport_exceptions types =
      if all is_exception_class types then return types else raise invalid_config_error

  -- `if transport_exception_types: policy = policy.or_on(...)`
  abbrev with_transport : RetryPolicy → List ErrorClass → Outcome RetryPolicy
  with_transport policy [] = return policy
  with_transport policy (t ∷ ts) = or_on policy (t ∷ ts)

  abbrev check_maximum : Option Object → Outcome (Unit {0})
  check_maximum none = return tt
  check_maximum (some maximum) = ensure_safe_delay maximum >>= λ _. return tt

  module _ (sleep : Float → Action (Unit {0})) (async_sleep : Float → Action (Candidate (Unit {0})))
      (dates : Dates) (responses : Responses) where
    -- The delay of the recipe: that of the header, or exponential with the default factor 2.
    abbrev with_http_delay : RetryPolicy → Object → Option Object → Bool → Outcome RetryPolicy
    with_http_delay policy default_delay maximum_delay true =
        retry_after_delay dates responses default_delay maximum_delay >>= λ delay.
        stateful_delay policy (λ state. float_action (delay state))
    with_http_delay policy default_delay maximum_delay false =
        exponential_delay policy default_delay (real (py.of_nat 2)) maximum_delay

    pub http_retry_policy :
        IntegerArgument
        → List StatusArgument
        → List ErrorClass
        → (default_delay : Object) (maximum_delay : Option Object) (respect_retry_after : Bool)
        → Outcome RetryPolicy
    http_retry_policy maximum statuses transport default_delay maximum_delay respect = do
      _ ← ensure_positive_int maximum
      _ ← ensure_safe_delay default_delay
      _ ← check_maximum maximum_delay
      types ← normalize_transport_exceptions transport
      p ← attempts (default_policy sleep async_sleep) maximum
      predicate ← retry_if_status statuses
      q ← retry_if_result p (λ v. pure (predicate (responses.view v).status_source))
      r ← with_transport q types
      with_http_delay r default_delay maximum_delay respect
