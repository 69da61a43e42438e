-- ===== src/Condition.antt =====
-- src/relinker/conditions: whether an exception or a returned value asks for another attempt.
pub mod Flatten
use relinker.Prelude.{Bool, true, false, Option, none, some, List, any}
use relinker.Python.{
  Python, Value, ErrorClass, Error, class_of, Outcome, return, raise, invalid_config_error,
}
use relinker.Effects.{Action, pure, ◌>>=◌}
use relinker.Validation.{ensure_exception_types}

module _ ⦃py : Python⦄ where
  mutual
    -- The classes that implement RetryCondition. A callback returns the truth of its answer.
    pub data RetryCondition : Type 0 where
      exception_condition : List ErrorClass → RetryCondition
      result_condition : (Value → Action Bool) → RetryCondition
      custom_condition : (Option Error → Value → Action Bool) → RetryCondition
      any_condition all_condition : Conditions → RetryCondition
      user_condition : (Error → Action Bool) → (Value → Action Bool) → RetryCondition

    pub data Conditions : Type 0 where
      nil : Conditions
      cons : RetryCondition → Conditions → Conditions

  -- `isinstance(error, exception_types)`
  abbrev pub is_instance : Error → List ErrorClass → Bool
  is_instance error types = any (λ t. py.is_subclass (class_of error) t) types

  mutual
    pub should_retry_exception : RetryCondition → Error → Action Bool
    should_retry_exception (exception_condition types) error = pure (is_instance error types)
    should_retry_exception (result_condition predicate) error = pure false
    should_retry_exception (custom_condition callback) error = callback (some error) py.none_value
    should_retry_exception (any_condition cs) error = any_retries_exception cs error
    should_retry_exception (all_condition cs) error = all_retry_exception cs error
    should_retry_exception (user_condition on_error on_result) error = on_error error

    pub any_retries_exception : Conditions → Error → Action Bool
    any_retries_exception nil error = pure false
    any_retries_exception (cons c cs) error = should_retry_exception c error >>= λ b. elim b [
      | true ↦ pure true
      | false ↦ any_retries_exception cs error
    ]

    pub all_retry_exception : Conditions → Error → Action Bool
    all_retry_exception nil error = pure true
    all_retry_exception (cons c cs) error = should_retry_exception c error >>= λ b. elim b [
      | true ↦ all_retry_exception cs error
      | false ↦ pure false
    ]

  mutual
    pub should_retry_result : RetryCondition → Value → Action Bool
    should_retry_result (exception_condition types) value = pure false
    should_retry_result (result_condition predicate) value = predicate value
    should_retry_result (custom_condition callback) value = callback none value
    should_retry_result (any_condition cs) value = any_retries_result cs value
    should_retry_result (all_condition cs) value = all_retry_result cs value
    should_retry_result (user_condition on_error on_result) value = on_result value

    pub any_retries_result : Conditions → Value → Action Bool
    any_retries_result nil value = pure false
    any_retries_result (cons c cs) value = should_retry_result c value >>= λ b. elim b [
      | true ↦ pure true
      | false ↦ any_retries_result cs value
    ]

    pub all_retry_result : Conditions → Value → Action Bool
    all_retry_result nil value = pure true
    all_retry_result (cons c cs) value = should_retry_result c value >>= λ b. elim b [
      | true ↦ all_retry_result cs value
      | false ↦ pure false
    ]

  -- The constructors with their `__post_init__`.
  pub new_exception_condition : List ErrorClass → Outcome RetryCondition
  new_exception_condition types = elim (ensure_exception_types types) [
    | return ts ↦ return (exception_condition ts)
    | raise e ↦ raise e
  ]

  pub new_any_condition : Conditions → Outcome RetryCondition
  new_any_condition nil = raise invalid_config_error
  new_any_condition (cons c cs) = return (any_condition (cons c cs))

  pub new_all_condition : Conditions → Outcome RetryCondition
  new_all_condition nil = raise invalid_config_error
  new_all_condition (cons c cs) = return (all_condition (cons c cs))
