-- ===== src/Condition/Flatten/Either.antt =====
-- What an OR condition of two conditions answers, and the conditions that `or_on` and
-- `or_retry_if_result` of src/relinker/policy.py combine.
use relinker.Prelude.{◌≡◌, refl, ◌∙◌, Bool, true, false, List, ◌∷◌, all}
use relinker.Python.{Python, Value, Error, ErrorClass, is_exception_class, return}
use relinker.Effects.{World, Action, pure, ◌>>=◌}
use relinker.Effects.Laws.{or_else, or_same, or_last}
use relinker.Condition.{
  RetryCondition, exception_condition, result_condition, custom_condition, any_condition,
  all_condition, user_condition, Conditions, nil, cons, should_retry_exception,
  any_retries_exception, should_retry_result, any_retries_result, is_instance, new_any_condition,
  new_exception_condition,
}
use relinker.Validation.Accepts.{ensure_exception_types_of}
use relinker.Condition.Flatten.{
  extend, flatten_any_conditions, any_retries_exception-flatten_any_conditions,
  any_retries_result-flatten_any_conditions,
}

module _ ⦃py : Python⦄ where
  module _ (error : Error) where
    any_retries_exception_last :
        (c : RetryCondition) (w : World)
        → any_retries_exception (cons c nil) error w ≡ should_retry_exception c error w
    unfolding any_retries_exception
    any_retries_exception_last c w = or_last (should_retry_exception c error) w

    pub should_retry_exception-either :
        (a b : RetryCondition) (w : World)
        → should_retry_exception
            (any_condition (flatten_any_conditions (cons a (cons b nil))))
            error
            w
          ≡ (should_retry_exception a error >>= or_else (should_retry_exception b error)) w
    unfolding should_retry_exception any_retries_exception
    should_retry_exception-either a b w =
        any_retries_exception-flatten_any_conditions error (cons a (cons b nil)) w
        ∙ or_same _ _ (any_retries_exception_last b) (should_retry_exception a error) w

  module _ (value : Value) where
    any_retries_result_last :
        (c : RetryCondition) (w : World)
        → any_retries_result (cons c nil) value w ≡ should_retry_result c value w
    unfolding any_retries_result
    any_retries_result_last c w = or_last (should_retry_result c value) w

    pub should_retry_result-either :
        (a b : RetryCondition) (w : World)
        → should_retry_result (any_condition (flatten_any_conditions (cons a (cons b nil)))) value w
          ≡ (should_retry_result a value >>= or_else (should_retry_result b value)) w
    unfolding should_retry_result any_retries_result
    should_retry_result-either a b w =
        any_retries_result-flatten_any_conditions value (cons a (cons b nil)) w
        ∙ or_same _ _ (any_retries_result_last b) (should_retry_result a value) w

  pub should_retry-exception_condition :
      (types : List ErrorClass) (error : Error)
      → should_retry_exception (exception_condition types) error ≡ pure (is_instance error types)
  unfolding should_retry_exception
  should_retry-exception_condition types error = refl

  pub should_retry_result-exception_condition :
      (types : List ErrorClass) (value : Value)
      → should_retry_result (exception_condition types) value ≡ pure false
  unfolding should_retry_result
  should_retry_result-exception_condition types value = refl

  pub should_retry_exception-result_condition :
      (predicate : Value → Action Bool) (error : Error)
      → should_retry_exception (result_condition predicate) error ≡ pure false
  unfolding should_retry_exception
  should_retry_exception-result_condition predicate error = refl

  pub should_retry_result-result_condition :
      (predicate : Value → Action Bool) (value : Value)
      → should_retry_result (result_condition predicate) value ≡ predicate value
  unfolding should_retry_result
  should_retry_result-result_condition predicate value = refl

  extend_any :
      (cs ts : Conditions) (t : RetryCondition)
      → new_any_condition (extend cs (cons t ts)) ≡ return (any_condition (extend cs (cons t ts)))
  unfolding new_any_condition
  extend_any nil ts t = refl
  extend_any (cons s ss) ts t = refl

  pub new_exception_condition_of :
      (c : ErrorClass) (cs : List ErrorClass)
      → all is_exception_class (c ∷ cs) ≡ true
      → new_exception_condition (c ∷ cs) ≡ return (exception_condition (c ∷ cs))
  unfolding new_exception_condition
  new_exception_condition_of c cs h =
      rw (new_exception_condition, ensure_exception_types_of c cs h) refl

  pub new_any_condition-exception_condition :
      (a : RetryCondition) (k : List ErrorClass)
      → new_any_condition (flatten_any_conditions (cons a (cons (exception_condition k) nil)))
        ≡ return
            (any_condition (flatten_any_conditions (cons a (cons (exception_condition k) nil))))
  unfolding new_any_condition flatten_any_conditions
  new_any_condition-exception_condition (exception_condition ts) k = refl
  new_any_condition-exception_condition (result_condition f) k = refl
  new_any_condition-exception_condition (custom_condition f) k = refl
  new_any_condition-exception_condition (any_condition xs) k =
      extend_any xs nil (exception_condition k)
  new_any_condition-exception_condition (all_condition xs) k = refl
  new_any_condition-exception_condition (user_condition f g) k = refl

  pub new_any_condition-result_condition :
      (a : RetryCondition) (k : Value → Action Bool)
      → new_any_condition (flatten_any_conditions (cons a (cons (result_condition k) nil)))
        ≡ return (any_condition (flatten_any_conditions (cons a (cons (result_condition k) nil))))
  unfolding new_any_condition flatten_any_conditions
  new_any_condition-result_condition (exception_condition ts) k = refl
  new_any_condition-result_condition (result_condition f) k = refl
  new_any_condition-result_condition (custom_condition f) k = refl
  new_any_condition-result_condition (any_condition xs) k = extend_any xs nil (result_condition k)
  new_any_condition-result_condition (all_condition xs) k = refl
  new_any_condition-result_condition (user_condition f g) k = refl
