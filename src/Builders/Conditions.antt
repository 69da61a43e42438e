-- ===== src/Builders/Conditions.antt =====
-- The builders of src/relinker/policy.py that set or extend the retry condition.
pub mod Combined
use relinker.Prelude.{Bool, Option, List, [], ◌∷◌, all, if◌then◌else◌}
use relinker.Python.{
  Python, Value, Error, ErrorClass, any_exception, is_exception_class, Outcome, return, raise,
  invalid_config_error,
}
use relinker.Python.Outcomes.{◌>>=◌}
use relinker.Effects.{Action}
use relinker.Condition.{
  RetryCondition, result_condition, custom_condition, Conditions, nil, cons,
  new_exception_condition, new_any_condition, new_all_condition,
}
use relinker.Condition.Flatten.{flatten_any_conditions, flatten_all_conditions}
use relinker.Policy.{RetryPolicy, post_init}

module _ ⦃py : Python⦄ where
  -- `replace(self, condition=condition)`
  pub with_condition : RetryPolicy → RetryCondition → Outcome RetryPolicy
  with_condition p condition = post_init (record p { condition = condition })

  -- `exception_types or (Exception,)`
  abbrev or_exception : List ErrorClass → List ErrorClass
  or_exception [] = any_exception ∷ []
  or_exception (c ∷ cs) = c ∷ cs

  -- `on`, for arguments that are exception classes.
  pub on : RetryPolicy → List ErrorClass → Outcome RetryPolicy
  unfolding with_condition
  on p exception_types =
      let types = or_exception exception_types in
      if all is_exception_class types
      then (new_exception_condition types >>= with_condition p)
      else raise invalid_config_error

  pub retry_if_result : RetryPolicy → (Value → Action Bool) → Outcome RetryPolicy
  unfolding with_condition
  retry_if_result p predicate = with_condition p (result_condition predicate)

  pub retry_if : RetryPolicy → (Option Error → Value → Action Bool) → Outcome RetryPolicy
  unfolding with_condition
  retry_if p callback = with_condition p (custom_condition callback)

  -- `any_condition(*conditions)` and `all_conditions(*conditions)`.
  pub retry_if_any : RetryPolicy → Conditions → Outcome RetryPolicy
  unfolding with_condition
  retry_if_any p conditions = do
    c ← new_any_condition (flatten_any_conditions conditions)
    with_condition p c

  pub retry_if_all : RetryPolicy → Conditions → Outcome RetryPolicy
  unfolding with_condition
  retry_if_all p conditions = do
    c ← new_all_condition (flatten_all_conditions conditions)
    with_condition p c

  pub or_on : RetryPolicy → List ErrorClass → Outcome RetryPolicy
  unfolding with_condition
  or_on p exception_types = do
    c ← new_exception_condition exception_types
    either ← new_any_condition (flatten_any_conditions (cons p.condition (cons c nil)))
    with_condition p either

  pub or_retry_if_result : RetryPolicy → (Value → Action Bool) → Outcome RetryPolicy
  unfolding with_condition
  or_retry_if_result p predicate = do
    let c = result_condition predicate
    either ← new_any_condition (flatten_any_conditions (cons p.condition (cons c nil)))
    with_condition p either
