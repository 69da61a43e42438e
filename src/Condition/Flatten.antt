-- ===== src/Condition/Flatten.antt =====
-- `_flatten_any_conditions` and `_flatten_all_conditions` of src/relinker/policy.py.
pub mod Either
use relinker.Prelude.{◌≡◌, refl, ◌∙◌, sym, Bool, true, false, List, ◌∷◌, all}
use relinker.Python.{Python, Value, Error, ErrorClass, is_exception_class, return}
use relinker.Effects.{World, Action, pure, ◌>>=◌}
use relinker.Effects.Laws.{or_else, and_then, or_same, and_same, or_assoc, and_assoc, or_last}
use relinker.Condition.{
  RetryCondition, exception_condition, result_condition, custom_condition, any_condition,
  all_condition, user_condition, Conditions, nil, cons, should_retry_exception,
  any_retries_exception, all_retry_exception, should_retry_result, any_retries_result,
  all_retry_result, is_instance, new_any_condition, new_exception_condition,
}
use relinker.Validation.Accepts.{ensure_exception_types_of}

module _ ⦃py : Python⦄ where
  -- `flattened.extend(condition.conditions)`, in front of what follows.
  abbrev pub extend : Conditions → Conditions → Conditions
  extend nil ts = ts
  extend (cons s ss) ts = cons s (extend ss ts)

  pub flatten_any_conditions : Conditions → Conditions
  flatten_any_conditions nil = nil
  flatten_any_conditions (cons (any_condition cs) rest) = extend cs (flatten_any_conditions rest)
  flatten_any_conditions (cons c rest) = cons c (flatten_any_conditions rest)

  pub flatten_all_conditions : Conditions → Conditions
  flatten_all_conditions nil = nil
  flatten_all_conditions (cons (all_condition cs) rest) = extend cs (flatten_all_conditions rest)
  flatten_all_conditions (cons c rest) = cons c (flatten_all_conditions rest)

  module _ (error : Error) where
    any_retries_exception-extend :
        (ss ts : Conditions) (w : World)
        → any_retries_exception (extend ss ts) error w
          ≡ (any_retries_exception ss error >>= or_else (any_retries_exception ts error)) w
    unfolding any_retries_exception ◌>>=◌ pure
    any_retries_exception-extend nil ts w = refl
    any_retries_exception-extend (cons s ss) ts w =
        or_same _ _ (any_retries_exception-extend ss ts) (should_retry_exception s error) w
        ∙ sym (
            or_assoc (should_retry_exception s error) (any_retries_exception ss error)
              (any_retries_exception ts error) w)

    -- Flattening an OR asks the same of an exception.
    pub any_retries_exception-flatten_any_conditions :
        (ss : Conditions) (w : World)
        → any_retries_exception (flatten_any_conditions ss) error w
          ≡ any_retries_exception ss error w
    unfolding flatten_any_conditions any_retries_exception should_retry_exception ◌>>=◌
    any_retries_exception-flatten_any_conditions nil w = refl
    any_retries_exception-flatten_any_conditions (cons (exception_condition ts) rest) w =
        or_same _ _ (any_retries_exception-flatten_any_conditions rest)
          (should_retry_exception (exception_condition ts) error) w
    any_retries_exception-flatten_any_conditions (cons (result_condition f) rest) w =
        or_same _ _ (any_retries_exception-flatten_any_conditions rest)
          (should_retry_exception (result_condition f) error) w
    any_retries_exception-flatten_any_conditions (cons (custom_condition f) rest) w =
        or_same _ _ (any_retries_exception-flatten_any_conditions rest)
          (should_retry_exception (custom_condition f) error) w
    any_retries_exception-flatten_any_conditions (cons (any_condition xs) rest) w =
        any_retries_exception-extend xs (flatten_any_conditions rest) w
        ∙ or_same _ _ (any_retries_exception-flatten_any_conditions rest)
            (any_retries_exception xs error) w
    any_retries_exception-flatten_any_conditions (cons (all_condition xs) rest) w =
        or_same _ _ (any_retries_exception-flatten_any_conditions rest)
          (should_retry_exception (all_condition xs) error) w
    any_retries_exception-flatten_any_conditions (cons (user_condition f g) rest) w =
        or_same _ _ (any_retries_exception-flatten_any_conditions rest)
          (should_retry_exception (user_condition f g) error) w

    all_retry_exception-extend :
        (ss ts : Conditions) (w : World)
        → all_retry_exception (extend ss ts) error w
          ≡ (all_retry_exception ss error >>= and_then (all_retry_exception ts error)) w
    unfolding all_retry_exception ◌>>=◌ pure
    all_retry_exception-extend nil ts w = refl
    all_retry_exception-extend (cons s ss) ts w =
        and_same _ _ (all_retry_exception-extend ss ts) (should_retry_exception s error) w
        ∙ sym (
            and_assoc (should_retry_exception s error) (all_retry_exception ss error)
              (all_retry_exception ts error) w)

    -- Flattening an AND asks the same of an exception.
    pub all_retry_exception-flatten_all_conditions :
        (ss : Conditions) (w : World)
        → all_retry_exception (flatten_all_conditions ss) error w ≡ all_retry_exception ss error w
    unfolding flatten_all_conditions all_retry_exception should_retry_exception ◌>>=◌
    all_retry_exception-flatten_all_conditions nil w = refl
    all_retry_exception-flatten_all_conditions (cons (exception_condition ts) rest) w =
        and_same _ _ (all_retry_exception-flatten_all_conditions rest)
          (should_retry_exception (exception_condition ts) error) w
    all_retry_exception-flatten_all_conditions (cons (result_condition f) rest) w =
        and_same _ _ (all_retry_exception-flatten_all_conditions rest)
          (should_retry_exception (result_condition f) error) w
    all_retry_exception-flatten_all_conditions (cons (custom_condition f) rest) w =
        and_same _ _ (all_retry_exception-flatten_all_conditions rest)
          (should_retry_exception (custom_condition f) error) w
    all_retry_exception-flatten_all_conditions (cons (any_condition xs) rest) w =
        and_same _ _ (all_retry_exception-flatten_all_conditions rest)
          (should_retry_exception (any_condition xs) error) w
    all_retry_exception-flatten_all_conditions (cons (all_condition xs) rest) w =
        all_retry_exception-extend xs (flatten_all_conditions rest) w
        ∙ and_same _ _ (all_retry_exception-flatten_all_conditions rest)
            (all_retry_exception xs error) w
    all_retry_exception-flatten_all_conditions (cons (user_condition f g) rest) w =
        and_same _ _ (all_retry_exception-flatten_all_conditions rest)
          (should_retry_exception (user_condition f g) error) w

  module _ (value : Value) where
    any_retries_result-extend :
        (ss ts : Conditions) (w : World)
        → any_retries_result (extend ss ts) value w
          ≡ (any_retries_result ss value >>= or_else (any_retries_result ts value)) w
    unfolding any_retries_result ◌>>=◌ pure
    any_retries_result-extend nil ts w = refl
    any_retries_result-extend (cons s ss) ts w =
        or_same _ _ (any_retries_result-extend ss ts) (should_retry_result s value) w
        ∙ sym (
            or_assoc (should_retry_result s value) (any_retries_result ss value)
              (any_retries_result ts value) w)

    -- Flattening an OR asks the same of a value.
    pub any_retries_result-flatten_any_conditions :
        (ss : Conditions) (w : World)
        → any_retries_result (flatten_any_conditions ss) value w ≡ any_retries_result ss value w
    unfolding flatten_any_conditions any_retries_result should_retry_result ◌>>=◌
    any_retries_result-flatten_any_conditions nil w = refl
    any_retries_result-flatten_any_conditions (cons (exception_condition ts) rest) w =
        or_same _ _ (any_retries_result-flatten_any_conditions rest)
          (should_retry_result (exception_condition ts) value) w
    any_retries_result-flatten_any_conditions (cons (result_condition f) rest) w =
        or_same _ _ (any_retries_result-flatten_any_conditions rest)
          (should_retry_result (result_condition f) value) w
    any_retries_result-flatten_any_conditions (cons (custom_condition f) rest) w =
        or_same _ _ (any_retries_result-flatten_any_conditions rest)
          (should_retry_result (custom_condition f) value) w
    any_retries_result-flatten_any_conditions (cons (any_condition xs) rest) w =
        any_retries_result-extend xs (flatten_any_conditions rest) w
        ∙ or_same _ _ (any_retries_result-flatten_any_conditions rest) (any_retries_result xs value)
            w
    any_retries_result-flatten_any_conditions (cons (all_condition xs) rest) w =
        or_same _ _ (any_retries_result-flatten_any_conditions rest)
          (should_retry_result (all_condition xs) value) w
    any_retries_result-flatten_any_conditions (cons (user_condition f g) rest) w =
        or_same _ _ (any_retries_result-flatten_any_conditions rest)
          (should_retry_result (user_condition f g) value) w

    all_retry_result-extend :
        (ss ts : Conditions) (w : World)
        → all_retry_result (extend ss ts) value w
          ≡ (all_retry_result ss value >>= and_then (all_retry_result ts value)) w
    unfolding all_retry_result ◌>>=◌ pure
    all_retry_result-extend nil ts w = refl
    all_retry_result-extend (cons s ss) ts w =
        and_same _ _ (all_retry_result-extend ss ts) (should_retry_result s value) w
        ∙ sym (
            and_assoc (should_retry_result s value) (all_retry_result ss value)
              (all_retry_result ts value) w)

    -- Flattening an AND asks the same of a value.
    pub all_retry_result-flatten_all_conditions :
        (ss : Conditions) (w : World)
        → all_retry_result (flatten_all_conditions ss) value w ≡ all_retry_result ss value w
    unfolding flatten_all_conditions all_retry_result should_retry_result ◌>>=◌
    all_retry_result-flatten_all_conditions nil w = refl
    all_retry_result-flatten_all_conditions (cons (exception_condition ts) rest) w =
        and_same _ _ (all_retry_result-flatten_all_conditions rest)
          (should_retry_result (exception_condition ts) value) w
    all_retry_result-flatten_all_conditions (cons (result_condition f) rest) w =
        and_same _ _ (all_retry_result-flatten_all_conditions rest)
          (should_retry_result (result_condition f) value) w
    all_retry_result-flatten_all_conditions (cons (custom_condition f) rest) w =
        and_same _ _ (all_retry_result-flatten_all_conditions rest)
          (should_retry_result (custom_condition f) value) w
    all_retry_result-flatten_all_conditions (cons (any_condition xs) rest) w =
        and_same _ _ (all_retry_result-flatten_all_conditions rest)
          (should_retry_result (any_condition xs) value) w
    all_retry_result-flatten_all_conditions (cons (all_condition xs) rest) w =
        all_retry_result-extend xs (flatten_all_conditions rest) w
        ∙ and_same _ _ (all_retry_result-flatten_all_conditions rest) (all_retry_result xs value) w
    all_retry_result-flatten_all_conditions (cons (user_condition f g) rest) w =
        and_same _ _ (all_retry_result-flatten_all_conditions rest)
          (should_retry_result (user_condition f g) value) w
