-- ===== src/Diagnostics/Conditions.antt =====
-- What src/relinker/internal/policy_diagnostics.py reads off a retry condition.
use relinker.Prelude.{Bool, true, false, ◌&&◌, ◌||◌, any}
use relinker.Python.{Python, ErrorClass, any_exception, os_error}
use relinker.Condition.{
  RetryCondition, exception_condition, result_condition, any_condition, all_condition, Conditions,
  nil, cons,
}

-- `exception_type is Exception`, and `… is OSError`.
abbrev pub is_broad_class : ErrorClass → Bool
is_broad_class any_exception = true
is_broad_class _ = false

abbrev pub is_broad_os_class : ErrorClass → Bool
is_broad_os_class os_error = true
is_broad_os_class any_exception = true
is_broad_os_class _ = false

module _ ⦃py : Python⦄ where
  unfoldable mutual
    pub has_result_condition : RetryCondition → Bool
    has_result_condition (result_condition predicate) = true
    has_result_condition (any_condition cs) = some_has_result_condition cs
    has_result_condition (all_condition cs) = some_has_result_condition cs
    has_result_condition _ = false

    pub some_has_result_condition : Conditions → Bool
    some_has_result_condition nil = false
    some_has_result_condition (cons c cs) = has_result_condition c || some_has_result_condition cs

  unfoldable mutual
    pub has_broad_exception : RetryCondition → Bool
    has_broad_exception (exception_condition types) = any is_broad_class types
    has_broad_exception (any_condition cs) = some_is_broad cs
    has_broad_exception (all_condition cs) = all_are_broad cs
    has_broad_exception _ = false

    pub some_is_broad : Conditions → Bool
    some_is_broad nil = false
    some_is_broad (cons c cs) = has_broad_exception c || some_is_broad cs

    pub all_are_broad : Conditions → Bool
    all_are_broad nil = true
    all_are_broad (cons c cs) = has_broad_exception c && all_are_broad cs

  unfoldable mutual
    pub has_broad_os_error : RetryCondition → Bool
    has_broad_os_error (exception_condition types) = any is_broad_os_class types
    has_broad_os_error (any_condition cs) = some_is_broad_os cs
    has_broad_os_error (all_condition cs) = all_are_broad_os cs
    has_broad_os_error _ = false

    pub some_is_broad_os : Conditions → Bool
    some_is_broad_os nil = false
    some_is_broad_os (cons c cs) = has_broad_os_error c || some_is_broad_os cs

    pub all_are_broad_os : Conditions → Bool
    all_are_broad_os nil = true
    all_are_broad_os (cons c cs) = has_broad_os_error c && all_are_broad_os cs
