-- ===== src/Validation.antt =====
-- src/relinker/internal/validation.py: the checks of numbers that come from the user.
pub mod Accepts
use relinker.Prelude.{
  ℕ, zero, suc, ◌<◌, Bool, true, false, not, ◌&&◌, ◌||◌, Option, none, some, List, [], ◌∷◌, all,
  if◌then◌else◌,
}
use relinker.Python.{
  Python, Float, Value, ◌<F◌, ◌≤F◌, zero_float, Outcome, return, raise, ErrorClass, new_error,
  invalid_config_error, overflow_error, is_exception_class,
}

-- What the checks of integers tell apart: `bool` is not an integer for them.
pub data IntegerArgument : Type 0 where
  nonnegative : ℕ → IntegerArgument
  negative not_an_integer : IntegerArgument

-- `ensure_positive_int`, with the integer that passed.
pub ensure_positive_int : IntegerArgument → Outcome ℕ
ensure_positive_int (nonnegative zero) = raise invalid_config_error
ensure_positive_int (nonnegative (suc n)) = return (suc n)
ensure_positive_int _ = raise invalid_config_error

-- `ensure_exception_types`, for classes that derive from BaseException.
pub ensure_exception_types : List ErrorClass → Outcome (List ErrorClass)
ensure_exception_types [] = raise invalid_config_error
ensure_exception_types (c ∷ cs) =
    if all is_exception_class (c ∷ cs) then return (c ∷ cs) else raise invalid_config_error

module _ ⦃py : Python⦄ where
  -- An object where the code wants a number. An `int` comes with what `float` converts it to,
  -- `none` where that raises OverflowError.
  pub data Object : Type 0 where
    real : Float → Object
    not_a_number : Object
    integer : Option Float → Object
    boolean : Bool → Object
    other : Value → Object

  abbrev pub max_sleep_seconds : Float
  max_sleep_seconds = py.of_nat 86_400

  unfoldable pub require_finite : Float → Outcome Float
  require_finite x = if py.is_finite x then return x else raise invalid_config_error

  unfoldable pub ensure_finite_float : Object → Outcome Float
  unfolding require_finite
  ensure_finite_float (real x) = require_finite x
  ensure_finite_float not_a_number = raise invalid_config_error
  ensure_finite_float (integer (some x)) = require_finite x
  ensure_finite_float (integer none) = raise (new_error overflow_error)
  ensure_finite_float (boolean _) = raise invalid_config_error
  ensure_finite_float (other _) = raise invalid_config_error

  abbrev pub and_check : Outcome Float → (Float → Bool) → Outcome Float
  and_check (return x) bad = if bad x then raise invalid_config_error else return x
  and_check (raise e) bad = raise e

  unfoldable pub ensure_non_negative : Object → Outcome Float
  unfolding ensure_finite_float
  ensure_non_negative value = and_check (ensure_finite_float value) (λ x. x <F zero_float)

  unfoldable pub ensure_safe_delay : Object → Outcome Float
  unfolding ensure_finite_float
  ensure_safe_delay value =
      and_check (ensure_finite_float value) (λ x. (x <F zero_float) || (max_sleep_seconds <F x))

  -- `ensure_resolved_delay`: the same tests in one.
  pub ensure_resolved_delay : Object → Outcome Float
  unfolding ensure_finite_float
  ensure_resolved_delay value =
      and_check (ensure_finite_float value) (λ x. (x <F zero_float) || (max_sleep_seconds <F x))

  pub ensure_positive : Object → Outcome Float
  unfolding ensure_finite_float
  ensure_positive value = and_check (ensure_finite_float value) (λ x. x ≤F zero_float)
