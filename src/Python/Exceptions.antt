-- ===== src/Python/Exceptions.antt =====
-- Exceptions: a class, an identity, and the three attributes that chain them.
use relinker.Prelude.{ℕ, Bool, true, false}

-- The classes that src/relinker/exceptions.py defines, those of Python's that the source names, and
-- those of the application: subclasses of Exception, of TryAgain among them, and other BaseException
-- subclasses such as KeyboardInterrupt.
pub data ErrorClass : Type 0 where
  any_exception : ErrorClass
  try_again retry_exhausted invalid_config overflow_error runtime_error : ErrorClass
  os_error connection_error timeout_error : ErrorClass
  application : ℕ → ErrorClass
  application_signal : ℕ → ErrorClass
  base_only : ℕ → ErrorClass

mutual
  pub data Error : Type 0 where
    exception_object :
        (class : ErrorClass) (ident : ℕ) (cause context : Link) (suppress : Bool) → Error

  pub data Link : Type 0 where
    absent : Link
    present : Error → Link

abbrev pub class_of : Error → ErrorClass
class_of (exception_object class _ _ _ _) = class

abbrev pub is_try_again_class : ErrorClass → Bool
is_try_again_class try_again = true
is_try_again_class (application_signal _) = true
is_try_again_class _ = false

abbrev pub is_exception_class : ErrorClass → Bool
is_exception_class (base_only _) = false
is_exception_class _ = true

-- `isinstance(error, TryAgain)` and `isinstance(error, Exception)`.
abbrev pub is_try_again : Error → Bool
is_try_again e = is_try_again_class (class_of e)

abbrev pub is_exception : Error → Bool
is_exception e = is_exception_class (class_of e)

-- `InvalidRetryConfigError(...)`; messages are left out.
abbrev pub invalid_config_error : Error
invalid_config_error = exception_object invalid_config 0 absent absent false

abbrev pub new_error : ErrorClass → Error
new_error class = exception_object class 0 absent absent false

-- What a call ends in: a value, or an exception that propagates.
pub data Outcome {ℓ} (A : Type ℓ) : Type ℓ where
  return : A → Outcome A
  raise : Error → Outcome A
