-- ===== src/Validation/Accepts.antt =====
-- What the checks of src/relinker/internal/validation.py let through.
use relinker.Prelude.{ℕ, suc, ◌≡◌, refl, List, ◌∷◌, all, none, some, true, false, arith}
use relinker.Python.{Python, Float, ◌<F◌, zero_float, return, ErrorClass, is_exception_class}
use relinker.Validation.{
  nonnegative, ensure_positive_int, ensure_exception_types, Object, real, not_a_number, integer,
  boolean, other, max_sleep_seconds, ensure_resolved_delay, ensure_safe_delay,
}

pub ensure_positive_int_of : (k : ℕ) → ensure_positive_int (nonnegative (suc k)) ≡ return (suc k)
unfolding ensure_positive_int
ensure_positive_int_of k = refl

pub ensure_exception_types_of :
    (c : ErrorClass) (cs : List ErrorClass)
    → all is_exception_class (c ∷ cs) ≡ true
    → ensure_exception_types (c ∷ cs) ≡ return (c ∷ cs)
unfolding ensure_exception_types
ensure_exception_types_of c cs h = rw h refl

module _ ⦃py : Python⦄ where
  -- A delay that may reach a sleeper: finite, not negative and at most the operational ceiling.
  pub record IsSafeDelay (x : Float) : Type 0 where
    pub finite : py.is_finite x ≡ true
    pub nonneg : x <F zero_float ≡ false
    pub capped : max_sleep_seconds <F x ≡ false

  -- A resolved delay is safe, whatever object it was read from.
  pub ensure_resolved_delay-IsSafeDelay :
      (o : Object) {x : Float} → ensure_resolved_delay o ≡ return x → IsSafeDelay x
  unfolding ensure_resolved_delay
  ensure_resolved_delay-IsSafeDelay (real y) h = ground arith
  ensure_resolved_delay-IsSafeDelay (integer (some y)) h = ground arith
  ensure_resolved_delay-IsSafeDelay (integer none) h = ground arith
  ensure_resolved_delay-IsSafeDelay not_a_number h = ground arith
  ensure_resolved_delay-IsSafeDelay (boolean b) h = ground arith
  ensure_resolved_delay-IsSafeDelay (other v) h = ground arith

  -- Of a float, it is that float.
  pub ensure_resolved_delay_same :
      (x : Float) {y : Float} → ensure_resolved_delay (real x) ≡ return y → y ≡ x
  unfolding ensure_resolved_delay
  ensure_resolved_delay_same x h = ground arith

  -- A configured delay is safe, too.
  pub ensure_safe_delay-IsSafeDelay :
      (o : Object) {x : Float} → ensure_safe_delay o ≡ return x → IsSafeDelay x
  unfolding ensure_safe_delay
  ensure_safe_delay-IsSafeDelay (real y) h = ground arith
  ensure_safe_delay-IsSafeDelay (integer (some y)) h = ground arith
  ensure_safe_delay-IsSafeDelay (integer none) h = ground arith
  ensure_safe_delay-IsSafeDelay not_a_number h = ground arith
  ensure_safe_delay-IsSafeDelay (boolean b) h = ground arith
  ensure_safe_delay-IsSafeDelay (other v) h = ground arith
