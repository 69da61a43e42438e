-- ===== src/Python/Ticks.antt =====
-- A concrete runtime at which the theorems are instantiated: time in whole ticks, never negative,
-- a clock that goes on by one tick at each reading, and numbers as the values of user code.
use relinker.Prelude.{
  ℕ, ◌+◌, ◌-◌, ◌*◌, ◌≡◌, refl, ◌⊎◌, Bool, true, false, not, ◌&&◌, some, ltb, leb, arith,
}
use Prim.Native.Nat.{◌^◌}
use relinker.Python.Exceptions.{
  ErrorClass, any_exception, is_exception_class, try_again, retry_exhausted, invalid_config,
  overflow_error, runtime_error, os_error, connection_error, timeout_error, application,
  application_signal, base_only,
}
use text.Mathlib.Text.{◌==◌ as str_eq}
use relinker.Python.Floats.{Python, FloatLaws}

abbrev pub same_class : ErrorClass → ErrorClass → Bool
same_class a any_exception = is_exception_class a
same_class try_again try_again = true
same_class retry_exhausted retry_exhausted = true
same_class invalid_config invalid_config = true
same_class overflow_error overflow_error = true
same_class runtime_error runtime_error = true
same_class os_error os_error = true
same_class connection_error connection_error = true
same_class connection_error os_error = true
same_class timeout_error timeout_error = true
same_class timeout_error os_error = true
same_class (application a) (application b) = leb a b && leb b a
same_class (application_signal a) (application_signal b) = leb a b && leb b a
same_class (application_signal a) try_again = true
same_class (base_only a) (base_only b) = leb a b && leb b a
same_class _ _ = false

instance abbrev pub ticks_python : Python
ticks_python = record {
  Float = ℕ;
  float_lt = ltb;
  float_le = leb;
  float_add = λ a b. a + b;
  float_sub = λ a b. a - b;
  float_mul = λ a b. a * b;
  float_pow = λ a n. some (a ^ n);
  of_nat = λ n. n;
  infinity = 1_000_000_000_000;
  is_finite = λ _. true;
  next_up = λ a. a + 1;
  next_down = λ a. a - 1;
  Value = ℕ;
  none_value = 0;
  Outside = ℕ;
  monotonic = λ t. (t, t + 1);
  uniform = λ _ low _ t. (low, t);
  is_subclass = same_class;
  is_blank = λ s. str_eq s "";
}

lt_not_le : (a b : ℕ) → ltb a b ≡ not (leb b a)
lt_not_le a b = ground arith

le_total : (a b : ℕ) → (leb a b ≡ true) ⊎ (leb b a ≡ true)
le_total a b = ground arith

le_trans : (a b c : ℕ) → leb a b ≡ true → leb b c ≡ true → leb a c ≡ true
le_trans a b c h k = ground arith

sub_mono : (a b p : ℕ) → leb a b ≡ true → leb (a - p) (b - p) ≡ true
sub_mono a b p h = ground arith

sub_next_add : (a p : ℕ) → leb a (a + p + 1 - p) ≡ true
sub_next_add a p = ground arith

zero_le : (n : ℕ) → leb 0 n ≡ true
zero_le n = ground arith

pub ticks-FloatLaws : FloatLaws ticks_python
ticks-FloatLaws = record {
  lt_not_le = lt_not_le;
  le_total = le_total;
  le_trans = le_trans;
  sub_mono = λ a b p _. sub_mono a b p;
  sub_next_add = λ a p _. sub_next_add a p;
  count_finite = λ n _. refl;
  finite_between = λ a x b _ _ _ _. refl;
  of_nat_nonneg = zero_le;
}
