-- ===== src/Python/Floats.antt =====
-- The record of the runtime's operations, and notation for its floats.
use Prim.Native.String.{String}
use relinker.Prelude.{ℕ, ◌≤◌, ◌≡◌, ◌⊎◌, Bool, true, not, Option, if◌then◌else◌}
use relinker.Python.Exceptions.{ErrorClass}

-- `Float` holds the floats that are not NaN; `is_finite` tells the infinities apart.
pub record Python : Type 1 where
  pub Float : Type 0
  pub float_lt : Float → Float → Bool
  pub float_le : Float → Float → Bool
  pub float_add : Float → Float → Float
  pub float_sub : Float → Float → Float
  pub float_mul : Float → Float → Float
  -- `x ** n`; `none` is OverflowError.
  pub float_pow : Float → ℕ → Option Float
  -- A number that the source writes as a literal or computes as a count.
  pub of_nat : ℕ → Float
  pub infinity : Float
  pub is_finite : Float → Bool
  -- math.nextafter towards plus and minus infinity.
  pub next_up : Float → Float
  pub next_down : Float → Float
  -- A Python object, and `None`.
  pub Value : Type 0
  pub none_value : Value
  -- Whatever lies outside the library: clock, random source, the state of user code.
  pub Outside : Type 0
  pub monotonic : Outside → Float × Outside
  -- `Random(seed).uniform(low, high)`; without a seed it draws from the system.
  pub uniform : Option ℕ → Float → Float → Outside → Float × Outside
  pub is_subclass : ErrorClass → ErrorClass → Bool
  -- `not key.strip()`
  pub is_blank : String → Bool

module _ ⦃py : Python⦄ where
  abbrev pub Float : Type 0
  Float = py.Float

  abbrev pub Value : Type 0
  Value = py.Value

  infix 50 ◌<F◌ ◌≤F◌
  infixl 65 ◌+F◌ ◌-F◌
  infixl 70 ◌*F◌
  abbrev pub ◌<F◌ : Float → Float → Bool
  a <F b = py.float_lt a b

  abbrev pub ◌≤F◌ : Float → Float → Bool
  a ≤F b = py.float_le a b

  abbrev pub ◌+F◌ : Float → Float → Float
  a +F b = py.float_add a b

  abbrev pub ◌-F◌ : Float → Float → Float
  a -F b = py.float_sub a b

  abbrev pub ◌*F◌ : Float → Float → Float
  a *F b = py.float_mul a b

  -- Python's `min` and `max` of two numbers return the first one unless the second is better.
  abbrev pub float_min : Float → Float → Float
  float_min a b = if b <F a then b else a

  abbrev pub float_max : Float → Float → Float
  float_max a b = if a <F b then b else a

  abbrev pub zero_float : Float
  zero_float = py.of_nat 0

-- The documented behaviour of IEEE 754 doubles without NaN: `<=` is a total preorder with `<` its
-- strict part, subtraction of a finite number is monotone under rounding, and the float after `a + p`
-- has a difference to a finite `p` that is at least `a`.
pub record FloatLaws (py : Python) : Type 0 where
  pub lt_not_le : (a b : py.Float) → py.float_lt a b ≡ not (py.float_le b a)
  pub le_total : (a b : py.Float) → (py.float_le a b ≡ true) ⊎ (py.float_le b a ≡ true)
  pub le_trans :
      (a b c : py.Float) → py.float_le a b ≡ true → py.float_le b c ≡ true → py.float_le a c ≡ true
  pub sub_mono :
      (a b p : py.Float)
      → py.is_finite p ≡ true
      → py.float_le a b ≡ true
      → py.float_le (py.float_sub a p) (py.float_sub b p) ≡ true
  pub sub_next_add :
      (a p : py.Float)
      → py.is_finite p ≡ true
      → py.float_le a (py.float_sub (py.next_up (py.float_add a p)) p) ≡ true
  -- The counts up to a day's seconds, and what lies between finite numbers, are finite; no count is
  -- negative.
  pub count_finite : (n : ℕ) → n ≤ 86_400 → py.is_finite (py.of_nat n) ≡ true
  pub finite_between :
      (a x b : py.Float)
      → py.is_finite a ≡ true
      → py.is_finite b ≡ true
      → py.float_le a x ≡ true
      → py.float_le x b ≡ true
      → py.is_finite x ≡ true
  pub of_nat_nonneg : (n : ℕ) → py.float_le (py.of_nat 0) (py.of_nat n) ≡ true
