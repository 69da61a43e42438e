-- ===== src/Diagnostics/Delays.antt =====
-- What src/relinker/internal/policy_diagnostics.py reads off a delay strategy.
use relinker.Prelude.{
  ℕ, Bool, true, false, not, ◌&&◌, ◌||◌, Option, none, some, ◌∷◌, all, ◌==◌, if◌then◌else◌,
}
use relinker.Python.{Python, Float, ◌<F◌, ◌≤F◌, zero_float, float_min}
use relinker.Records.{is_some}
use relinker.Delay.{
  DelayStrategy, fixed_delay, linear_delay, exponential_delay, random_delay,
  random_exponential_delay, chain_delay, growth,
}
use relinker.Delay.Walk.{search_tree}

module _ ⦃py : Python⦄ where
  -- `x == 0`, `x > 0`
  abbrev pub equals_zero : Float → Bool
  equals_zero x = (x ≤F zero_float) && (zero_float ≤F x)

  abbrev positive : Float → Bool
  positive x = zero_float <F x

  -- `maximum == 0`, where None is not equal to it.
  abbrev zero_maximum : Option Float → Bool
  zero_maximum none = false
  zero_maximum (some m) = equals_zero m

  -- `maximum = float("inf") if current.maximum is None else current.maximum`, and `maximum > 0`.
  abbrev maximum_or_infinity : Option Float → Float
  maximum_or_infinity none = py.infinity
  maximum_or_infinity (some m) = m

  -- The strategies at which the loop of `_delay_is_always_zero` returns False.
  pub is_not_zero : DelayStrategy → Bool
  is_not_zero (fixed_delay seconds) = not (equals_zero seconds)
  is_not_zero (linear_delay start step maximum) =
      not (zero_maximum maximum || (equals_zero start && equals_zero step))
  is_not_zero (exponential_delay base factor maximum) =
      not (equals_zero base || zero_maximum maximum)
  is_not_zero (chain_delay first rest) = not (all equals_zero (first ∷ rest))
  is_not_zero (random_delay minimum maximum seed) = not (equals_zero minimum && equals_zero maximum)
  is_not_zero (random_exponential_delay base factor minimum maximum seed) =
      not (equals_zero minimum && (equals_zero base || zero_maximum maximum))
  is_not_zero _ = true

  unfoldable pub delay_is_always_zero : DelayStrategy → Bool
  unfolding is_not_zero
  delay_is_always_zero d = not (search_tree is_not_zero d)

  -- `strategy.maximum is not None and strategy.maximum <= strategy.minimum`
  abbrev never_above : Option Float → Float → Bool
  never_above none minimum = false
  never_above (some m) minimum = m ≤F minimum

  -- `strategy.factor <= 1 or maximum_delay_attempts == 1`, unbounded, and the last reachable power,
  -- infinite on OverflowError.
  abbrev largest_cap : Float → Float → Option ℕ → Float
  largest_cap base factor none = if factor ≤F py.of_nat 1 then base else py.infinity
  largest_cap base factor (some n) =
      if (factor ≤F py.of_nat 1) || n == 1 then base else growth base factor n

  abbrev cap_at : Float → Option Float → Float
  cap_at largest none = largest
  cap_at largest (some m) = float_min largest m

  abbrev none_at_all : Option ℕ → Bool
  none_at_all none = false
  none_at_all (some n) = n == 0

  pub random_exponential_can_vary :
      (base factor minimum : Float) (maximum : Option Float) (maximum_delay_attempts : Option ℕ)
      → Bool
  unfolding growth
  random_exponential_can_vary base factor minimum maximum attempts =
      if none_at_all attempts || (base ≤F zero_float)
      then false
      else if never_above maximum minimum
      then false
      else minimum <F cap_at (largest_cap base factor attempts) maximum

  -- `seeded is None or (current_seed is not None) is seeded`
  abbrev pub seed_matches : Option Bool → Option ℕ → Bool
  seed_matches none seed = true
  seed_matches (some true) seed = is_some seed
  seed_matches (some false) seed = not (is_some seed)

  -- A round of `_has_effective_random_delay` that returns True.
  pub varies : Option ℕ → Option Bool → DelayStrategy → Bool
  unfolding random_exponential_can_vary
  varies attempts seeded (random_delay minimum maximum seed) =
      (minimum <F maximum) && seed_matches seeded seed
  varies attempts seeded (random_exponential_delay base factor minimum maximum seed) =
      random_exponential_can_vary base factor minimum maximum attempts && seed_matches seeded seed
  varies attempts seeded _ = false

  unfoldable pub has_effective_random_delay : DelayStrategy → Option ℕ → Option Bool → Bool
  unfolding varies
  has_effective_random_delay d attempts seeded =
      if none_at_all attempts then false else search_tree (varies attempts seeded) d

  -- A round of `_has_positive_deterministic_delay` that returns True.
  pub is_positive_deterministic : DelayStrategy → Bool
  is_positive_deterministic (fixed_delay seconds) = positive seconds
  is_positive_deterministic (linear_delay start step maximum) =
      positive (maximum_or_infinity maximum) && (positive start || positive step)
  is_positive_deterministic (exponential_delay base factor maximum) =
      positive (maximum_or_infinity maximum) && positive base
  is_positive_deterministic _ = false

  unfoldable pub has_positive_deterministic_delay : DelayStrategy → Bool
  unfolding is_positive_deterministic
  has_positive_deterministic_delay d = search_tree is_positive_deterministic d

  -- A round of `_has_unbounded_exponential` that returns True; the delays of a chain are numbers.
  pub is_unbounded_exponential : DelayStrategy → Bool
  is_unbounded_exponential (exponential_delay base factor none) =
      positive base && (py.of_nat 1 <F factor)
  is_unbounded_exponential (random_exponential_delay base factor minimum none seed) =
      positive base && (py.of_nat 1 <F factor)
  is_unbounded_exponential _ = false

  unfoldable pub has_unbounded_exponential : DelayStrategy → Bool
  unfolding is_unbounded_exponential
  has_unbounded_exponential d = search_tree is_unbounded_exponential d
