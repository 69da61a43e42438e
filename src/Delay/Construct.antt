-- ===== src/Delay/Construct.antt =====
-- The constructors of src/relinker/delays with their `__post_init__`.
use relinker.Prelude.{ℕ, Bool, false, Option, none, some, List, [], ◌∷◌, if◌then◌else◌}
use relinker.Python.{Python, Float, ◌<F◌, Outcome, return, raise, invalid_config_error}
use relinker.Python.Outcomes.{◌>>=◌}
use relinker.Validation.{Object, ensure_safe_delay, ensure_non_negative, ensure_positive}
use relinker.Delay.{
  DelayStrategy, fixed_delay, linear_delay, exponential_delay, random_delay,
  random_exponential_delay, chain_delay,
}

module _ ⦃py : Python⦄ where
  -- `if self.maximum is not None: ensure_safe_delay("maximum", self.maximum)`
  pub ensure_optional : Option Object → Outcome (Option Float)
  ensure_optional none = return none
  ensure_optional (some o) = do m ← ensure_safe_delay o; return (some m)

  abbrev is_below : Option Float → Float → Bool
  is_below none low = false
  is_below (some m) low = m <F low

  pub ensure_each : List Object → Outcome (List Float)
  ensure_each [] = return []
  ensure_each (o ∷ os) = do d ← ensure_safe_delay o; ds ← ensure_each os; return (d ∷ ds)

  -- The constructors with their `__post_init__`.
  pub new_fixed_delay : Object → Outcome DelayStrategy
  new_fixed_delay seconds = do s ← ensure_safe_delay seconds; return (fixed_delay s)

  pub new_linear_delay : Object → Object → Option Object → Outcome DelayStrategy
  new_linear_delay start step maximum = do
    s ← ensure_safe_delay start
    t ← ensure_non_negative step
    m ← ensure_optional maximum
    return (linear_delay s t m)

  pub new_exponential_delay : Object → Object → Option Object → Outcome DelayStrategy
  new_exponential_delay base factor maximum = do
    b ← ensure_non_negative base
    f ← ensure_positive factor
    m ← ensure_optional maximum
    return (exponential_delay b f m)

  pub new_random_delay : Object → Object → Option ℕ → Outcome DelayStrategy
  new_random_delay minimum maximum seed = do
    low ← ensure_safe_delay minimum
    high ← ensure_safe_delay maximum
    if high <F low then raise invalid_config_error else return (random_delay low high seed)

  pub new_random_exponential_delay :
      Object → Object → Object → Option Object → Option ℕ → Outcome DelayStrategy
  new_random_exponential_delay base factor minimum maximum seed = do
    b ← ensure_non_negative base
    f ← ensure_positive factor
    low ← ensure_safe_delay minimum
    m ← ensure_optional maximum
    let d = random_exponential_delay b f low m seed
    if is_below m low then raise invalid_config_error else return d

  pub new_chain_delay : List Object → Outcome DelayStrategy
  new_chain_delay [] = raise invalid_config_error
  new_chain_delay (d ∷ ds) = do
    first ← ensure_safe_delay d
    rest ← ensure_each ds
    return (chain_delay first rest)
