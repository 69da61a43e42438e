-- ===== src/Delay.antt =====
-- src/relinker/delays: the wait before the next attempt.
pub mod Construct
pub mod Bounds
pub mod Tree
pub mod Walk
use relinker.Prelude.{
  ℕ, zero, suc, ◌+◌, ◌-◌, Bool, true, false, ◌&&◌, Option, none, some, Option-cases, List, [], ◌∷◌,
  ◌++◌, ◌||◌, length, get_or, leb, if◌then◌else◌,
}
use mathlib.Core.List.{foldl}
use relinker.Python.{
  Python, Float, Value, ◌<F◌, ◌≤F◌, ◌+F◌, ◌*F◌, zero_float, float_min, float_max, Outcome, return,
  raise, invalid_config_error,
}
use relinker.Effects.{Action, pure, lift, uniform, ◌>>=◌}
use relinker.Validation.{
  Object, real, max_sleep_seconds, ensure_resolved_delay, ensure_safe_delay, ensure_non_negative,
  ensure_positive,
}
use relinker.Records.{RetryState}

module _ ⦃py : Python⦄ where
  mutual
    -- The classes that implement DelayStrategy; a callback may return any object.
    pub data DelayStrategy : Type 0 where
      fixed_delay : (seconds : Float) → DelayStrategy
      linear_delay : (start step : Float) (maximum : Option Float) → DelayStrategy
      exponential_delay : (base factor : Float) (maximum : Option Float) → DelayStrategy
      random_delay : (minimum maximum : Float) (seed : Option ℕ) → DelayStrategy
      random_exponential_delay :
          (base factor minimum : Float) (maximum : Option Float) (seed : Option ℕ) → DelayStrategy
      chain_delay : Float → List Float → DelayStrategy
      additive_delay : Delays → DelayStrategy
      custom_delay : (ℕ → Action Object) → DelayStrategy
      stateful_custom_delay : (RetryState → Action Object) → DelayStrategy
      user_delay : (ℕ → Action Object) → DelayStrategy

    pub data Delays : Type 0 where
      nil : Delays
      cons : DelayStrategy → Delays → Delays

  -- `is_zero`: Python's `x == 0.0`.
  abbrev is_zero : Float → Bool
  is_zero x = (x ≤F zero_float) && (zero_float ≤F x)

  -- `self.maximum if self.maximum is not None else MAX_SLEEP_SECONDS`
  abbrev ceiling : Option Float → Float
  ceiling none = max_sleep_seconds
  ceiling (some m) = m

  -- `base * factor ** max(0, attempt_number - 1)`, infinite on OverflowError.
  unfoldable pub growth : Float → Float → ℕ → Float
  growth base factor n = elim (py.float_pow factor (n - 1)) [
    | none ↦ py.infinity
    | some p ↦ base *F p
  ]

  -- The cap of ExponentialDelay and RandomExponentialDelay.
  pub capped_growth : Float → Float → Option Float → ℕ → Float
  unfolding growth
  capped_growth base factor none n =
      let delay = growth base factor n in
      if max_sleep_seconds <F delay then max_sleep_seconds else delay
  capped_growth base factor (some m) n = float_min (growth base factor n) m

  pub linear_next : Float → Float → Option Float → ℕ → Float
  linear_next start step maximum n =
      float_min (start +F step *F py.of_nat (n - 1)) (ceiling maximum)

  pub exponential_next : Float → Float → Option Float → ℕ → Float
  unfolding capped_growth
  exponential_next base factor maximum n =
      if is_zero base then zero_float else capped_growth base factor maximum n

  -- `self.seed + attempt_number if self.seed is not None else None`
  abbrev seed_for : Option ℕ → ℕ → Option ℕ
  seed_for none n = none
  seed_for (some seed) n = some (seed + n)

  pub random_exponential_next : Float → Float → Float → Option Float → Option ℕ → ℕ → Action Float
  unfolding capped_growth
  random_exponential_next base factor minimum maximum seed n =
      let draw =
        uniform (seed_for seed n) minimum
          (float_max minimum (capped_growth base factor maximum n)) in
      if is_zero base then pure minimum else draw

  -- The sequence is not empty: `first` and what follows. Behind its end the last one is reused.
  pub chain_next : Float → List Float → ℕ → Float
  chain_next first rest n =
      let delays = first ∷ rest in
      let index = n - 1 in
      if leb (length delays) index
      then get_or delays (length delays - 1) first
      else get_or delays index first

  -- A frame of `_resolve_additive_tree`: the strategies from its index on, and its values.
  pub record Frame : Type 0 where
    pub strategies : Delays
    pub values : List Float

  -- `sum(values)`, with the values in the order in which they were appended.
  abbrev pub sum : List Float → Float
  sum values = foldl (λ total v. total +F v) zero_float values

  mutual
    -- How many rounds the loop of `_resolve_additive_tree` makes for the strategies of a frame.
    pub rounds_of : DelayStrategy → ℕ
    rounds_of (additive_delay ds) = suc (rounds_of_all ds)
    rounds_of _ = 1

    pub rounds_of_all : Delays → ℕ
    rounds_of_all nil = 1
    rounds_of_all (cons d ds) = rounds_of d + rounds_of_all ds

  -- The state that `StatefulCustomDelay.next_delay` builds where no real one is at hand.
  abbrev minimal_state : ℕ → RetryState
  minimal_state n = record {
    function_name = "<simulation>";
    attempt_number = n;
    started_at = zero_float;
    elapsed = zero_float;
    attempts = [];
    last_value = py.none_value;
    last_error = none;
    has_value = false;
    next_delay = none;
    retry_cause = none;
    will_retry = false;
    will_stop = false;
    policy_delay = none;
    budget_delay = none;
    policy_name = none;
    total_attempts = 0;
    total_failed_attempts = none;
    total_successful_attempts = none;
  }

  -- What a callback returns, checked.
  pub checked : Action Object → Action Float
  checked m = do o ← m; lift (ensure_resolved_delay o)

  -- `next_delay` of every class but AdditiveDelay, which is resolved by `resolve_additive_tree` and
  -- never asked here.
  pub leaf_delay : DelayStrategy → ℕ → Action Object
  unfolding linear_next exponential_next random_exponential_next chain_next checked
  leaf_delay (fixed_delay seconds) n = pure (real seconds)
  leaf_delay (linear_delay start step maximum) n = pure (real (linear_next start step maximum n))
  leaf_delay (exponential_delay base factor maximum) n =
      pure (real (exponential_next base factor maximum n))
  leaf_delay (random_delay minimum maximum seed) n =
      uniform (seed_for seed n) minimum maximum >>= λ x. pure (real x)
  leaf_delay (random_exponential_delay base factor minimum maximum seed) n =
      random_exponential_next base factor minimum maximum seed n >>= λ x. pure (real x)
  leaf_delay (chain_delay first rest) n = pure (real (chain_next first rest n))
  leaf_delay (additive_delay ds) n = pure (real zero_float)
  leaf_delay (custom_delay callback) n = checked (callback n) >>= λ x. pure (real x)
  leaf_delay (stateful_custom_delay callback) n =
      checked (callback (minimal_state n)) >>= λ x. pure (real x)
  leaf_delay (user_delay f) n = f n

  -- `next_delay_with_state` where the class has it and a state is given, else `next_delay`.
  pub leaf_delay_with_state : DelayStrategy → ℕ → Option RetryState → Action Object
  unfolding leaf_delay
  leaf_delay_with_state (stateful_custom_delay callback) n (some state) =
      checked (callback state) >>= λ x. pure (real x)
  leaf_delay_with_state s n state = leaf_delay s n

  -- `if resolved_child is not None: frame.values.append(resolved_child)`
  abbrev append_child : List Float → Option Float → List Float
  append_child values none = values
  append_child values (some v) = values ++ (v ∷ [])

  -- One round of the `while` loop of `_resolve_additive_tree`, for the topmost frame: its
  -- strategies and its values, with the frames below.
  pub additive_round :
      ℕ → Option RetryState → Delays → List Float → List Frame → Action (List Frame × Option Float)
  unfolding leaf_delay_with_state
  additive_round n state nil values frames =
      pure (frames, some (float_min (sum values) max_sleep_seconds))
  additive_round n state (cons (additive_delay ds) rest) values frames = pure (
    record { strategies = ds; values = [] }
        ∷ record { strategies = rest; values = values }
        ∷ frames,
    none,
  )
  additive_round n state (cons s rest) values frames =
      checked (leaf_delay_with_state s n state) >>= λ v.
      pure (record { strategies = rest; values = values ++ (v ∷ []) } ∷ frames, none)

  -- The `while` loop, on fuel.
  pub additive_loop : ℕ → ℕ → Option RetryState → List Frame → Option Float → Action Float
  unfolding additive_round
  additive_loop fuel n state [] none = pure zero_float
  additive_loop fuel n state [] (some v) = pure v
  additive_loop zero n state (frame ∷ frames) resolved = pure zero_float
  additive_loop (suc fuel) n state (frame ∷ frames) resolved =
      additive_round n state frame.strategies (append_child frame.values resolved) frames
      >>= λ (frames', resolved'). additive_loop fuel n state frames' resolved'

  -- `_resolve_additive_tree`
  pub resolve_additive_tree : Delays → ℕ → Option RetryState → Action Float
  unfolding additive_loop rounds_of_all
  resolve_additive_tree ds n state =
      additive_loop (rounds_of_all ds) n state (record { strategies = ds; values = [] } ∷ []) none

  -- `resolve_delay` of src/relinker/delays/stateful.py.
  pub resolve_delay : DelayStrategy → ℕ → Option RetryState → Action Object
  unfolding resolve_additive_tree
  resolve_delay (additive_delay ds) n state =
      resolve_additive_tree ds n state >>= λ x. pure (real x)
  resolve_delay s n state = leaf_delay_with_state s n state

  mutual
    -- `delay_needs_state`; its stack visits the same children in another order.
    pub delay_needs_state : DelayStrategy → Bool
    delay_needs_state (stateful_custom_delay callback) = true
    delay_needs_state (additive_delay ds) = any_needs_state ds
    delay_needs_state _ = false

    pub any_needs_state : Delays → Bool
    any_needs_state nil = false
    any_needs_state (cons d ds) = delay_needs_state d || any_needs_state ds
