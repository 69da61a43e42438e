-- ===== src/Stop/Flatten.antt =====
-- `_flatten_any_stop_strategies` and `_flatten_all_stop_strategies` of src/relinker/policy.py.
use relinker.Prelude.{ℕ, suc, ◌≡◌, refl, ◌∙◌, sym, leb}
use relinker.Python.{Python, Float, ◌≤F◌, return}
use relinker.Effects.{World, pure, ◌>>=◌}
use relinker.Effects.Laws.{
  or_else, and_then, or_same, and_same, or_assoc, and_assoc, or_last, and_last,
}
use relinker.Stop.{
  StopStrategy, stop_after_attempt, stop_after_delay, stop_forever, any_stop_strategy,
  all_stop_strategy, user_stop, StopStrategies, nil, cons, should_stop, any_stops, all_stop,
  new_any_stop, new_all_stop, new_stop_after_attempt, new_stop_after_delay,
}
use relinker.Validation.{nonnegative, Object, ensure_non_negative}
use relinker.Validation.Accepts.{ensure_positive_int_of}

module _ ⦃py : Python⦄ where
  -- `flattened.extend(strategy.strategies)`, in front of what follows.
  abbrev extend : StopStrategies → StopStrategies → StopStrategies
  extend nil ts = ts
  extend (cons s ss) ts = cons s (extend ss ts)

  pub flatten_any_stop_strategies : StopStrategies → StopStrategies
  flatten_any_stop_strategies nil = nil
  flatten_any_stop_strategies (cons (any_stop_strategy ss) rest) =
      extend ss (flatten_any_stop_strategies rest)
  flatten_any_stop_strategies (cons s rest) = cons s (flatten_any_stop_strategies rest)

  pub flatten_all_stop_strategies : StopStrategies → StopStrategies
  flatten_all_stop_strategies nil = nil
  flatten_all_stop_strategies (cons (all_stop_strategy ss) rest) =
      extend ss (flatten_all_stop_strategies rest)
  flatten_all_stop_strategies (cons s rest) = cons s (flatten_all_stop_strategies rest)

  module _ (n : ℕ) (elapsed : Float) where
    any_stops-extend :
        (ss ts : StopStrategies) (w : World)
        → any_stops (extend ss ts) n elapsed w
          ≡ (any_stops ss n elapsed >>= or_else (any_stops ts n elapsed)) w
    unfolding any_stops ◌>>=◌ pure
    any_stops-extend nil ts w = refl
    any_stops-extend (cons s ss) ts w =
        or_same _ _ (any_stops-extend ss ts) (should_stop s n elapsed) w
        ∙ sym
            (or_assoc (should_stop s n elapsed) (any_stops ss n elapsed) (any_stops ts n elapsed) w)

    -- Flattening an OR changes neither its answer nor what is asked on the way.
    pub any_stops-flatten_any_stop_strategies :
        (ss : StopStrategies) (w : World)
        → any_stops (flatten_any_stop_strategies ss) n elapsed w ≡ any_stops ss n elapsed w
    unfolding flatten_any_stop_strategies any_stops should_stop ◌>>=◌
    any_stops-flatten_any_stop_strategies nil w = refl
    any_stops-flatten_any_stop_strategies (cons (stop_after_attempt m) rest) w =
        or_same _ _ (any_stops-flatten_any_stop_strategies rest)
          (should_stop (stop_after_attempt m) n elapsed) w
    any_stops-flatten_any_stop_strategies (cons (stop_after_delay x) rest) w =
        or_same _ _ (any_stops-flatten_any_stop_strategies rest)
          (should_stop (stop_after_delay x) n elapsed) w
    any_stops-flatten_any_stop_strategies (cons stop_forever rest) w =
        or_same _ _ (any_stops-flatten_any_stop_strategies rest)
          (should_stop stop_forever n elapsed) w
    any_stops-flatten_any_stop_strategies (cons (any_stop_strategy xs) rest) w =
        any_stops-extend xs (flatten_any_stop_strategies rest) w
        ∙ or_same _ _ (any_stops-flatten_any_stop_strategies rest) (any_stops xs n elapsed) w
    any_stops-flatten_any_stop_strategies (cons (all_stop_strategy xs) rest) w =
        or_same _ _ (any_stops-flatten_any_stop_strategies rest)
          (should_stop (all_stop_strategy xs) n elapsed) w
    any_stops-flatten_any_stop_strategies (cons (user_stop f) rest) w =
        or_same _ _ (any_stops-flatten_any_stop_strategies rest)
          (should_stop (user_stop f) n elapsed) w

    all_stop-extend :
        (ss ts : StopStrategies) (w : World)
        → all_stop (extend ss ts) n elapsed w
          ≡ (all_stop ss n elapsed >>= and_then (all_stop ts n elapsed)) w
    unfolding all_stop ◌>>=◌ pure
    all_stop-extend nil ts w = refl
    all_stop-extend (cons s ss) ts w =
        and_same _ _ (all_stop-extend ss ts) (should_stop s n elapsed) w
        ∙ sym
            (and_assoc (should_stop s n elapsed) (all_stop ss n elapsed) (all_stop ts n elapsed) w)

    -- Flattening an AND changes neither its answer nor what is asked on the way.
    pub all_stop-flatten_all_stop_strategies :
        (ss : StopStrategies) (w : World)
        → all_stop (flatten_all_stop_strategies ss) n elapsed w ≡ all_stop ss n elapsed w
    unfolding flatten_all_stop_strategies all_stop should_stop ◌>>=◌
    all_stop-flatten_all_stop_strategies nil w = refl
    all_stop-flatten_all_stop_strategies (cons (stop_after_attempt m) rest) w =
        and_same _ _ (all_stop-flatten_all_stop_strategies rest)
          (should_stop (stop_after_attempt m) n elapsed) w
    all_stop-flatten_all_stop_strategies (cons (stop_after_delay x) rest) w =
        and_same _ _ (all_stop-flatten_all_stop_strategies rest)
          (should_stop (stop_after_delay x) n elapsed) w
    all_stop-flatten_all_stop_strategies (cons stop_forever rest) w =
        and_same _ _ (all_stop-flatten_all_stop_strategies rest)
          (should_stop stop_forever n elapsed) w
    all_stop-flatten_all_stop_strategies (cons (any_stop_strategy xs) rest) w =
        and_same _ _ (all_stop-flatten_all_stop_strategies rest)
          (should_stop (any_stop_strategy xs) n elapsed) w
    all_stop-flatten_all_stop_strategies (cons (all_stop_strategy xs) rest) w =
        all_stop-extend xs (flatten_all_stop_strategies rest) w
        ∙ and_same _ _ (all_stop-flatten_all_stop_strategies rest) (all_stop xs n elapsed) w
    all_stop-flatten_all_stop_strategies (cons (user_stop f) rest) w =
        and_same _ _ (all_stop-flatten_all_stop_strategies rest)
          (should_stop (user_stop f) n elapsed) w

    any_last :
        (b : StopStrategy) (w : World)
        → any_stops (cons b nil) n elapsed w ≡ should_stop b n elapsed w
    unfolding any_stops
    any_last b w = or_last (should_stop b n elapsed) w

    all_last :
        (b : StopStrategy) (w : World)
        → all_stop (cons b nil) n elapsed w ≡ should_stop b n elapsed w
    unfolding all_stop
    all_last b w = and_last (should_stop b n elapsed) w

    -- The OR of two strategies asks the second one where the first says "go on".
    pub should_stop-either :
        (a b : StopStrategy) (w : World)
        → should_stop
            (any_stop_strategy (flatten_any_stop_strategies (cons a (cons b nil))))
            n
            elapsed
            w
          ≡ (should_stop a n elapsed >>= or_else (should_stop b n elapsed)) w
    unfolding should_stop any_stops
    should_stop-either a b w =
        any_stops-flatten_any_stop_strategies (cons a (cons b nil)) w
        ∙ or_same _ _ (any_last b) (should_stop a n elapsed) w

    -- The AND of two strategies asks the second one where the first says "stop".
    pub should_stop-both :
        (a b : StopStrategy) (w : World)
        → should_stop
            (all_stop_strategy (flatten_all_stop_strategies (cons a (cons b nil))))
            n
            elapsed
            w
          ≡ (should_stop a n elapsed >>= and_then (should_stop b n elapsed)) w
    unfolding should_stop all_stop
    should_stop-both a b w =
        all_stop-flatten_all_stop_strategies (cons a (cons b nil)) w
        ∙ and_same _ _ (all_last b) (should_stop a n elapsed) w

    pub should_stop-attempts :
        (k : ℕ) → should_stop (stop_after_attempt k) n elapsed ≡ pure (leb k n)
    unfolding should_stop
    should_stop-attempts k = refl

    pub should_stop-delay :
        (x : Float) → should_stop (stop_after_delay x) n elapsed ≡ pure (x ≤F elapsed)
    unfolding should_stop
    should_stop-delay x = refl

  extend_any :
      (ss ts : StopStrategies) (t : StopStrategy)
      → new_any_stop (extend ss (cons t ts)) ≡ return (any_stop_strategy (extend ss (cons t ts)))
  unfolding new_any_stop
  extend_any nil ts t = refl
  extend_any (cons s ss) ts t = refl

  extend_all :
      (ss ts : StopStrategies) (t : StopStrategy)
      → new_all_stop (extend ss (cons t ts)) ≡ return (all_stop_strategy (extend ss (cons t ts)))
  unfolding new_all_stop
  extend_all nil ts t = refl
  extend_all (cons s ss) ts t = refl

  pub new_any_stop-stop_after_attempt :
      (a : StopStrategy) (k : ℕ)
      → new_any_stop (flatten_any_stop_strategies (cons a (cons (stop_after_attempt k) nil)))
        ≡ return (
            any_stop_strategy
              (flatten_any_stop_strategies (cons a (cons (stop_after_attempt k) nil))))
  unfolding new_any_stop flatten_any_stop_strategies
  new_any_stop-stop_after_attempt (stop_after_attempt m) k = refl
  new_any_stop-stop_after_attempt (stop_after_delay x) k = refl
  new_any_stop-stop_after_attempt stop_forever k = refl
  new_any_stop-stop_after_attempt (any_stop_strategy xs) k =
      extend_any xs nil (stop_after_attempt k)
  new_any_stop-stop_after_attempt (all_stop_strategy xs) k = refl
  new_any_stop-stop_after_attempt (user_stop f) k = refl

  pub new_any_stop-stop_after_delay :
      (a : StopStrategy) (k : Float)
      → new_any_stop (flatten_any_stop_strategies (cons a (cons (stop_after_delay k) nil)))
        ≡ return (
            any_stop_strategy
              (flatten_any_stop_strategies (cons a (cons (stop_after_delay k) nil))))
  unfolding new_any_stop flatten_any_stop_strategies
  new_any_stop-stop_after_delay (stop_after_attempt m) k = refl
  new_any_stop-stop_after_delay (stop_after_delay x) k = refl
  new_any_stop-stop_after_delay stop_forever k = refl
  new_any_stop-stop_after_delay (any_stop_strategy xs) k = extend_any xs nil (stop_after_delay k)
  new_any_stop-stop_after_delay (all_stop_strategy xs) k = refl
  new_any_stop-stop_after_delay (user_stop f) k = refl

  pub new_all_stop-stop_after_attempt :
      (a : StopStrategy) (k : ℕ)
      → new_all_stop (flatten_all_stop_strategies (cons a (cons (stop_after_attempt k) nil)))
        ≡ return (
            all_stop_strategy
              (flatten_all_stop_strategies (cons a (cons (stop_after_attempt k) nil))))
  unfolding new_all_stop flatten_all_stop_strategies
  new_all_stop-stop_after_attempt (stop_after_attempt m) k = refl
  new_all_stop-stop_after_attempt (stop_after_delay x) k = refl
  new_all_stop-stop_after_attempt stop_forever k = refl
  new_all_stop-stop_after_attempt (any_stop_strategy xs) k = refl
  new_all_stop-stop_after_attempt (all_stop_strategy xs) k =
      extend_all xs nil (stop_after_attempt k)
  new_all_stop-stop_after_attempt (user_stop f) k = refl

  pub new_all_stop-stop_after_delay :
      (a : StopStrategy) (k : Float)
      → new_all_stop (flatten_all_stop_strategies (cons a (cons (stop_after_delay k) nil)))
        ≡ return (
            all_stop_strategy
              (flatten_all_stop_strategies (cons a (cons (stop_after_delay k) nil))))
  unfolding new_all_stop flatten_all_stop_strategies
  new_all_stop-stop_after_delay (stop_after_attempt m) k = refl
  new_all_stop-stop_after_delay (stop_after_delay x) k = refl
  new_all_stop-stop_after_delay stop_forever k = refl
  new_all_stop-stop_after_delay (any_stop_strategy xs) k = refl
  new_all_stop-stop_after_delay (all_stop_strategy xs) k = extend_all xs nil (stop_after_delay k)
  new_all_stop-stop_after_delay (user_stop f) k = refl

  pub new_stop_after_attempt_of :
      (k : ℕ) → new_stop_after_attempt (nonnegative (suc k)) ≡ return (stop_after_attempt (suc k))
  unfolding new_stop_after_attempt
  new_stop_after_attempt_of k = rw (new_stop_after_attempt, ensure_positive_int_of k) refl

  pub new_stop_after_delay_of :
      (seconds : Object) (x : Float)
      → ensure_non_negative seconds ≡ return x
      → new_stop_after_delay seconds ≡ return (stop_after_delay x)
  unfolding new_stop_after_delay
  new_stop_after_delay_of seconds x h = rw (new_stop_after_delay, h) refl
