-- ===== src/Diagnostics/Stops/Answers.antt =====
-- What `_stop_is_infinite` and `_stops_after_first_attempt` of
-- src/relinker/internal/policy_diagnostics.py foretell of `should_stop`.
use relinker.Prelude.{ℕ, ◌≤◌, ◌≡◌, refl, ◌⊎◌, inl, inr, Bool, true, false, ◌||◌, arith}
use relinker.Python.{Python, Float, FloatLaws, ◌≤F◌, zero_float}
use relinker.Effects.{Action}
use relinker.Effects.Hoare.{Always, Always-pure, Always->>=, Always-next}
use relinker.Effects.Laws.{or_else, and_then}
use relinker.Stop.{
  StopStrategy, StopStrategies, stop_after_attempt, stop_after_delay, stop_forever,
  any_stop_strategy, all_stop_strategy, user_stop, nil, cons, should_stop, any_stops, all_stop,
}
use relinker.Diagnostics.Stops.{
  stop_is_infinite, some_is_infinite, all_are_infinite, stops_after_first_attempt,
  some_stops_after_first, all_stop_after_first,
}

module _ ⦃py : Python⦄ where
  abbrev Answers : Bool → Action Bool → Type 0
  Answers a m = Always (λ b. b ≡ a) m

  -- The answers of an `any` and an `all` by those of the first part and of the rest.
  or_yes : (b : Bool) (m : Action Bool) → b ≡ true → Answers true (or_else m b)
  or_yes true m e = Always-pure true refl
  or_yes false m e = cc

  or_more : (b : Bool) (m : Action Bool) → Answers true m → Answers true (or_else m b)
  or_more true m h = Always-pure true refl
  or_more false m h = h

  or_no : (b : Bool) (m : Action Bool) → b ≡ false → Answers false m → Answers false (or_else m b)
  or_no true m e h = cc
  or_no false m e h = h

  and_yes : (b : Bool) (m : Action Bool) → b ≡ true → Answers true m → Answers true (and_then m b)
  and_yes true m e h = h
  and_yes false m e h = cc

  and_no : (b : Bool) (m : Action Bool) → b ≡ false → Answers false (and_then m b)
  and_no true m e = cc
  and_no false m e = Always-pure false refl

  and_more : (b : Bool) (m : Action Bool) → Answers false m → Answers false (and_then m b)
  and_more true m h = h
  and_more false m h = Always-pure false refl

  split_or : (a b : Bool) → (a || b) ≡ true → (a ≡ true) ⊎ (b ≡ true)
  split_or a b h = ground arith

  module _ (n : ℕ) (elapsed : Float) where
    mutual
      unfolding should_stop any_stops all_stop stop_is_infinite some_is_infinite all_are_infinite

      goes_on :
          (s : StopStrategy) → stop_is_infinite s ≡ true → Answers false (should_stop s n elapsed)
      goes_on (stop_after_attempt maximum) h = cc
      goes_on (stop_after_delay seconds) h = cc
      goes_on stop_forever h = Always-pure false refl
      goes_on (any_stop_strategy ss) h = all_go_on ss h
      goes_on (all_stop_strategy ss) h = some_goes_on ss h
      goes_on (user_stop f) h = cc

      all_go_on :
          (ss : StopStrategies)
          → all_are_infinite ss ≡ true
          → Answers false (any_stops ss n elapsed)
      all_go_on nil h = Always-pure false refl
      all_go_on (cons s ss) h =
          Always->>= (λ b. b ≡ false) _ _ (goes_on s (ground arith))
            (λ b e. or_no b _ e (all_go_on ss (ground arith)))

      some_goes_on :
          (ss : StopStrategies) → some_is_infinite ss ≡ true → Answers false (all_stop ss n elapsed)
      some_goes_on nil h = cc
      some_goes_on (cons s ss) h = elim (split_or (stop_is_infinite s) (some_is_infinite ss) h) [
        | inl first ↦ Always->>= (λ b. b ≡ false) _ _ (goes_on s first) (λ b e. and_no b _ e)
        | inr later ↦ Always-next _ _ (λ b. and_more b _ (some_goes_on ss later))
      ]

  -- A stop strategy that is found infinite never answers that the execution stops, at any
  -- attempt and any time, whatever its other parts answer: an answer that it returns is False.
  pub stop_is_infinite-should_stop :
      (s : StopStrategy) (n : ℕ) (elapsed : Float)
      → stop_is_infinite s ≡ true
      → Always (λ b. b ≡ false) (should_stop s n elapsed)
  stop_is_infinite-should_stop s n elapsed h = goes_on n elapsed s h

  module _ (laws : FloatLaws py) (n : ℕ) (elapsed : Float) (started : 1 ≤ n)
      (passed : zero_float ≤F elapsed ≡ true) where
    mutual
      unfolding should_stop any_stops all_stop stops_after_first_attempt some_stops_after_first
          all_stop_after_first

      stops :
          (s : StopStrategy)
          → stops_after_first_attempt s ≡ true
          → Answers true (should_stop s n elapsed)
      stops (stop_after_attempt maximum) h = Always-pure _ (ground arith)
      stops (stop_after_delay seconds) h =
          Always-pure _ (laws.le_trans seconds zero_float elapsed h passed)
      stops stop_forever h = cc
      stops (any_stop_strategy ss) h = some_stop ss h
      stops (all_stop_strategy ss) h = all_stop_lem ss h
      stops (user_stop f) h = cc

      some_stop :
          (ss : StopStrategies)
          → some_stops_after_first ss ≡ true
          → Answers true (any_stops ss n elapsed)
      some_stop nil h = cc
      some_stop (cons s ss) h =
          elim (split_or (stops_after_first_attempt s) (some_stops_after_first ss) h) [
            | inl first ↦ Always->>= (λ b. b ≡ true) _ _ (stops s first) (λ b e. or_yes b _ e)
            | inr later ↦ Always-next _ _ (λ b. or_more b _ (some_stop ss later))
          ]

      all_stop_lem :
          (ss : StopStrategies)
          → all_stop_after_first ss ≡ true
          → Answers true (all_stop ss n elapsed)
      all_stop_lem nil h = Always-pure true refl
      all_stop_lem (cons s ss) h =
          Always->>= (λ b. b ≡ true) _ _ (stops s (ground arith))
            (λ b e. and_yes b _ e (all_stop_lem ss (ground arith)))

  -- A stop strategy that is found to end after the first attempt answers that the execution
  -- stops at every attempt from the first on, at any elapsed time that is not negative.
  pub stops_after_first_attempt-should_stop :
      (laws : FloatLaws py) (s : StopStrategy) (n : ℕ) (elapsed : Float)
      → 1 ≤ n
      → zero_float ≤F elapsed ≡ true
      → stops_after_first_attempt s ≡ true
      → Always (λ b. b ≡ true) (should_stop s n elapsed)
  stops_after_first_attempt-should_stop laws s n elapsed started passed h =
      stops laws n elapsed started passed s h
