-- ===== src/Stop/Bounded.antt =====
-- Which strategies of src/relinker/stop stop at an attempt number, whatever time it is.
use relinker.Prelude.{ℕ, ◌≤◌, ◌≡◌, ◌⊎◌, inl, inr, refl, Bool, true, false, le→leb, arith}
use relinker.Python.{Python, Float}
use relinker.Effects.{Action, pure}
use relinker.Effects.Hoare.{Always, Always-pure, Always->>=, Always-next}
use relinker.Stop.{
  StopStrategy, StopStrategies, stop_after_attempt, stop_after_delay, stop_forever,
  any_stop_strategy, all_stop_strategy, user_stop, nil, cons, should_stop, any_stops, all_stop,
}

module _ ⦃py : Python⦄ where
  -- The strategy stops from attempt `n` on, whatever the time.
  pub record StopsBy (n : ℕ) (s : StopStrategy) : Type 0 where
    pub stops : (k : ℕ) (elapsed : Float) → n ≤ k → Always (λ b. b ≡ true) (should_stop s k elapsed)

  unfoldable mutual
    -- The configuration limits the attempts to `n`: by itself, through one part of an OR, or
    -- through every part of an AND.
    pub HasLimit : ℕ → StopStrategy → Type 0
    HasLimit n (stop_after_attempt maximum) = maximum ≤ n
    HasLimit n (stop_after_delay seconds) = ⊥
    HasLimit n stop_forever = ⊥
    HasLimit n (any_stop_strategy ss) = SomeHasLimit n ss
    HasLimit n (all_stop_strategy ss) = AllHaveLimit n ss
    HasLimit n (user_stop f) = ⊥

    pub SomeHasLimit : ℕ → StopStrategies → Type 0
    SomeHasLimit n nil = ⊥
    SomeHasLimit n (cons s ss) = HasLimit n s ⊎ SomeHasLimit n ss

    pub AllHaveLimit : ℕ → StopStrategies → Type 0
    AllHaveLimit n nil = Unit
    AllHaveLimit n (cons s ss) = HasLimit n s × AllHaveLimit n ss

  any_first :
      (b : Bool) (m : Action Bool)
      → b ≡ true
      → Always (λ b. b ≡ true) (elim b [ true ↦ pure true | false ↦ m ])
  any_first true m h = Always-pure true refl
  any_first false m h = cc

  any_rest :
      (b : Bool) (m : Action Bool)
      → Always (λ b. b ≡ true) m
      → Always (λ b. b ≡ true) (elim b [ true ↦ pure true | false ↦ m ])
  any_rest true m h = Always-pure true refl
  any_rest false m h = h

  all_first :
      (b : Bool) (m : Action Bool)
      → b ≡ true
      → Always (λ b. b ≡ true) m
      → Always (λ b. b ≡ true) (elim b [ true ↦ m | false ↦ pure false ])
  all_first true m e h = h
  all_first false m e h = cc

  mutual
    unfolding should_stop any_stops all_stop HasLimit SomeHasLimit AllHaveLimit

    stops_at :
        (s : StopStrategy) (n k : ℕ) (elapsed : Float)
        → HasLimit n s
        → n ≤ k
        → Always (λ b. b ≡ true) (should_stop s k elapsed)
    stops_at (stop_after_attempt maximum) n k elapsed h le =
        Always-pure _ (le→leb maximum k (omega arith))
    stops_at (stop_after_delay seconds) n k elapsed h le = absurd h
    stops_at stop_forever n k elapsed h le = absurd h
    stops_at (any_stop_strategy ss) n k elapsed h le = some_stops ss n k elapsed h le
    stops_at (all_stop_strategy ss) n k elapsed h le = every_stops ss n k elapsed h le
    stops_at (user_stop f) n k elapsed h le = absurd h

    some_stops :
        (ss : StopStrategies) (n k : ℕ) (elapsed : Float)
        → SomeHasLimit n ss
        → n ≤ k
        → Always (λ b. b ≡ true) (any_stops ss k elapsed)
    some_stops nil n k elapsed h le = absurd h
    some_stops (cons s ss) n k elapsed (inl h) le =
        Always->>= (λ b. b ≡ true) _ _ (stops_at s n k elapsed h le) (λ b e. any_first b _ e)
    some_stops (cons s ss) n k elapsed (inr h) le =
        Always-next _ _ (λ b. any_rest b _ (some_stops ss n k elapsed h le))

    every_stops :
        (ss : StopStrategies) (n k : ℕ) (elapsed : Float)
        → AllHaveLimit n ss
        → n ≤ k
        → Always (λ b. b ≡ true) (all_stop ss k elapsed)
    every_stops nil n k elapsed h le = Always-pure true refl
    every_stops (cons s ss) n k elapsed h le =
        Always->>= (λ b. b ≡ true) _ _ (stops_at s n k elapsed h.0 le)
          (λ b e. all_first b _ e (every_stops ss n k elapsed h.1 le))

  -- A stop strategy that is configured with a limit answers "stop" at every attempt from it on,
  -- whatever the elapsed time and whatever the other parts of its composition say.
  pub HasLimit-StopsBy : (n : ℕ) (s : StopStrategy) → HasLimit n s → StopsBy n s
  HasLimit-StopsBy n s h = record { stops = λ k elapsed le. stops_at s n k elapsed h le }
