-- ===== src/Diagnostics/Stops/Configured.antt =====
-- `_known_attempt_limit` of src/relinker/internal/policy_diagnostics.py against the limit that a
-- stop strategy is configured with.
use relinker.Prelude.{
  ℕ, ◌≤◌, ◌≡◌, refl, ◌⊎◌, inl, inr, Bool, true, false, Bool-cases, Option, Option-cases, none, some,
  List, [], ◌∷◌, all, if◌then◌else◌, arith,
}
use mathlib.Core.Path.{subst}
use relinker.Python.{Python}
use relinker.Records.{is_some}
use relinker.Stop.{
  StopStrategy, stop_after_attempt, stop_after_delay, stop_forever, any_stop_strategy,
  all_stop_strategy, user_stop, StopStrategies, nil, cons,
}
use relinker.Stop.Bounded.{HasLimit, SomeHasLimit, AllHaveLimit}
use relinker.Simulation.Load.{known, min_of, max_of}
use relinker.Diagnostics.Stops.{
  least_limit, stop_is_infinite, some_is_infinite, known_attempt_limit, attempt_limits,
}
use relinker.Diagnostics.Stops.Limits.{limited_not_infinite}

-- There is a known limit, and it is at most `n`.
abbrev pub Within : ℕ → Option ℕ → Type 0
Within n none = ⊥
Within n (some m) = m ≤ n

abbrev SomeWithin : ℕ → List (Option ℕ) → Type 0
SomeWithin n [] = ⊥
SomeWithin n (l ∷ ls) = Within n l ⊎ SomeWithin n ls

abbrev AllWithin : ℕ → List (Option ℕ) → Type 0
AllWithin n [] = Unit
AllWithin n (l ∷ ls) = Within n l × AllWithin n ls

least_of_more : (n m : ℕ) (ms : List ℕ) → m ≤ n ⊎ Within n (least_limit ms) → min_of m ms ≤ n
least_of_more n m [] (inl h) = h
least_of_more n m [] (inr h) = absurd h
least_of_more n m (k ∷ ks) (inl h) = ground arith
least_of_more n m (k ∷ ks) (inr h) = ground arith

more_of_least : (n m : ℕ) (ms : List ℕ) → min_of m ms ≤ n → m ≤ n ⊎ Within n (least_limit ms)
more_of_least n m [] h = inl h
more_of_least n m (k ∷ ks) h = ground arith

some_of_least : (n : ℕ) (ls : List (Option ℕ)) → Within n (least_limit (known ls)) → SomeWithin n ls
some_of_least n [] h = absurd h
some_of_least n (none ∷ ls) h = inr (some_of_least n ls h)
some_of_least n (some m ∷ ls) h = elim (more_of_least n m (known ls) h) [
  | inl le ↦ inl le
  | inr rest ↦ inr (some_of_least n ls rest)
]

least_of_some : (n : ℕ) (ls : List (Option ℕ)) → SomeWithin n ls → Within n (least_limit (known ls))
least_of_some n [] h = absurd h
least_of_some n (none ∷ ls) (inl h) = absurd h
least_of_some n (none ∷ ls) (inr h) = least_of_some n ls h
least_of_some n (some m ∷ ls) (inl h) = least_of_more n m (known ls) (inl h)
least_of_some n (some m ∷ ls) (inr h) = least_of_more n m (known ls) (inr (least_of_some n ls h))

all_of_greatest :
    (n : ℕ) (ls : List (Option ℕ)) → all is_some ls ≡ true → max_of (known ls) ≤ n → AllWithin n ls
all_of_greatest n [] e h = tt
all_of_greatest n (none ∷ ls) e h = ground arith
all_of_greatest n (some m ∷ ls) e h = (ground arith, all_of_greatest n ls e (ground arith))

greatest_of_all :
    (n : ℕ) (ls : List (Option ℕ))
    → AllWithin n ls
    → (all is_some ls ≡ true) × (max_of (known ls) ≤ n)
greatest_of_all n [] h = (refl, omega arith)
greatest_of_all n (none ∷ ls) h = absurd h.0
greatest_of_all n (some m ∷ ls) h = let (e, le) = greatest_of_all n ls h.1 in (e, ground arith)

abbrev limit_of_all : (some_infinite : Bool) → List (Option ℕ) → Option ℕ
limit_of_all some_infinite ls =
    if some_infinite then none else if all is_some ls then some (max_of (known ls)) else none

parts_of_limit :
    (n : ℕ) (o : Bool) (ls : List (Option ℕ)) → Within n (limit_of_all o ls) → AllWithin n ls
parts_of_limit n true ls h = absurd h
parts_of_limit n false ls h = elim (Bool-cases (all is_some ls)) [
  | inl e ↦ all_of_greatest n ls e (ground arith)
  | inr e ↦ absurd (ground arith)
]

all_within :
    (n : ℕ) (o : Bool) (ls : List (Option ℕ))
    → o ≡ false
    → AllWithin n ls
    → Within n (limit_of_all o ls)
all_within n o ls e h = let (every, le) = greatest_of_all n ls h in rw (e, every) le

module _ ⦃py : Python⦄ (n : ℕ) where
  limited_finite :
      (s : StopStrategy) → Within n (known_attempt_limit s) → stop_is_infinite s ≡ false
  limited_finite s h = elim (Option-cases (known_attempt_limit s)) [
    | inl e ↦ absurd (subst (Within n) e h)
    | inr (m, e) ↦ limited_not_infinite m s e
  ]

  mutual
    unfolding HasLimit SomeHasLimit AllHaveLimit known_attempt_limit attempt_limits stop_is_infinite
        some_is_infinite

    known_of : (s : StopStrategy) → HasLimit n s → Within n (known_attempt_limit s)
    known_of (stop_after_attempt maximum) h = h
    known_of (stop_after_delay seconds) h = h
    known_of stop_forever h = h
    known_of (any_stop_strategy ss) h = least_of_some n (attempt_limits ss) (known_some ss h)
    known_of (all_stop_strategy ss) h =
        all_within n (some_is_infinite ss) (attempt_limits ss) (none_infinite ss h) (known_all ss h)
    known_of (user_stop f) h = h

    known_some : (ss : StopStrategies) → SomeHasLimit n ss → SomeWithin n (attempt_limits ss)
    known_some nil h = h
    known_some (cons s ss) (inl h) = inl (known_of s h)
    known_some (cons s ss) (inr h) = inr (known_some ss h)

    known_all : (ss : StopStrategies) → AllHaveLimit n ss → AllWithin n (attempt_limits ss)
    known_all nil h = h
    known_all (cons s ss) h = (known_of s h.0, known_all ss h.1)

    none_infinite : (ss : StopStrategies) → AllHaveLimit n ss → some_is_infinite ss ≡ false
    none_infinite nil h = refl
    none_infinite (cons s ss) h = rw (limited_finite s (known_of s h.0), none_infinite ss h.1) refl

  mutual
    unfolding HasLimit SomeHasLimit AllHaveLimit known_attempt_limit attempt_limits

    limit_of : (s : StopStrategy) → Within n (known_attempt_limit s) → HasLimit n s
    limit_of (stop_after_attempt maximum) h = h
    limit_of (stop_after_delay seconds) h = h
    limit_of stop_forever h = h
    limit_of (any_stop_strategy ss) h = some_limit_of ss (some_of_least n (attempt_limits ss) h)
    limit_of (all_stop_strategy ss) h =
        all_limits_of ss (parts_of_limit n (some_is_infinite ss) (attempt_limits ss) h)
    limit_of (user_stop f) h = h

    some_limit_of : (ss : StopStrategies) → SomeWithin n (attempt_limits ss) → SomeHasLimit n ss
    some_limit_of nil h = h
    some_limit_of (cons s ss) (inl h) = inl (limit_of s h)
    some_limit_of (cons s ss) (inr h) = inr (some_limit_of ss h)

    all_limits_of : (ss : StopStrategies) → AllWithin n (attempt_limits ss) → AllHaveLimit n ss
    all_limits_of nil h = h
    all_limits_of (cons s ss) h = (limit_of s h.0, all_limits_of ss h.1)

  -- The known attempt limit is the least one that a stop strategy is configured with: the
  -- strategy limits the attempts to `n` exactly if a limit is known and is at most `n`.
  pub known_attempt_limit-HasLimit :
      (s : StopStrategy)
      → (HasLimit n s → Within n (known_attempt_limit s))
        × (Within n (known_attempt_limit s) → HasLimit n s)
  known_attempt_limit-HasLimit s = (known_of s, limit_of s)
