-- ===== src/Diagnostics/Stops.antt =====
-- What src/relinker/internal/policy_diagnostics.py reads off a stop strategy.
pub mod Limits
pub mod Configured
pub mod Answers
use relinker.Prelude.{
  ℕ, Bool, true, false, ◌&&◌, ◌||◌, Option, none, some, List, [], ◌∷◌, any, all, leb, if◌then◌else◌,
}
use relinker.Python.{Python, ◌≤F◌, zero_float}
use relinker.Records.{is_some}
use relinker.Stop.{
  StopStrategy, stop_after_attempt, stop_after_delay, stop_forever, any_stop_strategy,
  all_stop_strategy, user_stop, StopStrategies, nil, cons,
}
use relinker.Simulation.Load.{known, min_of, max_of}

-- `min(known) if known else None`
abbrev pub least_limit : List ℕ → Option ℕ
least_limit [] = none
least_limit (n ∷ ns) = some (min_of n ns)

module _ ⦃py : Python⦄ where
  unfoldable mutual
    pub stop_is_infinite : StopStrategy → Bool
    stop_is_infinite stop_forever = true
    stop_is_infinite (stop_after_attempt maximum) = false
    stop_is_infinite (stop_after_delay seconds) = false
    stop_is_infinite (all_stop_strategy ss) = some_is_infinite ss
    stop_is_infinite (any_stop_strategy ss) = all_are_infinite ss
    stop_is_infinite (user_stop f) = false

    pub some_is_infinite : StopStrategies → Bool
    some_is_infinite nil = false
    some_is_infinite (cons s ss) = stop_is_infinite s || some_is_infinite ss

    pub all_are_infinite : StopStrategies → Bool
    all_are_infinite nil = true
    all_are_infinite (cons s ss) = stop_is_infinite s && all_are_infinite ss

  unfoldable mutual
    pub stops_after_first_attempt : StopStrategy → Bool
    stops_after_first_attempt (stop_after_attempt maximum) = leb maximum 1
    stops_after_first_attempt (stop_after_delay seconds) = seconds ≤F zero_float
    stops_after_first_attempt stop_forever = false
    stops_after_first_attempt (any_stop_strategy ss) = some_stops_after_first ss
    stops_after_first_attempt (all_stop_strategy ss) = all_stop_after_first ss
    stops_after_first_attempt (user_stop f) = false

    pub some_stops_after_first : StopStrategies → Bool
    some_stops_after_first nil = false
    some_stops_after_first (cons s ss) = stops_after_first_attempt s || some_stops_after_first ss

    pub all_stop_after_first : StopStrategies → Bool
    all_stop_after_first nil = true
    all_stop_after_first (cons s ss) = stops_after_first_attempt s && all_stop_after_first ss

  unfoldable mutual
    unfolding stop_is_infinite

    pub known_attempt_limit : StopStrategy → Option ℕ
    known_attempt_limit (stop_after_attempt maximum) = some maximum
    known_attempt_limit (stop_after_delay seconds) = none
    known_attempt_limit stop_forever = none
    known_attempt_limit (any_stop_strategy ss) = least_limit (known (attempt_limits ss))
    known_attempt_limit (all_stop_strategy ss) =
        if some_is_infinite ss
        then none
        else if all is_some (attempt_limits ss)
        then some (max_of (known (attempt_limits ss)))
        else none
    known_attempt_limit (user_stop f) = none

    pub attempt_limits : StopStrategies → List (Option ℕ)
    attempt_limits nil = []
    attempt_limits (cons s ss) = known_attempt_limit s ∷ attempt_limits ss

  unfoldable mutual
    pub has_max_time : StopStrategy → Bool
    has_max_time (stop_after_delay seconds) = true
    has_max_time (any_stop_strategy ss) = some_has_max_time ss
    has_max_time (all_stop_strategy ss) = some_has_max_time ss
    has_max_time _ = false

    pub some_has_max_time : StopStrategies → Bool
    some_has_max_time nil = false
    some_has_max_time (cons s ss) = has_max_time s || some_has_max_time ss
