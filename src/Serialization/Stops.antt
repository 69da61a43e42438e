-- ===== src/Serialization/Stops.antt =====
-- `_stop_to_dict` of src/relinker/internal/policy_serialization.py loses nothing of the built-in
-- strategies.
use Prim.Native.String.{String}
use text.Mathlib.Text.{◌==◌ as str_eq}
use relinker.Prelude.{◌≡◌, refl, Option, none, some, if◌then◌else◌}
use relinker.Python.{Python}
use relinker.Stop.{
  StopStrategy, stop_after_attempt, stop_after_delay, stop_forever, any_stop_strategy,
  all_stop_strategy, user_stop, StopStrategies, nil, cons,
}
use relinker.Serialization.{
  Json, json_int, json_float, json_text, json_list, json_dict, Jsons, no_more, then_item, Entries,
  no_entry, entry, Names,
}
use relinker.Serialization.Policies.{stop_to_dict, stops_to_dicts}

module _ ⦃py : Python⦄ where
  unfoldable mutual
    -- No part of the strategy is a class of the application.
    pub IsBuiltIn : StopStrategy → Type 0
    IsBuiltIn (user_stop f) = ⊥
    IsBuiltIn (any_stop_strategy ss) = AreBuiltIn ss
    IsBuiltIn (all_stop_strategy ss) = AreBuiltIn ss
    IsBuiltIn _ = Unit

    pub AreBuiltIn : StopStrategies → Type 0
    AreBuiltIn nil = Unit
    AreBuiltIn (cons s ss) = IsBuiltIn s × AreBuiltIn ss

  abbrev tagged : String → String → StopStrategy → Option StopStrategy
  tagged tag wanted s = if str_eq tag wanted then some s else none

  abbrev composed : String → Option StopStrategies → Option StopStrategy
  composed tag none = none
  composed tag (some ss) =
      if str_eq tag "any"
      then some (any_stop_strategy ss)
      else if str_eq tag "all"
      then some (all_stop_strategy ss)
      else none

  abbrev and_stop : Option StopStrategy → Option StopStrategies → Option StopStrategies
  and_stop (some s) (some ss) = some (cons s ss)
  and_stop _ _ = none

  unfoldable mutual
    -- A reader of the dictionaries: it tells the strategies by their type and reads what follows.
    pub read_stop : Json → Option StopStrategy
    read_stop (json_dict fields) = read_entries fields
    read_stop _ = none

    pub read_entries : Entries → Option StopStrategy
    read_entries (entry key (json_text tag) rest) = read_rest tag rest
    read_entries _ = none

    pub read_rest : String → Entries → Option StopStrategy
    read_rest tag no_entry = tagged tag "forever" stop_forever
    read_rest tag (entry key (json_int n) rest) = tagged tag "attempts" (stop_after_attempt n)
    read_rest tag (entry key (json_float x) rest) = tagged tag "max_time" (stop_after_delay x)
    read_rest tag (entry key (json_list js) rest) = composed tag (read_stops js)
    read_rest tag _ = none

    pub read_stops : Jsons → Option StopStrategies
    read_stops no_more = some nil
    read_stops (then_item j js) = and_stop (read_stop j) (read_stops js)

  module _ (names : Names) where
    mutual
      unfolding stop_to_dict stops_to_dicts read_stop read_entries read_rest read_stops IsBuiltIn
          AreBuiltIn

      read-stop : (s : StopStrategy) → IsBuiltIn s → read_stop (stop_to_dict names s) ≡ some s
      read-stop (stop_after_attempt n) h = refl
      read-stop (stop_after_delay x) h = refl
      read-stop stop_forever h = refl
      read-stop (any_stop_strategy ss) h = rw (read-stops ss h) refl
      read-stop (all_stop_strategy ss) h = rw (read-stops ss h) refl
      read-stop (user_stop f) h = absurd h

      read-stops :
          (ss : StopStrategies) → AreBuiltIn ss → read_stops (stops_to_dicts names ss) ≡ some ss
      read-stops nil h = refl
      read-stops (cons s ss) h = rw (read-stop s h.0, read-stops ss h.1) refl

  -- The dictionary of a stop strategy that has no class of the application in it determines the
  -- strategy: reading the dictionary back gives it, with its order, its nesting and its numbers.
  pub read_stop-stop_to_dict :
      (names : Names) (s : StopStrategy) → IsBuiltIn s → read_stop (stop_to_dict names s) ≡ some s
  read_stop-stop_to_dict names s h = read-stop names s h
