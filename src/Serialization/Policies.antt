-- ===== src/Serialization/Policies.antt =====
-- src/relinker/internal/policy_serialization.py: the parts of `policy_to_dict`.
use Prim.Native.String.{String}
use relinker.Prelude.{none, some, [], ◌∷◌, map, if◌then◌else◌}
use relinker.Python.{Python, ErrorClass}
use relinker.Records.{EventFailureMode, propagate, isolate}
use relinker.Stop.{
  StopStrategy, stop_after_attempt, stop_after_delay, stop_forever, any_stop_strategy,
  all_stop_strategy, user_stop, StopStrategies, nil, cons,
}
use relinker.Condition.{
  RetryCondition, exception_condition, result_condition, custom_condition, any_condition,
  all_condition, user_condition, Conditions, nil as no_condition, cons as and_condition,
}
use relinker.Delay.{
  DelayStrategy, fixed_delay, linear_delay, exponential_delay, random_delay,
  random_exponential_delay, chain_delay, additive_delay, custom_delay, stateful_custom_delay,
  user_delay,
}
use relinker.Policy.{
  RetryPolicy, EventHandlerRegistration, ResultExhaustedBehavior, return_last, raise_exhausted,
}
use relinker.Serialization.{
  Json, json_int, json_float, json_text, json_list, Jsons, no_more, then_item, dict, items_of,
  or_null, Names,
}
use relinker.Serialization.Payload.{event_text}

abbrev pub failure_mode_text : EventFailureMode → String
failure_mode_text propagate = "propagate"
failure_mode_text isolate = "isolate"

module _ ⦃py : Python⦄ (names : Names) where
  unfoldable pub event_handler_to_dict : EventHandlerRegistration → Json
  event_handler_to_dict r = dict (
      ("event", json_text (event_text r.name))
      ∷ ("callable", json_text (names.of_handler r.handler))
      ∷ ("failure_mode", json_text (failure_mode_text r.failure_mode))
      ∷ [])

  unfoldable mutual
    pub stop_to_dict : StopStrategy → Json
    stop_to_dict (stop_after_attempt maximum) =
        dict (("type", json_text "attempts") ∷ ("maximum", json_int maximum) ∷ [])
    stop_to_dict (stop_after_delay seconds) =
        dict (("type", json_text "max_time") ∷ ("seconds", json_float seconds) ∷ [])
    stop_to_dict stop_forever = dict (("type", json_text "forever") ∷ [])
    stop_to_dict (any_stop_strategy ss) =
        dict (("type", json_text "any") ∷ ("strategies", json_list (stops_to_dicts ss)) ∷ [])
    stop_to_dict (all_stop_strategy ss) =
        dict (("type", json_text "all") ∷ ("strategies", json_list (stops_to_dicts ss)) ∷ [])
    stop_to_dict (user_stop f) =
        dict (("type", json_text "custom") ∷ ("class", json_text (names.stop_class f)) ∷ [])

    pub stops_to_dicts : StopStrategies → Jsons
    stops_to_dicts nil = no_more
    stops_to_dicts (cons s ss) = then_item (stop_to_dict s) (stops_to_dicts ss)

  module _ (exception_name : ErrorClass → String) where
    unfoldable mutual
      pub condition_to_dict : RetryCondition → Json
      condition_to_dict (exception_condition types) = dict (
          ("type", json_text "exceptions")
          ∷ ("exceptions", json_list (items_of (map (λ t. json_text (exception_name t)) types)))
          ∷ [])
      condition_to_dict (result_condition predicate) = dict (
          ("type", json_text "result")
          ∷ ("predicate", json_text (names.of_predicate predicate))
          ∷ [])
      condition_to_dict (custom_condition callback) = dict (
          ("type", json_text "custom") ∷ ("callable", json_text (names.of_condition callback)) ∷ [])
      condition_to_dict (any_condition cs) =
          dict (("type", json_text "any") ∷ ("conditions", json_list (conditions_to_dicts cs)) ∷ [])
      condition_to_dict (all_condition cs) =
          dict (("type", json_text "all") ∷ ("conditions", json_list (conditions_to_dicts cs)) ∷ [])
      condition_to_dict (user_condition on_error on_result) = dict (
          ("type", json_text "custom")
          ∷ ("class", json_text (names.condition_class on_error on_result))
          ∷ [])

      pub conditions_to_dicts : Conditions → Jsons
      conditions_to_dicts no_condition = no_more
      conditions_to_dicts (and_condition c cs) =
          then_item (condition_to_dict c) (conditions_to_dicts cs)

  -- `_delay_to_shallow_dict`
  unfoldable pub delay_to_shallow_dict : DelayStrategy → Json
  delay_to_shallow_dict (fixed_delay seconds) =
      dict (("type", json_text "fixed") ∷ ("seconds", json_float seconds) ∷ [])
  delay_to_shallow_dict (linear_delay start step maximum) = dict (
      ("type", json_text "linear")
      ∷ ("start", json_float start)
      ∷ ("step", json_float step)
      ∷ ("maximum", or_null json_float maximum)
      ∷ [])
  delay_to_shallow_dict (exponential_delay base factor maximum) = dict (
      ("type", json_text "exponential")
      ∷ ("base", json_float base)
      ∷ ("factor", json_float factor)
      ∷ ("maximum", or_null json_float maximum)
      ∷ [])
  delay_to_shallow_dict (random_delay minimum maximum seed) = dict (
      ("type", json_text "random")
      ∷ ("minimum", json_float minimum)
      ∷ ("maximum", json_float maximum)
      ∷ ("seed", or_null json_int seed)
      ∷ [])
  delay_to_shallow_dict (random_exponential_delay base factor minimum maximum seed) = dict (
      ("type", json_text "random_exponential")
      ∷ ("base", json_float base)
      ∷ ("factor", json_float factor)
      ∷ ("minimum", json_float minimum)
      ∷ ("maximum", or_null json_float maximum)
      ∷ ("seed", or_null json_int seed)
      ∷ [])
  delay_to_shallow_dict (chain_delay first rest) = dict (
      ("type", json_text "chain")
      ∷ ("delays", json_list (items_of (map json_float (first ∷ rest))))
      ∷ [])
  delay_to_shallow_dict (additive_delay ds) =
      dict (("type", json_text "additive") ∷ ("strategies", json_list no_more) ∷ [])
  delay_to_shallow_dict (custom_delay callback) =
      dict (("type", json_text "custom") ∷ ("callable", json_text (names.of_delay callback)) ∷ [])
  delay_to_shallow_dict (stateful_custom_delay callback) = dict (
      ("type", json_text "stateful_custom")
      ∷ ("callable", json_text (names.of_stateful_delay callback))
      ∷ [])
  delay_to_shallow_dict (user_delay f) =
      dict (("type", json_text "custom") ∷ ("class", json_text (names.delay_class f)) ∷ [])

  abbrev only_type : String → Json
  only_type name = dict (("type", json_text name) ∷ [])

  -- The ways to end that apply to exceptions and to results, before what differs.
  abbrev shared_exhaustion : RetryPolicy → Json → Json
  shared_exhaustion p other =
      if p.should_return_result then only_type "return_result" else elim p.exhausted_callback [
        | some callback ↦ dict (
            ("type", json_text "fallback")
            ∷ ("callable", json_text (names.of_fallback callback))
            ∷ [])
        | none ↦ elim p.exhausted_exception_factory [
          | some factory ↦ dict (
              ("type", json_text "raise_custom")
              ∷ ("callable", json_text (names.of_factory factory))
              ∷ [])
          | none ↦ other
        ]
      ]

  abbrev result_behavior : ResultExhaustedBehavior → String
  result_behavior raise_exhausted = "raise"
  result_behavior return_last = "return_last"

  unfoldable pub exception_exhaustion_to_dict : RetryPolicy → Json
  exception_exhaustion_to_dict p =
      shared_exhaustion p (only_type (if p.should_raise_last then "raise_last" else "return_none"))

  unfoldable pub result_exhaustion_to_dict : RetryPolicy → Json
  result_exhaustion_to_dict p =
      shared_exhaustion p (only_type (result_behavior p.result_exhausted_behavior))

  unfoldable pub exhaustion_to_dict : RetryPolicy → Json
  unfolding exception_exhaustion_to_dict result_exhaustion_to_dict
  exhaustion_to_dict p =
      dict (
        ("exception", exception_exhaustion_to_dict p)
        ∷ ("result", result_exhaustion_to_dict p)
        ∷ [])
