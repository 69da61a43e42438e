-- ===== src/Serialization/Configuration.antt =====
-- `policy_to_dict` of src/relinker/internal/policy_serialization.py.
use Prim.Native.String.{String}
use relinker.Prelude.{ℕ, true, false, Option, none, some, [], ◌∷◌, map}
use relinker.Python.{Python, ErrorClass}
use relinker.Budget.{RetryBudget}
use relinker.Effects.{Action, get_budget, pure, ◌>>=◌}
use relinker.Policy.{RetryPolicy}
use relinker.Serialization.{
  Json, json_bool, json_int, json_float, json_text, json_list, dict, items_of, or_null, Names,
}
use relinker.Serialization.Policies.{
  event_handler_to_dict, stop_to_dict, condition_to_dict, exhaustion_to_dict,
}
use relinker.Serialization.Delays.{delay_to_dict}

module _ ⦃py : Python⦄ (names : Names) (exception_name : ErrorClass → String) where
  abbrev budget_to_dict : Option String → RetryBudget → Json
  budget_to_dict key budget = dict (
      ("enabled", json_bool true)
      ∷ ("key", or_null json_text key)
      ∷ ("max_retries", json_int budget.max_retries)
      ∷ ("per", json_float budget.per)
      ∷ [])

  -- The dictionary under "retry_budget", of the budget object at an identity.
  unfoldable pub retry_budget_to_dict : Option ℕ → Option String → Action Json
  retry_budget_to_dict none key = pure (dict (("enabled", json_bool false) ∷ []))
  retry_budget_to_dict (some id) key = do budget ← get_budget id; pure (budget_to_dict key budget)

  unfoldable pub policy_to_dict : RetryPolicy → Action Json
  policy_to_dict p = do
    retry_budget ← retry_budget_to_dict p.retry_budget p.retry_budget_key
    pure (
        dict (
          ("name", or_null json_text p.name)
          ∷ ("stop", stop_to_dict names p.stop_strategy)
          ∷ ("condition", condition_to_dict names exception_name p.condition)
          ∷ ("delay", delay_to_dict names p.delay_strategy)
          ∷ ("exhaustion", exhaustion_to_dict names p)
          ∷ ("history_limit", or_null json_int p.history_limit)
          ∷ ("retry_budget", retry_budget)
          ∷ ("testing", dict (("no_real_sleep", json_bool p.testing_mode) ∷ []))
          ∷ (
            "callbacks",
            dict (
                (
                  "event_handlers",
                  json_list (items_of (map (event_handler_to_dict names) p.event_handlers)),
                )
                ∷ []),
          )
          ∷ []))
