-- ===== src/Serialization/Payload.antt =====
-- `_structured_payload` of src/relinker/internal/policy_logging.py.
use Prim.Native.String.{String}
use relinker.Prelude.{Bool, Option, none, some, List, [], ◌∷◌, ◌++◌, length, ◌==◌, if◌then◌else◌}
use relinker.Python.{Python, Float, Error, class_of}
use relinker.Records.{
  RetryState, RetryEvent, EventName, before_attempt, after_success, after_failure, before_sleep,
  after_giveup,
}
use relinker.Serialization.{Json, json_bool, json_int, json_float, json_text, dict, or_null, Names}
use relinker.Serialization.Results.{cause_text}

abbrev pub event_text : EventName → String
event_text before_attempt = "before_attempt"
event_text after_success = "after_success"
event_text after_failure = "after_failure"
event_text before_sleep = "before_sleep"
event_text after_giveup = "after_giveup"

module _ ⦃py : Python⦄ (names : Names) where
  -- `if … is not None: payload[key] = …`
  abbrev if_some : String → Option Float → List (String × Json)
  if_some key none = []
  if_some key (some x) = (key, json_float x) ∷ []

  abbrev policy_fields : Option String → List (String × Json)
  policy_fields none = []
  policy_fields (some name) = ("policy", json_text name) ∷ []

  abbrev pub error_fields : Bool → Option Error → List (String × Json)
  error_fields include_error_message none = []
  error_fields include_error_message (some e) =
      ("error_type", json_text (names.class_name (class_of e)))
      ∷ (if include_error_message then ("error_message", json_text (names.message e)) ∷ [] else [])

  abbrev pub state_fields : Option RetryState → List (String × Json)
  state_fields none = []
  state_fields (some s) =
      (("elapsed", json_float (names.round s.elapsed 6))
        ∷ (
          "attempt_count",
          json_int (if s.total_attempts == 0 then length s.attempts else s.total_attempts),
        )
        ∷ ("retry_cause", or_null (λ c. json_text (cause_text c)) s.retry_cause)
        ∷ ("will_retry", json_bool s.will_retry)
        ∷ ("will_stop", json_bool s.will_stop)
        ∷ [])
      ++ if_some "policy_delay" s.policy_delay
      ++ if_some "budget_delay" s.budget_delay
      ++ if_some "total_delay" s.next_delay

  unfoldable pub structured_payload : (include_error_message : Bool) → RetryEvent → Json
  structured_payload include_error_message event = dict (
      (("library", json_text "relinker")
        ∷ ("event", json_text (event_text event.name))
        ∷ ("function", json_text event.function_name)
        ∷ ("attempt", json_int event.attempt_number)
        ∷ [])
      ++ policy_fields event.policy_name
      ++ if_some "delay" event.delay
      ++ error_fields include_error_message event.error
      ++ state_fields event.state)
