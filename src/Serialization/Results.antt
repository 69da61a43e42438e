-- ===== src/Serialization/Results.antt =====
-- The rest of src/relinker/result.py: what it reads off the retained attempts, `summary`, `to_dict`.
use Prim.Native.String.{String}
use relinker.Prelude.{
  ℕ, Bool, true, false, Option, none, some, List, [], ◌∷◌, ◌++◌, any, map, length, if◌then◌else◌,
}
use relinker.Python.{Python, Value, ErrorClass, Error, class_of}
use relinker.Records.{
  RetryCause, exception, result, AttemptRecord, attempt_duration, attempt_succeeded, attempt_failed,
  RetryResult, result_succeeded, result_failed, attempt_count, history_truncated, total_time,
  failed_attempts, successful_attempts,
}
use relinker.Serialization.{
  Json, json_null, json_bool, json_int, json_float, json_text, json_value, json_list, dict,
  items_of, or_null, Names,
}

abbrev pub cause_text : RetryCause → String
cause_text exception = "exception"
cause_text result = "result"

module _ ⦃py : Python⦄ where
  -- `RetryResult.retained_attempt_count`
  abbrev pub retained_attempt_count : RetryResult → ℕ
  retained_attempt_count r = length r.attempts

  abbrev or_else_error : Option Error → Option Error → Option Error
  or_else_error none earlier = earlier
  or_else_error (some e) earlier = some e

  -- `for attempt in reversed(self.attempts)`: what a later record has comes first.
  abbrev last_error_in : List AttemptRecord → Option Error
  last_error_in [] = none
  last_error_in (a ∷ as_after) = or_else_error (last_error_in as_after) a.error

  unfoldable pub last_error : RetryResult → Option Error
  last_error r = last_error_in r.attempts

  -- The last record with a value; `has_last_value` tells whether there is one.
  abbrev last_value_in : List AttemptRecord → Value
  last_value_in [] = py.none_value
  last_value_in (a ∷ later) =
      if any (λ b. b.has_value) later
      then last_value_in later
      else if a.has_value
      then a.value
      else py.none_value

  unfoldable pub last_value : RetryResult → Value
  last_value r = last_value_in r.attempts

  abbrev pub last_in : List AttemptRecord → Option AttemptRecord
  last_in [] = none
  last_in (a ∷ []) = some a
  last_in (a ∷ b ∷ rest) = last_in (b ∷ rest)

  unfoldable pub last_attempt : RetryResult → Option AttemptRecord
  last_attempt r = last_in r.attempts

  module _ (same_class : ErrorClass → ErrorClass → Bool) where
    -- A class that was not seen yet is appended.
    abbrev pub with_type : List ErrorClass → Option Error → List ErrorClass
    with_type seen none = seen
    with_type seen (some e) =
        if any (same_class (class_of e)) seen then seen else seen ++ (class_of e ∷ [])

    -- The loop of `error_types`, with the classes that it has seen.
    abbrev pub types_from : List ErrorClass → List AttemptRecord → List ErrorClass
    types_from seen [] = seen
    types_from seen (a ∷ rest) = types_from (with_type seen a.error) rest

    unfoldable pub error_types : RetryResult → List ErrorClass
    error_types r = types_from [] r.attempts

    module _ (names : Names) where
      abbrev pub class_json : Error → Json
      class_json e = json_text (names.class_name (class_of e))

      -- `str(error) if … include_error_message else None`
      abbrev pub message_json : Bool → Error → Json
      message_json true e = json_text (names.message e)
      message_json false e = json_null

      unfoldable pub summary : RetryResult → Json
      unfolding error_types
      summary r = dict (
          ("succeeded", json_bool (result_succeeded r))
          ∷ ("exhausted", json_bool r.exhausted)
          ∷ ("retry_cause", or_null (λ c. json_text (cause_text c)) r.retry_cause)
          ∷ ("attempt_count", json_int (attempt_count r))
          ∷ ("failed_attempts", json_int (failed_attempts r))
          ∷ ("successful_attempts", json_int (successful_attempts r))
          ∷ ("retained_attempt_count", json_int (retained_attempt_count r))
          ∷ ("history_truncated", json_bool (history_truncated r))
          ∷ ("total_time", json_float (names.round (total_time r) 3))
          ∷ ("policy_name", or_null json_text r.policy_name)
          ∷ ("error", or_null class_json r.error)
          ∷ (
            "error_types",
            json_list (items_of (map (λ c. json_text (names.class_name c)) (error_types r))),
          )
          ∷ [])

      abbrev pub attempt_json : Bool → AttemptRecord → Json
      attempt_json include_error_message a = dict (
          ("number", json_int a.number)
          ∷ ("succeeded", json_bool (attempt_succeeded a))
          ∷ ("failed", json_bool (attempt_failed a))
          ∷ ("started_at", json_float a.started_at)
          ∷ ("ended_at", json_float a.ended_at)
          ∷ ("duration", json_float (attempt_duration a))
          ∷ ("error_type", or_null class_json a.error)
          ∷ ("error_message", or_null (message_json include_error_message) a.error)
          ∷ [])

      abbrev pub error_json : Bool → Error → Json
      error_json include_error_message e =
          dict (("type", class_json e) ∷ ("message", message_json include_error_message e) ∷ [])

      unfoldable pub to_dict : (include_value include_error_message : Bool) → RetryResult → Json
      to_dict include_value include_error_message r = dict (
          (("succeeded", json_bool (result_succeeded r))
            ∷ ("failed", json_bool (result_failed r))
            ∷ ("exhausted", json_bool r.exhausted)
            ∷ ("retry_cause", or_null (λ c. json_text (cause_text c)) r.retry_cause)
            ∷ ("attempt_count", json_int (attempt_count r))
            ∷ ("failed_attempts", json_int (failed_attempts r))
            ∷ ("successful_attempts", json_int (successful_attempts r))
            ∷ ("retained_attempt_count", json_int (retained_attempt_count r))
            ∷ ("history_truncated", json_bool (history_truncated r))
            ∷ ("total_time", json_float (total_time r))
            ∷ ("started_at", json_float r.started_at)
            ∷ ("ended_at", json_float r.ended_at)
            ∷ ("policy_name", or_null json_text r.policy_name)
            ∷ ("error", or_null (error_json include_error_message) r.error)
            ∷ (
              "attempts",
              json_list (items_of (map (attempt_json include_error_message) r.attempts)),
            )
            ∷ [])
          ++ (if include_value then ("value", json_value r.value) ∷ [] else []))
