-- ===== src/Serialization/Privacy.antt =====
-- What the dictionaries of src/relinker/result.py and internal/policy_logging.py disclose.
use Prim.Native.String.{String}
use relinker.Prelude.{
  ℕ, suc, ◌≡◌, refl, ap, ◌∙◌, Bool, true, false, Option, none, some, List, [], ◌∷◌, map, length,
  count_if, if◌then◌else◌,
}
use relinker.Python.{Python, Value, Error, ErrorClass, class_of}
use relinker.Records.{
  AttemptRecord, RetryResult, RetryState, RetryEvent, is_some, or_count, attempt_failed,
  attempt_succeeded,
}
use relinker.Serialization.{Json, json_value, json_text, or_null, Names}
use relinker.Serialization.Results.{
  summary, to_dict, with_type, types_from, attempt_json, message_json, error_json, class_json,
  error_types,
}
use relinker.Serialization.Payload.{structured_payload, error_fields, state_fields}

module _ ⦃py : Python⦄ (f : Value → Value) (g : Error → Error) where
  -- Other values and other exceptions in the place of those that an execution met.
  abbrev pub other_error : Option Error → Option Error
  other_error none = none
  other_error (some e) = some (g e)

  abbrev pub other_attempt : AttemptRecord → AttemptRecord
  other_attempt a = record a { value = f a.value; error = other_error a.error }

  abbrev pub other_result : RetryResult → RetryResult
  other_result r = record r {
    value = f r.value;
    error = other_error r.error;
    attempts = map other_attempt r.attempts;
  }

  abbrev other_state : Option RetryState → Option RetryState
  other_state none = none
  other_state (some s) = some (record s {
    attempts = map other_attempt s.attempts;
    last_value = f s.last_value;
    last_error = other_error s.last_error;
  })

  abbrev pub other_event : RetryEvent → RetryEvent
  other_event event = record event {
    value = f event.value;
    error = other_error event.error;
    state = other_state event.state;
  }

  other-is_some : (o : Option Error) → is_some (other_error o) ≡ is_some o
  other-is_some none = refl
  other-is_some (some e) = refl

  other-length :
      (as_list : List AttemptRecord) → length (map other_attempt as_list) ≡ length as_list
  other-length [] = refl
  other-length (a ∷ rest) = ap suc (other-length rest)

  other-failed :
      (as_list : List AttemptRecord)
      → count_if attempt_failed (map other_attempt as_list) ≡ count_if attempt_failed as_list
  other-failed [] = refl
  other-failed (a ∷ rest) = rw (other-is_some a.error, other-failed rest) refl

  other-succeeded :
      (as_list : List AttemptRecord)
      → count_if attempt_succeeded (map other_attempt as_list) ≡ count_if attempt_succeeded as_list
  other-succeeded [] = refl
  other-succeeded (a ∷ rest) = rw (other-is_some a.error, other-succeeded rest) refl

  or_count-other :
      (o : Option ℕ) (test : AttemptRecord → Bool) (as_list : List AttemptRecord)
      → count_if test (map other_attempt as_list) ≡ count_if test as_list
      → or_count o test (map other_attempt as_list) ≡ or_count o test as_list
  or_count-other none test as_list e = e
  or_count-other (some n) test as_list e = refl

  module _ (same : (e : Error) → class_of (g e) ≡ class_of e) where
    module _ (same_class : ErrorClass → ErrorClass → Bool) where
      with_type-other :
          (seen : List ErrorClass) (o : Option Error)
          → with_type same_class seen (other_error o) ≡ with_type same_class seen o
      with_type-other seen none = refl
      with_type-other seen (some e) = rw (same e) refl

      types_from-other :
          (seen : List ErrorClass) (as_list : List AttemptRecord)
          → types_from same_class seen (map other_attempt as_list)
            ≡ types_from same_class seen as_list
      types_from-other seen [] = refl
      types_from-other seen (a ∷ rest) =
          types_from-other (with_type same_class seen (other_error a.error)) rest
          ∙ ap (λ seen. types_from same_class seen rest) (with_type-other seen a.error)

    module _ (same_class : ErrorClass → ErrorClass → Bool) (names : Names) (included : Bool)
        (texts : included ≡ true → (e : Error) → names.message (g e) ≡ names.message e) where
      message_json-other :
          (b : Bool) (e : Error)
          → (b ≡ true → names.message (g e) ≡ names.message e)
          → message_json same_class names b (g e) ≡ message_json same_class names b e
      message_json-other true e h = rw (h refl) refl
      message_json-other false e h = refl

      or_null_message-other :
          (o : Option Error)
          → or_null (message_json same_class names included) (other_error o)
            ≡ or_null (message_json same_class names included) o
      or_null_message-other none = refl
      or_null_message-other (some e) = message_json-other included e (λ b. texts b e)

      or_null_class-other :
          (o : Option Error)
          → or_null (class_json same_class names) (other_error o)
            ≡ or_null (class_json same_class names) o
      or_null_class-other none = refl
      or_null_class-other (some e) = rw (same e) refl

      error_json-other :
          (o : Option Error)
          → or_null (error_json same_class names included) (other_error o)
            ≡ or_null (error_json same_class names included) o
      error_json-other none = refl
      error_json-other (some e) = rw (same e, message_json-other included e (λ b. texts b e)) refl

      attempts_json-other :
          (as_list : List AttemptRecord)
          → map (attempt_json same_class names included) (map other_attempt as_list)
            ≡ map (attempt_json same_class names included) as_list
      attempts_json-other [] = refl
      attempts_json-other (a ∷ rest) =
          rw
            (
              other-is_some a.error,
              or_null_message-other a.error,
              or_null_class-other a.error,
              attempts_json-other rest,
            )
            refl

      abbrev field_if : Bool → String → Json → List (String × Json)
      field_if b key json = if b then (key, json) ∷ [] else []

      value_field-other :
          (b : Bool) (v : Value)
          → (b ≡ true → f v ≡ v)
          → field_if b "value" (json_value (f v)) ≡ field_if b "value" (json_value v)
      value_field-other true v h = rw (h refl) refl
      value_field-other false v h = refl

      to_dict-other :
          (with_value : Bool) (r : RetryResult)
          → (with_value ≡ true → (v : Value) → f v ≡ v)
          → to_dict same_class names with_value included (other_result r)
            ≡ to_dict same_class names with_value included r
      unfolding to_dict
      to_dict-other with_value r values =
          rw
            (
              other-is_some r.error,
              other-length r.attempts,
              or_count-other r.total_failed_attempts attempt_failed r.attempts
                  (other-failed r.attempts),
              or_count-other r.total_successful_attempts attempt_succeeded r.attempts
                  (other-succeeded r.attempts),
              error_json-other r.error,
              attempts_json-other r.attempts,
              value_field-other with_value r.value (λ b. values b r.value),
            )
            refl

      summary-other :
          (r : RetryResult) → summary same_class names (other_result r) ≡ summary same_class names r
      unfolding summary error_types
      summary-other r =
          rw
            (
              other-is_some r.error,
              other-length r.attempts,
              or_count-other r.total_failed_attempts attempt_failed r.attempts
                  (other-failed r.attempts),
              or_count-other r.total_successful_attempts attempt_succeeded r.attempts
                  (other-succeeded r.attempts),
              or_null_class-other r.error,
              types_from-other same_class [] r.attempts,
            )
            refl

      message_field-other :
          (b : Bool) (e : Error)
          → (b ≡ true → names.message (g e) ≡ names.message e)
          → field_if b "error_message" (json_text (names.message (g e)))
            ≡ field_if b "error_message" (json_text (names.message e))
      message_field-other true e h = rw (h refl) refl
      message_field-other false e h = refl

      error_fields-other :
          (o : Option Error)
          → error_fields names included (other_error o) ≡ error_fields names included o
      error_fields-other none = refl
      error_fields-other (some e) =
          rw (same e, message_field-other included e (λ b. texts b e)) refl

      state_fields-other :
          (o : Option RetryState) → state_fields names (other_state o) ≡ state_fields names o
      state_fields-other none = refl
      state_fields-other (some s) = rw (other-length s.attempts) refl

      structured_payload-other :
          (event : RetryEvent)
          → structured_payload names included (other_event event)
            ≡ structured_payload names included event
      unfolding structured_payload
      structured_payload-other event =
          rw (error_fields-other event.error, state_fields-other event.state) refl

      -- Put other values and other exceptions of the same classes in the place of those of a
      -- result, of its attempts and of an event: the summary is the same. The dictionary of the
      -- result and the structured log payload are the same, too, where the messages are the same
      -- or are left out, and for the dictionary the value of the result is the same or is left
      -- out.
      pub to_dict-private :
          (with_value : Bool) (r : RetryResult) (event : RetryEvent)
          → (with_value ≡ true → (v : Value) → f v ≡ v)
          → (to_dict same_class names with_value included (other_result r)
              ≡ to_dict same_class names with_value included r)
            × (summary same_class names (other_result r) ≡ summary same_class names r)
            × (structured_payload names included (other_event event)
                ≡ structured_payload names included event)
      to_dict-private with_value r event values =
          (to_dict-other with_value r values, summary-other r, structured_payload-other event)
