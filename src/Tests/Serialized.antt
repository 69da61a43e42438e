-- ===== src/Tests/Serialized.antt =====
-- The theorems on dictionaries, at names that give away the identity of an exception.
use relinker.Prelude.{◌≡◌, refl, false, none, some}
use relinker.Python.{ticks_python, Error, exception_object, class_of, absent}
use relinker.Records.{RetryEvent, after_giveup}
use relinker.Stop.{
  StopStrategy, stop_after_attempt, stop_after_delay, any_stop_strategy, all_stop_strategy, nil,
  cons,
}
use relinker.Delay.{DelayStrategy, fixed_delay, additive_delay, nil as no_delays, cons as delay_and}
use relinker.Serialization.{Names}
use relinker.Serialization.Delays.{delay_to_dict, tree_to_dict}
use relinker.Serialization.Delays.Filled.{delay_to_dict-tree_to_dict}
use relinker.Serialization.Results.{summary, to_dict}
use relinker.Serialization.Payload.{structured_payload}
use relinker.Serialization.Policies.{stop_to_dict}
use relinker.Serialization.Stops.{IsBuiltIn, read_stop, read_stop-stop_to_dict}
use relinker.Serialization.Privacy.{other_result, other_event, to_dict-private}
use relinker.Tests.Samples.{exhausted_result, failure}

abbrev names : Names
names = record {
  class_name = λ c. "ApplicationError";
  message = λ e. "token 17 was refused";
  round = λ x n. x;
  of_predicate = λ f. "predicate";
  of_condition = λ f. "condition";
  of_delay = λ f. "delay";
  of_stateful_delay = λ f. "stateful";
  of_fallback = λ f. "fallback";
  of_factory = λ f. "factory";
  of_handler = λ f. "handler";
  stop_class = λ f. "Stop";
  condition_class = λ f g. "Condition";
  delay_class = λ f. "Delay";
}

abbrev nested : StopStrategy
nested = any_stop_strategy (
    cons (stop_after_delay 9)
      (cons (all_stop_strategy (cons (stop_after_attempt 4) (cons (stop_after_delay 2) nil))) nil))

nested-IsBuiltIn : IsBuiltIn nested
unfolding IsBuiltIn
nested-IsBuiltIn = (tt, ((tt, (tt, tt)), tt))

read_stop-stop_to_dict_example : read_stop (stop_to_dict names nested) ≡ some nested
read_stop-stop_to_dict_example = read_stop-stop_to_dict names nested nested-IsBuiltIn

-- A sum in a sum, between two delays that are not sums.
abbrev nested_delay : DelayStrategy
nested_delay = additive_delay (
    delay_and (fixed_delay 1) (
      delay_and (additive_delay (delay_and (fixed_delay 2) (delay_and (fixed_delay 3) no_delays)))
        (delay_and (fixed_delay 4) no_delays)))

delay_to_dict-tree_to_dict_example :
    delay_to_dict names nested_delay ≡ tree_to_dict names nested_delay
delay_to_dict-tree_to_dict_example = delay_to_dict-tree_to_dict names nested_delay

abbrev giveup : RetryEvent
giveup = record {
  name = after_giveup;
  attempt_number = 3;
  function_name = "fetch";
  delay = none;
  value = 0;
  error = some failure;
  state = none;
  policy_name = none;
}

-- Another exception of the same class, with another identity and without a chain.
abbrev unchained : Error → Error
unchained e = exception_object (class_of e) 99 absent absent false

to_dict-private_example :
    (to_dict ticks_python.is_subclass names false false
        (other_result (λ v. 0) unchained exhausted_result)
      ≡ to_dict ticks_python.is_subclass names false false exhausted_result)
    × (summary ticks_python.is_subclass names (other_result (λ v. 0) unchained exhausted_result)
        ≡ summary ticks_python.is_subclass names exhausted_result)
    × (structured_payload names false (other_event (λ v. 0) unchained giveup)
        ≡ structured_payload names false giveup)
to_dict-private_example =
    to_dict-private (λ v. 0) unchained (λ e. refl) ticks_python.is_subclass names false (λ h. cc)
      false exhausted_result giveup (λ h. cc)
