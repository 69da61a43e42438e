-- ===== src/Tests/Policies.antt =====
-- The theorems on the configuration of policies and on their exceptions and events.
use relinker.Prelude.{◌↔◌, ◌≡◌, refl, none, [], ◌∷◌}
use relinker.Python.{ticks_python, ◌≤F◌, return, raise}
use relinker.Effects.{pure, ◌>>=◌}
use relinker.Effects.Laws.{and_then}
use relinker.Records.{RetryEvent, before_attempt, isolate}
use relinker.Validation.{real, require_finite, ensure_finite_float, ensure_non_negative}
use relinker.Exhaustion.{resolve_final_error, finish_exhausted}
use relinker.Exhaustion.Signals.{StandsFor, resolve_final_error_lem}
use relinker.Stop.{should_stop}
use relinker.Policy.{RetryPolicy, post_init, emit}
use relinker.Policy.Accepted.{IsAccepted}
use relinker.Policy.Events.{IsContained, emit-IsContained}
use relinker.Builders.Exhaustions.{
  choose, ends_as, raises_last, returns_result, choose-finish_exhausted,
}
use relinker.Builders.Stops.{and_stop_after_time}
use relinker.Builders.Stops.Combined.{StopsAs, and_stop_after_time-should_stop}
use relinker.Tests.Samples.{three_attempts, start, failure, signal, exhausted_result}

accepted : IsAccepted three_attempts
accepted = record { named = refl; limited = refl; budgeted = refl; exclusive = refl }

resolve_final_error_lem_example : (resolve_final_error signal ≡ failure) ↔ StandsFor signal failure
resolve_final_error_lem_example = resolve_final_error_lem signal failure

choose-finish_exhausted_example :
    (finish_exhausted
        (choose returns_result (choose raises_last three_attempts))
        exhausted_result
        start
      ≡ ends_as returns_result three_attempts exhausted_result start)
    × (post_init (choose returns_result (choose raises_last three_attempts))
        ≡ return (choose returns_result (choose raises_last three_attempts)))
choose-finish_exhausted_example =
    choose-finish_exhausted returns_result raises_last three_attempts exhausted_result start
      accepted

sixty : ensure_non_negative (real 60) ≡ return 60
unfolding ensure_non_negative ensure_finite_float require_finite
sixty = refl

and_stop_after_time-should_stop_example :
    StopsAs (and_stop_after_time three_attempts (real 60)) λ n elapsed.
      should_stop three_attempts.stop_strategy n elapsed >>= and_then (pure (60 ≤F elapsed))
and_stop_after_time-should_stop_example =
    and_stop_after_time-should_stop three_attempts (real 60) 60 accepted sixty

-- A policy with one handler, which fails.
abbrev isolated : RetryPolicy
isolated = record three_attempts {
  event_handlers =
      record { name = before_attempt; handler = λ _ w. (raise failure, w); failure_mode = isolate }
      ∷ [];
}

abbrev attempt_event : RetryEvent
attempt_event = record {
  name = before_attempt;
  attempt_number = 1;
  function_name = "fetch";
  delay = none;
  value = 0;
  error = none;
  state = none;
  policy_name = none;
}

emit-IsContained_example : IsContained (emit isolated attempt_event start)
emit-IsContained_example = emit-IsContained isolated attempt_event start ((λ _. refl), tt)
