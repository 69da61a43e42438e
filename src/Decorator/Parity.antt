-- ===== src/Decorator/Parity.antt =====
-- The decorator of src/relinker/internal/decorator.py, which runs a policy that tracks the
-- RetryResult, beside the execution of the policy itself.
use Prim.Native.String.{String}
use relinker.Prelude.{
  ℕ, zero, suc, ◌≡◌, refl, true, false, Option, none, some, Bool-cases, inl, inr, ap, sym, ◌∙◌,
}
use relinker.Python.{Python, Value, Error, Outcome, return, raise, is_exception}
use relinker.Effects.{World, Action, pure, branch, ◌>>=◌}
use relinker.Effects.Hoare.{Returns, Always, Always-weaken, Always-next}
use relinker.Records.{RetryResult}
use relinker.Policy.{RetryPolicy, has_handler, named_event, emit}
use relinker.Exhaustion.{Final, finish_exhausted, raise_or_value, resolve_tracked_result}
use relinker.Wait.{plan_retry_wait}
use relinker.Flow.{
  FinalKind, accept, reject, exhaust, Decision, wait, final, RetryFlow, new_flow, enter_attempt,
  after_exception, after_value, emit_event, exhaust_flow, sleep_would_stop, emit_before_sleep,
  give_back, confirm_wait, offer_wait, offer_if, plan_retry, reject_error, accept_value,
  stop_or_retry, wants_retry, wants_other,
}
use relinker.Flow.Decisions.{AfterException, AfterValue, after_exception_lem, after_value_lem}
use relinker.Executor.Rounds.{rest, own_final_rest, loop-zero, loop-rest}
use relinker.Executor.{
  sleep_before_retry, after_call, run_attempt, finish, act_on, round, loop, execute_sync,
}
use relinker.Builders.{replace_exhaustion, return_result}
use relinker.Decorator.{RetryStats, after_tracked, sync_wrapper}

module _ ⦃py : Python⦄ where
  -- No round looks at how the policy ends an execution.
  run_attempt-return_result :
      (policy : RetryPolicy) (function : Action Value) (flow : RetryFlow)
      → run_attempt (return_result policy) function flow ≡ run_attempt policy function flow
  unfolding run_attempt after_call enter_attempt after_exception after_value emit_event exhaust_flow
      sleep_would_stop emit_before_sleep give_back confirm_wait offer_wait offer_if plan_retry
      reject_error accept_value stop_or_retry wants_retry wants_other has_handler named_event emit
      plan_retry_wait replace_exhaustion return_result
  run_attempt-return_result policy function flow = refl

  -- A final decision and the flags of its result agree.
  abbrev Agrees : RetryFlow × Decision → Type 0
  Agrees (flow, wait plan) = Unit
  Agrees (flow, final exhaust r) = r.exhausted ≡ true
  Agrees (flow, final reject r) = r.exhausted ≡ false
  Agrees (flow, final accept r) = (r.exhausted ≡ false) × (r.error ≡ none)

  AfterException-Agrees :
      (policy : RetryPolicy) (e : Error) (flow : RetryFlow) (d : Decision)
      → AfterException policy flow.runtime e d
      → Agrees (flow, d)
  AfterException-Agrees policy e flow (wait plan) h = tt
  AfterException-Agrees policy e flow (final exhaust r) h = h.0.flagged
  AfterException-Agrees policy e flow (final reject r) h = h.2
  AfterException-Agrees policy e flow (final accept r) h = absurd h

  AfterValue-Agrees :
      (policy : RetryPolicy) (v : Value) (flow : RetryFlow) (d : Decision)
      → AfterValue policy flow.runtime v true d
      → Agrees (flow, d)
  AfterValue-Agrees policy v flow (wait plan) h = tt
  AfterValue-Agrees policy v flow (final exhaust r) h = h.0.flagged
  AfterValue-Agrees policy v flow (final reject r) h = absurd h
  AfterValue-Agrees policy v flow (final accept r) h = (h.2, h.1)

  after_call-Agrees :
      (policy : RetryPolicy) (flow : RetryFlow) (r : Outcome Value) (w : World)
      → Returns Agrees (after_call policy flow (r, w))
  unfolding after_call
  after_call-Agrees policy flow (return v) w =
      (Always-weaken _ (λ p h. AfterValue-Agrees policy v p.0 p.1 h.1)
          (after_value_lem policy flow v true)).apply
        w
  after_call-Agrees policy flow (raise e) w = elim (Bool-cases (is_exception e)) [
    | inl caught ↦ rw caught (
        (Always-weaken _ (λ p h. AfterException-Agrees policy e p.0 p.1 h.1)
            (after_exception_lem policy flow e)).apply
          w)
    | inr escapes ↦ rw escapes tt
  ]

  run_attempt-Agrees :
      (policy : RetryPolicy) (function : Action Value) (flow : RetryFlow)
      → Always Agrees (run_attempt policy function flow)
  unfolding run_attempt
  run_attempt-Agrees policy function flow = Always-next _ _ λ entered. record {
    apply = λ w. after_call-Agrees policy entered (function w).0 (function w).1;
  }

  -- What the caller sees of the wrapper: its answer without the statistics.
  abbrev pub answer_of :
      Option ((Outcome Final × World) × RetryStats) → Option (Outcome Final × World)
  answer_of none = none
  answer_of (some (answer, stats)) = some answer

  module _ (policy : RetryPolicy) (stats : RetryStats) where
    -- The wrapper's treatment of what the tracking policy's execution gives.
    abbrev untrack : Option (Outcome Final × World) → Option (Outcome Final × World)
    untrack none = none
    untrack (some answer) = some (after_tracked policy stats answer).0

    abbrev tracking : RetryPolicy
    tracking = return_result policy

    -- The policy's own treatment of a result that agrees with the decision is what `finish` does.
    finish-tracked :
        (flow : RetryFlow) (kind : FinalKind) (r : RetryResult) (w : World)
        → Agrees (flow, final kind r)
        → resolve_tracked_result policy r w ≡ finish policy kind r w
    unfolding resolve_tracked_result finish finish_exhausted branch pure raise_or_value
    finish-tracked flow exhaust r w h = elim (Bool-cases policy.should_return_result) [
      | inl e ↦ rw (h, e) refl
      | inr e ↦ rw (h, e) refl
    ]
    finish-tracked flow reject r w h = rw h refl
    finish-tracked flow accept r w h = rw (h.0, h.1) refl

    tracked_rest :
        (fuel : ℕ) (function : Action Value) (flow : RetryFlow) (kind : FinalKind) (r : RetryResult)
        (w : World)
        → untrack (rest tracking fuel function (act_on tracking (flow, final kind r) w))
          ≡ some (resolve_tracked_result policy r w)
    unfolding act_on finish finish_exhausted branch pure ◌>>=◌ return_result replace_exhaustion
        after_tracked
    tracked_rest fuel function flow exhaust r w = refl
    tracked_rest fuel function flow reject r w = refl
    tracked_rest fuel function flow accept r w = refl

    -- Both loops, behind a wait or an error, and behind a decision.
    module _ (fuel : ℕ) (function : Action Value)
        (ih : (flow : RetryFlow) (w : World)
          → untrack (loop fuel tracking function flow w) ≡ loop fuel policy function flow w) where
      wait_rest :
          (flow : RetryFlow) (o : Outcome (Unit {0})) (w : World)
          → untrack (rest tracking fuel function (((λ _. (o, w)) >>= λ _. pure (flow, none)) w))
            ≡ rest policy fuel function (((λ _. (o, w)) >>= λ _. pure (flow, none)) w)
      unfolding ◌>>=◌ pure after_tracked
      wait_rest flow (return _) w = ih flow w
      wait_rest flow (raise e) w = refl

      decision_rest :
          (flow : RetryFlow) (d : Decision) (w : World)
          → Agrees (flow, d)
          → untrack (rest tracking fuel function (act_on tracking (flow, d) w))
            ≡ rest policy fuel function (act_on policy (flow, d) w)
      unfolding act_on ◌>>=◌ sleep_before_retry return_result replace_exhaustion
      decision_rest flow (wait plan) w h =
          wait_rest flow (sleep_before_retry policy plan w).0 (sleep_before_retry policy plan w).1
      decision_rest flow (final kind r) w h =
          tracked_rest fuel function flow kind r w
          ∙ ap some (finish-tracked flow kind r w h)
          ∙ sym (own_final_rest policy fuel function flow kind r w)

      round_rest :
          (r : Outcome (RetryFlow × Decision)) (w : World)
          → Returns Agrees (r, w)
          → untrack (rest tracking fuel function (((λ _. (r, w)) >>= act_on tracking) w))
            ≡ rest policy fuel function (((λ _. (r, w)) >>= act_on policy) w)
      unfolding ◌>>=◌ after_tracked
      round_rest (return (flow, d)) w h = decision_rest flow d w h
      round_rest (raise e) w h = refl

    round-tracked :
        (fuel : ℕ) (function : Action Value) (flow : RetryFlow) (w : World)
        → ((flow' : RetryFlow) (w' : World)
            → untrack (loop fuel tracking function flow' w') ≡ loop fuel policy function flow' w')
        → untrack (
            rest tracking fuel function
              ((run_attempt tracking function flow >>= act_on tracking) w))
          ≡ rest policy fuel function ((run_attempt policy function flow >>= act_on policy) w)
    unfolding ◌>>=◌
    round-tracked fuel function flow w ih =
        ap (λ m. untrack (rest tracking fuel function ((m >>= act_on tracking) w)))
          (run_attempt-return_result policy function flow)
        ∙ round_rest fuel function ih (run_attempt policy function flow w).0
            (run_attempt policy function flow w).1
            ((run_attempt-Agrees policy function flow).apply w)

    loop-tracked :
        (fuel : ℕ) (function : Action Value) (flow : RetryFlow) (w : World)
        → untrack (loop fuel tracking function flow w) ≡ loop fuel policy function flow w
    unfolding round
    loop-tracked zero function flow w =
        ap untrack (loop-zero tracking function flow w) ∙ sym (loop-zero policy function flow w)
    loop-tracked (suc fuel) function flow w =
        ap untrack (loop-rest tracking fuel function flow w)
        ∙ round-tracked fuel function flow w (loop-tracked fuel function)
        ∙ sym (loop-rest policy fuel function flow w)

    start-tracked :
        (fuel : ℕ) (function : Action Value) (r : Outcome RetryFlow) (w : World)
        → untrack (elim r [
          | return flow ↦ loop fuel tracking function flow w
          | raise e ↦ some (raise e, w)
        ])
          ≡ elim r [ return flow ↦ loop fuel policy function flow w | raise e ↦ some (raise e, w) ]
    unfolding after_tracked
    start-tracked fuel function (return flow) w = loop-tracked fuel function flow w
    start-tracked fuel function (raise e) w = refl

    answer_of-untrack :
        (answer : Option (Outcome Final × World))
        → answer_of (elim answer [ none ↦ none | some a ↦ some (after_tracked policy stats a) ])
          ≡ untrack answer
    answer_of-untrack none = refl
    answer_of-untrack (some a) = refl

  -- A decorated function behaves as the plain execution of its policy, whatever its statistics
  -- are: the same value, result or exception in the same world, or no end within the fuel.
  pub sync_wrapper-execute_sync :
      (fuel : ℕ) (policy : RetryPolicy) (stats : RetryStats) (name : String)
      (function : Action Value) (w : World)
      → answer_of (sync_wrapper fuel policy stats name function w)
        ≡ execute_sync fuel policy name function w
  unfolding sync_wrapper execute_sync new_flow return_result replace_exhaustion
  sync_wrapper-execute_sync fuel policy stats name function w =
      answer_of-untrack policy stats (execute_sync fuel (return_result policy) name function w)
      ∙ start-tracked policy stats fuel function (new_flow policy name w).0
          (new_flow policy name w).1
