-- ===== src/Flow/Planned.antt =====
-- What internal/executor_flow.py of src/relinker decides where an attempt is to be retried: a wait, or
-- that the execution is exhausted.
use mathlib.Core.Path.{subst}
use relinker.Prelude.{◌≡◌, refl, Bool, true, false, ◌&&◌, Option, none, some}
use relinker.Python.{Python, Float, ◌+F◌, ◌-F◌, Error}
use relinker.Effects.Hoare.{
  Always, Answers, Always-Answers, Always-both, Always-weaken, Always-pure, Always->>=, Always-next,
  Always-branch,
}
use relinker.Records.{RetryState, RetryResult, RetryCause, exception, result, is_cause}
use relinker.Policy.{RetryPolicy}
use relinker.Stop.{should_stop}
use relinker.Exhaustion.{resolve_final_error, should_stop_before_sleep}
use relinker.Exhaustion.Signals.{StandsFor, resolve_final_error_lem}
use relinker.Runtime.{RetryRuntime, result_of, resolve_if}
use relinker.Wait.{RetryWaitPlan, plan_retry_wait}
use relinker.Wait.Plans.{IsSafePlan, OnPlan, plan_retry_wait-IsSafePlan}
use relinker.Flow.{
  Decision, wait, final, accept, reject, exhaust, Ended, exhaust_flow, give_back, confirm_wait,
  offer_wait, offer_if, plan_retry, sleep_would_stop, stop_or_retry,
}

module _ ⦃py : Python⦄ where
  -- The counters of a result are those of the runtime.
  pub record Counts (rt : RetryRuntime) (r : RetryResult) : Type 0 where
    pub total : r.total_attempts ≡ rt.attempt_number
    pub failures : r.total_failed_attempts ≡ some rt.failed_count
    pub successes : r.total_successful_attempts ≡ some rt.success_count

  -- The error that an exhausted result reports: the one that an attempt's exception stands for.
  abbrev pub Reports : RetryCause → Option Error → Option Error → Type 0
  Reports exception (some e) (some a) = StandsFor e a
  Reports exception none none = Unit
  Reports exception _ _ = ⊥
  Reports result e a = a ≡ e

  resolve_if-Reports :
      (c : RetryCause) (e : Option Error)
      → Reports c e (resolve_if (true && is_cause exception (some c)) e)
  resolve_if-Reports exception none = tt
  resolve_if-Reports exception (some e) = (resolve_final_error_lem e (resolve_final_error e)).0 refl
  resolve_if-Reports result none = refl
  resolve_if-Reports result (some e) = refl

  -- Exhausted, and for the reason that the attempt gave.
  pub record IsExhausted (rt : RetryRuntime) (ended : Ended) (r : RetryResult) : Type 0 where
    pub counts : Counts rt r
    pub flagged : r.exhausted ≡ true
    pub cause : r.retry_cause ≡ some ended.retry_cause
    pub last_value : r.value ≡ ended.value
    pub last_error : Reports ended.retry_cause ended.error r.error

  module _ (policy : RetryPolicy) (rt : RetryRuntime) where
    -- What the stop strategy says of this attempt at some time, and with a sleep added to it.
    abbrev pub StopSays : Bool → Type 0
    StopSays b =
        (t : Float) × Answers
          (should_stop policy.stop_strategy rt.attempt_number (t -F rt.started_at)) b

    abbrev pub SleepSays : Float → Bool → Type 0
    SleepSays delay b =
        (t : Float) × Answers
          (should_stop policy.stop_strategy rt.attempt_number ((t -F rt.started_at) +F delay)) b

    -- Why an execution that would go on is exhausted.
    pub data IsOver : Type 0 where
      stopped : StopSays true → IsOver
      without_slot :
          (state : Option RetryState)
          → StopSays false
          → Answers (plan_retry_wait policy rt.attempt_number state) none
          → IsOver
      too_late :
          (plan : RetryWaitPlan)
          → StopSays false
          → IsSafePlan policy plan
          → SleepSays plan.total_delay true
          → IsOver

    -- The decisions that leave retrying open: a safe wait behind which the policy does not stop, or
    -- exhaustion.
    abbrev pub WaitsOrExhausts : Ended → Decision → Type 0
    WaitsOrExhausts ended (wait plan) =
        IsSafePlan policy plan × StopSays false × SleepSays plan.total_delay false
    WaitsOrExhausts ended (final exhaust r) = IsExhausted rt ended r × IsOver
    WaitsOrExhausts ended (final accept r) = ⊥
    WaitsOrExhausts ended (final reject r) = ⊥

    sleep_would_stop-SleepSays :
        (plan : RetryWaitPlan)
        → Always (SleepSays plan.total_delay) (sleep_would_stop policy rt plan)
    unfolding sleep_would_stop should_stop_before_sleep
    sleep_would_stop-SleepSays plan =
        Always-next _ _ λ t. Always-weaken _ (λ b h. (t, h)) (Always-Answers _)

    exhaust_flow-IsExhausted :
        (ended : Ended) → IsOver → Always (WaitsOrExhausts ended) (exhaust_flow policy rt ended)
    unfolding exhaust_flow result_of
    exhaust_flow-IsExhausted ended why = Always-next _ _ λ t. Always-next _ _ λ _. Always-pure _ (
      record {
        counts = record { total = refl; failures = refl; successes = refl };
        flagged = refl;
        cause = refl;
        last_value = refl;
        last_error = resolve_if-Reports ended.retry_cause ended.error;
      },
      why,
    )

    give_back-IsExhausted :
        (ended : Ended) (plan : RetryWaitPlan)
        → IsOver
        → Always (WaitsOrExhausts ended) (give_back policy rt ended plan)
    unfolding give_back
    give_back-IsExhausted ended plan why = Always-next _ _ λ _. exhaust_flow-IsExhausted ended why

    offer_wait_lem :
        (ended : Ended) (state : Option RetryState) (plan : RetryWaitPlan)
        → StopSays false
        → IsSafePlan policy plan
        → Always (WaitsOrExhausts ended) (offer_wait policy rt ended state plan)
    unfolding offer_wait confirm_wait
    offer_wait_lem ended state plan on safe =
        let given_back = λ (late : Bool) (h : SleepSays plan.total_delay late) (e : late ≡ true).
          give_back-IsExhausted ended plan
            (too_late plan on safe (subst (SleepSays plan.total_delay) e h)) in
        Always->>= (SleepSays plan.total_delay) _ _ (sleep_would_stop-SleepSays plan) λ late h.
          Always-branch late _ _ (given_back late h) (λ _. Always-next _ _ λ _.
            Always->>= (SleepSays plan.total_delay) _ _ (sleep_would_stop-SleepSays plan)
              λ late' h'.
                Always-branch late' _ _ (given_back late' h')
                  (λ e. Always-pure _ (safe, on, subst (SleepSays plan.total_delay) e h')))

    offer_if_lem :
        (ended : Ended) (state seen : Option RetryState) (plan : Option RetryWaitPlan)
        → StopSays false
        → OnPlan (IsSafePlan policy) plan
        → Answers (plan_retry_wait policy rt.attempt_number seen) plan
        → Always (WaitsOrExhausts ended) (offer_if policy rt ended state plan)
    unfolding offer_if
    offer_if_lem ended state seen none on safe h =
        exhaust_flow-IsExhausted ended (without_slot seen on h)
    offer_if_lem ended state seen (some plan) on safe h = offer_wait_lem ended state plan on safe

    plan_retry_lem :
        (ended : Ended)
        → StopSays false
        → Always (WaitsOrExhausts ended) (plan_retry policy rt ended)
    unfolding plan_retry
    plan_retry_lem ended on = Always-next _ _ λ state.
        Always->>=
          (λ plan.
            OnPlan (IsSafePlan policy) plan
            × Answers (plan_retry_wait policy rt.attempt_number state) plan)
          _ _ (Always-both _ (plan_retry_wait-IsSafePlan policy _ state) (Always-Answers _))
          λ plan h. offer_if_lem ended state state plan on h.0 h.1

    pub stop_or_retry_lem :
        (ended : Ended) (stops : Bool)
        → StopSays stops
        → Always (WaitsOrExhausts ended) (stop_or_retry policy rt ended stops)
    unfolding stop_or_retry
    stop_or_retry_lem ended stops h =
        Always-branch stops _ _ (λ e. exhaust_flow-IsExhausted ended (stopped (subst StopSays e h)))
          (λ e. plan_retry_lem ended (subst StopSays e h))
