-- ===== src/Flow/Decisions.antt =====
-- The decisions of src/relinker/internal/executor_flow.py: the branches of `after_exception` and
-- `after_value`.
use mathlib.Core.Path.{subst}
use relinker.Prelude.{◌+◌, ◌≡◌, ◌⊎◌, inl, inr, refl, Bool, true, false, none, some}
use relinker.Python.{Python, Value, Error, is_try_again}
use relinker.Effects.Hoare.{
  Always, Answers, Always-Answers, Always-weaken, Always-pure, Always->>=, Always-next,
  Always-branch,
}
use relinker.Policy.{RetryPolicy}
use relinker.Condition.{should_retry_exception, should_retry_result}
use relinker.Runtime.{RetryRuntime, result_of, record_failure, record_success}
use relinker.Flow.{
  Decision, wait, final, accept, reject, exhaust, RetryFlow, failed, produced, reject_error,
  accept_value, wants_retry, wants_other, after_exception, after_value,
}
use relinker.Flow.Planned.{Counts, IsExhausted, IsOver, WaitsOrExhausts, stop_or_retry_lem}

module _ ⦃py : Python⦄ where
  -- A retry is asked for by the exception itself or by the condition, or it is not.
  abbrev pub Wants : RetryPolicy → Error → Type 0
  Wants policy e =
      (is_try_again e ≡ true) ⊎ Answers (should_retry_exception policy.condition e) true

  abbrev pub Refuses : RetryPolicy → Error → Type 0
  Refuses policy e =
      (is_try_again e ≡ false) × Answers (should_retry_exception policy.condition e) false

  -- What an attempt that raised can lead to.
  abbrev pub AfterException : RetryPolicy → RetryRuntime → Error → Decision → Type 0
  AfterException policy rt e (wait plan) =
      WaitsOrExhausts policy rt (failed e) (wait plan) × Wants policy e
  AfterException policy rt e (final exhaust r) =
      IsExhausted rt (failed e) r × IsOver policy rt × Wants policy e
  AfterException policy rt e (final reject r) =
      Refuses policy e × (r.error ≡ some e) × (r.exhausted ≡ false) × Counts rt r
  AfterException policy rt e (final accept r) = ⊥

  -- Another value is asked for, or the value is not one that the condition is asked about, or it
  -- does.
  abbrev pub WantsOther : RetryPolicy → Value → Bool → Type 0
  WantsOther policy v has_value =
      (has_value ≡ true) × Answers (should_retry_result policy.condition v) true

  abbrev pub IsFine : RetryPolicy → Value → Bool → Type 0
  IsFine policy v has_value =
      (has_value ≡ false) ⊎ Answers (should_retry_result policy.condition v) false

  -- What an attempt that returned can lead to.
  abbrev pub AfterValue : RetryPolicy → RetryRuntime → Value → Bool → Decision → Type 0
  AfterValue policy rt v has_value (wait plan) =
      WaitsOrExhausts policy rt (produced v has_value) (wait plan) × WantsOther policy v has_value
  AfterValue policy rt v has_value (final exhaust r) =
      IsExhausted rt (produced v has_value) r × IsOver policy rt × WantsOther policy v has_value
  AfterValue policy rt v has_value (final accept r) =
      (r.value ≡ v)
      × (r.error ≡ none)
      × (r.exhausted ≡ false)
      × Counts rt r
      × IsFine policy v has_value
  AfterValue policy rt v has_value (final reject r) = ⊥

  -- One more failure is counted, or one more success, in the same attempt.
  abbrev pub CountsFailure : RetryFlow → RetryFlow → Type 0
  CountsFailure f g =
      (g.runtime.attempt_number ≡ f.runtime.attempt_number)
      × (g.runtime.failed_count ≡ f.runtime.failed_count + 1)
      × (g.runtime.success_count ≡ f.runtime.success_count)

  abbrev pub CountsSuccess : RetryFlow → RetryFlow → Type 0
  CountsSuccess f g =
      (g.runtime.attempt_number ≡ f.runtime.attempt_number)
      × (g.runtime.failed_count ≡ f.runtime.failed_count)
      × (g.runtime.success_count ≡ f.runtime.success_count + 1)

  abbrev Decides : RetryPolicy → Error → Bool → Type 0
  Decides policy e true = Wants policy e
  Decides policy e false = Refuses policy e

  refused :
      (policy : RetryPolicy) (e : Error) (b : Bool)
      → is_try_again e ≡ false
      → Answers (should_retry_exception policy.condition e) b
      → Decides policy e b
  refused policy e true other h = inr h
  refused policy e false other h = (other, h)

  wants_retry_lem :
      (policy : RetryPolicy) (e : Error) → Always (Decides policy e) (wants_retry policy e)
  unfolding wants_retry
  wants_retry_lem policy e =
      Always-branch (is_try_again e) _ _ (λ signal. Always-pure true (inl signal))
        (λ other. Always-weaken _ (λ b h. refused policy e b other h) (Always-Answers _))

  abbrev Judges : RetryPolicy → Value → Bool → Bool → Type 0
  Judges policy v has_value true = WantsOther policy v has_value
  Judges policy v has_value false = IsFine policy v has_value

  judged :
      (policy : RetryPolicy) (v : Value) (has_value b : Bool)
      → has_value ≡ true
      → Answers (should_retry_result policy.condition v) b
      → Judges policy v has_value b
  judged policy v has_value true given h = (given, h)
  judged policy v has_value false given h = inr h

  wants_other_lem :
      (policy : RetryPolicy) (v : Value) (has_value : Bool)
      → Always (Judges policy v has_value) (wants_other policy v has_value)
  unfolding wants_other
  wants_other_lem policy v has_value =
      Always-branch has_value _ _
        (λ given. Always-weaken _ (λ b h. judged policy v has_value b given h) (Always-Answers _))
        (λ absent. Always-pure false (inl absent))

  reject_error_lem :
      (policy : RetryPolicy) (rt : RetryRuntime) (e : Error)
      → Refuses policy e
      → Always (AfterException policy rt e) (reject_error policy rt e)
  unfolding reject_error result_of
  reject_error_lem policy rt e h = Always-next _ _ λ t.
      Always-next _ _ λ _.
        Always-pure _ (h, refl, refl, record { total = refl; failures = refl; successes = refl })

  accept_value_lem :
      (policy : RetryPolicy) (rt : RetryRuntime) (v : Value) (has_value : Bool)
      → IsFine policy v has_value
      → Always (AfterValue policy rt v has_value) (accept_value policy rt v has_value)
  unfolding accept_value result_of
  accept_value_lem policy rt v has_value h = Always-next _ _ λ t. Always-next _ _ λ _.
      Always-pure _
        (refl, refl, refl, record { total = refl; failures = refl; successes = refl }, h)

  AfterException-of :
      (policy : RetryPolicy) (rt : RetryRuntime) (e : Error) (d : Decision)
      → Wants policy e
      → WaitsOrExhausts policy rt (failed e) d
      → AfterException policy rt e d
  AfterException-of policy rt e (wait plan) wants h = (h, wants)
  AfterException-of policy rt e (final exhaust r) wants h = (h.0, h.1, wants)
  AfterException-of policy rt e (final accept r) wants h = absurd h
  AfterException-of policy rt e (final reject r) wants h = absurd h

  AfterValue-of :
      (policy : RetryPolicy) (rt : RetryRuntime) (v : Value) (has_value : Bool) (d : Decision)
      → WantsOther policy v has_value
      → WaitsOrExhausts policy rt (produced v has_value) d
      → AfterValue policy rt v has_value d
  AfterValue-of policy rt v has_value (wait plan) wants h = (h, wants)
  AfterValue-of policy rt v has_value (final exhaust r) wants h = (h.0, h.1, wants)
  AfterValue-of policy rt v has_value (final accept r) wants h = absurd h
  AfterValue-of policy rt v has_value (final reject r) wants h = absurd h

  -- An attempt that raised counts as one failure. Where it raised TryAgain or the condition
  -- answered that it is retried, it leads to a safe wait, if the stop strategy answered no for
  -- the attempt and for the wait added to it, or to exhaustion, if it answered yes to one of
  -- them or the budget had no slot, with the error that the exception stands for. Otherwise it
  -- leads to rejection with the exception.
  pub after_exception_lem :
      (policy : RetryPolicy) (flow : RetryFlow) (e : Error)
      → Always
          (λ p. CountsFailure flow p.0 × AfterException policy p.0.runtime e p.1)
          (after_exception policy flow e)
  unfolding after_exception record_failure
  after_exception_lem policy flow e =
      Always->>= (Decides policy e) _ _ (wants_retry_lem policy e) λ retries decides.
        Always-next _ _ λ t. Always->>= (Answers _) _ _ (Always-Answers _) λ stops says.
          Always-next _ _ λ _.
            Always->>= (AfterException policy _ e) _ _
              (Always-branch retries _ _
                (λ yes_retry.
                  Always-weaken _
                    (λ d.
                      AfterException-of policy _ e d (subst (Decides policy e) yes_retry decides))
                    (stop_or_retry_lem policy _ (failed e) stops (t, says)))
                (λ no_retry.
                  reject_error_lem policy _ e (subst (Decides policy e) no_retry decides)))
              λ d h. Always-pure _ ((refl, refl, refl), h)

  -- An attempt that returned counts as one success. Where it produced a value of which the
  -- condition answered that it is retried, it leads to a safe wait, if the stop strategy
  -- answered no for the attempt and for the wait added to it, or to exhaustion with that value,
  -- if it answered yes to one of them or the budget had no slot. Otherwise it leads to
  -- acceptance of its value.
  pub after_value_lem :
      (policy : RetryPolicy) (flow : RetryFlow) (v : Value) (has_value : Bool)
      → Always
          (λ p. CountsSuccess flow p.0 × AfterValue policy p.0.runtime v has_value p.1)
          (after_value policy flow v has_value)
  unfolding after_value record_success
  after_value_lem policy flow v has_value = Always-next _ _ λ t.
      Always->>= (Judges policy v has_value) _ _ (wants_other_lem policy v has_value)
        λ retries judges. Always->>= (Answers _) _ _ (Always-Answers _) λ stops says.
          Always->>= (AfterValue policy _ v has_value) _ _
            (Always-branch retries _ _
              (λ again.
                Always-weaken _
                  (λ d.
                    AfterValue-of policy _ v has_value d
                      (subst (Judges policy v has_value) again judges))
                  (stop_or_retry_lem policy _ (produced v has_value) stops (t, says)))
              (λ fine.
                accept_value_lem policy _ v has_value
                  (subst (Judges policy v has_value) fine judges)))
            λ d h. Always-pure _ ((refl, refl, refl), h)
