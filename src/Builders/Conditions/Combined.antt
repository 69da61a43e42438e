-- ===== src/Builders/Conditions/Combined.antt =====
-- The OR builders for conditions of src/relinker/policy.py, and the condition that they start from.
use relinker.Prelude.{◌≡◌, refl, Bool, true, List, ◌∷◌, all}
use relinker.Python.{Python, Value, Error, ErrorClass, is_exception_class, Outcome, return}
use relinker.Effects.{World, Action, pure, ◌>>=◌}
use relinker.Effects.Laws.{or_else, or_last}
use relinker.Condition.{
  RetryCondition, exception_condition, result_condition, any_condition, nil, cons, is_instance,
  should_retry_exception, should_retry_result,
}
use relinker.Condition.Flatten.{flatten_any_conditions}
use relinker.Condition.Flatten.Either.{
  should_retry_exception-either, should_retry_result-either, should_retry-exception_condition,
  should_retry_result-exception_condition, should_retry_exception-result_condition,
  should_retry_result-result_condition, new_exception_condition_of,
  new_any_condition-exception_condition, new_any_condition-result_condition,
}
use relinker.Policy.{RetryPolicy}
use relinker.Policy.Accepted.{IsAccepted, post_init_of}
use relinker.Builders.Conditions.{with_condition, or_on, or_retry_if_result}

module _ ⦃py : Python⦄ where
  with_condition_lem :
      (p : RetryPolicy) (c : RetryCondition)
      → IsAccepted p
      → with_condition p c ≡ return (record p { condition = c })
  unfolding with_condition
  with_condition_lem p c h =
      post_init_of (record p { condition = c })
        (record {
          named = h.named;
          limited = h.limited;
          budgeted = h.budgeted;
          exclusive = h.exclusive;
        })

  -- The builder succeeds, and its policy's condition answers as given for both outcomes.
  abbrev pub RetriesAs :
      Outcome RetryPolicy → (Error → Action Bool) → (Value → Action Bool) → Type 0
  RetriesAs built on_error on_result =
      (q : RetryPolicy) × (built ≡ return q)
      × ((e : Error) (w : World) → should_retry_exception q.condition e w ≡ on_error e w)
      × ((v : Value) (w : World) → should_retry_result q.condition v w ≡ on_result v w)

  -- Of a valid policy, `or_on` with exception classes makes a policy that retries the exceptions
  -- that the old one retries and those of the classes, and the same values.
  pub or_on-should_retry :
      (p : RetryPolicy) (c : ErrorClass) (cs : List ErrorClass)
      → IsAccepted p
      → all is_exception_class (c ∷ cs) ≡ true
      → RetriesAs
          (or_on p (c ∷ cs))
          (λ e. should_retry_exception p.condition e >>= or_else (pure (is_instance e (c ∷ cs))))
          (should_retry_result p.condition)
  unfolding or_on
  or_on-should_retry p c cs h types =
      let a = p.condition in
      let b = exception_condition (c ∷ cs) in
      (
        record p { condition = any_condition (flatten_any_conditions (cons a (cons b nil))) },
        rw (new_exception_condition_of c cs types, new_any_condition-exception_condition a (c ∷ cs))
            (with_condition_lem p _ h),
        λ e w.
            rw (should_retry_exception-either e a b w, should_retry-exception_condition (c ∷ cs) e)
              refl,
        λ v w.
            rw
              (
                should_retry_result-either v a b w,
                should_retry_result-exception_condition (c ∷ cs) v,
                or_last (should_retry_result a v) w,
              )
              refl,
      )

  -- Of a valid policy, `or_retry_if_result` makes a policy that retries the values that the old
  -- one retries and those of the predicate, and the same exceptions.
  pub or_retry_if_result-should_retry :
      (p : RetryPolicy) (predicate : Value → Action Bool)
      → IsAccepted p
      → RetriesAs
          (or_retry_if_result p predicate)
          (should_retry_exception p.condition)
          (λ v. should_retry_result p.condition v >>= or_else (predicate v))
  unfolding or_retry_if_result
  or_retry_if_result-should_retry p predicate h =
      let a = p.condition in
      let b = result_condition predicate in
      (
        record p { condition = any_condition (flatten_any_conditions (cons a (cons b nil))) },
        rw (new_any_condition-result_condition a predicate) (with_condition_lem p _ h),
        λ e w.
            rw
              (
                should_retry_exception-either e a b w,
                should_retry_exception-result_condition predicate e,
                or_last (should_retry_exception a e) w,
              )
              refl,
        λ v w.
            rw
              (should_retry_result-either v a b w, should_retry_result-result_condition predicate v)
              refl,
      )
