-- ===== src/Wait/Plans.antt =====
-- The waits that src/relinker/internal/retry_wait.py plans.
use Prim.Native.String.{String}
use relinker.Prelude.{ℕ, ◌≡◌, refl, sym, ap, ◌∙◌, Option, none, some}
use relinker.Python.{Python, Float, ◌+F◌, zero_float, Outcome, return, raise}
use relinker.Effects.{World, lift}
use relinker.Effects.Hoare.{
  Returns, Always, Always-pure, Always-throw, Always->>=, Always-next, Always-branch,
  Always-on_error,
}
use relinker.Budget.{RetryReservation}
use relinker.Records.{RetryState, is_some}
use relinker.Validation.Accepts.{
  IsSafeDelay, ensure_resolved_delay-IsSafeDelay, ensure_resolved_delay_same,
}
use relinker.Validation.{real, ensure_resolved_delay}
use relinker.Delay.Bounds.{checked-IsSafeDelay}
use relinker.Policy.{RetryPolicy}
use relinker.Wait.{RetryWaitPlan, reserved_plan, plan_reserved, plan_with_budget, plan_retry_wait}

module _ ⦃py : Python⦄ where
  -- Without a reservation the wait is the policy's delay. With one, the budget's part is safe, and
  -- the wait is the sum of the two.
  abbrev pub HasParts : RetryWaitPlan → Option (ℕ × RetryReservation) → Type 0
  HasParts plan none = (plan.budget_delay ≡ zero_float) × (plan.total_delay ≡ plan.policy_delay)
  HasParts plan (some r) =
      IsSafeDelay plan.budget_delay × (plan.total_delay ≡ plan.policy_delay +F plan.budget_delay)

  -- Its delays are safe, and it holds a reservation if the policy has a budget.
  pub record IsSafePlan (policy : RetryPolicy) (plan : RetryWaitPlan) : Type 0 where
    pub policy_part : IsSafeDelay plan.policy_delay
    pub total : IsSafeDelay plan.total_delay
    pub parts : HasParts plan plan.reservation
    pub reserved : is_some plan.reservation ≡ is_some policy.retry_budget

  abbrev pub OnPlan : (RetryWaitPlan → Type 0) → Option RetryWaitPlan → Type 0
  OnPlan P none = Unit
  OnPlan P (some plan) = P plan

  -- What `ensure_resolved_delay` returns of a float is that float, and safe.
  abbrev IsChecked : Float → Float → Type 0
  IsChecked x y = (y ≡ x) × IsSafeDelay y

  Returns-IsChecked :
      (x : Float) (r : Outcome Float) (w : World)
      → ensure_resolved_delay (real x) ≡ r
      → Returns (IsChecked x) (r, w)
  Returns-IsChecked x (return y) w e =
      (ensure_resolved_delay_same x e, ensure_resolved_delay-IsSafeDelay (real x) e)
  Returns-IsChecked x (raise _) w e = tt

  lift-IsChecked : (x : Float) → Always (IsChecked x) (lift (ensure_resolved_delay (real x)))
  unfolding lift
  lift-IsChecked x = record {
    apply = λ w. Returns-IsChecked x (ensure_resolved_delay (real x)) w refl;
  }

  reserved_plan-IsSafePlan :
      (policy : RetryPolicy) (id : ℕ) (r : RetryReservation) (policy_delay budget_delay : Float)
      → policy.retry_budget ≡ some id
      → IsSafeDelay policy_delay
      → Always (IsSafePlan policy) (reserved_plan id r policy_delay budget_delay)
  unfolding reserved_plan
  reserved_plan-IsSafePlan policy id r policy_delay budget_delay e h =
      Always->>= (IsChecked budget_delay) _ _ (lift-IsChecked budget_delay) λ b part.
        Always->>= (IsChecked (policy_delay +F budget_delay)) _ _ (lift-IsChecked _) λ t whole.
          Always-pure _ (record {
            policy_part = h;
            total = whole.1;
            parts = (part.1, whole.0 ∙ ap (λ x. policy_delay +F x) (sym part.0));
            reserved = rw e refl;
          })

  plan_reserved-IsSafePlan :
      (policy : RetryPolicy) (id : ℕ) (r : RetryReservation) (policy_delay not_before : Float)
      → policy.retry_budget ≡ some id
      → IsSafeDelay policy_delay
      → Always (OnPlan (IsSafePlan policy)) (plan_reserved id r policy_delay not_before)
  unfolding plan_reserved
  plan_reserved-IsSafePlan policy id r policy_delay not_before e h =
      Always-branch _ _ _ (λ _. Always-next _ _ λ _. Always-pure _ tt)
        (λ _.
          Always->>= (IsSafePlan policy) _ _
            (Always-on_error _ _ (reserved_plan-IsSafePlan policy id r policy_delay _ e h))
            λ plan safe. Always-pure _ safe)

  plan_with_budget-IsSafePlan :
      (policy : RetryPolicy) (budget : Option ℕ) (key : Option String) (policy_delay : Float)
      → policy.retry_budget ≡ budget
      → IsSafeDelay policy_delay
      → Always (OnPlan (IsSafePlan policy)) (plan_with_budget budget key policy_delay)
  unfolding plan_with_budget
  plan_with_budget-IsSafePlan policy none key policy_delay e h =
      Always-pure _
        (record { policy_part = h; total = h; parts = (refl, refl); reserved = rw e refl })
  plan_with_budget-IsSafePlan policy (some id) none policy_delay e h = Always-throw _
  plan_with_budget-IsSafePlan policy (some id) (some key) policy_delay e h =
      Always-next _ _
        λ t. Always-next _ _ λ r. plan_reserved-IsSafePlan policy id r policy_delay _ e h

  -- Whatever the delay strategy and the state, a planned wait holds a reservation if and only if
  -- the policy has a budget; its policy delay and its total are finite, not negative and at most
  -- MAX_SLEEP_SECONDS. With a reservation its budget delay is, too, and the total is the sum of
  -- the two; without one the budget delay is zero and the total is the policy delay.
  pub plan_retry_wait-IsSafePlan :
      (policy : RetryPolicy) (n : ℕ) (state : Option RetryState)
      → Always (OnPlan (IsSafePlan policy)) (plan_retry_wait policy n state)
  unfolding plan_retry_wait
  plan_retry_wait-IsSafePlan policy n state =
      Always->>= IsSafeDelay _ _ (checked-IsSafeDelay _)
        λ d safe. plan_with_budget-IsSafePlan policy _ policy.retry_budget_key d refl safe
