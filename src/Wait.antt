-- ===== src/Wait.antt =====
-- src/relinker/internal/retry_wait.py: the wait before another attempt, from the policy's delay
-- and a reservation in its retry budget.
pub mod Plans
pub mod Released
mod Tests
use Prim.Native.String.{String}
use relinker.Prelude.{ℕ, Bool, true, false, Option, none, some, if◌then◌else◌}
use relinker.Python.{
  Python, Float, ◌<F◌, ◌+F◌, ◌-F◌, zero_float, float_max, Outcome, return, raise, new_error,
  runtime_error,
}
use relinker.Effects.{
  World, Action, pure, throw, lift, branch, on_error, now, get_budget, set_budget, ◌>>=◌, ◌>>◌,
}
use relinker.Budget.{RetryReservation, RetryBudget, reserve, release}
use relinker.Records.{RetryState}
use relinker.Validation.{Object, real, max_sleep_seconds, ensure_resolved_delay}
use relinker.Delay.{resolve_delay, checked}
use relinker.Policy.{RetryPolicy}

module _ ⦃py : Python⦄ where
  -- A reservation comes with the identity of the budget that it is held in.
  pub record RetryWaitPlan : Type 0 where
    pub policy_delay : Float
    pub budget_delay : Float
    pub total_delay : Float
    pub reservation : Option (ℕ × RetryReservation)

  -- `budget._reserve(...)`, on the object with the identity.
  pub reserve_in : ℕ → String → (current_time not_before : Float) → Action RetryReservation
  reserve_in id key current_time not_before = do
    budget ← get_budget id
    (r, after) ← lift (reserve budget key current_time not_before)
    set_budget id after
    pure r

  -- `budget._release(reservation)`, which reads the clock.
  pub release_in : ℕ → RetryReservation → Action (Unit {0})
  release_in id r = do t ← now; budget ← get_budget id; set_budget id (release budget r t)

  -- `release_retry_wait`
  pub release_reserved : Option (ℕ × RetryReservation) → Action (Unit {0})
  release_reserved none = pure tt
  release_reserved (some (id, r)) = release_in id r

  pub release_retry_wait : RetryWaitPlan → Action (Unit {0})
  unfolding release_reserved
  release_retry_wait plan = release_reserved plan.reservation

  -- The values that the `try` block of `plan_retry_wait` validates.
  pub reserved_plan :
      ℕ → RetryReservation → (policy_delay budget_delay : Float) → Action RetryWaitPlan
  reserved_plan id r policy_delay budget_delay = do
    b ← lift (ensure_resolved_delay (real budget_delay))
    t ← lift (ensure_resolved_delay (real (policy_delay +F budget_delay)))
    pure (record {
      policy_delay = policy_delay;
      budget_delay = b;
      total_delay = t;
      reservation = some (id, r);
    })

  -- The `try` block and its handler, once the slot is reserved.
  pub plan_reserved :
      ℕ → RetryReservation → (policy_delay not_before : Float) → Action (Option RetryWaitPlan)
  plan_reserved id r policy_delay not_before =
      let budget_delay = float_max zero_float (r.scheduled_at -F not_before) in
      branch (max_sleep_seconds <F (policy_delay +F budget_delay)) (release_in id r >> pure none) (
        on_error (reserved_plan id r policy_delay budget_delay) (release_in id r) >>= λ plan.
        pure (some plan))

  -- The part of `plan_retry_wait` behind `policy_delay`.
  pub plan_with_budget :
      Option ℕ → Option String → (policy_delay : Float) → Action (Option RetryWaitPlan)
  plan_with_budget none key policy_delay = pure (
      some (record {
        policy_delay = policy_delay;
        budget_delay = zero_float;
        total_delay = policy_delay;
        reservation = none;
      }))
  plan_with_budget (some id) none policy_delay = throw (new_error runtime_error)
  plan_with_budget (some id) (some key) policy_delay = do
    current_time ← now
    let not_before = current_time +F policy_delay
    r ← reserve_in id key current_time not_before
    plan_reserved id r policy_delay not_before

  -- `plan_retry_wait`; `none` where the budget has no slot within MAX_SLEEP_SECONDS.
  unfoldable pub plan_retry_wait :
      RetryPolicy → ℕ → Option RetryState → Action (Option RetryWaitPlan)
  plan_retry_wait policy n state = do
    policy_delay ← checked (resolve_delay policy.delay_strategy n state)
    plan_with_budget policy.retry_budget policy.retry_budget_key policy_delay
