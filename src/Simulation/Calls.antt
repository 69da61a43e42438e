-- ===== src/Simulation/Calls.antt =====
-- The calls that `estimate_policy_load` of src/relinker/internal/policy_simulation.py promises,
-- against the executions of src/relinker/executors/sync.py.
use Prim.Native.String.{String}
use relinker.Prelude.{
  ℕ, suc, ◌+◌, ◌*◌, ◌-◌, ◌≡◌, refl, Bool, not, ◌||◌, Option, none, some, Option-cases, inl, inr,
  arith,
}
use relinker.Python.{Python, Value, Outcome, return}
use relinker.Effects.{World, Action, lift, get_budget, pure, ◌>>=◌}
use relinker.Records.{is_some}
use relinker.Validation.{nonnegative}
use relinker.Validation.Accepts.{ensure_positive_int_of}
use relinker.Budget.{RetryBudget}
use relinker.Policy.{RetryPolicy}
use relinker.Exhaustion.{Final}
use relinker.Executor.{execute_sync}
use relinker.Executor.Terminates.{execute_sync-ends}
use relinker.Simulation.Load.{
  estimate_attempts, RetryLoadEstimate, load_estimate, configured_budget, estimate_policy_load,
}
use relinker.Diagnostics.Stops.{known_attempt_limit, stop_is_infinite}
use relinker.Diagnostics.Stops.Limits.{estimate_attempts-known_attempt_limit}
use relinker.Diagnostics.Stops.Configured.{Within, known_attempt_limit-HasLimit}

module _ ⦃py : Python⦄ where
  -- Every execution under the policy ends within so many attempts, each of which is one call.
  pub record EndsWithin (n : ℕ) (p : RetryPolicy) : Type 0 where
    pub ends :
        (name : String) (function : Action Value) (w : World)
        → (answer : Outcome Final × World) × (execute_sync n p name function w ≡ some answer)

  -- `total` calls are enough for so many executions.
  pub record AreEnoughCalls (concurrent total : ℕ) (p : RetryPolicy) : Type 0 where
    pub attempts : ℕ
    pub shared : total ≡ concurrent * attempts
    pub each : EndsWithin attempts p

  abbrev pub Promises : ℕ → RetryPolicy → Option ℕ → Type 0
  Promises concurrent p none = Unit
  Promises concurrent p (some total) = AreEnoughCalls concurrent total p

  times_one_more : (c m : ℕ) → c + c * (m - 1) ≡ c * suc (m - 1)
  times_one_more c m = ground arith

  module _ (c : ℕ) (p : RetryPolicy) (budget : Option RetryBudget) where
    ends_within :
        (m : ℕ)
        → Within (suc (m - 1)) (known_attempt_limit p.stop_strategy)
        → EndsWithin (suc (m - 1)) p
    ends_within m h = record {
      ends = λ name function w.
          execute_sync-ends p (suc (m - 1)) name function w (omega arith)
            ((known_attempt_limit-HasLimit (suc (m - 1)) p.stop_strategy).1 h);
    }

    promised :
        (l : Option ℕ) (i b : Bool)
        → known_attempt_limit p.stop_strategy ≡ l
        → Promises c p (load_estimate c (l, i, b) budget).maximum_total_calls
    promised none i b e = tt
    promised (some m) i b e = record {
      attempts = suc (m - 1);
      shared = times_one_more c m;
      each = ends_within m (rw e (omega arith));
    }

    promises :
        Promises c p
          (load_estimate c (estimate_attempts p.stop_strategy) budget).maximum_total_calls
    promises = rw (estimate_attempts-known_attempt_limit p.stop_strategy) (
        promised (known_attempt_limit p.stop_strategy) (stop_is_infinite p.stop_strategy)
          (not (is_some (known_attempt_limit p.stop_strategy) || stop_is_infinite p.stop_strategy))
          refl)

  -- The load estimate of a positive number of executions succeeds and leaves the world as it is;
  -- where it gives a number of total calls, that is the number of executions times a number of
  -- attempts within which every execution under the policy ends.
  pub estimate_policy_load-EndsWithin :
      (p : RetryPolicy) (k : ℕ) (w : World)
      → (load : RetryLoadEstimate) × (estimate_policy_load p (nonnegative (suc k)) w
          ≡ (return load, w))
        × Promises (suc k) p load.maximum_total_calls
  unfolding estimate_policy_load ◌>>=◌ lift pure configured_budget get_budget
  estimate_policy_load-EndsWithin p k w = elim (Option-cases p.retry_budget) [
    | inl e ↦ (
      load_estimate (suc k) (estimate_attempts p.stop_strategy) none,
      rw (ensure_positive_int_of k, e) refl,
      promises (suc k) p none,
    )
    | inr (id, e) ↦ (
      load_estimate (suc k) (estimate_attempts p.stop_strategy) (some (w.budgets id)),
      rw (ensure_positive_int_of k, e) refl,
      promises (suc k) p (some (w.budgets id)),
    )
  ]
