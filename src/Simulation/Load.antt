-- ===== src/Simulation/Load.antt =====
-- `_estimate_attempts` and `estimate_policy_load` of src/relinker/internal/policy_simulation.py:
-- how many calls concurrent executions of a policy may make.
use relinker.Prelude.{
  ℕ, ◌+◌, ◌-◌, ◌*◌, Bool, true, false, Option, none, some, List, [], ◌∷◌, any, all, map, ltb,
  if◌then◌else◌,
}
use relinker.Python.{Python, Float}
use relinker.Budget.{RetryBudget}
use relinker.Effects.{Action, pure, lift, get_budget, ◌>>=◌}
use relinker.Records.{is_some}
use relinker.Validation.{IntegerArgument, ensure_positive_int}
use relinker.Stop.{
  StopStrategy, stop_after_attempt, stop_after_delay, stop_forever, any_stop_strategy,
  all_stop_strategy, user_stop, StopStrategies, nil, cons,
}
use relinker.Policy.{RetryPolicy}

-- `(maximum, unbounded, partial)`
abbrev pub Estimate : Type 0
Estimate = Option ℕ × Bool × Bool

-- `[maximum for maximum, unbounded, _partial in estimates if maximum is not None and not unbounded]`
abbrev pub bounded : List Estimate → List ℕ
bounded [] = []
bounded ((some n, false, partial) ∷ es) = n ∷ bounded es
bounded ((some n, true, partial) ∷ es) = bounded es
bounded ((none, unbounded, partial) ∷ es) = bounded es

abbrev pub is_unbounded : Estimate → Bool
is_unbounded (maximum, unbounded, partial) = unbounded

abbrev pub has_maximum : Estimate → Bool
has_maximum (maximum, unbounded, partial) = is_some maximum

-- The maxima that are not None.
abbrev pub known : List (Option ℕ) → List ℕ
known [] = []
known (none ∷ os) = known os
known (some n ∷ os) = n ∷ known os

-- `min` and `max` of integers that are not none at all; `max` is asked of the parts of a composite
-- only, whose constructor rejects an empty tuple.
abbrev pub min_of : ℕ → List ℕ → ℕ
min_of n [] = n
min_of n (m ∷ ms) = let least = min_of m ms in if ltb least n then least else n

abbrev pub max_of : List ℕ → ℕ
max_of [] = 0
max_of (m ∷ ms) = let greatest = max_of ms in if ltb m greatest then greatest else m

-- `min(bounded)`, and what is left where there is no bound.
abbrev pub least_bound : (bounds : List ℕ) (all_unbounded : Bool) → Estimate
least_bound (n ∷ ns) all_unbounded = (some (min_of n ns), false, false)
least_bound [] true = (none, true, false)
least_bound [] false = (none, false, true)

abbrev pub estimate_any : List Estimate → Estimate
estimate_any es = least_bound (bounded es) (all is_unbounded es)

abbrev pub estimate_all : List Estimate → Estimate
estimate_all es =
    if any is_unbounded es
    then (none, true, false)
    else if all has_maximum es
    then (some (max_of (known (map (λ e. e.0) es))), false, false)
    else (none, false, true)

module _ ⦃py : Python⦄ where
  unfoldable mutual
    pub estimate_attempts : StopStrategy → Estimate
    estimate_attempts (stop_after_attempt maximum) = (some maximum, false, false)
    estimate_attempts (stop_after_delay seconds) = (none, false, true)
    estimate_attempts stop_forever = (none, true, false)
    estimate_attempts (any_stop_strategy ss) = estimate_any (estimates ss)
    estimate_attempts (all_stop_strategy ss) = estimate_all (estimates ss)
    estimate_attempts (user_stop f) = (none, false, true)

    pub estimates : StopStrategies → List Estimate
    estimates nil = []
    estimates (cons s ss) = estimate_attempts s ∷ estimates ss

  pub record RetryLoadEstimate : Type 0 where
    pub concurrent_executions : ℕ
    pub maximum_attempts_per_execution : Option ℕ
    pub original_calls : ℕ
    pub maximum_additional_retries : Option ℕ
    pub maximum_total_calls : Option ℕ
    pub unbounded : Bool
    pub retry_budget_configured : Bool
    pub retry_budget_capacity : Option ℕ
    pub retry_budget_period : Option Float
    pub partial : Bool

  -- `concurrent_executions * max(0, maximum_attempts - 1)`
  abbrev pub additional_retries : ℕ → Option ℕ → Option ℕ
  additional_retries concurrent none = none
  additional_retries concurrent (some maximum) = some (concurrent * (maximum - 1))

  abbrev total_calls : ℕ → Option ℕ → Option ℕ
  total_calls original none = none
  total_calls original (some additional) = some (original + additional)

  -- `budget.… if budget is not None else None`
  abbrev of_budget : {A : Type 0} → (RetryBudget → A) → Option RetryBudget → Option A
  of_budget read none = none
  of_budget read (some budget) = some (read budget)

  abbrev pub load_estimate : ℕ → Estimate → Option RetryBudget → RetryLoadEstimate
  load_estimate concurrent (maximum, unbounded, partial) budget = record {
    concurrent_executions = concurrent;
    maximum_attempts_per_execution = maximum;
    original_calls = concurrent;
    maximum_additional_retries = additional_retries concurrent maximum;
    maximum_total_calls = total_calls concurrent (additional_retries concurrent maximum);
    unbounded = unbounded;
    retry_budget_configured = is_some budget;
    retry_budget_capacity = of_budget (λ b. b.max_retries) budget;
    retry_budget_period = of_budget (λ b. b.per) budget;
    partial = partial;
  }

  -- The budget object of the policy, whose limits the estimate names.
  unfoldable pub configured_budget : RetryPolicy → Action (Option RetryBudget)
  configured_budget p = elim p.retry_budget [
    | none ↦ pure none
    | some id ↦ get_budget id >>= λ b. pure (some b)
  ]

  -- `estimate_policy_load`, whose check of the number of executions is that of a positive integer.
  unfoldable pub estimate_policy_load : RetryPolicy → IntegerArgument → Action RetryLoadEstimate
  unfolding estimate_attempts configured_budget
  estimate_policy_load p concurrent_executions =
      lift (ensure_positive_int concurrent_executions) >>= λ concurrent.
      configured_budget p >>= λ budget.
      pure (load_estimate concurrent (estimate_attempts p.stop_strategy) budget)
