-- ===== src/Executor/Terminates.antt =====
-- The rounds of the loop of src/relinker/executors/sync.py under a limit on the attempts.
use Prim.Native.String.{String}
use relinker.Prelude.{
  ℕ, zero, suc, ◌+◌, ◌≤◌, ◌<◌, ◌≡◌, refl, true, Option, none, some, Bool-cases, inl, inr, arith,
}
use relinker.Python.{Python, Value, Outcome, return, raise, is_exception}
use relinker.Effects.{World, Action}
use relinker.Effects.Hoare.{Returns, Always, Always-pure, Always->>=, Always-next}
use relinker.Stop.Bounded.{HasLimit, StopsBy, HasLimit-StopsBy}
use relinker.Policy.{RetryPolicy}
use relinker.Exhaustion.{Final}
use relinker.Flow.{Decision, wait, final, RetryFlow, new_flow}
use relinker.Flow.Limits.{
  Continues, new_flow-attempt, enter_attempt-attempt, after_exception-below, after_value-below,
}
use relinker.Executor.{after_call, run_attempt, act_on, round, loop, execute_sync}

module _ ⦃py : Python⦄ where
  module _ (policy : RetryPolicy) (n : ℕ) (limit : StopsBy n policy.stop_strategy) where
    after_call-below :
        (flow : RetryFlow) (r : Outcome Value) (w : World)
        → Returns (Continues n flow.runtime.attempt_number) (after_call policy flow (r, w))
    unfolding after_call
    after_call-below flow (return v) w = (after_value-below policy n limit flow v true).apply w
    after_call-below flow (raise e) w = elim (Bool-cases (is_exception e)) [
      | inl caught ↦ rw caught ((after_exception-below policy n limit flow e).apply w)
      | inr escapes ↦ rw escapes tt
    ]

    run_attempt-below :
        (function : Action Value) (flow : RetryFlow)
        → Always (Continues n (flow.runtime.attempt_number + 1)) (run_attempt policy function flow)
    unfolding run_attempt
    run_attempt-below function flow =
        Always->>= (λ f. f.runtime.attempt_number ≡ flow.runtime.attempt_number + 1) _ _
          (enter_attempt-attempt policy flow)
          λ entered e. record {
            apply = λ w. rw (← e) (after_call-below entered (function w).0 (function w).1);
          }

    -- A round that goes on is below the limit.
    abbrev GoesOnBelow : ℕ → RetryFlow × Option Final → Type 0
    GoesOnBelow k (flow, none) = (flow.runtime.attempt_number ≡ k) × (k < n)
    GoesOnBelow k (flow, some answer) = Unit

    act_on-below :
        (k : ℕ) (flow : RetryFlow) (d : Decision)
        → Continues n k (flow, d)
        → Always (GoesOnBelow k) (act_on policy (flow, d))
    unfolding act_on
    act_on-below k flow (wait plan) h = Always-next _ _ λ _. Always-pure _ (h.0, h.1 tt)
    act_on-below k flow (final kind r) h = Always-next _ _ λ answer. Always-pure _ tt

    round-below :
        (function : Action Value) (flow : RetryFlow)
        → Always (GoesOnBelow (flow.runtime.attempt_number + 1)) (round policy function flow)
    unfolding round
    round-below function flow =
        Always->>= (Continues n (flow.runtime.attempt_number + 1)) _ _
          (run_attempt-below function flow) λ p h. act_on-below _ p.0 p.1 h

    abbrev Answer : Option (Outcome Final × World) → Type 0
    Answer o = (answer : Outcome Final × World) × (o ≡ some answer)

    -- What the loop does with a round, by how the round ended.
    round_ends :
        (fuel : ℕ) (function : Action Value) (flow : RetryFlow)
        → ((flow' : RetryFlow) (w' : World)
            → flow'.runtime.attempt_number < n
            → n ≤ flow'.runtime.attempt_number + fuel
            → Answer (loop fuel policy function flow' w'))
        → (r : Outcome (RetryFlow × Option Final)) (w' : World)
        → Returns (GoesOnBelow (flow.runtime.attempt_number + 1)) (r, w')
        → flow.runtime.attempt_number < n
        → n ≤ flow.runtime.attempt_number + suc fuel
        → Answer (elim r [
          | return (flow', none) ↦ loop fuel policy function flow' w'
          | return (flow', some answer) ↦ some (return answer, w')
          | raise e ↦ some (raise e, w')
        ])
    round_ends fuel function flow ih (return (flow', none)) w' h below enough =
        ih flow' w' (omega arith) (omega arith)
    round_ends fuel function flow ih (return (flow', some answer)) w' h below enough =
        ((return answer, w'), refl)
    round_ends fuel function flow ih (raise e) w' h below enough = ((raise e, w'), refl)

    loop-ends :
        (fuel : ℕ) (function : Action Value) (flow : RetryFlow) (w : World)
        → flow.runtime.attempt_number < n
        → n ≤ flow.runtime.attempt_number + fuel
        → (answer : Outcome Final × World) × (loop fuel policy function flow w ≡ some answer)
    unfolding loop
    loop-ends zero function flow w below enough = absurd (omega arith)
    loop-ends (suc fuel) function flow w below enough =
        round_ends fuel function flow (loop-ends fuel function) (round policy function flow w).0
          (round policy function flow w).1 ((round-below function flow).apply w) below enough

    start_ends :
        (name : String) (function : Action Value) (r : Outcome RetryFlow) (w' : World)
        → Returns (λ f. f.runtime.attempt_number ≡ 0) (r, w')
        → 0 < n
        → Answer
            (elim r [ return flow ↦ loop n policy function flow w' | raise e ↦ some (raise e, w') ])
    start_ends name function (return flow) w' h pos =
        loop-ends n function flow w' (omega arith) (omega arith)
    start_ends name function (raise e) w' h pos = ((raise e, w'), refl)

  -- An execution under a policy whose stop strategy limits the attempts to a positive `n` ends
  -- within `n` rounds of the loop: it returns, or an exception propagates.
  pub execute_sync-ends :
      (policy : RetryPolicy) (n : ℕ) (name : String) (function : Action Value) (w : World)
      → 0 < n
      → HasLimit n policy.stop_strategy
      → (answer : Outcome Final × World) × (execute_sync n policy name function w ≡ some answer)
  unfolding execute_sync
  execute_sync-ends policy n name function w pos h =
      start_ends policy n (HasLimit-StopsBy n policy.stop_strategy h) name function
        (new_flow policy name w).0 (new_flow policy name w).1
        ((new_flow-attempt policy name).apply w) pos
