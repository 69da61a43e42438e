-- ===== src/Tests/Executions.antt =====
-- The theorems on executions, at a policy of three attempts and a function that always fails.
use relinker.Prelude.{◌≡◌, refl, inl, inr, true, none, some, [], ◌∷◌, arith}
use relinker.Python.{ticks_python, Outcome}
use relinker.Effects.{World}
use relinker.Effects.Hoare.{Always}
use relinker.Stop.Bounded.{HasLimit, SomeHasLimit}
use relinker.Exhaustion.{Final}
use relinker.Runtime.{begin_attempt, record_failure}
use relinker.Runtime.History.{IsConsistent, record_failure-IsConsistent}
use relinker.Wait.{plan_retry_wait}
use relinker.Wait.Plans.{OnPlan, IsSafePlan, plan_retry_wait-IsSafePlan}
use relinker.Flow.{after_exception, after_value}
use relinker.Flow.Decisions.{
  CountsFailure, CountsSuccess, AfterException, AfterValue, after_exception_lem, after_value_lem,
}
use relinker.Executor.{execute_sync}
use relinker.Executor.Terminates.{execute_sync-ends}
use relinker.Context.{run_blocks}
use relinker.Context.Rounds.{setting, answer_of_blocks}
use relinker.Context.Parity.{run_blocks-execute_sync}
use relinker.Decorator.{new_stats, sync_wrapper}
use relinker.Decorator.Parity.{answer_of, sync_wrapper-execute_sync}
use relinker.Decorator.Stats.{stats_after, Counted, stats_after-Counted}
use relinker.Delay.{Delays, resolve_additive_tree, additive_delay, fixed_delay, nil, cons}
use relinker.Delay.Tree.{tree_sum, resolve_additive_tree-tree_sum}
use relinker.Tests.Samples.{
  three_attempts, start, failure, signal, failing, fresh, first_attempt, exhausted_result,
}

limited : HasLimit 3 three_attempts.stop_strategy
unfolding HasLimit SomeHasLimit
limited = inr (inl (omega arith))

execute_sync-ends_example :
    (answer : Outcome Final × World) × (execute_sync 3 three_attempts "fetch" failing start
      ≡ some answer)
execute_sync-ends_example =
    execute_sync-ends three_attempts 3 "fetch" failing start (omega arith) limited

after_exception_lem_example :
    Always
      (λ p. CountsFailure first_attempt p.0 × AfterException three_attempts p.0.runtime signal p.1)
      (after_exception three_attempts first_attempt signal)
after_exception_lem_example = after_exception_lem three_attempts first_attempt signal

after_value_lem_example :
    Always
      (λ p. CountsSuccess first_attempt p.0 × AfterValue three_attempts p.0.runtime 4 true p.1)
      (after_value three_attempts first_attempt 4 true)
after_value_lem_example = after_value_lem three_attempts first_attempt 4 true

plan_retry_wait-IsSafePlan_example :
    Always (OnPlan (IsSafePlan three_attempts)) (plan_retry_wait three_attempts 1 none)
plan_retry_wait-IsSafePlan_example = plan_retry_wait-IsSafePlan three_attempts 1 none

fresh-IsConsistent : IsConsistent fresh
fresh-IsConsistent = record { counted = refl; retained = refl; numbered = tt }

record_failure-IsConsistent_example :
    IsConsistent (record_failure (begin_attempt fresh) 6 7 failure)
record_failure-IsConsistent_example =
    record_failure-IsConsistent fresh 6 7 failure fresh-IsConsistent

sync_wrapper-execute_sync_example :
    answer_of (sync_wrapper 3 three_attempts new_stats "fetch" failing start)
    ≡ execute_sync 3 three_attempts "fetch" failing start
sync_wrapper-execute_sync_example =
    sync_wrapper-execute_sync 3 three_attempts new_stats "fetch" failing start

stats_after-Counted_example :
    Counted
      (stats_after (exhausted_result ∷ exhausted_result ∷ []))
      (exhausted_result ∷ exhausted_result ∷ [])
stats_after-Counted_example = stats_after-Counted (exhausted_result ∷ exhausted_result ∷ [])

run_blocks-execute_sync_example :
    answer_of_blocks (run_blocks 3 three_attempts "fetch" (setting failing) start)
    ≡ execute_sync 3 three_attempts "fetch" failing start
run_blocks-execute_sync_example =
    run_blocks-execute_sync 3 three_attempts "fetch" failing start refl

-- A tree with a tree in it.
abbrev nested : Delays
nested =
    cons (fixed_delay 2)
      (cons (additive_delay (cons (fixed_delay 3) (cons (fixed_delay 4) nil))) nil)

resolve_additive_tree-tree_sum_example :
    resolve_additive_tree nested 1 none start ≡ tree_sum 1 none nested [] start
resolve_additive_tree-tree_sum_example = resolve_additive_tree-tree_sum 1 none nested start
