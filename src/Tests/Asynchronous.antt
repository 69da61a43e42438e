-- ===== src/Tests/Asynchronous.antt =====
-- The theorems on asynchronous executions, at a policy of three attempts.
use relinker.Prelude.{◌≡◌, refl, some}
use relinker.Python.{ticks_python, Value, return}
use relinker.Effects.{Action, Candidate, awaitable, ensure_awaitable, pure, ◌>>=◌}
use relinker.Executor.{execute_sync}
use relinker.Context.{run_blocks}
use relinker.Context.Rounds.{setting}
use relinker.Async.{await, execute_async, async_run_blocks}
use relinker.Async.Parity.{SleepsAlike, IsAsync, execute_async-execute_sync}
use relinker.Async.Contract.{Returns, called_once, unawaited, execute_async-called_once}
use relinker.Async.Wrapped.{async_run_blocks-run_blocks}
use relinker.Policy.Accepted.{IsAccepted}
use relinker.Tests.Samples.{three_attempts, start, failing}

alike : SleepsAlike three_attempts
unfolding ensure_awaitable pure ◌>>=◌
alike = record { alike = λ d w. refl }

abbrev coroutine : Action (Candidate Value)
coroutine w = (return (awaitable failing), w)

coroutine-IsAsync : IsAsync coroutine
coroutine-IsAsync = record { awaits = λ w h. h }

execute_async-execute_sync_example :
    execute_async 3 three_attempts "fetch" coroutine start
    ≡ execute_sync 3 three_attempts "fetch" (coroutine >>= await) start
execute_async-execute_sync_example =
    execute_async-execute_sync three_attempts 3 "fetch" coroutine start alike coroutine-IsAsync

async_run_blocks-run_blocks_example :
    async_run_blocks 3 three_attempts "fetch" (setting failing) start
    ≡ run_blocks 3 three_attempts "fetch" (setting failing) start
async_run_blocks-run_blocks_example =
    async_run_blocks-run_blocks three_attempts 3 "fetch" (setting failing) start alike

abbrev seven : Action Value
seven w = (return 7, w)

seven-Returns : Returns seven
seven-Returns = record { returned = λ w. (7, w, refl) }

execute_async-called_once_example :
    execute_async 3 three_attempts "fetch" (unawaited seven) start
    ≡ some (called_once three_attempts "fetch" seven start)
execute_async-called_once_example =
    execute_async-called_once three_attempts 2 "fetch" seven start seven-Returns

accepted : IsAccepted three_attempts
accepted = record { named = refl; limited = refl; budgeted = refl; exclusive = refl }
