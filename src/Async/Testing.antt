-- ===== src/Async/Testing.antt =====
-- `for_testing` of src/relinker/policy.py: the policy's own sleepers play no part.
use Prim.Native.String.{String}
use relinker.Prelude.{ℕ, Bool, true, false, ◌≡◌, refl}
use relinker.Python.{Python, Value, return}
use relinker.Effects.{World, Action, Candidate, ensure_awaitable, pure, ◌>>=◌}
use relinker.Policy.{RetryPolicy}
use relinker.Policy.Accepted.{IsAccepted, post_init_of}
use relinker.Builders.Hooks.{AsyncSleeper, no_sleep, no_sleep_async, with_sleep, for_testing}
use relinker.Executor.{execute_sync}
use relinker.Async.{await, execute_async}
use relinker.Async.Parity.{SleepsAlike, IsAsync, execute_async-execute_sync}

module _ ⦃py : Python⦄ where
  abbrev pub tested : RetryPolicy → RetryPolicy
  tested p = record p { sleep = no_sleep; async_sleep = no_sleep_async; testing_mode = true }

  tested-SleepsAlike : (p : RetryPolicy) → SleepsAlike (tested p)
  unfolding ensure_awaitable pure ◌>>=◌
  tested-SleepsAlike p = record { alike = λ d w. refl }

  abbrev sleepless : RetryPolicy → Bool → RetryPolicy
  sleepless p mode = record p {
    sleep = no_sleep;
    async_sleep = no_sleep_async;
    testing_mode = mode;
  }

  sleepless-IsAccepted :
      (p : RetryPolicy) (mode : Bool) → IsAccepted p → IsAccepted (sleepless p mode)
  sleepless-IsAccepted p mode h = record {
    named = h.named;
    limited = h.limited;
    budgeted = h.budgeted;
    exclusive = h.exclusive;
  }

  -- For a policy that validation accepts, `for_testing` gives its copy for tests, and on a
  -- function that returns nothing but awaitables the asynchronous executor does with that copy what
  -- the synchronous one does.
  pub for_testing-execute_sync :
      (p : RetryPolicy) (default_async_sleep : AsyncSleeper) (fuel : ℕ) (name : String)
      (function : Action (Candidate Value)) (w : World)
      → IsAccepted p
      → IsAsync function
      → (for_testing p default_async_sleep ≡ return (tested p))
        × (execute_async fuel (tested p) name function w
            ≡ execute_sync fuel (tested p) name (function >>= await) w)
  unfolding for_testing with_sleep
  for_testing-execute_sync p s fuel name function w h only = (
    rw
        (
          post_init_of (sleepless p false) (sleepless-IsAccepted p false h),
          post_init_of (sleepless p true) (sleepless-IsAccepted p true h),
        )
        refl,
    execute_async-execute_sync (tested p) fuel name function w (tested-SleepsAlike p) only,
  )
