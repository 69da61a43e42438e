-- ===== src/Builders/Hooks.antt =====
-- The builders of src/relinker/policy.py for sleepers and for events.
use relinker.Prelude.{true, false, Option, none, some, List, [], ◌∷◌, if◌then◌else◌}
use relinker.Python.{Python, Float, Outcome, return}
use relinker.Python.Outcomes.{◌>>=◌}
use relinker.Effects.{Action, Candidate, awaitable, pure}
use relinker.Records.{
  RetryEvent, EventName, before_attempt, after_success, after_failure, before_sleep, after_giveup,
  propagate, isolate,
}
use relinker.Policy.{RetryPolicy, post_init}
use relinker.Builders.{on_event}

module _ ⦃py : Python⦄ where
  abbrev pub Sleeper : Type 0
  Sleeper = Float → Action (Unit {0})

  abbrev pub AsyncSleeper : Type 0
  AsyncSleeper = Float → Action (Candidate (Unit {0}))

  -- `_no_sleep` and `_no_sleep_async`
  abbrev pub no_sleep : Sleeper
  no_sleep _ = pure tt

  abbrev pub no_sleep_async : AsyncSleeper
  no_sleep_async _ = pure (awaitable (pure tt))

  -- The asynchronous sleeper that `with_sleep` resolves to.
  abbrev resolved_async_sleep : RetryPolicy → AsyncSleeper → Option AsyncSleeper → AsyncSleeper
  resolved_async_sleep p default_async_sleep none =
      if p.testing_mode then default_async_sleep else p.async_sleep
  resolved_async_sleep p default_async_sleep (some async_sleep) = async_sleep

  -- `with_sleep`, for sleepers of the right kind; the default one is asyncio's.
  unfoldable pub with_sleep :
      RetryPolicy
      → (default_async_sleep : AsyncSleeper) → Sleeper
      → Option AsyncSleeper
      → Outcome RetryPolicy
  with_sleep p default_async_sleep sleep async_sleep = post_init (record p {
    sleep = sleep;
    async_sleep = resolved_async_sleep p default_async_sleep async_sleep;
    testing_mode = false;
  })

  unfoldable pub for_testing :
      RetryPolicy → (default_async_sleep : AsyncSleeper) → Outcome RetryPolicy
  for_testing p default_async_sleep =
      with_sleep p default_async_sleep no_sleep (some no_sleep_async) >>= λ q.
      post_init (record q { testing_mode = true })

  abbrev pub Handler : Type 0
  Handler = RetryEvent → Action (Unit {0})

  pub on_before_attempt : RetryPolicy → Handler → Outcome RetryPolicy
  on_before_attempt p handler = on_event p before_attempt handler propagate

  pub on_success : RetryPolicy → Handler → Outcome RetryPolicy
  on_success p handler = on_event p after_success handler propagate

  pub on_failure : RetryPolicy → Handler → Outcome RetryPolicy
  on_failure p handler = on_event p after_failure handler propagate

  pub on_retry : RetryPolicy → Handler → Outcome RetryPolicy
  on_retry p handler = on_event p before_sleep handler propagate

  pub on_giveup : RetryPolicy → Handler → Outcome RetryPolicy
  on_giveup p handler = on_event p after_giveup handler propagate

  -- `for event_name in (…): policy = policy.on_event(event_name, handler, failure_mode="isolate")`
  pub isolated_on : RetryPolicy → List EventName → Handler → Outcome RetryPolicy
  isolated_on p [] handler = return p
  isolated_on p (name ∷ names) handler =
      on_event p name handler isolate >>= λ q. isolated_on q names handler

  -- `debug`, with the handler that prints.
  pub debug : RetryPolicy → Handler → Outcome RetryPolicy
  unfolding isolated_on
  debug p print_event =
      isolated_on p
        (before_attempt ∷ after_failure ∷ before_sleep ∷ after_success ∷ after_giveup ∷ [])
        print_event

  -- `with_logging` and `with_structured_logging`, with the handler that each makes.
  pub with_logging : RetryPolicy → Handler → Outcome RetryPolicy
  unfolding isolated_on
  with_logging p handler = isolated_on p (before_sleep ∷ after_giveup ∷ []) handler
