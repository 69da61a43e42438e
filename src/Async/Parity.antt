-- ===== src/Async/Parity.antt =====
-- The asynchronous executor, wrapper and blocks against the synchronous ones.
use Prim.Native.String.{String}
use relinker.Prelude.{ℕ, zero, suc, ◌≡◌, refl, ◌∙◌, ap, Option, none, some}
use relinker.Python.{Python, Float, Value, Outcome, return, raise}
use relinker.Effects.{
  World, Action, Candidate, awaitable, plain, ensure_awaitable, pure, handled, on_error, ◌>>=◌,
  ◌>>◌,
}
use relinker.Effects.Laws.{bind_same}
use relinker.Policy.{RetryPolicy}
use relinker.Exhaustion.{Final}
use relinker.Wait.{RetryWaitPlan, release_retry_wait}
use relinker.Flow.{Decision, wait, final, RetryFlow, new_flow, next_attempt, enter_attempt}
use relinker.Executor.{
  sleep_before_retry, after_call, run_attempt, act_on, round, loop, execute_sync,
}
use relinker.Async.{
  await, async_sleep_before_retry, after_await, after_candidate, async_attempt, async_act_on,
  async_round, async_loop, execute_async,
}

module _ ⦃py : Python⦄ where
  -- Awaiting the asynchronous sleeper does what the synchronous sleeper does.
  pub record SleepsAlike (p : RetryPolicy) : Type 0 where
    pub alike : (d : Float) (w : World) → (p.async_sleep d >>= await) w ≡ p.sleep d w

  -- What was called returned no awaitable.
  abbrev NotAwaitable : {A : Type 0} → Outcome (Candidate A) → Type 0
  NotAwaitable (return (awaitable m)) = ⊥
  NotAwaitable (return (plain v)) = Unit
  NotAwaitable (raise e) = ⊥

  -- A call never returns anything but an awaitable.
  pub record IsAsync (function : Action (Candidate Value)) : Type 0 where
    pub awaits : (w : World) → NotAwaitable (function w).0 → ⊥

  module _ (p : RetryPolicy) (alike : SleepsAlike p) where
    pub sleep_same :
        (plan : RetryWaitPlan) (w : World)
        → async_sleep_before_retry p plan w ≡ sleep_before_retry p plan w
    unfolding async_sleep_before_retry sleep_before_retry on_error
    sleep_same plan w =
        ap (λ r. handled r (release_retry_wait plan)) (alike.alike plan.total_delay w)

    pub then_same :
        {A : Type 0} (a : A) (m n : Action (Unit {0})) (w : World)
        → m w ≡ n w
        → (m >> pure a) w ≡ (n >> pure a) w
    unfolding ◌>>=◌
    then_same a m n w h = ap (λ r. ((λ _. r) >> pure a) w) h

    act_on_same : (d : RetryFlow × Decision) (w : World) → async_act_on p d w ≡ act_on p d w
    unfolding async_act_on act_on
    act_on_same (flow, wait plan) w = then_same (flow, none) _ _ w (sleep_same plan w)
    act_on_same (flow, final kind r) w = refl

    module _ (function : Action (Candidate Value)) (async_only : IsAsync function) where
      after_same :
          (flow : RetryFlow) (r : Outcome (Candidate Value)) (w : World)
          → (NotAwaitable r → ⊥)
          → after_candidate p flow (r, w) ≡ after_call p flow (((λ _. (r, w)) >>= await) w)
      unfolding after_candidate after_call after_await ensure_awaitable ◌>>=◌ pure
      after_same flow (return (awaitable m)) w h = awaited (m w).0 (m w).1
        where
          awaited :
              (r : Outcome Value) (w' : World)
              → after_await p flow (r, w') ≡ after_call p flow (r, w')
          awaited (return v) w' = refl
          awaited (raise e) w' = refl
      after_same flow (return (plain v)) w h = absurd (h tt)
      after_same flow (raise e) w h = refl

      attempt_same :
          (flow : RetryFlow) (w : World)
          → async_attempt p function flow w ≡ run_attempt p (function >>= await) flow w
      unfolding async_attempt run_attempt ◌>>=◌
      attempt_same flow w =
          bind_same _ _ (enter_attempt p (next_attempt flow)) w
            λ entered w'. after_same entered (function w').0 (function w').1 (async_only.awaits w')

      round_same :
          (flow : RetryFlow) (w : World)
          → async_round p function flow w ≡ round p (function >>= await) flow w
      unfolding async_round round ◌>>=◌
      round_same flow w =
          ap (λ r. ((λ _. r) >>= async_act_on p) w) (attempt_same flow w)
          ∙ bind_same (async_act_on p) (act_on p) (run_attempt p (function >>= await) flow) w
              act_on_same

      -- What a loop does with a round, by what it does with the flow that goes on.
      abbrev step :
          (RetryFlow → World → Option (Outcome Final × World))
          → Outcome (RetryFlow × Option Final) × World
          → Option (Outcome Final × World)
      step more o =
          let (r, w) = o in
          elim r [
            | return (flow, none) ↦ more flow w
            | return (flow, some answer) ↦ some (return answer, w)
            | raise e ↦ some (raise e, w)
          ]

      step_same :
          (more others : RetryFlow → World → Option (Outcome Final × World))
          → ((flow : RetryFlow) (w : World) → more flow w ≡ others flow w)
          → (r : Outcome (RetryFlow × Option Final)) (w : World)
          → step more (r, w) ≡ step others (r, w)
      step_same more others h (return (flow, none)) w = h flow w
      step_same more others h (return (flow, some answer)) w = refl
      step_same more others h (raise e) w = refl

      loop_same :
          (fuel : ℕ) (flow : RetryFlow) (w : World)
          → async_loop fuel p function flow w ≡ loop fuel p (function >>= await) flow w
      unfolding async_loop loop
      loop_same zero flow w = refl
      loop_same (suc fuel) flow w =
          ap (step (async_loop fuel p function)) (round_same flow w)
          ∙ step_same (async_loop fuel p function) (loop fuel p (function >>= await))
              (loop_same fuel) (round p (function >>= await) flow w).0
              (round p (function >>= await) flow w).1

      start_same :
          (fuel : ℕ) (r : Outcome RetryFlow) (w : World)
          → elim r [ return flow ↦ async_loop fuel p function flow w | raise e ↦ some (raise e, w) ]
            ≡ elim r [
              | return flow ↦ loop fuel p (function >>= await) flow w
              | raise e ↦ some (raise e, w)
            ]
      start_same fuel (return flow) w = loop_same fuel flow w
      start_same fuel (raise e) w = refl

  -- The asynchronous execution of a function, every call of which returns an awaitable or
  -- raises, comes to what the synchronous execution of the call followed by the await does, if
  -- awaiting the asynchronous sleeper does what the synchronous one does: the same value, result
  -- or exception in the same world, or no end within the fuel.
  pub execute_async-execute_sync :
      (p : RetryPolicy) (fuel : ℕ) (name : String) (function : Action (Candidate Value)) (w : World)
      → SleepsAlike p
      → IsAsync function
      → execute_async fuel p name function w ≡ execute_sync fuel p name (function >>= await) w
  unfolding execute_async execute_sync
  execute_async-execute_sync p fuel name function w alike only =
      start_same p alike function only fuel (new_flow p name w).0 (new_flow p name w).1
