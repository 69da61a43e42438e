-- ===== src/Async/Contract.antt =====
-- A function given to src/relinker/executors/async_.py that is not asynchronous.
use Prim.Native.String.{String}
use relinker.Prelude.{ℕ, suc, ◌≡◌, refl, sym, Option, none, some}
use mathlib.Core.Path.{subst}
use relinker.Python.{Python, Value, Outcome, return, raise, invalid_config_error}
use relinker.Effects.{World, Action, Candidate, plain, ensure_awaitable, pure, throw, ◌>>=◌}
use relinker.Policy.{RetryPolicy}
use relinker.Exhaustion.{Final}
use relinker.Flow.{RetryFlow, new_flow, next_attempt, enter_attempt}
use relinker.Async.{
  after_candidate, async_attempt, async_act_on, async_round, async_loop, execute_async,
}

module _ ⦃py : Python⦄ where
  -- The first attempt begins, the function is called, and the contract error is raised.
  abbrev pub called_once : RetryPolicy → String → Action Value → Action Final
  called_once p name function = new_flow p name >>= λ flow.
      enter_attempt p (next_attempt flow) >>= λ _. function >>= λ _. throw invalid_config_error

  -- A function that always returns, and never an awaitable.
  pub record Returns (function : Action Value) : Type 0 where
    pub returned : (w : World) → (v : Value) × (after : World) × (function w ≡ (return v, after))

  abbrev pub unawaited : Action Value → Action (Candidate Value)
  unawaited function = function >>= λ v. pure (plain v)

  module _ (p : RetryPolicy) (fuel : ℕ) (function : Action Value) (returns : Returns function) where
    -- What the loop answers, by how the first attempt was entered.
    abbrev answer : Outcome (RetryFlow × Option Final) × World → Option (Outcome Final × World)
    answer o =
        let (r, w) = o in
        elim r [
          | return (flow, none) ↦ async_loop fuel p (unawaited function) flow w
          | return (flow, some ended) ↦ some (return ended, w)
          | raise e ↦ some (raise e, w)
        ]

    abbrev Agrees : RetryFlow → Outcome Value × World → Type 0
    Agrees entered o =
        answer (
          ((λ _. after_candidate p entered (((λ _. o) >>= λ v. pure (plain v)) o.1))
              >>= async_act_on p)
            o.1)
        ≡ some (((λ _. o) >>= λ _. throw invalid_config_error) o.1)

    called_lem : (entered : RetryFlow) (v : Value) (w : World) → Agrees entered (return v, w)
    unfolding ◌>>=◌ throw pure after_candidate ensure_awaitable
    called_lem entered v w = refl

    entered_lem :
        (r : Outcome RetryFlow) (w : World)
        → answer (
            (((λ _. (r, w)) >>= λ entered w'. after_candidate p entered (unawaited function w'))
                >>= async_act_on p)
              w)
          ≡ some (((λ _. (r, w)) >>= λ _. function >>= λ _. throw invalid_config_error) w)
    unfolding ◌>>=◌ throw pure after_candidate ensure_awaitable
    entered_lem (return entered) w =
        let (v, after, e) = returns.returned w in
        subst (Agrees entered) (sym e) (called_lem entered v after)
    entered_lem (raise e) w = refl

    started_lem :
        (r : Outcome RetryFlow) (w : World)
        → elim r [
          | return flow ↦ async_loop (suc fuel) p (unawaited function) flow w
          | raise e ↦ some (raise e, w)
        ]
          ≡ some (
              ((λ _. (r, w)) >>= λ flow. enter_attempt p (next_attempt flow) >>= λ _.
              function >>= λ _. throw invalid_config_error)
                w)
    unfolding ◌>>=◌ async_loop async_round async_attempt
    started_lem (return flow) w =
        entered_lem (enter_attempt p (next_attempt flow) w).0
          (enter_attempt p (next_attempt flow) w).1
    started_lem (raise e) w = refl

  -- An asynchronous execution of a function that returns, but never an awaitable, calls it once
  -- and raises InvalidRetryConfigError, whatever the policy retries; only the start of the
  -- execution and of its first attempt come before the call.
  pub execute_async-called_once :
      (p : RetryPolicy) (fuel : ℕ) (name : String) (function : Action Value) (w : World)
      → Returns function
      → execute_async (suc fuel) p name (unawaited function) w
        ≡ some (called_once p name function w)
  unfolding execute_async ◌>>=◌
  execute_async-called_once p fuel name function w returns =
      started_lem p fuel function returns (new_flow p name w).0 (new_flow p name w).1
