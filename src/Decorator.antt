-- ===== src/Decorator.antt =====
-- src/relinker/internal/decorator.py and stats.py: a decorated function runs under a copy of its
-- policy that returns the RetryResult, records it, and then applies the policy's own behaviour.
pub mod Parity
pub mod Stats
use Prim.Native.String.{String}
use relinker.Prelude.{ℕ, ◌+◌, Bool, true, false, Option, none, some, if◌then◌else◌}
use relinker.Python.{Python, Float, Value, ◌+F◌, zero_float, Outcome, return, raise}
use relinker.Effects.{World, Action}
use relinker.Records.{RetryResult, attempt_count, total_time, result_succeeded}
use relinker.Policy.{RetryPolicy}
use relinker.Builders.{return_result}
use relinker.Exhaustion.{Final, value, whole, resolve_tracked_result}
use relinker.Executor.{execute_sync}

module _ ⦃py : Python⦄ where
  pub record RetryStats : Type 0 where
    pub calls : ℕ
    pub successes : ℕ
    pub failures : ℕ
    pub exhausted : ℕ
    pub total_attempts : ℕ
    pub total_time : Float

  -- `RetryStats.__init__`, and `reset`.
  pub new_stats : RetryStats
  new_stats = record {
    calls = 0;
    successes = 0;
    failures = 0;
    exhausted = 0;
    total_attempts = 0;
    total_time = zero_float;
  }

  -- `RetryStats.record`
  pub record_result : RetryStats → RetryResult → RetryStats
  record_result stats r = record {
    calls = stats.calls + 1;
    successes = if result_succeeded r then stats.successes + 1 else stats.successes;
    failures = if result_succeeded r then stats.failures else stats.failures + 1;
    exhausted = if r.exhausted then stats.exhausted + 1 else stats.exhausted;
    total_attempts = stats.total_attempts + attempt_count r;
    total_time = stats.total_time +F total_time r;
  }

  -- What the wrapper does with the answer of the tracking policy, which is a RetryResult.
  pub after_tracked :
      RetryPolicy → RetryStats → Outcome Final × World → (Outcome Final × World) × RetryStats
  after_tracked policy stats (return (whole r), w) =
      (resolve_tracked_result policy r w, record_result stats r)
  after_tracked policy stats (return (value v), w) = ((return (value v), w), stats)
  after_tracked policy stats (raise e, w) = ((raise e, w), stats)

  -- `sync_wrapper`
  unfoldable pub sync_wrapper :
      ℕ
      → RetryPolicy
      → RetryStats
      → String
      → Action Value
      → World
      → Option ((Outcome Final × World) × RetryStats)
  sync_wrapper fuel policy stats name function w =
      elim (execute_sync fuel (return_result policy) name function w) [
        | none ↦ none
        | some answer ↦ some (after_tracked policy stats answer)
      ]
