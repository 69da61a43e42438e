-- ===== src/Runtime.antt =====
-- src/relinker/internal/runtime.py and executor_helpers.py: the bookkeeping of one execution.
pub mod History
use Prim.Native.String.{String}
use relinker.Prelude.{
  ℕ, ◌+◌, ◌-◌, zero, suc, Bool, true, false, ◌&&◌, Option, none, some, List, [], ◌∷◌, ◌++◌, length,
  if◌then◌else◌,
}
use relinker.Python.{Python, Float, Value, ◌-F◌, Error}
use relinker.Effects.{Action, pure, now, ◌>>=◌}
use relinker.Records.{AttemptRecord, RetryState, RetryResult, RetryCause, exception, is_cause}
use relinker.Exhaustion.{resolve_final_error}

module _ {ℓ} {A : Type ℓ} where
  abbrev pub drop : ℕ → List A → List A
  drop zero xs = xs
  drop (suc n) [] = []
  drop (suc n) (x ∷ xs) = drop n xs

  -- `append` of a `deque(maxlen=limit)`.
  pub append_bounded : Option ℕ → List A → A → List A
  append_bounded none xs x = xs ++ (x ∷ [])
  append_bounded (some limit) xs x =
      let longer = xs ++ (x ∷ []) in drop (length longer - limit) longer

module _ ⦃py : Python⦄ where
  pub record RetryRuntime : Type 0 where
    pub function_name : String
    pub started_at : Float
    pub policy_name : Option String
    pub history_limit : Option ℕ
    pub attempts : List AttemptRecord
    pub attempt_number : ℕ
    pub failed_count : ℕ
    pub success_count : ℕ

  -- `RetryRuntime.__init__`
  unfoldable pub new_runtime : String → Float → Option ℕ → Option String → RetryRuntime
  new_runtime function_name started_at history_limit policy_name = record {
    function_name = function_name;
    started_at = started_at;
    policy_name = policy_name;
    history_limit = history_limit;
    attempts = [];
    attempt_number = 0;
    failed_count = 0;
    success_count = 0;
  }

  unfoldable pub begin_attempt : RetryRuntime → RetryRuntime
  begin_attempt rt = record rt { attempt_number = rt.attempt_number + 1 }

  unfoldable pub record_success :
      RetryRuntime → (started_at ended_at : Float) → Value → (has_value : Bool) → RetryRuntime
  record_success rt started_at ended_at value has_value =
      let attempt : AttemptRecord = record {
        number = rt.attempt_number;
        started_at = started_at;
        ended_at = ended_at;
        value = value;
        error = none;
        has_value = has_value;
      } in
      record rt {
        attempts = append_bounded rt.history_limit rt.attempts attempt;
        success_count = rt.success_count + 1;
      }

  unfoldable pub record_failure :
      RetryRuntime → (started_at ended_at : Float) → Error → RetryRuntime
  record_failure rt started_at ended_at e =
      let attempt : AttemptRecord = record {
        number = rt.attempt_number;
        started_at = started_at;
        ended_at = ended_at;
        value = py.none_value;
        error = some e;
        has_value = false;
      } in
      record rt {
        attempts = append_bounded rt.history_limit rt.attempts attempt;
        failed_count = rt.failed_count + 1;
      }

  -- The keyword arguments of `RetryRuntime.state`.
  pub record StateFields : Type 0 where
    pub last_value : Value
    pub last_error : Option Error
    pub has_value : Bool
    pub retry_cause : Option RetryCause
    pub will_retry : Bool
    pub will_stop : Bool

  -- Their defaults.
  abbrev pub no_fields : StateFields
  no_fields = record {
    last_value = py.none_value;
    last_error = none;
    has_value = false;
    retry_cause = none;
    will_retry = false;
    will_stop = false;
  }

  -- `state`, with `build_state`, which reads the clock.
  pub state_of : RetryRuntime → StateFields → Action RetryState
  state_of rt fields = now >>= λ t. pure (record {
    function_name = rt.function_name;
    attempt_number = rt.attempt_number;
    started_at = rt.started_at;
    elapsed = t -F rt.started_at;
    attempts = rt.attempts;
    last_value = fields.last_value;
    last_error = fields.last_error;
    has_value = fields.has_value;
    next_delay = none;
    retry_cause = fields.retry_cause;
    will_retry = fields.will_retry;
    will_stop = fields.will_stop;
    policy_delay = none;
    budget_delay = none;
    policy_name = rt.policy_name;
    total_attempts = rt.attempt_number;
    total_failed_attempts = some rt.failed_count;
    total_successful_attempts = some rt.success_count;
  })

  abbrev pub resolve_if : Bool → Option Error → Option Error
  resolve_if b none = none
  resolve_if false (some e) = some e
  resolve_if true (some e) = some (resolve_final_error e)

  -- `result`
  unfoldable pub result_of :
      RetryRuntime
      → (ended_at : Float) → Value
      → Option Error
      → (exhausted : Bool) → Option RetryCause
      → RetryResult
  result_of rt ended_at value e exhausted cause = record {
    attempts = rt.attempts;
    value = value;
    error = resolve_if (exhausted && is_cause exception cause) e;
    started_at = rt.started_at;
    ended_at = ended_at;
    exhausted = exhausted;
    retry_cause = cause;
    total_attempts = rt.attempt_number;
    total_failed_attempts = some rt.failed_count;
    total_successful_attempts = some rt.success_count;
    policy_name = rt.policy_name;
  }
