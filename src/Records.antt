-- ===== src/Records.antt =====
-- The immutable data that an execution produces: src/relinker/attempt.py, state.py, result.py and
-- event.py, with the properties that their methods compute.
use Prim.Native.String.{String}
use relinker.Prelude.{
  ℕ, Bool, true, false, not, ◌&&◌, ◌||◌, Option, none, some, List, length, count_if, any, ltb, ◌==◌,
  if◌then◌else◌,
}
use relinker.Python.{Python, Float, Value, ◌-F◌, Error}

pub data RetryCause : Type 0 where
  exception result : RetryCause

pub data EventName : Type 0 where
  before_attempt after_success after_failure before_sleep after_giveup : EventName

pub data EventFailureMode : Type 0 where
  propagate isolate : EventFailureMode

abbrev pub same_event : EventName → EventName → Bool
same_event before_attempt before_attempt = true
same_event after_success after_success = true
same_event after_failure after_failure = true
same_event before_sleep before_sleep = true
same_event after_giveup after_giveup = true
same_event _ _ = false

abbrev pub is_some {ℓ} : {A : Type ℓ} → Option A → Bool
is_some none = false
is_some (some _) = true

module _ ⦃py : Python⦄ where
  pub record AttemptRecord : Type 0 where
    pub number : ℕ
    pub started_at : Float
    pub ended_at : Float
    pub value : Value
    pub error : Option Error
    pub has_value : Bool

  abbrev pub attempt_duration : AttemptRecord → Float
  attempt_duration attempt = attempt.ended_at -F attempt.started_at

  abbrev pub attempt_succeeded : AttemptRecord → Bool
  attempt_succeeded attempt = not (is_some attempt.error)

  abbrev pub attempt_failed : AttemptRecord → Bool
  attempt_failed attempt = is_some attempt.error

  pub record RetryState : Type 0 where
    pub function_name : String
    pub attempt_number : ℕ
    pub started_at : Float
    pub elapsed : Float
    pub attempts : List AttemptRecord
    pub last_value : Value
    pub last_error : Option Error
    pub has_value : Bool
    pub next_delay : Option Float
    pub retry_cause : Option RetryCause
    pub will_retry : Bool
    pub will_stop : Bool
    pub policy_delay : Option Float
    pub budget_delay : Option Float
    pub policy_name : Option String
    pub total_attempts : ℕ
    pub total_failed_attempts : Option ℕ
    pub total_successful_attempts : Option ℕ

  pub record RetryEvent : Type 0 where
    pub name : EventName
    pub attempt_number : ℕ
    pub function_name : String
    pub delay : Option Float
    pub value : Value
    pub error : Option Error
    pub state : Option RetryState
    pub policy_name : Option String

  pub record RetryResult : Type 0 where
    pub attempts : List AttemptRecord
    pub value : Value
    pub error : Option Error
    pub started_at : Float
    pub ended_at : Float
    pub exhausted : Bool
    pub retry_cause : Option RetryCause
    pub total_attempts : ℕ
    pub total_failed_attempts : Option ℕ
    pub total_successful_attempts : Option ℕ
    pub policy_name : Option String

  abbrev pub result_succeeded : RetryResult → Bool
  result_succeeded r = not (is_some r.error) && not r.exhausted

  abbrev pub result_failed : RetryResult → Bool
  result_failed r = is_some r.error || r.exhausted

  -- `RetryResult.attempt_count`, and `RetryState.attempt_count` in the same words.
  abbrev pub attempt_count : RetryResult → ℕ
  attempt_count r = if r.total_attempts == 0 then length r.attempts else r.total_attempts

  abbrev pub history_truncated : RetryResult → Bool
  history_truncated r = ltb (length r.attempts) (attempt_count r)

  abbrev pub total_time : RetryResult → Float
  total_time r = r.ended_at -F r.started_at

  abbrev pub is_cause : RetryCause → Option RetryCause → Bool
  is_cause exception (some exception) = true
  is_cause result (some result) = true
  is_cause _ _ = false

  abbrev pub exhausted_by_exception : RetryResult → Bool
  exhausted_by_exception r = r.exhausted && is_cause exception r.retry_cause

  abbrev pub exhausted_by_result : RetryResult → Bool
  exhausted_by_result r = r.exhausted && is_cause result r.retry_cause

  abbrev pub or_count : Option ℕ → (AttemptRecord → Bool) → List AttemptRecord → ℕ
  or_count none p attempts = count_if p attempts
  or_count (some n) p attempts = n

  abbrev pub failed_attempts : RetryResult → ℕ
  failed_attempts r = or_count r.total_failed_attempts attempt_failed r.attempts

  abbrev pub successful_attempts : RetryResult → ℕ
  successful_attempts r = or_count r.total_successful_attempts attempt_succeeded r.attempts

  abbrev pub has_last_value : RetryResult → Bool
  has_last_value r = any (λ attempt. attempt.has_value) r.attempts
