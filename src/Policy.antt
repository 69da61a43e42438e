-- ===== src/Policy.antt =====
-- src/relinker/policy.py: the immutable configuration of an execution, and `emit`.
pub mod Accepted
pub mod Events
use Prim.Native.String.{String}
use relinker.Prelude.{
  ℕ, ◌+◌, Bool, true, false, not, ◌&&◌, ◌||◌, Option, none, some, List, [], ◌∷◌, ◌++◌, any, ltb,
  if◌then◌else◌,
}
use relinker.Python.{
  Python, Float, Value, Error, Outcome, return, raise, invalid_config_error, is_exception,
}
use relinker.Effects.{World, Action, Candidate, pure, branch, ◌>>=◌, ◌>>◌}
use relinker.Records.{
  RetryState, RetryEvent, RetryResult, EventName, same_event, EventFailureMode, propagate, isolate,
  is_some,
}
use relinker.Stop.{StopStrategy, stop_after_attempt}
use relinker.Condition.{RetryCondition, exception_condition}
use relinker.Delay.{DelayStrategy, fixed_delay}
use relinker.Validation.{IntegerArgument, ensure_positive_int}

pub data ResultExhaustedBehavior : Type 0 where
  return_last raise_exhausted : ResultExhaustedBehavior

module _ ⦃py : Python⦄ where
  -- `EventHandlerRegistration`; a bare pair of a name and a handler is one that propagates.
  pub record EventHandlerRegistration : Type 0 where
    pub name : EventName
    pub handler : RetryEvent → Action (Unit {0})
    pub failure_mode : EventFailureMode

  -- The budget is an object that other policies may share: its identity. An exception factory
  -- may return an object that is no exception, `none`.
  pub record RetryPolicy : Type 0 where
    pub stop_strategy : StopStrategy
    pub delay_strategy : DelayStrategy
    pub condition : RetryCondition
    pub should_raise_last : Bool
    pub should_return_result : Bool
    pub result_exhausted_behavior : ResultExhaustedBehavior
    pub exhausted_callback : Option (RetryResult → Action Value)
    pub exhausted_exception_factory : Option (RetryResult → Action (Option Error))
    pub event_handlers : List EventHandlerRegistration
    pub sleep : Float → Action (Unit {0})
    pub async_sleep : Float → Action (Candidate (Unit {0}))
    pub history_limit : Option ℕ
    pub retry_budget : Option ℕ
    pub retry_budget_key : Option String
    pub name : Option String
    pub testing_mode : Bool

  abbrev pub count_true : Bool → ℕ
  count_true b = if b then 1 else 0

  -- How many of the three explicit exhaustion behaviours are configured.
  abbrev pub explicit_exhaustion_behaviors : RetryPolicy → ℕ
  explicit_exhaustion_behaviors p =
      count_true p.should_return_result
      + count_true (is_some p.exhausted_callback)
      + count_true (is_some p.exhausted_exception_factory)

  abbrev pub is_blank_name : Option String → Bool
  is_blank_name none = false
  is_blank_name (some name) = py.is_blank name

  abbrev pub is_bad_limit : Option ℕ → Bool
  is_bad_limit none = false
  is_bad_limit (some n) = not (ltb 0 n)

  -- A key without a budget, or a budget without a key that is not blank.
  abbrev pub is_bad_budget : Option ℕ → Option String → Bool
  is_bad_budget none none = false
  is_bad_budget none (some key) = true
  is_bad_budget (some budget) none = true
  is_bad_budget (some budget) (some key) = py.is_blank key

  -- `__post_init__`, without the checks of the sleepers, which look at callables.
  pub post_init : RetryPolicy → Outcome RetryPolicy
  post_init p =
      if is_blank_name p.name
      then raise invalid_config_error
      else if is_bad_limit p.history_limit
      then raise invalid_config_error
      else if is_bad_budget p.retry_budget p.retry_budget_key
      then raise invalid_config_error
      else if ltb 1 (explicit_exhaustion_behaviors p)
          || (p.should_raise_last && ltb 0 (explicit_exhaustion_behaviors p))
      then raise invalid_config_error
      else return p

  -- `_has_handler`
  unfoldable pub has_handler : RetryPolicy → EventName → Bool
  has_handler p name = any (λ r. same_event r.name name) p.event_handlers

  abbrev or_name : Option String → Option String → Option String
  or_name none name = name
  or_name (some own) name = some own

  -- `replace(state, policy_name=self.name)` where the state has none.
  abbrev name_state : Option RetryState → Option String → Option RetryState
  name_state none name = none
  name_state (some state) name =
      some (record state { policy_name = or_name state.policy_name name })

  -- The event as the handlers see it.
  unfoldable pub named_event : RetryPolicy → RetryEvent → RetryEvent
  named_event p event =
      if is_some p.name && not (is_some event.policy_name)
      then record event { policy_name = p.name; state = name_state event.state p.name }
      else event

  -- A handler that raises: an isolated one is reported, which is logging that cannot fail.
  pub isolate_failure : EventFailureMode → Outcome (Unit {0}) × World → Outcome (Unit {0}) × World
  isolate_failure mode (return _, w) = (return tt, w)
  isolate_failure propagate (raise e, w) = (raise e, w)
  isolate_failure isolate (raise e, w) = if is_exception e then (return tt, w) else (raise e, w)

  -- The loop of `emit`.
  pub emit_to : List EventHandlerRegistration → RetryEvent → Action (Unit {0})
  unfolding isolate_failure
  emit_to [] event = pure tt
  emit_to (r ∷ rs) event =
      branch (same_event r.name event.name)
        (λ w. isolate_failure r.failure_mode (r.handler event w)) (pure tt)
      >> emit_to rs event

  -- `emit`
  unfoldable pub emit : RetryPolicy → RetryEvent → Action (Unit {0})
  unfolding emit_to named_event
  emit p event = emit_to p.event_handlers (named_event p event)
