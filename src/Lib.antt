-- ===== src/Lib.antt =====
-- Relinker, a retry library: src/relinker of this repository, in Python.
--
-- A RetryPolicy is an immutable configuration: when to stop, whether an outcome is retried, how long
-- to wait, how an exhausted execution ends, which handlers see the events. An executor calls the
-- user's function in a loop. After each attempt RetryFlow records it in a RetryRuntime, asks the
-- policy's condition and stop strategy, and decides: the outcome is final, or a wait is planned. A
-- planned wait adds to the policy's delay a slot of a RetryBudget, an object that several policies
-- and threads share. A final result that is exhausted ends as the policy's exhaustion behaviour says.
--
-- How the program is modelled:
-- - Python is the record of the runtime's operations that the source relies on: floats (those that
--   are not NaN), the monotonic clock, the random source, subclass tests. FloatLaws states the
--   documented facts on IEEE 754 doubles that some theorems need. Python.Ticks is an instance at
--   which they hold. Python.Exceptions has exceptions, with the attributes that chain them.
-- - Effects has actions: functions from a world to an outcome, a value or an exception, and a world.
--   The world has the state of everything outside the library, user code included, and the budget
--   objects by their identity, so that policies may share one. Effects.Hoare and Effects.Laws carry
--   facts through a chain of actions.
-- - Dict has Python's dictionaries with text keys, and Prelude the shared names and lemmas.
--
-- Which file models which part (paths below src/relinker):
-- - Budget, Budget.Slots: budget.py, class RetryBudget. Each method runs under the object's lock and is
--   one function; concurrent callers are sequences of calls, Budget.Windows.Call, in any order.
--   Budget.History keeps account of the reservations that were made, also of those that the object
--   has forgotten.
-- - Wait: internal/retry_wait.py. Flow: internal/executor_flow.py. Executor: executors/sync.py.
-- - Runtime: internal/runtime.py, internal/executor_helpers.py. Exhaustion: internal/exhaustion.py.
-- - Records: attempt.py, state.py, result.py, event.py. Validation: internal/validation.py.
-- - Stop, Condition, Delay: stop, conditions, delays, with a constructor for each class and one for
--   the application's own.
-- - Policy, Builders: policy.py, the configuration with its checks and emit, and the builder methods.
-- - Decorator: internal/decorator.py, the synchronous wrapper, and stats.py.
-- - Context: context/_shared.py and context/sync.py, with the `for` and `with` statements of their users.
-- - Async: executors/async_.py, context/async_.py, the asynchronous wrapper of internal/decorator.py and
--   the checks of awaitables in internal/callables.py. A call returns a Candidate: an awaitable, which
--   is an action that `await` runs, or another object.
-- - Simulation, Simulation.Load: internal/policy_simulation.py. Diagnostics: internal/policy_diagnostics.py,
--   with the records of diagnostics.py. Delay.Walk: the loop over a stack that both have.
-- - Serialization: to_dict and summary of result.py, internal/policy_serialization.py and the
--   payload of internal/policy_logging.py, as values of a type Json. Serialization.Stops has a
--   reader of its own, Serialization.Delays the heap of dictionaries that `_delay_to_dict` fills.
-- - Http: http.py. Texts are lists of code points. Recipes: presets.py, retry.py and http_retry_policy.
-- - Tests, Budget.Tests, Wait.Tests: the theorems at concrete policies, budgets and worlds.
--
-- Loops: `while changed` of `_first_legal_slot` runs on one round more than there are windows of
-- `max_retries` neighbouring reservations, since each round but the last moves the candidate past the
-- end of one of them for good. The loop of `_resolve_additive_tree` runs on as many rounds as the tree
-- has strategies and ends of tuples, since each round takes one off its stack. The executor's loop is
-- given its fuel by the caller, who takes the limit on the attempts where there is one. `_available_at`
-- runs on one round more than `max_retries`, with which its loop has filled the window.
--
-- The loops over a stack of delays run on as many rounds as the tree has strategies, each of which is
-- popped once; the one that fills the dictionaries of nested delays writes to a heap of dictionaries,
-- and what it leaves is read to the same depth.
--
-- Not modelled: logging handlers, the texts of story, explain, preview and describe, JSON as text,
-- the predicates of result_conditions.py, testing helpers, the inspection of callables, the text of
-- messages, and rates that are quotients of floats. The literals 0.1, 0.2, 0.25 and 0.5 of the
-- presets are arguments. The names of classes and callables, `str` of an exception and rounding are
-- the parameter Names. The copying of exception instances is left out. `parsedate_tz`, `mktime_tz`,
-- `time.time` and `str.lower` are parameters of Http, as are the objects that the application gives
-- as responses.
pub mod Prelude
pub mod Python
pub mod Dict
pub mod Budget
pub mod Records
pub mod Effects
pub mod Validation
pub mod Stop
pub mod Condition
pub mod Delay
pub mod Policy
pub mod Exhaustion
pub mod Runtime
pub mod Wait
pub mod Flow
pub mod Executor
pub mod Builders
pub mod Decorator
pub mod Context
pub mod Async
pub mod Simulation
pub mod Diagnostics
pub mod Http
pub mod Recipes
pub mod Serialization
pub mod Tests
