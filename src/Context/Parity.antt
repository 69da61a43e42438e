-- ===== src/Context/Parity.antt =====
-- Retry blocks of src/relinker/context and the executor of src/relinker/executors/sync.py.
use Prim.Native.String.{String}
use relinker.Prelude.{
  ℕ, zero, suc, ◌≡◌, refl, ap, sym, ◌∙◌, Bool, true, false, Option, none, some, Bool-cases, inl,
  inr,
}
use relinker.Python.{Python, Value, Error, Outcome, return, raise, is_exception}
use relinker.Effects.{World, Action, pure, throw, branch, now, ◌>>=◌}
use relinker.Effects.Hoare.{Returns}
use relinker.Records.{RetryResult, is_some}
use relinker.Wait.{RetryWaitPlan}
use relinker.Policy.{RetryPolicy}
use relinker.Exhaustion.{Final, finish_exhausted}
use relinker.Flow.{
  accept, reject, exhaust, Decision, wait, final, RetryFlow, new_flow, next_attempt, enter_attempt,
  after_exception, after_value,
}
use relinker.Flow.Decisions.{
  CountsFailure, CountsSuccess, AfterException, AfterValue, after_exception_lem, after_value_lem,
}
use relinker.Executor.{
  sleep_before_retry, after_call, run_attempt, finish, act_on, round, loop, execute_sync,
}
use relinker.Executor.Rounds.{rest, own_final_rest, loop-zero, loop-rest}
use relinker.Context.{
  RetryBlockIterator, new_iterator, enter_block, finish_block, act_on_block, exit_block,
  unless_suppressed, leave_block, with_block, blocks, run_blocks,
}
use relinker.Context.Rounds.{
  some_of, setting, answer_of_blocks, going, rest_blocks, blocks-rest, blocks-zero, blocks-finished,
  finish-accept, finish-reject,
}

module _ ⦃py : Python⦄ where
  module _ (policy : RetryPolicy) (function : Action Value)
      (plain : policy.should_return_result ≡ false) where
    module _ (fuel : ℕ)
        (ih : (flow : RetryFlow) (w : World)
          → answer_of_blocks (blocks fuel policy (setting function) (going flow) w)
            ≡ loop fuel policy function flow w) where
      -- What leaves the block behind `__exit__`, where the block ends quietly.
      module _ (k : RetryBlockIterator × Bool → Action RetryBlockIterator) (flag : Bool)
          (quiet : (it : RetryBlockIterator) (w : World) → k (it, flag) w ≡ (return it, w)) where
        -- After a successful or a failed sleep.
        slept :
            (flow : RetryFlow) (o : Outcome (Unit {0})) (w : World)
            → answer_of_blocks (
                rest_blocks policy function fuel
                  ((((λ _. (o, w)) >>= λ _. pure (going flow, flag)) >>= k) w))
              ≡ rest policy fuel function (((λ _. (o, w)) >>= λ _. pure (flow, none)) w)
        unfolding ◌>>=◌ pure
        slept flow (return _) w =
            ap (λ x. answer_of_blocks (rest_blocks policy function fuel x)) (quiet (going flow) w)
            ∙ ih flow w
        slept flow (raise e) w = refl

        -- The exhausted execution ends as `finish_exhausted` does.
        exhausted :
            (flow : RetryFlow) (r : RetryResult) (o : Outcome Final) (w : World)
            → let finished : Final → RetryBlockIterator = λ answer. record {
              flow = flow;
              finished = true;
              result = some r;
              outcome = some answer;
            } in
              answer_of_blocks (
                rest_blocks policy function fuel
                  ((((λ _. (o, w)) >>= λ answer. pure (finished answer, flag)) >>= k) w))
              ≡ some (o, w)
        unfolding ◌>>=◌ pure
        exhausted flow r (return answer) w =
            ap (λ x. answer_of_blocks (rest_blocks policy function fuel x)) (quiet _ w)
            ∙ ap answer_of_blocks
                (blocks-finished policy function fuel flow (some r) (some answer) w)
        exhausted flow r (raise e) w = refl

        wait_decided :
            (error : Option Error) (flow entered : RetryFlow) (plan : RetryWaitPlan) (w : World)
            → is_some error ≡ flag
            → answer_of_blocks (
                rest_blocks policy function fuel
                  ((act_on_block policy (going entered) error (flow, wait plan) >>= k) w))
              ≡ rest policy fuel function (act_on policy (flow, wait plan) w)
        unfolding act_on_block act_on ◌>>=◌
        wait_decided error flow entered plan w e =
            rw e
              (slept flow (sleep_before_retry policy plan w).0 (sleep_before_retry policy plan w).1)

        exhaust_decided :
            (error : Option Error) (flow entered : RetryFlow) (r : RetryResult) (w : World)
            → is_some error ≡ flag
            → answer_of_blocks (
                rest_blocks policy function fuel
                  ((act_on_block policy (going entered) error (flow, final exhaust r) >>= k) w))
              ≡ rest policy fuel function (act_on policy (flow, final exhaust r) w)
        unfolding act_on_block finish_block finish ◌>>=◌
        exhaust_decided error flow entered r w e =
            rw e (exhausted flow r (finish_exhausted policy r w).0 (finish_exhausted policy r w).1)
            ∙ sym (own_final_rest policy fuel function flow exhaust r w)

      -- Behind the decision that follows a value.
      value_decided :
          (v : Value) (flow entered : RetryFlow) (d : Decision) (w : World)
          → AfterValue policy flow.runtime v true d
          → answer_of_blocks (
              rest_blocks policy function fuel
                ((act_on_block policy (going entered) none (flow, d) >>= λ (it', _). pure it') w))
            ≡ rest policy fuel function (act_on policy (flow, d) w)
      unfolding act_on_block finish_block ◌>>=◌ pure
      value_decided v flow entered (wait plan) w h =
          wait_decided (λ (it', _). pure it') false (λ it w. refl) none flow entered plan w refl
      value_decided v flow entered (final exhaust r) w h =
          exhaust_decided (λ (it', _). pure it') false (λ it w. refl) none flow entered r w refl
      value_decided v flow entered (final reject r) w h = absurd h
      value_decided v flow entered (final accept r) w h =
          ap answer_of_blocks (blocks-finished policy function fuel flow (some r) none w)
          ∙ sym (
              own_final_rest policy fuel function flow accept r w
              ∙ ap some (finish-accept policy plain r w))

      -- Behind the decision that follows an exception.
      error_decided :
          (e : Error) (flow entered : RetryFlow) (d : Decision) (w : World)
          → AfterException policy flow.runtime e d
          → answer_of_blocks (
              rest_blocks policy function fuel (
                (act_on_block policy (going entered) (some e) (flow, d) >>= unless_suppressed e) w))
            ≡ rest policy fuel function (act_on policy (flow, d) w)
      unfolding act_on_block finish_block ◌>>=◌ pure branch throw
      error_decided e flow entered (wait plan) w h =
          wait_decided (unless_suppressed e) true (λ it w. refl) (some e) flow entered plan w refl
      error_decided e flow entered (final exhaust r) w h =
          exhaust_decided (unless_suppressed e) true (λ it w. refl) (some e) flow entered r w refl
      error_decided e flow entered (final reject r) w h = sym (
          own_final_rest policy fuel function flow reject r w
          ∙ ap some (finish-reject policy plain r e w h.1))
      error_decided e flow entered (final accept r) w h = absurd h

      value_left :
          (v : Value) (entered : RetryFlow) (o : Outcome (RetryFlow × Decision)) (w : World)
          → Returns
              (λ p. CountsSuccess entered p.0 × AfterValue policy p.0.runtime v true p.1)
              (o, w)
          → answer_of_blocks (
              rest_blocks policy function fuel (
                (((λ _. (o, w)) >>= act_on_block policy (going entered) none) >>= λ (it', _).
                pure it')
                  w))
            ≡ rest policy fuel function (((λ _. (o, w)) >>= act_on policy) w)
      unfolding ◌>>=◌
      value_left v entered (return (flow, d)) w h = value_decided v flow entered d w h.1
      value_left v entered (raise e) w h = refl

      error_left :
          (e : Error) (entered : RetryFlow) (o : Outcome (RetryFlow × Decision)) (w : World)
          → Returns
              (λ p. CountsFailure entered p.0 × AfterException policy p.0.runtime e p.1)
              (o, w)
          → answer_of_blocks (
              rest_blocks policy function fuel (
                (((λ _. (o, w)) >>= act_on_block policy (going entered) (some e))
                    >>= unless_suppressed e)
                  w))
            ≡ rest policy fuel function (((λ _. (o, w)) >>= act_on policy) w)
      unfolding ◌>>=◌
      error_left e entered (return (flow, d)) w h = error_decided e flow entered d w h.1
      error_left e entered (raise _) w h = refl

      -- Behind the body of a block, and the call of the function.
      block_left :
          (entered : RetryFlow) (o : Outcome Value) (w : World)
          → answer_of_blocks
              (rest_blocks policy function fuel (leave_block policy (going entered) (some_of o) w))
            ≡ rest policy fuel function
                (((λ _. after_call policy entered (o, w)) >>= act_on policy) w)
      unfolding leave_block exit_block after_call ◌>>=◌ branch pure throw
      block_left entered (return v) w =
          value_left v entered (after_value policy entered v true w).0
            (after_value policy entered v true w).1
            ((after_value_lem policy entered v true).apply w)
      block_left entered (raise e) w = elim (Bool-cases (is_exception e)) [
        | inl caught ↦ rw caught (
            error_left e entered (after_exception policy entered e w).0
              (after_exception policy entered e w).1
              ((after_exception_lem policy entered e).apply w))
        | inr escapes ↦ rw escapes refl
      ]

      block_entered :
          (o : Outcome RetryFlow) (w : World)
          → answer_of_blocks (
              rest_blocks policy function fuel (
                (((λ _. (o, w)) >>= λ flow. pure (going flow)) >>= λ entered.
                λ w. leave_block policy entered (setting function w).0 (setting function w).1)
                  w))
            ≡ rest policy fuel function (
                (((λ _. (o, w)) >>= λ entered. λ w. after_call policy entered (function w))
                    >>= act_on policy)
                  w)
      unfolding ◌>>=◌ pure
      block_entered (return entered) w = block_left entered (function w).0 (function w).1
      block_entered (raise e) w = refl

    blocks-loop :
        (fuel : ℕ) (flow : RetryFlow) (w : World)
        → answer_of_blocks (blocks fuel policy (setting function) (going flow) w)
          ≡ loop fuel policy function flow w
    unfolding with_block enter_block round run_attempt ◌>>=◌
    blocks-loop zero flow w =
        blocks-zero policy function flow w ∙ sym (loop-zero policy function flow w)
    blocks-loop (suc fuel) flow w =
        ap answer_of_blocks (blocks-rest policy function fuel flow w)
        ∙ block_entered fuel (blocks-loop fuel) (enter_attempt policy (next_attempt flow) w).0
            (enter_attempt policy (next_attempt flow) w).1
        ∙ sym (loop-rest policy fuel function flow w)

    started :
        (fuel : ℕ) (o : Outcome RetryFlow) (w : World)
        → answer_of_blocks (elim (((λ _. (o, w)) >>= λ flow. pure (going flow)) w).0 [
          | return it ↦ blocks fuel policy (setting function) it w
          | raise e ↦ some (raise e, w)
        ])
          ≡ elim o [ return flow ↦ loop fuel policy function flow w | raise e ↦ some (raise e, w) ]
    unfolding ◌>>=◌ pure
    started fuel (return flow) w = blocks-loop fuel flow w
    started fuel (raise e) w = refl

  -- A `for` statement over retry blocks, whose body sets the value of a function, comes to what
  -- the execution of the function under the policy does, if the policy does not return the
  -- RetryResult: the same value or exception in the same world, or no end within the fuel.
  pub run_blocks-execute_sync :
      (fuel : ℕ) (policy : RetryPolicy) (name : String) (function : Action Value) (w : World)
      → policy.should_return_result ≡ false
      → answer_of_blocks (run_blocks fuel policy name (setting function) w)
        ≡ execute_sync fuel policy name function w
  unfolding run_blocks new_iterator execute_sync new_flow now ◌>>=◌ pure
  run_blocks-execute_sync fuel policy name function w plain =
      started policy function plain fuel (new_flow policy name w).0 (new_flow policy name w).1
