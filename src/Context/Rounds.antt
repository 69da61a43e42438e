-- ===== src/Context/Rounds.antt =====
-- The rounds of a `for` statement over retry blocks, of src/relinker/context, one by one.
use relinker.Prelude.{ℕ, zero, suc, ◌≡◌, refl, true, false, Option, none, some}
use relinker.Python.{Python, Value, Error, Outcome, return, raise}
use relinker.Effects.{World, Action, pure, throw, branch}
use relinker.Records.{RetryResult}
use relinker.Policy.{RetryPolicy}
use relinker.Exhaustion.{Final, value, raise_or_value}
use relinker.Flow.{accept, reject, RetryFlow, next_attempt}
use relinker.Executor.{finish}
use relinker.Context.{RetryBlockIterator, next_block, with_block, blocks}

module _ ⦃py : Python⦄ where
  -- A body that sets the value that a function returns.
  abbrev pub some_of : Outcome Value → Outcome (Option Value)
  some_of (return v) = return (some v)
  some_of (raise e) = raise e

  abbrev pub setting : Action Value → Action (Option Value)
  setting function w = (some_of (function w).0, (function w).1)

  -- What a finished iterator says that the execution came to.
  abbrev pub final_of_parts : Option Final → Option RetryResult → Final
  final_of_parts (some answer) r = answer
  final_of_parts none (some r) = value r.value
  final_of_parts none none = value py.none_value

  abbrev pub answer_of_blocks :
      Option (Outcome RetryBlockIterator × World) → Option (Outcome Final × World)
  answer_of_blocks none = none
  answer_of_blocks (some (return it, w)) = some (return (final_of_parts it.outcome it.result), w)
  answer_of_blocks (some (raise e, w)) = some (raise e, w)

  -- An iterator that goes on.
  abbrev pub going : RetryFlow → RetryBlockIterator
  going flow = record { flow = flow; finished = false; result = none; outcome = none }

  module _ (policy : RetryPolicy) (function : Action Value) where
    -- The rest of the `for` statement behind a block.
    abbrev pub rest_blocks :
        ℕ → Outcome RetryBlockIterator × World → Option (Outcome RetryBlockIterator × World)
    rest_blocks fuel (return it, w) = blocks fuel policy (setting function) it w
    rest_blocks fuel (raise e, w) = some (raise e, w)

    pub blocks-rest :
        (fuel : ℕ) (flow : RetryFlow) (w : World)
        → blocks (suc fuel) policy (setting function) (going flow) w
          ≡ rest_blocks fuel (with_block policy (setting function) (going (next_attempt flow)) w)
    unfolding blocks next_block
    blocks-rest fuel flow w =
        by_outcome (with_block policy (setting function) (going (next_attempt flow)) w).0
          (with_block policy (setting function) (going (next_attempt flow)) w).1
      where
        by_outcome :
            (r : Outcome RetryBlockIterator) (w' : World)
            → elim r [
              | return it' ↦ blocks fuel policy (setting function) it' w'
              | raise e ↦ some (raise e, w')
            ]
              ≡ rest_blocks fuel (r, w')
        by_outcome (return it') w' = refl
        by_outcome (raise e) w' = refl

    pub blocks-zero :
        (flow : RetryFlow) (w : World)
        → answer_of_blocks (blocks zero policy (setting function) (going flow) w) ≡ none
    unfolding blocks next_block
    blocks-zero flow w = refl

    -- A finished iterator ends the `for` statement, whatever fuel is left.
    pub blocks-finished :
        (fuel : ℕ) (flow : RetryFlow) (r : Option RetryResult) (o : Option Final) (w : World)
        → let it : RetryBlockIterator = record {
          flow = flow;
          finished = true;
          result = r;
          outcome = o;
        } in
          blocks fuel policy (setting function) it w ≡ some (return it, w)
    unfolding blocks next_block
    blocks-finished zero flow r o w = refl
    blocks-finished (suc fuel) flow r o w = refl

  module _ (policy : RetryPolicy) (plain : policy.should_return_result ≡ false) where
    pub finish-accept :
        (r : RetryResult) (w : World) → finish policy accept r w ≡ (return (value r.value), w)
    unfolding finish branch pure
    finish-accept r w = rw plain refl

    pub finish-reject :
        (r : RetryResult) (e : Error) (w : World)
        → r.error ≡ some e
        → finish policy reject r w ≡ (raise e, w)
    unfolding finish branch throw raise_or_value
    finish-reject r e w h = rw (plain, h) refl
