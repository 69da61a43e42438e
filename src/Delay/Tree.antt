-- ===== src/Delay/Tree.antt =====
-- `_resolve_additive_tree` of src/relinker/delays/composite.py keeps a stack of frames in place of
-- recursion. This is the recursion that it stands for.
use relinker.Prelude.{
  ℕ, zero, suc, ◌+◌, ◌≡◌, refl, ◌∙◌, sym, ap, Option, none, some, List, [], ◌∷◌, ◌++◌, arith,
}
use relinker.Python.{Python, Float, float_min}
use relinker.Effects.{World, Action, pure, ◌>>=◌}
use relinker.Effects.Laws.{bind_assoc, bind_same, bind_pure}
use relinker.Records.{RetryState}
use relinker.Validation.{max_sleep_seconds}
use relinker.Delay.{
  DelayStrategy, fixed_delay, linear_delay, exponential_delay, random_delay,
  random_exponential_delay, chain_delay, additive_delay, custom_delay, stateful_custom_delay,
  user_delay, Delays, nil, cons, Frame, sum, rounds_of, rounds_of_all, checked,
  leaf_delay_with_state, additive_round, additive_loop, resolve_additive_tree,
}

module _ ⦃py : Python⦄ (n : ℕ) (state : Option RetryState) where
  mutual
    -- The delay of a strategy, where an additive one is the capped sum of its children's.
    pub tree_delay : DelayStrategy → Action Float
    tree_delay (additive_delay ds) = tree_sum ds []
    tree_delay s = checked (leaf_delay_with_state s n state)

    pub tree_sum : Delays → List Float → Action Float
    tree_sum nil values = pure (float_min (sum values) max_sleep_seconds)
    tree_sum (cons d ds) values = tree_delay d >>= λ v. tree_sum ds (values ++ (v ∷ []))

  abbrev frame : Delays → List Float → Frame
  frame ds values = record { strategies = ds; values = values }

  -- A value that a child leaves is appended to its parent's.
  resume :
      (fuel : ℕ) (ds : Delays) (values : List Float) (frames : List Frame) (v : Float) (w : World)
      → additive_loop fuel n state (frame ds values ∷ frames) (some v) w
        ≡ additive_loop fuel n state (frame ds (values ++ (v ∷ [])) ∷ frames) none w
  unfolding additive_loop
  resume zero ds values frames v w = refl
  resume (suc fuel) ds values frames v w = refl

  -- What the loop does with the frames below a finished one.
  abbrev below : ℕ → List Frame → Float → Action Float
  below fuel frames v = additive_loop fuel n state frames (some v)

  -- On as much fuel as the strategies take and `fuel` more, the loop finishes their frame and goes
  -- on with the rest of the fuel.
  abbrev Runs : Delays → Type 0
  Runs ds =
      (values : List Float) (fuel total : ℕ) (frames : List Frame) (w : World)
      → total ≡ rounds_of_all ds + fuel
      → additive_loop total n state (frame ds values ∷ frames) none w
        ≡ (tree_sum ds values >>= below fuel frames) w

  module _ (rest : Delays) (ih : Runs rest) (values : List Float) (fuel total : ℕ)
      (frames : List Frame) where
    -- A leaf is resolved in the round that meets it.
    leaf-Runs :
        (m : Action Float) (w : World)
        → total ≡ rounds_of_all rest + fuel
        → ((m >>= λ v. pure (frame rest (values ++ (v ∷ [])) ∷ frames, none))
              >>= λ (frames', resolved'). additive_loop total n state frames' resolved')
            w
          ≡ ((m >>= λ v. tree_sum rest (values ++ (v ∷ []))) >>= below fuel frames) w
    unfolding pure ◌>>=◌
    leaf-Runs m w e =
        bind_assoc (λ v. pure (frame rest (values ++ (v ∷ [])) ∷ frames, none))
          (λ (frames', resolved'). additive_loop total n state frames' resolved') m w
        ∙ bind_same _ _ m w (λ v w'. ih (values ++ (v ∷ [])) fuel total frames w' e)
        ∙ sym (bind_assoc (λ v. tree_sum rest (values ++ (v ∷ []))) (below fuel frames) m w)

    -- A nested tree runs in a frame of its own, with the rest of the parent's fuel left to it.
    nested-Runs :
        (ds : Delays) (w : World)
        → Runs ds
        → total ≡ rounds_of_all ds + (rounds_of_all rest + fuel)
        → additive_loop total n state (frame ds [] ∷ frame rest values ∷ frames) none w
          ≡ ((tree_sum ds [] >>= λ v. tree_sum rest (values ++ (v ∷ []))) >>= below fuel frames) w
    nested-Runs ds w inner e =
        inner [] (rounds_of_all rest + fuel) total (frame rest values ∷ frames) w e
        ∙ bind_same _ _ (tree_sum ds []) w (λ v w'.
          resume (rounds_of_all rest + fuel) rest values frames v w'
          ∙ ih (values ++ (v ∷ [])) fuel (rounds_of_all rest + fuel) frames w' refl)
        ∙ sym (
            bind_assoc (λ v. tree_sum rest (values ++ (v ∷ []))) (below fuel frames)
              (tree_sum ds []) w)

  mutual
    unfolding additive_loop additive_round rounds_of rounds_of_all tree_sum tree_delay ◌>>=◌ pure

    loop-Runs : (ds : Delays) → Runs ds
    loop-Runs nil values fuel zero frames w e = absurd (omega arith)
    loop-Runs nil values fuel (suc total) frames w e =
        ap (λ k. below k frames (float_min (sum values) max_sleep_seconds) w) (omega arith)
    loop-Runs (cons (additive_delay ds) rest) values fuel zero frames w e = absurd (omega arith)
    loop-Runs (cons (additive_delay ds) rest) values fuel (suc total) frames w e =
        nested-Runs rest (loop-Runs rest) values fuel total frames ds w (loop-Runs ds) (omega arith)
    loop-Runs (cons (fixed_delay s) rest) values fuel zero frames w e = absurd (omega arith)
    loop-Runs (cons (fixed_delay s) rest) values fuel (suc total) frames w e =
        leaf-Runs rest (loop-Runs rest) values fuel total frames (tree_delay (fixed_delay s)) w
          (omega arith)
    loop-Runs (cons (linear_delay a b m) rest) values fuel zero frames w e = absurd (omega arith)
    loop-Runs (cons (linear_delay a b m) rest) values fuel (suc total) frames w e =
        leaf-Runs rest (loop-Runs rest) values fuel total frames (tree_delay (linear_delay a b m)) w
          (omega arith)
    loop-Runs (cons (exponential_delay a b m) rest) values fuel zero frames w e =
        absurd (omega arith)
    loop-Runs (cons (exponential_delay a b m) rest) values fuel (suc total) frames w e =
        leaf-Runs rest (loop-Runs rest) values fuel total frames
          (tree_delay (exponential_delay a b m)) w (omega arith)
    loop-Runs (cons (random_delay a b s) rest) values fuel zero frames w e = absurd (omega arith)
    loop-Runs (cons (random_delay a b s) rest) values fuel (suc total) frames w e =
        leaf-Runs rest (loop-Runs rest) values fuel total frames (tree_delay (random_delay a b s)) w
          (omega arith)
    loop-Runs (cons (random_exponential_delay a b c m s) rest) values fuel zero frames w e =
        absurd (omega arith)
    loop-Runs (cons (random_exponential_delay a b c m s) rest) values fuel (suc total) frames w e =
        leaf-Runs rest (loop-Runs rest) values fuel total frames
          (tree_delay (random_exponential_delay a b c m s)) w (omega arith)
    loop-Runs (cons (chain_delay a rest_delays) rest) values fuel zero frames w e =
        absurd (omega arith)
    loop-Runs (cons (chain_delay a rest_delays) rest) values fuel (suc total) frames w e =
        leaf-Runs rest (loop-Runs rest) values fuel total frames
          (tree_delay (chain_delay a rest_delays)) w (omega arith)
    loop-Runs (cons (custom_delay f) rest) values fuel zero frames w e = absurd (omega arith)
    loop-Runs (cons (custom_delay f) rest) values fuel (suc total) frames w e =
        leaf-Runs rest (loop-Runs rest) values fuel total frames (tree_delay (custom_delay f)) w
          (omega arith)
    loop-Runs (cons (stateful_custom_delay f) rest) values fuel zero frames w e =
        absurd (omega arith)
    loop-Runs (cons (stateful_custom_delay f) rest) values fuel (suc total) frames w e =
        leaf-Runs rest (loop-Runs rest) values fuel total frames
          (tree_delay (stateful_custom_delay f)) w (omega arith)
    loop-Runs (cons (user_delay f) rest) values fuel zero frames w e = absurd (omega arith)
    loop-Runs (cons (user_delay f) rest) values fuel (suc total) frames w e =
        leaf-Runs rest (loop-Runs rest) values fuel total frames (tree_delay (user_delay f)) w
          (omega arith)

  -- The loop over the stack of frames finds the delay, and leaves the world, that recursion over
  -- the tree of additive strategies does; its fuel suffices.
  pub resolve_additive_tree-tree_sum :
      (ds : Delays) (w : World) → resolve_additive_tree ds n state w ≡ tree_sum ds [] w
  unfolding resolve_additive_tree additive_loop
  resolve_additive_tree-tree_sum ds w =
      loop-Runs ds [] 0 (rounds_of_all ds) [] w (omega arith) ∙ bind_pure (tree_sum ds []) w
