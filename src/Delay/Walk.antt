-- ===== src/Delay/Walk.antt =====
-- The loop over a stack of strategies with which internal/policy_simulation.py and
-- internal/policy_diagnostics.py of src/relinker look into additive delays.
use relinker.Prelude.{
  ℕ, zero, suc, ◌+◌, ◌≤◌, ◌≡◌, refl, ◌∙◌, ap, Bool, true, false, ◌||◌, List, [], ◌∷◌, arith,
}
use relinker.Python.{Python}
use relinker.Delay.{
  DelayStrategy, fixed_delay, linear_delay, exponential_delay, random_delay,
  random_exponential_delay, chain_delay, additive_delay, custom_delay, stateful_custom_delay,
  user_delay, Delays, nil, cons,
}

module _ ⦃py : Python⦄ where
  -- `stack.extend(strategies)`: the last strategy is the next that `stack.pop()` takes.
  pub extend : Delays → List DelayStrategy → List DelayStrategy
  extend nil stack = stack
  extend (cons d ds) stack = extend ds (d ∷ stack)

  -- `while stack`, on fuel: an additive strategy is replaced by its parts, and the loop ends with
  -- True at a strategy of another class for which the test holds.
  pub search : ℕ → (DelayStrategy → Bool) → List DelayStrategy → Bool
  unfolding extend
  search fuel test [] = false
  search zero test (d ∷ stack) = false
  search (suc fuel) test (additive_delay ds ∷ stack) = search fuel test (extend ds stack)
  search (suc fuel) test (d ∷ stack) = test d || search fuel test stack

  unfoldable mutual
    -- How many strategies a tree has, each of which is popped once.
    pub nodes_of : DelayStrategy → ℕ
    nodes_of (additive_delay ds) = suc (nodes_of_all ds)
    nodes_of _ = 1

    pub nodes_of_all : Delays → ℕ
    nodes_of_all nil = 0
    nodes_of_all (cons d ds) = nodes_of d + nodes_of_all ds

  -- The loop from `stack = [strategy]` on.
  pub search_tree : (DelayStrategy → Bool) → DelayStrategy → Bool
  unfolding search nodes_of
  search_tree test d = search (nodes_of d) test (d ∷ [])

  unfoldable mutual
    -- What the loop stands for: some strategy in the tree, the additive ones aside, has the
    -- property.
    pub some_leaf : (DelayStrategy → Bool) → DelayStrategy → Bool
    some_leaf test (additive_delay ds) = some_leaf_of test ds
    some_leaf test d = test d

    pub some_leaf_of : (DelayStrategy → Bool) → Delays → Bool
    some_leaf_of test nil = false
    some_leaf_of test (cons d ds) = some_leaf test d || some_leaf_of test ds

  module _ (test : DelayStrategy → Bool) where
    abbrev on_stack : List DelayStrategy → Bool
    on_stack [] = false
    on_stack (d ∷ stack) = some_leaf test d || on_stack stack

    abbrev size : List DelayStrategy → ℕ
    size [] = 0
    size (d ∷ stack) = nodes_of d + size stack

    size-extend :
        (ds : Delays) (stack : List DelayStrategy)
        → size (extend ds stack) ≡ nodes_of_all ds + size stack
    unfolding extend nodes_of_all
    size-extend nil stack = omega arith
    size-extend (cons d ds) stack = omega (arith, size-extend ds (d ∷ stack))

    or_swap : (a b c : Bool) → (b || (a || c)) ≡ ((a || b) || c)
    or_swap true true c = refl
    or_swap true false c = refl
    or_swap false true c = refl
    or_swap false false c = refl

    on_stack-extend :
        (ds : Delays) (stack : List DelayStrategy)
        → on_stack (extend ds stack) ≡ (some_leaf_of test ds || on_stack stack)
    unfolding extend some_leaf_of
    on_stack-extend nil stack = refl
    on_stack-extend (cons d ds) stack =
        on_stack-extend ds (d ∷ stack)
        ∙ or_swap (some_leaf test d) (some_leaf_of test ds) (on_stack stack)

    abbrev or_test : Bool → Bool → Bool
    or_test a b = a || b

    search-on_stack :
        (fuel : ℕ) (stack : List DelayStrategy)
        → size stack ≤ fuel
        → search fuel test stack ≡ on_stack stack
    unfolding search some_leaf nodes_of
    search-on_stack zero [] h = refl
    search-on_stack (suc fuel) [] h = refl
    search-on_stack zero (additive_delay ds ∷ stack) h = absurd (omega arith)
    search-on_stack (suc fuel) (additive_delay ds ∷ stack) h =
        search-on_stack fuel (extend ds stack) (omega (arith, size-extend ds stack))
        ∙ on_stack-extend ds stack
    search-on_stack zero (fixed_delay s ∷ stack) h = absurd (omega arith)
    search-on_stack (suc fuel) (fixed_delay s ∷ stack) h =
        ap (or_test (test (fixed_delay s))) (search-on_stack fuel stack (omega arith))
    search-on_stack zero (linear_delay a b m ∷ stack) h = absurd (omega arith)
    search-on_stack (suc fuel) (linear_delay a b m ∷ stack) h =
        ap (or_test (test (linear_delay a b m))) (search-on_stack fuel stack (omega arith))
    search-on_stack zero (exponential_delay a b m ∷ stack) h = absurd (omega arith)
    search-on_stack (suc fuel) (exponential_delay a b m ∷ stack) h =
        ap (or_test (test (exponential_delay a b m))) (search-on_stack fuel stack (omega arith))
    search-on_stack zero (random_delay a b s ∷ stack) h = absurd (omega arith)
    search-on_stack (suc fuel) (random_delay a b s ∷ stack) h =
        ap (or_test (test (random_delay a b s))) (search-on_stack fuel stack (omega arith))
    search-on_stack zero (random_exponential_delay a b c m s ∷ stack) h = absurd (omega arith)
    search-on_stack (suc fuel) (random_exponential_delay a b c m s ∷ stack) h =
        ap (or_test (test (random_exponential_delay a b c m s)))
          (search-on_stack fuel stack (omega arith))
    search-on_stack zero (chain_delay a l ∷ stack) h = absurd (omega arith)
    search-on_stack (suc fuel) (chain_delay a l ∷ stack) h =
        ap (or_test (test (chain_delay a l))) (search-on_stack fuel stack (omega arith))
    search-on_stack zero (custom_delay f ∷ stack) h = absurd (omega arith)
    search-on_stack (suc fuel) (custom_delay f ∷ stack) h =
        ap (or_test (test (custom_delay f))) (search-on_stack fuel stack (omega arith))
    search-on_stack zero (stateful_custom_delay f ∷ stack) h = absurd (omega arith)
    search-on_stack (suc fuel) (stateful_custom_delay f ∷ stack) h =
        ap (or_test (test (stateful_custom_delay f))) (search-on_stack fuel stack (omega arith))
    search-on_stack zero (user_delay f ∷ stack) h = absurd (omega arith)
    search-on_stack (suc fuel) (user_delay f ∷ stack) h =
        ap (or_test (test (user_delay f))) (search-on_stack fuel stack (omega arith))

    or_false : (b : Bool) → (b || false) ≡ b
    or_false true = refl
    or_false false = refl

    -- The loop over a stack with which the simulation and the diagnostics look into additive
    -- delays answers True exactly if recursion over the tree finds a strategy with the property;
    -- its fuel suffices.
    pub search_tree-some_leaf : (d : DelayStrategy) → search_tree test d ≡ some_leaf test d
    unfolding search_tree
    search_tree-some_leaf d =
        search-on_stack (nodes_of d) (d ∷ []) (omega arith) ∙ or_false (some_leaf test d)
