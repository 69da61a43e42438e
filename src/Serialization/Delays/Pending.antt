-- ===== src/Serialization/Delays/Pending.antt =====
-- The stack and the heap of the loop of `_delay_to_dict`: which dictionaries are complete, and which
-- the stack still names.
use relinker.Prelude.{
  ℕ, suc, ◌+◌, ◌≤◌, ◌<◌, ◌≡◌, ◌≢◌, ◌↔◌, refl, sym, ap, ◌∙◌, none, some, List, [], ◌∷◌, ◌++◌, ◌==◌,
  false, inl, inr, Bool-cases, ==_refl, arith,
}
use relinker.Python.{Python}
use relinker.Delay.{
  DelayStrategy, fixed_delay, linear_delay, exponential_delay, random_delay,
  random_exponential_delay, chain_delay, additive_delay, custom_delay, stateful_custom_delay,
  user_delay, Delays, nil, cons,
}
use relinker.Delay.Walk.{nodes_of, nodes_of_all}
use relinker.Serialization.{Names}
use relinker.Serialization.Policies.{delay_to_shallow_dict}
use relinker.Serialization.Delays.{
  Heap, Stack, push, empty_list, new_node, adopt, delay_to_dict, tree_to_dict,
}

module _ ⦃py : Python⦄ where
  abbrev pub Absent : ℕ → Stack → Type 0
  Absent i [] = Unit
  Absent i ((ds, id) ∷ stack) = (i ≢ id) × Absent i stack

  -- The identities on the stack fall from the top, and their dictionaries are still empty.
  abbrev pub IsPending : ℕ → Stack → Heap → Type 0
  IsPending bound [] h = Unit
  IsPending bound ((ds, id) ∷ stack) h =
      (id < bound) × ((h.node id).strategies ≡ some []) × IsPending id stack h

  -- The rounds that a stack takes.
  abbrev pub rounds : Stack → ℕ
  rounds [] = 0
  rounds ((ds, id) ∷ stack) = suc (nodes_of_all ds) + rounds stack

  test_false : (a b : ℕ) → a ≢ b → (a == b) ≡ false
  test_false a b other = elim (Bool-cases (a == b)) [
    | inl e ↦ absurd (other (ground (arith, e)))
    | inr e ↦ e
  ]

  pub IsPending-Absent :
      (bound i : ℕ) (stack : Stack) (h : Heap)
      → IsPending bound stack h
      → bound ≤ i
      → Absent i stack
  IsPending-Absent bound i [] h p le = tt
  IsPending-Absent bound i ((ds, id) ∷ stack) h (less, empty, rest) le =
      ((λ e. absurd (omega (arith, e))), IsPending-Absent id i stack h rest (omega arith))

  pub IsPending-weaken :
      (a b : ℕ) (stack : Stack) (h : Heap) → IsPending a stack h → a ≤ b → IsPending b stack h
  IsPending-weaken a b [] h p le = tt
  IsPending-weaken a b ((ds, id) ∷ stack) h (less, empty, rest) le = (omega arith, empty, rest)

  module _ (names : Names) where
    unfoldable mutual
      -- A dictionary is complete for a delay.
      pub IsDone : Heap → ℕ → DelayStrategy → Type 0
      IsDone h id (additive_delay ds) =
          (ids : List ℕ) × ((h.node id).strategies ≡ some ids) × AreDone h ids ds
      IsDone h id d = h.node id ≡ new_node names d

      pub AreDone : Heap → List ℕ → Delays → Type 0
      AreDone h [] nil = Unit
      AreDone h (id ∷ ids) (cons d ds) = IsDone h id d × AreDone h ids ds
      AreDone h ids ds = ⊥

    abbrev pub StackDone : Heap → Stack → Type 0
    StackDone h [] = Unit
    StackDone h ((ds, id) ∷ stack) = IsDone h id (additive_delay ds) × StackDone h stack

    -- A delay is a sum, or its dictionary is the one that it starts with.
    pub data View : DelayStrategy → Type 0 where
      sum_of : (ds : Delays) → View (additive_delay ds)
      leaf_of :
          (d : DelayStrategy)
          → (pushed : (id : ℕ) (stack : Stack) → push d id stack ≡ stack)
          → (no_list : empty_list d ≡ none)
          → (done : (h : Heap) (id : ℕ) → IsDone h id d ↔ (h.node id ≡ new_node names d))
          → (plain : tree_to_dict names d ≡ delay_to_shallow_dict names d)
          → (single : nodes_of d ≡ 1) → (whole : delay_to_dict names d ≡ tree_to_dict names d)
          → View d

    pub view : (d : DelayStrategy) → View d
    unfolding IsDone tree_to_dict nodes_of delay_to_dict
    view (additive_delay ds) = sum_of ds
    view (fixed_delay s) =
        leaf_of _ (λ id stack. refl) refl (λ h id. ((λ e. e), (λ e. e))) refl refl refl
    view (linear_delay a b m) =
        leaf_of _ (λ id stack. refl) refl (λ h id. ((λ e. e), (λ e. e))) refl refl refl
    view (exponential_delay a b m) =
        leaf_of _ (λ id stack. refl) refl (λ h id. ((λ e. e), (λ e. e))) refl refl refl
    view (random_delay a b s) =
        leaf_of _ (λ id stack. refl) refl (λ h id. ((λ e. e), (λ e. e))) refl refl refl
    view (random_exponential_delay a b c m s) =
        leaf_of _ (λ id stack. refl) refl (λ h id. ((λ e. e), (λ e. e))) refl refl refl
    view (chain_delay a l) =
        leaf_of _ (λ id stack. refl) refl (λ h id. ((λ e. e), (λ e. e))) refl refl refl
    view (custom_delay f) =
        leaf_of _ (λ id stack. refl) refl (λ h id. ((λ e. e), (λ e. e))) refl refl refl
    view (stateful_custom_delay f) =
        leaf_of _ (λ id stack. refl) refl (λ h id. ((λ e. e), (λ e. e))) refl refl refl
    view (user_delay f) =
        leaf_of _ (λ id stack. refl) refl (λ h id. ((λ e. e), (λ e. e))) refl refl refl

    module _ (parent : ℕ) (d : DelayStrategy) (h : Heap) (old : parent < h.next) where
      pub adopted_other :
          (i : ℕ) → i < h.next → i ≢ parent → (adopt names parent d h).node i ≡ h.node i
      unfolding adopt
      adopted_other i less other =
          rw (test_false i h.next (λ e. omega (arith, e)), test_false i parent other) refl

      pub adopted_new : (adopt names parent d h).node h.next ≡ new_node names d
      unfolding adopt
      adopted_new = rw (==_refl h.next) refl

      pub adopted_parent :
          (olds : List ℕ)
          → (h.node parent).strategies ≡ some olds
          → ((adopt names parent d h).node parent).strategies ≡ some (olds ++ (h.next ∷ []))
      unfolding adopt
      adopted_parent olds e =
          rw (test_false parent h.next (λ e. omega (arith, e)), ==_refl parent, e) refl

      pub IsPending-adopt :
          (bound : ℕ) (stack : Stack)
          → bound ≤ h.next
          → Absent parent stack
          → IsPending bound stack h
          → IsPending bound stack (adopt names parent d h)
      IsPending-adopt bound [] le absent p = tt
      IsPending-adopt bound ((ds, id) ∷ stack) le (other, absent) (less, empty, rest) = (
        less,
        ap (λ n. n.strategies) (adopted_other id (omega arith) (λ e. other (sym e))) ∙ empty,
        IsPending-adopt id stack (omega arith) absent rest,
      )
