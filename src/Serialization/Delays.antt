-- ===== src/Serialization/Delays.antt =====
-- `_delay_to_dict` of src/relinker/internal/policy_serialization.py: dictionaries of nested delays,
-- which a loop over a stack fills in place.
pub mod Pending
pub mod Adopted
pub mod Filled
use relinker.Prelude.{
  ℕ, zero, suc, ◌+◌, Option, none, some, List, [], ◌∷◌, ◌++◌, map, ◌==◌, if◌then◌else◌,
}
use relinker.Python.{Python}
use relinker.Delay.{
  DelayStrategy, fixed_delay, linear_delay, exponential_delay, random_delay,
  random_exponential_delay, chain_delay, additive_delay, custom_delay, stateful_custom_delay,
  user_delay, Delays, nil, cons,
}
use relinker.Delay.Walk.{nodes_of}
use relinker.Serialization.{Json, json_null, json_text, json_list, dict, items_of, Names}
use relinker.Serialization.Policies.{delay_to_shallow_dict}

module _ ⦃py : Python⦄ where
  -- A dictionary that was made: what it was made as, and for an additive delay the list under
  -- "strategies", which holds other dictionaries by their identity.
  pub record Node : Type 0 where
    pub made_as : Json
    pub strategies : Option (List ℕ)

  -- The dictionaries by their identity, and the identity of the next one.
  pub record Heap : Type 0 where
    pub next : ℕ
    pub node : ℕ → Node

  -- The additive delays whose dictionaries are still to be filled.
  abbrev pub Stack : Type 0
  Stack = List (Delays × ℕ)

  -- `if isinstance(child, AdditiveDelay): stack.append((child, child_data))`
  abbrev pub push : DelayStrategy → ℕ → Stack → Stack
  push (additive_delay ds) id stack = (ds, id) ∷ stack
  push _ id stack = stack

  abbrev pub empty_list : DelayStrategy → Option (List ℕ)
  empty_list (additive_delay ds) = some []
  empty_list _ = none

  abbrev pub appended : ℕ → Option (List ℕ) → Option (List ℕ)
  appended id none = none
  appended id (some ids) = some (ids ++ (id ∷ []))

  module _ (names : Names) where
    abbrev pub new_node : DelayStrategy → Node
    new_node d = record { made_as = delay_to_shallow_dict names d; strategies = empty_list d }

    -- `child_data = _delay_to_shallow_dict(child)` and `child_data_list.append(child_data)`
    unfoldable pub adopt : ℕ → DelayStrategy → Heap → Heap
    adopt parent d h = record {
      next = h.next + 1;
      node = λ i.
          if i == h.next
          then new_node d
          else if i == parent
          then record (h.node i) { strategies = appended h.next (h.node i).strategies }
          else h.node i;
    }

    -- The `for` loop over the parts of one delay.
    unfoldable pub adopt_all : Delays → ℕ → Stack → Heap → Stack × Heap
    adopt_all nil parent stack h = (stack, h)
    adopt_all (cons d ds) parent stack h =
        adopt_all ds parent (push d h.next stack) (adopt parent d h)

    -- `while stack`, on fuel.
    unfoldable pub fill : ℕ → Stack → Heap → Heap
    fill fuel [] h = h
    fill zero (frame ∷ stack) h = h
    fill (suc fuel) ((ds, id) ∷ stack) h =
        let (stack', h') = adopt_all ds id stack h in fill fuel stack' h'

    -- The heap with nothing in it but the root.
    abbrev pub root_heap : DelayStrategy → Heap
    root_heap d = record { next = 1; node = λ i. new_node d }

  abbrev additive_json : List Json → Json
  additive_json parts =
      dict (("type", json_text "additive") ∷ ("strategies", json_list (items_of parts)) ∷ [])

  abbrev shown : (ℕ → Json) → Json → Option (List ℕ) → Json
  shown see made none = made
  shown see made (some ids) = additive_json (map see ids)

  -- What a reader sees at an identity, that many dictionaries deep.
  unfoldable pub read : ℕ → Heap → ℕ → Json
  read zero h id = json_null
  read (suc depth) h id = shown (read depth h) (h.node id).made_as (h.node id).strategies

  unfoldable pub delay_to_dict : Names → DelayStrategy → Json
  delay_to_dict names (additive_delay ds) =
      let d = additive_delay ds in
      read (nodes_of d) (fill names (nodes_of d) ((ds, 0) ∷ []) (root_heap names d)) 0
  delay_to_dict names d = delay_to_shallow_dict names d

  unfoldable mutual
    -- The dictionary that recursion over the delays makes.
    pub tree_to_dict : Names → DelayStrategy → Json
    tree_to_dict names (additive_delay ds) = additive_json (trees_to_dicts names ds)
    tree_to_dict names d = delay_to_shallow_dict names d

    pub trees_to_dicts : Names → Delays → List Json
    trees_to_dicts names nil = []
    trees_to_dicts names (cons d ds) = tree_to_dict names d ∷ trees_to_dicts names ds
