-- ===== src/Serialization/Delays/Filled.antt =====
-- The heap that the loop of `_delay_to_dict` leaves, as a reader sees it.
use relinker.Prelude.{ℕ, zero, suc, ◌≤◌, ◌<◌, ◌≡◌, refl, List, [], ◌∷◌, map, arith}
use relinker.Python.{Python}
use relinker.Delay.{DelayStrategy, additive_delay, Delays, nil, cons}
use relinker.Delay.Walk.{nodes_of, nodes_of_all}
use relinker.Serialization.{Names}
use relinker.Serialization.Delays.{
  Heap, root_heap, read, delay_to_dict, tree_to_dict, trees_to_dicts,
}
use relinker.Serialization.Delays.Pending.{IsDone, AreDone, view, View, sum_of, leaf_of}
use relinker.Serialization.Delays.Adopted.{fills}

module _ ⦃py : Python⦄ (names : Names) where
  abbrev Reads : ℕ → Type 0
  Reads depth =
      (d : DelayStrategy) (h : Heap) (id : ℕ)
      → nodes_of d ≤ depth
      → IsDone names h id d
      → read depth h id ≡ tree_to_dict names d

  Reads-all :
      (depth : ℕ) (ds : Delays) (h : Heap) (ids : List ℕ)
      → Reads depth
      → nodes_of_all ds ≤ depth
      → AreDone names h ids ds
      → map (read depth h) ids ≡ trees_to_dicts names ds
  unfolding IsDone nodes_of trees_to_dicts
  Reads-all depth nil h [] reads le done = refl
  Reads-all depth nil h (id ∷ ids) reads le done = absurd done
  Reads-all depth (cons d ds) h [] reads le done = absurd done
  Reads-all depth (cons d ds) h (id ∷ ids) reads le (first, rest) =
      rw (reads d h id (omega arith) first, Reads-all depth ds h ids reads (omega arith) rest) refl

  nodes_positive : (d : DelayStrategy) → View names d → 0 < nodes_of d
  unfolding nodes_of
  nodes_positive _ (sum_of ds) = omega arith
  nodes_positive _ (leaf_of d unpushed no_list complete plain single whole) = omega (arith, single)

  Reads-view :
      (depth : ℕ) (d : DelayStrategy)
      → View names d
      → Reads depth
      → (h : Heap) (id : ℕ) → nodes_of d ≤ suc depth
      → IsDone names h id d
      → read (suc depth) h id ≡ tree_to_dict names d
  unfolding read tree_to_dict IsDone nodes_of
  Reads-view depth _ (sum_of ds) reads h id le (ids, listed, each) =
      rw (listed, Reads-all depth ds h ids reads (omega arith) each) refl
  Reads-view depth _ (leaf_of d unpushed no_list complete plain single whole) reads h id le done =
      rw ((complete h id).0 done, no_list, plain) refl

  read_done : (depth : ℕ) → Reads depth
  read_done zero d h id le done = absurd (omega (arith, nodes_positive d (view names d)))
  read_done (suc depth) d h id le done =
      Reads-view depth d (view names d) (read_done depth) h id le done

  view_dict : (d : DelayStrategy) → View names d → delay_to_dict names d ≡ tree_to_dict names d
  unfolding delay_to_dict nodes_of
  view_dict _ (leaf_of d unpushed no_list complete plain single whole) = whole
  view_dict _ (sum_of ds) =
      let d = additive_delay ds in
      let filled =
        fills names (nodes_of d) ((ds, 0) ∷ []) (root_heap names d) (omega arith)
          (omega arith, refl, tt) in
      read_done (nodes_of d) d _ 0 (omega arith) filled.done.0

  -- The loop that fills the dictionaries of nested delays in place leaves, at the root, the
  -- dictionary that recursion over the delays makes, whatever their nesting; its fuel suffices.
  pub delay_to_dict-tree_to_dict :
      (d : DelayStrategy) → delay_to_dict names d ≡ tree_to_dict names d
  delay_to_dict-tree_to_dict d = view_dict d (view names d)
