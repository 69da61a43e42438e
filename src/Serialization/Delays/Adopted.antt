-- ===== src/Serialization/Delays/Adopted.antt =====
-- What a round of the loop of `_delay_to_dict` does to the heap, and all of them.
use relinker.Prelude.{
  ℕ, zero, suc, ◌+◌, ◌≤◌, ◌<◌, ◌≡◌, ◌≢◌, refl, ap, ◌∙◌, some, List, [], ◌∷◌, ◌++◌, arith,
}
use mathlib.Core.Path.{subst}
use relinker.Python.{Python}
use relinker.Delay.{DelayStrategy, Delays, nil, cons}
use relinker.Delay.Walk.{nodes_of, nodes_of_all}
use relinker.Serialization.{Names}
use relinker.Serialization.Delays.{Heap, Stack, push, new_node, adopt, adopt_all, fill}
use relinker.Serialization.Delays.Pending.{
  IsDone, AreDone, Absent, IsPending, StackDone, rounds, IsPending-Absent, IsPending-weaken, view,
  adopted_other, adopted_new, adopted_parent, IsPending-adopt, View, sum_of, leaf_of,
}

module _ ⦃py : Python⦄ (names : Names) where
  record Adopted (ds : Delays) (id : ℕ) (olds : List ℕ) (stack : Stack) (h final : Heap)
      : Type 0 where
    kept : (i : ℕ) → i < h.next → i ≢ id → Absent i stack → final.node i ≡ h.node i
    done : StackDone names final stack
    ids : List ℕ
    listed : (final.node id).strategies ≡ some (olds ++ ids)
    each : AreDone names final ids ds

  pub record Filled (stack : Stack) (h final : Heap) : Type 0 where
    kept : (i : ℕ) → i < h.next → Absent i stack → final.node i ≡ h.node i
    pub done : StackDone names final stack

  abbrev after : ℕ → Stack × Heap → Heap
  after fuel (stack, h) = fill names fuel stack h

  abbrev pub Fills : ℕ → Type 0
  Fills fuel =
      (stack : Stack) (h : Heap)
      → rounds stack ≤ fuel
      → IsPending h.next stack h
      → Filled stack h (fill names fuel stack h)

  snoc-++ :
      (olds : List ℕ) (id : ℕ) (ids : List ℕ) → ((olds ++ (id ∷ [])) ++ ids) ≡ (olds ++ (id ∷ ids))
  snoc-++ [] id ids = refl
  snoc-++ (x ∷ olds) id ids = ap (λ l. x ∷ l) (snoc-++ olds id ids)

  ++_nil : (olds : List ℕ) → (olds ++ []) ≡ olds
  ++_nil [] = refl
  ++_nil (x ∷ olds) = ap (λ l. x ∷ l) (++_nil olds)

  abbrev Adopts : ℕ → Delays → Type 0
  Adopts fuel ds =
      (id : ℕ) (olds : List ℕ) (stack : Stack) (h : Heap)
      → (h.node id).strategies ≡ some olds
      → id < h.next
      → Absent id stack
      → IsPending h.next stack h
      → nodes_of_all ds + rounds stack ≤ fuel
      → Adopted ds id olds stack h (after fuel (adopt_all names ds id stack h))

  Adopts-nil : (fuel : ℕ) → Fills fuel → Adopts fuel nil
  unfolding adopt_all IsDone nodes_of_all
  Adopts-nil fuel fills id olds stack h e less absent p le =
      let filled = fills stack h (omega (arith, le)) p in
      record {
        kept = λ i lower other gone. filled.kept i lower gone;
        done = filled.done;
        ids = [];
        listed = rw (++_nil olds) (ap (λ n. n.strategies) (filled.kept id less absent) ∙ e);
        each = tt;
      }

  -- What the loop relies on once it has appended the child at an identity.
  record Pushed (d : DelayStrategy) (c : ℕ) (stack : Stack) (h : Heap) : Type 0 where
    absent : (i : ℕ) → i ≢ c → Absent i stack → Absent i (push d c stack)
    pending : IsPending (c + 1) (push d c stack) h
    counted : rounds (push d c stack) ≤ nodes_of d + rounds stack
    child :
        (final : Heap)
        → (Absent c (push d c stack) → final.node c ≡ new_node names d)
        → StackDone names final (push d c stack)
        → IsDone names final c d × StackDone names final stack

  pushed :
      (d : DelayStrategy) (c : ℕ) (stack : Stack) (h : Heap)
      → View names d
      → IsPending c stack h
      → h.node c ≡ new_node names d
      → Pushed d c stack h
  unfolding nodes_of
  pushed _ c stack h (sum_of parts) p e = record {
    absent = λ i other gone. (other, gone);
    pending = (omega arith, ap (λ n. n.strategies) e, p);
    counted = omega arith;
    child = λ final kept done. done;
  }
  pushed _ c stack h (leaf_of d unpushed no_list complete plain single whole) p e = record {
    absent = λ i other gone. rw (unpushed c stack) gone;
    pending = rw (unpushed c stack) (IsPending-weaken c (c + 1) stack h p (omega arith));
    counted = rw (unpushed c stack) (omega arith);
    child = λ final kept done. (
      (complete final c).1
          (kept (rw (unpushed c stack) (IsPending-Absent c c stack h p (omega arith)))),
      subst (StackDone names final) (unpushed c stack) done,
    );
  }

  Adopts-cons :
      (fuel : ℕ) (d : DelayStrategy) (ds : Delays) → Adopts fuel ds → Adopts fuel (cons d ds)
  unfolding adopt adopt_all IsDone nodes_of_all
  Adopts-cons fuel d ds rest id olds stack h e less absent p le =
      let c = h.next in
      let h' = adopt names id d h in
      let child =
        pushed d c stack h' (view names d)
          (IsPending-adopt names id d h less c stack (omega arith) absent p)
          (adopted_new names id d h less) in
      let adopted =
        rest id (olds ++ (c ∷ [])) (push d c stack) h' (adopted_parent names id d h less olds e)
          (omega arith) (child.absent id (λ e. omega (arith, e)) absent) child.pending
          (omega (arith, child.counted, le)) in
      let final = after fuel (adopt_all names ds id (push d c stack) h') in
      let finished =
        child.child final
          (λ gone.
            adopted.kept c (omega arith) (λ e. absurd (omega (arith, e))) gone
            ∙ adopted_new names id d h less)
          adopted.done in
      record {
        kept = λ i lower other gone.
            adopted.kept i (omega arith) other
              (child.absent i (λ e. absurd (omega (arith, e))) gone)
            ∙ adopted_other names id d h less i lower other;
        done = finished.1;
        ids = c ∷ adopted.ids;
        listed = adopted.listed ∙ ap some (snoc-++ olds c adopted.ids);
        each = (finished.0, adopted.each);
      }

  adopts : (fuel : ℕ) → Fills fuel → (ds : Delays) → Adopts fuel ds
  adopts fuel fills nil = Adopts-nil fuel fills
  adopts fuel fills (cons d ds) = Adopts-cons fuel d ds (adopts fuel fills ds)

  pub fills : (fuel : ℕ) → Fills fuel
  unfolding fill IsDone
  fills zero [] h le p = record { kept = λ i lower gone. refl; done = tt }
  fills (suc fuel) [] h le p = record { kept = λ i lower gone. refl; done = tt }
  fills zero ((ds, id) ∷ stack) h le p = absurd (omega arith)
  fills (suc fuel) ((ds, id) ∷ stack) h le (less, empty, p) =
      let adopted =
        adopts fuel (fills fuel) ds id [] stack h empty less
          (IsPending-Absent id id stack h p (omega arith))
          (IsPending-weaken id h.next stack h p (omega arith)) (omega arith) in
      record {
        kept = λ i lower gone. adopted.kept i lower gone.0 gone.1;
        done = ((adopted.ids, adopted.listed, adopted.each), adopted.done);
      }
