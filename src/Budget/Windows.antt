-- ===== src/Budget/Windows.antt =====
-- The limit of RetryBudget (src/relinker/budget.py): how many of the reservations of one key that the
-- object keeps there are in a rolling window of length `per`.
use Prim.Native.String.{String}
use relinker.Prelude.{
  ℕ, ◌<◌, ◌≤◌, ◌≡◌, refl, inl, inr, Bool, true, Option, none, some, List, [], ◌∷◌, ◌++◌, map,
  count_if, count_if-append, count_if-map-keep_if-le, arith,
}
use mathlib.Core.List.{map-append}
use relinker.Python.{Python, FloatLaws, Float, ◌<F◌, ◌-F◌, float_max, return}
use relinker.Dict.{
  lookup, insert, lookup-nil, HasDistinctKeys, lookup-insert, lookup-erase, insert-HasDistinctKeys,
  erase-HasDistinctKeys,
}
use relinker.Budget.{
  RetryReservation, RetryBudget, new_budget, reservations_of, prune, cleanup, maybe_cleanup,
  reserve_slot, drop_token, store_or_pop, release_from, release, snapshot_found, snapshot,
  snapshot_view, reserve, RetryBudgetSnapshot,
}
use relinker.Budget.Slots.{sorted, first_legal_slot}
use relinker.Budget.Slots.Order.{in_window, sorted-IsSorted, count_if-sorted}
use relinker.Budget.Slots.Legal.{IsWithin, first_legal_slot-IsWithin}
use relinker.Budget.Table.{
  reservations_of-cleanup_expired_keys, cleanup_expired_keys-HasDistinctKeys,
  reservations_of-maybe_cleanup, maybe_cleanup-HasDistinctKeys, maybe_cleanup_fields,
}

module _ ⦃py : Python⦄ where
  abbrev pub times : List RetryReservation → List Float
  times rs = map (λ r. r.scheduled_at) rs

  -- No rolling window of one key's reservations is overfull.
  abbrev pub HoldsLimit : RetryBudget → List RetryReservation → Type 0
  HoldsLimit b rs = IsWithin b.max_retries b.per (times rs)

  pub record IsValid (b : RetryBudget) : Type 0 where
    pub positive : 0 < b.max_retries
    pub finite : py.is_finite b.per ≡ true
    pub distinct : HasDistinctKeys b.reservations
    pub within : (k : String) → HoldsLimit b (reservations_of b k)

  drop_token-count :
      (p : Float → Bool) (token : ℕ) (rs : List RetryReservation)
      → count_if p (times (drop_token token rs)) ≤ count_if p (times rs)
  unfolding drop_token
  drop_token-count p token [] = omega arith
  drop_token-count p token (r ∷ rs) = ground (arith, drop_token-count p token rs)

  -- A new budget holds its limit.
  pub new_budget-IsValid :
      (max_retries : ℕ) (per : Float) {b : RetryBudget}
      → new_budget max_retries per ≡ return b
      → IsValid b
  unfolding new_budget reservations_of
  new_budget-IsValid max_retries per {b} h =
      let empty : b.reservations ≡ [] = ground arith in
      record {
        positive = ground arith;
        finite = ground arith;
        distinct = rw empty tt;
        within = λ k w. ground (arith, empty, lookup-nil {V = List RetryReservation} k);
      }

  -- The methods that only take reservations away.
  pub maybe_cleanup-IsValid :
      (b : RetryBudget) (now : Float) → IsValid b → IsValid (maybe_cleanup b now)
  unfolding reservations_of
  maybe_cleanup-IsValid b now v =
      let (same_max, same_per, _) = maybe_cleanup_fields b now in
      record {
        positive = rw same_max v.positive;
        finite = rw same_per v.finite;
        distinct = maybe_cleanup-HasDistinctKeys b now v.distinct;
        within = λ k w.
            rw (same_max, same_per)
              (elim (reservations_of-maybe_cleanup b now v.distinct k) [
                | inl same ↦ rw same (v.within k w)
                | inr (gone, _) ↦ rw gone (omega arith)
              ]);
      }

  prune-HoldsLimit :
      (b : RetryBudget) (rs : List RetryReservation) (now : Float)
      → HoldsLimit b rs
      → HoldsLimit b (prune b.per rs now)
  unfolding prune
  prune-HoldsLimit b rs now h w =
      let q = λ (r : RetryReservation). (now -F b.per) <F r.scheduled_at in
      omega
        (arith, count_if-map-keep_if-le (in_window (w -F b.per) w) (λ r. r.scheduled_at) q rs, h w)

  store_IsValid :
      (b : RetryBudget) (key : String) (rs : List RetryReservation) (n : ℕ)
      → IsValid b
      → HoldsLimit b rs
      → IsValid (record b { reservations = insert key rs b.reservations; next_token = n })
  unfolding reservations_of
  store_IsValid b key rs n v h = record {
    positive = v.positive;
    finite = v.finite;
    distinct = insert-HasDistinctKeys key rs b.reservations v.distinct;
    within = λ k w. ground (arith, lookup-insert key k rs b.reservations, v.within k w, h w);
  }

  store_or_pop-IsValid :
      (b : RetryBudget) (key : String) (rs : List RetryReservation)
      → IsValid b
      → HoldsLimit b rs
      → IsValid (record b { reservations = store_or_pop key rs b.reservations })
  unfolding store_or_pop reservations_of
  store_or_pop-IsValid b key [] v h = record {
    positive = v.positive;
    finite = v.finite;
    distinct = erase-HasDistinctKeys key b.reservations v.distinct;
    within = λ k w. ground (arith, lookup-erase key k b.reservations, v.within k w);
  }
  store_or_pop-IsValid b key (r ∷ rs) v h = store_IsValid b key (r ∷ rs) b.next_token v h

  -- Adding the slot that is found keeps the limit.
  reserved_HoldsLimit :
      (laws : FloatLaws py) (b : RetryBudget) (kept : List RetryReservation) (earliest : Float)
      (token : ℕ) (key : String)
      → 0 < b.max_retries
      → py.is_finite b.per ≡ true
      → HoldsLimit b kept
      → HoldsLimit b (
          kept
          ++ (record {
            token = token;
            key = key;
            scheduled_at = first_legal_slot b.max_retries b.per (sorted (times kept)) earliest;
          }
              ∷ []))
  reserved_HoldsLimit laws b kept earliest token key pos finite h w =
      let slots = sorted (times kept) in
      let p = in_window (w -F b.per) w in
      let slots_within : IsWithin b.max_retries b.per slots =
        λ u. omega (arith, count_if-sorted (in_window (u -F b.per) u) (times kept), h u) in
      let safe =
        first_legal_slot-IsWithin laws b.max_retries b.per finite slots earliest pos
          (sorted-IsSorted laws (times kept)) slots_within w in
      rw (map-append, count_if-append) (omega (arith, safe, count_if-sorted p (times kept)))

  -- A reservation overfills no window, whenever it is asked for.
  pub reserve_slot-IsValid :
      (laws : FloatLaws py) (b : RetryBudget) (key : String) (now not_before : Float)
      → IsValid b
      → IsValid (reserve_slot b key now not_before).1
  unfolding reserve_slot
  reserve_slot-IsValid laws b key now not_before v =
      let cleaned = maybe_cleanup b now in
      let u = maybe_cleanup-IsValid b now v in
      let kept = prune cleaned.per (reservations_of cleaned key) now in
      store_IsValid cleaned key _ _ u (
        reserved_HoldsLimit laws cleaned kept (float_max now not_before) cleaned.next_token key
          u.positive u.finite (prune-HoldsLimit cleaned _ now (u.within key)))

  release_from-IsValid :
      (b : RetryBudget) (r : RetryReservation) (rs : List RetryReservation)
      → IsValid b
      → HoldsLimit b rs
      → IsValid (release_from b r rs)
  unfolding release_from
  release_from-IsValid b r [] v h = v
  release_from-IsValid b r (x ∷ xs) v h =
      store_or_pop-IsValid b r.key (drop_token r.token (x ∷ xs)) v
        (λ w. omega (arith, drop_token-count (in_window (w -F b.per) w) r.token (x ∷ xs), h w))

  -- Releasing a reservation keeps the limit.
  pub release-IsValid :
      (b : RetryBudget) (r : RetryReservation) (now : Float) → IsValid b → IsValid (release b r now)
  unfolding release
  release-IsValid b r now v =
      let u = maybe_cleanup-IsValid b now v in
      release_from-IsValid (maybe_cleanup b now) r _ u (u.within r.key)

  snapshot_found-IsValid :
      (b : RetryBudget) (key : String) (now : Float) (found : Option (List RetryReservation))
      → IsValid b
      → lookup key b.reservations ≡ found
      → IsValid (snapshot_found b key now found).1
  unfolding snapshot_found reservations_of
  snapshot_found-IsValid b key now none v e = v
  snapshot_found-IsValid b key now (some rs) v e =
      store_IsValid b key _ b.next_token v
        (prune-HoldsLimit b rs now (λ w. ground (arith, v.within key w)))

  -- Reading a snapshot, which prunes, keeps the limit.
  pub snapshot_view-IsValid :
      (b : RetryBudget) (key : String) (now : Float)
      → IsValid b
      → IsValid (snapshot_view b key now).1
  unfolding snapshot_view
  snapshot_view-IsValid b key now v =
      snapshot_found-IsValid (maybe_cleanup b now) key now _ (maybe_cleanup-IsValid b now v) refl

  cleanup-IsValid : (b : RetryBudget) (now : Float) → IsValid b → IsValid (cleanup b now)
  unfolding cleanup reservations_of
  cleanup-IsValid b now v = record {
    positive = v.positive;
    finite = v.finite;
    distinct = cleanup_expired_keys-HasDistinctKeys b now v.distinct;
    within = λ k w. elim (reservations_of-cleanup_expired_keys b now k v.distinct) [
      | inl same ↦ rw same (v.within k w)
      | inr (gone, _) ↦ rw gone (omega arith)
    ];
  }

  -- What the threads that share a budget do to it, one lock-guarded call after another, at clock
  -- readings and for reservations that are arbitrary.
  pub data Call : RetryBudget → RetryBudget → Type 0 where
    reserved :
        (b : RetryBudget) (key : String) (now not_before : Float) {r : RetryReservation}
        {after : RetryBudget}
        → reserve b key now not_before ≡ return (r, after)
        → Call b after
    released : (b : RetryBudget) (r : RetryReservation) (now : Float) → Call b (release b r now)
    cleaned : (b : RetryBudget) (now : Float) → Call b (cleanup b now)
    viewed :
        (b : RetryBudget) (key : String) (now : Float) {view : RetryBudgetSnapshot}
        {after : RetryBudget}
        → snapshot b key now ≡ return (view, after)
        → Call b after

  -- The budgets that calls lead to from a newly constructed one.
  pub data Reachable (max_retries : ℕ) (per : Float) : RetryBudget → Type 0 where
    made : {b : RetryBudget} → new_budget max_retries per ≡ return b → Reachable max_retries per b
    next :
        {b c : RetryBudget} → Reachable max_retries per b → Call b c → Reachable max_retries per c

  Call-IsValid : (laws : FloatLaws py) {b c : RetryBudget} → Call b c → IsValid b → IsValid c
  unfolding reserve snapshot
  Call-IsValid laws (reserved b key now not_before {r} {after} e) v =
      let same : after ≡ (reserve_slot b key now not_before).1 = ground arith in
      rw same (reserve_slot-IsValid laws b key now not_before v)
  Call-IsValid laws (released b r now) v = release-IsValid b r now v
  Call-IsValid laws (cleaned b now) v = cleanup-IsValid b now v
  Call-IsValid laws (viewed b key now {view} {after} e) v =
      let same : after ≡ (snapshot_view b key now).1 = ground arith in
      rw same (snapshot_view-IsValid b key now v)

  -- Whatever calls are made on a RetryBudget, in whatever order and at whatever clock readings, no
  -- rolling window of length `per` holds more than `max_retries` of the reservations of one key that
  -- the object keeps.
  pub Reachable-IsValid :
      (laws : FloatLaws py) {max_retries : ℕ} {per : Float} {b : RetryBudget}
      → Reachable max_retries per b
      → IsValid b
  Reachable-IsValid laws {max_retries} {per} (made e) = new_budget-IsValid max_retries per e
  Reachable-IsValid laws (next r call) = Call-IsValid laws call (Reachable-IsValid laws r)
