-- ===== src/Budget/Table.antt =====
-- The table of deques behind the class RetryBudget of src/relinker/budget.py: what the amortised
-- cleanup leaves of the deque of a key.
use Prim.Native.String.{String}
use relinker.Prelude.{
  ◌≡◌, ◌⊎◌, refl, sym, inl, inr, true, List, [], ◌∷◌, Bool-cases, arith, leb, ◌+◌,
}
use relinker.Python.{Python, FloatLaws, Float, ◌-F◌}
use relinker.Dict.{
  HasDistinctKeys, keys_where, contains-keys_where, lookup-erase_keys, erase_keys-HasDistinctKeys,
}
use relinker.Budget.{
  RetryReservation, RetryBudget, reservations_of, prune, is_expired, cleanup_expired_keys,
  maybe_cleanup, cleanup_interval,
}

module _ ⦃py : Python⦄ where
  -- A deque that is wholly expired goes, and any other stays.
  pub reservations_of-cleanup_expired_keys :
      (b : RetryBudget) (now : Float) (k : String)
      → HasDistinctKeys b.reservations
      → (reservations_of (cleanup_expired_keys b now) k ≡ reservations_of b k)
        ⊎ ((reservations_of (cleanup_expired_keys b now) k ≡ [])
            × (is_expired (now -F b.per) (reservations_of b k) ≡ true))
  unfolding reservations_of cleanup_expired_keys
  reservations_of-cleanup_expired_keys b now k distinct =
      let p = is_expired (now -F b.per) in
      ground (
        arith,
        lookup-erase_keys (keys_where p b.reservations) k b.reservations,
        contains-keys_where p k b.reservations distinct,
      )

  pub cleanup_expired_keys-HasDistinctKeys :
      (b : RetryBudget) (now : Float)
      → HasDistinctKeys b.reservations
      → HasDistinctKeys (cleanup_expired_keys b now).reservations
  unfolding cleanup_expired_keys
  cleanup_expired_keys-HasDistinctKeys b now distinct =
      erase_keys-HasDistinctKeys _ b.reservations distinct

  module _ (b : RetryBudget) (now : Float) (distinct : HasDistinctKeys b.reservations) where
    pub reservations_of-maybe_cleanup :
        (k : String)
        → (reservations_of (maybe_cleanup b now) k ≡ reservations_of b k)
          ⊎ ((reservations_of (maybe_cleanup b now) k ≡ [])
              × (is_expired (now -F b.per) (reservations_of b k) ≡ true))
    unfolding maybe_cleanup reservations_of
    reservations_of-maybe_cleanup k = elim (Bool-cases (leb cleanup_interval (b.op_count + 1))) [
      | inl due ↦
          rw due (reservations_of-cleanup_expired_keys (record b { op_count = 0 }) now k distinct)
      | inr not_due ↦ rw not_due (inl refl)
    ]

    pub maybe_cleanup-HasDistinctKeys : HasDistinctKeys (maybe_cleanup b now).reservations
    unfolding maybe_cleanup
    maybe_cleanup-HasDistinctKeys = elim (Bool-cases (leb cleanup_interval (b.op_count + 1))) [
      | inl due ↦
          rw due (cleanup_expired_keys-HasDistinctKeys (record b { op_count = 0 }) now distinct)
      | inr not_due ↦ rw not_due distinct
    ]

  -- The cleanup changes neither the limit nor the tokens.
  pub maybe_cleanup_fields :
      (b : RetryBudget) (now : Float)
      → ((maybe_cleanup b now).max_retries ≡ b.max_retries)
        × ((maybe_cleanup b now).per ≡ b.per)
        × ((maybe_cleanup b now).next_token ≡ b.next_token)
  unfolding maybe_cleanup cleanup_expired_keys
  maybe_cleanup_fields b now = ground arith

  module _ (laws : FloatLaws py) where
    -- Pruning a deque that is wholly expired leaves nothing.
    pub prune-expired :
        (per now : Float) (rs : List RetryReservation)
        → is_expired (now -F per) rs ≡ true
        → prune per rs now ≡ []
    unfolding prune is_expired
    prune-expired per now [] h = refl
    prune-expired per now (r ∷ rs) h =
        ground (arith, prune-expired per now rs, laws.lt_not_le (now -F per) r.scheduled_at)

    -- The amortised cleanup cannot be seen behind the pruning that every method does, in a table
    -- whose keys are distinct.
    pub prune-maybe_cleanup :
        (b : RetryBudget) (now : Float) (k : String)
        → HasDistinctKeys b.reservations
        → prune b.per (reservations_of (maybe_cleanup b now) k) now
          ≡ prune b.per (reservations_of b k) now
    unfolding prune
    prune-maybe_cleanup b now k distinct = elim (reservations_of-maybe_cleanup b now distinct k) [
      | inl same ↦ rw same refl
      | inr (gone, expired) ↦ rw gone (sym (prune-expired b.per now (reservations_of b k) expired))
    ]
