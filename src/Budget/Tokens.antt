-- ===== src/Budget/Tokens.antt =====
-- The tokens by which `_release` of src/relinker/budget.py finds a reservation.
use Prim.Native.String.{String}
use text.Mathlib.Text.{◌==◌ as str_eq}
use relinker.Prelude.{
  ℕ, ◌+◌, ◌<◌, ◌≡◌, refl, inl, inr, Bool, Option, none, some, List, [], ◌∷◌, ◌++◌, keep_if,
  if◌then◌else◌, Bool-cases, arith,
}
use relinker.Python.{Python, FloatLaws, Float, return}
use relinker.Dict.{lookup, lookup-nil, HasDistinctKeys}
use relinker.Budget.{
  RetryReservation, RetryBudget, new_budget, reservations_of, prune, maybe_cleanup, cleanup,
  reserve, reserve_slot, drop_token, release_from, release, snapshot_found, snapshot_view, snapshot,
}
use relinker.Budget.Table.{
  reservations_of-maybe_cleanup, reservations_of-cleanup_expired_keys, maybe_cleanup_fields,
}
use relinker.Budget.Release.{AreTokensBelow, store_lem, release_from_lem}
use relinker.Budget.Windows.{
  Call, reserved, released, cleaned, viewed, Reachable, made, next, Reachable-IsValid,
}

module _ ⦃py : Python⦄ where
  abbrev pub AreTokensAbove : ℕ → List RetryReservation → Type 0
  AreTokensAbove n [] = Unit
  AreTokensAbove n (r ∷ rs) = (n < r.token) × AreTokensAbove n rs

  -- The tokens were handed out before `n`, each after the ones in front of it.
  abbrev pub AreFresh : ℕ → List RetryReservation → Type 0
  AreFresh n [] = Unit
  AreFresh n (r ∷ rs) = (r.token < n) × AreTokensAbove r.token rs × AreFresh n rs

  -- Every key's tokens are told apart, and differ from the ones to come.
  pub record HasFreshTokens (b : RetryBudget) : Type 0 where
    pub fresh : (k : String) → AreFresh b.next_token (reservations_of b k)

  pub AreFresh-AreTokensBelow :
      (n : ℕ) (rs : List RetryReservation) → AreFresh n rs → AreTokensBelow n rs
  AreFresh-AreTokensBelow n [] h = tt
  AreFresh-AreTokensBelow n (r ∷ rs) h = (h.0, AreFresh-AreTokensBelow n rs h.2)

  keep_if-above :
      (p : RetryReservation → Bool) (n : ℕ) (rs : List RetryReservation)
      → AreTokensAbove n rs
      → AreTokensAbove n (keep_if p rs)
  keep_if-above p n [] h = tt
  keep_if-above p n (r ∷ rs) h = ground (arith, keep_if-above p n rs h.1)

  keep_if-fresh :
      (p : RetryReservation → Bool) (n : ℕ) (rs : List RetryReservation)
      → AreFresh n rs
      → AreFresh n (keep_if p rs)
  keep_if-fresh p n [] h = tt
  keep_if-fresh p n (r ∷ rs) h =
      ground (arith, keep_if-fresh p n rs h.2, keep_if-above p r.token rs h.1)

  drop_token-above :
      (t n : ℕ) (rs : List RetryReservation)
      → AreTokensAbove n rs
      → AreTokensAbove n (drop_token t rs)
  unfolding drop_token
  drop_token-above t n [] h = tt
  drop_token-above t n (r ∷ rs) h = ground (arith, drop_token-above t n rs h.1)

  drop_token-fresh :
      (t n : ℕ) (rs : List RetryReservation) → AreFresh n rs → AreFresh n (drop_token t rs)
  unfolding drop_token
  drop_token-fresh t n [] h = tt
  drop_token-fresh t n (r ∷ rs) h =
      ground (arith, drop_token-fresh t n rs h.2, drop_token-above t r.token rs h.1)

  append-above :
      (n : ℕ) (rs : List RetryReservation) (r : RetryReservation)
      → AreTokensAbove n rs
      → n < r.token
      → AreTokensAbove n (rs ++ (r ∷ []))
  append-above n [] r h e = (e, tt)
  append-above n (x ∷ xs) r h e = (h.0, append-above n xs r h.1 e)

  append-fresh :
      (n : ℕ) (rs : List RetryReservation) (r : RetryReservation)
      → AreFresh n rs
      → r.token ≡ n
      → AreFresh (n + 1) (rs ++ (r ∷ []))
  append-fresh n [] r h e = (omega arith, tt, tt)
  append-fresh n (x ∷ xs) r h e =
      (omega arith, append-above x.token xs r h.1 (omega arith), append-fresh n xs r h.2 e)

  AreFresh-later : (n : ℕ) (rs : List RetryReservation) → AreFresh n rs → AreFresh (n + 1) rs
  AreFresh-later n [] h = tt
  AreFresh-later n (r ∷ rs) h = (omega arith, h.1, AreFresh-later n rs h.2)

  maybe_cleanup-fresh :
      (b : RetryBudget) (now : Float)
      → HasDistinctKeys b.reservations
      → HasFreshTokens b
      → HasFreshTokens (maybe_cleanup b now)
  maybe_cleanup-fresh b now distinct h = record {
    fresh = λ k. elim (reservations_of-maybe_cleanup b now distinct k) [
      | inl same ↦ rw (same, (maybe_cleanup_fields b now).2) (h.fresh k)
      | inr (gone, _) ↦ rw gone tt
    ];
  }

  cleanup-fresh :
      (b : RetryBudget) (now : Float)
      → HasDistinctKeys b.reservations
      → HasFreshTokens b
      → HasFreshTokens (cleanup b now)
  unfolding cleanup
  cleanup-fresh b now distinct h = record {
    fresh = λ k. elim (reservations_of-cleanup_expired_keys b now k distinct) [
      | inl same ↦ rw same (h.fresh k)
      | inr (gone, _) ↦ rw gone tt
    ];
  }

  -- A deque stored under a key, with the tokens of the others as they were.
  stored_fresh :
      (b : RetryBudget) (key : String) (rs : List RetryReservation) (n : ℕ)
      → AreFresh n rs
      → ((k : String) → AreFresh n (reservations_of b k))
      → (k : String) → AreFresh n (if str_eq key k then rs else reservations_of b k)
  stored_fresh b key rs n h others k = elim (Bool-cases (str_eq key k)) [
    | inl e ↦ rw e h
    | inr e ↦ rw e (others k)
  ]

  reserve_slot-fresh :
      (b : RetryBudget) (key : String) (now not_before : Float)
      → HasDistinctKeys b.reservations
      → HasFreshTokens b
      → HasFreshTokens (reserve_slot b key now not_before).1
  unfolding reserve_slot prune
  reserve_slot-fresh b key now not_before distinct h =
      let c = maybe_cleanup b now in
      let g = maybe_cleanup-fresh b now distinct h in
      record {
        fresh = λ k. rw (store_lem c key k _ (c.next_token + 1)) (
            stored_fresh c key _ (c.next_token + 1)
              (append-fresh c.next_token _ _ (keep_if-fresh _ c.next_token _ (g.fresh key)) refl)
              (λ k. AreFresh-later c.next_token _ (g.fresh k)) k);
      }

  release_from-next_token :
      (b : RetryBudget) (r : RetryReservation) (rs : List RetryReservation)
      → (release_from b r rs).next_token ≡ b.next_token
  unfolding release_from
  release_from-next_token b r [] = refl
  release_from-next_token b r (x ∷ xs) = refl

  release-fresh :
      (b : RetryBudget) (r : RetryReservation) (now : Float)
      → HasDistinctKeys b.reservations
      → HasFreshTokens b
      → HasFreshTokens (release b r now)
  unfolding release
  release-fresh b r now distinct h =
      let c = maybe_cleanup b now in
      let g = maybe_cleanup-fresh b now distinct h in
      let rs = reservations_of c r.key in
      record {
        fresh = λ k.
            rw (release_from_lem c r rs k refl, release_from-next_token c r rs)
              (stored_fresh c r.key _ c.next_token
                (drop_token-fresh r.token c.next_token rs (g.fresh r.key)) g.fresh k);
      }

  snapshot_found-fresh :
      (b : RetryBudget) (key : String) (now : Float) (found : Option (List RetryReservation))
      → lookup key b.reservations ≡ found
      → HasFreshTokens b
      → HasFreshTokens (snapshot_found b key now found).1
  unfolding snapshot_found prune reservations_of
  snapshot_found-fresh b key now none e h = h
  snapshot_found-fresh b key now (some rs) e h =
      let here : AreFresh b.next_token rs = ground (arith, h.fresh key) in
      record {
        fresh = λ k.
            rw (store_lem b key k _ b.next_token)
              (stored_fresh b key _ b.next_token (keep_if-fresh _ b.next_token rs here) h.fresh k);
      }

  Call-fresh :
      {b c : RetryBudget}
      → Call b c
      → HasDistinctKeys b.reservations
      → HasFreshTokens b
      → HasFreshTokens c
  unfolding reserve snapshot snapshot_view
  Call-fresh (reserved b key now not_before {r} {after} e) distinct h =
      let same : after ≡ (reserve_slot b key now not_before).1 = ground arith in
      rw same (reserve_slot-fresh b key now not_before distinct h)
  Call-fresh (released b r now) distinct h = release-fresh b r now distinct h
  Call-fresh (cleaned b now) distinct h = cleanup-fresh b now distinct h
  Call-fresh (viewed b key now {view} {after} e) distinct h =
      let same : after ≡ (snapshot_view b key now).1 = ground arith in
      rw same (
        snapshot_found-fresh (maybe_cleanup b now) key now _ refl
          (maybe_cleanup-fresh b now distinct h))

  new_budget-fresh :
      (max_retries : ℕ) (per : Float) {b : RetryBudget}
      → new_budget max_retries per ≡ return b
      → HasFreshTokens b
  unfolding new_budget reservations_of
  new_budget-fresh max_retries per {b} h =
      let empty : b.reservations ≡ [] = ground arith in
      record { fresh = λ k. ground (arith, lookup-nil {V = List RetryReservation} k) }

  -- However the calls on a budget follow each other, no two of a key's reservations share a
  -- token, and no reservation has a token that is still to be handed out.
  pub Reachable-HasFreshTokens :
      (laws : FloatLaws py) {max_retries : ℕ} {per : Float} {b : RetryBudget}
      → Reachable max_retries per b
      → HasFreshTokens b
  Reachable-HasFreshTokens laws {max_retries} {per} (made e) = new_budget-fresh max_retries per e
  Reachable-HasFreshTokens laws (next r call) =
      Call-fresh call (Reachable-IsValid laws r).distinct (Reachable-HasFreshTokens laws r)
