-- ===== src/Budget/Release.antt =====
-- Reserving and releasing in src/relinker/budget.py, seen through the pruning that every method
-- does.
use Prim.Native.String.{String}
use text.Mathlib.Text.{◌==◌ as str_eq}
use text.Mathlib.TextEquality.{eq_iff}
use relinker.Prelude.{
  ℕ, ◌<◌, ◌≡◌, ◌≢◌, refl, sym, ap, ◌∙◌, inl, inr, true, false, List, [], ◌∷◌, ◌++◌, map,
  if◌then◌else◌, arith,
}
use relinker.Python.{
  Python, FloatLaws, Float, ◌≤F◌, ◌-F◌, float_max, return, raise, invalid_config_error,
}
use relinker.Dict.{insert, insert-HasDistinctKeys, HasDistinctKeys, lookup-insert, lookup-erase}
use relinker.Budget.{
  RetryReservation, RetryBudget, reservations_of, prune, is_expired, maybe_cleanup, reserve,
  reserve_slot, drop_token, store_or_pop, release_from, release,
}
use relinker.Budget.Slots.{sorted}
use relinker.Budget.Slots.Settles.{first_legal_slot_lem}
use relinker.Budget.Slots.Order.{lt_of_le_of_lt}
use relinker.Budget.Table.{
  reservations_of-maybe_cleanup, maybe_cleanup-HasDistinctKeys, maybe_cleanup_fields, prune-expired,
  prune-maybe_cleanup,
}

module _ ⦃py : Python⦄ where
  -- The reservations of a key that still count at a time.
  abbrev pub live : RetryBudget → Float → String → List RetryReservation
  live b now k = prune b.per (reservations_of b k) now

  -- `_reserve` on a key that passes its check, and on one that does not.
  pub reserve_lem :
      (b : RetryBudget) (key : String) (now not_before : Float)
      → py.is_blank key ≡ false
      → reserve b key now not_before ≡ return (reserve_slot b key now not_before)
  unfolding reserve
  reserve_lem b key now not_before e = rw e refl

  pub reserve_blank :
      (b : RetryBudget) (key : String) (now not_before : Float)
      → py.is_blank key ≡ true
      → reserve b key now not_before ≡ raise invalid_config_error
  unfolding reserve
  reserve_blank b key now not_before e = rw e refl

  -- Every token in the list was handed out before.
  abbrev pub AreTokensBelow : ℕ → List RetryReservation → Type 0
  AreTokensBelow n [] = Unit
  AreTokensBelow n (r ∷ rs) = (r.token < n) × AreTokensBelow n rs

  drop_token-append :
      (n : ℕ) (rs : List RetryReservation) (r : RetryReservation)
      → AreTokensBelow n rs
      → r.token ≡ n
      → drop_token n (rs ++ (r ∷ [])) ≡ rs
  unfolding drop_token
  drop_token-append n [] r h e = ground arith
  drop_token-append n (x ∷ xs) r h e = ground (arith, drop_token-append n xs r h.1 e)

  prune-AreTokensBelow :
      (n : ℕ) (per now : Float) (rs : List RetryReservation)
      → AreTokensBelow n rs
      → AreTokensBelow n (prune per rs now)
  unfolding prune
  prune-AreTokensBelow n per now [] h = tt
  prune-AreTokensBelow n per now (r ∷ rs) h = ground (arith, prune-AreTokensBelow n per now rs h.1)

  is_expired-drop_token :
      (boundary : Float) (n : ℕ) (rs : List RetryReservation)
      → is_expired boundary rs ≡ true
      → is_expired boundary (drop_token n rs) ≡ true
  unfolding is_expired drop_token
  is_expired-drop_token boundary n [] h = refl
  is_expired-drop_token boundary n (r ∷ rs) h = ground (arith, is_expired-drop_token boundary n rs)

  store_or_pop_lem :
      (b : RetryBudget) (key k : String) (rs : List RetryReservation)
      → reservations_of (record b { reservations = store_or_pop key rs b.reservations }) k
        ≡ (if str_eq key k then rs else reservations_of b k)
  unfolding store_or_pop reservations_of
  store_or_pop_lem b key k [] = ground (arith, lookup-erase key k b.reservations)
  store_or_pop_lem b key k (r ∷ rs) = ground (arith, lookup-insert key k (r ∷ rs) b.reservations)

  pub store_lem :
      (b : RetryBudget) (key k : String) (rs : List RetryReservation) (n : ℕ)
      → reservations_of (record b { next_token = n; reservations = insert key rs b.reservations }) k
        ≡ (if str_eq key k then rs else reservations_of b k)
  unfolding reservations_of
  store_lem b key k rs n = ground (arith, lookup-insert key k rs b.reservations)

  -- Releasing drops the token from the key's deque, and leaves the other keys alone.
  pub release_from_lem :
      (b : RetryBudget) (r : RetryReservation) (rs : List RetryReservation) (k : String)
      → reservations_of b r.key ≡ rs
      → reservations_of (release_from b r rs) k
        ≡ (if str_eq r.key k then drop_token r.token rs else reservations_of b k)
  unfolding release_from drop_token
  release_from_lem b r [] k e = ground (arith, eq_iff r.key k, e)
  release_from_lem b r (x ∷ xs) k e = store_or_pop_lem b r.key k (drop_token r.token (x ∷ xs))

  release_from-per :
      (b : RetryBudget) (r : RetryReservation) (rs : List RetryReservation)
      → (release_from b r rs).per ≡ b.per
  unfolding release_from
  release_from-per b r [] = refl
  release_from-per b r (x ∷ xs) = refl

  module _ (laws : FloatLaws py) where
    pub prune-prune :
        (per now later : Float) (rs : List RetryReservation)
        → py.is_finite per ≡ true
        → now ≤F later ≡ true
        → prune per (prune per rs now) later ≡ prune per rs later
    unfolding prune
    prune-prune per now later [] f h = refl
    prune-prune per now later (r ∷ rs) f h = ground (
      arith,
      prune-prune per now later rs f h,
      lt_of_le_of_lt laws (now -F per) (later -F per) r.scheduled_at
          (laws.sub_mono now later per f h),
    )

    -- What a method has pruned after its cleanup are the live reservations.
    pub kept_lem :
        (b : RetryBudget) (k : String) (now : Float)
        → HasDistinctKeys b.reservations
        → live (maybe_cleanup b now) now k ≡ live b now k
    kept_lem b k now distinct =
        simp ((maybe_cleanup_fields b now).1) (prune-maybe_cleanup laws b now k distinct)

    -- A reservation is appended to the live ones of its key, under the next token, in a table
    -- whose keys are distinct.
    pub reservations_of-reserve_slot :
        (b : RetryBudget) (key : String) (now not_before : Float)
        → HasDistinctKeys b.reservations
        → let (r, after) = reserve_slot b key now not_before in
          (r.token ≡ b.next_token) × (reservations_of after key ≡ live b now key ++ (r ∷ []))
    unfolding reserve_slot
    reservations_of-reserve_slot b key now not_before distinct = (
      (maybe_cleanup_fields b now).2,
      store_lem (maybe_cleanup b now) key key _ _
          ∙ ground (arith, eq_iff key key, kept_lem b key now distinct),
    )

    -- A reservation leaves the live ones of every other key as they are, in a table whose keys
    -- are distinct.
    pub reserve_slot_others :
        (b : RetryBudget) (key k : String) (now not_before : Float)
        → HasDistinctKeys b.reservations
        → key ≢ k
        → live (reserve_slot b key now not_before).1 now k ≡ live b now k
    unfolding reserve_slot
    reserve_slot_others b key k now not_before distinct ne =
        ap (λ rs. prune (maybe_cleanup b now).per rs now)
          (store_lem (maybe_cleanup b now) key k _ _ ∙ ground (arith, eq_iff key k))
        ∙ kept_lem b k now distinct

    reserve_slot_frame :
        (b : RetryBudget) (key : String) (now not_before : Float)
        → HasDistinctKeys b.reservations
        → ((reserve_slot b key now not_before).0.key ≡ key)
          × ((reserve_slot b key now not_before).1.per ≡ b.per)
          × HasDistinctKeys (reserve_slot b key now not_before).1.reservations
    unfolding reserve_slot
    reserve_slot_frame b key now not_before distinct = (
      refl,
      (maybe_cleanup_fields b now).1,
      insert-HasDistinctKeys key _ _ (maybe_cleanup-HasDistinctKeys b now distinct),
    )

    -- The reserved slot is neither before the current time nor before the time asked for.
    pub reserve_slot-not_before :
        (b : RetryBudget) (key : String) (now not_before : Float)
        → float_max now not_before ≤F (reserve_slot b key now not_before).0.scheduled_at ≡ true
    unfolding reserve_slot
    reserve_slot-not_before b key now not_before =
        let c = maybe_cleanup b now in
        (first_legal_slot_lem laws c.max_retries c.per
          (sorted (map (λ r. r.scheduled_at) (prune c.per (reservations_of c key) now)))
          (float_max now not_before)).0

    -- The amortised cleanup is as little seen behind the removal of a token.
    prune-drop_token :
        (b : RetryBudget) (n : ℕ) (k : String) (now : Float)
        → HasDistinctKeys b.reservations
        → prune b.per (drop_token n (reservations_of (maybe_cleanup b now) k)) now
          ≡ prune b.per (drop_token n (reservations_of b k)) now
    unfolding prune drop_token
    prune-drop_token b n k now distinct = elim (reservations_of-maybe_cleanup b now distinct k) [
      | inl same ↦ rw same refl
      | inr (gone, expired) ↦ rw gone (
          sym (
            prune-expired laws b.per now _
              (is_expired-drop_token (now -F b.per) n (reservations_of b k) expired)))
    ]

    -- A release does to the live reservations of its key what the search for the token does, and
    -- leaves those of every other key as they are, in a table whose keys are distinct.
    pub release_lem :
        (b : RetryBudget) (r : RetryReservation) (now : Float) (k : String)
        → HasDistinctKeys b.reservations
        → live (release b r now) now k ≡ (
            if str_eq r.key k
            then prune b.per (drop_token r.token (reservations_of b k)) now
            else live b now k)
    unfolding release
    release_lem b r now k distinct =
        let c = maybe_cleanup b now in
        let rs = reservations_of c r.key in
        ground (
          arith,
          eq_iff r.key k,
          release_from-per c r rs,
          (maybe_cleanup_fields b now).1,
          release_from_lem c r rs k refl,
          prune-drop_token b r.token k now distinct,
          prune-maybe_cleanup laws b now k distinct,
        )

    -- Releasing a reservation that was just made leaves every key with the live reservations
    -- that it would have had without it, if `per` is finite, the keys of the table are distinct,
    -- the key's tokens were handed out before and the clock did not go back.
    pub release-reserve_slot :
        (b : RetryBudget) (key k : String) (now not_before later : Float)
        → py.is_finite b.per ≡ true
        → HasDistinctKeys b.reservations
        → AreTokensBelow b.next_token (reservations_of b key)
        → now ≤F later ≡ true
        → let (r, after) = reserve_slot b key now not_before in
          live (release after r later) later k ≡ live b later k
    release-reserve_slot b key k now not_before later finite distinct below order =
        let r = (reserve_slot b key now not_before).0 in
        let after = (reserve_slot b key now not_before).1 in
        let (token, stored) = reservations_of-reserve_slot b key now not_before distinct in
        let (same_key, same_per, distinct') = reserve_slot_frame b key now not_before distinct in
        let fresh = prune-AreTokensBelow b.next_token b.per now (reservations_of b key) below in
        ground (
          arith,
          eq_iff key k,
          release_lem after r later k distinct',
          token,
          stored,
          same_key,
          same_per,
          drop_token-append b.next_token (live b now key) r fresh token,
          prune-prune b.per now later (reservations_of b k) finite order,
          prune-prune b.per now later (reservations_of after k) finite order,
          reserve_slot_others b key k now not_before distinct,
        )
