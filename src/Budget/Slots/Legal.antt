-- ===== src/Budget/Slots/Legal.antt =====
-- The slot of `_first_legal_slot` in src/relinker/budget.py and the rolling windows around it.
use relinker.Prelude.{
  ℕ, ◌+◌, ◌-◌, ◌≤◌, ◌<◌, ◌≡◌, inl, inr, true, false, not, ◌&&◌, List, ◌∷◌, get_or, count_if,
  Bool-cases, arith,
}
use native.Mathlib.Decide.{dec_lt}
use relinker.Python.{Python, FloatLaws, Float, ◌<F◌, ◌≤F◌, ◌-F◌, zero_float}
use relinker.Budget.Slots.{first_slot_after_window, windows, first_legal_slot}
use relinker.Budget.Slots.Order.{IsSorted, in_window, lt_of_le_of_lt, window_block}
use relinker.Budget.Slots.Settles.{is_blocked, first_legal_slot_lem}

module _ ⦃py : Python⦄ where
  -- No rolling window of length `per`, open on the left and wherever it ends, holds more than
  -- `max_retries` of the times.
  abbrev pub IsWithin : ℕ → Float → List Float → Type 0
  IsWithin max_retries per times =
      (w : Float) → count_if (in_window (w -F per) w) times ≤ max_retries

  module _ (laws : FloatLaws py) (max_retries : ℕ) (per : Float)
      (finite : py.is_finite per ≡ true) where
    -- The window that ends at the slot found excludes the reservation that it has to wait for.
    first_slot_after_window_lem :
        (first : Float) → first ≤F (first_slot_after_window max_retries per first -F per) ≡ true
    unfolding first_slot_after_window
    first_slot_after_window_lem first = ground (arith, laws.sub_next_add first per finite)

    -- A window that holds the candidate and `max_retries` reservations blocks the candidate.
    full_window_blocks :
        (first last w c : Float)
        → (w -F per) <F first ≡ true
        → last ≤F w ≡ true
        → (w -F per) <F c ≡ true
        → c ≤F w ≡ true
        → not (first ≤F (last -F per))
            && (((last -F per) <F c) && (c <F first_slot_after_window max_retries per first))
          ≡ true
    full_window_blocks first last w c f l lo hi =
        let end = first_slot_after_window max_retries per first in
        let start_le = laws.sub_mono last w per finite l in
        let start_lt = lt_of_le_of_lt laws (last -F per) (w -F per) first start_le f in
        let start_lt_c = lt_of_le_of_lt laws (last -F per) (w -F per) c start_le lo in
        ground (
          arith,
          laws.lt_not_le (last -F per) first,
          laws.lt_not_le (w -F per) first,
          laws.lt_not_le c end,
          laws.le_trans end c w,
          laws.sub_mono end w per finite,
          laws.le_trans first (end -F per) (w -F per) (first_slot_after_window_lem first),
        )

    -- Where every window is free, no rolling window that holds the candidate is full.
    full_is_blocked :
        (times : List Float) (c w : Float)
        → 0 < max_retries
        → IsSorted times
        → ((i : ℕ)
            → i < windows max_retries per times
            → is_blocked max_retries per times i c ≡ false)
        → in_window (w -F per) w c ≡ true
        → ¬ (max_retries ≤ count_if (in_window (w -F per) w) times)
    full_is_blocked times c w pos s free inside full =
        let k = max_retries - 1 in
        let (i, room, first, last) = window_block laws (w -F per) w k times s (omega arith) in
        let same : i + max_retries - 1 ≡ i + k = omega arith in
        let last' = rw (← same) at last in
        let blocked =
          full_window_blocks (get_or times i zero_float)
            (get_or times (i + max_retries - 1) zero_float) w c first last' (ground arith)
            (ground arith) in
        cc (free i (omega arith))

    -- A free candidate can be added to ordered times that keep the limit.
    free-IsWithin :
        (times : List Float) (c : Float)
        → 0 < max_retries
        → IsSorted times
        → IsWithin max_retries per times
        → ((i : ℕ)
            → i < windows max_retries per times
            → is_blocked max_retries per times i c ≡ false)
        → IsWithin max_retries per (c ∷ times)
    free-IsWithin times c pos s h free w = elim (Bool-cases (in_window (w -F per) w c)) [
      | inr outside ↦ rw outside (omega (arith, h w))
      | inl inside ↦
          rw inside (elim (dec_lt (count_if (in_window (w -F per) w) times) max_retries) [
            | yes room ↦ omega arith
            | no full ↦ absurd (full_is_blocked times c w pos s free inside (omega arith))
          ])
    ]

    -- Added to sorted times of which no window holds too many, the slot that is found keeps
    -- every window within the limit, for a positive limit and a finite `per`.
    pub first_legal_slot-IsWithin :
        (times : List Float) (c : Float)
        → 0 < max_retries
        → IsSorted times
        → IsWithin max_retries per times
        → IsWithin max_retries per (first_legal_slot max_retries per times c ∷ times)
    first_legal_slot-IsWithin times c pos s h =
        free-IsWithin times _ pos s h (first_legal_slot_lem laws max_retries per times c).1
