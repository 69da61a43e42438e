-- ===== src/Budget/Slots/Settles.antt =====
-- The loop of `_first_legal_slot` in src/relinker/budget.py and the windows that it passes.
use relinker.Prelude.{
  ℕ, zero, suc, ◌+◌, ◌-◌, ◌≤◌, ◌<◌, ◌≡◌, ◌≢◌, ◌⊎◌, refl, inl, inr, Bool, true, false, not, ◌&&◌,
  List, get_or, if◌then◌else◌, Bool-cases, arith,
}
use native.Mathlib.Decide.{dec_lt}
use relinker.Python.{Python, FloatLaws, Float, ◌<F◌, ◌≤F◌, ◌-F◌, zero_float}
use relinker.Budget.Slots.{first_slot_after_window, visit, scan, windows, settle, first_legal_slot}
use relinker.Budget.Slots.Order.{le_of_lt, not_lt_of_le, lt_of_le_of_lt}

module _ ⦃py : Python⦄ (max_retries : ℕ) (per : Float) (times : List Float) where
  abbrev pub window_start : ℕ → Float
  window_start i = get_or times (i + max_retries - 1) zero_float -F per

  abbrev pub window_end : ℕ → Float
  window_end i = first_slot_after_window max_retries per (get_or times i zero_float)

  -- The candidate lies where one more reservation would overfill the window at index `i`.
  abbrev pub is_blocked : ℕ → Float → Bool
  is_blocked i c =
      not (get_or times i zero_float ≤F window_start i)
      && ((window_start i <F c) && (c <F window_end i))

module _ ⦃py : Python⦄ (laws : FloatLaws py) (max_retries : ℕ) (per : Float)
    (times : List Float) where
  -- A visit of an index either finds the candidate free there, or moves it to the window's end.
  pub visit-cases :
      (i : ℕ) (c : Float) (b : Bool)
      → ((is_blocked max_retries per times i c ≡ false)
          × (visit max_retries per times i (c, b) ≡ (c, b)))
        ⊎ ((c <F window_end max_retries per times i ≡ true)
            × (visit max_retries per times i (c, b) ≡ (window_end max_retries per times i, true)))
  unfolding visit
  visit-cases i c b = ground arith

  le_refl : (a : Float) → a ≤F a ≡ true
  le_refl a = ground (arith, laws.le_total a a)

  -- How many of the windows from index `i` on the candidate still lies before the end of.
  pending : (rounds i : ℕ) → Float → ℕ
  pending zero i c = 0
  pending (suc n) i c =
      (if c <F window_end max_retries per times i then 1 else 0) + pending n (suc i) c

  pending-le : (n i : ℕ) (c : Float) → pending n i c ≤ n
  unfolding pending
  pending-le zero i c = omega arith
  pending-le (suc n) i c = ground (arith, pending-le n (suc i) c)

  -- A later candidate lies before no more windows' ends.
  pending_mono : (n i : ℕ) (c d : Float) → c ≤F d ≡ true → pending n i d ≤ pending n i c
  unfolding pending
  pending_mono zero i c d h = omega arith
  pending_mono (suc n) i c d h = ground (
    arith,
    pending_mono n (suc i) c d h,
    lt_of_le_of_lt laws c d (window_end max_retries per times i) h,
  )

  -- A pass never moves the candidate back.
  pub le-scan :
      (n i : ℕ) (c : Float) (b : Bool) → c ≤F (scan max_retries per times n i (c, b)).0 ≡ true
  unfolding scan
  le-scan zero i c b = le_refl c
  le-scan (suc n) i c b = elim (visit-cases i c b) [
    | inl (free, e) ↦ rw (e, scan) (le-scan n (suc i) c b)
    | inr (before, e) ↦
        rw (e, scan)
          (laws.le_trans c (window_end max_retries per times i) _
            (le_of_lt laws c (window_end max_retries per times i) before)
            (le-scan n (suc i) (window_end max_retries per times i) true))
  ]

  -- The flag, once set, stays set.
  changed_stays : (n i : ℕ) (c : Float) → (scan max_retries per times n i (c, true)).1 ≢ false
  unfolding scan
  changed_stays zero i c h = cc
  changed_stays (suc n) i c h = elim (visit-cases i c true) [
    | inl (free, e) ↦ changed_stays n (suc i) c (rw (e, scan) at h)
    | inr (before, e) ↦
        changed_stays n (suc i) (window_end max_retries per times i) (rw (e, scan) at h)
  ]

  -- A pass that moves the candidate puts an end to at least one window.
  pending-scan :
      (n i : ℕ) (c : Float) (b : Bool)
      → (scan max_retries per times n i (c, b)).1 ≡ true
      → (b ≡ true) ⊎ (pending n i (scan max_retries per times n i (c, b)).0 < pending n i c)
  unfolding scan pending
  pending-scan zero i c b h = inl h
  pending-scan (suc n) i c b h = elim (visit-cases i c b) [
    | inl (free, e) ↦
        rw (e, scan)
          (ground (
            arith,
            pending-scan n (suc i) c b (rw (e, scan) at h),
            lt_of_le_of_lt laws c _ (window_end max_retries per times i) (le-scan n (suc i) c b),
          ))
    | inr (before, e) ↦
        rw (e, scan)
          (inr (
            ground (
              arith,
              pending_mono n (suc i) c _ (
                  laws.le_trans c (window_end max_retries per times i) _
                    (le_of_lt laws c (window_end max_retries per times i) before)
                    (le-scan n (suc i) (window_end max_retries per times i) true)),
              not_lt_of_le laws _ (window_end max_retries per times i)
                  (le-scan n (suc i) (window_end max_retries per times i) true),
            )))
  ]

  -- A pass that ends with `changed` false moves nothing, and finds every window free.
  pub scan-free :
      (n i : ℕ) (c : Float) (b : Bool)
      → (scan max_retries per times n i (c, b)).1 ≡ false
      → ((scan max_retries per times n i (c, b)).0 ≡ c)
        × ((j : ℕ) → i ≤ j → j < i + n → is_blocked max_retries per times j c ≡ false)
  unfolding scan
  scan-free zero i c b h = (refl, λ j from below. absurd (omega arith))
  scan-free (suc n) i c b h = elim (visit-cases i c b) [
    | inl (free, e) ↦
        let (same, rest) = scan-free n (suc i) c b (rw (e, scan) at h) in
        (
          rw (e, scan) same,
          λ j from below. elim (dec_lt i j) [
            | yes later ↦ rest j (omega arith) (omega arith)
            | no now ↦ let here : i ≡ j = omega arith in rw (← here) free
          ],
        )
    | inr (before, e) ↦
        absurd (changed_stays n (suc i) (window_end max_retries per times i) (rw (e, scan) at h))
  ]

  -- On enough fuel the loop ends with a pass that changes nothing, at or after where it began.
  settle_lem :
      (fuel : ℕ) (c : Float)
      → pending (windows max_retries per times) 0 c < fuel
      → let found = settle max_retries per times fuel c in
        (c ≤F found ≡ true)
        × ((scan max_retries per times (windows max_retries per times) 0 (found, false)).1 ≡ false)
  unfolding settle
  settle_lem zero c h = absurd (omega arith)
  settle_lem (suc fuel) c h =
      let n = windows max_retries per times in
      let next = (scan max_retries per times n 0 (c, false)).0 in
      let ahead = le-scan n 0 c false in
      elim (Bool-cases (scan max_retries per times n 0 (c, false)).1) [
        | inl moved ↦
            let fewer : pending n 0 next < fuel = ground (arith, pending-scan n 0 c false moved) in
            let (later, ended) = settle_lem fuel next fewer in
            rw moved (laws.le_trans c next _ ahead later, ended)
        | inr still ↦ rw still (ahead, rw (scan-free n 0 c false still).0 still)
      ]

  -- The search for a slot ends by the loop's own test, at a time that is not before the one
  -- asked for and at which no window of neighbouring reservations blocks it.
  pub first_legal_slot_lem :
      (c : Float)
      → let found = first_legal_slot max_retries per times c in
        (c ≤F found ≡ true)
        × ((i : ℕ)
            → i < windows max_retries per times
            → is_blocked max_retries per times i found ≡ false)
  unfolding first_legal_slot
  first_legal_slot_lem c =
      let n = windows max_retries per times in
      let (later, ended) = settle_lem (suc n) c (omega (arith, pending-le n 0 c)) in
      (later, λ i below. (scan-free n 0 _ false ended).1 i (omega arith) (omega arith))
