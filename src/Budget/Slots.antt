-- ===== src/Budget/Slots.antt =====
-- The arithmetic of src/relinker/budget.py on one key's scheduled times: `_is_legal_slot`,
-- `_available_at`, `_first_legal_slot` and `_first_slot_after_window`, with the functions of
-- Python's `bisect` and `sorted` that they call.
pub mod Order
pub mod Settles
pub mod Legal
use relinker.Prelude.{
  ℕ, zero, suc, ◌+◌, ◌-◌, Bool, true, false, ◌&&◌, List, [], ◌∷◌, length, get_or, all, leb,
  if◌then◌else◌,
}
use relinker.Python.{Python, Float, ◌<F◌, ◌≤F◌, ◌+F◌, ◌-F◌, zero_float}

module _ ⦃py : Python⦄ where
  -- `bisect.insort`: behind the values that are equal.
  unfoldable pub insort : Float → List Float → List Float
  insort x [] = x ∷ []
  insort x (y ∷ ys) = if x <F y then x ∷ y ∷ ys else y ∷ insort x ys

  -- `sorted`
  unfoldable pub sorted : List Float → List Float
  sorted [] = []
  sorted (x ∷ xs) = insort x (sorted xs)

  -- `bisect.bisect_right` and `bisect.bisect_left` of a sorted list.
  pub bisect_right : List Float → Float → ℕ
  bisect_right [] x = 0
  bisect_right (y ∷ ys) x = let rest = suc (bisect_right ys x) in if x <F y then 0 else rest

  pub bisect_left : List Float → Float → ℕ
  bisect_left [] x = 0
  bisect_left (y ∷ ys) x = let rest = suc (bisect_left ys x) in if y <F x then rest else 0

  -- `xs[start:end]`
  abbrev pub slice : List Float → ℕ → ℕ → List Float
  slice xs start zero = []
  slice [] start (suc end) = []
  slice (x ∷ xs) zero (suc end) = x ∷ slice xs zero end
  slice (x ∷ xs) (suc start) (suc end) = slice xs start end

  module _ (max_retries : ℕ) (per : Float) where
    -- `_first_slot_after_window`
    unfoldable pub first_slot_after_window : Float → Float
    first_slot_after_window first =
        let candidate = first +F per in
        let previous = py.next_down candidate in
        if first ≤F (previous -F per)
        then previous
        else if first ≤F (candidate -F per)
        then candidate
        else py.next_up candidate

    module _ (scheduled_times : List Float) where
      -- The body of the loop `for index in range(...)` of `_first_legal_slot`, on the variables
      -- `candidate` and `changed`.
      unfoldable pub visit : ℕ → Float × Bool → Float × Bool
      visit index (candidate, changed) =
          let first = get_or scheduled_times index zero_float in
          let last = get_or scheduled_times (index + max_retries - 1) zero_float in
          let forbidden_start = last -F per in
          let forbidden_end = first_slot_after_window first in
          if first ≤F forbidden_start
          then (candidate, changed)
          else if (forbidden_start <F candidate) && (candidate <F forbidden_end)
          then (forbidden_end, true)
          else (candidate, changed)

      -- The `for` loop from `index` on, with the rounds that are left.
      unfoldable pub scan : (rounds index : ℕ) → Float × Bool → Float × Bool
      scan zero index state = state
      scan (suc rounds) index state = scan rounds (suc index) (visit index state)

      -- The length of `range(0, len(scheduled_times) - self._max_retries + 1)`.
      abbrev pub windows : ℕ
      windows = length scheduled_times + 1 - max_retries

      -- `while changed`, on fuel.
      unfoldable pub settle : ℕ → Float → Float
      settle zero candidate = candidate
      settle (suc fuel) candidate =
          let (next, changed) = scan windows 0 (candidate, false) in
          let rest = settle fuel next in if changed then rest else next

      -- `_first_legal_slot`: each pass but the last moves the candidate past one window for good.
      unfoldable pub first_legal_slot : Float → Float
      unfolding settle scan visit first_slot_after_window
      first_legal_slot candidate = settle (suc windows) candidate

      -- One round of the loop of `_is_legal_slot`.
      pub window_has_room : Float → Bool
      window_has_room window_end =
          let left = bisect_right scheduled_times (window_end -F per) in
          let right = bisect_right scheduled_times window_end in
          if leb max_retries (right - left) then false else true

      -- `_is_legal_slot`
      pub is_legal_slot : Float → Bool
      unfolding window_has_room bisect_right bisect_left
      is_legal_slot candidate =
          let future_start = bisect_right scheduled_times candidate in
          let future_end = bisect_left scheduled_times (candidate +F per) in
          all window_has_room (candidate ∷ slice scheduled_times future_start future_end)

    -- The loop of `_available_at`, on fuel: `max_retries` more slots at one time fill its window.
    pub count_available : ℕ → Float → List Float → ℕ
    unfolding is_legal_slot insort
    count_available zero candidate planned = 0
    count_available (suc fuel) candidate planned =
        let rest = suc (count_available fuel candidate (insort candidate planned)) in
        if is_legal_slot planned candidate then rest else 0

    -- `_available_at`
    pub available_at : Float → List Float → ℕ
    unfolding count_available
    available_at candidate scheduled_times =
        count_available (suc max_retries) candidate scheduled_times
