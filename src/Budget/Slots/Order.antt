-- ===== src/Budget/Slots/Order.antt =====
-- Facts on ordered lists of scheduled times: what `sorted` returns, and blocks of neighbours.
use relinker.Prelude.{
  ℕ, zero, suc, ◌+◌, ◌≤◌, ◌≡◌, refl, inl, inr, Bool, true, false, ◌&&◌, List, [], ◌∷◌, length,
  get_or, count_if, count_if-le-length, Bool-cases, arith,
}
use Prim.Native.Nat.add
use native.Mathlib.Nat.{zero-add}
use relinker.Python.{Python, FloatLaws, Float, ◌<F◌, ◌≤F◌, zero_float}
use relinker.Budget.Slots.{insort, sorted}

module _ ⦃py : Python⦄ where
  abbrev pub IsSorted : List Float → Type 0
  IsSorted [] = Unit
  IsSorted (x ∷ []) = Unit
  IsSorted (x ∷ y ∷ ys) = (x ≤F y ≡ true) × IsSorted (y ∷ ys)

  IsSorted-tail : (x : Float) (xs : List Float) → IsSorted (x ∷ xs) → IsSorted xs
  IsSorted-tail x [] s = tt
  IsSorted-tail x (y ∷ ys) s = s.1

  -- The times in the rolling window that is open at `low` and ends with `high`.
  abbrev pub in_window : Float → Float → Float → Bool
  in_window low high t = (low <F t) && (t ≤F high)

  pub count_if-insort :
      (p : Float → Bool) (x : Float) (xs : List Float)
      → count_if p (insort x xs) ≡ count_if p (x ∷ xs)
  unfolding insort
  count_if-insort p x [] = refl
  count_if-insort p x (y ∷ ys) = ground (arith, count_if-insort p x ys)

  -- Sorting keeps every count.
  pub count_if-sorted :
      (p : Float → Bool) (xs : List Float) → count_if p (sorted xs) ≡ count_if p xs
  unfolding sorted
  count_if-sorted p [] = refl
  count_if-sorted p (x ∷ xs) = omega (arith, count_if-insort p x (sorted xs), count_if-sorted p xs)

  module _ (laws : FloatLaws py) where
    pub le_of_not_lt : (a b : Float) → a <F b ≡ false → b ≤F a ≡ true
    le_of_not_lt a b h = ground (arith, laws.lt_not_le a b)

    pub le_of_lt : (a b : Float) → a <F b ≡ true → a ≤F b ≡ true
    le_of_lt a b h = ground (arith, laws.lt_not_le a b, laws.le_total a b)

    pub not_lt_of_le : (a b : Float) → b ≤F a ≡ true → a <F b ≡ false
    not_lt_of_le a b h = ground (arith, laws.lt_not_le a b)

    pub lt_of_le_of_lt : (a b c : Float) → a ≤F b ≡ true → b <F c ≡ true → a <F c ≡ true
    lt_of_le_of_lt a b c h k =
        ground (arith, laws.lt_not_le a c, laws.lt_not_le b c, laws.le_trans c a b)

    insort-IsSorted : (x : Float) (xs : List Float) → IsSorted xs → IsSorted (insort x xs)
    unfolding insort
    insort-IsSorted x [] h = tt
    insort-IsSorted x (y ∷ []) h = ground (arith, le_of_not_lt x y, le_of_lt x y)
    insort-IsSorted x (y ∷ z ∷ zs) h =
        ground (arith, le_of_not_lt x y, le_of_lt x y, insort-IsSorted x (z ∷ zs) h.1)

    pub sorted-IsSorted : (xs : List Float) → IsSorted (sorted xs)
    unfolding sorted
    sorted-IsSorted [] = tt
    sorted-IsSorted (x ∷ xs) = insort-IsSorted x (sorted xs) (sorted-IsSorted xs)

    module _ (low high : Float) where
      -- Of times in order, the least is not behind the window's end, if any time is in it.
      head-le :
          (x : Float) (xs : List Float)
          → IsSorted (x ∷ xs)
          → 1 ≤ count_if (in_window low high) (x ∷ xs)
          → x ≤F high ≡ true
      head-le x [] s h = ground arith
      head-le x (y ∷ ys) s h = elim (Bool-cases (x ≤F high)) [
        | inl e ↦ e
        | inr e ↦ laws.le_trans x y high s.0 (head-le y ys s.1 (ground arith))
      ]

      -- With `k + 1` times in the window, the time at index `k` is not behind its end.
      nth-le :
          (k : ℕ) (xs : List Float)
          → IsSorted xs
          → suc k ≤ count_if (in_window low high) xs
          → get_or xs k zero_float ≤F high ≡ true
      nth-le k [] s h = absurd (omega arith)
      nth-le zero (x ∷ xs) s h = head-le x xs s h
      nth-le (suc k) (x ∷ []) s h = absurd (ground arith)
      nth-le (suc k) (x ∷ y ∷ ys) s h = nth-le k (y ∷ ys) s.1 (ground arith)

      -- `k + 1` times in the window stand next to each other, first and last in the window.
      pub window_block :
          (k : ℕ) (xs : List Float)
          → IsSorted xs
          → suc k ≤ count_if (in_window low high) xs
          → (i : ℕ) × (i + suc k ≤ length xs)
            × (low <F get_or xs i zero_float ≡ true)
            × (get_or xs (i + k) zero_float ≤F high ≡ true)
      window_block k [] s h = absurd (omega arith)
      window_block k (x ∷ xs) s h = elim (Bool-cases (low <F x)) [
        | inl e ↦ (
          0,
          omega (arith, count_if-le-length (in_window low high) (x ∷ xs)),
          e,
          rw (zero-add k) (nth-le k (x ∷ xs) s h),
        )
        | inr e ↦
            let (i, room, first, last) = window_block k xs (IsSorted-tail x xs s) (ground arith) in
            (suc i, omega arith, first, rw (add.suc i k) last)
      ]
