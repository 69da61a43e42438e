-- ===== src/Budget/Tests.antt =====
-- The theorems on src/relinker/budget.py at a budget of two retries in ten ticks.
use text.Mathlib.Text.{◌==◌ as str_eq}
use text.Mathlib.TextEquality.{eq_iff}
use relinker.Prelude.{
  ℕ, ◌-◌, ◌<◌, ◌≡◌, refl, true, false, [], ◌∷◌, ◌++◌, count_if-le-length, if◌then◌else◌, arith,
}
use relinker.Python.{◌≤F◌, ticks_python, ticks-FloatLaws}
use relinker.Dict.{HasDistinctKeys}
use relinker.Budget.{
  RetryReservation, RetryBudget, new_budget, reserve_slot, release, reservations_of,
}
use relinker.Budget.Slots.Order.{in_window}
use relinker.Budget.Slots.{first_legal_slot, windows}
use relinker.Budget.Slots.Settles.{is_blocked, first_legal_slot_lem}
use relinker.Budget.Slots.Legal.{IsWithin, first_legal_slot-IsWithin}
use relinker.Budget.Windows.{times, Reachable, made, next, reserved, Reachable-IsValid}
use relinker.Budget.Release.{
  live, reserve_lem, reservations_of-reserve_slot, reserve_slot_others, release-reserve_slot,
}
use relinker.Budget.Released.{without, live-release}
use relinker.Budget.History.{History, nothing_yet, with_made, Lived, new, reserving}
use relinker.Budget.History.Limit.{Lived-IsWithin}
use relinker.Budget.Tokens.{HasFreshTokens, AreFresh-AreTokensBelow, Reachable-HasFreshTokens}

abbrev unused : RetryBudget
unused = record { max_retries = 2; per = 10; reservations = []; next_token = 1; op_count = 0 }

abbrev used_once : RetryBudget
used_once = (reserve_slot unused "api" 3 3).1

abbrev used_twice : RetryBudget
used_twice = (reserve_slot used_once "api" 4 5).1

unused-Reachable : Reachable 2 10 unused
unfolding new_budget
unused-Reachable = made refl

used_once-Reachable : Reachable 2 10 used_once
used_once-Reachable =
    next unused-Reachable (reserved unused "api" 3 3 (reserve_lem unused "api" 3 3 refl))

used_twice-Reachable : Reachable 2 10 used_twice
used_twice-Reachable =
    next used_once-Reachable (reserved used_once "api" 4 5 (reserve_lem used_once "api" 4 5 refl))

-- Of three reservations the budget has forgotten the first two when it makes the third.
abbrev used_late : RetryBudget
used_late = (reserve_slot used_twice "api" 20 20).1

abbrev all_made : History
all_made = with_made "api" (reserve_slot used_twice "api" 20 20).0 (
    with_made "api" (reserve_slot used_once "api" 4 5).0
      (with_made "api" (reserve_slot unused "api" 3 3).0 nothing_yet))

used_late-Lived : Lived 2 10 used_late 20 all_made
unfolding new_budget
used_late-Lived =
    reserving "api" 20 20
      (reserving "api" 4 5
        (reserving "api" 3 3 (new 0 refl) refl (reserve_lem unused "api" 3 3 refl)) refl
        (reserve_lem used_once "api" 4 5 refl))
      refl (reserve_lem used_twice "api" 20 20 refl)

Lived-IsWithin_example : IsWithin 2 10 (times (all_made "api"))
Lived-IsWithin_example = Lived-IsWithin ticks-FloatLaws used_late-Lived "api"

Reachable-HasFreshTokens_example : HasFreshTokens used_twice
Reachable-HasFreshTokens_example = Reachable-HasFreshTokens ticks-FloatLaws used_twice-Reachable

abbrev distinct : HasDistinctKeys used_twice.reservations
distinct = (Reachable-IsValid ticks-FloatLaws used_twice-Reachable).distinct

release-reserve_slot_example :
    let (r, after) = reserve_slot used_twice "api" 6 7 in
    live (release after r 8) 8 "api" ≡ live used_twice 8 "api"
release-reserve_slot_example =
    release-reserve_slot ticks-FloatLaws used_twice "api" "api" 6 7 8 refl distinct
      (AreFresh-AreTokensBelow _ _
        ((Reachable-HasFreshTokens ticks-FloatLaws used_twice-Reachable).fresh "api"))
      refl

reservations_of-reserve_slot_example :
    let (r, after) = reserve_slot used_twice "api" 6 7 in
    (r.token ≡ used_twice.next_token)
    × (reservations_of after "api" ≡ live used_twice 6 "api" ++ (r ∷ []))
reservations_of-reserve_slot_example =
    reservations_of-reserve_slot ticks-FloatLaws used_twice "api" 6 7 distinct

reserve_slot_others_example :
    live (reserve_slot used_twice "other" 6 7).1 6 "api" ≡ live used_twice 6 "api"
reserve_slot_others_example =
    reserve_slot_others ticks-FloatLaws used_twice "other" "api" 6 7 distinct
      (λ e. ground (arith, eq_iff "other" "api"))

live-release_example :
    let r : RetryReservation = record { token = 1; key = "api"; scheduled_at = 3 } in
    live (release used_twice r 6) 6 "api" ≡ (
      if str_eq r.key "api"
      then without r.token (live used_twice 6 "api")
      else live used_twice 6 "api")
live-release_example =
    live-release ticks-FloatLaws used_twice (record { token = 1; key = "api"; scheduled_at = 3 }) 6
      "api" distinct (Reachable-HasFreshTokens ticks-FloatLaws used_twice-Reachable)

first_legal_slot_lem_example :
    let found = first_legal_slot 2 10 (3 ∷ 5 ∷ []) 6 in
    (6 ≤F found ≡ true)
    × ((i : ℕ) → i < windows 2 10 (3 ∷ 5 ∷ []) → is_blocked 2 10 (3 ∷ 5 ∷ []) i found ≡ false)
first_legal_slot_lem_example = first_legal_slot_lem ticks-FloatLaws 2 10 (3 ∷ 5 ∷ []) 6

first_legal_slot-IsWithin_example :
    IsWithin 2 10 (first_legal_slot 2 10 (3 ∷ 5 ∷ []) 6 ∷ 3 ∷ 5 ∷ [])
first_legal_slot-IsWithin_example =
    first_legal_slot-IsWithin ticks-FloatLaws 2 10 refl (3 ∷ 5 ∷ []) 6 (omega arith) (refl, tt)
      (λ w. count_if-le-length {A = ℕ} (in_window (w - 10) w) (3 ∷ 5 ∷ []))
