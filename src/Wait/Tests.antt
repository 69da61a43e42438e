-- ===== src/Wait/Tests.antt =====
-- The theorems on src/relinker/internal/retry_wait.py at a budget whose next slot is too far away
-- to sleep for.
use relinker.Prelude.{◌≡◌, refl, [], ◌∷◌, some, arith}
use relinker.Python.{ticks_python, ticks-FloatLaws}
use relinker.Effects.{World, now, get_budget, set_budget, lift, pure, branch, on_error, ◌>>=◌}
use relinker.Dict.{lookup, insert}
use relinker.Budget.{
  RetryBudget, reserve, reserve_slot, reservations_of, new_budget, maybe_cleanup, prune,
}
use relinker.Budget.Slots.{
  insort, sorted, first_slot_after_window, visit, scan, settle, first_legal_slot,
}
use relinker.Budget.Windows.{made, next, reserved, Reachable-IsValid, IsValid}
use relinker.Budget.Release.{live, reserve_lem, AreTokensBelow}
use relinker.Wait.{plan_with_budget, plan_reserved, reserve_in, release_in}
use relinker.Wait.Released.{PlansNothing, IsMonotonic, plan_with_budget-live}

abbrev full : RetryBudget
full = record {
  max_retries = 1;
  per = 100_000;
  reservations = ("api", record { token = 1; key = "api"; scheduled_at = 2 } ∷ []) ∷ [];
  next_token = 2;
  op_count = 1;
}

abbrev unused : RetryBudget
unused = record { max_retries = 1; per = 100_000; reservations = []; next_token = 1; op_count = 0 }

abbrev reached : RetryBudget
reached = (reserve_slot unused "api" 2 2).1

reached_lem : reached ≡ full
unfolding reserve_slot reservations_of maybe_cleanup prune insort sorted first_slot_after_window
    visit scan settle first_legal_slot lookup insert
reached_lem = refl

abbrev busy : World
busy = record { outside = 5; budgets = λ _. full }

busy-plans : PlansNothing (plan_with_budget (some 0) (some "api") 3 busy).0
unfolding plan_with_budget plan_reserved reserve_in release_in now get_budget set_budget lift pure
    branch on_error ◌>>=◌ reserve reserve_slot reservations_of maybe_cleanup prune insort sorted
    first_slot_after_window visit scan settle first_legal_slot lookup insert
busy-plans = tt

full-IsValid : IsValid full
unfolding new_budget reserve_slot reservations_of maybe_cleanup prune insort sorted
    first_slot_after_window visit scan settle first_legal_slot lookup insert
full-IsValid =
    Reachable-IsValid ticks-FloatLaws {max_retries = 1} {per = 100_000} (
      next (made {b = unused} refl) (reserved unused "api" 2 2 (reserve_lem unused "api" 2 2 refl)))

full-AreTokensBelow : AreTokensBelow 2 (reservations_of full "api")
unfolding reservations_of lookup
full-AreTokensBelow = (omega arith, tt)

ticks_go_on : IsMonotonic
ticks_go_on o = ground arith

plan_with_budget-live_example :
    live ((plan_with_budget (some 0) (some "api") 3 busy).1.budgets 0) 6 "api" ≡ live full 6 "api"
plan_with_budget-live_example =
    plan_with_budget-live 0 "api" 3 busy ticks-FloatLaws ticks_go_on "api" full-IsValid
      full-AreTokensBelow busy-plans
