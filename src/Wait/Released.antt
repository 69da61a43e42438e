-- ===== src/Wait/Released.antt =====
-- The reservation that src/relinker/internal/retry_wait.py makes and gives back when it plans no wait.
use Prim.Native.String.{String}
use relinker.Prelude.{
  ℕ, ◌≡◌, refl, sym, ap, Bool, true, false, Option, none, some, ◌==◌, ==_refl, if◌then◌else◌, arith,
  Bool-cases, inl, inr,
}
use relinker.Python.{
  Python, FloatLaws, Float, ◌≤F◌, ◌+F◌, Outcome, return, raise, invalid_config_error,
}
use relinker.Effects.{
  World, Action, pure, lift, branch, handled, on_error, now, get_budget, set_budget, ◌>>=◌, ◌>>◌,
}
use relinker.Budget.{RetryReservation, reservations_of, reserve_slot, release}
use relinker.Budget.Release.{live, AreTokensBelow, release-reserve_slot, reserve_lem, reserve_blank}
use relinker.Budget.Windows.{IsValid}
use relinker.Wait.{
  RetryWaitPlan, reserve_in, release_in, reserved_plan, plan_reserved, plan_with_budget,
}

module _ ⦃py : Python⦄ where
  -- No wait was planned: the call gave up, or raised.
  abbrev pub PlansNothing : Outcome (Option RetryWaitPlan) → Type 0
  PlansNothing (return none) = Unit
  PlansNothing (return (some plan)) = ⊥
  PlansNothing (raise e) = Unit

  -- The time of a world is what its clock shows next.
  abbrev pub clock : World → Float
  clock w = (py.monotonic w.outside).0

  release_in_lem :
      (id : ℕ) (r : RetryReservation) (w : World)
      → release_in id r w ≡ (
        return tt,
        record {
          outside = (py.monotonic w.outside).1;
          budgets = λ i. if i == id then release (w.budgets id) r (clock w) else w.budgets i;
        },
      )
  unfolding release_in now get_budget set_budget ◌>>=◌
  release_in_lem id r w = refl

  -- Validating the plan touches nothing.
  reserved_plan-world :
      (id : ℕ) (r : RetryReservation) (policy_delay budget_delay : Float) (w : World)
      → (reserved_plan id r policy_delay budget_delay w).1 ≡ w
  unfolding reserved_plan ◌>>=◌ lift pure
  reserved_plan-world id r policy_delay budget_delay w = ground arith

  after_validation :
      (id : ℕ) (r : RetryReservation) (o : Outcome RetryWaitPlan) (v w : World)
      → v ≡ w
      → PlansNothing
          (((λ (_ : World). handled (o, v) (release_in id r)) >>= λ plan. pure (some plan)) w).0
      → (((λ (_ : World). handled (o, v) (release_in id r)) >>= λ plan. pure (some plan)) w).1
        ≡ (release_in id r w).1
  unfolding ◌>>=◌ pure
  after_validation id r (return plan) v w e h = absurd h
  after_validation id r (raise _) v w e h =
      rw release_in_lem (rw e (sym (ap (λ p. p.1) (release_in_lem id r w))))

  after_test :
      (b : Bool) (id : ℕ) (r : RetryReservation) (policy_delay budget_delay : Float) (w : World)
      → let m : Action (Option RetryWaitPlan) = branch b (release_in id r >> pure none) (
          on_error (reserved_plan id r policy_delay budget_delay) (release_in id r) >>= λ plan.
          pure (some plan)) in
        PlansNothing (m w).0 → (m w).1 ≡ (release_in id r w).1
  unfolding branch ◌>>=◌ pure on_error release_in now get_budget set_budget
  after_test true id r policy_delay budget_delay w h = refl
  after_test false id r policy_delay budget_delay w h =
      after_validation id r (reserved_plan id r policy_delay budget_delay w).0
        (reserved_plan id r policy_delay budget_delay w).1 w
        (reserved_plan-world id r policy_delay budget_delay w) h

  -- Where the slot is not used, the world is the one after its release.
  plan_reserved-world :
      (id : ℕ) (r : RetryReservation) (policy_delay not_before : Float) (w : World)
      → PlansNothing (plan_reserved id r policy_delay not_before w).0
      → (plan_reserved id r policy_delay not_before w).1 ≡ (release_in id r w).1
  unfolding plan_reserved
  plan_reserved-world id r policy_delay not_before w h = after_test _ id r policy_delay _ w h

  -- The clock does not go back between two readings: `time.monotonic()`.
  abbrev pub IsMonotonic : Type 0
  IsMonotonic = (o : py.Outside) → (py.monotonic o).0 ≤F (py.monotonic (py.monotonic o).1).0 ≡ true

  module _ (id : ℕ) (key : String) (policy_delay : Float) (w : World) where
    -- The world after the reservation: one reading of the clock, and the budget after it.
    abbrev reserved_world : World
    reserved_world = record {
      outside = (py.monotonic w.outside).1;
      budgets = λ i.
          if i == id
          then (reserve_slot (w.budgets id) key (clock w) (clock w +F policy_delay)).1
          else w.budgets i;
    }

    plan_blank :
        py.is_blank key ≡ true
        → plan_with_budget (some id) (some key) policy_delay w
          ≡ (raise invalid_config_error, record w { outside = (py.monotonic w.outside).1 })
    unfolding plan_with_budget reserve_in now get_budget set_budget ◌>>=◌ lift pure
    plan_blank e =
        ground (arith, reserve_blank (w.budgets id) key (clock w) (clock w +F policy_delay) e)

    plan_used :
        py.is_blank key ≡ false
        → plan_with_budget (some id) (some key) policy_delay w
          ≡ plan_reserved id
              (reserve_slot (w.budgets id) key (clock w) (clock w +F policy_delay)).0
              policy_delay
              (clock w +F policy_delay)
              reserved_world
    unfolding plan_with_budget reserve_in now get_budget set_budget ◌>>=◌ lift pure
    plan_used e =
        ground (arith, reserve_lem (w.budgets id) key (clock w) (clock w +F policy_delay) e)

    -- When planning a wait gives up or raises, the budget has the live reservations that it had
    -- before, for every key, if the budget is valid, the key's tokens were handed out before and
    -- the clock does not go back.
    pub plan_with_budget-live :
        (laws : FloatLaws py)
        → IsMonotonic
        → (k : String) → IsValid (w.budgets id)
        → AreTokensBelow (w.budgets id).next_token (reservations_of (w.budgets id) key)
        → let later = (py.monotonic (py.monotonic w.outside).1).0 in
          PlansNothing (plan_with_budget (some id) (some key) policy_delay w).0
          → live ((plan_with_budget (some id) (some key) policy_delay w).1.budgets id) later k
            ≡ live (w.budgets id) later k
    plan_with_budget-live laws mono k v below h = elim (Bool-cases (py.is_blank key)) [
      | inl blank ↦ rw (plan_blank blank) refl
      | inr used ↦
          let r = (reserve_slot (w.budgets id) key (clock w) (clock w +F policy_delay)).0 in
          let gone =
            plan_reserved-world id r policy_delay (clock w +F policy_delay) reserved_world
              (rw (plan_used used) at h) in
          rw (plan_used used, gone, release_in_lem, ==_refl id)
            (release-reserve_slot laws (w.budgets id) key k (clock w) (clock w +F policy_delay)
              (clock reserved_world) v.finite v.distinct below (mono w.outside))
    ]
