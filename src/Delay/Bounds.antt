-- ===== src/Delay/Bounds.antt =====
-- The delays of src/relinker/delays behind the check of what a strategy returns.
use relinker.Prelude.{◌≡◌, refl}
use relinker.Python.{Python, Float, Outcome, return, raise}
use relinker.Effects.{World, Action, lift}
use relinker.Effects.Hoare.{Returns, Always, Always-next}
use relinker.Validation.{Object, ensure_resolved_delay}
use relinker.Validation.Accepts.{IsSafeDelay, ensure_resolved_delay-IsSafeDelay}
use relinker.Delay.{checked}

module _ ⦃py : Python⦄ where
  Returns-resolved :
      (o : Object) (r : Outcome Float) (w : World)
      → ensure_resolved_delay o ≡ r
      → Returns IsSafeDelay (r, w)
  Returns-resolved o (return x) w e = ensure_resolved_delay-IsSafeDelay o e
  Returns-resolved o (raise _) w e = tt

  pub lift_resolved : (o : Object) → Always IsSafeDelay (lift (ensure_resolved_delay o))
  unfolding lift
  lift_resolved o = record { apply = λ w. Returns-resolved o (ensure_resolved_delay o) w refl }

  pub checked-IsSafeDelay : (m : Action Object) → Always IsSafeDelay (checked m)
  unfolding checked
  checked-IsSafeDelay m = Always-next m (λ o. lift (ensure_resolved_delay o)) lift_resolved
