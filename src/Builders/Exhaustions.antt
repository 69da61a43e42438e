-- ===== src/Builders/Exhaustions.antt =====
-- The exhaustion builders of src/relinker/policy.py, called one after another.
use relinker.Prelude.{◌≡◌, refl, ap, ◌∙◌, Option, none, some}
use relinker.Python.{Python, Value, Error, return}
use relinker.Effects.{World, Action, pure, throw, branch, ◌>>=◌}
use relinker.Records.{RetryResult}
use relinker.Exhaustion.{
  Final, value, whole, raise_made, finish_default, finish_error, finish_made, finish_fallback,
  finish_exhausted,
}
use relinker.Policy.{RetryPolicy, post_init}
use relinker.Policy.Accepted.{IsAccepted, post_init_of}
use relinker.Builders.{
  replace_exhaustion, raise_last, return_result, on_exhausted_return, on_exhausted_raise,
}

module _ ⦃py : Python⦄ where
  -- The four builders with their arguments.
  pub data Ending : Type 0 where
    raises_last returns_result : Ending
    returns_fallback : (RetryResult → Action Value) → Ending
    raises_made : (RetryResult → Action (Option Error)) → Ending

  abbrev pub choose : Ending → RetryPolicy → RetryPolicy
  choose raises_last p = raise_last p
  choose returns_result p = return_result p
  choose (returns_fallback callback) p = on_exhausted_return p callback
  choose (raises_made factory) p = on_exhausted_raise p factory

  -- The error is raised where there is one; a result that was not acceptable has none.
  abbrev raise_or_default : RetryPolicy → RetryResult → Option Error → Action Final
  raise_or_default p r none = finish_default p r
  raise_or_default p r (some e) = throw e

  -- How the documentation of each builder says that an exhausted execution ends.
  abbrev pub ends_as : Ending → RetryPolicy → RetryResult → Action Final
  ends_as raises_last p r = raise_or_default p r r.error
  ends_as returns_result p r = pure (whole r)
  ends_as (returns_fallback callback) p r = callback r >>= λ v. pure (value v)
  ends_as (raises_made factory) p r = factory r >>= raise_made

  chosen-IsAccepted : (last : Ending) (p : RetryPolicy) → IsAccepted p → IsAccepted (choose last p)
  unfolding raise_last return_result on_exhausted_return on_exhausted_raise replace_exhaustion
  chosen-IsAccepted raises_last p h = record {
    named = h.named;
    limited = h.limited;
    budgeted = h.budgeted;
    exclusive = refl;
  }
  chosen-IsAccepted returns_result p h = record {
    named = h.named;
    limited = h.limited;
    budgeted = h.budgeted;
    exclusive = refl;
  }
  chosen-IsAccepted (returns_fallback callback) p h = record {
    named = h.named;
    limited = h.limited;
    budgeted = h.budgeted;
    exclusive = refl;
  }
  chosen-IsAccepted (raises_made factory) p h = record {
    named = h.named;
    limited = h.limited;
    budgeted = h.budgeted;
    exclusive = refl;
  }

  default_ignores :
      (first : Ending) (p : RetryPolicy) (r : RetryResult)
      → finish_default (choose first p) r ≡ finish_default p r
  unfolding raise_last return_result on_exhausted_return on_exhausted_raise replace_exhaustion
      finish_default
  default_ignores raises_last p r = refl
  default_ignores returns_result p r = refl
  default_ignores (returns_fallback callback) p r = refl
  default_ignores (raises_made factory) p r = refl

  raise_or_default_lem :
      (p : RetryPolicy) (r : RetryResult) (e : Option Error)
      → finish_error (raise_last p) r e ≡ raise_or_default p r e
  unfolding finish_error finish_default branch raise_last replace_exhaustion
  raise_or_default_lem p r none = refl
  raise_or_default_lem p r (some e) = refl

  ends_as_lem :
      (last : Ending) (p : RetryPolicy) (r : RetryResult)
      → finish_exhausted (choose last p) r ≡ ends_as last p r
  unfolding raise_last return_result on_exhausted_return on_exhausted_raise replace_exhaustion
      finish_exhausted finish_fallback finish_made branch
  ends_as_lem raises_last p r = raise_or_default_lem p r r.error
  ends_as_lem returns_result p r = refl
  ends_as_lem (returns_fallback callback) p r = refl
  ends_as_lem (raises_made factory) p r = refl

  same_default :
      (last first : Ending) (p : RetryPolicy) (r : RetryResult)
      → ends_as last (choose first p) r ≡ ends_as last p r
  same_default raises_last first p r = raised (r.error)
    where
      raised : (e : Option Error) → raise_or_default (choose first p) r e ≡ raise_or_default p r e
      raised none = default_ignores first p r
      raised (some e) = refl
  same_default returns_result first p r = refl
  same_default (returns_fallback callback) first p r = refl
  same_default (raises_made factory) first p r = refl

  -- For a policy that passes its checks, whatever exhaustion builder was called before, an
  -- exhausted execution ends as the last one says, and the new policy passes the checks.
  pub choose-finish_exhausted :
      (last first : Ending) (p : RetryPolicy) (r : RetryResult) (w : World)
      → IsAccepted p
      → (finish_exhausted (choose last (choose first p)) r w ≡ ends_as last p r w)
        × (post_init (choose last (choose first p)) ≡ return (choose last (choose first p)))
  choose-finish_exhausted last first p r w h = (
    ap (λ m. m w) (ends_as_lem last (choose first p) r ∙ same_default last first p r),
    post_init_of _ (chosen-IsAccepted last (choose first p) (chosen-IsAccepted first p h)),
  )
