-- ===== src/Exhaustion/Signals.antt =====
-- `resolve_final_error` of src/relinker/internal/exhaustion.py: which exception a TryAgain stands for.
use relinker.Prelude.{
  ℕ, ◌≡◌, ◌↔◌, refl, sym, inl, inr, Bool, true, false, not, ◌&&◌, Bool-cases, Option, none, some,
  arith,
}
use mathlib.Core.Path.{subst}
use relinker.Python.{
  Error, exception_object, ErrorClass, Link, absent, present, is_exception, is_try_again,
}
use relinker.Exhaustion.{is_operational, usable, first_usable, resolve_final_error}

-- An Exception that is no TryAgain.
abbrev pub IsOperational : Error → Type 0
IsOperational e = (is_exception e ≡ true) × (is_try_again e ≡ false)

abbrev pub HasNone : Link → Type 0
HasNone absent = Unit
HasNone (present e) = (is_exception e && not (is_try_again e)) ≡ false

-- Which exception an exception stands for at the end of an execution.
pub data StandsFor : Error → Error → Type 0 where
  for_itself : {e : Error} → is_try_again e ≡ false → StandsFor e e
  for_cause :
      {class : ErrorClass} {ident : ℕ} {cause : Error} {context : Link} {suppress : Bool}
      → is_try_again (exception_object class ident (present cause) context suppress) ≡ true
      → IsOperational cause
      → StandsFor (exception_object class ident (present cause) context suppress) cause
  for_context :
      {class : ErrorClass} {ident : ℕ} {cause : Link} {context : Error}
      → is_try_again (exception_object class ident cause (present context) false) ≡ true
      → HasNone cause
      → IsOperational context
      → StandsFor (exception_object class ident cause (present context) false) context
  -- Nothing to stand for: no operational cause, and the context is suppressed.
  suppressed :
      {class : ErrorClass} {ident : ℕ} {cause context : Link}
      → is_try_again (exception_object class ident cause context true) ≡ true
      → HasNone cause
      → StandsFor
          (exception_object class ident cause context true)
          (exception_object class ident cause context true)
  unresolved :
      {class : ErrorClass} {ident : ℕ} {cause context : Link} {suppress : Bool}
      → is_try_again (exception_object class ident cause context suppress) ≡ true
      → HasNone cause
      → HasNone context
      → StandsFor
          (exception_object class ident cause context suppress)
          (exception_object class ident cause context suppress)

is_operational-IsOperational : (e : Error) → is_operational e ≡ true → IsOperational e
is_operational-IsOperational e h = (ground arith, ground arith)

IsOperational-is_operational : (e : Error) → IsOperational e → is_operational e ≡ true
IsOperational-is_operational e (h, k) = ground arith

usable-none : (l : Link) → HasNone l → usable l ≡ none
usable-none absent h = refl
usable-none (present e) h = rw h refl

first_usable-suppressed :
    (context : Option Error) (e : Error) → first_usable none true context e ≡ e
first_usable-suppressed none e = refl
first_usable-suppressed (some x) e = refl

first_usable-absent : (suppress : Bool) (e : Error) → first_usable none suppress none e ≡ e
first_usable-absent true e = refl
first_usable-absent false e = refl

module _ (class : ErrorClass) (ident : ℕ) where
  without_cause :
      (cause context : Link) (suppress : Bool)
      → let e = exception_object class ident cause context suppress in
        is_try_again e ≡ true
        → HasNone cause
        → StandsFor e (first_usable none suppress (usable context) e)
  without_cause cause context true h free =
      subst (StandsFor _) (sym (first_usable-suppressed (usable context) _)) (suppressed h free)
  without_cause cause absent false h free = unresolved h free tt
  without_cause cause (present x) false h free = elim (Bool-cases (is_operational x)) [
    | inl good ↦ rw good (for_context h free (is_operational-IsOperational x good))
    | inr bad ↦ rw bad (unresolved h free bad)
  ]

  signalled :
      (cause context : Link) (suppress : Bool)
      → let e = exception_object class ident cause context suppress in
        is_try_again e ≡ true
        → StandsFor e (first_usable (usable cause) suppress (usable context) e)
  signalled absent context suppress h = without_cause absent context suppress h tt
  signalled (present c) context suppress h = elim (Bool-cases (is_operational c)) [
    | inl good ↦ rw good (for_cause h (is_operational-IsOperational c good))
    | inr bad ↦ rw bad (without_cause (present c) context suppress h bad)
  ]

resolved : (e : Error) → StandsFor e (resolve_final_error e)
unfolding resolve_final_error
resolved (exception_object class ident cause context suppress) =
    let e = exception_object class ident cause context suppress in
    elim (Bool-cases (is_try_again e)) [
      | inl h ↦ rw h (signalled class ident cause context suppress h)
      | inr h ↦ rw h (for_itself h)
    ]

resolve_other : (e : Error) → is_try_again e ≡ false → resolve_final_error e ≡ e
unfolding resolve_final_error
resolve_other (exception_object class ident cause context suppress) h = rw h refl

stands : {e a : Error} → StandsFor e a → resolve_final_error e ≡ a
unfolding resolve_final_error
stands (for_itself {e} h) = resolve_other e h
stands (for_cause {cause = c} h good) = rw (h, IsOperational-is_operational c good) refl
stands (for_context {cause = c} {context = x} h free good) =
    rw (h, usable-none c free, IsOperational-is_operational x good) refl
stands (suppressed {cause = c} {context = x} h free) =
    rw (h, usable-none c free) (first_usable-suppressed (usable x) _)
stands (unresolved {cause = c} {context = x} {suppress = s} h free other) =
    rw (h, usable-none c free, usable-none x other) (first_usable-absent s _)

-- An error that is no TryAgain stands for itself. A TryAgain stands for its cause, if that is an
-- Exception and no TryAgain; else for its context, if that is one and is not suppressed; else
-- for itself. The answer is exactly that.
pub resolve_final_error_lem : (e a : Error) → (resolve_final_error e ≡ a) ↔ StandsFor e a
resolve_final_error_lem e a = ((λ same. subst (StandsFor e) same (resolved e)), stands)
