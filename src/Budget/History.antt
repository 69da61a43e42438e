-- ===== src/Budget/History.antt =====
-- The limit of RetryBudget (src/relinker/budget.py) seen from outside: all reservations that were
-- made and not released count, also those that the object has forgotten.
pub mod Known
pub mod Limit
use Prim.Native.String.{String}
use text.Mathlib.Text.{◌==◌ as str_eq}
use text.Mathlib.TextEquality.{eq_iff}
use mathlib.Core.Path.{subst}
use mathlib.Core.List.{map-append}
use relinker.Prelude.{
  ℕ, ◌+◌, ◌≤◌, ◌≡◌, refl, sym, ap, ◌∙◌, inl, inr, Bool, true, false, Option, none, some, List, [],
  ◌∷◌, ◌++◌, map, count_if, count_if-append, count_if-map-keep_if-le, if◌then◌else◌, Bool-cases,
  arith,
}
use relinker.Python.{Python, FloatLaws, Float, ◌<F◌, ◌≤F◌, ◌-F◌, float_max, return}
use relinker.Dict.{lookup, lookup-nil, HasDistinctKeys}
use relinker.Budget.Table.{
  maybe_cleanup_fields, reservations_of-cleanup_expired_keys, prune-expired,
}
use relinker.Budget.{
  maybe_cleanup, release_from, snapshot_found, snapshot_view, reserve_slot, cleanup_expired_keys,
  RetryReservation, RetryBudget, RetryBudgetSnapshot, new_budget, reserve, release, cleanup,
  snapshot, prune, reservations_of,
}
use relinker.Budget.Slots.Order.{in_window}
use relinker.Budget.Slots.Legal.{IsWithin}
use relinker.Budget.Windows.{
  IsValid, times, Call, Reachable, made, next, reserved, released, cleaned, viewed,
  Reachable-IsValid,
}
use relinker.Budget.Tokens.{Reachable-HasFreshTokens}
use relinker.Budget.Release.{
  live, store_lem, prune-prune, kept_lem, reservations_of-reserve_slot, reserve_slot_others,
  reserve_slot-not_before, release_lem,
}
use relinker.Budget.Released.{without, prune-without, live-release}

module _ ⦃py : Python⦄ where
  -- The reservations of each key that were made and not released.
  abbrev pub History : Type 0
  History = String → List RetryReservation

  abbrev pub nothing_yet : History
  nothing_yet k = []

  abbrev pub with_made : String → RetryReservation → History → History
  with_made key r h k = if str_eq key k then h k ++ (r ∷ []) else h k

  abbrev pub with_released : RetryReservation → History → History
  with_released r h k = if str_eq r.key k then without r.token (h k) else h k

  -- A budget, the last reading of its clock and its history, which calls lead to from a new one. The
  -- clock does not go back.
  pub data Lived (max_retries : ℕ) (per : Float) : RetryBudget → Float → History → Type 0 where
    new :
        {b : RetryBudget} (clock : Float)
        → new_budget max_retries per ≡ return b
        → Lived max_retries per b clock nothing_yet
    reserving :
        {b after : RetryBudget} {clock : Float} {h : History} {r : RetryReservation} (key : String)
        (now not_before : Float)
        → Lived max_retries per b clock h
        → clock ≤F now ≡ true
        → reserve b key now not_before ≡ return (r, after)
        → Lived max_retries per after now (with_made key r h)
    releasing :
        {b : RetryBudget} {clock : Float} {h : History} (r : RetryReservation) (now : Float)
        → Lived max_retries per b clock h
        → clock ≤F now ≡ true
        → Lived max_retries per (release b r now) now (with_released r h)
    cleaning :
        {b : RetryBudget} {clock : Float} {h : History} (now : Float)
        → Lived max_retries per b clock h
        → clock ≤F now ≡ true
        → Lived max_retries per (cleanup b now) now h
    viewing :
        {b after : RetryBudget} {clock : Float} {h : History} {view : RetryBudgetSnapshot}
        (key : String) (now : Float)
        → Lived max_retries per b clock h
        → clock ≤F now ≡ true
        → snapshot b key now ≡ return (view, after)
        → Lived max_retries per after now h

  pub Lived-Reachable :
      {max_retries : ℕ} {per : Float} {b : RetryBudget} {clock : Float} {h : History}
      → Lived max_retries per b clock h
      → Reachable max_retries per b
  Lived-Reachable (new clock e) = made e
  Lived-Reachable (reserving {b} key now not_before l o e) =
      next (Lived-Reachable l) (reserved b key now not_before e)
  Lived-Reachable (releasing {b} r now l o) = next (Lived-Reachable l) (released b r now)
  Lived-Reachable (cleaning {b} now l o) = next (Lived-Reachable l) (cleaned b now)
  Lived-Reachable (viewing {b} key now l o e) = next (Lived-Reachable l) (viewed b key now e)
