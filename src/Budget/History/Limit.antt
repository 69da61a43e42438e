-- ===== src/Budget/History/Limit.antt =====
-- How many reservations of one key, made and not released, a rolling window holds.
use Prim.Native.String.{String}
use text.Mathlib.Text.{◌==◌ as str_eq}
use mathlib.Core.Path.{subst}
use mathlib.Core.List.{map-append}
use relinker.Prelude.{
  ℕ, ◌≤◌, ◌≡◌, refl, sym, ap, ◌∙◌, inl, inr, true, false, List, [], ◌∷◌, count_if, count_if-append,
  count_if-map-keep_if-le, Bool-cases, arith,
}
use relinker.Python.{Python, FloatLaws, Float, ◌≤F◌, ◌-F◌, return}
use relinker.Dict.{lookup-nil}
use relinker.Budget.{
  RetryReservation, RetryBudget, new_budget, release, cleanup, prune, reservations_of,
}
use relinker.Budget.Slots.Order.{in_window}
use relinker.Budget.Slots.Legal.{IsWithin}
use relinker.Budget.Windows.{
  IsValid, times, Call, Reachable, made, next, reserved, released, cleaned, viewed,
  Reachable-IsValid,
}
use relinker.Budget.Tokens.{Reachable-HasFreshTokens}
use relinker.Budget.Release.{live}
use relinker.Budget.Released.{live-release}
use relinker.Budget.History.{
  History, nothing_yet, with_made, with_released, Lived, new, reserving, releasing, cleaning,
  viewing, Lived-Reachable,
}
use relinker.Budget.History.Known.{
  reserve_same, snapshot_same, Call-limit, live-cleanup, live-snapshot_view, live-reserve_slot,
  live-released, later_slot, carried,
}

module _ ⦃py : Python⦄ where
  -- The history holds the limit, and the object still knows what counts from the clock on.
  record Remembers (b : RetryBudget) (clock : Float) (h : History) : Type 0 where
    pub known : (k : String) → live b clock k ≡ prune b.per (h k) clock
    pub within : (k : String) → IsWithin b.max_retries b.per (times (h k))

  module _ (laws : FloatLaws py) where
    -- Windows that end at the clock or later do not see what is pruned.
    prune-window :
        (per now w : Float) (rs : List RetryReservation)
        → py.is_finite per ≡ true
        → now ≤F w ≡ true
        → count_if (in_window (w -F per) w) (times (prune per rs now))
          ≡ count_if (in_window (w -F per) w) (times rs)
    unfolding prune
    prune-window per now w [] f o = refl
    prune-window per now w (r ∷ rs) f o = ground (
      arith,
      prune-window per now w rs f o,
      laws.lt_not_le (now -F per) r.scheduled_at,
      laws.lt_not_le (w -F per) r.scheduled_at,
      laws.le_trans r.scheduled_at (now -F per) (w -F per),
      laws.sub_mono now w per f o,
    )

    -- So the windows that end at the clock or later hold the limit.
    known-within :
        (b : RetryBudget) (clock : Float) (h : History) (k : String) (w : Float)
        → IsValid b
        → live b clock k ≡ prune b.per (h k) clock
        → clock ≤F w ≡ true
        → count_if (in_window (w -F b.per) w) (times (h k)) ≤ b.max_retries
    known-within b clock h k w v e o = omega (
      arith,
      prune-window b.per clock w (h k) v.finite o,
      prune-window b.per clock w (reservations_of b k) v.finite o,
      ap (λ rs. count_if (in_window (w -F b.per) w) (times rs)) e,
      v.within k w,
    )

    -- The windows that end before the current time get nothing more.
    abbrev GrowsNotBefore : RetryBudget → Float → History → History → Type 0
    GrowsNotBefore b now h h' =
        (k : String) (w : Float)
        → now ≤F w ≡ false
        → count_if (in_window (w -F b.per) w) (times (h' k))
          ≤ count_if (in_window (w -F b.per) w) (times (h k))

    step :
        (b c : RetryBudget) (clock now : Float) (h h' : History)
        → Call b c
        → IsValid c
        → Remembers b clock h
        → ((k : String) → live c now k ≡ prune b.per (h' k) now)
        → GrowsNotBefore b now h h'
        → Remembers c now h'
    step b c clock now h h' call v m known grows =
        let (same_max, same_per) = Call-limit laws call in
        let known_after : (k : String) → live c now k ≡ prune c.per (h' k) now =
          λ k. known k ∙ ap (λ per. prune per (h' k) now) (sym same_per) in
        record {
          known = known_after;
          within = λ k w. elim (Bool-cases (now ≤F w)) [
            | inl o ↦ known-within c now h' k w v (known_after k) o
            | inr o ↦ rw (same_max, same_per) (omega (arith, grows k w o, m.within k w))
          ];
        }

    made_grows :
        (b : RetryBudget) (key : String) (now : Float) (h : History) (r : RetryReservation)
        → now ≤F r.scheduled_at ≡ true
        → GrowsNotBefore b now h (with_made key r h)
    made_grows b key now h r later k w o = elim (Bool-cases (str_eq key k)) [
      | inl e ↦
          rw (e, map-append, count_if-append)
            (ground (arith, laws.le_trans now r.scheduled_at w later))
      | inr e ↦ rw e (omega arith)
    ]

    released_grows :
        (b : RetryBudget) (now : Float) (h : History) (r : RetryReservation)
        → GrowsNotBefore b now h (with_released r h)
    released_grows b now h r k w o = elim (Bool-cases (str_eq r.key k)) [
      | inl e ↦
          rw e (count_if-map-keep_if-le (in_window (w -F b.per) w) (λ x. x.scheduled_at) _ (h k))
      | inr e ↦ rw e (omega arith)
    ]

    new-Remembers :
        (max_retries : ℕ) (per : Float) {b : RetryBudget} (clock : Float)
        → new_budget max_retries per ≡ return b
        → Remembers b clock nothing_yet
    unfolding new_budget reservations_of prune
    new-Remembers max_retries per {b} clock e =
        let empty : b.reservations ≡ [] = ground arith in
        record {
          known = λ k. ground (arith, empty, lookup-nil {V = List RetryReservation} k);
          within = λ k w. omega arith;
        }

    Lived-Remembers :
        {max_retries : ℕ} {per : Float} {b : RetryBudget} {clock : Float} {h : History}
        → Lived max_retries per b clock h
        → Remembers b clock h
    Lived-Remembers {max_retries} {per} (new clock e) = new-Remembers max_retries per clock e
    Lived-Remembers (reserving {b} {after} {clock} {h} {r} key now not_before l o e) =
        let v = Reachable-IsValid laws (Lived-Reachable l) in
        let m = Lived-Remembers l in
        let same = reserve_same laws b key now not_before e in
        let lasts : (k : String) → live b now k ≡ prune b.per (h k) now =
          λ k. carried laws b clock now h k v.finite o (m.known k) in
        step b after clock now h (with_made key r h) (reserved b key now not_before e)
          (Reachable-IsValid laws (next (Lived-Reachable l) (reserved b key now not_before e))) m
          (λ k.
            subst
              (λ (p : RetryReservation × RetryBudget).
                live p.1 now k ≡ prune b.per (with_made key p.0 h k) now)
              (sym same) (live-reserve_slot laws b key now not_before k h v (lasts k)))
          (made_grows b key now h r (
            subst (λ (p : RetryReservation × RetryBudget). now ≤F p.0.scheduled_at ≡ true)
              (sym same) (later_slot laws b key now not_before)))
    Lived-Remembers (releasing {b} {clock} {h} r now l o) =
        let v = Reachable-IsValid laws (Lived-Reachable l) in
        let t = Reachable-HasFreshTokens laws (Lived-Reachable l) in
        let m = Lived-Remembers l in
        let lasts : (k : String) → live b now k ≡ prune b.per (h k) now =
          λ k. carried laws b clock now h k v.finite o (m.known k) in
        step b (release b r now) clock now h (with_released r h) (released b r now)
          (Reachable-IsValid laws (next (Lived-Reachable l) (released b r now))) m
          (λ k. live-release laws b r now k v.distinct t ∙ live-released laws b r now h k (lasts k))
          (released_grows b now h r)
    Lived-Remembers (cleaning {b} {clock} {h} now l o) =
        let v = Reachable-IsValid laws (Lived-Reachable l) in
        let m = Lived-Remembers l in
        step b (cleanup b now) clock now h h (cleaned b now)
          (Reachable-IsValid laws (next (Lived-Reachable l) (cleaned b now))) m
          (λ k.
            live-cleanup laws b now k v.distinct
            ∙ carried laws b clock now h k v.finite o (m.known k))
          (λ k w before. omega arith)
    Lived-Remembers (viewing {b} {after} {clock} {h} key now l o e) =
        let v = Reachable-IsValid laws (Lived-Reachable l) in
        let m = Lived-Remembers l in
        step b after clock now h h (viewed b key now e)
          (Reachable-IsValid laws (next (Lived-Reachable l) (viewed b key now e))) m
          (λ k.
            ap (λ c. live c now k) (snapshot_same laws b key now e)
            ∙ live-snapshot_view laws b key now k v
            ∙ carried laws b clock now h k v.finite o (m.known k))
          (λ k w before. omega arith)

    Reachable-limit :
        {max_retries : ℕ} {per : Float} {b : RetryBudget}
        → Reachable max_retries per b
        → (b.max_retries ≡ max_retries) × (b.per ≡ per)
    unfolding new_budget
    Reachable-limit (made e) = (ground arith, ground arith)
    Reachable-limit (next l call) =
        let (same_max, same_per) = Call-limit laws call in
        let (first_max, first_per) = Reachable-limit l in
        (same_max ∙ first_max, same_per ∙ first_per)

    -- Whatever calls are made on a new RetryBudget, in whatever order, if the clock does not go
    -- back from call to call: of the reservations of one key that were made and not released,
    -- those included that the budget has forgotten, no rolling window of length `per` holds more
    -- than `max_retries`.
    pub Lived-IsWithin :
        {max_retries : ℕ} {per : Float} {b : RetryBudget} {clock : Float} {h : History}
        → Lived max_retries per b clock h
        → (k : String) → IsWithin max_retries per (times (h k))
    Lived-IsWithin {max_retries} {per} {b} {clock} {h} l k =
        let (same_max, same_per) = Reachable-limit (Lived-Reachable l) in
        subst (λ m. IsWithin m per (times (h k))) same_max
          (subst (λ p. IsWithin b.max_retries p (times (h k))) same_per
            ((Lived-Remembers l).within k))
