-- ===== src/Http/Safe.antt =====
-- The bounds of the delays of src/relinker/http.py.
use relinker.Prelude.{
  ◌≡◌, refl, inl, inr, true, false, ◌||◌, Bool-cases, Option, none, some, [], ◌∷◌, ltb, length,
  ◌==◌, arith,
}
use mathlib.Core.Path.{subst}
use relinker.Python.{
  Python, Float, FloatLaws, ◌<F◌, ◌≤F◌, ◌-F◌, zero_float, float_min, float_max, Outcome, return,
  raise, Error, is_exception,
}
use relinker.Effects.{World, Action, pure, lift, ◌>>=◌}
use relinker.Effects.Hoare.{Always, Always-pure, Always->>=, Always-next}
use relinker.Records.{RetryState}
use relinker.Validation.{
  Object, real, ensure_safe_delay, max_sleep_seconds, require_finite, ensure_finite_float,
  ensure_non_negative,
}
use relinker.Validation.Accepts.{IsSafeDelay, ensure_safe_delay-IsSafeDelay}
use relinker.Http.{
  Text, Dates, max_header_length, is_empty_text, matches_delay_seconds, strip, whole_seconds,
  read_digits, time, until_date, parse_stripped, parse_retry_after,
}
use relinker.Http.Headers.{
  Responses, resolved_delay, and_some, safe_maximum_of, make_callback, retry_after_delay,
  header_delay, or_day, capped,
}

module _ ⦃py : Python⦄ where
  -- Between zero and a maximum.
  pub record Within (maximum x : Float) : Type 0 where
    pub at_least : zero_float ≤F x ≡ true
    pub at_most : x ≤F maximum ≡ true

  -- What a failed parse of a date may raise.
  pub record FailsOrdinarily (dates : Dates) : Type 0 where
    pub ordinary : (t : Text) (e : Error) → dates.http_date t ≡ raise e → is_exception e ≡ true

  -- The action returns, in some world, a delay between zero and a maximum.
  pub record ReturnsWithin (maximum : Float) (m : Action Float) (w : World) : Type 0 where
    pub delay : Float
    pub after : World
    pub returned : m w ≡ (return delay, after)
    pub within : Within maximum delay

  -- The numbers that the checks of the parser accept.
  pub record IsNonNegative (x : Float) : Type 0 where
    pub finite : py.is_finite x ≡ true
    pub nonneg : zero_float ≤F x ≡ true

module _ ⦃py : Python⦄ (laws : FloatLaws py) where
  le_refl : (x : Float) → x ≤F x ≡ true
  le_refl x = elim (laws.le_total x x) [ inl e ↦ e | inr e ↦ e ]

  not_lt : (a b : Float) → b <F a ≡ false → a ≤F b ≡ true
  not_lt a b e = ground (arith, laws.lt_not_le b a)

  lt_le : (a b : Float) → a <F b ≡ true → a ≤F b ≡ true
  lt_le a b e = elim (laws.le_total a b) [ inl h ↦ h | inr h ↦ ground (arith, laws.lt_not_le a b) ]

  min-Within :
      (a b : Float) → zero_float ≤F a ≡ true → zero_float ≤F b ≡ true → Within b (float_min a b)
  min-Within a b ha hb = elim (Bool-cases (b <F a)) [
    | inl e ↦ rw e record { at_least = hb; at_most = le_refl b }
    | inr e ↦ rw e record { at_least = ha; at_most = not_lt a b e }
  ]

  max-Within :
      (m x : Float) → zero_float ≤F m ≡ true → x ≤F m ≡ true → Within m (float_max zero_float x)
  max-Within m x hm h = elim (Bool-cases (zero_float <F x)) [
    | inl e ↦ rw e record { at_least = lt_le zero_float x e; at_most = h }
    | inr e ↦ rw e record { at_least = le_refl zero_float; at_most = hm }
  ]

  min_le : (a b : Float) → float_min a b ≤F b ≡ true
  min_le a b = elim (Bool-cases (b <F a)) [ inl e ↦ rw e (le_refl b) | inr e ↦ rw e (not_lt a b e) ]

  whole_seconds-Within :
      (t : Text) (safe_default maximum : Float)
      → zero_float ≤F maximum ≡ true
      → Within maximum safe_default
      → Within maximum (whole_seconds t safe_default maximum)
  unfolding whole_seconds
  whole_seconds-Within [] d m hm hd = hd
  whole_seconds-Within (c ∷ cs) d m hm hd = elim (Bool-cases (c == b'-')) [
    | inl minus ↦ elim (Bool-cases (read_digits 0 cs == 0)) [
      | inl e ↦ rw (minus, e) (min-Within (py.of_nat 0) m (laws.of_nat_nonneg 0) hm)
      | inr e ↦ rw (minus, e) hd
    ]
    | inr digit ↦
        rw digit (min-Within (py.of_nat (read_digits 0 (c ∷ cs))) m (laws.of_nat_nonneg _) hm)
  ]

  module _ (dates : Dates) where
    pure-ReturnsWithin : {m x : Float} (w : World) → Within m x → ReturnsWithin m (pure x) w
    unfolding pure
    pure-ReturnsWithin {x = x} w h = record { delay = x; after = w; returned = refl; within = h }

    module _ (fails : FailsOrdinarily dates) (d m : Float) (hm : zero_float ≤F m ≡ true)
        (hd : Within m d) (w : World) where
      date-ReturnsWithin :
          (r : Outcome (Option Float))
          → ((e : Error) → r ≡ raise e → is_exception e ≡ true)
          → ReturnsWithin m (until_date dates r d m) w
      unfolding until_date time ◌>>=◌ pure
      date-ReturnsWithin (return none) h = pure-ReturnsWithin w hd
      date-ReturnsWithin (return (some target)) h = record {
        delay = float_max zero_float (float_min (target -F (dates.time w.outside).0) m);
        after = record w { outside = (dates.time w.outside).1 };
        returned = refl;
        within = max-Within m _ hm (min_le _ m);
      }
      date-ReturnsWithin (raise e) h = rw (h e refl) (pure-ReturnsWithin w hd)

      stripped-ReturnsWithin : (t : Text) → ReturnsWithin m (parse_stripped dates t d m) w
      unfolding parse_stripped
      stripped-ReturnsWithin t =
          elim (Bool-cases (is_empty_text t || ltb max_header_length (length t))) [
            | inl e ↦ rw e (pure-ReturnsWithin w hd)
            | inr e ↦ elim (Bool-cases (matches_delay_seconds t)) [
              | inl s ↦ rw (e, s) (pure-ReturnsWithin w (whole_seconds-Within t d m hm hd))
              | inr s ↦ rw (e, s) (date-ReturnsWithin (dates.http_date t) (fails.ordinary t))
            ]
          ]

  pub accepted : (x : Float) → IsNonNegative x → ensure_non_negative (real x) ≡ return x
  unfolding ensure_non_negative ensure_finite_float require_finite
  accepted x h = rw (h.finite, laws.lt_not_le x zero_float, h.nonneg) refl

  -- Parsing any Retry-After text, with a default and a maximum that are finite and not negative,
  -- returns a delay from zero to the maximum, if the date parser fails with ordinary exceptions
  -- only.
  pub parse_retry_after-ReturnsWithin :
      (dates : Dates) (header_value : Text) (default_delay maximum : Float) (w : World)
      → FailsOrdinarily dates
      → IsNonNegative default_delay
      → IsNonNegative maximum
      → ReturnsWithin maximum (parse_retry_after dates header_value default_delay maximum) w
  unfolding parse_retry_after ◌>>=◌ lift
  parse_retry_after-ReturnsWithin dates t d m w fails hd hm =
      rw (accepted d hd, accepted m hm)
        (stripped-ReturnsWithin dates fails (float_min d m) m hm.nonneg
          (min-Within d m hd.nonneg hm.nonneg) w (strip dates.is_space t))

  safe_nonneg : (x : Float) → IsSafeDelay x → IsNonNegative x
  safe_nonneg x h = record {
    finite = h.finite;
    nonneg = ground (arith, laws.lt_not_le x zero_float, h.nonneg);
  }

  bounded_safe : (m x : Float) → IsSafeDelay m → Within m x → IsSafeDelay x
  bounded_safe m x hm h = record {
    finite =
        laws.finite_between zero_float x m (laws.count_finite 0 (omega arith)) hm.finite h.at_least
          h.at_most;
    nonneg = ground (arith, laws.lt_not_le x zero_float, h.at_least);
    capped = ground (
      arith,
      laws.lt_not_le max_sleep_seconds x,
      laws.le_trans x m max_sleep_seconds h.at_most (not_lt m max_sleep_seconds hm.capped),
    );
  }

  day_safe : IsSafeDelay max_sleep_seconds
  day_safe = record {
    finite = laws.count_finite 86_400 (omega arith);
    nonneg = ground (arith, laws.lt_not_le max_sleep_seconds zero_float, laws.of_nat_nonneg 86_400);
    capped =
        ground
          (arith, laws.lt_not_le max_sleep_seconds max_sleep_seconds, le_refl max_sleep_seconds);
  }

  -- The maximum of a header's delay, where there is one.
  abbrev AreSafe : Option Float → Type 0
  AreSafe none = Unit
  AreSafe (some m) = IsSafeDelay m

  or_day-IsSafeDelay : (maximum : Option Float) → AreSafe maximum → IsSafeDelay (or_day maximum)
  or_day-IsSafeDelay none h = day_safe
  or_day-IsSafeDelay (some m) h = h

  capped-IsSafeDelay :
      (maximum : Option Float) (x : Float)
      → AreSafe maximum
      → IsSafeDelay x
      → IsSafeDelay (float_max zero_float (capped maximum x))
  capped-IsSafeDelay none x h hx =
      bounded_safe x _ hx (max-Within x x (safe_nonneg x hx).nonneg (le_refl x))
  capped-IsSafeDelay (some m) x h hx =
      bounded_safe m _ h (max-Within m (float_min x m) (safe_nonneg m h).nonneg (min_le x m))

  Always-ReturnsWithin :
      (m : Float) (a : Action Float)
      → IsSafeDelay m
      → ((w : World) → ReturnsWithin m a w)
      → Always IsSafeDelay a
  Always-ReturnsWithin m a hm h = record {
    apply = λ w. rw ((h w).returned) (bounded_safe m (h w).delay hm (h w).within);
  }

  module _ (dates : Dates) (responses : Responses) (safe_default : Float)
      (safe_maximum : Option Float) (fails : FailsOrdinarily dates) (hd : IsSafeDelay safe_default)
      (hm : AreSafe safe_maximum) where
    resolved_delay-IsSafeDelay :
        (found : Option Text)
        → Always IsSafeDelay (resolved_delay dates responses safe_default safe_maximum found)
    unfolding resolved_delay
    resolved_delay-IsSafeDelay none = Always-pure safe_default hd
    resolved_delay-IsSafeDelay (some value) =
        Always-ReturnsWithin (or_day safe_maximum) _ (or_day-IsSafeDelay safe_maximum hm) λ w.
          parse_retry_after-ReturnsWithin dates value safe_default (or_day safe_maximum) w fails
            (safe_nonneg safe_default hd)
            (safe_nonneg (or_day safe_maximum) (or_day-IsSafeDelay safe_maximum hm))

    header_delay-safe :
        (state : RetryState)
        → Always IsSafeDelay (header_delay dates responses safe_default safe_maximum state)
    unfolding header_delay
    header_delay-safe state = Always-next _ _ λ found.
        Always->>= IsSafeDelay _ _ (resolved_delay-IsSafeDelay found)
          λ x h. Always-pure _ (capped-IsSafeDelay safe_maximum x hm h)

  and_some-AreSafe :
      (o : Object) (r : Outcome Float) (m : Option Float)
      → ensure_safe_delay o ≡ r
      → and_some r ≡ return m
      → AreSafe m
  and_some-AreSafe o (return x) none e h = tt
  and_some-AreSafe o (return x) (some y) e h = ensure_safe_delay-IsSafeDelay o cc
  and_some-AreSafe o (raise _) m e h = cc

  maximum-AreSafe :
      (maximum : Option Object) (m : Option Float) → safe_maximum_of maximum ≡ return m → AreSafe m
  maximum-AreSafe none none h = tt
  maximum-AreSafe none (some m) h = cc
  maximum-AreSafe (some o) m h = and_some-AreSafe o (ensure_safe_delay o) m refl h

  abbrev CallbackSafe : Outcome (RetryState → Action Float) → Type 0
  CallbackSafe (return f) = (state : RetryState) → Always IsSafeDelay (f state)
  CallbackSafe (raise e) = Unit

  module _ (dates : Dates) (responses : Responses) (fails : FailsOrdinarily dates) where
    callback_safe :
        (default_delay : Object) (maximum : Option Object) (r : Outcome Float)
        (s : Outcome (Option Float)) (callback : RetryState → Action Float)
        → ensure_safe_delay default_delay ≡ r
        → safe_maximum_of maximum ≡ s
        → make_callback dates responses r s ≡ return callback
        → (state : RetryState) → Always IsSafeDelay (callback state)
    callback_safe d m (raise e) s k hd hm h state = cc
    callback_safe d m (return x) (raise e) k hd hm h state = cc
    callback_safe d m (return x) (return y) k hd hm h state =
        subst (λ r. CallbackSafe r) h
          (header_delay-safe dates responses x y fails (ensure_safe_delay-IsSafeDelay d hd)
            (maximum-AreSafe m y hm))
          state

  -- Every delay that a callback made by `retry_after_delay` returns is finite, not negative and
  -- at most a day, whatever the response says, if the date parser fails with ordinary exceptions
  -- only.
  pub retry_after_delay-IsSafeDelay :
      (dates : Dates) (responses : Responses) (default_delay : Object) (maximum : Option Object)
      (callback : RetryState → Action Float) (state : RetryState)
      → FailsOrdinarily dates
      → retry_after_delay dates responses default_delay maximum ≡ return callback
      → Always IsSafeDelay (callback state)
  unfolding retry_after_delay
  retry_after_delay-IsSafeDelay dates responses d m k state fails h =
      callback_safe dates responses fails d m (ensure_safe_delay d) (safe_maximum_of m) k refl refl
        h state
