-- ===== src/Diagnostics/Stops/Limits.antt =====
-- The limit on the attempts that internal/policy_diagnostics.py knows, the one that
-- internal/policy_simulation.py estimates, and the one that the configuration has.
use relinker.Prelude.{
  ℕ, ◌≡◌, refl, ap, Bool, true, false, not, ◌&&◌, ◌||◌, Option, none, some, List, [], ◌∷◌, any, all,
  map, if◌then◌else◌, arith,
}
use mathlib.Core.Path.{subst}
use relinker.Python.{Python}
use relinker.Records.{is_some}
use relinker.Stop.{
  StopStrategy, stop_after_attempt, stop_after_delay, stop_forever, any_stop_strategy,
  all_stop_strategy, user_stop, StopStrategies, nil, cons,
}
use relinker.Simulation.Load.{
  Estimate, least_bound, bounded, is_unbounded, has_maximum, known, min_of, max_of, estimate_any,
  estimate_all, estimate_attempts, estimates,
}
use relinker.Diagnostics.Stops.{
  least_limit, stop_is_infinite, some_is_infinite, all_are_infinite, known_attempt_limit,
  attempt_limits,
}

-- What an estimate, a known limit and the test for infinity say together.
data Agree : Estimate → Option ℕ → Bool → Type 0 where
  limited : (n : ℕ) → Agree (some n, false, false) (some n) false
  endless : Agree (none, true, false) none true
  unsure : Agree (none, false, true) none false

data AgreeAll : List Estimate → List (Option ℕ) → (every some : Bool) → Type 0 where
  no_parts : AgreeAll [] [] true false
  part :
      {e : Estimate} {l : Option ℕ} {b : Bool} {es : List Estimate} {ls : List (Option ℕ)}
      {every some : Bool}
      → Agree e l b
      → AgreeAll es ls every some
      → AgreeAll (e ∷ es) (l ∷ ls) (b && every) (b || some)

bounded-known :
    {es : List Estimate} {ls : List (Option ℕ)} {a o : Bool}
    → AgreeAll es ls a o
    → bounded es ≡ known ls
bounded-known no_parts = refl
bounded-known (part (limited n) hs) = ap (λ ns. n ∷ ns) (bounded-known hs)
bounded-known (part endless hs) = bounded-known hs
bounded-known (part unsure hs) = bounded-known hs

all-unbounded :
    {es : List Estimate} {ls : List (Option ℕ)} {a o : Bool}
    → AgreeAll es ls a o
    → all is_unbounded es ≡ a
all-unbounded no_parts = refl
all-unbounded (part (limited n) hs) = refl
all-unbounded (part endless hs) = all-unbounded hs
all-unbounded (part unsure hs) = refl

any-unbounded :
    {es : List Estimate} {ls : List (Option ℕ)} {a o : Bool}
    → AgreeAll es ls a o
    → any is_unbounded es ≡ o
any-unbounded no_parts = refl
any-unbounded (part (limited n) hs) = any-unbounded hs
any-unbounded (part endless hs) = refl
any-unbounded (part unsure hs) = any-unbounded hs

maxima :
    {es : List Estimate} {ls : List (Option ℕ)} {a o : Bool}
    → AgreeAll es ls a o
    → map (λ e. e.0) es ≡ ls
maxima no_parts = refl
maxima (part (limited n) hs) = ap (λ ns. some n ∷ ns) (maxima hs)
maxima (part endless hs) = ap (λ ns. none ∷ ns) (maxima hs)
maxima (part unsure hs) = ap (λ ns. none ∷ ns) (maxima hs)

all-maximum :
    {es : List Estimate} {ls : List (Option ℕ)} {a o : Bool}
    → AgreeAll es ls a o
    → all has_maximum es ≡ all is_some ls
all-maximum no_parts = refl
all-maximum (part (limited n) hs) = all-maximum hs
all-maximum (part endless hs) = refl
all-maximum (part unsure hs) = refl

-- Where some part has a limit, not every part is endless.
known-every :
    {es : List Estimate} {ls : List (Option ℕ)} {a o : Bool} {n : ℕ} {ns : List ℕ}
    → AgreeAll es ls a o
    → known ls ≡ n ∷ ns
    → a ≡ false
known-every no_parts h = ground arith
known-every (part (limited n) hs) h = refl
known-every (part endless hs) h = known-every hs h
known-every (part unsure hs) h = refl

least_bound-Agree :
    (ns : List ℕ) (a : Bool)
    → ((n : ℕ) (ms : List ℕ) → ns ≡ n ∷ ms → a ≡ false)
    → Agree (least_bound ns a) (least_limit ns) a
least_bound-Agree [] true h = endless
least_bound-Agree [] false h = unsure
least_bound-Agree (n ∷ ns) a h = rw (h n ns refl) (limited (min_of n ns))

estimate_any-Agree :
    {es : List Estimate} {ls : List (Option ℕ)} {a o : Bool}
    → AgreeAll es ls a o
    → Agree (estimate_any es) (least_limit (known ls)) a
estimate_any-Agree {es} {ls} {a} hs =
    rw (bounded-known hs, all-unbounded hs)
      (least_bound-Agree (known ls) a λ n ns e. known-every hs e)

abbrev all_of : Bool → Bool → ℕ → Estimate
all_of some_endless every_limited n =
    if some_endless
    then (none, true, false)
    else if every_limited
    then (some n, false, false)
    else (none, false, true)

all_of-Agree :
    (o m : Bool) (n : ℕ) → Agree (all_of o m n) (if o then none else if m then some n else none) o
all_of-Agree true m n = endless
all_of-Agree false true n = limited n
all_of-Agree false false n = unsure

estimate_all-Agree :
    {es : List Estimate} {ls : List (Option ℕ)} {a o : Bool}
    → AgreeAll es ls a o
    → Agree
        (estimate_all es)
        (if o then none else if all is_some ls then some (max_of (known ls)) else none)
        o
estimate_all-Agree {es} {ls} {a} {o} hs =
    rw (any-unbounded hs, all-maximum hs, maxima hs)
      (all_of-Agree o (all is_some ls) (max_of (known ls)))

module _ ⦃py : Python⦄ where
  mutual
    unfolding estimate_attempts estimates known_attempt_limit attempt_limits stop_is_infinite
        some_is_infinite all_are_infinite

    agree :
        (s : StopStrategy)
        → Agree (estimate_attempts s) (known_attempt_limit s) (stop_is_infinite s)
    agree (stop_after_attempt maximum) = limited maximum
    agree (stop_after_delay seconds) = unsure
    agree stop_forever = endless
    agree (any_stop_strategy ss) = estimate_any-Agree (agree_all ss)
    agree (all_stop_strategy ss) = estimate_all-Agree (agree_all ss)
    agree (user_stop f) = unsure

    agree_all :
        (ss : StopStrategies)
        → AgreeAll (estimates ss) (attempt_limits ss) (all_are_infinite ss) (some_is_infinite ss)
    agree_all nil = no_parts
    agree_all (cons s ss) = part (agree s) (agree_all ss)

  Agree-equal :
      {e : Estimate} {l : Option ℕ} {b : Bool} → Agree e l b → e ≡ (l, b, not (is_some l || b))
  Agree-equal (limited n) = refl
  Agree-equal endless = refl
  Agree-equal unsure = refl

  -- The estimate of a stop strategy for its load and the diagnostics agree: its maximum is the
  -- known attempt limit, it is unbounded exactly if the strategy is found infinite, and partial
  -- exactly if neither is known.
  pub estimate_attempts-known_attempt_limit :
      (s : StopStrategy)
      → estimate_attempts s ≡ (
        known_attempt_limit s,
        stop_is_infinite s,
        not (is_some (known_attempt_limit s) || stop_is_infinite s),
      )
  estimate_attempts-known_attempt_limit s = Agree-equal (agree s)

  limited_of : {e : Estimate} {b : Bool} (m : ℕ) → Agree e (some m) b → b ≡ false
  limited_of m (limited n) = refl

  -- A strategy with a known limit is not endless.
  pub limited_not_infinite :
      (m : ℕ) (s : StopStrategy) → known_attempt_limit s ≡ some m → stop_is_infinite s ≡ false
  limited_not_infinite m s h =
      limited_of m (subst (λ l. Agree (estimate_attempts s) l (stop_is_infinite s)) h (agree s))
