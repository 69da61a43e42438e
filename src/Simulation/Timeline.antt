-- ===== src/Simulation/Timeline.antt =====
-- The timeline that `simulate_policy` of src/relinker/internal/policy_simulation.py computes.
use relinker.Prelude.{
  ℕ, zero, suc, ◌+◌, ◌≤◌, ◌<◌, ◌≡◌, refl, Bool, true, false, none, List, [], ◌∷◌, length,
  if◌then◌else◌, arith,
}
use mathlib.Core.Path.{subst}
use native.Mathlib.Decide.{dec_lt}
use relinker.Python.{Python, Float, ◌+F◌, zero_float}
use relinker.Effects.{Action, pure, lift, branch, ◌>>=◌}
use relinker.Effects.Hoare.{
  Always, Answers, Always-Answers, Always-both, Always-of, Always-weaken, Always-pure, Always-throw,
  Always->>=, Always-branch,
}
use relinker.Validation.{nonnegative}
use relinker.Validation.Accepts.{IsSafeDelay, ensure_positive_int_of}
use relinker.Stop.Bounded.{HasLimit, StopsBy, HasLimit-StopsBy}
use relinker.Stop.{should_stop}
use relinker.Delay.{resolve_delay, checked}
use relinker.Delay.Bounds.{checked-IsSafeDelay}
use relinker.Policy.{RetryPolicy}
use relinker.Simulation.{
  RetrySimulationAttempt, has_user_callback, safe_next_delay, simulate_attempt, simulate_from,
  simulate_policy, simulated_count,
}

module _ ⦃py : Python⦄ where
  -- The delay strategy's answer for an attempt, and the stop strategy's at an elapsed time.
  abbrev pub DelaySays : RetryPolicy → ℕ → Float → Type 0
  DelaySays p n delay =
      IsSafeDelay delay × Answers (checked (resolve_delay p.delay_strategy n none)) delay

  abbrev pub StopSays : RetryPolicy → ℕ → Float → Bool → Type 0
  StopSays p n elapsed b = Answers (should_stop p.stop_strategy n elapsed) b

  -- The wait behind an attempt, and whether the policy stops there: at once, or since it would when
  -- the delay is over.
  pub data IsWait (p : RetryPolicy) (n : ℕ) (elapsed : Float) : Float → Bool → Type 0 where
    waits :
        {delay : Float}
        → StopSays p n elapsed false
        → DelaySays p n delay
        → StopSays p n (elapsed +F delay) false
        → IsWait p n elapsed delay false
    at_once : StopSays p n elapsed true → IsWait p n elapsed zero_float true
    too_late :
        (delay : Float)
        → StopSays p n elapsed false
        → DelaySays p n delay
        → StopSays p n (elapsed +F delay) true
        → IsWait p n elapsed zero_float true

  -- The records of attempts from `n` on; the time elapsed is what was slept.
  unfoldable pub IsTimeline :
      (p : RetryPolicy) (n : ℕ) (cumulative : Float) → List RetrySimulationAttempt → Type 0
  IsTimeline p n cumulative [] = Unit
  IsTimeline p n cumulative (a ∷ rest) =
      (a.attempt_number ≡ n)
      × IsWait p n cumulative a.delay_before_next_attempt a.stops_after_attempt
      × (a.cumulative_sleep ≡ cumulative +F a.delay_before_next_attempt)
      × (a.stops_after_attempt ≡ true → rest ≡ [])
      × IsTimeline p (n + 1) a.cumulative_sleep rest

  -- Whether the last of the attempts stops.
  abbrev pub ends_in_stop : List RetrySimulationAttempt → Bool
  ends_in_stop [] = false
  ends_in_stop (a ∷ []) = a.stops_after_attempt
  ends_in_stop (a ∷ b ∷ rest) = ends_in_stop (b ∷ rest)

  safe_next_delay-DelaySays :
      (p : RetryPolicy) (n : ℕ) → Always (DelaySays p n) (safe_next_delay p n)
  unfolding safe_next_delay
  safe_next_delay-DelaySays p n =
      Always-branch (has_user_callback p.delay_strategy) _ _ (λ _. Always-throw _)
        (λ _. Always-both _ (checked-IsSafeDelay _) (Always-Answers _))

  decided :
      (p : RetryPolicy) (n : ℕ) (elapsed delay : Float) (stops : Bool)
      → StopSays p n elapsed false
      → DelaySays p n delay
      → StopSays p n (elapsed +F delay) stops
      → IsWait p n elapsed (if stops then zero_float else delay) stops
  decided p n elapsed delay true on h says = too_late delay on h says
  decided p n elapsed delay false on h says = waits on h says

  simulate_attempt-IsWait :
      (p : RetryPolicy) (n : ℕ) (elapsed : Float)
      → Always (λ (delay, stops). IsWait p n elapsed delay stops) (simulate_attempt p n elapsed)
  unfolding simulate_attempt
  simulate_attempt-IsWait p n elapsed =
      Always->>= (StopSays p n elapsed) _ _ (Always-Answers _) λ stopped now_says.
        Always-branch stopped _ _
          (λ e. Always-pure _ (at_once (subst (StopSays p n elapsed) e now_says)))
          (λ e. Always->>= (DelaySays p n) _ _ (safe_next_delay-DelaySays p n) λ delay h.
            Always->>= (StopSays p n (elapsed +F delay)) _ _ (Always-Answers _) λ stops says.
              Always-pure _
                (decided p n elapsed delay stops (subst (StopSays p n elapsed) e now_says) h says))

  abbrev entry : ℕ → Float → Float → Bool → RetrySimulationAttempt
  entry n cumulative delay stops = record {
    attempt_number = n;
    delay_before_next_attempt = delay;
    stops_after_attempt = stops;
    cumulative_sleep = cumulative +F delay;
  }

  -- What the loop has appended when `remaining` attempts were left to simulate.
  pub record IsPart (p : RetryPolicy) (remaining n : ℕ) (cumulative : Float)
      (as_from : List RetrySimulationAttempt) : Type 0 where
    pub timeline : IsTimeline p n cumulative as_from
    pub at_most : length as_from ≤ remaining
    pub at_least : 0 < remaining → 0 < length as_from
    pub ended : length as_from < remaining → ends_in_stop as_from ≡ true

  -- What follows an attempt: nothing where it stops.
  Follows :
      (p : RetryPolicy) (stops : Bool) (r n : ℕ) (cumulative : Float)
      → List RetrySimulationAttempt
      → Type 0
  Follows p true r n cumulative rest = rest ≡ []
  Follows p false r n cumulative rest = IsPart p r n cumulative rest

  no_more : {p : RetryPolicy} {r n : ℕ} {cumulative : Float} → IsPart p r n cumulative [] → r ≤ 0
  no_more h = ground (arith, h.at_least)

  entry-IsPart :
      (p : RetryPolicy) (stops : Bool) (r n : ℕ) (cumulative delay : Float)
      (rest : List RetrySimulationAttempt)
      → IsWait p n cumulative delay stops
      → Follows p stops r (n + 1) (cumulative +F delay) rest
      → IsPart p (suc r) n cumulative (entry n cumulative delay stops ∷ rest)
  unfolding Follows IsTimeline
  entry-IsPart p true r n c delay [] wait h = record {
    timeline = (refl, wait, refl, (λ _. refl), tt);
    at_most = omega arith;
    at_least = λ _. omega arith;
    ended = λ _. refl;
  }
  entry-IsPart p true r n c delay (b ∷ rest) wait h = cc
  entry-IsPart p false r n c delay [] wait h = record {
    timeline = (refl, wait, refl, (λ _. refl), tt);
    at_most = omega arith;
    at_least = λ _. omega arith;
    ended = λ less. absurd (omega (arith, no_more h));
  }
  entry-IsPart p false r n c delay (b ∷ rest) wait h = record {
    timeline = (refl, wait, refl, (λ e. cc), h.timeline);
    at_most = omega (arith, h.at_most);
    at_least = λ _. omega arith;
    ended = λ less. h.ended (omega arith);
  }

  module _ (p : RetryPolicy) where
    follows :
        (stops : Bool) (r n : ℕ) (c : Float) (m : Action (List RetrySimulationAttempt))
        → Always (IsPart p r n c) m
        → Always (Follows p stops r n c) (branch stops (pure []) m)
    unfolding Follows branch
    follows true r n c m h = Always-pure [] refl
    follows false r n c m h = h

    simulate_from-IsPart :
        (remaining n : ℕ) (c : Float)
        → Always (IsPart p remaining n c) (simulate_from p remaining n c c)
    unfolding simulate_from IsTimeline
    simulate_from-IsPart zero n c = Always-pure [] record {
      timeline = tt;
      at_most = omega arith;
      at_least = λ h. h;
      ended = λ h. absurd (omega arith);
    }
    simulate_from-IsPart (suc r) n c =
        Always->>= (λ (delay, stops). IsWait p n c delay stops) _ _ (simulate_attempt-IsWait p n c)
          λ (delay, stops) wait.
            Always->>= (Follows p stops r (n + 1) (c +F delay)) _ _
              (follows stops r (n + 1) (c +F delay) _ (simulate_from-IsPart r (n + 1) (c +F delay)))
              λ rest h. Always-pure _ (entry-IsPart p stops r n c delay rest wait h)

  -- A simulation that returns, for a positive number of attempts, has one record at least and no
  -- more than asked for, numbered from 1. A record waits for the safe delay that the delay
  -- strategy answered, if the stop strategy answered no at the time slept so far and with the
  -- delay added; it stops with a wait of zero if it answered yes to one of them. The cumulative
  -- sleep is the running sum, nothing follows a record that stops, and the last one stops if
  -- there are fewer than asked for.
  pub simulate_policy-IsPart :
      (p : RetryPolicy) (k : ℕ)
      → Always
          (λ s. IsPart p (suc k) 1 zero_float s.attempts)
          (simulate_policy p (nonnegative (suc k)))
  unfolding simulate_policy lift ◌>>=◌
  simulate_policy-IsPart p k = rw (ensure_positive_int_of k) (
      Always->>= (IsPart p (suc k) 1 zero_float) _ _ (simulate_from-IsPart p (suc k) 1 zero_float)
        λ simulated h. Always-pure _ h)

  module _ (p : RetryPolicy) (m : ℕ) (limit : StopsBy m p.stop_strategy) where
    simulate_attempt-stops :
        (n : ℕ) (elapsed : Float)
        → m ≤ n
        → Always (λ (delay, stops). stops ≡ true) (simulate_attempt p n elapsed)
    unfolding simulate_attempt branch pure
    simulate_attempt-stops n elapsed h =
        Always->>= (λ b. b ≡ true) _ _ (limit.stops n elapsed h)
          λ stopped e. rw e (Always-pure _ refl)

    abbrev AtMost : ℕ → List RetrySimulationAttempt → Type 0
    AtMost n simulated = n + length simulated ≤ suc m

    entry_below :
        (stops : Bool) (n : ℕ) (c delay : Float) (rest : List RetrySimulationAttempt)
        → n ≤ m
        → (stops ≡ true → rest ≡ [])
        → (n < m → n + 1 + length rest ≤ suc m)
        → (m ≤ n → stops ≡ true)
        → AtMost n (entry n c delay stops ∷ rest)
    entry_below stops n c delay rest le none_left below last = elim (dec_lt n m) [
      | yes less ↦ omega (arith, below less)
      | no not_less ↦ rw (none_left (last (omega arith))) (omega arith)
    ]

    rest_below :
        (stops : Bool) (n : ℕ) (k : Action (List RetrySimulationAttempt))
        → (n < m → Always (AtMost (n + 1)) k)
        → Always
            (λ rest. (stops ≡ true → rest ≡ []) × (n < m → n + 1 + length rest ≤ suc m))
            (branch stops (pure []) k)
    unfolding branch
    rest_below true n k h = Always-pure [] ((λ _. refl), (λ less. omega arith))
    rest_below false n k h = elim (dec_lt n m) [
      | yes less ↦ Always-weaken k (λ rest e. ((λ b. cc), (λ _. e))) (h less)
      | no not_less ↦ Always-of k (λ rest. ((λ b. cc), (λ less. absurd (omega arith))))
    ]

    simulate_from-AtMost :
        (remaining n : ℕ) (elapsed c : Float)
        → n ≤ m
        → Always (AtMost n) (simulate_from p remaining n elapsed c)
    unfolding simulate_from
    simulate_from-AtMost zero n elapsed c le = Always-pure [] (omega arith)
    simulate_from-AtMost (suc r) n elapsed c le =
        Always->>= (λ (delay, stops). m ≤ n → stops ≡ true) _ _ (last_stops n elapsed)
          λ (delay, stops) last.
            Always->>= (λ rest. (stops ≡ true → rest ≡ []) × (n < m → n + 1 + length rest ≤ suc m))
              _ _
              (rest_below stops n _ λ less.
                simulate_from-AtMost r (n + 1) (elapsed +F delay) (c +F delay) (omega arith))
              λ rest h. Always-pure _ (entry_below stops n c delay rest le h.0 h.1 last)
      where
        last_stops :
            (n : ℕ) (elapsed : Float)
            → Always (λ (delay, stops). m ≤ n → stops ≡ true) (simulate_attempt p n elapsed)
        last_stops n elapsed = elim (dec_lt n m) [
          | yes less ↦ Always-of _ (λ a h. absurd (omega arith))
          | no not_less ↦
              Always-weaken _ (λ a e h. e) (simulate_attempt-stops n elapsed (omega arith))
        ]

  -- A simulation of a policy that has an attempt limit has at most that many attempts, however
  -- many are asked for.
  pub simulate_policy-HasLimit :
      (p : RetryPolicy) (k m : ℕ)
      → HasLimit (suc m) p.stop_strategy
      → Always (λ s. simulated_count s ≤ suc m) (simulate_policy p (nonnegative (suc k)))
  unfolding simulate_policy lift ◌>>=◌
  simulate_policy-HasLimit p k m h = rw (ensure_positive_int_of k) (
      Always->>= (λ simulated. 1 + length simulated ≤ suc (suc m)) _ _
        (simulate_from-AtMost p (suc m) (HasLimit-StopsBy (suc m) p.stop_strategy h) (suc k) 1
          zero_float zero_float (omega arith))
        λ simulated le. Always-pure (record { attempts = simulated }) (omega (arith, le)))
