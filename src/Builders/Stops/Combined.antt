-- ===== src/Builders/Stops/Combined.antt =====
-- The OR and AND builders for stop strategies of src/relinker/policy.py, and the strategy that they
-- start from.
use relinker.Prelude.{ℕ, suc, ◌≡◌, refl, Bool, leb}
use relinker.Python.{Python, Float, ◌≤F◌, Outcome, return}
use relinker.Effects.{World, Action, pure, ◌>>=◌}
use relinker.Effects.Laws.{or_else, and_then}
use relinker.Validation.{nonnegative, Object, ensure_non_negative}
use relinker.Stop.{
  StopStrategy, stop_after_attempt, stop_after_delay, any_stop_strategy, all_stop_strategy, nil,
  cons, should_stop,
}
use relinker.Stop.Flatten.{
  flatten_any_stop_strategies, flatten_all_stop_strategies, should_stop-either, should_stop-both,
  should_stop-attempts, should_stop-delay, new_any_stop-stop_after_attempt,
  new_any_stop-stop_after_delay, new_all_stop-stop_after_attempt, new_all_stop-stop_after_delay,
  new_stop_after_attempt_of, new_stop_after_delay_of,
}
use relinker.Policy.{RetryPolicy}
use relinker.Policy.Accepted.{IsAccepted, post_init_of}
use relinker.Builders.Stops.{
  stop_when, or_stop_after_attempts, or_stop_after_time, and_stop_after_attempts,
  and_stop_after_time,
}

module _ ⦃py : Python⦄ where
  stop_when_lem :
      (p : RetryPolicy) (s : StopStrategy)
      → IsAccepted p
      → stop_when p s ≡ return (record p { stop_strategy = s })
  unfolding stop_when
  stop_when_lem p s h =
      post_init_of (record p { stop_strategy = s })
        (record {
          named = h.named;
          limited = h.limited;
          budgeted = h.budgeted;
          exclusive = h.exclusive;
        })

  -- The builder succeeds, and its policy's stop strategy answers as `answer` does.
  abbrev pub StopsAs : Outcome RetryPolicy → (ℕ → Float → Action Bool) → Type 0
  StopsAs built answer =
      (q : RetryPolicy) × (built ≡ return q)
      × ((n : ℕ) (elapsed : Float) (w : World)
          → should_stop q.stop_strategy n elapsed w ≡ answer n elapsed w)

  -- Of a valid policy and a positive limit, `or_stop_after_attempts` makes a policy that stops
  -- where the old one does, and otherwise from the limit on.
  pub or_stop_after_attempts-should_stop :
      (p : RetryPolicy) (k : ℕ)
      → IsAccepted p
      → StopsAs
          (or_stop_after_attempts p (nonnegative (suc k)))
          λ n elapsed. should_stop p.stop_strategy n elapsed >>= or_else (pure (leb (suc k) n))
  unfolding or_stop_after_attempts
  or_stop_after_attempts-should_stop p k h =
      let s = p.stop_strategy in
      (
        record p {
          stop_strategy =
              any_stop_strategy
                (flatten_any_stop_strategies (cons s (cons (stop_after_attempt (suc k)) nil)));
        },
        rw (new_stop_after_attempt_of k, new_any_stop-stop_after_attempt s (suc k))
            (stop_when_lem p _ h),
        λ n elapsed w.
            rw
              (
                should_stop-either n elapsed s (stop_after_attempt (suc k)) w,
                should_stop-attempts n elapsed (suc k),
              )
              refl,
      )

  -- Of a valid policy and a time that is not negative, `or_stop_after_time` makes a policy that
  -- stops where the old one does, and otherwise once that time has elapsed.
  pub or_stop_after_time-should_stop :
      (p : RetryPolicy) (seconds : Object) (x : Float)
      → IsAccepted p
      → ensure_non_negative seconds ≡ return x
      → StopsAs
          (or_stop_after_time p seconds)
          λ n elapsed. should_stop p.stop_strategy n elapsed >>= or_else (pure (x ≤F elapsed))
  unfolding or_stop_after_time
  or_stop_after_time-should_stop p seconds x h e =
      let s = p.stop_strategy in
      (
        record p {
          stop_strategy =
              any_stop_strategy
                (flatten_any_stop_strategies (cons s (cons (stop_after_delay x) nil)));
        },
        rw (new_stop_after_delay_of seconds x e, new_any_stop-stop_after_delay s x)
            (stop_when_lem p _ h),
        λ n elapsed w.
            rw
              (should_stop-either n elapsed s (stop_after_delay x) w, should_stop-delay n elapsed x)
              refl,
      )

  -- Of a valid policy and a positive limit, `and_stop_after_attempts` makes a policy that stops
  -- where the old one does from the limit on.
  pub and_stop_after_attempts-should_stop :
      (p : RetryPolicy) (k : ℕ)
      → IsAccepted p
      → StopsAs
          (and_stop_after_attempts p (nonnegative (suc k)))
          λ n elapsed. should_stop p.stop_strategy n elapsed >>= and_then (pure (leb (suc k) n))
  unfolding and_stop_after_attempts
  and_stop_after_attempts-should_stop p k h =
      let s = p.stop_strategy in
      (
        record p {
          stop_strategy =
              all_stop_strategy
                (flatten_all_stop_strategies (cons s (cons (stop_after_attempt (suc k)) nil)));
        },
        rw (new_stop_after_attempt_of k, new_all_stop-stop_after_attempt s (suc k))
            (stop_when_lem p _ h),
        λ n elapsed w.
            rw
              (
                should_stop-both n elapsed s (stop_after_attempt (suc k)) w,
                should_stop-attempts n elapsed (suc k),
              )
              refl,
      )

  -- Of a valid policy and a time that is not negative, `and_stop_after_time` makes a policy that
  -- stops where the old one does once that time has elapsed.
  pub and_stop_after_time-should_stop :
      (p : RetryPolicy) (seconds : Object) (x : Float)
      → IsAccepted p
      → ensure_non_negative seconds ≡ return x
      → StopsAs
          (and_stop_after_time p seconds)
          λ n elapsed. should_stop p.stop_strategy n elapsed >>= and_then (pure (x ≤F elapsed))
  unfolding and_stop_after_time
  and_stop_after_time-should_stop p seconds x h e =
      let s = p.stop_strategy in
      (
        record p {
          stop_strategy =
              all_stop_strategy
                (flatten_all_stop_strategies (cons s (cons (stop_after_delay x) nil)));
        },
        rw (new_stop_after_delay_of seconds x e, new_all_stop-stop_after_delay s x)
            (stop_when_lem p _ h),
        λ n elapsed w.
            rw (should_stop-both n elapsed s (stop_after_delay x) w, should_stop-delay n elapsed x)
              refl,
      )
