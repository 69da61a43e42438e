-- ===== src/Diagnostics/Warnings/Given.antt =====
-- The warnings of src/relinker/internal/policy_diagnostics.py for a policy that never retries and
-- for one that retries forever.
use relinker.Prelude.{
  ◌≡◌, refl, Bool-cases, inl, inr, true, false, ◌&&◌, ◌||◌, List, [], ◌∷◌, ◌++◌, any, arith,
}
use relinker.Python.{Python, return}
use relinker.Effects.{World, pure, branch, ◌>>=◌}
use relinker.Policy.{RetryPolicy}
use relinker.Stop.{
  StopStrategy, StopStrategies, stop_after_attempt, stop_after_delay, stop_forever,
  any_stop_strategy, all_stop_strategy, user_stop, nil, cons,
}
use relinker.Diagnostics.Stops.{
  stop_is_infinite, some_is_infinite, all_are_infinite, stops_after_first_attempt,
  some_stops_after_first, all_stop_after_first, has_max_time,
}
use relinker.Diagnostics.Delays.{has_effective_random_delay}
use relinker.Diagnostics.Health.{
  PolicyWarning, PolicyHealthReport, is_critical, risk_level, risky, for_testing_with_max_time,
  advisory,
}
use relinker.Diagnostics.Warnings.{
  issue, stops_at_three, uses_implicit_default_policy, checks_before, checks_after,
  check_total_sleep, all_warnings, compute_diagnostics, doctor_policy,
}

module _ ⦃py : Python⦄ where
  mutual
    unfolding stop_is_infinite some_is_infinite all_are_infinite stops_after_first_attempt
        some_stops_after_first all_stop_after_first

    ends_at_once :
        (s : StopStrategy) → stops_after_first_attempt s ≡ true → stop_is_infinite s ≡ false
    ends_at_once (stop_after_attempt maximum) h = refl
    ends_at_once (stop_after_delay seconds) h = refl
    ends_at_once stop_forever h = cc
    ends_at_once (any_stop_strategy ss) h = some_ends ss h
    ends_at_once (all_stop_strategy ss) h = all_end ss h
    ends_at_once (user_stop f) h = refl

    some_ends :
        (ss : StopStrategies) → some_stops_after_first ss ≡ true → all_are_infinite ss ≡ false
    some_ends nil h = cc
    some_ends (cons s ss) h = ground (arith, ends_at_once s, some_ends ss)

    all_end : (ss : StopStrategies) → all_stop_after_first ss ≡ true → some_is_infinite ss ≡ false
    all_end nil h = refl
    all_end (cons s ss) h = ground (arith, ends_at_once s, all_end ss)

  more_than_one : (s : StopStrategy) → stops_after_first_attempt s ≡ true → stops_at_three s ≡ false
  unfolding stops_after_first_attempt
  more_than_one (stop_after_attempt maximum) h = ground arith
  more_than_one (stop_after_delay seconds) h = refl
  more_than_one stop_forever h = refl
  more_than_one (any_stop_strategy ss) h = refl
  more_than_one (all_stop_strategy ss) h = refl
  more_than_one (user_stop f) h = refl

  module _ (p : RetryPolicy) (h : stops_after_first_attempt p.stop_strategy ≡ true) where
    before_lem : issue (checks_before p) ≡ []
    unfolding checks_before uses_implicit_default_policy
    before_lem = rw (h, ends_at_once p.stop_strategy h, more_than_one p.stop_strategy h) refl

    after_lem :
        issue (checks_after p)
        ≡ issue (
            (p.testing_mode && has_max_time p.stop_strategy, for_testing_with_max_time, advisory)
            ∷ [])
    unfolding checks_after has_effective_random_delay
    after_lem =
        rw (h, ends_at_once p.stop_strategy h)
          elim (Bool-cases p.testing_mode) [ inl e ↦ rw e refl | inr e ↦ rw e refl ]

  -- A policy that is found to end after the first attempt gets no warning but the one on
  -- `max_time` in a policy for testing, no check is skipped and the world stays as it is.
  pub compute_diagnostics-never_retries :
      (p : RetryPolicy) (w : World)
      → stops_after_first_attempt p.stop_strategy ≡ true
      → compute_diagnostics p w ≡ (
        return (
          issue (
              (p.testing_mode && has_max_time p.stop_strategy, for_testing_with_max_time, advisory)
              ∷ []),
          [],
        ),
        w,
      )
  unfolding compute_diagnostics all_warnings check_total_sleep branch pure ◌>>=◌
  compute_diagnostics-never_retries p w h = rw (h, before_lem p h, after_lem p h) refl

  any_append :
      (ws vs : List PolicyWarning)
      → any is_critical (ws ++ vs) ≡ (any is_critical ws || any is_critical vs)
  any_append [] vs = refl
  any_append (x ∷ ws) vs = ground (arith, any_append ws vs)

  module _ (p : RetryPolicy) (h : stop_is_infinite p.stop_strategy ≡ true) where
    before_critical : any is_critical (issue (checks_before p)) ≡ true
    unfolding checks_before
    before_critical =
        rw h elim (Bool-cases (uses_implicit_default_policy p)) [
          | inl e ↦ rw e refl
          | inr e ↦ rw e refl
        ]

    endless_critical :
        any is_critical (issue (checks_before p) ++ [] ++ issue (checks_after p)) ≡ true
    endless_critical =
        rw
          (
            any_append (issue (checks_before p) ++ []) (issue (checks_after p)),
            any_append (issue (checks_before p)) [],
            before_critical,
          )
          refl

  -- A report on the policy, in the same world, that is complete and calls it risky.
  pub record IsRisky (p : RetryPolicy) (w : World) : Type 0 where
    pub report : PolicyHealthReport
    pub reported : doctor_policy p w ≡ (return report, w)
    pub complete : report.complete ≡ true
    pub level : risk_level report ≡ risky

  -- The health report on a policy whose stop strategy is found infinite is complete and of level
  -- risky, and computing it changes nothing in the world.
  pub doctor_policy-IsRisky :
      (p : RetryPolicy) (w : World) → stop_is_infinite p.stop_strategy ≡ true → IsRisky p w
  unfolding doctor_policy compute_diagnostics all_warnings check_total_sleep branch pure ◌>>=◌
      risk_level
  doctor_policy-IsRisky p w h = record {
    report = record {
      warnings = issue (checks_before p) ++ [] ++ issue (checks_after p);
      complete = true;
      skipped_checks = [];
    };
    reported = elim (Bool-cases (stops_after_first_attempt p.stop_strategy)) [
      | inl e ↦ rw (h, e) refl
      | inr e ↦ rw (h, e) refl
    ];
    complete = refl;
    level = rw (endless_critical p h) refl;
  }
