-- ===== src/Decorator/Stats.antt =====
-- The counters of src/relinker/stats.py over the results of a decorated function's calls.
use relinker.Prelude.{◌+◌, ◌≤◌, ◌≡◌, refl, List, [], ◌∷◌, length, count_if, arith}
use relinker.Python.{Python}
use relinker.Records.{RetryResult, result_succeeded, result_failed}
use relinker.Decorator.{RetryStats, new_stats, record_result}

module _ ⦃py : Python⦄ where
  -- The statistics after some results were recorded, the last one first.
  abbrev pub stats_after : List RetryResult → RetryStats
  stats_after [] = new_stats
  stats_after (r ∷ rs) = record_result (stats_after rs) r

  -- What each counter is.
  pub record Counted (stats : RetryStats) (results : List RetryResult) : Type 0 where
    pub every_call : stats.calls ≡ length results
    pub succeeded : stats.successes ≡ count_if result_succeeded results
    pub failed : stats.failures ≡ count_if result_failed results
    pub gave_up : stats.exhausted ≡ count_if (λ r. r.exhausted) results
    pub split : stats.successes + stats.failures ≡ stats.calls
    pub bounded : stats.exhausted ≤ stats.failures

  -- After any sequence of results the statistics count the calls, the successes, the failures
  -- and the exhausted calls; successes and failures add up to the calls, and no more calls were
  -- exhausted than failed.
  pub stats_after-Counted : (results : List RetryResult) → Counted (stats_after results) results
  unfolding new_stats record_result
  stats_after-Counted [] = record {
    every_call = refl;
    succeeded = refl;
    failed = refl;
    gave_up = refl;
    split = refl;
    bounded = omega arith;
  }
  stats_after-Counted (r ∷ rs) =
      let h = stats_after-Counted rs in
      record {
        every_call = omega (arith, h.every_call);
        succeeded = ground (arith, h.succeeded);
        failed = ground (arith, h.failed);
        gave_up = ground (arith, h.gave_up);
        split = ground (arith, h.split);
        bounded = ground (arith, h.bounded);
      }
