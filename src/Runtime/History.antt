-- ===== src/Runtime/History.antt =====
-- The counters and the bounded history of src/relinker/internal/runtime.py.
use relinker.Prelude.{
  ℕ, zero, suc, ◌+◌, ◌-◌, ◌≡◌, refl, Bool, Option, none, some, List, [], ◌∷◌, ◌++◌, length,
  length-append, leb, if◌then◌else◌, arith,
}
use relinker.Python.{Python, Float, Value, Error}
use relinker.Records.{AttemptRecord}
use relinker.Runtime.{
  drop, append_bounded, RetryRuntime, begin_attempt, record_success, record_failure,
}

module _ ⦃py : Python⦄ where
  -- The records carry consecutive attempt numbers, the last of them `n`.
  abbrev pub EndsAt : ℕ → List AttemptRecord → Type 0
  EndsAt n [] = Unit
  EndsAt n (x ∷ xs) = (x.number + length xs ≡ n) × EndsAt n xs

  -- How many of `n` records a history keeps.
  abbrev pub kept : Option ℕ → ℕ → ℕ
  kept none n = n
  kept (some limit) n = if leb n limit then n else limit

  -- Between two attempts.
  pub record IsConsistent (rt : RetryRuntime) : Type 0 where
    pub counted : rt.failed_count + rt.success_count ≡ rt.attempt_number
    pub retained : length rt.attempts ≡ kept rt.history_limit rt.attempt_number
    pub numbered : EndsAt rt.attempt_number rt.attempts

  EndsAt-append :
      (n : ℕ) (xs : List AttemptRecord) (x : AttemptRecord)
      → EndsAt n xs
      → x.number ≡ n + 1
      → EndsAt (n + 1) (xs ++ (x ∷ []))
  EndsAt-append n [] x h e = omega arith
  EndsAt-append n (y ∷ ys) x h e =
      (omega (arith, length-append {0} ys (x ∷ [])), EndsAt-append n ys x h.1 e)

  EndsAt-drop : (n k : ℕ) (xs : List AttemptRecord) → EndsAt n xs → EndsAt n (drop k xs)
  EndsAt-drop n zero xs h = h
  EndsAt-drop n (suc k) [] h = tt
  EndsAt-drop n (suc k) (x ∷ xs) h = EndsAt-drop n k xs h.1

  length-drop : (k : ℕ) (xs : List AttemptRecord) → length (drop k xs) ≡ length xs - k
  length-drop zero xs = omega arith
  length-drop (suc k) [] = omega arith
  length-drop (suc k) (x ∷ xs) = omega (arith, length-drop k xs)

  append_bounded-EndsAt :
      (limit : Option ℕ) (n : ℕ) (xs : List AttemptRecord) (x : AttemptRecord)
      → EndsAt n xs
      → x.number ≡ n + 1
      → EndsAt (n + 1) (append_bounded limit xs x)
  unfolding append_bounded
  append_bounded-EndsAt none n xs x h e = EndsAt-append n xs x h e
  append_bounded-EndsAt (some limit) n xs x h e = EndsAt-drop (n + 1) _ _ (EndsAt-append n xs x h e)

  length-append_bounded :
      (limit : Option ℕ) (n : ℕ) (xs : List AttemptRecord) (x : AttemptRecord)
      → length xs ≡ kept limit n
      → length (append_bounded limit xs x) ≡ kept limit (n + 1)
  unfolding append_bounded
  length-append_bounded none n xs x h = omega (arith, length-append {0} xs (x ∷ []))
  length-append_bounded (some limit) n xs x h = ground (
    arith,
    length-append xs (x ∷ []),
    length-drop (length (xs ++ (x ∷ [])) - limit) (xs ++ (x ∷ [])),
  )

  -- An attempt that fails in a consistent runtime is counted, numbered consecutively, and kept
  -- in a history that holds the last attempts up to its limit.
  pub record_failure-IsConsistent :
      (rt : RetryRuntime) (started_at ended_at : Float) (e : Error)
      → IsConsistent rt
      → IsConsistent (record_failure (begin_attempt rt) started_at ended_at e)
  unfolding record_failure begin_attempt
  record_failure-IsConsistent rt started_at ended_at e h = record {
    counted = omega (arith, h.counted);
    retained = length-append_bounded rt.history_limit rt.attempt_number rt.attempts _ h.retained;
    numbered =
        append_bounded-EndsAt rt.history_limit rt.attempt_number rt.attempts _ h.numbered refl;
  }

  -- An attempt that returns in a consistent runtime is counted, numbered consecutively, and kept
  -- in a history that holds the last attempts up to its limit.
  pub record_success-IsConsistent :
      (rt : RetryRuntime) (started_at ended_at : Float) (v : Value) (has_value : Bool)
      → IsConsistent rt
      → IsConsistent (record_success (begin_attempt rt) started_at ended_at v has_value)
  unfolding record_success begin_attempt
  record_success-IsConsistent rt started_at ended_at v has_value h = record {
    counted = omega (arith, h.counted);
    retained = length-append_bounded rt.history_limit rt.attempt_number rt.attempts _ h.retained;
    numbered =
        append_bounded-EndsAt rt.history_limit rt.attempt_number rt.attempts _ h.numbered refl;
  }
