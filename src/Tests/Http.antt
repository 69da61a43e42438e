-- ===== src/Tests/Http.antt =====
-- The theorems on HTTP headers.
use relinker.Prelude.{ℕ, ◌≡◌, refl, true, false, none, some, [], ◌∷◌, arith, ◌==◌}
use relinker.Python.{ticks_python, ticks-FloatLaws, return, float_min}
use relinker.Effects.Hoare.{Always}
use relinker.Records.{RetryState}
use relinker.Validation.{real, ensure_safe_delay, ensure_finite_float, require_finite}
use relinker.Validation.Accepts.{IsSafeDelay}
use relinker.Http.{Text, Dates, is_digit, parse_retry_after}
use relinker.Http.Headers.{Responses, header_delay, retry_after_delay}
use relinker.Http.Safe.{
  FailsOrdinarily, IsNonNegative, ReturnsWithin, parse_retry_after-ReturnsWithin,
  retry_after_delay-IsSafeDelay,
}
use relinker.Http.Seconds.{padded, number, parse_retry_after-written}
use relinker.Tests.Samples.{start}

-- Blanks are the only white space, and a date that is parsed is tick 40.
abbrev dates : Dates
dates = record { is_space = λ c. c == b' '; http_date = λ t. return (some 40); time = λ t. (t, t) }

fails : FailsOrdinarily dates
fails = record { ordinary = λ t e h. cc }

abbrev blank : Text
blank = b' ' ∷ []

nonneg : (n : ℕ) → IsNonNegative n
nonneg n = record { finite = refl; nonneg = ground arith }

no_blank : (c : ℕ) → is_digit c ≡ true → (c == b' ') ≡ false
no_blank c h = ground arith

parse_retry_after-ReturnsWithin_example :
    ReturnsWithin 60 (parse_retry_after dates (b'x' ∷ b'-' ∷ []) 5 60) start
parse_retry_after-ReturnsWithin_example =
    parse_retry_after-ReturnsWithin ticks-FloatLaws dates (b'x' ∷ b'-' ∷ []) 5 60 start fails
      (nonneg 5) (nonneg 60)

parse_retry_after-written_example :
    parse_retry_after dates (padded blank (1 ∷ 2 ∷ 0 ∷ []) blank) 5 60 start
    ≡ (return (float_min (number (1 ∷ 2 ∷ 0 ∷ [])) 60), start)
parse_retry_after-written_example =
    parse_retry_after-written ticks-FloatLaws dates blank blank 1 (2 ∷ 0 ∷ []) 5 60 start no_blank
      refl refl (omega arith, (omega arith, (omega arith, tt))) (omega arith) (nonneg 5) (nonneg 60)

-- Every value is a response with one header.
abbrev responses : Responses
responses = record {
  view = λ v. record {
    status_source = record { attribute = none; entry = none };
    headers_attribute =
        some (some (record { has_get = true; get = λ name. return (some (b'7' ∷ [])); keys = [] }));
    headers_entry = none;
  };
  lower = λ t. t;
}

abbrev state : RetryState
state = record {
  function_name = "fetch";
  attempt_number = 1;
  started_at = 0;
  elapsed = 0;
  attempts = [];
  last_value = 0;
  last_error = none;
  has_value = true;
  next_delay = none;
  retry_cause = none;
  will_retry = false;
  will_stop = false;
  policy_delay = none;
  budget_delay = none;
  policy_name = none;
  total_attempts = 1;
  total_failed_attempts = none;
  total_successful_attempts = none;
}

accepted :
    retry_after_delay dates responses (real 5) (some (real 60))
    ≡ return (header_delay dates responses 5 (some 60))
unfolding retry_after_delay ensure_safe_delay ensure_finite_float require_finite
accepted = refl

retry_after_delay-IsSafeDelay_example :
    Always IsSafeDelay (header_delay dates responses 5 (some 60) state)
retry_after_delay-IsSafeDelay_example =
    retry_after_delay-IsSafeDelay ticks-FloatLaws dates responses (real 5) (some (real 60))
      (header_delay dates responses 5 (some 60)) state fails accepted
