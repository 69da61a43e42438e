-- ===== src/Http.antt =====
-- src/relinker/http.py: retryable status codes, and delays from Retry-After headers.
pub mod Statuses
pub mod Headers
pub mod Seconds
pub mod Safe
use relinker.Prelude.{
  ℕ, ◌+◌, ◌-◌, ◌*◌, Bool, true, false, not, ◌&&◌, ◌||◌, Option, none, some, List, [], ◌∷◌, length,
  all, leb, ltb, ◌==◌, if◌then◌else◌,
}
use relinker.Python.{
  Python, Float, ◌-F◌, zero_float, float_min, float_max, Outcome, return, raise, is_exception,
}
use relinker.Effects.{Action, pure, throw, lift, ◌>>=◌, ◌>>◌}
use relinker.Validation.{real, ensure_non_negative}

-- A text as its code points.
abbrev pub Text : Type 0
Text = List ℕ

-- What the module takes from Python beside `Python`: `str.isspace` of a character, the date parser
-- `float(mktime_tz(parsedate_tz(text)))`, which finds no date or raises, and `time.time()`.
pub record Dates ⦃py : Python⦄ : Type 0 where
  pub is_space : ℕ → Bool
  pub http_date : Text → Outcome (Option Float)
  pub time : py.Outside → Float × py.Outside

-- `_MAX_RETRY_AFTER_HEADER_LENGTH`
abbrev pub max_header_length : ℕ
max_header_length = 256

-- The ASCII digits.
abbrev pub is_digit : ℕ → Bool
is_digit c = leb b'0' c && leb c b'9'

abbrev pub is_empty_text : Text → Bool
is_empty_text [] = true
is_empty_text (_ ∷ _) = false

-- `_DELAY_SECONDS.fullmatch`: an optional minus and one digit or more.
abbrev pub are_digits : Text → Bool
are_digits cs = not (is_empty_text cs) && all is_digit cs

abbrev pub matches_delay_seconds : Text → Bool
matches_delay_seconds [] = false
matches_delay_seconds (c ∷ cs) = if c == b'-' then are_digits cs else are_digits (c ∷ cs)

-- The number that `int` reads from digits, from the left.
abbrev pub read_digits : ℕ → Text → ℕ
read_digits n [] = n
read_digits n (c ∷ cs) = read_digits (n * 10 + (c - b'0')) cs

-- `str.strip`
abbrev pub strip_start : (ℕ → Bool) → Text → Text
strip_start is_space [] = []
strip_start is_space (c ∷ cs) =
    let rest = strip_start is_space cs in if is_space c then rest else c ∷ cs

abbrev pub strip_end : (ℕ → Bool) → Text → Text
strip_end is_space [] = []
strip_end is_space (c ∷ cs) =
    let rest = strip_end is_space cs in if is_space c && is_empty_text rest then [] else c ∷ rest

abbrev pub strip : (ℕ → Bool) → Text → Text
strip is_space t = strip_end is_space (strip_start is_space t)

module _ ⦃py : Python⦄ where
  -- `raw = int(stripped)`, negative or capped at the maximum; `-0` is not negative.
  unfoldable pub whole_seconds : Text → (safe_default maximum : Float) → Float
  whole_seconds [] safe_default maximum = safe_default
  whole_seconds (c ∷ cs) safe_default maximum =
      if c == b'-'
      then if read_digits 0 cs == 0 then float_min (py.of_nat 0) maximum else safe_default
      else float_min (py.of_nat (read_digits 0 (c ∷ cs))) maximum

  module _ (dates : Dates) where
    time : Action Float
    time w = let (t, outside) = dates.time w.outside in (return t, record w { outside = outside })

    -- The `try` block that reads a date, and the default behind it.
    unfoldable pub until_date :
        Outcome (Option Float) → (safe_default maximum : Float) → Action Float
    unfolding time
    until_date (return none) safe_default maximum = pure safe_default
    until_date (return (some target)) safe_default maximum =
        time >>= λ t. pure (float_max zero_float (float_min (target -F t) maximum))
    until_date (raise e) safe_default maximum =
        if is_exception e then pure safe_default else throw e

    -- Behind the checks of the two numbers.
    unfoldable pub parse_stripped : Text → (safe_default maximum : Float) → Action Float
    unfolding whole_seconds until_date
    parse_stripped stripped safe_default maximum =
        if is_empty_text stripped || ltb max_header_length (length stripped)
        then pure safe_default
        else if matches_delay_seconds stripped
        then pure (whole_seconds stripped safe_default maximum)
        else until_date (dates.http_date stripped) safe_default maximum

    unfoldable pub parse_retry_after : Text → (default_delay maximum : Float) → Action Float
    unfolding parse_stripped
    parse_retry_after header_value default_delay maximum =
        lift (ensure_non_negative (real default_delay))
        >> lift (ensure_non_negative (real maximum))
        >> parse_stripped (strip dates.is_space header_value) (float_min default_delay maximum)
            maximum
