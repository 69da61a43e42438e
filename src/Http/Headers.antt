-- ===== src/Http/Headers.antt =====
-- The Retry-After header of a response and the delay that follows it, of src/relinker/http.py.
use relinker.Prelude.{
  Bool, true, false, ◌&&◌, Option, none, some, List, [], ◌∷◌, ◌==◌, if◌then◌else◌,
}
use relinker.Python.{
  Python, Float, Value, zero_float, float_min, float_max, Outcome, return, raise, Error,
  is_exception,
}
use relinker.Effects.{Action, pure, lift, ◌>>=◌}
use relinker.Records.{RetryState}
use relinker.Validation.{Object, real, ensure_safe_delay, max_sleep_seconds}
use relinker.Http.{Text, Dates, parse_retry_after}
use relinker.Http.Statuses.{StatusSource}

-- A step of `for key in headers`: a text key with what `headers[key]` gives, another key, or an
-- exception.
pub data HeaderStep : Type 0 where
  text_key : (key : Text) (value : Outcome (Option Text)) → HeaderStep
  other_key : HeaderStep
  broken : Error → HeaderStep

-- The headers of a response; a value is the text that `str` makes of it.
pub record HeaderMap : Type 0 where
  pub has_get : Bool
  pub get : Text → Outcome (Option Text)
  pub keys : List HeaderStep

-- A response: its status, an attribute `headers`, which may be None, and a key "headers".
pub record Response : Type 0 where
  pub status_source : StatusSource
  pub headers_attribute : Option (Option HeaderMap)
  pub headers_entry : Option (Option HeaderMap)

-- How the application's values are seen as responses, and `str.lower`.
pub record Responses ⦃py : Python⦄ : Type 0 where
  pub view : Value → Response
  pub lower : Text → Text

abbrev titled : Text
titled = b'R' ∷ b'e' ∷ b't' ∷ b'r' ∷ b'y' ∷ b'-' ∷ b'A' ∷ b'f' ∷ b't' ∷ b'e' ∷ b'r' ∷ []

abbrev lower_case : Text
lower_case = b'r' ∷ b'e' ∷ b't' ∷ b'r' ∷ b'y' ∷ b'-' ∷ b'a' ∷ b'f' ∷ b't' ∷ b'e' ∷ b'r' ∷ []

abbrev upper_case : Text
upper_case = b'R' ∷ b'E' ∷ b'T' ∷ b'R' ∷ b'Y' ∷ b'-' ∷ b'A' ∷ b'F' ∷ b'T' ∷ b'E' ∷ b'R' ∷ []

abbrev same_text : Text → Text → Bool
same_text [] [] = true
same_text (c ∷ cs) (d ∷ ds) = c == d && same_text cs ds
same_text _ _ = false

-- `headers is None or not hasattr(headers, "get")`, where there is nothing to ask.
abbrev with_get : Option HeaderMap → Option HeaderMap
with_get none = none
with_get (some headers) = if headers.has_get then some headers else none

abbrev pub headers_of : Response → Option HeaderMap
headers_of response = elim response.headers_attribute [
  | some headers ↦ with_get headers
  | none ↦ elim response.headers_entry [ some headers ↦ with_get headers | none ↦ none ]
]

-- A lookup that goes on while nothing is found.
abbrev or_look : Outcome (Option Text) → Outcome (Option Text) → Outcome (Option Text)
or_look (return (some value)) others = return (some value)
or_look (return none) others = others
or_look (raise e) others = raise e

-- The loop over the keys.
pub find_key : (Text → Text) → List HeaderStep → Outcome (Option Text)
find_key lower [] = return none
find_key lower (broken e ∷ steps) = raise e
find_key lower (other_key ∷ steps) = find_key lower steps
find_key lower (text_key key value ∷ steps) =
    let rest = find_key lower steps in
    if same_text (lower key) lower_case then or_look value rest else rest

-- `except Exception: pass`
abbrev pub ignore_exception : Outcome (Option Text) → Outcome (Option Text)
ignore_exception (return found) = return found
ignore_exception (raise e) = if is_exception e then return none else raise e

pub extract_retry_after_header : (Text → Text) → Response → Outcome (Option Text)
unfolding find_key
extract_retry_after_header lower response = elim (headers_of response) [
  | none ↦ return none
  | some headers ↦ or_look (headers.get titled) (
      or_look (headers.get lower_case)
        (or_look (headers.get upper_case) (ignore_exception (find_key lower headers.keys))))
]

module _ ⦃py : Python⦄ where
  abbrev pub and_some : Outcome Float → Outcome (Option Float)
  and_some (return x) = return (some x)
  and_some (raise e) = raise e

  -- `ensure_safe_delay` of a maximum that may be None.
  abbrev pub safe_maximum_of : Option Object → Outcome (Option Float)
  safe_maximum_of none = return none
  safe_maximum_of (some maximum) = and_some (ensure_safe_delay maximum)

  abbrev pub or_day : Option Float → Float
  or_day none = max_sleep_seconds
  or_day (some m) = m

  abbrev pub capped : Option Float → Float → Float
  capped none resolved = resolved
  capped (some m) resolved = float_min resolved m

  -- A float that an action returns is one of the objects that a callback may return.
  abbrev pub float_action : Action Float → Action Object
  float_action m = m >>= λ x. pure (real x)

  module _ (dates : Dates) (responses : Responses) where
    -- What the callback resolves before it caps it.
    unfoldable pub resolved_delay :
        (safe_default : Float) (safe_maximum : Option Float) → Option Text → Action Float
    resolved_delay safe_default safe_maximum none = pure safe_default
    resolved_delay safe_default safe_maximum (some value) =
        parse_retry_after dates value safe_default (or_day safe_maximum)

    -- The callback `delay`.
    unfoldable pub header_delay :
        (safe_default : Float) (safe_maximum : Option Float) → RetryState → Action Float
    unfolding resolved_delay extract_retry_after_header
    header_delay safe_default safe_maximum state =
        lift (extract_retry_after_header responses.lower (responses.view state.last_value))
        >>= λ found. resolved_delay safe_default safe_maximum found >>= λ resolved.
            pure (float_max zero_float (capped safe_maximum resolved))

    -- The callback, with the numbers that passed the checks.
    abbrev pub make_callback :
        Outcome Float → Outcome (Option Float) → Outcome (RetryState → Action Float)
    make_callback (raise e) maximum = raise e
    make_callback (return safe_default) (raise e) = raise e
    make_callback (return safe_default) (return safe_maximum) =
        return (header_delay safe_default safe_maximum)

    unfoldable pub retry_after_delay : Object → Option Object → Outcome (RetryState → Action Float)
    unfolding header_delay
    retry_after_delay default_delay maximum =
        make_callback (ensure_safe_delay default_delay) (safe_maximum_of maximum)
