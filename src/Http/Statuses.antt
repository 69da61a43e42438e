-- ===== src/Http/Statuses.antt =====
-- The status codes of src/relinker/http.py.
use relinker.Prelude.{
  ℕ, Bool, true, false, ◌||◌, Option, none, some, List, [], ◌∷◌, any, ltb, ◌==◌, if◌then◌else◌,
}
use relinker.Python.{Outcome, return, raise, invalid_config_error}
use relinker.Python.Outcomes.{◌>>=◌}

-- An object where a status code is wanted: an `int`, `bool` among them, or another one.
pub data StatusArgument : Type 0 where
  status : ℕ → StatusArgument
  negative_status not_a_status : StatusArgument

-- `status < 100 or status > 599`, and what is no int.
abbrev pub is_bad_status : StatusArgument → Bool
is_bad_status (status n) = ltb n 100 || ltb 599 n
is_bad_status negative_status = true
is_bad_status not_a_status = true

abbrev codes_of : List StatusArgument → List ℕ
codes_of [] = []
codes_of (status n ∷ ss) = n ∷ codes_of ss
codes_of (_ ∷ ss) = codes_of ss

-- `_normalize_statuses`; a frozenset is the list of what it contains.
unfoldable pub normalize_statuses : List StatusArgument → Outcome (List ℕ)
normalize_statuses statuses =
    if any is_bad_status statuses then raise invalid_config_error else return (codes_of statuses)

abbrev pub contains : List ℕ → ℕ → Bool
contains codes n = any (λ c. c == n) codes

-- `isinstance(code, int) and code in frozen`
abbrev pub status_in : List ℕ → StatusArgument → Bool
status_in codes (status n) = contains codes n
status_in codes _ = false

pub should_retry_http_status : StatusArgument → List StatusArgument → Outcome Bool
unfolding normalize_statuses
should_retry_http_status not_a_status statuses = return false
should_retry_http_status code statuses =
    normalize_statuses statuses >>= λ codes. return (status_in codes code)

-- What `predicate` looks at: an attribute, then the key of a dictionary.
pub record StatusSource : Type 0 where
  pub attribute : Option StatusArgument
  pub entry : Option StatusArgument

pub status_predicate : List ℕ → StatusSource → Bool
status_predicate codes source = elim source.attribute [
  | some code ↦ status_in codes code
  | none ↦ elim source.entry [ some code ↦ status_in codes code | none ↦ false ]
]

-- `retry_if_status`
pub retry_if_status : List StatusArgument → Outcome (StatusSource → Bool)
unfolding normalize_statuses status_predicate
retry_if_status statuses = normalize_statuses statuses >>= λ codes. return (status_predicate codes)
