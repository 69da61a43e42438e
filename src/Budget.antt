-- ===== src/Budget.antt =====
-- The class RetryBudget of src/relinker/budget.py and its methods. A method runs under the
-- object's lock, so it is one function from the object to the object; it takes the time that it
-- reads from the clock as an argument.
pub mod Slots
pub mod Table
pub mod Windows
pub mod Release
pub mod Tokens
pub mod Released
pub mod History
mod Tests
use Prim.Native.String.{String}
use relinker.Prelude.{
  ℕ, zero, suc, ◌+◌, Bool, true, false, not, ◌&&◌, ◌||◌, Option, none, some, List, [], ◌∷◌, ◌++◌,
  map, all, keep_if, count_if, leb, ◌==◌, if◌then◌else◌,
}
use relinker.Python.{
  Python, Float, ◌<F◌, ◌≤F◌, ◌-F◌, zero_float, float_max, Outcome, return, raise,
  invalid_config_error,
}
use relinker.Dict.{lookup, insert, erase, erase_keys, keys_where}
use Slots.{sorted, first_legal_slot, available_at}

abbrev pub cleanup_interval : ℕ
cleanup_interval = 100

module _ ⦃py : Python⦄ where
  -- `_RetryReservation`
  pub record RetryReservation : Type 0 where
    pub token : ℕ
    pub key : String
    pub scheduled_at : Float

  pub record RetryBudgetSnapshot : Type 0 where
    pub key : String
    pub capacity : ℕ
    pub per : Float
    pub active : ℕ
    pub available : ℕ
    pub queued : ℕ
    pub next_available_in : Float

  pub record RetryBudget : Type 0 where
    pub max_retries : ℕ
    pub per : Float
    pub reservations : List (String × List RetryReservation)
    pub next_token : ℕ
    pub op_count : ℕ

  -- `RetryBudget.__init__`, for an integer and a finite float.
  unfoldable pub new_budget : ℕ → Float → Outcome RetryBudget
  new_budget max_retries per =
      if max_retries == 0
      then raise invalid_config_error
      else if not (py.is_finite per) || (per ≤F zero_float)
      then raise invalid_config_error
      else return (record {
        max_retries = max_retries;
        per = per;
        reservations = [];
        next_token = 1;
        op_count = 0;
      })

  -- The deque of a key, empty if there is none: `setdefault(key, deque())`.
  unfoldable pub reservations_of : RetryBudget → String → List RetryReservation
  reservations_of budget key = elim (lookup key budget.reservations) [ none ↦ [] | some rs ↦ rs ]

  -- `_prune`
  unfoldable pub prune : Float → List RetryReservation → Float → List RetryReservation
  prune per reservations candidate =
      let boundary = candidate -F per in keep_if (λ r. boundary <F r.scheduled_at) reservations

  -- The test of `_cleanup_expired_keys` on one deque; it holds of an empty one.
  pub is_expired : Float → List RetryReservation → Bool
  is_expired boundary reservations = all (λ r. r.scheduled_at ≤F boundary) reservations

  -- `_cleanup_expired_keys`
  pub cleanup_expired_keys : RetryBudget → Float → RetryBudget
  unfolding is_expired
  cleanup_expired_keys budget current =
      let boundary = current -F budget.per in
      let expired_keys = keys_where (is_expired boundary) budget.reservations in
      record budget { reservations = erase_keys expired_keys budget.reservations }

  -- `cleanup`, at the time read from the clock.
  pub cleanup : RetryBudget → Float → RetryBudget
  unfolding cleanup_expired_keys
  cleanup budget current = cleanup_expired_keys budget current

  -- `_maybe_cleanup`
  unfoldable pub maybe_cleanup : RetryBudget → Float → RetryBudget
  unfolding cleanup_expired_keys
  maybe_cleanup budget current =
      let op_count = budget.op_count + 1 in
      if leb cleanup_interval op_count
      then cleanup_expired_keys (record budget { op_count = 0 }) current
      else record budget { op_count = op_count }

  -- `_reserve` behind the check of its key.
  unfoldable pub reserve_slot :
      RetryBudget → String → (current_time not_before : Float) → RetryReservation × RetryBudget
  reserve_slot budget key current_time not_before =
      let earliest = float_max current_time not_before in
      let cleaned = maybe_cleanup budget current_time in
      let reservations = prune cleaned.per (reservations_of cleaned key) current_time in
      let scheduled_times = sorted (map (λ r. r.scheduled_at) reservations) in
      let candidate = first_legal_slot cleaned.max_retries cleaned.per scheduled_times earliest in
      let reservation : RetryReservation = record {
        token = cleaned.next_token;
        key = key;
        scheduled_at = candidate;
      } in
      (
        reservation,
        record cleaned {
          next_token = cleaned.next_token + 1;
          reservations = insert key (reservations ++ (reservation ∷ [])) cleaned.reservations;
        },
      )

  -- `_reserve`
  unfoldable pub reserve :
      RetryBudget
      → String
      → (current_time not_before : Float) → Outcome (RetryReservation × RetryBudget)
  reserve budget key current_time not_before =
      if py.is_blank key
      then raise invalid_config_error
      else return (reserve_slot budget key current_time not_before)

  -- The loop of `_release`: the first reservation with the token goes.
  pub drop_token : ℕ → List RetryReservation → List RetryReservation
  drop_token token [] = []
  drop_token token (item ∷ items) =
      if item.token == token then items else item ∷ drop_token token items

  pub store_or_pop :
      String
      → List RetryReservation
      → List (String × List RetryReservation)
      → List (String × List RetryReservation)
  store_or_pop key [] table = erase key table
  store_or_pop key (r ∷ rs) table = insert key (r ∷ rs) table

  pub release_from : RetryBudget → RetryReservation → List RetryReservation → RetryBudget
  release_from budget reservation [] = budget
  release_from budget reservation (r ∷ rs) = record budget {
    reservations =
        store_or_pop reservation.key (drop_token reservation.token (r ∷ rs)) budget.reservations;
  }

  -- `_release`
  pub release : RetryBudget → RetryReservation → Float → RetryBudget
  release budget reservation current_time =
      let cleaned = maybe_cleanup budget current_time in
      release_from cleaned reservation (reservations_of cleaned reservation.key)

  -- The two branches of `snapshot`, on the deque that the key has, if it has one.
  pub snapshot_found :
      RetryBudget
      → String
      → Float
      → Option (List RetryReservation)
      → RetryBudgetSnapshot × RetryBudget
  snapshot_found budget key current none = (
    record {
      key = key;
      capacity = budget.max_retries;
      per = budget.per;
      active = 0;
      available = budget.max_retries;
      queued = 0;
      next_available_in = zero_float;
    },
    budget,
  )
  snapshot_found budget key current (some found) =
      let reservations = prune budget.per found current in
      let scheduled_times = sorted (map (λ r. r.scheduled_at) reservations) in
      let next_available = first_legal_slot budget.max_retries budget.per scheduled_times current in
      (
        record {
          key = key;
          capacity = budget.max_retries;
          per = budget.per;
          active = count_if (λ t. ((current -F budget.per) <F t) && (t ≤F current)) scheduled_times;
          available = available_at budget.max_retries budget.per current scheduled_times;
          queued = count_if (λ t. current <F t) scheduled_times;
          next_available_in = float_max zero_float (next_available -F current);
        },
        record budget { reservations = insert key reservations budget.reservations },
      )

  -- `snapshot` behind the check of its key.
  pub snapshot_view : RetryBudget → String → Float → RetryBudgetSnapshot × RetryBudget
  snapshot_view budget key current =
      let cleaned = maybe_cleanup budget current in
      snapshot_found cleaned key current (lookup key cleaned.reservations)

  -- `snapshot`, with the budget after it: reading prunes the key's deque in place.
  pub snapshot : RetryBudget → String → Float → Outcome (RetryBudgetSnapshot × RetryBudget)
  snapshot budget key current =
      if py.is_blank key
      then raise invalid_config_error
      else return (snapshot_view budget key current)
