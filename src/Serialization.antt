-- ===== src/Serialization.antt =====
-- The dictionaries that the library makes of its objects: `to_dict` and `summary` of
-- src/relinker/result.py, internal/policy_serialization.py, and the payload of
-- internal/policy_logging.py.
pub mod Results
pub mod Payload
pub mod Policies
pub mod Privacy
pub mod Stops
pub mod Delays
pub mod Configuration
use Prim.Native.String.{String}
use relinker.Prelude.{ℕ, Bool, true, false, Option, none, some, List, [], ◌∷◌, map}
use relinker.Python.{Python, Float, Value, ErrorClass, Error}
use relinker.Effects.{Action}
use relinker.Records.{RetryState, RetryEvent, RetryResult}
use relinker.Validation.{Object}

module _ ⦃py : Python⦄ where
  mutual
    -- What a dictionary holds: the values of JSON, and an object of the application.
    pub data Json : Type 0 where
      json_null : Json
      json_bool : Bool → Json
      json_int : ℕ → Json
      json_float : Float → Json
      json_text : String → Json
      json_value : Value → Json
      json_list : Jsons → Json
      json_dict : Entries → Json

    pub data Jsons : Type 0 where
      no_more : Jsons
      then_item : Json → Jsons → Jsons

    -- The entries of a dictionary in the order of their insertion.
    pub data Entries : Type 0 where
      no_entry : Entries
      entry : String → Json → Entries → Entries

  abbrev pub entries_of : List (String × Json) → Entries
  entries_of [] = no_entry
  entries_of ((key, value) ∷ rest) = entry key value (entries_of rest)

  abbrev pub dict : List (String × Json) → Json
  dict fields = json_dict (entries_of fields)

  abbrev pub items_of : List Json → Jsons
  items_of [] = no_more
  items_of (j ∷ js) = then_item j (items_of js)

  abbrev pub or_null {ℓ} : {A : Type ℓ} → (A → Json) → Option A → Json
  or_null f none = json_null
  or_null f (some a) = f a

-- What the dictionaries take from Python: the name of a class, `str` of an exception, rounding to so
-- many digits, and the names of callables and of the application's own classes.
pub record Names ⦃py : Python⦄ : Type 0 where
  pub class_name : ErrorClass → String
  pub message : Error → String
  pub round : Float → ℕ → Float
  pub of_predicate : (Value → Action Bool) → String
  pub of_condition : (Option Error → Value → Action Bool) → String
  pub of_delay : (ℕ → Action Object) → String
  pub of_stateful_delay : (RetryState → Action Object) → String
  pub of_fallback : (RetryResult → Action Value) → String
  pub of_factory : (RetryResult → Action (Option Error)) → String
  pub of_handler : (RetryEvent → Action (Unit {0})) → String
  pub stop_class : (ℕ → Float → Action Bool) → String
  pub condition_class : (Error → Action Bool) → (Value → Action Bool) → String
  pub delay_class : (ℕ → Action Object) → String
