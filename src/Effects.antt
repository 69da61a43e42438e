-- ===== src/Effects.antt =====
-- What a call does: it reads and changes the world, and returns or raises. The world is all that
-- lies outside the library and the RetryBudget objects, which policies and threads share.
pub mod Hoare
pub mod Laws
use relinker.Prelude.{ℕ, Bool, true, false, Option, ◌==◌, if◌then◌else◌}
use relinker.Python.{Python, Float, Value, Outcome, return, raise, Error, invalid_config_error}
use relinker.Budget.{RetryBudget}

module _ ⦃py : Python⦄ where
  pub record World : Type 0 where
    pub outside : py.Outside
    -- The budget objects by their identity.
    pub budgets : ℕ → RetryBudget

  abbrev pub Action : Type 0 → Type 0
  Action A = World → Outcome A × World

  module _ {A : Type 0} where
    unfoldable pub pure : A → Action A
    pure a w = (return a, w)

    unfoldable pub throw : Error → Action A
    throw e w = (raise e, w)

    unfoldable pub lift : Outcome A → Action A
    lift r w = (r, w)

    -- A statement on each branch of a test.
    unfoldable pub branch : Bool → Action A → Action A → Action A
    branch true m n = m
    branch false m n = n

    -- The exception goes on after the handler, or the handler's own does.
    abbrev pub reraise : Error → Outcome (Unit {0}) × World → Outcome A × World
    reraise e (return _, last) = (raise e, last)
    reraise e (raise e', last) = (raise e', last)

    abbrev pub handled : Outcome A × World → Action (Unit {0}) → Outcome A × World
    handled (return a, after) cleanup = (return a, after)
    handled (raise e, after) cleanup = reraise e (cleanup after)

    -- `try: body` / `except BaseException: cleanup; raise`
    unfoldable pub on_error : Action A → Action (Unit {0}) → Action A
    on_error body cleanup w = handled (body w) cleanup

  module _ {A B : Type 0} where
    infixl 5 ◌>>=◌ ◌>>◌
    unfoldable pub ◌>>=◌ : Action A → (A → Action B) → Action B
    ◌>>=◌ m f w =
        let (r, after) = m w in elim r [ return a ↦ f a after | raise e ↦ (raise e, after) ]

    abbrev pub ◌>>◌ : Action A → Action B → Action B
    m >> k = m >>= λ _. k

  -- `clock.now()`, and the `monotonic()` of budget.py.
  unfoldable pub now : Action Float
  now w = let (t, outside) = py.monotonic w.outside in (return t, record w { outside = outside })

  unfoldable pub uniform : (seed : Option ℕ) (low high : Float) → Action Float
  uniform seed low high w =
      let (t, outside) = py.uniform seed low high w.outside in
      (return t, record w { outside = outside })

  unfoldable pub get_budget : ℕ → Action RetryBudget
  get_budget id w = (return (w.budgets id), w)

  -- The object with an identity has a new state.
  unfoldable pub set_budget : ℕ → RetryBudget → Action (Unit {0})
  set_budget id budget w =
      (return tt, record w { budgets = λ i. if i == id then budget else w.budgets i })

  -- What a call that should be awaited returned: an awaitable, or another object.
  pub data Candidate (A : Type 0) : Type 0 where
    awaitable : Action A → Candidate A
    plain : Value → Candidate A

  -- `ensure_awaitable_result` and `ensure_awaitable_sleep_result` of internal/callables.py.
  unfoldable pub ensure_awaitable : {A : Type 0} → Candidate A → Action (Action A)
  ensure_awaitable (awaitable m) = pure m
  ensure_awaitable (plain v) = throw invalid_config_error
