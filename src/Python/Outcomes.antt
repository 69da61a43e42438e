-- ===== src/Python/Outcomes.antt =====
-- A chain of calls that return or raise.
use relinker.Python.Exceptions.{Outcome, return, raise}

infixl 5 ◌>>=◌
abbrev pub ◌>>=◌ {ℓ κ} : {A : Type ℓ} {B : Type κ} → Outcome A → (A → Outcome B) → Outcome B
return a >>= f = f a
raise e >>= f = raise e
