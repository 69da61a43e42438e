-- ===== src/Effects/Hoare.antt =====
-- What holds of every value that an action returns, and the rules that carry it through a chain.
use relinker.Prelude.{◌≡◌, refl, Bool, true, false}
use relinker.Python.{Python, Outcome, return, raise, Error}
use relinker.Effects.{World, Action, pure, throw, reraise, handled, on_error, branch, ◌>>=◌}

module _ ⦃py : Python⦄ where
  abbrev pub Returns : {A : Type 0} → (A → Type 0) → Outcome A × World → Type 0
  Returns P (return a, w) = P a
  Returns P (raise e, w) = Unit

  -- In every world, a value that the action returns satisfies `P`.
  pub record Always {A : Type 0} (P : A → Type 0) (m : Action A) : Type 0 where
    pub apply : (w : World) → Returns P (m w)

  Returns-of :
      {A : Type 0} {P : A → Type 0} (r : Outcome A) (after : World)
      → ((a : A) → P a)
      → Returns P (r, after)
  Returns-of (return a) after h = h a
  Returns-of (raise e) after h = tt

  -- What holds of every value holds of those returned.
  pub Always-of : {A : Type 0} {P : A → Type 0} (m : Action A) → ((a : A) → P a) → Always P m
  Always-of m h = record { apply = λ w. Returns-of (m w).0 (m w).1 h }

  pub Always-pure : {A : Type 0} {P : A → Type 0} (a : A) → P a → Always P (pure a)
  unfolding pure
  Always-pure a h = record { apply = λ w. h }

  pub Always-throw : {A : Type 0} {P : A → Type 0} (e : Error) → Always P (throw e)
  unfolding throw
  Always-throw e = record { apply = λ w. tt }

  Returns-weaken :
      {A : Type 0} {P Q : A → Type 0} (r : Outcome A) (after : World)
      → ((a : A) → P a → Q a)
      → Returns P (r, after)
      → Returns Q (r, after)
  Returns-weaken (return a) after k h = k a h
  Returns-weaken (raise e) after k h = tt

  pub Always-weaken :
      {A : Type 0} {P Q : A → Type 0} (m : Action A)
      → ((a : A) → P a → Q a)
      → Always P m
      → Always Q m
  Always-weaken {P = P} m k h = record {
    apply = λ w. Returns-weaken {P = P} (m w).0 (m w).1 k (h.apply w);
  }

  module _ {A B : Type 0} where
    Returns-after :
        (P : A → Type 0) (Q : B → Type 0) (r : Outcome A) (w : World) (f : A → Action B)
        → Returns P (r, w)
        → ((a : A) → P a → Always Q (f a))
        → Returns Q (((λ _. (r, w)) >>= f) w)
    unfolding ◌>>=◌
    Returns-after P Q (return a) w f h k = (k a h).apply w
    Returns-after P Q (raise e) w f h k = tt

    pub Always->>= :
        (P : A → Type 0) {Q : B → Type 0} (m : Action A) (f : A → Action B)
        → Always P m
        → ((a : A) → P a → Always Q (f a))
        → Always Q (m >>= f)
    unfolding ◌>>=◌
    Always->>= P {Q} m f h k = record {
      apply = λ w. let (r, after) = m w in Returns-after P Q r after f (h.apply w) k;
    }

    -- Where what comes first does not matter.
    pub Always-next :
        {Q : B → Type 0} (m : Action A) (f : A → Action B)
        → ((a : A) → Always Q (f a))
        → Always Q (m >>= f)
    Always-next m f k = Always->>= (λ _. Unit) m f (Always-of m (λ _. tt)) (λ a _. k a)

  module _ {A : Type 0} where
    pub Always-branch :
        {Q : A → Type 0} (b : Bool) (m n : Action A)
        → (b ≡ true → Always Q m)
        → (b ≡ false → Always Q n)
        → Always Q (branch b m n)
    unfolding branch
    Always-branch true m n h k = h refl
    Always-branch false m n h k = k refl

    Returns-reraise :
        (P : A → Type 0) (e : Error) (r : Outcome (Unit {0})) (last : World)
        → Returns P (reraise e (r, last))
    Returns-reraise P e (return _) last = tt
    Returns-reraise P e (raise _) last = tt

    Returns-handled :
        (P : A → Type 0) (r : Outcome A) (after : World) (cleanup : Action (Unit {0}))
        → Returns P (r, after)
        → Returns P (handled (r, after) cleanup)
    Returns-handled P (return a) after cleanup h = h
    Returns-handled P (raise e) after cleanup h =
        Returns-reraise P e (cleanup after).0 (cleanup after).1

    -- What is returned behind a cleanup was returned by the body.
    pub Always-on_error :
        {P : A → Type 0} (m : Action A) (cleanup : Action (Unit {0}))
        → Always P m
        → Always P (on_error m cleanup)
    unfolding on_error
    Always-on_error {P} m cleanup h = record {
      apply = λ w. Returns-handled P (m w).0 (m w).1 cleanup (h.apply w);
    }

  -- In some world the action returns that value.
  abbrev pub Answers : {A : Type 0} → Action A → A → Type 0
  Answers m a = (w after : World) × (m w ≡ (return a, after))

  -- So does it of each value that it returns.
  pub Always-Answers : {A : Type 0} (m : Action A) → Always (Answers m) m
  Always-Answers {A} m = record { apply = λ w. found w (m w).0 (m w).1 refl }
    where
      found :
          (w : World) (r : Outcome A) (after : World)
          → m w ≡ (r, after)
          → Returns (Answers m) (r, after)
      found w (return a) after e = (w, after, e)
      found w (raise x) after e = tt

  Returns-both :
      {A : Type 0} (P Q : A → Type 0) (r : Outcome A) (after : World)
      → Returns P (r, after)
      → Returns Q (r, after)
      → Returns (λ a. P a × Q a) (r, after)
  Returns-both P Q (return a) after h k = (h, k)
  Returns-both P Q (raise e) after h k = tt

  pub Always-both :
      {A : Type 0} {P Q : A → Type 0} (m : Action A)
      → Always P m
      → Always Q m
      → Always (λ a. P a × Q a) m
  Always-both {P = P} {Q = Q} m h k = record {
    apply = λ w. Returns-both P Q (m w).0 (m w).1 (h.apply w) (k.apply w);
  }
