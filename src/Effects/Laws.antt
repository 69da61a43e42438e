-- ===== src/Effects/Laws.antt =====
-- Laws of chained actions, world by world, and of the `any` and `all` that user code answers.
use relinker.Prelude.{◌≡◌, refl, ◌∙◌, Bool, true, false}
use relinker.Python.{Python, Outcome, return, raise}
use relinker.Effects.{World, Action, pure, ◌>>=◌}

module _ ⦃py : Python⦄ where
  module _ {A B C : Type 0} (f : A → Action B) (g : B → Action C) where
    assoc_outcome :
        (r : Outcome A) (w : World)
        → (((λ _. (r, w)) >>= f) >>= g) w ≡ ((λ _. (r, w)) >>= λ a. f a >>= g) w
    unfolding ◌>>=◌
    assoc_outcome (return a) w = refl
    assoc_outcome (raise e) w = refl

    pub bind_assoc : (m : Action A) (w : World) → ((m >>= f) >>= g) w ≡ (m >>= λ a. f a >>= g) w
    unfolding ◌>>=◌
    bind_assoc m w = assoc_outcome (m w).0 (m w).1

  module _ {A B : Type 0} (f g : A → Action B) where
    same_outcome :
        (r : Outcome A) (w : World)
        → ((a : A) (w' : World) → f a w' ≡ g a w')
        → ((λ _. (r, w)) >>= f) w ≡ ((λ _. (r, w)) >>= g) w
    unfolding ◌>>=◌
    same_outcome (return a) w h = h a w
    same_outcome (raise e) w h = refl

    pub bind_same :
        (m : Action A) (w : World)
        → ((a : A) (w' : World) → f a w' ≡ g a w')
        → (m >>= f) w ≡ (m >>= g) w
    unfolding ◌>>=◌
    bind_same m w h = same_outcome (m w).0 (m w).1 h

  pure_outcome : {A : Type 0} (r : Outcome A) (w : World) → ((λ _. (r, w)) >>= pure) w ≡ (r, w)
  unfolding ◌>>=◌ pure
  pure_outcome (return a) w = refl
  pure_outcome (raise e) w = refl

  pub bind_pure : {A : Type 0} (m : Action A) (w : World) → (m >>= pure) w ≡ m w
  unfolding ◌>>=◌
  bind_pure m w = pure_outcome (m w).0 (m w).1

  -- The next question of an `any`, asked after the answer "no", and of an `all`, after "yes".
  abbrev pub or_else : Action Bool → Bool → Action Bool
  or_else m b = elim b [ true ↦ pure true | false ↦ m ]

  abbrev pub and_then : Action Bool → Bool → Action Bool
  and_then m b = elim b [ true ↦ m | false ↦ pure false ]

  module _ (k k' : Action Bool) (same : (w : World) → k w ≡ k' w) where
    or_cases : (b : Bool) (w : World) → or_else k b w ≡ or_else k' b w
    or_cases true w = refl
    or_cases false w = same w

    pub or_same : (m : Action Bool) (w : World) → (m >>= or_else k) w ≡ (m >>= or_else k') w
    or_same m w = bind_same (or_else k) (or_else k') m w or_cases

    and_cases : (b : Bool) (w : World) → and_then k b w ≡ and_then k' b w
    and_cases true w = same w
    and_cases false w = refl

    pub and_same : (m : Action Bool) (w : World) → (m >>= and_then k) w ≡ (m >>= and_then k') w
    and_same m w = bind_same (and_then k) (and_then k') m w and_cases

  module _ (m k : Action Bool) where
    or_more :
        (l : Action Bool) (b : Bool) (w : World)
        → (or_else k b >>= or_else l) w ≡ or_else (k >>= or_else l) b w
    unfolding ◌>>=◌ pure
    or_more l true w = refl
    or_more l false w = refl

    pub or_assoc :
        (l : Action Bool) (w : World)
        → ((m >>= or_else k) >>= or_else l) w ≡ (m >>= or_else (k >>= or_else l)) w
    or_assoc l w =
        bind_assoc (or_else k) (or_else l) m w
        ∙ bind_same (λ b. or_else k b >>= or_else l) (or_else (k >>= or_else l)) m w (or_more l)

    and_more :
        (l : Action Bool) (b : Bool) (w : World)
        → (and_then k b >>= and_then l) w ≡ and_then (k >>= and_then l) b w
    unfolding ◌>>=◌ pure
    and_more l true w = refl
    and_more l false w = refl

    pub and_assoc :
        (l : Action Bool) (w : World)
        → ((m >>= and_then k) >>= and_then l) w ≡ (m >>= and_then (k >>= and_then l)) w
    and_assoc l w =
        bind_assoc (and_then k) (and_then l) m w
        ∙ bind_same (λ b. and_then k b >>= and_then l) (and_then (k >>= and_then l)) m w
            (and_more l)

  pub or_last : (m : Action Bool) (w : World) → (m >>= or_else (pure false)) w ≡ m w
  or_last m w = bind_same (or_else (pure false)) pure m w or_false ∙ bind_pure m w
    where
      or_false : (b : Bool) (w' : World) → or_else (pure false) b w' ≡ pure b w'
      or_false true w' = refl
      or_false false w' = refl

  pub and_last : (m : Action Bool) (w : World) → (m >>= and_then (pure true)) w ≡ m w
  and_last m w = bind_same (and_then (pure true)) pure m w and_true ∙ bind_pure m w
    where
      and_true : (b : Bool) (w' : World) → and_then (pure true) b w' ≡ pure b w'
      and_true true w' = refl
      and_true false w' = refl
