-- ===== src/Budget/Released.antt =====
-- What `_release` of src/relinker/budget.py takes away, said without the loop that looks for it.
use Prim.Native.String.{String}
use text.Mathlib.Text.{◌==◌ as str_eq}
use relinker.Prelude.{
  ℕ, ◌≡◌, refl, ap, ◌∙◌, not, List, [], ◌∷◌, keep_if, ◌==◌, if◌then◌else◌, arith,
}
use relinker.Python.{Python, FloatLaws, Float}
use relinker.Dict.{HasDistinctKeys}
use relinker.Budget.{RetryReservation, RetryBudget, reservations_of, prune, drop_token, release}
use relinker.Budget.Release.{live, release_lem}
use relinker.Budget.Tokens.{AreTokensAbove, AreFresh, HasFreshTokens}

module _ ⦃py : Python⦄ where
  -- The reservations but those with a token.
  abbrev pub without : ℕ → List RetryReservation → List RetryReservation
  without token rs = keep_if (λ r. not (r.token == token)) rs

  without-above : (n : ℕ) (rs : List RetryReservation) → AreTokensAbove n rs → without n rs ≡ rs
  without-above n [] h = refl
  without-above n (r ∷ rs) h = ground (arith, without-above n rs h.1)

  drop_token-without :
      (n token : ℕ) (rs : List RetryReservation)
      → AreFresh n rs
      → drop_token token rs ≡ without token rs
  unfolding drop_token
  drop_token-without n token [] h = refl
  drop_token-without n token (r ∷ rs) h =
      ground (arith, without-above r.token rs h.1, drop_token-without n token rs h.2)

  pub prune-without :
      (per now : Float) (token : ℕ) (rs : List RetryReservation)
      → prune per (without token rs) now ≡ without token (prune per rs now)
  unfolding prune
  prune-without per now token [] = refl
  prune-without per now token (r ∷ rs) = ground (arith, prune-without per now token rs)

  -- A release takes out of the live reservations of its key those with its token, and leaves
  -- those of every other key as they are, in a table whose keys are distinct and whose tokens
  -- are told apart.
  pub live-release :
      (laws : FloatLaws py) (b : RetryBudget) (r : RetryReservation) (now : Float) (k : String)
      → HasDistinctKeys b.reservations
      → HasFreshTokens b
      → live (release b r now) now k
        ≡ (if str_eq r.key k then without r.token (live b now k) else live b now k)
  live-release laws b r now k distinct tokens =
      release_lem laws b r now k distinct
      ∙ ap (λ rs. if str_eq r.key k then rs else live b now k)
          (ap (λ rs. prune b.per rs now)
              (drop_token-without b.next_token r.token (reservations_of b k) (tokens.fresh k))
            ∙ prune-without b.per now r.token (reservations_of b k))
