-- ===== src/Http/Seconds.antt =====
-- A number of seconds in a Retry-After header, read by `parse_retry_after` of src/relinker/http.py.
use relinker.Prelude.{
  ℕ, suc, ◌+◌, ◌-◌, ◌*◌, ◌≤◌, ◌<◌, ◌≡◌, refl, ◌∙◌, ap, Bool, true, false, List, [], ◌∷◌, ◌++◌, all,
  map, length, ltb, ◌==◌, arith,
}
use relinker.Python.{Python, Float, FloatLaws, float_min, return}
use relinker.Effects.{World, pure, lift, ◌>>=◌}
use relinker.Http.{
  Text, Dates, is_digit, read_digits, strip_start, strip_end, strip, whole_seconds, parse_stripped,
  parse_retry_after,
}
use relinker.Http.Safe.{IsNonNegative, accepted}

-- Decimal digits, the highest first, and the number that they denote.
abbrev pub AreDecimal : List ℕ → Type 0
AreDecimal [] = Unit
AreDecimal (d ∷ ds) = (d < 10) × AreDecimal ds

abbrev power_of_ten : ℕ → ℕ
power_of_ten Prim.Native.Nat.zero = 1
power_of_ten (suc n) = 10 * power_of_ten n

abbrev pub number : List ℕ → ℕ
number [] = 0
number (d ∷ ds) = d * power_of_ten (length ds) + number ds

abbrev pub written : List ℕ → Text
written ds = map (λ d. b'0' + d) ds

written_digits : (ds : List ℕ) → AreDecimal ds → all is_digit (written ds) ≡ true
written_digits [] h = refl
written_digits (d ∷ ds) h = ground (arith, written_digits ds h.1)

length-written : (ds : List ℕ) → length (written ds) ≡ length ds
length-written [] = refl
length-written (d ∷ ds) = ap suc (length-written ds)

shift : (n d t v : ℕ) → (n * 10 + (b'0' + d - b'0')) * t + v ≡ n * (10 * t) + (d * t + v)
shift n d t v = grind arith

read-number :
    (n : ℕ) (ds : List ℕ) → read_digits n (written ds) ≡ n * power_of_ten (length ds) + number ds
read-number n [] = omega arith
read-number n (d ∷ ds) =
    read-number (n * 10 + (b'0' + d - b'0')) ds ∙ shift n d (power_of_ten (length ds)) (number ds)

read_all : (ds : List ℕ) → read_digits 0 (written ds) ≡ number ds
read_all ds = read-number 0 ds ∙ omega arith

module _ (is_space : ℕ → Bool) where
  strip_start-spaces :
      (pre rest : Text) (c : ℕ)
      → all is_space pre ≡ true
      → is_space c ≡ false
      → strip_start is_space (pre ++ c ∷ rest) ≡ c ∷ rest
  strip_start-spaces [] rest c h k = rw k refl
  strip_start-spaces (s ∷ pre) rest c h k = ground (arith, strip_start-spaces pre rest c)

  strip_end-spaces : (post : Text) → all is_space post ≡ true → strip_end is_space post ≡ []
  strip_end-spaces [] h = refl
  strip_end-spaces (s ∷ post) h = ground (arith, strip_end-spaces post)

  abbrev NoneIsSpace : Text → Type 0
  NoneIsSpace [] = Unit
  NoneIsSpace (c ∷ cs) = (is_space c ≡ false) × NoneIsSpace cs

  strip_end-text :
      (t post : Text)
      → NoneIsSpace t
      → all is_space post ≡ true
      → strip_end is_space (t ++ post) ≡ t
  strip_end-text [] post h k = strip_end-spaces post k
  strip_end-text (c ∷ t) post h k = rw (h.0) (ap (λ r. c ∷ r) (strip_end-text t post h.1 k))

  written-NoneIsSpace :
      ((c : ℕ) → is_digit c ≡ true → is_space c ≡ false)
      → (ds : List ℕ) → AreDecimal ds
      → NoneIsSpace (written ds)
  written-NoneIsSpace free [] h = tt
  written-NoneIsSpace free (d ∷ ds) h =
      (free (b'0' + d) (ground arith), written-NoneIsSpace free ds h.1)

module _ ⦃py : Python⦄ where
  -- White space, digits and white space.
  abbrev pub padded : Text → List ℕ → Text → Text
  padded pre ds post = pre ++ (written ds ++ post)

  no_minus : (d : ℕ) → (b'0' + d == b'-') ≡ false
  no_minus d = ground arith

  short_text : (ds : List ℕ) → length ds ≤ 256 → ltb 256 (length (written ds)) ≡ false
  short_text ds h = rw (length-written ds) (ground arith)

  parse_stripped-written :
      (dates : Dates) (d : ℕ) (ds : List ℕ) (safe_default maximum : Float)
      → AreDecimal (d ∷ ds)
      → length (d ∷ ds) ≤ 256
      → parse_stripped dates (written (d ∷ ds)) safe_default maximum
        ≡ pure (float_min (py.of_nat (number (d ∷ ds))) maximum)
  unfolding parse_stripped whole_seconds
  parse_stripped-written dates d ds safe_default maximum h short =
      rw (short_text (d ∷ ds) short, no_minus d, written_digits (d ∷ ds) h, read_all (d ∷ ds)) refl

  strip-padded :
      (is_space : ℕ → Bool) (pre post : Text) (d : ℕ) (ds : List ℕ)
      → ((c : ℕ) → is_digit c ≡ true → is_space c ≡ false)
      → all is_space pre ≡ true
      → all is_space post ≡ true
      → AreDecimal (d ∷ ds)
      → strip is_space (padded pre (d ∷ ds) post) ≡ written (d ∷ ds)
  strip-padded is_space pre post d ds free hpre hpost h =
      ap (strip_end is_space) (
        strip_start-spaces is_space pre (written ds ++ post) (b'0' + d) hpre
          (free (b'0' + d) (ground arith)))
      ∙ strip_end-text is_space (written (d ∷ ds)) post
          (written-NoneIsSpace is_space free (d ∷ ds) h) hpost

  -- Parsing decimal digits, at most 256 and with white space around them, returns the number
  -- that they denote by their places, or the maximum where that is less, if no digit counts as
  -- white space and the default and the maximum are finite and not negative.
  pub parse_retry_after-written :
      (laws : FloatLaws py) (dates : Dates) (pre post : Text) (d : ℕ) (ds : List ℕ)
      (default_delay maximum : Float) (w : World)
      → ((c : ℕ) → is_digit c ≡ true → dates.is_space c ≡ false)
      → all dates.is_space pre ≡ true
      → all dates.is_space post ≡ true
      → AreDecimal (d ∷ ds)
      → length (d ∷ ds) ≤ 256
      → IsNonNegative default_delay
      → IsNonNegative maximum
      → parse_retry_after dates (padded pre (d ∷ ds) post) default_delay maximum w
        ≡ (return (float_min (py.of_nat (number (d ∷ ds))) maximum), w)
  unfolding parse_retry_after ◌>>=◌ lift pure
  parse_retry_after-written laws dates pre post d ds default_delay maximum w free hpre hpost h short
        hd hm =
      rw
        (
          accepted laws default_delay hd,
          accepted laws maximum hm,
          strip-padded dates.is_space pre post d ds free hpre hpost h,
          parse_stripped-written dates d ds (float_min default_delay maximum) maximum h short,
        )
        refl
