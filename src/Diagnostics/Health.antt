-- ===== src/Diagnostics/Health.antt =====
-- The reports of src/relinker/diagnostics.py: warnings with their severity, and the risk level.
use relinker.Prelude.{
  ℕ, ◌<◌, ◌≡◌, refl, ◌↔◌, Bool, true, false, not, ◌&&◌, ◌||◌, List, [], ◌∷◌, any, count_if, ltb,
  arith, if◌then◌else◌,
}

pub data Severity : Type 0 where
  advisory warning critical : Severity

-- The codes of the warnings.
pub data Code : Type 0 where
  implicit_default_policy forever no_delay tight_loop_risk : Code
  unbounded_exponential_with_forever unbounded_history : Code
  broad_exception broad_os_error many_attempts high_total_sleep : Code
  result_retry_without_observation missing_jitter seeded_random_delay : Code
  missing_retry_budget silent_fallback infinite_retry_with_budget : Code
  for_testing_with_max_time background_broad_exception : Code

-- A warning, without its message and hint.
pub record PolicyWarning : Type 0 where
  pub code : Code
  pub severity : Severity

-- A skipped check is named like the warning that it would give.
pub record PolicyHealthReport : Type 0 where
  pub warnings : List PolicyWarning
  pub complete : Bool
  pub skipped_checks : List Code

abbrev pub is_critical : PolicyWarning → Bool
is_critical w = elim w.severity [ critical ↦ true | _ ↦ false ]

abbrev pub is_empty {ℓ} : {A : Type ℓ} → List A → Bool
is_empty [] = true
is_empty (_ ∷ _) = false

-- The report's `ok`, `has_warnings`, `has_critical`, `critical_count` and `risk_level`.
abbrev pub report_ok : PolicyHealthReport → Bool
report_ok r = r.complete && is_empty r.warnings

abbrev pub has_warnings : PolicyHealthReport → Bool
has_warnings r = not (is_empty r.warnings)

abbrev pub has_critical : PolicyHealthReport → Bool
has_critical r = any is_critical r.warnings

abbrev pub critical_count : PolicyHealthReport → ℕ
critical_count r = count_if is_critical r.warnings

pub data RiskLevel : Type 0 where
  risk_ok risk_warning risky : RiskLevel

unfoldable pub risk_level : PolicyHealthReport → RiskLevel
risk_level r =
    if has_critical r
    then risky
    else if has_warnings r || not r.complete
    then risk_warning
    else risk_ok

any-count_if : (ws : List PolicyWarning) → any is_critical ws ≡ ltb 0 (count_if is_critical ws)
any-count_if [] = refl
any-count_if (w ∷ ws) = ground (arith, any-count_if ws)

critical-nonempty : (ws : List PolicyWarning) → any is_critical ws ≡ true → is_empty ws ≡ false
critical-nonempty [] h = ground arith
critical-nonempty (w ∷ ws) h = refl

abbrev level_of : (critical_one no_warning complete : Bool) → RiskLevel
level_of critical_one no_warning complete =
    if critical_one then risky else if not no_warning || not complete then risk_warning else risk_ok

abbrev Levels : (critical_one no_warning complete : Bool) (n : ℕ) → Type 0
Levels critical_one no_warning complete n =
    ((level_of critical_one no_warning complete ≡ risky) ↔ (0 < n))
    × ((level_of critical_one no_warning complete ≡ risk_ok) ↔ ((complete && no_warning) ≡ true))
    × ((complete && no_warning) ≡ true → n ≡ 0)

levels :
    (critical_one no_warning complete : Bool) (n : ℕ)
    → critical_one ≡ ltb 0 n
    → (critical_one ≡ true → no_warning ≡ false)
    → Levels critical_one no_warning complete n
levels true no_warning complete n e h = (
  ((λ _. ground arith), (λ _. refl)),
  ((λ k. cc), (λ k. ground (arith, h refl))),
  (λ k. ground (arith, h refl)),
)
levels false false complete n e h =
    (((λ k. cc), (λ k. ground arith)), ((λ k. cc), (λ k. ground arith)), (λ k. ground arith))
levels false true false n e h =
    (((λ k. cc), (λ k. ground arith)), ((λ k. cc), (λ k. cc)), (λ k. ground arith))
levels false true true n e h =
    (((λ k. cc), (λ k. ground arith)), ((λ _. refl), (λ _. refl)), (λ k. ground arith))

-- A report is at the highest risk exactly if it has a critical warning, at none exactly if it is
-- complete and has no warning, and then it has no critical warning.
pub risk_level_lem :
    (r : PolicyHealthReport)
    → ((risk_level r ≡ risky) ↔ (0 < critical_count r))
      × ((risk_level r ≡ risk_ok) ↔ (report_ok r ≡ true))
      × (report_ok r ≡ true → critical_count r ≡ 0)
unfolding risk_level
risk_level_lem r =
    levels (any is_critical r.warnings) (is_empty r.warnings) r.complete (critical_count r)
      (any-count_if r.warnings) (critical-nonempty r.warnings)
