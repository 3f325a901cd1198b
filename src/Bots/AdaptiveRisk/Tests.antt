-- ===== src/Bots/AdaptiveRisk/Tests.antt =====
-- Runs of the adaptive posture.
use braiker.Money.{
  after_dot, before_dot, format_money, is_fraction, is_money, parse_money, parse_or_throw,
}
use braiker.Money.Digits.{digits_from, digits_value, is_digit, pad_start, print_nat, value_from}
use braiker.Decimal.{max_value, money}
use braiker.Prelude.Result.{ok, or_else}
use braiker.Prelude.{some, true, false, ◌≡◌, refl, String, arith, subst, if◌then◌else◌}
use braiker.Prelude.Text.{either_literal, literal, same_text, text}
use braiker.Prelude.Int.{negsuc, pos, ℤ, ◌*ℤ◌, ◌+ℤ◌, ◌-ℤ◌}
use braiker.Risk.Types.{default_risk_policy, RiskPolicy}
use braiker.Decimal.Scaled.{printed, product, quotient, scaled, signed}
use braiker.Decimal.Scaled.Laws.{scaled-PrintsBack}
use braiker.Bots.AdaptiveRisk.{
  AdaptiveRiskInput, AdaptiveRiskResult, AdjustmentInput, Factor, Level, adaptive_risk_fingerprint,
  baseline, below_baseline, cautious, deployed, factor_text, half, has_fingerprint, is_deployed,
  is_within_baseline, latest_adjustment, max_ℕ, policy_for_adaptive_trade, quarter,
  record_adaptive_risk_adjustment, reduced_below, resolve_adaptive_risk_policy, resolve_enabled,
  resolve_if_enabled, resolve_liquid, scale_money, scaled_policy, scaled_trades, unreduced,
}
use braiker.Bots.AdaptiveRisk.Reduces.{
  ReductionLaws, Reduces, is_reduction, resolve_adaptive_risk_policy-Reduces,
}

-- 7 of 10 left: below 85%, above 50%.
abbrev shrunk : AdaptiveRiskInput
shrunk = record {
  is_enabled = true;
  base_policy = default_risk_policy;
  initial_capital = text "10";
  current_capital = text "7";
  reserved_capital = text "0";
  open_position_count = 0;
}

abbrev posture : AdaptiveRiskResult
posture =
    or_else (resolve_adaptive_risk_policy scaled shrunk)
      (record { level = baseline; reason = deployed; effective_policy = default_risk_policy })

posture_lem : resolve_adaptive_risk_policy scaled shrunk ≡ ok posture
unfolding policy_for_adaptive_trade factor_text scaled_trades max_ℕ scale_money scaled_policy
    is_deployed is_within_baseline unreduced reduced_below resolve_liquid resolve_enabled
    resolve_if_enabled resolve_adaptive_risk_policy latest_adjustment has_fingerprint
    adaptive_risk_fingerprint record_adaptive_risk_adjustment before_dot after_dot is_fraction
    is_money parse_money parse_or_throw format_money is_digit value_from digits_value digits_from
    print_nat pad_start money max_value signed printed product quotient ◌+ℤ◌ ◌-ℤ◌ ◌*ℤ◌ literal
    either_literal same_text
posture_lem = refl

posture_level : posture.level ≡ cautious
unfolding policy_for_adaptive_trade factor_text scaled_trades max_ℕ scale_money scaled_policy
    is_deployed is_within_baseline unreduced reduced_below resolve_liquid resolve_enabled
    resolve_if_enabled resolve_adaptive_risk_policy latest_adjustment has_fingerprint
    adaptive_risk_fingerprint record_adaptive_risk_adjustment before_dot after_dot is_fraction
    is_money parse_money parse_or_throw format_money is_digit value_from digits_value digits_from
    print_nat pad_start money max_value signed printed product quotient ◌+ℤ◌ ◌-ℤ◌ ◌*ℤ◌ literal
    either_literal same_text
posture_level = refl

some-injective : {a b : ℤ} → some a ≡ some b → a ≡ b
some-injective h = cc

at_most_itself : (x : ℤ) → scaled.lte x x ≡ true
at_most_itself (pos n) = ground arith
at_most_itself (negsuc n) = ground arith

part :
    (f : Factor) (x by : ℤ)
    → scaled.of_text (factor_text f) ≡ some by
    → scaled.lte (pos 0) x ≡ true
    → scaled.lte (scaled.mul x by) x ≡ true
unfolding policy_for_adaptive_trade factor_text scaled_trades max_ℕ scale_money scaled_policy
    is_deployed is_within_baseline unreduced reduced_below resolve_liquid resolve_enabled
    resolve_if_enabled resolve_adaptive_risk_policy latest_adjustment has_fingerprint
    adaptive_risk_fingerprint record_adaptive_risk_adjustment before_dot after_dot is_fraction
    is_money parse_money parse_or_throw format_money is_digit value_from digits_value digits_from
    print_nat pad_start money max_value signed printed product quotient ◌+ℤ◌ ◌-ℤ◌ ◌*ℤ◌ literal
    either_literal same_text
part half (pos n) by e h =
    subst (λ y. scaled.lte (scaled.mul (pos n) y) (pos n) ≡ true)
      (some-injective {a = pos 500_000_000_000} e) (ground arith)
part quarter (pos n) by e h =
    subst (λ y. scaled.lte (scaled.mul (pos n) y) (pos n) ≡ true)
      (some-injective {a = pos 250_000_000_000} e) (ground arith)
part f (negsuc n) by e h = absurd (ground arith)

scaled-ReductionLaws : ReductionLaws scaled
scaled-ReductionLaws = record { lte_refl = at_most_itself; part_of = part }

resolve_adaptive_risk_policy-Reduces_example :
    Reduces scaled default_risk_policy posture.effective_policy
    × (is_reduction scaled posture.level ≡ false → posture.effective_policy ≡ default_risk_policy)
resolve_adaptive_risk_policy-Reduces_example =
    resolve_adaptive_risk_policy-Reduces scaled scaled-PrintsBack scaled-ReductionLaws shrunk
      posture posture_lem

-- The same posture twice, with another explanation.
abbrev adjustment : AdjustmentInput
adjustment = record {
  bot_id = "guardian";
  level = cautious;
  reason = below_baseline;
  base_policy = default_risk_policy;
  effective_policy = posture.effective_policy;
}

abbrev again : AdjustmentInput
again = record adjustment { reason = deployed }

abbrev by_level : Level → RiskPolicy → RiskPolicy → String
by_level level base effective = if is_reduction scaled level then "reduced" else "kept"
