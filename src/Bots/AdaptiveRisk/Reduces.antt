-- ===== src/Bots/AdaptiveRisk/Reduces.antt =====
-- What the posture of src/modules/bots/adaptive-risk.ts may change of the saved policy, and when
-- src/modules/bots/adaptive-risk-audit.ts writes it down.
use braiker.Decimal.{Decimal, money, PrintsBack}
use braiker.Risk.Types.{RiskPolicy}
use braiker.Bots.AdaptiveRisk.{
  Factor, factor_text, scaled_trades, max_ℕ, half, quarter, scale_money, scaled_policy,
  resolve_adaptive_risk_policy, resolve_if_enabled, resolve_enabled, resolve_liquid, reduced_below,
  unreduced, is_deployed, is_within_baseline, AdaptiveRiskInput, AdaptiveRiskResult, Level, manual,
  baseline, cautious, protective, AdjustmentInput, RiskAdjustment, latest_adjustment,
  has_fingerprint, adaptive_risk_fingerprint, record_adaptive_risk_adjustment, AdaptiveReason,
  within_baseline, deployed, disabled,
}
use braiker.Prelude.{
  ◌≡◌, ℕ, true, ◌≤◌, Bool, arith, false, String, some, subst, List, sym, eq_iff, refl,
}
use braiker.Prelude.Text.{Text, literal}
use braiker.Prelude.Result.{ok, or_throw->>=, >>=-eq-ok, ok-injective}

trades_reduced : (f : Factor) (n : ℕ) → max_ℕ 1 (scaled_trades f n) ≤ max_ℕ 1 n
unfolding scaled_trades max_ℕ
trades_reduced half n = ground arith
trades_reduced quarter n = ground arith

module _ (d : Decimal) where
  -- The documented arithmetic of a product with "0.5" or "0.25" that is rounded down.
  pub record ReductionLaws : Type 0 where
    pub lte_refl : (x : d.Carrier) → d.lte x x ≡ true
    pub part_of :
        (f : Factor) (x by : d.Carrier)
        → d.of_text (factor_text f) ≡ some by
        → d.lte d.zero_value x ≡ true
        → d.lte (d.to_places_down 12 (d.mul x by)) x ≡ true

  -- A limit that is no money below zero stays a limit, and is not raised.
  abbrev pub Lowered : Text → Text → Type 0
  Lowered before after =
      (x : d.Carrier)
      → d.of_text before ≡ some x
      → d.lte d.zero_value x ≡ true
      → (y : d.Carrier) × (d.of_text after ≡ some y) × (d.lte y x ≡ true)

  -- Nothing but three limits differs, and none of them is raised; but a policy without a trade per
  -- day may get one.
  abbrev pub Reduces : RiskPolicy → RiskPolicy → Type 0
  Reduces base effective =
      (effective ≡ record base {
        max_position_size = effective.max_position_size;
        max_daily_loss = effective.max_daily_loss;
        max_trades_per_day = effective.max_trades_per_day;
      })
      × (effective.max_trades_per_day ≤ max_ℕ 1 base.max_trades_per_day)
      × Lowered base.max_position_size effective.max_position_size
      × Lowered base.max_daily_loss effective.max_daily_loss

  abbrev pub is_reduction : Level → Bool
  is_reduction manual = false
  is_reduction baseline = false
  is_reduction cautious = true
  is_reduction protective = true

  scale_money-Lowered :
      PrintsBack d
      → ReductionLaws
      → (value : Text) (f : Factor) (out : Text) → scale_money d value f ≡ ok out
      → Lowered value out
  unfolding scale_money money
  scale_money-Lowered back laws value f out h x e pos =
      let (amount, ea, h1) = or_throw->>= (d.of_text value) _ _ h in
      let (by, eb, h2) = or_throw->>= (d.of_text (factor_text f)) _ _ h1 in
      let same : amount ≡ x = cc (ea, e) in
      (
        d.to_places_down 12 (d.mul amount by),
        cc (back.reads_back (d.to_places_down 12 (d.mul amount by)), h2),
        subst (λ z. d.lte (d.to_places_down 12 (d.mul z by)) x ≡ true) (sym same)
            (laws.part_of f x by eb pos),
      )

  scaled_policy-Reduces :
      PrintsBack d
      → ReductionLaws
      → (base : RiskPolicy) (f : Factor) (out : RiskPolicy) → scaled_policy d base f ≡ ok out
      → Reduces base out
  unfolding scaled_policy
  scaled_policy-Reduces back laws base f out h =
      let (size, es, h1) = >>=-eq-ok (scale_money d base.max_position_size f) _ h in
      let (loss, el, h2) = >>=-eq-ok (scale_money d base.max_daily_loss f) _ h1 in
      subst (Reduces base) (ok-injective h2) (
        refl,
        trades_reduced f base.max_trades_per_day,
        scale_money-Lowered back laws base.max_position_size f size es,
        scale_money-Lowered back laws base.max_daily_loss f loss el,
      )

  Reduces-refl : ReductionLaws → (base : RiskPolicy) → Reduces base base
  unfolding max_ℕ
  Reduces-refl laws base =
      (refl, ground arith, λ x e pos. (x, e, laws.lte_refl x), λ x e pos. (x, e, laws.lte_refl x))

  abbrev Posture : RiskPolicy → AdaptiveRiskResult → Type 0
  Posture base result =
      Reduces base result.effective_policy
      × (is_reduction result.level ≡ false → result.effective_policy ≡ base)

  unreduced-Posture :
      ReductionLaws
      → (level : Level) (reason : AdaptiveReason) (input : AdaptiveRiskInput)
        (result : AdaptiveRiskResult)
      → ok (unreduced d level reason input) ≡ ok result
      → Posture input.base_policy result
  unfolding unreduced
  unreduced-Posture laws level reason input result h =
      subst (Posture input.base_policy) (ok-injective h)
        (Reduces-refl laws input.base_policy, λ _. refl)

  reduced_below-Posture :
      PrintsBack d
      → ReductionLaws
      → (below : Bool) (input : AdaptiveRiskInput) (result : AdaptiveRiskResult)
      → reduced_below d below input ≡ ok result
      → Posture input.base_policy result
  unfolding reduced_below
  reduced_below-Posture back laws true input result h =
      let (policy, e, h1) = >>=-eq-ok (scaled_policy d input.base_policy quarter) _ h in
      subst (Posture input.base_policy) (ok-injective h1)
        (scaled_policy-Reduces back laws input.base_policy quarter policy e, λ no. absurd cc)
  reduced_below-Posture back laws false input result h =
      let (policy, e, h1) = >>=-eq-ok (scaled_policy d input.base_policy half) _ h in
      subst (Posture input.base_policy) (ok-injective h1)
        (scaled_policy-Reduces back laws input.base_policy half policy e, λ no. absurd cc)

  resolve_liquid-Posture :
      PrintsBack d
      → ReductionLaws
      → (within : Bool) (input : AdaptiveRiskInput) (initial current : d.Carrier)
        (result : AdaptiveRiskResult)
      → resolve_liquid d within input initial current ≡ ok result
      → Posture input.base_policy result
  unfolding resolve_liquid
  resolve_liquid-Posture back laws true input initial current result h =
      unreduced-Posture laws baseline within_baseline input result h
  resolve_liquid-Posture back laws false input initial current result h =
      let (part, _, h1) = >>=-eq-ok (money d (literal "0.5")) _ h in
      reduced_below-Posture back laws _ input result h1

  resolve_enabled-Posture :
      PrintsBack d
      → ReductionLaws
      → (in_use : Bool) (input : AdaptiveRiskInput) (result : AdaptiveRiskResult)
      → resolve_enabled d in_use input ≡ ok result
      → Posture input.base_policy result
  unfolding resolve_enabled
  resolve_enabled-Posture back laws true input result h =
      unreduced-Posture laws baseline deployed input result h
  resolve_enabled-Posture back laws false input result h =
      let (initial, _, h1) = >>=-eq-ok (money d input.initial_capital) _ h in
      let (current, _, h2) = >>=-eq-ok (money d input.current_capital) _ h1 in
      let (within, _, h3) = >>=-eq-ok (is_within_baseline d initial current) _ h2 in
      resolve_liquid-Posture back laws within input initial current result h3

  resolve_if_enabled-Posture :
      PrintsBack d
      → ReductionLaws
      → (enabled : Bool) (input : AdaptiveRiskInput) (result : AdaptiveRiskResult)
      → resolve_if_enabled d enabled input ≡ ok result
      → Posture input.base_policy result
  unfolding resolve_if_enabled
  resolve_if_enabled-Posture back laws false input result h =
      unreduced-Posture laws manual disabled input result h
  resolve_if_enabled-Posture back laws true input result h =
      let (in_use, _, h1) = >>=-eq-ok (is_deployed d input) _ h in
      resolve_enabled-Posture back laws in_use input result h1

  -- Where decimals print back and a product with 0.5 or 0.25 rounded down does not exceed its
  -- factor, a posture that is returned differs from the saved policy in three limits at most, of
  -- which the two amounts are not raised and the trades per day are not raised above the larger of
  -- one and the saved number; outside the two reducing levels it is the saved policy.
  pub resolve_adaptive_risk_policy-Reduces :
      PrintsBack d
      → ReductionLaws
      → (input : AdaptiveRiskInput) (result : AdaptiveRiskResult)
      → resolve_adaptive_risk_policy d input ≡ ok result
      → Reduces input.base_policy result.effective_policy
        × (is_reduction result.level ≡ false → result.effective_policy ≡ input.base_policy)
  unfolding resolve_adaptive_risk_policy
  resolve_adaptive_risk_policy-Reduces back laws input result h =
      resolve_if_enabled-Posture back laws input.is_enabled input result h

module _ (hash : Level → RiskPolicy → RiskPolicy → String) where
  -- After an adjustment of a bot is recorded, another of the same bot with the same fingerprint
  -- adds no row and returns false.
  pub record_adaptive_risk_adjustment_once :
      (first second : AdjustmentInput) (rows : List RiskAdjustment)
      → first.bot_id ≡ second.bot_id
      → adaptive_risk_fingerprint hash first ≡ adaptive_risk_fingerprint hash second
      → record_adaptive_risk_adjustment hash second
          (record_adaptive_risk_adjustment hash first rows).1
        ≡ (false, (record_adaptive_risk_adjustment hash first rows).1)
  unfolding record_adaptive_risk_adjustment has_fingerprint latest_adjustment
  record_adaptive_risk_adjustment_once first second rows same print = ground (
    arith,
    eq_iff first.bot_id second.bot_id,
    eq_iff (adaptive_risk_fingerprint hash first) (adaptive_risk_fingerprint hash second),
  )
