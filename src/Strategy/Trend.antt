-- ===== src/Strategy/Trend.antt =====
-- src/modules/strategy/trend-strategy.ts and src/modules/strategy/hold-strategy.ts.
pub mod Entry
use braiker.Domain.{TradeAction, trade, hold, buy, sell}
use braiker.Indicators.Number.{Number}
use braiker.Indicators.Context.{MarketRegime, bullish, high_volatility, IndicatorSet, same_regime}
use braiker.Prelude.{
  ℕ, true, false, Bool, Option, none, List, if◌then◌else◌, [], some, ◌&&◌, ◌∷◌, ◌++◌, not, get_or,
}
use braiker.Prelude.Text.{Text, literal}

-- The weights of a template's profile, which may be overridden.
pub record StrategyProfile (A : Type 0) : Type 0 where
  pub minimum_signal_score : A
  pub momentum_weight : A
  pub trend_weight : A
  pub volume_weight : A
  pub market_context_weight : A
  pub volatility_penalty : A

pub record StrategyMarket : Type 0 where
  pub spy_trend : MarketRegime
  pub qqq_trend : MarketRegime
  pub regime : MarketRegime

pub record StrategyContext (A : Type 0) : Type 0 where
  pub indicators : IndicatorSet A
  pub market : StrategyMarket
  pub has_position : Bool
  pub profile : StrategyProfile A

pub data SignalReason : Type 0 where
  ema9_above_ema21 positive_momentum volume_above_baseline indices_bullish : SignalReason
  ema9_below_ema21 negative_momentum : SignalReason

-- `score` is of the payload, which a hold of hold-strategy.ts has not.
pub record StrategySignal (A : Type 0) : Type 0 where
  pub action : TradeAction
  pub confidence : ℕ
  pub score : Option A
  pub reasons : List SignalReason

unfoldable pub hold_signal : {A : Type 0} → StrategySignal A
hold_signal = record { action = hold; confidence = 0; score = none; reasons = [] }

module _ (n : Number) where
  -- `a !== null && b !== null && a > b`
  unfoldable pub is_above : Option n.Carrier → Option n.Carrier → Bool
  is_above none b = false
  is_above (some a) none = false
  is_above (some a) (some b) = n.lt b a

  unfoldable pub is_positive : Option n.Carrier → Bool
  is_positive none = false
  is_positive (some a) = n.lt (n.of_ℕ 0) a

  unfoldable pub is_negative : Option n.Carrier → Bool
  is_negative none = false
  is_negative (some a) = n.lt a (n.of_ℕ 0)

  -- `relativeVolume !== null && relativeVolume >= 1`
  unfoldable pub is_busy : Option n.Carrier → Bool
  is_busy none = false
  is_busy (some a) = n.lte (n.of_ℕ 1) a

  unfoldable pub bullish_trend : IndicatorSet n.Carrier → Bool
  bullish_trend indicators = is_above indicators.ema9 indicators.ema21

  unfoldable pub bearish_trend : IndicatorSet n.Carrier → Bool
  bearish_trend indicators = is_above indicators.ema21 indicators.ema9

  unfoldable pub bullish_indices : StrategyMarket → Bool
  bullish_indices market =
      same_regime market.spy_trend bullish && same_regime market.qqq_trend bullish

  unfoldable pub weight_if : Bool → n.Carrier → n.Carrier
  weight_if condition weight = if condition then weight else n.of_ℕ 0

  unfoldable pub score_buy : StrategyContext n.Carrier → n.Carrier
  score_buy context =
      let indicators = context.indicators in
      let profile = context.profile in
      let trend = weight_if (bullish_trend indicators) profile.trend_weight in
      let momentum = weight_if (is_positive indicators.momentum5) profile.momentum_weight in
      let volume = weight_if (is_busy indicators.relative_volume) profile.volume_weight in
      let market = weight_if (bullish_indices context.market) profile.market_context_weight in
      let penalty =
        weight_if (same_regime context.market.regime high_volatility) profile.volatility_penalty in
      n.max_of (n.of_ℕ 0) (n.minus (n.plus (n.plus (n.plus trend momentum) volume) market) penalty)

  unfoldable pub reason_if : Bool → SignalReason → List SignalReason
  reason_if condition reason = if condition then reason ∷ [] else []

  unfoldable pub buy_reasons : StrategyContext n.Carrier → List SignalReason
  buy_reasons context =
      reason_if (bullish_trend context.indicators) ema9_above_ema21
      ++ reason_if (is_positive context.indicators.momentum5) positive_momentum
      ++ reason_if (is_busy context.indicators.relative_volume) volume_above_baseline
      ++ reason_if (bullish_indices context.market) indices_bullish

  -- `hasPosition && bearishTrend && bearishMomentum`
  unfoldable pub must_exit : StrategyContext n.Carrier → Bool
  must_exit context =
      context.has_position
      && bearish_trend context.indicators
      && is_negative context.indicators.momentum5

  -- `!hasPosition && score >= profile.minimumSignalScore`
  unfoldable pub may_enter : StrategyContext n.Carrier → Bool
  may_enter context =
      not context.has_position && n.lte context.profile.minimum_signal_score (score_buy context)

  -- `Math.round(Math.min(1, 0.7 + Math.abs(momentum5 ?? 0)) * 100)`
  unfoldable pub exit_confidence : Option n.Carrier → ℕ
  unfolding literal
  exit_confidence momentum5 = n.rounded (
      n.mul
        (n.min_of (n.of_ℕ 1)
          (n.plus (n.of_text (literal "0.7")) (n.abs_value (get_or momentum5 (n.of_ℕ 0)))))
        (n.of_ℕ 100))

  unfoldable pub evaluate_trend_strategy : StrategyContext n.Carrier → StrategySignal n.Carrier
  evaluate_trend_strategy context =
      if must_exit context
      then record {
        action = trade sell;
        confidence = exit_confidence context.indicators.momentum5;
        score = some (score_buy context);
        reasons = ema9_below_ema21 ∷ negative_momentum ∷ [];
      }
      else record {
        action = if may_enter context then trade buy else hold;
        confidence = n.rounded (n.mul (score_buy context) (n.of_ℕ 100));
        score = some (score_buy context);
        reasons = buy_reasons context;
      }
