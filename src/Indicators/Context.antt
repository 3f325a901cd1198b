-- ===== src/Indicators/Context.antt =====
-- src/modules/market/market-context.ts.
pub mod Window
pub mod Regime
use braiker.Indicators.Number.{Number}
use braiker.Indicators.Technical.{MarketBar, sma, ema, momentum, rsi, atr, relative_volume}
use braiker.Prelude.{
  ℕ, true, false, Option, List, Bool, if◌then◌else◌, some, ◌==◌, ◌||◌, ◌&&◌, none,
}
use braiker.Prelude.Text.{Text, literal}

pub data MarketRegime : Type 0 where
  bullish bearish sideways high_volatility unknown : MarketRegime

pub record IndicatorSet (A : Type 0) : Type 0 where
  pub ema9 : Option A
  pub ema21 : Option A
  pub sma20 : Option A
  pub sma50 : Option A
  pub rsi14 : Option A
  pub atr14 : Option A
  pub momentum5 : Option A
  pub relative_volume : Option A

module _ (n : Number) where
  unfoldable pub build_indicator_set : List MarketBar → IndicatorSet n.Carrier
  build_indicator_set bars = record {
    ema9 = ema n bars 9;
    ema21 = ema n bars 21;
    sma20 = sma n bars 20;
    sma50 = sma n bars 50;
    rsi14 = rsi n bars 14;
    atr14 = atr n bars 14;
    momentum5 = momentum n bars 5;
    relative_volume = relative_volume n bars 20;
  }

  -- `atr14 !== null && close > 0 && atr14 / close >= 0.03`
  unfoldable pub is_volatile : Option n.Carrier → n.Carrier → Bool
  unfolding literal
  is_volatile none close = false
  is_volatile (some range) close =
      n.lt (n.of_ℕ 0) close && n.lte (n.of_text (literal "0.03")) (n.div range close)

  unfoldable pub trend_of : Option n.Carrier → Option n.Carrier → Bool → MarketRegime
  trend_of none slow volatile = unknown
  trend_of (some fast) none volatile = unknown
  trend_of (some fast) (some slow) volatile =
      if volatile
      then high_volatility
      else if n.lt slow fast
      then bullish
      else if n.lt fast slow
      then bearish
      else sideways

  -- `trend`, which `marketTrend` calls
  unfoldable pub market_trend : IndicatorSet n.Carrier → n.Carrier → MarketRegime
  market_trend indicators close =
      trend_of indicators.ema9 indicators.ema21 (is_volatile indicators.atr14 close)

abbrev pub regime_code : MarketRegime → ℕ
regime_code bullish = 0
regime_code bearish = 1
regime_code sideways = 2
regime_code high_volatility = 3
regime_code unknown = 4

abbrev pub same_regime : MarketRegime → MarketRegime → Bool
same_regime a b = regime_code a == regime_code b

unfoldable pub regime_of : MarketRegime → MarketRegime → MarketRegime
regime_of spy_trend qqq_trend =
    if same_regime spy_trend high_volatility || same_regime qqq_trend high_volatility
    then high_volatility
    else if same_regime spy_trend bullish && same_regime qqq_trend bullish
    then bullish
    else if same_regime spy_trend bearish && same_regime qqq_trend bearish
    then bearish
    else if same_regime spy_trend unknown || same_regime qqq_trend unknown
    then unknown
    else sideways

unfoldable pub classify_market_regime :
    (n : Number)
    → IndicatorSet n.Carrier
    → n.Carrier
    → IndicatorSet n.Carrier
    → n.Carrier
    → MarketRegime
classify_market_regime n spy spy_close qqq qqq_close =
    regime_of (market_trend n spy spy_close) (market_trend n qqq qqq_close)
