-- ===== src/Indicators/Tests.antt =====
-- Runs of the indicators on whole numbers.
use braiker.Money.{
  after_dot, before_dot, format_money, is_fraction, is_money, parse_money, parse_or_throw, scale,
}
use braiker.Money.Digits.{digits_from, digits_value, is_digit, pad_start, print_nat, value_from}
use braiker.Prelude.{
  List, [], ◌∷◌, ◌++◌, replicate, ◌≡◌, refl, arith, some, get_or, ◌↔◌, ◌*◌, none, if◌then◌else◌,
  ◌⊎◌, ◌&&◌, ◌+◌, ◌/◌,
}
use braiker.Prelude.Text.{Text, either_literal, literal, same_text, text}
use braiker.Prelude.Int.{pos, ℤ, ◌*ℤ◌, ◌+ℤ◌, ◌-ℤ◌, pos_part}
use braiker.Indicators.Number.{Number}
use braiker.Indicators.Technical.{MarketBar}
use braiker.Indicators.Context.{
  build_indicator_set, bullish, classify_market_regime, is_volatile, market_trend, regime_of,
  trend_of, IndicatorSet, bearish, high_volatility,
}
use braiker.Indicators.Context.Window.{build_indicator_set-append}
use braiker.Indicators.Context.Regime.{classify_market_regime_lem}
use braiker.Decimal.Scaled.{printed, product, quotient, scaled, signed}

-- Decimals as numbers.
abbrev pub fixed : Number
fixed = record {
  Carrier = ℤ;
  of_text = λ t. get_or (scaled.of_text t) (pos 0);
  of_ℕ = λ n. pos (n * scale);
  plus = scaled.plus;
  minus = scaled.minus;
  mul = scaled.mul;
  div = scaled.div;
  abs_value = scaled.abs_value;
  max_of = λ a b. if scaled.lt a b then b else a;
  min_of = λ a b. if scaled.lt a b then a else b;
  lt = scaled.lt;
  lte = scaled.lte;
  is_zero = λ a. scaled.lte a (pos 0) && scaled.lte (pos 0) a;
  rounded = λ a. (pos_part a + scale / 2) / scale;
}

abbrev pub bar_at : Text → MarketBar
bar_at close = record {
  symbol = "SPY";
  timestamp = 60_000;
  open_price = close;
  high = close;
  low = close;
  close = close;
  volume = text "100";
  timeframe = "1Min";
  feed = "iex";
}

abbrev history : List MarketBar
history = bar_at (text "9") ∷ bar_at (text "8") ∷ []

abbrev recent : List MarketBar
recent = replicate 59 (bar_at (text "10")) ++ bar_at (text "11") ∷ []

build_indicator_set-append_example :
    build_indicator_set fixed (history ++ recent) ≡ build_indicator_set fixed recent
build_indicator_set-append_example = build_indicator_set-append fixed history recent (omega arith)

abbrev rising : IndicatorSet ℤ
rising = record {
  ema9 = some (pos 11);
  ema21 = some (pos 10);
  sma20 = none;
  sma50 = none;
  rsi14 = none;
  atr14 = some (pos 0);
  momentum5 = some (pos 1);
  relative_volume = none;
}

classify_market_regime_lem_example :
    ((classify_market_regime fixed rising (pos 11) rising (pos 11) ≡ bullish) ↔ (
      (market_trend fixed rising (pos 11) ≡ bullish)
      × (market_trend fixed rising (pos 11) ≡ bullish)))
    × ((classify_market_regime fixed rising (pos 11) rising (pos 11) ≡ bearish) ↔ (
        (market_trend fixed rising (pos 11) ≡ bearish)
        × (market_trend fixed rising (pos 11) ≡ bearish)))
    × ((classify_market_regime fixed rising (pos 11) rising (pos 11) ≡ high_volatility) ↔ (
        (market_trend fixed rising (pos 11) ≡ high_volatility)
        ⊎ (market_trend fixed rising (pos 11) ≡ high_volatility)))
    × (classify_market_regime fixed rising (pos 11) rising (pos 11)
        ≡ classify_market_regime fixed rising (pos 11) rising (pos 11))
classify_market_regime_lem_example =
    classify_market_regime_lem fixed rising (pos 11) rising (pos 11)

rising_is_bullish : market_trend fixed rising (pos 11) ≡ bullish
unfolding build_indicator_set is_volatile trend_of market_trend regime_of classify_market_regime
    signed printed product quotient before_dot after_dot is_fraction is_money parse_money
    parse_or_throw format_money is_digit value_from digits_value digits_from print_nat pad_start
    literal either_literal same_text ◌+ℤ◌ ◌-ℤ◌ ◌*ℤ◌
rising_is_bullish = refl
