-- ===== src/Strategy/Tests.antt =====
-- Runs of src/modules/strategy.
use braiker.Money.{scale, format_money}
use braiker.Money.RoundTrip.{parse_money-format_money}
use braiker.Strategy.PositionSizing.{
  SizingInput, Sized, size_position, sized_if_confident, sized, notional_of, remaining_exposure,
  lower, clamped,
}
use braiker.Strategy.PositionSizing.Limits.{WithinLimits, size_position-WithinLimits}
use braiker.Prelude.Int.{pos, ℤ}
use braiker.Prelude.{some, ◌≡◌, refl, ◌*◌, none, false, ◌↔◌, true}
use braiker.Strategy.Trend.{StrategyContext, evaluate_trend_strategy, score_buy}
use braiker.Indicators.Context.{bullish}
use braiker.Indicators.Tests.{fixed}
use braiker.Domain.{trade, sell, buy}
use braiker.Strategy.Trend.Entry.{IsFalling, evaluate_trend_strategy_trades}

-- A share of four dollars, and ten dollars to spend.
abbrev ten_dollars : SizingInput
ten_dollars = record {
  price = format_money (4 * scale);
  confidence = pos 80;
  available_capital = format_money (10 * scale);
  current_exposure = format_money 0;
  max_position_size = format_money (10 * scale);
  max_portfolio_exposure = format_money (50 * scale);
}

abbrev two_shares : Sized
two_shares = record {
  quantity = format_money (2 * scale);
  estimated_value = format_money (8 * scale);
}

two_shares_lem : size_position ten_dollars ≡ some two_shares
unfolding size_position sized_if_confident sized notional_of remaining_exposure lower clamped
two_shares_lem =
    rw
      (
        parse_money-format_money (4 * scale),
        parse_money-format_money (10 * scale),
        parse_money-format_money 0,
        parse_money-format_money (50 * scale),
      )
      refl

size_position-WithinLimits_example : WithinLimits ten_dollars two_shares
size_position-WithinLimits_example =
    size_position-WithinLimits ten_dollars two_shares two_shares_lem

abbrev uptrend : StrategyContext ℤ
uptrend = record {
  indicators = record {
    ema9 = some (pos 11);
    ema21 = some (pos 10);
    sma20 = none;
    sma50 = none;
    rsi14 = none;
    atr14 = none;
    momentum5 = some (pos 1);
    relative_volume = none;
  };
  market = record { spy_trend = bullish; qqq_trend = bullish; regime = bullish };
  has_position = false;
  profile = record {
    minimum_signal_score = pos 5;
    momentum_weight = pos 2;
    trend_weight = pos 3;
    volume_weight = pos 1;
    market_context_weight = pos 1;
    volatility_penalty = pos 4;
  };
}

evaluate_trend_strategy_trades_example :
    ((evaluate_trend_strategy fixed uptrend).action ≡ trade sell ↔ IsFalling fixed uptrend)
    × ((evaluate_trend_strategy fixed uptrend).action ≡ trade buy
        ↔ ((false ≡ false) × (fixed.lte (pos 5) (score_buy fixed uptrend) ≡ true)))
evaluate_trend_strategy_trades_example = evaluate_trend_strategy_trades fixed uptrend
