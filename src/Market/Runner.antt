-- ===== src/Market/Runner.antt =====
-- The candidate trade that `evaluateBotForBar` of src/modules/market/market-runner.ts derives from a bar.
use mathlib.Core.Option
use braiker.Prelude.{
  ℕ, true, false, List, Option, length, String, leb, get_or, find, ◌∷◌, none, some, map, ◌+◌, last,
  str_eq, keep, ◌&&◌, [],
}
use braiker.Prelude.Text.{Text}
use braiker.Prelude.Int.{pos}
use braiker.Decimal.{Decimal}
use braiker.Domain.{Side, buy, sell, market, trade, hold}
use braiker.Domain
use braiker.Risk.Types.{RiskPolicy, Proposal, BrokerPosition}
use braiker.Bots.AdaptiveRisk.{AdaptiveRiskInput}
use braiker.Capital.OperatingCost.Charge.{BotPosition}
use braiker.Indicators.Number.{Number}
use braiker.Indicators.Technical.{MarketBar, close_of}
use braiker.Indicators.Context.{build_indicator_set, classify_market_regime, market_trend}
use braiker.Strategy.Trend.{StrategyContext}
use braiker.Strategy.PositionSizing.{Sized, size_position}
use braiker.Decision.Service.{DecisionDb, ProposalRow, TradeInput}
use braiker.Resources.MacroGuard.{active_macro_guard}
use braiker.Market.Evaluation.{
  EvaluationInput, ActiveBot, guard_state, is_pending_status, stale_after_ms,
}
use braiker.Bots.Row.{BotRow}
use braiker.Prelude.Maybe.{is_some}

module _ (n : Number) where
  unfoldable pub last_close : List MarketBar → n.Carrier
  last_close bars = get_or (Option.map (close_of n) (last bars)) (n.of_ℕ 0)

module _ (d : Decimal) (n : Number) where
  -- `botPositions.find((item) => item.symbol === symbol && item.quantity.gt(0))`
  unfoldable pub open_position :
      EvaluationInput d.Carrier n.Carrier → Option (BotPosition d.Carrier)
  open_position input =
      find
        (λ (p : BotPosition d.Carrier).
          str_eq p.symbol input.symbol && d.lt d.zero_value p.quantity)
        input.bot.positions

  unfoldable pub strategy_context : EvaluationInput d.Carrier n.Carrier → StrategyContext n.Carrier
  strategy_context input =
      let spy = build_indicator_set n input.spy_bars in
      let qqq = build_indicator_set n input.qqq_bars in
      let spy_close = last_close n input.spy_bars in
      let qqq_close = last_close n input.qqq_bars in
      record {
        indicators = build_indicator_set n input.bars;
        market = record {
          spy_trend = market_trend n spy spy_close;
          qqq_trend = market_trend n qqq qqq_close;
          regime = classify_market_regime n spy spy_close qqq qqq_close;
        };
        has_position = is_some (open_position input);
        profile = input.bot.profile;
      }

  unfoldable pub adaptive_input : ActiveBot d.Carrier n.Carrier → AdaptiveRiskInput
  adaptive_input bot = record {
    is_enabled = bot.adaptive_risk_enabled;
    base_policy = bot.risk_policy;
    initial_capital = d.to_text bot.row.initial_capital;
    current_capital = d.to_text bot.row.current_capital;
    reserved_capital = d.to_text bot.row.reserved_capital;
    open_position_count = length bot.positions;
  }

  unfoldable pub cost_of : BotPosition d.Carrier → d.Carrier
  cost_of position = d.mul position.quantity position.average_entry_price

  unfoldable pub exposure_of : d.Carrier → List (BotPosition d.Carrier) → d.Carrier
  exposure_of total [] = total
  exposure_of total (position ∷ positions) = exposure_of (d.plus total (cost_of position)) positions

  unfoldable pub free_capital : BotRow d.Carrier → Text
  free_capital bot = d.to_text (d.minus bot.current_capital bot.reserved_capital)

  unfoldable pub market_order : String → Side → Text → Text → Proposal
  market_order symbol action quantity price = record {
    symbol = symbol;
    action = action;
    order_type = Domain.market;
    quantity = quantity;
    limit_price = none;
    estimated_price = price;
  }

  unfoldable pub sized_order :
      EvaluationInput d.Carrier n.Carrier → ℕ → RiskPolicy → Option Proposal
  sized_order input confidence policy =
      Option.map (λ (s : Sized). market_order input.symbol buy s.quantity input.ask)
        (size_position (record {
          price = input.ask;
          confidence = pos confidence;
          available_capital = free_capital input.bot.row;
          current_exposure = d.to_text (exposure_of d.zero_value input.bot.positions);
          max_position_size = policy.max_position_size;
          max_portfolio_exposure = policy.max_portfolio_exposure;
        }))

  -- A sale of the whole position, or else a sized purchase.
  unfoldable pub candidate :
      EvaluationInput d.Carrier n.Carrier
      → Side
      → Option (BotPosition d.Carrier)
      → ℕ
      → RiskPolicy
      → Option Proposal
  candidate input sell (some position) confidence policy =
      some (market_order input.symbol sell (d.to_text position.quantity) input.bid)
  candidate input sell none confidence policy = sized_order input confidence policy
  candidate input buy position confidence policy = sized_order input confidence policy

  unfoldable pub broker_position : BotPosition d.Carrier → BrokerPosition
  broker_position position = record {
    symbol = position.symbol;
    quantity = d.to_text position.quantity;
    market_value = d.to_text (cost_of position);
    average_entry_price = d.to_text position.average_entry_price;
  }

  unfoldable pub pending_symbols :
      EvaluationInput d.Carrier n.Carrier → DecisionDb d.Carrier → List String
  pending_symbols input db =
      map (λ (p : ProposalRow d.Carrier). p.symbol)
        (keep
          (λ (p : ProposalRow d.Carrier).
            str_eq p.bot_id input.bot.row.id
            && str_eq p.symbol input.symbol
            && is_pending_status p.status)
          db.proposals)

  unfoldable pub trade_input :
      EvaluationInput d.Carrier n.Carrier
      → Proposal
      → RiskPolicy
      → DecisionDb d.Carrier
      → TradeInput
  trade_input input proposal policy db = record {
    bot_id = input.bot.row.id;
    proposal = proposal;
    policy = policy;
    risk_context = record {
      bot_status = input.bot.row.status;
      kill_switch = input.bot.row.kill_switch;
      market_open = input.market_open;
      data_fresh =
          leb input.now (input.candle_timestamp + stale_after_ms)
          && leb input.now (input.quote_timestamp + stale_after_ms);
      account_healthy = true;
      account = record {
        buying_power = input.cash;
        cash = input.cash;
        equity = input.equity;
        trading_blocked = false;
      };
      positions = map broker_position input.bot.positions;
      pending_symbols = pending_symbols input db;
      daily_pnl = input.daily_pnl;
      weekly_pnl = input.weekly_pnl;
      trades_today = input.trades_today;
      bot_capital_available = free_capital input.bot.row;
      macro_guard = guard_state (active_macro_guard input.macro_events input.now);
    };
  }
