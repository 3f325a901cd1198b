-- ===== src/Bots/Templates.antt =====
-- src/modules/bots/bot-templates.ts: the templates and the rules of a mode change. The strategy
-- numbers are in hundredths.
use braiker.Domain.{
  BotStatus, running, paused, risk_halted, error, maintenance, LifeStatus, active, dead, RunMode,
  off, simulation, paper_active, is_paper_active,
}
use braiker.Risk.Types.{RiskPolicy}
use braiker.Prelude.{
  List, [], ◌∷◌, Option, none, some, Bool, true, false, ℕ, String, ◌&&◌, any, if◌then◌else◌, str_eq,
  find,
}
use braiker.Prelude.Text.{Text, text}
use braiker.Prelude.Result.{Result, or_throw}

abbrev allowed_trading_symbols : List String
allowed_trading_symbols =
    "SPY" ∷ "QQQ" ∷ "AAPL" ∷ "MSFT" ∷ "NVDA" ∷ "AMZN" ∷ "META" ∷ "GOOGL" ∷ "TSLA" ∷ "AMD" ∷ []

pub data BotTemplateId : Type 0 where
  guardian navigator explorer : BotTemplateId

pub record StrategyNumbers : Type 0 where
  pub minimum_signal_score : ℕ
  pub trend_weight : ℕ
  pub momentum_weight : ℕ
  pub volume_weight : ℕ
  pub market_context_weight : ℕ
  pub volatility_penalty : ℕ

pub record BotTemplate : Type 0 where
  pub id : BotTemplateId
  pub name : String
  pub avatar : String
  pub risk_policy : RiskPolicy
  pub strategy_profile : StrategyNumbers

-- A policy with `...neverTradeRisk`.
unfoldable pub never_trade_risk : Text → Text → Text → Text → ℕ → RiskPolicy
never_trade_risk position exposure daily weekly trades = record {
  max_position_size = position;
  max_portfolio_exposure = exposure;
  max_daily_loss = daily;
  max_weekly_loss = weekly;
  max_trades_per_day = trades;
  allow_margin = false;
  allow_shorting = false;
  allow_options = false;
  allow_leverage = false;
  market_order_buffer_pct = text "0.02";
}

unfoldable pub templates : List BotTemplate
unfolding never_trade_risk
templates =
    record {
      id = guardian;
      name = "Guardian";
      avatar = "shield";
      risk_policy = never_trade_risk (text "5") (text "20") (text "1") (text "3") 2;
      strategy_profile = record {
        minimum_signal_score = 85;
        trend_weight = 35;
        momentum_weight = 25;
        volume_weight = 15;
        market_context_weight = 25;
        volatility_penalty = 20;
      };
    }
    ∷ record {
      id = navigator;
      name = "Navigator";
      avatar = "compass";
      risk_policy = never_trade_risk (text "10") (text "35") (text "2") (text "6") 4;
      strategy_profile = record {
        minimum_signal_score = 65;
        trend_weight = 30;
        momentum_weight = 25;
        volume_weight = 20;
        market_context_weight = 15;
        volatility_penalty = 10;
      };
    }
    ∷ record {
      id = explorer;
      name = "Explorer";
      avatar = "spark";
      risk_policy = never_trade_risk (text "15") (text "50") (text "3") (text "10") 6;
      strategy_profile = record {
        minimum_signal_score = 55;
        trend_weight = 25;
        momentum_weight = 30;
        volume_weight = 25;
        market_context_weight = 10;
        volatility_penalty = 5;
      };
    }
    ∷ []

unfoldable pub same_id : BotTemplateId → BotTemplateId → Bool
same_id guardian guardian = true
same_id navigator navigator = true
same_id explorer explorer = true
same_id _ _ = false

unfoldable pub get_bot_template : BotTemplateId → Result BotTemplate
unfolding same_id templates
get_bot_template id =
    or_throw (find (λ (candidate : BotTemplate). same_id candidate.id id) templates)
      "UNKNOWN_BOT_TEMPLATE"

unfoldable pub is_allowed_trading_symbol : String → Bool
is_allowed_trading_symbol symbol = any (λ allowed. str_eq allowed symbol) allowed_trading_symbols

-- `null`, which allows the change, is `none`.
unfoldable pub validate_bot_mode_change : RunMode → Bool → BotStatus → LifeStatus → Option String
validate_bot_mode_change off kill_switch status life = none
validate_bot_mode_change simulation kill_switch status dead = some "BOT_DEAD"
validate_bot_mode_change simulation kill_switch risk_halted active = some "BOT_RISK_HALTED"
validate_bot_mode_change simulation kill_switch error active = some "BOT_ERROR"
validate_bot_mode_change simulation kill_switch maintenance active = some "BOT_MAINTENANCE"
validate_bot_mode_change simulation kill_switch running active = none
validate_bot_mode_change simulation kill_switch paused active = none
validate_bot_mode_change paper_active kill_switch status dead = some "BOT_DEAD"
validate_bot_mode_change paper_active kill_switch risk_halted active = some "BOT_RISK_HALTED"
validate_bot_mode_change paper_active kill_switch error active = some "BOT_ERROR"
validate_bot_mode_change paper_active kill_switch maintenance active = some "BOT_MAINTENANCE"
validate_bot_mode_change paper_active kill_switch running active =
    if kill_switch then some "KILL_SWITCH_ENABLED" else none
validate_bot_mode_change paper_active kill_switch paused active =
    if kill_switch then some "KILL_SWITCH_ENABLED" else none

unfoldable pub should_queue_paper_execution : RunMode → Bool → Bool
should_queue_paper_execution mode risk_approved = is_paper_active mode && risk_approved
