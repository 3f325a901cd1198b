-- ===== src/Risk/Types.antt =====
-- src/modules/risk/types.ts, and the shapes of src/modules/domain/contracts.ts that the gate reads.
-- A number that the code keeps as a decimal string is a text.
use braiker.Domain.{Side, OrderType, BotStatus}
use braiker.Prelude.{String, Bool, Option, ℕ, List, false}
use braiker.Prelude.Text.{Text, text}

pub record Proposal : Type 0 where
  pub symbol : String
  pub action : Side
  pub order_type : OrderType
  pub quantity : Text
  pub limit_price : Option Text
  pub estimated_price : Text

pub record BrokerAccount : Type 0 where
  pub buying_power : Text
  pub cash : Text
  pub equity : Text
  pub trading_blocked : Bool

pub record BrokerPosition : Type 0 where
  pub symbol : String
  pub quantity : Text
  pub market_value : Text
  pub average_entry_price : Text

pub record RiskPolicy : Type 0 where
  pub max_position_size : Text
  pub max_portfolio_exposure : Text
  pub max_daily_loss : Text
  pub max_weekly_loss : Text
  pub max_trades_per_day : ℕ
  pub allow_margin : Bool
  pub allow_shorting : Bool
  pub allow_options : Bool
  pub allow_leverage : Bool
  pub market_order_buffer_pct : Text

pub record MacroGuardState : Type 0 where
  pub is_active : Bool
  pub event_title : Option Text

pub record RiskContext : Type 0 where
  pub bot_status : BotStatus
  pub kill_switch : Bool
  pub market_open : Bool
  pub data_fresh : Bool
  pub account_healthy : Bool
  pub account : BrokerAccount
  pub positions : List BrokerPosition
  pub pending_symbols : List String
  pub daily_pnl : Text
  pub weekly_pnl : Text
  pub trades_today : ℕ
  pub bot_capital_available : Text
  pub macro_guard : Option MacroGuardState

pub data Rule : Type 0 where
  kill_switch bot_state market_open macro_event_guard fresh_market_data broker_health : Rule
  order_quantity order_price limit_price no_shorting no_duplicate_order : Rule
  max_trades_per_day max_daily_loss max_weekly_loss : Rule
  max_position_size max_portfolio_exposure bot_budget_available available_cash : Rule
  atomic_capital_reservation : Rule

-- `RiskDecision.reason`: the failed rule's name, or "APPROVED".
pub data Reason : Type 0 where
  approved : Reason
  failed : Rule → Reason

pub record RiskCheck : Type 0 where
  pub rule : Rule
  pub passed : Bool
  pub detail : Text

pub record RiskDecision : Type 0 where
  pub is_approved : Bool
  pub reason : Reason
  pub checks : List RiskCheck
  pub approved_order : Option Proposal

abbrev pub default_risk_policy : RiskPolicy
default_risk_policy = record {
  max_position_size = text "10";
  max_portfolio_exposure = text "50";
  max_daily_loss = text "3";
  max_weekly_loss = text "10";
  max_trades_per_day = 5;
  allow_margin = false;
  allow_shorting = false;
  allow_options = false;
  allow_leverage = false;
  market_order_buffer_pct = text "0.02";
}
