-- ===== src/Market/Evaluation.antt =====
-- What `evaluateBotForBar` of src/modules/market/market-runner.ts reads and writes. A date is
-- its number of milliseconds; the AI review, which asks a remote model, is an input.
use braiker.Prelude.Result.{Result}
use braiker.Prelude.{
  ℕ, true, false, String, Bool, List, Option, str_eq, leb, some, ◌&&◌, ◌+◌, ◌==◌, none,
}
use braiker.Prelude.Text.{Text, text}
use braiker.Risk.Types.{RiskPolicy, MacroGuardState, Proposal, Reason}
use braiker.Bots.Row.{BotRow}
use braiker.Bots.AdaptiveRisk.{RiskAdjustment}
use braiker.Capital.OperatingCost.Charge.{BotPosition}
use braiker.Indicators.Technical.{MarketBar}
use braiker.Strategy.Trend.{StrategyProfile}
use braiker.Decision.Service.{DecisionDb, ProposalStatus}
use braiker.Resources.MacroGuard.{MacroCalendarEvent}
use braiker.Market.ScanActivity.{ScanOutcome}

-- The parts of `marketEvaluationKey`, which joins them by colons; the timeframe is always "1Min".
pub record EvaluationKey : Type 0 where
  pub bot_id : String
  pub symbol : String
  pub timestamp : ℕ

unfoldable pub same_key : EvaluationKey → EvaluationKey → Bool
same_key a b = str_eq a.bot_id b.bot_id && str_eq a.symbol b.symbol && a.timestamp == b.timestamp

pub data EvaluationStatus : Type 0 where
  created evaluated_hold evaluated_no_capital evaluated_ai_rejected errored : EvaluationStatus
  -- "RISK_APPROVED", or "RISK_" and the reason
  risk : Reason → EvaluationStatus

pub record MarketEvaluation : Type 0 where
  pub key : EvaluationKey
  pub status : EvaluationStatus

-- `shouldAcceptBar`
unfoldable pub should_accept_bar : ℕ → ℕ → Bool
should_accept_bar timestamp now = leb (timestamp + 60_000) now

abbrev pub stale_after_ms : ℕ
stale_after_ms = 120_000

-- What `activeBots` reads of a bot.
pub record ActiveBot (A N : Type 0) : Type 0 where
  pub row : BotRow A
  pub positions : List (BotPosition A)
  pub risk_policy : RiskPolicy
  pub adaptive_risk_enabled : Bool
  pub profile : StrategyProfile N

pub record EvaluationInput (A N : Type 0) : Type 0 where
  pub bot : ActiveBot A N
  pub symbol : String
  pub candle_timestamp : ℕ
  pub bid : Text
  pub ask : Text
  pub quote_timestamp : ℕ
  pub bars : List MarketBar
  pub spy_bars : List MarketBar
  pub qqq_bars : List MarketBar
  pub market_open : Bool
  pub cash : Text
  pub equity : Text
  pub now : ℕ
  pub new_proposal_id : String
  -- `aiReview.blocked`
  pub ai_blocked : Proposal → Result Bool
  -- The reads that other tables answer.
  pub macro_events : List MacroCalendarEvent
  pub trades_today : ℕ
  pub daily_pnl : Text
  pub weekly_pnl : Text

-- The tables that an evaluation writes, but for its own row.
pub record WorkDb (A : Type 0) : Type 0 where
  pub decision : DecisionDb A
  pub adjustments : List RiskAdjustment

-- What the evaluation returned or threw, the status it gave its row, and the tables it left.
pub record Evaluated (A : Type 0) : Type 0 where
  pub result : Result ScanOutcome
  pub status : EvaluationStatus
  pub db : WorkDb A

unfoldable pub evaluation_key : {A N : Type 0} → EvaluationInput A N → EvaluationKey
evaluation_key input = record {
  bot_id = input.bot.row.id;
  symbol = input.symbol;
  timestamp = input.candle_timestamp;
}

-- `status: { in: ["RISK_APPROVED", "SUBMITTED"] }`
unfoldable pub is_pending_status : ProposalStatus → Bool
is_pending_status ProposalStatus.risk_approved = true
is_pending_status ProposalStatus.submitted = true
is_pending_status _ = false

unfoldable pub guard_state : Option MacroCalendarEvent → Option MacroGuardState
guard_state none = some (record { is_active = false; event_title = none })
guard_state (some event) = some (record { is_active = true; event_title = some (text event.title) })
