-- ===== src/Market/Evaluate.antt =====
-- `evaluateBotForBar` of src/modules/market/market-runner.ts: one bot on one closed bar.
pub mod Once
pub mod Approves
use braiker.Prelude.Result.{Result, ok, throw, ◌>>=◌}
use braiker.Prelude.{
  ℕ, true, false, List, Bool, String, if◌then◌else◌, Option, some, any, ◌++◌, ◌∷◌, [], none,
}
use braiker.Decimal.{Decimal}
use braiker.Domain.{Side, TradeAction, trade, hold}
use braiker.Risk.Types.{RiskPolicy, Proposal, RiskDecision}
use braiker.Bots.AdaptiveRisk.{
  AdaptiveRiskResult, AdjustmentInput, RiskAdjustment, Level, resolve_adaptive_risk_policy,
  record_adaptive_risk_adjustment, policy_for_adaptive_trade,
}
use braiker.Indicators.Number.{Number}
use braiker.Strategy.Trend.{StrategySignal, evaluate_trend_strategy}
use braiker.Decision.Service.{DecisionDb, record_proposed_trade}
use braiker.Market.ScanActivity.{
  ScanOutcome, held, no_capital, ai_rejected, approved, risk_rejected, already_evaluated,
}
use braiker.Market.Evaluation.{
  EvaluationInput, Evaluated, WorkDb, MarketEvaluation, EvaluationStatus, created, evaluated_hold,
  evaluated_no_capital, evaluated_ai_rejected, errored, risk, EvaluationKey, same_key,
  evaluation_key,
}
use braiker.Market.Runner.{strategy_context, candidate, open_position, trade_input, adaptive_input}
use braiker.Prelude.Table.{update_rows}

pub record MarketDb (A : Type 0) : Type 0 where
  pub evaluations : List MarketEvaluation
  pub work : WorkDb A

abbrev pub has_key : EvaluationKey → MarketEvaluation → Bool
has_key key evaluation = same_key evaluation.key key

unfoldable pub with_status : EvaluationStatus → MarketEvaluation → MarketEvaluation
with_status status evaluation = record evaluation { status = status }

-- The hash that names an adaptive posture.
module _ (d : Decimal) (n : Number) (hash : Level → RiskPolicy → RiskPolicy → String) where
  unfoldable pub failed : String → WorkDb d.Carrier → Evaluated d.Carrier
  failed message db = record { result = throw message; status = errored; db = db }

  unfoldable pub finished : ScanOutcome → EvaluationStatus → WorkDb d.Carrier → Evaluated d.Carrier
  finished outcome status db = record { result = ok outcome; status = status; db = db }

  unfoldable pub decided :
      Result (RiskDecision × DecisionDb d.Carrier) → WorkDb d.Carrier → Evaluated d.Carrier
  decided (throw message) db = failed message db
  decided (ok (decision, decision_db)) db =
      finished (if decision.is_approved then approved else risk_rejected) (risk decision.reason)
        (record db { decision = decision_db })

  -- After the AI review.
  unfoldable pub reviewed :
      EvaluationInput d.Carrier n.Carrier
      → Proposal
      → RiskPolicy
      → Result Bool
      → WorkDb d.Carrier
      → Evaluated d.Carrier
  reviewed input proposal policy (throw message) db = failed message db
  reviewed input proposal policy (ok true) db = finished ai_rejected evaluated_ai_rejected db
  reviewed input proposal policy (ok false) db =
      decided
        (record_proposed_trade d input.new_proposal_id
          (trade_input d n input proposal policy db.decision) db.decision)
        db

  unfoldable pub proposed :
      EvaluationInput d.Carrier n.Carrier
      → Option Proposal
      → RiskPolicy
      → WorkDb d.Carrier
      → Evaluated d.Carrier
  proposed input none policy db = finished no_capital evaluated_no_capital db
  proposed input (some proposal) policy db =
      reviewed input proposal policy (input.ai_blocked proposal) db

  unfoldable pub adjustment_of :
      EvaluationInput d.Carrier n.Carrier → AdaptiveRiskResult → AdjustmentInput
  adjustment_of input adaptive = record {
    bot_id = input.bot.row.id;
    level = adaptive.level;
    reason = adaptive.reason;
    base_policy = input.bot.risk_policy;
    effective_policy = adaptive.effective_policy;
  }

  -- `if (adaptiveRiskEnabled) await recordAdaptiveRiskAdjustment(...)`
  unfoldable pub audited :
      EvaluationInput d.Carrier n.Carrier → AdaptiveRiskResult → WorkDb d.Carrier → WorkDb d.Carrier
  audited input adaptive db =
      if input.bot.adaptive_risk_enabled
      then record db {
        adjustments =
            (record_adaptive_risk_adjustment hash (adjustment_of input adaptive) db.adjustments).1;
      }
      else db

  unfoldable pub with_policy :
      EvaluationInput d.Carrier n.Carrier
      → Side
      → ℕ
      → Result AdaptiveRiskResult
      → WorkDb d.Carrier
      → Evaluated d.Carrier
  with_policy input side confidence (throw message) db = failed message db
  with_policy input side confidence (ok adaptive) db =
      let policy = policy_for_adaptive_trade side input.bot.risk_policy adaptive.effective_policy in
      proposed input (candidate d n input side (open_position d n input) confidence policy) policy
        (audited input adaptive db)

  unfoldable pub signalled :
      EvaluationInput d.Carrier n.Carrier → TradeAction → ℕ → WorkDb d.Carrier → Evaluated d.Carrier
  signalled input hold confidence db = finished held evaluated_hold db
  signalled input (trade side) confidence db =
      with_policy input side confidence
        (resolve_adaptive_risk_policy d (adaptive_input d n input.bot)) db

  -- The body of the `try`.
  unfoldable pub evaluate_candle :
      EvaluationInput d.Carrier n.Carrier → WorkDb d.Carrier → Evaluated d.Carrier
  evaluate_candle input db =
      let signal = evaluate_trend_strategy n (strategy_context d n input) in
      signalled input signal.action signal.confidence db

  -- What the evaluation's row becomes once its body has ended.
  unfoldable pub settled :
      EvaluationKey
      → List MarketEvaluation
      → Evaluated d.Carrier
      → Result ScanOutcome × MarketDb d.Carrier
  settled key evaluations ran = (
    ran.result,
    record {
      evaluations = update_rows (has_key key) (with_status ran.status) evaluations;
      work = ran.db;
    },
  )

  -- The unique key of the created row is refused where it stands already.
  unfoldable pub evaluate_bot_for_bar :
      EvaluationInput d.Carrier n.Carrier
      → MarketDb d.Carrier
      → Result ScanOutcome × MarketDb d.Carrier
  evaluate_bot_for_bar input db =
      let key = evaluation_key input in
      if any (has_key key) db.evaluations
      then (ok already_evaluated, db)
      else settled key (db.evaluations ++ record { key = key; status = created } ∷ [])
          (evaluate_candle input db.work)
