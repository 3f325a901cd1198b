-- ===== src/Decision/Service.antt =====
-- src/modules/decision/decision-service.ts: one serializable transaction. A throw rolls it back, so
-- a thrown result carries no tables. `new_id` is the id that the database gives the proposal.
pub mod Recorded
pub mod Reserves
use mathlib.Core.Option
use braiker.Domain.{
  Side, OrderType, LifeStatus, active, dead, RunMode, off, paper_active, is_active, is_paper_active,
}
use braiker.Decimal.{Decimal, money}
use braiker.Risk.Types
use braiker.Risk.Types.{
  Proposal, RiskPolicy, RiskContext, RiskCheck, RiskDecision, Reason, Rule, failed, approved,
}
use braiker.Risk.Engine.{assess_risk}
use braiker.Bots.Row.{BotRow, find_bot}
use braiker.Bots.Templates.{should_queue_paper_execution}
use braiker.Decision.Reservation.{reservation_amount, reserve_bot_capital}
use braiker.Prelude.{
  List, [], ◌∷◌, Option, none, some, Bool, true, false, ℕ, zero, suc, ◌≡◌, refl, arith, inl, inr,
  String, ◌++◌, if◌then◌else◌, not,
}
use braiker.Prelude.Text.{literal, Text}
use braiker.Prelude.Result.{Result, ok, ◌>>=◌, or_throw, ◌>>◌, throw_if}

pub data ProposalStatus : Type 0 where
  risk_approved risk_rejected submitted filled rejected canceled : ProposalStatus

pub record ProposalRow (A : Type 0) : Type 0 where
  pub id : String
  pub bot_id : String
  pub symbol : String
  pub action : Side
  pub order_type : OrderType
  pub quantity : A
  pub limit_price : Option A
  pub estimated_price : A
  pub reservation_amount : A
  pub status : ProposalStatus

pub record RiskDecisionRow : Type 0 where
  pub proposal_id : String
  pub is_approved : Bool
  pub reason : Reason
  pub checks : List RiskCheck
  pub approved_order : Option Proposal

pub record DecisionDb (A : Type 0) : Type 0 where
  pub bots : List (BotRow A)
  pub proposals : List (ProposalRow A)
  pub risk_decisions : List RiskDecisionRow
  -- The proposals that have an execution job.
  pub execution_jobs : List String
  -- The labels of the `riskRejections` metric.
  pub rejections : List Reason

pub record TradeInput : Type 0 where
  pub bot_id : String
  pub proposal : Proposal
  pub risk_context : RiskContext
  pub policy : RiskPolicy

unfoldable pub status_of_decision : Bool → ProposalStatus
status_of_decision true = risk_approved
status_of_decision false = risk_rejected

-- The decision of a proposal whose reservation found no room.
unfoldable pub lost_reservation : RiskDecision → RiskDecision
lost_reservation decision = record {
  is_approved = false;
  reason = failed Rule.bot_budget_available;
  checks =
      decision.checks
      ++ record {
        rule = Rule.atomic_capital_reservation;
        passed = false;
        detail = literal "Capital was reserved by a concurrent proposal or the bot was stopped";
      }
        ∷ [];
  approved_order = none;
}

unfoldable pub decision_row : String → RiskDecision → RiskDecisionRow
decision_row id decision = record {
  proposal_id = id;
  is_approved = decision.is_approved;
  reason = decision.reason;
  checks = decision.checks;
  approved_order = decision.approved_order;
}

module _ (d : Decimal) where
  unfoldable pub optional_money : Option Text → Result (Option d.Carrier)
  optional_money none = ok none
  optional_money (some value) = do amount ← money d value; ok (some amount)

  -- `tx.tradeProposal.create`: the columns keep twelve places.
  unfoldable pub proposal_row :
      String → TradeInput → Text → ProposalStatus → Result (ProposalRow d.Carrier)
  proposal_row id input reservation status = do
    quantity ← money d input.proposal.quantity
    limit_price ← optional_money input.proposal.limit_price
    estimated ← money d input.proposal.estimated_price
    reserved ← money d reservation
    ok (record {
      id = id;
      bot_id = input.bot_id;
      symbol = input.proposal.symbol;
      action = input.proposal.action;
      order_type = input.proposal.order_type;
      quantity = d.to_places 12 quantity;
      limit_price = Option.map (d.to_places 12) limit_price;
      estimated_price = d.to_places 12 estimated;
      reservation_amount = d.to_places 12 reserved;
      status = status;
    })

  -- The tables with the proposal and its decision added; what was not queued is counted as rejected.
  unfoldable pub recorded :
      ProposalRow d.Carrier
      → RiskDecision
      → Bool
      → List (BotRow d.Carrier)
      → DecisionDb d.Carrier
      → DecisionDb d.Carrier
  recorded row decision is_queued bots db = record db {
    bots = bots;
    proposals =
        db.proposals ++ record row { status = status_of_decision decision.is_approved } ∷ [];
    risk_decisions = db.risk_decisions ++ decision_row row.id decision ∷ [];
    execution_jobs = if is_queued then db.execution_jobs ++ row.id ∷ [] else db.execution_jobs;
    rejections = if is_queued then db.rejections else db.rejections ++ decision.reason ∷ [];
  }

  -- The branches after the proposal and its decision are written.
  unfoldable pub queue_or_reject :
      TradeInput
      → Bool
      → Text
      → ProposalRow d.Carrier
      → RiskDecision
      → DecisionDb d.Carrier
      → Result (RiskDecision × DecisionDb d.Carrier)
  queue_or_reject input false reservation row decision db =
      ok (decision, recorded row decision false db.bots db)
  queue_or_reject input true reservation row decision db = do
    reserved ← reserve_bot_capital d input.bot_id reservation db.bots
    ok (
        if reserved.0 then (decision, recorded row decision true reserved.1 db) else (
          lost_reservation decision,
          recorded row (lost_reservation decision) false reserved.1 db,
        ))

  -- The context with the capital that the row says is free.
  unfoldable pub context_for : TradeInput → BotRow d.Carrier → RiskContext
  context_for input bot = record input.risk_context {
    bot_capital_available = d.to_text (d.minus bot.current_capital bot.reserved_capital);
  }

  -- What follows once a living bot is found.
  unfoldable pub record_for :
      String
      → TradeInput
      → DecisionDb d.Carrier
      → BotRow d.Carrier
      → Result (RiskDecision × DecisionDb d.Carrier)
  record_for new_id input db bot = do
    decision ← assess_risk d input.proposal (context_for input bot) input.policy
    reservation ← reservation_amount d input.proposal input.policy.market_order_buffer_pct
    row ← proposal_row new_id input reservation (status_of_decision decision.is_approved)
    queue_or_reject input (should_queue_paper_execution bot.run_mode decision.is_approved)
        reservation row decision db

  unfoldable pub record_proposed_trade :
      String → TradeInput → DecisionDb d.Carrier → Result (RiskDecision × DecisionDb d.Carrier)
  unfolding record_for
  record_proposed_trade new_id input db = do
    bot ← or_throw (find_bot input.bot_id db.bots) "NotFoundError"
    throw_if (not (is_active bot.life_status)) "BOT_DEAD"
    record_for new_id input db bot
