-- ===== src/Decision/Service/Recorded.antt =====
-- What one recorded proposal leaves in the tables.
use braiker.Domain.{RunMode, is_active, is_paper_active}
use braiker.Decimal.{Decimal}
use braiker.Risk.Types.{RiskDecision}
use braiker.Risk.Engine.{assess_risk}
use braiker.Bots.Row.{BotRow, find_bot}
use braiker.Bots.Templates.{should_queue_paper_execution}
use braiker.Decision.Reservation.{reservation_amount}
use braiker.Decision.Service.{
  ProposalStatus, ProposalRow, DecisionDb, TradeInput, status_of_decision, lost_reservation,
  decision_row, recorded, proposal_row, queue_or_reject, record_proposed_trade, record_for,
  context_for,
}
use braiker.Prelude.{
  [], ◌∷◌, some, Bool, true, false, ◌≡◌, refl, arith, String, ◌&&◌, ◌++◌, if◌then◌else◌, not,
}
use braiker.Prelude.Text.{Text}
use braiker.Prelude.Result.{ok, or_throw->>=, throw_if->>, >>=-eq-ok}

not-false : {b : Bool} → not b ≡ false → b ≡ true
not-false {b} h = ground arith

module _ (d : Decimal) where
  -- The tables after a call, against the decision that it returned: one proposal and one decision,
  -- which agree, and an execution job exactly for an approved proposal of a bot that trades.
  pub record Recorded (new_id : String) (input : TradeInput) (db : DecisionDb d.Carrier)
      (mode : RunMode) (decision : RiskDecision) (db' : DecisionDb d.Carrier) : Type 0 where
    pub row : ProposalRow d.Carrier
    pub proposals : db'.proposals ≡ db.proposals ++ row ∷ []
    pub row_id : row.id ≡ new_id
    pub row_status : row.status ≡ status_of_decision decision.is_approved
    pub decisions : db'.risk_decisions ≡ db.risk_decisions ++ decision_row new_id decision ∷ []
    pub jobs : db'.execution_jobs ≡ (
        if is_paper_active mode && decision.is_approved
        then db.execution_jobs ++ new_id ∷ []
        else db.execution_jobs)
    pub counted : db'.rejections ≡ (
        if is_paper_active mode && decision.is_approved
        then db.rejections
        else db.rejections ++ decision.reason ∷ [])

  queued :
      (new_id : String) (input : TradeInput) (db db' : DecisionDb d.Carrier) (mode : RunMode)
      (reservation : Text) (row : ProposalRow d.Carrier) (first decision : RiskDecision)
      → row.id ≡ new_id
      → queue_or_reject d input
          (should_queue_paper_execution mode first.is_approved)
          reservation
          row
          first
          db
        ≡ ok (decision, db')
      → Recorded new_id input db mode decision db'
  unfolding queue_or_reject recorded should_queue_paper_execution lost_reservation
  queued new_id input db db' mode reservation row first decision same h = record {
    row = record row { status = status_of_decision decision.is_approved };
    proposals = ground arith;
    row_id = same;
    row_status = refl;
    decisions = ground arith;
    jobs = ground arith;
    counted = ground arith;
  }

  row-id :
      (new_id : String) (input : TradeInput) (reservation : Text) (status : ProposalStatus)
      {row : ProposalRow d.Carrier}
      → proposal_row d new_id input reservation status ≡ ok row
      → row.id ≡ new_id
  unfolding proposal_row
  row-id new_id input reservation status h = ground arith

  record_for-Recorded :
      (new_id : String) (input : TradeInput) (db db' : DecisionDb d.Carrier)
      (bot : BotRow d.Carrier) (decision : RiskDecision)
      → record_for d new_id input db bot ≡ ok (decision, db')
      → Recorded new_id input db bot.run_mode decision db'
  unfolding record_for
  record_for-Recorded new_id input db db' bot decision h =
      let (first, _, h0) =
        >>=-eq-ok (assess_risk d input.proposal (context_for d input bot) input.policy) _ h in
      let (reservation, _, h1) =
        >>=-eq-ok (reservation_amount d input.proposal input.policy.market_order_buffer_pct) _ h0 in
      let (row, e, h2) =
        >>=-eq-ok (proposal_row d new_id input reservation (status_of_decision first.is_approved)) _
          h1 in
      queued new_id input db db' bot.run_mode reservation row first decision
        (row-id new_id input reservation (status_of_decision first.is_approved) e) h2

  -- A call that returns found a bot that is not dead, and left exactly one proposal and one risk
  -- decision, which agree with the decision it returns; an execution job exists for the proposal
  -- exactly when that decision approves it and the bot is in PAPER_ACTIVE mode, and whatever has no
  -- job is counted under its reason.
  pub record_proposed_trade-Recorded :
      (new_id : String) (input : TradeInput) (db db' : DecisionDb d.Carrier)
      (decision : RiskDecision)
      → record_proposed_trade d new_id input db ≡ ok (decision, db')
      → (bot : BotRow d.Carrier) × (find_bot input.bot_id db.bots ≡ some bot)
        × (is_active bot.life_status ≡ true)
        × Recorded new_id input db bot.run_mode decision db'
  unfolding record_proposed_trade
  record_proposed_trade-Recorded new_id input db db' decision h =
      let (bot, found, h0) = or_throw->>= (find_bot input.bot_id db.bots) "NotFoundError" _ h in
      let (alive, h1) =
        throw_if->> (not (is_active bot.life_status)) "BOT_DEAD" (record_for d new_id input db bot)
          h0 in
      (bot, found, not-false alive, record_for-Recorded new_id input db db' bot decision h1)
