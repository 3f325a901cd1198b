-- ===== src/Market/Evaluate/Approves.antt =====
-- What stands behind an approved candidate.
use braiker.Prelude.Result.{Result, ok, throw}
use braiker.Prelude.{
  true, false, String, ◌≡◌, Bool, some, refl, if◌then◌else◌, Option, ap, Bool-cases, ℕ, inl, subst,
  sym, inr, ◌∙◌, none,
}
use braiker.Decimal.{Decimal}
use braiker.Domain.{Side, trade, TradeAction, hold}
use braiker.Indicators.Number.{Number}
use braiker.Risk.Types.{RiskPolicy, Proposal, RiskDecision}
use braiker.Bots.AdaptiveRisk.{
  Level, AdaptiveRiskResult, resolve_adaptive_risk_policy, policy_for_adaptive_trade,
}
use braiker.Decision.Service.{DecisionDb, record_proposed_trade}
use braiker.Strategy.Trend.{evaluate_trend_strategy}
use braiker.Market.ScanActivity.{approved, risk_rejected}
use braiker.Market.Evaluation.{EvaluationInput, WorkDb, Evaluated}
use braiker.Market.Runner.{strategy_context, candidate, open_position, trade_input, adaptive_input}
use braiker.Market.Evaluate.{
  reviewed, decided, failed, finished, proposed, audited, with_policy, signalled, evaluate_candle,
}

module _ (d : Decimal) (n : Number) (hash : Level → RiskPolicy → RiskPolicy → String)
    (input : EvaluationInput d.Carrier n.Carrier) where
  -- The strategy's signal, the policy of the posture, the candidate, its review and its decision.
  pub record Chain (db : WorkDb d.Carrier) (after : WorkDb d.Carrier) : Type 0 where
    pub side : Side
    pub adaptive : AdaptiveRiskResult
    pub proposal : Proposal
    pub decision : RiskDecision
    pub signals : (evaluate_trend_strategy n (strategy_context d n input)).action ≡ trade side
    pub resolves : resolve_adaptive_risk_policy d (adaptive_input d n input.bot) ≡ ok adaptive
    pub is_candidate :
        candidate d n input side
          (open_position d n input)
          (evaluate_trend_strategy n (strategy_context d n input)).confidence
          (policy_for_adaptive_trade side input.bot.risk_policy adaptive.effective_policy)
        ≡ some proposal
    pub unblocked : input.ai_blocked proposal ≡ ok false
    pub is_recorded :
        record_proposed_trade d input.new_proposal_id
          (trade_input d n input proposal
            (policy_for_adaptive_trade side input.bot.risk_policy adaptive.effective_policy)
            db.decision)
          db.decision
        ≡ ok (decision, after.decision)
    pub approves : decision.is_approved ≡ true

  approved_of : (b : Bool) → ok (if b then approved else risk_rejected) ≡ ok approved → b ≡ true
  approved_of true h = refl
  approved_of false h = cc

  decided-approved :
      (outcome : Result (RiskDecision × DecisionDb d.Carrier)) (db : WorkDb d.Carrier)
      → (decided d n hash outcome db).result ≡ ok approved
      → (decision : RiskDecision) × (outcome
          ≡ ok (decision, (decided d n hash outcome db).db.decision))
        × (decision.is_approved ≡ true)
  unfolding decided failed finished
  decided-approved (throw message) db h = cc
  decided-approved (ok (decision, decision_db)) db h =
      (decision, refl, approved_of decision.is_approved h)

  reviewed-approved :
      (proposal : Proposal) (policy : RiskPolicy) (review : Result Bool) (db : WorkDb d.Carrier)
      → (reviewed d n hash input proposal policy review db).result ≡ ok approved
      → (review ≡ ok false)
        × ((reviewed d n hash input proposal policy review db)
            ≡ decided d n hash
                (record_proposed_trade d input.new_proposal_id
                  (trade_input d n input proposal policy db.decision)
                  db.decision)
                db)
  unfolding reviewed failed finished
  reviewed-approved proposal policy (throw message) db h = cc
  reviewed-approved proposal policy (ok true) db h = cc
  reviewed-approved proposal policy (ok false) db h = (refl, refl)

  -- The last steps, once the candidate is known.
  abbrev Ends : Option Proposal → RiskPolicy → DecisionDb d.Carrier → WorkDb d.Carrier → Type 0
  Ends found policy db after =
      (proposal : Proposal) × (decision : RiskDecision) × (found ≡ some proposal)
      × (input.ai_blocked proposal ≡ ok false)
      × (record_proposed_trade d input.new_proposal_id (trade_input d n input proposal policy db) db
          ≡ ok (decision, after.decision))
      × (decision.is_approved ≡ true)

  proposed-Ends :
      (found : Option Proposal) (policy : RiskPolicy) (db : WorkDb d.Carrier)
      → (proposed d n hash input found policy db).result ≡ ok approved
      → Ends found policy db.decision (proposed d n hash input found policy db).db
  unfolding proposed finished
  proposed-Ends none policy db h = cc
  proposed-Ends (some proposal) policy db h =
      let (passes, same) = reviewed-approved proposal policy (input.ai_blocked proposal) db h in
      let (decision, made, approves) =
        decided-approved _ db (ap (λ (e : Evaluated d.Carrier). e.result) (sym same) ∙ h) in
      (
        proposal,
        decision,
        refl,
        passes,
        made ∙ ap (λ (e : Evaluated d.Carrier). ok (decision, e.db.decision)) (sym same),
        approves,
      )

  audited-decision :
      (adaptive : AdaptiveRiskResult) (db : WorkDb d.Carrier)
      → (audited d n hash input adaptive db).decision ≡ db.decision
  unfolding audited
  audited-decision adaptive db = elim (Bool-cases input.bot.adaptive_risk_enabled) [
    | inl e ↦ rw e refl
    | inr e ↦ rw e refl
  ]

  abbrev Chained : TradeAction → ℕ → WorkDb d.Carrier → WorkDb d.Carrier → Type 0
  Chained action confidence db after =
      (side : Side) × (adaptive : AdaptiveRiskResult) × (action ≡ trade side)
      × (resolve_adaptive_risk_policy d (adaptive_input d n input.bot) ≡ ok adaptive)
      × Ends
          (candidate d n input side (open_position d n input) confidence
            (policy_for_adaptive_trade side input.bot.risk_policy adaptive.effective_policy))
          (policy_for_adaptive_trade side input.bot.risk_policy adaptive.effective_policy)
          db.decision after

  with_policy-Chained :
      (side : Side) (confidence : ℕ) (resolved : Result AdaptiveRiskResult) (db : WorkDb d.Carrier)
      → resolve_adaptive_risk_policy d (adaptive_input d n input.bot) ≡ resolved
      → (with_policy d n hash input side confidence resolved db).result ≡ ok approved
      → Chained
          (trade side)
          confidence
          db
          (with_policy d n hash input side confidence resolved db).db
  unfolding with_policy failed
  with_policy-Chained side confidence (throw message) db e h = absurd cc
  with_policy-Chained side confidence (ok adaptive) db e h =
      let policy = policy_for_adaptive_trade side input.bot.risk_policy adaptive.effective_policy in
      let found = candidate d n input side (open_position d n input) confidence policy in
      (
        side,
        adaptive,
        refl,
        e,
        subst
            (λ x.
              Ends found policy x
                (proposed d n hash input found policy (audited d n hash input adaptive db)).db)
            (audited-decision adaptive db)
            (proposed-Ends found policy (audited d n hash input adaptive db) h),
      )

  signalled-Chained :
      (action : TradeAction) (confidence : ℕ) (db : WorkDb d.Carrier)
      → (signalled d n hash input action confidence db).result ≡ ok approved
      → Chained action confidence db (signalled d n hash input action confidence db).db
  unfolding signalled finished
  signalled-Chained hold confidence db h = absurd cc
  signalled-Chained (trade side) confidence db h = with_policy-Chained side confidence _ db refl h

  pub evaluate_candle-Chain :
      (db : WorkDb d.Carrier)
      → (evaluate_candle d n hash input db).result ≡ ok approved
      → Chain db (evaluate_candle d n hash input db).db
  unfolding evaluate_candle
  evaluate_candle-Chain db h =
      let (side, adaptive, signals, resolves, (proposal, decision, found, passes, made, approves)) =
        signalled-Chained _ _ db h in
      record {
        side = side;
        adaptive = adaptive;
        proposal = proposal;
        decision = decision;
        signals = signals;
        resolves = resolves;
        is_candidate = found;
        unblocked = passes;
        is_recorded = made;
        approves = approves;
      }
