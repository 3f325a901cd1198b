-- ===== src/Risk/Engine/Safe.antt =====
-- What the decision of `assessRisk` of src/modules/risk/risk-engine.ts says of a trade.
use braiker.Domain.{limit}
use braiker.Decimal.{Decimal}
use braiker.Prelude.Result.{ok}
use braiker.Risk.Engine.{guard_active, assess_risk}
use braiker.Prelude.{Option, none, some, true, false, ◌≡◌, refl, sym, ap, ◌∙◌, ◌↔◌}
use braiker.Risk.Types.{Proposal, MacroGuardState, RiskContext, RiskPolicy, RiskDecision}
use braiker.Risk.Engine.Accepted.{Accepted, assess_risk_accepts}
use braiker.Risk.Engine.Safety.{Safe, IsPositive}
use braiker.Prelude.Text.{Text}
use braiker.Risk.Engine.Conditions.{
  is_positive-ok, any_result-Covers, Covers-any_result, above_loss-ok, position-ok, exposure-ok,
  IsAffordable-ok,
}

limit_of :
    (d : Decimal) (proposal : Proposal) (context : RiskContext) (policy : RiskPolicy)
    → Accepted d proposal context policy
    → proposal.order_type ≡ limit
    → (price : Text) × (proposal.limit_price ≡ some price) × IsPositive d price
limit_of d proposal context policy a e =
    let (price, found, positive) = a.some_limit e in
    (price, found, (is_positive-ok d price).0 positive)

guard_active-some :
    (found : Option MacroGuardState) (guard : MacroGuardState)
    → found ≡ some guard
    → guard_active found ≡ false
    → guard.is_active ≡ false
guard_active-some found guard e h = sym (ap guard_active e) ∙ h

guard_active-none :
    (found : Option MacroGuardState)
    → ((guard : MacroGuardState) → found ≡ some guard → guard.is_active ≡ false)
    → guard_active found ≡ false
guard_active-none none h = refl
guard_active-none (some guard) h = h guard refl

Accepted-Safe :
    (d : Decimal) (proposal : Proposal) (context : RiskContext) (policy : RiskPolicy)
    → Accepted d proposal context policy
    → Safe d proposal context policy
Accepted-Safe d proposal context policy a =
    let given = limit_of d proposal context policy a in
    record {
      switch_off = a.switch_off;
      bot_runs = a.bot_runs;
      market_opens = a.market_opens;
      no_macro_event =
          λ guard b e. guard_active-some context.macro_guard guard e (a.no_macro_event b);
      is_fresh = a.is_fresh;
      is_healthy = a.is_healthy;
      not_blocked = a.not_blocked;
      some_quantity = (is_positive-ok d proposal.quantity).0 a.some_quantity;
      some_price = (is_positive-ok d proposal.estimated_price).0 a.some_price;
      some_limit = given;
      holds_what_it_sells =
          λ s f. any_result-Covers d proposal context.positions (a.holds_what_it_sells s f);
      none_pending = a.none_pending;
      trades_left = a.trades_left;
      within_daily_loss =
          (above_loss-ok d context.daily_pnl policy.max_daily_loss).0 a.within_daily_loss;
      within_weekly_loss =
          (above_loss-ok d context.weekly_pnl policy.max_weekly_loss).0 a.within_weekly_loss;
      position_fits =
          (position-ok d proposal context policy policy.max_position_size given).0 a.position_fits;
      exposure_fits =
          (exposure-ok d proposal context policy policy.max_portfolio_exposure given).0
            a.exposure_fits;
      within_budget = λ b.
          (IsAffordable-ok d proposal policy context.bot_capital_available given).0
            (a.within_budget b);
      within_cash =
          λ b. (IsAffordable-ok d proposal policy context.account.cash given).0 (a.within_cash b);
    }

Safe-Accepted :
    (d : Decimal) (proposal : Proposal) (context : RiskContext) (policy : RiskPolicy)
    → Safe d proposal context policy
    → Accepted d proposal context policy
Safe-Accepted d proposal context policy s =
    let given = s.some_limit in
    record {
      switch_off = s.switch_off;
      bot_runs = s.bot_runs;
      market_opens = s.market_opens;
      no_macro_event =
          λ b. guard_active-none context.macro_guard (λ guard e. s.no_macro_event guard b e);
      is_fresh = s.is_fresh;
      is_healthy = s.is_healthy;
      not_blocked = s.not_blocked;
      some_quantity = (is_positive-ok d proposal.quantity).1 s.some_quantity;
      some_price = (is_positive-ok d proposal.estimated_price).1 s.some_price;
      some_limit = λ e.
          let (price, found, positive) = given e in
          (price, found, (is_positive-ok d price).1 positive);
      holds_what_it_sells =
          λ e f. Covers-any_result d proposal context.positions (s.holds_what_it_sells e f);
      none_pending = s.none_pending;
      trades_left = s.trades_left;
      within_daily_loss =
          (above_loss-ok d context.daily_pnl policy.max_daily_loss).1 s.within_daily_loss;
      within_weekly_loss =
          (above_loss-ok d context.weekly_pnl policy.max_weekly_loss).1 s.within_weekly_loss;
      position_fits =
          (position-ok d proposal context policy policy.max_position_size given).1 s.position_fits;
      exposure_fits =
          (exposure-ok d proposal context policy policy.max_portfolio_exposure given).1
            s.exposure_fits;
      within_budget = λ b.
          (IsAffordable-ok d proposal policy context.bot_capital_available given).1
            (s.within_budget b);
      within_cash =
          λ b. (IsAffordable-ok d proposal policy context.account.cash given).1 (s.within_cash b);
    }

-- For every decimal arithmetic, proposal, context and policy on which the gate returns a decision,
-- the decision approves exactly when the trade is safe as Safe describes it, which names no part of
-- the gate: what the texts read as, what the order costs, what the bot holds, and what a purchase
-- adds to it and a sale takes off.
pub assess_risk_approves :
    (d : Decimal) (proposal : Proposal) (context : RiskContext) (policy : RiskPolicy)
    (decision : RiskDecision)
    → assess_risk d proposal context policy ≡ ok decision
    → (decision.is_approved ≡ true) ↔ Safe d proposal context policy
assess_risk_approves d proposal context policy decision h =
    let accepts = assess_risk_accepts d proposal context policy decision h in
    (
      λ a. Accepted-Safe d proposal context policy (accepts.0 a),
      λ s. accepts.1 (Safe-Accepted d proposal context policy s),
    )
