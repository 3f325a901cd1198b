-- ===== src/Risk/Engine/Accepted.antt =====
-- When every check of `assessRisk` of src/modules/risk/risk-engine.ts passes, check by check.
use braiker.Domain.{buy, sell, limit, running}
use braiker.Decimal.{Decimal}
use braiker.Risk.Types.{Proposal, RiskPolicy, RiskContext, RiskDecision}
use braiker.Risk.Engine.{
  guard_active, is_positive, above_loss, holds_quantity, requested_value, projected_position,
  projected_exposure, risk_checks, assess_risk,
}
use braiker.Prelude.Result.{sequence, ok, >>=-eq-ok, any_result}
use braiker.Prelude.{◌≡◌, ◌↔◌, true, All, false, some, any, str_eq, ◌<◌, ltb→lt, lt→ltb}
use braiker.Prelude.Text.{Text}
use braiker.Risk.Engine.Checks.{
  AtMost, Passes, sequence-Passes, not-true, plain-Passes, decide_checks_approves, is_running-true,
  false-not, guard-ok, is_running-of, healthy-ok, guard-of, checked-Passes, healthy-of,
  within_limit-Passes, buys_within-ok, cash_check-Passes, limit_price-ok, no_short-ok,
}

module _ (d : Decimal) where
  pub record Accepted (proposal : Proposal) (context : RiskContext) (policy : RiskPolicy)
      : Type 0 where
    pub switch_off : context.kill_switch ≡ false
    pub bot_runs : context.bot_status ≡ running
    pub market_opens : context.market_open ≡ true
    pub no_macro_event : proposal.action ≡ buy → guard_active context.macro_guard ≡ false
    pub is_fresh : context.data_fresh ≡ true
    pub is_healthy : context.account_healthy ≡ true
    pub not_blocked : context.account.trading_blocked ≡ false
    pub some_quantity : is_positive d proposal.quantity ≡ ok true
    pub some_price : is_positive d proposal.estimated_price ≡ ok true
    pub some_limit :
        proposal.order_type ≡ limit
        → (price : Text) × (proposal.limit_price ≡ some price) × (is_positive d price ≡ ok true)
    pub holds_what_it_sells :
        proposal.action ≡ sell
        → policy.allow_shorting ≡ false
        → any_result (holds_quantity d proposal) context.positions ≡ ok true
    pub none_pending : any (str_eq proposal.symbol) context.pending_symbols ≡ false
    pub trades_left : context.trades_today < policy.max_trades_per_day
    pub within_daily_loss : above_loss d context.daily_pnl policy.max_daily_loss ≡ ok true
    pub within_weekly_loss : above_loss d context.weekly_pnl policy.max_weekly_loss ≡ ok true
    pub position_fits :
        AtMost d (projected_position d proposal context policy) policy.max_position_size
    pub exposure_fits :
        AtMost d (projected_exposure d proposal context policy) policy.max_portfolio_exposure
    pub within_budget :
        proposal.action ≡ buy
        → AtMost d (requested_value d proposal policy) context.bot_capital_available
    pub within_cash :
        proposal.action ≡ buy → AtMost d (requested_value d proposal policy) context.account.cash

  requested_of :
      (proposal : Proposal) (context : RiskContext) (policy : RiskPolicy) {v : d.Carrier}
      → projected_position d proposal context policy ≡ ok v
      → (r : d.Carrier) × (requested_value d proposal policy ≡ ok r)
  unfolding projected_position
  requested_of proposal context policy h =
      let (r, e, _) = >>=-eq-ok (requested_value d proposal policy) _ h in (r, e)

  checks-Accepted :
      (proposal : Proposal) (context : RiskContext) (policy : RiskPolicy)
      → All Passes (risk_checks d proposal context policy)
      → Accepted proposal context policy
  unfolding risk_checks
  checks-Accepted proposal context policy
        (
          c0,
          (
            c1,
            (
              c2,
              (
                c3,
                (
                  c4,
                  (
                    c5,
                    (
                      c6,
                      (c7, (c8, (c9, (c10, (c11, (c12, (c13, (c14, (c15, (c16, (c17, _))))))))))),
                    ),
                  ),
                ),
              ),
            ),
          ),
        ) =
      record {
        switch_off = not-true ((plain-Passes _ _ _).0 c0);
        bot_runs = is_running-true ((plain-Passes _ _ _).0 c1);
        market_opens = (plain-Passes _ _ _).0 c2;
        no_macro_event = guard-ok _ ((plain-Passes _ _ _).0 c3);
        is_fresh = (plain-Passes _ _ _).0 c4;
        is_healthy = (healthy-ok ((plain-Passes _ _ _).0 c5)).0;
        not_blocked = (healthy-ok ((plain-Passes _ _ _).0 c5)).1;
        some_quantity = (checked-Passes _ _ _).0 c6;
        some_price = (checked-Passes _ _ _).0 c7;
        some_limit =
            (limit_price-ok d proposal.order_type proposal.limit_price).0
              ((checked-Passes _ _ _).0 c8);
        holds_what_it_sells =
            (no_short-ok d policy.allow_shorting proposal.action context proposal).0
              ((checked-Passes _ _ _).0 c9);
        none_pending = not-true ((plain-Passes _ _ _).0 c10);
        trades_left = ltb→lt _ _ ((plain-Passes _ _ _).0 c11);
        within_daily_loss = (checked-Passes _ _ _).0 c12;
        within_weekly_loss = (checked-Passes _ _ _).0 c13;
        position_fits = (within_limit-Passes d _ _ _ _).0 c14;
        exposure_fits = (within_limit-Passes d _ _ _ _).0 c15;
        within_budget =
            (buys_within-ok d proposal.action proposal policy context.bot_capital_available).0
              ((checked-Passes _ _ _).0 c16);
        within_cash = ((cash_check-Passes d proposal context policy).0 c17).1;
      }

  Accepted-checks :
      (proposal : Proposal) (context : RiskContext) (policy : RiskPolicy)
      → Accepted proposal context policy
      → All Passes (risk_checks d proposal context policy)
  unfolding risk_checks
  Accepted-checks proposal context policy s = (
    (plain-Passes _ _ _).1 (false-not s.switch_off),
    (
      (plain-Passes _ _ _).1 (is_running-of s.bot_runs),
      (
        (plain-Passes _ _ _).1 s.market_opens,
        (
          (plain-Passes _ _ _).1 (guard-of _ s.no_macro_event),
          (
            (plain-Passes _ _ _).1 s.is_fresh,
            (
              (plain-Passes _ _ _).1 (healthy-of s.is_healthy s.not_blocked),
              (
                (checked-Passes _ _ _).1 s.some_quantity,
                (
                  (checked-Passes _ _ _).1 s.some_price,
                  (
                    (checked-Passes _ _ _).1 (
                        (limit_price-ok d proposal.order_type proposal.limit_price).1 s.some_limit),
                    (
                      (checked-Passes _ _ _).1 (
                          (no_short-ok d policy.allow_shorting proposal.action context proposal).1
                            s.holds_what_it_sells),
                      (
                        (plain-Passes _ _ _).1 (false-not s.none_pending),
                        (
                          (plain-Passes _ _ _).1 (lt→ltb _ _ s.trades_left),
                          (
                            (checked-Passes _ _ _).1 s.within_daily_loss,
                            (
                              (checked-Passes _ _ _).1 s.within_weekly_loss,
                              (
                                (within_limit-Passes d _ _ _ _).1 s.position_fits,
                                (
                                  (within_limit-Passes d _ _ _ _).1 s.exposure_fits,
                                  (
                                    (checked-Passes _ _ _).1 (
                                        (buys_within-ok d proposal.action proposal policy
                                            context.bot_capital_available).1
                                          s.within_budget),
                                    (
                                      (cash_check-Passes d proposal context policy).1 (
                                        requested_of proposal context policy s.position_fits.2,
                                        s.within_cash,
                                      ),
                                      tt,
                                    ),
                                  ),
                                ),
                              ),
                            ),
                          ),
                        ),
                      ),
                    ),
                  ),
                ),
              ),
            ),
          ),
        ),
      ),
    ),
  )

  pub assess_risk_accepts :
      (proposal : Proposal) (context : RiskContext) (policy : RiskPolicy) (decision : RiskDecision)
      → assess_risk d proposal context policy ≡ ok decision
      → (decision.is_approved ≡ true) ↔ Accepted proposal context policy
  unfolding assess_risk
  assess_risk_accepts proposal context policy decision h =
      let (checks, e, q) = >>=-eq-ok (sequence (risk_checks d proposal context policy)) _ h in
      let passing = sequence-Passes (risk_checks d proposal context policy) checks e in
      let approves = decide_checks_approves d proposal checks in
      (
        λ a. checks-Accepted proposal context policy (passing.0 (approves.0 (cc (q, a)))),
        λ s. cc (q, approves.1 (passing.1 (Accepted-checks proposal context policy s))),
      )
