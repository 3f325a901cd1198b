-- ===== src/Risk/Tests.antt =====
-- A run of the gate on a small purchase.
use braiker.Risk.Engine.{
  above_loss, assess_risk, buys_within, cash_check, checked, current_exposure, decide_checks,
  decision_of, existing_position, exposure_from, guard_detail, guard_title, held_value,
  holds_quantity, is_positive, plain, price_of, projected, projected_exposure, projected_position,
  requested_value, risk_checks, shown, status_name, trades_detail, within_limit,
}
use braiker.Decimal.{max_value, money}
use braiker.Decimal.Scaled.{printed, product, quotient, scaled, signed}
use braiker.Money.{
  after_dot, before_dot, format_money, is_fraction, is_money, parse_money, parse_or_throw,
}
use braiker.Money.Digits.{digits_from, digits_value, is_digit, pad_start, print_nat, value_from}
use braiker.Prelude.Result.{any_result, map_result, ok, sequence, or_else}
use braiker.Prelude.Text.{either_literal, literal, text}
use braiker.Prelude.Int.{◌+ℤ◌, ◌-ℤ◌}
use braiker.Domain.{buy, market, running}
use braiker.Risk.Types.{Proposal, RiskContext, RiskDecision, default_risk_policy, Reason}
use braiker.Risk.Engine.Safe.{assess_risk_approves}
use braiker.Risk.Engine.Safety.{Safe}
use braiker.Prelude.{[], none, true, false, ◌≡◌, refl, ◌↔◌}

abbrev pub small_purchase : Proposal
small_purchase = record {
  symbol = "SPY";
  action = buy;
  order_type = market;
  quantity = text "0.5";
  limit_price = none;
  estimated_price = text "10";
}

abbrev pub healthy_context : RiskContext
healthy_context = record {
  bot_status = running;
  kill_switch = false;
  market_open = true;
  data_fresh = true;
  account_healthy = true;
  account = record {
    buying_power = text "100";
    cash = text "100";
    equity = text "100";
    trading_blocked = false;
  };
  positions = [];
  pending_symbols = [];
  daily_pnl = text "0";
  weekly_pnl = text "-1";
  trades_today = 0;
  bot_capital_available = text "20";
  macro_guard = none;
}

abbrev pub no_decision : RiskDecision
no_decision = record {
  is_approved = false;
  reason = Reason.approved;
  checks = [];
  approved_order = none;
}

abbrev small_decision : RiskDecision
small_decision =
    or_else (assess_risk scaled small_purchase healthy_context default_risk_policy) no_decision

small_decision_lem :
    assess_risk scaled small_purchase healthy_context default_risk_policy ≡ ok small_decision
unfolding status_name guard_title guard_detail trades_detail existing_position plain checked
    is_positive above_loss holds_quantity price_of requested_value exposure_from current_exposure
    held_value projected projected_position projected_exposure shown within_limit buys_within
    cash_check risk_checks decision_of decide_checks assess_risk money max_value signed printed
    product quotient before_dot after_dot is_fraction is_money parse_money parse_or_throw
    format_money is_digit value_from digits_value digits_from print_nat pad_start map_result
    any_result sequence literal either_literal ◌+ℤ◌ ◌-ℤ◌
small_decision_lem = refl

assess_risk_approves_example :
    (small_decision.is_approved ≡ true)
    ↔ Safe scaled small_purchase healthy_context default_risk_policy
assess_risk_approves_example =
    assess_risk_approves scaled small_purchase healthy_context default_risk_policy small_decision
      small_decision_lem
