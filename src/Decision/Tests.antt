-- ===== src/Decision/Tests.antt =====
-- Runs of a purchase through the decision, and of two that compete.
use braiker.Decimal.{max_value, money}
use braiker.Money.Digits.{digits_from, digits_value, is_digit, pad_start, print_nat, value_from}
use braiker.Prelude.Result.{any_result, map_result, sequence, ok, or_else}
use braiker.Decision.Reservation.{
  add_reservation, buffered_price, can_reserve, price_text, reservation_amount, reservation_for,
  reserve_bot_capital,
}
use braiker.Bots.Templates.{
  get_bot_template, is_allowed_trading_symbol, never_trade_risk, same_id,
  should_queue_paper_execution, templates, validate_bot_mode_change,
}
use braiker.Domain
use braiker.Domain.{buy, running, paper_active, is_active}
use braiker.Decimal.Scaled.{printed, product, quotient, scaled, signed}
use braiker.Decimal.Scaled.Laws.{scaled-PrintsBack, scaled-ColumnLaws}
use braiker.Risk.Types.{RiskDecision, default_risk_policy}
use braiker.Risk.Engine.{
  above_loss, assess_risk, buys_within, cash_check, checked, current_exposure, decide_checks,
  decision_of, existing_position, exposure_from, guard_detail, guard_title, held_value,
  holds_quantity, is_positive, plain, price_of, projected, projected_exposure, projected_position,
  requested_value, risk_checks, shown, status_name, trades_detail, within_limit,
}
use braiker.Risk.Tests.{small_purchase, healthy_context, no_decision}
use braiker.Bots.Row.{BotRow, count_where, find_bot, update_bot, update_where, UniqueIds}
use braiker.Decision.Service.{
  DecisionDb, TradeInput, context_for, decision_row, lost_reservation, optional_money, proposal_row,
  queue_or_reject, record_for, record_proposed_trade, recorded, status_of_decision,
}
use braiker.Decision.Service.Recorded.{Recorded, record_proposed_trade-Recorded}
use braiker.Decision.Service.Reserves.{record_proposed_trade_reserves}
use braiker.Decision.Reservation.Overbooking.{IsCovered, serve_requests, serve_requests-IsCovered}
use braiker.Prelude.Int.{ℤ, pos, ◌+ℤ◌, ◌-ℤ◌}
use braiker.Prelude.Text.{either_literal, literal, text, Text}
use braiker.Money.{
  after_dot, before_dot, format_money, is_fraction, is_money, parse_money, parse_or_throw, scale,
}
use braiker.Prelude.{List, [], ◌∷◌, some, true, false, ◌≡◌, refl, ◌*◌, String, All}

abbrev guardian_bot : BotRow ℤ
guardian_bot = record {
  id = "guardian";
  wallet_id = "wallet";
  name = "Guardian";
  run_mode = paper_active;
  status = running;
  life_status = Domain.active;
  kill_switch = false;
  initial_capital = pos (20 * scale);
  current_capital = pos (20 * scale);
  reserved_capital = pos 0;
}

abbrev one_bot : DecisionDb ℤ
one_bot = record {
  bots = guardian_bot ∷ [];
  proposals = [];
  risk_decisions = [];
  execution_jobs = [];
  rejections = [];
}

abbrev small_trade : TradeInput
small_trade = record {
  bot_id = "guardian";
  proposal = small_purchase;
  risk_context = healthy_context;
  policy = default_risk_policy;
}

abbrev first_decision : RiskDecision
first_decision =
    or_else
      (assess_risk scaled small_purchase (context_for scaled small_trade guardian_bot)
        default_risk_policy)
      no_decision

abbrev recorded_trade : RiskDecision × DecisionDb ℤ
recorded_trade =
    or_else (record_proposed_trade scaled "p1" small_trade one_bot) (no_decision, one_bot)

recorded_trade_lem : record_proposed_trade scaled "p1" small_trade one_bot ≡ ok recorded_trade
unfolding status_name guard_title guard_detail trades_detail existing_position plain checked
    is_positive above_loss holds_quantity price_of requested_value exposure_from current_exposure
    held_value projected projected_position projected_exposure shown within_limit buys_within
    cash_check risk_checks decision_of decide_checks assess_risk money max_value signed printed
    product quotient before_dot after_dot is_fraction is_money parse_money parse_or_throw
    format_money is_digit value_from digits_value digits_from print_nat pad_start map_result
    any_result sequence literal either_literal status_of_decision lost_reservation decision_row
    optional_money proposal_row recorded queue_or_reject context_for record_for
    record_proposed_trade buffered_price price_text reservation_for reservation_amount can_reserve
    add_reservation reserve_bot_capital find_bot update_where count_where update_bot
    never_trade_risk templates same_id get_bot_template is_allowed_trading_symbol
    validate_bot_mode_change should_queue_paper_execution ◌+ℤ◌ ◌-ℤ◌
recorded_trade_lem = refl

first_decision_lem :
    assess_risk scaled small_trade.proposal
      (context_for scaled small_trade guardian_bot)
      small_trade.policy
    ≡ ok first_decision
unfolding status_name guard_title guard_detail trades_detail existing_position plain checked
    is_positive above_loss holds_quantity price_of requested_value exposure_from current_exposure
    held_value projected projected_position projected_exposure shown within_limit buys_within
    cash_check risk_checks decision_of decide_checks assess_risk money max_value signed printed
    product quotient before_dot after_dot is_fraction is_money parse_money parse_or_throw
    format_money is_digit value_from digits_value digits_from print_nat pad_start map_result
    any_result sequence literal either_literal context_for ◌+ℤ◌ ◌-ℤ◌
first_decision_lem = refl

first_decision_approved : first_decision.is_approved ≡ true
unfolding status_name guard_title guard_detail trades_detail existing_position plain checked
    is_positive above_loss holds_quantity price_of requested_value exposure_from current_exposure
    held_value projected projected_position projected_exposure shown within_limit buys_within
    cash_check risk_checks decision_of decide_checks assess_risk money max_value signed printed
    product quotient before_dot after_dot is_fraction is_money parse_money parse_or_throw
    format_money is_digit value_from digits_value digits_from print_nat pad_start map_result
    any_result sequence literal either_literal context_for ◌+ℤ◌ ◌-ℤ◌
first_decision_approved = refl

finds_guardian : find_bot "guardian" one_bot.bots ≡ some guardian_bot
unfolding find_bot
finds_guardian = refl

only_guardian : UniqueIds one_bot.bots
unfolding find_bot
only_guardian = (refl, tt)

record_proposed_trade-Recorded_example :
    (bot : BotRow ℤ) × (find_bot "guardian" one_bot.bots ≡ some bot)
    × (is_active bot.life_status ≡ true)
    × Recorded scaled "p1" small_trade one_bot bot.run_mode recorded_trade.0 recorded_trade.1
record_proposed_trade-Recorded_example =
    record_proposed_trade-Recorded scaled "p1" small_trade one_bot recorded_trade.1 recorded_trade.0
      recorded_trade_lem

record_proposed_trade_reserves_example : recorded_trade.0 ≡ first_decision
record_proposed_trade_reserves_example =
    record_proposed_trade_reserves scaled scaled-PrintsBack "p1" small_trade one_bot
      recorded_trade.1 guardian_bot first_decision recorded_trade.0 only_guardian finds_guardian
      refl refl first_decision_lem first_decision_approved recorded_trade_lem

abbrev competing : List (String × Text)
competing = ("guardian", text "15") ∷ ("guardian", text "15") ∷ []

serve_requests-IsCovered_example :
    All (IsCovered scaled) (serve_requests scaled competing one_bot.bots)
serve_requests-IsCovered_example =
    serve_requests-IsCovered scaled scaled-ColumnLaws competing one_bot.bots (refl, tt)
