-- ===== src/Capital/OperatingCost/Charge/Tests.antt =====
-- A run of a month's charge.
use braiker.Decimal.{max_value, money}
use braiker.Money.Digits.{digits_from, digits_value, is_digit, pad_start, print_nat, value_from}
use braiker.Capital.OperatingCost.{
  allocate_monthly_operating_cost, apply_operating_cost_debit, available_capital, charged,
  funded_in_order, is_disabled, priced, shares, shares_of_cost, shares_of_priced, total_capital,
}
use braiker.Bots.Death.{killed}
use braiker.Domain
use braiker.Domain.{running, paper_active}
use braiker.Decimal.Scaled.{printed, product, quotient, scaled, signed}
use braiker.Bots.Row.{count_where, find_bot, update_bot, update_where}
use braiker.Money.{
  after_dot, before_dot, format_money, is_fraction, is_money, parse_money, parse_or_throw, scale,
}
use braiker.Capital.OperatingCost.Charge.{
  ChargeInput, ChargeOutcome, CostDb, charge_if_found, charge_one_bot, charge_skipped,
  charge_unless, charged_bot, column, debit_input, exhausted_reason, is_allocation_of,
  is_dead_after, nothing_due, open_positions, with_charge,
}
use braiker.Capital.OperatingCost.Charge.Once.{charge_one_bot_once}
use braiker.Prelude.Int.{ℤ, pos, ◌+ℤ◌, ◌-ℤ◌}
use braiker.Prelude.Text.{text}
use braiker.Prelude.Result.{ok, or_else}
use braiker.Prelude.{[], ◌∷◌, false, ◌≡◌, refl, ◌*◌}

abbrev cost_db : CostDb ℤ
cost_db = record {
  bots =
      record {
        id = "guardian";
        wallet_id = "wallet";
        name = "Guardian";
        run_mode = paper_active;
        status = running;
        life_status = Domain.active;
        kill_switch = false;
        initial_capital = pos (20 * scale);
        current_capital = pos (2 * scale);
        reserved_capital = pos 0;
      }
      ∷ [];
  positions = [];
  allocations = [];
  capital_events = [];
  state_transitions = [];
  mode_transitions = [];
}

-- A share that takes all that the bot has left.
abbrev last_dollars : ChargeInput
last_dollars = record {
  bot_id = "guardian";
  allocated_amount = text "3";
  monthly_cost = text "3";
  billing_month = 202601;
}

abbrev after_charge : ChargeOutcome × CostDb ℤ
after_charge = or_else (charge_one_bot scaled last_dollars cost_db) (charge_skipped, cost_db)

after_charge_lem : charge_one_bot scaled last_dollars cost_db ≡ ok (after_charge.0, after_charge.1)
unfolding money max_value signed printed product quotient before_dot after_dot is_fraction is_money
    parse_money parse_or_throw format_money is_digit value_from digits_value digits_from print_nat
    pad_start priced total_capital shares is_disabled funded_in_order shares_of_priced
    shares_of_cost allocate_monthly_operating_cost available_capital charged
    apply_operating_cost_debit charge_skipped is_allocation_of is_dead_after exhausted_reason
    open_positions column debit_input charged_bot with_charge charge_unless nothing_due
    charge_if_found charge_one_bot find_bot update_where count_where update_bot killed ◌+ℤ◌ ◌-ℤ◌
after_charge_lem = refl

charge_one_bot_once_example :
    charge_one_bot scaled last_dollars after_charge.1 ≡ ok (charge_skipped, after_charge.1)
charge_one_bot_once_example =
    charge_one_bot_once scaled last_dollars cost_db after_charge.1 after_charge.0 after_charge_lem
