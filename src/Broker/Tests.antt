-- ===== src/Broker/Tests.antt =====
-- A run of a filled purchase, reported twice.
use braiker.Decimal.{max_value, money}
use braiker.Money.Digits.{digits_from, digits_value, is_digit, pad_start, print_nat, value_from}
use braiker.Capital.Fill.{
  apply_bot_fill, capital_after, release_bot_reservation, remaining_position, reserved_after,
}
use braiker.Bots.Death.{killed}
use braiker.Prelude.Table.{update_rows}
use braiker.Domain
use braiker.Domain.{running, paper_active, buy, market}
use braiker.Decimal.Scaled.{printed, product, quotient, scaled, signed}
use braiker.Bots.Row.{count_where, find_bot, update_bot, update_where}
use braiker.Money.{
  after_dot, before_dot, format_money, is_fraction, is_money, parse_money, parse_or_throw, scale,
}
use braiker.Decision.Service.{ProposalStatus}
use braiker.Execution.Worker.{OrderStatus}
use braiker.Broker.PaperSync.{
  BrokerReport, SyncDb, can_release, claim_release, claims, find_order, has_order_id, is_terminal,
  order_status, proposal_status, reconcile_found, reconcile_order, reconcile_terminal,
  reconcile_with_proposal, released, update_status, with_status,
}
use braiker.Broker.PaperSync.Account.{
  account_of, add_fill, already_recorded, book_terminal, capital_exhausted_reason, event_amount,
  fill_kind, find_position, held_quantity, is_dead_now, is_position_of, is_zero, lost_on_sale,
  move_position, moved, movement_of, previous_cost, profit, put_position, realized_pnl,
  reconcile_bot_order, recorded_from, settled_bot,
}
use braiker.Broker.PaperSync.Once.{reconcile_bot_order_once}
use braiker.Prelude.Int.{ℤ, pos, ◌+ℤ◌, ◌-ℤ◌}
use braiker.Prelude.Text.{either_literal, literal, text}
use braiker.Prelude.Result.{ok, or_else}
use braiker.Prelude.{[], ◌∷◌, none, some, true, false, ◌≡◌, refl, ◌*◌}

abbrev submitted_purchase : SyncDb ℤ
submitted_purchase = record {
  orders =
      record {
        id = "o1";
        client_order_id = "brk_p1";
        proposal_id = "p1";
        status = OrderStatus.new;
        reservation_released = false;
      }
      ∷ [];
  books = record {
    bots =
        record {
          id = "guardian";
          wallet_id = "wallet";
          name = "Guardian";
          run_mode = paper_active;
          status = running;
          life_status = Domain.active;
          kill_switch = false;
          initial_capital = pos (20 * scale);
          current_capital = pos (20 * scale);
          reserved_capital = pos (6 * scale);
        }
        ∷ [];
    positions = [];
    fills = [];
    proposals =
        record {
          id = "p1";
          bot_id = "guardian";
          symbol = "SPY";
          action = buy;
          order_type = market;
          quantity = pos scale;
          limit_price = none;
          estimated_price = pos (5 * scale);
          reservation_amount = pos (6 * scale);
          status = ProposalStatus.submitted;
        }
        ∷ [];
    capital_events = [];
    state_transitions = [];
    mode_transitions = [];
    learning = [];
  };
}

abbrev filled_report : BrokerReport
filled_report = record {
  id = "b1";
  client_order_id = "brk_p1";
  status = "filled";
  filled_quantity = some (text "1");
  filled_average_price = some (text "5.5");
}

abbrev after_fill : SyncDb ℤ
after_fill =
    or_else (reconcile_bot_order scaled filled_report submitted_purchase) submitted_purchase

abbrev after_repeat : SyncDb ℤ
after_repeat = or_else (reconcile_bot_order scaled filled_report after_fill) after_fill

after_fill_lem : reconcile_bot_order scaled filled_report submitted_purchase ≡ ok after_fill
unfolding money max_value signed printed product quotient before_dot after_dot is_fraction is_money
    parse_money parse_or_throw format_money is_digit value_from digits_value digits_from print_nat
    pad_start capital_after reserved_after remaining_position apply_bot_fill release_bot_reservation
    order_status is_terminal proposal_status find_order has_order_id with_status update_status
    can_release released claim_release claims reconcile_terminal reconcile_found
    reconcile_with_proposal reconcile_order is_dead_now fill_kind capital_exhausted_reason
    is_position_of find_position held_quantity previous_cost recorded_from already_recorded
    movement_of profit realized_pnl add_fill put_position is_zero move_position account_of moved
    event_amount settled_bot lost_on_sale book_terminal reconcile_bot_order find_bot update_where
    count_where update_bot killed update_rows literal either_literal ◌+ℤ◌ ◌-ℤ◌
after_fill_lem = refl

after_repeat_lem : reconcile_bot_order scaled filled_report after_fill ≡ ok after_repeat
unfolding money max_value signed printed product quotient before_dot after_dot is_fraction is_money
    parse_money parse_or_throw format_money is_digit value_from digits_value digits_from print_nat
    pad_start capital_after reserved_after remaining_position apply_bot_fill release_bot_reservation
    order_status is_terminal proposal_status find_order has_order_id with_status update_status
    can_release released claim_release claims reconcile_terminal reconcile_found
    reconcile_with_proposal reconcile_order is_dead_now fill_kind capital_exhausted_reason
    is_position_of find_position held_quantity previous_cost recorded_from already_recorded
    movement_of profit realized_pnl add_fill put_position is_zero move_position account_of moved
    event_amount settled_bot lost_on_sale book_terminal reconcile_bot_order find_bot update_where
    count_where update_bot killed update_rows literal either_literal ◌+ℤ◌ ◌-ℤ◌
after_repeat_lem = refl

filled_is_terminal : is_terminal "filled" ≡ true
unfolding is_terminal
filled_is_terminal = refl

reconcile_bot_order_once_example : after_repeat.books ≡ after_fill.books
reconcile_bot_order_once_example =
    reconcile_bot_order_once scaled filled_report filled_report submitted_purchase after_fill
      after_repeat filled_is_terminal refl after_fill_lem after_repeat_lem
