-- ===== src/Wallets/Tests.antt =====
-- Runs of the transfers.
use braiker.Money.Digits.{digits_from, digits_value, is_digit, pad_start, print_nat, value_from}
use braiker.Decimal.{max_value, money}
use braiker.Prelude.Table.{update_one, update_rows}
use braiker.Bots.Control.{
  apply_bot_control, control_found, find_member, is_dead, is_permitted, may_operate, powered,
  resolve_bot_power_change, same_mode, same_status, status_of, throw_some, with_power,
}
use braiker.Wallets.Pool.{
  available_paper_capital, exceeds, exceeds_available, is_insufficient, validate_paper_capital_pool,
  validate_positive, validate_virtual_wallet_capital_adjustment,
}
use braiker.Prelude.Result.{ok, or_else}
use braiker.Prelude.{[], ◌∷◌, some, false, ◌≡◌, refl, ◌*◌, Option, List}
use braiker.Prelude.Text.{either_literal, literal, same_text, text}
use braiker.Prelude.Int.{pos, ℤ, ◌*ℤ◌, ◌+ℤ◌, ◌-ℤ◌}
use braiker.Domain
use braiker.Domain.{running, paper_active}
use braiker.Money.{
  after_dot, before_dot, format_money, is_fraction, is_money, parse_money, parse_or_throw, scale,
}
use braiker.Capital.Policy.{
  budget_error, validate_budget_allocation, direction_error, adjustment_error,
  validate_capital_adjustment, withdraw,
}
use braiker.Decimal.Scaled.{printed, product, quotient, scaled, signed}
use braiker.Decimal.Scaled.Laws.{scaled-ExactColumns}
use braiker.Wallets.Transfers.{
  BotCapitalRequest, CapitalDb, adjust_bot_capital, adjust_found_bot, assigns, capital_error_name,
  decremented, draws_from_bot, event_of, funds_bot, has_unallocated, incremented, is_zero, may_draw,
  move_bot_capital, unassigns, PaperCapitalPool,
}
use braiker.Wallets.Transfers.Conserves.{Adjusted, adjust_bot_capital-Adjusted}
use braiker.Wallets.Global.{
  Transfer, adjust_wallet_capital, bot_capital, create_wallet, draws_from_pool, draws_from_wallet,
  funds_wallet, move_wallet_capital, new_wallet, paper_capital, reserve_from_pool, returns_to_pool,
  set_paper_capital, transfer, transfers, wallet_capital,
}
use braiker.Wallets.Global.Balanced.{IsBalanced, transfers-IsBalanced, AreTimely}

abbrev ledger : CapitalDb ℤ
ledger = record {
  bots =
      record {
        id = "guardian";
        wallet_id = "wallet";
        name = "Guardian";
        run_mode = paper_active;
        status = running;
        life_status = Domain.active;
        kill_switch = false;
        initial_capital = pos (20 * scale);
        current_capital = pos (12 * scale);
        reserved_capital = pos 0;
      }
      ∷ [];
  wallets =
      record {
        id = "wallet";
        name = "First";
        managed_capital = pos (30 * scale);
        unallocated_capital = pos (10 * scale);
      }
      ∷ [];
  pool =
      some (record { managed_capital = pos (100 * scale); unallocated_capital = pos (70 * scale) });
  capital_events = [];
}

abbrev four_back : BotCapitalRequest
four_back = record { bot_id = "guardian"; direction = withdraw; amount = text "4" }

abbrev after_withdrawal : CapitalDb ℤ
after_withdrawal = or_else (adjust_bot_capital scaled four_back ledger) ledger

after_withdrawal_lem : adjust_bot_capital scaled four_back ledger ≡ ok after_withdrawal
unfolding budget_error validate_budget_allocation direction_error adjustment_error
    validate_capital_adjustment capital_error_name incremented decremented is_zero funds_bot
    draws_from_bot may_draw has_unallocated assigns unassigns move_bot_capital event_of
    adjust_found_bot adjust_bot_capital before_dot after_dot is_fraction is_money parse_money
    parse_or_throw format_money is_digit value_from digits_value digits_from print_nat pad_start
    money max_value signed printed product quotient ◌+ℤ◌ ◌-ℤ◌ ◌*ℤ◌ update_rows update_one
    resolve_bot_power_change find_member may_operate is_permitted is_dead status_of same_mode
    same_status throw_some powered with_power control_found apply_bot_control literal either_literal
    same_text
after_withdrawal_lem = refl

adjust_bot_capital-Adjusted_example : Adjusted scaled scaled-ExactColumns ledger after_withdrawal
adjust_bot_capital-Adjusted_example =
    adjust_bot_capital-Adjusted scaled scaled-ExactColumns four_back ledger after_withdrawal
      after_withdrawal_lem

abbrev pool_before : PaperCapitalPool ℤ
pool_before = record { managed_capital = pos (100 * scale); unallocated_capital = pos (25 * scale) }

-- The bot gives 4 back, the wallet returns 5, a second wallet takes 50, and the pool shrinks to 90.
abbrev requests : List (Transfer ℤ)
requests =
    bot_capital four_back
    ∷ wallet_capital (record { wallet_id = "wallet"; direction = withdraw; amount = text "5" })
    ∷ new_wallet (record { id = "second"; name = "Second"; managed_capital = text "50" })
    ∷ paper_capital (text "90") (text "95") pool_before
    ∷ []

requests_timely : AreTimely scaled scaled-ExactColumns requests ledger
unfolding budget_error validate_budget_allocation direction_error adjustment_error
    validate_capital_adjustment capital_error_name incremented decremented is_zero funds_bot
    draws_from_bot may_draw has_unallocated assigns unassigns move_bot_capital event_of
    adjust_found_bot adjust_bot_capital draws_from_pool returns_to_pool reserve_from_pool
    funds_wallet draws_from_wallet move_wallet_capital adjust_wallet_capital create_wallet
    set_paper_capital transfer transfers available_paper_capital exceeds_available is_insufficient
    validate_paper_capital_pool exceeds validate_positive validate_virtual_wallet_capital_adjustment
    before_dot after_dot is_fraction is_money parse_money parse_or_throw format_money is_digit
    value_from digits_value digits_from print_nat pad_start money max_value signed printed product
    quotient ◌+ℤ◌ ◌-ℤ◌ ◌*ℤ◌ update_rows update_one resolve_bot_power_change find_member may_operate
    is_permitted is_dead status_of same_mode same_status throw_some powered with_power control_found
    apply_bot_control literal either_literal same_text
requests_timely = (tt, (tt, (tt, (refl, tt))))

transfers-IsBalanced_example :
    IsBalanced scaled scaled-ExactColumns (transfers scaled requests ledger)
unfolding ◌+ℤ◌
transfers-IsBalanced_example =
    transfers-IsBalanced scaled scaled-ExactColumns requests ledger requests_timely refl

abbrev pool_after : Option (PaperCapitalPool ℤ)
pool_after = (transfers scaled requests ledger).pool

pool_after_lem :
    pool_after
    ≡ some (record { managed_capital = pos (90 * scale); unallocated_capital = pos (15 * scale) })
unfolding budget_error validate_budget_allocation direction_error adjustment_error
    validate_capital_adjustment capital_error_name incremented decremented is_zero funds_bot
    draws_from_bot may_draw has_unallocated assigns unassigns move_bot_capital event_of
    adjust_found_bot adjust_bot_capital draws_from_pool returns_to_pool reserve_from_pool
    funds_wallet draws_from_wallet move_wallet_capital adjust_wallet_capital create_wallet
    set_paper_capital transfer transfers available_paper_capital exceeds_available is_insufficient
    validate_paper_capital_pool exceeds validate_positive validate_virtual_wallet_capital_adjustment
    before_dot after_dot is_fraction is_money parse_money parse_or_throw format_money is_digit
    value_from digits_value digits_from print_nat pad_start money max_value signed printed product
    quotient ◌+ℤ◌ ◌-ℤ◌ ◌*ℤ◌ update_rows update_one resolve_bot_power_change find_member may_operate
    is_permitted is_dead status_of same_mode same_status throw_some powered with_power control_found
    apply_bot_control literal either_literal same_text
pool_after_lem = refl
