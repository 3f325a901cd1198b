-- ===== src/Capital/Tests.antt =====
-- Runs of src/modules/capital on concrete amounts.
use braiker.Domain.{buy, dead}
use braiker.Money.{scale, parse_money, format_money, parse_or_throw}
use braiker.Money.RoundTrip.{parse_money-format_money}
use braiker.Capital.Policy.{
  BudgetAllocation, CapitalAdjustment, withdraw, validate_capital_adjustment, bot_life_status,
}
use braiker.Capital.Policy.Accepts.{
  Adjusts, validate_capital_adjustment_accepts, bot_life_status_dead,
}
use braiker.Capital.Fill.{FillInput, FillResult, apply_bot_fill, ReleaseInput}
use braiker.Capital.Fill.Ledger.{
  Account, settle, Stands, has_position, apply_bot_fill-settle, settle_covered,
}
use braiker.Capital.OperatingCost.{
  DebitInput, DebitResult, apply_operating_cost_debit, AllocationInput, Allocation, PricedBot,
  priced, total_capital, funded_in_order, allocate_monthly_operating_cost,
}
use braiker.Capital.OperatingCost.Debit.{apply_operating_cost_debit_accounts}
use braiker.Capital.OperatingCost.Shares.{
  total_allocated, IsFair, allocate_monthly_operating_cost_covers,
}
use braiker.Prelude.{
  List, [], ◌∷◌, none, some, Bool, true, false, ℕ, ◌≡◌, refl, arith, ◌*◌, ◌≤◌, ◌↔◌, String, ◌<◌,
  ◌⊎◌, ◌/◌, ◌+◌,
}
use braiker.Prelude.Result.{ok, map_result}

abbrev dollars : ℕ → ℕ
dollars n = n * scale

-- A purchase of two shares at ten dollars, out of a hundred with thirty reserved.
abbrev purchase : FillInput
purchase = record {
  action = buy;
  current_capital = format_money (dollars 100);
  reserved_capital = format_money (dollars 30);
  fill_quantity = format_money (dollars 2);
  fill_price = format_money (dollars 10);
  reserved_for_order = format_money (dollars 25);
  remaining_position_quantity = none;
}

abbrev hundred : Account
hundred = record { cash = dollars 100; reserved = dollars 30 }

apply_bot_fill-settle_example :
    (out : FillResult) × (apply_bot_fill purchase ≡ ok out)
    × Stands out.current_capital out.reserved_capital
        (settle buy (dollars 2 * dollars 10 / scale) (dollars 25) hundred)
    × ((out.life_status ≡ dead) ↔ (
        ((settle buy (dollars 2 * dollars 10 / scale) (dollars 25) hundred).cash ≡ 0)
        × (has_position none ≡ false)))
apply_bot_fill-settle_example =
    apply_bot_fill-settle purchase hundred (dollars 2) (dollars 10) (dollars 25) none
      (parse_money-format_money (dollars 100), parse_money-format_money (dollars 30))
      (parse_money-format_money (dollars 2)) (parse_money-format_money (dollars 10))
      (parse_money-format_money (dollars 25)) refl

settle_covered_example :
    (settle buy (dollars 20) (dollars 25) hundred).reserved
    ≤ (settle buy (dollars 20) (dollars 25) hundred).cash
settle_covered_example =
    settle_covered buy (dollars 20) (dollars 25) hundred (omega arith) (omega arith)
      (λ bought. omega arith)

abbrev canceled_order : ReleaseInput
canceled_order = record {
  current_capital = format_money (dollars 100);
  reserved_capital = format_money (dollars 30);
  reserved_for_order = format_money (dollars 25);
}

-- A share of eight dollars of a bot that has ten, six of them reserved.
abbrev share_of_eight : DebitInput
share_of_eight = record {
  current_capital = format_money (dollars 10);
  reserved_capital = format_money (dollars 6);
  allocated_amount = format_money (dollars 8);
  open_position_count = 1;
}

apply_operating_cost_debit_accounts_example :
    (out : DebitResult) × (charge unpaid after : ℕ) × (apply_operating_cost_debit share_of_eight
      ≡ ok out)
    × (parse_money out.charged_amount ≡ some charge)
    × (parse_money out.unpaid_amount ≡ some unpaid)
    × (parse_money out.capital_after ≡ some after)
    × (charge + unpaid ≡ dollars 8)
    × (after + charge ≡ dollars 10)
    × (dollars 6 ≤ dollars 10 → dollars 6 ≤ after)
    × (0 < unpaid → after ≤ dollars 6)
    × ((out.life_status ≡ dead) ↔ ((after ≡ 0) × (share_of_eight.open_position_count ≡ 0)))
apply_operating_cost_debit_accounts_example =
    apply_operating_cost_debit_accounts share_of_eight (dollars 10) (dollars 6) (dollars 8)
      (parse_money-format_money (dollars 10)) (parse_money-format_money (dollars 6))
      (parse_money-format_money (dollars 8))

abbrev budget_of_five : BudgetAllocation
budget_of_five = record {
  unallocated_capital = format_money (dollars 7);
  requested_budget = format_money (dollars 5);
}

abbrev withdrawal : CapitalAdjustment
withdrawal = record {
  direction = withdraw;
  wallet_unallocated_capital = format_money 0;
  bot_current_capital = format_money (dollars 5);
  amount = format_money (dollars 2);
}

validate_capital_adjustment_accepts_example :
    (validate_capital_adjustment withdrawal ≡ none) ↔ Adjusts withdrawal withdraw
validate_capital_adjustment_accepts_example = validate_capital_adjustment_accepts withdrawal

bot_life_status_dead_example : (bot_life_status (format_money (dollars 3)) ≡ dead) ↔ (
    (parse_money (format_money (dollars 3)) ≡ none)
    ⊎ (parse_money (format_money (dollars 3)) ≡ some 0))
bot_life_status_dead_example = bot_life_status_dead (format_money (dollars 3))

-- Two bots, of which one has no capital, and a cost of one dollar.
abbrev in_given_order : String → String → Bool
in_given_order a b = true

abbrev one_dollar : AllocationInput
one_dollar = record {
  enabled = some true;
  monthly_cost = format_money (dollars 1);
  bots =
      record { id = "guardian"; current_capital = format_money (dollars 3) }
      ∷ record { id = "explorer"; current_capital = format_money 0 }
      ∷ [];
}

abbrev two_priced : List PricedBot
two_priced =
    record { id = "guardian"; capital = dollars 3 } ∷ record { id = "explorer"; capital = 0 } ∷ []

two_priced_lem : map_result priced one_dollar.bots ≡ ok two_priced
unfolding map_result priced parse_or_throw
two_priced_lem = rw (parse_money-format_money (dollars 3), parse_money-format_money 0) refl

two_priced_funded : 0 < total_capital two_priced
unfolding total_capital
two_priced_funded = omega arith

allocate_monthly_operating_cost_covers_example :
    (out : List Allocation) × (allocate_monthly_operating_cost in_given_order one_dollar ≡ ok out)
    × (total_allocated out ≡ ok (dollars 1))
    × IsFair (dollars 1) (total_capital two_priced) (funded_in_order in_given_order two_priced) out
allocate_monthly_operating_cost_covers_example =
    allocate_monthly_operating_cost_covers in_given_order one_dollar (dollars 1) two_priced
      (λ off. cc off) (parse_money-format_money (dollars 1)) two_priced_lem (omega arith)
      two_priced_funded
