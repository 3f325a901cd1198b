-- ===== src/Capital/OperatingCost/Charge.antt =====
-- src/modules/capital/operating-cost-service.ts. A bot is charged in one transaction under its row
-- lock; a throw rolls it back. The billing month, which the source takes from the New York calendar,
-- is a number.
pub mod Once
mod Tests
use mathlib.Core.Option
use braiker.Domain.{paused, off, is_active, LifeStatus, active, dead}
use braiker.Decimal.{Decimal, money}
use braiker.Bots.Row.{BotRow, find_bot, update_bot}
use braiker.Bots.Death.{StatusChange, ModeChange, killed}
use braiker.Capital.OperatingCost.{
  OperatingCostBot, Allocation, AllocationInput, DebitInput, DebitResult,
  apply_operating_cost_debit, allocate_monthly_operating_cost,
}
use braiker.Prelude.Text.{Text}
use braiker.Prelude.Result.{Result, ok, throw, ◌>>=◌}
use braiker.Prelude.{
  List, [], ◌∷◌, Option, none, some, Bool, true, false, ℕ, zero, suc, ◌≡◌, refl, arith, inl, inr,
  String, ◌++◌, str_eq, length, keep, ◌&&◌, if◌then◌else◌, ◌==◌, not, ◌||◌, any,
}

pub record BotPosition (A : Type 0) : Type 0 where
  pub bot_id : String
  pub symbol : String
  pub quantity : A
  pub average_entry_price : A

pub record CostAllocation (A : Type 0) : Type 0 where
  pub bot_id : String
  pub billing_month : ℕ
  pub monthly_cost : A
  pub allocated_amount : A
  pub charged_amount : A
  pub unpaid_amount : A
  pub capital_before : A
  pub capital_after : A

pub record CapitalEvent (A : Type 0) : Type 0 where
  pub bot_id : String
  pub kind : String
  pub amount : A
  pub balance_after : A

pub record CostDb (A : Type 0) : Type 0 where
  pub bots : List (BotRow A)
  pub positions : List (BotPosition A)
  pub allocations : List (CostAllocation A)
  pub capital_events : List (CapitalEvent A)
  pub state_transitions : List StatusChange
  pub mode_transitions : List ModeChange

pub record ChargeInput : Type 0 where
  pub bot_id : String
  pub allocated_amount : Text
  pub monthly_cost : Text
  pub billing_month : ℕ

pub record ChargeOutcome : Type 0 where
  pub charged : Bool
  pub skipped : Bool
  pub died : Bool

pub charge_skipped : ChargeOutcome
charge_skipped = record { charged = false; skipped = true; died = false }

pub is_allocation_of : {A : Type 0} → String → ℕ → CostAllocation A → Bool
is_allocation_of bot_id month row = str_eq row.bot_id bot_id && row.billing_month == month

pub is_dead_after : LifeStatus → Bool
is_dead_after active = false
is_dead_after dead = true

pub exhausted_reason : String
exhausted_reason = "SURVIVAL_OPERATING_COST_EXHAUSTED"

module _ (d : Decimal) where
  pub open_positions : String → List (BotPosition d.Carrier) → ℕ
  open_positions bot_id positions = length (
      keep (λ (p : BotPosition d.Carrier). str_eq p.bot_id bot_id && d.lt d.zero_value p.quantity)
        positions)

  -- A decimal text written to a DECIMAL(28, 12) column.
  pub column : Text → Result d.Carrier
  column value = do amount ← money d value; ok (d.to_places 12 amount)

  pub debit_input : ChargeInput → BotRow d.Carrier → List (BotPosition d.Carrier) → DebitInput
  unfolding open_positions
  debit_input input bot positions = record {
    current_capital = d.to_text bot.current_capital;
    reserved_capital = d.to_text bot.reserved_capital;
    allocated_amount = input.allocated_amount;
    open_position_count = open_positions bot.id positions;
  }

  pub charged_bot : Bool → d.Carrier → BotRow d.Carrier → BotRow d.Carrier
  charged_bot died capital bot =
      let paid = record bot { current_capital = capital } in if died then killed paid else paid

  -- The writes of a debit.
  pub with_charge :
      ChargeInput
      → BotRow d.Carrier
      → DebitResult
      → CostDb d.Carrier
      → Result (ChargeOutcome × CostDb d.Carrier)
  unfolding charged_bot column is_dead_after
  with_charge input bot debit db = do
    capital_after ← column debit.capital_after
    monthly_cost ← column input.monthly_cost
    allocated ← column input.allocated_amount
    charged ← column debit.charged_amount
    unpaid ← column debit.unpaid_amount
    amount ← money d debit.charged_amount
    let died = is_dead_after debit.life_status
    ok (
      record { charged = d.lt d.zero_value amount; skipped = false; died = died },
      record db {
        bots = update_bot bot.id (charged_bot died capital_after) db.bots;
        allocations =
            db.allocations
            ++ record {
              bot_id = bot.id;
              billing_month = input.billing_month;
              monthly_cost = monthly_cost;
              allocated_amount = allocated;
              charged_amount = charged;
              unpaid_amount = unpaid;
              capital_before = bot.current_capital;
              capital_after = capital_after;
            }
              ∷ [];
        capital_events =
            db.capital_events
            ++ record {
              bot_id = bot.id;
              kind = "OPERATING_COST";
              amount = d.to_places 12 (d.negated amount);
              balance_after = capital_after;
            }
              ∷ [];
        state_transitions =
            if died
            then db.state_transitions
              ++ record {
                bot_id = bot.id;
                from_state = bot.status;
                to_state = paused;
                reason = exhausted_reason;
              }
                ∷ []
            else db.state_transitions;
        mode_transitions =
            if died
            then db.mode_transitions
              ++ record {
                bot_id = bot.id;
                from_mode = bot.run_mode;
                to_mode = off;
                reason = exhausted_reason;
              }
                ∷ []
            else db.mode_transitions;
      },
    )

  -- The two early returns after the bot is found, and what follows them.
  pub charge_unless :
      Bool
      → ChargeInput
      → CostDb d.Carrier
      → BotRow d.Carrier
      → Result (ChargeOutcome × CostDb d.Carrier)
  charge_unless true input db bot = ok (charge_skipped, db)
  charge_unless false input db bot = do
    debit ← apply_operating_cost_debit (debit_input input bot db.positions)
    with_charge input bot debit db

  -- The bot is dead, or the month has its allocation.
  pub nothing_due : ChargeInput → CostDb d.Carrier → BotRow d.Carrier → Bool
  nothing_due input db bot =
      not (is_active bot.life_status)
      || any (is_allocation_of bot.id input.billing_month) db.allocations

  pub charge_if_found :
      ChargeInput
      → CostDb d.Carrier
      → Option (BotRow d.Carrier)
      → Result (ChargeOutcome × CostDb d.Carrier)
  charge_if_found input db none = ok (charge_skipped, db)
  charge_if_found input db (some bot) = charge_unless (nothing_due input db bot) input db bot

  pub charge_one_bot : ChargeInput → CostDb d.Carrier → Result (ChargeOutcome × CostDb d.Carrier)
  charge_one_bot input db = charge_if_found input db (find_bot input.bot_id db.bots)
