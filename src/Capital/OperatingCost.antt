-- ===== src/Capital/OperatingCost.antt =====
-- src/modules/capital/operating-cost-policy.ts: the shares of a monthly virtual cost, and the debit
-- of one share. `left.id.localeCompare(right.id)` orders by the host's collation, which is the
-- parameter `collates`: whether the first id is not put behind the second.
pub mod Shares
pub mod Debit
pub mod Charge
use braiker.Domain.{LifeStatus, active, dead}
use braiker.Money.{parse_or_throw, format_money}
use braiker.Prelude.{
  String, Option, List, ℕ, Bool, ◌∷◌, if◌then◌else◌, ◌+◌, ◌-◌, leb, false, ltb, ◌*◌, [], some, ◌/◌,
  not, none, keep, ◌&&◌,
}
use braiker.Prelude.Result.{Result, ok, ◌>>=◌, map_result}
use braiker.Prelude.Text.{Text}
use braiker.Prelude.Sort.{sort_by}

pub record OperatingCostBot : Type 0 where
  pub id : String
  pub current_capital : Text

-- `{ ...bot, capital: parseMoney(bot.currentCapital) }`
pub record PricedBot : Type 0 where
  pub id : String
  pub capital : ℕ

pub record Allocation : Type 0 where
  pub bot_id : String
  pub allocated_amount : Text

pub record AllocationInput : Type 0 where
  pub enabled : Option Bool
  pub monthly_cost : Text
  pub bots : List OperatingCostBot

unfoldable pub priced : OperatingCostBot → Result PricedBot
priced bot = do
  capital ← parse_or_throw bot.current_capital
  ok (record { id = bot.id; capital = capital })

unfoldable pub total_capital : List PricedBot → ℕ
total_capital [] = 0
total_capital (bot ∷ bots) = bot.capital + total_capital bots

-- The last map: `allocated` is what the bots before have been given.
pub shares : ℕ → ℕ → ℕ → List PricedBot → List Allocation
shares monthly_cost total allocated [] = []
shares monthly_cost total allocated (bot ∷ []) =
    record { bot_id = bot.id; allocated_amount = format_money (monthly_cost - allocated) } ∷ []
shares monthly_cost total allocated (bot ∷ next ∷ bots) =
    let amount = monthly_cost * bot.capital / total in
    record { bot_id = bot.id; allocated_amount = format_money amount }
    ∷ shares monthly_cost total (allocated + amount) (next ∷ bots)

-- `input.enabled === false`
pub is_disabled : Option Bool → Bool
is_disabled none = false
is_disabled (some enabled) = not enabled

module _ (collates : String → String → Bool) where
  -- `.filter((bot) => bot.capital > 0n).sort(...)`
  pub funded_in_order : List PricedBot → List PricedBot
  funded_in_order bots =
      sort_by (λ (left right : PricedBot). collates left.id right.id)
        (keep (λ (bot : PricedBot). ltb 0 bot.capital) bots)

  pub shares_of_priced : ℕ → List PricedBot → List Allocation
  shares_of_priced monthly_cost bots =
      let chosen = funded_in_order bots in
      let total = total_capital chosen in
      if leb total 0 then [] else shares monthly_cost total 0 chosen

  pub shares_of_cost : List OperatingCostBot → ℕ → Result (List Allocation)
  unfolding shares_of_priced
  shares_of_cost bots monthly_cost =
      if leb monthly_cost 0
      then ok []
      else do all_priced ← map_result priced bots; ok (shares_of_priced monthly_cost all_priced)

  pub allocate_monthly_operating_cost : AllocationInput → Result (List Allocation)
  unfolding shares_of_cost is_disabled
  allocate_monthly_operating_cost input = if is_disabled input.enabled then ok [] else do
    monthly_cost ← parse_or_throw input.monthly_cost
    shares_of_cost input.bots monthly_cost

pub record DebitInput : Type 0 where
  pub current_capital : Text
  pub reserved_capital : Text
  pub allocated_amount : Text
  pub open_position_count : ℕ

pub record DebitResult : Type 0 where
  pub charged_amount : Text
  pub unpaid_amount : Text
  pub capital_after : Text
  pub life_status : LifeStatus

-- `currentCapital > reservedCapital ? currentCapital - reservedCapital : 0n`
pub available_capital : ℕ → ℕ → ℕ
available_capital current reserved = if ltb reserved current then current - reserved else 0

-- `allocatedAmount < availableCapital ? allocatedAmount : availableCapital`
pub charged : ℕ → ℕ → ℕ
charged allocated available = if ltb allocated available then allocated else available

pub apply_operating_cost_debit : DebitInput → Result DebitResult
unfolding parse_or_throw
apply_operating_cost_debit input = do
  current ← parse_or_throw input.current_capital
  reserved ← parse_or_throw input.reserved_capital
  allocated ← parse_or_throw input.allocated_amount
  let charge = charged allocated (available_capital current reserved)
  let after = current - charge
  ok (record {
    charged_amount = format_money charge;
    unpaid_amount = format_money (allocated - charge);
    capital_after = format_money after;
    life_status = if leb after 0 && leb input.open_position_count 0 then dead else active;
  })
