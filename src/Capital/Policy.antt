-- ===== src/Capital/Policy.antt =====
-- src/modules/capital/capital-policy.ts: what an allocation and an adjustment must satisfy.
pub mod Accepts
use braiker.Prelude.{ℕ, Option, some, if◌then◌else◌, leb, ltb, none}
use braiker.Domain.{LifeStatus, active, dead}
use braiker.Money.{parse_money}
use braiker.Prelude.Text.{Text}

pub data CapitalError : Type 0 where
  invalid_bot_budget insufficient_unallocated_capital : CapitalError
  invalid_capital_adjustment withdrawal_must_leave_capital : CapitalError

pub record BudgetAllocation : Type 0 where
  pub unallocated_capital : Text
  pub requested_budget : Text

unfoldable pub budget_error : Option ℕ → Option ℕ → Option CapitalError
budget_error none requested = some invalid_bot_budget
budget_error (some available) none = some invalid_bot_budget
budget_error (some available) (some requested) =
    if leb requested 0
    then some invalid_bot_budget
    else if ltb available requested
    then some insufficient_unallocated_capital
    else none

-- `null`, which accepts, is `none`.
unfoldable pub validate_budget_allocation : BudgetAllocation → Option CapitalError
unfolding budget_error
validate_budget_allocation input =
    budget_error (parse_money input.unallocated_capital) (parse_money input.requested_budget)

pub data Direction : Type 0 where
  add withdraw : Direction

pub record CapitalAdjustment : Type 0 where
  pub direction : Direction
  pub wallet_unallocated_capital : Text
  pub bot_current_capital : Text
  pub amount : Text

-- The branches below the test for an invalid amount.
unfoldable pub direction_error : CapitalAdjustment → Direction → ℕ → ℕ → Option CapitalError
direction_error input add amount current = validate_budget_allocation (record {
  unallocated_capital = input.wallet_unallocated_capital;
  requested_budget = input.amount;
})
direction_error input withdraw amount current =
    if leb current amount then some withdrawal_must_leave_capital else none

unfoldable pub adjustment_error :
    CapitalAdjustment → Direction → Option ℕ → Option ℕ → Option CapitalError
adjustment_error input direction none current = some invalid_capital_adjustment
adjustment_error input direction (some amount) none = some invalid_capital_adjustment
adjustment_error input direction (some amount) (some current) =
    if leb amount 0
    then some invalid_capital_adjustment
    else direction_error input direction amount current

unfoldable pub validate_capital_adjustment : CapitalAdjustment → Option CapitalError
unfolding adjustment_error direction_error validate_budget_allocation
validate_capital_adjustment input =
    adjustment_error input input.direction (parse_money input.amount)
      (parse_money input.bot_current_capital)

life_status_of : Option ℕ → LifeStatus
life_status_of none = dead
life_status_of (some capital) = if leb capital 0 then dead else active

pub bot_life_status : Text → LifeStatus
unfolding life_status_of
bot_life_status current_capital = life_status_of (parse_money current_capital)
