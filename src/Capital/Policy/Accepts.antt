-- ===== src/Capital/Policy/Accepts.antt =====
-- What an accepted request has: both directions, by the amounts that the texts stand for.
use braiker.Money.{parse_money}
use braiker.Capital.Policy.{
  BudgetAllocation, validate_budget_allocation, CapitalAdjustment, Direction, add, withdraw,
  validate_capital_adjustment, bot_life_status, Text, ℕ, some, none, budget_error, Option, dead,
  adjustment_error, direction_error,
}
use braiker.Prelude.{◌≡◌, ◌<◌, ◌↔◌, ◌≤◌, arith, ◌⊎◌, refl}

-- The allocation that a request may take out of an unassigned amount.
abbrev pub Fits : Text → Text → Type 0
Fits unallocated requested =
    (a : ℕ) × (r : ℕ) × (parse_money unallocated ≡ some a)
    × (parse_money requested ≡ some r)
    × (0 < r)
    × (r ≤ a)

budget_error_accepts :
    (a r : Option ℕ)
    → (budget_error a r ≡ none)
      ↔ ((x : ℕ) × (y : ℕ) × (a ≡ some x) × (r ≡ some y) × (0 < y) × (y ≤ x))
unfolding budget_error
budget_error_accepts none r = (λ h. cc, λ h. cc h.2)
budget_error_accepts (some x) none = (λ h. cc, λ h. cc h.3)
budget_error_accepts (some x) (some y) =
    (λ h. (x, y, refl, refl, ground arith, ground arith), λ h. ground (arith, h.2, h.3))

-- A budget is accepted exactly when both texts are money and it is positive and no larger than what
-- the wallet has left.
pub validate_budget_allocation_accepts :
    (input : BudgetAllocation)
    → (validate_budget_allocation input ≡ none)
      ↔ Fits input.unallocated_capital input.requested_budget
unfolding validate_budget_allocation
validate_budget_allocation_accepts input =
    budget_error_accepts (parse_money input.unallocated_capital)
      (parse_money input.requested_budget)

abbrev Leaves : Text → Text → Type 0
Leaves current amount =
    (c : ℕ) × (x : ℕ) × (parse_money current ≡ some c)
    × (parse_money amount ≡ some x)
    × (0 < x)
    × (x < c)

-- What an accepted adjustment has, by its direction.
abbrev pub Adjusts : CapitalAdjustment → Direction → Type 0
Adjusts input add =
    Fits input.wallet_unallocated_capital input.amount
    × ((c : ℕ) × (parse_money input.bot_current_capital ≡ some c))
Adjusts input withdraw = Leaves input.bot_current_capital input.amount

adjustment_error_accepts :
    (input : CapitalAdjustment) (d : Direction) (a c : Option ℕ)
    → parse_money input.amount ≡ a
    → parse_money input.bot_current_capital ≡ c
    → (adjustment_error input d a c ≡ none) ↔ Adjusts input d
unfolding adjustment_error direction_error
adjustment_error_accepts input add none c ea ec = (λ h. cc, λ h. cc (ea, h.0.3))
adjustment_error_accepts input withdraw none c ea ec = (λ h. cc, λ h. cc (ea, h.3))
adjustment_error_accepts input add (some x) none ea ec = (λ h. cc, λ h. cc (ec, h.1.1))
adjustment_error_accepts input withdraw (some x) none ea ec = (λ h. cc, λ h. cc (ec, h.2))
adjustment_error_accepts input add (some x) (some y) ea ec =
    let budget : BudgetAllocation = record {
      unallocated_capital = input.wallet_unallocated_capital;
      requested_budget = input.amount;
    } in
    let iff = validate_budget_allocation_accepts budget in
    (λ h. (iff.0 (ground arith), (y, ec)), λ h. ground (arith, iff.1 h.0, ea, h.0.3, h.0.4))
adjustment_error_accepts input withdraw (some x) (some y) ea ec = (
  λ h. (y, x, ec, ea, ground arith, ground arith),
  λ h. ground (arith, ea, ec, h.2, h.3, h.4, h.5),
)

-- An adjustment is accepted exactly when its amount is positive money and, to add, the bot's
-- capital is money and the wallet has the amount left; to withdraw, the bot keeps something.
pub validate_capital_adjustment_accepts :
    (input : CapitalAdjustment)
    → (validate_capital_adjustment input ≡ none) ↔ Adjusts input input.direction
unfolding validate_capital_adjustment
validate_capital_adjustment_accepts input =
    adjustment_error_accepts input input.direction (parse_money input.amount)
      (parse_money input.bot_current_capital) refl refl

-- A bot is dead exactly when its capital is no money or is zero.
pub bot_life_status_dead :
    (current : Text)
    → (bot_life_status current ≡ dead)
      ↔ ((parse_money current ≡ none) ⊎ (parse_money current ≡ some 0))
unfolding bot_life_status
bot_life_status_dead current = ground arith
