-- ===== src/Wallets/Pool.antt =====
-- src/modules/wallets/paper-capital-pool.ts.
use braiker.Prelude.Result.{Result, ok, ◌>>=◌}
use braiker.Prelude.{true, false, Bool, Option, String, some, if◌then◌else◌, none}
use braiker.Decimal.{Decimal, money, max_value}
use braiker.Capital.Policy.{Direction, add, withdraw}
use braiker.Prelude.Text.{Text}

pub record PoolInput : Type 0 where
  pub managed_capital : Text
  pub allocated_capital : Text
  pub requested_wallet_capital : Text
  pub broker_cash : Text

pub record WalletCapitalAdjustment : Type 0 where
  pub direction : Direction
  pub wallet_unallocated_capital : Text
  pub global_available_capital : Text
  pub amount : Text

module _ (d : Decimal) where
  unfoldable pub available_paper_capital : Text → Text → Result Text
  available_paper_capital managed_capital allocated_capital = do
    managed ← money d managed_capital
    allocated ← money d allocated_capital
    ok (d.to_text (d.to_places 12 (max_value d d.zero_value (d.minus managed allocated))))

  -- `requested.gt(availablePaperCapital(input))`
  unfoldable pub exceeds_available : PoolInput → d.Carrier → Result Bool
  exceeds_available input requested = do
    available_text ← available_paper_capital input.managed_capital input.allocated_capital
    available ← money d available_text
    ok (d.lt available requested)

  unfoldable pub is_insufficient : Bool → PoolInput → d.Carrier → Result Bool
  is_insufficient true input requested = ok true
  is_insufficient false input requested = exceeds_available input requested

  unfoldable pub validate_paper_capital_pool : PoolInput → Result (Option String)
  validate_paper_capital_pool input = do
    managed ← money d input.managed_capital
    allocated ← money d input.allocated_capital
    requested ← money d input.requested_wallet_capital
    cash ← money d input.broker_cash
    insufficient ← is_insufficient (d.lt managed allocated) input requested
    ok (
        if insufficient
        then some "INSUFFICIENT_PAPER_CAPITAL"
        else if d.lt cash managed
        then some "PAPER_CAPITAL_EXCEEDS_BROKER_CASH"
        else none)

  unfoldable pub exceeds : Direction → WalletCapitalAdjustment → d.Carrier → Result (Option String)
  exceeds add input amount = do
    available ← money d input.global_available_capital
    ok (if d.lt available amount then some "INSUFFICIENT_PAPER_CAPITAL" else none)
  exceeds withdraw input amount = do
    unallocated ← money d input.wallet_unallocated_capital
    ok (if d.lt unallocated amount then some "WALLET_CAPITAL_ASSIGNED_TO_BOTS" else none)

  unfoldable pub validate_positive :
      Bool → WalletCapitalAdjustment → d.Carrier → Result (Option String)
  validate_positive true input amount = ok (some "INVALID_VIRTUAL_CAPITAL")
  validate_positive false input amount = exceeds input.direction input amount

  unfoldable pub validate_virtual_wallet_capital_adjustment :
      WalletCapitalAdjustment → Result (Option String)
  validate_virtual_wallet_capital_adjustment input = do
    amount ← money d input.amount
    validate_positive (d.lte amount d.zero_value) input amount
