-- ===== src/Capital/Fill.antt =====
-- src/modules/capital/fill-accounting.ts: a terminal broker order in one bot's virtual cash ledger.
pub mod Ledger
use braiker.Domain.{LifeStatus, Side, buy, sell, active, dead}
use braiker.Money.{scale, parse_or_throw, format_money}
use braiker.Prelude.Text.{Text}
use braiker.Prelude.{ℕ, Option, if◌then◌else◌, ltb, ◌-◌, ◌+◌, some, none, ◌*◌, ◌/◌, leb, ◌&&◌}
use braiker.Prelude.Result.{Result, ok, ◌>>=◌}

pub record FillInput : Type 0 where
  pub action : Side
  pub current_capital : Text
  pub reserved_capital : Text
  pub fill_quantity : Text
  pub fill_price : Text
  pub reserved_for_order : Text
  pub remaining_position_quantity : Option Text

pub record FillResult : Type 0 where
  pub current_capital : Text
  pub reserved_capital : Text
  pub life_status : LifeStatus

-- `input.action === "BUY" ? (current > notional ? current - notional : 0n) : current + notional`
unfoldable pub capital_after : Side → ℕ → ℕ → ℕ
capital_after buy current notional = if ltb notional current then current - notional else 0
capital_after sell current notional = current + notional

-- `reserved > reservation ? reserved - reservation : 0n`
unfoldable pub reserved_after : ℕ → ℕ → ℕ
reserved_after reserved reservation = if ltb reservation reserved then reserved - reservation else 0

-- `undefined ? 1n : parse(...)`
unfoldable pub remaining_position : Option Text → Result ℕ
remaining_position none = ok 1
remaining_position (some quantity) = parse_or_throw quantity

unfoldable pub apply_bot_fill : FillInput → Result FillResult
unfolding parse_or_throw
apply_bot_fill input = do
  current ← parse_or_throw input.current_capital
  reserved ← parse_or_throw input.reserved_capital
  quantity ← parse_or_throw input.fill_quantity
  price ← parse_or_throw input.fill_price
  let notional = quantity * price / scale
  reservation ← parse_or_throw input.reserved_for_order
  let capital = capital_after input.action current notional
  remaining ← remaining_position input.remaining_position_quantity
  ok (record {
    current_capital = format_money capital;
    reserved_capital = format_money (reserved_after reserved reservation);
    life_status = if leb capital 0 && leb remaining 0 then dead else active;
  })

pub record ReleaseInput : Type 0 where
  pub current_capital : Text
  pub reserved_capital : Text
  pub reserved_for_order : Text

pub record ReleaseResult : Type 0 where
  pub current_capital : Text
  pub reserved_capital : Text

unfoldable pub release_bot_reservation : ReleaseInput → Result ReleaseResult
unfolding parse_or_throw
release_bot_reservation input = do
  current ← parse_or_throw input.current_capital
  reserved ← parse_or_throw input.reserved_capital
  reservation ← parse_or_throw input.reserved_for_order
  ok (record {
    current_capital = format_money current;
    reserved_capital = format_money (reserved_after reserved reservation);
  })
