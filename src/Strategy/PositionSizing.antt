-- ===== src/Strategy/PositionSizing.antt =====
-- src/modules/strategy/position-sizing.ts: `sizePosition`. A confidence is whole, since every signal
-- of trend-strategy.ts and hold-strategy.ts is rounded before it gets here.
pub mod Limits
use braiker.Prelude.Maybe.{◌>>=◌}
use braiker.Money.{scale, parse_money, format_money}
use braiker.Prelude.Int.{ℤ, pos, negsuc}
use braiker.Prelude.{
  List, [], ◌∷◌, Option, none, some, Bool, true, false, ℕ, zero, suc, ◌≡◌, refl, arith, inl, inr,
  if◌then◌else◌, ◌*◌, ltb, ◌/◌, leb, ◌-◌, ◌||◌,
}
use braiker.Prelude.Text.{Text}

pub record SizingInput : Type 0 where
  pub price : Text
  pub confidence : ℤ
  pub available_capital : Text
  pub current_exposure : Text
  pub max_position_size : Text
  pub max_portfolio_exposure : Text

pub record Sized : Type 0 where
  pub quantity : Text
  pub estimated_value : Text

-- `BigInt(Math.min(100, Math.max(0, Math.round(confidence))))`
unfoldable pub clamped : ℤ → ℕ
clamped (pos n) = if ltb n 100 then n else 100
clamped (negsuc n) = 0

-- `value < lowest ? value : lowest`
unfoldable pub lower : ℕ → ℕ → ℕ
lower lowest value = if ltb value lowest then value else lowest

-- `maxExposure > currentExposure ? maxExposure - currentExposure : 0n`
unfoldable pub remaining_exposure : ℕ → ℕ → ℕ
remaining_exposure most current = if ltb current most then most - current else 0

-- The lowest of the four caps.
unfoldable pub notional_of : ℕ → ℕ → ℕ → ℕ → ℕ
unfolding lower
notional_of available remaining most scored = lower (lower (lower available remaining) most) scored

-- From the parsed numbers on.
unfoldable pub sized : ℕ → ℕ → Option Sized
sized price notional =
    let quantity = notional * scale / price in
    if leb notional 0
    then none
    else if leb quantity 0
    then none
    else some (record {
      quantity = format_money quantity;
      estimated_value = format_money (quantity * price / scale);
    })

-- `price <= 0n || input.confidence <= 0`
unfoldable pub sized_if_confident : ℕ → ℤ → ℕ → Option Sized
sized_if_confident price (pos confidence) notional =
    if leb price 0 || leb confidence 0 then none else sized price notional
sized_if_confident price (negsuc confidence) notional = none

unfoldable pub size_position : SizingInput → Option Sized
size_position input = do
  price ← parse_money input.price
  available ← parse_money input.available_capital
  exposure ← parse_money input.current_exposure
  most ← parse_money input.max_position_size
  most_exposure ← parse_money input.max_portfolio_exposure
  sized_if_confident price input.confidence (
      notional_of available (remaining_exposure most_exposure exposure) most
        (most * clamped input.confidence / 100))
