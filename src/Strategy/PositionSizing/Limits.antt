-- ===== src/Strategy/PositionSizing/Limits.antt =====
-- The limits of `sizePosition` of src/modules/strategy/position-sizing.ts.
use native.Mathlib.Nat.{div-mul-le_self, div-le_of_le-mul}
use braiker.Strategy.PositionSizing.{
  SizingInput, Sized, clamped, lower, remaining_exposure, notional_of, sized, sized_if_confident,
  size_position,
}
use braiker.Prelude.Maybe.{>>=-eq-some}
use braiker.Money.{scale, parse_money, format_money}
use braiker.Prelude.Int.{ℤ, pos, negsuc}
use braiker.Prelude.{some, ℕ, ◌≡◌, refl, arith, ◌<◌, ◌*◌, ◌/◌, ◌≤◌, ◌+◌}

-- The numbers that a purchase was sized from, and what its two texts stand for.
pub record WithinLimits (input : SizingInput) (order : Sized) : Type 0 where
  pub price : ℕ
  pub available : ℕ
  pub exposure : ℕ
  pub most : ℕ
  pub most_exposure : ℕ
  pub quantity : ℕ
  pub value : ℕ
  pub reads_price : parse_money input.price ≡ some price
  pub reads_available : parse_money input.available_capital ≡ some available
  pub reads_exposure : parse_money input.current_exposure ≡ some exposure
  pub reads_most : parse_money input.max_position_size ≡ some most
  pub reads_most_exposure : parse_money input.max_portfolio_exposure ≡ some most_exposure
  pub quantity_text : order.quantity ≡ format_money quantity
  pub value_text : order.estimated_value ≡ format_money value
  pub some_quantity : 0 < quantity
  pub value_of : value ≡ quantity * price / scale
  pub affordable : value ≤ available
  pub exposure_fits : exposure + value ≤ most_exposure
  pub position_fits : value * 100 ≤ most * clamped input.confidence

value_bound : (n p : ℕ) → n * scale / p * p / scale ≤ n
value_bound n p = div-le_of_le-mul scale (omega (arith, div-mul-le_self (n * scale) p))

-- What `sized` returns is worth no more than the notional, which is positive.
sized-bound :
    (price notional : ℕ) (order : Sized)
    → sized price notional ≡ some order
    → (q : ℕ) × (order.quantity ≡ format_money q)
      × (order.estimated_value ≡ format_money (q * price / scale))
      × (0 < q)
      × (q * price / scale ≤ notional)
      × (0 < notional)
unfolding sized
sized-bound price notional order h =
    let b = value_bound notional price in
    (notional * scale / price, ground arith, ground arith, ground arith, b, ground arith)

lower-le : (a b : ℕ) → (lower a b ≤ a) × (lower a b ≤ b)
unfolding lower
lower-le a b = (ground arith, ground arith)

notional_of-le :
    (available remaining most scored : ℕ)
    → (notional_of available remaining most scored ≤ available)
      × (notional_of available remaining most scored ≤ remaining)
      × (notional_of available remaining most scored ≤ scored)
unfolding notional_of lower
notional_of-le available remaining most scored = (ground arith, ground arith, ground arith)

sized_if_confident-sized :
    (price : ℕ) (confidence : ℤ) (notional : ℕ) (order : Sized)
    → sized_if_confident price confidence notional ≡ some order
    → sized price notional ≡ some order
unfolding sized_if_confident
sized_if_confident-sized price (pos c) notional order h = ground arith
sized_if_confident-sized price (negsuc c) notional order h = cc

exposure_room :
    (most exposure value : ℕ)
    → 0 < remaining_exposure most exposure
    → value ≤ remaining_exposure most exposure
    → exposure + value ≤ most
unfolding remaining_exposure
exposure_room most exposure value h h' = ground arith

-- When an order is sized, its texts are money, its quantity is positive, and its value is within
-- the free capital, the exposure that is left and the confidence's part of the largest position.
pub size_position-WithinLimits :
    (input : SizingInput) (order : Sized)
    → size_position input ≡ some order
    → WithinLimits input order
unfolding size_position
size_position-WithinLimits input order h =
    let (price, e0, h0) = >>=-eq-some (parse_money input.price) _ h in
    let (available, e1, h1) = >>=-eq-some (parse_money input.available_capital) _ h0 in
    let (exposure, e2, h2) = >>=-eq-some (parse_money input.current_exposure) _ h1 in
    let (most, e3, h3) = >>=-eq-some (parse_money input.max_position_size) _ h2 in
    let (most_exposure, e4, h4) = >>=-eq-some (parse_money input.max_portfolio_exposure) _ h3 in
    let scored = most * clamped input.confidence / 100 in
    let remaining = remaining_exposure most_exposure exposure in
    let (q, eq, ev, some_q, bound, some_n) =
      sized-bound price (notional_of available remaining most scored) order
        (sized_if_confident-sized price input.confidence _ order h4) in
    let caps = notional_of-le available remaining most scored in
    record {
      price = price;
      available = available;
      exposure = exposure;
      most = most;
      most_exposure = most_exposure;
      quantity = q;
      value = q * price / scale;
      reads_price = e0;
      reads_available = e1;
      reads_exposure = e2;
      reads_most = e3;
      reads_most_exposure = e4;
      quantity_text = eq;
      value_text = ev;
      some_quantity = some_q;
      value_of = refl;
      affordable = omega (arith, bound, caps.0);
      exposure_fits =
          exposure_room most_exposure exposure (q * price / scale) (omega (arith, some_n, caps.1))
            (omega (arith, bound, caps.1));
      position_fits =
          omega (arith, bound, caps.2, div-mul-le_self (most * clamped input.confidence) 100);
    }
