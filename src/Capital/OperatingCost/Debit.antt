-- ===== src/Capital/OperatingCost/Debit.antt =====
-- `applyOperatingCostDebit` of src/modules/capital/operating-cost-policy.ts in whole amounts.
use braiker.Domain.{active, dead}
use braiker.Money.{parse_money, format_money}
use braiker.Money.RoundTrip.{parse_money-format_money}
use braiker.Capital.OperatingCost.{
  DebitInput, DebitResult, charged, available_capital, apply_operating_cost_debit, ℕ, some, ok, leb,
}
use braiker.Prelude.{◌≡◌, ◌+◌, ◌≤◌, ◌<◌, ◌↔◌, ◌-◌, if◌then◌else◌, ◌&&◌, arith}

-- On money texts the debit returns amounts with: what is charged and what stays unpaid make the
-- share; the capital falls by exactly the charge; what was reserved and covered stays covered; a
-- share is left unpaid only when nothing but the reservation is left; and the bot dies exactly when
-- it has neither capital nor an open position.
pub apply_operating_cost_debit_accounts :
    (input : DebitInput) (current reserved allocated : ℕ)
    → parse_money input.current_capital ≡ some current
    → parse_money input.reserved_capital ≡ some reserved
    → parse_money input.allocated_amount ≡ some allocated
    → (out : DebitResult) × (charge unpaid after : ℕ) × (apply_operating_cost_debit input ≡ ok out)
      × (parse_money out.charged_amount ≡ some charge)
      × (parse_money out.unpaid_amount ≡ some unpaid)
      × (parse_money out.capital_after ≡ some after)
      × (charge + unpaid ≡ allocated)
      × (after + charge ≡ current)
      × (reserved ≤ current → reserved ≤ after)
      × (0 < unpaid → after ≤ reserved)
      × ((out.life_status ≡ dead) ↔ ((after ≡ 0) × (input.open_position_count ≡ 0)))
unfolding apply_operating_cost_debit charged available_capital
apply_operating_cost_debit_accounts input c r a hc hr ha =
    let charge = charged a (available_capital c r) in
    (
      record {
        charged_amount = format_money charge;
        unpaid_amount = format_money (a - charge);
        capital_after = format_money (c - charge);
        life_status =
            if leb (c - charge) 0 && leb input.open_position_count 0 then dead else active;
      },
      charge,
      a - charge,
      c - charge,
      rw (hc, hr, ha),
      parse_money-format_money charge,
      parse_money-format_money (a - charge),
      parse_money-format_money (c - charge),
      ground arith,
      ground arith,
      ground arith,
      ground arith,
      ground arith,
    )
