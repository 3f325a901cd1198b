-- ===== src/Decision/Reservation.antt =====
-- src/modules/decision/reservation.ts.
pub mod Overbooking
use braiker.Domain.{
  Side, buy, sell, OrderType, market, limit, is_active, is_paper_active, is_running,
}
use braiker.Decimal.{Decimal, money}
use braiker.Risk.Types.{Proposal}
use braiker.Bots.Row.{BotRow, find_bot, update_bot, has_id, count_where, update_where}
use braiker.Prelude.Text.{Text, literal}
use braiker.Prelude.{
  Bool, Option, String, get_or, ◌&&◌, List, false, some, not, if◌then◌else◌, true, none, ◌==◌,
}
use braiker.Prelude.Result.{Result, ok, ◌>>=◌}

module _ (d : Decimal) where
  unfoldable pub buffered_price : OrderType → d.Carrier → Text → Result d.Carrier
  buffered_price market price market_order_buffer_pct = do
    buffer ← money d market_order_buffer_pct
    ok (d.mul price (d.plus d.one_value buffer))
  buffered_price limit price market_order_buffer_pct = ok price

  unfoldable pub price_text : OrderType → Proposal → Text
  price_text market proposal = proposal.estimated_price
  price_text limit proposal = get_or proposal.limit_price (literal "0")

  unfoldable pub reservation_for : Side → Proposal → Text → Result Text
  reservation_for sell proposal market_order_buffer_pct = ok (literal "0")
  reservation_for buy proposal market_order_buffer_pct = do
    price ← money d (price_text proposal.order_type proposal)
    buffered ← buffered_price proposal.order_type price market_order_buffer_pct
    quantity ← money d proposal.quantity
    ok (d.to_text (d.mul quantity buffered))

  unfoldable pub reservation_amount : Proposal → Text → Result Text
  unfolding reservation_for price_text buffered_price
  reservation_amount proposal market_order_buffer_pct =
      reservation_for proposal.action proposal market_order_buffer_pct

  abbrev pub is_live : BotRow d.Carrier → Bool
  is_live bot =
      is_active bot.life_status
      && is_paper_active bot.run_mode
      && is_running bot.status
      && not bot.kill_switch

  -- The `WHERE` clause of the conditional update.
  unfoldable pub can_reserve : BotRow d.Carrier → d.Carrier → Bool
  can_reserve bot amount =
      is_live bot && d.lte amount (d.minus bot.current_capital bot.reserved_capital)

  -- The `SET` clause; the column keeps twelve places.
  unfoldable pub add_reservation : d.Carrier → BotRow d.Carrier → BotRow d.Carrier
  add_reservation amount bot = record bot {
    reserved_capital = d.to_places 12 (d.plus bot.reserved_capital amount);
  }

  -- `affected === 1`, and the table after the conditional update.
  unfoldable pub reserve_bot_capital :
      String → Text → List (BotRow d.Carrier) → Result (Bool × List (BotRow d.Carrier))
  unfolding can_reserve add_reservation
  reserve_bot_capital bot_id amount_text bots = do
    amount ← money d amount_text
    let picks = λ (bot : BotRow d.Carrier). has_id bot_id bot && can_reserve bot amount
    ok (
        if d.lte amount d.zero_value
        then (true, bots)
        else (count_where picks bots == 1, update_where picks (add_reservation amount) bots))
