-- ===== src/Broker/PaperSync/Account.antt =====
-- The accounting of a terminal order: the fill, the position, the capital, and the bot's death.
use braiker.Domain.{Side, buy, sell, LifeStatus, active, dead, paused, off}
use braiker.Decimal.{Decimal, money, max_value}
use braiker.Bots.Row.{BotRow, find_bot, update_bot}
use braiker.Bots.Death.{killed}
use braiker.Decision.Service.{ProposalRow}
use braiker.Capital.Fill.{FillResult, apply_bot_fill, release_bot_reservation}
use braiker.Capital.OperatingCost.Charge.{BotPosition}
use braiker.Broker.PaperSync.{
  BrokerReport, SyncOrder, Fill, Books, SyncDb, proposal_status, find_order, reconcile_order,
}
use braiker.Prelude.Result.{Result, ok, ◌>>=◌, or_throw}
use braiker.Prelude.Text.{Text, literal}
use braiker.Prelude.Table.{update_rows}
use braiker.Prelude.{
  List, [], ◌∷◌, Option, none, some, Bool, true, false, String, get_or, str_eq, find, keep, ◌++◌,
  ◌&&◌, if◌then◌else◌, any, not,
}

unfoldable pub is_dead_now : LifeStatus → Bool
is_dead_now active = false
is_dead_now dead = true

unfoldable pub fill_kind : Side → String
fill_kind buy = "BROKER_BUY_FILL"
fill_kind sell = "BROKER_SELL_FILL"

unfoldable pub capital_exhausted_reason : String
capital_exhausted_reason = "SURVIVAL_CAPITAL_EXHAUSTED"

module _ (d : Decimal) where
  unfoldable pub is_position_of : String → String → BotPosition d.Carrier → Bool
  is_position_of bot_id symbol p = str_eq p.bot_id bot_id && str_eq p.symbol symbol

  unfoldable pub find_position :
      String → String → List (BotPosition d.Carrier) → Option (BotPosition d.Carrier)
  unfolding is_position_of
  find_position bot_id symbol = find (is_position_of bot_id symbol)

  unfoldable pub held_quantity : Option (BotPosition d.Carrier) → d.Carrier
  held_quantity none = d.zero_value
  held_quantity (some p) = p.quantity

  unfoldable pub previous_cost : Option (BotPosition d.Carrier) → d.Carrier
  previous_cost none = d.zero_value
  previous_cost (some p) = d.mul p.quantity p.average_entry_price

  -- `order.fills.reduce((total, fill) => total.plus(fill.quantity), 0)`
  unfoldable pub recorded_from : d.Carrier → List (Fill d.Carrier) → d.Carrier
  recorded_from total [] = total
  recorded_from total (fill ∷ fills) = recorded_from (d.plus total fill.quantity) fills

  unfoldable pub already_recorded : String → List (Fill d.Carrier) → d.Carrier
  unfolding recorded_from
  already_recorded order_id fills =
      recorded_from d.zero_value (keep (λ (f : Fill d.Carrier). str_eq f.order_id order_id) fills)

  -- What the broker reports beyond the fills that are recorded.
  pub record Movement : Type 0 where
    pub filled : d.Carrier
    pub fill_price : Text
    pub delta : d.Carrier
    pub has_fill : Bool
    pub position : Option (BotPosition d.Carrier)

  unfoldable pub movement_of :
      BrokerReport
      → SyncOrder
      → ProposalRow d.Carrier
      → Books d.Carrier
      → BotRow d.Carrier
      → Result Movement
  movement_of report order proposal books bot = do
    filled ← money d (get_or report.filled_quantity (literal "0"))
    ok (record {
      filled = filled;
      fill_price = get_or report.filled_average_price (d.to_text proposal.estimated_price);
      delta = d.minus filled (already_recorded order.id books.fills);
      has_fill = d.lt d.zero_value filled;
      position = find_position bot.id proposal.symbol books.positions;
    })

  unfoldable pub profit : Side → Bool → Movement → Option (BotPosition d.Carrier) → Result d.Carrier
  profit sell true m (some p) = do
    price ← money d m.fill_price
    ok (d.mul m.delta (d.minus price p.average_entry_price))
  profit _ _ m _ = ok d.zero_value

  unfoldable pub realized_pnl : Side → Movement → Result d.Carrier
  unfolding profit
  realized_pnl action m = profit action (d.lt d.zero_value m.delta) m m.position

  -- `tx.fill.create`
  unfoldable pub add_fill :
      Bool
      → String
      → String
      → d.Carrier
      → Movement
      → List (Fill d.Carrier)
      → Result (List (Fill d.Carrier))
  add_fill false order_id bot_id pnl m fills = ok fills
  add_fill true order_id bot_id pnl m fills = do
    price ← money d m.fill_price
    ok (
        fills
        ++ record {
          order_id = order_id;
          bot_id = bot_id;
          quantity = d.to_places 12 m.delta;
          price = d.to_places 12 price;
          realized_pnl = d.to_places 12 pnl;
        }
          ∷ [])

  -- `botPosition.upsert`
  unfoldable pub put_position :
      BotPosition d.Carrier → List (BotPosition d.Carrier) → List (BotPosition d.Carrier)
  unfolding is_position_of
  put_position new positions =
      if any (is_position_of new.bot_id new.symbol) positions
      then update_rows (is_position_of new.bot_id new.symbol)
          (λ p. record p { quantity = new.quantity; average_entry_price = new.average_entry_price })
          positions
      else positions ++ new ∷ []

  unfoldable pub is_zero : d.Carrier → Bool
  is_zero a = d.lte a d.zero_value && d.lte d.zero_value a

  -- The position after a fill: what is left of it, and the table.
  unfoldable pub move_position :
      Side
      → String
      → String
      → Movement
      → List (BotPosition d.Carrier)
      → Result (d.Carrier × List (BotPosition d.Carrier))
  unfolding put_position is_position_of held_quantity previous_cost is_zero
  move_position buy bot_id symbol m positions = do
    price ← money d m.fill_price
    let quantity = d.plus (held_quantity m.position) m.filled
    let average = d.div (d.plus (previous_cost m.position) (d.mul m.filled price)) quantity
    ok (
      quantity,
      put_position
          (record {
            bot_id = bot_id;
            symbol = symbol;
            quantity = d.to_places 12 quantity;
            average_entry_price = d.to_places 12 average;
          })
          positions,
    )
  move_position sell bot_id symbol m positions =
      let quantity = max_value d d.zero_value (d.minus (held_quantity m.position) m.filled) in
      ok (
        quantity,
        if is_zero quantity
            then keep (λ p. not (is_position_of bot_id symbol p)) positions
            else update_rows (is_position_of bot_id symbol)
                (λ p. record p { quantity = d.to_places 12 quantity }) positions,
      )

  -- The capital, the reservation and the life of the bot, and its capital event's amount.
  unfoldable pub account_of :
      Bool → ProposalRow d.Carrier → BotRow d.Carrier → Movement → d.Carrier → Result FillResult
  account_of true proposal bot m remaining = apply_bot_fill (record {
    action = proposal.action;
    current_capital = d.to_text bot.current_capital;
    reserved_capital = d.to_text bot.reserved_capital;
    fill_quantity = d.to_text m.filled;
    fill_price = m.fill_price;
    reserved_for_order = d.to_text proposal.reservation_amount;
    remaining_position_quantity = some (d.to_text remaining);
  })
  account_of false proposal bot m remaining = do
    account ← release_bot_reservation (record {
      current_capital = d.to_text bot.current_capital;
      reserved_capital = d.to_text bot.reserved_capital;
      reserved_for_order = d.to_text proposal.reservation_amount;
    })
    ok (record {
      current_capital = account.current_capital;
      reserved_capital = account.reserved_capital;
      life_status = bot.life_status;
    })

  unfoldable pub moved :
      Bool
      → Side
      → String
      → String
      → Movement
      → List (BotPosition d.Carrier)
      → Result (d.Carrier × List (BotPosition d.Carrier))
  unfolding held_quantity
  moved true action bot_id symbol m positions = move_position action bot_id symbol m positions
  moved false action bot_id symbol m positions = ok (held_quantity m.position, positions)

  unfoldable pub event_amount : Bool → Movement → Result d.Carrier
  event_amount false m = ok d.zero_value
  event_amount true m = do price ← money d m.fill_price; ok (d.mul m.filled price)

  unfoldable pub settled_bot : Bool → d.Carrier → d.Carrier → BotRow d.Carrier → BotRow d.Carrier
  settled_bot is_dead current reserved bot =
      let paid = record bot { current_capital = current; reserved_capital = reserved } in
      if is_dead then killed paid else paid

  -- `proposal.action === SELL && delta.gt(0) && realizedPnl.lt(0)`
  unfoldable pub lost_on_sale : Side → Movement → d.Carrier → Bool
  lost_on_sale buy m pnl = false
  lost_on_sale sell m pnl = d.lt d.zero_value m.delta && d.lt pnl d.zero_value

  unfoldable pub book_terminal :
      BrokerReport → SyncOrder → ProposalRow d.Carrier → Books d.Carrier → Result (Books d.Carrier)
  unfolding add_fill moved account_of event_amount settled_bot lost_on_sale is_dead_now
  book_terminal report order proposal books = do
    bot ← or_throw (find_bot proposal.bot_id books.bots) "NotFoundError"
    m ← movement_of report order proposal books bot
    pnl ← realized_pnl proposal.action m
    fills ← add_fill (d.lt d.zero_value m.delta) order.id bot.id pnl m books.fills
    position ← moved m.has_fill proposal.action bot.id proposal.symbol m books.positions
    account ← account_of m.has_fill proposal bot m position.0
    current ← money d account.current_capital
    reserved ← money d account.reserved_capital
    amount ← event_amount m.has_fill m
    let is_dead = is_dead_now account.life_status
    ok (record {
      bots =
          update_bot bot.id (settled_bot is_dead (d.to_places 12 current) (d.to_places 12 reserved))
            books.bots;
      positions = position.1;
      fills = fills;
      proposals =
          update_rows (λ (p : ProposalRow d.Carrier). str_eq p.id proposal.id)
            (λ p. record p { status = proposal_status report.status }) books.proposals;
      capital_events =
          books.capital_events
          ++ record {
            bot_id = bot.id;
            kind = if m.has_fill then fill_kind proposal.action else "ORDER_RESERVATION_RELEASED";
            amount = d.to_places 12 amount;
            balance_after = d.to_places 12 current;
          }
            ∷ [];
      state_transitions =
          if is_dead
          then books.state_transitions
            ++ record {
              bot_id = bot.id;
              from_state = bot.status;
              to_state = paused;
              reason = capital_exhausted_reason;
            }
              ∷ []
          else books.state_transitions;
      mode_transitions =
          if is_dead
          then books.mode_transitions
            ++ record {
              bot_id = bot.id;
              from_mode = bot.run_mode;
              to_mode = off;
              reason = capital_exhausted_reason;
            }
              ∷ []
          else books.mode_transitions;
      learning =
          if lost_on_sale proposal.action m pnl
          then books.learning ++ (bot.id, proposal.symbol) ∷ []
          else books.learning;
    })

  unfoldable pub reconcile_bot_order : BrokerReport → SyncDb d.Carrier → Result (SyncDb d.Carrier)
  reconcile_bot_order report db =
      reconcile_order d book_terminal report (find_order report.client_order_id db.orders) db
