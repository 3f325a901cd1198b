-- ===== src/Wallets/Transfers.antt =====
-- The routes that move capital: src/app/api/bots/[botId]/capital/route.ts,
-- src/app/api/wallets/[walletId]/capital/route.ts, src/app/api/wallets/route.ts and
-- src/app/api/settings/paper-capital/route.ts. A transaction is one step; a throw rolls it back.
pub mod Totals
pub mod Conserves
use braiker.Prelude.Result.{Result, ok, throw, ◌>>=◌, ◌>>◌, or_throw, throw_if}
use braiker.Decimal.{Decimal, money}
use braiker.Domain.{is_active}
use braiker.Bots.Row.{BotRow}
use braiker.Bots.Control.{is_dead, throw_some}
use braiker.Capital.Policy.{
  Direction, add, withdraw, CapitalError, validate_capital_adjustment, invalid_bot_budget,
  insufficient_unallocated_capital, invalid_capital_adjustment, withdrawal_must_leave_capital,
}
use braiker.Capital.OperatingCost.Charge.{CapitalEvent}
use braiker.Wallets.Pool.{validate_paper_capital_pool, validate_virtual_wallet_capital_adjustment}
use braiker.Prelude.{ℕ, String, List, Bool, Option, str_eq, ◌&&◌, find, not, ◌++◌, ◌∷◌, []}
use braiker.Prelude.Text.{Text, literal}
use braiker.Prelude.Table.{update_one}
use mathlib.Core.Option

pub record WalletRow (A : Type 0) : Type 0 where
  pub id : String
  pub name : String
  pub managed_capital : A
  pub unallocated_capital : A

pub record PaperCapitalPool (A : Type 0) : Type 0 where
  pub managed_capital : A
  pub unallocated_capital : A

-- `pool` is the row of the scope "global".
pub record CapitalDb (A : Type 0) : Type 0 where
  pub bots : List (BotRow A)
  pub wallets : List (WalletRow A)
  pub pool : Option (PaperCapitalPool A)
  pub capital_events : List (CapitalEvent A)

pub record BotCapitalRequest : Type 0 where
  pub bot_id : String
  pub direction : Direction
  pub amount : Text

pub record WalletCapitalRequest : Type 0 where
  pub wallet_id : String
  pub direction : Direction
  pub amount : Text

unfoldable pub capital_error_name : CapitalError → String
capital_error_name invalid_bot_budget = "INVALID_BOT_BUDGET"
capital_error_name insufficient_unallocated_capital = "INSUFFICIENT_UNALLOCATED_CAPITAL"
capital_error_name invalid_capital_adjustment = "INVALID_CAPITAL_ADJUSTMENT"
capital_error_name withdrawal_must_leave_capital = "WITHDRAWAL_MUST_LEAVE_CAPITAL"

-- What `findUniqueOrThrow` and `update` throw on a missing row.
abbrev pub not_found : String
not_found = "P2025"

module _ {A : Type 0} where
  abbrev pub is_bot : String → BotRow A → Bool
  is_bot id bot = str_eq bot.id id

  abbrev pub is_wallet : String → WalletRow A → Bool
  is_wallet id wallet = str_eq wallet.id id

module _ (d : Decimal) where
  -- `{ increment: amount }` and `{ decrement: amount }` of a DECIMAL(28, 12) column
  unfoldable pub incremented : d.Carrier → d.Carrier → d.Carrier
  incremented amount column = d.to_places 12 (d.plus column amount)

  unfoldable pub decremented : d.Carrier → d.Carrier → d.Carrier
  decremented amount column = d.to_places 12 (d.minus column amount)

  unfoldable pub is_zero : d.Carrier → Bool
  is_zero amount = d.lte amount d.zero_value && d.lte d.zero_value amount

  unfoldable pub funds_bot : d.Carrier → BotRow d.Carrier → BotRow d.Carrier
  funds_bot amount bot = record bot {
    current_capital = incremented amount bot.current_capital;
    initial_capital = incremented amount bot.initial_capital;
  }

  unfoldable pub draws_from_bot : d.Carrier → BotRow d.Carrier → BotRow d.Carrier
  draws_from_bot amount bot = record bot {
    current_capital = decremented amount bot.current_capital;
  }

  -- `{ id, lifeStatus: "ACTIVE", currentCapital: { gt: amount }, reservedCapital: 0 }`
  unfoldable pub may_draw : String → d.Carrier → BotRow d.Carrier → Bool
  may_draw id amount bot =
      is_bot id bot
      && is_active bot.life_status
      && d.lt amount bot.current_capital
      && is_zero bot.reserved_capital

  -- `{ id, unallocatedCapital: { gte: amount } }`
  unfoldable pub has_unallocated : String → d.Carrier → WalletRow d.Carrier → Bool
  has_unallocated id amount wallet = is_wallet id wallet && d.lte amount wallet.unallocated_capital

  unfoldable pub assigns : d.Carrier → WalletRow d.Carrier → WalletRow d.Carrier
  assigns amount wallet = record wallet {
    unallocated_capital = decremented amount wallet.unallocated_capital;
  }

  unfoldable pub unassigns : d.Carrier → WalletRow d.Carrier → WalletRow d.Carrier
  unassigns amount wallet = record wallet {
    unallocated_capital = incremented amount wallet.unallocated_capital;
  }

  -- The two updates of a bot's adjustment, in the order of the direction.
  unfoldable pub move_bot_capital :
      Direction
      → String
      → String
      → d.Carrier
      → CapitalDb d.Carrier
      → Result (List (BotRow d.Carrier) × List (WalletRow d.Carrier))
  move_bot_capital add bot_id wallet_id amount db = do
    wallets ←
        update_one (has_unallocated wallet_id amount) (assigns amount)
          "INSUFFICIENT_UNALLOCATED_CAPITAL" db.wallets
    bots ← update_one (is_bot bot_id) (funds_bot amount) not_found db.bots
    ok (bots, wallets)
  move_bot_capital withdraw bot_id wallet_id amount db = do
    bots ←
        update_one (may_draw bot_id amount) (draws_from_bot amount) "WITHDRAWAL_MUST_LEAVE_CAPITAL"
          db.bots
    wallets ← update_one (is_wallet wallet_id) (unassigns amount) not_found db.wallets
    ok (bots, wallets)

  unfoldable pub event_of : Direction → d.Carrier → BotRow d.Carrier → CapitalEvent d.Carrier
  event_of add amount bot = record {
    bot_id = bot.id;
    kind = "TOP_UP";
    amount = d.to_places 12 amount;
    balance_after = bot.current_capital;
  }
  event_of withdraw amount bot = record {
    bot_id = bot.id;
    kind = "WITHDRAWAL";
    amount = d.to_places 12 (d.negated amount);
    balance_after = bot.current_capital;
  }

  -- What follows once the bot and its wallet are found.
  unfoldable pub adjust_found_bot :
      BotCapitalRequest
      → d.Carrier
      → BotRow d.Carrier
      → WalletRow d.Carrier
      → CapitalDb d.Carrier
      → Result (CapitalDb d.Carrier)
  adjust_found_bot request amount bot wallet db = do
    throw_some (
        Option.map capital_error_name (
          validate_capital_adjustment (record {
            direction = request.direction;
            wallet_unallocated_capital = d.to_text wallet.unallocated_capital;
            bot_current_capital = d.to_text bot.current_capital;
            amount = request.amount;
          })))
    moved ← move_bot_capital request.direction bot.id wallet.id amount db
    updated ← or_throw (find (is_bot bot.id) moved.0) not_found
    ok (record db {
      bots = moved.0;
      wallets = moved.1;
      capital_events = db.capital_events ++ event_of request.direction amount updated ∷ [];
    })

  unfoldable pub adjust_bot_capital :
      BotCapitalRequest → CapitalDb d.Carrier → Result (CapitalDb d.Carrier)
  adjust_bot_capital request db = do
    amount ← money d request.amount
    bot ← or_throw (find (is_bot request.bot_id) db.bots) not_found
    throw_if (is_dead bot.life_status) "DEAD_BOT_HISTORY_IS_IMMUTABLE"
    throw_if (not (is_zero bot.reserved_capital)) "CAPITAL_RESERVED_BY_OPEN_ORDER"
    wallet ← or_throw (find (is_wallet bot.wallet_id) db.wallets) not_found
    adjust_found_bot request amount bot wallet db
