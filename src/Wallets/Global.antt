-- ===== src/Wallets/Global.antt =====
-- The global pool and the wallets that it funds: src/app/api/wallets/[walletId]/capital/route.ts,
-- src/app/api/wallets/route.ts and src/app/api/settings/paper-capital/route.ts.
pub mod Balanced
use braiker.Prelude.Result.{Result, ok, throw, ◌>>=◌, ◌>>◌, or_throw, throw_if, or_else}
use braiker.Prelude.{ℕ, true, false, String, not, find, some, List, ◌++◌, ◌∷◌, []}
use braiker.Prelude.Text.{Text, literal}
use braiker.Decimal.{Decimal, money}
use braiker.Bots.Control.{throw_some}
use braiker.Capital.Policy.{Direction, add, withdraw}
use braiker.Wallets.Pool.{validate_paper_capital_pool, validate_virtual_wallet_capital_adjustment}
use braiker.Wallets.Transfers.{
  WalletRow, PaperCapitalPool, CapitalDb, not_found, is_wallet, has_unallocated, incremented,
  decremented, adjust_bot_capital, BotCapitalRequest,
}
use braiker.Prelude.Table.{update_one}

pub record WalletCapitalRequest : Type 0 where
  pub wallet_id : String
  pub direction : Direction
  pub amount : Text

-- The user's texts, and the id that the schema's default makes.
pub record NewWallet : Type 0 where
  pub id : String
  pub name : String
  pub managed_capital : Text

module _ (d : Decimal) where
  unfoldable pub draws_from_pool :
      d.Carrier → PaperCapitalPool d.Carrier → PaperCapitalPool d.Carrier
  draws_from_pool amount pool = record pool {
    unallocated_capital = decremented d amount pool.unallocated_capital;
  }

  unfoldable pub returns_to_pool :
      d.Carrier → PaperCapitalPool d.Carrier → PaperCapitalPool d.Carrier
  returns_to_pool amount pool = record pool {
    unallocated_capital = incremented d amount pool.unallocated_capital;
  }

  -- `updateMany({ where: { scope, unallocatedCapital: { gte: amount } } })` whose count must be 1
  unfoldable pub reserve_from_pool :
      d.Carrier → PaperCapitalPool d.Carrier → Result (PaperCapitalPool d.Carrier)
  reserve_from_pool amount pool = do
    throw_if (not (d.lte amount pool.unallocated_capital)) "INSUFFICIENT_PAPER_CAPITAL"
    ok (draws_from_pool amount pool)

  unfoldable pub funds_wallet : d.Carrier → WalletRow d.Carrier → WalletRow d.Carrier
  funds_wallet amount wallet = record wallet {
    managed_capital = incremented d amount wallet.managed_capital;
    unallocated_capital = incremented d amount wallet.unallocated_capital;
  }

  unfoldable pub draws_from_wallet : d.Carrier → WalletRow d.Carrier → WalletRow d.Carrier
  draws_from_wallet amount wallet = record wallet {
    managed_capital = decremented d amount wallet.managed_capital;
    unallocated_capital = decremented d amount wallet.unallocated_capital;
  }

  -- The two updates, in the order of the direction.
  unfoldable pub move_wallet_capital :
      Direction
      → String
      → d.Carrier
      → List (WalletRow d.Carrier)
      → PaperCapitalPool d.Carrier
      → Result (List (WalletRow d.Carrier) × PaperCapitalPool d.Carrier)
  move_wallet_capital add wallet_id amount wallets pool = do
    reserved ← reserve_from_pool amount pool
    funded ← update_one (is_wallet wallet_id) (funds_wallet amount) not_found wallets
    ok (funded, reserved)
  move_wallet_capital withdraw wallet_id amount wallets pool = do
    released ←
        update_one (has_unallocated d wallet_id amount) (draws_from_wallet amount)
          "WALLET_CAPITAL_ASSIGNED_TO_BOTS" wallets
    ok (released, returns_to_pool amount pool)

  unfoldable pub adjust_wallet_capital :
      WalletCapitalRequest → CapitalDb d.Carrier → Result (CapitalDb d.Carrier)
  adjust_wallet_capital request db = do
    amount ← money d request.amount
    wallet ← or_throw (find (is_wallet request.wallet_id) db.wallets) not_found
    pool ← or_throw db.pool not_found
    validation ← validate_virtual_wallet_capital_adjustment d (record {
      direction = request.direction;
      wallet_unallocated_capital = d.to_text wallet.unallocated_capital;
      global_available_capital = d.to_text pool.unallocated_capital;
      amount = request.amount;
    })
    throw_some validation
    moved ← move_wallet_capital request.direction wallet.id amount db.wallets pool
    ok (record db { wallets = moved.0; pool = some moved.1 })

  unfoldable pub create_wallet : NewWallet → CapitalDb d.Carrier → Result (CapitalDb d.Carrier)
  create_wallet new db = do
    managed_capital ← money d new.managed_capital
    throw_if (d.lte managed_capital d.zero_value) "INVALID_VIRTUAL_CAPITAL"
    pool ← or_throw db.pool "INSUFFICIENT_PAPER_CAPITAL"
    reserved ← reserve_from_pool managed_capital pool
    ok (record db {
      pool = some reserved;
      wallets =
          db.wallets
          ++ record {
            id = new.id;
            name = new.name;
            managed_capital = d.to_places 12 managed_capital;
            unallocated_capital = d.to_places 12 managed_capital;
          }
            ∷ [];
    })

  -- The second half of the request: `read` is the row that it read first. Between the two it waits
  -- for the broker, and other requests may have changed the table; the update tests nothing of it.
  unfoldable pub set_paper_capital :
      Text → Text → PaperCapitalPool d.Carrier → CapitalDb d.Carrier → Result (CapitalDb d.Carrier)
  set_paper_capital managed_capital broker_cash read db = do
    let allocated = d.minus read.managed_capital read.unallocated_capital
    refused ← validate_paper_capital_pool d (record {
      managed_capital = managed_capital;
      allocated_capital = d.to_text allocated;
      requested_wallet_capital = literal "0";
      broker_cash = broker_cash;
    })
    throw_some refused
    next ← money d managed_capital
    pool ← or_throw db.pool not_found
    ok (record db {
      pool = some (record pool {
        managed_capital = d.to_places 12 next;
        unallocated_capital = d.to_places 12 (d.minus next allocated);
      });
    })

-- The requests of the other routes, each a transaction, and the update of the pool under the row
-- that its own request has read.
pub data Transfer (A : Type 0) : Type 0 where
  bot_capital : BotCapitalRequest → Transfer A
  wallet_capital : WalletCapitalRequest → Transfer A
  new_wallet : NewWallet → Transfer A
  paper_capital : Text → Text → PaperCapitalPool A → Transfer A

module _ (d : Decimal) where
  unfoldable pub transfer : Transfer d.Carrier → CapitalDb d.Carrier → Result (CapitalDb d.Carrier)
  transfer (bot_capital request) db = adjust_bot_capital d request db
  transfer (wallet_capital request) db = adjust_wallet_capital d request db
  transfer (new_wallet new) db = create_wallet d new db
  transfer (paper_capital managed_capital broker_cash read) db =
      set_paper_capital d managed_capital broker_cash read db

  -- The steps one after another; one that throws changes nothing.
  unfoldable pub transfers : List (Transfer d.Carrier) → CapitalDb d.Carrier → CapitalDb d.Carrier
  transfers [] db = db
  transfers (t ∷ ts) db = transfers ts (or_else (transfer t db) db)
