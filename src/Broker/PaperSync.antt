-- ===== src/Broker/PaperSync.antt =====
-- src/modules/broker/paper-sync.ts: `reconcileBotOrder`, in a transaction that holds the order's and
-- the bot's row locks, so one step on the tables; a throw rolls it back. The call of
-- `proposeLearningFromLoss` is recorded. Dates, raw payloads and event metadata are left out.
pub mod Account
pub mod Once
use mathlib.Core.Option
use braiker.Domain.{Side, buy, sell}
use braiker.Decimal.{Decimal, money}
use braiker.Bots.Row.{BotRow, find_bot}
use braiker.Bots.Death.{StatusChange, ModeChange}
use braiker.Decision.Service.{ProposalRow, ProposalStatus}
use braiker.Decision.Service
use braiker.Capital.OperatingCost.Charge.{BotPosition, CapitalEvent}
use braiker.Execution.Worker.{OrderStatus}
use braiker.Execution.Worker
use braiker.Prelude.Result.{Result, ok, throw, ◌>>=◌, or_throw}
use braiker.Prelude.Text.{Text, literal}
use braiker.Prelude.Table.{update_rows}
use braiker.Prelude.{
  List, [], ◌∷◌, Option, none, some, Bool, true, false, ℕ, zero, suc, ◌≡◌, refl, arith, inl, inr,
  String, find, if◌then◌else◌, any, str_eq, ◌&&◌, length, ◌||◌, not, keep, ◌==◌,
}

pub record BrokerReport : Type 0 where
  pub id : String
  pub client_order_id : String
  pub status : String
  pub filled_quantity : Option Text
  pub filled_average_price : Option Text

pub record SyncOrder : Type 0 where
  pub id : String
  pub client_order_id : String
  pub proposal_id : String
  pub status : OrderStatus
  -- `reservationReleasedAt` is set
  pub reservation_released : Bool

pub record Fill (A : Type 0) : Type 0 where
  pub order_id : String
  pub bot_id : String
  pub quantity : A
  pub price : A
  pub realized_pnl : A

-- The tables that a reconciliation books in.
pub record Books (A : Type 0) : Type 0 where
  pub bots : List (BotRow A)
  pub positions : List (BotPosition A)
  pub fills : List (Fill A)
  pub proposals : List (ProposalRow A)
  pub capital_events : List (CapitalEvent A)
  pub state_transitions : List StatusChange
  pub mode_transitions : List ModeChange
  -- The bots and symbols of `proposeLearningFromLoss`.
  pub learning : List (String × String)

pub record SyncDb (A : Type 0) : Type 0 where
  pub orders : List SyncOrder
  pub books : Books A

unfoldable pub order_status : String → OrderStatus
order_status status =
    if str_eq status "filled"
    then OrderStatus.filled
    else if str_eq status "partially_filled"
    then OrderStatus.partially_filled
    else if str_eq status "canceled" || str_eq status "expired"
    then OrderStatus.canceled
    else if str_eq status "rejected"
    then OrderStatus.rejected
    else if str_eq status "new" || str_eq status "accepted"
    then OrderStatus.new
    else OrderStatus.pending

-- `terminalOrderStatuses.has(status)`
unfoldable pub is_terminal : String → Bool
is_terminal status = any (str_eq status) ("filled" ∷ "canceled" ∷ "expired" ∷ "rejected" ∷ [])

-- `status === "filled" ? "FILLED" : status === "rejected" ? "REJECTED" : "CANCELED"`
unfoldable pub proposal_status : String → ProposalStatus
proposal_status status =
    if str_eq status "filled"
    then ProposalStatus.filled
    else if str_eq status "rejected"
    then ProposalStatus.rejected
    else ProposalStatus.canceled

unfoldable pub find_order : String → List SyncOrder → Option SyncOrder
find_order client_order_id =
    find (λ (order : SyncOrder). str_eq order.client_order_id client_order_id)

unfoldable pub has_order_id : String → SyncOrder → Bool
has_order_id id order = str_eq order.id id

unfoldable pub with_status : String → SyncOrder → SyncOrder
with_status status order = record order { status = order_status status }

-- `order.update({ where: { id }, data: { status } })`
unfoldable pub update_status : String → String → List SyncOrder → List SyncOrder
unfolding has_order_id with_status
update_status id status = update_rows (has_order_id id) (with_status status)

unfoldable pub can_release : String → SyncOrder → Bool
unfolding has_order_id
can_release id order = has_order_id id order && not order.reservation_released

unfoldable pub released : SyncOrder → SyncOrder
released order = record order { reservation_released = true }

-- The conditional claim of the terminal accounting.
unfoldable pub claim_release : String → List SyncOrder → List SyncOrder
unfolding can_release released
claim_release id = update_rows (can_release id) released

unfoldable pub claims : String → List SyncOrder → Bool
unfolding can_release
claims id orders = length (keep (can_release id) orders) == 1

module _ (d : Decimal)
    (book : BrokerReport
      → SyncOrder
      → ProposalRow d.Carrier
      → Books d.Carrier
      → Result (Books d.Carrier)) where
  -- The branches from the terminal status on. `book` is the accounting of the one claimant.
  unfoldable pub reconcile_terminal :
      Bool
      → BrokerReport
      → SyncOrder
      → ProposalRow d.Carrier
      → SyncDb d.Carrier
      → Result (SyncDb d.Carrier)
  reconcile_terminal false report order proposal db = ok (record db {
    orders = update_status order.id report.status (claim_release order.id db.orders);
  })
  reconcile_terminal true report order proposal db = do
    books ← book report order proposal db.books
    ok (record {
      orders = update_status order.id report.status (claim_release order.id db.orders);
      books = books;
    })

  unfoldable pub reconcile_found :
      Bool
      → BrokerReport
      → SyncOrder
      → ProposalRow d.Carrier
      → SyncDb d.Carrier
      → Result (SyncDb d.Carrier)
  reconcile_found false report order proposal db =
      ok (record db { orders = update_status order.id report.status db.orders })
  reconcile_found true report order proposal db =
      reconcile_terminal (claims order.id db.orders) report order proposal db

  unfoldable pub reconcile_with_proposal :
      BrokerReport
      → SyncOrder
      → Option (ProposalRow d.Carrier)
      → SyncDb d.Carrier
      → Result (SyncDb d.Carrier)
  reconcile_with_proposal report order none db = ok db
  reconcile_with_proposal report order (some proposal) db =
      reconcile_found (is_terminal report.status) report order proposal db

  unfoldable pub reconcile_order :
      BrokerReport → Option SyncOrder → SyncDb d.Carrier → Result (SyncDb d.Carrier)
  reconcile_order report none db = ok db
  reconcile_order report (some order) db =
      reconcile_with_proposal report order
        (find (λ (p : ProposalRow d.Carrier). str_eq p.id order.proposal_id) db.books.proposals) db
