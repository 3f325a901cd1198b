-- ===== src/Risk/Engine/Safety.antt =====
-- An independent description of a safe trade, for `assessRisk` of src/modules/risk/risk-engine.ts: what
-- the texts of the proposal, the context and the policy read as, and how the amounts compare.
use braiker.Domain.{buy, sell, market, limit, running, OrderType, Side}
use braiker.Decimal.{Decimal, money, max_value}
use braiker.Risk.Types.{Proposal, BrokerPosition, RiskPolicy, RiskContext, MacroGuardState}
use braiker.Prelude.{List, [], ◌∷◌, some, Bool, true, false, ◌≡◌, String, str_eq, ◌⊎◌, any, ◌<◌}
use braiker.Prelude.Text.{Text}
use braiker.Prelude.Result.{ok}

module _ (d : Decimal) where
  abbrev pub Reads : Text → d.Carrier → Type 0
  Reads t value = money d t ≡ ok value

  abbrev pub IsPositive : Text → Type 0
  IsPositive t = (value : d.Carrier) × Reads t value × (d.lt d.zero_value value ≡ true)

  -- The result lies above the loss that is allowed.
  abbrev pub IsAboveLoss : Text → Text → Type 0
  IsAboveLoss pnl most =
      (result : d.Carrier) × (loss : d.Carrier) × Reads pnl result
      × Reads most loss
      × (d.lt (d.negated loss) result ≡ true)

  -- A market order is valued above its estimate, a limit order at its limit.
  abbrev pub IsPrice : OrderType → Proposal → RiskPolicy → d.Carrier → Type 0
  IsPrice market proposal policy price =
      (estimate : d.Carrier) × (buffer : d.Carrier) × Reads proposal.estimated_price estimate
      × Reads policy.market_order_buffer_pct buffer
      × (d.mul estimate (d.plus d.one_value buffer) ≡ price)
  IsPrice limit proposal policy price = (t : Text) × (proposal.limit_price ≡ some t) × Reads t price

  abbrev pub Costs : Proposal → RiskPolicy → d.Carrier → Type 0
  Costs proposal policy cost =
      (price : d.Carrier) × (quantity : d.Carrier) × IsPrice proposal.order_type proposal policy
        price
      × Reads proposal.quantity quantity
      × (d.mul quantity price ≡ cost)

  abbrev pub HasSize : BrokerPosition → d.Carrier → Type 0
  HasSize position size =
      (value : d.Carrier) × Reads position.market_value value × (d.abs_value value ≡ size)

  -- The size of the first position in the symbol.
  abbrev pub Holds : String → List BrokerPosition → d.Carrier → Type 0
  Holds symbol [] held = d.zero_value ≡ held
  Holds symbol (position ∷ positions) held =
      ((str_eq position.symbol symbol ≡ true) × HasSize position held)
      ⊎ ((str_eq position.symbol symbol ≡ false) × Holds symbol positions held)

  -- The sizes of all positions, added up from the first.
  abbrev pub Adds : d.Carrier → List BrokerPosition → d.Carrier → Type 0
  Adds sum [] exposure = sum ≡ exposure
  Adds sum (position ∷ positions) exposure =
      (value : d.Carrier) × Reads position.market_value value
      × Adds (d.plus sum (d.abs_value value)) positions exposure

  -- Whether a position has the quantity that is sold.
  abbrev pub HasQuantity : Proposal → BrokerPosition → Bool → Type 0
  HasQuantity proposal position enough =
      (held : d.Carrier) × (sold : d.Carrier) × Reads position.quantity held
      × Reads proposal.quantity sold
      × (d.lte sold held ≡ enough)

  -- Some position in the symbol has what is sold; those before it are of others or have less.
  abbrev pub Covers : Proposal → List BrokerPosition → Type 0
  Covers proposal [] = true ≡ false
  Covers proposal (position ∷ positions) =
      ((str_eq position.symbol proposal.symbol ≡ true) × HasQuantity proposal position true)
      ⊎ ((str_eq position.symbol proposal.symbol ≡ true)
          × HasQuantity proposal position false
          × Covers proposal positions)
      ⊎ ((str_eq position.symbol proposal.symbol ≡ false) × Covers proposal positions)

  -- What an order makes of an amount: a purchase adds its cost, a sale takes it off, down to zero.
  abbrev pub After : Side → d.Carrier → d.Carrier → d.Carrier → Type 0
  After buy amount cost after = d.plus amount cost ≡ after
  After sell amount cost after = max_value d d.zero_value (d.minus amount cost) ≡ after

  -- An amount that the order changes stays within a limit.
  abbrev pub StaysWithin : Proposal → RiskPolicy → (d.Carrier → Type 0) → Text → Type 0
  StaysWithin proposal policy IsAmount most =
      (cost : d.Carrier) × (amount : d.Carrier) × (after : d.Carrier) × (bound : d.Carrier) × Costs
        proposal policy cost
      × IsAmount amount
      × After proposal.action amount cost after
      × Reads most bound
      × (d.lte after bound ≡ true)

  -- The order's cost is covered by an amount.
  abbrev pub IsAffordable : Proposal → RiskPolicy → Text → Type 0
  IsAffordable proposal policy available =
      (cost : d.Carrier) × (bound : d.Carrier) × Costs proposal policy cost
      × Reads available bound
      × (d.lte cost bound ≡ true)

  -- A trade that may be sent to the broker, condition by condition. The bot's budget, macro events
  -- and cash bind only purchases, and the short-sale rule only sales.
  pub record Safe (proposal : Proposal) (context : RiskContext) (policy : RiskPolicy) : Type 0 where
    pub switch_off : context.kill_switch ≡ false
    pub bot_runs : context.bot_status ≡ running
    pub market_opens : context.market_open ≡ true
    pub no_macro_event :
        (guard : MacroGuardState)
        → proposal.action ≡ buy
        → context.macro_guard ≡ some guard
        → guard.is_active ≡ false
    pub is_fresh : context.data_fresh ≡ true
    pub is_healthy : context.account_healthy ≡ true
    pub not_blocked : context.account.trading_blocked ≡ false
    pub some_quantity : IsPositive proposal.quantity
    pub some_price : IsPositive proposal.estimated_price
    pub some_limit :
        proposal.order_type ≡ limit
        → (price : Text) × (proposal.limit_price ≡ some price) × IsPositive price
    pub holds_what_it_sells :
        proposal.action ≡ sell → policy.allow_shorting ≡ false → Covers proposal context.positions
    pub none_pending : any (str_eq proposal.symbol) context.pending_symbols ≡ false
    pub trades_left : context.trades_today < policy.max_trades_per_day
    pub within_daily_loss : IsAboveLoss context.daily_pnl policy.max_daily_loss
    pub within_weekly_loss : IsAboveLoss context.weekly_pnl policy.max_weekly_loss
    pub position_fits :
        StaysWithin proposal policy
          (Holds proposal.symbol context.positions)
          policy.max_position_size
    pub exposure_fits :
        StaysWithin proposal policy
          (Adds d.zero_value context.positions)
          policy.max_portfolio_exposure
    pub within_budget :
        proposal.action ≡ buy → IsAffordable proposal policy context.bot_capital_available
    pub within_cash : proposal.action ≡ buy → IsAffordable proposal policy context.account.cash
