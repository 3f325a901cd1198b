-- ===== src/Risk/Engine.antt =====
-- src/modules/risk/risk-engine.ts: `assessRisk`. Each check is a computation that may throw, since
-- it parses decimal texts; they run in the order of the source.
pub mod Checks
pub mod Accepted
pub mod Safety
pub mod Conditions
pub mod Safe
use braiker.Domain.{
  is_buy, is_running, Side, buy, sell, OrderType, market, limit, BotStatus, running, paused,
  risk_halted, error, maintenance,
}
use braiker.Decimal.{Decimal, money, max_value}
use braiker.Money.Digits.{print_nat}
use braiker.Risk.Types
use braiker.Risk.Types.{
  Proposal, BrokerPosition, RiskPolicy, RiskContext, MacroGuardState, Rule, approved, failed,
  RiskCheck, RiskDecision,
}
use braiker.Prelude.{
  Bool, Option, ℕ, String, List, true, false, if◌then◌else◌, str_eq, find, not, some, ◌++◌, ◌∷◌,
  ◌||◌, none, ◌&&◌, any, ltb, [], get_or,
}
use braiker.Prelude.Text.{Text, literal, either_literal}
use braiker.Prelude.Result.{Result, ok, any_result, ◌>>=◌, sequence}

unfoldable pub status_name : BotStatus → Text
status_name running = literal "RUNNING"
status_name paused = literal "PAUSED"
status_name risk_halted = literal "RISK_HALTED"
status_name error = literal "ERROR"
status_name maintenance = literal "MAINTENANCE"

-- `context.macroGuard?.active`
abbrev pub guard_active : Option MacroGuardState → Bool
guard_active none = false
guard_active (some guard) = guard.is_active

unfoldable pub guard_title : Option MacroGuardState → Text
guard_title none = literal "a high-impact macro event"
guard_title (some guard) = elim guard.event_title [
  | none ↦ literal "a high-impact macro event"
  | some t ↦ t
]

unfoldable pub guard_detail : Option MacroGuardState → Text
guard_detail guard =
    if guard_active guard
    then literal "New positions are paused for " ++ guard_title guard
    else literal "No active high-impact macro-event window"

unfoldable pub trades_detail : ℕ → ℕ → Text
trades_detail today most = literal "Trades today: " ++ print_nat today ++ b'/' ∷ print_nat most

abbrev has_symbol : String → BrokerPosition → Bool
has_symbol symbol position = str_eq position.symbol symbol

-- `context.positions.find((position) => position.symbol === proposal.symbol)`
unfoldable pub existing_position : RiskContext → Proposal → Option BrokerPosition
existing_position context proposal = find (has_symbol proposal.symbol) context.positions

-- A check whose outcome is known without parsing.
unfoldable pub plain : Rule → Bool → Text → Result RiskCheck
plain rule passed detail = ok (record { rule = rule; passed = passed; detail = detail })

-- A check whose outcome may throw while it is computed.
unfoldable pub checked : Rule → Result Bool → Text → Result RiskCheck
checked rule passed detail = do
  holds ← passed
  ok (record { rule = rule; passed = holds; detail = detail })

module _ (d : Decimal) where
  -- `money(a).gt(0)`
  unfoldable pub is_positive : Text → Result Bool
  is_positive value = do amount ← money d value; ok (d.lt d.zero_value amount)

  -- `money(a).gt(money(b).negated())`
  unfoldable pub above_loss : Text → Text → Result Bool
  above_loss pnl most = do
    result ← money d pnl
    loss ← money d most
    ok (d.lt (d.negated loss) result)

  abbrev limit_price_holds : OrderType → Option Text → Result Bool
  limit_price_holds market price = ok true
  limit_price_holds limit none = ok false
  limit_price_holds limit (some price) = is_positive price

  -- The position of the symbol holds at least what is sold.
  unfoldable pub holds_quantity : Proposal → BrokerPosition → Result Bool
  holds_quantity proposal position =
      if has_symbol proposal.symbol position
      then (do
        held ← money d position.quantity
        sold ← money d proposal.quantity
        ok (d.lte sold held))
      else ok false

  abbrev no_short_holds : Bool → Side → RiskContext → Proposal → Result Bool
  no_short_holds true action context proposal = ok true
  no_short_holds false buy context proposal = ok true
  no_short_holds false sell context proposal =
      any_result (holds_quantity proposal) context.positions

  -- `effectivePrice`
  unfoldable pub price_of : OrderType → Proposal → RiskPolicy → Result d.Carrier
  price_of market proposal policy = do
    estimated ← money d proposal.estimated_price
    buffer ← money d policy.market_order_buffer_pct
    ok (d.mul estimated (d.plus d.one_value buffer))
  price_of limit proposal policy = money d (get_or proposal.limit_price (literal "0"))

  -- `requestedValue`
  unfoldable pub requested_value : Proposal → RiskPolicy → Result d.Carrier
  unfolding price_of
  requested_value proposal policy = do
    price ← price_of proposal.order_type proposal policy
    quantity ← money d proposal.quantity
    ok (d.mul quantity price)

  unfoldable pub exposure_from : d.Carrier → List BrokerPosition → Result d.Carrier
  exposure_from sum [] = ok sum
  exposure_from sum (position ∷ positions) = do
    value ← money d position.market_value
    exposure_from (d.plus sum (d.abs_value value)) positions

  -- `currentExposure`
  unfoldable pub current_exposure : List BrokerPosition → Result d.Carrier
  unfolding exposure_from
  current_exposure = exposure_from d.zero_value

  unfoldable pub held_value : Option BrokerPosition → Result d.Carrier
  held_value none = ok d.zero_value
  held_value (some position) = do value ← money d position.market_value; ok (d.abs_value value)

  -- The value of a position or of the portfolio once the proposal is filled.
  unfoldable pub projected : Side → d.Carrier → d.Carrier → d.Carrier
  projected buy held requested = d.plus held requested
  projected sell held requested = max_value d d.zero_value (d.minus held requested)

  unfoldable pub projected_position : Proposal → RiskContext → RiskPolicy → Result d.Carrier
  unfolding projected
  projected_position proposal context policy = do
    requested ← requested_value proposal policy
    held ← held_value (existing_position context proposal)
    ok (projected proposal.action held requested)

  unfoldable pub projected_exposure : Proposal → RiskContext → RiskPolicy → Result d.Carrier
  unfolding projected
  projected_exposure proposal context policy = do
    requested ← requested_value proposal policy
    exposure ← current_exposure context.positions
    ok (projected proposal.action exposure requested)

  -- `decimal(value)` inside a detail
  unfoldable pub shown : d.Carrier → Text
  shown value = d.to_text (d.to_places 12 value)

  -- A check of a projected value against a limit, which the detail prints.
  unfoldable pub within_limit : Rule → Result d.Carrier → Text → String → Result RiskCheck
  within_limit rule value most label = do
    amount ← value
    bound ← money d most
    ok (record { rule = rule; passed = d.lte amount bound; detail = literal label ++ shown amount })

  -- `proposal.action !== "BUY" || requestedValue.lte(money(available))`
  unfoldable pub buys_within : Side → Proposal → RiskPolicy → Text → Result Bool
  buys_within sell proposal policy available = ok true
  buys_within buy proposal policy available = do
    requested ← requested_value proposal policy
    amount ← money d available
    ok (d.lte requested amount)

  unfoldable pub cash_check : Proposal → RiskContext → RiskPolicy → Result RiskCheck
  cash_check proposal context policy = do
    requested ← requested_value proposal policy
    holds ← buys_within proposal.action proposal policy context.account.cash
    ok (record {
      rule = Rule.available_cash;
      passed = holds;
      detail = literal "Required cash: " ++ shown requested;
    })

  -- The checks in the order in which the source pushes them.
  unfoldable pub risk_checks : Proposal → RiskContext → RiskPolicy → List (Result RiskCheck)
  risk_checks proposal context policy =
      plain Rule.kill_switch (not context.kill_switch)
        (either_literal context.kill_switch "Trading is explicitly stopped" "Execution enabled")
      ∷ plain Rule.bot_state (is_running context.bot_status)
          (literal "Bot status is " ++ status_name context.bot_status)
      ∷ plain Rule.market_open context.market_open
          (either_literal context.market_open "Regular market session" "Market is closed")
      ∷ plain Rule.macro_event_guard
          (not (is_buy proposal.action) || not (guard_active context.macro_guard))
          (guard_detail context.macro_guard)
      ∷ plain Rule.fresh_market_data context.data_fresh
          (either_literal context.data_fresh "Market data is fresh" "Market data is stale")
      ∷ plain Rule.broker_health (context.account_healthy && not context.account.trading_blocked)
          (literal "Broker account is available for trading")
      ∷ checked Rule.order_quantity (is_positive proposal.quantity)
          (literal "Quantity must be positive")
      ∷ checked Rule.order_price (is_positive proposal.estimated_price)
          (literal "Estimated price must be positive")
      ∷ checked Rule.limit_price (limit_price_holds proposal.order_type proposal.limit_price)
          (literal "Limit orders require a positive limit price")
      ∷ checked Rule.no_shorting
          (no_short_holds policy.allow_shorting proposal.action context proposal)
          (literal "Sell cannot open a short position")
      ∷ plain Rule.no_duplicate_order (not (any (str_eq proposal.symbol) context.pending_symbols))
          (literal "No pending order for this symbol")
      ∷ plain Rule.max_trades_per_day (ltb context.trades_today policy.max_trades_per_day)
          (trades_detail context.trades_today policy.max_trades_per_day)
      ∷ checked Rule.max_daily_loss (above_loss context.daily_pnl policy.max_daily_loss)
          (literal "Daily P&L: " ++ context.daily_pnl)
      ∷ checked Rule.max_weekly_loss (above_loss context.weekly_pnl policy.max_weekly_loss)
          (literal "Weekly P&L: " ++ context.weekly_pnl)
      ∷ within_limit Rule.max_position_size (projected_position proposal context policy)
          policy.max_position_size "Projected position value: "
      ∷ within_limit Rule.max_portfolio_exposure (projected_exposure proposal context policy)
          policy.max_portfolio_exposure "Projected exposure: "
      ∷ checked Rule.bot_budget_available
          (buys_within proposal.action proposal policy context.bot_capital_available)
          (literal "Bot capital available: " ++ context.bot_capital_available)
      ∷ cash_check proposal context policy
      ∷ []

  unfoldable pub decision_of : Proposal → List RiskCheck → Option RiskCheck → RiskDecision
  decision_of proposal checks none = record {
    is_approved = true;
    reason = approved;
    checks = checks;
    approved_order = some proposal;
  }
  decision_of proposal checks (some check) = record {
    is_approved = false;
    reason = failed check.rule;
    checks = checks;
    approved_order = none;
  }

  -- `checks.find((item) => !item.passed)` decides.
  unfoldable pub decide_checks : Proposal → List RiskCheck → RiskDecision
  decide_checks proposal checks =
      decision_of proposal checks (find (λ (check : RiskCheck). not check.passed) checks)

  unfoldable pub assess_risk : Proposal → RiskContext → RiskPolicy → Result RiskDecision
  assess_risk proposal context policy = do
    checks ← sequence (risk_checks proposal context policy)
    ok (decide_checks proposal checks)
