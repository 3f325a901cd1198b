-- ===== src/Lib.antt =====
-- BrAIker: paper-trading bots that share one broker account, each with its own virtual cash.
--
-- A strategy signal is sized into a proposal; the risk gate decides on it; the decision service records
-- both and reserves the bot's cash; the execution worker submits approved proposals to the broker; the
-- synchronization books what the broker reports. Around them, the power control switches bots, the
-- operating cost is charged monthly, and the scheduler leases the runs of background tasks.
--
-- Prelude: results for code that throws, texts as lists of code units, stable sorting, tables with
--   conditional updates, integers. Domain: the enums of src/modules/domain/contracts.ts and of
--   prisma/schema.prisma. The power control sets no run mode but OFF and
--   PAPER_ACTIVE.
-- Money: the money texts that capital, strategy and bots parse and print (parse, format).
-- Decimal: Prisma.Decimal, a third-party class, is a parameter, the record Decimal; what theorems need
--   of it are PrintsBack, ColumnLaws and ExactColumns, which Decimal/Scaled meets with whole numbers of 10^-12.
-- Capital: src/modules/capital. Policy is capital-policy.ts; Fill is fill-accounting.ts, and its Ledger
--   what it implements; OperatingCost is operating-cost-policy.ts, and its Charge chargeOneBot of
--   operating-cost-service.ts.
-- Risk: src/modules/risk. Engine is assessRisk of risk-engine.ts, check by check; Engine/Safety describes a
--   safe trade without the gate's helpers, and Engine/Conditions holds each condition against its check.
-- Bots: Row is the BotInstance table; Templates is bot-templates.ts; Control is applyBotControl of
--   control.ts; Survival is survival-state.ts; Death is what a bot's death writes; AdaptiveRisk is
--   adaptive-risk.ts and adaptive-risk-audit.ts, with the hash as a parameter.
-- Decision: Reservation is reservation.ts, Service is recordProposedTrade of decision-service.ts.
-- Strategy: PositionSizing is sizePosition of position-sizing.ts; Trend is trend-strategy.ts.
-- Indicators: Number is JavaScript's floating point, a parameter; Technical is basic.ts and technical.ts of
--   src/modules/indicators; Context is market-context.ts of src/modules/market.
-- Market: src/modules/market. ScanActivity is bot-scan-activity.ts; Evaluation, Runner and Evaluate are
--   evaluateBotForBar of market-runner.ts, with the AI review as an input; Cycle is processMarketCycle
--   once the account is synchronized and the bars and quotes are loaded.
-- ManagerChat: Actions and Confirm are manager-action-proposals.ts; PowerIntents is
--   manager-power-intents.ts, with its parser as a parameter.
-- Wallets: Pool is paper-capital-pool.ts; Transfers is src/app/api/bots/[botId]/capital/route.ts; Global
--   is src/app/api/wallets/[walletId]/capital/route.ts, the creation in src/app/api/wallets/route.ts and
--   the update in src/app/api/settings/paper-capital/route.ts, which is no transaction: it takes the row
--   that its request read before, and other requests may come between.
-- Scheduler: Lease is the JobRun table under runTask and expireLeases of lease-scheduler.ts, a write at a
--   time, with the writes of others between any two; Retry is retryLeaseRecoveryWrite; Task is the
--   ScheduledTask table; Policy is schedule-policy.ts.
-- Auth: LoginThrottle is login-throttle.ts; Session is session.ts, whose primitives (SHA-256, bcrypt, the
--   normalization of an address, the order of keys) are one record; its Access and Password are
--   authorization.ts, session-policy.ts and the functions of session.ts that read the cookie.
-- Notifications: Settings is notification-settings.ts, Alerts is operational-alerts.ts, Delivery and its
--   Runs are notification-delivery.ts. What the senders and the updates after them return are
--   parameters; a message may have arrived although its sender threw. Runs follow one another: two that
--   overlap are not covered.
-- Resources: MacroGuard is macro-guard.ts.
-- Execution: Gate is kill-switch-gate.ts, Worker is processOneExecutionJob of execution-worker.ts, with
--   the broker as a parameter.
-- Broker: PaperSync is reconcileBotOrder of paper-sync.ts, and its Account the accounting of a terminal
--   order.
--
-- A transaction is a function from tables to tables or to the message that it throws; a throw rolls the
-- tables back. A table is a list of rows. Dates are numbers of milliseconds. Every loop is structural;
-- the retry loop runs on fuel, of which its three attempts are enough.
--
-- Not modelled: the user interface and the routes but for those of Wallets, the AI advisor, the chats'
-- conversation, Telegram, the market data's transport, and raw payloads and metadata,
-- which nothing reads back.
pub mod Prelude
pub mod Domain
pub mod Money
pub mod Decimal
pub mod Capital
pub mod Risk
pub mod Bots
pub mod Decision
pub mod Strategy
pub mod Scheduler
pub mod Auth
pub mod Execution
pub mod Broker
pub mod Resources
pub mod Wallets
pub mod ManagerChat
pub mod Market
pub mod Indicators
pub mod Notifications
