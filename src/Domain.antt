-- ===== src/Domain.antt =====
-- The vocabulary that the parts share: src/modules/domain/contracts.ts, and the enums of
-- prisma/schema.prisma that the rows use.

use braiker.Prelude.{Bool, true, false}

-- `TradeAction` without HOLD: the side of a proposal, an order or a fill.
pub data Side : Type 0 where
  buy sell : Side

-- `TradeAction` of a strategy signal.
pub data TradeAction : Type 0 where
  trade : Side → TradeAction
  hold : TradeAction

pub data OrderType : Type 0 where
  market limit : OrderType

pub data BotStatus : Type 0 where
  running paused risk_halted error maintenance : BotStatus

pub data LifeStatus : Type 0 where
  active dead : LifeStatus

pub data RunMode : Type 0 where
  off simulation paper_active : RunMode

pub data UserRole : Type 0 where
  admin operator viewer : UserRole

-- Comparisons with one of the names, as `status === "RUNNING"`.
abbrev pub is_buy : Side → Bool
is_buy buy = true
is_buy sell = false

abbrev pub is_running : BotStatus → Bool
is_running running = true
is_running _ = false

abbrev pub is_active : LifeStatus → Bool
is_active active = true
is_active dead = false

abbrev pub is_paper_active : RunMode → Bool
is_paper_active off = false
is_paper_active simulation = false
is_paper_active paper_active = true
