-- ===== src/Bots/Death.antt =====
-- How a bot dies: the columns that src/modules/broker/paper-sync.ts and
-- src/modules/capital/operating-cost-service.ts set alike, and the transitions that they record.
use braiker.Domain.{BotStatus, paused, dead, RunMode, off}
use braiker.Bots.Row.{BotRow}
use braiker.Prelude.{true, String}

pub record StatusChange : Type 0 where
  pub bot_id : String
  pub from_state : BotStatus
  pub to_state : BotStatus
  pub reason : String

pub record ModeChange : Type 0 where
  pub bot_id : String
  pub from_mode : RunMode
  pub to_mode : RunMode
  pub reason : String

unfoldable pub killed : {A : Type 0} → BotRow A → BotRow A
killed bot = record bot { life_status = dead; run_mode = off; status = paused; kill_switch = true }
