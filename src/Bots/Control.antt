-- ===== src/Bots/Control.antt =====
-- src/modules/bots/control.ts: the ON/OFF switch. The transaction holds the bot's row lock, so it is
-- one step on the tables; a throw rolls it back.
pub mod Power
use braiker.Domain.{
  BotStatus, running, paused, risk_halted, error, maintenance, LifeStatus, active, dead, RunMode,
  off, simulation, paper_active, UserRole, admin, operator, viewer,
}
use braiker.Bots.Row.{BotRow, find_bot, update_bot}
use braiker.Bots.Templates.{validate_bot_mode_change}
use braiker.Prelude.{
  List, [], ◌∷◌, Option, none, some, Bool, true, false, ℕ, zero, suc, ◌≡◌, refl, arith, inl, inr,
  String, if◌then◌else◌, str_eq, ◌++◌, ◌&&◌, not,
}
use braiker.Prelude.Result.{Result, ok, throw, ◌>>=◌, or_throw, ◌>>◌, throw_if}

pub data BotControl : Type 0 where
  turn_on turn_off : BotControl

pub record ModeTransition : Type 0 where
  pub bot_id : String
  pub from_mode : RunMode
  pub to_mode : RunMode
  pub reason : BotControl

pub record StateTransition : Type 0 where
  pub bot_id : String
  pub from_state : BotStatus
  pub to_state : BotStatus
  pub reason : BotControl

pub record AuditLog : Type 0 where
  pub user_id : String
  pub wallet_id : String
  pub action : BotControl
  pub target : String

pub record Membership : Type 0 where
  pub wallet_id : String
  pub user_id : String
  pub role : UserRole

pub record ControlDb (A : Type 0) : Type 0 where
  pub bots : List (BotRow A)
  pub members : List Membership
  pub mode_transitions : List ModeTransition
  pub state_transitions : List StateTransition
  pub audit_log : List AuditLog

pub record ControlInput : Type 0 where
  pub bot_id : String
  pub actor_id : String
  pub actor_role : UserRole
  pub action : BotControl

-- The run mode and the kill switch of a power change.
unfoldable pub resolve_bot_power_change : BotControl → RunMode × Bool
resolve_bot_power_change turn_on = (paper_active, false)
resolve_bot_power_change turn_off = (off, true)

unfoldable pub find_member : String → String → List Membership → Option UserRole
find_member wallet user [] = none
find_member wallet user (m ∷ ms) =
    if str_eq m.wallet_id wallet && str_eq m.user_id user
    then some m.role
    else find_member wallet user ms

-- `!membership || membership.role === "VIEWER"`
unfoldable pub may_operate : Option UserRole → Bool
may_operate none = false
may_operate (some viewer) = false
may_operate (some _) = true

-- The test that the source makes of whoever is not an Admin.
unfoldable pub is_permitted : UserRole → Option UserRole → Bool
unfolding may_operate
is_permitted admin membership = true
is_permitted _ membership = may_operate membership

unfoldable pub is_dead : LifeStatus → Bool
is_dead active = false
is_dead dead = true

unfoldable pub status_of : RunMode → BotStatus
status_of off = paused
status_of simulation = running
status_of paper_active = running

unfoldable pub same_mode : RunMode → RunMode → Bool
same_mode off off = true
same_mode simulation simulation = true
same_mode paper_active paper_active = true
same_mode _ _ = false

unfoldable pub same_status : BotStatus → BotStatus → Bool
same_status running running = true
same_status paused paused = true
same_status risk_halted risk_halted = true
same_status error error = true
same_status maintenance maintenance = true
same_status _ _ = false

-- `if (modeError) throw new Error(modeError)`
unfoldable pub throw_some : Option String → Result (Unit {0})
throw_some none = ok tt
throw_some (some e) = throw e

module _ {A : Type 0} where
  unfoldable pub powered : RunMode → Bool → BotRow A → BotRow A
  powered mode kill_switch bot = record bot {
    run_mode = mode;
    status = status_of mode;
    kill_switch = kill_switch;
  }

  unfoldable pub with_power : ControlInput → BotRow A → RunMode → Bool → ControlDb A → ControlDb A
  with_power input bot mode kill_switch db = record db {
    bots = update_bot bot.id (powered mode kill_switch) db.bots;
    mode_transitions =
        if same_mode bot.run_mode mode
        then db.mode_transitions
        else db.mode_transitions
          ++ record {
            bot_id = bot.id;
            from_mode = bot.run_mode;
            to_mode = mode;
            reason = input.action;
          }
            ∷ [];
    state_transitions =
        if same_status bot.status (status_of mode)
        then db.state_transitions
        else db.state_transitions
          ++ record {
            bot_id = bot.id;
            from_state = bot.status;
            to_state = status_of mode;
            reason = input.action;
          }
            ∷ [];
    audit_log =
        db.audit_log
        ++ record {
          user_id = input.actor_id;
          wallet_id = bot.wallet_id;
          action = input.action;
          target = bot.id;
        }
          ∷ [];
  }

  -- What follows once the row is found.
  unfoldable pub control_found :
      ControlInput → ControlDb A → BotRow A → Result (BotRow A × ControlDb A)
  control_found input db bot = do
    throw_if
        (not (is_permitted input.actor_role (find_member bot.wallet_id input.actor_id db.members)))
        "FORBIDDEN"
    throw_if (is_dead bot.life_status) "BOT_DEAD"
    let mode = (resolve_bot_power_change input.action).0
    let kill_switch = (resolve_bot_power_change input.action).1
    throw_some (validate_bot_mode_change mode kill_switch bot.status bot.life_status)
    ok (powered mode kill_switch bot, with_power input bot mode kill_switch db)

  -- The updated row, and the tables after the commit.
  unfoldable pub apply_bot_control : ControlInput → ControlDb A → Result (BotRow A × ControlDb A)
  unfolding control_found
  apply_bot_control input db = do
    bot ← or_throw (find_bot input.bot_id db.bots) "BOT_NOT_FOUND"
    control_found input db bot
