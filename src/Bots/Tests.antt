-- ===== src/Bots/Tests.antt =====
-- Runs of the power control and of the survival indicator.
use braiker.Bots.Templates.{
  get_bot_template, is_allowed_trading_symbol, never_trade_risk, same_id,
  should_queue_paper_execution, templates, validate_bot_mode_change,
}
use braiker.Domain
use braiker.Domain.{running, paused, risk_halted, paper_active, operator}
use braiker.Bots.Row.{BotRow, count_where, find_bot, update_bot, update_where}
use braiker.Bots.Control.{
  ControlDb, ControlInput, apply_bot_control, control_found, find_member, is_dead, is_permitted,
  may_operate, powered, resolve_bot_power_change, same_mode, same_status, status_of, throw_some,
  turn_off, turn_on, with_power,
}
use braiker.Bots.Control.Power.{
  IsSwitched, Switched, apply_bot_control-Switched, control_found_accepts, halt_cleared,
}
use braiker.Bots.Survival.{
  SurvivalCode, SurvivalInput, band, banded, deployed, derive_bot_survival_state, is_dead_code,
  living, of_life, states, switched_on, with_power_state, analysed,
}
use braiker.Bots.Survival.Bands.{score_or_zero, derive_bot_survival_state_mono}
use braiker.Money.{scale, format_money, parse_or_throw}
use braiker.Money.RoundTrip.{parse_money-format_money}
use braiker.Prelude.Result.{ok, throw, or_else}
use braiker.Prelude.{[], ◌∷◌, some, true, false, ℕ, ◌≡◌, refl, arith, ◌↔◌, ◌*◌, ◌≤◌, ◌⊎◌}

abbrev halted_bot : BotRow ℕ
halted_bot = record {
  id = "guardian";
  wallet_id = "wallet";
  name = "Guardian";
  run_mode = paper_active;
  status = risk_halted;
  life_status = Domain.active;
  kill_switch = false;
  initial_capital = 20;
  current_capital = 20;
  reserved_capital = 0;
}

abbrev halted_db : ControlDb ℕ
halted_db = record {
  bots = halted_bot ∷ [];
  members = record { wallet_id = "wallet"; user_id = "ana"; role = operator } ∷ [];
  mode_transitions = [];
  state_transitions = [];
  audit_log = [];
}

abbrev off_request : ControlInput
off_request = record {
  bot_id = "guardian";
  actor_id = "ana";
  actor_role = operator;
  action = turn_off;
}

finds_halted : find_bot "guardian" halted_db.bots ≡ some halted_bot
unfolding find_bot
finds_halted = refl

permits_operator : is_permitted operator (find_member "wallet" "ana" halted_db.members) ≡ true
unfolding resolve_bot_power_change find_member may_operate is_permitted is_dead status_of same_mode
    same_status throw_some powered with_power control_found apply_bot_control
permits_operator = refl

abbrev after_off : BotRow ℕ × ControlDb ℕ
after_off = or_else (apply_bot_control off_request halted_db) (halted_bot, halted_db)

after_off_lem : apply_bot_control off_request halted_db ≡ ok (after_off.0, after_off.1)
unfolding resolve_bot_power_change find_member may_operate is_permitted is_dead status_of same_mode
    same_status throw_some powered with_power control_found apply_bot_control find_bot update_where
    count_where update_bot never_trade_risk templates same_id get_bot_template
    is_allowed_trading_symbol validate_bot_mode_change should_queue_paper_execution
after_off_lem = refl

apply_bot_control-Switched_example :
    (bot : BotRow ℕ) × Switched off_request halted_db bot after_off.0 after_off.1
apply_bot_control-Switched_example =
    apply_bot_control-Switched off_request halted_db after_off.0 after_off.1 after_off_lem

control_found_accepts_example :
    ((r : BotRow ℕ × ControlDb ℕ) × (control_found off_request halted_db halted_bot ≡ ok r)) ↔ (
      (is_permitted operator (find_member "wallet" "ana" halted_db.members) ≡ true)
      × (halted_bot.life_status ≡ Domain.active)
      × (turn_off ≡ turn_on → (halted_bot.status ≡ running) ⊎ (halted_bot.status ≡ paused)))
control_found_accepts_example = control_found_accepts off_request halted_db halted_bot

halt_cleared_example :
    (apply_bot_control (record off_request { action = turn_on }) halted_db
      ≡ throw "BOT_RISK_HALTED")
    × ((paused_db on_db : ControlDb ℕ) × (off_bot on_bot : BotRow ℕ) × (apply_bot_control
            (record off_request { action = turn_off })
            halted_db
          ≡ ok (off_bot, paused_db))
        × (apply_bot_control (record off_request { action = turn_on }) paused_db
            ≡ ok (on_bot, on_db))
        × IsSwitched turn_on on_bot)
halt_cleared_example =
    halt_cleared off_request halted_db halted_bot finds_halted permits_operator refl refl

-- A bot that began with ten dollars and has one, against one that has six.
abbrev began_with_ten : SurvivalInput
began_with_ten = record {
  life_status = Domain.active;
  initial_capital = format_money (10 * scale);
  current_capital = format_money (1 * scale);
  reserved_capital = format_money 0;
  open_position_count = 0;
  last_analysis_at = some "2026-01-05T15:00:00.000Z";
  kill_switch = some false;
}

reads : (n : ℕ) → parse_or_throw (format_money n) ≡ ok n
unfolding parse_or_throw
reads n = rw (parse_money-format_money n) refl

reads_critical :
    derive_bot_survival_state (record began_with_ten { current_capital = format_money (1 * scale) })
    ≡ ok (states SurvivalCode.critical)
unfolding states is_dead_code switched_on with_power_state band deployed banded analysed living
    of_life derive_bot_survival_state
reads_critical = rw (reads 0, reads (10 * scale), reads (1 * scale)) refl

reads_cautious :
    derive_bot_survival_state (record began_with_ten { current_capital = format_money (6 * scale) })
    ≡ ok (states SurvivalCode.cautious)
unfolding states is_dead_code switched_on with_power_state band deployed banded analysed living
    of_life derive_bot_survival_state
reads_cautious = rw (reads 0, reads (10 * scale), reads (6 * scale)) refl

derive_bot_survival_state_mono_example :
    score_or_zero (states SurvivalCode.critical).score
    ≤ score_or_zero (states SurvivalCode.cautious).score
derive_bot_survival_state_mono_example =
    derive_bot_survival_state_mono began_with_ten (format_money (1 * scale))
      (format_money (6 * scale)) (1 * scale) (6 * scale) (states SurvivalCode.critical)
      (states SurvivalCode.cautious) (reads (1 * scale)) (reads (6 * scale)) (omega arith)
      reads_critical reads_cautious
