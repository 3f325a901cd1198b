-- ===== src/ManagerChat/Tests.antt =====
-- Runs of a confirmation.
use braiker.Bots.Templates.{
  get_bot_template, is_allowed_trading_symbol, never_trade_risk, same_id,
  should_queue_paper_execution, templates, validate_bot_mode_change,
}
use braiker.Prelude.Table.{update_one, update_rows}
use braiker.Prelude.Result.{ok, throw, or_else}
use braiker.Prelude.{[], ◌∷◌, some, none, true, false, ◌≡◌, refl, String, ℕ, arith, List}
use braiker.Domain
use braiker.Domain.{paused, off, admin, paper_active, running}
use braiker.Bots.Row.{BotRow, count_where, find_bot, update_bot, update_where}
use braiker.Bots.Control.{
  apply_bot_control, control_found, find_member, is_dead, is_permitted, may_operate, powered,
  resolve_bot_power_change, same_mode, same_status, status_of, throw_some, turn_on, with_power,
}
use braiker.ManagerChat.Actions.{
  ActionProposal, Confirmation, ProposalRequest, assert_admin, can_confirm, claimed_proposal,
  code_matches, confirmation_ttl_ms, create_manager_action_proposal, executed_proposal,
  failed_proposal, is_open, lacks_code, list_pending, new_proposal, proposal_expiry, telegram, web,
}
use braiker.ManagerChat.Confirm.{
  ManagerDb, claim, confirm_claimed, confirm_manager_action_proposal, control_input,
  execute_claimed, settle,
}
use braiker.ManagerChat.Confirm.Applied.{Applied, confirm_manager_action_proposal-Applied}
use braiker.ManagerChat.Confirm.Once.{confirm_manager_action_proposal_once}

-- A hash for tests: the text itself.
abbrev plain : String → String
plain code = code

abbrev resting : BotRow ℕ
resting = record {
  id = "guardian";
  wallet_id = "wallet";
  name = "Guardian";
  run_mode = off;
  status = paused;
  life_status = Domain.active;
  kill_switch = true;
  initial_capital = 20;
  current_capital = 20;
  reserved_capital = 0;
}

abbrev request : ProposalRequest
request = record {
  id = "proposal";
  user_id = "admin";
  actor_role = admin;
  bot_id = "guardian";
  action = turn_on;
  requested_via = telegram;
  now = 1000;
  code = "A1B2";
}

abbrev tables : ManagerDb ℕ
tables = record {
  proposals = new_proposal plain request ∷ [];
  control = record {
    bots = resting ∷ [];
    members = [];
    mode_transitions = [];
    state_transitions = [];
    audit_log = [];
  };
}

abbrev reply : Confirmation
reply = record {
  proposal_id = "proposal";
  actor_id = "admin";
  actor_role = admin;
  channel = telegram;
  confirmation_code = some "A1B2";
  now = 2000;
}

abbrev switched_on : BotRow ℕ
switched_on = record resting { run_mode = paper_active; status = running; kill_switch = false }

reply_turns_on : (confirm_manager_action_proposal plain reply tables).result ≡ ok switched_on
unfolding confirmation_ttl_ms proposal_expiry assert_admin claimed_proposal executed_proposal
    failed_proposal is_open lacks_code new_proposal create_manager_action_proposal code_matches
    can_confirm list_pending control_input claim settle execute_claimed confirm_claimed
    confirm_manager_action_proposal resolve_bot_power_change find_member may_operate is_permitted
    is_dead status_of same_mode same_status throw_some powered with_power control_found
    apply_bot_control never_trade_risk templates same_id get_bot_template is_allowed_trading_symbol
    validate_bot_mode_change should_queue_paper_execution find_bot update_where count_where
    update_bot update_rows update_one
reply_turns_on = refl

confirm_manager_action_proposal-Applied_example :
    Applied plain reply tables (confirm_manager_action_proposal plain reply tables).db switched_on
unfolding new_proposal
confirm_manager_action_proposal-Applied_example =
    confirm_manager_action_proposal-Applied plain reply tables switched_on (omega arith)
      reply_turns_on

-- An expired proposal, and a wrong code, are refused.
abbrev too_late : Confirmation
too_late = record reply { now = 601_000 }

too_late_lem :
    (confirm_manager_action_proposal plain too_late tables).result
    ≡ throw "MANAGER_ACTION_CONFIRMATION_INVALID"
unfolding confirmation_ttl_ms proposal_expiry assert_admin claimed_proposal executed_proposal
    failed_proposal is_open lacks_code new_proposal create_manager_action_proposal code_matches
    can_confirm list_pending control_input claim settle execute_claimed confirm_claimed
    confirm_manager_action_proposal update_rows update_one
too_late_lem = refl

abbrev claimed : List ActionProposal
claimed = or_else (claim plain reply tables.proposals) []

claimed_lem : claim plain reply tables.proposals ≡ ok claimed
unfolding confirmation_ttl_ms proposal_expiry assert_admin claimed_proposal executed_proposal
    failed_proposal is_open lacks_code new_proposal create_manager_action_proposal code_matches
    can_confirm list_pending control_input claim settle execute_claimed confirm_claimed
    confirm_manager_action_proposal update_rows update_one
claimed_lem = refl

abbrev from_web : Confirmation
from_web = record reply { channel = web; confirmation_code = none }

confirm_manager_action_proposal_once_example :
    (e : String) × (confirm_manager_action_proposal plain from_web
        (confirm_manager_action_proposal plain reply tables).db
      ≡ record { result = throw e; db = (confirm_manager_action_proposal plain reply tables).db })
confirm_manager_action_proposal_once_example =
    confirm_manager_action_proposal_once plain reply from_web tables claimed refl claimed_lem
