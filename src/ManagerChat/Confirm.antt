-- ===== src/ManagerChat/Confirm.antt =====
-- `confirmManagerActionProposal` of src/modules/manager-chat/manager-action-proposals.ts: the claim of
-- a proposal, and the bot's control under it.
pub mod Once
pub mod Applied
use braiker.Prelude.Result.{Result, ok, throw, ◌>>=◌, ◌>>◌, or_throw, throw_if}
use braiker.Prelude.{ℕ, true, false, List, String, Option, some, find, none}
use braiker.Bots.Row.{BotRow, find_bot}
use braiker.Bots.Control.{BotControl, ControlDb, ControlInput, apply_bot_control}
use braiker.ManagerChat.Actions.{
  Confirmation, ActionProposal, invalid, is_proposal, executed_proposal, failed_proposal,
  claimed_proposal, can_confirm, assert_admin, lacks_code,
}
use braiker.Prelude.Table.{update_one, update_rows}

pub record ManagerDb (A : Type 0) : Type 0 where
  pub proposals : List ActionProposal
  pub control : ControlDb A

-- What a call returned or threw, and the tables that it left. The claim is committed before the
-- control runs, so it stays when the control throws.
pub record Confirmed (A : Type 0) : Type 0 where
  pub result : Result (BotRow A)
  pub db : ManagerDb A

unfoldable pub control_input : Confirmation → ActionProposal → ControlInput
control_input input proposal = record {
  bot_id = proposal.bot_id;
  actor_id = input.actor_id;
  actor_role = input.actor_role;
  action = proposal.action;
}

-- The guards before the claim, and the claim.
unfoldable pub claim :
    (String → String) → Confirmation → List ActionProposal → Result (List ActionProposal)
claim hash input proposals = do
  assert_admin input.actor_role
  throw_if (lacks_code input.channel input.confirmation_code) invalid
  update_one (can_confirm hash input) (claimed_proposal input.now) invalid proposals

module _ {A : Type 0} where
  -- After the control: the proposal is executed with its tables, or failed without. No message of
  -- the control reaches the 120 characters that `failureReason` keeps.
  unfoldable pub settle : Confirmation → Result (BotRow A × ControlDb A) → ManagerDb A → Confirmed A
  settle input (ok outcome) db = record {
    result = ok outcome.0;
    db = record {
      proposals =
          update_rows (is_proposal input.proposal_id) (executed_proposal input.now) db.proposals;
      control = outcome.1;
    };
  }
  settle input (throw message) db = record {
    result = throw message;
    db = record db {
      proposals =
          update_rows (is_proposal input.proposal_id) (failed_proposal message) db.proposals;
    };
  }

  unfoldable pub execute_claimed : Confirmation → Option ActionProposal → ManagerDb A → Confirmed A
  execute_claimed input none db = record { result = throw invalid; db = db }
  execute_claimed input (some proposal) db =
      settle input (apply_bot_control (control_input input proposal) db.control) db

  unfoldable pub confirm_claimed :
      Confirmation → Result (List ActionProposal) → ManagerDb A → Confirmed A
  confirm_claimed input (throw message) db = record { result = throw message; db = db }
  confirm_claimed input (ok proposals) db =
      execute_claimed input (find (is_proposal input.proposal_id) proposals)
        (record db { proposals = proposals })

  unfoldable pub confirm_manager_action_proposal :
      (String → String) → Confirmation → ManagerDb A → Confirmed A
  confirm_manager_action_proposal hash input db =
      confirm_claimed input (claim hash input db.proposals) db
