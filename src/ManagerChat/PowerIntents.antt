-- ===== src/ManagerChat/PowerIntents.antt =====
-- src/modules/manager-chat/manager-power-intents.ts. The parser of the request and the normal form
-- of a name, which are regular expressions and Unicode tables, are parameters.
pub mod Exact
use mathlib.Core.Option
use braiker.Prelude.Result.{Result, ok, ◌>>=◌}
use braiker.Prelude.{ℕ, String, List, Option, keep, ◌∷◌, some, str_eq, [], none}
use braiker.Domain.{UserRole}
use braiker.Bots.Row.{BotRow}
use braiker.Bots.Control.{BotControl}
use braiker.ManagerChat.Actions.{
  ActionProposal, ProposalRequest, Channel, create_manager_action_proposal,
}

pub record PowerIntent : Type 0 where
  pub action : BotControl
  pub bot_reference : String

pub data PowerProposal : Type 0 where
  no_intent : PowerProposal
  unmatched : PowerIntent → PowerProposal
  ambiguous : PowerIntent → PowerProposal
  proposed : ActionProposal → PowerProposal

pub record PowerRequest : Type 0 where
  pub new_id : String
  pub user_id : String
  pub actor_role : UserRole
  pub content : String
  pub requested_via : Channel
  pub now : ℕ
  pub code : String

unfoldable pub request_of : PowerRequest → PowerIntent → String → ProposalRequest
request_of input intent bot_id = record {
  id = input.new_id;
  user_id = input.user_id;
  actor_role = input.actor_role;
  bot_id = bot_id;
  action = intent.action;
  requested_via = input.requested_via;
  now = input.now;
  code = input.code;
}

module _ {A : Type 0} (normalized : String → String) where
  -- `bots.filter((bot) => normalized(bot.name) === normalized(intent.botReference))`
  unfoldable pub matches : PowerIntent → List (BotRow A) → List (BotRow A)
  matches intent bots =
      keep (λ (bot : BotRow A). str_eq (normalized bot.name) (normalized intent.bot_reference)) bots

  module _ (hash : String → String) where
    unfoldable pub prepare_for :
        PowerRequest
        → PowerIntent
        → List (BotRow A)
        → List ActionProposal
        → Result (PowerProposal × List ActionProposal)
    prepare_for input intent [] proposals = ok (unmatched intent, proposals)
    prepare_for input intent (bot ∷ []) proposals = do
      created ← create_manager_action_proposal hash (request_of input intent bot.id) proposals
      ok (proposed created.0, created.1)
    prepare_for input intent (bot ∷ _ ∷ _) proposals = ok (ambiguous intent, proposals)

    unfoldable pub prepare_intent :
        PowerRequest
        → Option PowerIntent
        → List (BotRow A)
        → List ActionProposal
        → Result (PowerProposal × List ActionProposal)
    prepare_intent input none bots proposals = ok (no_intent, proposals)
    prepare_intent input (some intent) bots proposals =
        prepare_for input intent (matches intent bots) proposals

    -- `bots` is the first hundred by name.
    unfoldable pub prepare_manager_power_proposal :
        (String → Option PowerIntent)
        → PowerRequest
        → List (BotRow A)
        → List ActionProposal
        → Result (PowerProposal × List ActionProposal)
    prepare_manager_power_proposal parse_intent input bots proposals =
        prepare_intent input (parse_intent input.content) bots proposals
