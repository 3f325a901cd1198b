-- ===== src/ManagerChat/Actions.antt =====
-- The proposals of src/modules/manager-chat/manager-action-proposals.ts. A date is its number of milliseconds; the
-- confirmation code's hash, which node:crypto makes, is a parameter.
use mathlib.Core.Option
use braiker.Prelude.Result.{Result, ok, ◌>>◌, throw_if}
use braiker.Prelude.{
  ℕ, true, false, String, ◌*◌, ◌+◌, Bool, not, some, Option, List, str_eq, none, ◌++◌, ◌&&◌, map,
  ltb, ◌∷◌, take, [], leb, keep,
}
use braiker.Domain.{UserRole, admin, operator, viewer}
use braiker.Bots.Row.{BotRow, find_bot}
use braiker.Bots.Control.{BotControl}
use braiker.Prelude.Sort.{sort_by}

pub data ProposalStatus : Type 0 where
  pending confirming executed expired failed : ProposalStatus

pub data Channel : Type 0 where
  web telegram : Channel

pub record ActionProposal : Type 0 where
  pub id : String
  pub user_id : String
  pub bot_id : String
  pub action : BotControl
  pub status : ProposalStatus
  pub code_hash : String
  pub requested_via : Channel
  pub expires_at : ℕ
  pub confirmed_at : Option ℕ
  pub executed_at : Option ℕ
  pub failure_reason : Option String

-- `CONFIRMATION_TTL_MS`
unfoldable pub confirmation_ttl_ms : ℕ
confirmation_ttl_ms = 10 * 60_000

unfoldable pub proposal_expiry : ℕ → ℕ
unfolding confirmation_ttl_ms
proposal_expiry now = now + confirmation_ttl_ms

abbrev pub is_admin : UserRole → Bool
is_admin admin = true
is_admin operator = false
is_admin viewer = false

unfoldable pub assert_admin : UserRole → Result (Unit {0})
assert_admin role = throw_if (not (is_admin role)) "FORBIDDEN"

-- The id is the one that the schema's default makes, and the code is given or drawn by `randomBytes`.
pub record ProposalRequest : Type 0 where
  pub id : String
  pub user_id : String
  pub actor_role : UserRole
  pub bot_id : String
  pub action : BotControl
  pub requested_via : Channel
  pub now : ℕ
  pub code : String

pub record Confirmation : Type 0 where
  pub proposal_id : String
  pub actor_id : String
  pub actor_role : UserRole
  pub channel : Channel
  pub confirmation_code : Option String
  pub now : ℕ

abbrev pub is_pending : ProposalStatus → Bool
is_pending pending = true
is_pending _ = false

abbrev pub is_proposal : String → ActionProposal → Bool
is_proposal id proposal = str_eq proposal.id id

unfoldable pub claimed_proposal : ℕ → ActionProposal → ActionProposal
claimed_proposal now proposal = record proposal { status = confirming; confirmed_at = some now }

unfoldable pub executed_proposal : ℕ → ActionProposal → ActionProposal
executed_proposal now proposal = record proposal { status = executed; executed_at = some now }

unfoldable pub failed_proposal : String → ActionProposal → ActionProposal
failed_proposal reason proposal = record proposal { status = failed; failure_reason = some reason }

-- `status: "PENDING", expiresAt: { gt: now }` of one user
unfoldable pub is_open : String → ℕ → ActionProposal → Bool
is_open user_id now proposal =
    str_eq proposal.user_id user_id && is_pending proposal.status && ltb now proposal.expires_at

abbrev pub invalid : String
invalid = "MANAGER_ACTION_CONFIRMATION_INVALID"

-- `channel === "TELEGRAM" && !confirmationCode`
unfoldable pub lacks_code : Channel → Option String → Bool
lacks_code web code = false
lacks_code telegram none = true
lacks_code telegram (some code) = str_eq code ""

module _ (hash : String → String) where
  unfoldable pub new_proposal : ProposalRequest → ActionProposal
  new_proposal request = record {
    id = request.id;
    user_id = request.user_id;
    bot_id = request.bot_id;
    action = request.action;
    status = pending;
    code_hash = hash request.code;
    requested_via = request.requested_via;
    expires_at = proposal_expiry request.now;
    confirmed_at = none;
    executed_at = none;
    failure_reason = none;
  }

  unfoldable pub create_manager_action_proposal :
      ProposalRequest → List ActionProposal → Result (ActionProposal × List ActionProposal)
  create_manager_action_proposal request proposals = do
    assert_admin request.actor_role
    ok (new_proposal request, proposals ++ new_proposal request ∷ [])

  -- The code's part of the claim: only Telegram asks for it.
  unfoldable pub code_matches : Channel → Option String → ActionProposal → Bool
  code_matches web code proposal = true
  code_matches telegram none proposal = false
  code_matches telegram (some code) proposal = str_eq proposal.code_hash (hash code)

  unfoldable pub can_confirm : Confirmation → ActionProposal → Bool
  can_confirm input proposal =
      is_proposal input.proposal_id proposal
      && is_open input.actor_id input.now proposal
      && code_matches input.channel input.confirmation_code proposal

-- `orderBy: { expiresAt: "asc" }, take: 10`, with each bot's name
unfoldable pub list_pending :
    {A : Type 0}
    → String
    → ℕ
    → List (BotRow A)
    → List ActionProposal
    → List (ActionProposal × Option String)
list_pending user_id now bots proposals =
    map
      (λ (p : ActionProposal). (p, Option.map (λ (b : BotRow _). b.name) (find_bot p.bot_id bots)))
      (take 10 (
        sort_by (λ (a b : ActionProposal). leb a.expires_at b.expires_at)
          (keep (is_open user_id now) proposals)))
