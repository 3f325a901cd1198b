-- ===== src/Execution/Tests.antt =====
-- A run of the queue with a broker that has no order yet and accepts every one. Its state is how many
-- orders it took.
use braiker.Execution.Gate.{can_submit_with_kill_switch}
use braiker.Prelude.Table.{update_rows}
use braiker.Prelude.Sort.{insert_by, sort_by}
use braiker.Domain
use braiker.Domain.{running, paper_active, buy, market}
use braiker.Decimal.Scaled.{scaled}
use braiker.Bots.Row.{count_where, find_bot, update_bot, update_where}
use braiker.Money.{scale}
use braiker.Decision.Service.{ProposalRow, ProposalStatus}
use braiker.Risk.Types
use braiker.Scheduler.Lease.{JobStatus}
use braiker.Execution.Worker.{
  ApprovedOrder, BrokerOrder, ExecutionDb, ExecutionJob, approved_order_of, can_claim_job,
  claimed_job, client_order_id_of, completed_job, failed_job, has_token, head?, job_held_by,
  job_pending, job_running, map_order_status, next_candidate, order_row_of,
  process_one_execution_job, ready, risk_approved_for, run_claimed, settled, submit_or_recover,
  submitted, throw_reason, transact, upsert_order, with_claim,
}
use braiker.Execution.Worker.Gated.{Permitted, process_one_execution_job-placed}
use braiker.Prelude.Int.{ℤ, pos}
use braiker.Prelude.Text.{same_text, Text}
use braiker.Prelude.Result.{Result, ok}
use braiker.Prelude.{[], ◌∷◌, Option, none, some, true, false, ℕ, suc, ◌≡◌, refl, ◌*◌}

abbrev no_order : Text → ℕ → Result (Option BrokerOrder)
no_order client_order_id taken = ok none

abbrev accept_order : ApprovedOrder → ℕ → Result BrokerOrder × ℕ
accept_order order taken = (ok (record { id = "b1"; status = "accepted" }), suc taken)

abbrev queued_proposal : ProposalRow ℤ
queued_proposal = record {
  id = "p-1";
  bot_id = "guardian";
  symbol = "SPY";
  action = buy;
  order_type = market;
  quantity = pos scale;
  limit_price = none;
  estimated_price = pos (5 * scale);
  reservation_amount = pos (6 * scale);
  status = ProposalStatus.risk_approved;
}

abbrev queue : ExecutionDb ℤ
queue = record {
  jobs =
      record {
        id = "j1";
        proposal_id = "p-1";
        status = JobStatus.pending;
        attempts = 0;
        lease_token = none;
        lease_expires_at = none;
        last_error = none;
        created_at = 10;
      }
      ∷ [];
  bots =
      record {
        id = "guardian";
        wallet_id = "wallet";
        name = "Guardian";
        run_mode = paper_active;
        status = running;
        life_status = Domain.active;
        kill_switch = false;
        initial_capital = pos (20 * scale);
        current_capital = pos (20 * scale);
        reserved_capital = pos (6 * scale);
      }
      ∷ [];
  proposals = queued_proposal ∷ [];
  risk_decisions =
      record {
        proposal_id = "p-1";
        is_approved = true;
        reason = Types.approved;
        checks = [];
        approved_order = none;
      }
      ∷ [];
  orders = [];
}

abbrev no_others : ExecutionDb ℤ → ExecutionDb ℤ
no_others db = db

queue_places :
    (process_one_execution_job scaled no_order accept_order "t" 100 no_others queue 0).placed
    ≡ some (approved_order_of scaled queued_proposal)
unfolding map_order_status job_pending job_running has_token head? next_candidate can_claim_job
    claimed_job job_held_by completed_job failed_job client_order_id_of same_text risk_approved_for
    throw_reason ready approved_order_of order_row_of upsert_order submitted with_claim
    submit_or_recover transact settled run_claimed process_one_execution_job
    can_submit_with_kill_switch find_bot update_where count_where update_bot update_rows insert_by
    sort_by
queue_places = refl

process_one_execution_job-placed_example :
    (candidate : ExecutionJob) × (next_candidate queue.jobs ≡ some candidate)
    × (proposal : ProposalRow ℤ) × Permitted scaled candidate.id "t"
        (no_others (with_claim candidate.id "t" 100 queue))
        proposal
    × (no_order (client_order_id_of proposal.id) 0 ≡ ok none)
    × (approved_order_of scaled queued_proposal ≡ approved_order_of scaled proposal)
process_one_execution_job-placed_example =
    process_one_execution_job-placed scaled no_order accept_order "t" 100 no_others queue 0
      (approved_order_of scaled queued_proposal) queue_places
