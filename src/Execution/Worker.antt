-- ===== src/Execution/Worker.antt =====
-- src/modules/execution/execution-worker.ts. The broker is a parameter: its state, its lookup and its
-- order call, which may throw. What it did is not rolled back when the transaction is.
pub mod Gated
use mathlib.Core.Option
use braiker.Domain.{Side, OrderType, BotStatus}
use braiker.Decimal.{Decimal}
use braiker.Bots.Row.{BotRow, find_bot}
use braiker.Decision.Service.{ProposalRow, ProposalStatus, RiskDecisionRow}
use braiker.Decision.Service
use braiker.Scheduler.Lease.{JobStatus}
use braiker.Scheduler.Lease
use braiker.Execution.Gate.{can_submit_with_kill_switch}
use braiker.Prelude.Result.{Result, ok, throw, ◌>>=◌, ◌>>◌, or_throw, throw_if}
use braiker.Prelude.Text.{Text, text, literal, same_text}
use braiker.Prelude.Table.{update_rows}
use braiker.Prelude.Sort.{sort_by}
use braiker.Prelude.{
  List, [], ◌∷◌, Option, none, some, Bool, true, false, ℕ, zero, suc, ◌≡◌, refl, arith, inl, inr,
  String, leb, ◌==◌, if◌then◌else◌, str_eq, keep, ◌+◌, ◌++◌, ◌&&◌, find, any, not, length, ◌||◌,
}

pub data OrderStatus : Type 0 where
  pending new partially_filled filled canceled rejected : OrderStatus

pub record ExecutionJob : Type 0 where
  pub id : String
  pub proposal_id : String
  pub status : JobStatus
  pub attempts : ℕ
  pub lease_token : Option String
  pub lease_expires_at : Option ℕ
  pub last_error : Option String
  pub created_at : ℕ

-- What the broker answers.
pub record BrokerOrder : Type 0 where
  pub id : String
  pub status : String

pub record ApprovedOrder : Type 0 where
  pub symbol : String
  pub action : Side
  pub order_type : OrderType
  pub quantity : Text
  pub limit_price : Option Text
  pub estimated_price : Text
  pub client_order_id : Text

pub record OrderRow (A : Type 0) : Type 0 where
  pub proposal_id : String
  pub broker_order_id : String
  pub client_order_id : Text
  pub symbol : String
  pub action : Side
  pub order_type : OrderType
  pub quantity : A
  pub limit_price : Option A
  pub status : OrderStatus

pub record ExecutionDb (A : Type 0) : Type 0 where
  pub jobs : List ExecutionJob
  pub bots : List (BotRow A)
  pub proposals : List (ProposalRow A)
  pub risk_decisions : List RiskDecisionRow
  pub orders : List (OrderRow A)

-- What one call returns, the tables after it, the broker, and the order that was sent, if any.
pub record Processed (A B : Type 0) : Type 0 where
  pub worked : Bool
  pub db : ExecutionDb A
  pub broker : B
  pub placed : Option ApprovedOrder

unfoldable pub map_order_status : String → OrderStatus
map_order_status status =
    if str_eq status "filled"
    then filled
    else if str_eq status "partially_filled"
    then partially_filled
    else if str_eq status "canceled"
    then canceled
    else if str_eq status "rejected"
    then rejected
    else if str_eq status "new" || str_eq status "accepted"
    then new
    else pending

unfoldable pub job_pending : JobStatus → Bool
job_pending JobStatus.pending = true
job_pending _ = false

unfoldable pub job_running : JobStatus → Bool
job_running JobStatus.running = true
job_running _ = false

unfoldable pub has_token : String → Option String → Bool
has_token token none = false
has_token token (some t) = str_eq t token

unfoldable pub head? {ℓ} : {A : Type ℓ} → List A → Option A
head? [] = none
head? (x ∷ xs) = some x

-- `findFirst({ where: { status: PENDING }, orderBy: { createdAt: "asc" } })`
unfoldable pub next_candidate : List ExecutionJob → Option ExecutionJob
unfolding job_pending head?
next_candidate jobs = head? (
    sort_by (λ (a b : ExecutionJob). leb a.created_at b.created_at)
      (keep (λ (job : ExecutionJob). job_pending job.status) jobs))

unfoldable pub can_claim_job : String → ExecutionJob → Bool
unfolding job_pending
can_claim_job id job = str_eq job.id id && job_pending job.status

unfoldable pub claimed_job : String → ℕ → ExecutionJob → ExecutionJob
claimed_job token now job = record job {
  status = JobStatus.running;
  lease_token = some token;
  lease_expires_at = some (now + 60_000);
  attempts = suc job.attempts;
}

unfoldable pub job_held_by : String → String → ExecutionJob → Bool
unfolding has_token
job_held_by id token job = str_eq job.id id && has_token token job.lease_token

unfoldable pub completed_job : ExecutionJob → ExecutionJob
completed_job job = record job { status = JobStatus.completed; lease_expires_at = none }

unfoldable pub failed_job : String → ExecutionJob → ExecutionJob
failed_job message job = record job {
  status = JobStatus.failed;
  last_error = some message;
  lease_expires_at = none;
}

-- `brk_${proposal.id.replaceAll("-", "")}`
unfoldable pub client_order_id_of : String → Text
client_order_id_of proposal_id = literal "brk_" ++ keep (λ c. not (c == b'-')) (text proposal_id)

-- `proposal.riskDecision?.approved === true`
unfoldable pub risk_approved_for : String → List RiskDecisionRow → Bool
risk_approved_for proposal_id [] = false
risk_approved_for proposal_id (row ∷ rows) =
    if str_eq row.proposal_id proposal_id
    then row.is_approved
    else risk_approved_for proposal_id rows

-- `if (!gate.allowed) throw new Error(gate.reason)`
unfoldable pub throw_reason : Option String → Result (Unit {0})
throw_reason none = ok tt
throw_reason (some reason) = throw reason

module _ (d : Decimal) where
  -- What the transaction reads and checks before it turns to the broker.
  unfoldable pub ready :
      String → String → ExecutionDb d.Carrier → Result (ExecutionJob × ProposalRow d.Carrier)
  unfolding throw_reason
  ready id token db = do
    job ← or_throw (find (λ (job : ExecutionJob). str_eq job.id id) db.jobs) "NotFoundError"
    proposal ←
        or_throw (find (λ (p : ProposalRow d.Carrier). str_eq p.id job.proposal_id) db.proposals)
          "NotFoundError"
    throw_if (not (job_running job.status) || not (has_token token job.lease_token))
        "EXECUTION_LEASE_LOST"
    bot ← or_throw (find_bot proposal.bot_id db.bots) "NotFoundError"
    throw_reason (
        can_submit_with_kill_switch bot.kill_switch bot.status
          (risk_approved_for proposal.id db.risk_decisions))
    ok (job, proposal)

  unfoldable pub approved_order_of : ProposalRow d.Carrier → ApprovedOrder
  approved_order_of proposal = record {
    symbol = proposal.symbol;
    action = proposal.action;
    order_type = proposal.order_type;
    quantity = d.to_text proposal.quantity;
    limit_price = Option.map d.to_text proposal.limit_price;
    estimated_price = d.to_text proposal.estimated_price;
    client_order_id = client_order_id_of proposal.id;
  }

  unfoldable pub order_row_of : ProposalRow d.Carrier → BrokerOrder → OrderRow d.Carrier
  order_row_of proposal order = record {
    proposal_id = proposal.id;
    broker_order_id = order.id;
    client_order_id = client_order_id_of proposal.id;
    symbol = proposal.symbol;
    action = proposal.action;
    order_type = proposal.order_type;
    quantity = proposal.quantity;
    limit_price = proposal.limit_price;
    status = map_order_status order.status;
  }

  -- `order.upsert({ where: { clientOrderId } })`
  unfoldable pub upsert_order :
      ProposalRow d.Carrier → BrokerOrder → List (OrderRow d.Carrier) → List (OrderRow d.Carrier)
  unfolding order_row_of same_text
  upsert_order proposal order orders =
      let picks = λ (row : OrderRow d.Carrier).
        same_text row.client_order_id (client_order_id_of proposal.id) in
      if any picks orders
      then update_rows picks
          (λ row. record row { broker_order_id = order.id; status = map_order_status order.status })
          orders
      else orders ++ order_row_of proposal order ∷ []

  -- The writes once the broker has the order.
  unfoldable pub submitted :
      String
      → ExecutionJob
      → ProposalRow d.Carrier
      → ExecutionDb d.Carrier
      → BrokerOrder
      → Result (ExecutionDb d.Carrier)
  unfolding upsert_order
  submitted token job proposal db order = do
    throw_if (not (length (keep (job_held_by job.id token) db.jobs) == 1)) "EXECUTION_LEASE_LOST"
    ok (record db {
      orders = upsert_order proposal order db.orders;
      proposals =
          update_rows (λ (p : ProposalRow d.Carrier). str_eq p.id proposal.id)
            (λ p. record p { status = ProposalStatus.submitted }) db.proposals;
      jobs = update_rows (job_held_by job.id token) completed_job db.jobs;
    })

-- `executionJob.updateMany`: the claim.
unfoldable pub with_claim : {A : Type 0} → String → String → ℕ → ExecutionDb A → ExecutionDb A
unfolding can_claim_job claimed_job
with_claim id token now db = record db {
  jobs = update_rows (can_claim_job id) (claimed_job token now) db.jobs;
}

module _ (d : Decimal) {Broker : Type 0} (get_order : Text → Broker → Result (Option BrokerOrder))
    (place_order : ApprovedOrder → Broker → Result BrokerOrder × Broker) where
  -- The submission or the recovery of a proposal that is ready.
  unfoldable pub submit_or_recover :
      String
      → ExecutionJob
      → ProposalRow d.Carrier
      → ExecutionDb d.Carrier
      → Broker
      → Result (Option BrokerOrder)
      → Result (ExecutionDb d.Carrier) × Broker × Option ApprovedOrder
  submit_or_recover token job proposal db broker (throw e) = (throw e, broker, none)
  submit_or_recover token job proposal db broker (ok (some order)) =
      (submitted d token job proposal db order, broker, none)
  submit_or_recover token job proposal db broker (ok none) =
      let answer = place_order (approved_order_of d proposal) broker in
      (
        (do order ← answer.0; submitted d token job proposal db order),
        answer.1,
        some (approved_order_of d proposal),
      )

  -- The transaction.
  unfoldable pub transact :
      String
      → ExecutionDb d.Carrier
      → Broker
      → Result (ExecutionJob × ProposalRow d.Carrier)
      → Result (ExecutionDb d.Carrier) × Broker × Option ApprovedOrder
  transact token db broker (throw e) = (throw e, broker, none)
  transact token db broker (ok (job, proposal)) =
      submit_or_recover token job proposal db broker
        (get_order (client_order_id_of proposal.id) broker)

  -- The catch: the transaction's writes are gone, the job keeps the message.
  unfoldable pub settled :
      String
      → String
      → ExecutionDb d.Carrier
      → Result (ExecutionDb d.Carrier)
      → ExecutionDb d.Carrier
  settled id token db (ok db') = db'
  settled id token db (throw message) = record db {
    jobs = update_rows (job_held_by id token) (failed_job message) db.jobs;
  }

  unfoldable pub run_claimed :
      String → String → ExecutionDb d.Carrier → Broker → Processed d.Carrier Broker
  run_claimed id token db broker =
      let done = transact token db broker (ready d id token db) in
      record { worked = true; db = settled id token db done.0; broker = done.1; placed = done.2 }

  -- One call. `others` is what other workers and the bots' controls write between the claim and the
  -- transaction.
  unfoldable pub process_one_execution_job :
      String
      → ℕ
      → (ExecutionDb d.Carrier → ExecutionDb d.Carrier)
      → ExecutionDb d.Carrier
      → Broker
      → Processed d.Carrier Broker
  process_one_execution_job token now others db broker = elim (next_candidate db.jobs) [
    | none ↦ record { worked = false; db = db; broker = broker; placed = none }
    | some candidate ↦
        if length (keep (can_claim_job candidate.id) db.jobs) == 1
        then run_claimed candidate.id token (others (with_claim candidate.id token now db)) broker
        else record {
          worked = false;
          db = with_claim candidate.id token now db;
          broker = broker;
          placed = none;
        }
  ]
