-- ===== src/Execution/Worker/Gated.antt =====
-- What src/modules/execution/execution-worker.ts reads before it sends an order.
use braiker.Domain.{BotStatus, running}
use braiker.Decimal.{Decimal}
use braiker.Bots.Row.{BotRow, find_bot}
use braiker.Decision.Service.{ProposalRow}
use braiker.Execution.Gate.{can_submit_with_kill_switch}
use braiker.Execution.Worker.{
  ExecutionJob, ExecutionDb, ApprovedOrder, BrokerOrder, ready, transact, submit_or_recover,
  run_claimed, process_one_execution_job, next_candidate, with_claim, approved_order_of,
  client_order_id_of, risk_approved_for, throw_reason, has_token, job_running,
}
use braiker.Prelude.Result.{Result, ok, throw, or_throw->>=, throw_if->>, Result-cases, ◌>>◌}
use braiker.Prelude.Text.{Text}
use braiker.Prelude.{
  Option, none, some, Bool, true, false, ℕ, ◌≡◌, refl, arith, inl, inr, String, not, find,
  Option-cases, str_eq, ◌&&◌, ◌||◌, subst,
}

gate-open :
    (kill_switch : Bool) (status : BotStatus) (approved : Bool)
    → can_submit_with_kill_switch kill_switch status approved ≡ none
    → (kill_switch ≡ false) × (status ≡ running) × (approved ≡ true)
unfolding can_submit_with_kill_switch
gate-open kill_switch status approved h = (ground arith, ground arith, ground arith)

throw_reason->> :
    {B : Type 0} (o : Option String) (k : Result B) {r : B}
    → (throw_reason o >> k) ≡ ok r
    → (o ≡ none) × (k ≡ ok r)
unfolding throw_reason
throw_reason->> none k h = (refl, h)
throw_reason->> (some e) k h = cc

module _ (d : Decimal) where
  -- A proposal that may be sent, in the tables that the transaction reads: its job is leased by the
  -- token, and its bot's switch, status and risk decision all allow it.
  pub record Permitted (id token : String) (db : ExecutionDb d.Carrier)
      (proposal : ProposalRow d.Carrier) : Type 0 where
    pub job : ExecutionJob
    pub bot : BotRow d.Carrier
    pub finds_job : find (λ (j : ExecutionJob). str_eq j.id id) db.jobs ≡ some job
    pub finds_proposal :
        find (λ (p : ProposalRow d.Carrier). str_eq p.id job.proposal_id) db.proposals
        ≡ some proposal
    pub holds_lease : (job_running job.status && has_token token job.lease_token) ≡ true
    pub finds_bot : find_bot proposal.bot_id db.bots ≡ some bot
    pub switch_off : bot.kill_switch ≡ false
    pub bot_runs : bot.status ≡ running
    pub is_approved : risk_approved_for proposal.id db.risk_decisions ≡ true

  holds_both : (a b : Bool) → (not a || not b) ≡ false → (a && b) ≡ true
  holds_both a b h = ground arith

  ready-Permitted :
      (id token : String) (db : ExecutionDb d.Carrier) (job : ExecutionJob)
      (proposal : ProposalRow d.Carrier)
      → ready d id token db ≡ ok (job, proposal)
      → Permitted id token db proposal
  unfolding ready
  ready-Permitted id token db job proposal h =
      let (j, ej, h0) =
        or_throw->>= (find (λ (j : ExecutionJob). str_eq j.id id) db.jobs) "NotFoundError" _ h in
      let (p, ep, h1) =
        or_throw->>= (find (λ (p : ProposalRow d.Carrier). str_eq p.id j.proposal_id) db.proposals)
          "NotFoundError" _ h0 in
      let (lease, h2) =
        throw_if->> (not (job_running j.status) || not (has_token token j.lease_token))
          "EXECUTION_LEASE_LOST" _ h1 in
      let (bot, eb, h3) = or_throw->>= (find_bot p.bot_id db.bots) "NotFoundError" _ h2 in
      let (opened, h4) =
        throw_reason->>
          (can_submit_with_kill_switch bot.kill_switch bot.status
            (risk_approved_for p.id db.risk_decisions))
          _ h3 in
      let (off, runs, approved) = gate-open _ _ _ opened in
      subst (Permitted id token db) (cc h4) (record {
        job = j;
        bot = bot;
        finds_job = ej;
        finds_proposal = ep;
        holds_lease = holds_both _ _ lease;
        finds_bot = eb;
        switch_off = off;
        bot_runs = runs;
        is_approved = approved;
      })

  module _ {Broker : Type 0} (get_order : Text → Broker → Result (Option BrokerOrder))
      (place_order : ApprovedOrder → Broker → Result BrokerOrder × Broker) where
    submit_or_recover-placed :
        (id token : String) (job : ExecutionJob) (proposal : ProposalRow d.Carrier)
        (db : ExecutionDb d.Carrier) (broker : Broker) (order : ApprovedOrder)
        (found : Result (Option BrokerOrder))
        → (submit_or_recover d get_order place_order token job proposal db broker found).2
          ≡ some order
        → (found ≡ ok none) × (order ≡ approved_order_of d proposal)
    unfolding submit_or_recover
    submit_or_recover-placed id token job proposal db broker order (throw e) h = cc h
    submit_or_recover-placed id token job proposal db broker order (ok none) h = (refl, cc h)
    submit_or_recover-placed id token job proposal db broker order (ok (some o)) h = cc h

    run_claimed-placed :
        (id token : String) (db : ExecutionDb d.Carrier) (broker : Broker) (order : ApprovedOrder)
        → (run_claimed d get_order place_order id token db broker).placed ≡ some order
        → (proposal : ProposalRow d.Carrier) × Permitted id token db proposal
          × (get_order (client_order_id_of proposal.id) broker ≡ ok none)
          × (order ≡ approved_order_of d proposal)
    unfolding run_claimed transact submit_or_recover
    run_claimed-placed id token db broker order h = elim (Result-cases (ready d id token db)) [
      | inr (e, q) ↦ ground (arith, q)
      | inl ((job, proposal), q) ↦
          let sent =
            submit_or_recover-placed id token job proposal db broker order
              (get_order (client_order_id_of proposal.id) broker)
              (subst (λ r. (transact d get_order place_order token db broker r).2 ≡ some order) q
                h) in
          (proposal, ready-Permitted id token db job proposal q, sent.0, sent.1)
    ]

    -- When one call of the worker sends an order, then whatever others wrote between the claim and
    -- the transaction, the job is leased by the call's token, the bot that the transaction reads is
    -- RUNNING with its kill switch off, the risk decision approves, the broker had no order under
    -- the client order id, and the order is the proposal's.
    pub process_one_execution_job-placed :
        (token : String) (now : ℕ) (others : ExecutionDb d.Carrier → ExecutionDb d.Carrier)
        (db : ExecutionDb d.Carrier) (broker : Broker) (order : ApprovedOrder)
        → (process_one_execution_job d get_order place_order token now others db broker).placed
          ≡ some order
        → (candidate : ExecutionJob) × (next_candidate db.jobs ≡ some candidate)
          × (proposal : ProposalRow d.Carrier) × Permitted candidate.id token
              (others (with_claim candidate.id token now db))
              proposal
          × (get_order (client_order_id_of proposal.id) broker ≡ ok none)
          × (order ≡ approved_order_of d proposal)
    unfolding process_one_execution_job
    process_one_execution_job-placed token now others db broker order h =
        elim (Option-cases (next_candidate db.jobs)) [
          | inl q ↦ ground (arith, q)
          | inr (candidate, q) ↦
              let (proposal, permitted, absent, same) =
                run_claimed-placed candidate.id token
                  (others (with_claim candidate.id token now db)) broker order
                  (ground (arith, q)) in
              (candidate, q, proposal, permitted, absent, same)
        ]
