-- ===== src/Decision/Service/Reserves.antt =====
-- The gate against the reservation in `recordProposedTrade` of
-- src/modules/decision/decision-service.ts.
use braiker.Domain.{buy, OrderType, market, limit, is_active, is_paper_active}
use braiker.Decimal.{Decimal, money, PrintsBack}
use braiker.Risk.Types.{Proposal, RiskPolicy, RiskDecision}
use braiker.Risk.Engine.{assess_risk, requested_value, price_of}
use braiker.Risk.Engine.Accepted.{assess_risk_accepts}
use braiker.Bots.Row.{BotRow, find_bot, UniqueIds, count_where_found, has_id, update_where}
use braiker.Bots.Templates.{should_queue_paper_execution}
use braiker.Decision.Reservation.{
  reserve_bot_capital, reservation_amount, buffered_price, price_text, reservation_for, is_live,
  can_reserve, add_reservation,
}
use braiker.Decision.Service.{
  ProposalRow, DecisionDb, TradeInput, context_for, queue_or_reject, record_for,
  record_proposed_trade, status_of_decision, proposal_row,
}
use braiker.Prelude.{
  List, some, true, ◌≡◌, refl, arith, inl, inr, String, Bool-cases, ap, ◌∙◌, ◌&&◌, not, subst, sym,
}
use braiker.Prelude.Result.{ok, >>=-eq-ok, ok-injective, or_throw->>=, throw_if->>, or_throw}

module _ (d : Decimal) where
  reservation_for-price_of :
      (t : OrderType) (p : Proposal) (policy : RiskPolicy) {price : d.Carrier}
      → price_of d t p policy ≡ ok price
      → (base : d.Carrier) × (money d (price_text d t p) ≡ ok base)
        × (buffered_price d t base policy.market_order_buffer_pct ≡ ok price)
  unfolding price_of price_text buffered_price
  reservation_for-price_of market p policy h =
      let (base, e, h') = >>=-eq-ok (money d p.estimated_price) _ h in (base, e, h')
  reservation_for-price_of limit p policy {price} h = (price, h, refl)

  reservation_for-requested_value :
      (p : Proposal) (policy : RiskPolicy) {v : d.Carrier}
      → requested_value d p policy ≡ ok v
      → reservation_for d buy p policy.market_order_buffer_pct ≡ ok (d.to_text v)
  unfolding reservation_for requested_value
  reservation_for-requested_value p policy {v} h =
      let (price, e, h') = >>=-eq-ok (price_of d p.order_type p policy) _ h in
      let (quantity, q, h'') = >>=-eq-ok (money d p.quantity) _ h' in
      let (base, b, c) = reservation_for-price_of p.order_type p policy e in
      simp (b, c, q) (ap (λ x. ok (d.to_text x)) (ok-injective h''))

  -- A purchase reserves the very amount that the gate compared with the free capital.
  reservation_amount-requested_value :
      (p : Proposal) (policy : RiskPolicy) {v : d.Carrier}
      → p.action ≡ buy
      → requested_value d p policy ≡ ok v
      → reservation_amount d p policy.market_order_buffer_pct ≡ ok (d.to_text v)
  unfolding reservation_amount
  reservation_amount-requested_value p policy bought h =
      ap (λ a. reservation_for d a p policy.market_order_buffer_pct) bought
      ∙ reservation_for-requested_value p policy h

  reserve_bot_capital-live :
      (prints : PrintsBack d) (bots : List (BotRow d.Carrier)) (id : String)
      (bot : BotRow d.Carrier) (v : d.Carrier)
      → UniqueIds bots
      → find_bot id bots ≡ some bot
      → is_live d bot ≡ true
      → d.lte v (d.minus bot.current_capital bot.reserved_capital) ≡ true
      → (bots' : List (BotRow d.Carrier)) × (reserve_bot_capital d id (d.to_text v) bots
          ≡ ok (true, bots'))
  unfolding reserve_bot_capital can_reserve money
  reserve_bot_capital-live prints bots id bot v unique found live free =
      let counted =
        count_where_found id (λ b. can_reserve d b v) bots bot unique found (ground arith) in
      rw (prints.reads_back v) (elim (Bool-cases (d.lte v d.zero_value)) [
        | inl e ↦ (bots, rw e refl)
        | inr e ↦ (
          update_where (λ b. has_id id b && can_reserve d b v) (add_reservation d v) bots,
          rw (e, counted) refl,
        )
      ])

  queue_or_reject-live :
      (prints : PrintsBack d) (input : TradeInput) (row : ProposalRow d.Carrier)
      (db db' : DecisionDb d.Carrier) (bot : BotRow d.Carrier) (v : d.Carrier)
      (first decision : RiskDecision)
      → UniqueIds db.bots
      → find_bot input.bot_id db.bots ≡ some bot
      → is_live d bot ≡ true
      → d.lte v (d.minus bot.current_capital bot.reserved_capital) ≡ true
      → queue_or_reject d input true (d.to_text v) row first db ≡ ok (decision, db')
      → decision ≡ first
  unfolding queue_or_reject
  queue_or_reject-live prints input row db db' bot v first decision unique found live free h =
      let (bots', e) =
        reserve_bot_capital-live prints db.bots input.bot_id bot v unique found live free in
      cc (h, e)

  is_live-mode :
      (bot : BotRow d.Carrier) → is_live d bot ≡ true → is_paper_active bot.run_mode ≡ true
  is_live-mode bot h = ground arith

  should_queue :
      (bot : BotRow d.Carrier) (decision : RiskDecision)
      → is_live d bot ≡ true
      → decision.is_approved ≡ true
      → should_queue_paper_execution bot.run_mode decision.is_approved ≡ true
  unfolding should_queue_paper_execution
  should_queue bot decision live ok1 = rw (ok1, is_live-mode bot live) refl

  available_of :
      (prints : PrintsBack d) (bot : BotRow d.Carrier) (v bound : d.Carrier)
      → money d (d.to_text (d.minus bot.current_capital bot.reserved_capital)) ≡ ok bound
      → d.lte v bound ≡ true
      → d.lte v (d.minus bot.current_capital bot.reserved_capital) ≡ true
  unfolding money
  available_of prints bot v bound e le =
      let same = prints.reads_back (d.minus bot.current_capital bot.reserved_capital) in
      subst (λ x. d.lte v x ≡ true)
        (ok-injective (sym e ∙ ap (λ o. or_throw o "[DecimalError] Invalid argument") same)) le

  record_for-live :
      (prints : PrintsBack d) (new_id : String) (input : TradeInput) (db db' : DecisionDb d.Carrier)
      (bot : BotRow d.Carrier) (first decision : RiskDecision)
      → UniqueIds db.bots
      → find_bot input.bot_id db.bots ≡ some bot
      → is_live d bot ≡ true
      → input.proposal.action ≡ buy
      → assess_risk d input.proposal (context_for d input bot) input.policy ≡ ok first
      → first.is_approved ≡ true
      → record_for d new_id input db bot ≡ ok (decision, db')
      → decision ≡ first
  unfolding record_for context_for should_queue_paper_execution money
  record_for-live prints new_id input db db' bot first decision unique found live bought e ok1 h =
      let safe =
        (assess_risk_accepts d input.proposal (context_for d input bot) input.policy first e).0
          ok1 in
      let (v, bound, ev, eb, le) = safe.within_budget bought in
      let same = reservation_amount-requested_value input.proposal input.policy bought ev in
      let (first', e', h0) =
        >>=-eq-ok (assess_risk d input.proposal (context_for d input bot) input.policy) _ h in
      let (reservation, r, h1) =
        >>=-eq-ok (reservation_amount d input.proposal input.policy.market_order_buffer_pct) _ h0 in
      let (row, _, h2) =
        >>=-eq-ok (proposal_row d new_id input reservation (status_of_decision first'.is_approved))
          _ h1 in
      let queues = should_queue bot first live ok1 in
      let within = available_of prints bot v bound eb le in
      queue_or_reject-live prints input row db db' bot v first decision unique found live within
        (cc (queues, e, e', r, same, h2))

  -- Where decimals print back and ids are unique, a purchase of a live bot that the gate approves
  -- on the capital that the row says is free is never lost to the reservation: a call that returns,
  -- returns the gate's own decision.
  pub record_proposed_trade_reserves :
      (prints : PrintsBack d) (new_id : String) (input : TradeInput) (db db' : DecisionDb d.Carrier)
      (bot : BotRow d.Carrier) (first decision : RiskDecision)
      → UniqueIds db.bots
      → find_bot input.bot_id db.bots ≡ some bot
      → is_live d bot ≡ true
      → input.proposal.action ≡ buy
      → assess_risk d input.proposal (context_for d input bot) input.policy ≡ ok first
      → first.is_approved ≡ true
      → record_proposed_trade d new_id input db ≡ ok (decision, db')
      → decision ≡ first
  unfolding record_proposed_trade
  record_proposed_trade_reserves prints new_id input db db' bot first decision unique found live
        bought e ok1 h =
      let (b, found', h0) = or_throw->>= (find_bot input.bot_id db.bots) "NotFoundError" _ h in
      let (_, h1) =
        throw_if->> (not (is_active b.life_status)) "BOT_DEAD" (record_for d new_id input db b)
          h0 in
      record_for-live prints new_id input db db' bot first decision unique found live bought e ok1
        (subst (λ x. record_for d new_id input db x ≡ ok (decision, db')) (cc (found, found')) h1)
