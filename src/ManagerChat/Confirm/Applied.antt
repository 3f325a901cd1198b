-- ===== src/ManagerChat/Confirm/Applied.antt =====
-- What stands behind a confirmation that returns.
use braiker.Prelude.Result.{ok, throw, Result, throw_if->>}
use braiker.Prelude.{
  String, ◌≡◌, List, find, Option, length, true, keep, some, ◌≤◌, not, subst, arith, refl, ◌∷◌,
  Bool-cases, inl, inr, [], none,
}
use braiker.Prelude.Table.{update_rows, update_one-ok}
use braiker.ManagerChat.Actions.{
  Confirmation, ActionProposal, can_confirm, is_proposal, claimed_proposal, is_admin, assert_admin,
  lacks_code,
}
use braiker.ManagerChat.Confirm.{
  ManagerDb, claim, confirm_manager_action_proposal, settle, execute_claimed, confirm_claimed,
  control_input,
}
use braiker.Bots.Row.{BotRow}
use braiker.Bots.Control.{ControlDb, apply_bot_control}

module _ (hash : String → String) (input : Confirmation) where
  confirmable_proposal :
      (p : ActionProposal)
      → can_confirm hash input p ≡ true
      → is_proposal input.proposal_id p ≡ true
  unfolding can_confirm
  confirmable_proposal p h = ground (arith, h)

  confirmable_le :
      (proposals : List ActionProposal)
      → length (keep (can_confirm hash input) proposals)
        ≤ length (keep (is_proposal input.proposal_id) proposals)
  confirmable_le [] = omega arith
  confirmable_le (p ∷ proposals) = ground (arith, confirmable_proposal p, confirmable_le proposals)

  -- The one proposal that the claim takes is the one that is found by the id, before and after it.
  claimed_found :
      (proposals : List ActionProposal)
      → length (keep (can_confirm hash input) proposals) ≡ 1
      → length (keep (is_proposal input.proposal_id) proposals) ≤ 1
      → (p : ActionProposal) × (find (is_proposal input.proposal_id) proposals ≡ some p)
        × (can_confirm hash input p ≡ true)
        × (find
              (is_proposal input.proposal_id)
              (update_rows (can_confirm hash input) (claimed_proposal input.now) proposals)
            ≡ some (claimed_proposal input.now p))
  unfolding update_rows claimed_proposal
  claimed_found [] one most = absurd (omega arith)
  claimed_found (p ∷ proposals) one most = elim (Bool-cases (can_confirm hash input p)) [
    | inl e ↦
        let same = confirmable_proposal p e in (p, ground (arith, same), e, ground (arith, e, same))
    | inr e ↦ elim (Bool-cases (is_proposal input.proposal_id p)) [
      | inl same ↦ absurd (ground (arith, e, same, one, most, confirmable_le proposals))
      | inr other ↦
          let later : length (keep (can_confirm hash input) proposals) ≡ 1 =
            ground (arith, e, one) in
          let unique : length (keep (is_proposal input.proposal_id) proposals) ≤ 1 =
            ground (arith, other, most) in
          let (q, found, can, after) = claimed_found proposals later unique in
          (q, rw other found, can, rw (e, other) after)
    ]
  ]

  claim-ok :
      (proposals claimed : List ActionProposal)
      → claim hash input proposals ≡ ok claimed
      → (is_admin input.actor_role ≡ true)
        × (length (keep (can_confirm hash input) proposals) ≡ 1)
        × (update_rows (can_confirm hash input) (claimed_proposal input.now) proposals ≡ claimed)
  unfolding claim assert_admin
  claim-ok proposals claimed h =
      let (admin, h1) = throw_if->> (not (is_admin input.actor_role)) _ _ h in
      let (_, h2) = throw_if->> (lacks_code input.channel input.confirmation_code) _ _ h1 in
      let (one, made) = update_one-ok _ _ _ proposals claimed h2 in (ground arith, one, made)

  module _ {A : Type 0} where
    settle-ok :
        (outcome : Result (BotRow A × ControlDb A)) (db : ManagerDb A) (bot : BotRow A)
        → (settle input outcome db).result ≡ ok bot
        → outcome ≡ ok (bot, (settle input outcome db).db.control)
    unfolding settle
    settle-ok (ok outcome) db bot h = cc h
    settle-ok (throw message) db bot h = cc h

    -- The confirmation of an open proposal of the caller's own, and the control that it ran.
    pub record Applied (db : ManagerDb A) (after : ManagerDb A) (bot : BotRow A) : Type 0 where
      pub proposal : ActionProposal
      pub found : find (is_proposal input.proposal_id) db.proposals ≡ some proposal
      pub may_confirm : can_confirm hash input proposal ≡ true
      pub by_admin : is_admin input.actor_role ≡ true
      pub ran :
          apply_bot_control (control_input input proposal) db.control ≡ ok (bot, after.control)

    execute_claimed-ran :
        (p : ActionProposal) (found : Option ActionProposal) (db : ManagerDb A) (bot : BotRow A)
        → found ≡ some p
        → (execute_claimed input found db).result ≡ ok bot
        → apply_bot_control (control_input input p) db.control
          ≡ ok (bot, (execute_claimed input found db).db.control)
    unfolding execute_claimed
    execute_claimed-ran p none db bot e h = cc
    execute_claimed-ran p (some q) db bot e h =
        let same : q ≡ p = cc e in
        subst
          (λ x.
            apply_bot_control (control_input input x) db.control
            ≡ ok (bot, (execute_claimed input (some q) db).db.control))
          same (settle-ok _ db bot h)

    confirm_claimed-Applied :
        (made : Result (List ActionProposal)) (db : ManagerDb A) (bot : BotRow A)
        → claim hash input db.proposals ≡ made
        → length (keep (is_proposal input.proposal_id) db.proposals) ≤ 1
        → (confirm_claimed input made db).result ≡ ok bot
        → Applied db (confirm_claimed input made db).db bot
    unfolding confirm_claimed control_input claimed_proposal
    confirm_claimed-Applied (throw message) db bot e unique h = absurd cc
    confirm_claimed-Applied (ok claimed) db bot e unique h =
        let (admin, one, made) = claim-ok db.proposals claimed e in
        let (p, found, can, after) = claimed_found db.proposals one unique in
        record {
          proposal = p;
          found = found;
          may_confirm = can;
          by_admin = admin;
          ran =
              execute_claimed-ran (claimed_proposal input.now p) _
                (record db { proposals = claimed }) bot
                (subst
                  (λ rows.
                    find (is_proposal input.proposal_id) rows ≡ some (claimed_proposal input.now p))
                  made after)
                h;
        }

    -- Where the id stands in one row at most, a confirmation that returns was made by an Admin for
    -- an own pending proposal that had not expired, over Telegram with the code's hash, and the
    -- power control of the proposal's bot and action returned that bot on the tables that it left.
    pub confirm_manager_action_proposal-Applied :
        (db : ManagerDb A) (bot : BotRow A)
        → length (keep (is_proposal input.proposal_id) db.proposals) ≤ 1
        → (confirm_manager_action_proposal hash input db).result ≡ ok bot
        → Applied db (confirm_manager_action_proposal hash input db).db bot
    unfolding confirm_manager_action_proposal
    confirm_manager_action_proposal-Applied db bot unique h =
        confirm_claimed-Applied (claim hash input db.proposals) db bot refl unique h
