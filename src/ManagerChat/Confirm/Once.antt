-- ===== src/ManagerChat/Confirm/Once.antt =====
-- A second confirmation of one proposal.
use braiker.Prelude.Result.{ok, throw, Result}
use braiker.Prelude.{
  String, List, find, ◌≡◌, none, length, keep, ◌∷◌, arith, [], Option, refl, sym, false, Bool-cases,
  some, inr, inl,
}
use braiker.ManagerChat.Actions.{
  Confirmation, ActionProposal, can_confirm, is_proposal, is_open, assert_admin, executed_proposal,
  is_pending, failed_proposal, is_admin, lacks_code, invalid,
}
use braiker.Prelude.Table.{update_rows, update_one}
use braiker.ManagerChat.Confirm.{
  ManagerDb, claim, confirm_manager_action_proposal, settle, execute_claimed, confirm_claimed,
}
use braiker.Bots.Row.{BotRow}
use braiker.Bots.Control.{ControlDb}

none_left :
    (hash : String → String) (input : Confirmation) (change : ActionProposal → ActionProposal)
    (proposals : List ActionProposal)
    → ((p : ActionProposal) → is_pending (change p).status ≡ false)
    → length (
        keep
          (can_confirm hash input)
          (update_rows (is_proposal input.proposal_id) change proposals))
      ≡ 0
unfolding update_rows can_confirm is_open
none_left hash input change [] closes = refl
none_left hash input change (p ∷ proposals) closes =
    ground (arith, closes p, none_left hash input change proposals closes)

none_found :
    (hash : String → String) (input : Confirmation) (proposals : List ActionProposal)
    → find (is_proposal input.proposal_id) proposals ≡ none
    → length (keep (can_confirm hash input) proposals) ≡ 0
unfolding can_confirm
none_found hash input [] h = refl
none_found hash input (p ∷ proposals) h = ground (arith, none_found hash input proposals)

claim-throw :
    (hash : String → String) (input : Confirmation) (proposals : List ActionProposal)
    → length (keep (can_confirm hash input) proposals) ≡ 0
    → (e : String) × (claim hash input proposals ≡ throw e)
unfolding claim assert_admin update_one
claim-throw hash input proposals h = elim (Bool-cases (is_admin input.actor_role)) [
  | inr e ↦ ("FORBIDDEN", rw e refl)
  | inl e ↦ elim (Bool-cases (lacks_code input.channel input.confirmation_code)) [
    | inl e' ↦ (invalid, rw (e, e') refl)
    | inr e' ↦ (invalid, rw (e, e', h) refl)
  ]
]

module _ {A : Type 0} (hash : String → String) where
  -- The call throws and leaves every table as it was.
  abbrev Refused : Confirmation → ManagerDb A → Type 0
  Refused input db =
      (e : String) × (confirm_manager_action_proposal hash input db
        ≡ record { result = throw e; db = db })

  none-Refused :
      (input : Confirmation) (db : ManagerDb A)
      → length (keep (can_confirm hash input) db.proposals) ≡ 0
      → Refused input db
  unfolding confirm_manager_action_proposal confirm_claimed
  none-Refused input db h =
      let (e, thrown) = claim-throw hash input db.proposals h in (e, rw thrown refl)

  settle-Refused :
      (first second : Confirmation) (outcome : Result (BotRow A × ControlDb A)) (db : ManagerDb A)
      → first.proposal_id ≡ second.proposal_id
      → Refused second (settle first outcome db).db
  unfolding settle executed_proposal failed_proposal
  settle-Refused first second (ok outcome) db same = rw same (
      none-Refused second _
        (none_left hash second (executed_proposal first.now) db.proposals (λ p. refl)))
  settle-Refused first second (throw message) db same = rw same (
      none-Refused second _
        (none_left hash second (failed_proposal message) db.proposals (λ p. refl)))

  execute_claimed-Refused :
      (first second : Confirmation) (found : Option ActionProposal) (db : ManagerDb A)
      → first.proposal_id ≡ second.proposal_id
      → find (is_proposal first.proposal_id) db.proposals ≡ found
      → Refused second (execute_claimed first found db).db
  unfolding execute_claimed
  execute_claimed-Refused first second none db same h =
      none-Refused second db (none_found hash second db.proposals (rw (sym same) h))
  execute_claimed-Refused first second (some proposal) db same h =
      settle-Refused first second _ db same

  -- Once a confirmation has claimed a proposal, whether its control then returned or threw, every
  -- later confirmation of the proposal, by whomever and over either channel, throws and changes no
  -- table.
  pub confirm_manager_action_proposal_once :
      (first second : Confirmation) (db : ManagerDb A) (proposals : List ActionProposal)
      → first.proposal_id ≡ second.proposal_id
      → claim hash first db.proposals ≡ ok proposals
      → let db' = (confirm_manager_action_proposal hash first db).db in
        (e : String) × (confirm_manager_action_proposal hash second db'
          ≡ record { result = throw e; db = db' })
  unfolding confirm_manager_action_proposal confirm_claimed
  confirm_manager_action_proposal_once first second db proposals same claimed =
      rw claimed
        (execute_claimed-Refused first second _ (record db { proposals = proposals }) same refl)
