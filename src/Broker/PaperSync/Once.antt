-- ===== src/Broker/PaperSync/Once.antt =====
-- Repeated reports of one order to `reconcileBotOrder` of src/modules/broker/paper-sync.ts.
use braiker.Decimal.{Decimal}
use braiker.Decision.Service.{ProposalRow}
use braiker.Broker.PaperSync.{
  BrokerReport, SyncOrder, SyncDb, is_terminal, find_order, update_status, claim_release, claims,
  reconcile_terminal, reconcile_found, reconcile_with_proposal, reconcile_order, has_order_id,
  with_status, can_release, released,
}
use braiker.Broker.PaperSync.Account.{book_terminal, reconcile_bot_order}
use braiker.Prelude.Result.{ok, >>=-eq-ok, ok-injective}
use braiker.Prelude.Table.{update_rows}
use braiker.Prelude.{
  List, [], ◌∷◌, Option, none, some, Bool, true, false, ◌≡◌, refl, arith, inl, inr, String,
  Bool-cases, keep, str_eq, subst, ◌⊎◌, sym, ap, subst₂, ◌∙◌,
}

-- An update that keeps both ids finds a row of the same id.
find_order-update_rows :
    (client_id : String) (picks : SyncOrder → Bool) (change : SyncOrder → SyncOrder)
    (orders : List SyncOrder) (order' : SyncOrder)
    → ((o : SyncOrder) → (change o).client_order_id ≡ o.client_order_id)
    → ((o : SyncOrder) → (change o).id ≡ o.id)
    → find_order client_id (update_rows picks change orders) ≡ some order'
    → (order : SyncOrder) × (find_order client_id orders ≡ some order) × (order'.id ≡ order.id)
unfolding find_order update_rows
find_order-update_rows client_id picks change [] order' keeps same h = cc h
find_order-update_rows client_id picks change (o ∷ orders) order' keeps same h =
    elim (Bool-cases (str_eq o.client_order_id client_id)) [
      | inl e ↦ (o, ground (arith, e), ground (arith, e, keeps o, same o))
      | inr e ↦
          let (order, found, id) =
            find_order-update_rows client_id picks change orders order' keeps same
              (ground (arith, e, keeps o)) in
          (order, ground (arith, e, found), id)
    ]

none_left :
    (id status : String) (orders : List SyncOrder)
    → keep (can_release id) (update_status id status (claim_release id orders)) ≡ []
unfolding update_status claim_release update_rows can_release released with_status has_order_id
none_left id status [] = refl
none_left id status (o ∷ orders) = ground (arith, none_left id status orders)

claims-after :
    (id status : String) (orders : List SyncOrder)
    → claims id (update_status id status (claim_release id orders)) ≡ false
unfolding claims
claims-after id status orders = rw (none_left id status orders) refl

module _ (d : Decimal) where
  found_unclaimed :
      (terminal : Bool) (report : BrokerReport) (order : SyncOrder)
      (proposal : ProposalRow d.Carrier) (db db' : SyncDb d.Carrier)
      → claims order.id db.orders ≡ false
      → reconcile_found d (book_terminal d) terminal report order proposal db ≡ ok db'
      → db'.books ≡ db.books
  unfolding reconcile_found reconcile_terminal
  found_unclaimed false report order proposal db db' unclaimed h = ground arith
  found_unclaimed true report order proposal db db' unclaimed h =
      let h' =
        subst (λ b. reconcile_terminal d (book_terminal d) b report order proposal db ≡ ok db')
          unclaimed h in
      ap (λ x. x.books) (sym (ok-injective h'))

  with_proposal_unclaimed :
      (report : BrokerReport) (order : SyncOrder) (proposal : Option (ProposalRow d.Carrier))
      (db db' : SyncDb d.Carrier)
      → claims order.id db.orders ≡ false
      → reconcile_with_proposal d (book_terminal d) report order proposal db ≡ ok db'
      → db'.books ≡ db.books
  unfolding reconcile_with_proposal
  with_proposal_unclaimed report order none db db' unclaimed h = ground arith
  with_proposal_unclaimed report order (some proposal) db db' unclaimed h =
      found_unclaimed (is_terminal report.status) report order proposal db db' unclaimed h

  -- A call that does not claim books nothing.
  reconcile_order-unclaimed :
      (report : BrokerReport) (found : Option SyncOrder) (db db' : SyncDb d.Carrier)
      → ((order : SyncOrder) → found ≡ some order → claims order.id db.orders ≡ false)
      → reconcile_order d (book_terminal d) report found db ≡ ok db'
      → db'.books ≡ db.books
  unfolding reconcile_order
  reconcile_order-unclaimed report none db db' unclaimed h = ground arith
  reconcile_order-unclaimed report (some order) db db' unclaimed h =
      with_proposal_unclaimed report order _ db db' (unclaimed order refl) h

  terminal_orders :
      (claim : Bool) (report : BrokerReport) (order : SyncOrder) (proposal : ProposalRow d.Carrier)
      (db db' : SyncDb d.Carrier)
      → reconcile_terminal d (book_terminal d) claim report order proposal db ≡ ok db'
      → db'.orders ≡ update_status order.id report.status (claim_release order.id db.orders)
  unfolding reconcile_terminal
  terminal_orders false report order proposal db db' h = ground arith
  terminal_orders true report order proposal db db' h =
      let (books, _, h') = >>=-eq-ok (book_terminal d report order proposal db.books) _ h in
      ground arith

  -- A terminal report that returns: its order is released, or it had nothing to act on and never has.
  abbrev AfterTerminal :
      BrokerReport → Option SyncOrder → SyncDb d.Carrier → SyncDb d.Carrier → Type 0
  AfterTerminal report found db db' =
      ((order : SyncOrder) × (found ≡ some order)
        × (db'.orders ≡ update_status order.id report.status (claim_release order.id db.orders)))
      ⊎ ((db' ≡ db)
          × ((later : BrokerReport) → reconcile_order d (book_terminal d) later found db ≡ ok db))

  with_proposal_after :
      (report : BrokerReport) (order : SyncOrder) (proposal : Option (ProposalRow d.Carrier))
      (db db' : SyncDb d.Carrier)
      → is_terminal report.status ≡ true
      → reconcile_with_proposal d (book_terminal d) report order proposal db ≡ ok db'
      → (db'.orders ≡ update_status order.id report.status (claim_release order.id db.orders))
        ⊎ ((db' ≡ db)
            × ((later : BrokerReport)
                → reconcile_with_proposal d (book_terminal d) later order proposal db ≡ ok db))
  unfolding reconcile_with_proposal reconcile_found
  with_proposal_after report order none db db' terminal h =
      inr (ok-injective (sym h), λ later. refl)
  with_proposal_after report order (some proposal) db db' terminal h = inl (
      terminal_orders (claims order.id db.orders) report order proposal db db' (
        subst (λ b. reconcile_found d (book_terminal d) b report order proposal db ≡ ok db')
          terminal h))

  reconcile_order-AfterTerminal :
      (report : BrokerReport) (found : Option SyncOrder) (db db' : SyncDb d.Carrier)
      → is_terminal report.status ≡ true
      → reconcile_order d (book_terminal d) report found db ≡ ok db'
      → AfterTerminal report found db db'
  unfolding reconcile_order
  reconcile_order-AfterTerminal report none db db' terminal h =
      inr (ok-injective (sym h), λ later. refl)
  reconcile_order-AfterTerminal report (some order) db db' terminal h =
      elim (with_proposal_after report order _ db db' terminal h) [
        | inl orders ↦ inl (order, refl, orders)
        | inr idle ↦ inr idle
      ]

  -- The order that is found after the release is the one that was found before.
  released_same :
      (client_id status : String) (order order' : SyncOrder) (orders : List SyncOrder)
      → find_order client_id orders ≡ some order
      → find_order client_id (update_status order.id status (claim_release order.id orders))
        ≡ some order'
      → order'.id ≡ order.id
  unfolding update_status claim_release released with_status
  released_same client_id status order order' orders found found' =
      let (o1, f1, same1) =
        find_order-update_rows client_id _ (with_status status) (claim_release order.id orders)
          order' (λ o. refl) (λ o. refl) found' in
      let (o2, f2, same2) =
        find_order-update_rows client_id _ released orders o1 (λ o. refl) (λ o. refl) f1 in
      cc (found, f2, same1, same2)

  -- After a reconciliation of a terminal report returned, a later reconciliation of any report on
  -- the same client order id, if it returns, changes no bot, position, fill, proposal, event,
  -- transition or learning record.
  pub reconcile_bot_order_once :
      (report later : BrokerReport) (db db' db'' : SyncDb d.Carrier)
      → is_terminal report.status ≡ true
      → later.client_order_id ≡ report.client_order_id
      → reconcile_bot_order d report db ≡ ok db'
      → reconcile_bot_order d later db' ≡ ok db''
      → db''.books ≡ db'.books
  unfolding reconcile_bot_order
  reconcile_bot_order_once report later db db' db'' terminal same h h' =
      elim (reconcile_order-AfterTerminal report (find_order report.client_order_id db.orders) db
        db' terminal h) [
          | inl (order, found, orders) ↦
              reconcile_order-unclaimed later (find_order later.client_order_id db'.orders) db' db''
                (λ order' found'.
                  let found'' = subst₂ (λ c os. find_order c os ≡ some order') same orders found' in
                  let same_id =
                    released_same report.client_order_id report.status order order' db.orders found
                      found'' in
                  subst₂ (λ i os. claims i os ≡ false) (sym same_id) (sym orders)
                    (claims-after order.id report.status db.orders))
                h'
          | inr (idle, again) ↦
              let repeated =
                subst₂
                  (λ c x.
                    reconcile_order d (book_terminal d) later (find_order c x.orders) x ≡ ok x)
                  (sym same) (sym idle) (again later) in
              ap (λ x. x.books) (ok-injective (sym h' ∙ repeated))
        ]
