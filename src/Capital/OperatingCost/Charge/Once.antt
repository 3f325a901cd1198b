-- ===== src/Capital/OperatingCost/Charge/Once.antt =====
-- A repeated charge by `chargeOneBot` of src/modules/capital/operating-cost-service.ts.
use braiker.Decimal.{Decimal, money}
use braiker.Bots.Row.{BotRow, find_bot, find_bot-id}
use braiker.Capital.OperatingCost.{apply_operating_cost_debit, DebitResult}
use braiker.Capital.OperatingCost.Charge.{
  CostAllocation, CostDb, ChargeInput, ChargeOutcome, charge_skipped, is_allocation_of, debit_input,
  with_charge, charge_unless, nothing_due, charge_if_found, charge_one_bot, column,
}
use braiker.Prelude.Result.{ok, >>=-eq-ok, ok-injective}
use braiker.Prelude.{
  List, [], ◌∷◌, Option, none, some, Bool, true, false, ℕ, ◌≡◌, refl, arith, inl, inr, String, any,
  eq_iff, ◌++◌, ◌⊎◌, subst, sym, ◌∙◌,
}

module _ (d : Decimal) where
  abbrev IsCharged : String → ℕ → CostDb d.Carrier → Type 0
  IsCharged bot_id month db = any (is_allocation_of bot_id month) db.allocations ≡ true

  any-append :
      (bot_id : String) (month : ℕ) (rows : List (CostAllocation d.Carrier))
      (row : CostAllocation d.Carrier)
      → is_allocation_of bot_id month row ≡ true
      → any (is_allocation_of bot_id month) (rows ++ row ∷ []) ≡ true
  any-append bot_id month [] row h = ground arith
  any-append bot_id month (r ∷ rows) row h = ground (arith, any-append bot_id month rows row h)

  allocation_of_itself :
      (bot_id : String) (month : ℕ) (row : CostAllocation d.Carrier)
      → row.bot_id ≡ bot_id
      → row.billing_month ≡ month
      → is_allocation_of bot_id month row ≡ true
  unfolding is_allocation_of
  allocation_of_itself bot_id month row h h' = ground (arith, eq_iff row.bot_id bot_id)

  with_charge-IsCharged :
      (input : ChargeInput) (bot : BotRow d.Carrier) (debit : DebitResult)
      (db db' : CostDb d.Carrier) (outcome : ChargeOutcome)
      → with_charge d input bot debit db ≡ ok (outcome, db')
      → IsCharged bot.id input.billing_month db'
  unfolding with_charge
  with_charge-IsCharged input bot debit db db' outcome h =
      let (c1, _, h1) = >>=-eq-ok (column d debit.capital_after) _ h in
      let (c2, _, h2) = >>=-eq-ok (column d input.monthly_cost) _ h1 in
      let (c3, _, h3) = >>=-eq-ok (column d input.allocated_amount) _ h2 in
      let (c4, _, h4) = >>=-eq-ok (column d debit.charged_amount) _ h3 in
      let (c5, _, h5) = >>=-eq-ok (column d debit.unpaid_amount) _ h4 in
      let (c6, _, h6) = >>=-eq-ok (money d debit.charged_amount) _ h5 in
      subst (λ (r : ChargeOutcome × CostDb d.Carrier). IsCharged bot.id input.billing_month r.1)
        (ok-injective h6)
        (any-append bot.id input.billing_month db.allocations _
          (allocation_of_itself bot.id input.billing_month _ refl refl))

  charge_unless-settled :
      (due : Bool) (input : ChargeInput) (db db' : CostDb d.Carrier) (bot : BotRow d.Carrier)
      (outcome : ChargeOutcome)
      → nothing_due d input db bot ≡ due
      → charge_unless d due input db bot ≡ ok (outcome, db')
      → ((db' ≡ db) × (nothing_due d input db bot ≡ true))
        ⊎ IsCharged bot.id input.billing_month db'
  unfolding charge_unless
  charge_unless-settled true input db db' bot outcome e h = inl (ground arith, e)
  charge_unless-settled false input db db' bot outcome e h =
      let (debit, _, h1) =
        >>=-eq-ok (apply_operating_cost_debit (debit_input d input bot db.positions)) _ h in
      inr (with_charge-IsCharged input bot debit db db' outcome h1)

  charge_if_found-settled :
      (input : ChargeInput) (db db' : CostDb d.Carrier) (bot : Option (BotRow d.Carrier))
      (outcome : ChargeOutcome)
      → charge_if_found d input db bot ≡ ok (outcome, db')
      → ((db' ≡ db) × (charge_if_found d input db bot ≡ ok (charge_skipped, db)))
        ⊎ ((b : BotRow d.Carrier) × (bot ≡ some b) × IsCharged b.id input.billing_month db')
  unfolding charge_if_found charge_unless
  charge_if_found-settled input db db' none outcome h = inl (ground arith, refl)
  charge_if_found-settled input db db' (some bot) outcome h =
      elim (charge_unless-settled _ input db db' bot outcome refl h) [
        | inl (same, skips) ↦ inl (same, rw skips refl)
        | inr paid ↦ inr (bot, refl, paid)
      ]

  charge_if_found-skips :
      (input : ChargeInput) (db : CostDb d.Carrier) (bot : Option (BotRow d.Carrier))
      → ((b : BotRow d.Carrier) → bot ≡ some b → nothing_due d input db b ≡ true)
      → charge_if_found d input db bot ≡ ok (charge_skipped, db)
  unfolding charge_if_found charge_unless
  charge_if_found-skips input db none h = refl
  charge_if_found-skips input db (some b) h = rw (h b refl) refl

  IsCharged-nothing_due :
      (input : ChargeInput) (db : CostDb d.Carrier) (bot : BotRow d.Carrier) (id : String)
      → bot.id ≡ id
      → IsCharged id input.billing_month db
      → nothing_due d input db bot ≡ true
  unfolding nothing_due
  IsCharged-nothing_due input db bot id same h = rw same (ground (arith, h))

  -- A charge that returned leaves tables on which the same charge is skipped and changes nothing.
  pub charge_one_bot_once :
      (input : ChargeInput) (db db' : CostDb d.Carrier) (outcome : ChargeOutcome)
      → charge_one_bot d input db ≡ ok (outcome, db')
      → charge_one_bot d input db' ≡ ok (charge_skipped, db')
  unfolding charge_one_bot
  charge_one_bot_once input db db' outcome h =
      elim (charge_if_found-settled input db db' (find_bot input.bot_id db.bots) outcome h) [
        | inl (same, skips) ↦
            subst
              (λ x.
                charge_if_found d input x (find_bot input.bot_id x.bots) ≡ ok (charge_skipped, x))
              (sym same) skips
        | inr (bot, found, paid) ↦
            charge_if_found-skips input db' (find_bot input.bot_id db'.bots) (λ b f.
              IsCharged-nothing_due input db' b bot.id
                (find_bot-id input.bot_id db'.bots b f
                  ∙ sym (find_bot-id input.bot_id db.bots bot found))
                paid)
      ]
