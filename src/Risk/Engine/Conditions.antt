-- ===== src/Risk/Engine/Conditions.antt =====
-- Each condition of a safe trade against the check that decides it in
-- src/modules/risk/risk-engine.ts.
use braiker.Domain.{buy, sell, market, limit, OrderType, Side}
use braiker.Decimal.{Decimal, money}
use braiker.Risk.Engine.{
  is_positive, above_loss, price_of, requested_value, held_value, exposure_from, holds_quantity,
  projected, projected_position, projected_exposure, existing_position, current_exposure,
}
use braiker.Risk.Engine.Checks.{AtMost}
use braiker.Prelude.Result.{◌>>=◌, Result}
use braiker.Prelude.{
  List, [], ◌∷◌, some, Bool, true, false, ◌≡◌, refl, inl, inr, String, ◌↔◌, find, str_eq, ap, subst,
  Bool-cases, get_or, ◌∙◌, sym,
}
use braiker.Prelude.Text.{Text, literal}
use braiker.Prelude.Result.{ok, >>=-eq-ok, ok-injective, any_result}
use braiker.Risk.Types.{Proposal, BrokerPosition, RiskPolicy, RiskContext}
use braiker.Risk.Engine.Safety.{
  IsPositive, IsAboveLoss, Holds, Adds, IsPrice, Costs, Covers, HasQuantity, IsAffordable,
  StaysWithin, After,
}

module _ (d : Decimal) where
  pub is_positive-ok : (t : Text) → (is_positive d t ≡ ok true) ↔ IsPositive d t
  unfolding is_positive
  is_positive-ok t = (
    λ h. let (value, e, made) = >>=-eq-ok (money d t) _ h in (value, e, ok-injective made),
    λ p. rw p.1 (ap ok p.2),
  )

  pub above_loss-ok : (pnl most : Text) → (above_loss d pnl most ≡ ok true) ↔ IsAboveLoss d pnl most
  unfolding above_loss
  above_loss-ok pnl most = (
    λ h.
        let (result, er, h1) = >>=-eq-ok (money d pnl) _ h in
        let (loss, el, h2) = >>=-eq-ok (money d most) _ h1 in
        (result, loss, er, el, ok-injective h2),
    λ p. rw (p.2, p.3) (ap ok p.4),
  )

  price_of-ok :
      (kind : OrderType) (proposal : Proposal) (policy : RiskPolicy) (price : d.Carrier)
      → (kind ≡ limit → (t : Text) × (proposal.limit_price ≡ some t) × IsPositive d t)
      → (price_of d kind proposal policy ≡ ok price) ↔ IsPrice d kind proposal policy price
  unfolding price_of
  price_of-ok market proposal policy price given = (
    λ h.
        let (estimate, ee, h1) = >>=-eq-ok (money d proposal.estimated_price) _ h in
        let (buffer, eb, h2) = >>=-eq-ok (money d policy.market_order_buffer_pct) _ h1 in
        (estimate, buffer, ee, eb, ok-injective h2),
    λ p. rw (p.2, p.3) (ap ok p.4),
  )
  price_of-ok limit proposal policy price given =
      let (t, e, _) = given refl in
      (λ h. (t, e, subst (λ o. money d (get_or o (literal "0")) ≡ ok price) e h), λ p. rw p.1 p.2)

  requested_value-ok :
      (proposal : Proposal) (policy : RiskPolicy) (cost : d.Carrier)
      → (proposal.order_type ≡ limit
          → (t : Text) × (proposal.limit_price ≡ some t) × IsPositive d t)
      → (requested_value d proposal policy ≡ ok cost) ↔ Costs d proposal policy cost
  unfolding requested_value
  requested_value-ok proposal policy cost given = (
    λ h.
        let (price, ep, h1) = >>=-eq-ok (price_of d proposal.order_type proposal policy) _ h in
        let (quantity, eq, h2) = >>=-eq-ok (money d proposal.quantity) _ h1 in
        (
          price,
          quantity,
          (price_of-ok proposal.order_type proposal policy price given).0 ep,
          eq,
          ok-injective h2,
        ),
    λ c. rw ((price_of-ok proposal.order_type proposal policy c.0 given).1 c.2, c.3) (ap ok c.4),
  )

  held_value-ok :
      (symbol : String) (positions : List BrokerPosition) (held : d.Carrier)
      → (held_value d (find (λ (p : BrokerPosition). str_eq p.symbol symbol) positions) ≡ ok held)
        ↔ Holds d symbol positions held
  unfolding held_value
  held_value-ok symbol [] held = (λ h. ok-injective h, λ h. ap ok h)
  held_value-ok symbol (position ∷ positions) held =
      elim (Bool-cases (str_eq position.symbol symbol)) [
        | inl e ↦ rw e (
          λ h.
              let (value, ev, made) = >>=-eq-ok (money d position.market_value) _ h in
              inl (refl, (value, ev, ok-injective made)),
          λ h. elim h [ inl (_, (value, ev, made)) ↦ rw ev (ap ok made) | inr (never, _) ↦ cc ],
        )
        | inr e ↦
            let rest = held_value-ok symbol positions held in
            rw e (
              λ h. inr (refl, rest.0 h),
              λ h. elim h [ inl (never, _) ↦ cc | inr (_, holds) ↦ rest.1 holds ],
            )
      ]

  exposure_from-ok :
      (sum : d.Carrier) (positions : List BrokerPosition) (exposure : d.Carrier)
      → (exposure_from d sum positions ≡ ok exposure) ↔ Adds d sum positions exposure
  unfolding exposure_from
  exposure_from-ok sum [] exposure = (λ h. ok-injective h, λ h. ap ok h)
  exposure_from-ok sum (position ∷ positions) exposure = (
    λ h.
        let (value, ev, rest) = >>=-eq-ok (money d position.market_value) _ h in
        (value, ev, (exposure_from-ok (d.plus sum (d.abs_value value)) positions exposure).0 rest),
    λ p. rw p.1 ((exposure_from-ok (d.plus sum (d.abs_value p.0)) positions exposure).1 p.2),
  )

  holds_quantity-mine :
      (proposal : Proposal) (position : BrokerPosition) (enough : Bool)
      → str_eq position.symbol proposal.symbol ≡ true
      → (holds_quantity d proposal position ≡ ok enough) ↔ HasQuantity d proposal position enough
  unfolding holds_quantity
  holds_quantity-mine proposal position enough e = rw e (
    λ h.
        let (held, eh, h1) = >>=-eq-ok (money d position.quantity) _ h in
        let (sold, es, h2) = >>=-eq-ok (money d proposal.quantity) _ h1 in
        (held, sold, eh, es, ok-injective h2),
    λ p. rw (p.2, p.3) (ap ok p.4),
  )

  holds_quantity-other :
      (proposal : Proposal) (position : BrokerPosition)
      → str_eq position.symbol proposal.symbol ≡ false
      → holds_quantity d proposal position ≡ ok false
  unfolding holds_quantity
  holds_quantity-other proposal position e = rw e refl

  any_result-head :
      (proposal : Proposal) (position : BrokerPosition) (positions : List BrokerPosition)
      (found : Bool)
      → holds_quantity d proposal position ≡ ok found
      → any_result (holds_quantity d proposal) (position ∷ positions)
        ≡ (elim found [ true ↦ ok true | false ↦ any_result (holds_quantity d proposal) positions ])
  unfolding any_result
  any_result-head proposal position positions found e = rw e refl

  pub Covers-any_result :
      (proposal : Proposal) (positions : List BrokerPosition)
      → Covers d proposal positions
      → any_result (holds_quantity d proposal) positions ≡ ok true
  Covers-any_result proposal [] h = cc
  Covers-any_result proposal (position ∷ positions) h = elim h [
    | inl (e, enough) ↦
        any_result-head proposal position positions true
          ((holds_quantity-mine proposal position true e).1 enough)
    | inr (inl (e, less, rest)) ↦
        any_result-head proposal position positions false
          ((holds_quantity-mine proposal position false e).1 less)
        ∙ Covers-any_result proposal positions rest
    | inr (inr (e, rest)) ↦
        any_result-head proposal position positions false (holds_quantity-other proposal position e)
        ∙ Covers-any_result proposal positions rest
  ]

  pub any_result-Covers :
      (proposal : Proposal) (positions : List BrokerPosition)
      → any_result (holds_quantity d proposal) positions ≡ ok true
      → Covers d proposal positions
  unfolding any_result
  any_result-Covers proposal [] h = cc
  any_result-Covers proposal (position ∷ positions) h =
      let (found, ef, rest) = >>=-eq-ok (holds_quantity d proposal position) _ h in
      elim (Bool-cases (str_eq position.symbol proposal.symbol)) [
        | inl e ↦ elim (Bool-cases found) [
          | inl t ↦ inl (e, (holds_quantity-mine proposal position true e).0 (ef ∙ ap ok t))
          | inr f ↦ inr (
              inl (
                e,
                (holds_quantity-mine proposal position false e).0 (ef ∙ ap ok f),
                any_result-Covers proposal positions
                    (sym (any_result-head proposal position positions false (ef ∙ ap ok f)) ∙ h),
              ))
        ]
        | inr e ↦ inr (
            inr (
              e,
              any_result-Covers proposal positions (
                  sym (
                    any_result-head proposal position positions false
                      (holds_quantity-other proposal position e))
                  ∙ h),
            ))
      ]

  projected-After :
      (side : Side) (amount cost after : d.Carrier)
      → (projected d side amount cost ≡ after) ↔ After d side amount cost after
  unfolding projected
  projected-After buy amount cost after = (λ h. h, λ h. h)
  projected-After sell amount cost after = (λ h. h, λ h. h)

  -- A limit on what the order makes of an amount, against the check of the same computation.
  StaysWithin-ok :
      (proposal : Proposal) (policy : RiskPolicy) (amount : Result d.Carrier)
      (IsAmount : d.Carrier → Type 0) (most : Text)
      → (proposal.order_type ≡ limit
          → (t : Text) × (proposal.limit_price ≡ some t) × IsPositive d t)
      → ((a : d.Carrier) → (amount ≡ ok a) ↔ IsAmount a)
      → AtMost d
          (requested_value d proposal policy >>= λ cost.
            amount >>= λ a. ok (projected d proposal.action a cost))
          most
        ↔ StaysWithin d proposal policy IsAmount most
  StaysWithin-ok proposal policy amount IsAmount most given reads = (
    λ p.
        let (cost, ec, h1) = >>=-eq-ok (requested_value d proposal policy) _ p.2 in
        let (a, ea, h2) = >>=-eq-ok amount _ h1 in
        (
          cost,
          a,
          p.0,
          p.1,
          (requested_value-ok proposal policy cost given).0 ec,
          (reads a).0 ea,
          (projected-After proposal.action a cost p.0).0 (ok-injective h2),
          p.3,
          p.4,
        ),
    λ p. (
      p.2,
      p.3,
      rw ((requested_value-ok proposal policy p.0 given).1 p.4, (reads p.1).1 p.5)
          (ap ok ((projected-After proposal.action p.1 p.0 p.2).1 p.6)),
      p.7,
      p.8,
    ),
  )

  pub position-ok :
      (proposal : Proposal) (context : RiskContext) (policy : RiskPolicy) (most : Text)
      → (proposal.order_type ≡ limit
          → (t : Text) × (proposal.limit_price ≡ some t) × IsPositive d t)
      → AtMost d (projected_position d proposal context policy) most
        ↔ StaysWithin d proposal policy (Holds d proposal.symbol context.positions) most
  unfolding projected_position existing_position
  position-ok proposal context policy most given =
      StaysWithin-ok proposal policy _ (Holds d proposal.symbol context.positions) most given
        (held_value-ok proposal.symbol context.positions)

  pub exposure-ok :
      (proposal : Proposal) (context : RiskContext) (policy : RiskPolicy) (most : Text)
      → (proposal.order_type ≡ limit
          → (t : Text) × (proposal.limit_price ≡ some t) × IsPositive d t)
      → AtMost d (projected_exposure d proposal context policy) most
        ↔ StaysWithin d proposal policy (Adds d d.zero_value context.positions) most
  unfolding projected_exposure current_exposure
  exposure-ok proposal context policy most given =
      StaysWithin-ok proposal policy _ (Adds d d.zero_value context.positions) most given
        (exposure_from-ok d.zero_value context.positions)

  pub IsAffordable-ok :
      (proposal : Proposal) (policy : RiskPolicy) (available : Text)
      → (proposal.order_type ≡ limit
          → (t : Text) × (proposal.limit_price ≡ some t) × IsPositive d t)
      → AtMost d (requested_value d proposal policy) available
        ↔ IsAffordable d proposal policy available
  IsAffordable-ok proposal policy available given = (
    λ p. (p.0, p.1, (requested_value-ok proposal policy p.0 given).0 p.2, p.3, p.4),
    λ p. (p.0, p.1, (requested_value-ok proposal policy p.0 given).1 p.2, p.3, p.4),
  )
