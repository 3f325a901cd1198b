-- ===== src/Decision/Reservation/Overbooking.antt =====
-- Competing calls of `reserveBotCapital` of src/modules/decision/reservation.ts.
use braiker.Decimal.{Decimal, ColumnLaws, money}
use braiker.Bots.Row.{BotRow, All-update_where, has_id}
use braiker.Decision.Reservation.{can_reserve, reserve_bot_capital}
use braiker.Prelude.{
  List, String, ◌≡◌, true, Bool, All, Bool-cases, inl, ◌&&◌, arith, subst, ◌∷◌, [], inr,
}
use braiker.Prelude.Text.{Text}
use braiker.Prelude.Result.{ok, >>=-eq-ok, throw, ok-injective, Result-cases}

module _ (d : Decimal) where
  -- No bot has more reserved than it owns.
  abbrev pub IsCovered : BotRow d.Carrier → Type 0
  IsCovered bot = d.lte bot.reserved_capital bot.current_capital ≡ true

  -- Requests in the order in which the database serves them: a bot's id and an amount's text. A
  -- request that throws rolls back.
  pub serve_requests : List (String × Text) → List (BotRow d.Carrier) → List (BotRow d.Carrier)
  serve_requests [] bots = bots
  serve_requests ((bot_id, amount) ∷ requests) bots =
      serve_requests requests
        (elim (reserve_bot_capital d bot_id amount bots) [ ok r ↦ r.1 | throw e ↦ bots ])

  free-of :
      (bot : BotRow d.Carrier) (amount : d.Carrier) (id : String)
      → (has_id id bot && can_reserve d bot amount) ≡ true
      → d.lte amount (d.minus bot.current_capital bot.reserved_capital) ≡ true
  unfolding can_reserve
  free-of bot amount id h = ground arith

  module _ (laws : ColumnLaws d) where
    reserve-IsCovered :
        (id : String) (amount_text : Text) (bots : List (BotRow d.Carrier))
        {r : Bool × List (BotRow d.Carrier)}
        → reserve_bot_capital d id amount_text bots ≡ ok r
        → All IsCovered bots
        → All IsCovered r.1
    unfolding reserve_bot_capital
    reserve-IsCovered id amount_text bots {r} h covered =
        let (amount, e, q) = >>=-eq-ok (money d amount_text) _ h in
        elim (Bool-cases (d.lte amount d.zero_value)) [
          | inl none_asked ↦
              subst (λ (s : Bool × List (BotRow d.Carrier)). All IsCovered s.1)
                (ok-injective (rw none_asked at q)) covered
          | inr asked ↦
              subst (λ (s : Bool × List (BotRow d.Carrier)). All IsCovered s.1)
                (ok-injective (rw asked at q))
                (All-update_where IsCovered _ _ bots
                  (λ bot picked _.
                    laws.fits_on_top amount bot.current_capital bot.reserved_capital
                      (free-of bot amount id picked))
                  covered)
        ]

    -- Where the columns' arithmetic is exact and no bot has more reserved than it owns, serving any
    -- sequence of reservation requests leaves no bot with more reserved than it owns.
    pub serve_requests-IsCovered :
        (requests : List (String × Text)) (bots : List (BotRow d.Carrier))
        → All IsCovered bots
        → All IsCovered (serve_requests requests bots)
    unfolding serve_requests
    serve_requests-IsCovered [] bots h = h
    serve_requests-IsCovered ((id, amount) ∷ requests) bots h =
        elim (Result-cases (reserve_bot_capital d id amount bots)) [
          | inl (r, e) ↦
              rw e (serve_requests-IsCovered requests r.1 (reserve-IsCovered id amount bots e h))
          | inr (m, e) ↦ rw e (serve_requests-IsCovered requests bots h)
        ]
