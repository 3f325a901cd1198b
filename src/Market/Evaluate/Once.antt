-- ===== src/Market/Evaluate/Once.antt =====
-- A second evaluation of one bot on one candle.
use braiker.Prelude.Result.{ok}
use braiker.Prelude.{
  true, ◌≡◌, List, String, arith, any, eq_iff, ◌∷◌, Bool-cases, subst, inl, inr, ◌++◌, [], ◌∙◌,
  refl,
}
use braiker.Prelude.Table.{update_rows}
use braiker.Decimal.{Decimal}
use braiker.Indicators.Number.{Number}
use braiker.Risk.Types.{RiskPolicy}
use braiker.Bots.AdaptiveRisk.{Level}
use braiker.Market.ScanActivity.{already_evaluated}
use braiker.Market.Evaluation.{
  EvaluationInput, MarketEvaluation, EvaluationStatus, created, EvaluationKey, same_key,
  evaluation_key,
}
use braiker.Market.Evaluate.{
  MarketDb, has_key, with_status, settled, evaluate_bot_for_bar, evaluate_candle,
}

same_key_refl : (key : EvaluationKey) → same_key key key ≡ true
unfolding same_key
same_key_refl key = ground (arith, eq_iff key.bot_id key.bot_id, eq_iff key.symbol key.symbol)

any-last :
    (key : EvaluationKey) (rows : List MarketEvaluation) (status : EvaluationStatus)
    → any (has_key key) (rows ++ record { key = key; status = status } ∷ []) ≡ true
any-last key [] status = ground (arith, same_key_refl key)
any-last key (row ∷ rows) status = ground (arith, any-last key rows status)

any-with_status :
    (key : EvaluationKey) (status : EvaluationStatus) (rows : List MarketEvaluation)
    → any (has_key key) (update_rows (has_key key) (with_status status) rows)
      ≡ any (has_key key) rows
unfolding update_rows with_status
any-with_status key status [] = refl
any-with_status key status (row ∷ rows) = ground (arith, any-with_status key status rows)

module _ (d : Decimal) (n : Number) (hash : Level → RiskPolicy → RiskPolicy → String) where
  pub leaves_key :
      (input : EvaluationInput d.Carrier n.Carrier) (db : MarketDb d.Carrier)
      → any (has_key (evaluation_key input)) (evaluate_bot_for_bar d n hash input db).1.evaluations
        ≡ true
  unfolding evaluate_bot_for_bar settled
  leaves_key input db = elim (Bool-cases (any (has_key (evaluation_key input)) db.evaluations)) [
    | inl e ↦ rw e e
    | inr e ↦ rw e (
        any-with_status (evaluation_key input) (evaluate_candle d n hash input db.work).status
          (db.evaluations ++ record { key = evaluation_key input; status = created } ∷ [])
        ∙ any-last (evaluation_key input) db.evaluations created)
  ]

  pub refuses_key :
      (input : EvaluationInput d.Carrier n.Carrier) (db : MarketDb d.Carrier)
      → any (has_key (evaluation_key input)) db.evaluations ≡ true
      → evaluate_bot_for_bar d n hash input db ≡ (ok already_evaluated, db)
  unfolding evaluate_bot_for_bar
  refuses_key input db h = rw h refl

  -- After an evaluation of a bot on a candle of a symbol, whatever it returned or threw, every
  -- further one under the same key returns that it was evaluated and changes no table.
  pub evaluate_bot_for_bar_once :
      (first second : EvaluationInput d.Carrier n.Carrier) (db : MarketDb d.Carrier)
      → evaluation_key first ≡ evaluation_key second
      → evaluate_bot_for_bar d n hash second (evaluate_bot_for_bar d n hash first db).1
        ≡ (ok already_evaluated, (evaluate_bot_for_bar d n hash first db).1)
  evaluate_bot_for_bar_once first second db same =
      refuses_key second (evaluate_bot_for_bar d n hash first db).1 (
        subst (λ k. any (has_key k) (evaluate_bot_for_bar d n hash first db).1.evaluations ≡ true)
          same (leaves_key first db))

  -- A key that stands stays.
  any-earlier :
      (key other : EvaluationKey) (status : EvaluationStatus) (rows : List MarketEvaluation)
      → any (has_key key) (update_rows (has_key other) (with_status status) rows)
        ≡ any (has_key key) rows
  unfolding update_rows with_status
  any-earlier key other status [] = refl
  any-earlier key other status (row ∷ rows) = ground (arith, any-earlier key other status rows)

  any-more :
      (key : EvaluationKey) (rows : List MarketEvaluation) (row : MarketEvaluation)
      → any (has_key key) rows ≡ true
      → any (has_key key) (rows ++ row ∷ []) ≡ true
  any-more key [] row h = cc
  any-more key (r ∷ rows) row h = ground (arith, any-more key rows row)

  pub keeps_key :
      (key : EvaluationKey) (input : EvaluationInput d.Carrier n.Carrier) (db : MarketDb d.Carrier)
      → any (has_key key) db.evaluations ≡ true
      → any (has_key key) (evaluate_bot_for_bar d n hash input db).1.evaluations ≡ true
  unfolding evaluate_bot_for_bar settled
  keeps_key key input db h =
      elim (Bool-cases (any (has_key (evaluation_key input)) db.evaluations)) [
        | inl e ↦ rw e h
        | inr e ↦ rw e (
            any-earlier key (evaluation_key input) (evaluate_candle d n hash input db.work).status
              (db.evaluations ++ record { key = evaluation_key input; status = created } ∷ [])
            ∙ any-more key db.evaluations _ h)
      ]
