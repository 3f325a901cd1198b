-- ===== src/Strategy/Trend/Entry.antt =====
-- When the trend strategy trades.
use braiker.Domain.{TradeAction, trade, buy, sell}
use braiker.Indicators.Number.{Number}
use braiker.Strategy.Trend.{
  StrategyContext, evaluate_trend_strategy, may_enter, must_exit, score_buy, is_above,
  bearish_trend, is_negative,
}
use braiker.Prelude.{true, false, Option, ◌≡◌, some, none, refl, ◌↔◌, arith, and-true, ◌&&◌}

module _ (n : Number) (context : StrategyContext n.Carrier) where
  above_both :
      (a b : Option n.Carrier)
      → is_above n a b ≡ true
      → (x : n.Carrier) × (y : n.Carrier) × (a ≡ some x) × (b ≡ some y) × (n.lt y x ≡ true)
  unfolding is_above
  above_both none b h = cc
  above_both (some x) none h = cc
  above_both (some x) (some y) h = (x, y, refl, refl, h)

  negative_known :
      (a : Option n.Carrier)
      → is_negative n a ≡ true
      → (x : n.Carrier) × (a ≡ some x) × (n.lt x (n.of_ℕ 0) ≡ true)
  unfolding is_negative
  negative_known none h = cc
  negative_known (some x) h = (x, refl, h)

  -- An exit has both averages, the shorter one lower, and a momentum below zero.
  abbrev pub IsFalling : Type 0
  IsFalling =
      (context.has_position ≡ true)
      × ((fast : n.Carrier) × (slow : n.Carrier) × (context.indicators.ema9 ≡ some fast)
          × (context.indicators.ema21 ≡ some slow)
          × (n.lt fast slow ≡ true))
      × ((momentum : n.Carrier) × (context.indicators.momentum5 ≡ some momentum)
          × (n.lt momentum (n.of_ℕ 0) ≡ true))

  abbrev action : TradeAction
  action = (evaluate_trend_strategy n context).action

  sells_when : (action ≡ trade sell) ↔ (must_exit n context ≡ true)
  unfolding evaluate_trend_strategy
  sells_when = (λ h. ground (arith, h), λ h. ground (arith, h))

  buys_when : (action ≡ trade buy) ↔ ((must_exit n context ≡ false) × (may_enter n context ≡ true))
  unfolding evaluate_trend_strategy
  buys_when = (λ h. (ground (arith, h), ground (arith, h)), λ (h, h'). ground (arith, h, h'))

  must_exit-IsFalling : (must_exit n context ≡ true) ↔ IsFalling
  unfolding must_exit bearish_trend is_above is_negative
  must_exit-IsFalling = (
    λ h.
        let (rest, falls) =
          and-true (context.has_position && bearish_trend n context.indicators)
            (is_negative n context.indicators.momentum5) h in
        let (holds, below) =
          and-true context.has_position (bearish_trend n context.indicators) rest in
        let (slow, fast, es, ef, less) =
          above_both context.indicators.ema21 context.indicators.ema9 below in
        (holds, (fast, slow, ef, es, less), negative_known context.indicators.momentum5 falls),
    λ (holds, (fast, slow, ef, es, less), (m, em, neg)).
        ground (arith, holds, ef, es, em, less, neg),
  )

  may_enter-scores : (may_enter n context ≡ true) ↔ (
      (context.has_position ≡ false)
      × (n.lte context.profile.minimum_signal_score (score_buy n context) ≡ true))
  unfolding may_enter
  may_enter-scores =
      (λ h. (ground (arith, h), ground (arith, h)), λ (free, scores). ground (arith, free, scores))

  enters-stays : may_enter n context ≡ true → must_exit n context ≡ false
  unfolding may_enter must_exit
  enters-stays h = ground (arith, h)

  -- The signal is a sale exactly when a position is held, the short average is below the long one
  -- and the momentum is below zero, and a purchase exactly when no position is held and the score
  -- reaches the profile's minimum.
  pub evaluate_trend_strategy_trades :
      ((evaluate_trend_strategy n context).action ≡ trade sell ↔ IsFalling)
      × ((evaluate_trend_strategy n context).action ≡ trade buy ↔ (
          (context.has_position ≡ false)
          × (n.lte context.profile.minimum_signal_score (score_buy n context) ≡ true)))
  evaluate_trend_strategy_trades = (
    (λ h. must_exit-IsFalling.0 (sells_when.0 h), λ h. sells_when.1 (must_exit-IsFalling.1 h)),
    (
      λ h. may_enter-scores.0 (buys_when.0 h).1,
      λ h. let enters = may_enter-scores.1 h in buys_when.1 (enters-stays enters, enters),
    ),
  )
