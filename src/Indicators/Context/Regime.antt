-- ===== src/Indicators/Context/Regime.antt =====
-- The regime of two trends.
use braiker.Indicators.Number.{Number}
use braiker.Indicators.Context.{
  MarketRegime, bullish, bearish, sideways, high_volatility, unknown, regime_of, IndicatorSet,
  classify_market_regime, market_trend, same_regime,
}
use braiker.Prelude.{◌≡◌, arith, true, refl, ◌↔◌, ◌⊎◌, Bool-cases, inl, inr}

regime_of_comm : (a b : MarketRegime) → regime_of a b ≡ regime_of b a
unfolding regime_of
regime_of_comm a b = ground arith

same_regime-eq : (a b : MarketRegime) → same_regime a b ≡ true → a ≡ b
same_regime-eq bullish bullish h = refl
same_regime-eq bearish bearish h = refl
same_regime-eq sideways sideways h = refl
same_regime-eq high_volatility high_volatility h = refl
same_regime-eq unknown unknown h = refl
same_regime-eq _ _ h = cc

both_of :
    (a b r : MarketRegime)
    → regime_of a b ≡ r
    → (same_regime a r ≡ true) × (same_regime b r ≡ true)
    → (a ≡ r) × (b ≡ r)
both_of a b r h (ha, hb) = (same_regime-eq a r ha, same_regime-eq b r hb)

regime_of_bullish :
    (a b : MarketRegime) → (regime_of a b ≡ bullish) ↔ ((a ≡ bullish) × (b ≡ bullish))
unfolding regime_of
regime_of_bullish a b = (
  λ h. both_of a b bullish h (ground (arith, h), ground (arith, h)),
  λ (ha, hb). rw (ha, hb) refl,
)

regime_of_bearish :
    (a b : MarketRegime) → (regime_of a b ≡ bearish) ↔ ((a ≡ bearish) × (b ≡ bearish))
unfolding regime_of
regime_of_bearish a b = (
  λ h. both_of a b bearish h (ground (arith, h), ground (arith, h)),
  λ (ha, hb). rw (ha, hb) refl,
)

regime_of_volatile :
    (a b : MarketRegime)
    → (regime_of a b ≡ high_volatility) ↔ ((a ≡ high_volatility) ⊎ (b ≡ high_volatility))
unfolding regime_of
regime_of_volatile a b = (
  λ h. elim (Bool-cases (same_regime a high_volatility)) [
    | inl e ↦ inl (same_regime-eq a high_volatility e)
    | inr e ↦ inr (same_regime-eq b high_volatility (ground (arith, e, h)))
  ],
  λ either. elim either [ inl e ↦ rw e refl | inr e ↦ ground (arith, e) ],
)

module _ (n : Number) (spy : IndicatorSet n.Carrier) (spy_close : n.Carrier)
    (qqq : IndicatorSet n.Carrier) (qqq_close : n.Carrier) where
  abbrev spy_trend : MarketRegime
  spy_trend = market_trend n spy spy_close

  abbrev qqq_trend : MarketRegime
  qqq_trend = market_trend n qqq qqq_close

  abbrev regime : MarketRegime
  regime = classify_market_regime n spy spy_close qqq qqq_close

  pub classify_market_regime_lem :
      ((regime ≡ bullish) ↔ ((spy_trend ≡ bullish) × (qqq_trend ≡ bullish)))
      × ((regime ≡ bearish) ↔ ((spy_trend ≡ bearish) × (qqq_trend ≡ bearish)))
      × ((regime ≡ high_volatility)
          ↔ ((spy_trend ≡ high_volatility) ⊎ (qqq_trend ≡ high_volatility)))
      × (regime ≡ classify_market_regime n qqq qqq_close spy spy_close)
  unfolding classify_market_regime
  classify_market_regime_lem = (
    regime_of_bullish spy_trend qqq_trend,
    regime_of_bearish spy_trend qqq_trend,
    regime_of_volatile spy_trend qqq_trend,
    regime_of_comm spy_trend qqq_trend,
  )
