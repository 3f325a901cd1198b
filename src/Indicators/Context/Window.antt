-- ===== src/Indicators/Context/Window.antt =====
-- How far back the indicators look.
use braiker.Indicators.Number.{Number}
use braiker.Indicators.Technical.{
  MarketBar, sma, ema, momentum, rsi, atr, relative_volume, when_long, close_of,
}
use braiker.Prelude.{
  ℕ, List, Option, ◌≤◌, ◌+◌, length, ◌≡◌, last_n, ◌++◌, arith, map, last_n-append, length-append,
  ap, last-append, refl, map-append, ◌∙◌, length-map,
}
use braiker.Indicators.Context.{build_indicator_set}

module _ (n : Number) (old bars : List MarketBar) where
  when_long-append :
      (period least : ℕ) {v w : Option n.Carrier}
      → least ≤ length bars
      → v ≡ w
      → when_long n period least (old ++ bars) v ≡ when_long n period least bars w
  unfolding when_long
  when_long-append period least h same = ground (arith, same, length-append old bars)

  last_closes :
      (k : ℕ)
      → k ≤ length bars
      → last_n k (map (close_of n) (old ++ bars)) ≡ last_n k (map (close_of n) bars)
  last_closes k h =
      ap (last_n k) (map-append (close_of n) old bars)
      ∙ last_n-append k (map (close_of n) old) (map (close_of n) bars)
          (omega (arith, h, length-map (close_of n) bars))

  sma-append : (k : ℕ) → k ≤ length bars → sma n (old ++ bars) k ≡ sma n bars k
  unfolding sma
  sma-append k h = when_long-append k k h (rw (last_closes k h) refl)

  ema-append : (k : ℕ) → k ≤ length bars → ema n (old ++ bars) k ≡ ema n bars k
  unfolding ema
  ema-append k h = when_long-append k k h (rw (last_closes k h) refl)

  momentum-append : (k : ℕ) → k + 1 ≤ length bars → momentum n (old ++ bars) k ≡ momentum n bars k
  unfolding momentum
  momentum-append k h = when_long-append k (k + 1) h (rw (last_closes (k + 1) h) refl)

  rsi-append : (k : ℕ) → k + 1 ≤ length bars → rsi n (old ++ bars) k ≡ rsi n bars k
  unfolding rsi
  rsi-append k h = when_long-append k (k + 1) h (rw (last_n-append (k + 1) old bars h) refl)

  atr-append : (k : ℕ) → k + 1 ≤ length bars → atr n (old ++ bars) k ≡ atr n bars k
  unfolding atr
  atr-append k h = when_long-append k (k + 1) h (rw (last_n-append (k + 1) old bars h) refl)

  relative_volume-append :
      (k : ℕ) → k + 1 ≤ length bars → relative_volume n (old ++ bars) k ≡ relative_volume n bars k
  unfolding relative_volume
  relative_volume-append k h =
      when_long-append k (k + 1) h
        (rw (last_n-append (k + 1) old bars h, last-append old bars (omega arith)) refl)

  -- With at least fifty bars, older bars before them change none of the eight indicators.
  pub build_indicator_set-append :
      50 ≤ length bars → build_indicator_set n (old ++ bars) ≡ build_indicator_set n bars
  unfolding build_indicator_set
  build_indicator_set-append h =
      rw
        (
          ema-append 9 (omega arith),
          ema-append 21 (omega arith),
          sma-append 20 (omega arith),
          sma-append 50 h,
          rsi-append 14 (omega arith),
          atr-append 14 (omega arith),
          momentum-append 5 (omega arith),
          relative_volume-append 20 (omega arith),
        )
        refl
