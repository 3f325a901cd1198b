-- ===== src/Indicators/Technical.antt =====
-- src/modules/indicators/basic.ts and src/modules/indicators/technical.ts. `null` is `none`.
use mathlib.Core.Option
use braiker.Indicators.Number.{Number}
use braiker.Prelude.{
  ℕ, String, List, if◌then◌else◌, Option, ◌∷◌, leb, some, none, ◌+◌, length, ◌||◌, last_n, map, ltb,
  take, last, [],
}
use braiker.Prelude.Text.{Text}

pub record MarketBar : Type 0 where
  pub symbol : String
  pub timestamp : ℕ
  pub open_price : Text
  pub high : Text
  pub low : Text
  pub close : Text
  pub volume : Text
  pub timeframe : String
  pub feed : String

module _ (n : Number) where
  abbrev pub close_of : MarketBar → n.Carrier
  close_of bar = n.of_text bar.close

  abbrev pub high_of : MarketBar → n.Carrier
  high_of bar = n.of_text bar.high

  abbrev pub low_of : MarketBar → n.Carrier
  low_of bar = n.of_text bar.low

  abbrev pub volume_of : MarketBar → n.Carrier
  volume_of bar = n.of_text bar.volume

  unfoldable pub sum_from : n.Carrier → List n.Carrier → n.Carrier
  sum_from total [] = total
  sum_from total (value ∷ values) = sum_from (n.plus total value) values

  -- `period <= 0 || bars.length < least`
  unfoldable pub when_long : ℕ → ℕ → List MarketBar → Option n.Carrier → Option n.Carrier
  when_long period least bars value =
      if leb period 0 || ltb (length bars) least then none else value

  unfoldable pub sma : List MarketBar → ℕ → Option n.Carrier
  sma bars period =
      when_long period period bars
        (some (n.div (sum_from (n.of_ℕ 0) (last_n period (map close_of bars))) (n.of_ℕ period)))

  unfoldable pub ema_from : n.Carrier → n.Carrier → List n.Carrier → n.Carrier
  ema_from multiplier previous [] = previous
  ema_from multiplier previous (value ∷ values) =
      ema_from multiplier
        (n.plus (n.mul value multiplier) (n.mul previous (n.minus (n.of_ℕ 1) multiplier))) values

  -- The first value of the sample starts the average.
  unfoldable pub ema_of : n.Carrier → List n.Carrier → n.Carrier
  ema_of multiplier [] = n.of_ℕ 0
  ema_of multiplier (value ∷ values) = ema_from multiplier value values

  unfoldable pub ema : List MarketBar → ℕ → Option n.Carrier
  ema bars period =
      when_long period period bars
        (some (ema_of (n.div (n.of_ℕ 2) (n.of_ℕ (period + 1))) (last_n period (map close_of bars))))

  -- `(at(-1) - at(-1 - period)) / at(-1 - period)`: the ends of the last `period + 1` values.
  unfoldable pub momentum_of : List n.Carrier → Option n.Carrier
  momentum_of [] = none
  momentum_of (first ∷ values) =
      Option.map (λ end. n.div (n.minus end first) first) (last (first ∷ values))

  unfoldable pub momentum : List MarketBar → ℕ → Option n.Carrier
  momentum bars period =
      when_long period (period + 1) bars (momentum_of (last_n (period + 1) (map close_of bars)))

  -- Gains and losses between neighbours of the sample.
  unfoldable pub changes : n.Carrier × n.Carrier → List n.Carrier → n.Carrier × n.Carrier
  changes totals [] = totals
  changes totals (value ∷ []) = totals
  changes totals (value ∷ next ∷ values) =
      let change = n.minus next value in
      let updated =
        if n.lte (n.of_ℕ 0) change
        then (n.plus totals.0 change, totals.1)
        else (totals.0, n.minus totals.1 change) in
      changes updated (next ∷ values)

  unfoldable pub rsi_of : n.Carrier × n.Carrier → n.Carrier
  rsi_of totals =
      if n.is_zero totals.1
      then n.of_ℕ 100
      else n.minus (n.of_ℕ 100) (n.div (n.of_ℕ 100) (n.plus (n.of_ℕ 1) (n.div totals.0 totals.1)))

  unfoldable pub rsi : List MarketBar → ℕ → Option n.Carrier
  rsi bars period =
      when_long period (period + 1) bars
        (some (rsi_of (changes (n.of_ℕ 0, n.of_ℕ 0) (map close_of (last_n (period + 1) bars)))))

  -- Of each bar after the first, by the close before it.
  unfoldable pub true_ranges : List MarketBar → List n.Carrier
  true_ranges [] = []
  true_ranges (bar ∷ []) = []
  true_ranges (before ∷ bar ∷ bars) =
      n.max_of
        (n.max_of (n.minus (high_of bar) (low_of bar))
          (n.abs_value (n.minus (high_of bar) (close_of before))))
        (n.abs_value (n.minus (low_of bar) (close_of before)))
      ∷ true_ranges (bar ∷ bars)

  unfoldable pub average : List n.Carrier → n.Carrier
  average values = n.div (sum_from (n.of_ℕ 0) values) (n.of_ℕ (length values))

  unfoldable pub atr : List MarketBar → ℕ → Option n.Carrier
  atr bars period =
      when_long period (period + 1) bars (some (average (true_ranges (last_n (period + 1) bars))))

  unfoldable pub volume_ratio : n.Carrier → Option MarketBar → Option n.Carrier
  volume_ratio average_volume none = none
  volume_ratio average_volume (some bar) =
      if n.lt (n.of_ℕ 0) average_volume then some (n.div (volume_of bar) average_volume) else none

  -- The baseline `slice(-period - 1, -1)` leaves out the last bar.
  unfoldable pub relative_volume : List MarketBar → ℕ → Option n.Carrier
  relative_volume bars period =
      when_long period (period + 1) bars (
        volume_ratio (average (map volume_of (take period (last_n (period + 1) bars)))) (last bars))
