-- ===== src/Capital/OperatingCost/Shares.antt =====
-- `allocateMonthlyOperatingCost` of src/modules/capital/operating-cost-policy.ts in whole amounts.
use native.Mathlib.Nat.{
  div-mul-le_self, div-le_of_le-mul, mul-sub, mul-add, add-mul, le_of_mul-le-mul_right,
}
use mathlib.Core.List.{Perm}
use braiker.Money.{parse_money, parse_or_throw}
use braiker.Money.RoundTrip.{parse_money-format_money}
use braiker.Capital.OperatingCost.{
  PricedBot, Allocation, AllocationInput, priced, total_capital, shares, funded_in_order,
  shares_of_priced, allocate_monthly_operating_cost, is_disabled,
}
use braiker.Prelude.Result.{◌>>=◌, Result, ok, map_result}
use braiker.Prelude.{
  ◌≡◌, ◌≤◌, arith, ◌<◌, ◌-◌, refl, ◌≢◌, ◌∙◌, List, ℕ, String, ◌∷◌, leb, Option, Bool, [], ap, false,
  some, ltb, keep, ◌+◌, ◌*◌, none, ◌/◌, true,
}
use braiker.Prelude.Sort.{insert_by, sort_by-perm, sort_by}

-- The sum of the printed shares.
pub total_allocated : List Allocation → Result ℕ
unfolding parse_or_throw
total_allocated [] = ok 0
total_allocated (a ∷ rest) = do
  amount ← parse_or_throw a.allocated_amount
  others ← total_allocated rest
  ok (amount + others)

-- One share for each bot, in order, of at least the bot's part of the cost rounded down.
abbrev pub IsFair : ℕ → ℕ → List PricedBot → List Allocation → Type 0
IsFair monthly_cost total [] [] = Unit
IsFair monthly_cost total [] (a ∷ rest) = ⊥
IsFair monthly_cost total (bot ∷ bots) [] = ⊥
IsFair monthly_cost total (bot ∷ bots) (a ∷ rest) =
    (a.bot_id ≡ bot.id)
    × ((amount : ℕ) × (parse_money a.allocated_amount ≡ some amount)
        × (monthly_cost * bot.capital / total ≤ amount))
    × IsFair monthly_cost total bots rest

-- What is allocated, and the parts of the bots to come, are within the cost.
abbrev Within : ℕ → ℕ → ℕ → List PricedBot → Type 0
Within m t allocated bots = allocated * t + m * total_capital bots ≤ m * t

Within-next :
    (m t allocated : ℕ) (bot : PricedBot) (bots : List PricedBot)
    → Within m t allocated (bot ∷ bots)
    → Within m t (allocated + m * bot.capital / t) bots
unfolding total_capital
Within-next m t al bot bots h = omega (
  arith,
  div-mul-le_self (m * bot.capital) t,
  add-mul al (m * bot.capital / t) t,
  mul-add m bot.capital (total_capital bots),
)

allocated-le :
    (m t allocated : ℕ) (bots : List PricedBot) → 0 < t → Within m t allocated bots → allocated ≤ m
allocated-le m t al bots pos h = le_of_mul-le-mul_right {k = t} (omega arith) pos

last_part :
    (m t allocated : ℕ) (bot : PricedBot)
    → Within m t allocated (bot ∷ [])
    → m * bot.capital / t ≤ m - allocated
unfolding total_capital
last_part m t al bot h = div-le_of_le-mul t (rw (mul-sub t m al) (omega arith))

module _ (m t : ℕ) (pos : 0 < t) where
  shares_total :
      (allocated : ℕ) (bot : PricedBot) (bots : List PricedBot)
      → Within m t allocated (bot ∷ bots)
      → (s : ℕ) × (total_allocated (shares m t allocated (bot ∷ bots)) ≡ ok s) × (allocated + s ≡ m)
  unfolding total_allocated shares
  shares_total al bot [] h = (
    m - al + 0,
    rw (parse_money-format_money (m - al)),
    omega (arith, allocated-le m t al (bot ∷ []) pos h),
  )
  shares_total al bot (next ∷ bots) h =
      let amount = m * bot.capital / t in
      let (s, e, q) =
        shares_total (al + amount) next bots (Within-next m t al bot (next ∷ bots) h) in
      (amount + s, rw (parse_money-format_money amount, e), omega arith)

  shares-IsFair :
      (allocated : ℕ) (bots : List PricedBot)
      → Within m t allocated bots
      → IsFair m t bots (shares m t allocated bots)
  unfolding shares
  shares-IsFair al [] h = tt
  shares-IsFair al (bot ∷ []) h =
      (refl, (m - al, parse_money-format_money (m - al), last_part m t al bot h), tt)
  shares-IsFair al (bot ∷ next ∷ bots) h =
      let amount = m * bot.capital / t in
      (
        refl,
        (amount, parse_money-format_money amount, omega arith),
        shares-IsFair (al + amount) (next ∷ bots) (Within-next m t al bot (next ∷ bots) h),
      )

  shares_of_chosen :
      (bots : List PricedBot)
      → total_capital bots ≡ t
      → (total_allocated (shares m t 0 bots) ≡ ok m) × IsFair m t bots (shares m t 0 bots)
  unfolding total_capital
  shares_of_chosen [] e = absurd (omega arith)
  shares_of_chosen (bot ∷ bots) e =
      let within : Within m t 0 (bot ∷ bots) = rw e (omega arith) in
      let (s, q, r) = shares_total 0 bot bots within in
      (q ∙ ap ok (omega arith), shares-IsFair 0 (bot ∷ bots) within)

leb_pos : (n : ℕ) → 0 < n → leb n 0 ≡ false
leb_pos n h = ground arith

enabled_lem : (enabled : Option Bool) → enabled ≢ some false → is_disabled enabled ≡ false
unfolding is_disabled
enabled_lem none h = refl
enabled_lem (some true) h = refl
enabled_lem (some false) h = absurd (h refl)

module _ (collates : String → String → Bool) where
  abbrev in_order : PricedBot → PricedBot → Bool
  in_order left right = collates left.id right.id

  abbrev is_funded : PricedBot → Bool
  is_funded bot = ltb 0 bot.capital

  total_capital-insert_by :
      (bot : PricedBot) (bots : List PricedBot)
      → total_capital (insert_by in_order bot bots) ≡ bot.capital + total_capital bots
  unfolding total_capital insert_by
  total_capital-insert_by bot [] = refl
  total_capital-insert_by bot (b ∷ bots) = ground (arith, total_capital-insert_by bot bots)

  total_capital-sort_by :
      (bots : List PricedBot) → total_capital (sort_by in_order bots) ≡ total_capital bots
  unfolding total_capital sort_by
  total_capital-sort_by [] = refl
  total_capital-sort_by (b ∷ bots) =
      total_capital-insert_by b (sort_by in_order bots)
      ∙ ap (λ t. b.capital + t) (total_capital-sort_by bots)

  total_capital-keep :
      (bots : List PricedBot) → total_capital (keep is_funded bots) ≡ total_capital bots
  unfolding total_capital
  total_capital-keep [] = refl
  total_capital-keep (b ∷ bots) = ground (arith, total_capital-keep bots)

  total_capital-funded_in_order :
      (bots : List PricedBot) → total_capital (funded_in_order collates bots) ≡ total_capital bots
  unfolding funded_in_order
  total_capital-funded_in_order bots =
      total_capital-sort_by (keep is_funded bots) ∙ total_capital-keep bots

  -- The bots that get a share are exactly those with capital, each as often as it is given.
  funded_in_order-perm :
      (bots : List PricedBot) → Perm (funded_in_order collates bots) (keep is_funded bots)
  unfolding funded_in_order
  funded_in_order-perm bots = sort_by-perm in_order (keep is_funded bots)

  shares_of_priced-covers :
      (m : ℕ) (bots : List PricedBot)
      → 0 < total_capital bots
      → (total_allocated (shares_of_priced collates m bots) ≡ ok m)
        × IsFair m
            (total_capital bots)
            (funded_in_order collates bots)
            (shares_of_priced collates m bots)
  unfolding shares_of_priced
  shares_of_priced-covers m bots h =
      let e = total_capital-funded_in_order bots in
      let within = shares_of_chosen m (total_capital bots) h (funded_in_order collates bots) e in
      rw (e, leb_pos (total_capital bots) h) within

  -- With the cost enabled and positive, and some bot funded, the shares that are returned sum to
  -- the cost, go to the funded bots in the order of their ids, and none is below its bot's part.
  pub allocate_monthly_operating_cost_covers :
      (input : AllocationInput) (m : ℕ) (bots : List PricedBot)
      → input.enabled ≢ some false
      → parse_money input.monthly_cost ≡ some m
      → map_result priced input.bots ≡ ok bots
      → 0 < m
      → 0 < total_capital bots
      → (out : List Allocation) × (allocate_monthly_operating_cost collates input ≡ ok out)
        × (total_allocated out ≡ ok m)
        × IsFair m (total_capital bots) (funded_in_order collates bots) out
  unfolding allocate_monthly_operating_cost parse_or_throw
  allocate_monthly_operating_cost_covers input m bots on hm hb pm pt =
      let (total, fair) = shares_of_priced-covers m bots pt in
      (
        shares_of_priced collates m bots,
        simp (hm, hb, leb_pos m pm, enabled_lem input.enabled on),
        total,
        fair,
      )
