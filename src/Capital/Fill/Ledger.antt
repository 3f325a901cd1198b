-- ===== src/Capital/Fill/Ledger.antt =====
-- src/modules/capital/fill-accounting.ts against the ledger that a fill acts on, as two amounts.
use braiker.Domain.{Side, buy, sell, active, dead}
use braiker.Money.{scale, parse_money, parse_or_throw, format_money}
use braiker.Money.RoundTrip.{parse_money-format_money}
use braiker.Capital.Fill.{
  FillInput, FillResult, apply_bot_fill, ReleaseInput, ReleaseResult, release_bot_reservation, ℕ,
  Text, Option, ok, ltb, remaining_position, capital_after, reserved_after, leb,
}
use braiker.Prelude.{
  ◌-◌, ◌≡◌, Bool, some, ◌≤◌, true, arith, refl, ◌+◌, ◌*◌, ◌/◌, ◌↔◌, false, none, if◌then◌else◌,
  ◌&&◌,
}

pub record Account : Type 0 where
  pub cash : ℕ
  pub reserved : ℕ

-- What a bot's account promises: a purchase takes its cost from the cash as far as that goes, a sale
-- adds its proceeds, and either way the order's reservation is given back. Subtraction stops at 0.
pub settle : Side → ℕ → ℕ → Account → Account
settle buy notional reservation a = record {
  cash = a.cash - notional;
  reserved = a.reserved - reservation;
}
settle sell notional reservation a = record {
  cash = a.cash + notional;
  reserved = a.reserved - reservation;
}

-- The account that two texts stand for.
abbrev pub Stands : Text → Text → Account → Type 0
Stands cash reserved a = (parse_money cash ≡ some a.cash) × (parse_money reserved ≡ some a.reserved)

abbrev pub has_position : Option ℕ → Bool
has_position none = true
has_position (some n) = ltb 0 n

abbrev remaining_of : Option Text → Option (Option ℕ)
remaining_of none = some none
remaining_of (some t) = elim (parse_money t) [ none ↦ none | some n ↦ some (some n) ]

-- What `remainingPosition` is: 1 where the caller gives none.
abbrev position_or_one : Option ℕ → ℕ
position_or_one none = 1
position_or_one (some n) = n

remaining_position-ok :
    (t : Option Text) (r : Option ℕ)
    → remaining_of t ≡ some r
    → remaining_position t ≡ ok (position_or_one r)
unfolding remaining_position parse_or_throw
remaining_position-ok none r h = ground arith
remaining_position-ok (some t) r h = ground arith

-- The texts of a settled account.
abbrev filled : Account → Option ℕ → FillResult
filled a r = record {
  current_capital = format_money a.cash;
  reserved_capital = format_money a.reserved;
  life_status = if leb a.cash 0 && leb (position_or_one r) 0 then dead else active;
}

settle-cash :
    (side : Side) (notional reservation : ℕ) (a : Account)
    → capital_after side a.cash notional ≡ (settle side notional reservation a).cash
unfolding capital_after settle
settle-cash buy n v a = ground arith
settle-cash sell n v a = refl

settle-reserved :
    (side : Side) (notional reservation : ℕ) (a : Account)
    → reserved_after a.reserved reservation ≡ (settle side notional reservation a).reserved
unfolding reserved_after settle
settle-reserved buy n v a = ground arith
settle-reserved sell n v a = ground arith

-- On money texts the fill returns, its texts stand for the settled account, and the bot is dead
-- exactly when neither cash nor a position is left.
pub apply_bot_fill-settle :
    (input : FillInput) (a : Account) (quantity price reservation : ℕ) (remaining : Option ℕ)
    → Stands input.current_capital input.reserved_capital a
    → parse_money input.fill_quantity ≡ some quantity
    → parse_money input.fill_price ≡ some price
    → parse_money input.reserved_for_order ≡ some reservation
    → remaining_of input.remaining_position_quantity ≡ some remaining
    → (out : FillResult) × (apply_bot_fill input ≡ ok out)
      × Stands out.current_capital out.reserved_capital
          (settle input.action (quantity * price / scale) reservation a)
      × ((out.life_status ≡ dead) ↔ (
          ((settle input.action (quantity * price / scale) reservation a).cash ≡ 0)
          × (has_position remaining ≡ false)))
unfolding apply_bot_fill
apply_bot_fill-settle input a q p v r h hq hp hv hr =
    let b : Account = settle input.action (q * p / scale) v a in
    (
      filled b r,
      rw (
        h.0,
        h.1,
        hq,
        hp,
        hv,
        remaining_position-ok input.remaining_position_quantity r hr,
        settle-cash input.action (q * p / scale) v a,
        settle-reserved input.action (q * p / scale) v a,
      ),
      (parse_money-format_money b.cash, parse_money-format_money b.reserved),
      ground arith,
    )

-- A settled order leaves no more reserved than there is cash, when the reservation covered it.
pub settle_covered :
    (side : Side) (notional reservation : ℕ) (a : Account)
    → a.reserved ≤ a.cash
    → reservation ≤ a.reserved
    → (side ≡ buy → notional ≤ reservation)
    → (settle side notional reservation a).reserved ≤ (settle side notional reservation a).cash
unfolding settle
settle_covered buy n v a h k c = omega (arith, c refl)
settle_covered sell n v a h k c = omega arith

-- On money texts, releasing the reservation of an order that did not fill returns, leaves the cash
-- alone and lowers what is reserved by the order's reservation, down to zero at least.
pub release_bot_reservation-settle :
    (input : ReleaseInput) (a : Account) (reservation : ℕ)
    → Stands input.current_capital input.reserved_capital a
    → parse_money input.reserved_for_order ≡ some reservation
    → (out : ReleaseResult) × (release_bot_reservation input ≡ ok out)
      × Stands out.current_capital out.reserved_capital
          (record { cash = a.cash; reserved = a.reserved - reservation })
unfolding release_bot_reservation reserved_after
release_bot_reservation-settle input a v h hv = (
  record {
    current_capital = format_money a.cash;
    reserved_capital = format_money (a.reserved - v);
  },
  ground (arith, h.0, h.1, hv),
  (parse_money-format_money a.cash, parse_money-format_money (a.reserved - v)),
)
