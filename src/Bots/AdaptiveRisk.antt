-- ===== src/Bots/AdaptiveRisk.antt =====
-- src/modules/bots/adaptive-risk.ts and src/modules/bots/adaptive-risk-audit.ts.
pub mod Reduces
mod Tests
use braiker.Decimal.{Decimal, money}
use braiker.Domain.{Side, buy, sell}
use braiker.Risk.Types.{RiskPolicy}
use braiker.Prelude.{
  Bool, true, false, ℕ, String, Option, none, some, List, [], ◌∷◌, if◌then◌else◌, ltb, ◌/◌, str_eq,
}
use braiker.Prelude.Text.{Text, literal}
use braiker.Prelude.Result.{Result, ok, throw, ◌>>=◌}

pub data Level : Type 0 where
  manual baseline cautious protective : Level

pub record AdaptiveRiskInput : Type 0 where
  pub is_enabled : Bool
  pub base_policy : RiskPolicy
  pub initial_capital : Text
  pub current_capital : Text
  pub reserved_capital : Text
  pub open_position_count : ℕ

-- `reason` is a function of the branch.
pub data AdaptiveReason : Type 0 where
  disabled deployed within_baseline below_half below_baseline : AdaptiveReason

pub record AdaptiveRiskResult : Type 0 where
  pub level : Level
  pub reason : AdaptiveReason
  pub effective_policy : RiskPolicy

unfoldable pub policy_for_adaptive_trade : Side → RiskPolicy → RiskPolicy → RiskPolicy
policy_for_adaptive_trade sell base_policy adaptive_policy = base_policy
policy_for_adaptive_trade buy base_policy adaptive_policy = adaptive_policy

-- `factor: "0.5" | "0.25"`
pub data Factor : Type 0 where
  half quarter : Factor

unfoldable pub factor_text : Factor → Text
unfolding literal
factor_text half = literal "0.5"
factor_text quarter = literal "0.25"

-- `Math.floor(n * Number(factor))`: both factors are powers of two, so the product is exact.
unfoldable pub scaled_trades : Factor → ℕ → ℕ
scaled_trades half n = n / 2
scaled_trades quarter n = n / 4

unfoldable pub max_ℕ : ℕ → ℕ → ℕ
max_ℕ a b = if ltb a b then b else a

module _ (d : Decimal) where
  unfoldable pub scale_money : Text → Factor → Result Text
  scale_money value factor = do
    amount ← money d value
    by ← money d (factor_text factor)
    ok (d.to_text (d.to_places_down 12 (d.mul amount by)))

  unfoldable pub scaled_policy : RiskPolicy → Factor → Result RiskPolicy
  scaled_policy base_policy factor = do
    max_position_size ← scale_money base_policy.max_position_size factor
    max_daily_loss ← scale_money base_policy.max_daily_loss factor
    ok (record base_policy {
      max_position_size = max_position_size;
      max_daily_loss = max_daily_loss;
      max_trades_per_day = max_ℕ 1 (scaled_trades factor base_policy.max_trades_per_day);
    })

  -- `openPositionCount > 0 || new Prisma.Decimal(reservedCapital).gt(0)`
  unfoldable pub is_deployed : AdaptiveRiskInput → Result Bool
  is_deployed input =
      if ltb 0 input.open_position_count
      then ok true
      else (do reserved ← money d input.reserved_capital; ok (d.lt d.zero_value reserved))

  -- `initialCapital.lte(0) || currentCapital.gte(initialCapital.mul("0.85"))`
  unfoldable pub is_within_baseline : d.Carrier → d.Carrier → Result Bool
  unfolding literal
  is_within_baseline initial current =
      if d.lte initial d.zero_value
      then ok true
      else (do part ← money d (literal "0.85"); ok (d.lte (d.mul initial part) current))

  unfoldable pub unreduced : Level → AdaptiveReason → AdaptiveRiskInput → AdaptiveRiskResult
  unreduced level reason input = record {
    level = level;
    reason = reason;
    effective_policy = input.base_policy;
  }

  unfoldable pub reduced_below : Bool → AdaptiveRiskInput → Result AdaptiveRiskResult
  reduced_below true input = do
    policy ← scaled_policy input.base_policy quarter
    ok (record { level = protective; reason = below_half; effective_policy = policy })
  reduced_below false input = do
    policy ← scaled_policy input.base_policy half
    ok (record { level = cautious; reason = below_baseline; effective_policy = policy })

  unfoldable pub resolve_liquid :
      Bool → AdaptiveRiskInput → d.Carrier → d.Carrier → Result AdaptiveRiskResult
  unfolding literal
  resolve_liquid true input initial current = ok (unreduced baseline within_baseline input)
  resolve_liquid false input initial current = do
    part ← money d (literal "0.5")
    reduced_below (d.lt current (d.mul initial part)) input

  unfoldable pub resolve_enabled : Bool → AdaptiveRiskInput → Result AdaptiveRiskResult
  resolve_enabled true input = ok (unreduced baseline deployed input)
  resolve_enabled false input = do
    initial ← money d input.initial_capital
    current ← money d input.current_capital
    within ← is_within_baseline initial current
    resolve_liquid within input initial current

  unfoldable pub resolve_if_enabled : Bool → AdaptiveRiskInput → Result AdaptiveRiskResult
  resolve_if_enabled false input = ok (unreduced manual disabled input)
  resolve_if_enabled true input = do in_use ← is_deployed input; resolve_enabled in_use input

  unfoldable pub resolve_adaptive_risk_policy : AdaptiveRiskInput → Result AdaptiveRiskResult
  resolve_adaptive_risk_policy input = resolve_if_enabled input.is_enabled input

-- `BotRiskAdjustment` rows, the latest first.
pub record RiskAdjustment : Type 0 where
  pub bot_id : String
  pub level : Level
  pub reason : AdaptiveReason
  pub base_policy : RiskPolicy
  pub effective_policy : RiskPolicy
  pub fingerprint : String

pub record AdjustmentInput : Type 0 where
  pub bot_id : String
  pub level : Level
  pub reason : AdaptiveReason
  pub base_policy : RiskPolicy
  pub effective_policy : RiskPolicy

-- `findFirst({ where: { botId }, orderBy: { createdAt: "desc" } })`
unfoldable pub latest_adjustment : String → List RiskAdjustment → Option RiskAdjustment
latest_adjustment bot_id [] = none
latest_adjustment bot_id (row ∷ rows) =
    if str_eq row.bot_id bot_id then some row else latest_adjustment bot_id rows

unfoldable pub has_fingerprint : String → Option RiskAdjustment → Bool
has_fingerprint fingerprint none = false
has_fingerprint fingerprint (some row) = str_eq row.fingerprint fingerprint

-- The hash of `createHash("sha256")` over the level and the two policies.
module _ (hash : Level → RiskPolicy → RiskPolicy → String) where
  unfoldable pub adaptive_risk_fingerprint : AdjustmentInput → String
  adaptive_risk_fingerprint input = hash input.level input.base_policy input.effective_policy

  unfoldable pub record_adaptive_risk_adjustment :
      AdjustmentInput → List RiskAdjustment → Bool × List RiskAdjustment
  record_adaptive_risk_adjustment input rows =
      let fingerprint = adaptive_risk_fingerprint input in
      if has_fingerprint fingerprint (latest_adjustment input.bot_id rows) then (false, rows) else (
        true,
        record {
          bot_id = input.bot_id;
          level = input.level;
          reason = input.reason;
          base_policy = input.base_policy;
          effective_policy = input.effective_policy;
          fingerprint = fingerprint;
        }
            ∷ rows,
      )
