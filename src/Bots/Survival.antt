-- ===== src/Bots/Survival.antt =====
-- src/modules/bots/survival-state.ts: the read-only survival indicator.
pub mod Bands
use braiker.Domain
use braiker.Domain.{LifeStatus}
use braiker.Money.{parse_or_throw}
use braiker.Prelude.Text.{Text}
use braiker.Prelude.Result.{Result, ok, ◌>>=◌}
use braiker.Prelude.{
  List, [], ◌∷◌, Option, none, some, Bool, true, false, ℕ, zero, suc, ◌≡◌, refl, arith, inl, inr,
  String, if◌then◌else◌, not, leb, ltb, ◌&&◌, ◌*◌, ◌||◌, str_eq,
}

pub data SurvivalCode : Type 0 where
  thriving stable cautious stressed critical dead calibrating : SurvivalCode

pub data Tone : Type 0 where
  positive neutral caution warning danger muted info : Tone

pub record SurvivalState : Type 0 where
  pub code : SurvivalCode
  pub label : String
  pub summary : String
  pub tone : Tone
  pub score : Option ℕ
  pub operational_status : String

pub record SurvivalInput : Type 0 where
  pub life_status : LifeStatus
  pub initial_capital : Text
  pub current_capital : Text
  pub reserved_capital : Text
  pub open_position_count : ℕ
  pub last_analysis_at : Option String
  pub kill_switch : Option Bool

-- The `states` table.
unfoldable pub states : SurvivalCode → SurvivalState
states SurvivalCode.thriving = record {
  code = SurvivalCode.thriving;
  label = "Thriving";
  summary = "Liquid capital is above its starting allocation.";
  tone = Tone.positive;
  score = some 100;
  operational_status = "Operating normally";
}
states SurvivalCode.stable = record {
  code = SurvivalCode.stable;
  label = "Stable";
  summary = "Capital is within its expected operating range.";
  tone = Tone.neutral;
  score = some 75;
  operational_status = "Operating normally";
}
states SurvivalCode.cautious = record {
  code = SurvivalCode.cautious;
  label = "Cautious";
  summary = "Liquid capital is reduced; the bot should protect its remaining room.";
  tone = Tone.caution;
  score = some 60;
  operational_status = "Operating normally";
}
states SurvivalCode.stressed = record {
  code = SurvivalCode.stressed;
  label = "Stressed";
  summary = "Liquid capital is low; survival guardrails deserve attention.";
  tone = Tone.warning;
  score = some 40;
  operational_status = "Operating normally";
}
states SurvivalCode.critical = record {
  code = SurvivalCode.critical;
  label = "Critical";
  summary = "Very little liquid capital remains without an open deployment.";
  tone = Tone.danger;
  score = some 15;
  operational_status = "Operating normally";
}
states SurvivalCode.dead = record {
  code = SurvivalCode.dead;
  label = "Dead";
  summary = "This bot is permanent history only and cannot be restarted.";
  tone = Tone.muted;
  score = some 0;
  operational_status = "Trading stopped permanently";
}
states SurvivalCode.calibrating = record {
  code = SurvivalCode.calibrating;
  label = "Calibrating";
  summary = "Waiting for its first completed market analysis.";
  tone = Tone.info;
  score = none;
  operational_status = "Awaiting first analysis";
}

unfoldable pub is_dead_code : SurvivalCode → Bool
is_dead_code SurvivalCode.dead = true
is_dead_code _ = false

unfoldable pub switched_on : Option Bool → Bool
switched_on none = false
switched_on (some b) = b

unfoldable pub with_power_state : Option Bool → SurvivalState → SurvivalState
unfolding is_dead_code switched_on
with_power_state kill_switch state =
    if not (is_dead_code state.code) && switched_on kill_switch
    then record state { operational_status = "Trading paused" }
    else state

-- The comparisons with percentages of the initial capital.
unfoldable pub band : ℕ → ℕ → SurvivalCode
band initial current =
    if leb initial 0
    then SurvivalCode.calibrating
    else if leb (initial * 105) (current * 100)
    then SurvivalCode.thriving
    else if ltb (current * 100) (initial * 20)
    then SurvivalCode.critical
    else if ltb (current * 100) (initial * 50)
    then SurvivalCode.stressed
    else if ltb (current * 100) (initial * 85)
    then SurvivalCode.cautious
    else SurvivalCode.stable

unfoldable pub deployed : SurvivalState
unfolding states
deployed = record (states SurvivalCode.stable) {
  summary =
      "Capital is currently deployed or reserved, so liquid cash alone is not a survival signal.";
}

-- What follows the two early returns; only what is not deployed has its capital parsed.
unfoldable pub banded : SurvivalInput → ℕ → Result SurvivalState
unfolding deployed
banded input reserved =
    if ltb 0 input.open_position_count || ltb 0 reserved then ok deployed else do
      initial ← parse_or_throw input.initial_capital
      current ← parse_or_throw input.current_capital
      ok (states (band initial current))

unfoldable pub analysed : SurvivalInput → Result SurvivalState
analysed input = do reserved ← parse_or_throw input.reserved_capital; banded input reserved

-- `!lastAnalysisAt` holds of the empty text as well.
unfoldable pub living : SurvivalInput → Option String → Result SurvivalState
living input none = ok (states SurvivalCode.calibrating)
living input (some at) =
    if str_eq at "" then ok (states SurvivalCode.calibrating) else analysed input

unfoldable pub of_life : SurvivalInput → LifeStatus → Result SurvivalState
unfolding living
of_life input LifeStatus.dead = ok (states SurvivalCode.dead)
of_life input LifeStatus.active = do
  state ← living input input.last_analysis_at
  ok (with_power_state input.kill_switch state)

unfoldable pub derive_bot_survival_state : SurvivalInput → Result SurvivalState
unfolding of_life
derive_bot_survival_state input = of_life input input.life_status
