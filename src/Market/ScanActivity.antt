-- ===== src/Market/ScanActivity.antt =====
-- src/modules/market/bot-scan-activity.ts. A date is its number of milliseconds.
pub mod Counts
use braiker.Money.Digits.{print_nat}
use braiker.Prelude.{
  ℕ, true, false, String, List, Bool, Option, ◌-◌, ◌==◌, length, ◌∷◌, keep, ◌++◌, [], some, ◌∷◌, [],
  ltb, map, if◌then◌else◌, leb, ◌+◌, none,
}
use braiker.Prelude.Text.{Text, literal, either_literal}

-- The outcome of one evaluation, and the name that the activity gives it.
pub data ScanOutcome : Type 0 where
  held no_capital ai_rejected approved risk_rejected already_evaluated missing_market_data :
      ScanOutcome

pub record OutcomeInput : Type 0 where
  pub symbol : String
  pub outcome : ScanOutcome

pub record BotScanOutcome : Type 0 where
  pub symbol : String
  pub outcome : ScanOutcome
  pub message : Text

pub data ScanStatus : Type 0 where
  completed skipped error : ScanStatus

pub data ScanReason : Type 0 where
  analyzed market_closed no_symbols cycle_error : ScanReason

pub record BotScanActivity : Type 0 where
  pub status : ScanStatus
  pub reason : ScanReason
  pub message : Text
  pub outcomes : List BotScanOutcome

unfoldable pub outcome_message : ScanOutcome → Text
unfolding literal
outcome_message held = literal "No trade candidate met the strategy threshold."
outcome_message no_capital =
    literal "No permitted position could be funded from this bot's available capital."
outcome_message ai_rejected =
    literal "Candidate was stopped by the AI advisory before risk assessment."
outcome_message approved =
    literal "Candidate passed risk checks and was queued for Paper execution."
outcome_message risk_rejected =
    literal "Candidate was rejected by the bot's mandatory risk controls."
outcome_message already_evaluated =
    literal "This candle was already evaluated; waiting for a newer market bar."
outcome_message missing_market_data =
    literal "Fresh market data was unavailable for this symbol; it will retry."

unfoldable pub outcome_details : OutcomeInput → BotScanOutcome
outcome_details input = record {
  symbol = input.symbol;
  outcome = input.outcome;
  message = outcome_message input.outcome;
}

unfoldable pub plural : ℕ → String → String → Text
plural count one many = either_literal (count == 1) one many

abbrev pub code_of : ScanOutcome → ℕ
code_of held = 0
code_of approved = 1
code_of risk_rejected = 2
code_of ai_rejected = 3
code_of no_capital = 4
code_of missing_market_data = 5
code_of already_evaluated = 6

-- `outcomes.filter((item) => item.outcome === outcome).length`
unfoldable pub counted : List BotScanOutcome → ScanOutcome → ℕ
counted outcomes outcome =
    length (keep (λ (item : BotScanOutcome). code_of item.outcome == code_of outcome) outcomes)

unfoldable pub all_parts : List BotScanOutcome → List (ℕ × Text)
all_parts outcomes =
    (counted outcomes held, literal "hold")
    ∷ (counted outcomes approved, literal "approved for Paper execution")
    ∷ (counted outcomes risk_rejected, literal "rejected by risk controls")
    ∷ (counted outcomes ai_rejected, literal "stopped by AI advisory")
    ∷ (counted outcomes no_capital, literal "without permitted capital")
    ∷ (counted outcomes missing_market_data, literal "waiting for market data")
    ∷ (counted outcomes already_evaluated, literal "already evaluated")
    ∷ []

unfoldable pub parts : List BotScanOutcome → List (ℕ × Text)
parts outcomes = keep (λ (part : ℕ × Text). ltb 0 part.0) (all_parts outcomes)

-- `parts.map(([count, label]) => `${count} ${label}`).join(", ")`
unfoldable pub joined : List (ℕ × Text) → Text
joined [] = []
joined ((count, label) ∷ []) = print_nat count ++ b' ' ∷ label
joined ((count, label) ∷ part ∷ rest) =
    print_nat count ++ b' ' ∷ label ++ literal ", " ++ joined (part ∷ rest)

unfoldable pub summary : List BotScanOutcome → Text
summary outcomes =
    literal "Analyzed "
    ++ print_nat (length outcomes)
    ++ b' ' ∷ plural (length outcomes) "symbol" "symbols"
    ++ literal ": "
    ++ joined (parts outcomes)
    ++ literal "."

pub data ScanState : Type 0 where
  state_completed state_market_closed state_no_symbols state_error : ScanState

unfoldable pub build_bot_scan_activity : ScanState → List OutcomeInput → BotScanActivity
build_bot_scan_activity state_market_closed outcomes = record {
  status = skipped;
  reason = market_closed;
  message = literal "Waiting: the US regular market is closed.";
  outcomes = [];
}
build_bot_scan_activity state_no_symbols outcomes = record {
  status = skipped;
  reason = no_symbols;
  message = literal "Waiting: this bot has no enabled symbols to analyze.";
  outcomes = [];
}
build_bot_scan_activity state_error outcomes = record {
  status = error;
  reason = cycle_error;
  message = literal "Analysis cycle could not finish. It will retry on the next cycle.";
  outcomes = [];
}
build_bot_scan_activity state_completed outcomes =
    let details = map outcome_details outcomes in
    record { status = completed; reason = analyzed; message = summary details; outcomes = details }

unfoldable pub same_reason : ScanReason → ScanReason → Bool
same_reason analyzed analyzed = true
same_reason market_closed market_closed = true
same_reason no_symbols no_symbols = true
same_reason cycle_error cycle_error = true
same_reason _ _ = false

-- `last` is the reason and the start of the latest run.
unfoldable pub should_record_skipped_activity : Option (ScanReason × ℕ) → ScanReason → ℕ → Bool
should_record_skipped_activity none reason now = true
should_record_skipped_activity (some (last_reason, last_started_at)) reason now =
    if same_reason last_reason reason then leb (last_started_at + 3_600_000) now else true

-- `now - 30 days`; the epoch is far behind every date.
unfoldable pub bot_scan_retention_cutoff : ℕ → ℕ
bot_scan_retention_cutoff now = now - 2_592_000_000
