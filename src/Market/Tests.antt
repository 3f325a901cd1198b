-- ===== src/Market/Tests.antt =====
-- Runs of the cycle's parts.
use braiker.Prelude.{List, [], ◌∷◌}
use braiker.Market.ScanActivity.{
  OutcomeInput, approved, held, state_completed, build_bot_scan_activity, BotScanActivity,
}

abbrev scanned : List OutcomeInput
scanned =
    record { symbol = "SPY"; outcome = held }
    ∷ record { symbol = "AAPL"; outcome = approved }
    ∷ record { symbol = "MSFT"; outcome = held }
    ∷ []

abbrev activity : BotScanActivity
activity = build_bot_scan_activity state_completed scanned
