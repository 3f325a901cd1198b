-- ===== src/Market/Cycle.antt =====
-- `processMarketCycle` of src/modules/market/market-runner.ts, once the account is synchronized and
-- the bars and quotes are loaded, and the writes around it.
pub mod Again
pub mod Closed
mod Tests
use braiker.Prelude.Result.{Result, ok, throw, ◌>>=◌}
use braiker.Prelude.{
  ℕ, true, false, String, List, Option, ◌∷◌, none, if◌then◌else◌, some, [], Bool, str_eq, ◌+◌, ◌&&◌,
}
use braiker.Decimal.{Decimal}
use braiker.Indicators.Number.{Number}
use braiker.Risk.Types.{RiskPolicy}
use braiker.Bots.AdaptiveRisk.{Level}
use braiker.Scheduler.Policy.{market_cycle_resume_at}
use braiker.Scheduler.Task.{ScheduledTask, is_named}
use braiker.Market.ScanActivity.{
  ScanOutcome, missing_market_data, already_evaluated, OutcomeInput, BotScanActivity, ScanReason,
  build_bot_scan_activity, should_record_skipped_activity, state_completed, state_error,
  state_market_closed, state_no_symbols, ScanState, market_closed, no_symbols,
}
use braiker.Market.Evaluation.{EvaluationInput}
use braiker.Market.Evaluate.{MarketDb, evaluate_bot_for_bar}
use braiker.Prelude.Table.{update_one, update_rows}
use braiker.Prelude.Maybe.{is_some}

pub record BotScanRun : Type 0 where
  pub bot_id : String
  pub activity : BotScanActivity
  pub started_at : ℕ

-- The latest scan first.
pub record CycleDb (A : Type 0) : Type 0 where
  pub market : MarketDb A
  pub scans : List BotScanRun
  pub tasks : List ScheduledTask

abbrev pub market_cycle : String
market_cycle = "market-cycle"

unfoldable pub record_bot_scan : String → BotScanActivity → ℕ → List BotScanRun → List BotScanRun
record_bot_scan bot_id activity started_at scans =
    record { bot_id = bot_id; activity = activity; started_at = started_at } ∷ scans

unfoldable pub latest_scan : String → List BotScanRun → Option (ScanReason × ℕ)
latest_scan bot_id [] = none
latest_scan bot_id (scan ∷ scans) =
    if str_eq scan.bot_id bot_id
    then some (scan.activity.reason, scan.started_at)
    else latest_scan bot_id scans

unfoldable pub record_skipped_bot_scan :
    String → ScanState → ScanReason → ℕ → List BotScanRun → List BotScanRun
record_skipped_bot_scan bot_id state reason now scans =
    if should_record_skipped_activity (latest_scan bot_id scans) reason now
    then record_bot_scan bot_id (build_bot_scan_activity state []) now scans
    else scans

unfoldable pub resumes_at : Option ℕ → ScheduledTask → ScheduledTask
resumes_at next_run_at task = record task { next_run_at = next_run_at }

-- `update` by the unique name, or `updateMany` where a time stands.
unfoldable pub schedule_market_cycle_resume :
    Option ℕ → List ScheduledTask → Result (List ScheduledTask)
schedule_market_cycle_resume (some next_run_at) tasks =
    update_one (is_named market_cycle) (resumes_at (some next_run_at)) "P2025" tasks
schedule_market_cycle_resume none tasks = ok (
    update_rows (λ (task : ScheduledTask). is_named market_cycle task && is_some task.next_run_at)
      (resumes_at none) tasks)

-- A watched symbol, and what its evaluation reads, if its candle and quote are there.
pub record WatchEntry (A N : Type 0) : Type 0 where
  pub symbol : String
  pub input : Option (EvaluationInput A N)

pub record WatchingBot (A N : Type 0) : Type 0 where
  pub bot_id : String
  pub watchlist : List (WatchEntry A N)

-- The walk over a watchlist: its outcomes, its new evaluations, and what ended it early.
pub record Walk (A : Type 0) : Type 0 where
  pub outcomes : List OutcomeInput
  pub evaluations : ℕ
  pub thrown : Option String
  pub db : MarketDb A

-- `if (result !== "duplicate") evaluations += 1`
unfoldable pub counts : ScanOutcome → ℕ
counts already_evaluated = 0
counts _ = 1

unfoldable pub noted : {A : Type 0} → String → ScanOutcome → ℕ → Walk A → Walk A
noted symbol outcome more rest = record rest {
  outcomes = record { symbol = symbol; outcome = outcome } ∷ rest.outcomes;
  evaluations = more + rest.evaluations;
}

module _ (d : Decimal) (n : Number) (hash : Level → RiskPolicy → RiskPolicy → String) where
  unfoldable pub after_entry :
      String
      → Result ScanOutcome
      → MarketDb d.Carrier
      → (MarketDb d.Carrier → Walk d.Carrier)
      → Walk d.Carrier
  after_entry symbol (throw message) db rest = record {
    outcomes = [];
    evaluations = 0;
    thrown = some message;
    db = db;
  }
  after_entry symbol (ok outcome) db rest = noted symbol outcome (counts outcome) (rest db)

  unfoldable pub walk_watchlist :
      List (WatchEntry d.Carrier n.Carrier) → MarketDb d.Carrier → Walk d.Carrier
  walk_watchlist [] db = record { outcomes = []; evaluations = 0; thrown = none; db = db }
  walk_watchlist (entry ∷ entries) db = elim entry.input [
    | none ↦ noted entry.symbol missing_market_data 0 (walk_watchlist entries db)
    | some input ↦
        let evaluated = evaluate_bot_for_bar d n hash input db in
        after_entry entry.symbol evaluated.0 evaluated.1 (walk_watchlist entries)
  ]

  unfoldable pub scan_of : Walk d.Carrier → BotScanActivity
  scan_of walk = elim walk.thrown [
    | none ↦ build_bot_scan_activity state_completed walk.outcomes
    | some message ↦ build_bot_scan_activity state_error []
  ]

  unfoldable pub scan_bot :
      ℕ → String → List (WatchEntry d.Carrier n.Carrier) → CycleDb d.Carrier → ℕ × CycleDb d.Carrier
  scan_bot now bot_id [] db = (
    0,
    record db { scans = record_skipped_bot_scan bot_id state_no_symbols no_symbols now db.scans },
  )
  scan_bot now bot_id (entry ∷ entries) db =
      let walk = walk_watchlist (entry ∷ entries) db.market in
      (
        walk.evaluations,
        record db { market = walk.db; scans = record_bot_scan bot_id (scan_of walk) now db.scans },
      )

  unfoldable pub scan_bots :
      ℕ → List (WatchingBot d.Carrier n.Carrier) → CycleDb d.Carrier → ℕ × CycleDb d.Carrier
  scan_bots now [] db = (0, db)
  scan_bots now (bot ∷ bots) db =
      let scanned = scan_bot now bot.bot_id bot.watchlist db in
      let rest = scan_bots now bots scanned.1 in (scanned.0 + rest.0, rest.1)

  unfoldable pub skip_bots :
      ℕ → List (WatchingBot d.Carrier n.Carrier) → List BotScanRun → List BotScanRun
  skip_bots now [] scans = scans
  skip_bots now (bot ∷ bots) scans =
      skip_bots now bots
        (record_skipped_bot_scan bot.bot_id state_market_closed market_closed now scans)

  unfoldable pub open_or_closed :
      Bool → ℕ → List (WatchingBot d.Carrier n.Carrier) → CycleDb d.Carrier → ℕ × CycleDb d.Carrier
  open_or_closed true now bots db = scan_bots now bots db
  open_or_closed false now bots db = (0, record db { scans = skip_bots now bots db.scans })

  -- The evaluations of the cycle, and its tables. `is_open` and `next_open` are the broker's clock.
  unfoldable pub process_market_cycle :
      Bool
      → ℕ
      → ℕ
      → List (WatchingBot d.Carrier n.Carrier)
      → CycleDb d.Carrier
      → Result (ℕ × CycleDb d.Carrier)
  process_market_cycle is_open next_open now [] db = ok (0, db)
  process_market_cycle is_open next_open now (bot ∷ bots) db = do
    tasks ← schedule_market_cycle_resume (market_cycle_resume_at is_open next_open) db.tasks
    ok (open_or_closed is_open now (bot ∷ bots) (record db { tasks = tasks }))
