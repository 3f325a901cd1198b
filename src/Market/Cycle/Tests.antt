-- ===== src/Market/Cycle/Tests.antt =====
-- Runs of evaluations and of the cycle.
use braiker.Market.Runner.{
  adaptive_input, broker_position, candidate, cost_of, exposure_of, free_capital, last_close,
  market_order, open_position, pending_symbols, sized_order, strategy_context, trade_input,
}
use braiker.Strategy.Trend.{
  bearish_trend, bullish_indices, bullish_trend, buy_reasons, evaluate_trend_strategy,
  exit_confidence, hold_signal, is_above, is_busy, is_negative, is_positive, may_enter, must_exit,
  reason_if, score_buy, weight_if,
}
use braiker.Indicators.Context.{
  build_indicator_set, classify_market_regime, is_volatile, market_trend, regime_of, trend_of,
}
use braiker.Scheduler.Policy.{
  every_minutes, interval_among, interval_from_cron, is_due_every, is_interval_cron_due,
  is_task_run_due, market_cycle_resume_at, reconciliation_cron, utc_minutes,
}
use braiker.Prelude.Table.{update_one, update_rows}
use braiker.Money.Digits.{digits_from, digits_value, is_digit, pad_start, print_nat, value_from}
use braiker.Prelude.{
  last_n, last, ℕ, List, [], ◌∷◌, ◌≡◌, refl, some, none, true, false, All, String, ◌*◌,
}
use braiker.Prelude.Result.{ok, or_else}
use braiker.Prelude.Text.{either_literal, literal, same_text, text}
use braiker.Prelude.Int.{ℤ, pos, ◌+ℤ◌, ◌-ℤ◌}
use braiker.Money.{scale}
use braiker.Domain
use braiker.Risk.Types.{default_risk_policy, RiskPolicy}
use braiker.Decimal.Scaled.{scaled}
use braiker.Indicators.Tests.{fixed, bar_at}
use braiker.Indicators.Technical.{
  MarketBar, atr, average, changes, ema, ema_from, ema_of, momentum, momentum_of, relative_volume,
  rsi, rsi_of, sma, sum_from, true_ranges, volume_ratio, when_long,
}
use braiker.Bots.AdaptiveRisk.{Level}
use braiker.Bots.Row.{BotRow}
use braiker.Scheduler.Task.{ScheduledTask}
use braiker.Market.ScanActivity.{
  all_parts, already_evaluated, bot_scan_retention_cutoff, build_bot_scan_activity, counted, joined,
  outcome_details, outcome_message, parts, plural, same_reason, should_record_skipped_activity,
  summary,
}
use braiker.Market.Evaluation.{
  ActiveBot, EvaluationInput, WorkDb, evaluation_key, guard_state, is_pending_status, same_key,
  should_accept_bar,
}
use braiker.Market.Evaluate.{
  MarketDb, adjustment_of, audited, decided, evaluate_bot_for_bar, evaluate_candle, failed,
  finished, proposed, reviewed, settled, signalled, with_policy, with_status,
}
use braiker.Market.Evaluate.Once.{evaluate_bot_for_bar_once}
use braiker.Market.Cycle.{
  CycleDb, WatchEntry, WatchingBot, after_entry, counts, latest_scan, noted, open_or_closed,
  process_market_cycle, record_bot_scan, record_skipped_bot_scan, resumes_at, scan_bot, scan_bots,
  scan_of, schedule_market_cycle_resume, skip_bots, walk_watchlist,
}
use braiker.Market.Cycle.Again.{walk_watchlist-again}
use braiker.Market.Cycle.Closed.{SleepsUntil, process_market_cycle_closed}

abbrev guardian : BotRow ℤ
guardian = record {
  id = "guardian";
  wallet_id = "wallet";
  name = "Guardian";
  run_mode = Domain.paper_active;
  status = Domain.running;
  life_status = Domain.active;
  kill_switch = false;
  initial_capital = pos (20 * scale);
  current_capital = pos (20 * scale);
  reserved_capital = pos 0;
}

-- Momentum alone makes the score.
abbrev watcher : ActiveBot ℤ ℤ
watcher = record {
  row = guardian;
  positions = [];
  risk_policy = default_risk_policy;
  adaptive_risk_enabled = true;
  profile = record {
    minimum_signal_score = pos scale;
    momentum_weight = pos scale;
    trend_weight = pos 0;
    volume_weight = pos 0;
    market_context_weight = pos 0;
    volatility_penalty = pos 0;
  };
}

abbrev rising_bars : List MarketBar
rising_bars =
    bar_at (text "1")
    ∷ bar_at (text "1")
    ∷ bar_at (text "1")
    ∷ bar_at (text "1")
    ∷ bar_at (text "1")
    ∷ bar_at (text "2")
    ∷ []

abbrev on_bars : List MarketBar → EvaluationInput ℤ ℤ
on_bars bars = record {
  bot = watcher;
  symbol = "AAPL";
  candle_timestamp = 1_000_000;
  bid = text "2";
  ask = text "2";
  quote_timestamp = 1_000_000;
  bars = bars;
  spy_bars = [];
  qqq_bars = [];
  market_open = true;
  cash = text "100";
  equity = text "100";
  now = 1_060_000;
  new_proposal_id = "p1";
  ai_blocked = λ proposal. ok false;
  macro_events = [];
  trades_today = 0;
  daily_pnl = text "0";
  weekly_pnl = text "0";
}

abbrev work : WorkDb ℤ
work = record {
  decision = record {
    bots = guardian ∷ [];
    proposals = [];
    risk_decisions = [];
    execution_jobs = [];
    rejections = [];
  };
  adjustments = [];
}

abbrev fresh : MarketDb ℤ
fresh = record { evaluations = []; work = work }

abbrev one_hash : Level → RiskPolicy → RiskPolicy → String
one_hash level base effective = "hash"

evaluate_bot_for_bar_once_example :
    evaluate_bot_for_bar scaled fixed one_hash
      (on_bars rising_bars)
      (evaluate_bot_for_bar scaled fixed one_hash (on_bars []) fresh).1
    ≡ (ok already_evaluated, (evaluate_bot_for_bar scaled fixed one_hash (on_bars []) fresh).1)
unfolding evaluation_key
evaluate_bot_for_bar_once_example =
    evaluate_bot_for_bar_once scaled fixed one_hash (on_bars []) (on_bars rising_bars) fresh refl

abbrev watchlist : List (WatchEntry ℤ ℤ)
watchlist =
    record { symbol = "AAPL"; input = some (on_bars []) }
    ∷ record { symbol = "MSFT"; input = none }
    ∷ []

quiet_walk : (walk_watchlist scaled fixed one_hash watchlist fresh).thrown ≡ none
unfolding ◌+ℤ◌ ◌-ℤ◌ last_n last same_key should_accept_bar evaluation_key is_pending_status
    guard_state last_close open_position strategy_context adaptive_input cost_of exposure_of
    free_capital market_order sized_order candidate broker_position pending_symbols trade_input
    with_status failed finished decided reviewed proposed adjustment_of audited with_policy
    signalled evaluate_candle settled evaluate_bot_for_bar record_bot_scan latest_scan
    record_skipped_bot_scan resumes_at schedule_market_cycle_resume counts noted after_entry
    walk_watchlist scan_of scan_bot scan_bots skip_bots open_or_closed process_market_cycle
    hold_signal is_above is_positive is_negative is_busy bullish_trend bearish_trend bullish_indices
    weight_if score_buy reason_if buy_reasons must_exit may_enter exit_confidence
    evaluate_trend_strategy build_indicator_set is_volatile trend_of market_trend regime_of
    classify_market_regime sum_from when_long sma ema_from ema_of ema momentum_of momentum changes
    rsi_of rsi true_ranges average atr volume_ratio relative_volume
quiet_walk = refl

walk_watchlist-again_example :
    let again =
      walk_watchlist scaled fixed one_hash watchlist
        (walk_watchlist scaled fixed one_hash watchlist fresh).db in
    (again.evaluations ≡ 0)
    × (again.thrown ≡ none)
    × (again.db ≡ (walk_watchlist scaled fixed one_hash watchlist fresh).db)
walk_watchlist-again_example = walk_watchlist-again scaled fixed one_hash watchlist fresh quiet_walk

abbrev cycle_task : ScheduledTask
cycle_task = record {
  id = "task";
  name = "market-cycle";
  cron_expression = text "*/1 * * * *";
  timezone = "America/New_York";
  is_enabled = true;
  next_run_at = none;
}

abbrev tables : CycleDb ℤ
tables = record { market = fresh; scans = []; tasks = cycle_task ∷ [] }

abbrev watching : WatchingBot ℤ ℤ
watching = record { bot_id = "guardian"; watchlist = watchlist }

abbrev after_close : ℕ × CycleDb ℤ
after_close =
    or_else
      (process_market_cycle scaled fixed one_hash false 9_000_000 1_060_000 (watching ∷ []) tables)
      (1, tables)

after_close_lem :
    process_market_cycle scaled fixed one_hash false 9_000_000 1_060_000 (watching ∷ []) tables
    ≡ ok (after_close.0, after_close.1)
unfolding record_bot_scan latest_scan record_skipped_bot_scan resumes_at
    schedule_market_cycle_resume counts noted after_entry walk_watchlist scan_of scan_bot scan_bots
    skip_bots open_or_closed process_market_cycle outcome_message outcome_details plural counted
    all_parts parts joined summary build_bot_scan_activity same_reason
    should_record_skipped_activity bot_scan_retention_cutoff every_minutes reconciliation_cron
    interval_among interval_from_cron utc_minutes is_due_every is_interval_cron_due is_task_run_due
    market_cycle_resume_at update_rows update_one literal either_literal same_text is_digit
    value_from digits_value digits_from print_nat pad_start
after_close_lem = refl

process_market_cycle_closed_example :
    (after_close.0 ≡ 0)
    × (after_close.1.market ≡ fresh)
    × All (SleepsUntil 9_000_000) after_close.1.tasks
process_market_cycle_closed_example =
    process_market_cycle_closed scaled fixed one_hash 9_000_000 1_060_000 watching [] tables
      after_close.0 after_close.1 after_close_lem
