-- ===== src/Scheduler/Policy.antt =====
-- src/modules/scheduler/schedule-policy.ts. A date is its number of milliseconds since the epoch.
pub mod Cron
use braiker.Money.Digits.{print_nat, digits_value}
use braiker.Prelude.{
  ℕ, Bool, List, Option, ◌/◌, ◌∷◌, ◌++◌, none, if◌then◌else◌, ◌%◌, false, true, [], some, leb, not,
  any, ◌==◌,
}
use braiker.Prelude.Text.{Text, literal, same_text, text}
use braiker.Prelude.Result.{Result, ◌>>◌, throw_if, ok}

abbrev pub supported_intervals : List ℕ
supported_intervals = 1 ∷ 5 ∷ 15 ∷ 30 ∷ 60 ∷ []

unfoldable pub every_minutes : ℕ → Text
every_minutes interval_minutes = text "*/" ++ print_nat interval_minutes ++ text " * * * *"

unfoldable pub reconciliation_cron : ℕ → Result Text
reconciliation_cron interval_minutes = do
  throw_if (not (any (λ n. n == interval_minutes) supported_intervals))
      "Unsupported synchronization interval"
  ok (if interval_minutes == 60 then text "0 * * * *" else every_minutes interval_minutes)

-- The alternatives of `/^\*\/(1|5|15|30) \* \* \* \*$/`.
abbrev pub interval_digits : List Text
interval_digits = text "1" ∷ text "5" ∷ text "15" ∷ text "30" ∷ []

-- `match ? Number(match[1]) : null` for that expression over some alternatives: its literal parts
-- around the first alternative that makes up the whole text.
unfoldable pub interval_among : List Text → Text → Option ℕ
interval_among [] expression = none
interval_among (digits ∷ alternatives) expression =
    let rest = interval_among alternatives expression in
    if same_text expression (text "*/" ++ digits ++ text " * * * *")
    then some (digits_value digits)
    else rest

unfoldable pub interval_from_cron : Text → Option ℕ
interval_from_cron expression =
    if same_text expression (text "0 * * * *")
    then some 60
    else interval_among interval_digits expression

-- `now.getUTCMinutes()`
unfoldable pub utc_minutes : ℕ → ℕ
utc_minutes now = now / 60_000 % 60

unfoldable pub is_due_every : Option ℕ → ℕ → Bool
is_due_every none now = false
is_due_every (some interval) now =
    if interval == 60 then utc_minutes now == 0 else utc_minutes now % interval == 0

unfoldable pub is_interval_cron_due : Text → ℕ → Bool
is_interval_cron_due expression now = is_due_every (interval_from_cron expression) now

unfoldable pub is_task_run_due : Option ℕ → ℕ → Bool
is_task_run_due none now = true
is_task_run_due (some next_run_at) now = leb next_run_at now

unfoldable pub market_cycle_resume_at : Bool → ℕ → Option ℕ
market_cycle_resume_at true next_open = none
market_cycle_resume_at false next_open = some next_open
