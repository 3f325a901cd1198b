-- ===== src/Scheduler/Tests.antt =====
-- Runs of src/modules/scheduler.
use braiker.Scheduler.Lease.Finishes.{run_task-finishes}
use braiker.Scheduler.Lease.{
  failed, JobRun, TaskRun, Write, can_claim, claim, claim_run, claimed, complete, completed,
  completed_run, expire, finish_run, holds_lease, is_run_of, is_running_job, lease_ms, new_run,
  run_task, running, scheduled_minute, upsert_run, write, writes, upsert,
}
use braiker.Prelude.Table.{update_rows}
use braiker.Scheduler.Lease.Exclusive.{find_run, writes-IsLeasedBy}
use braiker.Scheduler.Retry.{
  Outcome, done, write_conflict, retry_lease_recovery_write, decided,
  retry_lease_recovery_write_decides,
}
use braiker.Prelude.{
  List, [], ◌∷◌, none, some, ℕ, zero, suc, ◌≡◌, refl, arith, ◌≢◌, String, eq_iff, true, ◌↔◌, ◌/◌,
  ◌%◌, find, ◌≤◌, ◌+◌,
}
use braiker.Scheduler.Policy.{
  reconciliation_cron, interval_from_cron, is_interval_cron_due, every_minutes,
}
use braiker.Prelude.Result.{ok}
use braiker.Scheduler.Policy.Cron.{
  is_interval_cron_due_when, interval_from_cron-reconciliation_cron,
}

-- A run that the worker "a" has leased until 60000.
abbrev leased : JobRun
leased = record {
  id = "run";
  task_id = "market-cycle";
  scheduled_for = 0;
  status = running;
  attempts = 1;
  lease_token = some "a";
  lease_expires_at = some 60_000;
  started_at = some 0;
  completed_at = none;
  error = none;
}

abbrev other_writes : List Write
other_writes = claim "run" "b" 1000 ∷ expire 60_000 ∷ complete "run" "b" 2000 ∷ []

abbrev conflict_twice : ℕ → Outcome ℕ
conflict_twice zero = write_conflict "P2034"
conflict_twice (suc zero) = write_conflict "P2034"
conflict_twice (suc (suc n)) = done 7

retry_lease_recovery_write_decides_example :
    retry_lease_recovery_write conflict_twice
    ≡ some (decided (write_conflict "P2034") (write_conflict "P2034") (done 7))
retry_lease_recovery_write_decides_example = retry_lease_recovery_write_decides conflict_twice

b_is_not_a : ◌≢◌ {A = String} "b" "a"
b_is_not_a h = cc ((eq_iff "b" "a").1 h)

writes-IsLeasedBy_example : find_run "run" (writes other_writes (leased ∷ [])) ≡ some leased
writes-IsLeasedBy_example =
    writes-IsLeasedBy "run" "a" 60_000 other_writes (leased ∷ []) leased (refl, refl, refl)
      (tt, (omega arith, (b_is_not_a, tt))) refl

-- A task without a run: the row is made, claimed and completed under one token, although another
-- worker tries to claim it meanwhile.
abbrev first_cycle : TaskRun
first_cycle = record {
  new_id = "run";
  task_id = "market-cycle";
  token = "a";
  started = 61_000;
  claimed_at = 61_000;
  finished = 62_000;
  thrown = none;
  before = claim "other" "c" 61_000 ∷ [];
  between = claim "run" "b" 61_500 ∷ [];
}

first_cycle_completes : run_task first_cycle [] ≡ (
  true,
  record {
    id = "run";
    task_id = "market-cycle";
    scheduled_for = 60_000;
    status = completed;
    attempts = 1;
    lease_token = some "a";
    lease_expires_at = none;
    started_at = some 61_000;
    completed_at = some 62_000;
    error = none;
  }
      ∷ [],
)
unfolding lease_ms is_running_job scheduled_minute new_run is_run_of upsert_run can_claim claimed
    claim_run holds_lease completed_run write writes finish_run run_task update_rows
first_cycle_completes = refl

every_quarter : reconciliation_cron 15 ≡ ok (every_minutes 15)
unfolding reconciliation_cron
every_quarter = refl

interval_from_cron-reconciliation_cron_example :
    (interval_from_cron (every_minutes 15) ≡ some 15)
    ↔ (reconciliation_cron 15 ≡ ok (every_minutes 15))
interval_from_cron-reconciliation_cron_example =
    interval_from_cron-reconciliation_cron (every_minutes 15) 15

is_interval_cron_due_when_example :
    (is_interval_cron_due (every_minutes 15) 1_800_000 ≡ true) ↔ (1_800_000 / 60_000 % 15 ≡ 0)
is_interval_cron_due_when_example =
    is_interval_cron_due_when 15 (every_minutes 15) 1_800_000 every_quarter

abbrev opening_run : TaskRun
opening_run = record {
  new_id = "run2";
  task_id = "resource-refresh";
  token = "b";
  started = 61_000;
  claimed_at = 61_000;
  finished = 62_000;
  thrown = some "ALPACA_DOWN";
  before = upsert "run3" "resource-refresh" 61_000 ∷ claim "run" "c" 61_000 ∷ [];
  between = expire 70_000 ∷ [];
}

no_row : find (is_run_of "resource-refresh" (scheduled_minute 61_000)) (leased ∷ []) ≡ none
unfolding is_run_of scheduled_minute
no_row = refl

in_lease : 70_000 ≤ 61_000 + lease_ms
unfolding lease_ms
in_lease = omega arith

run_task-finishes_example :
    ((run_task opening_run (leased ∷ [])).0 ≡ true)
    × (ended : JobRun) × (find_run "run2" (run_task opening_run (leased ∷ [])).1 ≡ some ended)
    × (ended.status ≡ failed)
    × (ended.attempts ≡ 1)
run_task-finishes_example =
    run_task-finishes opening_run (leased ∷ []) no_row (refl, tt) (refl, (refl, tt)) (in_lease, tt)
