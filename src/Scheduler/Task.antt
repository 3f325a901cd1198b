-- ===== src/Scheduler/Task.antt =====
-- The `ScheduledTask` rows under `ensureTask` and `runTask` of src/modules/scheduler/lease-scheduler.ts.
use braiker.Scheduler.Lease.{TaskRun, JobRun, run_task}
use braiker.Scheduler.Policy.{is_task_run_due}
use braiker.Prelude.Text.{Text}
use braiker.Prelude.{
  ℕ, String, Option, Bool, List, some, str_eq, find, ◌++◌, false, if◌then◌else◌, true, ◌&&◌, ◌∷◌,
  [], none,
}

pub record ScheduledTask : Type 0 where
  pub id : String
  pub name : String
  pub cron_expression : Text
  pub timezone : String
  pub is_enabled : Bool
  pub next_run_at : Option ℕ

abbrev pub is_named : String → ScheduledTask → Bool
is_named name task = str_eq task.name name

unfoldable pub find_task : String → List ScheduledTask → Option ScheduledTask
find_task name tasks = find (is_named name) tasks

-- `upsert` with an empty update; the id is the one that the schema's default makes.
unfoldable pub ensure_task :
    String → String → Text → String → List ScheduledTask → List ScheduledTask
ensure_task id name cron_expression timezone tasks = elim (find_task name tasks) [
  | some task ↦ tasks
  | none ↦
      tasks
      ++ record {
        id = id;
        name = name;
        cron_expression = cron_expression;
        timezone = timezone;
        is_enabled = true;
        next_run_at = none;
      }
        ∷ []
]

-- `task?.enabled && isTaskRunDue(task.nextRunAt)`
unfoldable pub may_run : ℕ → Option ScheduledTask → Bool
may_run now none = false
may_run now (some task) = task.is_enabled && is_task_run_due task.next_run_at now

unfoldable pub task_id : Option ScheduledTask → String
task_id none = ""
task_id (some task) = task.id

-- The handler ran, and the runs. `task` is the call's times, token and writes of others.
unfoldable pub run_named_task :
    String → List ScheduledTask → TaskRun → List JobRun → Bool × List JobRun
run_named_task name tasks task runs =
    if may_run task.started (find_task name tasks)
    then run_task (record task { task_id = task_id (find_task name tasks) }) runs
    else (false, runs)
