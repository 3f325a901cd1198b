-- ===== src/Scheduler/Lease.antt =====
-- src/modules/scheduler/lease-scheduler.ts: the `JobRun` table under `runTask` and `expireLeases`.
-- Every call is one write on the table; the writes of different workers interleave. A date is its
-- number of milliseconds; tokens and ids are the texts that `randomUUID` gives.
pub mod Exclusive
pub mod Waiting
pub mod Finishes
use braiker.Prelude.Table.{update_rows}
use braiker.Prelude.{
  List, [], ◌∷◌, Option, none, some, Bool, true, false, ℕ, zero, suc, ◌≡◌, refl, arith, inl, inr,
  String, ltb, ◌/◌, ◌&&◌, if◌then◌else◌, str_eq, ◌*◌, find, ◌+◌, length, ◌==◌, ◌++◌, keep,
}

pub data JobStatus : Type 0 where
  pending running completed failed skipped : JobStatus

pub record JobRun : Type 0 where
  pub id : String
  pub task_id : String
  pub scheduled_for : ℕ
  pub status : JobStatus
  pub attempts : ℕ
  pub lease_token : Option String
  pub lease_expires_at : Option ℕ
  pub started_at : Option ℕ
  pub completed_at : Option ℕ
  pub error : Option String

unfoldable pub lease_ms : ℕ
lease_ms = 60_000

pub is_pending : JobStatus → Bool
is_pending pending = true
is_pending _ = false

unfoldable pub is_running_job : JobStatus → Bool
is_running_job running = true
is_running_job _ = false

pub is_token : String → Option String → Bool
is_token token none = false
is_token token (some t) = str_eq t token

-- `leaseExpiresAt: { lt: now }`, which no NULL satisfies
pub is_expired : ℕ → Option ℕ → Bool
is_expired now none = false
is_expired now (some at) = ltb at now

-- `new Date(Math.floor(Date.now() / 60_000) * 60_000)`
unfoldable pub scheduled_minute : ℕ → ℕ
scheduled_minute now = now / 60_000 * 60_000

-- The row that the schema's defaults give a new run.
unfoldable pub new_run : String → String → ℕ → JobRun
new_run id task_id scheduled_for = record {
  id = id;
  task_id = task_id;
  scheduled_for = scheduled_for;
  status = pending;
  attempts = 0;
  lease_token = none;
  lease_expires_at = none;
  started_at = none;
  completed_at = none;
  error = none;
}

unfoldable pub is_run_of : String → ℕ → JobRun → Bool
is_run_of task_id scheduled_for run =
    str_eq run.task_id task_id && run.scheduled_for == scheduled_for

-- `jobRun.upsert` with an empty update: the run, and the table.
unfoldable pub upsert_run : String → String → ℕ → List JobRun → JobRun × List JobRun
unfolding new_run is_run_of
upsert_run id task_id scheduled_for runs = elim (find (is_run_of task_id scheduled_for) runs) [
  | some run ↦ (run, runs)
  | none ↦ (new_run id task_id scheduled_for, runs ++ new_run id task_id scheduled_for ∷ [])
]

unfoldable pub can_claim : String → JobRun → Bool
unfolding is_pending
can_claim id run = str_eq run.id id && is_pending run.status

unfoldable pub claimed : String → ℕ → JobRun → JobRun
claimed token now run = record run {
  status = running;
  attempts = suc run.attempts;
  lease_token = some token;
  lease_expires_at = some (now + lease_ms);
  started_at = some now;
}

-- `claim.count === 1`, and the table after the claim.
unfoldable pub claim_run : String → String → ℕ → List JobRun → Bool × List JobRun
claim_run id token now runs =
    (length (keep (can_claim id) runs) == 1, update_rows (can_claim id) (claimed token now) runs)

unfoldable pub holds_lease : String → String → JobRun → Bool
unfolding is_token
holds_lease id token run = str_eq run.id id && is_token token run.lease_token

unfoldable pub completed_run : ℕ → JobRun → JobRun
completed_run now run = record run {
  status = completed;
  completed_at = some now;
  lease_expires_at = none;
}

pub failed_run : String → JobRun → JobRun
failed_run message run = record run {
  status = failed;
  error = some message;
  lease_expires_at = none;
}

pub has_expired : ℕ → JobRun → Bool
unfolding is_running_job is_expired
has_expired now run = is_running_job run.status && is_expired now run.lease_expires_at

pub released_run : JobRun → JobRun
released_run run = record run { status = pending; lease_token = none; lease_expires_at = none }

-- One write of one worker.
pub data Write : Type 0 where
  upsert : String → String → ℕ → Write
  claim : String → String → ℕ → Write
  complete : String → String → ℕ → Write
  fail : String → String → String → Write
  expire : ℕ → Write

unfoldable pub write : Write → List JobRun → List JobRun
write (upsert id task_id now) runs = (upsert_run id task_id (scheduled_minute now) runs).1
write (claim id token now) runs = (claim_run id token now runs).1
write (complete id token now) runs = update_rows (holds_lease id token) (completed_run now) runs
write (fail id token message) runs = update_rows (holds_lease id token) (failed_run message) runs
write (expire now) runs = update_rows (has_expired now) released_run runs

unfoldable pub writes : List Write → List JobRun → List JobRun
writes [] runs = runs
writes (w ∷ ws) runs = writes ws (write w runs)

-- A call of `runTask`, with the writes of other workers between its own: `before` between the upsert
-- and the claim, `between` while the handler runs, the handler's own writes to the table included.
pub record TaskRun : Type 0 where
  pub new_id : String
  pub task_id : String
  pub token : String
  pub started : ℕ
  pub claimed_at : ℕ
  pub finished : ℕ
  -- `none` when the handler returns
  pub thrown : Option String
  pub before : List Write
  pub between : List Write

unfoldable pub finish_run : TaskRun → String → Write
finish_run task id = elim task.thrown [
  | none ↦ complete id task.token task.finished
  | some message ↦ fail id task.token message
]

-- The handler ran, and the table.
unfoldable pub run_task : TaskRun → List JobRun → Bool × List JobRun
run_task task runs =
    let upserted = upsert_run task.new_id task.task_id (scheduled_minute task.started) runs in
    let claiming =
      claim_run upserted.0.id task.token task.claimed_at (writes task.before upserted.1) in
    if claiming.0
    then (true, write (finish_run task upserted.0.id) (writes task.between claiming.1))
    else (false, claiming.1)
