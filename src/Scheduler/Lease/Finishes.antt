-- ===== src/Scheduler/Lease/Finishes.antt =====
-- A run of src/modules/scheduler/lease-scheduler.ts from the upsert of its row to the end of its
-- handler, with the writes of other workers meanwhile.
use braiker.Scheduler.Lease.{
  completed, failed, claim_run, finish_run, run_task, JobRun, JobStatus, write, completed_run,
  new_run, failed_run, claimed, TaskRun, holds_lease, is_token, is_run_of, scheduled_minute,
  lease_ms, Write, writes,
}
use braiker.Scheduler.Lease.Exclusive.{find_run, Spares, writes-IsLeasedBy}
use braiker.Prelude.{
  List, [], ◌∷◌, Option, none, some, Bool, true, ℕ, ◌≡◌, refl, arith, inl, inr, String, All,
  Option-cases, find, ◌++◌, ◌+◌, str_eq_refl,
}
use braiker.Prelude.Table.{update_rows}
use braiker.Scheduler.Lease.Waiting.{
  IsOnly, IsFresh, find_run-IsOnly, Leaves, IsWaiting, upsert_run-none, claim_run-IsOnly,
  IsOnly-writes, IsOnly-new,
}

find_run-picked :
    (id : String) (picks : JobRun → Bool) (change : JobRun → JobRun) (runs : List JobRun)
    (run : JobRun)
    → ((r : JobRun) → (change r).id ≡ r.id)
    → find_run id runs ≡ some run
    → picks run ≡ true
    → find_run id (update_rows picks change runs) ≡ some (change run)
unfolding update_rows
find_run-picked id picks change [] run keeps h p = cc
find_run-picked id picks change (r ∷ runs) run keeps h p =
    ground (arith, find_run-picked id picks change runs run keeps, keeps r)

-- The status that the handler's end gives the row.
abbrev pub end_status : Option String → JobStatus
end_status none = completed
end_status (some message) = failed

finish_run-ends :
    (task : TaskRun) (id : String) (runs : List JobRun) (run : JobRun)
    → find_run id runs ≡ some run
    → holds_lease id task.token run ≡ true
    → (ended : JobRun) × (find_run id (write (finish_run task id) runs) ≡ some ended)
      × (ended.status ≡ end_status task.thrown)
      × (ended.attempts ≡ run.attempts)
unfolding finish_run write completed_run failed_run
finish_run-ends task id runs run h held = elim (Option-cases task.thrown) [
  | inl e ↦ rw e (
    completed_run task.finished run,
    find_run-picked id (holds_lease id task.token) (completed_run task.finished) runs run
        (λ r. refl) h held,
    refl,
    refl,
  )
  | inr (message, e) ↦ rw e (
    failed_run message run,
    find_run-picked id (holds_lease id task.token) (failed_run message) runs run (λ r. refl) h held,
    refl,
    refl,
  )
]

new_run-leased :
    (id token task_id : String) (at now : ℕ) (runs : List JobRun) (ws : List Write)
    → IsOnly id (claimed token now (new_run id task_id at)) runs
    → All (Spares token (now + lease_ms)) ws
    → (holds_lease id token (claimed token now (new_run id task_id at)) ≡ true)
      × (find_run id (writes ws runs) ≡ some (claimed token now (new_run id task_id at)))
unfolding new_run claimed holds_lease is_token
new_run-leased id token task_id at now runs ws only spares =
    let leased = claimed token now (new_run id task_id at) in
    (
      rw (str_eq_refl id, str_eq_refl token) refl,
      writes-IsLeasedBy id token (now + lease_ms) ws runs leased (refl, refl, refl) spares
          (find_run-IsOnly id runs leased (str_eq_refl id) only),
    )

-- The claim of a new row after the writes of others that leave it.
claim_run-new :
    (id token task_id : String) (at now : ℕ) (runs : List JobRun) (before : List Write)
    → All (IsFresh id) runs
    → All (Leaves id) before
    → let run = new_run id task_id at in
      let claiming = claim_run run.id token now (writes before (runs ++ run ∷ [])) in
      (claiming.0 ≡ true) × IsOnly id (claimed token now run) claiming.1
unfolding new_run
claim_run-new id token task_id at now runs before fresh leaves =
    let run = new_run id task_id at in
    let waits : IsWaiting id run = (str_eq_refl id, refl, refl) in
    claim_run-IsOnly id token now (writes before (runs ++ run ∷ [])) run waits
      (IsOnly-writes id before (runs ++ run ∷ []) run waits leaves (IsOnly-new id runs run fresh))

finish_new-ends :
    (task : TaskRun) (runs : List JobRun)
    → (let run =
          claimed task.token task.claimed_at
            (new_run task.new_id task.task_id (scheduled_minute task.started)) in
        find_run task.new_id runs ≡ some run
        → holds_lease task.new_id task.token run ≡ true
        → (ended : JobRun) × (find_run task.new_id (
              write
                (finish_run task
                  (new_run task.new_id task.task_id (scheduled_minute task.started)).id)
                runs)
            ≡ some ended)
          × (ended.status ≡ end_status task.thrown)
          × (ended.attempts ≡ 1))
unfolding new_run claimed
finish_new-ends task runs h held = finish_run-ends task task.new_id runs _ h held

-- A task that has no run for the minute adds one under a new id and runs its handler, provided that
-- no write of another worker between the upsert and the claim claims that id or adds a row under
-- it; where the writes during the handler neither finish under its token nor expire leases after
-- its own, the new row ends completed if the handler returned and failed if it threw, after one
-- attempt.
pub run_task-finishes :
    (task : TaskRun) (runs : List JobRun)
    → find (is_run_of task.task_id (scheduled_minute task.started)) runs ≡ none
    → All (IsFresh task.new_id) runs
    → All (Leaves task.new_id) task.before
    → All (Spares task.token (task.claimed_at + lease_ms)) task.between
    → ((run_task task runs).0 ≡ true)
      × (ended : JobRun) × (find_run task.new_id (run_task task runs).1 ≡ some ended)
      × (ended.status ≡ end_status task.thrown)
      × (ended.attempts ≡ 1)
unfolding run_task
run_task-finishes task runs none_yet fresh leaves spares =
    let at = scheduled_minute task.started in
    let (claims, only) =
      claim_run-new task.new_id task.token task.task_id at task.claimed_at runs task.before fresh
        leaves in
    let (held, kept) =
      new_run-leased task.new_id task.token task.task_id at task.claimed_at _ task.between only
        spares in
    rw (upsert_run-none task.new_id task.task_id at runs none_yet, claims)
      (let (ended, found, status, attempts) = finish_new-ends task _ kept held in
        (refl, ended, found, status, attempts))
