-- ===== src/Scheduler/Lease/Waiting.antt =====
-- A new row of src/modules/scheduler/lease-scheduler.ts between its upsert and its claim, with the
-- writes of other workers in between.
use braiker.Scheduler.Lease.{
  pending, upsert, claim, complete, fail, expire, new_run, holds_lease, has_expired, can_claim,
  upsert_run, write, writes, claim_run, JobRun, Write, is_token, is_running_job, claimed,
  is_pending, completed_run, is_run_of, failed_run, released_run, scheduled_minute,
}
use braiker.Scheduler.Lease.Exclusive.{find_run}
use braiker.Prelude.{
  List, [], ◌∷◌, none, some, Bool, true, false, ℕ, ◌≡◌, refl, arith, inl, inr, String, str_eq, All,
  subst, find, length, ◌⊎◌, ap, sym, keep, eq_iff, Option-cases, if◌then◌else◌, ◌++◌, Bool-cases,
}
use braiker.Prelude.Table.{update_rows, All-update_rows, keep-none, All-weaken, All-append}

-- No row, or no other row, has the id.
abbrev pub IsFresh : String → JobRun → Type 0
IsFresh id run = str_eq run.id id ≡ false

-- The run stands once in the table, and no other row has the id.
abbrev pub IsOnly : String → JobRun → List JobRun → Type 0
IsOnly id run [] = true ≡ false
IsOnly id run (r ∷ runs) = (r ≡ run) × All (IsFresh id) runs ⊎ IsFresh id r × IsOnly id run runs

-- A write of another worker that takes neither the run nor its id.
abbrev pub Leaves : String → Write → Type 0
Leaves id (upsert other _ _) = str_eq other id ≡ false
Leaves id (claim other _ _) = str_eq id other ≡ false
Leaves id (complete _ _ _) = Unit
Leaves id (fail _ _ _) = Unit
Leaves id (expire _) = Unit

All-IsFresh :
    (id : String) (picks : JobRun → Bool) (change : JobRun → JobRun) (runs : List JobRun)
    → ((r : JobRun) → (change r).id ≡ r.id)
    → All (IsFresh id) runs
    → All (IsFresh id) (update_rows picks change runs)
All-IsFresh id picks change runs keeps h =
    All-update_rows (IsFresh id) picks change runs
      (λ r _ fresh. subst (λ own. str_eq own id ≡ false) (sym (keeps r)) fresh) h

-- An update that keeps ids makes of the run what it makes of every row it picks.
IsOnly-update_rows :
    (id : String) (picks : JobRun → Bool) (change : JobRun → JobRun) (runs : List JobRun)
    (run : JobRun)
    → ((r : JobRun) → (change r).id ≡ r.id)
    → IsOnly id run runs
    → IsOnly id (if picks run then change run else run) (update_rows picks change runs)
unfolding update_rows
IsOnly-update_rows id picks change [] run keeps h = h
IsOnly-update_rows id picks change (r ∷ runs) run keeps (inl (same, fresh)) =
    elim (Bool-cases (picks r)) [
      | inl e ↦
          let e' = subst (λ q. picks q ≡ true) same e in
          rw (e, e') (inl (ap change same, All-IsFresh id picks change runs keeps fresh))
      | inr e ↦
          let e' = subst (λ q. picks q ≡ false) same e in
          rw (e, e') (inl (same, All-IsFresh id picks change runs keeps fresh))
    ]
IsOnly-update_rows id picks change (r ∷ runs) run keeps (inr (other, only)) =
    let rest = IsOnly-update_rows id picks change runs run keeps only in
    elim (Bool-cases (picks r)) [
      | inl e ↦ rw e (inr (subst (λ own. str_eq own id ≡ false) (sym (keeps r)) other, rest))
      | inr e ↦ rw e (inr (other, rest))
    ]

IsOnly-spared :
    (id : String) (picks : JobRun → Bool) (change : JobRun → JobRun) (runs : List JobRun)
    (run : JobRun)
    → ((r : JobRun) → (change r).id ≡ r.id)
    → picks run ≡ false
    → IsOnly id run runs
    → IsOnly id run (update_rows picks change runs)
IsOnly-spared id picks change runs run keeps e h =
    subst (λ q. IsOnly id q (update_rows picks change runs))
      (ap (λ b. if b then change run else run) e)
      (IsOnly-update_rows id picks change runs run keeps h)

IsOnly-append :
    (id : String) (runs : List JobRun) (run last : JobRun)
    → IsFresh id last
    → IsOnly id run runs
    → IsOnly id run (runs ++ last ∷ [])
IsOnly-append id [] run last fresh h = cc
IsOnly-append id (r ∷ runs) run last fresh (inl (same, all)) =
    inl (same, All-append (IsFresh id) runs last all fresh)
IsOnly-append id (r ∷ runs) run last fresh (inr (other, only)) =
    inr (other, IsOnly-append id runs run last fresh only)

pub IsOnly-new :
    (id : String) (runs : List JobRun) (run : JobRun)
    → All (IsFresh id) runs
    → IsOnly id run (runs ++ run ∷ [])
IsOnly-new id [] run h = inl (refl, tt)
IsOnly-new id (r ∷ runs) run h = inr (h.0, IsOnly-new id runs run h.1)

pub find_run-IsOnly :
    (id : String) (runs : List JobRun) (run : JobRun)
    → str_eq run.id id ≡ true
    → IsOnly id run runs
    → find_run id runs ≡ some run
find_run-IsOnly id [] run e h = cc
find_run-IsOnly id (r ∷ runs) run e (inl (same, all)) =
    rw (subst (λ (q : JobRun). str_eq q.id id ≡ true) (sym same) e) (ap some same)
find_run-IsOnly id (r ∷ runs) run e (inr (other, only)) =
    rw other (find_run-IsOnly id runs run e only)

-- A run that waits to be claimed.
abbrev pub IsWaiting : String → JobRun → Type 0
IsWaiting id run = (str_eq run.id id ≡ true) × (run.status ≡ pending) × (run.lease_token ≡ none)

waiting-holds_lease :
    (id other token : String) (run : JobRun)
    → IsWaiting id run
    → holds_lease other token run ≡ false
unfolding holds_lease is_token
waiting-holds_lease id other token run (_, _, free) = rw free (ground arith)

waiting-has_expired :
    (id : String) (now : ℕ) (run : JobRun) → IsWaiting id run → has_expired now run ≡ false
unfolding has_expired is_running_job
waiting-has_expired id now run (_, waits, _) = rw waits refl

waiting-can_claim :
    (id other : String) (run : JobRun)
    → IsWaiting id run
    → str_eq id other ≡ false
    → can_claim other run ≡ false
unfolding can_claim
waiting-can_claim id other run (same, _, _) ne =
    rw (subst (λ own. str_eq own other ≡ false) (sym ((eq_iff run.id id).0 same)) ne) refl

pub upsert_run-none :
    (id task_id : String) (at : ℕ) (runs : List JobRun)
    → find (is_run_of task_id at) runs ≡ none
    → upsert_run id task_id at runs ≡ (new_run id task_id at, runs ++ new_run id task_id at ∷ [])
unfolding upsert_run
upsert_run-none id task_id at runs h = ground arith

upsert_run-some :
    (id task_id : String) (at : ℕ) (runs : List JobRun) {run : JobRun}
    → find (is_run_of task_id at) runs ≡ some run
    → (upsert_run id task_id at runs).1 ≡ runs
unfolding upsert_run
upsert_run-some id task_id at runs h = ground arith

IsOnly-write :
    (id : String) (w : Write) (runs : List JobRun) (run : JobRun)
    → IsWaiting id run
    → Leaves id w
    → IsOnly id run runs
    → IsOnly id run (write w runs)
unfolding write claim_run upsert_run new_run claimed completed_run failed_run released_run
IsOnly-write id (upsert other task_id now) runs run waits leaves only =
    elim (Option-cases (find (is_run_of task_id (scheduled_minute now)) runs)) [
      | inl e ↦
          subst (IsOnly id run)
            (sym (
              ap (λ (u : JobRun × List JobRun). u.1)
                (upsert_run-none other task_id (scheduled_minute now) runs e)))
            (IsOnly-append id runs run (new_run other task_id (scheduled_minute now)) leaves only)
      | inr (found, e) ↦
          subst (IsOnly id run) (sym (upsert_run-some other task_id (scheduled_minute now) runs e))
            only
    ]
IsOnly-write id (claim other token now) runs run waits leaves only =
    IsOnly-spared id (can_claim other) (claimed token now) runs run (λ r. refl)
      (waiting-can_claim id other run waits leaves) only
IsOnly-write id (complete other token now) runs run waits leaves only =
    IsOnly-spared id (holds_lease other token) (completed_run now) runs run (λ r. refl)
      (waiting-holds_lease id other token run waits) only
IsOnly-write id (fail other token message) runs run waits leaves only =
    IsOnly-spared id (holds_lease other token) (failed_run message) runs run (λ r. refl)
      (waiting-holds_lease id other token run waits) only
IsOnly-write id (expire now) runs run waits leaves only =
    IsOnly-spared id (has_expired now) released_run runs run (λ r. refl)
      (waiting-has_expired id now run waits) only

pub IsOnly-writes :
    (id : String) (ws : List Write) (runs : List JobRun) (run : JobRun)
    → IsWaiting id run
    → All (Leaves id) ws
    → IsOnly id run runs
    → IsOnly id run (writes ws runs)
unfolding writes
IsOnly-writes id [] runs run waits leaves only = only
IsOnly-writes id (w ∷ ws) runs run waits leaves only =
    IsOnly-writes id ws (write w runs) run waits leaves.1
      (IsOnly-write id w runs run waits leaves.0 only)

keep-fresh :
    (id : String) (runs : List JobRun) → All (IsFresh id) runs → keep (can_claim id) runs ≡ []
unfolding can_claim
keep-fresh id runs h =
    keep-none (can_claim id) runs (All-weaken (IsFresh id) _ runs (λ r e. rw e refl) h)

fresh-can_claim : (id : String) (run : JobRun) → IsFresh id run → can_claim id run ≡ false
unfolding can_claim
fresh-can_claim id run e = rw e refl

waiting-claimed : (id : String) (run : JobRun) → IsWaiting id run → can_claim id run ≡ true
unfolding can_claim is_pending
waiting-claimed id run (same, waits, _) = rw (same, waits) refl

keep-IsOnly :
    (id : String) (runs : List JobRun) (run : JobRun)
    → can_claim id run ≡ true
    → IsOnly id run runs
    → length (keep (can_claim id) runs) ≡ 1
keep-IsOnly id [] run e h = cc
keep-IsOnly id (r ∷ runs) run e (inl (same, all)) =
    rw (subst (λ q. can_claim id q ≡ true) (sym same) e, keep-fresh id runs all) refl
keep-IsOnly id (r ∷ runs) run e (inr (other, only)) =
    rw (fresh-can_claim id r other) (keep-IsOnly id runs run e only)

-- The claim of a waiting run that stands once succeeds.
pub claim_run-IsOnly :
    (id token : String) (now : ℕ) (runs : List JobRun) (run : JobRun)
    → IsWaiting id run
    → IsOnly id run runs
    → ((claim_run id token now runs).0 ≡ true)
      × IsOnly id (claimed token now run) (claim_run id token now runs).1
unfolding claim_run claimed
claim_run-IsOnly id token now runs run waits only =
    let can = waiting-claimed id run waits in
    (
      rw (keep-IsOnly id runs run can only) refl,
      subst (λ q. IsOnly id q (update_rows (can_claim id) (claimed token now) runs))
          (ap (λ b. if b then claimed token now run else run) can)
          (IsOnly-update_rows id (can_claim id) (claimed token now) runs run (λ r. refl) only),
    )
