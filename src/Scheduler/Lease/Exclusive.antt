-- ===== src/Scheduler/Lease/Exclusive.antt =====
-- A leased row of src/modules/scheduler/lease-scheduler.ts under the writes of other workers.
use braiker.Prelude.Table.{update_rows}
use braiker.Scheduler.Lease.{
  JobRun, Write, running, upsert, claim, complete, fail, expire, write, writes, upsert_run,
  claim_run, new_run, can_claim, claimed, holds_lease, completed_run, failed_run, has_expired,
  released_run, scheduled_minute, is_pending, is_token, is_expired,
}
use braiker.Prelude.{
  List, [], ◌∷◌, Option, some, Bool, false, ℕ, ◌≡◌, refl, arith, String, find, ◌≢◌, str_eq, ◌≤◌,
  eq_iff, All, ◌++◌,
}

abbrev pub find_run : String → List JobRun → Option JobRun
find_run id = find (λ (run : JobRun). str_eq run.id id)

-- A write that cannot end the lease that `token` holds until `at`: it finishes under another token,
-- or expires leases at a time that is not past it.
abbrev pub Spares : String → ℕ → Write → Type 0
Spares token at (upsert _ _ _) = Unit
Spares token at (claim _ _ _) = Unit
Spares token at (complete _ other _) = other ≢ token
Spares token at (fail _ other _) = other ≢ token
Spares token at (expire now) = now ≤ at

-- An update that keeps ids and does not pick the row found leaves it found.
find_run-update_rows :
    (id : String) (picks : JobRun → Bool) (change : JobRun → JobRun) (runs : List JobRun)
    (run : JobRun)
    → ((r : JobRun) → (change r).id ≡ r.id)
    → find_run id runs ≡ some run
    → picks run ≡ false
    → find_run id (update_rows picks change runs) ≡ some run
unfolding update_rows
find_run-update_rows id picks change [] run keeps h p = cc
find_run-update_rows id picks change (r ∷ runs) run keeps h p =
    ground (arith, find_run-update_rows id picks change runs run keeps, keeps r)

find_run-append :
    (id : String) (runs : List JobRun) (last run : JobRun)
    → find_run id runs ≡ some run
    → find_run id (runs ++ last ∷ []) ≡ some run
find_run-append id [] last run h = cc
find_run-append id (r ∷ runs) last run h = ground (arith, find_run-append id runs last run)

-- The row is leased by `token` until `at`.
abbrev pub IsLeasedBy : String → ℕ → JobRun → Type 0
IsLeasedBy token at run =
    (run.status ≡ running) × (run.lease_token ≡ some token) × (run.lease_expires_at ≡ some at)

find_run-upsert_run :
    (id new_id task_id : String) (at : ℕ) (runs : List JobRun) (run : JobRun)
    → find_run id runs ≡ some run
    → find_run id (upsert_run new_id task_id at runs).1 ≡ some run
unfolding upsert_run
find_run-upsert_run id new_id task_id at runs run h =
    ground (arith, find_run-append id runs (new_run new_id task_id at) run h)

leased-can_claim :
    (id token : String) (at : ℕ) (run : JobRun) → IsLeasedBy token at run → can_claim id run ≡ false
unfolding can_claim is_pending
leased-can_claim id token at run l = rw l.0 ground arith

leased-holds_lease :
    (id other token : String) (at : ℕ) (run : JobRun)
    → IsLeasedBy token at run
    → other ≢ token
    → holds_lease id other run ≡ false
unfolding holds_lease is_token
leased-holds_lease id other token at run l ne = rw l.1 (ground (arith, eq_iff token other))

leased-has_expired :
    (token : String) (at now : ℕ) (run : JobRun)
    → IsLeasedBy token at run
    → now ≤ at
    → has_expired now run ≡ false
unfolding has_expired is_expired
leased-has_expired token at now run l le = rw l.2 (ground arith)

find_run-write :
    (id token : String) (at : ℕ) (w : Write) (runs : List JobRun) (run : JobRun)
    → IsLeasedBy token at run
    → Spares token at w
    → find_run id runs ≡ some run
    → find_run id (write w runs) ≡ some run
unfolding write claim_run can_claim claimed holds_lease completed_run failed_run has_expired
    released_run
find_run-write id token at (upsert new_id task_id now) runs run l s h =
    find_run-upsert_run id new_id task_id (scheduled_minute now) runs run h
find_run-write id token at (claim other t now) runs run l s h =
    find_run-update_rows id (can_claim other) (claimed t now) runs run (λ r. refl) h
      (leased-can_claim other token at run l)
find_run-write id token at (complete other t now) runs run l s h =
    find_run-update_rows id (holds_lease other t) (completed_run now) runs run (λ r. refl) h
      (leased-holds_lease other t token at run l s)
find_run-write id token at (fail other t message) runs run l s h =
    find_run-update_rows id (holds_lease other t) (failed_run message) runs run (λ r. refl) h
      (leased-holds_lease other t token at run l s)
find_run-write id token at (expire now) runs run l s h =
    find_run-update_rows id (has_expired now) released_run runs run (λ r. refl) h
      (leased-has_expired token at now run l s)

-- A row that a token leases until a time stays found unchanged under every sequence of other
-- workers' writes that neither finish under that token nor expire leases after that time.
pub writes-IsLeasedBy :
    (id token : String) (at : ℕ) (ws : List Write) (runs : List JobRun) (run : JobRun)
    → IsLeasedBy token at run
    → All (Spares token at) ws
    → find_run id runs ≡ some run
    → find_run id (writes ws runs) ≡ some run
unfolding writes
writes-IsLeasedBy id token at [] runs run l s h = h
writes-IsLeasedBy id token at (w ∷ ws) runs run l s h =
    writes-IsLeasedBy id token at ws (write w runs) run l s.1
      (find_run-write id token at w runs run l s.0 h)
