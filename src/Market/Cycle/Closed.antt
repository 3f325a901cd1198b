-- ===== src/Market/Cycle/Closed.antt =====
-- A cycle while the market is closed.
use braiker.Prelude.Result.{ok, >>=-eq-ok, ok-injective}
use braiker.Prelude.{
  ℕ, true, false, ◌≡◌, some, List, String, ◌<◌, arith, All, ◌∷◌, subst, Bool-cases, refl, inl, inr,
  [],
}
use braiker.Prelude.Table.{update_rows, update_one-ok}
use braiker.Decimal.{Decimal}
use braiker.Indicators.Number.{Number}
use braiker.Risk.Types.{RiskPolicy}
use braiker.Bots.AdaptiveRisk.{Level}
use braiker.Scheduler.Policy.{market_cycle_resume_at, is_task_run_due}
use braiker.Scheduler.Task.{ScheduledTask, is_named, may_run}
use braiker.Market.Cycle.{
  CycleDb, WatchingBot, process_market_cycle, schedule_market_cycle_resume, open_or_closed,
  resumes_at, market_cycle,
}

-- The task of the cycle sleeps until a time.
abbrev pub SleepsUntil : ℕ → ScheduledTask → Type 0
SleepsUntil next_open task =
    is_named market_cycle task ≡ true
    → (now : ℕ) → now < next_open
    → may_run now (some task) ≡ false

asleep :
    (next_open : ℕ) (task : ScheduledTask)
    → SleepsUntil next_open (resumes_at (some next_open) task)
unfolding may_run is_task_run_due resumes_at
asleep next_open task named now before = ground (arith, before)

All-asleep :
    (next_open : ℕ) (tasks : List ScheduledTask)
    → All
        (SleepsUntil next_open)
        (update_rows (is_named market_cycle) (resumes_at (some next_open)) tasks)
unfolding update_rows
All-asleep next_open [] = tt
All-asleep next_open (task ∷ tasks) = elim (Bool-cases (is_named market_cycle task)) [
  | inl e ↦ rw e (asleep next_open task, All-asleep next_open tasks)
  | inr e ↦ rw e ((λ named. absurd (cc (e, named))), All-asleep next_open tasks)
]

resume-asleep :
    (next_open : ℕ) (tasks tasks' : List ScheduledTask)
    → schedule_market_cycle_resume (some next_open) tasks ≡ ok tasks'
    → All (SleepsUntil next_open) tasks'
unfolding schedule_market_cycle_resume
resume-asleep next_open tasks tasks' h =
    let (_, made) = update_one-ok _ _ _ tasks tasks' h in
    subst (All (SleepsUntil next_open)) made (All-asleep next_open tasks)

module _ (d : Decimal) (n : Number) (hash : Level → RiskPolicy → RiskPolicy → String) where
  -- A cycle over some bot that returns while the market is closed evaluates nothing, leaves the
  -- market tables alone, and leaves every row of the cycle's task refused before the next opening.
  pub process_market_cycle_closed :
      (next_open now : ℕ) (bot : WatchingBot d.Carrier n.Carrier)
      (bots : List (WatchingBot d.Carrier n.Carrier)) (db : CycleDb d.Carrier) (evaluations : ℕ)
      (db' : CycleDb d.Carrier)
      → process_market_cycle d n hash false next_open now (bot ∷ bots) db ≡ ok (evaluations, db')
      → (evaluations ≡ 0) × (db'.market ≡ db.market) × All (SleepsUntil next_open) db'.tasks
  unfolding process_market_cycle open_or_closed market_cycle_resume_at
  process_market_cycle_closed next_open now bot bots db evaluations db' h =
      let (tasks, made, h1) =
        >>=-eq-ok (schedule_market_cycle_resume (some next_open) db.tasks) _ h in
      subst
        (λ (r : ℕ × CycleDb d.Carrier).
          (r.0 ≡ 0) × (r.1.market ≡ db.market) × All (SleepsUntil next_open) r.1.tasks)
        (ok-injective h1) (refl, refl, resume-asleep next_open db.tasks tasks made)
