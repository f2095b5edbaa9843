-- ===== src/Cronjobs/Runs.antt =====
-- The runs of one job, in any order of their steps.
use signapse_mdg.Base.{
  ℕ, ◌≤◌, ◌≡◌, refl, sym, ◌∙◌, inl, inr, Bool, true, false, some, nat_eq, arith, Bool-cases,
}
use signapse_mdg.Cronjobs.{
  Cronjob, CronjobStatus, begin_run, record_success, record_failure, end_run, RunState, outside,
  working, ending, RunStep, start_run, skip_run, job_returned, job_raised, job_cancelled, finally,
  move_task, JobRuns, Step, task_step, Reach, at_start, later,
}

abbrev pub inside : RunState → Bool
inside outside = false
inside working = true
inside ending = true

-- The job is running exactly while one task is inside the run, and the counters fit.
pub record IsSound (status : CronjobStatus) (tasks : ℕ → RunState) : Type 0 where
  pub one_runs : (i j : ℕ) → inside (tasks i) ≡ true → inside (tasks j) ≡ true → i ≡ j
  pub marked : (i : ℕ) → inside (tasks i) ≡ true → status.running ≡ true
  pub counted : status.failure_count ≤ status.run_count

RunStep-IsSound :
    (tasks : ℕ → RunState) (i : ℕ) {s t : CronjobStatus} {from next : RunState}
    → tasks i ≡ from
    → RunStep s from t next
    → IsSound s tasks
    → IsSound t (move_task tasks i next)
unfolding begin_run record_success record_failure end_run
RunStep-IsSound tasks i at (start_run now e) v = record {
  one_runs = λ j k p q. grind arith;
  marked = λ j p. grind arith;
  counted = grind arith;
}
RunStep-IsSound tasks i at (skip_run now e) v = record {
  one_runs = λ j k p q. grind arith;
  marked = λ j p. grind arith;
  counted = grind arith;
}
RunStep-IsSound tasks i at (job_returned now) v = record {
  one_runs = λ j k p q. grind arith;
  marked = λ j p. grind arith;
  counted = grind arith;
}
RunStep-IsSound tasks i at (job_raised now error) v = record {
  one_runs = λ j k p q. grind arith;
  marked = λ j p. grind arith;
  counted = grind arith;
}
RunStep-IsSound tasks i at job_cancelled v = record {
  one_runs = λ j k p q. grind arith;
  marked = λ j p. grind arith;
  counted = grind arith;
}
RunStep-IsSound tasks i at finally v = record {
  one_runs = λ j k p q. grind arith;
  marked = λ j p. grind arith;
  counted = grind arith;
}

Step-IsSound : {r t : JobRuns} → Step r t → IsSound r.status r.tasks → IsSound t.status t.tasks
Step-IsSound {r} (task_step i st) v = RunStep-IsSound r.tasks i refl st v

Reach-IsSound : {job : Cronjob} {r : JobRuns} → Reach job r → IsSound r.status r.tasks
Reach-IsSound at_start = record {
  one_runs = λ i j p q. cc;
  marked = λ i p. cc;
  counted = omega arith;
}
Reach-IsSound (later before st) = Step-IsSound st (Reach-IsSound before)

-- Whatever order the tasks take their steps in, no two tasks run a job at the same time, the job is marked as
-- running while one does, and it failed at most as often as it ran.
pub runs_are_exclusive :
    {job : Cronjob} {r : JobRuns}
    → Reach job r
    → ((i j : ℕ) → inside (r.tasks i) ≡ true → inside (r.tasks j) ≡ true → i ≡ j)
      × ((i : ℕ) → inside (r.tasks i) ≡ true → r.status.running ≡ true)
      × (r.status.failure_count ≤ r.status.run_count)
runs_are_exclusive reached = let v = Reach-IsSound reached in (v.one_runs, v.marked, v.counted)

-- A job that no task runs is not marked as running, so that the next caller runs it.
record IsFree (status : CronjobStatus) (tasks : ℕ → RunState) : Type 0 where
  runner : status.running ≡ true → (i : ℕ) × (inside (tasks i) ≡ true)

RunStep-IsFree :
    (tasks : ℕ → RunState) (i : ℕ) {s t : CronjobStatus} {from next : RunState}
    → tasks i ≡ from
    → RunStep s from t next
    → IsSound s tasks
    → IsFree s tasks
    → IsFree t (move_task tasks i next)
unfolding begin_run record_success record_failure end_run
RunStep-IsFree tasks i at (start_run now e) v f = record { runner = λ h. (i, grind arith) }
RunStep-IsFree tasks i at (skip_run now e) v f = record {
  runner = λ h. let (j, p) = f.runner h in (j, grind arith);
}
RunStep-IsFree tasks i at (job_returned now) v f = record { runner = λ h. (i, grind arith) }
RunStep-IsFree tasks i at (job_raised now error) v f = record { runner = λ h. (i, grind arith) }
RunStep-IsFree tasks i at job_cancelled v f = record { runner = λ h. (i, grind arith) }
RunStep-IsFree tasks i at finally v f = record { runner = λ h. cc }

Reach-IsFree : {job : Cronjob} {r : JobRuns} → Reach job r → IsFree r.status r.tasks
Reach-IsFree at_start = record { runner = λ h. cc }
Reach-IsFree (later before (task_step {r} i st)) =
    RunStep-IsFree r.tasks i refl st (Reach-IsSound before) (Reach-IsFree before)

-- When no task is inside a run, a call of `_run_once` starts the job.
pub free_job_starts :
    {job : Cronjob} {r : JobRuns} (now : ℕ)
    → Reach job r
    → ((i : ℕ) → inside (r.tasks i) ≡ false)
    → (t : CronjobStatus) × (begin_run now r.status ≡ some t)
unfolding begin_run
free_job_starts {job} {r} now reached quiet = elim (Bool-cases r.status.running) [
  | inl e ↦ let (i, p) = (Reach-IsFree reached).runner e in absurd (not_both (sym p ∙ quiet i))
  | inr e ↦ (record r.status { running = true; last_started_at = some now }, ground (arith, e))
]
  where
    not_both : true ≡ false → ⊥
    not_both q = cc
