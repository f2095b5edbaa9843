-- ===== src/Cronjobs.antt =====
-- core/cronjob.py. A run of a job is cut where it waits: what it does between two waits is one operation on
-- the job's status, and other tasks may run in between. What the job itself does is left open.
pub mod Runs
pub mod Manager
use signapse_mdg.Base.{
  ℕ, ◌+◌, ◌≡◌, nat_eq, Bool, true, false, not, ◌&&◌, ◌||◌, Option, none, some, List, [], ◌∷◌, ◌++◌,
  map, String, string_eq, ◌==◌, Dict, lookup, has_key, insert, values, Error, value_error,
  key_error, Result, ok, err, if◌then◌else◌,
}

pub record Cronjob : Type 0 where
  pub name : String
  pub interval : ℕ
  pub run_on_start : Bool
  pub enabled : Bool

pub record CronjobStatus : Type 0 where
  pub name : String
  pub enabled : Bool
  pub running : Bool
  pub last_started_at : Option ℕ
  pub last_finished_at : Option ℕ
  pub last_succeeded_at : Option ℕ
  pub last_failed_at : Option ℕ
  pub last_error : Option String
  pub run_count : ℕ
  pub failure_count : ℕ

abbrev pub new_status : Cronjob → CronjobStatus
new_status job = record {
  name = job.name;
  enabled = job.enabled;
  running = false;
  last_started_at = none;
  last_finished_at = none;
  last_succeeded_at = none;
  last_failed_at = none;
  last_error = none;
  run_count = 0;
  failure_count = 0;
}

-- The first locked part of `_run_once`: none where the job runs already, and the call returns.
unfoldable pub begin_run : ℕ → CronjobStatus → Option CronjobStatus
begin_run now s =
    if s.running then none else some (record s { running = true; last_started_at = some now })

-- The locked part after the job returned.
unfoldable pub record_success : ℕ → CronjobStatus → CronjobStatus
record_success now s = record s {
  last_finished_at = some now;
  last_succeeded_at = some now;
  last_error = none;
  run_count = s.run_count + 1;
}

-- The locked part after the job raised.
unfoldable pub record_failure : ℕ → String → CronjobStatus → CronjobStatus
record_failure now error s = record s {
  last_finished_at = some now;
  last_failed_at = some now;
  last_error = some error;
  run_count = s.run_count + 1;
  failure_count = s.failure_count + 1;
}

-- The locked part of `finally`.
unfoldable pub end_run : CronjobStatus → CronjobStatus
end_run s = record s { running = false }

-- Where a task that calls `_run_once` stands: outside, waiting for the job, or before `finally`.
pub data RunState : Type 0 where
  outside working ending : RunState

-- What one task does next, from its state and the status to the next ones.
pub data RunStep (s : CronjobStatus) : RunState → CronjobStatus → RunState → Type 0 where
  start_run : (now : ℕ) {t : CronjobStatus} → begin_run now s ≡ some t → RunStep s outside t working
  skip_run : (now : ℕ) → begin_run now s ≡ none → RunStep s outside s outside
  job_returned : (now : ℕ) → RunStep s working (record_success now s) ending
  job_raised : (now : ℕ) (error : String) → RunStep s working (record_failure now error s) ending
  job_cancelled : RunStep s working s ending
  finally : RunStep s ending (end_run s) outside

abbrev pub move_task : (ℕ → RunState) → ℕ → RunState → ℕ → RunState
move_task tasks i next j = if i == j then next else tasks j

-- A job and the tasks that run it, numbered: its loop, and callers of `run_once`.
pub record JobRuns : Type 0 where
  pub status : CronjobStatus
  pub tasks : ℕ → RunState

pub data Step : JobRuns → JobRuns → Type 0 where
  task_step :
      {r : JobRuns} (i : ℕ) {t : CronjobStatus} {next : RunState}
      → RunStep r.status (r.tasks i) t next
      → Step r (record { status = t; tasks = move_task r.tasks i next })

pub data Reach (job : Cronjob) : JobRuns → Type 0 where
  at_start : Reach job (record { status = new_status job; tasks = λ i. outside })
  later : {r t : JobRuns} → Reach job r → Step r t → Reach job t

-- `_CronjobState`; of the task that loops, whether there is one.
pub record CronjobState : Type 0 where
  pub job : Cronjob
  pub status : CronjobStatus
  pub has_task : Bool

pub record CronjobManager : Type 0 where
  pub jobs : Dict String CronjobState
  pub started : Bool
  pub stopping : Bool

abbrev pub new_manager : CronjobManager
new_manager = record { jobs = []; started = false; stopping = false }

unfoldable pub register : Cronjob → CronjobManager → Result CronjobManager
unfolding has_key insert
register job m =
    if has_key job.name m.jobs
    then err value_error
    else ok (record m {
      jobs =
          insert job.name
            (record {
              job = job;
              status = new_status job;
              has_task = m.started && (not m.stopping && job.enabled);
            })
            m.jobs;
    })

abbrev pub start_jobs : Dict String CronjobState → Dict String CronjobState
start_jobs [] = []
start_jobs ((name, state) ∷ more) =
    (name, record state { has_task = if state.job.enabled then true else state.has_task })
    ∷ start_jobs more

unfoldable pub start : CronjobManager → CronjobManager
start m =
    if m.started then m else record { jobs = start_jobs m.jobs; started = true; stopping = false }

abbrev pub drop_tasks : Dict String CronjobState → Dict String CronjobState
drop_tasks [] = []
drop_tasks ((name, state) ∷ more) = (name, record state { has_task = false }) ∷ drop_tasks more

-- `stop` up to where it waits for the cancelled tasks: none where it returns at once.
unfoldable pub begin_stop : CronjobManager → Option CronjobManager
begin_stop m = if not m.started || m.stopping then none else some (record m { stopping = true })

-- The rest of `stop`.
unfoldable pub end_stop : CronjobManager → CronjobManager
end_stop m = record { jobs = drop_tasks m.jobs; started = false; stopping = false }

abbrev pub runnable : Option CronjobState → Result (Option CronjobState)
runnable none = err key_error
runnable (some state) = ok (if state.job.enabled then some state else none)

-- `run_once` up to `_run_once`: the state that it runs, if the job is enabled.
unfoldable pub run_once : String → CronjobManager → Result (Option CronjobState)
unfolding lookup
run_once name m = runnable (lookup name m.jobs)

unfoldable pub status : CronjobManager → List CronjobStatus
status m = map (λ state. state.status) (values m.jobs)
