-- ===== src/Tests/Jobs.antt =====
-- Runs of the backfill, the scheduled jobs and the key pool at concrete inputs.
use signapse_mdg.Base.{
  ℕ, ◌+◌, ◌*◌, ◌≤◌, ◌≡◌, ◌≢◌, refl, Bool, true, false, none, some, List, [], ◌∷◌, ok, err,
  value_error, arith, if◌then◌else◌, String, string_eq, ◌==◌,
}
use signapse_mdg.Time.{hour, day}
use signapse_mdg.Time.Timeframe.{Timeframe, get_timeframe}
use signapse_mdg.Backfill.{
  BackfillOptions, BackfillChunk, BackfillService, iter_chunks, process_backfill,
}
use signapse_mdg.Backfill.Chunks.{Tiles, iter_chunks_lem}
use signapse_mdg.Backfill.Job.{IsDone, process_backfill_lem}
use signapse_mdg.Cronjobs.{
  Cronjob, CronjobStatus, new_status, begin_run, outside, working, JobRuns, at_start, later,
  task_step, start_run, move_task, new_manager, start,
}
use signapse_mdg.Cronjobs.Runs.{inside, runs_are_exclusive, free_job_starts}
use signapse_mdg.Cronjobs.Manager.{new, after, starts, IsManaged, manager_tasks}
use signapse_mdg.Keys.{Pool, next_key, cool_down}
use signapse_mdg.Keys.Rotation.{Given, next_key_lem}
use signapse_mdg.Keys.Resting.{no_step, then_asked, then_failed, cool_down_lem}
use signapse_mdg.TwelveData.{Attempt, answered, refused, RetryReadings, with_key_retry}
use signapse_mdg.TwelveData.Retries.{IsTried, with_key_retry_lem}
use signapse_mdg.Tests.{friday, eur_usd, one_result}

abbrev hours : Timeframe
hours = record { value = "1h"; duration = hour; provider_interval = "1h"; calendar_month = false }

iter_chunks_lem_example :
    (chunks : List BackfillChunk) × (iter_chunks eur_usd "1h" friday (friday + 5 * hour) 2
      ≡ ok chunks)
    × Tiles eur_usd hours "1h" 2 friday (friday + 5 * hour) chunks
unfolding get_timeframe
iter_chunks_lem_example =
    iter_chunks_lem eur_usd "1h" hours friday (friday + 5 * hour) 2 refl (omega arith)
      (omega arith, omega arith) (omega arith)

abbrev three_hours : BackfillOptions
three_hours = record {
  start = friday;
  end = friday + 3 * hour;
  timeframes = "1h" ∷ [];
  symbols = none;
  providers = none;
  asset_classes = none;
}

-- Answers the first request, and none after it.
abbrev answers_once : BackfillService Bool
answers_once used request = (if used then err value_error else ok one_result, true)

abbrev two_chunks : List BackfillChunk
two_chunks =
    record { symbol = eur_usd; timeframe = "1h"; start = friday; end = friday + 2 * hour }
    ∷ record {
      symbol = eur_usd;
      timeframe = "1h";
      start = friday + 2 * hour;
      end = friday + 3 * hour;
    }
    ∷ []

process_backfill_lem_example :
    IsDone answers_once false two_chunks
      (process_backfill answers_once three_hours (eur_usd ∷ []) 2 false)
unfolding iter_chunks signapse_mdg.Time.add_time
process_backfill_lem_example =
    process_backfill_lem answers_once three_hours 2 (eur_usd ∷ []) two_chunks false refl

abbrev nightly : Cronjob
nightly = record { name = "nightly"; interval = 60; run_on_start = true; enabled = true }

abbrev running_once : JobRuns
running_once = record {
  status = record (new_status nightly) { running = true; last_started_at = some 5 };
  tasks = move_task (λ i. outside) 0 working;
}

runs_are_exclusive_example :
    ((i j : ℕ)
      → inside (running_once.tasks i) ≡ true
      → inside (running_once.tasks j) ≡ true
      → i ≡ j)
    × ((i : ℕ) → inside (running_once.tasks i) ≡ true → running_once.status.running ≡ true)
    × (running_once.status.failure_count ≤ running_once.status.run_count)
unfolding begin_run
runs_are_exclusive_example =
    runs_are_exclusive {job = nightly} {r = running_once}
      (later at_start (task_step 0 (start_run 5 refl)))

free_job_starts_example : (t : CronjobStatus) × (begin_run 7 (new_status nightly) ≡ some t)
free_job_starts_example =
    free_job_starts {job = nightly}
      {r = record { status = new_status nightly; tasks = λ i. outside }} 7 at_start (λ i. refl)

manager_tasks_example : IsManaged (start new_manager)
manager_tasks_example = manager_tasks (after new starts)

abbrev two_keys : Pool
two_keys = record { keys = "a" ∷ "b" ∷ []; cooldown = 60; cooldowns = []; index = 0 }

next_key_lem_example : Given 5 (some "a") two_keys (next_key 5 (some "a") two_keys).0
next_key_lem_example = next_key_lem 5 (some "a") two_keys (omega arith)

abbrev both_failed : Pool
both_failed = cool_down 9 "b" (next_key 6 none (cool_down 5 "a" two_keys)).1

cool_down_lem_example : (next_key 30 none both_failed).0 ≢ ok "a"
cool_down_lem_example =
    cool_down_lem two_keys both_failed "a" 5 30 none (omega arith)
      (then_failed (then_asked no_step 6 none) 9 "b" (omega arith)) (omega arith)

abbrev retry_readings : RetryReadings
retry_readings = record { first = 5; first_refused = 6; second = 7; second_refused = 8 }

abbrev first_key_refused : String → Attempt ℕ
first_key_refused key = if key == "a" then refused else answered 3

with_key_retry_lem_example :
    IsTried two_keys.keys first_key_refused
      (with_key_retry retry_readings value_error first_key_refused two_keys)
with_key_retry_lem_example =
    with_key_retry_lem retry_readings value_error first_key_refused two_keys (omega arith)
