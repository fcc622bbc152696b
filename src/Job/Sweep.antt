-- ===== src/Job/Sweep.antt =====
-- sweep.go: what the service does for its jobs at every interval.
use marstack_cloud.Common.{
  ℕ, ◌+◌, ◌-◌, String, ◌<>◌, Bool, false, ◌&&◌, ◌||◌, List, [], ◌∷◌, Option, none, some, str_eq,
  itoa, leb, length, take, keep_if, pure, attempt, for_each, ◌>>=◌, ◌>>◌, when◌run◌otherwise◌,
  if◌then◌else◌,
}
use marstack_cloud.Common.Int.{ℤ, pos, eqbℤ}
use marstack_cloud.Fault.{Result, ok, err}
use marstack_cloud.Events.{Entry, Severity}
use marstack_cloud.Job.Types.{
  Job, Run, Workloads, Env, M, consult, clock, active, note, run_running, run_succeeded, run_failed,
  max_fire_per_pass,
}
use marstack_cloud.Job.Rows.{all_jobs, due, set_next_at, set_run_state, end_run, delete_run}
use marstack_cloud.Job.Runs.{translated, start_run}

unfoldable pub exited_with_zero : Option ℤ → Bool
exited_with_zero none = false
exited_with_zero (some code) = eqbℤ code (pos 0)

unfoldable pub succeeded : String → Option ℤ → Bool
succeeded state exit_code = str_eq state "stopped" && exited_with_zero exit_code

unfoldable pub finished_entry : Job → Run → String → Entry
finished_entry job r state = record {
  project_id = "";
  kind = if str_eq state run_failed then "job.run_failed" else "job.run_succeeded";
  subject = r.id;
  node_id = "";
  message = job.name <> " run " <> r.id <> " " <> state <> " on attempt " <> itoa r.attempt;
  severity = if str_eq state run_failed then Severity.warn else Severity.info;
}

unfoldable pub clear_workload : Workloads → Job → Run → M Unit
clear_workload workloads job r =
    when str_eq r.instance_id ""
    run pure tt
    otherwise do attempt (consult (workloads.delete job.project_id r.instance_id)); pure tt

unfoldable pub finish : Env → Workloads → Job → Run → String → Option ℤ → String → M Unit
finish env workloads job r state exit_code message = do
  clear_workload workloads job r
  now ← clock env
  end_run env r.id state exit_code message now
  note env job (finished_entry job r state)

unfoldable pub advance_with :
    Env → Workloads → Job → Run → Result (String × Option ℤ × String) → M ℕ
advance_with env workloads job r (err e) = do
  finish env workloads job r run_failed none "the workload of this run no longer exists"
  pure 0
advance_with env workloads job r (ok (state, exit_code, message)) =
    when str_eq state "pending"
    run pure 0
    otherwise when str_eq state "running"
    run (when str_eq r.state run_running
        run pure 0
        otherwise do set_run_state env r.id run_running none ""; pure 0)
    otherwise when succeeded state exit_code
    run (do finish env workloads job r run_succeeded exit_code message; pure 1)
    otherwise do
      finish env workloads job r run_failed exit_code message
      when leb r.attempt job.retries
          run (do start_run env job (r.attempt + 1); pure 1)
          otherwise pure 1

unfoldable pub advance_run : Env → Workloads → Job → Option Run → M ℕ
advance_run env workloads job none = pure 0
advance_run env workloads job (some r) = when str_eq r.instance_id "" run pure 0 otherwise do
  answer ← attempt (consult (workloads.state_of r.instance_id))
  advance_with env workloads job r answer

unfoldable pub advance : Env → Workloads → Job → M ℕ
advance env workloads job = advance_run env workloads job (active job.runs)

abbrev pub is_settled : Run → Bool
is_settled r = str_eq r.state run_succeeded || str_eq r.state run_failed

unfoldable pub delete_runs : Env → List Run → M Unit
delete_runs env [] = pure tt
delete_runs env (r ∷ rs) = do delete_run env r.id; delete_runs env rs

-- `retain`: where no more runs are settled than are kept, the subtraction is 0.
unfoldable pub retain : Env → Job → M Unit
retain env job =
    let settled = keep_if is_settled job.runs in
    when leb (length settled) job.keep
    run pure tt
    otherwise delete_runs env (take (length settled - job.keep) settled)

unfoldable pub counted : {A : Type 0} → ℕ → Result A → ℕ
counted fired (ok a) = fired + 1
counted fired (err e) = fired

unfoldable pub skipped_entry : Job → Entry
skipped_entry job = record {
  project_id = "";
  kind = "job.run_skipped";
  subject = job.id;
  node_id = "";
  message = job.name <> " was due but its previous run is still going";
  severity = Severity.warn;
}

unfoldable pub fire_run : Env → Job → ℕ → Option Run → M ℕ
fire_run env job fired (some r) = do note env job (skipped_entry job); pure fired
fire_run env job fired none = do r ← attempt (start_run env job 1); pure (counted fired r)

unfoldable pub fire_with : Env → Job → ℕ → Result (Unit {0}) → M ℕ
fire_with env job fired (err e) = pure fired
fire_with env job fired (ok _) = fire_run env job fired (active job.runs)

unfoldable pub fire_one : Env → Job → ℕ → M ℕ
fire_one env job fired = do
  now ← clock env
  at ← clock env
  r ← attempt (set_next_at env job.id (now + job.every) at)
  fire_with env job fired r

unfoldable pub fire_due : Env → M ℕ
fire_due env = do
  now ← clock env
  jobs ← translated (due env now max_fire_per_pass)
  for_each (fire_one env) jobs 0

unfoldable pub swept : Env → Job → ℕ → Result ℕ → M ℕ
swept env job finished (err e) = pure finished
swept env job finished (ok done) = do attempt (retain env job); pure (finished + done)

unfoldable pub sweep_one : Env → Workloads → Job → ℕ → M ℕ
sweep_one env workloads job finished = do
  r ← attempt (advance env workloads job)
  swept env job finished r

unfoldable pub sweep_with : Env → Option Workloads → M (ℕ × ℕ)
sweep_with env none = pure (0, 0)
sweep_with env (some workloads) = do
  jobs ← translated (all_jobs env)
  finished ← for_each (sweep_one env workloads) jobs 0
  fired ← fire_due env
  pure (fired, finished)

-- `sweep`: how many runs it started, and how many it finished.
unfoldable pub sweep : Env → M (ℕ × ℕ)
sweep env = sweep_with env env.workloads
