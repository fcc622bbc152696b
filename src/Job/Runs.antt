-- ===== src/Job/Runs.antt =====
-- service.go: a job's runs, and what is asked of a job.
use marstack_cloud.Common.{
  is_error, ℕ, String, ◌<>◌, Bool, List, [], ◌∷◌, Option, none, some, if◌then◌else◌, str_eq, itoa,
  pure, raise, lift, attempt, ◌>>=◌, ◌>>◌, when◌run◌otherwise◌,
}
use marstack_cloud.Fault.{
  Error, Kind, Result, ok, err, plain, wrapped, new_fault, internal_fault, error_text,
}
use marstack_cloud.Events.{Entry, Severity}
use marstack_cloud.Job.Types.{
  Job, Run, File, Workloads, Opened, opened, key_missing, unreadable, Env, M, consult, clock,
  active, note, run_pending, run_failed,
}
use marstack_cloud.Job.Rows.{by_id, by_name, list_in, insert_run, set_paused_row, delete_job}

unfoldable pub translate : Error → Error
translate e =
    if is_error "job not found" e
    then new_fault Kind.not_found "job_not_found" "no job with that name or id exists"
    else if is_error "job name already used" e
    then new_fault Kind.conflict "job_name_taken"
        "a job with that name already exists in this project"
    else e

unfoldable pub translated_with : {A : Type 0} → Result A → M A
translated_with (ok a) = pure a
translated_with (err e) = raise (translate e)

unfoldable pub translated : {A : Type 0} → M A → M A
translated m = do r ← attempt m; translated_with r

unfoldable pub open_env_with :
    String → Opened (List (String × String)) → Result (List (String × String))
open_env_with key_id (opened env) = ok env
open_env_with key_id key_missing = err (
    new_fault Kind.conflict "env_key_missing" (
      "this job's environment was sealed with key " <> key_id
      <> ", which this control plane does not hold"))
open_env_with key_id (unreadable e) = err (internal_fault (wrapped "unseal the environment" e))

unfoldable pub open_env : Env → Job → Result (List (String × String))
open_env env job =
    if str_eq job.env_sealed ""
    then ok []
    else open_env_with job.seal_key_id (env.open_env job.env_sealed job.seal_key_id)

unfoldable pub open_files_with : String → Opened (List File) → Result (List File)
open_files_with key_id (opened files) = ok files
open_files_with key_id key_missing = err (
    new_fault Kind.conflict "seal_key_missing" (
      "this job's files were sealed with key " <> key_id
      <> ", which this control plane does not hold"))
open_files_with key_id (unreadable e) = err (internal_fault (wrapped "unseal the files" e))

unfoldable pub open_files : Env → Job → Result (List File)
open_files env job =
    if str_eq job.files_sealed ""
    then ok []
    else open_files_with job.seal_key_id (env.open_files job.files_sealed job.seal_key_id)

unfoldable pub new_run : Job → ℕ → String → ℕ → Run
new_run job number id now = record {
  id = id;
  job_id = job.id;
  instance_id = "";
  attempt = number;
  state = run_pending;
  message = "";
  exit_code = none;
  started_at = now;
  ended_at = 0;
}

unfoldable pub failed_entry : Job → Run → Error → Entry
failed_entry job r e = record {
  project_id = "";
  kind = "job.run_failed";
  subject = r.id;
  node_id = "";
  message = job.name <> " could not start a run: " <> error_text e;
  severity = Severity.error;
}

unfoldable pub started_entry : Job → Run → Entry
started_entry job r = record {
  project_id = "";
  kind = "job.run_started";
  subject = r.id;
  node_id = "";
  message = job.name <> " started run " <> r.id <> " (attempt " <> itoa r.attempt <> ")";
  severity = Severity.info;
}

-- The rest of `startRun` after the workload was made or refused.
unfoldable pub started : Env → Job → Run → Result String → M Run
started env job r (err e) =
    let q = record r { state = run_failed; message = error_text e; ended_at = r.started_at } in
    do translated (insert_run env q); note env job (failed_entry job q e); pure q
started env job r (ok instance_id) =
    let q = record r { instance_id = instance_id } in
    do translated (insert_run env q); note env job (started_entry job q); pure q

unfoldable pub start_with : Env → Job → ℕ → Option Workloads → M Run
start_with env job number none =
    raise (internal_fault (plain "this control plane cannot make workloads"))
start_with env job number (some workloads) = do
  vars ← lift (open_env env job)
  files ← lift (open_files env job)
  id ← consult (λ n. ok (env.new_id "run" n))
  now ← clock env
  suffix ← consult (λ n. ok (env.new_suffix n))
  made ← attempt (
      consult (
        workloads.create (record {
          project_id = job.project_id;
          name = job.name <> "-" <> itoa number <> "-" <> suffix;
          template = job.template;
          env = vars;
          files = files;
        })))
  started env job (new_run job number id now) made

-- `startRun`
unfoldable pub start_run : Env → Job → ℕ → M Run
start_run env job number = start_with env job number env.workloads

unfoldable pub find_with : Env → String → String → Result Job → M Job
find_with env project_id id (ok job) = pure job
find_with env project_id id (err e) =
    when is_error "job not found" e
    run translated (by_name env project_id id)
    otherwise raise (translate e)

-- `find`: by its id, and else by its name.
unfoldable pub find : Env → String → String → M Job
find env project_id id = do
  found ← attempt (by_id env project_id id)
  find_with env project_id id found

-- `listIn`
unfoldable pub list_jobs : Env → String → M (List Job)
list_jobs env project_id = translated (list_in env project_id)

unfoldable pub set_paused : Env → String → String → Bool → M Job
set_paused env project_id id paused = do
  job ← find env project_id id
  now ← clock env
  translated (set_paused_row env job.id paused now)
  find env project_id job.id

unfoldable pub cleared_with : Job → Run → Result (Unit {0}) → M Unit
cleared_with job r (ok _) = pure tt
cleared_with job r (err e) = raise (
    internal_fault (
      wrapped
        ("job " <> job.name <> " could not delete the workload of run " <> r.id
          <> ", so nothing was removed")
        e))

unfoldable pub clear_runs : Job → Workloads → List Run → M Unit
clear_runs job workloads [] = pure tt
clear_runs job workloads (r ∷ rs) =
    when str_eq r.instance_id "" run clear_runs job workloads rs otherwise do
      cleared ← attempt (consult (workloads.delete job.project_id r.instance_id))
      cleared_with job r cleared
      clear_runs job workloads rs

unfoldable pub clear_with : Job → Option Workloads → M Unit
clear_with job none = pure tt
clear_with job (some workloads) = clear_runs job workloads job.runs

unfoldable pub remove_job : Env → String → String → M Unit
remove_job env project_id id = do
  job ← find env project_id id
  clear_with job env.workloads
  translated (delete_job env job.id)

unfoldable pub trigger_with : Env → Job → Option Run → M Run
trigger_with env job (some r) = raise (
    new_fault Kind.conflict "run_in_flight"
      "a run of this job is still going, and two at once would race each other")
trigger_with env job none = start_run env job 1

unfoldable pub trigger : Env → String → String → M Run
trigger env project_id id = do job ← find env project_id id; trigger_with env job (active job.runs)
