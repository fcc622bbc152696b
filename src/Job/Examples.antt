-- ===== src/Job/Examples.antt =====
-- A job that is due, and one with a run whose workload failed.
use marstack_cloud.Common.{String, [], ◌∷◌, none, some, true, false, ◌≢◌, eq_iff, arith}
use marstack_cloud.Common.Int.{pos}
use marstack_cloud.Fault.{plain, ok}
use marstack_cloud.Job.Types.{Job, Run, Env, State, Template, Workloads, opened, run_running}
use marstack_cloud.Job.Runs.{trigger}
use marstack_cloud.Job.Sweep.{sweep}
use marstack_cloud.Job.Counting.{IsValid}
use marstack_cloud.Job.Starting.{trigger-IsValid}
use marstack_cloud.Job.Passes.{sweep-IsValid}

abbrev template : Template
template = record {
  isolation = "container";
  image = "alpine";
  kernel = "";
  command = "date" ∷ [];
  network_id = "";
  firewall_id = "";
  vcpu = pos 1;
  memory_mib = pos 64;
  node_selector = [];
  env_names = [];
  file_paths = [];
}

abbrev hourly : Job
hourly = record {
  id = "j1";
  project_id = "p";
  name = "clock";
  template = template;
  env_sealed = "";
  files_sealed = "";
  seal_key_id = "";
  every = 3600000000000;
  retries = 2;
  keep = 10;
  paused = false;
  next_at = 5;
  last_at = 0;
  runs = [];
  created_at = 1;
  updated_at = 1;
}

abbrev going : Run
going = record {
  id = "r0";
  job_id = "j2";
  instance_id = "i0";
  attempt = 1;
  state = run_running;
  message = "";
  exit_code = none;
  started_at = 2;
  ended_at = 0;
}

abbrev platform : Workloads
platform = record {
  create = λ w n. ok "i1";
  delete = λ p i n. ok tt;
  state_of = λ i n. ok ("stopped", some (pos 1), "exit 1");
}

abbrev given : Env
given = record {
  database = λ n. none;
  duplicate = plain "UNIQUE constraint failed";
  now = λ n. n;
  new_id = λ prefix n. prefix;
  new_suffix = λ n. "abcdef";
  format = λ n. "2026-01-01T00:00:00Z";
  open_env = λ blob key. opened [];
  open_files = λ blob key. opened [];
  workloads = some platform;
  has_recorder = true;
}

abbrev tables : State
tables = record {
  jobs = hourly ∷ record hourly { id = "j2"; name = "backup" } ∷ [];
  runs = going ∷ [];
  moment = 9;
  recorded = [];
}

apart : ◌≢◌ {A = String} "j1" "j2"
apart e = ground (arith, eq_iff "j1" "j2")

going-IsValid : IsValid (going ∷ [])
going-IsValid = record { one = λ id. ground arith; distinct = (tt, tt) }

sweep-IsValid_example : IsValid (sweep given tables).1.runs
sweep-IsValid_example = sweep-IsValid given tables ((apart, tt), (tt, tt)) going-IsValid

trigger-IsValid_example : IsValid (trigger given "p" "clock" tables).1.runs
trigger-IsValid_example = trigger-IsValid given "p" "clock" tables going-IsValid
