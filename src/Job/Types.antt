-- ===== src/Job/Types.antt =====
-- types.go, and what the service is given. The two tables are lists of rows; `moment` counts the
-- calls that leave the service, so that each may be answered differently. Times are nanoseconds, and
-- 0 is Go's zero time.
use marstack_cloud.Common.{
  ℕ, ◌+◌, String, Bool, ◌||◌, List, [], ◌∷◌, Option, none, some, Exec, if◌then◌else◌, str_eq,
  modify, when◌run◌otherwise◌, pure,
}
use marstack_cloud.Common.Int.{ℤ}
use marstack_cloud.Fault.{Error, Result, ok, err, wrapped}
use marstack_cloud.Events.{Entry}

abbrev pub run_pending : String
run_pending = "pending"

abbrev pub run_running : String
run_running = "running"

abbrev pub run_succeeded : String
run_succeeded = "succeeded"

abbrev pub run_failed : String
run_failed = "failed"

abbrev pub max_fire_per_pass : ℕ
max_fire_per_pass = 4

pub record Template : Type 0 where
  pub isolation : String
  pub image : String
  pub kernel : String
  pub command : List String
  pub network_id : String
  pub firewall_id : String
  pub vcpu : ℤ
  pub memory_mib : ℤ
  pub node_selector : List (String × String)
  pub env_names : List String
  pub file_paths : List String

pub record File : Type 0 where
  pub path : String
  pub content : String
  pub mode : String

pub record Run : Type 0 where
  pub id : String
  pub job_id : String
  pub instance_id : String
  pub attempt : ℕ
  pub state : String
  pub message : String
  pub exit_code : Option ℤ
  pub started_at : ℕ
  pub ended_at : ℕ

pub record Job : Type 0 where
  pub id : String
  pub project_id : String
  pub name : String
  pub template : Template
  pub env_sealed : String
  pub files_sealed : String
  pub seal_key_id : String
  pub every : ℕ
  pub retries : ℕ
  pub keep : ℕ
  pub paused : Bool
  pub next_at : ℕ
  pub last_at : ℕ
  pub runs : List Run
  pub created_at : ℕ
  pub updated_at : ℕ

pub record Workload : Type 0 where
  pub project_id : String
  pub name : String
  pub template : Template
  pub env : List (String × String)
  pub files : List File

-- The interface Workloads. `state_of` answers the state, the exit code and a message.
pub record Workloads : Type 0 where
  pub create : Workload → ℕ → Result String
  pub delete : String → String → ℕ → Result (Unit {0})
  pub state_of : String → ℕ → Result (String × Option ℤ × String)

-- What the keyring answers: the opened value, that it lacks the key, or another error.
pub data Opened (A : Type 0) : Type 0 where
  opened : A → Opened A
  key_missing : Opened A
  unreadable : Error → Opened A

-- What the service is given: the statements' errors, the clock, the identifiers (and
-- the last six characters of a new one), RFC 3339 texts of times, the keyring, the workloads (`none` is nil) and whether there is a recorder.
pub record Env : Type 0 where
  pub database : ℕ → Option Error
  pub duplicate : Error
  pub now : ℕ → ℕ
  pub new_id : String → ℕ → String
  pub format : ℕ → String
  pub new_suffix : ℕ → String
  pub open_env : String → String → Opened (List (String × String))
  pub open_files : String → String → Opened (List File)
  pub workloads : Option Workloads
  pub has_recorder : Bool

pub record State : Type 0 where
  pub jobs : List Job
  pub runs : List Run
  pub moment : ℕ
  pub recorded : List Entry

abbrev pub M : Type 0 → Type 0
M A = Exec State A

-- A call that leaves the service.
unfoldable pub consult : {A : Type 0} → (ℕ → Result A) → M A
consult f s = (f s.moment, record s { moment = s.moment + 1 })

unfoldable pub failed_as : String → Option Error → Result (Unit {0})
failed_as label none = ok tt
failed_as label (some e) = err (wrapped label e)

-- A statement of the database: it fails with the error that the repository makes of it.
unfoldable pub statement : Env → String → M Unit
statement env label = consult (λ n. failed_as label (env.database n))

unfoldable pub clock : Env → M ℕ
clock env = consult (λ n. ok (env.now n))

unfoldable pub is_active : Run → Bool
is_active r = str_eq r.state run_pending || str_eq r.state run_running

-- `active`: the first run that is pending or running.
unfoldable pub active : List Run → Option Run
active [] = none
active (r ∷ rs) = if is_active r then some r else active rs

-- `note`: the entry gets the job's project.
unfoldable pub note : Env → Job → Entry → M Unit
note env job entry =
    when env.has_recorder
    run modify
        (λ s. record s { recorded = record entry { project_id = job.project_id } ∷ s.recorded })
    otherwise pure tt
