-- ===== src/Job/Rows.antt =====
-- repository.go: the statements on the two tables, each of which fails without an effect. The rows
-- are typed, so that reading one back cannot fail.
use marstack_cloud.Common.{
  ℕ, ◌/◌, String, Bool, true, false, not, ◌&&◌, List, [], ◌∷◌, Option, none, some, if◌then◌else◌,
  str_eq, str_lt, ltb, ◌==◌, keep_if, sort_stable, take, pure, raise, gets, modify, ◌>>=◌, ◌>>◌,
  when◌run◌otherwise◌,
}
use marstack_cloud.Common.Int.{ℤ}
use marstack_cloud.Fault.{Error, Result, ok, err, plain, wrapped}
use marstack_cloud.Job.Types.{Job, Run, Env, M, consult, statement}

abbrev pub not_found : Error
not_found = plain "job not found"

unfoldable pub stamp : Env → ℕ → String
stamp env at = if at == 0 then "" else env.format at

-- `ORDER BY started_at, id`
unfoldable pub earlier : Env → Run → Run → Bool
earlier env r q =
    let a = env.format r.started_at in
    let b = env.format q.started_at in if str_eq a b then str_lt r.id q.id else str_lt a b

unfoldable pub runs_of : Env → String → List Run → List Run
runs_of env job_id runs = sort_stable (earlier env) (keep_if (λ r. str_eq r.job_id job_id) runs)

unfoldable pub load_runs : Env → List Job → M (List Job)
load_runs env [] = pure []
load_runs env (j ∷ js) = do
  statement env "list runs"
  runs ← gets (λ s. runs_of env j.id s.runs)
  rest ← load_runs env js
  pure (record j { runs = runs } ∷ rest)

-- `load`, given what its query selects.
unfoldable pub load : Env → (List Job → List Job) → M (List Job)
load env select = do statement env "list jobs"; jobs ← gets (λ s. select s.jobs); load_runs env jobs

unfoldable pub list_in : Env → String → M (List Job)
list_in env project_id = load env (λ jobs.
    sort_stable (λ j k. str_lt j.name k.name) (keep_if (λ j. str_eq j.project_id project_id) jobs))

unfoldable pub all_jobs : Env → M (List Job)
all_jobs env = load env (sort_stable (λ j k. str_lt j.id k.id))

-- The times are compared as the texts they are stored as.
unfoldable pub is_due : Env → ℕ → Job → Bool
is_due env now j =
    not j.paused
    && (ltb 0 (j.every / 1000000000)
        && (not (str_eq (stamp env j.next_at) "")
            && not (str_lt (env.format now) (stamp env j.next_at))))

unfoldable pub due : Env → ℕ → ℕ → M (List Job)
due env now limit = load env (λ jobs. take limit (
    sort_stable (λ j k. str_lt (stamp env j.next_at) (stamp env k.next_at))
      (keep_if (is_due env now) jobs)))

unfoldable pub first_of : List Job → M Job
first_of [] = raise not_found
first_of (j ∷ js) = pure j

unfoldable pub by_id : Env → String → String → M Job
by_id env project_id id = do
  found ← load env (keep_if (λ j. str_eq j.project_id project_id && str_eq j.id id))
  first_of found

unfoldable pub by_name : Env → String → String → M Job
by_name env project_id name = do
  found ← load env (keep_if (λ j. str_eq j.project_id project_id && str_eq j.name name))
  first_of found

abbrev pub has_run : String → List Run → Bool
has_run id [] = false
has_run id (r ∷ rs) = if str_eq r.id id then true else has_run id rs

-- The identifier is the primary key.
unfoldable pub insert_run : Env → Run → M Unit
insert_run env r = do
  statement env "insert a run"
  taken ← gets (λ s. has_run r.id s.runs)
  when taken
      run raise (wrapped "insert a run" env.duplicate)
      otherwise modify (λ s. record s { runs = r ∷ s.runs })

unfoldable pub update_run : String → (Run → Run) → List Run → List Run
update_run id f [] = []
update_run id f (r ∷ rs) = (if str_eq r.id id then f r else r) ∷ update_run id f rs

unfoldable pub set_run_state : Env → String → String → Option ℤ → String → M Unit
set_run_state env id state exit_code message = do
  statement env "set a run state"
  modify (λ s. record s {
    runs =
        update_run id (λ r. record r { state = state; exit_code = exit_code; message = message })
          s.runs;
  })

unfoldable pub ended : String → Option ℤ → String → ℕ → Run → Run
ended state exit_code message at r = record r {
  state = state;
  exit_code = exit_code;
  message = message;
  instance_id = "";
  ended_at = at;
}

unfoldable pub end_run : Env → String → String → Option ℤ → String → ℕ → M Unit
end_run env id state exit_code message at = do
  statement env "end a run"
  modify (λ s. record s { runs = update_run id (ended state exit_code message at) s.runs })

unfoldable pub drop_run : String → List Run → List Run
drop_run id runs = keep_if (λ r. not (str_eq r.id id)) runs

unfoldable pub delete_run : Env → String → M Unit
delete_run env id = do
  statement env "delete a run"
  modify (λ s. record s { runs = drop_run id s.runs })

abbrev pub has_job : String → List Job → Bool
has_job id [] = false
has_job id (j ∷ js) = if str_eq j.id id then true else has_job id js

unfoldable pub update_job : String → (Job → Job) → List Job → List Job
update_job id f [] = []
update_job id f (j ∷ js) = (if str_eq j.id id then f j else j) ∷ update_job id f js

unfoldable pub set_next_at : Env → String → ℕ → ℕ → M Unit
set_next_at env id next at = do
  statement env "set the next run"
  modify (λ s. record s {
    jobs = update_job id (λ j. record j { next_at = next; last_at = at; updated_at = at }) s.jobs;
  })

unfoldable pub set_paused_row : Env → String → Bool → ℕ → M Unit
set_paused_row env id paused at = do
  statement env "set paused"
  known ← gets (λ s. has_job id s.jobs)
  modify (λ s. record s {
    jobs = update_job id (λ j. record j { paused = paused; updated_at = at }) s.jobs;
  })
  statement env "count affected rows"
  when known run pure tt otherwise raise not_found

abbrev commit_error : Option Error → Result (Unit {0})
commit_error none = ok tt
commit_error (some e) = err e

-- `delete`: one transaction, which has no effect where any step of it fails.
unfoldable pub delete_job : Env → String → M Unit
delete_job env id = do
  statement env "begin"
  statement env "delete the runs"
  statement env "delete job"
  statement env "count affected rows"
  known ← gets (λ s. has_job id s.jobs)
  when known
      run (do
        consult (λ n. commit_error (env.database n))
        modify (λ s. record s {
          runs = keep_if (λ r. not (str_eq r.job_id id)) s.runs;
          jobs = keep_if (λ j. not (str_eq j.id id)) s.jobs;
        }))
      otherwise raise not_found
