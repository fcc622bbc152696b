-- ===== src/Job/Passes.antt =====
-- A whole sweep, from the jobs that it reads to the ones that it fires.
use marstack_cloud.Common.{
  ℕ, String, ◌≡◌, refl, List, [], ◌∷◌, Option, none, some, All, Gives, Gives-mono, Gives-gets,
  Gives-bind, Gives-when, Gives-bind_any, Gives-pure-Any, Gives-gets-Any, Gives-modify, Gives-Any,
  Fact, Any, keeps_rules, Spec, Spec-pure, Spec-bind, Spec-mono, Post, for_each, raise, lift,
  modify, subst, sym,
}
use marstack_cloud.Common.Int.{ℤ}
use marstack_cloud.Fault.{Error, Result, ok, err}
use marstack_cloud.Events.{Entry}
use marstack_cloud.Job.Types.{Job, Run, Env, State, M, Workloads, consult, clock, note}
use marstack_cloud.Job.Rows.{load, all_jobs, delete_run, insert_run, set_run_state, end_run}
use marstack_cloud.Job.Runs.{translated, start_run, start_with, started}
use marstack_cloud.Job.Sweep.{
  delete_runs, retain, swept, sweep_one, sweep_with, sweep, advance, advance_run, advance_with,
  finish, clear_workload,
}
use marstack_cloud.Job.Counting.{IsValid}
use marstack_cloud.Job.Reading.{IsFresh, any, all_jobs-IsFresh, Spec-reading, translated-Gives}
use marstack_cloud.Job.Starting.{IsValid-after}
use marstack_cloud.Job.Settling.{fresh-IsLive}
use marstack_cloud.Job.Firing.{DistinctJobs}
use marstack_cloud.Job.Due.{
  JobsDistinct, statement-JobsDistinct, fire_due-Spec, sort-Distinct, load_runs-ReadFrom,
}
use marstack_cloud.Job.Apart.{AllLive, fresh-AllDisjoint}
use marstack_cloud.Job.Sweeping.{sweep_all-Spec}

-- The table of jobs is left alone.
abbrev KeepsJobs : {A : Type 0} → M A → Type 0
KeepsJobs m = Gives JobsDistinct m Any

consult-KeepsJobs : {A : Type 0} (f : ℕ → Result A) → KeepsJobs (consult f)
unfolding consult
consult-KeepsJobs f = record { at = λ s p. (p, any _) }

lift-KeepsJobs : {A : Type 0} (r : Result A) → KeepsJobs (lift r)
unfolding lift
lift-KeepsJobs r = record { at = λ s p. (p, any _) }

raise-KeepsJobs : {A : Type 0} (e : Error) → KeepsJobs {A = A} (raise e)
unfolding raise
raise-KeepsJobs e = record { at = λ s p. (p, tt) }

modify-KeepsJobs : (f : State → State) → ((s : State) → (f s).jobs ≡ s.jobs) → KeepsJobs (modify f)
modify-KeepsJobs f same = Gives-Any _ (Gives-modify f (λ s p. subst DistinctJobs (sym (same s)) p))

clock-KeepsJobs : (env : Env) → KeepsJobs (clock env)
unfolding clock
clock-KeepsJobs env = consult-KeepsJobs _

note-KeepsJobs : (env : Env) (job : Job) (entry : Entry) → KeepsJobs (note env job entry)
unfolding note
note-KeepsJobs env job entry =
    Gives-when _ _ _ (λ _. modify-KeepsJobs _ (λ s. refl)) (λ _. Gives-pure-Any _)

insert_run-KeepsJobs : (env : Env) (r : Run) → KeepsJobs (insert_run env r)
unfolding insert_run
insert_run-KeepsJobs env r = Gives-bind_any _ _ (statement-JobsDistinct env _) (λ _.
    Gives-bind_any _ _ (Gives-gets-Any _)
      (λ taken. Gives-when _ _ _ (λ _. raise-KeepsJobs _) (λ _. modify-KeepsJobs _ (λ s. refl))))

delete_run-KeepsJobs : (env : Env) (id : String) → KeepsJobs (delete_run env id)
unfolding delete_run
delete_run-KeepsJobs env id =
    Gives-bind_any _ _ (statement-JobsDistinct env _) (λ _. modify-KeepsJobs _ (λ s. refl))

set_run_state-KeepsJobs :
    (env : Env) (id state : String) (code : Option ℤ) (message : String)
    → KeepsJobs (set_run_state env id state code message)
unfolding set_run_state
set_run_state-KeepsJobs env id state code message =
    Gives-bind_any _ _ (statement-JobsDistinct env _) (λ _. modify-KeepsJobs _ (λ s. refl))

end_run-KeepsJobs :
    (env : Env) (id state : String) (code : Option ℤ) (message : String) (at : ℕ)
    → KeepsJobs (end_run env id state code message at)
unfolding end_run
end_run-KeepsJobs env id state code message at =
    Gives-bind_any _ _ (statement-JobsDistinct env _) (λ _. modify-KeepsJobs _ (λ s. refl))

started-KeepsJobs :
    (env : Env) (job : Job) (r : Run) (made : Result String) → KeepsJobs (started env job r made)
unfolding started
started-KeepsJobs env job r (err e) =
    search (keeps_rules, translated-Gives, insert_run-KeepsJobs, note-KeepsJobs)
started-KeepsJobs env job r (ok id) =
    search (keeps_rules, translated-Gives, insert_run-KeepsJobs, note-KeepsJobs)

start_with-KeepsJobs :
    (env : Env) (job : Job) (number : ℕ) (w : Option Workloads)
    → KeepsJobs (start_with env job number w)
unfolding start_with
start_with-KeepsJobs env job number none = raise-KeepsJobs _
start_with-KeepsJobs env job number (some w) =
    search (keeps_rules, lift-KeepsJobs, consult-KeepsJobs, clock-KeepsJobs, started-KeepsJobs)
      depth 12

start_run-KeepsJobs : (env : Env) (job : Job) (number : ℕ) → KeepsJobs (start_run env job number)
unfolding start_run
start_run-KeepsJobs env job number = start_with-KeepsJobs env job number env.workloads

clear_workload-KeepsJobs :
    (w : Workloads) (job : Job) (r : Run) → KeepsJobs (clear_workload w job r)
unfolding clear_workload
clear_workload-KeepsJobs w job r = search (keeps_rules, consult-KeepsJobs)

finish-KeepsJobs :
    (env : Env) (w : Workloads) (job : Job) (r : Run) (state : String) (code : Option ℤ)
    (message : String)
    → KeepsJobs (finish env w job r state code message)
unfolding finish
finish-KeepsJobs env w job r state code message =
    search
      (keeps_rules, clear_workload-KeepsJobs, clock-KeepsJobs, end_run-KeepsJobs, note-KeepsJobs)

advance_with-KeepsJobs :
    (env : Env) (w : Workloads) (job : Job) (r : Run) (answer : Result (String × Option ℤ × String))
    → KeepsJobs (advance_with env w job r answer)
unfolding advance_with
advance_with-KeepsJobs env w job r (err e) = search (keeps_rules, finish-KeepsJobs)
advance_with-KeepsJobs env w job r (ok (state, code, message)) =
    search (keeps_rules, finish-KeepsJobs, set_run_state-KeepsJobs, start_run-KeepsJobs) depth 12

advance_run-KeepsJobs :
    (env : Env) (w : Workloads) (job : Job) (o : Option Run) → KeepsJobs (advance_run env w job o)
unfolding advance_run
advance_run-KeepsJobs env w job none = Gives-pure-Any _
advance_run-KeepsJobs env w job (some r) =
    search (keeps_rules, consult-KeepsJobs, advance_with-KeepsJobs)

delete_runs-KeepsJobs : (env : Env) (rs : List Run) → KeepsJobs (delete_runs env rs)
unfolding delete_runs
delete_runs-KeepsJobs env [] = Gives-pure-Any _
delete_runs-KeepsJobs env (r ∷ rs) =
    Gives-bind_any _ _ (delete_run-KeepsJobs env r.id) (λ _. delete_runs-KeepsJobs env rs)

swept-KeepsJobs : (env : Env) (job : Job) (n : ℕ) (r : Result ℕ) → KeepsJobs (swept env job n r)
unfolding swept retain
swept-KeepsJobs env job n (err e) = Gives-pure-Any _
swept-KeepsJobs env job n (ok done) = search (keeps_rules, delete_runs-KeepsJobs)

sweep_one-KeepsJobs :
    (env : Env) (w : Workloads) (job : Job) (n : ℕ) → KeepsJobs (sweep_one env w job n)
unfolding sweep_one advance
sweep_one-KeepsJobs env w job n = search (keeps_rules, advance_run-KeepsJobs, swept-KeepsJobs)

sweep_all-KeepsJobs :
    (env : Env) (w : Workloads) (js : List Job) (n : ℕ)
    → KeepsJobs (for_each (sweep_one env w) js n)
unfolding for_each
sweep_all-KeepsJobs env w [] n = Gives-pure-Any _
sweep_all-KeepsJobs env w (j ∷ js) n =
    Gives-bind_any _ _ (sweep_one-KeepsJobs env w j n) (λ n'. sweep_all-KeepsJobs env w js n')

all_jobs-Distinct : (env : Env) → Gives JobsDistinct (translated (all_jobs env)) DistinctJobs
unfolding all_jobs load
all_jobs-Distinct env = translated-Gives _ (
    Gives-bind_any _ _ (statement-JobsDistinct env _) (λ _.
      Gives-bind _ _ (Gives-gets {F = DistinctJobs} _ (λ s d. sort-Distinct _ _ d))
        (λ js d. Gives-mono _ (λ ks r. r.0) (load_runs-ReadFrom env js d))))

both-Post :
    {A : Type 0} (F : A → Type 0) (I : State → Type 0) (Q : A → State → Type 0) (r : Result A)
    (s : State)
    → JobsDistinct s × Fact F r
    → Post I Q (r, s)
    → Post I (λ a s. JobsDistinct s × F a × Q a s) (r, s)
both-Post F I Q (ok a) s f p = (f.0, f.1, p)
both-Post F I Q (err e) s f p = p

-- What a method gives and what it guarantees, at once.
Spec-both :
    {A : Type 0} {F : A → Type 0} {P I : State → Type 0} {Q : A → State → Type 0} (m : M A)
    → Gives JobsDistinct m F
    → Spec P I m Q
    → Spec (λ s. JobsDistinct s × P s) I m (λ a s. JobsDistinct s × F a × Q a s)
Spec-both {A} {F} {P} {I} {Q} m g h = record {
  at = λ s p. let (r, s') = m s in both-Post F I Q r s' (g.at s p.0) (h.at s p.1);
}

fresh-AllLive :
    (env : Env) (js : List Job) (runs : List Run) → All (IsFresh env runs) js → AllLive js runs
fresh-AllLive env [] runs f = tt
fresh-AllLive env (j ∷ js) runs f = (fresh-IsLive env j runs f.0, fresh-AllLive env js runs f.1)

sweep_read-Spec :
    (env : Env) (w : Workloads) (js : List Job)
    → Spec
        (λ s. JobsDistinct s × DistinctJobs js × (IsValid s.runs × All (IsFresh env s.runs) js))
        (λ s. IsValid s.runs)
        (for_each (sweep_one env w) js 0)
        (λ _ s. JobsDistinct s × IsValid s.runs)
sweep_read-Spec env w js = record {
  at = λ s p.
      (Spec-mono _ (λ s p. p) (λ a s q. (q.0, q.2))
          (Spec-both _ (sweep_all-KeepsJobs env w js 0) (
            sweep_all-Spec env w js 0
              (fresh-AllDisjoint env js s.runs p.2.0.distinct p.2.1 p.1)))).at
        s (p.0, (p.2.0, fresh-AllLive env js s.runs p.2.1));
}

sweep_with-Spec :
    (env : Env) (o : Option Workloads)
    → Spec
        (λ s. JobsDistinct s × IsValid s.runs)
        (λ s. IsValid s.runs)
        (sweep_with env o)
        (λ _ s. IsValid s.runs)
unfolding sweep_with
sweep_with-Spec env none = Spec-pure _ (λ s p. p.1)
sweep_with-Spec env (some w) =
    Spec-bind _ _
      (Spec-both _ (all_jobs-Distinct env) (
        Spec-reading IsValid (λ runs. All (IsFresh env runs)) _
          (λ runs. all_jobs-IsFresh env runs)))
      (λ js.
        Spec-bind _ _ (sweep_read-Spec env w js)
          (λ finished. Spec-bind _ _ (fire_due-Spec env) (λ fired. Spec-pure _ (λ s p. p))))

-- Where no two jobs have the same id, no two runs have the same id and at most one run of each job
-- is active, the last two are still so after a sweep, which advances the active runs, tries failed
-- ones again, prunes old ones and fires the jobs that are due, whatever the database and the
-- workloads answer and wherever an error ends a part of it.
pub sweep-IsValid :
    (env : Env) (s : State) → DistinctJobs s.jobs → IsValid s.runs → IsValid (sweep env s).1.runs
unfolding sweep
sweep-IsValid env s d v = IsValid-after _ _ ((sweep_with-Spec env env.workloads).at s (d, v))
