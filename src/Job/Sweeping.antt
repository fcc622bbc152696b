-- ===== src/Job/Sweeping.antt =====
-- One sweep: every job is advanced and pruned, and the jobs that are due are fired.
use marstack_cloud.Common.{
  ℕ, zero, suc, List, [], ◌∷◌, All, All-of_In, In, In-keep_if, Gives-when, Gives-bind_any,
  Gives-attempt-Any, Gives-pure-Any, Gives-modify, Gives-Any, Spec, Spec-pure, Spec-bind, Spec-mono,
  Spec-attempt, Spec-error, for_each, take, keep_if,
}
use marstack_cloud.Fault.{Result, ok, err}
use marstack_cloud.Job.Types.{Job, Run, Env, Workloads}
use marstack_cloud.Job.Rows.{delete_run}
use marstack_cloud.Job.Sweep.{is_settled, delete_runs, retain, swept, sweep_one}
use marstack_cloud.Job.Counting.{IsValid}
use marstack_cloud.Job.Reading.{KeepsRuns, statement-KeepsRuns}
use marstack_cloud.Job.Starting.{Spec-frame}
use marstack_cloud.Job.Settling.{IsLive, advance-Spec}
use marstack_cloud.Job.Firing.{Spec-always}
use marstack_cloud.Job.Apart.{
  Disjoint, AllDisjoint, AllLive, update-AllLive, drop-AllLive, insert-AllLive, drop-IsValid,
}

take-All : (P : Run → Type 0) (n : ℕ) (rs : List Run) → All P rs → All P (take n rs)
take-All P zero rs a = tt
take-All P (suc n) [] a = tt
take-All P (suc n) (r ∷ rs) a = (a.0, take-All P n rs a.1)

module _ (env : Env) (workloads : Workloads) (job : Job) (js : List Job)
    (apart : All (Disjoint job) js) where
  abbrev Rest : List Run → Type 0
  Rest runs = IsValid runs × AllLive js runs

  delete_run-Rest : (q : Run) → In q job.runs → KeepsRuns Rest (delete_run env q.id)
  unfolding delete_run
  delete_run-Rest q m = Gives-bind_any _ _ (statement-KeepsRuns Rest env _) (λ _. Gives-Any _ (
      Gives-modify _
        (λ s p. (drop-IsValid q.id s.runs p.0, drop-AllLive job js q s.runs apart m p.1))))

  delete_runs-Rest :
      (rs : List Run) → All (λ q. In q job.runs) rs → KeepsRuns Rest (delete_runs env rs)
  unfolding delete_runs
  delete_runs-Rest [] a = Gives-pure-Any _
  delete_runs-Rest (r ∷ rs) a =
      Gives-bind_any _ _ (delete_run-Rest r a.0) (λ _. delete_runs-Rest rs a.1)

  retain-Rest : KeepsRuns Rest (retain env job)
  unfolding retain
  retain-Rest =
      Gives-when _ _ _ (λ _. Gives-pure-Any _)
        (λ _. delete_runs-Rest _ (
          take-All _ _ _ (
            All-of_In (keep_if is_settled job.runs)
              (λ q m. (In-keep_if is_settled q job.runs m).0))))

  swept-Spec :
      (n : ℕ) (r : Result ℕ)
      → Spec (λ s. Rest s.runs) (λ s. Rest s.runs) (swept env job n r) (λ _ s. Rest s.runs)
  unfolding swept
  swept-Spec n (err e) = Spec-pure _ (λ s p. p)
  swept-Spec n (ok done) =
      Spec-bind _ _ (Spec-frame _ (λ runs p. p) (Gives-attempt-Any _ retain-Rest))
        (λ _. Spec-pure _ (λ s p. p))

  sweep_one-Spec :
      (n : ℕ)
      → Spec
          (λ s. IsValid s.runs × IsLive job s.runs × AllLive js s.runs)
          (λ s. Rest s.runs)
          (sweep_one env workloads job n)
          (λ _ s. Rest s.runs)
  unfolding sweep_one
  sweep_one-Spec n =
      Spec-bind _ _
        (Spec-attempt {Q = λ _ s. Rest s.runs} _ (
          Spec-always _ (
            advance-Spec env workloads job (AllLive js) (λ r runs _ l. insert-AllLive js r runs l)
              (λ f r runs _ e l. update-AllLive job js f r runs apart e l))))
        (λ r. swept-Spec n r)

pub sweep_all-Spec :
    (env : Env) (workloads : Workloads) (js : List Job) (n : ℕ)
    → AllDisjoint js
    → Spec
        (λ s. IsValid s.runs × AllLive js s.runs)
        (λ s. IsValid s.runs)
        (for_each (sweep_one env workloads) js n)
        (λ _ s. IsValid s.runs)
unfolding for_each
sweep_all-Spec env workloads [] n d = Spec-pure _ (λ s p. p.0)
sweep_all-Spec env workloads (j ∷ js) n d =
    Spec-bind _ _
      (Spec-error _ (λ s p. p.0)
        (Spec-mono _ (λ s p. (p.0, p.1.0, p.1.1)) (λ a s q. q)
          (sweep_one-Spec env workloads j js d.0 n)))
      (λ n'. sweep_all-Spec env workloads js n' d.1)
