-- ===== src/Job/Firing.antt =====
-- Firing the jobs that are due: the loop over jobs that were read before it.
use marstack_cloud.Common.{
  ℕ, String, ◌≡◌, refl, ◌≢◌, List, [], ◌∷◌, Option, none, some, All, Gives-bind_any, Spec,
  Spec-pure, Spec-bind, Spec-mono, Spec-attempt, Post, eq_iff, arith, Gives-attempt-Any,
  Gives-modify, Gives-Any,
}
use marstack_cloud.Fault.{Error, Result, ok, err}
use marstack_cloud.Job.Types.{Job, Run, Env, State, M, active}
use marstack_cloud.Job.Rows.{set_next_at}
use marstack_cloud.Job.Sweep.{fire_one, fire_with, fire_run}
use marstack_cloud.Job.Counting.{IsValid, count}
use marstack_cloud.Job.Reading.{KeepsRuns, clock-KeepsRuns, note-KeepsRuns, statement-KeepsRuns}
use marstack_cloud.Job.Starting.{Spec-frame, start_run-Spec}

-- No two jobs have the same id.
abbrev pub DistinctJobs : List Job → Type 0
DistinctJobs [] = Unit
DistinctJobs (j ∷ js) = All (λ k. j.id ≢ k.id) js × DistinctJobs js

-- A job without an active run when it was read has none now.
abbrev pub Waits : List Run → Job → Type 0
Waits runs j = active j.runs ≡ none → count j.id runs ≡ 0

abbrev pub AllWait : List Job → List Run → Type 0
AllWait js runs = All (Waits runs) js

still_waiting :
    (job : Job) (js : List Job)
    → All (λ k. job.id ≢ k.id) js
    → (r : Run) (runs : List Run) → r.job_id ≡ job.id
    → AllWait js runs
    → AllWait js (r ∷ runs)
still_waiting job [] d r runs same w = tt
still_waiting job (k ∷ ks) d r runs same w = (
  λ e. let c = w.0 e in let ne = d.0 in ground (arith, eq_iff r.job_id k.id, eq_iff job.id k.id),
  still_waiting job ks d.1 r runs same w.1,
)

-- The error is a value next, so that it may promise as much as the result.
pub Spec-always :
    {A : Type 0} {P I : State → Type 0} (m : M A)
    → Spec P I m (λ _. I)
    → Spec P (λ s. (e : Error) → I s) m (λ _. I)
Spec-always {A} {P} {I} m h = record { at = λ s p. let (r, s') = m s in go r s' (h.at s p) }
  where
    go :
        (r : Result A) (s : State)
        → Post I (λ _. I) (r, s)
        → Post (λ s. (e : Error) → I s) (λ _. I) (r, s)
    go (ok a) s p = p
    go (err e) s p = λ _. p

set_next_at-KeepsRuns :
    (P : List Run → Type 0) (env : Env) (id : String) (next at : ℕ)
    → KeepsRuns P (set_next_at env id next at)
unfolding set_next_at
set_next_at-KeepsRuns P env id next at =
    Gives-bind_any _ _ (statement-KeepsRuns P env _) (λ _. Gives-Any _ (Gives-modify _ (λ s p. p)))

module _ (env : Env) (job : Job) (js : List Job) (d : All (λ k. job.id ≢ k.id) js) where
  abbrev pub Before : State → Type 0
  Before s = IsValid s.runs × Waits s.runs job × AllWait js s.runs

  abbrev pub After : State → Type 0
  After s = IsValid s.runs × AllWait js s.runs

  fire_run-Spec :
      (n : ℕ) (o : Option Run)
      → active job.runs ≡ o
      → Spec Before After (fire_run env job n o) (λ _. After)
  unfolding fire_run
  fire_run-Spec n (some r) e =
      Spec-bind _ _
        (Spec-frame {P = λ runs. IsValid runs × Waits runs job × AllWait js runs}
          {I = λ runs. IsValid runs × AllWait js runs} _ (λ runs p. (p.0, p.2))
          (note-KeepsRuns _ env job _))
        (λ _. Spec-pure _ (λ s p. (p.0, p.2)))
  fire_run-Spec n none e =
      Spec-bind _ _
        (Spec-attempt {Q = λ _. After} _ (
          Spec-always _ (
            Spec-mono _ (λ s p. (p.0, p.1 e, p.2)) (λ a s q. q)
              (start_run-Spec env job (AllWait js) (still_waiting job js d) 1))))
        (λ r. Spec-pure _ (λ s p. p))

  fire_with-Spec :
      (n : ℕ) (r : Result (Unit {0})) → Spec Before After (fire_with env job n r) (λ _. After)
  unfolding fire_with
  fire_with-Spec n (err e) = Spec-pure _ (λ s p. (p.0, p.2))
  fire_with-Spec n (ok _) = fire_run-Spec n (active job.runs) refl

  pub fire_one-Spec : (n : ℕ) → Spec Before After (fire_one env job n) (λ _. After)
  unfolding fire_one
  fire_one-Spec n = Spec-bind _ _ (held _ (clock-KeepsRuns _ env)) (λ now.
      Spec-bind _ _ (held _ (clock-KeepsRuns _ env)) (λ at.
        Spec-bind _ _ (held _ (Gives-attempt-Any _ (set_next_at-KeepsRuns _ env _ _ _)))
          (λ r. fire_with-Spec n r)))
    where
      held :
          {A : Type 0} (m : M A)
          → KeepsRuns (λ runs. IsValid runs × Waits runs job × AllWait js runs) m
          → Spec Before After m (λ _. Before)
      held m h = Spec-frame m (λ runs p. (p.0, p.2)) h
