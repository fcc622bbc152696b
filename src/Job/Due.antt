-- ===== src/Job/Due.antt =====
-- The jobs that are due, and the loop that fires them.
use marstack_cloud.Common.{
  inl, inr, ℕ, zero, suc, String, ◌≡◌, ◌≢◌, Bool, List, [], ◌∷◌, All, Gives, Gives-mono, Post, none,
  Fact, Any, Gives-pure, Gives-gets, Gives-bind, Gives-bind_any, Spec, Spec-pure, Spec-bind,
  Spec-mono, Spec-error, for_each, take, keep_if, sort_stable, insert_stable, Bool-cases, All-sort,
  All-insert, sym, subst,
}
use marstack_cloud.Fault.{Result, ok, err}
use marstack_cloud.Job.Types.{
  Job, Run, Env, State, M, consult, statement, clock, active, max_fire_per_pass,
}
use marstack_cloud.Job.Rows.{load_runs, load, due}
use marstack_cloud.Job.Runs.{translated}
use marstack_cloud.Job.Sweep.{fire_due, fire_one}
use marstack_cloud.Job.Counting.{IsValid, count-active}
use marstack_cloud.Job.Reading.{IsFresh, any, translated-Gives, due-IsFresh, Spec-reading}
use marstack_cloud.Job.Starting.{IsValid-after}
use marstack_cloud.Job.Firing.{DistinctJobs, AllWait, fire_one-Spec}

abbrev pub Apart : String → List Job → Type 0
Apart x = All (λ k. x ≢ k.id)

keep_if-Apart : (p : Job → Bool) (x : String) (js : List Job) → Apart x js → Apart x (keep_if p js)
keep_if-Apart p x [] h = tt
keep_if-Apart p x (j ∷ js) h = elim (Bool-cases (p j)) [
  | inl e ↦ rw (e, keep_if, Apart) (h.0, keep_if-Apart p x js h.1)
  | inr e ↦ rw (e, keep_if, Apart) (keep_if-Apart p x js h.1)
]

keep_if-Distinct : (p : Job → Bool) (js : List Job) → DistinctJobs js → DistinctJobs (keep_if p js)
keep_if-Distinct p [] d = tt
keep_if-Distinct p (j ∷ js) d = elim (Bool-cases (p j)) [
  | inl e ↦ rw (e, keep_if, DistinctJobs) (keep_if-Apart p j.id js d.0, keep_if-Distinct p js d.1)
  | inr e ↦ rw (e, keep_if, DistinctJobs) (keep_if-Distinct p js d.1)
]

take-Apart : (n : ℕ) (x : String) (js : List Job) → Apart x js → Apart x (take n js)
take-Apart zero x js h = tt
take-Apart (suc n) x [] h = tt
take-Apart (suc n) x (j ∷ js) h = (h.0, take-Apart n x js h.1)

take-Distinct : (n : ℕ) (js : List Job) → DistinctJobs js → DistinctJobs (take n js)
take-Distinct zero js d = tt
take-Distinct (suc n) [] d = tt
take-Distinct (suc n) (j ∷ js) d = (take-Apart n j.id js d.0, take-Distinct n js d.1)

insert-Distinct :
    (less : Job → Job → Bool) (j : Job) (js : List Job)
    → Apart j.id js
    → DistinctJobs js
    → DistinctJobs (insert_stable less j js)
unfolding insert_stable
insert-Distinct less j [] a d = (tt, tt)
insert-Distinct less j (k ∷ ks) a d = elim (Bool-cases (less k j)) [
  | inl e ↦
      rw (e, insert_stable, DistinctJobs)
        (
          All-insert less (λ x. k.id ≢ x.id) j ks (λ q. a.0 (sym q)) d.0,
          insert-Distinct less j ks a.1 d.1,
        )
  | inr e ↦ rw (e, insert_stable, DistinctJobs) (a, d)
]

pub sort-Distinct :
    (less : Job → Job → Bool) (js : List Job) → DistinctJobs js → DistinctJobs (sort_stable less js)
unfolding sort_stable
sort-Distinct less [] d = tt
sort-Distinct less (j ∷ js) d =
    insert-Distinct less j (sort_stable less js) (All-sort less _ js d.0)
      (sort-Distinct less js d.1)

abbrev pub JobsDistinct : State → Type 0
JobsDistinct s = DistinctJobs s.jobs

-- What the jobs read are apart from is what the rows were.
abbrev pub ReadFrom : List Job → List Job → Type 0
ReadFrom js ks = DistinctJobs ks × ((x : String) → Apart x js → Apart x ks)

pub statement-JobsDistinct :
    (env : Env) (label : String) → Gives JobsDistinct (statement env label) Any
unfolding statement consult
statement-JobsDistinct env label = record { at = λ s p. (p, any _) }

pub load_runs-ReadFrom :
    (env : Env) (js : List Job)
    → DistinctJobs js
    → Gives JobsDistinct (load_runs env js) (ReadFrom js)
unfolding load_runs
load_runs-ReadFrom env [] d = Gives-pure _ (tt, λ x a. tt)
load_runs-ReadFrom env (j ∷ js) d = Gives-bind_any _ _ (statement-JobsDistinct env _) (λ _.
    Gives-bind_any _ _ (Gives-gets _ (λ s p. tt)) (λ runs.
      Gives-bind _ _ (load_runs-ReadFrom env js d.1)
        (λ ks r. Gives-pure _ ((r.1 j.id d.0, r.0), λ x a. (a.0, r.1 x a.1)))))

due-Distinct :
    (env : Env) (now limit : ℕ) → Gives JobsDistinct (translated (due env now limit)) DistinctJobs
unfolding due load
due-Distinct env now limit = translated-Gives _ (
    Gives-bind_any _ _ (statement-JobsDistinct env _) (λ _.
      Gives-bind _ _
        (Gives-gets {F = DistinctJobs} _
          (λ s d. take-Distinct _ _ (sort-Distinct _ _ (keep_if-Distinct _ _ d))))
        (λ js d. Gives-mono _ (λ ks r. r.0) (load_runs-ReadFrom env js d))))

module _ {A : Type 0} (P : State → Type 0) (F : A → Type 0) (Z : List Run → Type 0)
    (G : List Run → A → Type 0) where
  both-Post :
      (r : Result A) (s : State)
      → Fact F r
      → Post (λ s. Z s.runs) (λ a s. Z s.runs × G s.runs a) (r, s)
      → Post (λ s. Z s.runs) (λ a s. F a × Z s.runs × G s.runs a) (r, s)
  both-Post (ok a) s f p = (f, p.0, p.1)
  both-Post (err e) s f p = p

  Spec-both :
      (m : M A)
      → Gives P m F
      → Spec (λ s. Z s.runs) (λ s. Z s.runs) m (λ a s. Z s.runs × G s.runs a)
      → Spec (λ s. P s × Z s.runs) (λ s. Z s.runs) m (λ a s. F a × Z s.runs × G s.runs a)
  Spec-both m g h = record {
    at = λ s p. let (r, s') = m s in both-Post r s' (g.at s p.0).1 (h.at s p.1);
  }

fresh-Waits :
    (env : Env) (runs : List Run) (js : List Job) → All (IsFresh env runs) js → AllWait js runs
fresh-Waits env runs [] h = tt
fresh-Waits env runs (j ∷ js) h = (
  λ e. count-active env j.id runs (subst (λ x. active x ≡ none) h.0 e),
  fresh-Waits env runs js h.1,
)

fire_all-Spec :
    (env : Env) (js : List Job) (n : ℕ)
    → DistinctJobs js
    → Spec
        (λ s. IsValid s.runs × AllWait js s.runs)
        (λ s. IsValid s.runs)
        (for_each (fire_one env) js n)
        (λ _ s. IsValid s.runs)
unfolding for_each
fire_all-Spec env [] n d = Spec-pure _ (λ s p. p.0)
fire_all-Spec env (j ∷ js) n d =
    Spec-bind _ _
      (Spec-error _ (λ s p. p.0)
        (Spec-mono _ (λ s p. (p.0, p.1.0, p.1.1)) (λ a s q. q) (fire_one-Spec env j js d.0 n)))
      (λ n'. fire_all-Spec env js n' d.1)

clock-both :
    (env : Env)
    → Spec
        (λ s. JobsDistinct s × IsValid s.runs)
        (λ s. IsValid s.runs)
        (clock env)
        (λ _ s. JobsDistinct s × IsValid s.runs)
unfolding clock consult
clock-both env = record { at = λ s p. p }

pub fire_due-Spec :
    (env : Env)
    → Spec
        (λ s. JobsDistinct s × IsValid s.runs)
        (λ s. IsValid s.runs)
        (fire_due env)
        (λ _ s. IsValid s.runs)
unfolding fire_due
fire_due-Spec env = Spec-bind _ _ (clock-both env) (λ now.
    Spec-bind _ _
      (Spec-both JobsDistinct DistinctJobs IsValid (λ runs. All (IsFresh env runs)) _
        (due-Distinct env now max_fire_per_pass)
        (Spec-reading IsValid (λ runs. All (IsFresh env runs)) _
          (λ runs. due-IsFresh env runs now max_fire_per_pass)))
      (λ js. started_apart js))
  where
    started_apart :
        (js : List Job)
        → Spec
            (λ s. DistinctJobs js × IsValid s.runs × All (IsFresh env s.runs) js)
            (λ s. IsValid s.runs)
            (for_each (fire_one env) js 0)
            (λ _ s. IsValid s.runs)
    started_apart js = record {
      at = λ s p. (fire_all-Spec env js 0 p.0).at s (p.1, fresh-Waits env s.runs js p.2);
    }

-- Firing the jobs that are due keeps at most one active run of each job, whatever the database and
-- the workloads answer.
pub fire_due-IsValid :
    (env : Env) (s : State) → DistinctJobs s.jobs → IsValid s.runs → IsValid (fire_due env s).1.runs
fire_due-IsValid env s d v = IsValid-after _ _ ((fire_due-Spec env).at s (d, v))
