-- ===== src/Job/Reading.antt =====
-- Reading jobs and asking outside leave the runs alone, and a job is read with its runs.
use marstack_cloud.Common.{
  ℕ, String, ◌≡◌, refl, List, [], ◌∷◌, All, Gives, Gives-pure, Gives-gets, Gives-bind,
  Gives-bind_any, Gives-attempt, Gives-when, Gives-modify, Gives-Any, Gives-pure-Any, Fact, Any,
  Spec, Post, raise, lift, subst, sym,
}
use marstack_cloud.Fault.{Error, Result, ok, err}
use marstack_cloud.Events.{Entry}
use marstack_cloud.Job.Types.{Job, Run, Env, State, M, consult, statement, clock, note}
use marstack_cloud.Job.Rows.{runs_of, load_runs, load, first_of, by_id, by_name, due, all_jobs}
use marstack_cloud.Job.Runs.{translated_with, translated, find_with, find}

-- The runs of the job are those of the table.
abbrev pub IsFresh : Env → List Run → Job → Type 0
IsFresh env runs j = j.runs ≡ runs_of env j.id runs

module _ {A : Type 0} {P : State → Type 0} {F : A → Type 0} where
  raise-Gives : (e : Error) → Gives {A = A} P (raise e) F
  unfolding raise
  raise-Gives e = record { at = λ s p. (p, tt) }

  translated_with-Gives : (r : Result A) → Fact F r → Gives P (translated_with r) F
  unfolding translated_with
  translated_with-Gives (ok a) f = Gives-pure a f
  translated_with-Gives (err e) f = raise-Gives _

  pub translated-Gives : (m : M A) → Gives P m F → Gives P (translated m) F
  unfolding translated
  translated-Gives m h = Gives-bind _ _ (Gives-attempt m h) (λ r f. translated_with-Gives r f)

pub any : {A : Type 0} (r : Result A) → Fact Any r
any (ok a) = tt
any (err e) = tt

module _ (P : List Run → Type 0) where
  -- A method that keeps what holds of the runs.
  abbrev pub KeepsRuns : {A : Type 0} → M A → Type 0
  KeepsRuns m = Gives (λ s. P s.runs) m Any

  pub consult-KeepsRuns : {A : Type 0} (f : ℕ → Result A) → KeepsRuns (consult f)
  unfolding consult
  consult-KeepsRuns f = record { at = λ s p. (p, any (f s.moment)) }

  pub statement-KeepsRuns : (env : Env) (label : String) → KeepsRuns (statement env label)
  unfolding statement
  statement-KeepsRuns env label = consult-KeepsRuns _

  pub clock-KeepsRuns : (env : Env) → KeepsRuns (clock env)
  unfolding clock
  clock-KeepsRuns env = consult-KeepsRuns _

  pub lift-KeepsRuns : {A : Type 0} (r : Result A) → KeepsRuns (lift r)
  unfolding lift
  lift-KeepsRuns r = record { at = λ s p. (p, any r) }

  pub note-KeepsRuns : (env : Env) (job : Job) (entry : Entry) → KeepsRuns (note env job entry)
  unfolding note
  note-KeepsRuns env job entry =
      Gives-when _ _ _ (λ _. Gives-Any _ (Gives-modify _ (λ s p. p))) (λ _. Gives-pure-Any _)

module _ (env : Env) (runs : List Run) where
  load_runs-IsFresh :
      (js : List Job) → Gives (λ s. s.runs ≡ runs) (load_runs env js) (All (IsFresh env runs))
  unfolding load_runs
  load_runs-IsFresh [] = Gives-pure _ tt
  load_runs-IsFresh (j ∷ js) = Gives-bind_any _ _ (statement-KeepsRuns _ env _) (λ _.
      Gives-bind _ _
        (Gives-gets {F = λ r. r ≡ runs_of env j.id runs} _ (λ s p. λ i. runs_of env j.id (p i)))
        (λ read same.
          Gives-bind _ _ (load_runs-IsFresh js) (λ rest fresh. Gives-pure _ (same, fresh))))

  load-IsFresh :
      (select : List Job → List Job)
      → Gives (λ s. s.runs ≡ runs) (load env select) (All (IsFresh env runs))
  unfolding load
  load-IsFresh select =
      Gives-bind_any _ _ (statement-KeepsRuns _ env _)
        (λ _. Gives-bind_any _ _ (Gives-gets _ (λ s p. tt)) (λ jobs. load_runs-IsFresh jobs))

  first_of-IsFresh :
      (js : List Job)
      → All (IsFresh env runs) js
      → Gives (λ s. s.runs ≡ runs) (first_of js) (IsFresh env runs)
  unfolding first_of
  first_of-IsFresh [] h = raise-Gives _
  first_of-IsFresh (j ∷ js) h = Gives-pure j h.0

  by_id-IsFresh : (p id : String) → Gives (λ s. s.runs ≡ runs) (by_id env p id) (IsFresh env runs)
  unfolding by_id
  by_id-IsFresh p id = Gives-bind _ _ (load-IsFresh _) (λ js h. first_of-IsFresh js h)

  by_name-IsFresh :
      (p id : String) → Gives (λ s. s.runs ≡ runs) (by_name env p id) (IsFresh env runs)
  unfolding by_name
  by_name-IsFresh p id = Gives-bind _ _ (load-IsFresh _) (λ js h. first_of-IsFresh js h)

  find_with-IsFresh :
      (p id : String) (r : Result Job)
      → Fact (IsFresh env runs) r
      → Gives (λ s. s.runs ≡ runs) (find_with env p id r) (IsFresh env runs)
  unfolding find_with
  find_with-IsFresh p id (ok j) h = Gives-pure j h
  find_with-IsFresh p id (err e) h =
      Gives-when _ _ _ (λ _. translated-Gives _ (by_name-IsFresh p id)) (λ _. raise-Gives _)

  pub find-IsFresh : (p id : String) → Gives (λ s. s.runs ≡ runs) (find env p id) (IsFresh env runs)
  unfolding find
  find-IsFresh p id =
      Gives-bind _ _ (Gives-attempt _ (by_id-IsFresh p id)) (λ r h. find_with-IsFresh p id r h)

  pub due-IsFresh :
      (now limit : ℕ)
      → Gives (λ s. s.runs ≡ runs) (translated (due env now limit)) (All (IsFresh env runs))
  unfolding due
  due-IsFresh now limit = translated-Gives _ (load-IsFresh _)

  pub all_jobs-IsFresh :
      Gives (λ s. s.runs ≡ runs) (translated (all_jobs env)) (All (IsFresh env runs))
  unfolding all_jobs
  all_jobs-IsFresh = translated-Gives _ (load-IsFresh _)

-- What is read of the runs as they are is true of them afterwards too.
module _ {A : Type 0} (P : List Run → Type 0) (F : List Run → A → Type 0) (m : M A)
    (reads : (runs : List Run) → Gives (λ s. s.runs ≡ runs) m (F runs)) where
  reading :
      (r : Result A) (before : List Run) (s : State)
      → P before
      → s.runs ≡ before
      → Fact (F before) r
      → Post (λ s. P s.runs) (λ a s. P s.runs × F s.runs a) (r, s)
  reading (ok a) before s p e f = (subst P (sym e) p, subst (λ x. F x a) (sym e) f)
  reading (err x) before s p e f = subst P (sym e) p

  pub Spec-reading : Spec (λ s. P s.runs) (λ s. P s.runs) m (λ a s. P s.runs × F s.runs a)
  Spec-reading = record {
    at = λ s p.
        let (r, s') = m s in let g = (reads s.runs).at s refl in reading r s.runs s' p g.0 g.1;
  }
