-- ===== src/Job/Starting.antt =====
-- Starting a run of a job that has no active one.
use marstack_cloud.Common.{
  inl, inr, ℕ, String, ◌≡◌, refl, false, List, ◌∷◌, Option, none, some, Spec, Spec-pure, Spec-raise,
  Spec-gets, Spec-mono, Spec-when, Spec-bind, Post, raise, modify, attempt, ◌>>=◌, Bool-cases,
  str_eq, eq_iff, arith, pure, subst, ◌∙◌, Gives-attempt-Any,
}
use marstack_cloud.Fault.{Result, ok, err}
use marstack_cloud.Job.Types.{Job, Run, Env, State, M, Workloads, active}
use marstack_cloud.Job.Rows.{insert_run, has_run}
use marstack_cloud.Job.Runs.{
  translated_with, translated, new_run, started, start_with, start_run, trigger_with, trigger,
}
use marstack_cloud.Job.Counting.{IsValid, count, count-active, has_run-Distinct}
use marstack_cloud.Job.Reading.{
  KeepsRuns, consult-KeepsRuns, statement-KeepsRuns, clock-KeepsRuns, note-KeepsRuns,
  lift-KeepsRuns, IsFresh, find-IsFresh, Spec-reading,
}

module _ {A : Type 0} {P I : List Run → Type 0} where
  framed :
      (r : Result A) (s : State)
      → ((runs : List Run) → P runs → I runs)
      → P s.runs
      → Post (λ s. I s.runs) (λ _ s. P s.runs) (r, s)
  framed (ok a) s w p = p
  framed (err e) s w p = w s.runs p

  pub Spec-frame :
      (m : M A)
      → ((runs : List Run) → P runs → I runs)
      → KeepsRuns P m
      → Spec (λ s. P s.runs) (λ s. I s.runs) m (λ _ s. P s.runs)
  Spec-frame m w h = record { at = λ s p. let (r, s') = m s in framed r s' w (h.at s p).0 }

module _ {P I Q : State → Type 0} where
  pub Spec-modify :
      (f : State → State) → ((s : State) → P s → Q (f s)) → Spec P I (modify f) (λ _. Q)
  unfolding modify
  Spec-modify f h = record { at = h }

after_translate :
    {A : Type 0} (I : State → Type 0) (Q : A → State → Type 0) (r : Result A) (s : State)
    → Post I Q (r, s)
    → Post I Q (translated_with r s)
unfolding translated_with pure raise
after_translate I Q (ok a) s p = p
after_translate I Q (err e) s p = p

module _ {A : Type 0} {P I : State → Type 0} {Q : A → State → Type 0} where
  pub Spec-translated : (m : M A) → Spec P I m Q → Spec P I (translated m) Q
  unfolding translated ◌>>=◌ attempt
  Spec-translated m h = record {
    at = λ s p. let (r, s') = m s in after_translate I Q r s' (h.at s p);
  }

-- The runs are valid at either end, where something else holds too.
IsValid-Post :
    {A : Type 0} (Z : List Run → Type 0) (r : Result A) (s : State)
    → Post (λ s. IsValid s.runs × Z s.runs) (λ _ s. IsValid s.runs × Z s.runs) (r, s)
    → Post (λ s. IsValid s.runs) (λ _ s. IsValid s.runs) (r, s)
IsValid-Post Z (ok a) s p = p.0
IsValid-Post Z (err e) s p = p.0

module _ {A : Type 0} {P : State → Type 0} (Z : List Run → Type 0) where
  pub Spec-IsValid :
      (m : M A)
      → Spec P (λ s. IsValid s.runs × Z s.runs) m (λ _ s. IsValid s.runs × Z s.runs)
      → Spec P (λ s. IsValid s.runs) m (λ _ s. IsValid s.runs)
  Spec-IsValid m h = record { at = λ s p. let (r, s') = m s in IsValid-Post Z r s' (h.at s p) }

pub IsValid-after :
    {A : Type 0} (r : Result A) (s : State)
    → Post (λ s. IsValid s.runs) (λ _ s. IsValid s.runs) (r, s)
    → IsValid s.runs
IsValid-after (ok a) s p = p
IsValid-after (err e) s p = p

-- `Z` is what else holds of the runs, and holds with a run of the job added.
module _ (env : Env) (job : Job) (Z : List Run → Type 0)
    (grows : (r : Run) (runs : List Run) → r.job_id ≡ job.id → Z runs → Z (r ∷ runs)) where
  abbrev pub IsReady : List Run → Type 0
  IsReady runs = IsValid runs × (count job.id runs ≡ 0) × Z runs

  abbrev pub IsKept : List Run → Type 0
  IsKept runs = IsValid runs × Z runs

  kept : (runs : List Run) → IsReady runs → IsKept runs
  kept runs h = (h.0, h.2)

  added :
      (r : Run) (runs : List Run)
      → r.job_id ≡ job.id
      → IsReady runs
      → has_run r.id runs ≡ false
      → IsKept (r ∷ runs)
  added r runs j (v, c, z) n = (
    record {
      one = λ id. elim (Bool-cases (str_eq r.job_id id)) [
        | inl e ↦
            let same : job.id ≡ id = ground (arith, eq_iff r.job_id id) in
            let none_yet : count id runs ≡ 0 = subst (λ x. count x runs ≡ 0) same c in ground arith
        | inr e ↦ let k = v.one id in ground arith
      ];
      distinct = (has_run-Distinct r runs n, v.distinct);
    },
    grows r runs j z,
  )

  insert_run-Spec :
      (r : Run)
      → r.job_id ≡ job.id
      → Spec (λ s. IsReady s.runs) (λ s. IsKept s.runs) (insert_run env r) (λ _ s. IsKept s.runs)
  unfolding insert_run
  insert_run-Spec r j = Spec-bind _ _ (Spec-frame _ kept (statement-KeepsRuns _ env _)) (λ _.
      Spec-bind _ _
        (Spec-gets {Q = λ taken s. IsReady s.runs × (has_run r.id s.runs ≡ taken)} _
          (λ s p. (p, refl)))
        (λ taken.
          Spec-when taken _ _ (λ _. Spec-raise _ (λ s p. kept s.runs p.0))
            (λ e. Spec-modify _ (λ s p. added r s.runs j p.0 (p.1 ∙ e)))))

  started-Spec :
      (r : Run) (made : Result String)
      → r.job_id ≡ job.id
      → Spec
          (λ s. IsReady s.runs)
          (λ s. IsKept s.runs)
          (started env job r made)
          (λ _ s. IsKept s.runs)
  unfolding started
  started-Spec r (err e) j = Spec-bind _ _ (Spec-translated _ (insert_run-Spec _ j)) (λ _.
      Spec-bind _ _ (Spec-frame _ (λ runs k. k) (note-KeepsRuns _ env job _))
        (λ _. Spec-pure _ (λ s p. p)))
  started-Spec r (ok id) j = Spec-bind _ _ (Spec-translated _ (insert_run-Spec _ j)) (λ _.
      Spec-bind _ _ (Spec-frame _ (λ runs k. k) (note-KeepsRuns _ env job _))
        (λ _. Spec-pure _ (λ s p. p)))

  start_with-Spec :
      (number : ℕ) (workloads : Option Workloads)
      → Spec
          (λ s. IsReady s.runs)
          (λ s. IsKept s.runs)
          (start_with env job number workloads)
          (λ _ s. IsKept s.runs)
  unfolding start_with new_run
  start_with-Spec number none = Spec-raise _ (λ s p. kept s.runs p)
  start_with-Spec number (some w) = Spec-bind _ _ (Spec-frame _ kept (lift-KeepsRuns _ _)) (λ _.
      Spec-bind _ _ (Spec-frame _ kept (lift-KeepsRuns _ _)) (λ _.
        Spec-bind _ _ (Spec-frame _ kept (consult-KeepsRuns _ _)) (λ id.
          Spec-bind _ _ (Spec-frame _ kept (clock-KeepsRuns _ env)) (λ now.
            Spec-bind _ _ (Spec-frame _ kept (consult-KeepsRuns _ _)) (λ suffix.
              Spec-bind _ _ (Spec-frame _ kept (Gives-attempt-Any _ (consult-KeepsRuns _ _)))
                (λ made. started-Spec _ made refl))))))

  -- A run is added where the job has no active one.
  pub start_run-Spec :
      (number : ℕ)
      → Spec
          (λ s. IsReady s.runs)
          (λ s. IsKept s.runs)
          (start_run env job number)
          (λ _ s. IsKept s.runs)
  unfolding start_run
  start_run-Spec number = start_with-Spec number env.workloads

trigger_with-Spec :
    (env : Env) (job : Job) (o : Option Run)
    → active job.runs ≡ o
    → Spec
        (λ s. IsValid s.runs × IsFresh env s.runs job)
        (λ s. IsValid s.runs)
        (trigger_with env job o)
        (λ _ s. IsValid s.runs)
unfolding trigger_with
trigger_with-Spec env job (some r) e = Spec-raise _ (λ s p. p.0)
trigger_with-Spec env job none e =
    Spec-IsValid (λ _. Unit {0}) _
      (Spec-mono _
        (λ s p. (p.0, count-active env job.id s.runs (subst (λ x. active x ≡ none) p.1 e), tt))
        (λ a s q. q) (start_run-Spec env job (λ _. Unit) (λ _ _ _ z. tt) 1))

trigger-Spec :
    (env : Env) (p id : String)
    → Spec (λ s. IsValid s.runs) (λ s. IsValid s.runs) (trigger env p id) (λ _ s. IsValid s.runs)
unfolding trigger
trigger-Spec env p id =
    Spec-bind _ _ (Spec-reading IsValid (IsFresh env) _ (λ runs. find-IsFresh env runs p id))
      (λ job. trigger_with-Spec env job (active job.runs) refl)

-- Where at most one run of each job is active and no two runs have the same id, this is still so
-- after a run was asked for, whatever the database and the workloads answer and wherever an error
-- ends the request.
pub trigger-IsValid :
    (env : Env) (project_id id : String) (s : State)
    → IsValid s.runs
    → IsValid (trigger env project_id id s).1.runs
trigger-IsValid env p id s v = IsValid-after _ _ ((trigger-Spec env p id).at s v)
