-- ===== src/Job/Settling.antt =====
-- Advancing the active run of a job: it is noted as running, ended, or ended and tried again.
use marstack_cloud.Common.{
  ℕ, String, ◌≡◌, refl, true, false, List, ◌∷◌, Option, none, some, In, Gives-attempt-Any,
  Gives-bind_any, Gives-pure-Any, Gives-when, Spec, Spec-pure, Spec-bind, Spec-when, str_eq, arith,
  pure, subst,
}
use marstack_cloud.Common.Int.{ℤ}
use marstack_cloud.Fault.{Result, ok, err}
use marstack_cloud.Job.Types.{
  Job, Run, Env, State, Workloads, active, is_active, run_running, run_succeeded, run_failed,
}
use marstack_cloud.Job.Rows.{update_run, ended, end_run, set_run_state}
use marstack_cloud.Job.Sweep.{clear_workload, finish, advance_with, advance_run, advance}
use marstack_cloud.Job.Counting.{
  IsValid, KeepsKeys, count-settle, count-settle_le, count-resume, distinct-update, active-In,
}
use marstack_cloud.Job.Reading.{
  KeepsRuns, consult-KeepsRuns, clock-KeepsRuns, note-KeepsRuns, statement-KeepsRuns, IsFresh,
}
use marstack_cloud.Job.Starting.{
  IsReady, IsKept, Spec-frame, Spec-modify, Spec-IsValid, start_run-Spec, IsValid-after,
}

-- The run that was read as active is a row of the table, and active there.
abbrev pub IsLive : Job → List Run → Type 0
IsLive job runs =
    (r : Run)
    → active job.runs ≡ some r
    → In r runs × (str_eq r.job_id job.id ≡ true) × (is_active r ≡ true)

pub fresh-IsLive :
    (env : Env) (job : Job) (runs : List Run) → IsFresh env runs job → IsLive job runs
fresh-IsLive env job runs fresh r e =
    active-In env job.id runs r (subst (λ x. active x ≡ some r) fresh e)

failed_settles :
    (code : Option ℤ) (message : String) (at : ℕ) (r : Run)
    → is_active (ended run_failed code message at r) ≡ false
unfolding is_active ended
failed_settles code message at r = refl

succeeded_settles :
    (code : Option ℤ) (message : String) (at : ℕ) (r : Run)
    → is_active (ended run_succeeded code message at r) ≡ false
unfolding is_active ended
succeeded_settles code message at r = refl

ended-KeepsKeys :
    (state : String) (code : Option ℤ) (message : String) (at : ℕ)
    → KeepsKeys (ended state code message at)
unfolding ended
ended-KeepsKeys state code message at r = (refl, refl)

-- `Z` is what else holds of the runs, through a run added to the job and through a change of the
-- one that was active.
module _ (env : Env) (workloads : Workloads) (job : Job) (Z : List Run → Type 0)
    (grows : (r : Run) (runs : List Run) → r.job_id ≡ job.id → Z runs → Z (r ∷ runs))
    (changes : (f : Run → Run) (r : Run) (runs : List Run)
      → KeepsKeys f
      → active job.runs ≡ some r
      → Z runs
      → Z (update_run r.id f runs)) where
  abbrev Known : List Run → Type 0
  Known runs = IsValid runs × IsLive job runs × Z runs

  abbrev Kept : List Run → Type 0
  Kept = IsKept env job Z grows

  abbrev Ready : List Run → Type 0
  Ready = IsReady env job Z grows

  module _ (r : Run) (is_it : active job.runs ≡ some r) where
    settled_runs :
        (f : Run → Run) (runs : List Run)
        → KeepsKeys f
        → ((q : Run) → is_active (f q) ≡ false)
        → Known runs
        → Ready (update_run r.id f runs)
    settled_runs f runs k s (v, live, z) =
        let (m, j, a) = live r is_it in
        (
          record {
            one = λ id.
                let le = count-settle_le id r.id f runs s in let one = v.one id in omega arith;
            distinct = distinct-update r.id f runs k v.distinct;
          },
          count-settle job.id f r runs s m j a (v.one job.id),
          changes f r runs k is_it z,
        )

    resumed_runs :
        (f : Run → Run) (runs : List Run)
        → KeepsKeys f
        → ((q : Run) → is_active (f q) ≡ true)
        → Known runs
        → Kept (update_run r.id f runs)
    resumed_runs f runs k s (v, live, z) =
        let (m, j, a) = live r is_it in
        (
          record {
            one = λ id.
                let e = count-resume id f r runs k s v.distinct m a in
                let one = v.one id in omega arith;
            distinct = distinct-update r.id f runs k v.distinct;
          },
          changes f r runs k is_it z,
        )

    Known-Kept : (runs : List Run) → Known runs → Kept runs
    Known-Kept runs h = (h.0, h.2)

    Ready-Kept : (runs : List Run) → Ready runs → Kept runs
    Ready-Kept runs h = (h.0, h.2)

    clear_workload-Known : KeepsRuns Known (clear_workload workloads job r)
    unfolding clear_workload
    clear_workload-Known =
        Gives-when _ _ _ (λ _. Gives-pure-Any _)
          (λ _.
            Gives-bind_any _ _ (Gives-attempt-Any _ (consult-KeepsRuns Known _))
              (λ _. Gives-pure-Any _))

    end_run-Spec :
        (state : String) (code : Option ℤ) (message : String) (at : ℕ)
        → ((q : Run) → is_active (ended state code message at q) ≡ false)
        → Spec
            (λ s. Known s.runs)
            (λ s. Kept s.runs)
            (end_run env r.id state code message at)
            (λ _ s. Ready s.runs)
    unfolding end_run
    end_run-Spec state code message at settles =
        Spec-bind _ _ (Spec-frame _ Known-Kept (statement-KeepsRuns Known env _)) (λ _.
          Spec-modify _
            (λ s p. settled_runs _ s.runs (ended-KeepsKeys state code message at) settles p))

    finish-Spec :
        (state : String) (code : Option ℤ) (message : String)
        → ((at : ℕ) (q : Run) → is_active (ended state code message at q) ≡ false)
        → Spec
            (λ s. Known s.runs)
            (λ s. Kept s.runs)
            (finish env workloads job r state code message)
            (λ _ s. Ready s.runs)
    unfolding finish
    finish-Spec state code message settles =
        Spec-bind _ _ (Spec-frame _ Known-Kept clear_workload-Known) (λ _.
          Spec-bind _ _ (Spec-frame _ Known-Kept (clock-KeepsRuns Known env)) (λ now.
            Spec-bind _ _ (end_run-Spec state code message now (settles now))
              (λ _. Spec-frame _ Ready-Kept (note-KeepsRuns Ready env job _))))

    set_run_state-Spec :
        Spec
          (λ s. Known s.runs)
          (λ s. Kept s.runs)
          (set_run_state env r.id run_running none "")
          (λ _ s. Kept s.runs)
    unfolding set_run_state is_active
    set_run_state-Spec =
        Spec-bind _ _ (Spec-frame _ Known-Kept (statement-KeepsRuns Known env _))
          (λ _. Spec-modify _ (λ s p. resumed_runs _ s.runs (λ q. (refl, refl)) (λ q. refl) p))

    unchanged :
        (n : ℕ)
        → Spec {S = State} (λ s. Known s.runs) (λ s. Kept s.runs) (pure n) (λ _ s. Kept s.runs)
    unchanged n = Spec-pure _ (λ s p. Known-Kept s.runs p)

    advance_with-Spec :
        (answer : Result (String × Option ℤ × String))
        → Spec
            (λ s. Known s.runs)
            (λ s. Kept s.runs)
            (advance_with env workloads job r answer)
            (λ _ s. Kept s.runs)
    unfolding advance_with
    advance_with-Spec (err e) =
        Spec-bind _ _ (finish-Spec run_failed _ _ (failed_settles _ _))
          (λ _. Spec-pure _ (λ s p. Ready-Kept s.runs p))
    advance_with-Spec (ok (state, code, message)) =
        Spec-when _ _ _ (λ _. unchanged 0)
          (λ _.
            Spec-when _ _ _
              (λ _.
                Spec-when _ _ _ (λ _. unchanged 0)
                  (λ _. Spec-bind _ _ set_run_state-Spec (λ _. Spec-pure _ (λ s p. p))))
              (λ _.
                Spec-when _ _ _
                  (λ _.
                    Spec-bind _ _ (finish-Spec run_succeeded _ _ (succeeded_settles _ _))
                      (λ _. Spec-pure _ (λ s p. Ready-Kept s.runs p)))
                  (λ _. Spec-bind _ _ (finish-Spec run_failed _ _ (failed_settles _ _)) (λ _.
                    Spec-when _ _ _
                      (λ _.
                        Spec-bind _ _ (start_run-Spec env job Z grows _)
                          (λ _. Spec-pure _ (λ s p. p)))
                      (λ _. Spec-pure _ (λ s p. Ready-Kept s.runs p))))))

  advance_run-Spec :
      (o : Option Run)
      → active job.runs ≡ o
      → Spec
          (λ s. Known s.runs)
          (λ s. Kept s.runs)
          (advance_run env workloads job o)
          (λ _ s. Kept s.runs)
  unfolding advance_run
  advance_run-Spec none e = Spec-pure _ (λ s p. (p.0, p.2))
  advance_run-Spec (some r) e =
      Spec-when _ _ _ (λ _. unchanged r e 0)
        (λ _.
          Spec-bind _ _
            (Spec-frame _ (Known-Kept r e) (Gives-attempt-Any _ (consult-KeepsRuns Known _)))
            (λ answer. advance_with-Spec r e answer))

  pub advance-Spec :
      Spec (λ s. Known s.runs) (λ s. Kept s.runs) (advance env workloads job) (λ _ s. Kept s.runs)
  unfolding advance
  advance-Spec = advance_run-Spec (active job.runs) refl

-- Advancing a job that was read from the table keeps at most one active run of each job: a run that
-- failed is ended before the next attempt is started, whatever the database and the workloads
-- answer.
pub advance-IsValid :
    (env : Env) (workloads : Workloads) (job : Job) (s : State)
    → IsValid s.runs
    → IsFresh env s.runs job
    → IsValid (advance env workloads job s).1.runs
advance-IsValid env workloads job s v fresh = IsValid-after _ _ (
    (Spec-IsValid (λ _. Unit {0}) _
        (advance-Spec env workloads job (λ _. Unit) (λ _ _ _ z. tt) (λ _ _ _ _ _ z. tt))).at
      s (v, fresh-IsLive env job s.runs fresh, tt))
