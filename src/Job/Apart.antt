-- ===== src/Job/Apart.antt =====
-- Jobs that are read together have no run in common, so that what is done for one leaves the
-- active runs of the others.
use marstack_cloud.Common.{
  inl, inr, ◌≤◌, String, ◌≡◌, refl, ◌≢◌, Bool, true, false, not, List, [], ◌∷◌, some, All, All-map,
  All-of_In, All-sort, In, here, there, In-All, In-keep_if, Bool-cases, str_eq, eq_iff, arith,
  keep_if, subst, sym, ◌∙◌,
}
use marstack_cloud.Job.Types.{Job, Run, Env, active}
use marstack_cloud.Job.Rows.{runs_of, earlier, update_run, drop_run}
use marstack_cloud.Job.Counting.{IsValid, DistinctRuns, count, active-some}
use marstack_cloud.Job.Reading.{IsFresh}
use marstack_cloud.Job.Firing.{DistinctJobs}
use marstack_cloud.Job.Settling.{IsLive}

-- No run of the one has the id of a run of the other.
abbrev pub Disjoint : Job → Job → Type 0
Disjoint j k = (q r : Run) → In q j.runs → In r k.runs → q.id ≢ r.id

abbrev pub AllDisjoint : List Job → Type 0
AllDisjoint [] = Unit
AllDisjoint (j ∷ js) = All (Disjoint j) js × AllDisjoint js

abbrev pub AllLive : List Job → List Run → Type 0
AllLive js runs = All (λ j. IsLive j runs) js

same_job :
    (q r : Run) (runs : List Run)
    → DistinctRuns runs
    → In q runs
    → In r runs
    → q.id ≡ r.id
    → q.job_id ≡ r.job_id
same_job q r [] d m n e = elim m [ ]
same_job q r (_ ∷ rs) d here here e = refl
same_job q r (_ ∷ rs) d here (there n) e = absurd (In-All (λ z. q.id ≢ z.id) n d.0 e)
same_job q r (_ ∷ rs) d (there m) here e = absurd (In-All (λ z. r.id ≢ z.id) m d.0 (sym e))
same_job q r (_ ∷ rs) d (there m) (there n) e = same_job q r rs d.1 m n e

run_of :
    (env : Env) (j : Job) (runs : List Run) (q : Run)
    → IsFresh env runs j
    → In q j.runs
    → In q runs × (str_eq q.job_id j.id ≡ true)
unfolding runs_of
run_of env j runs q fresh m =
    In-All (λ x. In x runs × (str_eq x.job_id j.id ≡ true)) (subst (In q) fresh m)
      (All-sort (earlier env) _ _ (
        All-of_In (keep_if (λ x. str_eq x.job_id j.id) runs)
          (λ x n. In-keep_if (λ x. str_eq x.job_id j.id) x runs n)))

fresh-Disjoint :
    (env : Env) (j k : Job) (runs : List Run)
    → DistinctRuns runs
    → IsFresh env runs j
    → IsFresh env runs k
    → j.id ≢ k.id
    → Disjoint j k
fresh-Disjoint env j k runs d fj fk ne q r m n e =
    let (mq, jq) = run_of env j runs q fj m in
    let (mr, jr) = run_of env k runs r fk n in
    let same = same_job q r runs d mq mr e in
    ne (sym ((eq_iff q.job_id j.id).0 jq) ∙ same ∙ (eq_iff r.job_id k.id).0 jr)

fresh_apart :
    (env : Env) (j : Job) (ks : List Job) (runs : List Run)
    → DistinctRuns runs
    → IsFresh env runs j
    → All (IsFresh env runs) ks
    → All (λ k. j.id ≢ k.id) ks
    → All (Disjoint j) ks
fresh_apart env j [] runs d fj fs a = tt
fresh_apart env j (k ∷ ks) runs d fj fs a =
    (fresh-Disjoint env j k runs d fj fs.0 a.0, fresh_apart env j ks runs d fj fs.1 a.1)

pub fresh-AllDisjoint :
    (env : Env) (js : List Job) (runs : List Run)
    → DistinctRuns runs
    → All (IsFresh env runs) js
    → DistinctJobs js
    → AllDisjoint js
fresh-AllDisjoint env [] runs d f a = tt
fresh-AllDisjoint env (j ∷ js) runs d f a =
    (fresh_apart env j js runs d f.0 f.1 a.0, fresh-AllDisjoint env js runs d f.1 a.1)

In-update :
    (id : String) (f : Run → Run) (q : Run) (runs : List Run)
    → id ≢ q.id
    → In q runs
    → In q (update_run id f runs)
unfolding update_run
In-update id f q [] ne m = elim m [ ]
In-update id f q (_ ∷ rs) ne here = elim (Bool-cases (str_eq q.id id)) [
  | inl e ↦ absurd (ne (sym ((eq_iff q.id id).0 e)))
  | inr e ↦ rw e here
]
In-update id f q (r ∷ rs) ne (there m) = there (In-update id f q rs ne m)

kept_In :
    (b : Bool) (q r : Run) (ks : List Run) → In q ks → In q (elim b [ true ↦ r ∷ ks | false ↦ ks ])
kept_In true q r ks m = there m
kept_In false q r ks m = m

kept_here :
    (b : Bool) (q : Run) (ks : List Run) → b ≡ true → In q (elim b [ true ↦ q ∷ ks | false ↦ ks ])
kept_here true q ks e = here
kept_here false q ks e = absurd (cc)

In-drop :
    (id : String) (q : Run) (runs : List Run) → id ≢ q.id → In q runs → In q (drop_run id runs)
unfolding drop_run
In-drop id q [] ne m = elim m [ ]
In-drop id q (_ ∷ rs) ne here =
    kept_here (not (str_eq q.id id)) q _ (ground (arith, eq_iff q.id id))
In-drop id q (r ∷ rs) ne (there m) = kept_In (not (str_eq r.id id)) q r _ (In-drop id q rs ne m)

-- An active run stays in the table through what is done for a job that has no run in common.
module _ (job : Job) where
  pub update-AllLive :
      (js : List Job) (f : Run → Run) (r : Run) (runs : List Run)
      → All (Disjoint job) js
      → active job.runs ≡ some r
      → AllLive js runs
      → AllLive js (update_run r.id f runs)
  update-AllLive [] f r runs d e l = tt
  update-AllLive (j ∷ js) f r runs d e l = (
    λ q a.
        let (m, owned, live) = l.0 q a in
        (
          In-update r.id f q runs (d.0 r q (member job.runs r e) (member j.runs q a)) m,
          owned,
          live,
        ),
    update-AllLive js f r runs d.1 e l.1,
  )
    where
      member : (rs : List Run) (r : Run) → active rs ≡ some r → In r rs
      member rs r e = (active-some (λ x. In x rs) r rs (All-of_In rs (λ x m. m)) e).0

  pub drop-AllLive :
      (js : List Job) (q : Run) (runs : List Run)
      → All (Disjoint job) js
      → In q job.runs
      → AllLive js runs
      → AllLive js (drop_run q.id runs)
  drop-AllLive [] q runs d m l = tt
  drop-AllLive (j ∷ js) q runs d m l = (
    λ r a.
        let (n, owned, live) = l.0 r a in
        let own = (active-some (λ x. In x j.runs) r j.runs (All-of_In j.runs (λ x k. k)) a).0 in
        (In-drop q.id r runs (d.0 q r m own) n, owned, live),
    drop-AllLive js q runs d.1 m l.1,
  )

pub insert-AllLive :
    (js : List Job) (r : Run) (runs : List Run) → AllLive js runs → AllLive js (r ∷ runs)
insert-AllLive js r runs l =
    All-map (λ j live q a. let (m, owned, on) = live q a in (there m, owned, on)) js l

count_kept :
    (x : String) (b : Bool) (r : Run) (ks rs : List Run)
    → count x ks ≤ count x rs
    → count x (elim b [ true ↦ r ∷ ks | false ↦ ks ]) ≤ count x (r ∷ rs)
count_kept x true r ks rs h = ground arith
count_kept x false r ks rs h = ground arith

count-drop : (x id : String) (runs : List Run) → count x (drop_run id runs) ≤ count x runs
unfolding drop_run
count-drop x id [] = omega arith
count-drop x id (r ∷ rs) = count_kept x (not (str_eq r.id id)) r _ rs (count-drop x id rs)

kept-Distinct :
    (b : Bool) (r : Run) (ks : List Run)
    → All (λ q. r.id ≢ q.id) ks
    → DistinctRuns ks
    → DistinctRuns (elim b [ true ↦ r ∷ ks | false ↦ ks ])
kept-Distinct true r ks a d = (a, d)
kept-Distinct false r ks a d = d

kept-All :
    (P : Run → Type 0) (b : Bool) (r : Run) (ks : List Run)
    → P r
    → All P ks
    → All P (elim b [ true ↦ r ∷ ks | false ↦ ks ])
kept-All P true r ks p a = (p, a)
kept-All P false r ks p a = a

drop-All :
    (P : Run → Type 0) (id : String) (runs : List Run) → All P runs → All P (drop_run id runs)
unfolding drop_run
drop-All P id [] a = tt
drop-All P id (r ∷ rs) a = kept-All P (not (str_eq r.id id)) r _ a.0 (drop-All P id rs a.1)

drop-Distinct :
    (id : String) (runs : List Run) → DistinctRuns runs → DistinctRuns (drop_run id runs)
unfolding drop_run
drop-Distinct id [] d = tt
drop-Distinct id (r ∷ rs) d =
    kept-Distinct (not (str_eq r.id id)) r _ (drop-All (λ q. r.id ≢ q.id) id rs d.0)
      (drop-Distinct id rs d.1)

pub drop-IsValid : (id : String) (runs : List Run) → IsValid runs → IsValid (drop_run id runs)
drop-IsValid id runs v = record {
  one = λ x. let le = count-drop x id runs in let one = v.one x in omega arith;
  distinct = drop-Distinct id runs v.distinct;
}
